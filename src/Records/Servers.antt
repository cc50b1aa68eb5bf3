-- ===== src/Records/Servers.antt =====
-- internal/repo/server_repo.go.
use sukumad.Prelude.{
  if◌then◌else◌, find, any, update_where, delete_where, ℤ, pos, eq_ℤ, lt_ℤ, ℕ, suc, Bool, false,
  not, ◌&&◌, ◌||◌, none, some, List, [], ◌∷◌, ◌++◌,
}
use sukumad.Text.{Bytes, str, text_eq}
use sukumad.Types.{Time, Server, Delivery}
use sukumad.Store.{Db, no_rows, constraint, Result, ok, err, Action, exec, query, one_row}
use sukumad.Accounts.Users.{page, ordered}

abbrev pub has_server_id : ℤ → Server → Bool
has_server_id id s = eq_ℤ s.id id

unfoldable pub list_servers : ℤ → ℤ → Action (Result (List Server))
unfolding ordered
list_servers limit offset =
    query (λ now db. page limit offset (ordered (λ r s. lt_ℤ r.id s.id) db.servers))

unfoldable pub get_server_by_id : ℤ → Action (Result Server)
get_server_by_id id = query (λ now db. one_row (find (has_server_id id) db.servers))

-- The CHECK on auth_method.
unfoldable pub is_auth_method : Bytes → Bool
is_auth_method m = text_eq m (str "none") || text_eq m (str "basic") || text_eq m (str "bearer")

-- The row that the INSERT makes: the columns that it leaves out have their defaults; a parameter
-- that is nil makes a NULL, not a default. `uid` is the database's uuid.
unfoldable pub new_server : Time → ℕ → Bytes → Server → Server
new_server now i uid s = record s {
  id = pos i;
  uid = some uid;
  created = some now;
  updated = some now;
}

unfoldable pub insert_server : Bytes → Server → Time → Db → Result Server × Db
unfolding new_server is_auth_method
insert_server uid s now db =
    let i = suc db.server_seq in
    let row = new_server now i uid s in
    if is_auth_method s.auth_method
      && not (any (λ (r : Server). elim r.uid [ none ↦ false | some u ↦ text_eq u uid ]) db.servers)
      && not (any (has_server_id (pos i)) db.servers)
    then (ok row, record db { servers = db.servers ++ row ∷ []; server_seq = i })
    else (err constraint, record db { server_seq = i })

unfoldable pub create_server : Bytes → Server → Action (Result Server)
unfolding insert_server
create_server uid s = exec (insert_server uid s)

-- Every column but the id, the uid and the time of creation.
unfoldable pub updated_server : Time → Server → Server → Server
updated_server now s row = record s {
  id = row.id;
  uid = row.uid;
  created = row.created;
  updated = some now;
}

unfoldable pub write_server : Server → Time → Db → Result Server × Db
unfolding updated_server is_auth_method
write_server s now db =
    if not (any (has_server_id s.id) db.servers)
    then (err no_rows, db)
    else if is_auth_method s.auth_method
    then (
      ok (record s { updated = some now }),
      record db { servers = update_where (has_server_id s.id) (updated_server now s) db.servers },
    )
    else (err constraint, db)

unfoldable pub update_server : Server → Action (Result Server)
unfolding write_server
update_server s = exec (write_server s)

-- A server that a delivery names cannot go.
unfoldable pub remove_server : ℤ → Time → Db → Result (Unit {0}) × Db
remove_server id now db =
    if any (λ (d : Delivery). eq_ℤ d.server_id id) db.deliveries
      && any (has_server_id id) db.servers
    then (err constraint, db)
    else (ok tt, record db { servers = delete_where (has_server_id id) db.servers })

unfoldable pub delete_server : ℤ → Action (Result (Unit {0}))
unfolding remove_server
delete_server id = exec (remove_server id)
