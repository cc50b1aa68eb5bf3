-- ===== src/Records/Requests.antt =====
-- internal/repo/request_repo.go.
use sukumad.Prelude.{
  if◌then◌else◌, find, any, update_where, delete_where, ℤ, pos, eq_ℤ, lt_ℤ, suc, Bool, false, not,
  ◌&&◌, ◌||◌, Option, some, List, [], ◌∷◌, ◌++◌,
}
use sukumad.Text.{Bytes, text_eq}
use sukumad.Types.{Time, Request, Delivery}
use sukumad.Store.{Db, no_rows, constraint, Result, ok, err, Action, exec, query, one_row}
use sukumad.Accounts.Users.{page, ordered}
use sukumad.Records.Deliveries.{is_needed}
use sukumad.Queue.Expand.{expand_request_to_deliveries}

abbrev pub has_request_id : ℤ → Request → Bool
has_request_id id r = eq_ℤ r.id id

unfoldable pub list_requests : ℤ → ℤ → Action (Result (List Request))
unfolding ordered
list_requests limit offset =
    query (λ now db. page limit offset (ordered (λ r s. lt_ℤ s.id r.id) db.requests))

unfoldable pub get_request_by_id : ℤ → Action (Result Request)
get_request_by_id id = query (λ now db. one_row (find (has_request_id id) db.requests))

abbrev same_key : Option Bytes → Option Bytes → Bool
same_key (some a) (some b) = text_eq a b
same_key _ _ = false

-- UNIQUE, where a NULL is equal to nothing.
unfoldable pub has_key : Option Bytes → Request → Bool
has_key key r = same_key r.idempotency_key key

unfoldable pub insert_request : Bytes → Request → Time → Db → Result Request × Db
unfolding has_key
insert_request uid r now db =
    let i = suc db.request_seq in
    let row = record r { id = pos i; uid = some uid; created = some now; updated = some now } in
    if any
      (λ q. has_key r.idempotency_key q || same_key q.uid (some uid) || has_request_id (pos i) q)
      db.requests
    then (err constraint, record db { request_seq = i })
    else (ok row, record db { requests = db.requests ++ row ∷ []; request_seq = i })

unfoldable pub create_request : Bytes → Request → Action (Result Request)
unfolding insert_request
create_request uid r = exec (insert_request uid r)

unfoldable pub updated_request : Time → Request → Request → Request
updated_request now r row = record r {
  id = row.id;
  uid = row.uid;
  created = row.created;
  updated = some now;
}

unfoldable pub write_request : Request → Time → Db → Result Request × Db
unfolding has_key updated_request
write_request r now db =
    if not (any (has_request_id r.id) db.requests)
    then (err no_rows, db)
    else if any (λ q. has_key r.idempotency_key q && not (has_request_id r.id q)) db.requests
    then (err constraint, db)
    else (
      ok (record r { updated = some now }),
      record db {
        requests = update_where (has_request_id r.id) (updated_request now r) db.requests;
      },
    )

unfoldable pub update_request : Request → Action (Result Request)
unfolding write_request
update_request r = exec (write_request r)

-- ON DELETE CASCADE takes the deliveries along, unless one that stays depends on one of them.
unfoldable pub remove_request : ℤ → Time → Db → Result (Unit {0}) × Db
unfolding is_needed
remove_request id now db =
    let goes = λ (d : Delivery). eq_ℤ d.request_id id in
    if is_needed goes db.deliveries && any (has_request_id id) db.requests
    then (err constraint, db)
    else (
      ok tt,
      record db {
        requests = delete_where (has_request_id id) db.requests;
        deliveries = delete_where goes db.deliveries;
      },
    )

unfoldable pub delete_request : ℤ → Action (Result (Unit {0}))
unfolding remove_request
delete_request id = exec (remove_request id)

unfoldable pub expand : ℤ → ℤ → List ℤ → Action (Result (Unit {0}))
unfolding expand_request_to_deliveries
expand request dest copies = expand_request_to_deliveries request dest copies (pos 100) (pos 50)
