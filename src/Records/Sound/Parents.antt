-- ===== src/Records/Sound/Parents.antt =====
-- What the rows that a delivery names may do, and new deliveries.
use sukumad.Prelude.{
  Bool-cases, any, All, All-map, All-filterb, update_where, delete_where, any-append_left,
  any-update_where, any-delete_where_keep, All-of_any, All-both, ℤ, pos, eq_ℤ, eq_ℤ_iff, ℕ, suc,
  ◌≡◌, refl, ap, ◌∙◌, inl, inr, true, false, not, ◌&&◌, some, List, [], ◌∷◌, ◌++◌, arith,
}
use sukumad.Text.{Bytes}
use sukumad.Types.{Time, Server, Request, Delivery}
use sukumad.Store.{Db}
use sukumad.Records.Servers.{
  has_server_id, new_server, insert_server, updated_server, write_server, remove_server,
}
use sukumad.Records.Sound.{HasRequest, HasServer, IsSound, delete_where-IsSound}
use sukumad.Records.Requests.{
  has_request_id, insert_request, updated_request, write_request, remove_request,
}
use sukumad.Store.Laws.{branch-keeps}

-- The same deliveries over tables whose rows keep their numbers.
parents-IsSound :
    (rs : List Request) (ss : List Server) (rn sn : ℕ) (db : Db)
    → All (HasRequest rs) db.deliveries
    → All (HasServer ss) db.deliveries
    → IsSound db
    → IsSound (record db { requests = rs; request_seq = rn; servers = ss; server_seq = sn })
parents-IsSound rs ss rn sn db r s v = record {
  numbered = v.numbered;
  keyed = v.keyed;
  unique = v.unique;
  requests = r;
  servers = s;
}

-- A parent that some delivery names is still there if it is not the one that goes.
stays_there : (id j : ℤ) (i : ℤ) → eq_ℤ i j ≡ true → eq_ℤ j id ≡ false → eq_ℤ i id ≡ false
stays_there id j i e n = ground (arith, e, n, eq_ℤ_iff i j)

module _ (db : Db) (v : IsSound db) where
  pub insert_server-IsSound :
      (uid : Bytes) (s : Server) (now : Time) → IsSound (insert_server uid s now db).1
  unfolding insert_server
  insert_server-IsSound uid s now =
      let i = suc db.server_seq in
      let row = new_server now i uid s in
      branch-keeps IsSound _ _ _
        (parents-IsSound db.requests (db.servers ++ row ∷ []) db.request_seq i db v.requests
          (All-map (HasServer db.servers) (HasServer (db.servers ++ row ∷ []))
            (λ d. any-append_left (has_server_id d.server_id) db.servers (row ∷ [])) db.deliveries
            v.servers)
          v)
        (parents-IsSound db.requests db.servers db.request_seq i db v.requests v.servers v)

  pub insert_request-IsSound :
      (uid : Bytes) (r : Request) (now : Time) → IsSound (insert_request uid r now db).1
  unfolding insert_request
  insert_request-IsSound uid r now =
      let i = suc db.request_seq in
      let row = record r { id = pos i; uid = some uid; created = some now; updated = some now } in
      branch-keeps IsSound _ _ _
        (parents-IsSound db.requests db.servers i db.server_seq db v.requests v.servers v)
        (parents-IsSound (db.requests ++ row ∷ []) db.servers i db.server_seq db
          (All-map (HasRequest db.requests) (HasRequest (db.requests ++ row ∷ []))
            (λ d. any-append_left (has_request_id d.request_id) db.requests (row ∷ []))
            db.deliveries v.requests)
          v.servers v)

  pub write_server-IsSound : (s : Server) (now : Time) → IsSound (write_server s now db).1
  unfolding write_server updated_server
  write_server-IsSound s now =
      let p = has_server_id s.id in
      let f = updated_server now s in
      let rows = update_where p f db.servers in
      let changed =
        parents-IsSound db.requests rows db.request_seq db.server_seq db v.requests
          (All-map (HasServer db.servers) (HasServer rows)
            (λ d h. any-update_where (has_server_id d.server_id) p f db.servers (λ r. refl) ∙ h)
            db.deliveries v.servers)
          v in
      elim (Bool-cases (not (any p db.servers))) [
        | inl h ↦ rw h v
        | inr h ↦ rw h (branch-keeps IsSound _ _ _ changed v)
      ]

  pub write_request-IsSound : (r : Request) (now : Time) → IsSound (write_request r now db).1
  unfolding write_request updated_request
  write_request-IsSound r now =
      let p = has_request_id r.id in
      let f = updated_request now r in
      let rows = update_where p f db.requests in
      let changed =
        parents-IsSound rows db.servers db.request_seq db.server_seq db
          (All-map (HasRequest db.requests) (HasRequest rows)
            (λ d h. any-update_where (has_request_id d.request_id) p f db.requests (λ r. refl) ∙ h)
            db.deliveries v.requests)
          v.servers v in
      elim (Bool-cases (not (any p db.requests))) [
        | inl h ↦ rw h v
        | inr h ↦ rw h (branch-keeps IsSound _ _ _ v changed)
      ]

  -- No delivery names the server, or it was not there.
  server_gone :
      (id : ℤ)
      → (any (λ (d : Delivery). eq_ℤ d.server_id id) db.deliveries
          && any (has_server_id id) db.servers)
        ≡ false
      → All (HasServer (delete_where (has_server_id id) db.servers)) db.deliveries
  server_gone id n =
      let rows = delete_where (has_server_id id) db.servers in
      let keep = λ (d : Delivery) (other : eq_ℤ d.server_id id ≡ false).
        any-delete_where_keep (has_server_id d.server_id) (has_server_id id) db.servers
          (λ r e. stays_there id d.server_id r.id e other) in
      elim (Bool-cases (any (λ (d : Delivery). eq_ℤ d.server_id id) db.deliveries)) [
        | inr h ↦
            All-both (λ d. eq_ℤ d.server_id id ≡ false) (HasServer db.servers) (HasServer rows)
              db.deliveries keep (All-of_any (λ d. eq_ℤ d.server_id id) db.deliveries h) v.servers
        | inl h ↦
            All-map (HasServer db.servers) (HasServer rows)
              (λ d there. keep d (not_the_same d there (ground (arith, h, n))) there) db.deliveries
              v.servers
      ]
    where
      not_the_same :
          (d : Delivery)
          → HasServer db.servers d
          → any (has_server_id id) db.servers ≡ false
          → eq_ℤ d.server_id id ≡ false
      not_the_same d there none' = elim (Bool-cases (eq_ℤ d.server_id id)) [
        | inr e ↦ e
        | inl e ↦ absurd (
            cc (
              ap (λ j. any (has_server_id j) db.servers) ((eq_ℤ_iff d.server_id id).0 e),
              there,
              none',
            ))
      ]

  pub remove_server-IsSound : (id : ℤ) (now : Time) → IsSound (remove_server id now db).1
  unfolding remove_server
  remove_server-IsSound id now =
      let named =
        any (λ (d : Delivery). eq_ℤ d.server_id id) db.deliveries
        && any (has_server_id id) db.servers in
      elim (Bool-cases named) [
        | inl h ↦ rw h v
        | inr h ↦ rw h (
            parents-IsSound db.requests (delete_where (has_server_id id) db.servers) db.request_seq
              db.server_seq db v.requests (server_gone id h) v)
      ]

  pub remove_request-IsSound : (id : ℤ) (now : Time) → IsSound (remove_request id now db).1
  unfolding remove_request
  remove_request-IsSound id now =
      let goes = λ (d : Delivery). eq_ℤ d.request_id id in
      let u = delete_where-IsSound goes db v in
      let rows = delete_where (has_request_id id) db.requests in
      let left = delete_where goes db.deliveries in
      branch-keeps IsSound _ _ _ v (
        parents-IsSound rows db.servers db.request_seq db.server_seq
          (record db { deliveries = left })
          (All-both (λ d. not (goes d) ≡ true) (HasRequest db.requests) (HasRequest rows) left
            (λ d n h.
              any-delete_where_keep (has_request_id d.request_id) (has_request_id id) db.requests
                (λ r e. stays_there id d.request_id r.id e (ground (arith, n))) h)
            (All-filterb (λ d. not (goes d)) db.deliveries) u.requests)
          u.servers u)
