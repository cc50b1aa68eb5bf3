-- ===== src/Records/Sound/Children.antt =====
-- New deliveries, and those that are patched or go.
use mathlib.Core.Path.{subst}
use mathlib.Core.Option.{some-injective}
use sukumad.Prelude.{
  Bool-cases, Option-cases, countb, All, All-append, All-map, countb-append, some-of_any, ℤ, pos,
  eq_ℤ_iff, is_numbered, numbered_later, numbered_other, ℕ, suc, ◌≡◌, refl, sym, ◌∙◌, inl, inr,
  true, Option, none, some, List, [], ◌∷◌, ◌++◌, arith,
}
use sukumad.Types.{Time, Status, Delivery}
use sukumad.Store.{Db}
use sukumad.Queue.Moves.{has_id}
use sukumad.Queue.Expand.{new_delivery, can_insert, insert_delivery, insert_copies, expanded}
use sukumad.Queue.Copies.{insert_delivery_lem}
use sukumad.Records.Servers.{has_server_id}
use sukumad.Records.Requests.{has_request_id}
use sukumad.Records.Deliveries.{patched_row, write_patch, remove_delivery}
use sukumad.Records.Sound.{
  HasRequest, HasServer, IsSound, update_where-IsSound, delete_where-IsSound,
}
use sukumad.Store.Laws.{branch-keeps}

All-numbered_later :
    (n : ℕ) (ds : List Delivery)
    → All (λ d. is_numbered n d.id ≡ true) ds
    → All (λ d. is_numbered (suc n) d.id ≡ true) ds
All-numbered_later n ds =
    All-map (λ (d : Delivery). is_numbered n d.id ≡ true)
      (λ (d : Delivery). is_numbered (suc n) d.id ≡ true) (λ d. numbered_later n d.id) ds

next_is_new :
    (n : ℕ) (ds : List Delivery)
    → All (λ d. is_numbered n d.id ≡ true) ds
    → countb (has_id (pos (suc n))) ds ≡ 0
next_is_new n [] h = refl
next_is_new n (d ∷ ds) (h, hs) = ground (arith, numbered_other n d.id h, next_is_new n ds hs)

insert_delivery-IsSound :
    (now : Time) (request server priority : ℤ) (db db' : Db)
    → insert_delivery now request server priority db ≡ some db'
    → IsSound db
    → IsSound db'
unfolding insert_delivery can_insert
insert_delivery-IsSound now request server priority db db' e v =
    elim (Bool-cases (can_insert request server db)) [
      | inr n ↦ absurd (ground (arith, n, e))
      | inl y ↦
          let i = suc db.delivery_seq in
          let ds = db.deliveries in
          let row = new_delivery now (pos i) request server priority in
          let new : Db = record db { deliveries = ds ++ row ∷ []; delivery_seq = i } in
          let same : some new ≡ some db' = ground (arith, y, e) in
          let unique =
            (insert_delivery_lem now request server priority db new (e ∙ sym same)).unique
              v.unique in
          subst IsSound (some-injective new db' same) (record {
            numbered =
                All-append (λ d. is_numbered i d.id ≡ true) ds (row ∷ [])
                  (All-numbered_later db.delivery_seq ds v.numbered) (ground arith, tt);
            keyed = λ j. ground (
              arith,
              v.keyed j,
              next_is_new db.delivery_seq ds v.numbered,
              eq_ℤ_iff (pos i) j,
              countb-append (has_id j) ds (row ∷ []),
            );
            unique = unique;
            requests =
                All-append (HasRequest db.requests) ds (row ∷ []) v.requests
                  (sym (some-of_any (has_request_id request) db.requests) ∙ ground (arith, y), tt);
            servers =
                All-append (HasServer db.servers) ds (row ∷ []) v.servers
                  (sym (some-of_any (has_server_id server) db.servers) ∙ ground (arith, y), tt);
          })
    ]

insert_copies-IsSound :
    (now : Time) (request : ℤ) (servers : List ℤ) (priority : ℤ) (db db' : Db)
    → insert_copies now request servers priority db ≡ some db'
    → IsSound db
    → IsSound db'
unfolding insert_copies
insert_copies-IsSound now request [] priority db db' e v = subst IsSound (some-injective db db' e) v
insert_copies-IsSound now request (server ∷ servers) priority db db' e v =
    elim (Option-cases (insert_delivery now request server priority db)) [
      | inl n ↦ absurd (ground (arith, n, e))
      | inr (db₁, n) ↦
          insert_copies-IsSound now request servers priority db₁ db' (ground (arith, n, e))
            (insert_delivery-IsSound now request server priority db db₁ n v)
    ]

pub expanded-IsSound :
    (now : Time) (request dest : ℤ) (copies : List ℤ) (priority cc_priority : ℤ) (db db' : Db)
    → expanded now request dest copies priority cc_priority db ≡ some db'
    → IsSound db
    → IsSound db'
unfolding expanded
expanded-IsSound now request dest copies priority cc_priority db db' e v =
    elim (Option-cases (insert_delivery now request dest priority db)) [
      | inl n ↦ absurd (ground (arith, n, e))
      | inr (db₁, n) ↦
          insert_copies-IsSound now request copies cc_priority db₁ db' (ground (arith, n, e))
            (insert_delivery-IsSound now request dest priority db db₁ n v)
    ]

pub write_patch-IsSound :
    (id : ℤ) (o : Option (Option Status)) (t : Option Time) (p : Option ℤ) (now : Time) (db : Db)
    → IsSound db
    → IsSound (write_patch id o t p now db).1
unfolding write_patch patched_row
write_patch-IsSound id none t p now db v = branch-keeps IsSound _ _ _ v v
write_patch-IsSound id (some s) t p now db v =
    update_where-IsSound (has_id id) (patched_row now s t p) db (λ d. (refl, refl, refl)) v

pub remove_delivery-IsSound :
    (id : ℤ) (now : Time) (db : Db) → IsSound db → IsSound (remove_delivery id now db).1
unfolding remove_delivery
remove_delivery-IsSound id now db v =
    branch-keeps IsSound _ _ _ v (delete_where-IsSound (has_id id) db v)
