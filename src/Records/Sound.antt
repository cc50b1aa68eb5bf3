-- ===== src/Records/Sound.antt =====
-- The keys and the foreign keys of the deliveries, whatever is called.
pub mod Parents
pub mod Children
pub mod Always
use sukumad.Prelude.{
  any, countb, All, All-filterb_keep, update_where, delete_where, All-update_where,
  countb-update_where, countb-filterb-le, ℤ, is_numbered, ◌≤◌, ◌≡◌, Bool, true, not, List, arith,
}
use sukumad.Types.{Server, Request, Delivery}
use sukumad.Store.{Db}
use sukumad.Queue.Moves.{has_id}
use sukumad.Queue.Expand.{is_pair}
use sukumad.Queue.Copies.{IsUnique}
use sukumad.Records.Servers.{has_server_id}
use sukumad.Records.Requests.{has_request_id}

abbrev pub HasRequest : List Request → Delivery → Type 0
HasRequest rs d = any (has_request_id d.request_id) rs ≡ true

abbrev pub HasServer : List Server → Delivery → Type 0
HasServer ss d = any (has_server_id d.server_id) ss ≡ true

pub record IsSound (db : Db) : Type 0 where
  pub numbered : All (λ d. is_numbered db.delivery_seq d.id ≡ true) db.deliveries
  pub keyed : (i : ℤ) → countb (has_id i) db.deliveries ≤ 1
  pub unique : IsUnique db.deliveries
  pub requests : All (HasRequest db.requests) db.deliveries
  pub servers : All (HasServer db.servers) db.deliveries

abbrev pub KeepsKeys : (Delivery → Delivery) → Type 0
KeepsKeys f =
    (d : Delivery)
    → ((f d).id ≡ d.id) × ((f d).request_id ≡ d.request_id) × ((f d).server_id ≡ d.server_id)

-- A statement that changes deliveries, and none of their keys.
pub update_where-IsSound :
    (p : Delivery → Bool) (f : Delivery → Delivery) (db : Db)
    → KeepsKeys f
    → IsSound db
    → IsSound (record db { deliveries = update_where p f db.deliveries })
update_where-IsSound p f db k v = record {
  numbered =
      All-update_where (λ d. is_numbered db.delivery_seq d.id ≡ true) p f db.deliveries
        (λ d _ h. rw ((k d).0) h) v.numbered;
  keyed = λ i. ground (
    arith,
    v.keyed i,
    countb-update_where (has_id i) (has_id i) p f db.deliveries (λ d. ground (arith, k d)),
  );
  unique = λ r s. ground (
    arith,
    v.unique r s,
    countb-update_where (is_pair r s) (is_pair r s) p f db.deliveries (λ d. ground (arith, k d)),
  );
  requests =
      All-update_where (HasRequest db.requests) p f db.deliveries (λ d _ h. rw ((k d).1) h)
        v.requests;
  servers =
      All-update_where (HasServer db.servers) p f db.deliveries (λ d _ h. rw ((k d).2) h) v.servers;
}

-- Deliveries that go.
pub delete_where-IsSound :
    (p : Delivery → Bool) (db : Db)
    → IsSound db
    → IsSound (record db { deliveries = delete_where p db.deliveries })
delete_where-IsSound p db v =
    let q = λ (d : Delivery). not (p d) in
    record {
      numbered =
          All-filterb_keep (λ d. is_numbered db.delivery_seq d.id ≡ true) q db.deliveries
            v.numbered;
      keyed = λ i. omega (arith, v.keyed i, countb-filterb-le (has_id i) q db.deliveries);
      unique = λ r s. omega (arith, v.unique r s, countb-filterb-le (is_pair r s) q db.deliveries);
      requests = All-filterb_keep (HasRequest db.requests) q db.deliveries v.requests;
      servers = All-filterb_keep (HasServer db.servers) q db.deliveries v.servers;
    }
