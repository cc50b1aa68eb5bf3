-- ===== src/Queue/Copies.antt =====
-- What expand_request_to_deliveries adds.
use mathlib.Core.Option.{some-injective}
use mathlib.Core.Path.{subst}
use sukumad.Prelude.{
  Bool-cases, Option-cases, is_some, length, length-append, find, any, countb, All, countb-append,
  any-of_countb, any-append, ℤ, pos, eq_ℤ, eq_ℤ_iff, eq_ℤ_refl, suc, ◌+◌, ◌≤◌, ◌≡◌, refl, sym, ap,
  ◌∙◌, inl, inr, true, false, some, List, [], ◌∷◌, ◌++◌, arith,
}
use sukumad.Types.{Time, Server, Delivery}
use sukumad.Store.{Db, World, next_fault, exec, is_ok}
use sukumad.Queue.Expand.{
  new_delivery, is_pair, can_insert, insert_delivery, insert_copies, expanded,
  expand_request_to_deliveries,
}
use sukumad.Queue.Claim.{get_server, get_request}

-- UNIQUE (request_id, server_id)
abbrev pub IsUnique : List Delivery → Type 0
IsUnique ds = (request server : ℤ) → countb (is_pair request server) ds ≤ 1

-- One delivery more for each server, of the request; and the pairs stay unique.
pub record Inserted (request : ℤ) (servers : List ℤ) (ds ds' : List Delivery) : Type 0 where
  pub longer : length ds' ≡ length ds + length servers
  pub paired :
      (server : ℤ)
      → countb (is_pair request server) ds'
        ≡ countb (is_pair request server) ds + countb (λ s. eq_ℤ s server) servers
  pub unique : IsUnique ds → IsUnique ds'

pub insert_delivery_lem :
    (now : Time) (request server priority : ℤ) (db db' : Db)
    → insert_delivery now request server priority db ≡ some db'
    → Inserted request (server ∷ []) db.deliveries db'.deliveries
unfolding insert_delivery can_insert
insert_delivery_lem now request server priority db db' e =
    elim (Bool-cases (can_insert request server db)) [
      | inr n ↦ absurd (ground (arith, n, e))
      | inl y ↦
          let i = suc db.delivery_seq in
          let row = new_delivery now (pos i) request server priority in
          let ds = db.deliveries in
          let new : Db = record db { deliveries = ds ++ row ∷ []; delivery_seq = i } in
          let same : some new ≡ some db' = ground (arith, y, e) in
          let is : db'.deliveries ≡ ds ++ row ∷ [] =
            ap (λ (x : Db). x.deliveries) (sym (some-injective new db' same)) in
          let fresh : any (is_pair request server) ds ≡ false = ground (arith, y) in
          record {
            longer = ground (arith, is, length-append ds (row ∷ []));
            paired = λ s.
                ground
                  (arith, is, eq_ℤ_refl request, countb-append (is_pair request s) ds (row ∷ []));
            unique = λ u r s. ground (
              arith,
              is,
              u r s,
              any-of_countb (is_pair request server) ds fresh,
              eq_ℤ_iff request r,
              eq_ℤ_iff server s,
              countb-append (is_pair r s) ds (row ∷ []),
            );
          }
    ]

insert_copies_lem :
    (now : Time) (request : ℤ) (servers : List ℤ) (priority : ℤ) (db db' : Db)
    → insert_copies now request servers priority db ≡ some db'
    → Inserted request servers db.deliveries db'.deliveries
unfolding insert_copies
insert_copies_lem now request [] priority db db' e =
    let is : db.deliveries ≡ db'.deliveries =
      ap (λ (x : Db). x.deliveries) (some-injective db db' e) in
    record {
      longer = ground (arith, is);
      paired = λ s. ground (arith, is);
      unique = λ u r s. ground (arith, is, u r s);
    }
insert_copies_lem now request (server ∷ servers) priority db db' e =
    elim (Option-cases (insert_delivery now request server priority db)) [
      | inl n ↦ absurd (ground (arith, n, e))
      | inr (db₁, n) ↦
          let a = insert_delivery_lem now request server priority db db₁ n in
          let b = insert_copies_lem now request servers priority db₁ db' (ground (arith, n, e)) in
          record {
            longer = omega (arith, a.longer, b.longer);
            paired = λ s. ground (arith, a.paired s, b.paired s);
            unique = λ u. b.unique (a.unique u);
          }
    ]

-- The request is there, and so is each server, without a delivery of the request to it.
pub record Accepts (request : ℤ) (servers : List ℤ) (db : Db) : Type 0 where
  pub request_there : is_some (get_request request db) ≡ true
  pub servers_there : All (λ s. is_some (get_server s db) ≡ true) servers
  pub pairs_new : All (λ s. any (is_pair request s) db.deliveries ≡ false) servers

-- Tables that had less than these, and the same requests and servers.
record Before (request : ℤ) (db db' : Db) : Type 0 where
  requests : db'.requests ≡ db.requests
  servers : db'.servers ≡ db.servers
  pairs :
      (s : ℤ)
      → any (is_pair request s) db'.deliveries ≡ false
      → any (is_pair request s) db.deliveries ≡ false

insert_delivery-Accepts :
    (now : Time) (request server priority : ℤ) (db db' : Db)
    → insert_delivery now request server priority db ≡ some db'
    → Accepts request (server ∷ []) db × Before request db db'
unfolding insert_delivery can_insert
insert_delivery-Accepts now request server priority db db' e =
    elim (Bool-cases (can_insert request server db)) [
      | inr n ↦ absurd (ground (arith, n, e))
      | inl y ↦
          let i = suc db.delivery_seq in
          let row = new_delivery now (pos i) request server priority in
          let new : Db = record db { deliveries = db.deliveries ++ row ∷ []; delivery_seq = i } in
          let same : new ≡ db' = some-injective new db' (ground (arith, y, e)) in
          (
            record {
              request_there = ground (arith, y);
              servers_there = (ground (arith, y), tt);
              pairs_new = (ground (arith, y), tt);
            },
            subst (Before request db) same (record {
              requests = refl;
              servers = refl;
              pairs =
                  λ s h. ground (arith, h, any-append (is_pair request s) db.deliveries (row ∷ []));
            }),
          )
    ]

insert_copies-Accepts :
    (now : Time) (request : ℤ) (servers : List ℤ) (priority : ℤ) (start db db' : Db)
    → Before request start db
    → insert_copies now request servers priority db ≡ some db'
    → All (λ s. is_some (get_server s start) ≡ true) servers
      × All (λ s. any (is_pair request s) start.deliveries ≡ false) servers
unfolding insert_copies
insert_copies-Accepts now request [] priority start db db' b e = (tt, tt)
insert_copies-Accepts now request (server ∷ servers) priority start db db' b e =
    elim (Option-cases (insert_delivery now request server priority db)) [
      | inl n ↦ absurd (ground (arith, n, e))
      | inr (db₁, n) ↦
          let (a, b₁) = insert_delivery-Accepts now request server priority db db₁ n in
          let later : Before request start db₁ = record {
            requests = b₁.requests ∙ b.requests;
            servers = b₁.servers ∙ b.servers;
            pairs = λ s h. b.pairs s (b₁.pairs s h);
          } in
          let (there, new) =
            insert_copies-Accepts now request servers priority start db₁ db' later
              (ground (arith, n, e)) in
          (
            (
              ap (λ ss. is_some (find (λ (s : Server). eq_ℤ s.id server) ss)) (sym b.servers)
                  ∙ a.servers_there.0,
              there,
            ),
            (b.pairs server a.pairs_new.0, new),
          )
    ]

-- An expansion that succeeds adds one delivery for the destination and one for each copy, and
-- keeps the pairs of request and server unique; and the request was there, and so was each of the
-- servers, none of which had a delivery of the request. One that fails, so on a pair that is
-- already there and on a request or a server that is missing, adds none.
pub expand_request_to_deliveries-Inserted :
    (request dest : ℤ) (copies : List ℤ) (priority cc_priority : ℤ) (w : World)
    → let (r, w') = expand_request_to_deliveries request dest copies priority cc_priority w in
      (is_ok r ≡ true
        → Inserted request (dest ∷ copies) w.db.deliveries w'.db.deliveries
          × Accepts request (dest ∷ copies) w.db)
      × (is_ok r ≡ false → w'.db.deliveries ≡ w.db.deliveries)
unfolding expand_request_to_deliveries exec expanded
expand_request_to_deliveries-Inserted request dest copies priority cc_priority w =
    elim (Bool-cases (next_fault w.faults)) [
      | inl f ↦ rw f (λ h. absurd (cc), λ h. refl)
      | inr f ↦ elim (Option-cases (expanded w.now request dest copies priority cc_priority w.db)) [
        | inl n ↦ rw f (rw n (λ h. absurd (cc), λ h. refl))
        | inr (db', n) ↦ rw f (rw n (λ h. expanded_lem db' n, λ h. absurd (cc)))
      ]
    ]
  where
    expanded_lem :
        (db' : Db)
        → expanded w.now request dest copies priority cc_priority w.db ≡ some db'
        → Inserted request (dest ∷ copies) w.db.deliveries db'.deliveries
          × Accepts request (dest ∷ copies) w.db
    expanded_lem db' n = elim (Option-cases (insert_delivery w.now request dest priority w.db)) [
      | inl z ↦ absurd (ground (arith, n, z))
      | inr (db₁, z) ↦
          let others : insert_copies w.now request copies cc_priority db₁ ≡ some db' =
            ground (arith, n, z) in
          let a = insert_delivery_lem w.now request dest priority w.db db₁ z in
          let b = insert_copies_lem w.now request copies cc_priority db₁ db' others in
          let (first, before) = insert_delivery-Accepts w.now request dest priority w.db db₁ z in
          let (there, new) =
            insert_copies-Accepts w.now request copies cc_priority w.db db₁ db' before others in
          (
            record {
              longer = omega (arith, a.longer, b.longer);
              paired = λ s. ground (arith, a.paired s, b.paired s);
              unique = λ u. b.unique (a.unique u);
            },
            record {
              request_there = first.request_there;
              servers_there = (first.servers_there.0, there);
              pairs_new = (first.pairs_new.0, new);
            },
          )
    ]
