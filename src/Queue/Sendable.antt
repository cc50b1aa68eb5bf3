-- ===== src/Queue/Sendable.antt =====
-- What is expanded can be claimed.
use mathlib.Core.Path.{subst}
use mathlib.Core.Option.{some-injective}
use sukumad.Prelude.{
  Bool-cases, Option-cases, find, any, All, All-map, ℤ, pos, eq_ℤ, eq_ℤ_iff, eq_ℤ_refl, suc, ◌≤◌,
  ◌≡◌, refl, sym, ap, ◌∙◌, inl, inr, Bool, true, ◌&&◌, some, List, [], ◌∷◌, ◌++◌, arith,
}
use sukumad.Types.{Time, Server, Request, Delivery}
use sukumad.Store.{Db, World, next_fault, exec, is_ok}
use sukumad.Queue.Claim.{get_server, get_request, server_open, request_open, can_send}
use sukumad.Queue.Expand.{
  new_delivery, is_pair, can_insert, insert_delivery, insert_copies, expanded,
  expand_request_to_deliveries,
}

-- A delivery of the request to the server that may be sent at that time.
abbrev pub sendable : Time → Db → ℤ → ℤ → Delivery → Bool
sendable now db request server d = is_pair request server d && can_send now db d

-- What an insertion leaves alone, and what it adds.
record Extends (db db' : Db) : Type 0 where
  servers : db'.servers ≡ db.servers
  requests : db'.requests ≡ db.requests
  kept : (p : Delivery → Bool) → any p db.deliveries ≡ true → any p db'.deliveries ≡ true

any-left : (p : Delivery → Bool) (xs ys : List Delivery) → any p xs ≡ true → any p (xs ++ ys) ≡ true
any-left p [] ys e = absurd (cc)
any-left p (x ∷ xs) ys e = ground (arith, any-left p xs ys)

any-right :
    (p : Delivery → Bool) (x : Delivery) (xs : List Delivery)
    → p x ≡ true
    → any p (xs ++ x ∷ []) ≡ true
any-right p x [] e = ground arith
any-right p x (y ∷ ys) e = ground (arith, any-right p x ys)

-- The server and the request are there and not suspended.
abbrev pub is_open_pair : Db → ℤ → ℤ → Bool
is_open_pair db request server =
    server_open (get_server server db) && request_open (get_request request db)

insert_delivery-sendable :
    (now later : Time) (request server priority : ℤ) (db db' : Db)
    → insert_delivery now request server priority db ≡ some db'
    → now ≤ later
    → Extends db db'
      × (is_open_pair db request server ≡ true
          → any (sendable later db request server) db'.deliveries ≡ true)
unfolding insert_delivery can_send
insert_delivery-sendable now later request server priority db db' e h =
    elim (Bool-cases (can_insert request server db)) [
      | inr n ↦ absurd (ground (arith, n, e))
      | inl y ↦
          let i = suc db.delivery_seq in
          let row = new_delivery now (pos i) request server priority in
          let new : Db = record db { deliveries = db.deliveries ++ row ∷ []; delivery_seq = i } in
          let same : new ≡ db' = some-injective new db' (ground (arith, y, e)) in
          subst
            (λ (x : Db).
              Extends db x
              × (is_open_pair db request server ≡ true
                  → any (sendable later db request server) x.deliveries ≡ true))
            same
            (
              record {
                servers = refl;
                requests = refl;
                kept = λ p k. any-left p db.deliveries (row ∷ []) k;
              },
              λ o.
                  any-right (sendable later db request server) row db.deliveries
                    (ground (arith, o, h, eq_ℤ_refl request, eq_ℤ_refl server)),
            )
    ]

Extends-trans : {a b c : Db} → Extends a b → Extends b c → Extends a c
Extends-trans x y = record {
  servers = y.servers ∙ x.servers;
  requests = y.requests ∙ x.requests;
  kept = λ p k. y.kept p (x.kept p k);
}

is_open_pair-Extends :
    {a b : Db} (request server : ℤ)
    → Extends a b
    → is_open_pair b request server ≡ is_open_pair a request server
is_open_pair-Extends request server x = cc (
  ap (find (λ (s : Server). eq_ℤ s.id server)) x.servers,
  ap (find (λ (r : Request). eq_ℤ r.id request)) x.requests,
)

any-Extends :
    {a b : Db} (later : Time) (request server : ℤ) (ds : List Delivery)
    → Extends a b
    → any (sendable later b request server) ds ≡ any (sendable later a request server) ds
unfolding can_send
any-Extends later request server [] x = refl
any-Extends later request server (d ∷ ds) x = cc (
  ap (find (λ (s : Server). eq_ℤ s.id d.server_id)) x.servers,
  ap (find (λ (r : Request). eq_ℤ r.id d.request_id)) x.requests,
  any-Extends later request server ds x,
)

-- Each server that is open gets a row that may be sent.
abbrev AllSendable : Time → Db → ℤ → List Delivery → List ℤ → Type 0
AllSendable later db request ds servers =
    All (λ s. is_open_pair db request s ≡ true → any (sendable later db request s) ds ≡ true)
      servers

-- The rows of the servers that follow, seen from before the first one.
all_first :
    (later : Time) (request server : ℤ) (servers : List ℤ) (db db₁ db' : Db)
    → Extends db db₁
    → Extends db₁ db'
    → (is_open_pair db request server ≡ true
        → any (sendable later db request server) db₁.deliveries ≡ true)
    → AllSendable later db₁ request db'.deliveries servers
    → AllSendable later db request db'.deliveries (server ∷ servers)
all_first later request server servers db db₁ db' x y first others = (
  λ o. y.kept (sendable later db request server) (first o),
  All-map
      (λ s.
        is_open_pair db₁ request s ≡ true
        → any (sendable later db₁ request s) db'.deliveries ≡ true)
      (λ s.
        is_open_pair db request s ≡ true → any (sendable later db request s) db'.deliveries ≡ true)
      (λ s k o.
        sym (any-Extends later request s db'.deliveries x)
        ∙ k (is_open_pair-Extends request s x ∙ o))
      servers others,
)

insert_copies-sendable :
    (now later : Time) (request : ℤ) (servers : List ℤ) (priority : ℤ) (db db' : Db)
    → insert_copies now request servers priority db ≡ some db'
    → now ≤ later
    → Extends db db' × AllSendable later db request db'.deliveries servers
unfolding insert_copies
insert_copies-sendable now later request [] priority db db' e h =
    let same : db ≡ db' = some-injective db db' e in
    (subst (Extends db) same (record { servers = refl; requests = refl; kept = λ p k. k }), tt)
insert_copies-sendable now later request (server ∷ servers) priority db db' e h =
    elim (Option-cases (insert_delivery now request server priority db)) [
      | inl n ↦ absurd (ground (arith, n, e))
      | inr (db₁, n) ↦
          let (x, first) = insert_delivery-sendable now later request server priority db db₁ n h in
          let (y, others) =
            insert_copies-sendable now later request servers priority db₁ db' (ground (arith, n, e))
              h in
          (Extends-trans x y, all_first later request server servers db db₁ db' x y first others)
    ]

expanded-sendable :
    (now later : Time) (request dest : ℤ) (copies : List ℤ) (priority cc_priority : ℤ) (db db' : Db)
    → expanded now request dest copies priority cc_priority db ≡ some db'
    → now ≤ later
    → Extends db db' × AllSendable later db request db'.deliveries (dest ∷ copies)
unfolding expanded
expanded-sendable now later request dest copies priority cc_priority db db' e h =
    elim (Option-cases (insert_delivery now request dest priority db)) [
      | inl n ↦ absurd (ground (arith, n, e))
      | inr (db₁, n) ↦
          let (x, first) = insert_delivery-sendable now later request dest priority db db₁ n h in
          let (y, others) =
            insert_copies-sendable now later request copies cc_priority db₁ db'
              (ground (arith, n, e)) h in
          (Extends-trans x y, all_first later request dest copies db db₁ db' x y first others)
    ]

All-at : (P : ℤ → Type 0) (s : ℤ) (xs : List ℤ) → All P xs → any (eq_ℤ s) xs ≡ true → P s
All-at P s [] a e = absurd (cc)
All-at P s (x ∷ xs) (px, a) e = elim (Bool-cases (eq_ℤ s x)) [
  | inl k ↦ subst P (sym ((eq_ℤ_iff s x).0 k)) px
  | inr k ↦ All-at P s xs a (ground (arith, e, k))
]

-- After an expansion that succeeds, for the destination and for each copy, if neither the server
-- nor the request is suspended, there is a delivery of the request to the server that the next
-- claim may take, at that time or later.
pub expand_request_to_deliveries-sendable :
    (request dest : ℤ) (copies : List ℤ) (priority cc_priority : ℤ) (later : Time) (w : World)
    (s : ℤ)
    → w.now ≤ later
    → any (eq_ℤ s) (dest ∷ copies) ≡ true
    → is_open_pair w.db request s ≡ true
    → is_ok (expand_request_to_deliveries request dest copies priority cc_priority w).0 ≡ true
    → let w' = (expand_request_to_deliveries request dest copies priority cc_priority w).1 in
      any (sendable later w'.db request s) w'.db.deliveries ≡ true
unfolding expand_request_to_deliveries exec expanded insert_copies
expand_request_to_deliveries-sendable request dest copies priority cc_priority later w s h m o =
    elim (Bool-cases (next_fault w.faults)) [
      | inl f ↦ rw f (λ e. absurd (cc))
      | inr f ↦ elim (Option-cases (expanded w.now request dest copies priority cc_priority w.db)) [
        | inl n ↦ rw f (rw n (λ e. absurd (cc)))
        | inr (db', n) ↦
            let (x, all) =
              expanded-sendable w.now later request dest copies priority cc_priority w.db db' n h in
            let open_at = λ (i : ℤ).
              is_open_pair w.db request i ≡ true
              → any (sendable later w.db request i) db'.deliveries ≡ true in
            rw f (
              rw n (λ e.
                any-Extends later request s db'.deliveries x
                ∙ All-at open_at s (dest ∷ copies) all m o))
      ]
    ]
