-- ===== src/Queue/Turn.antt =====
-- Which rows claim_deliveries takes: the first in turn of those that may be sent.
use mathlib.Core.Path.{subst}
use mathlib.Core.Option
use sukumad.Prelude.{
  ◌==◌, if◌then◌else◌, Option-cases, length, take, drop, length-take, take-append-drop, find, any,
  filterb, countb, All, length-filterb, All-take, All-filterb, update_where, find-update_where_each,
  find-test, countb-filterb, ℤ, pos, negsuc, pos_part, neg_part, eq_ℤ, eq_ℤ_iff, lt_ℤ, ℕ, ◌+◌, min,
  ◌≡◌, refl, sym, ap, ◌∙◌, inl, inr, Bool, true, false, ◌&&◌, ◌||◌, some, List, [], ◌∷◌, ◌++◌, map,
  arith,
}
use sukumad.Types.{Time, processing, Delivery}
use sukumad.Store.{Db, ok, World, next_fault, exec}
use sukumad.Queue.Claim.{
  get_server, get_request, can_send, due_before, send_before, sort_by, pick, is_picked, SendRow,
  send_row, keep_some, claimed_row, claim_deliveries,
}
use sukumad.Queue.Counts.{countb-sort_by}
use sukumad.Queue.Sorting.{Sorted, IsOrder, sort_by-Sorted, All-sort_by, length-sort_by}
use sukumad.Queue.Moves.{has_id, get_delivery}

eq_ℤ_parts : (a b : ℤ) → eq_ℤ a b ≡ (pos_part a + neg_part b == pos_part b + neg_part a)
unfolding eq_ℤ
eq_ℤ_parts (pos a) (pos b) = ground arith
eq_ℤ_parts (negsuc a) (negsuc b) = ground arith
eq_ℤ_parts (pos a) (negsuc b) = ground arith
eq_ℤ_parts (negsuc a) (pos b) = ground arith

-- One key of an order.
key_lem :
    (a b c : ℤ)
    → lt_ℤ c b ≡ false
    → lt_ℤ b a ≡ false
    → (lt_ℤ c a ≡ false) × (eq_ℤ c a ≡ true → (eq_ℤ c b ≡ true) × (eq_ℤ b a ≡ true))
key_lem a b c h k = ground (arith, h, k, eq_ℤ_parts c a, eq_ℤ_parts c b, eq_ℤ_parts b a)

due_trans :
    (a b c : Delivery) → due_before c b ≡ false → due_before b a ≡ false → due_before c a ≡ false
due_trans a b c h k = ground (arith, h, k, key_lem a.id b.id c.id)

eq_ℤ_sym : (a b : ℤ) → eq_ℤ a b ≡ eq_ℤ b a
eq_ℤ_sym a b = ground (arith, eq_ℤ_iff a b, eq_ℤ_iff b a)

send_asym : (a b : Delivery) → send_before a b ≡ true → send_before b a ≡ false
send_asym a b h =
    ground (arith, h, eq_ℤ_parts a.priority b.priority, eq_ℤ_parts b.priority a.priority)

send_trans :
    (p q r : Bool) (a b c : ℤ)
    → (lt_ℤ b c || eq_ℤ c b && p) ≡ false
    → (lt_ℤ a b || eq_ℤ b a && q) ≡ false
    → (p ≡ false → q ≡ false → r ≡ false)
    → (lt_ℤ a c || eq_ℤ c a && r) ≡ false
send_trans p q r a b c h k l =
    ground (arith, h, k, l, key_lem c b a, eq_ℤ_sym a b, eq_ℤ_sym b c, eq_ℤ_sym a c)

send_before-IsOrder : IsOrder send_before
send_before-IsOrder = record {
  asym = send_asym;
  trans = λ a b c h k.
      send_trans (due_before c b) (due_before b a) (due_before c a) a.priority b.priority c.priority
        h k (due_trans a b c);
}

-- A row that may be sent has its server and its request, before the claim and after it.
send_row_lem :
    (now : Time) (db : Db) (d : Delivery)
    → can_send now db d ≡ true
    → (r : SendRow) × (send_row db (claimed_row now d) ≡ some r) × (r.delivery ≡ claimed_row now d)
unfolding can_send
send_row_lem now db d h = elim (Option-cases (get_server d.server_id db)) [
  | inl e ↦ absurd (ground (arith, h, e))
  | inr (s, e) ↦ elim (Option-cases (get_request d.request_id db)) [
    | inl n ↦ absurd (ground (arith, h, e, n))
    | inr (r, n) ↦ (
      record { delivery = claimed_row now d; server = s; request = r },
      ground (arith, e, n),
      refl,
    )
  ]
]

rows_lem :
    (now : Time) (db : Db) (ds : List Delivery)
    → All (λ d. can_send now db d ≡ true) ds
    → map (λ (r : SendRow). r.delivery) (keep_some (send_row db) (map (claimed_row now) ds))
      ≡ map (claimed_row now) ds
rows_lem now db [] h = refl
rows_lem now db (d ∷ ds) (h, hs) =
    let (r, e, same) = send_row_lem now db d h in
    rw (e, map, keep_some) (cc (same, rows_lem now db ds hs))

length-map {ℓ κ} :
    {A : Type ℓ} {B : Type κ} (f : A → B) (xs : List A) → length (map f xs) ≡ length xs
length-map f [] = refl
length-map f (x ∷ xs) = omega (arith, length-map f xs)

-- The rows in the order in which they are due, those that are taken first.
abbrev pub in_turn : Time → Db → List Delivery
in_turn now db = sort_by send_before (filterb (can_send now db) db.deliveries)

-- A row that is being sent.
abbrev pub marked : Time → Delivery → Delivery
marked now d = record d { status = processing; updated_at = now }

-- The update of the picked rows, as a search by number sees it.
claimed_where :
    (now : Time) (picked ds : List Delivery) (i : ℤ)
    → find (has_id i) (update_where (is_picked picked) (claimed_row now) ds)
      ≡ Option.map (λ d. if any (has_id i) picked then marked now d else d) (find (has_id i) ds)
claimed_where now picked ds i = elim (Option-cases (find (has_id i) ds)) [
  | inl n ↦ each ∙ ground (arith, n)
  | inr (d, n) ↦
      let same : d.id ≡ i = (eq_ℤ_iff d.id i).0 (find-test (has_id i) ds n) in
      let picks : is_picked picked d ≡ any (has_id i) picked =
        ap (λ (j : ℤ). any (has_id j) picked) same in
      each ∙ ground (arith, n, picks)
]
  where
    each :
        find (has_id i) (update_where (is_picked picked) (claimed_row now) ds)
        ≡ Option.map (λ r. if is_picked picked r then claimed_row now r else r) (find (has_id i) ds)
    each = find-update_where_each (has_id i) (is_picked picked) (claimed_row now) ds (λ r. refl)

-- A claim without a fault of the connection picks the first of the rows that may be sent, in the
-- order of priority, of the time at which they are due and of their numbers, up to the limit; the
-- rest are those that may be sent too and do not come before any of them. It answers with each
-- picked row once, as it is marked, in whatever order; and in the table a row is marked exactly if
-- its number was picked, and nothing else of it or of another row changes.
pub claim_deliveries-in_turn :
    (limit : ℕ) (w : World)
    → next_fault w.faults ≡ false
    → let (r, w') = claim_deliveries limit w in
      (rows : List SendRow) × (r ≡ ok rows)
      × (length rows ≡ min limit (countb (can_send w.now w.db) w.db.deliveries))
      × ((picked : List Delivery) × (rest : List Delivery) × Sorted send_before (picked ++ rest)
          × ((q : Delivery → Bool)
              → countb q (picked ++ rest)
                ≡ countb (λ d. can_send w.now w.db d && q d) w.db.deliveries)
          × ((q : Delivery → Bool)
              → countb q (map (λ (row : SendRow). row.delivery) rows)
                ≡ countb q (map (marked w.now) picked))
          × ((i : ℤ)
              → get_delivery i w'.db
                ≡ Option.map
                    (λ d. if any (has_id i) picked then marked w.now d else d)
                    (get_delivery i w.db)))
unfolding claim_deliveries exec pick
claim_deliveries-in_turn limit w f =
    let can = can_send w.now w.db in
    let due = filterb can w.db.deliveries in
    let turn = in_turn w.now w.db in
    let picked = take limit turn in
    let rows = keep_some (send_row w.db) (map (claimed_row w.now) picked) in
    let open_rows =
      All-sort_by (λ d. can d ≡ true) send_before due (All-filterb can w.db.deliveries) in
    let same = rows_lem w.now w.db picked (All-take (λ d. can d ≡ true) limit turn open_rows) in
    let join = take-append-drop limit turn in
    rw f (
      rows,
      refl,
      omega (
        arith,
        ap length same,
        length-map (λ (r : SendRow). r.delivery) rows,
        length-map (claimed_row w.now) picked,
        length-take limit turn,
        length-sort_by send_before due,
        length-filterb can w.db.deliveries,
      ),
      (
        picked,
        drop limit turn,
        subst (Sorted send_before) (sym join) (sort_by-Sorted send_before send_before-IsOrder due),
        λ q.
            ap (countb q) join
            ∙ (countb-sort_by q send_before due ∙ countb-filterb q can w.db.deliveries),
        λ q. ap (countb q) same,
        claimed_where w.now picked w.db.deliveries,
      ),
    )
