-- ===== src/Store/Calls.antt =====
-- What a call of the database does: it runs one statement at the clock's time, or fails and
-- changes nothing. Each call takes the next of the world's faults: `true` says that the
-- connection fails.
use sukumad.Prelude.{if◌then◌else◌, Bool, true, false, Option, none, some, List, [], ◌∷◌}
use sukumad.Types.{Time}
use sukumad.Store.Tables.{Db}

pub data DbError : Type 0 where
  connection no_rows constraint : DbError

pub data Result {ℓ} (A : Type ℓ) : Type ℓ where
  ok : A → Result A
  err : DbError → Result A

pub record World : Type 0 where
  pub db : Db
  pub now : Time
  pub faults : List Bool

abbrev pub Action {ℓ} : Type ℓ → Type ℓ
Action A = World → A × World

infixl 5 ◌>>=◌ ◌>>◌
abbrev pub ◌>>=◌ {ℓ κ} : {A : Type ℓ} {B : Type κ} → Action A → (A → Action B) → Action B
◌>>=◌ m f w = let (a, w') = m w in f a w'

abbrev pub ◌>>◌ {ℓ κ} : {A : Type ℓ} {B : Type κ} → Action A → Action B → Action B
m >> k = m >>= λ _. k

abbrev pub pure {ℓ} : {A : Type ℓ} → A → Action A
pure a w = (a, w)

abbrev pub clock : Action Time
clock w = (w.now, w)

abbrev pub next_fault : List Bool → Bool
next_fault [] = false
next_fault (f ∷ fs) = f

abbrev pub later_faults : List Bool → List Bool
later_faults [] = []
later_faults (f ∷ fs) = fs

-- A statement that reads and writes the tables.
unfoldable pub exec {ℓ} : {A : Type ℓ} → (Time → Db → Result A × Db) → Action (Result A)
exec stmt w =
    let (r, db') = stmt w.now w.db in
    if next_fault w.faults
    then (err connection, record w { faults = later_faults w.faults })
    else (r, record w { db = db'; faults = later_faults w.faults })

-- A statement that only reads.
unfoldable pub query {ℓ} : {A : Type ℓ} → (Time → Db → Result A) → Action (Result A)
unfolding exec
query stmt = exec (λ t d. (stmt t d, d))

-- `err == nil`
abbrev pub is_ok {ℓ} : {A : Type ℓ} → Result A → Bool
is_ok (ok _) = true
is_ok (err _) = false

-- The row of a query that returns one, or the error of a query that returns none.
abbrev pub one_row {ℓ} : {A : Type ℓ} → Option A → Result A
one_row none = err no_rows
one_row (some a) = ok a
