-- ===== src/Records/Deliveries.antt =====
-- internal/repo/delivery_repo.go.
use mathlib.Core.Option
use sukumad.Prelude.{
  if◌then◌else◌, coalesce, find, any, filterb, update_where, delete_where, ℤ, Bool, false, not,
  ◌&&◌, Option, none, some, List,
}
use sukumad.Text.{Bytes, text_eq, is_empty}
use sukumad.Types.{Time, Status, status_text, parse_status, Delivery}
use sukumad.Store.{Db, constraint, Result, ok, err, Action, exec, query, one_row}
use sukumad.Accounts.Users.{page, ordered}
use sukumad.Queue.Moves.{has_id}
use sukumad.Queue.Claim.{due_before}

-- The filter is on the text of the status, so an unknown one finds nothing.
unfoldable pub list_deliveries : Bytes → ℤ → ℤ → Action (Result (List Delivery))
unfolding ordered status_text
list_deliveries status limit offset = query (λ now db.
    let rows : List Delivery =
      if is_empty status
      then db.deliveries
      else filterb (λ (d : Delivery). text_eq (status_text d.status) status) db.deliveries in
    page limit offset (ordered due_before rows))

unfoldable pub get_delivery_by_id : ℤ → Action (Result Delivery)
get_delivery_by_id id = query (λ now db. one_row (find (has_id id) db.deliveries))

unfoldable pub patched_row : Time → Option Status → Option Time → Option ℤ → Delivery → Delivery
patched_row now status next_run_at priority d = record d {
  status = coalesce status d.status;
  next_run_at = coalesce next_run_at d.next_run_at;
  priority = coalesce priority d.priority;
  updated_at = now;
}

-- The status that a patch asks for, which may be none; `none` for a text that is no status.
unfoldable pub wanted : Option Bytes → Option (Option Status)
wanted none = some none
wanted (some word) = Option.map some (parse_status word)

-- The CHECK on the status refuses an unknown text, if there is a row to change.
unfoldable pub write_patch :
    ℤ → Option (Option Status) → Option Time → Option ℤ → Time → Db → Result (Unit {0}) × Db
unfolding patched_row
write_patch id none next_run_at priority now db =
    if any (has_id id) db.deliveries then (err constraint, db) else (ok tt, db)
write_patch id (some status) next_run_at priority now db = (
  ok tt,
  record db {
    deliveries =
        update_where (has_id id) (patched_row now status next_run_at priority) db.deliveries;
  },
)

unfoldable pub patch_delivery :
    ℤ → Option Bytes → Option Time → Option ℤ → Action (Result (Unit {0}))
unfolding write_patch wanted
patch_delivery id status next_run_at priority =
    exec (write_patch id (wanted status) next_run_at priority)

-- A row that stays depends on one that goes.
unfoldable pub is_needed : (Delivery → Bool) → List Delivery → Bool
is_needed goes ds =
    any
      (λ d. not (goes d) && elim d.depends_on_delivery_id [
        | none ↦ false
        | some i ↦ any (λ e. goes e && has_id i e) ds
      ])
      ds

unfoldable pub remove_delivery : ℤ → Time → Db → Result (Unit {0}) × Db
unfolding is_needed
remove_delivery id now db =
    if is_needed (has_id id) db.deliveries
    then (err constraint, db)
    else (ok tt, record db { deliveries = delete_where (has_id id) db.deliveries })

unfoldable pub delete_delivery : ℤ → Action (Result (Unit {0}))
unfolding remove_delivery
delete_delivery id = exec (remove_delivery id)
