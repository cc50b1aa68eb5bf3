-- ===== src/Records/Sound/Always.antt =====
-- Every statement keeps the keys.
use sukumad.Prelude.{Bool-cases, Option-cases, ℤ, pos, ℕ, refl, inl, inr, Option, List, arith}
use sukumad.Text.{Bytes}
use sukumad.Types.{Json, Time}
use sukumad.Store.{ok, World, next_fault, exec}
use sukumad.Queue.Moves.{has_id, update_delivery, started_row, polled_row, Final, finalized_row}
use sukumad.Queue.Counts.{picked_to_send}
use sukumad.Queue.Claim.{can_poll, due_before, pick, is_picked, claimed_row, touched_row}
use sukumad.Queue.Expand.{expanded}
use sukumad.Records.Servers.{insert_server, write_server, remove_server}
use sukumad.Records.Requests.{insert_request, write_request, remove_request, expand}
use sukumad.Records.Deliveries.{wanted, write_patch, remove_delivery}
use sukumad.Records.Calls.{
  Call, creates_server, updates_server, deletes_server, creates_request, updates_request,
  deletes_request, expands, patches_delivery, deletes_delivery, claims, claims_polls, starts_async,
  updates_async, finalizes, call, Calls, none_yet, calls_next, time_goes,
}
use sukumad.Records.Sound.{IsSound, KeepsKeys, update_where-IsSound}
use sukumad.Records.Sound.Parents.{
  insert_server-IsSound, insert_request-IsSound, write_server-IsSound, write_request-IsSound,
  remove_server-IsSound, remove_request-IsSound,
}
use sukumad.Records.Sound.Children.{expanded-IsSound, write_patch-IsSound, remove_delivery-IsSound}
use sukumad.Store.Laws.{exec-keeps}

finalized_row-KeepsKeys : (now : Time) (p : Final) → KeepsKeys (finalized_row now p)
unfolding finalized_row
finalized_row-KeepsKeys now p d = ground arith

polled_row-KeepsKeys :
    (print : Json → Bytes) (now : Time) (s : Bytes) (response : Option Json) (good bad : List Bytes)
    (again : ℕ)
    → KeepsKeys (polled_row print now s response good bad again)
polled_row-KeepsKeys print now s response good bad again d = ground arith

expand-IsSound :
    (request dest : ℤ) (copies : List ℤ) (w : World)
    → IsSound w.db
    → IsSound (expand request dest copies w).1.db
unfolding expand exec
expand-IsSound request dest copies w v = elim (Bool-cases (next_fault w.faults)) [
  | inl e ↦ rw e v
  | inr e ↦ elim (Option-cases (expanded w.now request dest copies (pos 100) (pos 50) w.db)) [
    | inl n ↦ rw e (rw n v)
    | inr (db', n) ↦
        rw e (rw n (expanded-IsSound w.now request dest copies (pos 100) (pos 50) w.db db' n v))
  ]
]

call-IsSound : (c : Call) (w : World) → IsSound w.db → IsSound (call c w).db
unfolding call
call-IsSound (creates_server uid s) w v =
    exec-keeps IsSound (insert_server uid s) w (insert_server-IsSound w.db v uid s w.now) v
call-IsSound (updates_server s) w v =
    exec-keeps IsSound (write_server s) w (write_server-IsSound w.db v s w.now) v
call-IsSound (deletes_server i) w v =
    exec-keeps IsSound (remove_server i) w (remove_server-IsSound w.db v i w.now) v
call-IsSound (creates_request uid r) w v =
    exec-keeps IsSound (insert_request uid r) w (insert_request-IsSound w.db v uid r w.now) v
call-IsSound (updates_request r) w v =
    exec-keeps IsSound (write_request r) w (write_request-IsSound w.db v r w.now) v
call-IsSound (deletes_request i) w v =
    exec-keeps IsSound (remove_request i) w (remove_request-IsSound w.db v i w.now) v
call-IsSound (expands request dest copies) w v = expand-IsSound request dest copies w v
call-IsSound (patches_delivery i status t p) w v =
    exec-keeps IsSound (write_patch i (wanted status) t p) w
      (write_patch-IsSound i (wanted status) t p w.now w.db v) v
call-IsSound (deletes_delivery i) w v =
    exec-keeps IsSound (remove_delivery i) w (remove_delivery-IsSound i w.now w.db v) v
call-IsSound (claims limit) w v =
    exec-keeps IsSound _ w
      (update_where-IsSound (is_picked (picked_to_send w.now w.db limit (pos 0)))
        (claimed_row w.now) w.db (λ d. (refl, refl, refl)) v)
      v
call-IsSound (claims_polls limit) w v =
    exec-keeps IsSound _ w
      (update_where-IsSound
        (is_picked (pick due_before (can_poll w.now w.db) limit w.db.deliveries))
        (touched_row w.now) w.db (λ d. (refl, refl, refl)) v)
      v
call-IsSound (starts_async i job url initial delay) w v =
    exec-keeps IsSound
      (λ now db. (ok tt, update_delivery i (started_row now job url initial delay) db)) w
      (update_where-IsSound (has_id i) (started_row w.now job url initial delay) w.db
        (λ d. (refl, refl, refl)) v)
      v
call-IsSound (updates_async print i s response good bad again) w v =
    exec-keeps IsSound
      (λ now db. (ok tt, update_delivery i (polled_row print now s response good bad again) db)) w
      (update_where-IsSound (has_id i) (polled_row print w.now s response good bad again) w.db
        (polled_row-KeepsKeys print w.now s response good bad again) v)
      v
call-IsSound (finalizes i p) w v =
    exec-keeps IsSound (λ now db. (ok tt, update_delivery i (finalized_row now p) db)) w
      (update_where-IsSound (has_id i) (finalized_row w.now p) w.db
        (finalized_row-KeepsKeys w.now p) v)
      v

-- Whatever statements the handlers and the worker run, in any order, at any times and with any
-- faults of the connection: if the numbers of the deliveries and their pairs of request and server
-- are unique, no number is beyond the sequence, and the request and the server of each delivery are
-- there, as they are in empty tables, then all of that still holds.
pub Calls-IsSound : {w v : World} → Calls w v → IsSound w.db → IsSound v.db
Calls-IsSound none_yet v = v
Calls-IsSound (calls_next {v = u} c r) v = call-IsSound c u (Calls-IsSound r v)
Calls-IsSound (time_goes t faults r) v = Calls-IsSound r v
