-- ===== src/Records/Calls.antt =====
-- The statements that write servers, requests or deliveries, whoever calls them: the handlers, or
-- the worker.
use sukumad.Prelude.{ℤ, ℕ, ◌+◌, Bool, Option, List}
use sukumad.Text.{Bytes}
use sukumad.Types.{Json, Time, Server, Request}
use sukumad.Store.{World}
use sukumad.Queue.Moves.{start_async_delivery, update_async_status, Final, finalize_delivery}
use sukumad.Queue.Claim.{claim_deliveries, claim_async_polls}
use sukumad.Records.Servers.{create_server, update_server, delete_server}
use sukumad.Records.Requests.{create_request, update_request, delete_request, expand}
use sukumad.Records.Deliveries.{patch_delivery, delete_delivery}

pub data Call : Type 0 where
  creates_server : Bytes → Server → Call
  updates_server : Server → Call
  deletes_server : ℤ → Call
  creates_request : Bytes → Request → Call
  updates_request : Request → Call
  deletes_request : ℤ → Call
  expands : ℤ → ℤ → List ℤ → Call
  patches_delivery : ℤ → Option Bytes → Option Time → Option ℤ → Call
  deletes_delivery : ℤ → Call
  claims : ℕ → Call
  claims_polls : ℕ → Call
  starts_async : ℤ → Bytes → Bytes → Bytes → ℕ → Call
  updates_async : (Json → Bytes) → ℤ → Bytes → Option Json → List Bytes → List Bytes → ℕ → Call
  finalizes : ℤ → Final → Call

-- The world that a call leaves.
unfoldable pub call : Call → World → World
unfolding create_server update_server delete_server create_request update_request delete_request
    expand patch_delivery delete_delivery claim_deliveries claim_async_polls start_async_delivery
    update_async_status finalize_delivery
call (creates_server uid s) w = (create_server uid s w).1
call (updates_server s) w = (update_server s w).1
call (deletes_server i) w = (delete_server i w).1
call (creates_request uid r) w = (create_request uid r w).1
call (updates_request r) w = (update_request r w).1
call (deletes_request i) w = (delete_request i w).1
call (expands request dest copies) w = (expand request dest copies w).1
call (patches_delivery i status t p) w = (patch_delivery i status t p w).1
call (deletes_delivery i) w = (delete_delivery i w).1
call (claims limit) w = (claim_deliveries limit w).1
call (claims_polls limit) w = (claim_async_polls limit w).1
call (starts_async i job url initial delay) w = (start_async_delivery i job url initial delay w).1
call (updates_async print i s response good bad again) w =
    (update_async_status print i s response good bad again w).1
call (finalizes i p) w = (finalize_delivery i p w).1

-- One call after another, at the times and with the faults of the worlds between them.
pub data Calls (w : World) : World → Type 0 where
  none_yet : Calls w w
  calls_next : {v : World} (c : Call) → Calls w v → Calls w (call c v)
  time_goes :
      {v : World} (t : Time) (faults : List Bool)
      → Calls w v
      → Calls w (record v { now = v.now + t; faults = faults })
