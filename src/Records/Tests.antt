-- ===== src/Records/Tests.antt =====
-- The theorems of the records, applied to small tables.
use sukumad.Prelude.{
  ℤ, pos, eq_ℤ, ◌+◌, ◌≡◌, refl, ◌≢◌, Bool, true, false, none, some, List, [], ◌∷◌, arith,
}
use sukumad.Text.{str, text_eq}
use sukumad.Types.{Server, failed}
use sukumad.Store.{ok, World, exec}
use sukumad.Records.Servers.{get_server_by_id, create_server, update_server}
use sukumad.Records.Trips.{create_server-get, update_server-get}
use sukumad.Samples.{no_rows_db, world_of, server_1, request_1, one_delivery}
use sukumad.Records.Deliveries.{patch_delivery}
use sukumad.Records.Patching.{for_failed, Patched, patch_delivery_lem}
use sukumad.Records.Calls.{
  creates_server, creates_request, deletes_request, expands, claims, call, none_yet, calls_next,
  time_goes,
}
use sukumad.Records.Sound.{IsSound}
use sukumad.Records.Sound.Always.{Calls-IsSound}

abbrev empty_world : World
empty_world = world_of no_rows_db

abbrev stored : Server
stored = record server_1 {
  id = pos 1;
  uid = some (str "u");
  created = some 1000;
  updated = some 1000;
}

create_server-get_example :
    let w' = (create_server (str "u") server_1 empty_world).1 in
    ((get_server_by_id (pos 1) w').0 ≡ ok stored)
    × ((i : ℤ) (r : Server)
        → (get_server_by_id i empty_world).0 ≡ ok r
        → (get_server_by_id i w').0 ≡ ok r)
unfolding create_server exec str text_eq
create_server-get_example = create_server-get (str "u") server_1 stored empty_world refl refl

abbrev world_1 : World
world_1 = world_of one_delivery

abbrev renamed : Server
renamed = record server_1 { name = str "new" }

update_server-get_example :
    let w' = (update_server renamed world_1).1 in
    ((old : Server) × ((get_server_by_id (pos 1) world_1).0 ≡ ok old)
      × ((get_server_by_id (pos 1) w').0
          ≡ ok (record renamed {
            id = old.id;
            uid = old.uid;
            created = old.created;
            updated = some 1000;
          })))
    × ((i : ℤ) → pos 1 ≢ i → (get_server_by_id i w').0 ≡ (get_server_by_id i world_1).0)
unfolding update_server exec eq_ℤ str text_eq
update_server-get_example =
    update_server-get renamed (record renamed { updated = some 1000 }) world_1 refl refl

patch_delivery_lem_example :
    let (r, w') = patch_delivery (pos 1) (some (str "failed")) (some 7) none world_1 in
    (r ≡ ok tt) × Patched (pos 1) (some failed) (some 7) none 1000 one_delivery w'.db
patch_delivery_lem_example =
    patch_delivery_lem (pos 1) (some (str "failed")) (some 7) none world_1 (some (some failed))
      for_failed refl

no_rows-IsSound : IsSound no_rows_db
no_rows-IsSound = record {
  numbered = tt;
  keyed = λ i. omega arith;
  unique = λ r s. omega arith;
  requests = tt;
  servers = tt;
}

-- A server, a request, its delivery, a claim after some time and under faults, and the request goes.
abbrev some_calls : List Bool → World
some_calls faults =
    let w =
      call (creates_request (str "r") request_1)
        (call (creates_server (str "u") server_1) empty_world) in
    let v = call (expands (pos 1) (pos 1) []) w in
    call (deletes_request (pos 1)) (call (claims 5) (record v { now = v.now + 7; faults = faults }))

Calls-IsSound_example : IsSound (some_calls (false ∷ true ∷ [])).db
Calls-IsSound_example =
    Calls-IsSound
      (calls_next (deletes_request (pos 1)) (
        calls_next (claims 5) (
          time_goes 7 (false ∷ true ∷ []) (
            calls_next (expands (pos 1) (pos 1) []) (
              calls_next (creates_request (str "r") request_1)
                (calls_next (creates_server (str "u") server_1) none_yet))))))
      no_rows-IsSound
