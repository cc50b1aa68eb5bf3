-- ===== src/Boot/Tests.antt =====
-- The theorems of the seeder, applied to small tables.
use sukumad.Prelude.{filterb, ℕ, ◌+◌, ◌≡◌, refl, ◌≢◌, ◌↔◌, true, false, none, some, List, [], ◌∷◌}
use sukumad.Text.{Bytes, str}
use sukumad.Store.{Db, connection, ok, World, exec}
use sukumad.Boot.Seeder.{run}
use sukumad.Boot.Bootstrap.{IsSeeded, run-IsSeeded, run_error-rollback}
use sukumad.Samples.{no_rows_db, world_of}
use sukumad.Boot.Fixtures.{
  File, loaded, name_before, load_fixtures, is_fixture, all_effects, load_fixtures_iff,
}
use sukumad.Accounts.Users.{ordered}
use sukumad.Boot.Migrations.{closed_handle, no_change, Library, Works}
use sukumad.Boot.Startup.{
  fixtures_failed, serves, ends, Setting, api_codes, start_api, ListensAt, start_api_lem,
}
use sukumad.Config.{Config, default_config}
use sukumad.Boot.Seeded.{IsAhead}

abbrev codes : List Bytes
codes = str "can_expand_requests" ∷ []

no_rows-IsAhead : IsAhead no_rows_db
no_rows-IsAhead = record { roles = tt; permissions = tt }

run-IsSeeded_example :
    ((run codes (world_of no_rows_db)).0 ≡ ok tt)
    × IsSeeded codes (run codes (world_of no_rows_db)).1.db
    × IsAhead (run codes (world_of no_rows_db)).1.db
run-IsSeeded_example = run-IsSeeded codes (world_of no_rows_db) refl no_rows-IsAhead

-- The third statement fails.
abbrev unlucky : World
unlucky = record { db = no_rows_db; now = 1000; faults = false ∷ false ∷ true ∷ [] }

run_error-rollback_example :
    ((run codes unlucky).1.db.roles ≡ [])
    × ((run codes unlucky).1.db.permissions ≡ [])
    × ((run codes unlucky).1.db.role_permissions ≡ [])
unfolding run exec
run_error-rollback_example = run_error-rollback codes unlucky connection refl

abbrev a_file : File ℕ
a_file = record { name = str "b.sql"; is_dir = false; read = some (λ n. some (n + 1)) }

abbrev a_dir : File ℕ
a_dir = record { name = str "a"; is_dir = true; read = none }

load_fixtures_iff_example :
    ((load_fixtures true true (some (a_file ∷ a_dir ∷ [])) 7 ≡ (loaded, 8)) ↔ (
      (true ≡ true)
      × (true ≡ true)
      × (all_effects (filterb is_fixture (ordered name_before (a_file ∷ a_dir ∷ []))) 7 ≡ some 8)))
    × ((load_fixtures true true (some (a_file ∷ a_dir ∷ [])) 7).0 ≢ loaded
        → (load_fixtures true true (some (a_file ∷ a_dir ∷ [])) 7).1 ≡ 7)
load_fixtures_iff_example = load_fixtures_iff true true (a_file ∷ a_dir ∷ []) 7 8

abbrev toy_library : Library Db
toy_library = record {
  parses = λ url. true;
  pings = λ url. true;
  source_opens = true;
  driver_opens = true;
  instance_opens = true;
  up = λ db. (no_change, db);
  close = λ h. closed_handle;
}

abbrev toy_setting : Setting
toy_setting = record {
  pool_opens = true;
  library = toy_library;
  fixtures = some [];
  begins = true;
  commits = true;
}

toy_library-Works : Works toy_library default_config.db_url no_rows_db
toy_library-Works = record {
  parses = refl;
  pings = refl;
  source_opens = refl;
  driver_opens = refl;
  instance_opens = refl;
  up = λ e. cc e;
}

abbrev on_9000 : Config
on_9000 = record default_config { port = 9000; seed_sample_data = false }

start_api_lem_example :
    let (r, w') = start_api toy_setting on_9000 (world_of no_rows_db) in
    (on_9000.seed_sample_data ≡ false
      → (port : ℕ) × (r ≡ serves port) × ListensAt on_9000.port port × IsSeeded api_codes w'.db)
    × (on_9000.seed_sample_data ≡ true → (r ≡ ends fixtures_failed) × (w'.db ≡ no_rows_db))
start_api_lem_example =
    start_api_lem toy_setting on_9000 (world_of no_rows_db) refl toy_library-Works no_rows-IsAhead
      refl refl
