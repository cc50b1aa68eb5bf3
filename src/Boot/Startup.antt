-- ===== src/Boot/Startup.antt =====
-- `main` of cmd/api/main.go up to the server: what it starts, in which order, and where it ends.
use sukumad.Prelude.{
  ltb, if◌then◌else◌, is_some, ℕ, zero, suc, ◌≡◌, refl, Bool, true, false, not, ◌&&◌, Option, none,
  some, List, [], ◌∷◌, arith,
}
use sukumad.Text.{Bytes, str}
use sukumad.Config.{Config}
use sukumad.Store.{Db, World, Action, is_ok}
use sukumad.Logging.{listen_port}
use sukumad.Boot.Migrations.{
  Handle, open_handle, closed_handle, is_usable_handle, Library, run_with_postgres_driver, Works,
  run_with_postgres_driver-Works,
}
use sukumad.Boot.Fixtures.{File, Loaded, loaded, load_fixtures}
use sukumad.Boot.Seeder.{run}
use sukumad.Boot.Bootstrap.{IsSeeded, run-IsSeeded}
use sukumad.Boot.Seeded.{IsAhead}

pub data Fatal : Type 0 where
  pool_failed migrations_failed fixtures_failed seeder_failed : Fatal

pub data Started : Type 0 where
  serves : ℕ → Started
  ends : Fatal → Started

-- The calls that the build and the libraries answer: the pool, the migrations, the embedded
-- fixtures, and whether a transaction begins on a usable connection and commits.
pub record Setting : Type 0 where
  pub pool_opens : Bool
  pub library : Library Db
  pub fixtures : Option (List (File Db))
  pub begins : Bool
  pub commits : Bool

abbrev pub api_codes : List Bytes
api_codes = str "can_view_deliveries" ∷ (str "can_expand_requests" ∷ (str "can_view_requests" ∷ []))

-- The seeder, and then the server.
unfoldable pub start_seeded : Config → Action Started
unfolding run listen_port
start_seeded cfg w =
    let (r, w') = run api_codes w in
    (if is_ok r then serves (listen_port cfg) else ends seeder_failed, w')

abbrev pub after_fixtures : Config → World → Loaded × Db → Started × World
after_fixtures cfg w (loaded, db) = start_seeded cfg (record w { db = db })
after_fixtures cfg w (_, db) = (ends fixtures_failed, record w { db = db })

abbrev pub usable : Option Handle → Bool
usable none = false
usable (some h) = is_usable_handle h

-- The sample data, if it is asked for. No transaction begins on a closed connection.
unfoldable pub start_migrated : Setting → Config → Option Handle → Action Started
unfolding start_seeded load_fixtures
start_migrated set cfg handle w =
    let begins = set.begins && usable handle in
    if cfg.seed_sample_data
    then after_fixtures cfg w (load_fixtures begins set.commits set.fixtures w.db)
    else start_seeded cfg w

unfoldable pub start_api : Setting → Config → Action Started
unfolding run_with_postgres_driver start_migrated
start_api set cfg w =
    let m = run_with_postgres_driver set.library cfg.db_url w.db in
    if not set.pool_opens
    then (ends pool_failed, w)
    else if is_some m.error
    then (ends migrations_failed, record w { db = m.database })
    else start_migrated set cfg m.handle (record w { db = m.database })

-- On a closed connection the fixtures are not loaded, and nothing changes.
closed_lem :
    (cfg : Config) (w : World) (begins commits : Bool) (files : Option (List (File Db)))
    → after_fixtures cfg w (load_fixtures (begins && false) commits files w.db)
      ≡ (ends fixtures_failed, w)
unfolding load_fixtures
closed_lem cfg w begins commits none = refl
closed_lem cfg w true commits (some files) = refl
closed_lem cfg w false commits (some files) = refl

-- Where the server listens for a port of the configuration.
abbrev pub ListensAt : ℕ → ℕ → Type 0
ListensAt zero n = n ≡ 8383
ListensAt (suc port) n = n ≡ suc port

listen_port_lem : (cfg : Config) → ListensAt cfg.port (listen_port cfg)
unfolding listen_port
listen_port_lem cfg = go cfg.port
  where
    go : (port : ℕ) → ListensAt port (if ltb 0 port then port else 8383)
    go zero = refl
    go (suc port) = ground arith

start_seeded_lem :
    (cfg : Config) (w : World)
    → w.faults ≡ []
    → IsAhead w.db
    → ((start_seeded cfg w).0 ≡ serves (listen_port cfg))
      × IsSeeded api_codes (start_seeded cfg w).1.db
unfolding start_seeded
start_seeded_lem cfg w f a =
    let (done, seeded, _) = run-IsSeeded api_codes w f a in (rw done refl, seeded)

-- If the pool opens, every call of the migrations succeeds and leaves no number of a role or of a
-- permission beyond its sequence, the connection holds, and a migration that is closed closes the
-- connection that its driver was given, as golang-migrate documents, then without sample data the
-- server starts, on the port of the configuration, or on 8383 if that is 0, with the role Admin
-- that holds "admin" and the three codes of the API; and with sample data it never starts: the
-- transaction of the fixtures cannot begin, and of the database only the migrations are done.
pub start_api_lem :
    (set : Setting) (cfg : Config) (w : World)
    → set.pool_opens ≡ true
    → Works set.library cfg.db_url w.db
    → IsAhead (set.library.up w.db).1
    → w.faults ≡ []
    → set.library.close open_handle ≡ closed_handle
    → let (r, w') = start_api set cfg w in
      (cfg.seed_sample_data ≡ false
        → (port : ℕ) × (r ≡ serves port) × ListensAt cfg.port port × IsSeeded api_codes w'.db)
      × (cfg.seed_sample_data ≡ true
          → (r ≡ ends fixtures_failed) × (w'.db ≡ (set.library.up w.db).1))
unfolding start_api start_migrated
start_api_lem set cfg w pool works ahead f closes =
    let m = run_with_postgres_driver-Works set.library cfg.db_url w.db works in
    let w₁ : World = record w { db = (set.library.up w.db).1 } in
    rw pool (
      rw m (
        λ plain.
            let (served, seeded) = start_seeded_lem cfg w₁ f ahead in
            rw plain (listen_port cfg, served, listen_port_lem cfg, seeded),
        λ sample.
            rw sample
              (rw closes (rw (closed_lem cfg w₁ set.begins set.commits set.fixtures) (refl, refl))),
      ))
