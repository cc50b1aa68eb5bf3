-- ===== src/Boot/Migrations.antt =====
-- RunWithPostgresDriver of internal/migrate/migrate.go, and db/db.go. What golang-migrate, pgx and
-- sqlx do is a record of parameters: which calls succeed, what `Up` does to the database, and what
-- `Close` of a migration does to the connection that the driver was given.
use sukumad.Prelude.{if◌then◌else◌, ◌≡◌, refl, ◌≢◌, Bool, true, false, not, Option, none, some}
use sukumad.Text.{Bytes}

-- A *sql.DB: whether it can be used.
pub data Handle : Type 0 where
  open_handle closed_handle : Handle

abbrev pub is_usable_handle : Handle → Bool
is_usable_handle open_handle = true
is_usable_handle closed_handle = false

-- `nil`, ErrNoChange, or another error.
pub data Up : Type 0 where
  migrated no_change up_failed : Up

pub record Library {ℓ} (D : Type ℓ) : Type ℓ where
  pub parses : Bytes → Bool
  pub pings : Bytes → Bool
  pub source_opens : Bool
  pub driver_opens : Bool
  pub instance_opens : Bool
  pub up : D → Up × D
  pub close : Handle → Handle

pub data MigrateError : Type 0 where
  bad_url no_ping no_source no_driver no_instance not_migrated : MigrateError

-- The error, if any; the connection that was opened, if any; and the database.
pub record Migration {ℓ} (D : Type ℓ) : Type ℓ where
  pub error : Option MigrateError
  pub handle : Option Handle
  pub database : D

-- `err != nil && err != migrate.ErrNoChange`
abbrev pub error_of : Up → Option MigrateError
error_of migrated = none
error_of no_change = none
error_of up_failed = some not_migrated

module _ {ℓ} {D : Type ℓ} where
  -- `sqlDB.Close()` and `return nil, …`
  abbrev pub give_up_with : MigrateError → D → Migration D
  give_up_with e d = record { error = some e; handle = some closed_handle; database = d }

  -- The deferred `m.Close()` runs after the body, also where the body closed the connection.
  unfoldable pub after_up : Library D → Up × D → Migration D
  after_up lib (migrated, d) = record {
    error = none;
    handle = some (lib.close open_handle);
    database = d;
  }
  after_up lib (no_change, d) = record {
    error = none;
    handle = some (lib.close open_handle);
    database = d;
  }
  after_up lib (up_failed, d) = record {
    error = some not_migrated;
    handle = some (lib.close closed_handle);
    database = d;
  }

  unfoldable pub run_with_postgres_driver : Library D → Bytes → D → Migration D
  unfolding after_up
  run_with_postgres_driver lib url d =
      if not (lib.parses url)
      then record { error = some bad_url; handle = none; database = d }
      else if not (lib.pings url)
      then give_up_with no_ping d
      else if not lib.source_opens
      then give_up_with no_source d
      else if not lib.driver_opens
      then give_up_with no_driver d
      else if not lib.instance_opens
      then give_up_with no_instance d
      else after_up lib (lib.up d)

  -- `RunMigrations` of db/db.go: whether migrate.New succeeds, and what `Up` does. The migration is
  -- not closed.
  unfoldable pub run_migrations : Bool → (D → Up × D) → D → Option MigrateError × D
  run_migrations opens up d =
      let (r, d') = up d in if not opens then (some no_instance, d) else (error_of r, d')

-- What becomes of the process in `ConnectDB`, which leaves it on an error, so that the `return`
-- that follows is not reached.
pub data Connected : Type 0 where
  connected exits : Connected

unfoldable pub connect_db : Bool → Connected
connect_db opens = if opens then connected else exits

module _ {ℓ} {D : Type ℓ} where
  -- Every call that a run of the migrations makes succeeds.
  pub record Works (lib : Library D) (url : Bytes) (d : D) : Type 0 where
    pub parses : lib.parses url ≡ true
    pub pings : lib.pings url ≡ true
    pub source_opens : lib.source_opens ≡ true
    pub driver_opens : lib.driver_opens ≡ true
    pub instance_opens : lib.instance_opens ≡ true
    pub up : (lib.up d).0 ≢ up_failed

  after_up_lem :
      (lib : Library D) (r : Up × D)
      → r.0 ≢ up_failed
      → after_up lib r
        ≡ record { error = none; handle = some (lib.close open_handle); database = r.1 }
  unfolding after_up
  after_up_lem lib (migrated, d) h = refl
  after_up_lem lib (no_change, d) h = refl
  after_up_lem lib (up_failed, d) h = absurd (h refl)

  -- A run that works leaves the database as `Up` does, and the connection as `Close` does.
  pub run_with_postgres_driver-Works :
      (lib : Library D) (url : Bytes) (d : D)
      → Works lib url d
      → run_with_postgres_driver lib url d
        ≡ record { error = none; handle = some (lib.close open_handle); database = (lib.up d).1 }
  unfolding run_with_postgres_driver
  run_with_postgres_driver-Works lib url d v =
      rw (v.parses, v.pings, v.source_opens, v.driver_opens, v.instance_opens)
        (after_up_lem lib (lib.up d) v.up)
