-- ===== src/Boot/Fixtures.antt =====
-- LoadFixturesWithPostgresDriver of internal/migrate/migrate.go: the files of db/fixtures, run in
-- the order of their names in one transaction. What is embedded in the build and what a file's
-- statements do are parameters: a file is its name, whether it is a directory, and its effect on
-- the database, `none` for an error.
use sukumad.Prelude.{
  if◌then◌else◌, Bool-cases, Option-cases, filterb, ◌≡◌, ◌≢◌, ◌↔◌, inl, inr, Bool, true, not, ◌&&◌,
  ◌||◌, Option, none, some, List, [], ◌∷◌, arith,
}
use sukumad.Text.{Bytes, str, has_prefix}
use sukumad.Accounts.Users.{ordered}
use sukumad.Accounts.Grants.{text_before}
use mathlib.Core.List.{reverse}

pub record File {ℓ} (D : Type ℓ) : Type ℓ where
  pub name : Bytes
  pub is_dir : Bool
  -- ReadFile, and then ExecContext.
  pub read : Option (D → Option D)

pub data Loaded : Type 0 where
  loaded dir_failed begin_failed read_failed exec_failed commit_failed : Loaded

-- strings.HasSuffix(e.Name(), ".sql")
unfoldable pub is_sql : Bytes → Bool
is_sql name = has_prefix (reverse name) (str "lqs.")

module _ {ℓ} {D : Type ℓ} where
  abbrev pub name_before : File D → File D → Bool
  name_before a b = text_before a.name b.name

  -- The loop, inside the transaction: the error that ends it, and the database as the transaction
  -- sees it.
  unfoldable pub run_files : List (File D) → D → Loaded × D
  unfolding is_sql
  run_files [] d = (loaded, d)
  run_files (f ∷ fs) d = if f.is_dir || not (is_sql f.name) then run_files fs d else elim f.read [
    | none ↦ (read_failed, d)
    | some effect ↦ elim (effect d) [ none ↦ (exec_failed, d) | some d' ↦ run_files fs d' ]
  ]

  -- Commit, or Rollback.
  settle : Bool → D → Loaded × D → Loaded × D
  settle commits d (loaded, d') = if commits then (loaded, d') else (commit_failed, d)
  settle commits d (failure, d') = (failure, d)

  -- `begins` and `commits` say whether those calls succeed.
  unfoldable pub load_fixtures : Bool → Bool → Option (List (File D)) → D → Loaded × D
  unfolding run_files settle
  load_fixtures begins commits none d = (dir_failed, d)
  load_fixtures begins commits (some entries) d =
      if not begins
      then (begin_failed, d)
      else settle commits d (run_files (ordered name_before entries) d)

  abbrev pub is_fixture : File D → Bool
  is_fixture f = not f.is_dir && is_sql f.name

  -- One effect after another.
  abbrev pub all_effects : List (File D) → D → Option D
  all_effects [] d = some d
  all_effects (f ∷ fs) d = elim f.read [
    | none ↦ none
    | some effect ↦ elim (effect d) [ none ↦ none | some d' ↦ all_effects fs d' ]
  ]

  run_files_lem :
      (fs : List (File D)) (d d' : D)
      → (run_files fs d ≡ (loaded, d')) ↔ (all_effects (filterb is_fixture fs) d ≡ some d')
  unfolding run_files
  run_files_lem [] d d' = (λ e. cc e, λ e. cc e)
  run_files_lem (f ∷ fs) d d' = elim (Bool-cases f.is_dir) [
    | inl e ↦ ground (arith, e, run_files_lem fs d d')
    | inr e ↦ elim (Bool-cases (is_sql f.name)) [
      | inr h ↦ ground (arith, e, h, run_files_lem fs d d')
      | inl h ↦ elim (Option-cases f.read) [
        | inl n ↦ ground (arith, e, h, n)
        | inr (effect, n) ↦ elim (Option-cases (effect d)) [
          | inl k ↦ ground (arith, e, h, n, k)
          | inr (d₁, k) ↦ ground (arith, e, h, n, k, run_files_lem fs d₁ d')
        ]
      ]
    ]
  ]

  settle_lem :
      (commits : Bool) (d : D) (r : Loaded × D) (d' : D)
      → ((settle commits d r ≡ (loaded, d')) ↔ ((commits ≡ true) × (r ≡ (loaded, d'))))
        × ((settle commits d r).0 ≢ loaded → (settle commits d r).1 ≡ d)
  unfolding settle
  settle_lem commits d (loaded, x) d' = ground arith
  settle_lem commits d (dir_failed, x) d' = ground arith
  settle_lem commits d (begin_failed, x) d' = ground arith
  settle_lem commits d (read_failed, x) d' = ground arith
  settle_lem commits d (exec_failed, x) d' = ground arith
  settle_lem commits d (commit_failed, x) d' = ground arith

  -- The fixtures are loaded exactly if the transaction begins and commits and each file that is
  -- no directory and ends in ".sql" can be read and run in the order of the names, and then the
  -- database has all their effects; after any failure it is as it was.
  pub load_fixtures_iff :
      (begins commits : Bool) (entries : List (File D)) (d d' : D)
      → ((load_fixtures begins commits (some entries) d ≡ (loaded, d')) ↔ (
          (begins ≡ true)
          × (commits ≡ true)
          × (all_effects (filterb is_fixture (ordered name_before entries)) d ≡ some d')))
        × ((load_fixtures begins commits (some entries) d).0 ≢ loaded
            → (load_fixtures begins commits (some entries) d).1 ≡ d)
  unfolding load_fixtures
  load_fixtures_iff begins commits entries d d' =
      let files = ordered name_before entries in
      let r = run_files files d in
      ground (arith, settle_lem commits d r d', run_files_lem files d d')
