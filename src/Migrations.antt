-- ===== src/Migrations.antt =====
-- packages/shared/src/db/migrations/index.ts. The database and the effect of a file's SQL are arguments,
-- a file's SQL fails or gives the database after it; names are lists of UTF-16 code units.
pub mod Applied
use task_orchestrator_engine.Prelude.{
  ℕ, Bool, true, false, not, ◌&&◌, ◌||◌, Option, none, some, List, [], ◌∷◌, ◌++◌, reverse, keep,
  ltb, ◌==◌, if◌then◌else◌, Result, ok, err,
}
use task_orchestrator_engine.Cron.Text.{Text}

abbrev pub same_name : Text → Text → Bool
same_name [] [] = true
same_name [] (d ∷ t) = false
same_name (c ∷ s) [] = false
same_name (c ∷ s) (d ∷ t) = c == d && same_name s t

-- The order of `sort()`.
abbrev pub name_before : Text → Text → Bool
name_before [] t = true
name_before (c ∷ s) [] = false
name_before (c ∷ s) (d ∷ t) = ltb c d || (c == d && name_before s t)

abbrev pub insert_name : Text → List Text → List Text
insert_name s [] = s ∷ []
insert_name s (t ∷ ts) = if name_before s t then s ∷ t ∷ ts else t ∷ insert_name s ts

abbrev pub sort_names : List Text → List Text
sort_names [] = []
sort_names (s ∷ ss) = insert_name s (sort_names ss)

abbrev pub starts_with : Text → Text → Bool
starts_with [] text = true
starts_with (c ∷ cs) [] = false
starts_with (c ∷ cs) (d ∷ ds) = c == d && starts_with cs ds

-- `endsWith('.sql')`
abbrev pub is_sql_file : Text → Bool
is_sql_file name = starts_with (108 ∷ 113 ∷ 115 ∷ 46 ∷ []) (reverse name)

unfoldable pub discover_migration_files : List Text → List Text
discover_migration_files directory = sort_names (keep is_sql_file directory)

-- `applied.has(name)`
abbrev pub has_name : Text → List Text → Bool
has_name name [] = false
has_name name (t ∷ ts) = same_name name t || has_name name ts

module _ {ℓ} (Db : Type ℓ) (apply : Text → Db → Option Db) where
  -- The database and the rows of `_migrations`.
  pub record Migrated : Type ℓ where
    pub database : Db
    pub names : List Text

  -- A transaction: the file's SQL, then its row, whose name is unique.
  abbrev pub commit : Text → List Text → Option Db → Option Migrated
  commit name names none = none
  commit name names (some db) =
      if has_name name names
      then none
      else some (record { database = db; names = names ++ name ∷ [] })

  unfoldable pub migrate : Text → Migrated → Option Migrated
  migrate name m = commit name m.names (apply name m.database)

  -- The loop, with the names found at its start and the names applied so far. The error is the name of
  -- the migration that failed, which is rolled back.
  unfoldable pub run_files :
      List Text → List Text → List Text → Migrated → Result Text (List Text) × Migrated
  unfolding migrate
  run_files applied [] done m = (ok done, m)
  run_files applied (f ∷ fs) done m = elim (has_name f applied) [
    | true ↦ run_files applied fs done m
    | false ↦ elim (migrate f m) [
      | none ↦ (err f, m)
      | some m' ↦ run_files applied fs (done ++ f ∷ []) m'
    ]
  ]

  unfoldable pub run_migrations : List Text → Migrated → Result Text (List Text) × Migrated
  unfolding run_files discover_migration_files
  run_migrations directory m = run_files m.names (discover_migration_files directory) [] m
