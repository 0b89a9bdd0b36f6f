-- ===== src/Migrations/Applied.antt =====
-- What a run of packages/shared/src/db/migrations/index.ts leaves behind.
use mathlib.Core.List.{append_assoc, append-nil, Permᴰ}
use mathlib.Core.Option.{some-injective}
use task_orchestrator_engine.Prelude.{
  ℕ, ◌<◌, ◌≡◌, refl, sym, subst, ap, ◌∙◌, inl, inr, Bool, true, false, not, ◌||◌, ◌==◌, ==_iff, ltb,
  ltb→lt, IsOrdered, keep-IsOrdered, insert_ordered, sort_ordered, sort_ordered-IsOrdered,
  sort_ordered-perm, Option, none, some, List, [], ◌∷◌, ◌++◌, keep, arith, ==_refl, if◌then◌else◌,
  Bool-cases, Option-cases, Result, ok, err,
}
use task_orchestrator_engine.Cron.Text.{Text}
use task_orchestrator_engine.Migrations.{
  same_name, has_name, is_sql_file, name_before, insert_name, sort_names, discover_migration_files,
  Migrated, commit, migrate, run_files, run_migrations,
}

-- The order of names: a name comes before its extensions, else the first difference decides.
pub data Before : Text → Text → Type 0 where
  extended : {t : Text} → Before [] t
  smaller : {c d : ℕ} {s t : Text} → c < d → Before (c ∷ s) (d ∷ t)
  same : {c d : ℕ} {s t : Text} → c ≡ d → Before s t → Before (c ∷ s) (d ∷ t)

Before-trans : {s t u : Text} → Before s t → Before t u → Before s u
Before-trans extended k = extended
Before-trans (smaller l) (smaller k) = smaller (omega arith)
Before-trans (smaller l) (same e k) = smaller (omega arith)
Before-trans (same e h) (smaller k) = smaller (omega arith)
Before-trans (same e h) (same d k) = same (e ∙ d) (Before-trans h k)

name_before-Before : (s t : Text) → name_before s t ≡ true → Before s t
name_before-Before [] t h = extended
name_before-Before (c ∷ s) [] h = cc
name_before-Before (c ∷ s) (d ∷ t) h = elim (Bool-cases (ltb c d)) [
  | inl l ↦ smaller (ltb→lt c d l)
  | inr n ↦ same (ground arith) (name_before-Before s t (ground arith))
]

Before-of_not : (s t : Text) → name_before s t ≡ false → Before t s
Before-of_not [] t h = cc
Before-of_not (c ∷ s) [] h = extended
Before-of_not (c ∷ s) (d ∷ t) h = elim (Bool-cases (c == d)) [
  | inl e ↦ same (sym ((==_iff c d).0 e)) (Before-of_not s t (ground arith))
  | inr n ↦ smaller (ground arith)
]

insert_name_lem : (s : Text) (ts : List Text) → insert_name s ts ≡ insert_ordered name_before s ts
insert_name_lem s [] = refl
insert_name_lem s (t ∷ ts) =
    ap (λ l. if name_before s t then s ∷ t ∷ ts else t ∷ l) (insert_name_lem s ts)

sort_names_lem : (ss : List Text) → sort_names ss ≡ sort_ordered name_before ss
sort_names_lem [] = refl
sort_names_lem (s ∷ ss) =
    ap (insert_name s) (sort_names_lem ss) ∙ insert_name_lem s (sort_ordered name_before ss)

discover-IsOrdered : (directory : List Text) → IsOrdered Before (discover_migration_files directory)
unfolding discover_migration_files
discover-IsOrdered directory =
    let files = keep is_sql_file directory in
    subst (λ (l : List Text). IsOrdered Before l) (sym (sort_names_lem files))
      (sort_ordered-IsOrdered Before name_before (λ x y z h k. Before-trans h k) name_before-Before
        Before-of_not files)

discover-perm :
    (directory : List Text)
    → Permᴰ (discover_migration_files directory) (keep is_sql_file directory)
unfolding discover_migration_files
discover-perm directory =
    let files = keep is_sql_file directory in
    subst (λ (l : List Text). Permᴰ l files) (sym (sort_names_lem files))
      (sort_ordered-perm name_before files)

-- The files without a row, in their order.
abbrev pub pending : List Text → List Text → List Text
pending names files = keep (λ f. not (has_name f names)) files

has_name-append :
    (f : Text) (xs ys : List Text) → has_name f (xs ++ ys) ≡ (has_name f xs || has_name f ys)
has_name-append f [] ys = refl
has_name-append f (x ∷ xs) ys = ground (arith, has_name-append f xs ys)

same_name_refl : (f : Text) → same_name f f ≡ true
same_name_refl [] = refl
same_name_refl (c ∷ s) = rw (==_refl c) (same_name_refl s)

listed :
    (f : Text) (names added rest : List Text) → has_name f (names ++ (added ++ f ∷ rest)) ≡ true
listed f names added rest = ground (
  arith,
  has_name-append f names (added ++ f ∷ rest),
  has_name-append f added (f ∷ rest),
  same_name_refl f,
)

-- Files that are added are not pending any longer.
none_pending :
    (names added files : List Text) → pending (names ++ (added ++ pending names files)) files ≡ []
none_pending names added [] = refl
none_pending names added (f ∷ fs) = elim (Bool-cases (has_name f names)) [
  | inl known ↦
      subst (λ (l : List Text). pending (names ++ (added ++ l)) (f ∷ fs) ≡ [])
        (sym (pending_step known refl))
        (rw (known_still names (added ++ pending names fs) known) (none_pending names added fs))
  | inr new ↦
      subst (λ (l : List Text). pending (names ++ (added ++ l)) (f ∷ fs) ≡ [])
        (sym (pending_step new refl))
        (rw (listed f names added (pending names fs)) (
          ap (λ l. pending (names ++ l) fs) (sym (append_assoc added (f ∷ []) (pending names fs)))
          ∙ none_pending names (added ++ f ∷ []) fs))
]
  where
    pending_step :
        {b : Bool} {l : List Text}
        → has_name f names ≡ b
        → (if not b then f ∷ pending names fs else pending names fs) ≡ l
        → pending names (f ∷ fs) ≡ l
    pending_step h e = rw h e

    known_still : (xs ys : List Text) → has_name f xs ≡ true → has_name f (xs ++ ys) ≡ true
    known_still xs ys h = ground (arith, has_name-append f xs ys)

module _ {ℓ} (Db : Type ℓ) (apply : Text → Db → Option Db) where
  -- The SQL of the files one after the other.
  abbrev pub apply_all : List Text → Option Db → Option Db
  apply_all files none = none
  apply_all [] (some db) = some db
  apply_all (f ∷ fs) (some db) = apply_all fs (apply f db)

  -- All files applied in order, each with its row behind the ones from before; or the first of them
  -- that fails, with exactly the ones before it applied. `done` are the ones that are reported already.
  pub data IsRun (done files : List Text) (m : Migrated Db apply)
      : Result Text (List Text) × Migrated Db apply → Type ℓ where
    complete :
        {m' : Migrated Db apply}
        → m'.names ≡ m.names ++ files
        → apply_all files (some m.database) ≡ some m'.database
        → IsRun done files m (ok (done ++ files), m')
    stopped :
        {m' : Migrated Db apply} {f : Text} (first rest : List Text)
        → files ≡ first ++ f ∷ rest
        → m'.names ≡ m.names ++ first
        → apply_all first (some m.database) ≡ some m'.database
        → migrate Db apply f m' ≡ none
        → IsRun done files m (err f, m')

  -- What a migration that succeeds does.
  record Committed (f : Text) (m m' : Migrated Db apply) : Type ℓ where
    named : m'.names ≡ m.names ++ f ∷ []
    applied_sql : apply f m.database ≡ some m'.database

  migrate-Committed :
      (f : Text) (m m' : Migrated Db apply) → migrate Db apply f m ≡ some m' → Committed f m m'
  unfolding migrate
  migrate-Committed f m m' e = over (apply f m.database) refl e
    where
      over :
          (o : Option Db)
          → apply f m.database ≡ o
          → commit Db apply f m.names o ≡ some m'
          → Committed f m m'
      over none e h = cc
      over (some db) e h = elim (Bool-cases (has_name f m.names)) [
        | inl twice ↦ cc (rw twice at h)
        | inr new ↦ committed db e (rw new at h)
      ]
        where
          committed :
              (db : Db)
              → apply f m.database ≡ some db
              → some (record { database = db; names = m.names ++ f ∷ [] }) ≡ some m'
              → Committed f m m'
          committed db e h = record {
            named = sym (ap (λ k. k.names) (some-injective _ m' h));
            applied_sql = e ∙ ap (λ k. some k.database) (some-injective _ m' h);
          }

  IsRun-cons :
      (done todo : List Text) (f : Text) (m m' : Migrated Db apply)
      {r : Result Text (List Text) × Migrated Db apply}
      → Committed f m m'
      → IsRun (done ++ f ∷ []) todo m' r
      → IsRun done (f ∷ todo) m r
  IsRun-cons done todo f m m' c (complete {m' = end} n e) =
      subst (λ (l : List Text). IsRun done (f ∷ todo) m (ok l, end))
        (sym (append_assoc done (f ∷ []) todo))
        (complete (n ∙ ap (λ l. l ++ todo) c.named ∙ append_assoc m.names (f ∷ []) todo)
          (ap (apply_all todo) c.applied_sql ∙ e))
  IsRun-cons done todo f m m' c (stopped first rest split n e refused) =
      stopped (f ∷ first) rest (ap (λ l. f ∷ l) split)
        (n ∙ ap (λ l. l ++ first) c.named ∙ append_assoc m.names (f ∷ []) first)
        (ap (apply_all first) c.applied_sql ∙ e) refused

  run_files-IsRun :
      (applied files done : List Text) (m : Migrated Db apply)
      → IsRun done (pending applied files) m (run_files Db apply applied files done m)
  unfolding run_files
  run_files-IsRun applied [] done m =
      subst (λ (l : List Text). IsRun done [] m (ok l, m)) (append-nil done)
        (complete (sym (append-nil m.names)) refl)
  run_files-IsRun applied (f ∷ fs) done m = elim (Bool-cases (has_name f applied)) [
    | inl known ↦ rw (known, run_files) (run_files-IsRun applied fs done m)
    | inr new ↦ elim (Option-cases (migrate Db apply f m)) [
      | inl refused ↦
          rw (new, refused, run_files)
            (stopped [] (pending applied fs) refl (sym (append-nil m.names)) refl refused)
      | inr (m', e) ↦
          rw (new, e, run_files)
            (IsRun-cons done (pending applied fs) f m m' (migrate-Committed f m m' e)
              (run_files-IsRun applied fs (done ++ f ∷ []) m'))
    ]
  ]

  -- The migration files are the directory's `.sql` files in another order, and those of them that have no
  -- row yet are in the order of their names. A run applies these in that order, each with its row behind
  -- the others, and reports them; or it stops at the first of them that fails, which leaves no trace,
  -- with the ones before it applied.
  pub run_migrations-IsRun :
      (directory : List Text) (m : Migrated Db apply)
      → Permᴰ (discover_migration_files directory) (keep is_sql_file directory)
        × IsOrdered Before (pending m.names (discover_migration_files directory))
        × IsRun []
            (pending m.names (discover_migration_files directory))
            m
            (run_migrations Db apply directory m)
  unfolding run_migrations
  run_migrations-IsRun directory m =
      let files = discover_migration_files directory in
      (
        discover-perm directory,
        keep-IsOrdered Before (λ f. not (has_name f m.names)) files (discover-IsOrdered directory),
        run_files-IsRun m.names files [] m,
      )

  run_files_done :
      (names files done : List Text) (m : Migrated Db apply)
      → pending names files ≡ []
      → run_files Db apply names files done m ≡ (ok done, m)
  unfolding run_files
  run_files_done names [] done m h = refl
  run_files_done names (f ∷ fs) done m h = elim (Bool-cases (has_name f names)) [
    | inl known ↦ rw (known, run_files) (run_files_done names fs done m (rw known at h))
    | inr new ↦ cc (rw new at h)
  ]

  names_after :
      (todo : List Text) (m m' : Migrated Db apply) (new : List Text)
      {r : Result Text (List Text) × Migrated Db apply}
      → IsRun [] todo m r
      → r ≡ (ok new, m')
      → m'.names ≡ m.names ++ todo
  names_after todo m m' new (complete n e) h = sym (ap (λ k. k.1.names) h) ∙ n
  names_after todo m m' new (stopped first rest split n e refused) h = cc (ap (λ k. k.0) h)

  -- A second run behind a complete one applies nothing and leaves everything as it is.
  pub run_migrations-again :
      (directory : List Text) (m m' : Migrated Db apply) (new : List Text)
      → run_migrations Db apply directory m ≡ (ok new, m')
      → run_migrations Db apply directory m' ≡ (ok [], m')
  unfolding run_migrations
  run_migrations-again directory m m' new e =
      let files = discover_migration_files directory in
      run_files_done m'.names files [] m' (
        ap (λ l. pending l files)
          (names_after (pending m.names files) m m' new (run_migrations-IsRun directory m).2 e)
        ∙ none_pending m.names [] files)
