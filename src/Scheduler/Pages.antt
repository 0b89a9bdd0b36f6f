-- ===== src/Scheduler/Pages.antt =====
-- The lists by page: `findAll` of services/scheduler-api/src/repositories/workflow-repository.ts and
-- schedule-repository.ts, and the handlers that read the page and its size. Rows of one time of creation
-- come in the order of the table.
use mathlib.Core.List.{Permᴰ}
use mathlib.Core.Path.{ap₂}
use native.Mathlib.Nat.{suc-mul}
use task_orchestrator_engine.Prelude.{
  ℕ, zero, suc, ◌+◌, ◌*◌, ◌-◌, ◌≤◌, min, ◌≡◌, refl, sym, ap, ◌∙◌, Option, none, some, List, [], ◌∷◌,
  ◌++◌, map, length, length-map, leb, ◌==◌, if◌then◌else◌, arith, Bool, subst, IsOrdered,
  insert_ordered, sort_ordered, sort_ordered-IsOrdered, sort_ordered-perm,
}
use task_orchestrator_engine.Types.{Instant, Workflow}
use task_orchestrator_engine.Cron.Text.{Text, skip_spaces, leading_number, parse_int}
use task_orchestrator_engine.Scheduler.Tables.{WorkflowRow, Database}
use task_orchestrator_engine.Scheduler.Workflows.{read_workflow}
use task_orchestrator_engine.Scheduler.Schedules.{Schedule, Schedules, map_row}

-- `Math.max(1, parseInt(text, 10) || default)`, of a number with and without a minus sign.
abbrev pub below_one : ℕ → Option ℕ → ℕ
below_one default none = default
below_one default (some n) = if n == 0 then default else 1

abbrev pub number_or : ℕ → Option ℕ → ℕ
number_or default none = default
number_or default (some n) = if n == 0 then default else n

abbrev pub signed_or : ℕ → Text → ℕ
signed_or default [] = default
signed_or default (c ∷ cs) =
    if c == 45
    then below_one default (leading_number cs)
    else number_or default (parse_int (c ∷ cs))

abbrev pub at_least_one : ℕ → Option Text → ℕ
at_least_one default none = default
at_least_one default (some text) = signed_or default (skip_spaces text)

abbrev pub read_page : Option Text → ℕ
read_page text = at_least_one 1 text

abbrev pub read_page_size : ℕ → Option Text → ℕ
read_page_size default text = min 100 (at_least_one default text)

module _ {ℓ} {A : Type ℓ} where
  abbrev pub take_first : ℕ → List A → List A
  take_first zero rows = []
  take_first (suc n) [] = []
  take_first (suc n) (r ∷ rows) = r ∷ take_first n rows

  abbrev pub skip_first : ℕ → List A → List A
  skip_first zero rows = rows
  skip_first (suc n) [] = []
  skip_first (suc n) (r ∷ rows) = skip_first n rows

  -- `ORDER BY created_at DESC`
  abbrev pub insert_newest : (A → Instant) → A → List A → List A
  insert_newest created r [] = r ∷ []
  insert_newest created r (s ∷ rows) =
      if leb (created s) (created r) then r ∷ s ∷ rows else s ∷ insert_newest created r rows

  abbrev pub newest_first : (A → Instant) → List A → List A
  newest_first created [] = []
  newest_first created (r ∷ rows) = insert_newest created r (newest_first created rows)

  -- `LIMIT $1 OFFSET $2`
  unfoldable pub page_of : (A → Instant) → ℕ → ℕ → List A → List A
  page_of created page page_size rows =
      let limit = min page_size 100 in
      take_first limit (skip_first ((page - 1) * limit) (newest_first created rows))

unfoldable pub find_all_workflows : ℕ → ℕ → Database → List Workflow × ℕ
unfolding page_of
find_all_workflows page page_size db = (
  map (read_workflow db) (page_of (λ row. row.created_at) page page_size db.workflows),
  length db.workflows,
)

unfoldable pub find_all_schedules : ℕ → ℕ → Schedules → List Schedule × ℕ
unfolding page_of
find_all_schedules page page_size t =
    (map map_row (page_of (λ s. s.created_at) page page_size t.schedules), length t.schedules)

-- `listWorkflows`: the workflows, their total, the page and its size.
unfoldable pub list_workflows : Option Text → Option Text → Database → (List Workflow × ℕ) × ℕ × ℕ
unfolding find_all_workflows
list_workflows page page_size db =
    let p = read_page page in
    let n = read_page_size 20 page_size in (find_all_workflows p n db, p, n)

-- `ScheduleController.list`
unfoldable pub list_schedules : Option Text → Option Text → Schedules → List Schedule × ℕ
unfolding find_all_schedules
list_schedules page page_size t =
    find_all_schedules (read_page page) (read_page_size 50 page_size) t

length-take_first {ℓ} : {A : Type ℓ} (n : ℕ) (rows : List A) → length (take_first n rows) ≤ n
length-take_first zero rows = omega arith
length-take_first (suc n) [] = omega arith
length-take_first (suc n) (r ∷ rows) = omega (arith, length-take_first n rows)

take_nothing {ℓ} : {A : Type ℓ} (n : ℕ) → take_first {A = A} n [] ≡ []
take_nothing zero = refl
take_nothing (suc n) = refl

take_more {ℓ} :
    {A : Type ℓ} (n k : ℕ) (rows : List A)
    → take_first n rows ++ take_first k (skip_first n rows) ≡ take_first (n + k) rows
take_more zero k rows = ap (λ m. take_first m rows) (omega arith)
take_more (suc n) k [] = take_nothing k ∙ sym (take_nothing (suc n + k))
take_more (suc n) k (r ∷ rows) =
    let e : suc (n + k) ≡ suc n + k = omega arith in
    ap (λ l. r ∷ l) (take_more n k rows) ∙ ap (λ m. take_first m (r ∷ rows)) e

map-append {ℓ κ} :
    {A : Type ℓ} {B : Type κ} (f : A → B) (xs ys : List A) → map f (xs ++ ys) ≡ map f xs ++ map f ys
map-append f [] ys = refl
map-append f (x ∷ xs) ys = ap (λ l. f x ∷ l) (map-append f xs ys)

-- The pages from the first to the `n`-th, one after the other.
abbrev pub pages : ℕ → ℕ → Database → List Workflow
pages page_size zero db = []
pages page_size (suc n) db = pages page_size n db ++ (find_all_workflows (suc n) page_size db).0

module _ (page_size : ℕ) (db : Database) where
  abbrev newest : List WorkflowRow
  newest = newest_first (λ row. row.created_at) db.workflows

  -- Created at the same time or later than the other.
  abbrev pub IsNewer : WorkflowRow → WorkflowRow → Type 0
  IsNewer r s = s.created_at ≤ r.created_at

  abbrev at_least_as_new : WorkflowRow → WorkflowRow → Bool
  at_least_as_new r s = leb s.created_at r.created_at

  insert_newest_lem :
      (r : WorkflowRow) (rows : List WorkflowRow)
      → insert_newest (λ row. row.created_at) r rows ≡ insert_ordered at_least_as_new r rows
  insert_newest_lem r [] = refl
  insert_newest_lem r (s ∷ rows) =
      ap (λ l. if at_least_as_new r s then r ∷ s ∷ rows else s ∷ l) (insert_newest_lem r rows)

  newest_lem :
      (rows : List WorkflowRow)
      → newest_first (λ row. row.created_at) rows ≡ sort_ordered at_least_as_new rows
  newest_lem [] = refl
  newest_lem (r ∷ rows) =
      ap (insert_newest (λ row. row.created_at) r) (newest_lem rows)
      ∙ insert_newest_lem r (sort_ordered at_least_as_new rows)

  newest-IsOrdered : IsOrdered IsNewer newest
  newest-IsOrdered =
      subst (λ (l : List WorkflowRow). IsOrdered IsNewer l) (sym (newest_lem db.workflows))
        (sort_ordered-IsOrdered IsNewer at_least_as_new (λ x y z h k. omega arith)
          (λ x y h. ground arith) (λ x y h. ground arith) db.workflows)

  newest-perm : Permᴰ newest db.workflows
  newest-perm =
      subst (λ (l : List WorkflowRow). Permᴰ l db.workflows) (sym (newest_lem db.workflows))
        (sort_ordered-perm at_least_as_new db.workflows)

  joined-take_first :
      (n : ℕ)
      → pages page_size n db ≡ map (read_workflow db) (take_first (n * min page_size 100) newest)
  unfolding find_all_workflows page_of
  joined-take_first zero =
      let e : 0 ≡ 0 * min page_size 100 = omega arith in
      ap (λ k. map (read_workflow db) (take_first k newest)) e
  joined-take_first (suc n) =
      let limit = min page_size 100 in
      let skipped : (suc n - 1) * limit ≡ n * limit = ap (λ k. k * limit) (omega arith) in
      let room : n * limit + limit ≡ suc n * limit = sym (suc-mul n limit) in
      ap₂ (λ l k. l ++ map (read_workflow db) (take_first limit (skip_first k newest)))
        (joined-take_first n) skipped
      ∙ sym (map-append (read_workflow db) (take_first (n * limit) newest) _)
      ∙ ap (map (read_workflow db)) (take_more (n * limit) limit newest)
      ∙ ap (λ k. map (read_workflow db) (take_first k newest)) room

  -- The rows of all workflows have an order in which none was created before one behind it, and the first
  -- pages of a size, one after the other, are the workflows of the first rows in this order, as many as
  -- the pages have room for; no page has more than a hundred.
  pub pages-take_first :
      (n : ℕ)
      → IsOrdered IsNewer newest
        × Permᴰ newest db.workflows
        × (pages page_size n db
            ≡ map (read_workflow db) (take_first (n * min page_size 100) newest))
        × (length (find_all_workflows n page_size db).0 ≤ 100)
  unfolding find_all_workflows page_of
  pages-take_first n = (
    newest-IsOrdered,
    newest-perm,
    joined-take_first n,
    omega (
      arith,
      length-map (read_workflow db) (page_of (λ row. row.created_at) n page_size db.workflows),
      length-take_first (min page_size 100) (skip_first ((n - 1) * min page_size 100) newest),
    ),
  )
