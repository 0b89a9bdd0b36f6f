-- ===== src/Executor/FanOut/Incoming.antt =====
-- What makes a task ready: the conditions of an edge and of all edges that lead to a task.
use task_orchestrator_engine.Prelude.{
  ◌≡◌, refl, inl, inr, ◌⊎◌, Bool, true, false, every, any_of, or_cases, Option, none, some, List,
  [], ◌∷◌, arith, ◌==◌, Bool-cases,
}
use Prim.Native.String.{String}
use task_orchestrator_engine.Types.{
  Ident, Json, Edge, TaskState, TaskStatus, TaskStatus.pending, TaskStatus.skipped,
  TaskStatus.completed, TaskStatus.running, TaskStatus.failed, TaskStatus.cancelled,
  TaskStatus.timed_out,
}
use task_orchestrator_engine.Executor.FanOut.{
  passes, is_completed, is_satisfied, incoming, source_passes, evaluate_condition, holds, state_of,
  fan_in_satisfied, condition_met,
}

-- An edge of a list.
pub data Listed (e : Edge) : List Edge → Type 0 where
  first : {es : List Edge} → Listed e (e ∷ es)
  later : {d : Edge} {es : List Edge} → Listed e es → Listed e (d ∷ es)

-- A task that was completed or skipped.
pub data IsSettled : Option TaskState → Type 0 where
  was_completed : {s : TaskState} → s.status ≡ completed → IsSettled (some s)
  was_skipped : {s : TaskState} → s.status ≡ skipped → IsSettled (some s)

-- Every edge of a list that leads to a task comes from a settled task.
abbrev pub AllSettled : List TaskState → Ident → List Edge → Type 0
AllSettled states def [] = Unit
AllSettled states def (e ∷ es) =
    (((e.target_task_id == def) ≡ false) ⊎ IsSettled (state_of e.source_task_id states))
    × AllSettled states def es

-- Some edge of a list leads to a task from a completed one.
pub data FromCompleted (states : List TaskState) (def : Ident) : List Edge → Type 0 where
  this_one :
      {e : Edge} {es : List Edge} {s : TaskState}
      → (e.target_task_id == def) ≡ true
      → state_of e.source_task_id states ≡ some s
      → s.status ≡ completed
      → FromCompleted states def (e ∷ es)
  another :
      {e : Edge} {es : List Edge} → FromCompleted states def es → FromCompleted states def (e ∷ es)

-- The condition of an edge lets the task go on: there is none, or it is true of the output.
pub data IsMet (evaluate : String → Json → Option Bool) : Option String → Option Json → Type 0 where
  no_condition : {out : Option Json} → IsMet evaluate none out
  empty_condition : {out : Option Json} → IsMet evaluate (some "") out
  is_true :
      {expr : String} {out : Json}
      → evaluate expr out ≡ some true
      → IsMet evaluate (some expr) (some out)

settled_lem : (o : Option TaskState) → passes is_satisfied o ≡ true → IsSettled o
settled_lem none h = cc
settled_lem (some s) h = over s.status refl h
  where
    over : (t : TaskStatus) → s.status ≡ t → is_satisfied t ≡ true → IsSettled (some s)
    over completed e k = was_completed e
    over skipped e k = was_skipped e
    over pending e k = cc
    over running e k = cc
    over failed e k = cc
    over cancelled e k = cc
    over timed_out e k = cc

completed_lem :
    (o : Option TaskState)
    → passes is_completed o ≡ true
    → (s : TaskState) × (o ≡ some s) × (s.status ≡ completed)
completed_lem none h = cc
completed_lem (some s) h = (s, refl, over s.status h)
  where
    over : (t : TaskStatus) → is_completed t ≡ true → t ≡ completed
    over completed k = refl
    over skipped k = cc
    over pending k = cc
    over running k = cc
    over failed k = cc
    over cancelled k = cc
    over timed_out k = cc

all_lem :
    (states : List TaskState) (def : Ident) (es : List Edge)
    → every (source_passes is_satisfied states) (incoming def es) ≡ true
    → AllSettled states def es
all_lem states def [] h = _
all_lem states def (e ∷ es) h = elim (Bool-cases (e.target_task_id == def)) [
  | inr n ↦ (inl n, all_lem states def es (rw n at h))
  | inl y ↦
      let both = rw y at h in
      (
        inr (settled_lem (state_of e.source_task_id states) (ground (arith, both))),
        all_lem states def es (ground (arith, both)),
      )
]

one_lem :
    (states : List TaskState) (def : Ident) (es : List Edge)
    → any_of (source_passes is_completed states) (incoming def es) ≡ true
    → FromCompleted states def es
one_lem states def [] h = cc
one_lem states def (e ∷ es) h = elim (Bool-cases (e.target_task_id == def)) [
  | inr n ↦ another (one_lem states def es (rw n at h))
  | inl y ↦ elim (or_cases _ _ (rw y at h)) [
    | inl here ↦
        let (s, f, c) = completed_lem (state_of e.source_task_id states) here in this_one y f c
    | inr there ↦ another (one_lem states def es there)
  ]
]

pub fan_in_lem :
    (states : List TaskState) (def : Ident) (es : List Edge)
    → fan_in_satisfied def es states ≡ true
    → AllSettled states def es × FromCompleted states def es
unfolding fan_in_satisfied
fan_in_lem states def es h =
    (all_lem states def es (ground (arith, h)), one_lem states def es (ground (arith, h)))

pub met_lem :
    (evaluate : String → Json → Option Bool) (expr : Option String) (out : Option Json)
    → condition_met evaluate expr out ≡ true
    → IsMet evaluate expr out
unfolding condition_met evaluate_condition
met_lem evaluate none out h = no_condition
met_lem evaluate (some String.[]) out h = empty_condition
met_lem evaluate (some (String.◌∷◌ c s)) none h = cc
met_lem evaluate (some (String.◌∷◌ c s)) (some out) h =
    is_true (holding (evaluate (String.◌∷◌ c s) out) h)
  where
    holding : (o : Option Bool) → holds o ≡ true → o ≡ some true
    holding none k = cc
    holding (some true) k = refl
    holding (some false) k = cc

pub met_converse :
    (evaluate : String → Json → Option Bool) (expr : Option String) (out : Option Json)
    → IsMet evaluate expr out
    → condition_met evaluate expr out ≡ true
unfolding condition_met evaluate_condition
met_converse evaluate _ out no_condition = refl
met_converse evaluate _ out empty_condition = refl
met_converse evaluate (some String.[]) (some out) (is_true h) = refl
met_converse evaluate (some (String.◌∷◌ c s)) (some out) (is_true h) = rw h refl

settled_converse : {o : Option TaskState} → IsSettled o → passes is_satisfied o ≡ true
settled_converse (was_completed e) = rw e refl
settled_converse (was_skipped e) = rw e refl

all_converse :
    (states : List TaskState) (def : Ident) (es : List Edge)
    → AllSettled states def es
    → every (source_passes is_satisfied states) (incoming def es) ≡ true
all_converse states def [] h = refl
all_converse states def (e ∷ es) (inl n, rest) = rw n (all_converse states def es rest)
all_converse states def (e ∷ es) (inr s, rest) = elim (Bool-cases (e.target_task_id == def)) [
  | inr n ↦ rw n (all_converse states def es rest)
  | inl y ↦ rw y (ground (arith, settled_converse s, all_converse states def es rest))
]

one_converse :
    (states : List TaskState) (def : Ident) (es : List Edge)
    → FromCompleted states def es
    → any_of (source_passes is_completed states) (incoming def es) ≡ true
one_converse states def _ (this_one y f c) = rw (y, f, c) refl
one_converse states def _ (another {e} {es} k) = elim (Bool-cases (e.target_task_id == def)) [
  | inr n ↦ rw n (one_converse states def es k)
  | inl y ↦ rw y (ground (arith, one_converse states def es k))
]

pub fan_in_converse :
    (states : List TaskState) (def : Ident) (es : List Edge)
    → AllSettled states def es
    → FromCompleted states def es
    → fan_in_satisfied def es states ≡ true
unfolding fan_in_satisfied
fan_in_converse states def es a b =
    ground (arith, all_converse states def es a, one_converse states def es b)
