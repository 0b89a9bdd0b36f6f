-- ===== src/Executor/FanOut.antt =====
-- fan-out-fan-in.ts. The source changes a task's status in the list of states that the map shares;
-- here the statuses are threaded. The value of a condition on an output is an argument, `none` if
-- its evaluation throws.
pub mod Skips
pub mod Fuel
pub mod Incoming
pub mod Ready
pub mod Woken
use Prim.Native.String.{String}
use Prim.Native.String
use task_orchestrator_engine.Prelude.{
  ℕ, zero, suc, Bool, true, false, ◌&&◌, Option, none, some, List, [], ◌∷◌, ◌++◌, reverse, keep,
  every, any_of, length, ◌==◌, if◌then◌else◌,
}
use task_orchestrator_engine.Types.{
  Ident, Json, Edge, TaskState, TaskStatus, TaskStatus.pending, TaskStatus.running,
  TaskStatus.completed, TaskStatus.failed, TaskStatus.cancelled, TaskStatus.timed_out,
  TaskStatus.skipped,
}
use task_orchestrator_engine.Redis.Server.{Server}
use task_orchestrator_engine.Redis.TaskQueue.{enqueue_batch}

abbrev pub later_or {ℓ} : {A : Type ℓ} → Option TaskState → A → (TaskState → A) → A
later_or none this other = this
later_or (some later) this other = other later

-- `taskStateByDefId.get`: of two states with one definition the map holds the later.
unfoldable pub state_of : Ident → List TaskState → Option TaskState
state_of def [] = none
state_of def (s ∷ ss) =
    later_or (state_of def ss) (if s.task_definition_id == def then some s else none) some

-- Whether the status of the state in the map, if there is one, passes a test.
abbrev pub passes : (TaskStatus → Bool) → Option TaskState → Bool
passes test none = false
passes test (some s) = test s.status

abbrev pub is_pending : TaskStatus → Bool
is_pending pending = true
is_pending _ = false

abbrev pub is_completed : TaskStatus → Bool
is_completed completed = true
is_completed _ = false

-- `['completed', 'skipped'].includes`
abbrev pub is_satisfied : TaskStatus → Bool
is_satisfied completed = true
is_satisfied skipped = true
is_satisfied _ = false

-- `['skipped', 'failed', 'cancelled', 'timed_out'].includes`
abbrev pub is_unmet : TaskStatus → Bool
is_unmet skipped = true
is_unmet failed = true
is_unmet cancelled = true
is_unmet timed_out = true
is_unmet _ = false

abbrev pub incoming : Ident → List Edge → List Edge
incoming def edges = keep (λ e. e.target_task_id == def) edges

abbrev pub outgoing : Ident → List Edge → List Edge
outgoing def edges = keep (λ e. e.source_task_id == def) edges

abbrev pub source_passes : (TaskStatus → Bool) → List TaskState → Edge → Bool
source_passes test states e = passes test (state_of e.source_task_id states)

-- The fan-in: all incoming edges are satisfied, and at least one by a completed task.
unfoldable pub fan_in_satisfied : Ident → List Edge → List TaskState → Bool
fan_in_satisfied def edges states =
    every (source_passes is_satisfied states) (incoming def edges)
    && any_of (source_passes is_completed states) (incoming def edges)

unfoldable pub all_unmet : Ident → List Edge → List TaskState → Bool
all_unmet def edges states = every (source_passes is_unmet states) (incoming def edges)

-- `targetState.status = 'skipped'`, of the object that the map holds: the last of the definition.
unfoldable pub skip_last : Ident → List TaskState → List TaskState
skip_last def [] = []
skip_last def (s ∷ ss) =
    let here = if s.task_definition_id == def then record s { status = skipped } ∷ ss else s ∷ ss in
    let later = s ∷ skip_last def ss in later_or (state_of def ss) here (λ _. later)

-- The loop of `markSkipped` over the outgoing edges; `mark` is the recursive call.
unfoldable pub propagate :
    (Ident → List TaskState → List TaskState)
    → List Edge
    → List Edge
    → List TaskState
    → List TaskState
propagate mark edges [] states = states
propagate mark edges (e ∷ es) states =
    let further = propagate mark edges es (mark e.target_task_id states) in
    let next = propagate mark edges es states in
    if all_unmet e.target_task_id edges states then further else next

-- `markSkipped`, on fuel for its recursion.
unfoldable pub mark_skipped : ℕ → List Edge → Ident → List TaskState → List TaskState
unfolding state_of skip_last propagate
mark_skipped zero edges def states = states
mark_skipped (suc fuel) edges def states =
    let marked =
      propagate (mark_skipped fuel edges) edges (outgoing def edges) (skip_last def states) in
    if passes is_pending (state_of def states) then marked else states

-- What the loop has gathered: the ready tasks, last first, and the states.
pub record Progress : Type 0 where
  pub ready : List Ident
  pub states : List TaskState

abbrev pub output_of : Option TaskState → Option Json
output_of none = none
output_of (some s) = s.output

abbrev pub holds : Option Bool → Bool
holds (some true) = true
holds _ = false

module _ (evaluate : String → Json → Option Bool) where
  -- `evaluateCondition`: false without an output, and where the evaluation throws.
  unfoldable pub evaluate_condition : String → Option Json → Bool
  evaluate_condition expression none = false
  evaluate_condition expression (some output) = holds (evaluate expression output)

  -- Whether the edge's condition lets the task go on; an empty expression is no condition.
  unfoldable pub condition_met : Option String → Option Json → Bool
  unfolding evaluate_condition
  condition_met none output = true
  condition_met (some String.[]) output = true
  condition_met (some (String.◌∷◌ c s)) output = evaluate_condition (String.◌∷◌ c s) output

  -- One turn of the loop over the outgoing edges, at the state of the edge's target.
  unfoldable pub visit_pending : ℕ → Ident → List Edge → Edge → TaskState → Progress → Progress
  unfolding condition_met mark_skipped fan_in_satisfied
  visit_pending fuel def edges edge target p =
      if condition_met edge.condition_expr (output_of (state_of def p.states))
      then if fan_in_satisfied edge.target_task_id edges p.states
        then record p { ready = target.id ∷ p.ready }
        else p
      else record p { states = mark_skipped fuel edges edge.target_task_id p.states }

  unfoldable pub visit_target :
      ℕ → Ident → List Edge → Edge → Option TaskState → Progress → Progress
  unfolding visit_pending
  visit_target fuel def edges edge none p = p
  visit_target fuel def edges edge (some target) p =
      if is_pending target.status then visit_pending fuel def edges edge target p else p

  unfoldable pub visit_edges : ℕ → Ident → List Edge → List Edge → Progress → Progress
  unfolding visit_target state_of
  visit_edges fuel def edges [] p = p
  visit_edges fuel def edges (e ∷ es) p =
      visit_edges fuel def edges es
        (visit_target fuel def edges e (state_of e.target_task_id p.states) p)

  module _ (redis : Server) where
    -- `evaluateDownstream`: the ready tasks in the order of the edges, the states and the store
    -- behind it. The event that it publishes last is not kept.
    unfoldable pub evaluate_downstream :
        Ident → List Edge → List TaskState → redis.Store → List Ident × List TaskState × redis.Store
    unfolding visit_edges
    evaluate_downstream def edges states s =
        let p =
          visit_edges (length states) def edges (outgoing def edges)
            (record { ready = []; states = states }) in
        let ready = reverse p.ready in (ready, p.states, enqueue_batch redis ready s)
