-- ===== src/Scheduler/Executions/Started.antt =====
-- What the start of an execution writes to the tables and to the queue.
use mathlib.Core.List.{append_assoc, append-nil}
use task_orchestrator_engine.Prelude.{
  ◌≤◌, ◌<◌, ◌+◌, ℕ, suc, ◌≡◌, refl, ap, sym, subst, ◌∙◌, Bool, true, not, Option, none, some, List,
  [], ◌∷◌, ◌++◌, map, keep, every, elem, ltb, ◌==◌, arith, if◌then◌else◌, ==_refl,
}
use task_orchestrator_engine.Types.{
  Ident, Instant, Json, TaskDefinition, Edge, Workflow, Execution, ExecutionStatus, TaskState,
  TaskStatus,
}
use task_orchestrator_engine.Redis.Server.{Server}
use task_orchestrator_engine.Redis.TaskQueue.{enqueue}
use task_orchestrator_engine.Redis.TaskQueue.Flow.{waiting, waiting-enqueue}
use task_orchestrator_engine.Scheduler.Tables.{Database}
use task_orchestrator_engine.Scheduler.Workflows
use task_orchestrator_engine.Scheduler.TaskStates.{find_by_execution_id}
use task_orchestrator_engine.Scheduler.Executions.{
  new_execution, new_state, drawn_states, create_batch, count_tasks, set_status, update_execution,
  find_execution, Answer, accepted, workflow_not_found, root_tasks, enqueue_all, execute_found,
  execute,
}

-- No execution and no task state uses an id that is still to be drawn.
pub record HasFreshIds (db : Database) : Type 0 where
  pub executions_fresh : every (λ e. ltb e.id db.next_id) db.executions ≡ true
  pub states_fresh : every (λ s. ltb s.execution_id db.next_id) db.task_states ≡ true

-- No edge of the workflow leads to the task of a row.
abbrev pub is_root : Workflow → TaskState → Bool
is_root w s = every (λ e. not (e.target_task_id == s.task_definition_id)) w.edges

-- A pending row for a task, not attempted yet.
abbrev pub IsNew : Ident → TaskDefinition → TaskState → Type 0
IsNew execution task s =
    (s.execution_id ≡ execution)
    × (s.task_definition_id ≡ task.id)
    × (s.status ≡ TaskStatus.pending)
    × (s.attempt_count ≡ 0)

abbrev pub AllNew : Ident → List TaskDefinition → List TaskState → Type 0
AllNew execution [] [] = Unit
AllNew execution [] (s ∷ ss) = ⊥
AllNew execution (t ∷ ts) [] = ⊥
AllNew execution (t ∷ ts) (s ∷ ss) = IsNew execution t s × AllNew execution ts ss

drawn_states-AllNew :
    (execution id : ℕ) (ts : List TaskDefinition)
    → AllNew execution ts (drawn_states execution id ts)
unfolding drawn_states
drawn_states-AllNew execution id [] = _
drawn_states-AllNew execution id (t ∷ ts) =
    ((refl, refl, refl, refl), drawn_states-AllNew execution (suc id) ts)

no_old_states :
    (id : ℕ) (ss : List TaskState)
    → every (λ s. ltb s.execution_id id) ss ≡ true
    → keep (λ s. s.execution_id == id) ss ≡ []
no_old_states id [] h = refl
no_old_states id (s ∷ ss) h = ground (arith, no_old_states id ss)

keep-drawn_states :
    (e id : ℕ) (ts : List TaskDefinition)
    → keep (λ s. s.execution_id == e) (drawn_states e id ts) ≡ drawn_states e id ts
unfolding drawn_states
keep-drawn_states e id [] = refl
keep-drawn_states e id (t ∷ ts) =
    rw (==_refl e) (ap (λ l. new_state e id t ∷ l) (keep-drawn_states e (suc id) ts))

keep_states-append :
    (test : TaskState → Bool) (xs ys : List TaskState)
    → keep test (xs ++ ys) ≡ keep test xs ++ keep test ys
keep_states-append test [] ys = refl
keep_states-append test (x ∷ xs) ys = ground (arith, keep_states-append test xs ys)

find_started :
    (now : Instant) (new : Execution) (es : List Execution)
    → every (λ e. ltb e.id new.id) es ≡ true
    → find_execution new.id (
        map
          (λ e. if e.id == new.id then set_status ExecutionStatus.running now e else e)
          (es ++ new ∷ []))
      ≡ some (set_status ExecutionStatus.running now new)
unfolding find_execution
find_started now new [] h = rw (==_refl new.id) (rw (==_refl new.id) refl)
find_started now new (e ∷ es) h = ground (arith, find_started now new es)

executions_stay_fresh :
    (now : Instant) (k n n' : ℕ) (es : List Execution)
    → n ≤ n'
    → every (λ e. ltb e.id n) es ≡ true
    → every
        (λ e. ltb e.id n')
        (map (λ e. if e.id == k then set_status ExecutionStatus.running now e else e) es)
      ≡ true
executions_stay_fresh now k n n' [] l h = refl
executions_stay_fresh now k n n' (e ∷ es) l h =
    ground (arith, executions_stay_fresh now k n n' es l)

new_execution_fresh :
    (n : ℕ) (new : Execution) (es : List Execution)
    → new.id < n
    → every (λ e. ltb e.id new.id) es ≡ true
    → every (λ e. ltb e.id n) (es ++ new ∷ []) ≡ true
new_execution_fresh n new [] l h = ground arith
new_execution_fresh n new (e ∷ es) l h = ground (arith, new_execution_fresh n new es l)

states_stay_fresh :
    (e id n : ℕ) (ss : List TaskState) (ts : List TaskDefinition)
    → e < n
    → every (λ s. ltb s.execution_id e) ss ≡ true
    → every (λ s. ltb s.execution_id n) (ss ++ drawn_states e id ts) ≡ true
unfolding drawn_states
states_stay_fresh e id n [] [] l h = refl
states_stay_fresh e id n [] (t ∷ ts) l h =
    ground (arith, states_stay_fresh e (suc id) n [] ts l refl)
states_stay_fresh e id n (s ∷ ss) ts l h = ground (arith, states_stay_fresh e id n ss ts l)

roots_lem :
    (target : Ident) (edges : List Edge)
    → not (elem target (map (λ (e : Edge). e.target_task_id) edges))
      ≡ every (λ e. not (e.target_task_id == target)) edges
roots_lem target [] = refl
roots_lem target (e ∷ edges) = ground (arith, roots_lem target edges)

module _ (redis : Server) where
  open redis use {Store}

  waiting-enqueue_all :
      (ts : List TaskState) (s : Store)
      → waiting redis (enqueue_all redis ts s) ≡ waiting redis s ++ map (λ t. t.id) ts
  unfolding enqueue_all
  waiting-enqueue_all [] s = sym (append-nil (waiting redis s))
  waiting-enqueue_all (t ∷ ts) s =
      waiting-enqueue_all ts (enqueue redis t.id s)
      ∙ ap (λ l. l ++ map (λ (u : TaskState). u.id) ts) (waiting-enqueue redis t.id s)
      ∙ append_assoc (waiting redis s) (t.id ∷ []) (map (λ t. t.id) ts)

  -- What a start does: nothing for an unknown workflow.
  pub data IsStarted (id : Ident) (now : Instant) (db : Database) (s : Store)
      : Answer × Database × Store → Type 0 where
    unknown :
        Workflows.find_by_id id db ≡ none → IsStarted id now db s (workflow_not_found id, db, s)
    started :
        {db' : Database} {s' : Store} (workflow : Workflow)
        → Workflows.find_by_id id db ≡ some workflow
        → (e : Execution) → find_execution e.id db'.executions ≡ some e
        → e.workflow_id ≡ id
        → e.status ≡ ExecutionStatus.running
        → e.started_at ≡ some now
        → AllNew e.id workflow.task_definitions (find_by_execution_id e.id db'.task_states)
        → waiting redis s'
          ≡ waiting redis s
            ++ map (λ t. t.id) (keep (is_root workflow) (find_by_execution_id e.id db'.task_states))
        → HasFreshIds db'
        → IsStarted id now db s (accepted e.id, db', s')

  module _ (id : Ident) (input : Option Json) (now : Instant) (db : Database) (s : Store)
      (fresh : HasFreshIds db) where
    abbrev drawn : Workflow → List TaskState
    drawn w = drawn_states db.next_id (suc db.next_id) w.task_definitions

    rows : (w : Workflow) → find_by_execution_id db.next_id (db.task_states ++ drawn w) ≡ drawn w
    unfolding find_by_execution_id
    rows w = keep_states-append (λ s. s.execution_id == db.next_id) db.task_states (drawn w) ∙ λ i.
        no_old_states db.next_id db.task_states fresh.states_fresh i
        ++ keep-drawn_states db.next_id (suc db.next_id) w.task_definitions i

    same_roots :
        (w : Workflow)
        → root_tasks w (drawn w)
          ≡ keep (is_root w) (find_by_execution_id db.next_id (db.task_states ++ drawn w))
    same_roots w =
        (λ i. keep (λ t. roots_lem t.task_definition_id w.edges i) (drawn w))
        ∙ ap (keep (is_root w)) (sym (rows w))

    found-IsStarted :
        (o : Option Workflow)
        → Workflows.find_by_id id db ≡ o
        → IsStarted id now db s (execute_found redis id input now o db s)
    unfolding create_batch update_execution find_by_execution_id
    found-IsStarted none e = unknown e
    found-IsStarted (some w) e =
        started w e (set_status ExecutionStatus.running now (new_execution id input now db.next_id))
          (find_started now (new_execution id input now db.next_id) db.executions
            fresh.executions_fresh)
          refl refl refl
          (subst (AllNew db.next_id w.task_definitions) (sym (rows w))
            (drawn_states-AllNew db.next_id (suc db.next_id) w.task_definitions))
          (waiting-enqueue_all (root_tasks w (drawn w)) s ∙ λ i.
            waiting redis s ++ map (λ t. t.id) (same_roots w i))
          (record {
            executions_fresh =
                executions_stay_fresh now db.next_id (suc db.next_id)
                  (suc db.next_id + count_tasks w.task_definitions)
                  (db.executions ++ new_execution id input now db.next_id ∷ []) (omega arith)
                  (new_execution_fresh (suc db.next_id) (new_execution id input now db.next_id)
                    db.executions (omega arith) fresh.executions_fresh);
            states_fresh =
                states_stay_fresh db.next_id (suc db.next_id)
                  (suc db.next_id + count_tasks w.task_definitions) db.task_states
                  w.task_definitions (omega arith) fresh.states_fresh;
          })

    -- Where no id that is still to be drawn is used, the start of an unknown workflow changes nothing; of
    -- a known one it adds an execution that runs since now, with one pending row for each task in their
    -- order, and puts behind the waiting tasks exactly the rows whose task no edge leads to; still no id
    -- to be drawn is used.
    pub execute-IsStarted : IsStarted id now db s (execute redis id input now db s)
    unfolding execute
    execute-IsStarted = found-IsStarted (Workflows.find_by_id id db) refl
