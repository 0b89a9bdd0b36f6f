-- ===== src/Scheduler/Executions/Alive.antt =====
-- The start of an execution of a validated workflow puts a task into the queue.
use task_orchestrator_engine.Prelude.{
  ◌≡◌, ◌⊎◌, refl, ap, sym, subst, ◌∙◌, inl, inr, true, false, not, Option, none, some, List, [],
  ◌∷◌, ◌++◌, map, keep, every, elem, ◌==◌, arith, ==_iff, or_cases, Bool-cases,
}
use task_orchestrator_engine.Types.{Ident, Instant, Json, TaskDefinition, Edge, Workflow, TaskState}
use task_orchestrator_engine.Redis.Server.{Server}
use task_orchestrator_engine.Redis.TaskQueue.Flow.{waiting}
use task_orchestrator_engine.Dag.Graph.{is_task, targets}
use task_orchestrator_engine.Dag.Validator.{DagValidationResult, validate_dag}
use task_orchestrator_engine.Dag.Validator.Verdict.{validate_dag-decides}
use task_orchestrator_engine.Dag.Validator.Descent.{acyclic-reached}
use task_orchestrator_engine.Dag.Validator.Reachability.{FromRoot, root_task, along}
use task_orchestrator_engine.Scheduler.Tables.{Database}
use task_orchestrator_engine.Scheduler.Workflows
use task_orchestrator_engine.Scheduler.TaskStates.{find_by_execution_id}
use task_orchestrator_engine.Scheduler.Executions.{Answer, execute}
use task_orchestrator_engine.Scheduler.Executions.Started.{
  HasFreshIds, is_root, AllNew, IsStarted, unknown, started, execute-IsStarted,
}

-- No edge leads to a task that is the target of none.
no_edge_to :
    (edges : List Edge) (u : Ident)
    → ((w : Ident) → elem u (targets edges w) ≡ false)
    → every (λ e. not (e.target_task_id == u)) edges ≡ true
no_edge_to [] u h = refl
no_edge_to (e ∷ edges) u h =
    let here = h e.source_task_id in
    ground (arith, no_edge_to edges u (λ w. let there = h w in ground arith))

a_root :
    (tasks : List TaskDefinition) (edges : List Edge) {x : Ident}
    → FromRoot tasks edges x
    → (u : Ident) × (is_task tasks u ≡ true)
      × (every (λ e. not (e.target_task_id == u)) edges ≡ true)
a_root tasks edges (root_task {u} task none_in) = (u, task, no_edge_to edges u none_in)
a_root tasks edges (along r m) = a_root tasks edges r

-- A queue that has grown behind its entries.
abbrev pub HasGrown : List Ident → List Ident → Type 0
HasGrown before after = (id : Ident) × (more : List Ident) × (after ≡ before ++ id ∷ more)

abbrev Cons : List Ident → Type 0
Cons l = (id : Ident) × (more : List Ident) × (l ≡ id ∷ more)

module _ (w : Workflow) (execution u : Ident)
    (root : every (λ e. not (e.target_task_id == u)) w.edges ≡ true) where
  same_root : (s : TaskState) → s.task_definition_id ≡ u → is_root w s ≡ true
  same_root s e =
      subst (λ (v : Ident). every (λ x. not (x.target_task_id == v)) w.edges ≡ true) (sym e) root

  some_root :
      (tasks : List TaskDefinition) (rows : List TaskState)
      → AllNew execution tasks rows
      → is_task tasks u ≡ true
      → Cons (map (λ s. s.id) (keep (is_root w) rows))
  some_root [] rows a h = cc
  some_root (t ∷ ts) [] a h = elim a [ ]
  some_root (t ∷ ts) (s ∷ rows) a h = elim (Bool-cases (is_root w s)) [
    | inl r ↦ rw r (s.id, map (λ s. s.id) (keep (is_root w) rows), refl)
    | inr r ↦ rw r (some_root ts rows a.1 (later (or_cases (u == t.id) (is_task ts u) h) r))
  ]
    where
      later :
          ((u == t.id) ≡ true) ⊎ (is_task ts u ≡ true) → is_root w s ≡ false → is_task ts u ≡ true
      later (inr m) r = m
      later (inl m) r = let is = same_root s (a.0.1 ∙ sym ((==_iff u t.id).0 m)) in cc

module _ (redis : Server) where
  open redis use {Store}

  module _ (w : Workflow) (u : Ident) (task : is_task w.task_definitions u ≡ true)
      (root : every (λ e. not (e.target_task_id == u)) w.edges ≡ true) where
    grown :
        (id : Ident) (now : Instant) (db : Database) (s : Store) (r : Answer × Database × Store)
        → Workflows.find_by_id id db ≡ some w
        → IsStarted redis id now db s r
        → HasGrown (waiting redis s) (waiting redis r.2)
    grown id now db s r e (unknown n) = elim (known_or_not (sym e ∙ n)) [ ]
      where
        known_or_not : some w ≡ none → ⊥
        known_or_not h = cc
    grown id now db s r e (started w' e' x found wf run since new queue fresh) =
        let same : w ≡ w' = cc in
        let front =
          some_root w' x.id u
            (subst (λ (v : Workflow). every (λ e. not (e.target_task_id == u)) v.edges ≡ true) same
              root)
            w'.task_definitions (find_by_execution_id x.id r.1.task_states) new
            (subst (λ (v : Workflow). is_task v.task_definitions u ≡ true) same task) in
        (front.0, front.1, queue ∙ ap (λ l. waiting redis s ++ l) front.2)

  -- Where no id that is still to be drawn is used, the start of a known workflow that has a task and
  -- whose graph the validation accepts puts at least one entry behind the waiting tasks.
  pub execute-HasGrown :
      (id : Ident) (input : Option Json) (now : Instant) (db : Database) (s : Store) (w : Workflow)
      (t : TaskDefinition) (ts : List TaskDefinition) (v : DagValidationResult)
      → HasFreshIds db
      → Workflows.find_by_id id db ≡ some w
      → w.task_definitions ≡ t ∷ ts
      → validate_dag w.task_definitions w.edges ≡ some v
      → v.valid ≡ true
      → HasGrown (waiting redis s) (waiting redis (execute redis id input now db s).2)
  execute-HasGrown id input now db s w t ts v fresh e tasks valid is =
      let (r, found, exact, _) = validate_dag-decides w.task_definitions w.edges in
      let same : r ≡ v = cc in
      let sound = exact.0 (ap (λ (q : DagValidationResult). q.valid) same ∙ is) in
      let first : is_task w.task_definitions t.id ≡ true =
        subst (λ (l : List TaskDefinition). is_task l t.id ≡ true) (sym tasks) (ground arith) in
      let top =
        a_root w.task_definitions w.edges
          (acyclic-reached w.task_definitions w.edges sound.0 sound.1 t.id first) in
      grown w top.0 top.1 top.2 id now db s (execute redis id input now db s) e
        (execute-IsStarted redis id input now db s fresh)
