-- ===== src/Dag/Validator/Verdict.antt =====
-- `validateDAG` accepts exactly the graphs whose edges join tasks and which have no cycle.
use task_orchestrator_engine.Prelude.{
  ◌≡◌, refl, ap, sym, subst, ◌≢◌, ◌⊎◌, inl, inr, ◌↔◌, Bool, true, false, Option, some, List, [],
  ◌∷◌, ◌++◌, arith, elem, any_of, keep, ◌==◌, ==_iff,
}
use task_orchestrator_engine.Types.{Ident, TaskDefinition, Edge}
use task_orchestrator_engine.Dag.Graph.{is_task, targets, Arc, Walk, one, more, HasCycle}
use task_orchestrator_engine.Dag.Validator.{
  is_valid_edge, validate_edge_references, detect_cycles, check_reachability, DagValidationError,
  cycle_detected, unreachable_nodes, DagValidationResult, edge_errors, structure_errors, no_errors,
  validate_dag,
}
use task_orchestrator_engine.Dag.Validator.Cycles.{detect_cycles-decides}
use task_orchestrator_engine.Dag.Validator.Reachability.{check_reachability-decides}
use task_orchestrator_engine.Dag.Validator.Descent.{AllValid, acyclic-reached}

same_task :
    (tasks : List TaskDefinition) (a b : Ident)
    → (a == b) ≡ true
    → is_task tasks a ≡ is_task tasks b
same_task tasks a b h = ap (is_task tasks) ((==_iff a b).0 h)

keep_valid :
    (tasks : List TaskDefinition) (es : List Edge) → AllValid tasks (keep (is_valid_edge tasks) es)
keep_valid tasks [] = refl
keep_valid tasks (e ∷ es) = ground (arith, keep_valid tasks es)

-- Dropping the edges that name no task changes no arc.
targets-keep :
    (tasks : List TaskDefinition) (es : List Edge) (u v : Ident)
    → is_task tasks u ≡ true
    → is_task tasks v ≡ true
    → elem v (targets (keep (is_valid_edge tasks) es) u) ≡ elem v (targets es u)
targets-keep tasks [] u v a b = refl
targets-keep tasks (e ∷ es) u v a b = ground (
  arith,
  targets-keep tasks es u v a b,
  same_task tasks e.source_task_id u,
  same_task tasks v e.target_task_id,
)

module _ (tasks : List TaskDefinition) (edges : List Edge) where
  abbrev kept : List Edge
  kept = keep (is_valid_edge tasks) edges

  Arc-kept : {u v : Ident} → Arc tasks edges u v → Arc tasks kept u v
  Arc-kept {u} {v} a = record {
    from_task = a.from_task;
    to_task = a.to_task;
    listed = rw (targets-keep tasks edges u v a.from_task a.to_task) a.listed;
  }

  kept-Arc : {u v : Ident} → Arc tasks kept u v → Arc tasks edges u v
  kept-Arc {u} {v} a = record {
    from_task = a.from_task;
    to_task = a.to_task;
    listed = rw (sym (targets-keep tasks edges u v a.from_task a.to_task)) a.listed;
  }

  Walk-kept : {u v : Ident} → Walk tasks edges u v → Walk tasks kept u v
  Walk-kept (one a) = one (Arc-kept a)
  Walk-kept (more w a) = more (Walk-kept w) (Arc-kept a)

  kept-Walk : {u v : Ident} → Walk tasks kept u v → Walk tasks edges u v
  kept-Walk (one a) = one (kept-Arc a)
  kept-Walk (more w a) = more (kept-Walk w) (kept-Arc a)

  references_ok : (es : List Edge) → (validate_edge_references tasks es ≡ []) ↔ AllValid tasks es
  unfolding validate_edge_references
  references_ok [] = (λ _. refl, λ _. refl)
  references_ok (e ∷ es) = ground (arith, references_ok es)

  nothing_unreachable : ¬ HasCycle tasks kept → check_reachability tasks kept ≡ some []
  nothing_unreachable acyclic =
      let (nodes, e, exact) = check_reachability-decides tasks kept in
      subst (λ ns. check_reachability tasks kept ≡ some ns)
        (no_members nodes λ x m.
          let (task, far) = (exact x).0 m in
          far (acyclic-reached tasks kept (keep_valid tasks edges) acyclic x task))
        e
    where
      no_members : (ns : List Ident) → ((x : Ident) → ¬ (elem x ns ≡ true)) → ns ≡ []
      no_members [] h = refl
      no_members (n ∷ ns) h = absurd (h n (ground arith))

  -- The errors of the second and third check.
  data Structure : List DagValidationError → Type 0 where
    sound : ¬ HasCycle tasks edges → Structure []
    cyclic :
        (nodes : List (Option Ident))
        → HasCycle tasks edges
        → nodes ≢ []
        → Structure (cycle_detected nodes ∷ [])

  abbrev Checked : Option (List DagValidationError) → Type 0
  Checked o = (errors : List DagValidationError) × (o ≡ some errors) × Structure errors

  structure_of :
      (nodes : List (Option Ident))
      → ((nodes ≡ []) × (¬ HasCycle tasks kept)) ⊎ ((nodes ≢ []) × HasCycle tasks kept)
      → Checked (structure_errors tasks kept (some nodes))
  unfolding structure_errors
  structure_of [] (inl (_, acyclic)) = (
    [],
    rw (nothing_unreachable acyclic, structure_errors),
    sound (λ (u, w). acyclic (u, Walk-kept w)),
  )
  structure_of [] (inr (some_node, _)) = absurd (some_node refl)
  structure_of (n ∷ ns) (inl (no_node, _)) = cc
  structure_of (n ∷ ns) (inr (_, (u, w))) =
      (cycle_detected (n ∷ ns) ∷ [], refl, cyclic (n ∷ ns) (u, kept-Walk w) (λ e. cc))

  structure-Checked : Checked (structure_errors tasks kept (detect_cycles tasks kept))
  structure-Checked =
      let (nodes, e, verdict) = detect_cycles-decides tasks kept in
      subst (λ o. Checked (structure_errors tasks kept o)) (sym e) (structure_of nodes verdict)

  abbrev pub is_unreachable : DagValidationError → Bool
  is_unreachable (unreachable_nodes _) = true
  is_unreachable _ = false

  abbrev Verdict : DagValidationResult → Type 0
  Verdict r =
      ((r.valid ≡ true) ↔ (AllValid tasks edges × (¬ HasCycle tasks edges)))
      × (any_of is_unreachable r.errors ≡ false)

  Verdict-of :
      (dangling : List (Ident × Ident)) (more : List DagValidationError)
      → (dangling ≡ []) ↔ AllValid tasks edges
      → Structure more
      → Verdict (record {
        valid = no_errors (edge_errors dangling ++ more);
        errors = edge_errors dangling ++ more;
      })
  Verdict-of [] _ ok (sound acyclic) = ((λ _. (ok.0 refl, acyclic), λ _. refl), refl)
  Verdict-of [] _ ok (cyclic nodes c some_node) = ((λ e. cc, λ (_, a). absurd (a c)), refl)
  Verdict-of (d ∷ ds) _ ok (sound acyclic) = ((λ e. cc, λ (all, _). cc (ok.1 all)), refl)
  Verdict-of (d ∷ ds) _ ok (cyclic nodes c some_node) = ((λ e. cc, λ (_, a). absurd (a c)), refl)

  -- The validation returns for every workflow. It is passed exactly if every edge joins two tasks
  -- and there is no cycle, and no error ever reports unreachable nodes.
  pub validate_dag-decides :
      (r : DagValidationResult) × (validate_dag tasks edges ≡ some r)
      × ((r.valid ≡ true) ↔ (AllValid tasks edges × (¬ HasCycle tasks edges)))
      × (any_of is_unreachable r.errors ≡ false)
  unfolding validate_dag
  validate_dag-decides =
      let (found, e, structure) = structure-Checked in
      let dangling = validate_edge_references tasks edges in
      let (exact, none_unreachable) = Verdict-of dangling found (references_ok edges) structure in
      (
        record {
          valid = no_errors (edge_errors dangling ++ found);
          errors = edge_errors dangling ++ found;
        },
        rw (e, validate_dag),
        exact,
        none_unreachable,
      )
