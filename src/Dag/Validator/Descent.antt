-- ===== src/Dag/Validator/Descent.antt =====
-- In a graph without cycles, whose edges all join tasks, every task is reached from a root: follow
-- a topological order from its front.
use task_orchestrator_engine.Prelude.{
  ◌≡◌, refl, sym, subst, inl, inr, true, ◌||◌, List, [], ◌∷◌, ◌++◌, arith, elem, elem-concat, every,
  or_cases, ◌==◌, ==_iff,
}
use task_orchestrator_engine.Types.{Ident, TaskDefinition, Edge}
use task_orchestrator_engine.Dag.Graph.{is_task, targets, Arc, HasCycle}
use task_orchestrator_engine.Dag.Sort.Order.{IsTopological}
use task_orchestrator_engine.Dag.Sort.Correct.{topological_sort-decides}
use task_orchestrator_engine.Dag.Validator.{is_valid_edge}
use task_orchestrator_engine.Dag.Validator.Reachability.{
  FromRoot, root_task, along, find_source, incoming_zero,
}

-- Every edge joins two tasks.
abbrev pub AllValid : List TaskDefinition → List Edge → Type 0
AllValid tasks edges = every (is_valid_edge tasks) edges ≡ true

same_task :
    (tasks : List TaskDefinition) (a b : Ident)
    → (a == b) ≡ true
    → is_task tasks b ≡ is_task tasks a
same_task tasks a b h = subst (λ z. is_task tasks z ≡ is_task tasks a) ((==_iff a b).0 h) refl

valid_source :
    (tasks : List TaskDefinition) (es : List Edge) (u v : Ident)
    → AllValid tasks es
    → elem v (targets es u) ≡ true
    → (is_task tasks u ≡ true) × (is_task tasks v ≡ true)
valid_source tasks [] u v a m = cc
valid_source tasks (e ∷ es) u v a m = ground (
  arith,
  valid_source tasks es u v,
  same_task tasks e.source_task_id u,
  same_task tasks v e.target_task_id,
)

module _ (tasks : List TaskDefinition) (edges : List Edge) (valid : AllValid tasks edges) where
  Arc-of : (u v : Ident) → elem v (targets edges u) ≡ true → Arc tasks edges u v
  Arc-of u v m =
      let (from, to) = valid_source tasks edges u v valid m in
      record { from_task = from; to_task = to; listed = m }

  -- The targets of a node of the order stand in the order.
  target_listed :
      (l : List Ident) (w u : Ident)
      → IsTopological tasks edges l
      → elem w l ≡ true
      → Arc tasks edges w u
      → elem u l ≡ true
  target_listed [] w u top m a = cc
  target_listed (x ∷ l) w u (fresh, arcs, top) m a = elim (or_cases (w == x) (elem w l) m) [
    | inl e ↦
        let later = arcs u (subst (λ z. Arc tasks edges z u) ((==_iff w x).0 e) a) in ground arith
    | inr old ↦ let later = target_listed l w u top old a in ground arith
  ]

  -- No arc leads into the first node of an order from the order itself.
  no-Arc_back :
      (u : Ident) (rest : List Ident) (w : Ident)
      → IsTopological tasks edges (u ∷ rest)
      → elem w (u ∷ rest) ≡ true
      → ¬ Arc tasks edges w u
  no-Arc_back u rest w (fresh, arcs, top) m a = elim (or_cases (w == u) (elem w rest) m) [
    | inl e ↦ cc (arcs u (subst (λ z. Arc tasks edges z u) ((==_iff w u).0 e) a))
    | inr later ↦ cc (target_listed rest w u top later a)
  ]

  front_reached :
      (pre : List Ident) (u : Ident) (rest : List Ident)
      → ((x : Ident) → is_task tasks x ≡ true → (elem x pre || elem x (u ∷ rest)) ≡ true)
      → ((x : Ident) → elem x pre ≡ true → FromRoot tasks edges x)
      → IsTopological tasks edges (u ∷ rest)
      → is_task tasks u ≡ true
      → FromRoot tasks edges u
  front_reached pre u rest all done top task = elim (find_source edges u) [
    | inl none_in ↦ root_task task (λ w. incoming_zero edges u w none_in)
    | inr (w, m) ↦
        let a = Arc-of w u m in
        elim (or_cases (elem w pre) (elem w (u ∷ rest)) (all w a.from_task)) [
          | inl before ↦ along (done w before) m
          | inr later ↦ absurd (no-Arc_back u rest w top later a)
        ]
  ]

  extend_done :
      (pre : List Ident) (u : Ident)
      → ((x : Ident) → elem x pre ≡ true → FromRoot tasks edges x)
      → FromRoot tasks edges u
      → (x : Ident) → elem x (pre ++ u ∷ []) ≡ true
      → FromRoot tasks edges x
  extend_done pre u done r x h =
      elim (or_cases (elem x pre) (x == u) (rw (sym (elem-concat x u pre)) h)) [
        | inl old ↦ done x old
        | inr e ↦ subst (FromRoot tasks edges) (sym ((==_iff x u).0 e)) r
      ]

  order_reached :
      (pre l : List Ident)
      → ((x : Ident) → is_task tasks x ≡ true → (elem x pre || elem x l) ≡ true)
      → ((x : Ident) → elem x l ≡ true → is_task tasks x ≡ true)
      → ((x : Ident) → elem x pre ≡ true → FromRoot tasks edges x)
      → IsTopological tasks edges l
      → (x : Ident) → is_task tasks x ≡ true
      → FromRoot tasks edges x
  order_reached pre [] all known done top x task = done x (ground (arith, all x task))
  order_reached pre (u ∷ rest) all known done top x task =
      let r = front_reached pre u rest all done top (known u (ground arith)) in
      order_reached (pre ++ u ∷ []) rest (λ y is. ground (arith, all y is, elem-concat y u pre))
        (λ y m. known y (ground arith)) (extend_done pre u done r) top.2 x task

  -- Without a cycle every task is reached.
  pub acyclic-reached :
      ¬ HasCycle tasks edges → (x : Ident) → is_task tasks x ≡ true → FromRoot tasks edges x
  acyclic-reached acyclic x task =
      let (r, _, answer) = topological_sort-decides tasks edges in
      elim answer [
        | inl (_, o, _) ↦
            order_reached [] r.order (λ y is. rw (o.complete y) is)
              (λ y m. rw (sym (o.complete y)) m) (λ y m. cc) o.sorted x task
        | inr (_, _, c) ↦ absurd (acyclic c)
      ]
