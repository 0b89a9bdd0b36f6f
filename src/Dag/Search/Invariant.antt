-- ===== src/Dag/Search/Invariant.antt =====
-- The invariant of the search: black nodes lead only to black nodes and lie on no cycle.
use task_orchestrator_engine.Prelude.{
  ◌≡◌, refl, sym, subst, ◌⊎◌, inl, inr, false, none, some, List, arith,
}
use task_orchestrator_engine.Types.{Ident, TaskDefinition, Edge}
use task_orchestrator_engine.Dag.Graph.{is_task, build_adjacency_list, Arc, Walk, one, more}
use task_orchestrator_engine.Dag.Search.{white, gray, black, Trail, enter, leave, fresh_path, start}
use task_orchestrator_engine.Dag.Search.Total.{start_color}
use task_orchestrator_engine.Dag.Search.Colors.{
  gray_kept, gray_back, black_kept, put-none, none-put, black_back,
}

module _ (tasks : List TaskDefinition) (edges : List Edge) where
  pub record Inv (s : Trail) : Type 0 where
    pub known : (x : Ident) → s.color x ≡ none → is_task tasks x ≡ false
    pub tasks_only : (x : Ident) → is_task tasks x ≡ false → s.color x ≡ none
    pub closed :
        (u v : Ident) → s.color u ≡ some black → Arc tasks edges u v → s.color v ≡ some black
    pub acyclic : (u : Ident) → s.color u ≡ some black → ¬ Walk tasks edges u u

  -- A walk from a black node stays on black nodes.
  black-Walk :
      {u v : Ident} (s : Trail)
      → Inv s
      → s.color u ≡ some black
      → Walk tasks edges u v
      → s.color v ≡ some black
  black-Walk s inv b (one a) = inv.closed _ _ b a
  black-Walk s inv b (more w a) = inv.closed _ _ (black-Walk s inv b w) a

  pub first_step :
      {u w : Ident}
      → Walk tasks edges u w
      → (v : Ident) × Arc tasks edges u v × ((v ≡ w) ⊎ Walk tasks edges v w)
  first_step (one a) = (_, a, inl refl)
  first_step {u} (more {v = x} {w = y} w a) =
      let (v, b, rest) = first_step w in
      (
        v,
        b,
        inr (elim rest [
          | inl e ↦ one (subst (λ z. Arc tasks edges z y) (sym e) a)
          | inr w' ↦ more w' a
        ]),
      )

  -- No cycle runs through a gray node whose targets are black.
  no_cycle_through :
      (s : Trail) (node : Ident)
      → Inv s
      → s.color node ≡ some gray
      → ((v : Ident) → Arc tasks edges node v → s.color v ≡ some black)
      → ¬ Walk tasks edges node node
  no_cycle_through s node inv g done w =
      let (v, a, rest) = first_step w in
      elim rest [ inl e ↦ cc (done v a) | inr w' ↦ cc (black-Walk s inv (done v a) w') ]

  pub Inv-enter :
      (node : Ident) (s : Trail) → s.color node ≡ some white → Inv s → Inv (enter node s)
  unfolding enter
  Inv-enter node s e inv = record {
    known = λ x h. inv.known x (put-none s.color node x gray h);
    tasks_only = λ x h. none-put s.color node x gray white e (inv.tasks_only x h);
    closed = λ u v h a. gray_kept s.color node v e (inv.closed u v (gray_back s.color node u h) a);
    acyclic = λ u h. inv.acyclic u (gray_back s.color node u h);
  }

  module _ (finish : Ident → List Ident → List Ident) where
    pub Inv-leave :
        (node : Ident) (s : Trail)
        → s.color node ≡ some gray
        → ((v : Ident) → Arc tasks edges node v → s.color v ≡ some black)
        → Inv s
        → Inv (leave (build_adjacency_list tasks edges) finish node s)
    unfolding leave
    Inv-leave node s g done inv = record {
      known = λ x h. inv.known x (put-none s.color node x black h);
      tasks_only = λ x h. none-put s.color node x black gray g (inv.tasks_only x h);
      closed = λ u v h a. black_kept s.color node v (elim (black_back s.color node u h) [
        | inl e ↦ done v (subst (λ z. Arc tasks edges z v) e a)
        | inr b ↦ inv.closed u v b a
      ]);
      acyclic = λ u h w. elim (black_back s.color node u h) [
        | inl e ↦ no_cycle_through s node inv g done (subst (λ z. Walk tasks edges z z) e w)
        | inr b ↦ inv.acyclic u b w
      ];
    }

  pub Inv-fresh_path : (s : Trail) → Inv s → Inv (fresh_path s)
  Inv-fresh_path s inv = record {
    known = inv.known;
    tasks_only = inv.tasks_only;
    closed = inv.closed;
    acyclic = inv.acyclic;
  }

pub start-Inv : (tasks : List TaskDefinition) (edges : List Edge) → Inv tasks edges (start tasks)
start-Inv tasks edges = record {
  known = λ x h. ground (arith, start_color tasks x);
  tasks_only = λ x h. ground (arith, start_color tasks x);
  closed = λ u v h. ground (arith, start_color tasks u);
  acyclic = λ u h. ground (arith, start_color tasks u);
}
