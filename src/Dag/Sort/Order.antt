-- ===== src/Dag/Sort/Order.antt =====
-- The finished nodes, read backwards, are in topological order at every moment of the search.
use task_orchestrator_engine.Prelude.{
  ◌≡◌, inl, inr, true, false, some, List, [], ◌∷◌, reverse, arith, elem, elem-concat, elem-reverse,
  reverse-concat, Bool-cases,
}
use task_orchestrator_engine.Types.{Ident, TaskDefinition, Edge}
use task_orchestrator_engine.Dag.Graph.{build_adjacency_list, is_task, Arc}
use task_orchestrator_engine.Dag.Search.{white, gray, black, Trail, enter, leave, fresh_path}
use task_orchestrator_engine.Dag.Search.Colors.{gray_kept, gray_back, black_back}
use task_orchestrator_engine.Dag.Sort.{push_finished}

module _ (tasks : List TaskDefinition) (edges : List Edge) where
  -- Every node stands once, in front of all targets of its arcs.
  abbrev pub IsTopological : List Ident → Type 0
  IsTopological [] = Unit
  IsTopological (u ∷ rest) =
      (elem u rest ≡ false)
      × ((v : Ident) → Arc tasks edges u v → elem v rest ≡ true)
      × IsTopological rest

  pub record Ordered (s : Trail) : Type 0 where
    pub listed : (x : Ident) → s.color x ≡ some black → elem x s.post_order ≡ true
    pub only : (x : Ident) → elem x s.post_order ≡ true → s.color x ≡ some black
    pub sorted : IsTopological (reverse s.post_order)

  pub Ordered-enter :
      (node : Ident) (s : Trail) → s.color node ≡ some white → Ordered s → Ordered (enter node s)
  unfolding enter
  Ordered-enter node s e o = record {
    listed = λ x h. o.listed x (gray_back s.color node x h);
    only = λ x h. gray_kept s.color node x e (o.only x h);
    sorted = o.sorted;
  }

  not_listed :
      (node : Ident) (s : Trail)
      → s.color node ≡ some gray
      → Ordered s
      → elem node s.post_order ≡ false
  not_listed node s g o = elim (Bool-cases (elem node s.post_order)) [
    | inl there ↦ cc (o.only node there)
    | inr absent ↦ absent
  ]

  pub Ordered-leave :
      (node : Ident) (s : Trail)
      → s.color node ≡ some gray
      → is_task tasks node ≡ true
      → ((v : Ident) → Arc tasks edges node v → s.color v ≡ some black)
      → Ordered s
      → Ordered (leave (build_adjacency_list tasks edges) push_finished node s)
  unfolding leave
  Ordered-leave node s g task done o = record {
    listed = λ x h.
        rw (elem-concat x node s.post_order)
          (elim (black_back s.color node x h) [ inl e ↦ ground arith | inr b ↦ rw (o.listed x b) ]);
    only = λ x h. ground (arith, o.only x, elem-concat x node s.post_order);
    sorted = rw (reverse-concat node s.post_order) (
      rw (elem-reverse node s.post_order) (not_listed node s g o),
      λ v a. rw (elem-reverse v s.post_order) (o.listed v (done v a)),
      o.sorted,
    );
  }

  pub Ordered-fresh_path : (s : Trail) → Ordered s → Ordered (fresh_path s)
  Ordered-fresh_path s o = record { listed = o.listed; only = o.only; sorted = o.sorted }
