-- ===== src/Dag/Serializer/Canonical.antt =====
-- The serialized form is canonical: reading it and writing it again gives the same.
use Prim.Native.Nat.{Ordering}
use task_orchestrator_engine.Prelude.{
  ◌≡◌, refl, ap, sym, ◌∙◌, subst, inl, inr, Bool, true, false, List, [], ◌∷◌, map, if◌then◌else◌,
  Bool-cases,
}
use task_orchestrator_engine.Types.{Ident, TaskDefinition, Edge}
use task_orchestrator_engine.Dag.Serializer.{
  insert_by, sort_by, not_after, first_of, serialized_task, serialized_edge, task_before,
  edge_before, serialize, restored_task, restored_edge, deserialize,
}

-- Every entry may stand before the next one.
abbrev pub IsChain {ℓ} : {A : Type ℓ} → (A → A → Bool) → List A → Type 0
IsChain before [] = Unit
IsChain before (x ∷ []) = Unit
IsChain before (x ∷ y ∷ l) = (before x y ≡ true) × IsChain before (y ∷ l)

module _ {ℓ} {A : Type ℓ} (before : A → A → Bool) where
  -- Of two entries one may stand before the other.
  abbrev pub IsTotal : Type ℓ
  IsTotal = (a b : A) → before a b ≡ false → before b a ≡ true

  insert_by-IsChain :
      IsTotal → (x : A) (l : List A) → IsChain before l → IsChain before (insert_by before x l)
  unfolding insert_by
  insert_by-IsChain total x [] c = _
  insert_by-IsChain total x (y ∷ []) c = elim (Bool-cases (before x y)) [
    | inl h ↦ rw h (h, _)
    | inr h ↦ rw h (total x y h, _)
  ]
  insert_by-IsChain total x (y ∷ z ∷ l) c = elim (Bool-cases (before x y)) [
    | inl h ↦ rw h (h, c)
    | inr h ↦ rw h (behind h (before x z) refl (insert_by-IsChain total x (z ∷ l) c.1))
  ]
    where
      behind :
          before x y ≡ false
          → (b : Bool) → before x z ≡ b
          → IsChain before (if b then x ∷ z ∷ l else z ∷ insert_by before x l)
          → IsChain before (y ∷ (if b then x ∷ z ∷ l else z ∷ insert_by before x l))
      behind h true k ih = (total x y h, ih)
      behind h false k ih = (c.0, ih)

  sort_by-IsChain : IsTotal → (l : List A) → IsChain before (sort_by before l)
  unfolding sort_by
  sort_by-IsChain total [] = _
  sort_by-IsChain total (x ∷ l) =
      insert_by-IsChain total x (sort_by before l) (sort_by-IsChain total l)

  -- A chain is sorted already.
  sort_by-chain : (l : List A) → IsChain before l → sort_by before l ≡ l
  unfolding sort_by insert_by
  sort_by-chain [] c = refl
  sort_by-chain (x ∷ []) c = refl
  sort_by-chain (x ∷ y ∷ l) c = rw (sort_by-chain (y ∷ l) c.1) (rw c.0 refl)

  -- A change of the entries that the test does not see keeps a chain.
  map-IsChain :
      (f : A → A)
      → ((a b : A) → before (f a) (f b) ≡ before a b)
      → (l : List A) → IsChain before l
      → IsChain before (map f l)
  map-IsChain f same [] c = _
  map-IsChain f same (x ∷ []) c = _
  map-IsChain f same (x ∷ y ∷ l) c = (same x y ∙ c.0, map-IsChain f same (y ∷ l) c.1)

-- The laws of a comparison: the other way round it says the opposite.
pub record IsComparison (locale_compare : Ident → Ident → Ordering) : Type 0 where
  pub equal : (a b : Ident) → locale_compare a b ≡ Ordering.eq → locale_compare b a ≡ Ordering.eq
  pub greater : (a b : Ident) → locale_compare a b ≡ Ordering.gt → locale_compare b a ≡ Ordering.lt

map-map :
    {A B C : Type 0} (f : B → C) (g : A → B) (l : List A) → map f (map g l) ≡ map (λ a. f (g a)) l
map-map f g [] = refl
map-map f g (x ∷ l) = ap (λ r. f (g x) ∷ r) (map-map f g l)

module _ (locale_compare : Ident → Ident → Ordering) (laws : IsComparison locale_compare) where
  task_before-IsTotal : IsTotal (task_before locale_compare)
  task_before-IsTotal a b h = after (locale_compare a.id b.id) refl h
    where
      after :
          (o : Ordering)
          → locale_compare a.id b.id ≡ o
          → not_after o ≡ false
          → not_after (locale_compare b.id a.id) ≡ true
      after Ordering.lt e k = cc
      after Ordering.eq e k = cc
      after Ordering.gt e k = rw (laws.greater a.id b.id e) refl

  edge_before-IsTotal : IsTotal (edge_before locale_compare)
  edge_before-IsTotal a b h =
      after (locale_compare a.source_task_id b.source_task_id)
        (locale_compare a.target_task_id b.target_task_id) refl refl h
    where
      after :
          (o p : Ordering)
          → locale_compare a.source_task_id b.source_task_id ≡ o
          → locale_compare a.target_task_id b.target_task_id ≡ p
          → not_after (first_of o p) ≡ false
          → edge_before locale_compare b a ≡ true
      after Ordering.lt p e k n = cc
      after Ordering.gt p e k n = rw (laws.greater a.source_task_id b.source_task_id e) refl
      after Ordering.eq Ordering.lt e k n = cc
      after Ordering.eq Ordering.eq e k n = cc
      after Ordering.eq Ordering.gt e k n =
          rw
            (
              laws.equal a.source_task_id b.source_task_id e,
              laws.greater a.target_task_id b.target_task_id k,
            )
            refl

  abbrev again_task : TaskDefinition → TaskDefinition
  again_task t = restored_task (serialized_task t)

  abbrev again_edge : Edge → Edge
  again_edge e = restored_edge (serialized_edge e)

  tasks_again :
      (l : List TaskDefinition)
      → IsChain (task_before locale_compare) l
      → map serialized_task
          (sort_by (task_before locale_compare) (map restored_task (map serialized_task l)))
        ≡ map serialized_task l
  tasks_again l c =
      ap (λ m. map serialized_task (sort_by (task_before locale_compare) m))
        (map-map restored_task serialized_task l)
      ∙ ap (map serialized_task) (
          sort_by-chain (task_before locale_compare) (map again_task l)
            (map-IsChain (task_before locale_compare) again_task (λ a b. refl) l c))
      ∙ map-map serialized_task again_task l

  edges_again :
      (l : List Edge)
      → IsChain (edge_before locale_compare) l
      → map serialized_edge
          (sort_by (edge_before locale_compare) (map restored_edge (map serialized_edge l)))
        ≡ map serialized_edge l
  edges_again l c =
      ap (λ m. map serialized_edge (sort_by (edge_before locale_compare) m))
        (map-map restored_edge serialized_edge l)
      ∙ ap (map serialized_edge) (
          sort_by-chain (edge_before locale_compare) (map again_edge l)
            (map-IsChain (edge_before locale_compare) again_edge (λ a b. refl) l c))
      ∙ map-map serialized_edge again_edge l

  -- For a comparison that says the opposite the other way round, the serialized form of a workflow has
  -- its tasks and its edges in order, and reading it and writing it again gives the same form.
  pub serialize-deserialize :
      (tasks : List TaskDefinition) (edges : List Edge)
      → IsChain (task_before locale_compare) (deserialize (serialize locale_compare tasks edges)).0
        × IsChain
            (edge_before locale_compare)
            (deserialize (serialize locale_compare tasks edges)).1
        × (serialize locale_compare
              (deserialize (serialize locale_compare tasks edges)).0
              (deserialize (serialize locale_compare tasks edges)).1
            ≡ serialize locale_compare tasks edges)
  unfolding serialize deserialize
  serialize-deserialize tasks edges = (
    subst (IsChain (task_before locale_compare))
        (sym (map-map restored_task serialized_task sorted_tasks))
        (map-IsChain (task_before locale_compare) again_task (λ a b. refl) sorted_tasks
          tasks_chain),
    subst (IsChain (edge_before locale_compare))
        (sym (map-map restored_edge serialized_edge sorted_edges))
        (map-IsChain (edge_before locale_compare) again_edge (λ a b. refl) sorted_edges
          edges_chain),
    λ i. record {
      tasks = tasks_again sorted_tasks tasks_chain i;
      edges = edges_again sorted_edges edges_chain i;
    },
  )
    where
      sorted_tasks : List TaskDefinition
      sorted_tasks = sort_by (task_before locale_compare) tasks

      sorted_edges : List Edge
      sorted_edges = sort_by (edge_before locale_compare) edges

      tasks_chain :
          IsChain (task_before locale_compare) (sort_by (task_before locale_compare) tasks)
      tasks_chain = sort_by-IsChain (task_before locale_compare) task_before-IsTotal tasks

      edges_chain :
          IsChain (edge_before locale_compare) (sort_by (edge_before locale_compare) edges)
      edges_chain = sort_by-IsChain (edge_before locale_compare) edge_before-IsTotal edges
