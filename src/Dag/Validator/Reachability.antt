-- ===== src/Dag/Validator/Reachability.antt =====
-- `checkReachability` reports exactly the tasks that no root leads to, and without a cycle there
-- are none.
use task_orchestrator_engine.Prelude.{
  ℕ, suc, ◌+◌, ◌≤◌, ◌≡◌, refl, ap, ◌⊎◌, inl, inr, ◌↔◌, true, false, not, ◌&&◌, Option, none, some,
  List, [], ◌∷◌, arith, elem, elem-keep, length, put, Bool-cases, ◌==◌, ==_iff, if◌then◌else◌,
}
use task_orchestrator_engine.Types.{Ident, TaskDefinition, Edge}
use task_orchestrator_engine.Dag.Graph.{is_task, task_ids, targets}
use task_orchestrator_engine.Dag.Validator.{
  bump, is_zero, zero_counts, count_incoming, incoming_count, root_ids, unvisited, bfs_fuel,
  check_reachability, Counts,
}
use task_orchestrator_engine.Dag.Validator.Bfs.{
  Reached, root, step, open_edges_le, bfs_ends, bfs_correct,
}

-- The number of edges into a node.
abbrev pub incoming : List Edge → Ident → ℕ
incoming [] x = 0
incoming (e ∷ es) x = if x == e.target_task_id then suc (incoming es x) else incoming es x

zero_counts_lem :
    (ts : List TaskDefinition) (c : Counts) (x : Ident)
    → zero_counts ts c x ≡ (if is_task ts x then some 0 else c x)
unfolding zero_counts
zero_counts_lem [] c x = refl
zero_counts_lem (t ∷ ts) c x = ground (arith, zero_counts_lem ts (put c t.id (some 0)) x)

abbrev add_count : Option ℕ → ℕ → Option ℕ
add_count none n = none
add_count (some m) n = some (m + n)

same_count : (c : Counts) (a b : Ident) → (a == b) ≡ true → c a ≡ c b
same_count c a b h = ap c ((==_iff a b).0 h)

count_incoming_lem :
    (es : List Edge) (c : Counts) (x : Ident)
    → count_incoming es c x ≡ add_count (c x) (incoming es x)
unfolding count_incoming
count_incoming_lem [] c x = ground arith
count_incoming_lem (e ∷ es) c x = ground (
  arith,
  count_incoming_lem es (put c e.target_task_id (bump (c e.target_task_id))) x,
  same_count c x e.target_task_id,
)

module _ (tasks : List TaskDefinition) (edges : List Edge) where
  abbrev counts : Counts
  counts = incoming_count tasks edges

  is_zero-counts : (x : Ident) → is_zero (counts x) ≡ (is_task tasks x && incoming edges x == 0)
  unfolding incoming_count
  is_zero-counts x = ground (
    arith,
    count_incoming_lem edges (zero_counts tasks (λ _. none)) x,
    zero_counts_lem tasks (λ _. none) x,
  )

same_zero : (c : Counts) (a b : Ident) → (a == b) ≡ true → is_zero (c a) ≡ is_zero (c b)
same_zero c a b h = ap (λ x. is_zero (c x)) ((==_iff a b).0 h)

elem-root_ids :
    (ts : List TaskDefinition) (c : Counts) (x : Ident)
    → elem x (root_ids ts c) ≡ (is_task ts x && is_zero (c x))
unfolding root_ids
elem-root_ids [] c x = refl
elem-root_ids (t ∷ ts) c x = ground (arith, elem-root_ids ts c x, same_zero c x t.id)

pub incoming_zero :
    (es : List Edge) (x w : Ident) → incoming es x ≡ 0 → elem x (targets es w) ≡ false
incoming_zero [] x w h = refl
incoming_zero (e ∷ es) x w h = ground (arith, incoming_zero es x w)

-- A node with an incoming edge has a source; it is the source of one of the edges.
pub find_source :
    (es : List Edge) (x : Ident)
    → (incoming es x ≡ 0) ⊎ ((w : Ident) × (elem x (targets es w) ≡ true))
find_source [] x = inl refl
find_source (e ∷ es) x = elim (Bool-cases (x == e.target_task_id)) [
  | inl hit ↦ inr (e.source_task_id, ground arith)
  | inr miss ↦ elim (find_source es x) [
    | inl none_left ↦ inl (ground arith)
    | inr (w, m) ↦ inr (w, ground arith)
  ]
]

module _ (tasks : List TaskDefinition) (edges : List Edge) where
  -- A task with no edge into it, and what edges lead to from there.
  pub data FromRoot : Ident → Type 0 where
    root_task :
        {u : Ident}
        → is_task tasks u ≡ true
        → ((w : Ident) → elem u (targets edges w) ≡ false)
        → FromRoot u
    along : {u v : Ident} → FromRoot u → elem v (targets edges u) ≡ true → FromRoot v

  abbrev roots : List Ident
  roots = root_ids tasks (incoming_count tasks edges)

  abbrev IsRoot : Ident → Type 0
  IsRoot x = (is_task tasks x ≡ true) × ((w : Ident) → elem x (targets edges w) ≡ false)

  IsRoot-of_elem : (x : Ident) → elem x roots ≡ true → IsRoot x
  IsRoot-of_elem x h = (
    ground (arith, elem-root_ids tasks (counts tasks edges) x, is_zero-counts tasks edges x),
    λ w.
        incoming_zero edges x w (
          ground (arith, elem-root_ids tasks (counts tasks edges) x, is_zero-counts tasks edges x)),
  )

  elem_of_root : (x : Ident) → IsRoot x → elem x roots ≡ true
  elem_of_root x (task, free) = elim (find_source edges x) [
    | inl zero_in ↦
        ground (arith, elem-root_ids tasks (counts tasks edges) x, is_zero-counts tasks edges x)
    | inr (w, m) ↦ cc (free w)
  ]

  from_reached : {x : Ident} → Reached edges roots x → FromRoot x
  from_reached {x} (root h) = let (task, free) = IsRoot-of_elem x h in root_task task free
  from_reached (step r e) = along (from_reached r) e

  to_reached : {x : Ident} → FromRoot x → Reached edges roots x
  to_reached {x} (root_task task free) = root (elem_of_root x (task, free))
  to_reached (along r e) = step (to_reached r) e

  length-root_ids : (ts : List TaskDefinition) (c : Counts) → length (root_ids ts c) ≤ length ts
  unfolding root_ids
  length-root_ids [] c = omega arith
  length-root_ids (t ∷ ts) c = ground (arith, length-root_ids ts c)

  elem-unvisited :
      (visited : List Ident) (x : Ident)
      → elem x (unvisited visited tasks) ≡ (not (elem x visited) && is_task tasks x)
  elem-unvisited visited x = elem-keep (λ id. not (elem id visited)) x (task_ids tasks)

  -- The check returns for every graph. It reports exactly the tasks that no edges lead to from a
  -- task without incoming edges.
  pub check_reachability-decides :
      (nodes : List Ident) × (check_reachability tasks edges ≡ some nodes)
      × ((x : Ident) → (elem x nodes ≡ true) ↔ ((is_task tasks x ≡ true) × (¬ FromRoot x)))
  unfolding check_reachability
  check_reachability-decides =
      let (visited, e) =
        bfs_ends (bfs_fuel tasks edges) edges roots []
          (omega (arith, length-root_ids tasks (counts tasks edges), open_edges_le [] edges)) in
      let exact = λ (x : Ident). bfs_correct edges roots (bfs_fuel tasks edges) visited x e in
      (
        unvisited visited tasks,
        rw (e, check_reachability),
        λ x. (
          λ h. (
            ground (arith, elem-unvisited visited x),
            λ r. let seen = (exact x).1 (to_reached r) in ground (arith, elem-unvisited visited x),
          ),
          λ (task, far). elim (Bool-cases (elem x visited)) [
            | inl seen ↦ absurd (far (from_reached ((exact x).0 seen)))
            | inr unseen ↦ ground (arith, elem-unvisited visited x)
          ],
        ),
      )
