-- ===== src/Dag/Validator/Bfs.antt =====
-- The breadth-first loop of `checkReachability`: it ends, and it visits exactly what its first
-- queue leads to.
use task_orchestrator_engine.Prelude.{
  ℕ, zero, suc, ◌+◌, ◌≤◌, ◌<◌, ◌≡◌, refl, ap, subst, ◌⊎◌, ◌↔◌, inl, inr, true, false, not, ◌||◌,
  some, List, [], ◌∷◌, ◌++◌, arith, elem, elem-append, elem-concat, elem-keep, keep, length,
  length-append, length-keep-le, Bool-cases, ◌==◌, ==_iff, if◌then◌else◌,
}
use mathlib.Core.Option.{some-injective}
use task_orchestrator_engine.Types.{Ident, Edge}
use task_orchestrator_engine.Dag.Graph.{targets}
use task_orchestrator_engine.Dag.Validator.{bfs}

-- The edges whose source is still to be visited.
pub open_edges : List Ident → List Edge → ℕ
open_edges visited [] = 0
open_edges visited (e ∷ es) =
    if elem e.source_task_id visited then open_edges visited es else suc (open_edges visited es)

pub open_edges_le :
    (visited : List Ident) (edges : List Edge) → open_edges visited edges ≤ length edges
unfolding open_edges
open_edges_le visited [] = omega arith
open_edges_le visited (e ∷ es) = ground (arith, open_edges_le visited es)

same_elem : (a b : Ident) (l : List Ident) → (a == b) ≡ true → elem a l ≡ elem b l
same_elem a b l h = ap (λ x. elem x l) ((==_iff a b).0 h)

-- A visit closes the edges out of its node.
open_edges-visit :
    (c : Ident) (visited : List Ident) (edges : List Edge)
    → elem c visited ≡ false
    → open_edges (visited ++ c ∷ []) edges + length (targets edges c) ≡ open_edges visited edges
unfolding open_edges
open_edges-visit c visited [] h = omega arith
open_edges-visit c visited (e ∷ es) h = ground (
  arith,
  open_edges-visit c visited es h,
  elem-concat e.source_task_id c visited,
  same_elem e.source_task_id c visited,
)

abbrev next_queue : List Edge → Ident → List Ident → List Ident → List Ident
next_queue edges c queue visited =
    queue ++ keep (λ n. not (elem n (visited ++ c ∷ []))) (targets edges c)

next_queue_room :
    (edges : List Edge) (c : Ident) (queue visited : List Ident)
    → elem c visited ≡ false
    → length (next_queue edges c queue visited) + open_edges (visited ++ c ∷ []) edges
      ≤ length queue + open_edges visited edges
next_queue_room edges c queue visited h =
    let test = λ (n : Ident). not (elem n (visited ++ c ∷ [])) in
    omega (
      arith,
      open_edges-visit c visited edges h,
      length-append queue (keep test (targets edges c)),
      length-keep-le test (targets edges c),
    )

pub bfs_ends :
    (fuel : ℕ) (edges : List Edge) (queue visited : List Ident)
    → length queue + open_edges visited edges < fuel
    → (result : List Ident) × (bfs fuel edges queue visited ≡ some result)
unfolding bfs
bfs_ends zero edges queue visited h = absurd (omega arith)
bfs_ends (suc fuel) edges [] visited h = (visited, refl)
bfs_ends (suc fuel) edges (c ∷ queue) visited h = elim (Bool-cases (elem c visited)) [
  | inl old ↦ rw (old, bfs) (bfs_ends fuel edges queue visited (omega arith))
  | inr new ↦
      rw (new, bfs)
        (bfs_ends fuel edges (next_queue edges c queue visited) (visited ++ c ∷ [])
          (omega (arith, next_queue_room edges c queue visited new)))
]

module _ (edges : List Edge) (first : List Ident) where
  -- The nodes that the first queue leads to.
  pub data Reached : Ident → Type 0 where
    root : {u : Ident} → elem u first ≡ true → Reached u
    step : {u v : Ident} → Reached u → elem v (targets edges u) ≡ true → Reached v

  record Inv (queue visited : List Ident) : Type 0 where
    waiting : (x : Ident) → elem x queue ≡ true → Reached x
    sound : (x : Ident) → elem x visited ≡ true → Reached x
    roots : (x : Ident) → elem x first ≡ true → (elem x visited || elem x queue) ≡ true
    closed :
        (u v : Ident)
        → elem u visited ≡ true
        → elem v (targets edges u) ≡ true
        → (elem v visited || elem v queue) ≡ true

  -- The head of the queue was visited already.
  still_there :
      (c x : Ident) (queue visited : List Ident)
      → elem c visited ≡ true
      → (elem x visited || elem x (c ∷ queue)) ≡ true
      → (elem x visited || elem x queue) ≡ true
  still_there c x queue visited old h = ground (arith, same_elem x c visited)

  Inv-skip :
      (c : Ident) (queue visited : List Ident)
      → elem c visited ≡ true
      → Inv (c ∷ queue) visited
      → Inv queue visited
  Inv-skip c queue visited old i = record {
    waiting = λ x h. i.waiting x (ground arith);
    sound = i.sound;
    roots = λ x h. still_there c x queue visited old (i.roots x h);
    closed = λ u v m e. still_there c v queue visited old (i.closed u v m e);
  }

  -- What waited or was visited waits or is visited after the visit.
  carried :
      (c x : Ident) (queue visited : List Ident)
      → (elem x visited || elem x (c ∷ queue)) ≡ true
      → (elem x (visited ++ c ∷ []) || elem x (next_queue edges c queue visited)) ≡ true
  carried c x queue visited h = ground (
    arith,
    elem-concat x c visited,
    elem-append x queue (keep (λ n. not (elem n (visited ++ c ∷ []))) (targets edges c)),
  )

  -- The targets of the visited node wait, if they are not visited.
  offered :
      (c v : Ident) (queue visited : List Ident)
      → elem v (targets edges c) ≡ true
      → (elem v (visited ++ c ∷ []) || elem v (next_queue edges c queue visited)) ≡ true
  offered c v queue visited h =
      let test = λ (n : Ident). not (elem n (visited ++ c ∷ [])) in
      ground (
        arith,
        elem-append v queue (keep test (targets edges c)),
        elem-keep test v (targets edges c),
      )

  visited_cases :
      (c x : Ident) (visited : List Ident)
      → elem x (visited ++ c ∷ []) ≡ true
      → (elem x visited ≡ true) ⊎ (x ≡ c)
  visited_cases c x visited h = ground (arith, elem-concat x c visited)

  -- What waits after the visit waited before, or is a target.
  queued_cases :
      (c x : Ident) (queue visited : List Ident)
      → elem x (next_queue edges c queue visited) ≡ true
      → (elem x queue ≡ true) ⊎ (elem x (targets edges c) ≡ true)
  queued_cases c x queue visited h =
      let test = λ (n : Ident). not (elem n (visited ++ c ∷ [])) in
      ground (
        arith,
        elem-append x queue (keep test (targets edges c)),
        elem-keep test x (targets edges c),
      )

  Inv-visit :
      (c : Ident) (queue visited : List Ident)
      → Inv (c ∷ queue) visited
      → Inv (next_queue edges c queue visited) (visited ++ c ∷ [])
  Inv-visit c queue visited i = record {
    waiting = λ x h. elim (queued_cases c x queue visited h) [
      | inl old ↦ i.waiting x (ground arith)
      | inr new ↦ step (i.waiting c (ground arith)) new
    ];
    sound = λ x h. elim (visited_cases c x visited h) [
      | inl old ↦ i.sound x old
      | inr e ↦ i.waiting x (ground arith)
    ];
    roots = λ x h. carried c x queue visited (i.roots x h);
    closed = λ u v m e. elim (visited_cases c u visited m) [
      | inl old ↦ carried c v queue visited (i.closed u v old e)
      | inr now ↦ offered c v queue visited (subst (λ z. elem v (targets edges z) ≡ true) now e)
    ];
  }

  bfs_rule :
      (fuel : ℕ) (queue visited : List Ident) {result : List Ident}
      → Inv queue visited
      → bfs fuel edges queue visited ≡ some result
      → Inv [] result
  unfolding bfs
  bfs_rule zero queue visited i h = cc
  bfs_rule (suc fuel) [] visited i h = subst (Inv []) (some-injective _ _ h) i
  bfs_rule (suc fuel) (c ∷ queue) visited i h = elim (Bool-cases (elem c visited)) [
    | inl old ↦ bfs_rule fuel queue visited (Inv-skip c queue visited old i) (rw (old, bfs) at h)
    | inr new ↦
        bfs_rule fuel (next_queue edges c queue visited) (visited ++ c ∷ [])
          (Inv-visit c queue visited i) (rw (new, bfs) at h)
  ]

  Inv-start : Inv first []
  Inv-start = record {
    waiting = λ x h. root h;
    sound = λ x h. cc;
    roots = λ x h. h;
    closed = λ u v m e. cc;
  }

  all_reached : (result : List Ident) {x : Ident} → Inv [] result → Reached x → elem x result ≡ true
  all_reached result i (root h) = ground (arith, i.roots _ h)
  all_reached result i (step {u} {v} r e) = ground (arith, i.closed u v (all_reached result i r) e)

  -- When the loop returns, the visited nodes are the ones that the first queue leads to.
  pub bfs_correct :
      (fuel : ℕ) (result : List Ident) (x : Ident)
      → bfs fuel edges first [] ≡ some result
      → (elem x result ≡ true) ↔ Reached x
  bfs_correct fuel result x h =
      let i = bfs_rule fuel first [] Inv-start h in (i.sound x, all_reached result i)
