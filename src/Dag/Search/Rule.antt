-- ===== src/Dag/Search/Rule.antt =====
-- What a call of the search establishes: a call that returns `false` leaves its node black and the
-- invariant intact, and a call that returns `true` has found a cycle. The rule carries one more
-- invariant `P`, which the client chooses and shows to survive `enter` and `leave`.
use task_orchestrator_engine.Prelude.{
  ℕ, zero, suc, ◌≡◌, refl, sym, subst, ◌≢◌, ◌⊎◌, inl, inr, Bool, true, false, Option, none, some,
  List, [], ◌∷◌, arith, elem, Bool-cases, ◌==◌, ==_iff,
}
use task_orchestrator_engine.Types.{Ident, TaskDefinition, Edge}
use task_orchestrator_engine.Dag.Graph.{
  neighbors_of, is_task, targets, build_adjacency_list, build_adjacency_list_lem, Arc, Walk, one,
  more, HasCycle,
}
use task_orchestrator_engine.Dag.Search.{
  Color, white, gray, black, Trail, Outcome, add_nodes, path_from, cycle_part, add_node,
  record_cycle, scan, enter, leave, close, dfs, start, fresh_path,
}
use task_orchestrator_engine.Dag.Search.Total.{Color-cases, start_color}
use task_orchestrator_engine.Dag.Search.Colors.{
  Later-refl, Later-trans, Grows, black-Later, gray_before, gray-Later, gray_self, gray_cases,
  black_self, Later-leave,
}
use task_orchestrator_engine.Dag.Search.Invariant.{
  Inv, Inv-enter, Inv-leave, Inv-fresh_path, first_step, start-Inv,
}

add_node-ne-nil : (a : Option Ident) (set : List (Option Ident)) → add_node a set ≢ []
unfolding add_node
add_node-ne-nil a [] = cc
add_node-ne-nil a (x ∷ xs) = ground arith

pub record_cycle-ne-nil : (n : Ident) (s : Trail) → (record_cycle n s).cycle_nodes ≢ []
unfolding record_cycle
record_cycle-ne-nil n s =
    add_node-ne-nil (some n) (add_nodes (cycle_part (path_from n s.path) s.path) s.cycle_nodes)

-- A further invariant of the search, with the search's ways to keep it.
pub record Extra (tasks : List TaskDefinition) (edges : List Edge)
    (finish : Ident → List Ident → List Ident) : Type 1 where
  pub P : Trail → Type 0
  pub keep_enter : (node : Ident) (s : Trail) → s.color node ≡ some white → P s → P (enter node s)
  pub keep_leave :
      (node : Ident) (s : Trail)
      → s.color node ≡ some gray
      → is_task tasks node ≡ true
      → ((v : Ident) → Arc tasks edges node v → s.color v ≡ some black)
      → P s
      → P (leave (build_adjacency_list tasks edges) finish node s)
  pub keep_path : (s : Trail) → P s → P (fresh_path s)

-- A statement on the outcome of a call, if it has one.
abbrev pub Holds : (Bool → Trail → Type 0) → Outcome → Type 0
Holds Q none = Unit
Holds Q (some (b, s)) = Q b s

module _ (tasks : List TaskDefinition) (edges : List Edge) where
  colored_task :
      (n : Ident) (s : Trail) {c : Color}
      → Inv tasks edges s
      → s.color n ≡ some c
      → is_task tasks n ≡ true
  colored_task n s inv e = elim (Bool-cases (is_task tasks n)) [
    | inl task ↦ task
    | inr other ↦ cc (inv.tasks_only n other)
  ]

  -- The tasks in front of the loop's position are black.
  abbrev pub Done : List TaskDefinition → Trail → Type 0
  Done ts s =
      (x : Ident) → is_task tasks x ≡ true → (is_task ts x ≡ true) ⊎ (s.color x ≡ some black)

  pub all_black :
      (s : Trail) → Done [] s → (x : Ident) → is_task tasks x ≡ true → s.color x ≡ some black
  all_black s done x task = elim (done x task) [ inl none_left ↦ cc | inr b ↦ b ]

  -- The loop moves on when its task is black, or is none.
  pub advance :
      (t : TaskDefinition) (ts : List TaskDefinition) (s s' : Trail)
      → (is_task tasks t.id ≡ true → s'.color t.id ≡ some black)
      → Grows s s'
      → Done (t ∷ ts) s
      → Done ts s'
  advance t ts s s' now grows done x task = elim (done x task) [
    | inl waiting ↦ elim (Bool-cases (x == t.id)) [
      | inl e ↦
          let at = (==_iff x t.id).0 e in
          let now' = now (subst (λ z. is_task tasks z ≡ true) at task) in
          inr (subst (λ z. s'.color z ≡ some black) (sym at) now')
      | inr other ↦ inl (ground arith)
    ]
    | inr b ↦ inr (black-Later (s.color x) (s'.color x) (grows x) b)
  ]

  -- An arc into a gray node that leads to the arc's source closes a cycle.
  cycle_of :
      {node n : Ident}
      → (n ≡ node) ⊎ Walk tasks edges n node
      → Arc tasks edges node n
      → HasCycle tasks edges
  cycle_of {node} (inl e) a = (node, one (subst (Arc tasks edges node) e a))
  cycle_of {n} (inr w) a = (n, more w a)

  leads_on :
      {w node n : Ident}
      → (w ≡ node) ⊎ Walk tasks edges w node
      → Arc tasks edges node n
      → Walk tasks edges w n
  leads_on {n} (inl e) a = one (subst (λ z. Arc tasks edges z n) (sym e) a)
  leads_on (inr w) a = more w a

  -- The list that the loop of a task runs over holds exactly the targets of its arcs.
  neighbors_lem :
      (node : Ident)
      → is_task tasks node ≡ true
      → neighbors_of (build_adjacency_list tasks edges node) ≡ targets edges node
  neighbors_lem node h = rw (build_adjacency_list_lem tasks edges node, h)

  module _ (finish : Ident → List Ident → List Ident) (more_inv : Extra tasks edges finish) where
    open more_inv use {P, keep_enter, keep_leave, keep_path}

    -- A call on `node` may begin: every gray node leads to it.
    pub record Before (node : Ident) (s : Trail) : Type 0 where
      pub fresh : s.color node ≡ some white
      pub inv : Inv tasks edges s
      pub held : P s
      pub leads : (w : Ident) → s.color w ≡ some gray → Walk tasks edges w node

    pub record Kept (s s' : Trail) : Type 0 where
      pub inv : Inv tasks edges s'
      pub held : P s'
      pub grows : Grows s s'

    abbrev visit : ℕ → Ident → Trail → Outcome
    visit = dfs (build_adjacency_list tasks edges) finish

    -- What a call returns: `false` with the node black, or `true` with a cycle on record.
    abbrev After : Ident → Trail → Bool → Trail → Type 0
    After node s false s' = Kept s s' × (s'.color node ≡ some black)
    After node s true s' = HasCycle tasks edges × (s'.cycle_nodes ≢ [])

    -- In the loop over the neighbors of `node`: it is gray, and every gray node is it or leads
    -- to it.
    record Inside (node : Ident) (s : Trail) : Type 0 where
      on_path : s.color node ≡ some gray
      inv : Inv tasks edges s
      held : P s
      leads : (w : Ident) → s.color w ≡ some gray → (w ≡ node) ⊎ Walk tasks edges w node

    Before-Inside : (node : Ident) (s : Trail) → Before node s → Inside node (enter node s)
    unfolding enter
    Before-Inside node s b = record {
      on_path = gray_self s.color node;
      inv = Inv-enter tasks edges node s b.fresh b.inv;
      held = keep_enter node s b.fresh b.held;
      leads =
          λ w h. elim (gray_cases s.color node w h) [ inl e ↦ inl e | inr g ↦ inr (b.leads w g) ];
    }

    Inside-grows : (node : Ident) (s s' : Trail) → Inside node s → Kept s s' → Inside node s'
    Inside-grows node s s' i k = record {
      on_path = gray-Later (s.color node) (s'.color node) (k.grows node) i.on_path;
      inv = k.inv;
      held = k.held;
      leads = λ w h. i.leads w (gray_before (s.color w) (s'.color w) (k.grows w) h);
    }

    -- What the loop over the neighbors `ns` leaves behind.
    abbrev Scanned : List Ident → Trail → Bool → Trail → Type 0
    Scanned ns s false s' =
        Kept s s'
        × ((v : Ident) → elem v ns ≡ true → is_task tasks v ≡ true → s'.color v ≡ some black)
    Scanned ns s true s' = HasCycle tasks edges × (s'.cycle_nodes ≢ [])

    -- A neighbor with a color is a task, and an arc leads to it.
    colored-Arc :
        (node n : Ident) (s : Trail) {c : Color}
        → Inside node s
        → elem n (targets edges node) ≡ true
        → s.color n ≡ some c
        → Arc tasks edges node n
    colored-Arc node n s i m e = record {
      from_task = colored_task node s i.inv i.on_path;
      to_task = colored_task n s i.inv e;
      listed = m;
    }

    skip :
        (n : Ident) (ns : List Ident) (s s' : Trail) (o : Outcome)
        → Grows s s'
        → (is_task tasks n ≡ true → s'.color n ≡ some black)
        → Holds (Scanned ns s') o
        → Holds (Scanned (n ∷ ns) s) o
    skip n ns s s' none g h k = tt
    skip n ns s s' (some (true, t)) g h k = k
    skip n ns s s' (some (false, t)) g h (k, done) = (
      record { inv = k.inv; held = k.held; grows = λ x. Later-trans _ _ _ (g x) (k.grows x) },
      λ v m is. elim (Bool-cases (v == n)) [
        | inl e ↦
            let at = (==_iff v n).0 e in
            let now = h (subst (λ z. is_task tasks z ≡ true) at is) in
            subst (λ z. t.color z ≡ some black) (sym at) (black-Later _ _ (k.grows n) now)
        | inr other ↦ done v (ground arith) is
      ],
    )

    module _ (fuel : ℕ)
        (call : (n : Ident) (s : Trail) → Before n s → Holds (After n s) (visit fuel n s)) where
      descend :
          (n : Ident) (ns : List Ident) (s : Trail) (o : Outcome)
          → s.color n ≡ some white
          → visit fuel n s ≡ o
          → Holds (After n s) o
          → ((s' : Trail) → Kept s s' → Holds (Scanned ns s') (scan (visit fuel) ns s'))
          → Holds (Scanned (n ∷ ns) s) (scan (visit fuel) (n ∷ ns) s)
      unfolding scan
      descend n ns s none e v h rest = rw (e, scan, v) tt
      descend n ns s (some (true, t)) e v h rest = rw (e, scan, v) h
      descend n ns s (some (false, t)) e v (k, done) rest =
          rw (e, scan, v) (skip n ns s t (scan (visit fuel) ns t) k.grows (λ _. done) (rest t k))

      scan_rule :
          (node : Ident) (ns : List Ident) (s : Trail)
          → ((v : Ident) → elem v ns ≡ true → elem v (targets edges node) ≡ true)
          → Inside node s
          → Holds (Scanned ns s) (scan (visit fuel) ns s)
      unfolding scan
      scan_rule node [] s sub i =
          (record { inv = i.inv; held = i.held; grows = λ x. Later-refl (s.color x) }, λ v m is. cc)
      scan_rule node (n ∷ ns) s sub i =
          let still = λ (x : Ident). Later-refl (s.color x) in
          let sub' = λ (v : Ident) (m : elem v ns ≡ true). sub v (ground arith) in
          let listed = sub n (ground arith) in
          elim (Color-cases (s.color n)) [
            | inl e ↦
                rw (e, scan)
                  (skip n ns s s (scan (visit fuel) ns s) still (λ is. cc (i.inv.known n e))
                    (scan_rule node ns s sub' i))
            | inr (inl e) ↦
                descend n ns s (visit fuel n s) e refl
                  (call n s (record {
                    fresh = e;
                    inv = i.inv;
                    held = i.held;
                    leads = λ w h. leads_on (i.leads w h) (colored-Arc node n s i listed e);
                  }))
                  (λ s' k. scan_rule node ns s' sub' (Inside-grows node s s' i k))
            | inr (inr (inl e)) ↦
                rw (e, scan)
                  (
                    cycle_of (i.leads n e) (colored-Arc node n s i listed e),
                    record_cycle-ne-nil n s,
                  )
            | inr (inr (inr e)) ↦
                rw (e, scan)
                  (skip n ns s s (scan (visit fuel) ns s) still (λ _. e)
                    (scan_rule node ns s sub' i))
          ]

    closing :
        (node : Ident) (s : Trail) (o : Outcome)
        → Before node s
        → Holds (Scanned (targets edges node) (enter node s)) o
        → Holds (After node s) (close (build_adjacency_list tasks edges) finish node o)
    unfolding close enter leave
    closing node s none b h = tt
    closing node s (some (true, t)) b h = h
    closing node s (some (false, t)) b (k, done) =
        let task = colored_task node s b.inv b.fresh in
        let on_path = (Inside-grows node (enter node s) t (Before-Inside node s b) k).on_path in
        let arcs = λ (v : Ident) (a : Arc tasks edges node v). done v a.listed a.to_task in
        (
          record {
            inv = Inv-leave tasks edges finish node t on_path arcs k.inv;
            held = keep_leave node t on_path task arcs k.held;
            grows = λ x. Later-leave s.color t.color node x b.fresh (k.grows x);
          },
          black_self t.color node,
        )

    -- Between two calls from outside: no node is gray, so the next call may begin.
    pub record Idle (s : Trail) : Type 0 where
      pub inv : Inv tasks edges s
      pub held : P s
      pub no_gray : (x : Ident) → s.color x ≢ some gray

    -- What a call from outside leaves.
    abbrev pub Returned : Ident → Trail → Bool → Trail → Type 0
    Returned node s false s' = Idle s' × Grows s s' × (s'.color node ≡ some black)
    Returned node s true s' = HasCycle tasks edges × (s'.cycle_nodes ≢ [])

    Idle-Before :
        (node : Ident) (s : Trail) → s.color node ≡ some white → Idle s → Before node (fresh_path s)
    Idle-Before node s e i = record {
      fresh = e;
      inv = Inv-fresh_path tasks edges s i.inv;
      held = keep_path s i.held;
      leads = λ w g. absurd (i.no_gray w g);
    }

    returned :
        (node : Ident) (s : Trail) (o : Outcome)
        → Idle s
        → Holds (After node (fresh_path s)) o
        → Holds (Returned node s) o
    returned node s none i h = tt
    returned node s (some (true, t)) i h = h
    returned node s (some (false, t)) i (k, done) = (
      record {
        inv = k.inv;
        held = k.held;
        no_gray = λ x g. i.no_gray x (gray_before (s.color x) (t.color x) (k.grows x) g);
      },
      k.grows,
      done,
    )

    -- A call on a white node, which all gray nodes lead to, either returns `false`, leaves the node
    -- black, keeps the invariants and lets the colors only grow, or finds a cycle and records it.
    pub dfs_rule :
        (fuel : ℕ) (node : Ident) (s : Trail)
        → Before node s
        → Holds (After node s) (visit fuel node s)
    unfolding dfs
    dfs_rule zero node s b = tt
    dfs_rule (suc fuel) node s b = rw (neighbors_lem node (colored_task node s b.inv b.fresh)) (
        closing node s _ b (
          scan_rule fuel (dfs_rule fuel) node (targets edges node) (enter node s) (λ v m. m)
            (Before-Inside node s b)))

    pub call_rule :
        (fuel : ℕ) (node : Ident) (s : Trail)
        → s.color node ≡ some white
        → Idle s
        → Holds
            (Returned node s)
            (dfs (build_adjacency_list tasks edges) finish fuel node (fresh_path s))
    call_rule fuel node s e i =
        returned node s _ i (dfs_rule fuel node (fresh_path s) (Idle-Before node s e i))

    pub start-Idle : P (start tasks) → Idle (start tasks)
    start-Idle p = record {
      inv = start-Inv tasks edges;
      held = p;
      no_gray = λ x g. ground (arith, start_color tasks x);
    }

    -- With every task black there is no cycle.
    pub acyclic_of_black :
        (s : Trail)
        → Idle s
        → ((x : Ident) → is_task tasks x ≡ true → s.color x ≡ some black)
        → ¬ HasCycle tasks edges
    acyclic_of_black s i all (u, w) =
        let (v, a, _) = first_step tasks edges w in i.inv.acyclic u (all u a.from_task) w
