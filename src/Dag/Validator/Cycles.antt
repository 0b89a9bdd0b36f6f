-- ===== src/Dag/Validator/Cycles.antt =====
-- `detectCycles` reports nodes exactly if there is a cycle.
use task_orchestrator_engine.Prelude.{
  ℕ, zero, suc, ◌≡◌, refl, ◌≢◌, ◌⊎◌, inl, inr, subst, Bool, true, false, Option, none, some, List,
  [], ◌∷◌, arith, length, Bool-cases,
}
use task_orchestrator_engine.Types.{Ident, TaskDefinition, Edge}
use task_orchestrator_engine.Dag.Graph.{
  build_adjacency_list, is_task, HasCycle, neighbors_of, Adjacency,
}
use task_orchestrator_engine.Dag.Search.{
  white, black, Trail, Outcome, scan, enter, leave, close, dfs, start, fresh_path,
}
use task_orchestrator_engine.Dag.Search.Colors.{Later-refl}
use task_orchestrator_engine.Dag.Search.Total.{
  Color-cases, Fits, Fits-Fewer, Fits-start, call-Ends, white_of, is_white,
}
use task_orchestrator_engine.Dag.Search.Rule.{
  Extra, Holds, Idle, Returned, call_rule, start-Idle, acyclic_of_black, record_cycle-ne-nil, Done,
  advance, all_black,
}
use task_orchestrator_engine.Dag.Validator.{no_order, detect_from, detect_cycles}

-- Nodes that are on record stay there.
abbrev Recorded : Bool → Trail → Type 0
Recorded b s = s.cycle_nodes ≢ []

module _ (visit : Ident → Trail → Outcome)
    (visit_keeps : (n : Ident) (s : Trail) → s.cycle_nodes ≢ [] → Holds Recorded (visit n s)) where
  scan-visit_keeps :
      (n : Ident) (ns : List Ident) (s : Trail) (o : Outcome)
      → s.color n ≡ some white
      → visit n s ≡ o
      → Holds Recorded o
      → ((s' : Trail) → s'.cycle_nodes ≢ [] → Holds Recorded (scan visit ns s'))
      → Holds Recorded (scan visit (n ∷ ns) s)
  unfolding scan
  scan-visit_keeps n ns s none e v h rest = rw (e, scan, v) tt
  scan-visit_keeps n ns s (some (true, t)) e v h rest = rw (e, scan, v) h
  scan-visit_keeps n ns s (some (false, t)) e v h rest = rw (e, scan, v) (rest t h)

  scan_keeps : (ns : List Ident) (s : Trail) → s.cycle_nodes ≢ [] → Holds Recorded (scan visit ns s)
  unfolding scan
  scan_keeps [] s h = h
  scan_keeps (n ∷ ns) s h = elim (Color-cases (s.color n)) [
    | inl e ↦ rw (e, scan) (scan_keeps ns s h)
    | inr (inl e) ↦ scan-visit_keeps n ns s _ e refl (visit_keeps n s h) (scan_keeps ns)
    | inr (inr (inl e)) ↦ rw (e, scan) (record_cycle-ne-nil n s)
    | inr (inr (inr e)) ↦ rw (e, scan) (scan_keeps ns s h)
  ]

close_keeps :
    (adjacency : Adjacency) (node : Ident) (o : Outcome)
    → Holds Recorded o
    → Holds Recorded (close adjacency no_order node o)
unfolding close leave
close_keeps adjacency node none h = tt
close_keeps adjacency node (some (true, s)) h = h
close_keeps adjacency node (some (false, s)) h = h

dfs_keeps :
    (adjacency : Adjacency) (fuel : ℕ) (node : Ident) (s : Trail)
    → s.cycle_nodes ≢ []
    → Holds Recorded (dfs adjacency no_order fuel node s)
unfolding dfs enter
dfs_keeps adjacency zero node s h = tt
dfs_keeps adjacency (suc fuel) node s h = close_keeps adjacency node _ (
    scan_keeps (dfs adjacency no_order fuel) (dfs_keeps adjacency fuel)
      (neighbors_of (adjacency node)) (enter node s) h)

module _ (tasks : List TaskDefinition) (edges : List Edge) where
  -- Before the first cycle nothing is on record.
  abbrev unrecorded : Extra tasks edges no_order
  unrecorded = record {
    P = λ s. s.cycle_nodes ≡ [];
    keep_enter = λ node s e h. unfold enter in h;
    keep_leave = λ node s g task done h. unfold leave in h;
    keep_path = λ s h. h;
  }

  abbrev visit : ℕ → Ident → Trail → Outcome
  visit = dfs (build_adjacency_list tasks edges) no_order

  -- Either no call has found a cycle, or a cycle exists and nodes are on record.
  abbrev Phase : List TaskDefinition → Trail → Type 0
  Phase ts s =
      (Idle tasks edges no_order unrecorded s × Done tasks edges ts s)
      ⊎ (HasCycle tasks edges × (s.cycle_nodes ≢ []))

  abbrev Verdict : List (Option Ident) → Type 0
  Verdict nodes = ((nodes ≡ []) × (¬ HasCycle tasks edges)) ⊎ ((nodes ≢ []) × HasCycle tasks edges)

  abbrev Judged : Option (List (Option Ident)) → Type 0
  Judged none = Unit
  Judged (some nodes) = Verdict nodes

  after_call :
      (fuel : ℕ) (t : TaskDefinition) (ts : List TaskDefinition) (s : Trail) (o : Outcome)
      → s.color t.id ≡ some white
      → visit fuel t.id (fresh_path s) ≡ o
      → Holds (λ b s'. Phase ts s') o
      → ((s' : Trail) → Phase ts s' → Judged (detect_from (visit fuel) ts s'))
      → Judged (detect_from (visit fuel) (t ∷ ts) s)
  unfolding detect_from
  after_call fuel t ts s none e v h rest = rw (e, detect_from, v) tt
  after_call fuel t ts s (some (b, s')) e v h rest = rw (e, detect_from, v) (rest s' h)

  next-Phase :
      (t : TaskDefinition) (ts : List TaskDefinition) (s : Trail) (o : Outcome)
      → Done tasks edges (t ∷ ts) s
      → Holds (Returned tasks edges no_order unrecorded t.id s) o
      → Holds (λ b s'. Phase ts s') o
  next-Phase t ts s none d h = tt
  next-Phase t ts s (some (true, s')) d h = inr h
  next-Phase t ts s (some (false, s')) d (i, grows, b) =
      inl (i, advance tasks edges t ts s s' (λ _. b) grows d)

  still-Recorded :
      (ts : List TaskDefinition) (o : Outcome)
      → HasCycle tasks edges
      → Holds Recorded o
      → Holds (λ b s'. Phase ts s') o
  still-Recorded ts none c h = tt
  still-Recorded ts (some (b, s')) c h = inr (c, h)

  white_call :
      (fuel : ℕ) (t : TaskDefinition) (ts : List TaskDefinition) (s : Trail)
      → s.color t.id ≡ some white
      → Phase (t ∷ ts) s
      → Holds (λ b s'. Phase ts s') (visit fuel t.id (fresh_path s))
  white_call fuel t ts s e (inl (i, d)) =
      next-Phase t ts s _ d (call_rule tasks edges no_order unrecorded fuel t.id s e i)
  white_call fuel t ts s e (inr (c, h)) =
      still-Recorded ts _ c
        (dfs_keeps (build_adjacency_list tasks edges) fuel t.id (fresh_path s) h)

  colored_black :
      (s : Trail) (x : Ident)
      → Idle tasks edges no_order unrecorded s
      → s.color x ≢ some white
      → is_task tasks x ≡ true
      → s.color x ≡ some black
  colored_black s x i n task = ground (arith, i.no_gray x, i.inv.known x)

  -- A task that is not white is passed over.
  pass :
      (t : TaskDefinition) (ts : List TaskDefinition) (s : Trail)
      → s.color t.id ≢ some white
      → Phase (t ∷ ts) s
      → Phase ts s
  pass t ts s n (inr p) = inr p
  pass t ts s n (inl (i, d)) =
      inl
        (i, advance tasks edges t ts s s (colored_black s t.id i n) (λ x. Later-refl (s.color x)) d)

  detect_skip :
      (fuel : ℕ) (t : TaskDefinition) (ts : List TaskDefinition) (s : Trail)
      → s.color t.id ≢ some white
      → detect_from (visit fuel) (t ∷ ts) s ≡ detect_from (visit fuel) ts s
  unfolding detect_from
  detect_skip fuel t ts s n = ground arith

  detect_rule :
      (fuel : ℕ) (ts : List TaskDefinition) (s : Trail)
      → Phase ts s
      → Judged (detect_from (visit fuel) ts s)
  unfolding detect_from
  detect_rule fuel [] s (inl (i, d)) =
      inl (i.held, acyclic_of_black tasks edges no_order unrecorded s i (all_black tasks edges s d))
  detect_rule fuel [] s (inr (c, h)) = inr (h, c)
  detect_rule fuel (t ∷ ts) s p = elim (Bool-cases (is_white (s.color t.id))) [
    | inl w ↦
        let e = white_of (s.color t.id) w in
        after_call fuel t ts s _ e refl (white_call fuel t ts s e p) (detect_rule fuel ts)
    | inr n ↦
        rw (detect_skip fuel t ts s (λ e. cc)) (detect_rule fuel ts s (pass t ts s (λ e. cc) p))
  ]

  abbrev Detects : Option (List (Option Ident)) → Type 0
  Detects o = (nodes : List (Option Ident)) × (o ≡ some nodes)

  detect_call :
      (fuel : ℕ) (t : TaskDefinition) (ts : List TaskDefinition) (s : Trail) (b : Bool) (s' : Trail)
      → s.color t.id ≡ some white
      → visit fuel t.id (fresh_path s) ≡ some (b, s')
      → Detects (detect_from (visit fuel) ts s')
      → Detects (detect_from (visit fuel) (t ∷ ts) s)
  unfolding detect_from
  detect_call fuel t ts s b s' e v (nodes, h) = (nodes, rw (e, detect_from, v) h)

  detect_ends :
      (fuel : ℕ) (ts : List TaskDefinition) (s : Trail)
      → Fits tasks fuel s
      → Detects (detect_from (visit fuel) ts s)
  unfolding detect_from
  detect_ends fuel [] s fits = (s.cycle_nodes, refl)
  detect_ends fuel (t ∷ ts) s fits = elim (Bool-cases (is_white (s.color t.id))) [
    | inl w ↦
        let (b, s', v, few) =
          call-Ends tasks (build_adjacency_list tasks edges) no_order fuel t.id s w fits in
        detect_call fuel t ts s b s' (white_of (s.color t.id) w) v
          (detect_ends fuel ts s' (Fits-Fewer tasks fuel s s' few fits))
    | inr n ↦ rw (detect_skip fuel t ts s (λ e. cc)) (detect_ends fuel ts s fits)
  ]

  start_unrecorded : (start tasks).cycle_nodes ≡ []
  unfolding start
  start_unrecorded = refl

-- The check returns for every graph. It reports no node if the graph has no cycle, and some node
-- if it has one.
pub detect_cycles-decides :
    (tasks : List TaskDefinition) (edges : List Edge)
    → (nodes : List (Option Ident)) × (detect_cycles tasks edges ≡ some nodes)
      × (((nodes ≡ []) × (¬ HasCycle tasks edges)) ⊎ ((nodes ≢ []) × HasCycle tasks edges))
unfolding detect_cycles
detect_cycles-decides tasks edges =
    let (nodes, e) =
      detect_ends tasks edges (length tasks) tasks (start tasks) (Fits-start tasks) in
    let idle =
      start-Idle tasks edges no_order (unrecorded tasks edges) (start_unrecorded tasks edges) in
    let verdict =
      detect_rule tasks edges (length tasks) tasks (start tasks) (inl (idle, λ x task. inl task)) in
    (nodes, e, subst (Judged tasks edges) e verdict)
