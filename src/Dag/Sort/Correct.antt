-- ===== src/Dag/Sort/Correct.antt =====
-- `topologicalSort` decides whether the graph has a cycle, and orders it if it has none.
use task_orchestrator_engine.Prelude.{
  ℕ, ◌≡◌, refl, subst, ◌⊎◌, inl, inr, ◌≢◌, Bool, true, false, Option, none, some, List, [], ◌∷◌,
  reverse, arith, elem, elem-reverse, length, Bool-cases,
}
use task_orchestrator_engine.Types.{Ident, TaskDefinition, Edge}
use task_orchestrator_engine.Dag.Graph.{build_adjacency_list, is_task, HasCycle}
use task_orchestrator_engine.Dag.Search.{white, black, Trail, Outcome, dfs, start, fresh_path}
use task_orchestrator_engine.Dag.Search.Colors.{Later-refl, Grows}
use task_orchestrator_engine.Dag.Search.Total.{
  Color-cases, start_color, Fits, Fits-Fewer, Fits-start, call-Ends, white_of, is_white,
}
use task_orchestrator_engine.Dag.Search.Rule.{
  Done, all_black, advance, Extra, Holds, Idle, Returned, call_rule, start-Idle, acyclic_of_black,
}
use task_orchestrator_engine.Dag.Sort.{
  TopologicalSortResult, push_finished, sort_from, topological_sort,
}
use task_orchestrator_engine.Dag.Sort.Order.{
  IsTopological, Ordered, Ordered-enter, Ordered-leave, Ordered-fresh_path,
}

module _ (tasks : List TaskDefinition) (edges : List Edge) where
  -- Exactly the tasks, each once, in front of all targets of its arcs.
  pub record IsOrder (order : List Ident) : Type 0 where
    pub complete : (x : Ident) → elem x order ≡ is_task tasks x
    pub sorted : IsTopological tasks edges order

  abbrev Answer : TopologicalSortResult → Type 0
  Answer r =
      ((r.valid ≡ true) × IsOrder r.order × (¬ HasCycle tasks edges))
      ⊎ ((r.valid ≡ false) × (r.order ≡ []) × HasCycle tasks edges)

  abbrev ordered : Extra tasks edges push_finished
  ordered = record {
    P = Ordered tasks edges;
    keep_enter = Ordered-enter tasks edges;
    keep_leave = Ordered-leave tasks edges;
    keep_path = Ordered-fresh_path tasks edges;
  }

  abbrev visit : ℕ → Ident → Trail → Outcome
  visit = dfs (build_adjacency_list tasks edges) push_finished

  abbrev Answered : Option TopologicalSortResult → Type 0
  Answered none = Unit
  Answered (some r) = Answer r

  listed_iff :
      (s : Trail)
      → Idle tasks edges push_finished ordered s
      → Done tasks edges [] s
      → (x : Ident) → elem x s.post_order ≡ is_task tasks x
  listed_iff s i done x =
      ground
        (arith, all_black tasks edges s done x, i.held.listed x, i.held.only x, i.inv.tasks_only x)

  step_white :
      (fuel : ℕ) (t : TaskDefinition) (ts : List TaskDefinition) (s : Trail) (o : Outcome)
      → s.color t.id ≡ some white
      → visit fuel t.id (fresh_path s) ≡ o
      → Holds (Returned tasks edges push_finished ordered t.id s) o
      → ((s' : Trail)
          → Idle tasks edges push_finished ordered s'
          → Grows s s'
          → s'.color t.id ≡ some black
          → Answered (sort_from (visit fuel) ts s'))
      → Answered (sort_from (visit fuel) (t ∷ ts) s)
  unfolding sort_from
  step_white fuel t ts s none e v h rest = rw (e, sort_from, v) tt
  step_white fuel t ts s (some (true, s')) e v (cycle, _) rest =
      rw (e, sort_from, v) (inr (refl, refl, cycle))
  step_white fuel t ts s (some (false, s')) e v (i, grows, done) rest =
      rw (e, sort_from, v) (rest s' i grows done)

  sorted_all :
      (s : Trail)
      → Idle tasks edges push_finished ordered s
      → Done tasks edges [] s
      → Answer (record { valid = true; order = reverse s.post_order; cycle_nodes = none })
  sorted_all s i done = inl (
    refl,
    record {
      complete = λ x. rw (elem-reverse x s.post_order) (listed_iff s i done x);
      sorted = i.held.sorted;
    },
    acyclic_of_black tasks edges push_finished ordered s i (all_black tasks edges s done),
  )

  sort_rule :
      (fuel : ℕ) (ts : List TaskDefinition) (s : Trail)
      → Idle tasks edges push_finished ordered s
      → Done tasks edges ts s
      → Answered (sort_from (visit fuel) ts s)
  unfolding sort_from
  sort_rule fuel [] s i done = sorted_all s i done
  sort_rule fuel (t ∷ ts) s i done =
      let still = λ (x : Ident). Later-refl (s.color x) in
      elim (Color-cases (s.color t.id)) [
        | inl e ↦
            rw (e, sort_from)
              (sort_rule fuel ts s i
                (advance tasks edges t ts s s (λ task. cc (i.inv.known t.id e)) still done))
        | inr (inl e) ↦
            step_white fuel t ts s _ e refl
              (call_rule tasks edges push_finished ordered fuel t.id s e i)
              (λ s' i' grows b.
                sort_rule fuel ts s' i' (advance tasks edges t ts s s' (λ _. b) grows done))
        | inr (inr (inl e)) ↦ absurd (i.no_gray t.id e)
        | inr (inr (inr e)) ↦
            rw (e, sort_from)
              (sort_rule fuel ts s i (advance tasks edges t ts s s (λ _. e) still done))
      ]

  start-Ordered : Ordered tasks edges (start tasks)
  unfolding start
  start-Ordered = record {
    listed = λ x h. ground (arith, start_color tasks x);
    only = λ x h. cc;
    sorted = tt;
  }

  abbrev Sorts : Option TopologicalSortResult → Type 0
  Sorts o = (r : TopologicalSortResult) × (o ≡ some r)

  sort_skip :
      (fuel : ℕ) (t : TaskDefinition) (ts : List TaskDefinition) (s : Trail)
      → s.color t.id ≢ some white
      → Sorts (sort_from (visit fuel) ts s)
      → Sorts (sort_from (visit fuel) (t ∷ ts) s)
  unfolding sort_from
  sort_skip fuel t ts s e (r, h) = (r, ground arith)

  sort_call :
      (fuel : ℕ) (t : TaskDefinition) (ts : List TaskDefinition) (s : Trail) (b : Bool) (s' : Trail)
      → s.color t.id ≡ some white
      → visit fuel t.id (fresh_path s) ≡ some (b, s')
      → Sorts (sort_from (visit fuel) ts s')
      → Sorts (sort_from (visit fuel) (t ∷ ts) s)
  unfolding sort_from
  sort_call fuel t ts s true s' e v rest = (
    record { valid = false; order = []; cycle_nodes = some s'.cycle_nodes },
    rw (e, sort_from, v),
  )
  sort_call fuel t ts s false s' e v (r, h) = (r, rw (e, sort_from, v) h)

  sort_ends :
      (fuel : ℕ) (ts : List TaskDefinition) (s : Trail)
      → Fits tasks fuel s
      → Sorts (sort_from (visit fuel) ts s)
  unfolding sort_from
  sort_ends fuel [] s fits =
      (record { valid = true; order = reverse s.post_order; cycle_nodes = none }, refl)
  sort_ends fuel (t ∷ ts) s fits = elim (Bool-cases (is_white (s.color t.id))) [
    | inl w ↦
        let (b, s', v, few) =
          call-Ends tasks (build_adjacency_list tasks edges) push_finished fuel t.id s w fits in
        sort_call fuel t ts s b s' (white_of (s.color t.id) w) v
          (sort_ends fuel ts s' (Fits-Fewer tasks fuel s s' few fits))
    | inr n ↦ sort_skip fuel t ts s (λ e. cc) (sort_ends fuel ts s fits)
  ]

-- The sort returns for every graph, duplicate ids and edges that name no task included. Either the
-- graph has no cycle, and the result is valid and orders exactly the tasks, each once and in
-- front of the targets of its arcs; or it has one, and the result is invalid with an empty order.
pub topological_sort-decides :
    (tasks : List TaskDefinition) (edges : List Edge)
    → (r : TopologicalSortResult) × (topological_sort tasks edges ≡ some r)
      × (((r.valid ≡ true) × IsOrder tasks edges r.order × (¬ HasCycle tasks edges))
          ⊎ ((r.valid ≡ false) × (r.order ≡ []) × HasCycle tasks edges))
unfolding topological_sort
topological_sort-decides tasks edges =
    let (r, e) = sort_ends tasks edges (length tasks) tasks (start tasks) (Fits-start tasks) in
    let idle =
      start-Idle tasks edges push_finished (ordered tasks edges) (start-Ordered tasks edges) in
    let answer =
      sort_rule tasks edges (length tasks) tasks (start tasks) idle (λ x task. inl task) in
    (r, e, subst (Answered tasks edges) e answer)
