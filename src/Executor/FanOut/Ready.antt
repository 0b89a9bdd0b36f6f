-- ===== src/Executor/FanOut/Ready.antt =====
-- Which tasks the end of a task makes ready, and what becomes of the others.
use task_orchestrator_engine.Prelude.{
  ℕ, ◌≡◌, refl, sym, ap, subst, ◌∙◌, inl, inr, Bool, true, Option, none, some, List, [], ◌∷◌, ◌++◌,
  arith, elem, elem-reverse, length, ◌==◌, ==_iff, Bool-cases,
}
use Prim.Native.String.{String}
use task_orchestrator_engine.Types.{
  Ident, Json, Edge, TaskState, TaskStatus, TaskStatus.pending, TaskStatus.skipped,
}
use task_orchestrator_engine.Redis.Server.{Server}
use task_orchestrator_engine.Redis.TaskQueue.Flow.{waiting, waiting-enqueue_batch}
use task_orchestrator_engine.Executor.FanOut.{
  state_of, is_pending, outgoing, fan_in_satisfied, Progress, output_of, condition_met,
  visit_pending, visit_target, visit_edges, evaluate_downstream,
}
use task_orchestrator_engine.Executor.FanOut.Skips.{
  Skips, Skips-refl, Skips-trans, Becomes, unchanged, skipped_now, state_of-Becomes, pending_of,
  mark_skipped-Skips, output_of-Becomes, fan_in-Skips,
}
use task_orchestrator_engine.Executor.FanOut.Incoming.{
  Listed, first, later, AllSettled, FromCompleted, IsMet, fan_in_lem, met_lem,
}

abbrev status_of : Option TaskState → TaskStatus
status_of none = pending
status_of (some s) = s.status

clash : {t : TaskStatus} → skipped ≡ t → t ≡ pending → ⊥
clash e p = absurd_skipped (e ∙ p)
  where
    absurd_skipped : skipped ≡ pending → ⊥
    absurd_skipped e = cc

pub unchanged_pending :
    {o o' : Option TaskState} (t : TaskState)
    → Becomes o o'
    → o' ≡ some t
    → t.status ≡ pending
    → o ≡ some t
unchanged_pending t unchanged e p = e
unchanged_pending t (skipped_now s q) e p = absurd (clash (ap status_of e) p)

module _ (evaluate : String → Json → Option Bool) (def : Ident) (edges : List Edge)
    (before : List TaskState) where
  -- A task that passed the checks: an edge leads to it from the finished task, and the edge's condition
  -- holds of the output; it is pending, and of its incoming edges all are satisfied and one by a
  -- completed task, by the states behind the evaluation.
  record IsStartable (after : List TaskState) (id : Ident) : Type 0 where
    edge : Edge
    listed : Listed edge (outgoing def edges)
    target : TaskState
    found : state_of edge.target_task_id before ≡ some target
    same_id : target.id ≡ id
    waits : target.status ≡ pending
    met : condition_met evaluate edge.condition_expr (output_of (state_of def after)) ≡ true
    satisfied : fan_in_satisfied edge.target_task_id edges after ≡ true

  IsStartable-Skips :
      {ts us : List TaskState} (id : Ident) → Skips ts us → IsStartable ts id → IsStartable us id
  IsStartable-Skips id a r = record {
    edge = r.edge;
    listed = r.listed;
    target = r.target;
    found = r.found;
    same_id = r.same_id;
    waits = r.waits;
    met =
        ap (condition_met evaluate r.edge.condition_expr)
          (sym (output_of-Becomes (state_of-Becomes def a)))
        ∙ r.met;
    satisfied = fan_in-Skips r.edge.target_task_id edges a r.satisfied;
  }

  -- A task that may start.
  pub record IsReady (after : List TaskState) (id : Ident) : Type 0 where
    pub edge : Edge
    pub from_finished : Listed edge edges
    pub source : (edge.source_task_id == def) ≡ true
    pub target : TaskState
    pub found : state_of edge.target_task_id before ≡ some target
    pub same_id : target.id ≡ id
    pub waits : target.status ≡ pending
    pub met : IsMet evaluate edge.condition_expr (output_of (state_of def after))
    pub all_settled : AllSettled after edge.target_task_id edges
    pub one_completed : FromCompleted after edge.target_task_id edges

  either_lem :
      (e d : Edge) (es : List Edge)
      → (d.source_task_id == def) ≡ true
      → (Listed e (outgoing def es) → Listed e es × ((e.source_task_id == def) ≡ true))
      → Listed e (d ∷ outgoing def es)
      → Listed e (d ∷ es) × ((e.source_task_id == def) ≡ true)
  either_lem e d es y rest first = (first, y)
  either_lem e d es y rest (later m) = let (there, from) = rest m in (later there, from)

  outgoing_lem :
      (e : Edge) (es : List Edge)
      → Listed e (outgoing def es)
      → Listed e es × ((e.source_task_id == def) ≡ true)
  outgoing_lem e [] l = elim l [ ]
  outgoing_lem e (d ∷ es) l = elim (Bool-cases (d.source_task_id == def)) [
    | inl y ↦ either_lem e d es y (outgoing_lem e es) (rw y at l)
    | inr n ↦ let (there, from) = outgoing_lem e es (rw n at l) in (later there, from)
  ]

  IsStartable-IsReady :
      {after : List TaskState} (id : Ident) → IsStartable after id → IsReady after id
  IsStartable-IsReady {after} id r =
      let (listed, from) = outgoing_lem r.edge edges r.listed in
      let (all, one) = fan_in_lem after r.edge.target_task_id edges r.satisfied in
      record {
        edge = r.edge;
        from_finished = listed;
        source = from;
        target = r.target;
        found = r.found;
        same_id = r.same_id;
        waits = r.waits;
        met = met_lem evaluate r.edge.condition_expr (output_of (state_of def after)) r.met;
        all_settled = all;
        one_completed = one;
      }

  record Sound (p : Progress) : Type 0 where
    skips : Skips before p.states
    ready : (id : Ident) → elem id p.ready ≡ true → IsStartable p.states id

  new-IsStartable :
      (e : Edge) (t : TaskState) (p : Progress)
      → Listed e (outgoing def edges)
      → state_of e.target_task_id p.states ≡ some t
      → t.status ≡ pending
      → Skips before p.states
      → condition_met evaluate e.condition_expr (output_of (state_of def p.states)) ≡ true
      → fan_in_satisfied e.target_task_id edges p.states ≡ true
      → IsStartable p.states t.id
  new-IsStartable e t p l f w s c h = record {
    edge = e;
    listed = l;
    target = t;
    found = unchanged_pending t (state_of-Becomes e.target_task_id s) f w;
    same_id = refl;
    waits = w;
    met = c;
    satisfied = h;
  }

  elem_first :
      (after : List TaskState) (a id : Ident) (ids : List Ident)
      → IsStartable after a
      → (elem id ids ≡ true → IsStartable after id)
      → elem id (a ∷ ids) ≡ true
      → IsStartable after id
  elem_first after a id ids r rest h = elim (Bool-cases (id == a)) [
    | inl e ↦ subst (IsStartable after) (sym ((==_iff id a).0 e)) r
    | inr e ↦ rest (ground arith)
  ]

  visit_pending-Sound :
      (fuel : ℕ) (e : Edge) (t : TaskState) (p : Progress)
      → Listed e (outgoing def edges)
      → state_of e.target_task_id p.states ≡ some t
      → t.status ≡ pending
      → Sound p
      → Sound (visit_pending evaluate fuel def edges e t p)
  unfolding visit_pending
  visit_pending-Sound fuel e t p l f w s =
      elim (Bool-cases
        (condition_met evaluate e.condition_expr (output_of (state_of def p.states)))) [
          | inr c ↦
              let a = mark_skipped-Skips fuel edges e.target_task_id p.states in
              rw c (record {
                skips = Skips-trans s.skips a;
                ready = λ id m. IsStartable-Skips id a (s.ready id m);
              })
          | inl c ↦ elim (Bool-cases (fan_in_satisfied e.target_task_id edges p.states)) [
            | inr h ↦ rw (c, h) s
            | inl h ↦
                rw (c, h)
                  (record {
                    skips = s.skips;
                    ready = λ id m.
                        elem_first p.states t.id id p.ready
                          (new-IsStartable e t p l f w s.skips c h) (s.ready id) m;
                  })
          ]
        ]

  visit_target-Sound :
      (fuel : ℕ) (e : Edge) (o : Option TaskState) (p : Progress)
      → Listed e (outgoing def edges)
      → state_of e.target_task_id p.states ≡ o
      → Sound p
      → Sound (visit_target evaluate fuel def edges e o p)
  unfolding visit_target
  visit_target-Sound fuel e none p l f s = s
  visit_target-Sound fuel e (some t) p l f s = elim (Bool-cases (is_pending t.status)) [
    | inl h ↦ rw h (visit_pending-Sound fuel e t p l f (pending_of t.status h) s)
    | inr h ↦ rw h s
  ]

  visit_edges-Sound :
      (fuel : ℕ) (es : List Edge) (p : Progress)
      → ((e : Edge) → Listed e es → Listed e (outgoing def edges))
      → Sound p
      → Sound (visit_edges evaluate fuel def edges es p)
  unfolding visit_edges
  visit_edges-Sound fuel [] p l s = s
  visit_edges-Sound fuel (e ∷ es) p l s =
      visit_edges-Sound fuel es
        (visit_target evaluate fuel def edges e (state_of e.target_task_id p.states) p)
        (λ d m. l d (later m))
        (visit_target-Sound fuel e (state_of e.target_task_id p.states) p (l e first) refl s)

  module _ (redis : Server) (s : redis.Store) where
    evaluated : Sound (
        visit_edges evaluate
          (length before)
          def
          edges
          (outgoing def edges)
          (record { ready = []; states = before }))
    evaluated =
        visit_edges-Sound (length before) (outgoing def edges)
          (record { ready = []; states = before }) (λ e m. m)
          (record { skips = Skips-refl before; ready = λ id m. cc })

    -- A task that is found ready was pending, and an edge leads to it from the finished task, whose
    -- condition, if it has one, is true of that task's output. By the states behind the evaluation,
    -- every edge to the task comes from a completed or skipped one, and some edge from a completed one.
    pub evaluate_downstream-IsReady :
        (id : Ident)
        → elem id (evaluate_downstream evaluate redis def edges before s).0 ≡ true
        → IsReady (evaluate_downstream evaluate redis def edges before s).1 id
    unfolding evaluate_downstream
    evaluate_downstream-IsReady id m =
        IsStartable-IsReady id (evaluated.ready id (sym (elem-reverse id _) ∙ m))

    -- The evaluation changes a task's state only from pending to skipped, and the ready tasks join
    -- the queue behind all waiting ones in their order.
    pub evaluate_downstream-Skips :
        let (ready, after, s') = evaluate_downstream evaluate redis def edges before s in
        Skips before after × (waiting redis s' ≡ waiting redis s ++ ready)
    unfolding evaluate_downstream
    evaluate_downstream-Skips = (evaluated.skips, (waiting-enqueue_batch redis _ s).0)
