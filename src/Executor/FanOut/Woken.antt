-- ===== src/Executor/FanOut/Woken.antt =====
-- Which tasks the end of a task cannot leave behind.
use task_orchestrator_engine.Prelude.{
  ℕ, ◌≡◌, refl, sym, ap, ◌∙◌, inl, inr, Bool, true, Option, none, some, List, [], ◌∷◌, arith, elem,
  elem-reverse, length, ==_refl, Bool-cases,
}
use Prim.Native.String.{String}
use task_orchestrator_engine.Types.{Ident, Json, Edge, TaskState, TaskStatus.pending}
use task_orchestrator_engine.Redis.Server.{Server}
use task_orchestrator_engine.Executor.FanOut.{
  state_of, is_pending, outgoing, fan_in_satisfied, Progress, output_of, condition_met,
  visit_pending, visit_target, visit_edges, evaluate_downstream,
}
use task_orchestrator_engine.Executor.FanOut.Skips.{
  Skips, Skips-refl, Skips-trans, state_of-Becomes, mark_skipped-Skips, output_of-Becomes,
  fan_in-Skips,
}
use task_orchestrator_engine.Executor.FanOut.Incoming.{
  Listed, first, later, IsMet, AllSettled, FromCompleted, met_converse, fan_in_converse,
}
use task_orchestrator_engine.Executor.FanOut.Ready.{unchanged_pending}

module _ (evaluate : String → Json → Option Bool) (def : Ident) (edges : List Edge) where
  -- Tasks are skipped, and what is ready stays ready.
  record Grows (p q : Progress) : Type 0 where
    skips : Skips p.states q.states
    kept : (id : Ident) → elem id p.ready ≡ true → elem id q.ready ≡ true

  Grows-refl : (p : Progress) → Grows p p
  Grows-refl p = record { skips = Skips-refl p.states; kept = λ id h. h }

  visit_pending-Grows :
      (fuel : ℕ) (e : Edge) (t : TaskState) (p : Progress)
      → Grows p (visit_pending evaluate fuel def edges e t p)
  unfolding visit_pending
  visit_pending-Grows fuel e t p =
      elim (Bool-cases
        (condition_met evaluate e.condition_expr (output_of (state_of def p.states)))) [
          | inr c ↦ rw c (record {
            skips = mark_skipped-Skips fuel edges e.target_task_id p.states;
            kept = λ id h. h;
          })
          | inl c ↦ elim (Bool-cases (fan_in_satisfied e.target_task_id edges p.states)) [
            | inr h ↦ rw (c, h) (Grows-refl p)
            | inl h ↦
                rw (c, h) (record { skips = Skips-refl p.states; kept = λ id m. ground (arith, m) })
          ]
        ]

  visit_target-Grows :
      (fuel : ℕ) (e : Edge) (o : Option TaskState) (p : Progress)
      → Grows p (visit_target evaluate fuel def edges e o p)
  unfolding visit_target
  visit_target-Grows fuel e none p = Grows-refl p
  visit_target-Grows fuel e (some t) p = elim (Bool-cases (is_pending t.status)) [
    | inl h ↦ rw h (visit_pending-Grows fuel e t p)
    | inr h ↦ rw h (Grows-refl p)
  ]

  visit_edges-Grows :
      (fuel : ℕ) (es : List Edge) (p : Progress)
      → Grows p (visit_edges evaluate fuel def edges es p)
  unfolding visit_edges
  visit_edges-Grows fuel [] p = Grows-refl p
  visit_edges-Grows fuel (e ∷ es) p =
      let q = visit_target evaluate fuel def edges e (state_of e.target_task_id p.states) p in
      let a = visit_target-Grows fuel e (state_of e.target_task_id p.states) p in
      let b = visit_edges-Grows fuel es q in
      record { skips = Skips-trans a.skips b.skips; kept = λ id h. b.kept id (a.kept id h) }

  visit_target-wakes :
      (fuel : ℕ) (e : Edge) (t : TaskState) (p : Progress)
      → t.status ≡ pending
      → condition_met evaluate e.condition_expr (output_of (state_of def p.states)) ≡ true
      → fan_in_satisfied e.target_task_id edges p.states ≡ true
      → elem t.id (visit_target evaluate fuel def edges e (some t) p).ready ≡ true
  unfolding visit_target visit_pending
  visit_target-wakes fuel e t p w c h = rw (w, c, h, ==_refl t.id) refl

  module _ (before : List TaskState) where
    visit_edges-wakes :
        (fuel : ℕ) (e : Edge) (es : List Edge) (t : TaskState) (p : Progress)
        → Listed e es
        → Skips before p.states
        → condition_met evaluate e.condition_expr (output_of (state_of def before)) ≡ true
        → fan_in_satisfied e.target_task_id edges before ≡ true
        → state_of e.target_task_id (visit_edges evaluate fuel def edges es p).states ≡ some t
        → t.status ≡ pending
        → elem t.id (visit_edges evaluate fuel def edges es p).ready ≡ true
    unfolding visit_edges
    visit_edges-wakes fuel e _ t p (first {es}) s c h f w =
        let o = state_of e.target_task_id p.states in
        let a = visit_target-Grows fuel e o p in
        let b = visit_edges-Grows fuel es (visit_target evaluate fuel def edges e o p) in
        let was : o ≡ some t =
          unchanged_pending t (state_of-Becomes e.target_task_id (Skips-trans a.skips b.skips)) f
            w in
        let met =
          ap (condition_met evaluate e.condition_expr)
            (sym (output_of-Becomes (state_of-Becomes def s)))
          ∙ c in
        b.kept t.id (
          ap (λ k. elem t.id (visit_target evaluate fuel def edges e k p).ready) was
          ∙ visit_target-wakes fuel e t p w met (fan_in-Skips e.target_task_id edges s h))
    visit_edges-wakes fuel e _ t p (later {d} {es} m) s c h f w =
        let o = state_of d.target_task_id p.states in
        visit_edges-wakes fuel e es t (visit_target evaluate fuel def edges d o p) m
          (Skips-trans s (visit_target-Grows fuel d o p).skips) c h f w

    -- A task is found ready if it is pending behind the evaluation, an edge leads to it from the finished
    -- task, the edge has no condition or one that is true of that task's output, and, before the
    -- evaluation, every edge to the task comes from a completed or skipped one and some edge from a
    -- completed one.
    pub evaluate_downstream-wakes :
        (redis : Server) (s : redis.Store) (e : Edge) (t : TaskState)
        → Listed e (outgoing def edges)
        → IsMet evaluate e.condition_expr (output_of (state_of def before))
        → AllSettled before e.target_task_id edges
        → FromCompleted before e.target_task_id edges
        → state_of e.target_task_id (evaluate_downstream evaluate redis def edges before s).1
          ≡ some t
        → t.status ≡ pending
        → elem t.id (evaluate_downstream evaluate redis def edges before s).0 ≡ true
    unfolding evaluate_downstream
    evaluate_downstream-wakes redis s e t l c all one f w =
        elem-reverse t.id _
        ∙ visit_edges-wakes (length before) e (outgoing def edges) t
            (record { ready = []; states = before }) l (Skips-refl before)
            (met_converse evaluate e.condition_expr _ c)
            (fan_in_converse before e.target_task_id edges all one) f w
