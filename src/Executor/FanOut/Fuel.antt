-- ===== src/Executor/FanOut/Fuel.antt =====
-- The fuel of `markSkipped` is enough: a call marks a pending task, so pending tasks bound the calls.
use task_orchestrator_engine.Prelude.{
  ℕ, zero, suc, ◌+◌, ◌≤◌, ◌≡◌, refl, ap, ◌∙◌, inl, inr, Bool, true, false, Option, none, some, List,
  [], ◌∷◌, arith, length, ◌==◌, if◌then◌else◌, Bool-cases,
}
use task_orchestrator_engine.Types.{Ident, Edge, TaskState, TaskStatus.skipped}
use task_orchestrator_engine.Executor.FanOut.{
  later_or, state_of, passes, is_pending, outgoing, all_unmet, skip_last, propagate, mark_skipped,
}
use task_orchestrator_engine.Executor.FanOut.Skips.{Skips, end, same, skip, mark_skipped-Skips}

abbrev one_if : Bool → ℕ
one_if true = 1
one_if false = 0

-- The number of pending tasks.
abbrev pub pendings : List TaskState → ℕ
pendings [] = 0
pendings (s ∷ ss) = one_if (is_pending s.status) + pendings ss

pendings-Skips : {ss ts : List TaskState} → Skips ss ts → pendings ts ≤ pendings ss
pendings-Skips end = omega arith
pendings-Skips (same s a) = omega (arith, pendings-Skips a)
pendings-Skips (skip s p a) = omega (arith, pendings-Skips a)

skip_last_fewer :
    (def : Ident) (ss : List TaskState)
    → passes is_pending (state_of def ss) ≡ true
    → pendings (skip_last def ss) + 1 ≡ pendings ss
unfolding state_of skip_last
skip_last_fewer def [] h = cc
skip_last_fewer def (s ∷ ss) h = go (state_of def ss) refl (skip_last_fewer def ss) h
  where
    here :
        (b : Bool)
        → passes is_pending (if b then some s else none) ≡ true
        → pendings (if b then record s { status = skipped } ∷ ss else s ∷ ss) + 1
          ≡ pendings (s ∷ ss)
    here true h = rw h (omega arith)
    here false h = cc

    go :
        (o : Option TaskState)
        → state_of def ss ≡ o
        → (passes is_pending (state_of def ss) ≡ true
            → pendings (skip_last def ss) + 1 ≡ pendings ss)
        → passes is_pending (later_or o (if s.task_definition_id == def then some s else none) some)
          ≡ true
        → pendings (
              later_or o
                (if s.task_definition_id == def then record s { status = skipped } ∷ ss else s ∷ ss)
                (λ _. s ∷ skip_last def ss))
            + 1
          ≡ pendings (s ∷ ss)
    go none e rest h = here (s.task_definition_id == def) h
    go (some later) e rest h = omega (arith, rest (rw e h))

propagate_same :
    (mark mark' : Ident → List TaskState → List TaskState) (edges es : List Edge) (n : ℕ)
    (ss : List TaskState)
    → ((def : Ident) (ts : List TaskState) → pendings ts ≤ n → mark def ts ≡ mark' def ts)
    → ((def : Ident) (ts : List TaskState) → Skips ts (mark def ts))
    → pendings ss ≤ n
    → propagate mark edges es ss ≡ propagate mark' edges es ss
unfolding propagate
propagate_same mark mark' edges [] n ss h k le = refl
propagate_same mark mark' edges (e ∷ es) n ss h k le =
    elim (Bool-cases (all_unmet e.target_task_id edges ss)) [
      | inl u ↦
          let ts = mark e.target_task_id ss in
          rw u (
            propagate_same mark mark' edges es n ts h k
              (omega (arith, pendings-Skips (k e.target_task_id ss)))
            ∙ ap (propagate mark' edges es) (h e.target_task_id ss le))
      | inr u ↦ rw u (propagate_same mark mark' edges es n ss h k le)
    ]

-- With as much fuel as there are pending tasks, `mark_skipped` does not run out of it: any larger
-- amount gives the same states.
pub mark_skipped-fuel :
    (fuel more : ℕ) (edges : List Edge) (def : Ident) (ss : List TaskState)
    → pendings ss ≤ fuel
    → fuel ≤ more
    → mark_skipped more edges def ss ≡ mark_skipped fuel edges def ss
unfolding mark_skipped
mark_skipped-fuel zero zero edges def ss p le = refl
mark_skipped-fuel zero (suc more) edges def ss p le =
    elim (Bool-cases (passes is_pending (state_of def ss))) [
      | inl h ↦ absurd (omega (arith, skip_last_fewer def ss h))
      | inr h ↦ rw h refl
    ]
mark_skipped-fuel (suc fuel) zero edges def ss p le = absurd (omega arith)
mark_skipped-fuel (suc fuel) (suc more) edges def ss p le =
    elim (Bool-cases (passes is_pending (state_of def ss))) [
      | inl h ↦ rw h (
          propagate_same (mark_skipped more edges) (mark_skipped fuel edges) edges
            (outgoing def edges) fuel (skip_last def ss)
            (λ d ts q. mark_skipped-fuel fuel more edges d ts q (omega arith))
            (mark_skipped-Skips more edges) (omega (arith, skip_last_fewer def ss h)))
      | inr h ↦ rw h refl
    ]

-- The fuel that the evaluation is given is enough.
pub pendings_le : (ss : List TaskState) → pendings ss ≤ length ss
pendings_le [] = omega arith
pendings_le (s ∷ ss) = ground (arith, pendings_le ss)
