-- ===== src/Executor/FanOut/Skips.antt =====
-- What the skipping of tasks may change, and what it keeps.
use task_orchestrator_engine.Prelude.{
  ℕ, zero, suc, ◌≡◌, refl, sym, ap, ◌∙◌, inl, inr, Bool, true, false, Option, none, some, List, [],
  ◌∷◌, arith, every, any_of, ◌==◌, if◌then◌else◌, Bool-cases,
}
use task_orchestrator_engine.Types.{
  Ident, Edge, TaskState, TaskStatus, TaskStatus.pending, TaskStatus.running, TaskStatus.completed,
  TaskStatus.failed, TaskStatus.cancelled, TaskStatus.timed_out, TaskStatus.skipped,
}
use task_orchestrator_engine.Executor.FanOut.{
  later_or, state_of, passes, is_pending, is_completed, is_satisfied, incoming, outgoing,
  source_passes, fan_in_satisfied, all_unmet, skip_last, propagate, mark_skipped, output_of,
}

-- The second list is the first with some pending tasks skipped.
pub data Skips : List TaskState → List TaskState → Type 0 where
  end : Skips [] []
  same : {ss ts : List TaskState} (s : TaskState) → Skips ss ts → Skips (s ∷ ss) (s ∷ ts)
  skip :
      {ss ts : List TaskState} (s : TaskState)
      → s.status ≡ pending
      → Skips ss ts
      → Skips (s ∷ ss) (record s { status = skipped } ∷ ts)

pub Skips-refl : (ss : List TaskState) → Skips ss ss
Skips-refl [] = end
Skips-refl (s ∷ ss) = same s (Skips-refl ss)

pub Skips-trans : {ss ts us : List TaskState} → Skips ss ts → Skips ts us → Skips ss us
Skips-trans end end = end
Skips-trans (same s a) (same _ b) = same s (Skips-trans a b)
Skips-trans (same s a) (skip _ p b) = skip s p (Skips-trans a b)
Skips-trans (skip s p a) (same _ b) = skip s p (Skips-trans a b)
Skips-trans (skip s p a) (skip _ q b) = skip s p (Skips-trans a b)

-- What one task's state may become.
pub data Becomes : Option TaskState → Option TaskState → Type 0 where
  unchanged : {o : Option TaskState} → Becomes o o
  skipped_now :
      (s : TaskState) → s.status ≡ pending → Becomes (some s) (some (record s { status = skipped }))

later_or-Becomes :
    {o o' q q' : Option TaskState}
    → Becomes o o'
    → Becomes q q'
    → Becomes (later_or o q some) (later_or o' q' some)
later_or-Becomes (unchanged {o = none}) b = b
later_or-Becomes (unchanged {o = some s}) b = unchanged
later_or-Becomes (skipped_now s p) b = skipped_now s p

if-Becomes :
    (b : Bool) (s : TaskState)
    → s.status ≡ pending
    → Becomes
        (if b then some s else none)
        (if b then some (record s { status = skipped }) else none)
if-Becomes true s p = skipped_now s p
if-Becomes false s p = unchanged

pub state_of-Becomes :
    {ss ts : List TaskState} (def : Ident)
    → Skips ss ts
    → Becomes (state_of def ss) (state_of def ts)
unfolding state_of
state_of-Becomes def end = unchanged
state_of-Becomes def (same s a) = later_or-Becomes (state_of-Becomes def a) unchanged
state_of-Becomes def (skip s p a) =
    later_or-Becomes (state_of-Becomes def a) (if-Becomes (s.task_definition_id == def) s p)

pub pending_of : (s : TaskStatus) → is_pending s ≡ true → s ≡ pending
pending_of pending h = refl
pending_of running h = cc
pending_of completed h = cc
pending_of failed h = cc
pending_of cancelled h = cc
pending_of timed_out h = cc
pending_of skipped h = cc

-- The marked task was pending, so marking it skips it.
skip_last-Skips :
    (def : Ident) (ss : List TaskState)
    → passes is_pending (state_of def ss) ≡ true
    → Skips ss (skip_last def ss)
unfolding state_of skip_last
skip_last-Skips def [] h = cc
skip_last-Skips def (s ∷ ss) h = go (state_of def ss) refl (skip_last-Skips def ss) h
  where
    here :
        (b : Bool)
        → passes is_pending (if b then some s else none) ≡ true
        → Skips (s ∷ ss) (if b then record s { status = skipped } ∷ ss else s ∷ ss)
    here true h = skip s (pending_of s.status h) (Skips-refl ss)
    here false h = cc

    go :
        (o : Option TaskState)
        → state_of def ss ≡ o
        → (passes is_pending (state_of def ss) ≡ true → Skips ss (skip_last def ss))
        → passes is_pending (later_or o (if s.task_definition_id == def then some s else none) some)
          ≡ true
        → Skips (s ∷ ss) (
            later_or o
              (if s.task_definition_id == def then record s { status = skipped } ∷ ss else s ∷ ss)
              (λ _. s ∷ skip_last def ss))
    go none e rest h = here (s.task_definition_id == def) h
    go (some later) e rest h = same s (rest (rw e h))

propagate-Skips :
    (mark : Ident → List TaskState → List TaskState) (edges es : List Edge) (ss : List TaskState)
    → ((def : Ident) (ts : List TaskState) → Skips ts (mark def ts))
    → Skips ss (propagate mark edges es ss)
unfolding propagate
propagate-Skips mark edges [] ss h = Skips-refl ss
propagate-Skips mark edges (e ∷ es) ss h = elim (Bool-cases (all_unmet e.target_task_id edges ss)) [
  | inl u ↦ rw u (
      Skips-trans (h e.target_task_id ss)
        (propagate-Skips mark edges es (mark e.target_task_id ss) h))
  | inr u ↦ rw u (propagate-Skips mark edges es ss h)
]

pub mark_skipped-Skips :
    (fuel : ℕ) (edges : List Edge) (def : Ident) (ss : List TaskState)
    → Skips ss (mark_skipped fuel edges def ss)
unfolding mark_skipped
mark_skipped-Skips zero edges def ss = Skips-refl ss
mark_skipped-Skips (suc fuel) edges def ss =
    elim (Bool-cases (passes is_pending (state_of def ss))) [
      | inl h ↦ rw h (
          Skips-trans (skip_last-Skips def ss h) (
            propagate-Skips (mark_skipped fuel edges) edges (outgoing def edges) (skip_last def ss)
              (mark_skipped-Skips fuel edges)))
      | inr h ↦ rw h (Skips-refl ss)
    ]

-- What a skip keeps: a test that a skipped task passes too, and every output.
abbrev Keeps : (TaskStatus → Bool) → Type 0
Keeps test = test pending ≡ true → test skipped ≡ true

passes-Becomes :
    (test : TaskStatus → Bool) {o o' : Option TaskState}
    → Keeps test
    → Becomes o o'
    → passes test o ≡ true
    → passes test o' ≡ true
passes-Becomes test k unchanged h = h
passes-Becomes test k (skipped_now s p) h = k (ap test (sym p) ∙ h)

pub output_of-Becomes : {o o' : Option TaskState} → Becomes o o' → output_of o ≡ output_of o'
output_of-Becomes unchanged = refl
output_of-Becomes (skipped_now s p) = refl

every-Skips :
    (test : TaskStatus → Bool) {ss ts : List TaskState} (es : List Edge)
    → Keeps test
    → Skips ss ts
    → every (source_passes test ss) es ≡ true
    → every (source_passes test ts) es ≡ true
every-Skips test [] k a h = refl
every-Skips test (e ∷ es) k a h =
    ground
      (arith, passes-Becomes test k (state_of-Becomes e.source_task_id a), every-Skips test es k a)

any_of-Skips :
    (test : TaskStatus → Bool) {ss ts : List TaskState} (es : List Edge)
    → Keeps test
    → Skips ss ts
    → any_of (source_passes test ss) es ≡ true
    → any_of (source_passes test ts) es ≡ true
any_of-Skips test [] k a h = h
any_of-Skips test (e ∷ es) k a h =
    ground
      (arith, passes-Becomes test k (state_of-Becomes e.source_task_id a), any_of-Skips test es k a)

pub fan_in-Skips :
    {ss ts : List TaskState} (def : Ident) (edges : List Edge)
    → Skips ss ts
    → fan_in_satisfied def edges ss ≡ true
    → fan_in_satisfied def edges ts ≡ true
unfolding fan_in_satisfied
fan_in-Skips def edges a h = ground (
  arith,
  every-Skips is_satisfied (incoming def edges) (λ e. refl) a,
  any_of-Skips is_completed (incoming def edges) (λ e. cc) a,
)
