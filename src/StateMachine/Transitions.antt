-- ===== src/StateMachine/Transitions.antt =====
-- What state-machine.ts guarantees of every task, against the diagram of its comments.
use task_orchestrator_engine.Prelude.{◌≡◌, refl, ap, ◌≢◌, ◌↔◌, true, List, [], ◌∷◌, arith}
use task_orchestrator_engine.Types.{
  Ident, Instant, TaskStatus, TaskStatus.pending, TaskStatus.running, TaskStatus.completed,
  TaskStatus.failed, TaskStatus.cancelled, TaskStatus.timed_out,
}
use task_orchestrator_engine.StateMachine.{
  Reason, TransitionResult, already_terminal, invalid_transition, success, failure, transition,
  succeeded,
}

-- The end states of the diagram.
pub data IsEnd : TaskStatus → Type 0 where
  completed_end : IsEnd completed
  failed_end : IsEnd failed
  cancelled_end : IsEnd cancelled
  timed_out_end : IsEnd timed_out

-- The arrows of the diagram.
infix 40 ◌⟶◌
pub data ◌⟶◌ : TaskStatus → TaskStatus → Type 0 where
  start : pending ⟶ running
  withdraw : pending ⟶ cancelled
  finish : {s : TaskStatus} → IsEnd s → running ⟶ s

ruleset arrows = (start, withdraw, finish, completed_end, failed_end, cancelled_end, timed_out_end)

module _ (s t : TaskStatus) (task : Ident) (now : Instant) where
  abbrev pub audited : TransitionResult
  audited = success (record { task_id = task; previous_state = s; new_state = t; timestamp = now })

  abbrev pub refused : Reason → TransitionResult
  refused why =
      failure (record { message = why; current_state = s; attempted_state = t; task_id = task })

audited_of_arrow :
    (s t : TaskStatus) (task : Ident) (now : Instant)
    → s ⟶ t
    → transition s t task now ≡ audited s t task now
unfolding transition
audited_of_arrow _ _ task now start = refl
audited_of_arrow _ _ task now withdraw = refl
audited_of_arrow _ _ task now (finish completed_end) = refl
audited_of_arrow _ _ task now (finish failed_end) = refl
audited_of_arrow _ _ task now (finish cancelled_end) = refl
audited_of_arrow _ _ task now (finish timed_out_end) = refl

arrow_of_accepted :
    (s t : TaskStatus) (task : Ident) (now : Instant)
    → succeeded (transition s t task now) ≡ true
    → s ⟶ t
unfolding transition
arrow_of_accepted s t task now h = grind (arith, arrows)

refused_of_end :
    (s t : TaskStatus) (task : Ident) (now : Instant)
    → IsEnd s
    → transition s t task now ≡ refused s t task now already_terminal
unfolding transition
refused_of_end _ t task now completed_end = refl
refused_of_end _ t task now failed_end = refl
refused_of_end _ t task now cancelled_end = refl
refused_of_end _ t task now timed_out_end = refl

IsEnd-of_refused :
    (s t : TaskStatus) (task : Ident) (now : Instant)
    → transition s t task now ≡ refused s t task now already_terminal
    → IsEnd s
unfolding transition
IsEnd-of_refused s t task now h = grind (arith, arrows)

invalid_otherwise :
    (s t : TaskStatus) (task : Ident) (now : Instant)
    → transition s t task now ≢ audited s t task now
    → transition s t task now ≢ refused s t task now already_terminal
    → transition s t task now ≡ refused s t task now invalid_transition
unfolding transition
invalid_otherwise s t task now h k = ground arith

-- A request is accepted exactly when the diagram has that arrow, and is then audited with the
-- task, both states and the time. It is refused as terminal exactly from an end state, and as
-- invalid exactly in the other cases; a refusal names the task and both states.
pub transition-decides :
    (s t : TaskStatus) (task : Ident) (now : Instant)
    → ((transition s t task now ≡ audited s t task now) ↔ (s ⟶ t))
      × ((transition s t task now ≡ refused s t task now already_terminal) ↔ IsEnd s)
      × ((transition s t task now ≡ refused s t task now invalid_transition)
          ↔ ((¬ (s ⟶ t)) × (¬ IsEnd s)))
transition-decides s t task now =
    let arrow = λ (e : transition s t task now ≡ audited s t task now).
      arrow_of_accepted s t task now (rw e refl) in
    (
      (arrow, audited_of_arrow s t task now),
      (IsEnd-of_refused s t task now, refused_of_end s t task now),
      (
        λ e. (λ a. cc (audited_of_arrow s t task now a), λ d. cc (refused_of_end s t task now d)),
        λ (no_arrow, live).
            invalid_otherwise s t task now (λ e. no_arrow (arrow e))
              (λ e. live (IsEnd-of_refused s t task now e)),
      ),
    )

-- The targets of a task's requests, taken one by one, all accepted.
pub data Accepted (task : Ident) : TaskStatus → List TaskStatus → Type 0 where
  done : {s : TaskStatus} → Accepted task s []
  then :
      {s t : TaskStatus} {rest : List TaskStatus} (now : Instant)
      → succeeded (transition s t task now) ≡ true
      → Accepted task t rest
      → Accepted task s (t ∷ rest)

end_stuck : {s t : TaskStatus} → IsEnd s → ¬ (s ⟶ t)
end_stuck d a = cc (refused_of_end _ _ 0 0 d, audited_of_arrow _ _ 0 0 a)

nothing_after_end :
    {task : Ident} {s : TaskStatus} (ts : List TaskStatus) → IsEnd s → Accepted task s ts → ts ≡ []
nothing_after_end [] d a = refl
nothing_after_end {task} (t ∷ ts) d (then now h rest) =
    absurd (end_stuck d (arrow_of_accepted _ t task now h))

-- The lives that a task can have.
pub data Life : List TaskStatus → Type 0 where
  idle : Life []
  withdrawn : Life (cancelled ∷ [])
  started : Life (running ∷ [])
  ended : {e : TaskStatus} → IsEnd e → Life (running ∷ e ∷ [])

IsEnd-of_running : {t : TaskStatus} → running ⟶ t → IsEnd t
IsEnd-of_running (finish d) = d

Life-running :
    {task : Ident} (ts : List TaskStatus) → Accepted task running ts → Life (running ∷ ts)
Life-running [] a = started
Life-running {task} (t ∷ ts) (then now h rest) =
    let d = IsEnd-of_running (arrow_of_accepted running t task now h) in
    rw (nothing_after_end ts d rest) (ended d)

Life-step :
    {task : Ident} {t : TaskStatus} (ts : List TaskStatus)
    → pending ⟶ t
    → Accepted task t ts
    → Life (t ∷ ts)
Life-step ts start a = Life-running ts a
Life-step ts withdraw a = rw (nothing_after_end ts cancelled_end a) withdrawn

Life-of_accepted : {task : Ident} (ts : List TaskStatus) → Accepted task pending ts → Life ts
Life-of_accepted [] a = idle
Life-of_accepted {task} (t ∷ ts) (then now h rest) =
    Life-step ts (arrow_of_accepted pending t task now h) rest

Accepted-of_arrow :
    {task : Ident} {s t : TaskStatus} {rest : List TaskStatus}
    → s ⟶ t
    → Accepted task t rest
    → Accepted task s (t ∷ rest)
Accepted-of_arrow {task} {s} {t} a rest = then 0 (ap succeeded (audited_of_arrow s t task 0 a)) rest

Accepted-of_Life : {task : Ident} (ts : List TaskStatus) → Life ts → Accepted task pending ts
Accepted-of_Life _ idle = done
Accepted-of_Life _ withdrawn = Accepted-of_arrow withdraw done
Accepted-of_Life _ started = Accepted-of_arrow start done
Accepted-of_Life _ (ended d) = Accepted-of_arrow start (Accepted-of_arrow (finish d) done)

-- The requests that are accepted from `pending`, one after the other, are exactly the four lives: none,
-- a withdrawal, a start, or a start and one end. So an end state is never left and no state is entered
-- twice.
pub Accepted-Life : (task : Ident) (ts : List TaskStatus) → Accepted task pending ts ↔ Life ts
Accepted-Life task ts = (Life-of_accepted ts, Accepted-of_Life ts)
