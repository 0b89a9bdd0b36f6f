-- ===== src/Scheduler/Completion/Final.antt =====
-- When an execution is finished, and with which status.
use task_orchestrator_engine.Prelude.{
  ◌≡◌, refl, sym, ap, ◌∙◌, ◌⊎◌, inl, inr, ◌≢◌, Bool, true, false, some, List, [], ◌∷◌, keep, map,
  every, any_of, ◌&&◌, ◌==◌, if◌then◌else◌, arith, Bool-cases,
}
use task_orchestrator_engine.Types.{
  Ident, Instant, Execution, ExecutionStatus, ExecutionStatus.completed, ExecutionStatus.failed,
  TaskState, TaskStatus,
}
use task_orchestrator_engine.StateMachine.{is_terminal_state}
use task_orchestrator_engine.Scheduler.Completion.{
  is_failed, statuses_of, all_terminal, final_status, in_progress, finish_execution, complete_by,
  check_execution_completion,
}

-- The task states of an execution.
abbrev pub own : Ident → List TaskState → List TaskState
own id tasks = keep (λ t. t.execution_id == id) tasks

abbrev pub ended : TaskState → Bool
ended t = is_terminal_state t.status

abbrev pub has_failed : TaskState → Bool
has_failed t = is_failed t.status

-- A running execution gets its last status; any other row stays as it is.
abbrev pub close_running : ExecutionStatus → Instant → Ident → Execution → Execution
close_running status now id e =
    if e.id == id && in_progress e.status
    then record e { status = status; completed_at = some now }
    else e

statuses_of_lem :
    (id : Ident) (tasks : List TaskState)
    → statuses_of id tasks ≡ map (λ t. t.status) (own id tasks)
unfolding statuses_of
statuses_of_lem id [] = refl
statuses_of_lem id (t ∷ ts) = ground (arith, statuses_of_lem id ts)

all_terminal_lem : (ts : List TaskState) → all_terminal (map (λ t. t.status) ts) ≡ every ended ts
unfolding all_terminal
all_terminal_lem [] = refl
all_terminal_lem (t ∷ ts) = ground (arith, all_terminal_lem ts)

final_status_lem :
    (ts : List TaskState)
    → final_status (map (λ t. t.status) ts) ≡ (if any_of has_failed ts then failed else completed)
unfolding final_status
final_status_lem [] = refl
final_status_lem (t ∷ ts) = ground (arith, final_status_lem ts)

finish_execution_lem :
    (status : ExecutionStatus) (now : Instant) (id : Ident) (es : List Execution)
    → finish_execution status now id es ≡ map (close_running status now id) es
unfolding finish_execution
finish_execution_lem status now id [] = refl
finish_execution_lem status now id (e ∷ es) =
    ap (λ l. close_running status now id e ∷ l) (finish_execution_lem status now id es)

complete_by_lem :
    (ts : List TaskState) (now : Instant) (id : Ident) (es : List Execution)
    → ((complete_by (map (λ t. t.status) ts) now id es ≡ es)
        × ((ts ≡ []) ⊎ (every ended ts ≡ false)))
      ⊎ ((ts ≢ [])
          × (every ended ts ≡ true)
          × (complete_by (map (λ t. t.status) ts) now id es
              ≡ map (close_running (if any_of has_failed ts then failed else completed) now id) es))
unfolding complete_by
complete_by_lem [] now id es = inl (refl, inl refl)
complete_by_lem (t ∷ ts) now id es =
    elim (Bool-cases (all_terminal (map (λ t. t.status) (t ∷ ts)))) [
      | inl h ↦ inr (
        (λ e. cc),
        sym (all_terminal_lem (t ∷ ts)) ∙ h,
        rw (h, finish_execution_lem, final_status_lem (t ∷ ts)) refl,
      )
      | inr h ↦ inl (rw h refl, inr (sym (all_terminal_lem (t ∷ ts)) ∙ h))
    ]

-- The check finishes an execution exactly if it has tasks and each of them is in an end state: it
-- is failed if one of them is, else completed, and only a running execution changes. Otherwise
-- the table stays as it is, so a pending or a skipped task keeps its execution running.
pub check_execution_completion-decides :
    (now : Instant) (id : Ident) (tasks : List TaskState) (es : List Execution)
    → ((check_execution_completion now id tasks es ≡ es)
        × ((own id tasks ≡ []) ⊎ (every ended (own id tasks) ≡ false)))
      ⊎ ((own id tasks ≢ [])
          × (every ended (own id tasks) ≡ true)
          × (check_execution_completion now id tasks es
              ≡ map
                  (close_running
                    (if any_of has_failed (own id tasks) then failed else completed)
                    now
                    id)
                  es))
unfolding check_execution_completion
check_execution_completion-decides now id tasks es =
    rw (statuses_of_lem id tasks) (complete_by_lem (own id tasks) now id es)

abbrev pub skipped_status : TaskStatus → Bool
skipped_status TaskStatus.skipped = true
skipped_status _ = false

abbrev pub is_skipped : TaskState → Bool
is_skipped t = skipped_status t.status

skipped_live : (s : TaskStatus) → (skipped_status s && is_terminal_state s) ≡ false
unfolding is_terminal_state
skipped_live TaskStatus.pending = refl
skipped_live TaskStatus.running = refl
skipped_live TaskStatus.completed = refl
skipped_live TaskStatus.failed = refl
skipped_live TaskStatus.cancelled = refl
skipped_live TaskStatus.timed_out = refl
skipped_live TaskStatus.skipped = refl

skipped_open : (ts : List TaskState) → any_of is_skipped ts ≡ true → every ended ts ≡ false
skipped_open [] h = sym h
skipped_open (t ∷ ts) h = ground (arith, skipped_live t.status, skipped_open ts)

-- An execution with a skipped task is never finished.
pub skipped_never_ends :
    (now : Instant) (id : Ident) (tasks : List TaskState) (es : List Execution)
    → any_of is_skipped (own id tasks) ≡ true
    → check_execution_completion now id tasks es ≡ es
skipped_never_ends now id tasks es h = elim (check_execution_completion-decides now id tasks es) [
  | inl (e, _) ↦ e
  | inr (some_task, k, _) ↦ let open_task = skipped_open (own id tasks) h in cc
]
