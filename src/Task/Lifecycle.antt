-- ===== src/Task/Lifecycle.antt =====
-- What holds of a task between two transitions, and where a task can get.
use stv_renew.Prelude.{◌≡◌, refl, ◌⊎◌, true, ℕ, ◌≢◌, arith, none, some, List, [], ◌∷◌}
use stv_renew.Errors.{ok}
use stv_renew.Task.{
  TaskState, TaskType, queued, ready, running, paused, canceled, failed, succeeded, is_terminal,
  TaskDescriptor, new_task, has_value, transition_to,
}
use stv_renew.Prelude.{String}

-- A paused task remembers an active state to go back to, and no other task remembers one; a task has
-- its finishing time exactly when it is terminal; a task that runs, or that ended by itself, has a
-- starting time.
pub record IsValid (t : TaskDescriptor) : Type 0 where
  pub paused_remembers :
      t.state ≡ paused
      → (t.paused_from ≡ some queued)
        ⊎ ((t.paused_from ≡ some ready) ⊎ (t.paused_from ≡ some running))
  pub only_paused : t.state ≢ paused → t.paused_from ≡ none
  pub finished : has_value t.finished_at ≡ is_terminal t.state
  pub started :
      (t.state ≡ running) ⊎ ((t.state ≡ failed) ⊎ (t.state ≡ succeeded))
      → has_value t.started_at ≡ true

-- The states that a list of requested transitions leads to; refused requests change nothing.
unfoldable pub transitions : TaskDescriptor → List (TaskState × ℕ) → TaskDescriptor
transitions t [] = t
transitions t ((new, now) ∷ rest) = transitions (transition_to t new now).0 rest

new_task-IsValid :
    (id trace : String) (ty : TaskType) (now : ℕ) → IsValid (new_task id trace ty now)
unfolding is_terminal
new_task-IsValid id trace ty now = ground arith

step-IsValid :
    (t : TaskDescriptor) (old new : TaskState) (now : ℕ)
    → t.state ≡ old
    → IsValid t
    → IsValid (transition_to t new now).0
unfolding transition_to
step-IsValid t queued new now e v = ground arith
step-IsValid t _ new now e v = ground arith

pub transition_to-IsValid :
    (t : TaskDescriptor) (new : TaskState) (now : ℕ)
    → IsValid t
    → IsValid (transition_to t new now).0
transition_to-IsValid t new now v = step-IsValid t t.state new now refl v

transitions-keep :
    (t : TaskDescriptor) (steps : List (TaskState × ℕ)) → IsValid t → IsValid (transitions t steps)
unfolding transitions
transitions-keep t [] v = v
transitions-keep t ((new, now) ∷ rest) v =
    transitions-keep (transition_to t new now).0 rest (transition_to-IsValid t new now v)

-- Whatever transitions are requested of a new task, in any order and at any times, it stays valid: it
-- remembers the active state that it was paused from exactly while it is paused, has a finishing time
-- exactly when it is terminal, and has a starting time while it runs and once it failed or succeeded.
pub transitions-IsValid :
    (id trace : String) (ty : TaskType) (created : ℕ) (steps : List (TaskState × ℕ))
    → IsValid (transitions (new_task id trace ty created) steps)
transitions-IsValid id trace ty created steps =
    transitions-keep (new_task id trace ty created) steps (new_task-IsValid id trace ty created)

abbrev pub IsFinal : TaskState → Type 0
IsFinal s = (s ≡ canceled) ⊎ (s ≡ succeeded)

-- One request never moves a task that was canceled or succeeded.
pub transition_to-final :
    (t : TaskDescriptor) (new : TaskState) (now : ℕ)
    → IsFinal t.state
    → (transition_to t new now).0 ≡ t
unfolding transition_to
transition_to-final t new now h = ground arith

-- A task that was canceled or has succeeded is the same, in every field, after any further requests.
pub transitions_final :
    (t : TaskDescriptor) (steps : List (TaskState × ℕ)) → IsFinal t.state → transitions t steps ≡ t
unfolding transitions
transitions_final t [] h = refl
transitions_final t ((new, now) ∷ rest) h =
    rw (transition_to-final t new now h) (transitions_final t rest h)

-- `paused_from.value_or(TaskState::Running)`, the target of both schedulers' `resume`.
unfoldable pub resume_target : TaskDescriptor → TaskState
resume_target t = elim t.paused_from [ none ↦ running | some s ↦ s ]

abbrev pub IsActive : TaskState → Type 0
IsActive s = (s ≡ queued) ⊎ ((s ≡ ready) ⊎ (s ≡ running))

pause_resume_from :
    (t : TaskDescriptor) (old : TaskState) (now later : ℕ)
    → t.state ≡ old
    → IsActive old
    → IsValid t
    → let p = (transition_to t paused now).0 in
      (p.state ≡ paused) × (transition_to p (resume_target p) later ≡ (t, ok tt))
unfolding transition_to resume_target
pause_resume_from t queued now later e a v = ground arith
pause_resume_from t _ now later e a v = ground arith

-- Pausing a valid task that is queued, ready or running and then resuming it succeeds and gives back
-- the task that was paused, in every field.
pub pause_resume :
    (t : TaskDescriptor) (now later : ℕ)
    → IsActive t.state
    → IsValid t
    → let p = (transition_to t paused now).0 in
      (p.state ≡ paused) × (transition_to p (resume_target p) later ≡ (t, ok tt))
pause_resume t now later a v = pause_resume_from t t.state now later refl a v

-- A request to cancel leaves every task in a terminal state.
pub to_canceled-terminal :
    (t : TaskDescriptor) (st : TaskState) (now : ℕ)
    → t.state ≡ st
    → is_terminal (transition_to t canceled now).0.state ≡ true
unfolding transition_to is_terminal
to_canceled-terminal t st now h = ground arith
