-- ===== src/Task/Transition.antt =====
-- Which transitions `transition_to` accepts, against the table in task.h, and what it leaves alone.
use stv_renew.Prelude.{◌≡◌, refl, ◌↔◌, inl, inr, true, false, ℕ, Bool-cases}
use stv_renew.Errors.{is_ok}
use stv_renew.Task.{
  TaskState, queued, ready, running, paused, canceled, failed, succeeded, TaskDescriptor, legal,
  transition_to,
}

-- The table of legal transitions in the comment above `transition_to`.
pub data Allowed : TaskState → TaskState → Type 0 where
  queued_ready : Allowed queued ready
  queued_paused : Allowed queued paused
  queued_canceled : Allowed queued canceled
  ready_running : Allowed ready running
  ready_paused : Allowed ready paused
  ready_canceled : Allowed ready canceled
  running_paused : Allowed running paused
  running_succeeded : Allowed running succeeded
  running_failed : Allowed running failed
  running_canceled : Allowed running canceled
  paused_queued : Allowed paused queued
  paused_ready : Allowed paused ready
  paused_running : Allowed paused running
  paused_canceled : Allowed paused canceled
  retry : Allowed failed queued

Allowed-legal : {a b : TaskState} → Allowed a b → legal a b ≡ true
unfolding legal
Allowed-legal queued_ready = refl
Allowed-legal queued_paused = refl
Allowed-legal queued_canceled = refl
Allowed-legal ready_running = refl
Allowed-legal ready_paused = refl
Allowed-legal ready_canceled = refl
Allowed-legal running_paused = refl
Allowed-legal running_succeeded = refl
Allowed-legal running_failed = refl
Allowed-legal running_canceled = refl
Allowed-legal paused_queued = refl
Allowed-legal paused_ready = refl
Allowed-legal paused_running = refl
Allowed-legal paused_canceled = refl
Allowed-legal retry = refl

legal-Allowed : (a b : TaskState) → legal a b ≡ true → Allowed a b
unfolding legal
legal-Allowed queued ready h = queued_ready
legal-Allowed queued paused h = queued_paused
legal-Allowed queued canceled h = queued_canceled
legal-Allowed ready running h = ready_running
legal-Allowed ready paused h = ready_paused
legal-Allowed ready canceled h = ready_canceled
legal-Allowed running paused h = running_paused
legal-Allowed running succeeded h = running_succeeded
legal-Allowed running failed h = running_failed
legal-Allowed running canceled h = running_canceled
legal-Allowed paused queued h = paused_queued
legal-Allowed paused ready h = paused_ready
legal-Allowed paused running h = paused_running
legal-Allowed paused canceled h = paused_canceled
legal-Allowed failed queued h = retry
legal-Allowed _ _ h = cc

-- `transition_to` succeeds exactly on the fifteen transitions of the table; when it succeeds the
-- task is in the requested state, and when it fails the task is unchanged. Either way the task's
-- identity, dependencies, priority, demand and token are as before.
pub transition_to-Allowed :
    (t : TaskDescriptor) (new : TaskState) (now : ℕ)
    → let (t', r) = transition_to t new now in
      ((is_ok r ≡ true) ↔ Allowed t.state new)
      × (is_ok r ≡ true → t'.state ≡ new)
      × (is_ok r ≡ false → t' ≡ t)
      × (t'.task_id ≡ t.task_id)
      × (t'.deps ≡ t.deps)
      × (t'.priority ≡ t.priority)
      × (t'.resource_demand ≡ t.resource_demand)
      × (t'.cancel_token ≡ t.cancel_token)
unfolding transition_to
transition_to-Allowed t new now = elim (Bool-cases (legal t.state new)) [
  | inl e ↦
      rw (e, transition_to)
        (
          (λ _. legal-Allowed t.state new e, λ _. refl),
          λ _. refl,
          λ h. cc,
          refl,
          refl,
          refl,
          refl,
          refl,
        )
  | inr e ↦
      rw (e, transition_to)
        ((λ h. cc, λ a. cc (Allowed-legal a)), λ h. cc, λ _. refl, refl, refl, refl, refl, refl)
]
