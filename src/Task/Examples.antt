-- ===== src/Task/Examples.antt =====
-- Inputs for the theorems about tasks, and tests.
use stv_renew.Prelude.{◌≡◌, refl, ◌↔◌, ◌≢◌, inr, true, false, [], ◌∷◌, none}
use stv_renew.Prelude.Float.{nan, infinity, float_zero, float_one, float_lt}
use stv_renew.Errors.{ok, err, is_ok, internal_error}
use stv_renew.Task.{
  queued, ready, running, paused, storyboard, TaskDescriptor, new_task, transition_to, set_progress,
  state_to_string,
}
use stv_renew.Task.Transition.{Allowed, transition_to-Allowed}
use stv_renew.Task.Lifecycle.{
  IsValid, transitions, transitions-IsValid, pause_resume, resume_target,
}
use stv_renew.Task.Progress.{set_progress-InRange}

abbrev sample : TaskDescriptor
sample = new_task "t1" "w1" storyboard 5

transition_to-Allowed_example :
    ((is_ok (transition_to sample ready 6).1 ≡ true) ↔ Allowed queued ready)
    × (is_ok (transition_to sample ready 6).1 ≡ true
        → (transition_to sample ready 6).0.state ≡ ready)
    × (is_ok (transition_to sample ready 6).1 ≡ false → (transition_to sample ready 6).0 ≡ sample)
    × ((transition_to sample ready 6).0.task_id ≡ "t1")
    × ((transition_to sample ready 6).0.deps ≡ [])
    × ((transition_to sample ready 6).0.priority ≡ sample.priority)
    × ((transition_to sample ready 6).0.resource_demand ≡ sample.resource_demand)
    × ((transition_to sample ready 6).0.cancel_token ≡ none)
transition_to-Allowed_example = transition_to-Allowed sample ready 6

transitions-IsValid_example :
    IsValid (transitions sample ((ready, 6) ∷ (running, 7) ∷ (paused, 8) ∷ (ready, 9) ∷ []))
transitions-IsValid_example =
    transitions-IsValid "t1" "w1" storyboard 5
      ((ready, 6) ∷ (running, 7) ∷ (paused, 8) ∷ (ready, 9) ∷ [])

abbrev at_work : TaskDescriptor
at_work = transitions sample ((ready, 6) ∷ (running, 7) ∷ [])

at_work_running : at_work.state ≡ running
unfolding transitions transition_to
at_work_running = refl

pause_resume_example :
    ((transition_to at_work paused 8).0.state ≡ paused)
    × (transition_to
          (transition_to at_work paused 8).0
          (resume_target (transition_to at_work paused 8).0)
          9
        ≡ (at_work, ok tt))
pause_resume_example =
    pause_resume at_work 8 9 (inr (inr at_work_running))
      (transitions-IsValid "t1" "w1" storyboard 5 ((ready, 6) ∷ (running, 7) ∷ []))

set_progress-InRange_example :
    (infinity ≢ nan
      → ((set_progress sample infinity).progress ≢ nan)
        × (float_lt (set_progress sample infinity).progress float_zero ≡ false)
        × (float_lt float_one (set_progress sample infinity).progress ≡ false))
    × (float_lt infinity float_zero ≡ false
        → float_lt float_one infinity ≡ false
        → (set_progress sample infinity).progress ≡ infinity)
set_progress-InRange_example = set_progress-InRange sample infinity

nan_is_stored : (set_progress sample nan).progress ≡ nan
unfolding set_progress float_lt
nan_is_stored = refl

illegal_message :
    (transition_to sample running 6).1
    ≡ err (internal_error "Illegal state transition: Queued -> Running (task_id=t1)")
unfolding transition_to state_to_string
illegal_message = refl
