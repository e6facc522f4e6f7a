-- ===== src/Task/Starting.antt =====
-- Transitions seen from the dependencies: which tasks were ever made ready.
use mathlib.Core.Path.{subst}
use stv_renew.Task.Transition.{transition_to-Allowed}
use stv_renew.Prelude.{
  ◌∙◌, sym, ap, ◌≡◌, refl, ◌⊎◌, Bool, true, false, ◌||◌, ℕ, arith, Option, none, some,
}
use stv_renew.Prelude.Float.{Float}
use stv_renew.Errors.{TaskError}
use stv_renew.Task.{
  TaskState, queued, ready, running, paused, canceled, failed, succeeded, TaskDescriptor,
  transition_to, set_progress,
}
use stv_renew.Task.Lifecycle.{
  IsValid, IsFinal, resume_target, transition_to-IsValid, transition_to-final,
}

abbrev started_state : TaskState → Bool
started_state ready = true
started_state running = true
started_state failed = true
started_state succeeded = true
started_state _ = false

abbrev started_from : Option TaskState → Bool
started_from (some s) = started_state s
started_from none = false

-- The task was made ready, and was not canceled or retried since.
abbrev pub started : TaskDescriptor → Bool
started t = started_state t.state || started_from t.paused_from

-- A task and what an operation other than a promotion makes of it.
pub record Follows (t t' : TaskDescriptor) : Type 0 where
  pub same_id : t'.task_id ≡ t.task_id
  pub same_deps : t'.deps ≡ t.deps
  pub valid : IsValid t → IsValid t'
  pub starts : IsValid t → started t' ≡ true → started t ≡ true
  pub final : IsFinal t.state → t'.state ≡ t.state

pub Follows-trans : {t u v : TaskDescriptor} → Follows t u → Follows u v → Follows t v
Follows-trans {t} {u} {v} f g = record {
  same_id = g.same_id ∙ f.same_id;
  same_deps = g.same_deps ∙ f.same_deps;
  valid = λ a. g.valid (f.valid a);
  starts = λ a h. f.starts a (g.starts (f.valid a) h);
  final = λ a. g.final (subst IsFinal (sym (f.final a)) a) ∙ f.final a;
}

-- The transitions that the operations request. Only a ready task is set running.
abbrev pub IsSafeTarget : TaskDescriptor → TaskState → Type 0
IsSafeTarget t new =
    (new ≡ paused)
    ⊎ ((new ≡ canceled)
        ⊎ ((new ≡ failed)
            ⊎ ((new ≡ succeeded)
                ⊎ ((new ≡ resume_target t) ⊎ ((t.state ≡ ready) × (new ≡ running))))))

starts_from :
    (t : TaskDescriptor) (old new : TaskState) (now : ℕ)
    → t.state ≡ old
    → IsSafeTarget t new
    → IsValid t
    → started (transition_to t new now).0 ≡ true
    → started t ≡ true
unfolding transition_to resume_target
starts_from t queued new now e h v = ground arith
starts_from t _ new now e h v = ground arith

pub transition_to-Follows :
    (t : TaskDescriptor) (new : TaskState) (now : ℕ)
    → IsSafeTarget t new
    → Follows t (transition_to t new now).0
transition_to-Follows t new now h = record {
  same_id = (transition_to-Allowed t new now).3;
  same_deps = (transition_to-Allowed t new now).4;
  valid = transition_to-IsValid t new now;
  starts = starts_from t t.state new now refl h;
  final = λ f. ap (λ (x : TaskDescriptor). x.state) (transition_to-final t new now f);
}

pub set_progress-Follows : (t : TaskDescriptor) (p : Float) → Follows t (set_progress t p)
unfolding set_progress
set_progress-Follows t p = record {
  same_id = refl;
  same_deps = refl;
  valid = λ v. ground arith;
  starts = λ _ h. h;
  final = λ _. refl;
}

pub error-Follows : (t : TaskDescriptor) (e : TaskError) → Follows t (record t { error = some e })
error-Follows t e = record {
  same_id = refl;
  same_deps = refl;
  valid = λ v. ground arith;
  starts = λ _ h. h;
  final = λ _. refl;
}
