-- ===== src/Task/Active.antt =====
-- Transitions seen from a worker: which tasks a worker may still hold.
use stv_renew.Prelude.{
  ◌∙◌, ap, ◌≡◌, refl, ◌⊎◌, Bool, true, false, ◌||◌, ◌&&◌, not, ℕ, arith, Option, some,
}
use stv_renew.Prelude.Float.{Float}
use stv_renew.Errors.{TaskError}
use stv_renew.Task.{
  TaskState, queued, ready, running, paused, canceled, failed, succeeded, TaskDescriptor,
  is_terminal, state_eq, transition_to, set_progress,
}
use stv_renew.Task.Lifecycle.{resume_target}
use stv_renew.Task.Transition.{transition_to-Allowed}

abbrev from_running : Option TaskState → Bool
from_running (some running) = true
from_running _ = false

-- The task runs, or was paused while it ran, or has ended.
abbrev pub active : TaskDescriptor → Bool
active t =
    state_eq t.state running
    || (state_eq t.state paused && from_running t.paused_from)
    || is_terminal t.state

abbrev from_queued : Option TaskState → Bool
from_queued (some queued) = true
from_queued _ = false

-- The task is queued, or was paused from there.
abbrev pub waiting : TaskDescriptor → Bool
waiting t = state_eq t.state queued || (state_eq t.state paused && from_queued t.paused_from)

-- The task was made ready, and was not canceled since.
abbrev pub begun : TaskDescriptor → Bool
begun t = not (waiting t) && not (state_eq t.state canceled)

-- A task and what an operation makes of it, other than the start of its stage and a wake-up.
pub record Moves (t t' : TaskDescriptor) : Type 0 where
  pub same_id : t'.task_id ≡ t.task_id
  pub same_demand : t'.resource_demand ≡ t.resource_demand
  pub same_deps : t'.deps ≡ t.deps
  pub waits_back : waiting t' ≡ true → waiting t ≡ true
  pub begun_back : begun t' ≡ true → begun t ≡ true
  pub stays_active : active t ≡ true → active t' ≡ true
  pub final : is_terminal t.state ≡ true → t'.state ≡ t.state

pub Moves-trans : {t u v : TaskDescriptor} → Moves t u → Moves u v → Moves t v
Moves-trans {t} {u} {v} f g = record {
  same_id = g.same_id ∙ f.same_id;
  same_demand = g.same_demand ∙ f.same_demand;
  same_deps = g.same_deps ∙ f.same_deps;
  waits_back = λ a. f.waits_back (g.waits_back a);
  begun_back = λ a. f.begun_back (g.begun_back a);
  stays_active = λ a. g.stays_active (f.stays_active a);
  final = λ a. g.final (ap is_terminal (f.final a) ∙ a) ∙ f.final a;
}

pub Moves-refl : {t : TaskDescriptor} → Moves t t
Moves-refl = record {
  same_id = refl;
  same_demand = refl;
  same_deps = refl;
  waits_back = λ a. a;
  begun_back = λ a. a;
  stays_active = λ a. a;
  final = λ _. refl;
}

-- The transitions that the scheduler requests: back to waiting only for a task that is not active.
abbrev pub KeepsActive : TaskDescriptor → TaskState → Type 0
KeepsActive t new =
    (new ≡ paused)
    ⊎ ((new ≡ canceled)
        ⊎ ((new ≡ failed) ⊎ ((new ≡ succeeded) ⊎ ((t.state ≡ paused) × (new ≡ resume_target t)))))

active_after :
    (t : TaskDescriptor) (old new : TaskState) (now : ℕ)
    → t.state ≡ old
    → KeepsActive t new
    → active t ≡ true
    → active (transition_to t new now).0 ≡ true
unfolding transition_to resume_target state_eq is_terminal
active_after t queued new now e h a = ground arith
active_after t _ new now e h a = ground arith

waiting_after :
    (t : TaskDescriptor) (old new : TaskState) (now : ℕ)
    → t.state ≡ old
    → KeepsActive t new
    → waiting (transition_to t new now).0 ≡ true
    → waiting t ≡ true
unfolding transition_to resume_target state_eq is_terminal
waiting_after t queued new now e h a = ground arith
waiting_after t _ new now e h a = ground arith

begun_after :
    (t : TaskDescriptor) (old new : TaskState) (now : ℕ)
    → t.state ≡ old
    → KeepsActive t new
    → begun (transition_to t new now).0 ≡ true
    → begun t ≡ true
unfolding transition_to resume_target state_eq is_terminal
begun_after t queued new now e h a = ground arith
begun_after t _ new now e h a = ground arith

final_after :
    (t : TaskDescriptor) (old new : TaskState) (now : ℕ)
    → t.state ≡ old
    → KeepsActive t new
    → is_terminal t.state ≡ true
    → (transition_to t new now).0.state ≡ t.state
unfolding transition_to resume_target state_eq is_terminal
final_after t queued new now e h a = ground arith
final_after t _ new now e h a = ground arith

pub transition_to-Moves :
    (t : TaskDescriptor) (new : TaskState) (now : ℕ)
    → KeepsActive t new
    → Moves t (transition_to t new now).0
transition_to-Moves t new now h = record {
  same_id = (transition_to-Allowed t new now).3;
  same_demand = (transition_to-Allowed t new now).6;
  same_deps = (transition_to-Allowed t new now).4;
  waits_back = waiting_after t t.state new now refl h;
  begun_back = begun_after t t.state new now refl h;
  stays_active = active_after t t.state new now refl h;
  final = final_after t t.state new now refl h;
}

pub set_progress-Moves : (t : TaskDescriptor) (p : Float) → Moves t (set_progress t p)
unfolding set_progress
set_progress-Moves t p = record {
  same_id = refl;
  same_demand = refl;
  same_deps = refl;
  waits_back = λ a. a;
  begun_back = λ a. a;
  stays_active = λ a. a;
  final = λ _. refl;
}

pub error-Moves : (t : TaskDescriptor) (e : TaskError) → Moves t (record t { error = some e })
error-Moves t e = record {
  same_id = refl;
  same_demand = refl;
  same_deps = refl;
  waits_back = λ a. a;
  begun_back = λ a. a;
  stays_active = λ a. a;
  final = λ _. refl;
}

-- A task that waits, or that is paused from waiting, is not active.
pub inactive : (t : TaskDescriptor) → (t.state ≡ queued) ⊎ (t.state ≡ ready) → active t ≡ false
unfolding state_eq is_terminal
inactive t h = ground arith

pub running-active : (t : TaskDescriptor) → t.state ≡ running → active t ≡ true
unfolding state_eq is_terminal
running-active t h = ground arith
