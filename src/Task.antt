-- ===== src/Task.antt =====
-- core/include/core/task.h and core/src/task.cpp: a task and its state machine. `Clock::now()` is an
-- argument of `transition_to`; time points are numbers. A shared pointer to a token is the token's
-- address (module Cancel).
pub mod Transition
pub mod Lifecycle
pub mod Progress
pub mod Active
pub mod Starting
mod Examples
use stv_renew.Prelude.{
  ℕ, Bool, true, false, not, ◌&&◌, ◌||◌, String, List, [], ◌∷◌, Option, none, some, concat,
  if◌then◌else◌,
}
use stv_renew.Prelude.Int.{ℤ, pos}
use stv_renew.Prelude.Float.{Float, float_zero, float_one, clamp}
use stv_renew.Errors.{TaskError, internal_error, ok, err, Status}

pub data TaskState : Type 0 where
  queued ready running paused canceled failed succeeded : TaskState

unfoldable pub state_to_string : TaskState → String
state_to_string queued = "Queued"
state_to_string ready = "Ready"
state_to_string running = "Running"
state_to_string paused = "Paused"
state_to_string canceled = "Canceled"
state_to_string failed = "Failed"
state_to_string succeeded = "Succeeded"

unfoldable pub is_terminal : TaskState → Bool
is_terminal canceled = true
is_terminal failed = true
is_terminal succeeded = true
is_terminal _ = false

-- `==` on the enumeration.
unfoldable pub state_eq : TaskState → TaskState → Bool
state_eq queued queued = true
state_eq ready ready = true
state_eq running running = true
state_eq paused paused = true
state_eq canceled canceled = true
state_eq failed failed = true
state_eq succeeded succeeded = true
state_eq _ _ = false

pub data TaskType : Type 0 where
  storyboard image_gen video_clip tts compose : TaskType

unfoldable pub type_to_string : TaskType → String
type_to_string storyboard = "Storyboard"
type_to_string image_gen = "ImageGen"
type_to_string video_clip = "VideoClip"
type_to_string tts = "TTS"
type_to_string compose = "Compose"

pub record ResourceDemand : Type 0 where
  pub cpu_slots : ℤ
  pub ram_mb : ℤ
  pub vram_mb : ℤ

abbrev pub default_demand : ResourceDemand
default_demand = record { cpu_slots = pos 1; ram_mb = pos 256; vram_mb = pos 0 }

pub record TaskDescriptor : Type 0 where
  pub task_id : String
  pub trace_id : String
  pub type : TaskType
  pub state : TaskState
  pub priority : ℤ
  pub progress : Float
  pub resource_demand : ResourceDemand
  pub deps : List String
  pub created_at : ℕ
  pub started_at : Option ℕ
  pub finished_at : Option ℕ
  pub error : Option TaskError
  pub cancel_token : Option ℕ
  pub paused_from : Option TaskState

-- A descriptor with its members' default values, constructed at `now`.
abbrev pub new_task : String → String → TaskType → ℕ → TaskDescriptor
new_task id trace ty now = record {
  task_id = id;
  trace_id = trace;
  type = ty;
  state = queued;
  priority = pos 0;
  progress = float_zero;
  resource_demand = default_demand;
  deps = [];
  created_at = now;
  started_at = none;
  finished_at = none;
  error = none;
  cancel_token = none;
  paused_from = none;
}

abbrev pub has_value {ℓ} : {A : Type ℓ} → Option A → Bool
has_value none = false
has_value (some _) = true

-- The `switch` of `transition_to`.
unfoldable pub legal : TaskState → TaskState → Bool
unfolding state_eq
legal queued new = state_eq new ready || state_eq new paused || state_eq new canceled
legal ready new = state_eq new running || state_eq new paused || state_eq new canceled
legal running new =
    state_eq new paused || state_eq new succeeded || state_eq new failed || state_eq new canceled
legal paused new =
    state_eq new queued || state_eq new ready || state_eq new running || state_eq new canceled
legal failed new = state_eq new queued
legal canceled new = false
legal succeeded new = false

-- The assignments after the check, field by field: the retry block at the end resets what the
-- blocks before it have written.
apply_transition : TaskDescriptor → TaskState → ℕ → TaskDescriptor
unfolding state_eq is_terminal
apply_transition t new now =
    let retry = state_eq t.state failed && state_eq new queued in
    record t {
      state = new;
      progress = if retry then float_zero else t.progress;
      started_at =
          if retry
          then none
          else if state_eq new running && not (has_value t.started_at)
          then some now
          else t.started_at;
      finished_at = if retry then none else if is_terminal new then some now else t.finished_at;
      error = if retry then none else t.error;
      paused_from =
          if retry
          then none
          else if state_eq new paused
          then some t.state
          else if state_eq t.state paused
          then none
          else t.paused_from;
    }

illegal_transition : TaskDescriptor → TaskState → TaskError
illegal_transition t new = internal_error (
    concat (
      "Illegal state transition: "
      ∷ state_to_string t.state
      ∷ " -> "
      ∷ state_to_string new
      ∷ " (task_id="
      ∷ t.task_id
      ∷ ")"
      ∷ []))

unfoldable pub transition_to : TaskDescriptor → TaskState → ℕ → TaskDescriptor × Status
unfolding legal apply_transition illegal_transition
transition_to t new now =
    if legal t.state new
    then (apply_transition t new now, ok tt)
    else (t, err (illegal_transition t new))

unfoldable pub set_progress : TaskDescriptor → Float → TaskDescriptor
unfolding clamp
set_progress t p = record t { progress = clamp p float_zero float_one }
