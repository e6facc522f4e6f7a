-- ===== src/Workflow.antt =====
-- core/include/core/orchestrator.h and core/src/orchestrator.cpp: `WorkflowEngine`. The scheduler is
-- an interface, whose calls return the events that they send to the engine's callback. The random
-- numbers are a sequence of draws, each below 2^32. The logger is left out.
pub mod Chain
pub mod Submission
pub mod Completion
pub mod Stopping
mod Examples
use stv_renew.Prelude.{
  ℕ, zero, suc, ◌+◌, ◌*◌, ◌/◌, ◌%◌, ◌==◌, Bool, true, false, ◌||◌, String, List, [], ◌∷◌, ◌++◌,
  Option, none, some, str_eq, concat, contains, if◌then◌else◌, ltb,
}
use stv_renew.Prelude.Int.{ℤ, pos, pos_part, leb_ℤ}
use stv_renew.Prelude.Float.{Float}
use stv_renew.Errors.{TaskError, internal_error, Result, ok, err, Status}
use stv_renew.Task.{
  TaskState, canceled, failed, succeeded, state_eq, TaskType, storyboard, image_gen, compose,
  TaskDescriptor, new_task,
}
use stv_renew.Notify.{StateEvent}

-- `IScheduler` as the engine uses it, and `CancelToken::create`.
pub record Api : Type 1 where
  pub State : Type 0
  pub submit : State → TaskDescriptor → Option ℕ → ℕ → State × (List StateEvent × Status)
  pub cancel : State → String → ℕ → State × (List StateEvent × Status)
  pub create_token : State → State × ℕ

pub record WorkflowState : Type 0 where
  pub trace_id : String
  pub task_ids : List String
  pub completed : ℕ
  pub total : ℕ
  pub failed : Bool
  pub output_path : String

-- The calls of the two callbacks.
pub data Note : Type 0 where
  progressed : (trace task : String) → TaskState → Float → Note
  finished : (trace : String) (success : Bool) (path : String) → Note

pub record Engine (S : Type 0) : Type 0 where
  pub scheduler : S
  pub has_progress : Bool
  pub has_completion : Bool
  pub stage_factory : Option (TaskType → Option ℕ)
  pub active : List WorkflowState
  pub notes : List Note
  pub drawn : ℕ

abbrev hex_digit : ℕ → String
hex_digit n =
    if n == 15
    then "f"
    else if n == 14
    then "e"
    else if n == 13
    then "d"
    else if n == 12
    then "c"
    else if n == 11
    then "b"
    else if n == 10
    then "a"
    else if n == 9
    then "9"
    else if n == 8
    then "8"
    else if n == 7
    then "7"
    else if n == 6
    then "6"
    else if n == 5
    then "5"
    else if n == 4
    then "4"
    else if n == 3
    then "3"
    else if n == 2
    then "2"
    else if n == 1
    then "1"
    else "0"

-- A number below 2^32 has at most eight digits.
hex_digits : ℕ → ℕ → String → String
hex_digits zero n text = text
hex_digits (suc fuel) n text =
    let text' = concat (hex_digit (n % 16) ∷ text ∷ []) in
    let more = hex_digits fuel (n / 16) text' in if ltb n 16 then text' else more

-- `ss << std::hex << n`, without leading zeros.
unfoldable pub hex : ℕ → String
unfolding hex_digits
hex n = hex_digits 8 n ""

-- The seven draws from number `n` on. `& 0xFFFF0000 | 0x0000FFFF` and the other masks as arithmetic.
unfoldable pub uuid_at : (ℕ → ℕ) → ℕ → String
unfolding hex
uuid_at draws n = concat (
    hex (draws n / 65536 * 65536 + 65535)
    ∷ "-"
    ∷ hex (draws (n + 1) % 65536)
    ∷ "-4"
    ∷ hex (draws (n + 2) % 4096)
    ∷ "-"
    ∷ hex (draws (n + 3) % 16384 + 32768)
    ∷ "-"
    ∷ hex (draws (n + 4) % 65536)
    ∷ hex (draws (n + 5) % 65536)
    ∷ hex (draws (n + 6) % 65536)
    ∷ [])

abbrev pub output_file : String
output_file = "/tmp/stv_mock/final_output.mp4"

-- A workflow that a change of one of its tasks updates.
unfoldable pub advance : WorkflowState → TaskState → WorkflowState
unfolding state_eq
advance wf st =
    let w =
      if state_eq st succeeded
      then record wf { completed = suc wf.completed }
      else if state_eq st TaskState.failed || state_eq st canceled
      then record wf { failed = true }
      else wf in
    if w.completed == w.total then record w { output_path = output_file } else w

-- The loop of `handle_state_change`: the first workflow that has the task.
unfoldable pub handle_workflows :
    Bool → Bool → StateEvent → List WorkflowState → List WorkflowState × List Note
unfolding advance
handle_workflows tells_progress tells_completion ev [] = ([], [])
handle_workflows tells_progress tells_completion ev (wf ∷ wfs) =
    let (rest, later) = handle_workflows tells_progress tells_completion ev wfs in
    let w = advance wf ev.state in
    if contains wf.task_ids ev.task_id
    then (
      w ∷ wfs,
      (if tells_progress then progressed wf.trace_id ev.task_id ev.state ev.progress ∷ [] else [])
          ++ (if w.completed == w.total
              then if tells_completion then finished w.trace_id true w.output_path ∷ [] else []
              else []),
    )
    else (wf ∷ rest, later)

module _ {S : Type 0} where
  unfoldable pub handle_state_change : Engine S → StateEvent → Engine S
  unfolding handle_workflows
  handle_state_change e ev =
      let (active, notes) = handle_workflows e.has_progress e.has_completion ev e.active in
      record e { active = active; notes = e.notes ++ notes }

  -- Registering a callback, possibly an empty one, and replacing the factory.
  unfoldable pub on_completion : Engine S → Bool → Engine S
  on_completion e cb = record e { has_completion = cb }

  unfoldable pub on_progress : Engine S → Bool → Engine S
  on_progress e cb = record e { has_progress = cb }

  unfoldable pub set_stage_factory : Engine S → Option (TaskType → Option ℕ) → Engine S
  set_stage_factory e factory = record e { stage_factory = factory }

  unfoldable pub handle_all : Engine S → List StateEvent → Engine S
  unfolding handle_state_change
  handle_all e [] = e
  handle_all e (ev ∷ evs) = handle_all (handle_state_change e ev) evs

unfoldable pub find_workflow : String → List WorkflowState → Option WorkflowState
find_workflow trace [] = none
find_workflow trace (wf ∷ wfs) =
    if str_eq wf.trace_id trace then some wf else find_workflow trace wfs

-- The tasks of a workflow.
abbrev pub storyboard_task : (id trace : String) → ℕ → ℕ → TaskDescriptor
storyboard_task id trace token now = record (new_task id trace storyboard now) {
  priority = pos 100;
  cancel_token = some token;
}

abbrev pub image_task : (id trace parent : String) → ℕ → ℕ → TaskDescriptor
image_task id trace parent token now = record (new_task id trace image_gen now) {
  priority = pos 50;
  cancel_token = some token;
  deps = parent ∷ [];
}

abbrev pub compose_task : (id trace : String) → List String → ℕ → ℕ → TaskDescriptor
compose_task id trace images token now = record (new_task id trace compose now) {
  priority = pos 10;
  cancel_token = some token;
  deps = images;
}

abbrev pub first_of : List String → String
first_of [] = ""
first_of (x ∷ _) = x

-- The workflow as it is being made: its ids and their number.
pub record Draft : Type 0 where
  pub task_ids : List String
  pub total : ℕ

abbrev pub extend : Draft → String → Draft
extend d id = record { task_ids = d.task_ids ++ id ∷ []; total = suc d.total }

module _ (api : Api) (draws : ℕ → ℕ) where
  -- The loops over `task_ids` in the rollback and in `cancel_workflow`.
  unfoldable pub cancel_all : Engine api.State → List String → ℕ → Engine api.State
  unfolding handle_all
  cancel_all e [] now = e
  cancel_all e (id ∷ ids) now =
      let (s, (events, r)) = api.cancel e.scheduler id now in
      cancel_all (handle_all (record e { scheduler = s }) events) ids now

  -- The lambda `submit_task`; `ids` are those in the draft, the task's own included.
  unfoldable pub submit_task :
      Engine api.State → TaskDescriptor → Option ℕ → List String → ℕ → Engine api.State × Status
  unfolding handle_all cancel_all
  submit_task e task stage ids now =
      let (s, (events, r)) = api.submit e.scheduler task stage now in
      let e' = handle_all (record e { scheduler = s }) events in
      elim r [ ok _ ↦ (e', ok tt) | err x ↦ (cancel_all e' ids now, err x) ]

  unfoldable pub generate_uuid : Engine api.State → Engine api.State × String
  generate_uuid e = (record e { drawn = e.drawn + 7 }, uuid_at draws e.drawn)

  -- The loop over the scenes.
  unfoldable pub submit_images :
      (TaskType → Option ℕ)
      → String
      → ℕ
      → ℕ
      → (left : ℕ) → Engine api.State
      → Draft
      → List String
      → Engine api.State × Result (Draft × List String) TaskError
  unfolding submit_task generate_uuid
  submit_images factory trace token now zero e d images = (e, ok (d, images))
  submit_images factory trace token now (suc left) e d images =
      let (e1, id) = generate_uuid e in
      let (e2, r) =
        submit_task e1 (image_task id trace (first_of d.task_ids) token now) (factory image_gen)
          (extend d id).task_ids now in
      let rest = submit_images factory trace token now left e2 (extend d id) (images ++ id ∷ []) in
      elim r [ ok _ ↦ rest | err x ↦ (e2, err x) ]

  -- The last task, and the workflow's entry in `active_workflows_`.
  unfoldable pub submit_compose :
      (TaskType → Option ℕ)
      → String
      → ℕ
      → ℕ
      → Engine api.State
      → Draft
      → List String
      → Engine api.State × Result String TaskError
  unfolding submit_task generate_uuid
  submit_compose factory trace token now e d images =
      let (e1, id) = generate_uuid e in
      let d' = extend d id in
      let (e2, r) =
        submit_task e1 (compose_task id trace images token now) (factory compose) d'.task_ids now in
      elim r [
        | err x ↦ (e2, err x)
        | ok _ ↦ (
          record e2 {
            active =
                e2.active
                ++ record {
                  trace_id = trace;
                  task_ids = d'.task_ids;
                  completed = 0;
                  total = d'.total;
                  failed = false;
                  output_path = "";
                }
                  ∷ [];
          },
          ok trace,
        )
      ]

  -- The three kinds of tasks, once the arguments are known to be good.
  unfoldable pub create_tasks :
      (TaskType → Option ℕ)
      → String
      → ℕ
      → ℕ
      → ℕ
      → Engine api.State
      → Engine api.State × Result String TaskError
  unfolding submit_images submit_compose
  create_tasks factory trace token now scenes e =
      let (e1, id) = generate_uuid e in
      let d : Draft = record { task_ids = id ∷ []; total = 1 } in
      let (e2, r) =
        submit_task e1 (storyboard_task id trace token now) (factory storyboard) d.task_ids now in
      elim r [
        | err x ↦ (e2, err x)
        | ok _ ↦
            let (e3, q) = submit_images factory trace token now scenes e2 d [] in
            elim q [
              | err x ↦ (e3, err x)
              | ok (d', images) ↦ submit_compose factory trace token now e3 d' images
            ]
      ]

  unfoldable pub start_workflow :
      Engine api.State → (scene_count : ℤ) → ℕ → Engine api.State × Result String TaskError
  unfolding generate_uuid create_tasks
  start_workflow e scene_count now =
      let (e1, trace) = generate_uuid e in
      elim e.stage_factory [
        | none ↦ (e1, err (internal_error "Stage factory is not configured"))
        | some factory ↦
            let (s, token) = api.create_token e1.scheduler in
            let made =
              create_tasks factory trace token now (pos_part scene_count)
                (record e1 { scheduler = s }) in
            if leb_ℤ scene_count (pos 0)
            then (e1, err (internal_error "scene_count must be > 0"))
            else made
      ]

  unfoldable pub cancel_workflow : Engine api.State → String → ℕ → Engine api.State × Status
  unfolding find_workflow cancel_all
  cancel_workflow e trace now = elim (find_workflow trace e.active) [
    | none ↦ (e, err (internal_error (concat ("Workflow not found: " ∷ trace ∷ []))))
    | some wf ↦ (cancel_all e wf.task_ids now, ok tt)
  ]

-- The constructor; its registration with the scheduler is what the events of `Api` are.
abbrev pub new_engine : {S : Type 0} → S → (TaskType → Option ℕ) → Engine S
new_engine s create_mock_stage = record {
  scheduler = s;
  has_progress = false;
  has_completion = false;
  stage_factory = some create_mock_stage;
  active = [];
  notes = [];
  drawn = 0;
}
