-- ===== src/Presenter.antt =====
-- app/include/app/presenter.h and app/src/presenter.cpp: `Presenter`, the bridge between the user
-- interface and the workflow engine. The engine's callbacks post to the event queue of Qt: the notes
-- of the engine that are not delivered yet are that queue. The texts that Qt formats are parameters,
-- and so are the scheduler's `tick` and `has_pending_tasks`.
pub mod Busy
pub mod Members
pub mod Starts
mod Examples
use stv_renew.Prelude.{
  ℕ, Bool, true, false, not, ◌||◌, String, List, [], ◌∷◌, ◌++◌, Option, concat, str_eq, is_empty,
  if◌then◌else◌,
}
use stv_renew.Prelude.Int.{ℤ}
use stv_renew.Prelude.Float.{Float, float_zero, float_one, float_lt}
use stv_renew.Prelude.Numbers.{abs_diff, float_ratio, int_to_string}
use stv_renew.Errors.{TaskError, ok, err}
use stv_renew.Task.{TaskState, TaskType}
use stv_renew.Notify.{StateEvent}
use stv_renew.Workflow.{
  Api, Engine, Note, progressed, finished, start_workflow, cancel_workflow, handle_all,
  set_stage_factory, new_engine, on_progress, on_completion,
}

pub data Signal : Type 0 where
  busy_changed progress_changed status_text_changed output_path_changed log_text_changed : Signal
  generation_completed : (success : Bool) (path : String) → Signal

pub record Presenter (S : Type 0) : Type 0 where
  pub engine : Engine S
  pub busy : Bool
  pub progress : Float
  pub status_text : String
  pub output_path : String
  pub log_text : String
  pub current_trace_id : String
  pub timer_active : Bool
  pub signals : List Signal

-- The texts that Qt formats: the status and the log line of an event, and the first line on a story.
pub record Formats : Type 0 where
  pub status_line : String → TaskState → Float → String
  pub log_line : String → TaskState → Float → String
  pub story_line : String → String

module _ {S : Type 0} where
  abbrev pub signal : Presenter S → Signal → Presenter S
  signal p s = record p { signals = p.signals ++ s ∷ [] }

  unfoldable pub append_log : Presenter S → String → Presenter S
  append_log p line =
      signal (record p { log_text = concat (p.log_text ∷ line ∷ "\n" ∷ []) }) log_text_changed

  -- `busy_ != b`.
  unfoldable pub set_busy : Presenter S → Bool → Presenter S
  set_busy p b = elim p.busy [
    | true ↦ if b then p else signal (record p { busy = b }) busy_changed
    | false ↦ if b then signal (record p { busy = b }) busy_changed else p
  ]

  unfoldable pub set_progress : Presenter S → Float → Presenter S
  unfolding float_lt abs_diff float_ratio
  set_progress p x =
      if float_lt (float_ratio 1 1000) (abs_diff p.progress x)
      then signal (record p { progress = x }) progress_changed
      else p

  unfoldable pub set_status_text : Presenter S → String → Presenter S
  set_status_text p s =
      if str_eq p.status_text s
      then p
      else signal (record p { status_text = s }) status_text_changed

  -- The functor that the completion callback posts.
  unfoldable pub complete : Presenter S → Bool → String → Presenter S
  unfolding append_log set_busy set_progress set_status_text
  complete p success path =
      let told =
        if success
        then append_log
            (append_log
              (set_status_text (signal (record p { output_path = path }) output_path_changed)
                "Generation completed")
              "=== Workflow completed successfully ===")
            (concat ("Output: " ∷ path ∷ []))
        else append_log (set_status_text p "Generation failed") "=== Workflow failed ===" in
      signal (set_progress (set_busy told false) float_one)
        (generation_completed success told.output_path)

  -- The functor that the progress callback posts.
  unfoldable pub advance : Formats → Presenter S → String → TaskState → Float → Presenter S
  unfolding append_log set_progress set_status_text
  advance qt p task st x =
      append_log (set_progress (set_status_text p (qt.status_line task st x)) x)
        (qt.log_line task st x)

  unfoldable pub handle_note : Formats → Presenter S → Note → Presenter S
  unfolding complete advance
  handle_note qt p (progressed trace task st x) = advance qt p task st x
  handle_note qt p (finished trace success path) = complete p success path

  -- The event loop takes the first functor from its queue.
  unfoldable pub deliver : Formats → Presenter S → Presenter S
  unfolding handle_note
  deliver qt p = elim p.engine.notes [
    | [] ↦ p
    | note ∷ notes ↦ handle_note qt (record p { engine = record p.engine { notes = notes } }) note
  ]

  unfoldable pub set_factory : Presenter S → Option (TaskType → Option ℕ) → Presenter S
  unfolding set_stage_factory
  set_factory p factory = record p { engine = set_stage_factory p.engine factory }

-- What a start leaves in the members before it calls the engine.
abbrev pub begun : {S : Type 0} → Formats → Presenter S → String → String → ℤ → Presenter S
begun qt p story style scenes =
    let cleared =
      signal
        (record (signal
          (record (set_status_text (set_progress (set_busy p true) float_zero)
            "Starting generation...") { log_text = "" })
          log_text_changed) { output_path = "" })
        output_path_changed in
    append_log
      (append_log
        (append_log (append_log cleared "=== Starting new workflow ===") (qt.story_line story))
        (concat ("Style: " ∷ style ∷ [])))
      (concat ("Scenes: " ∷ int_to_string scenes ∷ []))

-- `err.user_message.empty() ? err.internal_message : err.user_message`.
abbrev pub shown_message : TaskError → String
shown_message e = if is_empty e.user_message then e.internal_message else e.user_message

module _ (api : Api) (draws : ℕ → ℕ) (qt : Formats) where
  unfoldable pub start_generation :
      Presenter api.State → String → String → ℤ → ℕ → Presenter api.State
  unfolding append_log set_busy set_progress set_status_text start_workflow int_to_string
  start_generation p story style scenes now =
      let q = begun qt p story style scenes in
      let (engine, r) = start_workflow api draws q.engine scenes now in
      let after = record q { engine = engine } in
      if p.busy then append_log p "Already generating; ignoring request." else elim r [
        | err e ↦
            signal
              (append_log (set_status_text (set_busy after false) "Failed to start generation")
                (concat ("Failed to start workflow: " ∷ shown_message e ∷ [])))
              (generation_completed false "")
        | ok trace ↦
            record (append_log (record after { current_trace_id = trace })
              (concat ("trace_id: " ∷ trace ∷ []))) { timer_active = true }
      ]

  unfoldable pub cancel_generation : Presenter api.State → ℕ → Presenter api.State
  unfolding append_log set_status_text cancel_workflow
  cancel_generation p now =
      let q = append_log p "Canceling workflow..." in
      let (engine, r) = cancel_workflow api draws q.engine p.current_trace_id now in
      if not p.busy || is_empty p.current_trace_id
      then p
      else set_status_text (record q { engine = engine }) "Canceling..."

-- The scheduler's `tick`, with the events that it sends to the engine, and `has_pending_tasks`.
pub record Driver (S : Type 0) : Type 0 where
  pub tick : S → S × List StateEvent
  pub has_pending_tasks : S → Bool

module _ {S : Type 0} (driver : Driver S) where
  unfoldable pub on_tick : Presenter S → Presenter S
  unfolding handle_all
  on_tick p =
      let (scheduler, events) = driver.tick p.engine.scheduler in
      let engine = handle_all (record p.engine { scheduler = scheduler }) events in
      record p {
        engine = engine;
        timer_active = if driver.has_pending_tasks engine.scheduler then p.timer_active else false;
      }

-- What happens to the presenter, in any order: the user's calls, the timer, the events of a scheduler
-- that works in other threads, and the event loop.
pub data Op : Type 0 where
  starts : (story style : String) → ℤ → ℕ → Op
  cancels : ℕ → Op
  timer_fires delivers : Op
  hears : List StateEvent → Op

module _ (api : Api) (draws : ℕ → ℕ) (qt : Formats) (driver : Driver api.State) where
  unfoldable pub step : Presenter api.State → Op → Presenter api.State
  unfolding start_generation cancel_generation on_tick deliver handle_all
  step p (starts story style scenes now) = start_generation api draws qt p story style scenes now
  step p (cancels now) = cancel_generation api draws qt p now
  step p timer_fires = if p.timer_active then on_tick driver p else p
  step p delivers = deliver qt p
  step p (hears events) = record p { engine = handle_all p.engine events }

  unfoldable pub run : Presenter api.State → List Op → Presenter api.State
  unfolding step
  run p [] = p
  run p (op ∷ ops) = run (step p op) ops

-- The constructor: both callbacks are registered, and the timer does not run yet.
abbrev pub new_presenter : {S : Type 0} → S → (TaskType → Option ℕ) → Presenter S
new_presenter s create_mock_stage = record {
  engine = on_progress (on_completion (new_engine s create_mock_stage) true) true;
  busy = false;
  progress = float_zero;
  status_text = "";
  output_path = "";
  log_text = "";
  current_trace_id = "";
  timer_active = false;
  signals = [];
}
