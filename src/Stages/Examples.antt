-- ===== src/Stages/Examples.antt =====
-- Inputs for the theorems about the stages, and tests.
use stv_renew.Simple.Entries.{Distinct}
use stv_renew.Prelude.{◌≡◌, refl, String, [], ◌∷◌, none, some}
use stv_renew.Prelude.Int.{ℤ, pos}
use stv_renew.Prelude.Float.{float_lt}
use stv_renew.Prelude.Numbers.{float_ratio}
use stv_renew.Errors.{ok, look_up}
use stv_renew.Task.{TaskDescriptor, new_task, storyboard, state_eq, is_terminal, transition_to}
use stv_renew.Pipeline.{StageContext, Values, text, float, Dispatch}
use stv_renew.Simple.{
  Entry, Scheduler, find_entry, submits, run, create_simple_scheduler, tick_begin, step, submit,
}
use stv_renew.Stages.{storyboard_stage, tts_stage, execute_stage}
use stv_renew.Stages.Json.{extract_json_string}
use stv_renew.Stages.Run.{Client, reported, sent, thrown, post_request}
use stv_renew.Stages.Finished.{Finished}
use stv_renew.Stages.Inputs.{Starved, tick_begin-Starved}
use stv_renew.Stages.Fields.{extract_json_string-field}

-- A server that answers every request in the same way.
abbrev answers : ℤ → String → Client
answers status body request token = ok (record {
  status_code = status;
  headers = [];
  body = body;
  request_id = request.request_id;
  elapsed_ms = 1;
})

abbrev context : Values → StageContext
context inputs = record { trace_id = "w"; cancel_token = none; inputs = inputs; outputs = [] }

abbrev spoken : StageContext
spoken = context (("text", text "hello") ∷ [])

abbrev audio : Client
audio = answers (pos 200) "{\"audio_path\": \"a.wav\", \"duration_seconds\": 2.5}"

program : Unit {0}
unfolding execute_stage float_lt tick_begin run find_entry look_up create_simple_scheduler step
    submit state_eq is_terminal transition_to
program = tt

tts_outputs :
    (execute_stage tts_stage audio "http://s" 7 0 spoken).context.outputs
    ≡ ("audio_path", text "a.wav") ∷ ("duration_seconds", float (float_ratio 5 2)) ∷ []
unfolding program
tts_outputs = refl

-- A point without a digit makes `std::stof` throw out of the stage.
tts_throws :
    (execute_stage tts_stage
      (answers (pos 200) "{\"duration_seconds\":.}")
      "http://s"
      7
      0
      spoken).ending
    ≡ thrown
unfolding program
tts_throws = refl

-- A text with a quote closes its field in the request's body and opens another.
abbrev injected : StageContext
injected = context (("text", text "x\",\"voice\":\"other") ∷ [])

tts_injection :
    (execute_stage tts_stage
      (λ request token. answers (pos 200) request.body request token)
      "http://s"
      7
      0
      injected).events
    ≡ reported (float_ratio 3 10)
      ∷ sent (
          post_request "http://s/v1/tts" "w" "req-7-1" 60000
            "{\"trace_id\":\"w\",\"request_id\":\"req-7-1\",\"text\":\"x\",\"voice\":\"other\",\"voice\":\"default\",\"speed\":1}")
      ∷ reported (float_ratio 9 10)
      ∷ []
unfolding program
tts_injection = refl

extract_json_string-field_example :
    extract_json_string "{\"image_path\":\"x.png\",\"n\":1}" "image_path" ≡ "x.png"
extract_json_string-field_example =
    extract_json_string-field "{" "image_path" "x.png" ",\"n\":1}" refl refl

-- The storyboard task of a workflow, in the simple scheduler.
abbrev lone_task : TaskDescriptor
lone_task = new_task "a" "w" storyboard 0

abbrev lone : Scheduler
lone = run create_simple_scheduler (submits lone_task (some 1) 0 ∷ [])

lone_dispatch :
    (d : Dispatch) × ((tick_begin lone 1).1 ≡ some d)
    × ((e : Entry) × (find_entry d.task_id (tick_begin lone 1).0.entries ≡ some e)
        × (e.task.deps ≡ []))
unfolding program
lone_dispatch = (_, refl, (_, refl, refl))

lone-Distinct : Distinct lone.entries
unfolding program
lone-Distinct = (refl, tt)

tick_begin-Starved_example :
    Starved (execute_stage storyboard_stage audio "http://s" 7 0 lone_dispatch.0.context)
tick_begin-Starved_example =
    tick_begin-Starved lone 1 lone_dispatch.0 lone_dispatch.2.0 storyboard_stage audio "http://s" 7
      0 lone-Distinct lone_dispatch.1 lone_dispatch.2.1 lone_dispatch.2.2
