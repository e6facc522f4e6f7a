-- ===== src/Presenter/Examples.antt =====
-- Inputs for the theorems about the presenter, and tests.
use stv_renew.Prelude.{◌≡◌, refl, ℕ, true, false, List, [], ◌∷◌, some}
use stv_renew.Prelude.Int.{pos}
use stv_renew.Prelude.Float.{float_zero, float_lt}
use stv_renew.Prelude.Numbers.{float_ratio, abs_diff}
use stv_renew.Task.{TaskState}
use stv_renew.Notify.{event}
use stv_renew.Simple.{Scheduler, create_simple_scheduler, has_pending_tasks}
use stv_renew.Workflow.{finished, start_workflow, on_progress, on_completion}
use stv_renew.Workflow.Stopping.{simple_api}
use stv_renew.Presenter.{
  Presenter, Formats, Driver, Op, starts, cancels, timer_fires, delivers, hears, new_presenter,
  start_generation, run, deliver, set_progress, generation_completed,
}
use stv_renew.Presenter.Busy.{Unmoved, completes, run-Unmoved}
use stv_renew.Presenter.Members.{set_progress_near}
use stv_renew.Presenter.Starts.{Answer, EmittedLast, start_generation-Answer, deliver_completion}

abbrev formats : Formats
formats = record {
  status_line = λ task st x. task;
  log_line = λ task st x. task;
  story_line = λ story. story;
}

-- The timer of a scheduler in which nothing runs.
abbrev driver : Driver Scheduler
driver = record { tick = λ s. (s, []); has_pending_tasks = has_pending_tasks }

abbrev draws : ℕ → ℕ
draws n = n

abbrev idle : Presenter Scheduler
idle = new_presenter create_simple_scheduler (λ ty. some 1)

start_generation-Answer_example :
    Answer idle
      (start_workflow (simple_api 0) draws idle.engine (pos 2) 5)
      (start_generation (simple_api 0) draws formats idle "story" "style" (pos 2) 5)
start_generation-Answer_example =
    start_generation-Answer (simple_api 0) draws formats idle "story" "style" (pos 2) 5

set_progress_near_example :
    float_lt
      (float_ratio 1 1000)
      (abs_diff (set_progress idle (float_ratio 1 2)).progress (float_ratio 1 2))
    ≡ false
set_progress_near_example = set_progress_near idle (float_ratio 1 2)

abbrev busy : Presenter Scheduler
busy = record idle {
  busy = true;
  current_trace_id = "w";
  engine = record idle.engine {
    active =
        record {
          trace_id = "w";
          task_ids = "a" ∷ "b" ∷ [];
          completed = 0;
          total = 2;
          failed = false;
          output_path = "";
        }
        ∷ [];
  };
}

-- A task fails, its event is delivered, and the user cancels and starts again.
abbrev failing : List Op
failing =
    hears (event "a" TaskState.failed float_zero ∷ [])
    ∷ delivers
    ∷ cancels 6
    ∷ starts "story" "style" (pos 2) 7
    ∷ timer_fires
    ∷ []

no_completion : completes (simple_api 0) draws formats driver busy failing ≡ false
unfolding completes run on_progress on_completion
no_completion = refl

run-Unmoved_example : Unmoved busy (run (simple_api 0) draws formats driver busy failing)
run-Unmoved_example =
    run-Unmoved (simple_api 0) draws formats driver busy failing refl no_completion

abbrev done : Presenter Scheduler
done = record busy { engine = record busy.engine { notes = finished "w" true "out.mp4" ∷ [] } }

deliver_completion_example :
    let q = deliver formats done in
    (q.busy ≡ false)
    × (q.engine.notes ≡ [])
    × (q.output_path ≡ "out.mp4")
    × EmittedLast (generation_completed true q.output_path) q
deliver_completion_example = deliver_completion formats done "w" "out.mp4" true [] refl
