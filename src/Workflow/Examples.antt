-- ===== src/Workflow/Examples.antt =====
-- Inputs for the theorems about the workflow engine, and tests.
use stv_renew.Cancel.{allocate}
use stv_renew.Prelude.{
  ◌≡◌, refl, ℕ, true, false, String, List, [], ◌∷◌, some, Option, inl, inr, map, arith, contains,
  str_eq-cases,
}
use mathlib.Core.Path.{subst}
use stv_renew.Prelude.Int.{pos}
use stv_renew.Prelude.Float.{float_one}
use stv_renew.Errors.{ok}
use stv_renew.Task.{TaskType, running, succeeded, ready, queued, image_gen, new_task}
use stv_renew.Notify.{StateEvent, event}
use stv_renew.Simple
use stv_renew.Simple.{Scheduler, create_simple_scheduler}
use stv_renew.Workflow.{
  Engine, WorkflowState, new_engine, start_workflow, cancel_workflow, uuid_at, find_workflow,
}
use stv_renew.Workflow.Stopping.{
  simple_api, simple_laws, EntryKnown, EntryStopped, cancel_workflow-Stopped,
}

abbrev stages : TaskType → Option ℕ
stages t = some 7

-- The engine is callback 0 of the scheduler.
abbrev engine : Engine Scheduler
engine = new_engine (record create_simple_scheduler { callbacks = some 0 ∷ [] }) stages

abbrev draws : ℕ → ℕ
draws n = n

program : Unit {0}
unfolding start_workflow cancel_workflow uuid_at allocate Simple.submit Simple.cancel
program = tt

-- Two scenes make four tasks, of which only the storyboard is ready.
first_states :
    map
      (λ e. e.task.state)
      (start_workflow (simple_api 0) draws engine (pos 2) 5).0.scheduler.entries
    ≡ ready ∷ queued ∷ queued ∷ queued ∷ []
unfolding program
first_states = refl

first_id : uuid_at draws 7 ≡ "ffff-8-49-800a-bcd"
unfolding program
first_id = refl

abbrev two_tasks : WorkflowState
two_tasks = record {
  trace_id = "w";
  task_ids = "a" ∷ "b" ∷ [];
  completed = 0;
  total = 2;
  failed = false;
  output_path = "";
}

abbrev listening : Engine Scheduler
listening = record engine { active = two_tasks ∷ []; has_completion = true }

abbrev first_half : List StateEvent
first_half = event "a" running float_one ∷ event "a" succeeded float_one ∷ []

-- A scheduler that has both tasks.
abbrev with_tasks : Engine Scheduler
with_tasks = record listening {
  scheduler = Simple.run engine.scheduler (
      Simple.Op.submits (new_task "a" "w" image_gen 0) (some 1) 0
      ∷ Simple.Op.submits (new_task "b" "w" image_gen 0) (some 2) 0
      ∷ []);
}

both_known : EntryKnown with_tasks.scheduler "a" × EntryKnown with_tasks.scheduler "b"
unfolding Simple.run Simple.find_entry
both_known = ((_, refl), (_, refl))

all_known : (x : String) → contains ("a" ∷ "b" ∷ []) x ≡ true → EntryKnown with_tasks.scheduler x
all_known x h = elim (str_eq-cases "a" x) [
  | inl (_, same) ↦ subst (EntryKnown with_tasks.scheduler) same both_known.0
  | inr (a, _) ↦ elim (str_eq-cases "b" x) [
    | inl (_, same) ↦ subst (EntryKnown with_tasks.scheduler) same both_known.1
    | inr (b, _) ↦ ground arith
  ]
]

workflow_found : find_workflow "w" with_tasks.active ≡ some two_tasks
unfolding find_workflow
workflow_found = refl

cancel_workflow-Stopped_example :
    let (e', r) = cancel_workflow (simple_api 0) draws with_tasks "w" 9 in
    (r ≡ ok tt) × ((x : String) → contains ("a" ∷ "b" ∷ []) x ≡ true → EntryStopped e'.scheduler x)
unfolding simple_laws
cancel_workflow-Stopped_example =
    cancel_workflow-Stopped (simple_api 0) (simple_laws 0) draws with_tasks "w" 9 two_tasks
      workflow_found all_known
