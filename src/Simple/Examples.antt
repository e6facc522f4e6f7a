-- ===== src/Simple/Examples.antt =====
-- Inputs for the theorems about the simple scheduler, and tests.
use stv_renew.Simple.Changes.Chain.{IsNew}
use stv_renew.Prelude.{
  ◌≡◌, refl, ◌≢◌, ◌⊎◌, true, false, String, List, [], ◌∷◌, ◌++◌, none, some, arith, contains,
}
use stv_renew.Prelude.Int.{pos}
use stv_renew.Prelude.Float.{float_one}
use stv_renew.Errors.{ok, err, internal_error, put}
use stv_renew.Task.{
  TaskState, queued, ready, running, canceled, succeeded, storyboard, image_gen, TaskDescriptor,
  new_task, set_progress, transition_to, state_eq, is_terminal,
}
use stv_renew.Notify.{event, call_all}
use stv_renew.Pipeline.{int, Dispatch, merge}
use stv_renew.Simple.{
  Entry, Scheduler, find_entry, submits, cancels, pauses, listens, begins, reports, ends, run, step,
  submit, tick_begin, tick_end, has_pending_tasks, create_simple_scheduler, resume, is_succeeded,
  tick, Op,
}
use stv_renew.Simple.Invariant.{AllProper, run-Inv}
use stv_renew.Simple.Ticks.{Started, tick_begin-Started}
use stv_renew.Simple.Idle.{tick_begin_idle}
use stv_renew.Simple.Defects.{tick_end_false_success, resume_ready_strands}

abbrev first : TaskDescriptor
first = record (new_task "a" "w" storyboard 0) { priority = pos 100 }

abbrev second : TaskDescriptor
second = record (new_task "b" "w" image_gen 0) { deps = "a" ∷ []; priority = pos 50 }

abbrev start : List Op
start = submits first (some 1) 0 ∷ submits second (some 2) 0 ∷ listens (some 9) ∷ []

first-IsNew : IsNew first
unfolding is_terminal
first-IsNew = (refl, ground arith)

second-IsNew : IsNew second
unfolding is_terminal
second-IsNew = (refl, ground arith)

start-AllProper : AllProper start
start-AllProper = (first-IsNew, (second-IsNew, (tt, tt)))

abbrev started_state : Scheduler
started_state = run create_simple_scheduler start

program : Unit {0}
unfolding run step tick_begin tick_end submit find_entry transition_to call_all put merge state_eq
    is_terminal
program = tt

first_dispatch : (d : Dispatch) × ((tick_begin started_state 3).1 ≡ some d) × (d.task_id ≡ "a")
unfolding program
first_dispatch = (_, refl, refl)

tick_begin-Started_example : Started (tick_begin started_state 3).0.entries first_dispatch.0
tick_begin-Started_example =
    tick_begin-Started started_state 3 first_dispatch.0 (run-Inv start start-AllProper)
      first_dispatch.1

-- The first task has run and succeeded.
abbrev after_first : Scheduler
after_first =
    run started_state (begins 3 ∷ ends "a" (ok tt) (("scene_count", int (pos 2)) ∷ []) 7 ∷ [])

abbrev first_done :
    (e : Entry) × (find_entry "a" after_first.entries ≡ some e) × (e.task.state ≡ succeeded)
unfolding program
first_done = (_, refl, refl)

-- The second task gets the outputs of the first.
second_inputs :
    (d : Dispatch) × ((tick_begin after_first 9).1 ≡ some d)
    × (d.stage ≡ 2)
    × (d.context.inputs ≡ ("scene_count", int (pos 2)) ∷ [])
unfolding program
second_inputs = (_, refl, refl, refl)

-- While the first task is paused nothing can start.
abbrev on_hold : Scheduler
on_hold = step started_state (pauses "a" 2)

on_hold_idle :
    ((tick_begin on_hold 3).1 ≡ none)
    × ((e : Entry) × (find_entry "b" (tick_begin on_hold 3).0.entries ≡ some e)
        × (e.task.state ≡ queued))
unfolding program
on_hold_idle = (refl, (_, refl, refl))

tick_begin_idle_example :
    let e = on_hold_idle.1.0 in
    (e.task.state ≢ ready)
    × (e.task.state ≡ queued
        → (e.task.deps ≡ [])
          ⊎ ((d : String) × (contains e.task.deps d ≡ true)
              × (is_succeeded (find_entry d (tick_begin on_hold 3).0.entries) ≡ false)))
tick_begin_idle_example =
    tick_begin_idle on_hold 3 "b" on_hold_idle.1.0 on_hold_idle.0 on_hold_idle.1.1

-- The first task is canceled while its stage runs, and the stage then returns success.
abbrev overtaken : Scheduler
overtaken = run started_state (begins 3 ∷ cancels "a" 4 ∷ [])

overtaken_entry :
    (e : Entry) × (find_entry "a" overtaken.entries ≡ some e) × (e.task.state ≡ canceled)
unfolding program
overtaken_entry = (_, refl, refl)

canceled_not_running : {s : TaskState} → s ≡ canceled → s ≢ running
canceled_not_running a b = cc

tick_end_false_success_example :
    ((tick_end overtaken "a" (ok tt) [] 5).effects
      ≡ overtaken.effects ++ call_all overtaken.callbacks (event "a" succeeded float_one))
    × (find_entry "a" (tick_end overtaken "a" (ok tt) [] 5).entries
        ≡ some (record overtaken_entry.0 {
          task = set_progress overtaken_entry.0.task float_one;
          last_outputs = [];
        }))
tick_end_false_success_example =
    tick_end_false_success overtaken "a" overtaken_entry.0 [] 5 overtaken_entry.1
      (canceled_not_running overtaken_entry.2)

ready_entry : (e : Entry) × (find_entry "a" started_state.entries ≡ some e) × (e.task.state ≡ ready)
unfolding program
ready_entry = (_, refl, refl)

resume_ready_strands_example :
    ((resume started_state "a" 2).1 ≡ ok tt)
    × ((x : Entry) × (find_entry "a" (resume started_state "a" 2).0.entries ≡ some x)
        × (x.task.state ≡ running))
    × ((tick_begin (resume started_state "a" 2).0 3).1 ≡ some first_dispatch.0
        → first_dispatch.0.task_id ≢ "a")
resume_ready_strands_example =
    resume_ready_strands started_state "a" ready_entry.0 2 3 first_dispatch.0
      (run-Inv start start-AllProper) ready_entry.1 ready_entry.2

unknown_dependency :
    (submit create_simple_scheduler second (some 2) 0).1
    ≡ err (internal_error "Dependency not found: a")
unfolding program
unknown_dependency = refl

whole_tick :
    has_pending_tasks (
      tick
        (λ stage ctx. record {
          meanwhile = reports "a" float_one ∷ [];
          result = ok tt;
          outputs = [];
          done_at = 9;
        })
        (step create_simple_scheduler (submits first (some 1) 0))
        3)
    ≡ false
unfolding program tick has_pending_tasks
whole_tick = refl
