-- ===== src/Simple.antt =====
-- core/src/scheduler.cpp: `SimpleScheduler`, run by `tick`. The lock makes each operation one step;
-- `tick` releases it while the stage executes, so it is two steps, `tick_begin` and `tick_end`, with
-- what the stage reports and what other threads call in between. The clock is an argument.
-- An entry is found again by its id, which `submit` keeps unique.
pub mod Entries
pub mod Changes
pub mod Invariant
pub mod Ticks
pub mod Idle
pub mod Defects
mod Examples
use stv_renew.Prelude.Table.{find, set_at}
use stv_renew.Prelude.{
  ℕ, Bool, true, false, not, ◌&&◌, ◌||◌, String, List, [], ◌∷◌, ◌++◌, map, Option, none, some,
  str_eq, is_empty, concat, if◌then◌else◌,
}
use stv_renew.Prelude.Int.{ltb_ℤ}
use stv_renew.Prelude.Float.{Float, float_zero, float_one}
use stv_renew.Errors.{
  TaskError, internal_error, is_canceled_category, ok, err, is_ok, Status, guard, ◌>>◌,
}
use stv_renew.Cancel.{Tokens, request_at}
use stv_renew.Task.{
  TaskState, queued, ready, running, paused, canceled, failed, succeeded, is_terminal, state_eq,
  TaskDescriptor, has_value, transition_to, set_progress,
}
use stv_renew.Task.Lifecycle.{resume_target}
use stv_renew.Notify.{Effect, event, call_all, token_callbacks}
use stv_renew.Pipeline.{Values, StageContext, Dispatch, merge}

-- A stage is known by its number.
pub record Entry : Type 0 where
  pub task : TaskDescriptor
  pub stage : ℕ
  pub last_outputs : Values

pub record Scheduler : Type 0 where
  pub entries : List Entry
  pub callbacks : List (Option ℕ)
  pub tokens : Tokens
  pub effects : List Effect

abbrev pub entry_key : Entry → String
entry_key e = e.task.task_id

unfoldable pub find_entry : String → List Entry → Option Entry
unfolding find
find_entry id es = find entry_key id es

-- A write through the iterator that `find_entry` returned for the entry's id.
unfoldable pub set_entry : Entry → List Entry → List Entry
unfolding set_at
set_entry e es = set_at entry_key e es

unfoldable pub store : Scheduler → Entry → Scheduler
unfolding set_entry
store s e = record s { entries = set_entry e s.entries }

unfoldable pub notify : Scheduler → String → TaskState → Float → Scheduler
unfolding call_all
notify s id st p = record s { effects = s.effects ++ call_all s.callbacks (event id st p) }

not_found : String → TaskError
not_found id = internal_error (concat ("Task not found: " ∷ id ∷ []))

-- The loop over `task.deps`.
pub check_deps : String → List Entry → List String → Status
unfolding find_entry
check_deps id es [] = ok tt
check_deps id es (d ∷ ds) =
    guard (not (str_eq d id)) (internal_error (concat ("Task cannot depend on itself: " ∷ id ∷ [])))
    >> guard (has_value (find_entry d es))
        (internal_error (concat ("Dependency not found: " ∷ d ∷ [])))
    >> check_deps id es ds

pub check_submit : List Entry → TaskDescriptor → Bool → Status
unfolding check_deps find_entry
check_submit es task has_stage =
    guard has_stage (internal_error "Stage must not be null")
    >> guard (not (is_empty task.task_id)) (internal_error "task_id must not be empty")
    >> guard (not (has_value (find_entry task.task_id es)))
        (internal_error (concat ("Duplicate task_id: " ∷ task.task_id ∷ [])))
    >> check_deps task.task_id es task.deps

abbrev pub is_nil {ℓ} : {A : Type ℓ} → List A → Bool
is_nil [] = true
is_nil (_ ∷ _) = false

-- A task with no dependency is made ready at once; the entry goes to the back.
pub enqueue : Scheduler → TaskDescriptor → ℕ → ℕ → Scheduler × Status
unfolding transition_to
enqueue s task stage now =
    let (t, r) = if is_nil task.deps then transition_to task ready now else (task, ok tt) in
    if is_ok r
    then (
      record s {
        entries = s.entries ++ record { task = t; stage = stage; last_outputs = [] } ∷ [];
      },
      r,
    )
    else (s, r)

unfoldable pub submit : Scheduler → TaskDescriptor → Option ℕ → ℕ → Scheduler × Status
unfolding check_submit enqueue
submit s task none now = (s, check_submit s.entries task false)
submit s task (some stage) now = elim (check_submit s.entries task true) [
  | ok _ ↦ enqueue s task stage now
  | err e ↦ (s, err e)
]

-- `transition_to`, and `notify` if it succeeded: the second half of `cancel`, `pause` and `resume`.
pub move : Scheduler → Entry → TaskState → ℕ → Scheduler × Status
unfolding transition_to store notify
move s e target now =
    let (t, r) = transition_to e.task target now in
    let s' = store s (record e { task = t }) in
    (if is_ok r then notify s' t.task_id target t.progress else s', r)

unfoldable pub request_token : Scheduler → Option ℕ → Scheduler
unfolding request_at
request_token s address =
    let (tokens, invoked) = request_at address s.tokens in
    record s { tokens = tokens; effects = s.effects ++ token_callbacks invoked }

unfoldable pub cancel : Scheduler → String → ℕ → Scheduler × Status
unfolding find_entry not_found move request_token
cancel s id now = elim (find_entry id s.entries) [
  | none ↦ (s, err (not_found id))
  | some e ↦ move (request_token s e.task.cancel_token) e canceled now
]

unfoldable pub pause : Scheduler → String → ℕ → Scheduler × Status
unfolding find_entry not_found move
pause s id now = elim (find_entry id s.entries) [
  | none ↦ (s, err (not_found id))
  | some e ↦ move s e paused now
]

unfoldable pub resume : Scheduler → String → ℕ → Scheduler × Status
unfolding find_entry not_found move resume_target
resume s id now = elim (find_entry id s.entries) [
  | none ↦ (s, err (not_found id))
  | some e ↦ move s e (resume_target e.task) now
]

unfoldable pub on_state_change : Scheduler → Option ℕ → Scheduler
on_state_change s cb = record s { callbacks = s.callbacks ++ cb ∷ [] }

abbrev pub is_succeeded : Option Entry → Bool
is_succeeded none = false
is_succeeded (some e) = elim e.task.state [ succeeded ↦ true | _ ↦ false ]

pub deps_met : List Entry → List String → Bool
unfolding find_entry
deps_met es [] = true
deps_met es (d ∷ ds) = is_succeeded (find_entry d es) && deps_met es ds

-- The body of the first loop of `tick`.
pub promote : ℕ → Scheduler → String → Scheduler
unfolding find_entry deps_met store notify transition_to state_eq
promote now s id = elim (find_entry id s.entries) [
  | none ↦ s
  | some e ↦
      if state_eq e.task.state queued && not (is_nil e.task.deps) && deps_met s.entries e.task.deps
      then notify (store s (record e { task = (transition_to e.task ready now).0 })) e.task.task_id
          ready float_zero
      else s
]

abbrev pub ids : List Entry → List String
ids es = map (λ e. e.task.task_id) es

pub promote_all : ℕ → Scheduler → List String → Scheduler
unfolding promote
promote_all now s [] = s
promote_all now s (id ∷ ids) = promote_all now (promote now s id) ids

-- The second loop: the first of the ready entries with the highest priority.
pub improves : Option Entry → Entry → Bool
improves none e = true
improves (some best) e = ltb_ℤ best.task.priority e.task.priority

pub pick_best : Option Entry → List Entry → Option Entry
unfolding improves state_eq
pick_best best [] = best
pick_best best (e ∷ es) =
    pick_best (if state_eq e.task.state ready && improves best e then some e else best) es

-- The outputs of the dependencies, in their order; a later one overwrites a key.
unfoldable pub collect_inputs : List Entry → List String → Values → Values
unfolding merge find_entry
collect_inputs es [] inputs = inputs
collect_inputs es (d ∷ ds) inputs =
    collect_inputs es ds
      (elim (find_entry d es) [ none ↦ inputs | some dep ↦ merge inputs dep.last_outputs ])

-- From the choice of the task to the release of the lock.
unfoldable pub start_best : Scheduler → Option Entry → ℕ → Scheduler × Option Dispatch
unfolding store notify transition_to collect_inputs
start_best s none now = (s, none)
start_best s (some best) now =
    let s' =
      notify (store s (record best { task = (transition_to best.task running now).0 }))
        best.task.task_id running float_zero in
    (
      s',
      some (record {
        task_id = best.task.task_id;
        stage = best.stage;
        context = record {
          trace_id = best.task.trace_id;
          cancel_token = best.task.cancel_token;
          inputs = collect_inputs s'.entries best.task.deps [];
          outputs = [];
        };
      }),
    )

-- `tick` up to the release of the lock. The first loop visits the entries in their order.
unfoldable pub tick_begin : Scheduler → ℕ → Scheduler × Option Dispatch
unfolding promote_all pick_best start_best
tick_begin s now =
    let s' = promote_all now s (ids s.entries) in start_best s' (pick_best none s'.entries) now

-- `ctx.on_progress`: the value is stored clamped and passed on as it is.
unfoldable pub report_progress : Scheduler → String → Float → Scheduler
unfolding find_entry store notify set_progress
report_progress s id p = elim (find_entry id s.entries) [
  | none ↦ s
  | some e ↦ notify (store s (record e { task = set_progress e.task p })) id running p
]

-- The result of a failed stage: the error is stored, then the transition is tried.
finish_failed : Scheduler → Entry → TaskError → TaskState → ℕ → Scheduler
unfolding transition_to store notify
finish_failed s e error target now =
    let t = (transition_to (record e.task { error = some error }) target now).0 in
    notify (store s (record e { task = t })) t.task_id target t.progress

pub finish : Scheduler → Entry → Status → Values → ℕ → Scheduler
unfolding transition_to set_progress store notify finish_failed
finish s e (ok _) outputs now =
    let t = set_progress (transition_to e.task succeeded now).0 float_one in
    notify (store s (record e { task = t; last_outputs = outputs })) t.task_id succeeded float_one
finish s e (err error) outputs now =
    finish_failed s e error (if is_canceled_category error.category then canceled else failed) now

-- `tick` from where it takes the lock again, with what the stage returned.
unfoldable pub tick_end : Scheduler → String → Status → Values → ℕ → Scheduler
unfolding find_entry finish
tick_end s id result outputs now = elim (find_entry id s.entries) [
  | none ↦ s
  | some e ↦ finish s e result outputs now
]

unfoldable pub has_pending_entries : List Entry → Bool
unfolding is_terminal
has_pending_entries [] = false
has_pending_entries (e ∷ es) = not (is_terminal e.task.state) || has_pending_entries es

unfoldable pub has_pending_tasks : Scheduler → Bool
unfolding has_pending_entries
has_pending_tasks s = has_pending_entries s.entries

-- The locked sections, as the steps of a history.
pub data Op : Type 0 where
  submits : TaskDescriptor → Option ℕ → ℕ → Op
  cancels pauses resumes : String → ℕ → Op
  listens : Option ℕ → Op
  begins : ℕ → Op
  reports : String → Float → Op
  ends : String → Status → Values → ℕ → Op

unfoldable pub step : Scheduler → Op → Scheduler
unfolding submit cancel pause resume on_state_change tick_begin report_progress tick_end
step s (submits task stage now) = (submit s task stage now).0
step s (cancels id now) = (cancel s id now).0
step s (pauses id now) = (pause s id now).0
step s (resumes id now) = (resume s id now).0
step s (listens cb) = on_state_change s cb
step s (begins now) = (tick_begin s now).0
step s (reports id p) = report_progress s id p
step s (ends id result outputs now) = tick_end s id result outputs now

unfoldable pub run : Scheduler → List Op → Scheduler
unfolding step
run s [] = s
run s (op ∷ ops) = run (step s op) ops

-- One execution of a stage: what it reports and what other threads call meanwhile, what it returns
-- and when.
pub record Execution : Type 0 where
  pub meanwhile : List Op
  pub result : Status
  pub outputs : Values
  pub done_at : ℕ

-- `tick`, with the stages as a function.
unfoldable pub tick : (ℕ → StageContext → Execution) → Scheduler → ℕ → Scheduler
unfolding tick_begin run tick_end
tick execute s now =
    let (s1, dispatched) = tick_begin s now in
    elim dispatched [
      | none ↦ s1
      | some d ↦
          let x = execute d.stage d.context in
          tick_end (run s1 x.meanwhile) d.task_id x.result x.outputs x.done_at
    ]

abbrev pub create_simple_scheduler : Scheduler
create_simple_scheduler = record { entries = []; callbacks = []; tokens = []; effects = [] }
