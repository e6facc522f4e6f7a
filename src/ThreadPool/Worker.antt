-- ===== src/ThreadPool/Worker.antt =====
-- core/src/thread_pool_scheduler.cpp: `worker_loop`, `handle_progress_callback` and
-- `finalize_execution`. A worker's round is `worker_begin`, the stage, and `finalize`; while the
-- stage runs it reports progress, which may wait until the task is resumed.
use stv_renew.Prelude.{
  ℕ, Bool, true, false, not, ◌&&◌, ◌||◌, String, List, [], ◌∷◌, ◌++◌, Option, none, some,
  if◌then◌else◌,
}
use stv_renew.Prelude.Float.{Float, float_one}
use stv_renew.Errors.{TaskError, is_canceled_category, ok, err, is_ok, Status}
use stv_renew.Cancel.{is_canceled_at}
use stv_renew.Task.{
  TaskState, running, paused, failed, succeeded, state_eq, transition_to, set_progress,
}
use stv_renew.Notify.{StateEvent, event}
use stv_renew.Pipeline.{Values, Dispatch, merge}
use stv_renew.ThreadPool.State.{
  Node, Pool, find_node, put_node, insert, erase, reserve_resources, release_resources,
  dispatch_events,
}
use stv_renew.ThreadPool.Graph.{wake_successors, propagate_canceled}
use stv_renew.ThreadPool.Pick.{Candidate, pick_candidate}

unfoldable pub collect_inputs : List Node → List String → Values → Values
unfolding merge find_node
collect_inputs ns [] inputs = inputs
collect_inputs ns (d ∷ ds) inputs =
    collect_inputs ns ds
      (elim (find_node d ns) [ none ↦ inputs | some dep ↦ merge inputs dep.last_outputs ])

-- A node picked: its transition to running, with the resources, or to failed.
unfoldable pub start_node : Pool → Node → ℕ → Pool × Option Dispatch
unfolding erase transition_to put_node reserve_resources insert collect_inputs dispatch_events
start_node p n now =
    let id = n.task.task_id in
    let free = record p { ready_set = erase id p.ready_set } in
    let (t, r) = transition_to n.task running now in
    elim r [
      | err e ↦
          let (t', r') = transition_to (record t { error = some e }) failed now in
          (
            dispatch_events (put_node free (record n { task = t' }))
                (if is_ok r' then event id failed t'.progress ∷ [] else []),
            none,
          )
      | ok _ ↦
          let started = record n {
            task = t;
            running = true;
            pause_requested = false;
            pause_deadline = none;
          } in
          let p' = record (put_node free started) {
            resource_in_use = reserve_resources t.resource_demand p.resource_in_use;
            running_set = insert id p.running_set;
          } in
          (
            dispatch_events p' (event id running t.progress ∷ []),
            some (record {
              task_id = id;
              stage = n.stage;
              context = record {
                trace_id = t.trace_id;
                cancel_token = t.cancel_token;
                inputs = collect_inputs p'.nodes t.deps [];
                outputs = [];
              };
            }),
          )
    ]

abbrev pub start_candidate : Pool → Option Candidate → ℕ → Pool × Option Dispatch
start_candidate p none now = (p, none)
start_candidate p (some c) now = elim (find_node c.task_id p.nodes) [
  | none ↦ (p, none)
  | some n ↦ start_node p n now
]

-- A round of `worker_loop` up to `stage->execute`.
unfoldable pub worker_begin : Pool → ℕ → Pool × Option Dispatch
unfolding pick_candidate find_node start_node
worker_begin p now =
    if p.stopping then (p, none) else start_candidate p (pick_candidate p now true) now

-- `handle_progress_callback` up to the wait; `true` if the stage's thread now waits.
unfoldable pub report_progress : Pool → String → Float → ℕ → Pool × Bool
unfolding find_node set_progress state_eq transition_to put_node dispatch_events
report_progress p id value now = elim (find_node id p.nodes) [
  | none ↦ (p, false)
  | some n ↦
      let t = set_progress n.task value in
      let told = if state_eq t.state running then event id running t.progress ∷ [] else [] in
      let (t', r) = transition_to t paused now in
      if n.pause_requested && state_eq t.state running && is_ok r
      then (
        dispatch_events
            (put_node p (record n { task = t'; pause_requested = false; pause_deadline = none }))
            (told ++ event id paused t'.progress ∷ []),
        true,
      )
      else (dispatch_events (put_node p (record n { task = t })) told, false)
]

-- Whether the thread that waits for the task to be resumed goes on.
unfoldable pub wait_over : Pool → String → Bool
unfolding find_node state_eq
wait_over p id =
    p.stopping
    || (elim (find_node id p.nodes) [ none ↦ true | some n ↦ not (state_eq n.task.state paused) ])

-- `handle_progress_callback` after the wait.
unfoldable pub progress_resumed : Pool → String → Pool
unfolding find_node state_eq dispatch_events
progress_resumed p id = elim (find_node id p.nodes) [
  | none ↦ p
  | some n ↦
      if state_eq n.task.state running
      then dispatch_events p (event id running n.task.progress ∷ [])
      else p
]

-- The node's running mark, its place in the running set and its resources.
unfoldable pub release_node : Pool → Node → Pool × Node
unfolding erase release_resources put_node
release_node p n =
    if not n.running
    then (p, n)
    else let n' = record n { running = false } in
      (
        record (put_node p n') {
          running_set = erase n.task.task_id p.running_set;
          resource_in_use = release_resources n.task.resource_demand p.resource_in_use;
        },
        n',
      )

-- `succeeded.is_ok()`, and the transition to failed otherwise.
unfoldable pub finish_ok : Pool → Node → Values → ℕ → Pool × List StateEvent
unfolding transition_to set_progress put_node wake_successors propagate_canceled
finish_ok p n outputs now =
    let id = n.task.task_id in
    let (t, r) = transition_to n.task succeeded now in
    elim r [
      | ok _ ↦ wake_successors now id (
        put_node p (record n { task = set_progress t float_one; last_outputs = outputs }),
        event id succeeded float_one ∷ [],
      )
      | err e ↦
          let (t', r') = transition_to (record n.task { error = some e }) failed now in
          propagate_canceled now id (
            put_node p (record n { task = t' }),
            if is_ok r' then event id failed t'.progress ∷ [] else [],
          )
    ]

unfoldable pub finish_err : Pool → Node → TaskError → ℕ → Pool × List StateEvent
unfolding is_canceled_at transition_to put_node propagate_canceled
finish_err p n e now =
    let id = n.task.task_id in
    let target =
      if is_canceled_category e.category || is_canceled_at n.task.cancel_token p.tokens
      then TaskState.canceled
      else failed in
    let (t, r) = transition_to (record n.task { error = some e }) target now in
    propagate_canceled now id
      (put_node p (record n { task = t }), if is_ok r then event id target t.progress ∷ [] else [])

-- A canceled task stays canceled, even if its stage returned success.
unfoldable pub settle : Pool → Node → Status → Values → ℕ → Pool × List StateEvent
unfolding finish_ok finish_err propagate_canceled state_eq
settle p n result outputs now =
    if state_eq n.task.state TaskState.canceled
    then propagate_canceled now n.task.task_id (p, [])
    else elim result [ ok _ ↦ finish_ok p n outputs now | err e ↦ finish_err p n e now ]

unfoldable pub finalize : Pool → String → Status → Values → ℕ → Pool
unfolding find_node release_node settle dispatch_events
finalize p id result outputs now = elim (find_node id p.nodes) [
  | none ↦ p
  | some n ↦
      let (p', n') = release_node p n in
      let (p'', events) = settle p' n' result outputs now in dispatch_events p'' events
]
