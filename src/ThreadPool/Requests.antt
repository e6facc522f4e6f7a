-- ===== src/ThreadPool/Requests.antt =====
-- core/src/thread_pool_scheduler.cpp: `cancel`, `pause`, `resume`, `on_state_change`, `tick` and
-- `has_pending_tasks`. `pause` of a running task waits on the condition variable, which releases the
-- lock: it is `pause`, which answers or starts to wait, and `pause_end`.
use stv_renew.Prelude.{
  ℕ, ◌+◌, Bool, true, false, not, ◌&&◌, ◌||◌, leb, String, List, [], ◌∷◌, ◌++◌, Option, none, some,
  concat, if◌then◌else◌,
}
use stv_renew.Prelude.Int.{pos, pos_part, max_ℤ}
use stv_renew.Errors.{
  TaskError, internal_error, canceled_error, full_error, ok, err, is_ok, Status, timeout,
}
use stv_renew.Cancel.{request_at}
use stv_renew.Task.{
  TaskState, ready, running, paused, failed, succeeded, TaskDescriptor, is_terminal, state_eq,
  transition_to,
}
use stv_renew.Task.Lifecycle.{resume_target}
use stv_renew.Notify.{event, token_callbacks}
use stv_renew.ThreadPool.State.{Node, Pool, find_node, put_node, insert, erase, dispatch_events}
use stv_renew.ThreadPool.Graph.{propagate_canceled}

not_found : String → TaskError
not_found id = internal_error (concat ("Task not found: " ∷ id ∷ []))

abbrev pub with_error : TaskDescriptor → TaskDescriptor
with_error t = elim t.error [
  | some _ ↦ t
  | none ↦ record t { error = some (canceled_error "Operation canceled") }
]

-- `cancel` of a node, its token requested before.
unfoldable pub cancel_found : Pool → Node → ℕ → Pool × Status
unfolding erase put_node transition_to is_terminal state_eq propagate_canceled dispatch_events
cancel_found p n now =
    let id = n.task.task_id in
    let still = record n { pause_requested = false; pause_deadline = none } in
    if is_terminal n.task.state
    then (put_node p still, ok tt)
    else let ready' = if state_eq n.task.state ready then erase id p.ready_set else p.ready_set in
      let (t, r) = transition_to n.task TaskState.canceled now in
      elim r [
        | err e ↦ (record (put_node p still) { ready_set = ready' }, err e)
        | ok _ ↦
            let t' = with_error t in
            let p' = record (put_node p (record still { task = t' })) { ready_set = ready' } in
            let (p'', events) =
              propagate_canceled now id (p', event id TaskState.canceled t'.progress ∷ []) in
            (dispatch_events p'' events, ok tt)
      ]

unfoldable pub cancel : Pool → String → ℕ → Pool × Status
unfolding find_node not_found request_at cancel_found
cancel p id now = elim (find_node id p.nodes) [
  | none ↦ (p, err (not_found id))
  | some n ↦
      let (tokens, invoked) = request_at n.task.cancel_token p.tokens in
      cancel_found (record p { tokens = tokens; effects = p.effects ++ token_callbacks invoked }) n
        now
]

-- The call has answered, or waits until the deadline for the task to stop.
pub data PauseCall : Type 0 where
  answered : Status → PauseCall
  waiting : (deadline : ℕ) → PauseCall

unfoldable pub pause_found : Pool → Node → ℕ → TaskState → Pool × PauseCall
unfolding erase put_node transition_to state_eq dispatch_events max_ℤ
pause_found p n now paused = (p, answered (ok tt))
pause_found p n now running =
    let deadline = now + pos_part (max_ℤ (pos 1) p.config.pause_policy.checkpoint_timeout_ms) in
    (
      put_node p (record n { pause_requested = true; pause_deadline = some deadline }),
      waiting deadline,
    )
pause_found p n now TaskState.canceled = (
  p,
  answered (err (internal_error "pause() only supports Queued/Ready/Running/Paused task states")),
)
pause_found p n now failed = (
  p,
  answered (err (internal_error "pause() only supports Queued/Ready/Running/Paused task states")),
)
pause_found p n now succeeded = (
  p,
  answered (err (internal_error "pause() only supports Queued/Ready/Running/Paused task states")),
)
pause_found p n now _ =
    let id = n.task.task_id in
    let (t, r) = transition_to n.task paused now in
    let p' = record (put_node p (record n { task = t })) {
      ready_set = if state_eq n.task.state ready then erase id p.ready_set else p.ready_set;
    } in
    (if is_ok r then dispatch_events p' (event id paused t.progress ∷ []) else p', answered r)

unfoldable pub pause : Pool → String → ℕ → Pool × PauseCall
unfolding find_node not_found pause_found
pause p id now = elim (find_node id p.nodes) [
  | none ↦ (p, answered (err (not_found id)))
  | some n ↦ pause_found p n now n.task.state
]

-- The condition that the waiting call looks at.
unfoldable pub pause_reached : Pool → String → Bool
unfolding find_node is_terminal state_eq
pause_reached p id = elim (find_node id p.nodes) [
  | none ↦ true
  | some n ↦ state_eq n.task.state paused || is_terminal n.task.state
]

pause_timed_out : String → TaskError
pause_timed_out id =
    full_error timeout (pos 3003) false "Pause timed out and task was canceled"
      "Pause checkpoint timeout, auto-canceled task" (("task_id", id) ∷ [])

-- The end of the wait. On a time-out the task is canceled, whatever that returns.
unfoldable pub pause_end : Pool → String → ℕ → Pool × Status
unfolding pause_reached pause_timed_out cancel
pause_end p id now =
    if pause_reached p id then (p, ok tt) else ((cancel p id now).0, err (pause_timed_out id))

unfoldable pub resume : Pool → String → ℕ → Pool × Status
unfolding find_node not_found state_eq resume_target transition_to put_node insert dispatch_events
resume p id now = elim (find_node id p.nodes) [
  | none ↦ (p, err (not_found id))
  | some n ↦
      if not (state_eq n.task.state paused)
      then (p, err (internal_error (concat ("Task is not paused: " ∷ id ∷ []))))
      else let target = resume_target n.task in
        let (t, r) = transition_to n.task target now in
        let still = record n { task = t; pause_requested = false; pause_deadline = none } in
        elim r [
          | err e ↦ (put_node p (record n { task = t }), err e)
          | ok _ ↦
              let p' =
                if state_eq target ready
                then record (put_node p (record still { ready_since = now })) {
                  ready_set = insert id p.ready_set;
                }
                else put_node p still in
              (dispatch_events p' (event id target t.progress ∷ []), ok tt)
        ]
]

unfoldable pub on_state_change : Pool → Option ℕ → Pool
on_state_change p cb = record p { callbacks = p.callbacks ++ cb ∷ [] }

-- The tasks whose requested pause is overdue.
unfoldable pub overdue : Node → ℕ → Bool
unfolding state_eq
overdue n now =
    state_eq n.task.state running
    && n.pause_requested
    && (elim n.pause_deadline [ none ↦ false | some deadline ↦ leb deadline now ])

unfoldable pub timed_out : List Node → ℕ → List String
unfolding overdue
timed_out [] now = []
timed_out (n ∷ ns) now =
    let rest = timed_out ns now in if overdue n now then n.task.task_id ∷ rest else rest

unfoldable pub cancel_all : Pool → List String → ℕ → Pool
unfolding cancel
cancel_all p [] now = p
cancel_all p (id ∷ ids) now = cancel_all (cancel p id now).0 ids now

unfoldable pub tick : Pool → ℕ → Pool
unfolding timed_out cancel_all
tick p now = cancel_all p (timed_out p.nodes now) now

unfoldable pub has_pending_nodes : List Node → Bool
unfolding is_terminal
has_pending_nodes [] = false
has_pending_nodes (n ∷ ns) = not (is_terminal n.task.state) || has_pending_nodes ns

unfoldable pub has_pending_tasks : Pool → Bool
unfolding has_pending_nodes
has_pending_tasks p = has_pending_nodes p.nodes
