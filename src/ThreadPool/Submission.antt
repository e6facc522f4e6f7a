-- ===== src/ThreadPool/Submission.antt =====
-- core/src/thread_pool_scheduler.cpp: `submit`. Its checks come first; then the token is made, the
-- dependencies are linked, and the node is placed.
use stv_renew.Prelude.Numbers.{int_to_string}
use stv_renew.Prelude.{
  ℕ, suc, Bool, true, false, not, String, List, [], ◌∷◌, ◌++◌, Option, none, some, str_eq, is_empty,
  concat, if◌then◌else◌,
}
use stv_renew.Prelude.Int.{ℤ, pos, leb_ℤ, ltb_ℤ, max_ℤ}
use stv_renew.Errors.{
  TaskError, internal_error, full_error, ok, err, is_ok, Status, guard, resource, canceled, ◌>>◌,
}
use stv_renew.Cancel.{allocate}
use stv_renew.Task.{
  TaskState, ready, failed, succeeded, TaskDescriptor, ResourceDemand, has_value, transition_to,
}
use stv_renew.Notify.{StateEvent, event}
use stv_renew.ThreadPool.State.{
  Node, Pool, Successors, find_node, insert, add_successor, dispatch_events,
}
use stv_renew.ThreadPool.Graph.{creates_cycle}

-- At least one CPU slot, and no negative memory.
unfoldable pub normalize_demand : ResourceDemand → ResourceDemand
unfolding max_ℤ
normalize_demand d = record {
  cpu_slots = if leb_ℤ d.cpu_slots (pos 0) then pos 1 else d.cpu_slots;
  ram_mb = max_ℤ (pos 0) d.ram_mb;
  vram_mb = max_ℤ (pos 0) d.vram_mb;
}

over_budget : TaskDescriptor → ℤ → TaskError
unfolding int_to_string
over_budget t hard =
    full_error resource (pos 3001) false "Task requires too many CPU slots"
      "resource_demand.cpu_slots exceeds hard CPU budget"
      (("cpu_slots", int_to_string t.resource_demand.cpu_slots)
        ∷ ("cpu_slots_hard", int_to_string hard)
        ∷ ("task_id", t.task_id)
        ∷ [])

-- The checks that come before the task's token is made.
unfoldable pub check_request : Pool → TaskDescriptor → Bool → Status
unfolding find_node over_budget
check_request p t has_stage =
    guard has_stage (internal_error "Stage must not be null")
    >> guard (not (is_empty t.task_id)) (internal_error "task_id must not be empty")
    >> guard (not (has_value (find_node t.task_id p.nodes)))
        (internal_error (concat ("Duplicate task_id: " ∷ t.task_id ∷ [])))
    >> guard (not (ltb_ℤ p.config.resource_budget.cpu_slots_hard t.resource_demand.cpu_slots))
        (over_budget t p.config.resource_budget.cpu_slots_hard)

-- The loop over the dependencies. It writes the successor lists as it goes, so what it has written
-- stays when a later dependency makes `submit` fail.
pub data Linked : Type 0 where
  refused : TaskError → Successors → Linked
  linked : (unmet : ℕ) (blocked_by : Option String) → Successors → Linked

unfoldable pub link_deps : List Node → String → List String → ℕ → Successors → Linked
unfolding find_node add_successor
link_deps nodes id [] unmet succ = linked unmet none succ
link_deps nodes id (d ∷ ds) unmet succ =
    if str_eq d id
    then refused (internal_error (concat ("Task cannot depend on itself: " ∷ id ∷ []))) succ
    else elim (find_node d nodes) [
      | none ↦ refused (internal_error (concat ("Dependency not found: " ∷ d ∷ []))) succ
      | some dep ↦
          let succ' = add_successor d id succ in
          let met = link_deps nodes id ds unmet succ' in
          let waits = link_deps nodes id ds (suc unmet) succ' in
          elim dep.task.state [
            | succeeded ↦ met
            | failed ↦ linked unmet (some d) succ'
            | TaskState.canceled ↦ linked unmet (some d) succ'
            | _ ↦ waits
          ]
    ]

abbrev pub new_node : TaskDescriptor → ℕ → ℕ → ℕ → Node
new_node t stage unmet now = record {
  task = t;
  stage = stage;
  last_outputs = [];
  unmet_deps = unmet;
  ready_since = now;
  running = false;
  pause_requested = false;
  pause_deadline = none;
}

blocked_error : String → TaskError
blocked_error d =
    full_error canceled (pos 3002) false "Task canceled because dependency already failed"
      "Dependency already terminal before submit" (("dependency_task_id", d) ∷ [])

-- `nodes_.emplace`, then the events after the lock is released.
abbrev pub add_node : Pool → Node → List StateEvent → Pool
add_node p n events = dispatch_events (record p { nodes = p.nodes ++ n ∷ [] }) events

unfoldable pub place : Pool → TaskDescriptor → ℕ → ℕ → Linked → Pool × Status
unfolding blocked_error transition_to insert dispatch_events
place p t stage now (refused e succ) = (record p { successors = succ }, err e)
place p t stage now (linked unmet (some d) succ) =
    let (t', r) =
      transition_to (record t { error = some (blocked_error d) }) TaskState.canceled now in
    (
      add_node (record p { successors = succ }) (new_node t' stage unmet now)
          (if is_ok r then event t'.task_id TaskState.canceled t'.progress ∷ [] else []),
      ok tt,
    )
place p t stage now (linked (suc unmet) none succ) =
    (add_node (record p { successors = succ }) (new_node t stage (suc unmet) now) [], ok tt)
place p t stage now (linked ℕ.zero none succ) =
    let (t', r) = transition_to t ready now in
    if is_ok r
    then (
      add_node (record p { successors = succ; ready_set = insert t.task_id p.ready_set })
          (new_node t' stage 0 now) (event t'.task_id ready t'.progress ∷ []),
      ok tt,
    )
    else (record p { successors = succ }, r)

-- `if (!task.cancel_token) task.cancel_token = CancelToken::create();`
abbrev pub with_token : Pool → TaskDescriptor → Pool × TaskDescriptor
with_token p t = elim t.cancel_token [
  | some a ↦ (p, t)
  | none ↦
      let (tokens, a) = allocate p.tokens in
      (record p { tokens = tokens }, record t { cancel_token = some a })
]

-- What follows the first checks.
unfoldable pub admit : Pool → TaskDescriptor → ℕ → ℕ → Pool × Status
unfolding creates_cycle link_deps place allocate
admit p t stage now =
    let (p', t') = with_token p t in
    if creates_cycle p'.successors t'.task_id t'.deps
    then (
      p',
      err (internal_error (concat ("Dependency cycle detected for task: " ∷ t'.task_id ∷ []))),
    )
    else place p' t' stage now (link_deps p'.nodes t'.task_id t'.deps 0 p'.successors)

-- The task as `submit` keeps it.
unfoldable pub normalized : TaskDescriptor → TaskDescriptor
unfolding normalize_demand
normalized t = record t { resource_demand = normalize_demand t.resource_demand }

unfoldable pub submit : Pool → TaskDescriptor → Option ℕ → ℕ → Pool × Status
unfolding normalized check_request admit
submit p task none now = (p, check_request p task false)
submit p task (some stage) now = elim (check_request p (normalized task) true) [
  | ok _ ↦ admit p (normalized task) stage now
  | err e ↦ (p, err e)
]
