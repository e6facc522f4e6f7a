-- ===== src/ThreadPool/Graph.antt =====
-- core/src/thread_pool_scheduler.cpp: `creates_cycle_locked`, `wake_successors_locked` and
-- `propagate_dependency_canceled_locked`. A vector used as a stack is a list with its back first.
-- The loops take fuel: each round pops one entry, and only the entries of the successor lists and
-- those given are ever pushed.
use stv_renew.Prelude.{
  ℕ, zero, suc, ◌+◌, ◌-◌, Bool, true, false, not, ◌||◌, ◌==◌, String, List, [], ◌∷◌, ◌++◌, Option,
  none, some, str_eq, contains, if◌then◌else◌, length, ◌&&◌,
}
use stv_renew.Prelude.Int.{pos}
use stv_renew.Errors.{TaskError, full_error, canceled, is_ok}
use stv_renew.Cancel.{request_at}
use stv_renew.Task.{TaskState, queued, ready, is_terminal, state_eq, transition_to}
use stv_renew.Notify.{StateEvent, event, token_callbacks}
use stv_renew.ThreadPool.State.{
  Node, Pool, Successors, find_node, put_node, insert, erase, successors_of,
}

-- `for (x : xs) stack.push_back(x);`
abbrev pub push_all : List String → List String → List String
push_all [] stack = stack
push_all (x ∷ xs) stack = push_all xs (x ∷ stack)

abbrev pub edge_count : Successors → ℕ
edge_count [] = 0
edge_count ((k, v) ∷ m) = length v + edge_count m

-- `none`: the fuel ran out.
unfoldable pub cycle_search : ℕ → Successors → String → (stack visited : List String) → Option Bool
unfolding successors_of
cycle_search zero succ id stack visited = none
cycle_search (suc fuel) succ id [] visited = some false
cycle_search (suc fuel) succ id (current ∷ stack) visited =
    let again = cycle_search fuel succ id stack visited in
    let deeper =
      cycle_search fuel succ id (push_all (successors_of current succ) stack) (current ∷ visited) in
    if str_eq current id then some true else if contains visited current then again else deeper

abbrev pub found : Option Bool → Bool
found none = false
found (some b) = b

unfoldable pub creates_cycle : Successors → String → List String → Bool
unfolding cycle_search
creates_cycle succ id deps =
    found (cycle_search (suc (length deps + edge_count succ)) succ id (push_all deps []) [])

-- The body of the loop of `wake_successors_locked`, with the events so far.
unfoldable pub wake : ℕ → Pool × List StateEvent → String → Pool × List StateEvent
unfolding find_node put_node insert transition_to state_eq
wake now (p, events) id = elim (find_node id p.nodes) [
  | none ↦ (p, events)
  | some n ↦
      if not (state_eq n.task.state queued) || n.unmet_deps == 0
      then (p, events)
      else let left = n.unmet_deps - 1 in
        let (t, r) = transition_to n.task ready now in
        if left == 0 && is_ok r
        then (
          record (put_node p (record n { task = t; unmet_deps = left; ready_since = now })) {
            ready_set = insert id p.ready_set;
          },
          events ++ event id ready t.progress ∷ [],
        )
        else (put_node p (record n { unmet_deps = left }), events)
]

unfoldable pub wake_all : ℕ → Pool × List StateEvent → List String → Pool × List StateEvent
unfolding wake
wake_all now pe [] = pe
wake_all now pe (id ∷ ids) = wake_all now (wake now pe id) ids

unfoldable pub wake_successors : ℕ → String → Pool × List StateEvent → Pool × List StateEvent
unfolding wake_all successors_of
wake_successors now id (p, events) = wake_all now (p, events) (successors_of id p.successors)

pub ancestor_failed : String → TaskError
ancestor_failed current =
    full_error canceled (pos 3004) false "Task canceled due to dependency failure"
      "Ancestor task failed or canceled" (("dependency_task_id", current) ∷ [])

-- A node that is not terminal: its token, the ready set, its error, its state, the event.
unfoldable pub cancel_node : ℕ → String → Pool × List StateEvent → Node → Pool × List StateEvent
unfolding request_at erase ancestor_failed transition_to put_node state_eq
cancel_node now current (p, events) n =
    let id = n.task.task_id in
    let (tokens, invoked) = request_at n.task.cancel_token p.tokens in
    let (t, r) =
      transition_to (record n.task { error = some (ancestor_failed current) }) TaskState.canceled
        now in
    (
      record (put_node p (record n { task = t })) {
        tokens = tokens;
        effects = p.effects ++ token_callbacks invoked;
        ready_set = if state_eq n.task.state ready then erase id p.ready_set else p.ready_set;
      },
      if is_ok r then events ++ event id TaskState.canceled t.progress ∷ [] else events,
    )

-- The variables of the walk.
pub record Walk : Type 0 where
  pub pool : Pool
  pub events : List StateEvent
  pub stack : List String
  pub visited : List String

-- One successor. An id without a node is marked visited and not pushed.
unfoldable pub visit : ℕ → String → Walk → String → Walk
unfolding find_node is_terminal cancel_node
visit now current w id = if contains w.visited id then w else elim (find_node id w.pool.nodes) [
  | none ↦ record w { visited = id ∷ w.visited }
  | some n ↦
      let (p, events) =
        if is_terminal n.task.state
        then (w.pool, w.events)
        else cancel_node now current (w.pool, w.events) n in
      record { pool = p; events = events; stack = id ∷ w.stack; visited = id ∷ w.visited }
]

unfoldable pub visit_all : ℕ → String → Walk → List String → Walk
unfolding visit
visit_all now current w [] = w
visit_all now current w (id ∷ ids) = visit_all now current (visit now current w id) ids

-- `none`: the fuel ran out.
unfoldable pub walk :
    ℕ → ℕ → Pool → List StateEvent → (stack visited : List String) → Option (Pool × List StateEvent)
unfolding visit_all successors_of
walk zero now p events stack visited = none
walk (suc fuel) now p events [] visited = some (p, events)
walk (suc fuel) now p events (current ∷ stack) visited =
    let w =
      visit_all now current (record { pool = p; events = events; stack = stack; visited = visited })
        (successors_of current p.successors) in
    walk fuel now w.pool w.events w.stack w.visited

abbrev pub walked :
    Pool × List StateEvent → Option (Pool × List StateEvent) → Pool × List StateEvent
walked start none = start
walked start (some r) = r

unfoldable pub propagate_canceled : ℕ → String → Pool × List StateEvent → Pool × List StateEvent
unfolding walk
propagate_canceled now root (p, events) =
    walked (p, events) (walk (suc (suc (edge_count p.successors))) now p events (root ∷ []) [])
