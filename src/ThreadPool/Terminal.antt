-- ===== src/ThreadPool/Terminal.antt =====
-- `propagate_dependency_canceled_locked` and the wake-up leave terminal tasks alone, and a canceled
-- task stays canceled whatever its stage returns.
use stv_renew.Prelude.{
  ◌≡◌, refl, sym, ◌∙◌, ap, inl, inr, ℕ, zero, suc, Bool, true, false, String, List, [], ◌∷◌, Option,
  none, some, Bool-cases, some_inj, contains, str_eq-cases, if◌then◌else◌, not, if_true, if_false,
}
use stv_renew.Errors.{Status}
use stv_renew.Task.{canceled, is_terminal, state_eq, transition_to, TaskDescriptor}
use stv_renew.Task.Transition.{transition_to-Allowed}
use mathlib.Core.Path.{subst}
use stv_renew.Notify.{StateEvent}
use stv_renew.Pipeline.{Values}
use stv_renew.ThreadPool.State.{
  Node, Pool, find_node, set_node, put_node, dispatch_events, successors_of,
}
use stv_renew.ThreadPool.Graph.{
  ancestor_failed, cancel_node, Walk, visit, visit_all, walk, walked, propagate_canceled,
  edge_count,
}
use stv_renew.ThreadPool.Nodes.{find_node-id, find_node-set_node_same, find_node-set_node_other}
use stv_renew.ThreadPool.Worker.{release_node, settle, finalize}

-- The table holds the node under the id, and its task has ended.
abbrev pub Ended : String → Node → Pool → Type 0
Ended x m p = (find_node x p.nodes ≡ some m) × (is_terminal m.task.state ≡ true)

-- A write to a node whose task has not ended.
write-Ended :
    (x : String) (m n n' : Node) (p : Pool) (id : String)
    → find_node id p.nodes ≡ some n
    → n'.task.task_id ≡ n.task.task_id
    → is_terminal n.task.state ≡ false
    → Ended x m p
    → find_node x (set_node n' p.nodes) ≡ some m
write-Ended x m n n' p id found same live (h, t) = elim (str_eq-cases id x) [
  | inl (_, e) ↦
      let one : n ≡ m = some_inj (sym found ∙ ap (λ i. find_node i p.nodes) e ∙ h) in
      absurd (apart (sym live ∙ ap (λ (y : Node). is_terminal y.task.state) one ∙ t))
  | inr (_, other) ↦
      find_node-set_node_other x n' p.nodes
        (λ e. other (sym (find_node-id id p.nodes n found) ∙ sym same ∙ e))
      ∙ h
]
  where
    apart : false ≡ true → ⊥
    apart e = cc

pub cancel_node-nodes :
    (now : ℕ) (current : String) (p : Pool) (events : List StateEvent) (n : Node)
    → (cancel_node now current (p, events) n).0.nodes
      ≡ set_node
          (record n {
            task =
                (transition_to
                  (record n.task { error = some (ancestor_failed current) })
                  canceled
                  now).0;
          })
          p.nodes
unfolding cancel_node put_node
cancel_node-nodes now current p events n = refl

cancel_node-Ended :
    (now : ℕ) (current : String) (p : Pool) (events : List StateEvent) (n : Node) (id x : String)
    (m : Node)
    → find_node id p.nodes ≡ some n
    → is_terminal n.task.state ≡ false
    → Ended x m p
    → Ended x m (cancel_node now current (p, events) n).0
cancel_node-Ended now current p events n id x m found live (h, t) = (
  ap (find_node x) (cancel_node-nodes now current p events n)
      ∙ write-Ended x m n _ p id found
          (transition_to-Allowed (record n.task { error = some (ancestor_failed current) }) canceled
            now).3
          live (h, t),
  t,
)

visited-Ended :
    (now : ℕ) (current : String) (w : Walk) (n : Node) (id x : String) (m : Node) (b : Bool)
    → find_node id w.pool.nodes ≡ some n
    → is_terminal n.task.state ≡ b
    → Ended x m w.pool
    → Ended x m (if b then (w.pool, w.events) else cancel_node now current (w.pool, w.events) n).0
visited-Ended now current w n id x m true found st h = h
visited-Ended now current w n id x m false found st h =
    cancel_node-Ended now current w.pool w.events n id x m found st h

visit-Ended :
    (now : ℕ) (current : String) (w : Walk) (id x : String) (m : Node)
    → Ended x m w.pool
    → Ended x m (visit now current w id).pool
unfolding visit
visit-Ended now current w id x m h =
    by_case (contains w.visited id) (find_node id w.pool.nodes) refl
  where
    by_case :
        (seen : Bool) (o : Option Node)
        → find_node id w.pool.nodes ≡ o
        → Ended x m
            (if seen then w else elim o [
              | none ↦ record w { visited = id ∷ w.visited }
              | some n ↦
                  let (p, events) =
                    if is_terminal n.task.state
                    then (w.pool, w.events)
                    else cancel_node now current (w.pool, w.events) n in
                  record {
                    pool = p;
                    events = events;
                    stack = id ∷ w.stack;
                    visited = id ∷ w.visited;
                  }
            ]).pool
    by_case true o e = h
    by_case false none e = h
    by_case false (some n) e =
        visited-Ended now current w n id x m (is_terminal n.task.state) e refl h

visit_all-Ended :
    (now : ℕ) (current : String) (ids : List String) (w : Walk) (x : String) (m : Node)
    → Ended x m w.pool
    → Ended x m (visit_all now current w ids).pool
unfolding visit_all
visit_all-Ended now current [] w x m h = h
visit_all-Ended now current (id ∷ ids) w x m h =
    visit_all-Ended now current ids (visit now current w id) x m
      (visit-Ended now current w id x m h)

walk-Ended :
    (fuel now : ℕ) (p : Pool) (events : List StateEvent) (stack visited : List String) (x : String)
    (m : Node) (start : Pool × List StateEvent)
    → Ended x m p
    → Ended x m start.0
    → Ended x m (walked start (walk fuel now p events stack visited)).0
unfolding walk
walk-Ended zero now p events stack visited x m start h s = s
walk-Ended (suc fuel) now p events [] visited x m start h s = h
walk-Ended (suc fuel) now p events (current ∷ stack) visited x m start h s =
    let w =
      visit_all now current (record { pool = p; events = events; stack = stack; visited = visited })
        (successors_of current p.successors) in
    walk-Ended fuel now w.pool w.events w.stack w.visited x m start
      (visit_all-Ended now current (successors_of current p.successors) _ x m h) s

pub propagate_canceled-Ended :
    (now : ℕ) (root x : String) (m : Node) (start : Pool × List StateEvent)
    → Ended x m start.0
    → Ended x m (propagate_canceled now root start).0
unfolding propagate_canceled
propagate_canceled-Ended now root x m (p, events) h =
    walk-Ended (suc (suc (edge_count p.successors))) now p events (root ∷ []) [] x m (p, events) h h

-- The node after `release_node`.
record Released (n : Node) (id : String) (x : Pool × Node) : Type 0 where
  there : find_node id x.0.nodes ≡ some x.1
  same_task : x.1.task ≡ n.task
  same_outputs : x.1.last_outputs ≡ n.last_outputs
  stopped : x.1.running ≡ false

release_node-Released :
    (p : Pool) (n : Node) (id : String)
    → find_node id p.nodes ≡ some n
    → Released n id (release_node p n)
unfolding release_node put_node
release_node-Released p n id h = elim (Bool-cases n.running) [
  | inl k ↦ subst (Released n id) (sym (if_false (not n.running) _ _ (ap not k))) (record {
    there =
        find_node-set_node_same id (record n { running = false }) n p.nodes
          (find_node-id id p.nodes n h) h;
    same_task = refl;
    same_outputs = refl;
    stopped = refl;
  })
  | inr k ↦
      subst (Released n id) (sym (if_true (not n.running) _ _ (ap not k)))
        (record { there = h; same_task = refl; same_outputs = refl; stopped = k })
]

settle-canceled :
    (p : Pool) (n : Node) (result : Status) (outputs : Values) (now : ℕ)
    → n.task.state ≡ canceled
    → settle p n result outputs now ≡ propagate_canceled now n.task.task_id (p, [])
unfolding settle state_eq
settle-canceled p n result outputs now h = if_true _ _ _ (ap (λ s. state_eq s canceled) h)

-- Whatever the stage of a canceled task returns, the task is unchanged and stays canceled, its outputs
-- are those from before, and it does not count as running any more.
pub finalize-canceled :
    (p : Pool) (id : String) (n : Node) (result : Status) (outputs : Values) (now : ℕ)
    → find_node id p.nodes ≡ some n
    → n.task.state ≡ canceled
    → (m : Node) × (find_node id (finalize p id result outputs now).nodes ≡ some m)
      × (m.task ≡ n.task)
      × (m.last_outputs ≡ n.last_outputs)
      × (m.running ≡ false)
unfolding finalize dispatch_events is_terminal
finalize-canceled p id n result outputs now h st =
    let (p', n') = release_node p n in
    let r = release_node-Released p n id h in
    let st' : n'.task.state ≡ canceled = ap (λ (t : TaskDescriptor). t.state) r.same_task ∙ st in
    let ended =
      propagate_canceled-Ended now n'.task.task_id id n' (p', []) (r.there, ap is_terminal st') in
    (
      n',
      rw (h, finalize)
          (ap (λ (x : Pool × List StateEvent). find_node id x.0.nodes)
              (settle-canceled p' n' result outputs now st')
            ∙ ended.0),
      r.same_task,
      r.same_outputs,
      r.stopped,
    )
