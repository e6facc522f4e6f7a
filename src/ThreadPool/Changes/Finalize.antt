-- ===== src/ThreadPool/Changes/Finalize.antt =====
-- `finalize` as changes.
use stv_renew.Cancel.{is_canceled_at}
use stv_renew.ThreadPool.Graph.{wake_successors, propagate_canceled}
use mathlib.Core.Path.{subst}
use stv_renew.Prelude.{
  ◌≡◌, ◌∙◌, refl, ap, inl, inr, ℕ, Bool, true, false, not, ◌||◌, String, List, [], ◌∷◌, some,
  Option-cases, if◌then◌else◌, arith, ◌⊎◌, ◌≢◌,
}
use stv_renew.Prelude.Float.{float_one}
use stv_renew.Errors.{TaskError, Status, ok, err, is_ok, is_canceled_category}
use stv_renew.Task.{
  TaskState, canceled, failed, succeeded, state_eq, transition_to, set_progress, TaskDescriptor,
}
use stv_renew.Task.Active.{Moves-trans, transition_to-Moves, error-Moves, set_progress-Moves, Moves}
use stv_renew.Notify.{StateEvent, event}
use stv_renew.Pipeline.{Values}
use stv_renew.ThreadPool.State.{
  Node, Pool, find_node, put_node, dispatch_events, erase, release_resources, successors_of,
}
use stv_renew.ThreadPool.Nodes.{find_node-id, find_node-set_node_same, find_node_self}
use stv_renew.ThreadPool.Worker.{release_node, finish_ok, finish_err, settle, finalize}
use stv_renew.ThreadPool.Changes.{
  books, Changes, done, release, one, quiet_write, Changes-trans, waking, succeed,
}
use stv_renew.ThreadPool.Changes.Graph.{propagate_canceled-Changes, wake_all-Changes}

-- The node after `release_node`, with the changes.
record Freed (s : Bool) (p : Pool) (id : String) (x : Pool × Node) : Type 0 where
  changes : Changes s (books p) (books x.0)
  there : find_node id x.0.nodes ≡ some x.1

success :
    (t : TaskDescriptor) (now : ℕ)
    → (transition_to t succeeded now).1 ≡ ok tt
    → (t.state ≢ succeeded) × ((transition_to t succeeded now).0.state ≡ succeeded)
unfolding transition_to
success t now h = ((λ e. ground arith), ground arith)

found_as :
    (p : Pool) (n n' : Node) (id : String)
    → find_node id p.nodes ≡ some n
    → n'.task.task_id ≡ n.task.task_id
    → find_node n'.task.task_id p.nodes ≡ some n
found_as p n n' id found same =
    ap (λ i. find_node i p.nodes) (same ∙ find_node-id id p.nodes n found) ∙ found

module _ {s : Bool} where
  release_node-Freed :
      (p : Pool) (n : Node) (id : String)
      → find_node id p.nodes ≡ some n
      → Freed s p id (release_node p n)
  unfolding release_node put_node
  release_node-Freed p n id found = by_mark n.running refl
    where
      unmarked : Node
      unmarked = record n { running = false }

      freed : Pool
      freed = record (put_node p unmarked) {
        running_set = erase n.task.task_id p.running_set;
        resource_in_use = release_resources n.task.resource_demand p.resource_in_use;
      }

      by_mark :
          (b : Bool)
          → n.running ≡ b
          → Freed s p id (if◌then◌else◌ {A = Pool × Node} (not b) (p, n) (freed, unmarked))
      by_mark false e = record { changes = done; there = found }
      by_mark true e = record {
        changes = one (release n (find_node_self id p.nodes n found) e);
        there =
            find_node-set_node_same id unmarked n p.nodes (find_node-id id p.nodes n found) found;
      }

  failing :
      (p : Pool) (n : Node) (id : String) (e : TaskError) (target : TaskState) (now : ℕ)
      → find_node id p.nodes ≡ some n
      → (target ≡ canceled) ⊎ (target ≡ failed)
      → Changes s (books p) (
          books (
            put_node p (record n {
              task = (transition_to (record n.task { error = some e }) target now).0;
            })))
  unfolding put_node
  failing p n id e target now found h =
      quiet_write (books p) id n _ found refl refl
        (Moves-trans (error-Moves n.task e) (transition_to-Moves _ target now (ground arith)))

  finish_ok-Changes :
      (p : Pool) (n : Node) (id : String) (outputs : Values) (now : ℕ)
      → find_node id p.nodes ≡ some n
      → Changes s (books p) (books (finish_ok p n outputs now).0)
  unfolding finish_ok put_node set_progress wake_successors
  finish_ok-Changes p n id outputs now found = by_result (transition_to n.task succeeded now).1 refl
    where
      done_node : Node
      done_node = record n {
        task = set_progress (transition_to n.task succeeded now).0 float_one;
        last_outputs = outputs;
      }

      done_moves : Moves n.task done_node.task
      done_moves =
          Moves-trans (transition_to-Moves n.task succeeded now (inr (inr (inr (inl refl)))))
            (set_progress-Moves _ float_one)

      ended : Status → Pool × List StateEvent
      ended (ok _) = wake_successors now n.task.task_id (
        put_node p (record n {
          task = set_progress (transition_to n.task succeeded now).0 float_one;
          last_outputs = outputs;
        }),
        event n.task.task_id succeeded float_one ∷ [],
      )
      ended (err e) =
          let (t', r') = transition_to (record n.task { error = some e }) failed now in
          propagate_canceled now n.task.task_id (
            put_node p (record n { task = t' }),
            if is_ok r' then event n.task.task_id failed t'.progress ∷ [] else [],
          )

      by_result :
          (r : Status)
          → (transition_to n.task succeeded now).1 ≡ r
          → Changes s (books p) (books (ended r).0)
      by_result (ok _) e =
          let (before, after) = success n.task now e in
          Changes-trans
            (subst
              (λ i.
                Changes s (books p) (waking (put_node p done_node) (successors_of i p.successors)))
              done_moves.same_id
              (one (
                succeed n done_node (found_as p n done_node id found done_moves.same_id) refl refl
                  done_moves before after refl)))
            (wake_all-Changes now
              (put_node p done_node, event n.task.task_id succeeded float_one ∷ [])
              (successors_of n.task.task_id p.successors))
      by_result (err e) k =
          Changes-trans (failing p n id e failed now found (inr refl))
            (propagate_canceled-Changes now n.task.task_id _)

  finish_err-Changes :
      (p : Pool) (n : Node) (id : String) (e : TaskError) (now : ℕ)
      → find_node id p.nodes ≡ some n
      → Changes s (books p) (books (finish_err p n e now).0)
  unfolding finish_err
  finish_err-Changes p n id e now found =
      Changes-trans
        (failing p n id e _ now found
          (either (is_canceled_category e.category || is_canceled_at n.task.cancel_token p.tokens)))
        (propagate_canceled-Changes now n.task.task_id _)
    where
      either :
          (b : Bool)
          → ((if b then canceled else failed) ≡ canceled)
            ⊎ ((if b then canceled else failed) ≡ failed)
      either true = inl refl
      either false = inr refl

  settle-Changes :
      (p : Pool) (n : Node) (id : String) (result : Status) (outputs : Values) (now : ℕ)
      → find_node id p.nodes ≡ some n
      → Changes s (books p) (books (settle p n result outputs now).0)
  unfolding settle
  settle-Changes p n id result outputs now found = by_state (state_eq n.task.state canceled) result
    where
      by_state :
          (b : Bool) (r : Status)
          → Changes s (books p) (
              books
                (if◌then◌else◌ {A = Pool × List StateEvent} b
                  (propagate_canceled now n.task.task_id (p, []))
                  (elim r [ ok _ ↦ finish_ok p n outputs now | err e ↦ finish_err p n e now ])).0)
      by_state true r = propagate_canceled-Changes now n.task.task_id (p, [])
      by_state false (ok _) = finish_ok-Changes p n id outputs now found
      by_state false (err e) = finish_err-Changes p n id e now found

  pub finalize-Changes :
      (p : Pool) (id : String) (result : Status) (outputs : Values) (now : ℕ)
      → Changes s (books p) (books (finalize p id result outputs now))
  unfolding finalize dispatch_events
  finalize-Changes p id result outputs now = elim (Option-cases (find_node id p.nodes)) [
    | inl e ↦ rw (e, finalize) done
    | inr (n, e) ↦
        let (p', n') = release_node p n in
        let f = release_node-Freed p n id e in
        rw (e, finalize)
          (Changes-trans f.changes (settle-Changes p' n' id result outputs now f.there))
  ]
