-- ===== src/ThreadPool/Changes/Requests.antt =====
-- `submit`, `cancel`, `pause`, `resume` and `tick` as changes.
use stv_renew.ThreadPool.Graph.{propagate_canceled}
use stv_renew.Prelude.{
  ◌≡◌, refl, inl, inr, ℕ, Bool, true, false, not, String, List, [], ◌∷◌, Option, none, some,
  Option-cases, Bool-cases, if◌then◌else◌, arith,
}
use stv_renew.Errors.{TaskError, Status, ok, err, is_ok, canceled_error}
use stv_renew.Task.{
  TaskState, ready, running, paused, canceled, failed, succeeded, state_eq, is_terminal,
  transition_to, TaskDescriptor,
}
use stv_renew.Task.Lifecycle.{resume_target}
use stv_renew.Task.Active.{Moves, Moves-trans, Moves-refl, transition_to-Moves, error-Moves}
use stv_renew.Notify.{event}
use stv_renew.ThreadPool.State.{Node, Pool, find_node, put_node, dispatch_events, erase, insert}
use stv_renew.ThreadPool.Requests.{
  cancel, cancel_found, pause, pause_found, pause_end, pause_reached, resume, tick, cancel_all,
  timed_out, with_error,
}
use stv_renew.ThreadPool.Changes.{books, Changes, done, quiet_write, Changes-trans}
use stv_renew.ThreadPool.Changes.Graph.{propagate_canceled-Changes}

with_error-Moves : (t : TaskDescriptor) → Moves t (with_error t)
with_error-Moves t = by_case t.error
  where
    noted : Option TaskError → TaskDescriptor
    noted none = record t { error = some (canceled_error "Operation canceled") }
    noted (some _) = t

    by_case : (o : Option TaskError) → Moves t (noted o)
    by_case none = error-Moves t _
    by_case (some x) = Moves-refl

is_paused : (t : TaskDescriptor) → state_eq t.state paused ≡ true → t.state ≡ paused
unfolding state_eq
is_paused t h = ground arith

module _ {s : Bool} where
  cancel_found-Changes :
      (p : Pool) (n : Node) (id : String) (now : ℕ)
      → find_node id p.nodes ≡ some n
      → Changes s (books p) (books (cancel_found p n now).0)
  unfolding cancel_found put_node dispatch_events
  cancel_found-Changes p n id now found =
      by_state (is_terminal n.task.state) (transition_to n.task canceled now).1
    where
      still : Node
      still = record n { pause_requested = false; pause_deadline = none }

      less : List String
      less = if state_eq n.task.state ready then erase n.task.task_id p.ready_set else p.ready_set

      moved : Status → Pool × Status
      moved (err e) = (record (put_node p still) { ready_set = less }, err e)
      moved (ok _) =
          let t = with_error (transition_to n.task canceled now).0 in
          let (p'', events) = propagate_canceled now n.task.task_id (
            record (put_node p (record still { task = t })) { ready_set = less },
            event n.task.task_id canceled t.progress ∷ [],
          ) in
          (dispatch_events p'' events, ok tt)

      by_result : (r : Status) → Changes s (books p) (books (moved r).0)
      by_result (err e) = quiet_write (books p) id n still found refl refl Moves-refl
      by_result (ok _) =
          Changes-trans
            (quiet_write (books p) id n _ found refl refl (
              Moves-trans (transition_to-Moves n.task canceled now (inr (inl refl)))
                (with_error-Moves _)))
            (propagate_canceled-Changes now n.task.task_id _)

      by_state :
          (ended : Bool) (r : Status)
          → Changes s (books p) (
              books (if◌then◌else◌ {A = Pool × Status} ended (put_node p still, ok tt) (moved r)).0)
      by_state true r = quiet_write (books p) id n still found refl refl Moves-refl
      by_state false r = by_result r

  pub cancel-Changes :
      (p : Pool) (id : String) (now : ℕ) → Changes s (books p) (books (cancel p id now).0)
  unfolding cancel
  cancel-Changes p id now = elim (Option-cases (find_node id p.nodes)) [
    | inl e ↦ rw (e, cancel) done
    | inr (n, e) ↦ rw (e, cancel) (cancel_found-Changes _ n id now e)
  ]

  pause_found-Changes :
      (p : Pool) (n : Node) (id : String) (now : ℕ) (st : TaskState)
      → find_node id p.nodes ≡ some n
      → Changes s (books p) (books (pause_found p n now st).0)
  unfolding pause_found put_node dispatch_events
  pause_found-Changes p n id now paused found = done
  pause_found-Changes p n id now running found =
      quiet_write (books p) id n _ found refl refl Moves-refl
  pause_found-Changes p n id now canceled found = done
  pause_found-Changes p n id now failed found = done
  pause_found-Changes p n id now succeeded found = done
  pause_found-Changes p n id now _ found =
      elim (Bool-cases (is_ok (transition_to n.task paused now).1)) [
        | inl e ↦
            rw (e, pause_found)
              (quiet_write (books p) id n _ found refl refl
                (transition_to-Moves n.task paused now (inl refl)))
        | inr e ↦
            rw (e, pause_found)
              (quiet_write (books p) id n _ found refl refl
                (transition_to-Moves n.task paused now (inl refl)))
      ]

  pub pause-Changes :
      (p : Pool) (id : String) (now : ℕ) → Changes s (books p) (books (pause p id now).0)
  unfolding pause
  pause-Changes p id now = elim (Option-cases (find_node id p.nodes)) [
    | inl e ↦ rw (e, pause) done
    | inr (n, e) ↦ rw (e, pause) (pause_found-Changes p n id now n.task.state e)
  ]

  pub pause_end-Changes :
      (p : Pool) (id : String) (now : ℕ) → Changes s (books p) (books (pause_end p id now).0)
  unfolding pause_end
  pause_end-Changes p id now = elim (Bool-cases (pause_reached p id)) [
    | inl e ↦ rw (e, pause_end) done
    | inr e ↦ rw (e, pause_end) (cancel-Changes p id now)
  ]

  pub resume-Changes :
      (p : Pool) (id : String) (now : ℕ) → Changes s (books p) (books (resume p id now).0)
  unfolding resume put_node dispatch_events
  resume-Changes p id now = by_case _ _ (find_node id p.nodes) refl
    where
      still : Node → Node
      still n = record n {
        task = (transition_to n.task (resume_target n.task) now).0;
        pause_requested = false;
        pause_deadline = none;
      }

      back : Node → Bool → Pool
      back n b =
          if b
          then record (put_node p (record (still n) { ready_since = now })) {
            ready_set = insert id p.ready_set;
          }
          else put_node p (still n)

      by_result : Node → Status → Pool × Status
      by_result n (err e) = (
        put_node p (record n { task = (transition_to n.task (resume_target n.task) now).0 }),
        err e,
      )
      by_result n (ok _) = (
        dispatch_events (back n (state_eq (resume_target n.task) ready))
            (event id (resume_target n.task) (still n).task.progress ∷ []),
        ok tt,
      )

      looked : TaskError → TaskError → Option Node → Pool × Status
      looked x y none = (p, err x)
      looked x y (some n) =
          if not (state_eq n.task.state paused)
          then (p, err y)
          else by_result n (transition_to n.task (resume_target n.task) now).1

      back-Changes :
          (n : Node) (b : Bool)
          → find_node id p.nodes ≡ some n
          → n.task.state ≡ paused
          → Changes s (books p) (books (back n b))
      back-Changes n true found st =
          quiet_write (books p) id n _ found refl refl
            (transition_to-Moves n.task _ now (inr (inr (inr (inr (st, refl))))))
      back-Changes n false found st =
          quiet_write (books p) id n _ found refl refl
            (transition_to-Moves n.task _ now (inr (inr (inr (inr (st, refl))))))

      moved :
          (n : Node) (r : Status)
          → find_node id p.nodes ≡ some n
          → n.task.state ≡ paused
          → Changes s (books p) (books (by_result n r).0)
      moved n (ok _) found st = back-Changes n (state_eq (resume_target n.task) ready) found st
      moved n (err _) found st =
          quiet_write (books p) id n _ found refl refl
            (transition_to-Moves n.task _ now (inr (inr (inr (inr (st, refl))))))

      by_tests :
          (y : TaskError) (n : Node) (b : Bool) (r : Status)
          → find_node id p.nodes ≡ some n
          → state_eq n.task.state paused ≡ b
          → Changes s
              (books p)
              (books (if◌then◌else◌ {A = Pool × Status} (not b) (p, err y) (by_result n r)).0)
      by_tests y n true r found e = moved n r found (is_paused n.task e)
      by_tests y n false r found e = done

      by_case :
          (x y : TaskError) (o : Option Node)
          → find_node id p.nodes ≡ o
          → Changes s (books p) (books (looked x y o).0)
      by_case x y none e = done
      by_case x y (some n) e = by_tests y n _ _ e refl

  cancel_all-Changes :
      (p : Pool) (ids : List String) (now : ℕ) → Changes s (books p) (books (cancel_all p ids now))
  unfolding cancel_all
  cancel_all-Changes p [] now = done
  cancel_all-Changes p (id ∷ ids) now =
      Changes-trans (cancel-Changes p id now) (cancel_all-Changes (cancel p id now).0 ids now)

  pub tick-Changes : (p : Pool) (now : ℕ) → Changes s (books p) (books (tick p now))
  unfolding tick
  tick-Changes p now = cancel_all-Changes p (timed_out p.nodes now) now
