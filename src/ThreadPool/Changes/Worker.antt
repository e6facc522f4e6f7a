-- ===== src/ThreadPool/Changes/Worker.antt =====
-- The start of a stage and its progress as changes.
use stv_renew.Task.Transition.{transition_to-Allowed}
use mathlib.Core.Path.{subst}
use stv_renew.Prelude.{
  ◌≡◌, ◌∙◌, refl, sym, ap, inl, inr, ℕ, Bool, true, false, ◌&&◌, ◌++◌, String, List, [], ◌∷◌,
  Option, none, some, Option-cases, Bool-cases, if◌then◌else◌,
}
use stv_renew.Prelude.Float.{Float}
use stv_renew.Errors.{is_ok}
use stv_renew.Task.{ready, running, paused, state_eq, transition_to, set_progress}
use stv_renew.Task.Active.{Moves-trans, transition_to-Moves, set_progress-Moves}
use stv_renew.Notify.{StateEvent, event}
use stv_renew.Pipeline.{Dispatch}
use stv_renew.ThreadPool.State.{
  Node, Pool, find_node, set_node, put_node, dispatch_events, insert, reserve_resources,
}
use stv_renew.ThreadPool.Nodes.{find_node-id}
use stv_renew.ThreadPool.Pick.{Candidate, pick_candidate, fits_cpu_hard}
use stv_renew.ThreadPool.Choice.{Chosen, pick_candidate-Chosen}
use stv_renew.ThreadPool.Starting.{candidate_of-none, candidate_of-ready, starts, started_node}
use stv_renew.ThreadPool.Worker.{
  start_node, start_candidate, worker_begin, report_progress, progress_resumed,
}
use stv_renew.ThreadPool.Changes.{books, Changes, done, start, one, quiet_write}

start_node-books :
    (p : Pool) (n : Node) (now : ℕ)
    → n.task.state ≡ ready
    → books (start_node p n now).0 ≡ record (books p) {
      nodes = set_node (started_node n now) p.nodes;
      running_set = insert n.task.task_id p.running_set;
      in_use = reserve_resources (started_node n now).task.resource_demand p.resource_in_use;
    }
unfolding start_node put_node dispatch_events
start_node-books p n now h = rw ((starts n.task now h).0, start_node) refl

started_node-deps : (n : Node) (now : ℕ) → (started_node n now).task.deps ≡ n.task.deps
started_node-deps n now = (transition_to-Allowed n.task running now).4

module _ {s : Bool} where
  start_node-Changes :
      (p : Pool) (n : Node) (id : String) (now : ℕ)
      → find_node id p.nodes ≡ some n
      → n.task.state ≡ ready
      → fits_cpu_hard p.config p.resource_in_use n.task.resource_demand ≡ true
      → Changes s (books p) (books (start_node p n now).0)
  unfolding fits_cpu_hard
  start_node-Changes p n id now found st fits =
      let (accepted, runs, same_id, same_demand) = starts n.task now st in
      let there =
        ap (λ i. find_node i p.nodes) (same_id ∙ find_node-id id p.nodes n found) ∙ found in
      subst (Changes s (books p)) (sym (start_node-books p n now st)) (
        subst
          (λ i. Changes s (books p) (record (books p) {
            nodes = set_node (started_node n now) p.nodes;
            running_set = insert i p.running_set;
            in_use = reserve_resources (started_node n now).task.resource_demand p.resource_in_use;
          }))
          same_id
          (one (
            start n (started_node n now) there st runs refl same_demand (started_node-deps n now)
              fits)))

  start_candidate-Changes :
      (p : Pool) (now : ℕ) (o : Option Candidate)
      → Chosen p now o
      → Changes s (books p) (books (start_candidate p o now).0)
  start_candidate-Changes p now none c = done
  start_candidate-Changes p now (some c) ((id, listed, (offer, _)), top, within) =
      elim (Option-cases (find_node id p.nodes)) [
        | inl k ↦ absurd (candidate_of-none p now id c k offer)
        | inr (n, k) ↦
            let (st, fits, name) = candidate_of-ready p now id c n k offer in
            let found = ap (λ i. find_node i p.nodes) name ∙ k in
            rw (found, start_candidate) (start_node-Changes p n c.task_id now found st fits)
      ]

  pub worker_begin-Changes :
      (p : Pool) (now : ℕ) → Changes s (books p) (books (worker_begin p now).0)
  unfolding worker_begin
  worker_begin-Changes p now =
      by_stop _ p.stopping
        (start_candidate-Changes p now (pick_candidate p now true) (pick_candidate-Chosen p now))
    where
      by_stop :
          (x : Pool × Option Dispatch) (stop : Bool)
          → Changes s (books p) (books x.0)
          → Changes s (books p) (books (if stop then (p, none) else x).0)
      by_stop x true c = done
      by_stop x false c = c

  pub report_progress-Changes :
      (p : Pool) (id : String) (value : Float) (now : ℕ)
      → Changes s (books p) (books (report_progress p id value now).0)
  unfolding report_progress put_node dispatch_events
  report_progress-Changes p id value now = by_case (find_node id p.nodes) refl
    where
      told : Node → List StateEvent
      told n =
          let t = set_progress n.task value in
          if state_eq t.state running then event id running t.progress ∷ [] else []

      by_pause : Node → Bool → Pool × Bool
      by_pause n b =
          let t = set_progress n.task value in
          let (t', r) = transition_to t paused now in
          if b
          then (
            dispatch_events
                (put_node p
                  (record n { task = t'; pause_requested = false; pause_deadline = none }))
                (told n ++ event id paused t'.progress ∷ []),
            true,
          )
          else (dispatch_events (put_node p (record n { task = t })) (told n), false)

      looked : Option Node → Pool × Bool
      looked none = (p, false)
      looked (some n) =
          let t = set_progress n.task value in
          by_pause n
            (n.pause_requested && state_eq t.state running && is_ok (transition_to t paused now).1)

      by_test :
          (n : Node) (b : Bool)
          → find_node id p.nodes ≡ some n
          → Changes s (books p) (books (by_pause n b).0)
      by_test n true found = quiet_write (books p) id n _ found refl refl (
          Moves-trans (set_progress-Moves n.task value)
            (transition_to-Moves _ paused now (inl refl)))
      by_test n false found =
          quiet_write (books p) id n _ found refl refl (set_progress-Moves n.task value)

      by_case :
          (o : Option Node) → find_node id p.nodes ≡ o → Changes s (books p) (books (looked o).0)
      by_case none e = done
      by_case (some n) e = by_test n _ e

  pub progress_resumed-Changes :
      (p : Pool) (id : String) → Changes s (books p) (books (progress_resumed p id))
  unfolding progress_resumed dispatch_events
  progress_resumed-Changes p id = elim (Option-cases (find_node id p.nodes)) [
    | inl e ↦ rw (e, progress_resumed) done
    | inr (n, e) ↦ elim (Bool-cases (state_eq n.task.state running)) [
      | inl k ↦ rw (e, progress_resumed, k) done
      | inr k ↦ rw (e, progress_resumed, k) done
    ]
  ]
