-- ===== src/ThreadPool/Examples/Histories.antt =====
-- Inputs for the theorems about the histories of the thread pool.
use stv_renew.Task.Active.{begun}
use stv_renew.ThreadPool.Changes.Steps.{AllAccepted}
use stv_renew.ThreadPool.Soundness.{run-Sound}
use stv_renew.Prelude.Float.{float_one, float_lt}
use stv_renew.Prelude.{◌≡◌, refl, [], ◌∷◌, List, some, none, true, false, All}
use stv_renew.Prelude.Int.{pos}
use stv_renew.Errors.{ok, err, internal, simple_error}
use stv_renew.Task.{succeeded, is_terminal, running, state_eq}
use stv_renew.ThreadPool.Config.{default_config}
use stv_renew.ThreadPool.State.{Node, Pool, find_node, create_pool}
use stv_renew.ThreadPool.Steps.{Op, run, submits, cancels, pauses, begins, ticks, finalizes}
use stv_renew.ThreadPool.Changes.{books, met}
use stv_renew.ThreadPool.Accounts.{Balanced, run-Balanced}
use stv_renew.ThreadPool.Outcomes.{Decided, run-Decided}
use stv_renew.ThreadPool.Examples.{task, pool, program}

-- Two tasks run, one of them is canceled while it runs, and the other is overdue.
abbrev busy_history : List Op
busy_history =
    submits (task "a" []) (some 1) 0
    ∷ submits (task "b" []) (some 2) 0
    ∷ submits (task "c" ("a" ∷ [])) (some 3) 0
    ∷ begins 1
    ∷ begins 1
    ∷ pauses "a" 2
    ∷ cancels "b" 3
    ∷ ticks 5000
    ∷ finalizes "b" (ok tt) [] 5001
    ∷ []

run-Balanced_example : Balanced (books (run (create_pool (pos 3) default_config) busy_history))
run-Balanced_example = run-Balanced (pos 3) default_config busy_history

-- Only "a" still holds its demand.
one_left : (run pool busy_history).running_set ≡ "a" ∷ []
unfolding program float_lt
one_left = refl

abbrev succeeds_once : Pool
succeeds_once =
    run pool (submits (task "a" []) (some 1) 0 ∷ begins 1 ∷ finalizes "a" (ok tt) [] 2 ∷ [])

abbrev succeeded_node : Node
succeeded_node = record {
  task = record (task "a" []) {
    state = succeeded;
    progress = float_one;
    started_at = some 1;
    finished_at = some 2;
    cancel_token = some 0;
  };
  stage = 1;
  last_outputs = [];
  unmet_deps = 0;
  ready_since = 0;
  running = false;
  pause_requested = false;
  pause_deadline = none;
}

it_has_succeeded : find_node "a" succeeds_once.nodes ≡ some succeeded_node
unfolding program float_lt
it_has_succeeded = refl

it_is_terminal : is_terminal succeeded_node.task.state ≡ true
unfolding is_terminal
it_is_terminal = refl

abbrev late_requests : List Op
late_requests = cancels "a" 3 ∷ finalizes "a" (err (simple_error internal 4 "late")) [] 4 ∷ []

run-Decided_example : Decided "a" succeeded_node (run succeeds_once late_requests).nodes
run-Decided_example =
    run-Decided succeeds_once "a" succeeded_node late_requests it_has_succeeded it_is_terminal

-- "b" waits for "a", is woken by its success, and runs.
abbrev chain_history : List Op
chain_history =
    submits (task "a" []) (some 1) 0
    ∷ submits (task "b" ("a" ∷ [])) (some 2) 0
    ∷ begins 1
    ∷ finalizes "a" (ok tt) [] 2
    ∷ begins 3
    ∷ []

abbrev woken_node : Node
woken_node = record {
  task = record (task "b" ("a" ∷ [])) {
    state = running;
    started_at = some 3;
    cancel_token = some 1;
  };
  stage = 2;
  last_outputs = [];
  unmet_deps = 0;
  ready_since = 2;
  running = true;
  pause_requested = false;
  pause_deadline = none;
}

woken_runs :
    find_node "b" (run (create_pool (pos 3) default_config) chain_history).nodes ≡ some woken_node
unfolding program float_lt
woken_runs = refl

woken_has_begun : begun woken_node.task ≡ true
unfolding state_eq
woken_has_begun = refl

chain_accepted : AllAccepted (create_pool (pos 3) default_config) chain_history
unfolding program float_lt
chain_accepted = ((refl, refl), ((refl, refl), (tt, (tt, (tt, tt)))))

run-Sound_example :
    All
      (λ d. met (run (create_pool (pos 3) default_config) chain_history).nodes d ≡ true)
      ("a" ∷ [])
run-Sound_example =
    run-Sound (pos 3) default_config chain_history "b" woken_node chain_accepted woken_runs
      woken_has_begun
