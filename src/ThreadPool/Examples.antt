-- ===== src/ThreadPool/Examples.antt =====
-- Inputs for the theorems about the thread pool, and tests.
mod Histories
use stv_renew.ThreadPool.Propagation.{Below, child, propagate_canceled-Below}
use stv_renew.ThreadPool.Terminal.{finalize-canceled}
use stv_renew.ThreadPool.Starting.{StartedNode, worker_begin-Started}
use stv_renew.ThreadPool.Worker.{worker_begin, finalize}
use stv_renew.Pipeline.{Dispatch}
use stv_renew.ThreadPool.Choice.{Chosen, pick_candidate-Chosen}
use stv_renew.ThreadPool.Pick.{Candidate, pick_candidate}
use stv_renew.ThreadPool.Defects.{resubmit_refused}
use stv_renew.ThreadPool.Submission.{submit, check_request, normalized}
use stv_renew.ThreadPool.Cycles.{creates_cycle-Leads, Leads}
use stv_renew.ThreadPool.Graph.{creates_cycle, propagate_canceled}
use stv_renew.ThreadPool.State.{Node, find_node, successors_of}
use stv_renew.Task.{is_terminal, ready}
use stv_renew.Errors.{internal_error}
use stv_renew.Prelude.{
  ◌≢◌, none, ◌↔◌, true, false, arith, str_eq, str_eq-cases, contains, concat, Option,
}
use stv_renew.Prelude.{◌≡◌, refl, String, List, [], ◌∷◌, some, map}
use stv_renew.Prelude.Int.{pos}
use stv_renew.Errors.{ok, err, internal, simple_error}
use stv_renew.Task.{
  TaskState, queued, running, canceled, succeeded, failed, image_gen, TaskDescriptor, new_task,
}
use stv_renew.ThreadPool.Config.{default_config}
use stv_renew.ThreadPool.State.{Pool, create_pool}
use stv_renew.ThreadPool.Steps.{submits, begins, finalizes, run, cancels, pauses, resumes}

abbrev task : String → List String → TaskDescriptor
task id deps = record (new_task id "w" image_gen 0) { deps = deps }

abbrev pool : Pool
pool = create_pool (pos 3) default_config

states : Pool → List TaskState
states p = map (λ n. n.task.state) p.nodes

program : Unit {0}
unfolding run states create_pool find_node
program = tt

-- A chain of three: the first fails, and the others are canceled.
chain_fails :
    states (
      run pool (
        submits (task "a" []) (some 1) 0
        ∷ submits (task "b" ("a" ∷ [])) (some 2) 0
        ∷ submits (task "c" ("b" ∷ [])) (some 3) 0
        ∷ begins 1
        ∷ finalizes "a" (err (simple_error internal 4 "broken")) [] 2
        ∷ []))
    ≡ failed ∷ canceled ∷ canceled ∷ []
unfolding program
chain_fails = refl

-- The join of two waits for both.
join_waits :
    states (
      run pool (
        submits (task "a" []) (some 1) 0
        ∷ submits (task "b" []) (some 2) 0
        ∷ submits (task "c" ("a" ∷ "b" ∷ [])) (some 3) 0
        ∷ begins 1
        ∷ begins 1
        ∷ finalizes "a" (ok tt) [] 2
        ∷ []))
    ≡ succeeded ∷ running ∷ queued ∷ []
unfolding program
join_waits = refl

-- Two tasks in a row, and the edge from the first to the second.
abbrev two_in_a_row : Pool
two_in_a_row =
    run pool (submits (task "a" []) (some 1) 0 ∷ submits (task "b" ("a" ∷ [])) (some 2) 0 ∷ [])

creates_cycle-Leads_example :
    (creates_cycle two_in_a_row.successors "b" ("a" ∷ []) ≡ true)
    ↔ ((d : String) × (contains ("a" ∷ []) d ≡ true) × Leads two_in_a_row.successors d "b")
creates_cycle-Leads_example = creates_cycle-Leads two_in_a_row.successors "b" ("a" ∷ [])

cycle_found : creates_cycle two_in_a_row.successors "b" ("a" ∷ []) ≡ true
unfolding program creates_cycle
cycle_found = refl

-- A task with a known dependency and one that was never submitted.
abbrev one_task : Pool
one_task = run pool (submits (task "a" []) (some 1) 0 ∷ [])

abbrev half_known : TaskDescriptor
half_known = task "t" ("a" ∷ "x" ∷ [])

good_request : check_request one_task (normalized half_known) true ≡ ok tt
unfolding program check_request normalized
good_request = refl

not_reached : creates_cycle one_task.successors "t" half_known.deps ≡ false
unfolding program creates_cycle
not_reached = refl

first_known :
    (n : Node) × (find_node "a" one_task.nodes ≡ some n) × (is_terminal n.task.state ≡ false)
unfolding program find_node is_terminal
first_known = (_, refl, refl)

second_unknown : find_node "x" one_task.nodes ≡ none
unfolding program find_node
second_unknown = refl

different : (a b : String) → str_eq a b ≡ false → a ≢ b
different a b h = ground (arith, str_eq-cases a b)

resubmit_refused_example :
    let p' = (submit one_task half_known (some 3) 1).0 in
    ((submit one_task half_known (some 3) 1).1
      ≡ err (internal_error (concat ("Dependency not found: " ∷ "x" ∷ []))))
    × (p'.nodes ≡ one_task.nodes)
    × ((submit p' (record half_known { deps = "a" ∷ [] }) (some 3) 2).1
        ≡ err (internal_error (concat ("Dependency cycle detected for task: " ∷ "t" ∷ []))))
resubmit_refused_example =
    resubmit_refused one_task half_known 3 1 2 "a" "x" [] [] first_known.0 refl good_request
      not_reached (different "a" "t" refl) (different "x" "t" refl) first_known.1 first_known.2
      second_unknown

abbrev listed : Option Candidate → List Candidate
listed none = []
listed (some c) = c ∷ []

pick_candidate-Chosen_example : Chosen two_in_a_row 5 (pick_candidate two_in_a_row 5 true)
pick_candidate-Chosen_example = pick_candidate-Chosen two_in_a_row 5

first_is_picked :
    map (λ (c : Candidate). c.task_id) (listed (pick_candidate two_in_a_row 5 true)) ≡ "a" ∷ []
unfolding program pick_candidate
first_is_picked = refl

first_start : (d : Dispatch) × ((worker_begin two_in_a_row 5).1 ≡ some d)
unfolding program worker_begin
first_start = (_, refl)

worker_begin-Started_example :
    (two_in_a_row.stopping ≡ false)
    × StartedNode two_in_a_row (worker_begin two_in_a_row 5).0 first_start.0
worker_begin-Started_example = worker_begin-Started two_in_a_row 5 first_start.0 first_start.1

-- The first task is canceled while its stage runs.
abbrev overtaken : Pool
overtaken = run two_in_a_row (begins 5 ∷ cancels "a" 6 ∷ [])

overtaken_node : (n : Node) × (find_node "a" overtaken.nodes ≡ some n) × (n.task.state ≡ canceled)
unfolding program
overtaken_node = (_, refl, refl)

finalize-canceled_example :
    (m : Node) × (find_node "a" (finalize overtaken "a" (ok tt) [] 7).nodes ≡ some m)
    × (m.task ≡ overtaken_node.0.task)
    × (m.last_outputs ≡ overtaken_node.0.last_outputs)
    × (m.running ≡ false)
finalize-canceled_example =
    finalize-canceled overtaken "a" overtaken_node.0 (ok tt) [] 7 overtaken_node.1 overtaken_node.2

-- The edge that a refused submission left behind counts as a dependency of the task accepted later:
-- "t" depends on "x" alone, and is made ready by the success of "a", before "x" has started.
stale_edge_wakes :
    states (
      run pool (
        submits (task "a" []) (some 1) 0
        ∷ submits half_known (some 3) 1
        ∷ submits (task "x" []) (some 2) 2
        ∷ submits (task "t" ("x" ∷ [])) (some 3) 3
        ∷ begins 4
        ∷ finalizes "a" (ok tt) [] 5
        ∷ []))
    ≡ succeeded ∷ ready ∷ ready ∷ []
unfolding program
stale_edge_wakes = refl

-- A task that is paused while it waits misses the success of its dependency, and is queued for good
-- when it is resumed: no dependency is left that could wake it.
paused_misses_wake :
    states (
      run two_in_a_row
        (begins 5 ∷ pauses "b" 6 ∷ finalizes "a" (ok tt) [] 7 ∷ resumes "b" 8 ∷ begins 9 ∷ []))
    ≡ succeeded ∷ queued ∷ []
unfolding program
paused_misses_wake = refl

-- The second task depends on the first, which fails.
second-Below : Below two_in_a_row "a" "b"
unfolding program successors_of
second-Below = child "b" refl

second_after :
    (n : Node) × (find_node "b" (propagate_canceled 6 "a" (two_in_a_row, [])).0.nodes ≡ some n)
unfolding program propagate_canceled
second_after = (_, refl)

propagate_canceled-Below_example : is_terminal second_after.0.task.state ≡ true
propagate_canceled-Below_example =
    propagate_canceled-Below two_in_a_row [] 6 "a" "b" second_after.0 second-Below second_after.1
