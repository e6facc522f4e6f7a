-- ===== src/ThreadPool/Changes.antt =====
-- What the operations do to the tables that record the running tasks, as chains of small changes.
pub mod Graph
mod Links
mod Submission
pub mod Requests
pub mod Worker
pub mod Finalize
pub mod Steps
use stv_renew.Prelude.{
  ◌≡◌, ◌∙◌, sym, true, false, String, List, [], ◌∷◌, ◌++◌, none, some, ◌≢◌, ◌≤◌, ◌+◌, ◌⊎◌,
  if◌then◌else◌, str_eq, ℕ, Bool, Option,
}
use mathlib.Core.Path.{subst}
use stv_renew.Prelude.Int.{ℤ, pos, leb_ℤ, ◌+ℤ◌}
use stv_renew.Task.{ready, running, ResourceDemand, queued, succeeded, state_eq, TaskState}
use stv_renew.Task.Active.{Moves, waiting, begun}
use stv_renew.ThreadPool.State.{
  Node, Pool, ResourceUsage, find_node, set_node, insert, erase, reserve_resources,
  release_resources, Successors, successors_of,
}
use stv_renew.ThreadPool.Nodes.{find_node-id}

-- The nodes, the running set, the resources in use and the edges, with the hard budget. `pending`: the
-- ids that a success has still to wake.
pub record Books : Type 0 where
  pub nodes : List Node
  pub running_set : List String
  pub in_use : ResourceUsage
  pub successors : Successors
  pub pending : List String
  pub cpu_hard : ℤ

abbrev pub books : Pool → Books
books p = record {
  nodes = p.nodes;
  running_set = p.running_set;
  in_use = p.resource_in_use;
  successors = p.successors;
  pending = [];
  cpu_hard = p.config.resource_budget.cpu_slots_hard;
}

-- While successors are woken.
abbrev pub waking : Pool → List String → Books
waking p ids = record (books p) { pending = ids }

-- A demand that `submit` has normalised.
abbrev pub IsNormal : ResourceDemand → Type 0
IsNormal d =
    (leb_ℤ (pos 1) d.cpu_slots ≡ true)
    × (leb_ℤ (pos 0) d.ram_mb ≡ true)
    × (leb_ℤ (pos 0) d.vram_mb ≡ true)

-- How often an id is in a list.
abbrev pub occurrences : String → List String → ℕ
occurrences x [] = 0
occurrences x (y ∷ ys) = (if str_eq y x then 1 else 0) + occurrences x ys

abbrev pub has_succeeded : Option Node → Bool
has_succeeded none = false
has_succeeded (some n) = state_eq n.task.state succeeded

-- The dependency is there and has succeeded.
abbrev pub met : List Node → String → Bool
met ns d = has_succeeded (find_node d ns)

-- How many of the dependencies have not succeeded.
abbrev pub unmet : List Node → List String → ℕ
unmet ns [] = 0
unmet ns (d ∷ ds) = (if met ns d then 0 else 1) + unmet ns ds

-- The edges of a task that was accepted: no more into it than it has dependencies, no others changed;
-- and its count, if it waits, or its dependencies, if it is ready.
pub record Wired (b : Books) (n : Node) (succ : Successors) : Type 0 where
  pub own :
      (d : String)
      → occurrences n.task.task_id (successors_of d succ)
        ≤ occurrences n.task.task_id (successors_of d b.successors) + occurrences d n.task.deps
  pub others :
      (d y : String)
      → y ≢ n.task.task_id
      → occurrences y (successors_of d succ) ≡ occurrences y (successors_of d b.successors)
  pub counted : waiting n.task ≡ true → unmet b.nodes n.task.deps ≤ n.unmet_deps
  pub ready : begun n.task ≡ true → unmet b.nodes n.task.deps ≡ 0

-- A queued task that a success of one of its dependencies has counted down.
pub record Woken (n n' : Node) : Type 0 where
  pub same_id : n'.task.task_id ≡ n.task.task_id
  pub same_demand : n'.task.resource_demand ≡ n.task.resource_demand
  pub same_deps : n'.task.deps ≡ n.task.deps
  pub same_mark : n'.running ≡ n.running
  pub was_queued : n.task.state ≡ queued
  pub counted : n'.unmet_deps + 1 ≡ n.unmet_deps
  pub becomes : (n'.task.state ≡ queued) ⊎ ((n'.task.state ≡ TaskState.ready) × (n'.unmet_deps ≡ 0))

-- A node is written without its running mark, or with its success; a successor is woken, or passed
-- over; a new node is appended, or its edges are all that is left of it; a ready task starts; a mark
-- is taken back. `strict`: every submission is of a queued task and is accepted.
pub data Change (strict : Bool) (b : Books) : Books → Type 0 where
  quiet :
      (n n' : Node)
      → find_node n'.task.task_id b.nodes ≡ some n
      → n'.running ≡ n.running
      → n'.unmet_deps ≡ n.unmet_deps
      → Moves n.task n'.task
      → Change strict b (record b { nodes = set_node n' b.nodes })
  succeed :
      (n n' : Node)
      → find_node n'.task.task_id b.nodes ≡ some n
      → n'.running ≡ n.running
      → n'.unmet_deps ≡ n.unmet_deps
      → Moves n.task n'.task
      → n.task.state ≢ succeeded
      → n'.task.state ≡ succeeded
      → b.pending ≡ []
      → Change strict b (record b {
        nodes = set_node n' b.nodes;
        pending = successors_of n'.task.task_id b.successors;
      })
  wake :
      (n n' : Node) (rest : List String)
      → find_node n'.task.task_id b.nodes ≡ some n
      → b.pending ≡ n'.task.task_id ∷ rest
      → Woken n n'
      → Change strict b (record b { nodes = set_node n' b.nodes; pending = rest })
  skip :
      (id : String) (rest : List String)
      → b.pending ≡ id ∷ rest
      → Change strict b (record b { pending = rest })
  push :
      (n : Node) (succ : Successors)
      → find_node n.task.task_id b.nodes ≡ none
      → n.running ≡ false
      → IsNormal n.task.resource_demand
      → b.pending ≡ []
      → (strict ≡ true → Wired b n succ)
      → Change strict b (record b { nodes = b.nodes ++ n ∷ []; successors = succ })
  stale : (succ : Successors) → strict ≡ false → Change strict b (record b { successors = succ })
  start :
      (n n' : Node)
      → find_node n'.task.task_id b.nodes ≡ some n
      → n.task.state ≡ TaskState.ready
      → n'.task.state ≡ running
      → n'.running ≡ true
      → n'.task.resource_demand ≡ n.task.resource_demand
      → n'.task.deps ≡ n.task.deps
      → leb_ℤ (b.in_use.cpu_slots +ℤ n.task.resource_demand.cpu_slots) b.cpu_hard ≡ true
      → Change strict b (record b {
        nodes = set_node n' b.nodes;
        running_set = insert n'.task.task_id b.running_set;
        in_use = reserve_resources n'.task.resource_demand b.in_use;
      })
  release :
      (n : Node)
      → find_node n.task.task_id b.nodes ≡ some n
      → n.running ≡ true
      → Change strict b (record b {
        nodes = set_node (record n { running = false }) b.nodes;
        running_set = erase n.task.task_id b.running_set;
        in_use = release_resources n.task.resource_demand b.in_use;
      })

pub data Changes (strict : Bool) (b : Books) : Books → Type 0 where
  done : Changes strict b b
  then_change : {c d : Books} → Changes strict b c → Change strict c d → Changes strict b d

module _ {s : Bool} where
  pub one : {b c : Books} → Change s b c → Changes s b c
  one c = then_change done c

  pub Changes-trans : {b c d : Books} → Changes s b c → Changes s c d → Changes s b d
  Changes-trans a done = a
  Changes-trans a (then_change b c) = then_change (Changes-trans a b) c

  pub quiet_write :
      (b : Books) (id : String) (n n' : Node)
      → find_node id b.nodes ≡ some n
      → n'.running ≡ n.running
      → n'.unmet_deps ≡ n.unmet_deps
      → Moves n.task n'.task
      → Changes s b (record b { nodes = set_node n' b.nodes })
  quiet_write b id n n' found mark count m = one (
      quiet n n'
        (subst (λ i. find_node i b.nodes ≡ some n)
          (sym (m.same_id ∙ find_node-id id b.nodes n found)) found)
        mark count m)
