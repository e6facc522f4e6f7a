-- ===== src/ThreadPool/Starting.antt =====
-- A round of `worker_loop` up to the execution of the stage, and the resource accounts.
use mathlib.Core.Path.{subst}
use stv_renew.Prelude.{
  ◌≡◌, refl, sym, ◌∙◌, ap, inl, inr, ℕ, Bool, true, false, String, Option, none, some, arith,
  Option-cases, some_inj, contains, ◌&&◌, if◌then◌else◌,
}
use stv_renew.Prelude.Int.{ℤ, pos, leb_ℤ, max_ℤ, ◌+ℤ◌, ◌-ℤ◌, ◌≤ℤ◌, +ℤ_parts, -ℤ_parts, eq_of_parts}
use stv_renew.Errors.{ok, err, is_ok, Status}
use stv_renew.Task.{
  TaskState, ready, running, state_eq, transition_to, TaskDescriptor, ResourceDemand,
}
use stv_renew.Task.Transition.{Allowed, ready_running, transition_to-Allowed}
use stv_renew.Pipeline.{Dispatch}
use stv_renew.ThreadPool.State.{
  Node, Pool, ResourceUsage, find_node, set_node, put_node, reserve_resources, release_resources,
  dispatch_events,
}
use stv_renew.ThreadPool.Pick.{Candidate, candidate_of, fits_cpu_hard, pick_candidate}
use stv_renew.ThreadPool.Choice.{Chosen, pick_candidate-Chosen}
use stv_renew.ThreadPool.Nodes.{find_node-id, find_node-set_node_same}
use stv_renew.ThreadPool.Worker.{worker_begin, start_node, start_candidate}

is_ready : (st : TaskState) → state_eq st ready ≡ true → st ≡ ready
unfolding state_eq
is_ready st h = ground arith

-- What a candidate says of its task.
pub candidate_of-ready :
    (p : Pool) (now : ℕ) (id : String) (c : Candidate) (n : Node)
    → find_node id p.nodes ≡ some n
    → candidate_of p now id ≡ some c
    → (n.task.state ≡ ready)
      × (fits_cpu_hard p.config p.resource_in_use n.task.resource_demand ≡ true)
      × (c.task_id ≡ id)
unfolding candidate_of
candidate_of-ready p now id c n found h =
    by_tests (state_eq n.task.state ready)
      (fits_cpu_hard p.config p.resource_in_use n.task.resource_demand) _ refl refl
      (rw (found, candidate_of) at h)
  where
    by_tests :
        (a b : Bool) (x : Candidate)
        → state_eq n.task.state ready ≡ a
        → fits_cpu_hard p.config p.resource_in_use n.task.resource_demand ≡ b
        → (if a && b then some x else none) ≡ some c
        → (n.task.state ≡ ready)
          × (fits_cpu_hard p.config p.resource_in_use n.task.resource_demand ≡ true)
          × (c.task_id ≡ x.task_id)
    by_tests true true x k j e =
        (is_ready n.task.state k, j, ap (λ (y : Candidate). y.task_id) (some_inj (sym e)))
    by_tests _ _ x k j e = cc

pub candidate_of-none :
    (p : Pool) (now : ℕ) (id : String) (c : Candidate)
    → find_node id p.nodes ≡ none
    → candidate_of p now id ≡ some c
    → ⊥
unfolding candidate_of
candidate_of-none p now id c found h = none_not_some (rw (found, candidate_of) at h)
  where
    none_not_some : none ≡ some c → ⊥
    none_not_some e = cc

-- The node and the accounts once a task has started.
pub record StartedNode (p p' : Pool) (d : Dispatch) : Type 0 where
  pub before : Node
  pub after : Node
  pub was_ready : before.task.state ≡ ready
  pub in_ready_set : contains p.ready_set d.task_id ≡ true
  pub was_there : find_node d.task_id p.nodes ≡ some before
  pub is_there : find_node d.task_id p'.nodes ≡ some after
  pub is_running : after.task.state ≡ running
  pub marked : after.running ≡ true
  pub own_stage : d.stage ≡ before.stage
  pub reserved :
      p'.resource_in_use ≡ reserve_resources before.task.resource_demand p.resource_in_use
  pub within : leb_ℤ p'.resource_in_use.cpu_slots p.config.resource_budget.cpu_slots_hard ≡ true

ok_of : (r : Status) → is_ok r ≡ true → r ≡ ok tt
ok_of (ok tt) h = refl
ok_of (err e) h = cc

pub starts :
    (t : TaskDescriptor) (now : ℕ)
    → t.state ≡ ready
    → ((transition_to t running now).1 ≡ ok tt)
      × ((transition_to t running now).0.state ≡ running)
      × ((transition_to t running now).0.task_id ≡ t.task_id)
      × ((transition_to t running now).0.resource_demand ≡ t.resource_demand)
starts t now h =
    let facts = transition_to-Allowed t running now in
    let accepted = facts.0.1 (subst (λ s. Allowed s running) (sym h) ready_running) in
    (ok_of _ accepted, facts.1 accepted, facts.3, facts.6)

abbrev pub started_node : Node → ℕ → Node
started_node n now = record n {
  task = (transition_to n.task running now).0;
  running = true;
  pause_requested = false;
  pause_deadline = none;
}

-- `start_node` on a node that is ready.
start_node-parts :
    (p : Pool) (n : Node) (now : ℕ) (d : Dispatch)
    → n.task.state ≡ ready
    → (start_node p n now).1 ≡ some d
    → let p' = (start_node p n now).0 in
      (p'.nodes ≡ set_node (started_node n now) p.nodes)
      × (p'.resource_in_use
          ≡ reserve_resources
              (transition_to n.task running now).0.resource_demand
              p.resource_in_use)
      × (d.task_id ≡ n.task.task_id)
      × (d.stage ≡ n.stage)
unfolding start_node put_node dispatch_events
start_node-parts p n now d h e = (
  rw ((starts n.task now h).0, start_node) refl,
  rw ((starts n.task now h).0, start_node) refl,
  ap (λ (x : Dispatch). x.task_id) (some_inj (sym (rw ((starts n.task now h).0, start_node) at e))),
  ap (λ (x : Dispatch). x.stage) (some_inj (sym (rw ((starts n.task now h).0, start_node) at e))),
)

start_node-Started :
    (p : Pool) (n : Node) (now : ℕ) (d : Dispatch) (id : String)
    → find_node id p.nodes ≡ some n
    → contains p.ready_set id ≡ true
    → n.task.state ≡ ready
    → fits_cpu_hard p.config p.resource_in_use n.task.resource_demand ≡ true
    → (start_node p n now).1 ≡ some d
    → StartedNode p (start_node p n now).0 d
unfolding fits_cpu_hard reserve_resources
start_node-Started p n now d id found listed st fits h =
    let (nodes, in_use, named, stage) = start_node-parts p n now d st h in
    let (accepted, runs, same_id, same_demand) = starts n.task now st in
    let name : d.task_id ≡ id = named ∙ find_node-id id p.nodes n found in
    let reserved = in_use ∙ ap (λ r. reserve_resources r p.resource_in_use) same_demand in
    record {
      before = n;
      after = started_node n now;
      was_ready = st;
      in_ready_set = ap (contains p.ready_set) name ∙ listed;
      was_there = ap (λ i. find_node i p.nodes) name ∙ found;
      is_there =
          ap (λ i. find_node i (start_node p n now).0.nodes) name
          ∙ ap (find_node id) nodes
          ∙ find_node-set_node_same id (started_node n now) n p.nodes
              (same_id ∙ find_node-id id p.nodes n found) found;
      is_running = runs;
      marked = refl;
      own_stage = stage;
      reserved = reserved;
      within =
          ap (λ (u : ResourceUsage). leb_ℤ u.cpu_slots p.config.resource_budget.cpu_slots_hard)
            reserved
          ∙ fits;
    }

start_candidate-Started :
    (p : Pool) (now : ℕ) (d : Dispatch) (o : Option Candidate)
    → Chosen p now o
    → (start_candidate p o now).1 ≡ some d
    → StartedNode p (start_candidate p o now).0 d
start_candidate-Started p now d none c h = cc
start_candidate-Started p now d (some c) ((id, listed, (offer, _)), top, within) h =
    elim (Option-cases (find_node id p.nodes)) [
      | inl k ↦ absurd (candidate_of-none p now id c k offer)
      | inr (n, k) ↦
          let (st, fits, name) = candidate_of-ready p now id c n k offer in
          let found = ap (λ i. find_node i p.nodes) name ∙ k in
          rw (found, start_candidate)
            (start_node-Started p n now d id k listed st fits (rw (found, start_candidate) at h))
    ]

not_stopping :
    (p : Pool) (d : Dispatch) (stop : Bool) (x : Pool × Option Dispatch)
    → p.stopping ≡ stop
    → (if stop then (p, none) else x).1 ≡ some d
    → (x.1 ≡ some d → StartedNode p x.0 d)
    → (p.stopping ≡ false) × StartedNode p (if stop then (p, none) else x).0 d
not_stopping p d true x k h f = cc
not_stopping p d false x k h f = (k, f h)

-- When a worker starts a task, the scheduler is not stopping; the task was ready and in the ready
-- set; now it is running and marked as such, with its own stage; its demand, and no other, was added
-- to the resources in use; and the CPU slots in use are within the hard budget.
pub worker_begin-Started :
    (p : Pool) (now : ℕ) (d : Dispatch)
    → (worker_begin p now).1 ≡ some d
    → (p.stopping ≡ false) × StartedNode p (worker_begin p now).0 d
unfolding worker_begin
worker_begin-Started p now d h =
    not_stopping p d p.stopping _ refl h
      (start_candidate-Started p now d (pick_candidate p now true) (pick_candidate-Chosen p now))

give_back : (a b : ℤ) → pos 0 ≤ℤ a → max_ℤ (pos 0) (a +ℤ b -ℤ b) ≡ a
unfolding max_ℤ
give_back a b h = ground (arith, +ℤ_parts a b, -ℤ_parts (a +ℤ b) b, eq_of_parts (a +ℤ b -ℤ b) a)

-- Releasing what was reserved gives back the accounts as they were, when none was negative.
pub release_resources-reserve_resources :
    (d : ResourceDemand) (u : ResourceUsage)
    → pos 0 ≤ℤ u.cpu_slots
    → pos 0 ≤ℤ u.ram_mb
    → pos 0 ≤ℤ u.vram_mb
    → release_resources d (reserve_resources d u) ≡ u
unfolding release_resources reserve_resources
release_resources-reserve_resources d u a b c =
    rw
      (
        give_back u.cpu_slots d.cpu_slots a,
        give_back u.ram_mb d.ram_mb b,
        give_back u.vram_mb d.vram_mb c,
      )
      refl
