-- ===== src/ThreadPool/State.antt =====
-- core/src/thread_pool_scheduler.cpp: the members of `ThreadPoolScheduler`, its events and the
-- resource accounts. A node is kept under its task's id; the order of a hash table is that of
-- insertion, and no result depends on it. Time points are in milliseconds.
use stv_renew.Prelude.Table.{find, set_at}
use stv_renew.Prelude.{
  ℕ, Bool, false, String, List, [], ◌∷◌, ◌++◌, Option, str_eq, contains, if◌then◌else◌,
}
use stv_renew.Prelude.Int.{ℤ, pos, max_ℤ, ◌+ℤ◌, ◌-ℤ◌}
use stv_renew.Cancel.{Tokens}
use stv_renew.Task.{TaskDescriptor, ResourceDemand}
use stv_renew.Notify.{StateEvent, Effect, call_all}
use stv_renew.Pipeline.{Values}
use stv_renew.ThreadPool.Config.{SchedulerConfig, normalize_config}

pub record ResourceUsage : Type 0 where
  pub cpu_slots : ℤ
  pub ram_mb : ℤ
  pub vram_mb : ℤ

pub record Node : Type 0 where
  pub task : TaskDescriptor
  pub stage : ℕ
  pub last_outputs : Values
  pub unmet_deps : ℕ
  pub ready_since : ℕ
  pub running : Bool
  pub pause_requested : Bool
  pub pause_deadline : Option ℕ

abbrev pub Successors : Type 0
Successors = List (String × List String)

pub record Pool : Type 0 where
  pub config : SchedulerConfig
  pub stopping : Bool
  pub nodes : List Node
  pub successors : Successors
  pub ready_set : List String
  pub running_set : List String
  pub resource_in_use : ResourceUsage
  pub callbacks : List (Option ℕ)
  pub tokens : Tokens
  pub effects : List Effect

-- The constructor; the worker threads are the environment that takes the steps of `Worker`.
unfoldable pub create_pool : ℤ → SchedulerConfig → Pool
unfolding normalize_config
create_pool hw c = record {
  config = normalize_config hw c;
  stopping = false;
  nodes = [];
  successors = [];
  ready_set = [];
  running_set = [];
  resource_in_use = record { cpu_slots = pos 0; ram_mb = pos 0; vram_mb = pos 0 };
  callbacks = [];
  tokens = [];
  effects = [];
}

abbrev pub node_key : Node → String
node_key n = n.task.task_id

unfoldable pub find_node : String → List Node → Option Node
unfolding find
find_node id ns = find node_key id ns

-- A write through the reference that `find` returned for the node's id.
unfoldable pub set_node : Node → List Node → List Node
unfolding set_at
set_node n ns = set_at node_key n ns

unfoldable pub put_node : Pool → Node → Pool
unfolding set_node
put_node p n = record p { nodes = set_node n p.nodes }

-- `std::unordered_set`.
unfoldable pub insert : String → List String → List String
insert x xs = if contains xs x then xs else xs ++ x ∷ []

unfoldable pub erase : String → List String → List String
erase x [] = []
erase x (y ∷ ys) = let rest = erase x ys in if str_eq y x then rest else y ∷ rest

-- `successors_.find(id)`; a missing key has no successors.
unfoldable pub successors_of : String → Successors → List String
successors_of id [] = []
successors_of id ((k, v) ∷ m) = if str_eq k id then v else successors_of id m

-- `successors_[id].push_back(succ)`.
unfoldable pub add_successor : String → String → Successors → Successors
add_successor id succ [] = (id, succ ∷ []) ∷ []
add_successor id succ ((k, v) ∷ m) =
    if str_eq k id then (k, v ++ succ ∷ []) ∷ m else (k, v) ∷ add_successor id succ m

unfoldable pub reserve_resources : ResourceDemand → ResourceUsage → ResourceUsage
unfolding ◌+ℤ◌
reserve_resources d u = record {
  cpu_slots = u.cpu_slots +ℤ d.cpu_slots;
  ram_mb = u.ram_mb +ℤ d.ram_mb;
  vram_mb = u.vram_mb +ℤ d.vram_mb;
}

unfoldable pub release_resources : ResourceDemand → ResourceUsage → ResourceUsage
unfolding max_ℤ ◌-ℤ◌
release_resources d u = record {
  cpu_slots = max_ℤ (pos 0) (u.cpu_slots -ℤ d.cpu_slots);
  ram_mb = max_ℤ (pos 0) (u.ram_mb -ℤ d.ram_mb);
  vram_mb = max_ℤ (pos 0) (u.vram_mb -ℤ d.vram_mb);
}

-- `dispatch_events`: each event to each callback.
event_effects : List (Option ℕ) → List StateEvent → List Effect
unfolding call_all
event_effects cbs [] = []
event_effects cbs (e ∷ es) = call_all cbs e ++ event_effects cbs es

unfoldable pub dispatch_events : Pool → List StateEvent → Pool
unfolding event_effects
dispatch_events p events = record p { effects = p.effects ++ event_effects p.callbacks events }
