-- ===== src/ThreadPool/Pick.antt =====
-- core/src/thread_pool_scheduler.cpp: the budget tests and `pick_candidate_locked`.
use Prim.Native.Nat.{Ordering}
use Prim.Native.String.{compare}
use stv_renew.Prelude.{
  ℕ, ◌-◌, ◌/◌, Bool, true, false, ◌&&◌, ◌||◌, ltb, String, List, [], ◌∷◌, Option, none, some,
  if◌then◌else◌,
}
use stv_renew.Prelude.Int.{ℤ, pos, pos_part, ltb_ℤ, leb_ℤ, max_ℤ, times, ◌+ℤ◌}
use stv_renew.Task.{ready, ResourceDemand, state_eq}
use stv_renew.ThreadPool.Config.{SchedulerConfig}
use stv_renew.ThreadPool.State.{Node, Pool, ResourceUsage, find_node}

pub record Candidate : Type 0 where
  pub task_id : String
  pub effective_priority : ℤ
  pub ready_since : ℕ
  pub soft_fit : Bool

unfoldable pub fits_cpu_hard : SchedulerConfig → ResourceUsage → ResourceDemand → Bool
unfolding ◌+ℤ◌
fits_cpu_hard c u d = leb_ℤ (u.cpu_slots +ℤ d.cpu_slots) c.resource_budget.cpu_slots_hard

unfoldable pub fits_soft : SchedulerConfig → ResourceUsage → ResourceDemand → Bool
unfolding ◌+ℤ◌
fits_soft c u d =
    (leb_ℤ c.resource_budget.ram_soft_mb (pos 0)
      || leb_ℤ (u.ram_mb +ℤ d.ram_mb) c.resource_budget.ram_soft_mb)
    && (leb_ℤ c.resource_budget.vram_soft_mb (pos 0)
        || leb_ℤ (u.vram_mb +ℤ d.vram_mb) c.resource_budget.vram_soft_mb)

-- The priority, and a boost for each interval that the task has been ready.
unfoldable pub score : SchedulerConfig → ℕ → Node → ℤ
unfolding ◌+ℤ◌ max_ℤ times
score c now n =
    n.task.priority
    +ℤ times ((now - n.ready_since) / pos_part (max_ℤ (pos 1) c.aging_policy.interval_ms))
        c.aging_policy.boost_per_interval

-- `a < b` on `std::string`.
abbrev pub text_lt : String → String → Bool
text_lt a b = elim (compare a b) [ Ordering.lt ↦ true | _ ↦ false ]

-- The lambda `better_than`.
unfoldable pub better_than : Candidate → Candidate → Bool
better_than lhs rhs =
    if ltb_ℤ rhs.effective_priority lhs.effective_priority
    then true
    else if ltb_ℤ lhs.effective_priority rhs.effective_priority
    then false
    else if ltb lhs.ready_since rhs.ready_since
    then true
    else if ltb rhs.ready_since lhs.ready_since
    then false
    else text_lt lhs.task_id rhs.task_id

unfoldable pub improve : Option Candidate → Candidate → Option Candidate
unfolding better_than
improve none c = some c
improve (some best) c = if better_than c best then some c else some best

-- The candidate that an id of the ready set gives, if its node can run now.
unfoldable pub candidate_of : Pool → ℕ → String → Option Candidate
unfolding find_node state_eq fits_cpu_hard fits_soft score
candidate_of p now id = elim (find_node id p.nodes) [
  | none ↦ none
  | some n ↦
      if state_eq n.task.state ready
        && fits_cpu_hard p.config p.resource_in_use n.task.resource_demand
      then some (record {
        task_id = id;
        effective_priority = score p.config now n;
        ready_since = n.ready_since;
        soft_fit = fits_soft p.config p.resource_in_use n.task.resource_demand;
      })
      else none
]

pub record Best : Type 0 where
  pub soft_fit : Option Candidate
  pub soft_over : Option Candidate

unfoldable pub consider : Best → Option Candidate → Best
unfolding improve
consider b none = b
consider b (some c) =
    if c.soft_fit
    then record b { soft_fit = improve b.soft_fit c }
    else record b { soft_over = improve b.soft_over c }

unfoldable pub scan : Pool → ℕ → Best → List String → Best
unfolding candidate_of consider
scan p now b [] = b
scan p now b (id ∷ ids) = scan p now (consider b (candidate_of p now id)) ids

-- A task within the soft budgets goes first; one that exceeds them may run alone.
unfoldable pub choose : Bool → List String → Best → Option Candidate
choose allow_escape busy b = elim b.soft_fit [
  | some c ↦ some c
  | none ↦ elim busy [ [] ↦ if allow_escape then b.soft_over else none | _ ∷ _ ↦ none ]
]

unfoldable pub pick_candidate : Pool → ℕ → Bool → Option Candidate
unfolding scan choose
pick_candidate p now allow_escape =
    choose allow_escape p.running_set
      (scan p now (record { soft_fit = none; soft_over = none }) p.ready_set)
