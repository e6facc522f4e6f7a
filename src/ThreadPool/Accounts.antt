-- ===== src/ThreadPool/Accounts.antt =====
-- The accounts of the running tasks in every history: the resources in use, the running set and the
-- marks on the nodes.
mod Sums
use mathlib.Core.Path.{subst}
use stv_renew.Prelude.{
  ◌≡◌, ◌∙◌, refl, sym, ap, inl, inr, true, false, String, List, Bool-cases, contains, arith, All,
  Bool, some,
}
use stv_renew.Prelude.Int.{ℤ, pos, leb_ℤ, ◌+ℤ◌, clamp_ℤ}
use stv_renew.Task.{ready, running, ResourceDemand}
use stv_renew.Task.Active.{active, inactive, running-active}
use stv_renew.ThreadPool.Config.{SchedulerConfig, normalize_config, clamp_auto_workers}
use stv_renew.ThreadPool.State.{
  Node, ResourceUsage, find_node, reserve_resources, release_resources, create_pool, set_node,
}
use stv_renew.ThreadPool.Steps.{Op, run}
use stv_renew.ThreadPool.Accounts.Sums.{
  usage, marked, All-find_node, All-set_node, All-append, insert-contains, erase-contains,
  marked-set_node, marked-append, usage-quiet, usage-idle, usage-reserve_resources,
  usage-release_resources, IsNormal-IsNatural, marked-quiet, release-within,
}
use stv_renew.ThreadPool.Changes.{
  Books, books, IsNormal, Change, quiet, push, start, release, Changes, done, then_change, succeed,
  skip, stale,
}
use stv_renew.ThreadPool.Changes.Steps.{run-Changes, not_strict}

-- A marked task runs, or is paused from running, or has ended; no demand is negative.
abbrev pub Held : Node → Type 0
Held n = (n.running ≡ true → active n.task ≡ true) × IsNormal n.task.resource_demand

pub record Balanced (b : Books) : Type 0 where
  pub accounts : b.in_use ≡ usage b.nodes
  pub listed : (id : String) → contains b.running_set id ≡ marked id b.nodes
  pub held : All Held b.nodes
  pub within : leb_ℤ b.in_use.cpu_slots b.cpu_hard ≡ true

-- A ready task bears no mark.
idle_ready : (n : Node) → Held n → n.task.state ≡ ready → n.running ≡ false
idle_ready n h st = elim (Bool-cases n.running) [
  | inl e ↦ absurd (apart (sym (h.0 e) ∙ inactive n.task (inr st)))
  | inr e ↦ e
]
  where
    apart : true ≡ false → ⊥
    apart e = cc

-- A write that keeps the mark and the demand.
write-Balanced :
    (b : Books) (n n' : Node) (pending : List String)
    → find_node n'.task.task_id b.nodes ≡ some n
    → n'.running ≡ n.running
    → n'.task.resource_demand ≡ n.task.resource_demand
    → (active n.task ≡ true → active n'.task ≡ true)
    → Balanced b
    → Balanced (record b { nodes = set_node n' b.nodes; pending = pending })
write-Balanced b n n' pending found mark demand stays i =
    let h = All-find_node Held n'.task.task_id b.nodes n i.held found in
    record {
      accounts = i.accounts ∙ sym (usage-quiet n n' b.nodes found mark demand);
      listed = λ id. i.listed id ∙ sym (marked-quiet id n n' b.nodes found mark);
      held =
          All-set_node Held n' b.nodes i.held
            ((λ e. stays (h.0 (sym mark ∙ e))), subst IsNormal (sym demand) h.1);
      within = i.within;
    }

Change-Balanced : {s : Bool} {b c : Books} → Change s b c → Balanced b → Balanced c
unfolding reserve_resources release_resources
Change-Balanced {s} {b} (quiet n n' found mark count m) i =
    write-Balanced b n n' b.pending found mark m.same_demand m.stays_active i
Change-Balanced {s} {b} (succeed n n' found mark count m was is first) i =
    write-Balanced b n n' _ found mark m.same_demand m.stays_active i
Change-Balanced {s} {b} (Change.wake n n' rest found first w) i =
    write-Balanced b n n' rest found w.same_mark w.same_demand
      (λ e. absurd (apart (sym e ∙ inactive n.task (inl w.was_queued)))) i
  where
    apart : true ≡ false → ⊥
    apart e = cc
Change-Balanced {s} {b} (skip id rest first) i = record {
  accounts = i.accounts;
  listed = i.listed;
  held = i.held;
  within = i.within;
}
Change-Balanced {s} {b} (stale succ loose) i = record {
  accounts = i.accounts;
  listed = i.listed;
  held = i.held;
  within = i.within;
}
Change-Balanced {s} {b} (push n succ fresh idle normal first wires) i = record {
  accounts = i.accounts ∙ sym (usage-idle n b.nodes idle);
  listed = λ id. i.listed id ∙ sym (marked-append id n b.nodes idle);
  held = All-append Held n b.nodes i.held ((λ e. cc), normal);
  within = i.within;
}
Change-Balanced {s} {b} (start n n' found was is mark demand deps fits) i =
    let h = All-find_node Held n'.task.task_id b.nodes n i.held found in
    let normal : IsNormal n'.task.resource_demand = subst IsNormal (sym demand) h.1 in
    record {
      accounts =
          ap (reserve_resources n'.task.resource_demand) i.accounts
          ∙ usage-reserve_resources n n' b.nodes found (idle_ready n h was) mark
              (IsNormal-IsNatural _ normal);
      listed = λ id.
          insert-contains n'.task.task_id id b.running_set
          ∙ ground (arith, i.listed id)
          ∙ sym (marked-set_node id n n' b.nodes found);
      held = All-set_node Held n' b.nodes i.held ((λ _. running-active n'.task is), normal);
      within =
          subst
            (λ (d : ResourceDemand). leb_ℤ (b.in_use.cpu_slots +ℤ d.cpu_slots) b.cpu_hard ≡ true)
            (sym demand) fits;
    }
Change-Balanced {s} {b} (release n found mark) i =
    let h = All-find_node Held n.task.task_id b.nodes n i.held found in
    let given =
      ap (release_resources n.task.resource_demand) i.accounts
      ∙ usage-release_resources n b.nodes found mark (IsNormal-IsNatural _ h.1) in
    record {
      accounts = given;
      listed = λ id.
          erase-contains n.task.task_id id b.running_set
          ∙ ground (arith, i.listed id)
          ∙ sym (marked-set_node id n (record n { running = false }) b.nodes found);
      held = All-set_node Held (record n { running = false }) b.nodes i.held ((λ e. cc), h.1);
      within =
          subst
            (λ (u : ResourceUsage).
              leb_ℤ (release_resources n.task.resource_demand u).cpu_slots b.cpu_hard ≡ true)
            (sym i.accounts)
            (release-within _ _ b.cpu_hard h.1.0 (
              subst (λ (u : ResourceUsage). leb_ℤ u.cpu_slots b.cpu_hard ≡ true) i.accounts
                i.within));
    }

Changes-Balanced : {s : Bool} {b c : Books} → Changes s b c → Balanced b → Balanced c
Changes-Balanced done i = i
Changes-Balanced (then_change a b) i = Change-Balanced b (Changes-Balanced a i)

hard_nonneg :
    (hw : ℤ) (c : SchedulerConfig)
    → leb_ℤ (pos 0) (normalize_config hw c).resource_budget.cpu_slots_hard ≡ true
unfolding normalize_config clamp_auto_workers clamp_ℤ
hard_nonneg hw c = ground arith

create_pool-Balanced : (hw : ℤ) (c : SchedulerConfig) → Balanced (books (create_pool hw c))
unfolding create_pool find_node
create_pool-Balanced hw c = record {
  accounts = refl;
  listed = λ id. refl;
  held = tt;
  within = hard_nonneg hw c;
}

-- Whatever calls are made, and however the workers' sections interleave with them: the resources in
-- use are the sums of the demands of the nodes that are marked as running, the running set has
-- exactly their ids, each of them runs, or is paused from running, or has ended, and the CPU slots in
-- use never exceed the hard budget of the configuration.
pub run-Balanced :
    (hw : ℤ) (c : SchedulerConfig) (ops : List Op) → Balanced (books (run (create_pool hw c) ops))
run-Balanced hw c ops =
    Changes-Balanced (run-Changes (create_pool hw c) ops not_strict) (create_pool-Balanced hw c)
