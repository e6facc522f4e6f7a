-- ===== src/ThreadPool/Config.antt =====
-- core/include/core/scheduler.h (the configuration records) and `normalize_config` and
-- `clamp_auto_workers` of core/src/thread_pool_scheduler.cpp.
use stv_renew.Prelude.{if◌then◌else◌}
use stv_renew.Prelude.Int.{ℤ, pos, leb_ℤ, max_ℤ, clamp_ℤ, ◌-ℤ◌}

pub record ResourceBudget : Type 0 where
  pub cpu_slots_hard : ℤ
  pub ram_soft_mb : ℤ
  pub vram_soft_mb : ℤ

pub record AgingPolicy : Type 0 where
  pub interval_ms : ℤ
  pub boost_per_interval : ℤ

pub record PausePolicy : Type 0 where
  pub checkpoint_timeout_ms : ℤ

pub record SchedulerConfig : Type 0 where
  pub worker_count : ℤ
  pub resource_budget : ResourceBudget
  pub aging_policy : AgingPolicy
  pub pause_policy : PausePolicy

-- The members' default values.
abbrev pub default_config : SchedulerConfig
default_config = record {
  worker_count = pos 0;
  resource_budget = record {
    cpu_slots_hard = pos 0;
    ram_soft_mb = pos 2048;
    vram_soft_mb = pos 7680;
  };
  aging_policy = record { interval_ms = pos 500; boost_per_interval = pos 1 };
  pause_policy = record { checkpoint_timeout_ms = pos 1500 };
}

-- `hw` is `static_cast<int>(std::thread::hardware_concurrency())`.
unfoldable pub clamp_auto_workers : ℤ → ℤ
unfolding clamp_ℤ ◌-ℤ◌
clamp_auto_workers hw = if leb_ℤ hw (pos 0) then pos 4 else clamp_ℤ (hw -ℤ pos 1) (pos 2) (pos 8)

-- `if (v <= 0) v = fallback;`
abbrev or_default : ℤ → ℤ → ℤ
or_default v fallback = if leb_ℤ v (pos 0) then fallback else v

unfoldable pub normalize_config : ℤ → SchedulerConfig → SchedulerConfig
unfolding clamp_auto_workers max_ℤ
normalize_config hw c =
    let workers = or_default c.worker_count (clamp_auto_workers hw) in
    record {
      worker_count = workers;
      resource_budget = record {
        cpu_slots_hard = or_default c.resource_budget.cpu_slots_hard workers;
        ram_soft_mb = max_ℤ (pos 0) c.resource_budget.ram_soft_mb;
        vram_soft_mb = max_ℤ (pos 0) c.resource_budget.vram_soft_mb;
      };
      aging_policy = record {
        interval_ms = or_default c.aging_policy.interval_ms (pos 500);
        boost_per_interval = or_default c.aging_policy.boost_per_interval (pos 1);
      };
      pause_policy = record {
        checkpoint_timeout_ms = or_default c.pause_policy.checkpoint_timeout_ms (pos 1500);
      };
    }
