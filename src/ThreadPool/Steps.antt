-- ===== src/ThreadPool/Steps.antt =====
-- The locked sections of core/src/thread_pool_scheduler.cpp as the steps of a history: threads
-- interleave between them in any order.
use stv_renew.Prelude.{ℕ, String, List, [], ◌∷◌, Option, true}
use stv_renew.Prelude.Float.{Float}
use stv_renew.Errors.{Status}
use stv_renew.Task.{TaskDescriptor}
use stv_renew.Pipeline.{Values}
use stv_renew.ThreadPool.State.{Pool}
use stv_renew.ThreadPool.Submission.{submit}
use stv_renew.ThreadPool.Requests.{cancel, pause, pause_end, resume, on_state_change, tick}
use stv_renew.ThreadPool.Worker.{worker_begin, report_progress, progress_resumed, finalize}

pub data Op : Type 0 where
  submits : TaskDescriptor → Option ℕ → ℕ → Op
  cancels pauses ends_pause resumes : String → ℕ → Op
  listens : Option ℕ → Op
  ticks begins : ℕ → Op
  reports : String → Float → ℕ → Op
  wakes : String → Op
  finalizes : String → Status → Values → ℕ → Op
  stops : Op

unfoldable pub step : Pool → Op → Pool
unfolding submit cancel pause pause_end resume on_state_change tick worker_begin report_progress
    progress_resumed finalize
step p (submits t stage now) = (submit p t stage now).0
step p (cancels id now) = (cancel p id now).0
step p (pauses id now) = (pause p id now).0
step p (ends_pause id now) = (pause_end p id now).0
step p (resumes id now) = (resume p id now).0
step p (listens cb) = on_state_change p cb
step p (ticks now) = tick p now
step p (begins now) = (worker_begin p now).0
step p (reports id value now) = (report_progress p id value now).0
step p (wakes id) = progress_resumed p id
step p (finalizes id result outputs now) = finalize p id result outputs now
-- The destructor.
step p stops = record p { stopping = true }

unfoldable pub run : Pool → List Op → Pool
unfolding step
run p [] = p
run p (op ∷ ops) = run (step p op) ops
