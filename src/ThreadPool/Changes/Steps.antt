-- ===== src/ThreadPool/Changes/Steps.antt =====
-- Every step of a history is a chain of changes.
use stv_renew.ThreadPool.Changes.Finalize.{finalize-Changes}
use stv_renew.Task.{queued}
use stv_renew.Errors.{is_ok}
use stv_renew.ThreadPool.Submission.{submit}
use stv_renew.ThreadPool.Changes.Submission.{submit-Changes}
use stv_renew.ThreadPool.Requests.{on_state_change}
use stv_renew.ThreadPool.State.{Pool}
use stv_renew.ThreadPool.Steps.{
  Op, step, run, submits, cancels, pauses, ends_pause, resumes, listens, ticks, begins, reports,
  wakes, finalizes, stops,
}
use stv_renew.Prelude.{List, [], ◌∷◌, ◌≡◌, true, Bool, false}
use stv_renew.ThreadPool.Changes.{books, Changes, done, Changes-trans}
use stv_renew.ThreadPool.Changes.Requests.{
  cancel-Changes, pause-Changes, pause_end-Changes, resume-Changes, tick-Changes,
}
use stv_renew.ThreadPool.Changes.Worker.{
  worker_begin-Changes, report_progress-Changes, progress_resumed-Changes,
}

-- A submission is of a queued task, and is accepted.
abbrev pub Accepted : Pool → Op → Type 0
Accepted p (submits t stage now) = (t.state ≡ queued) × (is_ok (submit p t stage now).1 ≡ true)
Accepted p _ = Unit

-- Every submission of the history.
abbrev pub AllAccepted : Pool → List Op → Type 0
AllAccepted p [] = Unit
AllAccepted p (op ∷ ops) = Accepted p op × AllAccepted (step p op) ops

-- No claim about the submissions.
pub not_strict : {A : Type 0} → false ≡ true → A
not_strict e = absurd (apart e)
  where
    apart : false ≡ true → ⊥
    apart e = cc

module _ {s : Bool} where
  step-Changes :
      (p : Pool) (op : Op) → (s ≡ true → Accepted p op) → Changes s (books p) (books (step p op))
  unfolding step on_state_change
  step-Changes p (submits t stage now) h = submit-Changes p t stage now h
  step-Changes p (cancels id now) h = cancel-Changes p id now
  step-Changes p (pauses id now) h = pause-Changes p id now
  step-Changes p (ends_pause id now) h = pause_end-Changes p id now
  step-Changes p (resumes id now) h = resume-Changes p id now
  step-Changes p (listens cb) h = done
  step-Changes p (ticks now) h = tick-Changes p now
  step-Changes p (begins now) h = worker_begin-Changes p now
  step-Changes p (reports id value now) h = report_progress-Changes p id value now
  step-Changes p (wakes id) h = progress_resumed-Changes p id
  step-Changes p (finalizes id result outputs now) h = finalize-Changes p id result outputs now
  step-Changes p stops h = done

  pub run-Changes :
      (p : Pool) (ops : List Op)
      → (s ≡ true → AllAccepted p ops)
      → Changes s (books p) (books (run p ops))
  unfolding run
  run-Changes p [] h = done
  run-Changes p (op ∷ ops) h =
      Changes-trans (step-Changes p op (λ e. (h e).0)) (run-Changes (step p op) ops (λ e. (h e).1))
