-- ===== src/Workflow/Submission.antt =====
-- `start_workflow` submits the chain of `Chain`, whatever the scheduler answers.
use stv_renew.Prelude.{◌≡◌, ℕ, suc, false, String, List, Option, arith}
use stv_renew.Prelude.Int.{pos, leb_ℤ}
use stv_renew.Errors.{TaskError, Result, ok, err, Status}
use stv_renew.Task.{TaskType}
use stv_renew.Workflow.{Api, Engine, Draft, cancel_all, submit_images, submit_compose}

module _ (api : Api) (draws : ℕ → ℕ) (factory : TaskType → Option ℕ) (trace : String)
    (token now : ℕ) where
  abbrev answer : Engine api.State → List String → Status → Engine api.State × Status
  answer e ids (ok _) = (e, ok tt)
  answer e ids (err x) = (cancel_all api draws e ids now, err x)

  -- The two loops after the first task.
  abbrev after_images :
      Engine api.State × Result (Draft × List String) TaskError
      → Engine api.State × Result String TaskError
  after_images (e, err x) = (e, err x)
  after_images (e, ok (d, images)) = submit_compose api draws factory trace token now e d images

  abbrev finish_images :
      ℕ → Engine api.State → Draft → List String → Engine api.State × Result String TaskError
  finish_images scenes e d images =
      after_images (submit_images api draws factory trace token now scenes e d images)

positive : (n : ℕ) → leb_ℤ (pos (suc n)) (pos 0) ≡ false
positive n = ground arith
