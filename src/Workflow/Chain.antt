-- ===== src/Workflow/Chain.antt =====
-- `start_workflow` against the task chain it is to submit, written down at once.
use stv_renew.Prelude.{ℕ, zero, suc, ◌+◌, false, String, List, [], ◌∷◌, ◌++◌, Option, length}
use stv_renew.Errors.{TaskError, Result, ok, err}
use stv_renew.Task.{TaskType, TaskDescriptor}
use stv_renew.Workflow.{
  Api, Engine, uuid_at, submit_task, storyboard_task, image_task, compose_task,
}

module _ (draws : ℕ → ℕ) (trace : String) (token now : ℕ) where
  -- The ids of the scenes' tasks, from draw number `n` on.
  abbrev pub image_ids : ℕ → ℕ → List String
  image_ids zero n = []
  image_ids (suc scenes) n = uuid_at draws n ∷ image_ids scenes (n + 7)

  abbrev pub images_then : ℕ → ℕ → (parent : String) → List String → List TaskDescriptor
  images_then zero n parent all = compose_task (uuid_at draws n) trace all token now ∷ []
  images_then (suc scenes) n parent all =
      image_task (uuid_at draws n) trace parent token now ∷ images_then scenes (n + 7) parent all

  -- A storyboard with no dependency, an image for each scene that depends on the storyboard, and the
  -- composition that depends on all images.
  abbrev pub chain : ℕ → ℕ → List TaskDescriptor
  chain scenes n =
      let root = uuid_at draws n in
      storyboard_task root trace token now
      ∷ images_then scenes (n + 7) root (image_ids scenes (n + 7))

module _ (api : Api) (draws : ℕ → ℕ) where
  -- Submits tasks in order, each under the next drawn id, until one is refused; then all ids so far
  -- are canceled, and the rest is not submitted.
  unfoldable pub submit_all :
      (TaskType → Option ℕ)
      → ℕ
      → List TaskDescriptor
      → Engine api.State
      → List String
      → Engine api.State × Result (List String) TaskError
  unfolding submit_task
  submit_all factory now [] e done = (e, ok done)
  submit_all factory now (t ∷ ts) e done =
      let ids = done ++ t.task_id ∷ [] in
      let (e', r) =
        submit_task api draws (record e { drawn = e.drawn + 7 }) t (factory t.type) ids now in
      let rest = submit_all factory now ts e' ids in elim r [ ok _ ↦ rest | err x ↦ (e', err x) ]

  -- What `start_workflow` makes of the outcome.
  unfoldable pub conclude :
      String
      → Engine api.State × Result (List String) TaskError
      → Engine api.State × Result String TaskError
  conclude trace (e, err x) = (e, err x)
  conclude trace (e, ok ids) = (
    record e {
      active =
          e.active
          ++ record {
            trace_id = trace;
            task_ids = ids;
            completed = 0;
            total = length ids;
            failed = false;
            output_path = "";
          }
            ∷ [];
    },
    ok trace,
  )
