-- ===== src/Workflow/Completion.antt =====
-- `handle_state_change`: what the engine counts, and when it calls the completion callback.
pub mod Counting
mod Told
use stv_renew.Prelude.{
  ◌≡◌, refl, sym, ◌∙◌, ap, ◌+◌, ◌<◌, Bool, true, ◌||◌, String, List, [], ◌∷◌, ◌++◌, arith,
}
use mathlib.Core.List.{append-nil}
use mathlib.Core.Path.{subst}
use stv_renew.Notify.{StateEvent}
use stv_renew.Workflow.{
  Engine, WorkflowState, Note, progressed, finished, output_file, handle_state_change, handle_all,
}
use stv_renew.Workflow.Completion.Counting.{
  successes, failures, completions, Counts, Counts-trans, due_note, counted_none,
}
use stv_renew.Workflow.Completion.Told.{handle_one}

successes_cons :
    (ids : List String) (ev : StateEvent) (evs : List StateEvent)
    → successes ids (ev ∷ evs) ≡ successes ids (ev ∷ []) + successes ids evs
unfolding successes
successes_cons ids ev evs = ground arith

failures_cons :
    (ids : List String) (ev : StateEvent) (evs : List StateEvent)
    → failures ids (ev ∷ evs) ≡ (failures ids (ev ∷ []) || failures ids evs)
unfolding failures
failures_cons ids ev evs = ground arith

not_due :
    (wf w : WorkflowState) (ev : StateEvent) (tells : Bool)
    → w.completed < w.total
    → due_note wf w ev tells ≡ []
not_due wf w ev tells h = ground arith

append_nothing : {xs ys ns : List Note} → ns ≡ xs ++ ys → ys ≡ [] → ns ≡ xs
append_nothing {xs} h k = h ∙ ap (λ n. xs ++ n) k ∙ append-nil xs

Counts-cons :
    (wf w w' : WorkflowState) (ev : StateEvent) (evs : List StateEvent)
    → Counts wf w (successes wf.task_ids (ev ∷ [])) (failures wf.task_ids (ev ∷ []))
    → Counts w w' (successes w.task_ids evs) (failures w.task_ids evs)
    → Counts wf w' (successes wf.task_ids (ev ∷ evs)) (failures wf.task_ids (ev ∷ evs))
Counts-cons wf w w' ev evs a b =
    rw (successes_cons wf.task_ids ev evs, failures_cons wf.task_ids ev evs)
      (Counts-trans a
        (subst (λ ids. Counts w w' (successes ids evs) (failures ids evs)) a.same_ids b))

still_few :
    (wf w : WorkflowState) (ev : StateEvent) (evs : List StateEvent)
    → Counts wf w (successes wf.task_ids (ev ∷ [])) (failures wf.task_ids (ev ∷ []))
    → wf.completed + successes wf.task_ids (ev ∷ evs) < wf.total
    → (w.completed < w.total) × (w.completed + successes w.task_ids evs < w.total)
still_few wf w ev evs a few =
    let sum = successes_cons wf.task_ids ev evs in
    (
      omega (arith, a.counted, a.same_total, sum),
      subst (λ ids. w.completed + successes ids evs < w.total) (sym a.same_ids)
          (omega (arith, a.counted, a.same_total, sum)),
    )

module _ {S : Type 0} where
  -- What a history of events leaves of the single active workflow.
  pub record Handled (e e' : Engine S) (wf : WorkflowState) (evs : List StateEvent) : Type 0 where
    pub now : WorkflowState
    pub only : e'.active ≡ now ∷ []
    pub counts : Counts wf now (successes wf.task_ids evs) (failures wf.task_ids evs)
    pub listens : e'.has_completion ≡ e.has_completion
    pub silent :
        wf.completed + successes wf.task_ids evs < wf.total
        → completions e'.notes ≡ completions e.notes

  pub handle_all-Handled :
      (e : Engine S) (wf : WorkflowState) (evs : List StateEvent)
      → e.active ≡ wf ∷ []
      → Handled e (handle_all e evs) wf evs
  unfolding handle_all successes failures
  handle_all-Handled e wf [] h = record {
    now = wf;
    only = h;
    counts = counted_none;
    listens = refl;
    silent = λ _. refl;
  }
  handle_all-Handled e wf (ev ∷ evs) h =
      let (w, only, counts, notes, listens) = handle_one e wf ev h in
      let rest = handle_all-Handled (handle_state_change e ev) w evs only in
      record {
        now = rest.now;
        only = rest.only;
        counts = Counts-cons wf w rest.now ev evs counts rest.counts;
        listens = rest.listens ∙ listens;
        silent = λ few.
            let (now_few, later_few) = still_few wf w ev evs counts few in
            rest.silent later_few ∙ append_nothing notes (not_due wf w ev e.has_completion now_few);
      }

abbrev pub IsSuccess : Note → Type 0
IsSuccess (progressed w t s p) = Unit {0}
IsSuccess (finished w success path) = (success ≡ true) × (path ≡ output_file)
