-- ===== src/Workflow/Completion/Told.antt =====
-- What the engine tells of an event.
use stv_renew.Prelude.{
  ◌≡◌, refl, ◌∙◌, ap, inl, inr, ◌==◌, Bool, true, false, ◌&&◌, String, [], ◌∷◌, ◌++◌, Bool-cases,
  contains, if◌then◌else◌,
}
use stv_renew.Notify.{StateEvent}
use stv_renew.Workflow.{
  Engine, WorkflowState, Note, progressed, finished, output_file, advance, handle_workflows,
  handle_state_change,
}
use stv_renew.Workflow.Completion.Counting.{
  successes, failures, completions, completions-append, Counts, advance-Counts, advance-path,
  due_note, counted_once, counted_none,
}

told_notes :
    (trace trace' path : String) (n : Note) (p c b : Bool)
    → completions (n ∷ []) ≡ []
    → trace' ≡ trace
    → (b ≡ true → path ≡ output_file)
    → completions (
        (if p then n ∷ [] else [])
        ++ (if b then if c then finished trace' true path ∷ [] else [] else []))
      ≡ (if b && c then finished trace true output_file ∷ [] else [])
told_notes trace trace' path n p true true q t h =
    let told = completions-append (if p then n ∷ [] else []) (finished trace' true path ∷ []) in
    rw (told, quiet p, t, h refl) refl
  where
    quiet : (p : Bool) → completions (if p then n ∷ [] else []) ≡ []
    quiet true = q
    quiet false = refl
told_notes trace trace' path n true false true q t h = q
told_notes trace trace' path n false false true q t h = refl
told_notes trace trace' path n true c false q t h = q
told_notes trace trace' path n false c false q t h = refl

handled_notes :
    (wf : WorkflowState) (ev : StateEvent) (p c : Bool)
    → contains wf.task_ids ev.task_id ≡ true
    → completions (handle_workflows p c ev (wf ∷ [])).1 ≡ due_note wf (advance wf ev.state) ev c
unfolding handle_workflows
handled_notes wf ev p c h = rw h (
    told_notes wf.trace_id _ _ (progressed wf.trace_id ev.task_id ev.state ev.progress) p c _ refl
      (advance-Counts wf ev.state).same_trace (advance-path wf ev.state))

module _ {S : Type 0} where
  -- One event, when a single workflow is active.
  pub handle_one :
      (e : Engine S) (wf : WorkflowState) (ev : StateEvent)
      → e.active ≡ wf ∷ []
      → let e' = handle_state_change e ev in
        (w : WorkflowState) × (e'.active ≡ w ∷ [])
        × Counts wf w (successes wf.task_ids (ev ∷ [])) (failures wf.task_ids (ev ∷ []))
        × (completions e'.notes
            ≡ completions e.notes
              ++ (if contains wf.task_ids ev.task_id && (w.completed == w.total) && e.has_completion
                  then finished wf.trace_id true output_file ∷ []
                  else []))
        × (e'.has_completion ≡ e.has_completion)
  unfolding handle_state_change handle_workflows successes failures
  handle_one e wf ev h = elim (Bool-cases (contains wf.task_ids ev.task_id)) [
    | inl k ↦ (
      advance wf ev.state,
      rw (h, k) refl,
      rw k (counted_once wf ev.state),
      completions-append e.notes _
          ∙ ap (λ ns. completions e.notes ++ ns)
              (rw h (handled_notes wf ev e.has_progress e.has_completion k)),
      refl,
    )
    | inr k ↦ (
      wf,
      rw (h, k) refl,
      rw k counted_none,
      completions-append e.notes _ ∙ ap (λ ns. completions e.notes ++ ns) (rw (h, k) refl),
      refl,
    )
  ]
