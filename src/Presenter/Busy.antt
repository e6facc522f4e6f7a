-- ===== src/Presenter/Busy.antt =====
-- When the presenter is busy: from the start of a workflow to the delivery of its completion.
use stv_renew.Prelude.{
  ◌≡◌, refl, ◌∙◌, inl, inr, ℕ, Bool, true, false, not, ◌||◌, String, List, [], ◌∷◌, Option-cases,
  is_empty, str_eq, arith, if◌then◌else◌,
}
use stv_renew.Prelude.Int.{ℤ}
use stv_renew.Prelude.Float.{Float, float_lt}
use stv_renew.Prelude.Numbers.{float_ratio, abs_diff}
use stv_renew.Notify.{StateEvent}
use stv_renew.Workflow.{
  Api, Engine, Note, progressed, finished, cancel_workflow, handle_all, handle_state_change,
  find_workflow, cancel_all,
}
use stv_renew.Presenter.{
  Presenter, Formats, Driver, Op, starts, cancels, timer_fires, delivers, hears, step, run,
  start_generation, cancel_generation, on_tick, deliver, handle_note, advance, append_log,
  set_progress, set_status_text,
}

-- A completion is the next note that the event loop takes.
abbrev pub completion_next : List Note → Bool
completion_next [] = false
completion_next (progressed _ _ _ _ ∷ _) = false
completion_next (finished _ _ _ ∷ _) = true

module _ {S : Type 0} where
  -- Busy as before, with the same workflow, and no id was drawn for another one.
  pub record Unmoved (p q : Presenter S) : Type 0 where
    pub same_busy : q.busy ≡ p.busy
    pub same_trace : q.current_trace_id ≡ p.current_trace_id
    pub same_draws : q.engine.drawn ≡ p.engine.drawn

  Unmoved-refl : {p : Presenter S} → Unmoved p p
  Unmoved-refl = record { same_busy = refl; same_trace = refl; same_draws = refl }

  Unmoved-trans : {p q r : Presenter S} → Unmoved p q → Unmoved q r → Unmoved p r
  Unmoved-trans f g = record {
    same_busy = g.same_busy ∙ f.same_busy;
    same_trace = g.same_trace ∙ f.same_trace;
    same_draws = g.same_draws ∙ f.same_draws;
  }

  if_Unmoved :
      {p q r : Presenter S} (b : Bool) → Unmoved p q → Unmoved p r → Unmoved p (if b then q else r)
  if_Unmoved true f g = f
  if_Unmoved false f g = g

  append_log-Unmoved : (p : Presenter S) (line : String) → Unmoved p (append_log p line)
  unfolding append_log
  append_log-Unmoved p line = record { same_busy = refl; same_trace = refl; same_draws = refl }

  set_progress-Unmoved : (p : Presenter S) (x : Float) → Unmoved p (set_progress p x)
  unfolding set_progress
  set_progress-Unmoved p x =
      if_Unmoved (float_lt (float_ratio 1 1000) (abs_diff p.progress x))
        (record { same_busy = refl; same_trace = refl; same_draws = refl }) Unmoved-refl

  set_status_text-Unmoved : (p : Presenter S) (s : String) → Unmoved p (set_status_text p s)
  unfolding set_status_text
  set_status_text-Unmoved p s =
      if_Unmoved (str_eq p.status_text s) Unmoved-refl
        (record { same_busy = refl; same_trace = refl; same_draws = refl })

  handle_all-drawn : (e : Engine S) (evs : List StateEvent) → (handle_all e evs).drawn ≡ e.drawn
  unfolding handle_all handle_state_change
  handle_all-drawn e [] = refl
  handle_all-drawn e (ev ∷ evs) = handle_all-drawn (handle_state_change e ev) evs

  -- A note that is no completion.
  deliver-Unmoved :
      (qt : Formats) (p : Presenter S)
      → completion_next p.engine.notes ≡ false
      → Unmoved p (deliver qt p)
  unfolding deliver handle_note advance
  deliver-Unmoved qt p h = by_notes p.engine.notes h
    where
      looked : List Note → Presenter S
      looked [] = p
      looked (note ∷ notes) =
          handle_note qt (record p { engine = record p.engine { notes = notes } }) note

      by_notes : (ns : List Note) → completion_next ns ≡ false → Unmoved p (looked ns)
      by_notes [] k = Unmoved-refl
      by_notes (progressed w task st x ∷ ns) k =
          Unmoved-trans {p = p} {q = record p { engine = record p.engine { notes = ns } }}
            (record { same_busy = refl; same_trace = refl; same_draws = refl })
            (Unmoved-trans (set_status_text-Unmoved _ (qt.status_line task st x)) (
              Unmoved-trans (set_progress-Unmoved _ x)
                (append_log-Unmoved _ (qt.log_line task st x))))
      by_notes (finished w ok path ∷ ns) k = cc

  on_tick-Unmoved : (driver : Driver S) (p : Presenter S) → Unmoved p (on_tick driver p)
  unfolding on_tick
  on_tick-Unmoved driver p = record {
    same_busy = refl;
    same_trace = refl;
    same_draws =
        handle_all-drawn (record p.engine { scheduler = (driver.tick p.engine.scheduler).0 })
          (driver.tick p.engine.scheduler).1;
  }

module _ (api : Api) (draws : ℕ → ℕ) (qt : Formats) where
  cancel_all-drawn :
      (now : ℕ) (ids : List String) (e : Engine api.State)
      → (cancel_all api draws e ids now).drawn ≡ e.drawn
  unfolding cancel_all
  cancel_all-drawn now [] e = refl
  cancel_all-drawn now (id ∷ ids) e =
      let (s, (events, r)) = api.cancel e.scheduler id now in
      cancel_all-drawn now ids (handle_all (record e { scheduler = s }) events)
      ∙ handle_all-drawn (record e { scheduler = s }) events

  cancel_workflow-drawn :
      (e : Engine api.State) (trace : String) (now : ℕ)
      → (cancel_workflow api draws e trace now).0.drawn ≡ e.drawn
  unfolding cancel_workflow
  cancel_workflow-drawn e trace now = elim (Option-cases (find_workflow trace e.active)) [
    | inl h ↦ rw (h, cancel_workflow) refl
    | inr (wf, h) ↦ rw (h, cancel_workflow) (cancel_all-drawn now wf.task_ids e)
  ]

  cancel_generation-Unmoved :
      (p : Presenter api.State) (now : ℕ) → Unmoved p (cancel_generation api draws qt p now)
  unfolding cancel_generation append_log
  cancel_generation-Unmoved p now =
      let q : Presenter api.State = record (append_log p "Canceling workflow...") {
        engine = (cancel_workflow api draws p.engine p.current_trace_id now).0;
      } in
      if_Unmoved (not p.busy || is_empty p.current_trace_id) Unmoved-refl (
        Unmoved-trans {q = q}
          (record {
            same_busy = refl;
            same_trace = refl;
            same_draws = cancel_workflow-drawn p.engine p.current_trace_id now;
          })
          (set_status_text-Unmoved _ "Canceling..."))

  start_generation-Unmoved :
      (p : Presenter api.State) (story style : String) (scenes : ℤ) (now : ℕ)
      → p.busy ≡ true
      → Unmoved p (start_generation api draws qt p story style scenes now)
  unfolding start_generation
  start_generation-Unmoved p story style scenes now busy = still _ p.busy busy
    where
      still :
          (x : Presenter api.State) (b : Bool)
          → b ≡ true
          → Unmoved p (if b then append_log p "Already generating; ignoring request." else x)
      still x true h = append_log-Unmoved p "Already generating; ignoring request."
      still x false h = cc

module _ (api : Api) (draws : ℕ → ℕ) (qt : Formats) (driver : Driver api.State) where
  -- The operation delivers a completion.
  abbrev pub completes_now : Presenter api.State → Op → Bool
  completes_now p delivers = completion_next p.engine.notes
  completes_now p _ = false

  -- Some operation of the history delivers a completion.
  unfoldable pub completes : Presenter api.State → List Op → Bool
  completes p [] = false
  completes p (op ∷ ops) = completes_now p op || completes (step api draws qt driver p op) ops

  step-Unmoved :
      (p : Presenter api.State) (op : Op)
      → p.busy ≡ true
      → completes_now p op ≡ false
      → Unmoved p (step api draws qt driver p op)
  unfolding step
  step-Unmoved p (starts story style scenes now) busy h =
      start_generation-Unmoved api draws qt p story style scenes now busy
  step-Unmoved p (cancels now) busy h = cancel_generation-Unmoved api draws qt p now
  step-Unmoved p timer_fires busy h =
      if_Unmoved p.timer_active (on_tick-Unmoved driver p) Unmoved-refl
  step-Unmoved p delivers busy h = deliver-Unmoved qt p h
  step-Unmoved p (hears events) busy h = record {
    same_busy = refl;
    same_trace = refl;
    same_draws = handle_all-drawn p.engine events;
  }

  -- While no completion is delivered, a busy presenter stays busy with its workflow and starts no
  -- other, whatever the user calls, the timer does and the scheduler tells the engine.
  pub run-Unmoved :
      (p : Presenter api.State) (ops : List Op)
      → p.busy ≡ true
      → completes p ops ≡ false
      → Unmoved p (run api draws qt driver p ops)
  unfolding run completes
  run-Unmoved p [] busy h = Unmoved-refl
  run-Unmoved p (op ∷ ops) busy h =
      let now = step-Unmoved p op busy (ground arith) in
      Unmoved-trans now
        (run-Unmoved (step api draws qt driver p op) ops (now.same_busy ∙ busy) (ground arith))
