-- ===== src/Presenter/Starts.antt =====
-- What a start and a completion leave.
use mathlib.Core.Path.{subst}
use stv_renew.Prelude.{
  ◌≡◌, refl, sym, ◌∙◌, ap, ℕ, Bool, true, false, String, List, [], ◌∷◌, ◌++◌, if◌then◌else◌, concat,
}
use stv_renew.Prelude.Int.{ℤ}
use stv_renew.Prelude.Float.{float_zero, float_one}
use stv_renew.Errors.{TaskError, Result, ok, err}
use stv_renew.Workflow.{Api, Engine, Note, finished, start_workflow}
use stv_renew.Presenter.{
  Presenter, Signal, generation_completed, Formats, start_generation, deliver, handle_note,
  complete, append_log, set_busy, set_progress, set_status_text, signal, begun, shown_message,
}
use stv_renew.Presenter.Members.{
  Keeps-trans, set_busy_lem, set_busy-Keeps, set_progress-Keeps, set_progress-busy,
  set_status_text-Keeps, set_status_text-busy,
}

-- The signal was emitted last.
abbrev pub EmittedLast : {S : Type 0} → Signal → Presenter S → Type 0
EmittedLast s p = (before : List Signal) × (p.signals ≡ before ++ s ∷ [])

module _ {S : Type 0} where
  -- The members that a start has set before it calls the engine.
  record Begun (p q : Presenter S) : Type 0 where
    engine : q.engine ≡ p.engine
    busy : q.busy ≡ true
    output_path : q.output_path ≡ ""
    current_trace_id : q.current_trace_id ≡ p.current_trace_id
    timer_active : q.timer_active ≡ p.timer_active

  begun-Begun :
      (qt : Formats) (p : Presenter S) (story style : String) (scenes : ℤ)
      → Begun p (begun qt p story style scenes)
  unfolding append_log
  begun-Begun qt p story style scenes =
      let k = Keeps-trans (set_busy-Keeps p true) (
        Keeps-trans (set_progress-Keeps _ float_zero)
          (set_status_text-Keeps _ "Starting generation...")) in
      record {
        engine = k.engine;
        busy =
            set_status_text-busy _ "Starting generation..."
            ∙ set_progress-busy _ float_zero
            ∙ set_busy_lem p true;
        output_path = refl;
        current_trace_id = k.current_trace_id;
        timer_active = k.timer_active;
      }

-- What a request to start comes to, `x` being what the engine makes of it.
pub data Answer {S : Type 0} (p : Presenter S) (x : Engine S × Result String TaskError)
    (q : Presenter S) : Type 0 where
  ignored : p.busy ≡ true → q ≡ append_log p "Already generating; ignoring request." → Answer p x q
  refused :
      (e : TaskError)
      → p.busy ≡ false
      → x.1 ≡ err e
      → q.engine ≡ x.0
      → q.busy ≡ false
      → q.timer_active ≡ p.timer_active
      → EmittedLast (generation_completed false "") q
      → Answer p x q
  accepted :
      (trace : String)
      → p.busy ≡ false
      → x.1 ≡ ok trace
      → q.engine ≡ x.0
      → q.busy ≡ true
      → q.timer_active ≡ true
      → q.current_trace_id ≡ trace
      → q.output_path ≡ ""
      → Answer p x q

module _ {S : Type 0} where
  settled-Answer :
      (p q : Presenter S) (engine : Engine S) (r : Result String TaskError)
      → p.busy ≡ false
      → Begun p q
      → let after = record q { engine = engine } in
        Answer p
          (engine, r)
          (elim r [
            | err e ↦
                signal
                  (append_log
                    (set_status_text (set_busy after false) "Failed to start generation")
                    (concat ("Failed to start workflow: " ∷ shown_message e ∷ [])))
                  (generation_completed false "")
            | ok trace ↦
                record (append_log
                  (record after { current_trace_id = trace })
                  (concat ("trace_id: " ∷ trace ∷ []))) { timer_active = true }
          ])
  unfolding append_log
  settled-Answer p q engine (err e) idle b =
      let k =
        Keeps-trans (set_busy-Keeps (record q { engine = engine }) false)
          (set_status_text-Keeps _ "Failed to start generation") in
      refused e idle refl k.engine
        (set_status_text-busy _ "Failed to start generation"
          ∙ set_busy_lem (record q { engine = engine }) false)
        (k.timer_active ∙ b.timer_active) (_, refl)
  settled-Answer p q engine (ok trace) idle b =
      accepted trace idle refl refl b.busy refl refl b.output_path

-- A request to start while the presenter is busy only adds a line to the log. Otherwise the engine is
-- asked once: if it refuses, the presenter is idle again and says last that the generation failed,
-- and the timer is as it was; if it accepts, the presenter is busy with that workflow, has no output
-- path, and its timer runs.
pub start_generation-Answer :
    (api : Api) (draws : ℕ → ℕ) (qt : Formats) (p : Presenter api.State) (story style : String)
    (scenes : ℤ) (now : ℕ)
    → Answer p
        (start_workflow api draws p.engine scenes now)
        (start_generation api draws qt p story style scenes now)
unfolding start_generation
start_generation-Answer api draws qt p story style scenes now = by_busy p.busy refl
  where
    q : Presenter api.State
    q = begun qt p story style scenes

    settled : Engine api.State × Result String TaskError → Presenter api.State
    settled x =
        let after = record q { engine = x.0 } in
        elim x.1 [
          | err e ↦
              signal
                (append_log (set_status_text (set_busy after false) "Failed to start generation")
                  (concat ("Failed to start workflow: " ∷ shown_message e ∷ [])))
                (generation_completed false "")
          | ok trace ↦
              record (append_log (record after { current_trace_id = trace })
                (concat ("trace_id: " ∷ trace ∷ []))) { timer_active = true }
        ]

    by_busy :
        (b : Bool)
        → p.busy ≡ b
        → Answer p (start_workflow api draws p.engine scenes now) (
            if b
            then append_log p "Already generating; ignoring request."
            else settled (start_workflow api draws q.engine scenes now))
    by_busy true h = ignored h refl
    by_busy false h =
        let b = begun-Begun qt p story style scenes in
        subst
          (λ e.
            Answer p (start_workflow api draws e scenes now)
              (settled (start_workflow api draws q.engine scenes now)))
          b.engine
          (settled-Answer p q (start_workflow api draws q.engine scenes now).0
            (start_workflow api draws q.engine scenes now).1 h b)

closed :
    {S : Type 0} (told : Presenter S) (success : Bool)
    → let q =
        signal
          (set_progress (set_busy told false) float_one)
          (generation_completed success told.output_path) in
      (q.busy ≡ false)
      × (q.engine ≡ told.engine)
      × (q.output_path ≡ told.output_path)
      × EmittedLast (generation_completed success q.output_path) q
closed told success =
    let k = Keeps-trans (set_busy-Keeps told false) (set_progress-Keeps _ float_one) in
    let r = set_progress (set_busy told false) float_one in
    (
      set_progress-busy _ float_one ∙ set_busy_lem told false,
      k.engine,
      k.output_path,
      (
        r.signals,
        ap (λ path. r.signals ++ generation_completed success path ∷ []) (sym k.output_path),
      ),
    )

-- What a completed workflow leaves.
abbrev Completed : {S : Type 0} → Presenter S → Bool → String → Presenter S → Type 0
Completed p success path q =
    (q.busy ≡ false)
    × (q.engine ≡ p.engine)
    × (q.output_path ≡ (if success then path else p.output_path))
    × EmittedLast (generation_completed success q.output_path) q

complete-Completed :
    {S : Type 0} (p : Presenter S) (path : String) (success : Bool)
    → Completed p success path (complete p success path)
unfolding complete append_log
complete-Completed p path true =
    let opened = signal (record p { output_path = path }) Signal.output_path_changed in
    let k = set_status_text-Keeps opened "Generation completed" in
    let told =
      append_log
        (append_log (set_status_text opened "Generation completed")
          "=== Workflow completed successfully ===")
        (concat ("Output: " ∷ path ∷ [])) in
    let c = closed told true in (c.0, c.1 ∙ k.engine, c.2 ∙ k.output_path, c.3)
complete-Completed p path false =
    let k = set_status_text-Keeps p "Generation failed" in
    let told = append_log (set_status_text p "Generation failed") "=== Workflow failed ===" in
    let c = closed told false in (c.0, c.1 ∙ k.engine, c.2 ∙ k.output_path, c.3)

-- Delivering a call of the completion callback ends the workflow for the presenter: it is idle, and
-- the last that it says is the result; a success also sets the output path.
pub deliver_completion :
    {S : Type 0} (qt : Formats) (p : Presenter S) (trace path : String) (success : Bool)
    (notes : List Note)
    → p.engine.notes ≡ finished trace success path ∷ notes
    → let q = deliver qt p in
      (q.busy ≡ false)
      × (q.engine.notes ≡ notes)
      × (q.output_path ≡ (if success then path else p.output_path))
      × EmittedLast (generation_completed success q.output_path) q
unfolding deliver handle_note complete
deliver_completion {S} qt p trace path success notes h =
    let c =
      complete-Completed (record p { engine = record p.engine { notes = notes } }) path success in
    subst (λ ns. Delivered (looked ns)) (sym h) (c.0, ap (λ (e : Engine S). e.notes) c.1, c.2, c.3)
  where
    looked : List Note → Presenter S
    looked [] = p
    looked (note ∷ ns) = handle_note qt (record p { engine = record p.engine { notes = ns } }) note

    Delivered : Presenter S → Type 0
    Delivered q =
        (q.busy ≡ false)
        × (q.engine.notes ≡ notes)
        × (q.output_path ≡ (if success then path else p.output_path))
        × EmittedLast (generation_completed success q.output_path) q
