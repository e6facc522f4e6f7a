-- ===== src/Presenter/Members.antt =====
-- What each set of a member leaves alone, and how exact the shown progress is.
use stv_renew.Prelude.{
  ◌≡◌, refl, ◌∙◌, ℕ, Bool, true, false, String, List, str_eq, if◌then◌else◌, arith, ◌+◌, ◌-◌,
}
use stv_renew.Prelude.Int.{pos_part, neg_part}
use stv_renew.Prelude.Float.{Float, nan, infinity, neg_infinity, finite, float_lt}
use stv_renew.Prelude.Numbers.{float_ratio, abs_diff}
use stv_renew.Presenter.{
  Presenter, Signal, append_log, set_busy, set_progress, set_status_text, signal,
}

self_distance : (n : ℕ) → n - n + (n - n) ≡ 0
self_distance n = omega arith

no_distance : (x : Float) → float_lt (float_ratio 1 1000) (abs_diff x x) ≡ false
unfolding float_lt abs_diff float_ratio
no_distance nan = refl
no_distance infinity = refl
no_distance neg_infinity = refl
no_distance (finite a) = rw (self_distance (pos_part a + neg_part a)) refl

module _ {S : Type 0} where
  pub set_busy_lem : (p : Presenter S) (b : Bool) → (set_busy p b).busy ≡ b
  unfolding set_busy
  set_busy_lem p b = ground arith

  -- Only the members that a set writes.
  pub record Keeps (p q : Presenter S) : Type 0 where
    pub engine : q.engine ≡ p.engine
    pub output_path : q.output_path ≡ p.output_path
    pub current_trace_id : q.current_trace_id ≡ p.current_trace_id
    pub timer_active : q.timer_active ≡ p.timer_active

  -- A write to the other members.
  kept :
      {p : Presenter S} (b : Bool) (x : Float) (st log : String) (sent : List Signal)
      → Keeps p
          (record p { busy = b; progress = x; status_text = st; log_text = log; signals = sent })
  kept b x st log sent = record {
    engine = refl;
    output_path = refl;
    current_trace_id = refl;
    timer_active = refl;
  }

  pub Keeps-trans : {p q r : Presenter S} → Keeps p q → Keeps q r → Keeps p r
  Keeps-trans f g = record {
    engine = g.engine ∙ f.engine;
    output_path = g.output_path ∙ f.output_path;
    current_trace_id = g.current_trace_id ∙ f.current_trace_id;
    timer_active = g.timer_active ∙ f.timer_active;
  }

  if_Keeps : {p q r : Presenter S} (b : Bool) → Keeps p q → Keeps p r → Keeps p (if b then q else r)
  if_Keeps true f g = f
  if_Keeps false f g = g

  pub append_log-Keeps : (p : Presenter S) (line : String) → Keeps p (append_log p line)
  unfolding append_log
  append_log-Keeps p line = kept _ _ _ _ _

  pub set_busy-Keeps : (p : Presenter S) (b : Bool) → Keeps p (set_busy p b)
  unfolding set_busy
  set_busy-Keeps p b = by_busy p.busy b
    where
      by_busy :
          (was b : Bool)
          → Keeps p (elim was [
            | true ↦ if b then p else signal (record p { busy = b }) Signal.busy_changed
            | false ↦ if b then signal (record p { busy = b }) Signal.busy_changed else p
          ])
      by_busy true true = kept _ _ _ _ _
      by_busy true false = kept _ _ _ _ _
      by_busy false true = kept _ _ _ _ _
      by_busy false false = kept _ _ _ _ _

  pub set_progress-Keeps : (p : Presenter S) (x : Float) → Keeps p (set_progress p x)
  unfolding set_progress
  set_progress-Keeps p x =
      if_Keeps (float_lt (float_ratio 1 1000) (abs_diff p.progress x)) (kept _ _ _ _ _)
        (kept _ _ _ _ _)

  pub set_progress-busy : (p : Presenter S) (x : Float) → (set_progress p x).busy ≡ p.busy
  unfolding set_progress
  set_progress-busy p x = same (float_lt (float_ratio 1 1000) (abs_diff p.progress x))
    where
      same :
          (b : Bool)
          → (if◌then◌else◌ {A = Presenter S} b
              (signal (record p { progress = x }) Signal.progress_changed)
              p).busy
            ≡ p.busy
      same true = refl
      same false = refl

  pub set_status_text-Keeps : (p : Presenter S) (s : String) → Keeps p (set_status_text p s)
  unfolding set_status_text
  set_status_text-Keeps p s = if_Keeps (str_eq p.status_text s) (kept _ _ _ _ _) (kept _ _ _ _ _)

  pub set_status_text-busy : (p : Presenter S) (s : String) → (set_status_text p s).busy ≡ p.busy
  unfolding set_status_text
  set_status_text-busy p s = same (str_eq p.status_text s)
    where
      same :
          (b : Bool)
          → (if◌then◌else◌ {A = Presenter S} b p
              (signal (record p { status_text = s }) Signal.status_text_changed)).busy
            ≡ p.busy
      same true = refl
      same false = refl

  -- The progress shown is never more than a thousandth away from the value last set, by the
  -- comparison of floats that the program makes.
  pub set_progress_near :
      (p : Presenter S) (x : Float)
      → float_lt (float_ratio 1 1000) (abs_diff (set_progress p x).progress x) ≡ false
  unfolding set_progress
  set_progress_near p x = by_test _ refl
    where
      by_test :
          (b : Bool)
          → float_lt (float_ratio 1 1000) (abs_diff p.progress x) ≡ b
          → float_lt (float_ratio 1 1000) (
              abs_diff
                (if◌then◌else◌ {A = Presenter S} b
                  (signal (record p { progress = x }) Signal.progress_changed)
                  p).progress
                x)
            ≡ false
      by_test true h = no_distance x
      by_test false h = h
