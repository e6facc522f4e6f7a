-- ===== src/Pipeline/Progress.antt =====
-- What the mock stages report, and where they stop.
use mathlib.Core.Path.{subst}
use stv_renew.Prelude.{
  ◌≡◌, refl, ◌⊎◌, inl, inr, ℕ, zero, suc, ◌+◌, ◌*◌, ◌<◌, Bool, true, false, ◌&&◌, List, [], ◌∷◌,
  Option, arith, if◌then◌else◌, if_true, if_false, ap, ◌∙◌, sym,
}
use stv_renew.Prelude.Float.{Float, float_one, float_lt}
use stv_renew.Prelude.Numbers.{float_ratio}
use stv_renew.Errors.{canceled_error, ok, err}
use stv_renew.Task.{has_value}
use stv_renew.Pipeline.{StageContext}
use stv_renew.Pipeline.Mock.{
  MockLoop, mock_loop, MockRun, MockKind, mock_storyboard, mock_image_gen, mock_compose,
  execute_mock, ended,
}

-- The fractions from (i + 1) / steps on, `k` of them.
abbrev pub fractions : (steps i k : ℕ) → List Float
fractions steps i zero = []
fractions steps i (suc k) = float_ratio (i + 1) steps ∷ fractions steps (suc i) k

abbrev pub steps_of : MockKind → ℕ
steps_of mock_storyboard = 5
steps_of mock_image_gen = 3
steps_of mock_compose = 5

-- Strictly rising, to the last value given.
abbrev pub RisesTo : Float → List Float → Type 0
RisesTo top [] = ⊥
RisesTo top (x ∷ xs) = elim xs [ [] ↦ x ≡ top | y ∷ ys ↦ (float_lt x y ≡ true) × RisesTo top xs ]

-- The stage looks at its token and finds it canceled.
abbrev pub stops : Option ℕ → (ℕ → Bool) → ℕ → Bool
stops token polls i = has_value token && polls i

-- The loop came to its end: no look found the token canceled.
abbrev pub Through : (ℕ → Bool) → (steps i left : ℕ) → MockLoop → Type 0
Through stop steps i left loop =
    (loop.stopped ≡ false)
    × (loop.reports ≡ fractions steps i left)
    × (loop.slept ≡ 100 * left)
    × ((j : ℕ) → j < left → stop (i + j) ≡ false)

-- The k-th look was the first that found it canceled.
abbrev pub StoppedAt : (ℕ → Bool) → (steps i left k : ℕ) → MockLoop → Type 0
StoppedAt stop steps i left k loop =
    (k < left)
    × (loop.stopped ≡ true)
    × (loop.reports ≡ fractions steps i k)
    × (loop.slept ≡ 100 * k)
    × (stop (i + k) ≡ true)
    × ((j : ℕ) → j < k → stop (i + j) ≡ false)

abbrev Looped : (ℕ → Bool) → (steps i left : ℕ) → MockLoop → Type 0
Looped stop steps i left loop =
    Through stop steps i left loop ⊎ ((k : ℕ) × StoppedAt stop steps i left k loop)

-- An earlier look that did not stop.
shifted :
    (stop : ℕ → Bool) (i n : ℕ)
    → stop i ≡ false
    → ((j : ℕ) → j < n → stop (suc i + j) ≡ false)
    → (j : ℕ) → j < suc n
    → stop (i + j) ≡ false
shifted stop i n first later zero h = ap stop (omega arith) ∙ first
shifted stop i n first later (suc j) h = ap stop (omega arith) ∙ later j (omega arith)

mock_loop-Looped :
    (token : Option ℕ) (polls : ℕ → Bool) (steps i left : ℕ)
    → Looped (stops token polls) steps i left (mock_loop token polls steps i left)
unfolding mock_loop
mock_loop-Looped token polls steps i zero = inl (refl, refl, refl, λ j h. absurd (omega arith))
mock_loop-Looped token polls steps i (suc left) =
    by_look (has_value token && polls i) refl (mock_loop token polls steps (suc i) left)
      (mock_loop-Looped token polls steps (suc i) left)
  where
    stop : ℕ → Bool
    stop = stops token polls

    by_look :
        (b : Bool)
        → stop i ≡ b
        → (rest : MockLoop) → Looped stop steps (suc i) left rest
        → Looped stop steps i (suc left) (
            if b then record { reports = []; slept = 0; stopped = true } else record {
              reports = float_ratio (i + 1) steps ∷ rest.reports;
              slept = 100 + rest.slept;
              stopped = rest.stopped;
            })
    by_look true h rest l =
        inr (
          0,
          (omega arith, refl, refl, refl, ap stop (omega arith) ∙ h, λ j k. absurd (omega arith)),
        )
    by_look false h rest (inl (on, reports, slept, looks)) = inl (
      on,
      ap (λ x. float_ratio (i + 1) steps ∷ x) reports,
      omega (arith, slept),
      shifted stop i left h looks,
    )
    by_look false h rest (inr (k, (less, off, reports, slept, found, looks))) = inr (
      suc k,
      (
        omega arith,
        off,
        ap (λ x. float_ratio (i + 1) steps ∷ x) reports,
        omega (arith, slept),
        ap stop (omega arith) ∙ found,
        shifted stop i k h looks,
      ),
    )

-- What a run of a mock stage comes to.
pub record RanThrough (kind : MockKind) (stop : ℕ → Bool) (run : MockRun) : Type 0 where
  pub all_steps : Through stop (steps_of kind) 0 (steps_of kind) run.loop
  pub rising : RisesTo float_one run.loop.reports
  pub succeeds : run.result ≡ ok tt

pub record RanUntil (kind : MockKind) (ctx : StageContext) (stop : ℕ → Bool) (run : MockRun)
    : Type 0 where
  pub looks : ℕ
  pub stops_there : StoppedAt stop (steps_of kind) 0 (steps_of kind) looks run.loop
  pub nothing_stored : run.context ≡ ctx
  pub is_canceled : run.result ≡ err (canceled_error "Operation canceled")

fractions-RisesTo :
    (kind : MockKind) → RisesTo float_one (fractions (steps_of kind) 0 (steps_of kind))
unfolding float_ratio float_lt
fractions-RisesTo mock_storyboard = (refl, (refl, (refl, (refl, refl))))
fractions-RisesTo mock_image_gen = (refl, (refl, refl))
fractions-RisesTo mock_compose = (refl, (refl, (refl, (refl, refl))))

abbrev Ran : MockKind → StageContext → (ℕ → Bool) → MockRun → Type 0
Ran kind ctx stop run = RanThrough kind stop run ⊎ RanUntil kind ctx stop run

ended-Ran :
    (kind : MockKind) (ctx after : StageContext) (stop : ℕ → Bool) (loop : MockLoop)
    → Looped stop (steps_of kind) 0 (steps_of kind) loop
    → Ran kind ctx stop (ended loop ctx after)
ended-Ran kind ctx after stop loop (inl t) = inl (
    subst (RanThrough kind stop) (sym (if_false loop.stopped _ _ t.0)) (record {
      all_steps = t;
      rising = subst (RisesTo float_one) (sym t.1) (fractions-RisesTo kind);
      succeeds = refl;
    }))
ended-Ran kind ctx after stop loop (inr (k, t)) = inr (
    subst (RanUntil kind ctx stop) (sym (if_true loop.stopped _ _ t.1))
      (record { looks = k; stops_there = t; nothing_stored = refl; is_canceled = refl }))

-- A mock stage looks at its token before each of its steps. If a look finds the token canceled, the
-- stage returns the cancellation error there, with exactly the steps before it slept and reported, and
-- stores nothing; otherwise it reports the fractions of its steps, which rise strictly to 1, and
-- succeeds.
pub execute_mock-Ran :
    (kind : MockKind) (polls : ℕ → Bool) (ctx : StageContext)
    → RanThrough kind (stops ctx.cancel_token polls) (execute_mock kind polls ctx)
      ⊎ RanUntil kind ctx (stops ctx.cancel_token polls) (execute_mock kind polls ctx)
unfolding execute_mock
execute_mock-Ran mock_storyboard polls ctx =
    ended-Ran mock_storyboard ctx _ _ _ (mock_loop-Looped ctx.cancel_token polls 5 0 5)
execute_mock-Ran mock_image_gen polls ctx =
    ended-Ran mock_image_gen ctx _ _ _ (mock_loop-Looped ctx.cancel_token polls 3 0 3)
execute_mock-Ran mock_compose polls ctx =
    ended-Ran mock_compose ctx _ _ _ (mock_loop-Looped ctx.cancel_token polls 5 0 5)
