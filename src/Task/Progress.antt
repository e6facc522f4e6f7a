-- ===== src/Task/Progress.antt =====
-- Progress values.
use stv_renew.Prelude.Int.{ℤ, pos}
use stv_renew.Prelude.{ℕ, ◌^◌, ◌≡◌, refl, ◌≢◌, false, arith}
use stv_renew.Prelude.Float.{
  Float, nan, neg_infinity, infinity, finite, float_zero, float_one, float_lt, clamp,
}
use stv_renew.Task.{TaskDescriptor, set_progress}

-- `clamp` at finite bounds.
clamp_finite :
    (z : ℤ) (h : ℕ)
    → let c = clamp (finite z) (finite (pos 0)) (finite (pos h)) in
      (c ≢ nan)
      × (float_lt c (finite (pos 0)) ≡ false)
      × (float_lt (finite (pos h)) c ≡ false)
      × (float_lt (finite z) (finite (pos 0)) ≡ false
          → float_lt (finite (pos h)) (finite z) ≡ false
          → c ≡ finite z)
unfolding clamp float_lt
clamp_finite z h = ground arith

abbrev InRange : Float → Float → Type 0
InRange p c =
    (p ≢ nan → (c ≢ nan) × (float_lt c float_zero ≡ false) × (float_lt float_one c ≡ false))
    × (float_lt p float_zero ≡ false → float_lt float_one p ≡ false → c ≡ p)

clamp-InRange : (p : Float) → InRange p (clamp p float_zero float_one)
unfolding clamp float_lt
clamp-InRange nan = (λ h. absurd (h refl), λ _ _. refl)
clamp-InRange neg_infinity = (λ _. (λ e. cc, refl, refl), λ a b. cc)
clamp-InRange infinity = (λ _. (λ e. cc, refl, refl), λ a b. cc)
clamp-InRange (finite z) =
    let (real, low, high, kept) = clamp_finite z (2 ^ 149) in (λ _. (real, low, high), kept)

-- `set_progress` keeps every number in [0, 1]: unless the value given is a NaN, the progress set is
-- a number, not below 0 and not above 1; and a value that is neither below 0 nor above 1 is set as
-- it is.
pub set_progress-InRange :
    (t : TaskDescriptor) (p : Float)
    → let c = (set_progress t p).progress in
      (p ≢ nan → (c ≢ nan) × (float_lt c float_zero ≡ false) × (float_lt float_one c ≡ false))
      × (float_lt p float_zero ≡ false → float_lt float_one p ≡ false → c ≡ p)
unfolding set_progress
set_progress-InRange t p = clamp-InRange p
