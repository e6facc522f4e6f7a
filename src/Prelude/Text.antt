-- ===== src/Prelude/Text.antt =====
-- Texts: `std::string` as the native `String`, compared by `str_eq` and joined by `concat`, and
-- `std::to_string` of an unsigned number.
use Prim.Native.Nat.{ℕ, zero, suc, ◌/◌, ◌%◌}
use Prim.Native.String.{String, ◌++◌ as str_append}
use text.Mathlib.Text.{◌==◌}
use text.Mathlib.TextEquality.{eq_iff}
use mathlib.Core.Path.{◌≡◌, refl}
use mathlib.Core.Logic.{◌≢◌, ◌⊎◌}
use mathlib.Core.Bool.{Bool, true, false, ◌||◌}
use mathlib.Core.List.{List, [], ◌∷◌}
use native.Mathlib.Omega.{arith}
use stv_renew.Prelude.Tests.{ltb, if◌then◌else◌}

abbrev pub str_eq : String → String → Bool
str_eq a b = a == b

abbrev pub is_empty : String → Bool
is_empty s = str_eq s ""

abbrev pub concat : List String → String
concat [] = ""
concat (s ∷ ss) = str_append s (concat ss)

pub str_eq-cases :
    (a b : String) → ((str_eq a b ≡ true) × (a ≡ b)) ⊎ ((str_eq a b ≡ false) × (a ≢ b))
str_eq-cases a b = ground (arith, eq_iff a b)

pub str_eq_refl : (a : String) → str_eq a a ≡ true
str_eq_refl a = (eq_iff a a).1 refl

abbrev pub digit : ℕ → String
digit zero = "0"
digit (suc zero) = "1"
digit (suc (suc zero)) = "2"
digit (suc (suc (suc zero))) = "3"
digit (suc (suc (suc (suc zero)))) = "4"
digit (suc (suc (suc (suc (suc zero))))) = "5"
digit (suc (suc (suc (suc (suc (suc zero)))))) = "6"
digit (suc (suc (suc (suc (suc (suc (suc zero))))))) = "7"
digit (suc (suc (suc (suc (suc (suc (suc (suc zero)))))))) = "8"
digit _ = "9"

-- Each round takes the last digit off; a number has at most as many digits as its value plus one.
decimal_digits : ℕ → ℕ → String → String
decimal_digits zero n text = text
decimal_digits (suc fuel) n text =
    let more = decimal_digits fuel (n / 10) (str_append (digit (n % 10)) text) in
    if ltb n 10 then str_append (digit n) text else more

unfoldable pub decimal : ℕ → String
unfolding decimal_digits
decimal n = decimal_digits (suc n) n ""

decimal_1003 : decimal 1003 ≡ "1003"
unfolding decimal
decimal_1003 = refl

decimal_0 : decimal 0 ≡ "0"
unfolding decimal
decimal_0 = refl

-- Membership of a text.
abbrev pub contains : List String → String → Bool
contains [] s = false
contains (t ∷ ts) s = str_eq t s || contains ts s
