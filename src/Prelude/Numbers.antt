-- ===== src/Prelude/Numbers.antt =====
-- Numbers as the standard library writes and reads them: `std::to_string` of an int, a `float` sent to
-- an `std::ostream`, `std::stoi` and `std::stof`. The two zeros of `float` are one value here, so a
-- negative zero is written like zero.
use Prim.Native.Nat.{ℕ, zero, suc, ◌+◌, ◌-◌, ◌*◌, ◌/◌, ◌%◌, ◌^◌}
use Prim.Native.Char.{code}
use Prim.Native.String.{String}
use mathlib.Core.Path.{◌≡◌, refl}
use mathlib.Core.Bool.{Bool, true, false, not, ◌&&◌, ◌||◌}
use mathlib.Core.Option.{Option, none, some}
use mathlib.Core.List.{[], ◌∷◌}
use stv_renew.Prelude.Tests.{ltb, leb, ◌==◌, if◌then◌else◌}
use stv_renew.Prelude.Text.{concat, decimal, digit}
use stv_renew.Prelude.Int.{ℤ, pos, negsuc, pos_part, neg_part}
use stv_renew.Prelude.Float.{Float, nan, infinity, neg_infinity, finite, float_one}

unfoldable pub int_to_string : ℤ → String
unfolding decimal
int_to_string (pos n) = decimal n
int_to_string (negsuc n) = concat ("-" ∷ decimal (suc n) ∷ [])

-- num / den to a whole number, halves to the even one.
abbrev round_half_even : ℕ → ℕ → ℕ
round_half_even num den =
    let q = num / den in
    let r = 2 * (num % den) in if ltb r den then q else if ltb den r then suc q else q + q % 2

-- The first power of two from `quantum` on for which the quotient has at most 24 bits. A quotient for
-- which the fuel is not enough is far above every finite value.
grow_quantum : ℕ → ℕ → ℕ → ℕ → ℕ
grow_quantum zero num den quantum = quantum
grow_quantum (suc fuel) num den quantum =
    let more = grow_quantum fuel num den (2 * quantum) in
    if ltb num (2 ^ 24 * den * quantum) then quantum else more

-- The float nearest to num / den: a division of floats, or a literal.
unfoldable pub float_ratio : ℕ → ℕ → Float
unfolding grow_quantum
float_ratio num den =
    let quantum = grow_quantum 256 (num * 2 ^ 149) den 1 in
    let n = round_half_even (num * 2 ^ 149) (den * quantum) * quantum in
    if ltb n (2 ^ 277) then finite (pos n) else infinity

abbrev distance : ℤ → ℤ → ℕ
distance a b =
    (pos_part a + neg_part b - (pos_part b + neg_part a))
    + (pos_part b + neg_part a - (pos_part a + neg_part b))

-- `std::abs(a - b)`: the difference is rounded.
unfoldable pub abs_diff : Float → Float → Float
unfolding float_ratio
abs_diff nan _ = nan
abs_diff _ nan = nan
abs_diff infinity infinity = nan
abs_diff neg_infinity neg_infinity = nan
abs_diff (finite a) (finite b) = float_ratio (distance a b) (2 ^ 149)
abs_diff _ _ = infinity

-- The digits of n / 10^k behind the point, up to the last that is not zero.
fraction_text : ℕ → ℕ → String
fraction_text zero n = ""
fraction_text (suc k) n =
    let more = fraction_text k (n % 10 ^ k) in
    if n == 0 then "" else concat (digit (n / 10 ^ k) ∷ more ∷ [])

-- n / 10^k.
point_text : ℕ → ℕ → String
unfolding decimal fraction_text
point_text k n =
    if n % 10 ^ k == 0
    then decimal (n / 10 ^ k)
    else concat (decimal (n / 10 ^ k) ∷ "." ∷ fraction_text k (n % 10 ^ k) ∷ [])

-- The decimal exponent of num / den, plus 50: the first s for which num / den < 10^(s + 1 - 50).
exponent_from : ℕ → ℕ → ℕ → ℕ → ℕ
exponent_from zero num den s = s
exponent_from (suc fuel) num den s =
    let more = exponent_from fuel num den (suc s) in
    if ltb (num * 10 ^ 50) (den * 10 ^ suc s) then s else more

exponent_text : ℕ → String
unfolding decimal
exponent_text s =
    let n = if ltb s 50 then 50 - s else s - 50 in
    concat ((if ltb s 50 then "e-" else "e+") ∷ (if ltb n 10 then "0" else "") ∷ decimal n ∷ [])

-- Six significant digits with the exponent `s`, as `%g` lays them out.
layout : ℕ → ℕ → String
unfolding point_text exponent_text
layout s digits =
    if ltb s 46 || ltb 55 s
    then concat (point_text 5 digits ∷ exponent_text s ∷ [])
    else point_text (55 - s) digits

positive_text : ℕ → String
unfolding exponent_from layout
positive_text m =
    let s = exponent_from 100 m (2 ^ 149) 0 in
    let digits = round_half_even (m * 10 ^ 55) (2 ^ 149 * 10 ^ s) in
    if digits == 1000000 then layout (suc s) 100000 else layout s digits

unfoldable pub float_text : Float → String
unfolding positive_text
float_text nan = "nan"
float_text infinity = "inf"
float_text neg_infinity = "-inf"
float_text (finite (pos zero)) = "0"
float_text (finite (pos m)) = positive_text m
float_text (finite (negsuc m)) = concat ("-" ∷ positive_text (suc m) ∷ [])

abbrev pub is_digit : ℕ → Bool
is_digit c = leb 48 c && leb c 57

-- The longest prefix `digits[.digits]` as a fraction; `none` without a digit.
read_fraction : ℕ → ℕ → (point any : Bool) → String → Option (ℕ × ℕ)
read_fraction num den point any String.[] = if any then some (num, den) else none
read_fraction num den point any (String.◌∷◌ c s) =
    let next =
      read_fraction (num * 10 + (code c - 48)) (if point then den * 10 else den) point true s in
    let behind = read_fraction num den true any s in
    if is_digit (code c)
    then next
    else if code c == 46 && not point
    then behind
    else if any
    then some (num, den)
    else none

-- `strtof` reports a range error for a value that is too large, or tiny and not exact.
in_float_range : ℕ → ℕ → Float → Option Float
in_float_range num den (finite (pos n)) =
    if ltb n (2 ^ 23) && not (n * den == num * 2 ^ 149) then none else some (finite (pos n))
in_float_range num den _ = none

-- `std::stof` of digits and points; `none` if it throws.
unfoldable pub stof : String → Option Float
unfolding read_fraction float_ratio in_float_range
stof s = elim (read_fraction 0 1 false false s) [
  | none ↦ none
  | some (num, den) ↦ in_float_range num den (float_ratio num den)
]

digits_number : ℕ → String → ℕ
digits_number n String.[] = n
digits_number n (String.◌∷◌ c s) = digits_number (n * 10 + (code c - 48)) s

-- `std::stoi` of one or more digits; `none` if it throws.
unfoldable pub stoi : String → Option ℤ
unfolding digits_number
stoi s = let n = digits_number 0 s in if leb n 2147483647 then some (pos n) else none

numbers : Unit {0}
unfolding float_text stof float_ratio int_to_string stoi
numbers = tt

one_fifth : float_ratio 1 5 ≡ finite (pos (13421773 * 2 ^ 123))
unfolding numbers
one_fifth = refl

whole : float_ratio 5 5 ≡ float_one
unfolding numbers
whole = refl

write_thirty : float_text (float_ratio 30 1) ≡ "30"
unfolding numbers
write_thirty = refl

write_third : float_text (float_ratio 1 3) ≡ "0.333333"
unfolding numbers
write_third = refl

write_large : float_text (float_ratio 12345678 1) ≡ "1.23457e+07"
unfolding numbers
write_large = refl

write_small : float_text (float_ratio 1 100000) ≡ "1e-05"
unfolding numbers
write_small = refl

read_two : stof "12.50.7" ≡ some (float_ratio 25 2)
unfolding numbers
read_two = refl

read_point : stof "." ≡ none
unfolding numbers
read_point = refl
