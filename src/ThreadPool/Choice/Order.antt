-- ===== src/ThreadPool/Choice/Order.antt =====
-- The order of the candidates.
use Prim.Native.String.compare
use text.Mathlib.TextPositions.{compare_refl}
use stv_renew.Prelude.{◌≡◌, ℕ, Bool, true, false, String, arith, ltb, if◌then◌else◌}
use stv_renew.Prelude.Int.{ℤ, ltb_ℤ}
use stv_renew.ThreadPool.Pick.{Candidate, text_lt, better_than}

text_lt_trans : (a b c : String) → text_lt a b ≡ true → text_lt b c ≡ true → text_lt a c ≡ true
text_lt_trans String.[] String.[] c h k = k
text_lt_trans String.[] (String.◌∷◌ y b) String.[] h k = ground (arith, compare.cons-nil y b)
text_lt_trans String.[] (String.◌∷◌ y b) (String.◌∷◌ z c) h k = ground (arith, compare.nil-cons z c)
text_lt_trans (String.◌∷◌ x a) String.[] c h k = ground (arith, compare.cons-nil x a)
text_lt_trans (String.◌∷◌ x a) (String.◌∷◌ y b) String.[] h k = ground (arith, compare.cons-nil y b)
text_lt_trans (String.◌∷◌ x a) (String.◌∷◌ y b) (String.◌∷◌ z c) h k = ground (
  arith,
  compare.cons-cons x y a b,
  compare.cons-cons y z b c,
  compare.cons-cons x z a c,
  text_lt_trans a b c,
)

text_lt_irrefl : (a : String) → text_lt a a ≡ false
text_lt_irrefl a = ground (arith, compare_refl a)

-- The two numeric keys come first: a larger priority, then an earlier time.
lex_ℤ :
    (x y z : ℤ) (p q r : Bool)
    → (p ≡ true → q ≡ true → r ≡ true)
    → (if ltb_ℤ y x then true else if ltb_ℤ x y then false else p) ≡ true
    → (if ltb_ℤ z y then true else if ltb_ℤ y z then false else q) ≡ true
    → (if ltb_ℤ z x then true else if ltb_ℤ x z then false else r) ≡ true
lex_ℤ x y z p q r f h k = ground arith

lex_ℕ :
    (x y z : ℕ) (p q r : Bool)
    → (p ≡ true → q ≡ true → r ≡ true)
    → (if ltb x y then true else if ltb y x then false else p) ≡ true
    → (if ltb y z then true else if ltb z y then false else q) ≡ true
    → (if ltb x z then true else if ltb z x then false else r) ≡ true
lex_ℕ x y z p q r f h k = ground arith

pub better_than_trans :
    (a b c : Candidate) → better_than a b ≡ true → better_than b c ≡ true → better_than a c ≡ true
unfolding better_than
better_than_trans a b c h k =
    lex_ℤ a.effective_priority b.effective_priority c.effective_priority _ _ _
      (lex_ℕ a.ready_since b.ready_since c.ready_since _ _ _
        (text_lt_trans a.task_id b.task_id c.task_id))
      h k

pub better_than_irrefl : (a : Candidate) → better_than a a ≡ false
unfolding better_than
better_than_irrefl a = ground (arith, text_lt_irrefl a.task_id)
