-- ===== src/Prelude/Table.antt =====
-- Lists of records with a text key: the first record with a key, and a write to it.
use mathlib.Core.Path.{subst}
use mathlib.Core.Path.{◌≡◌, refl, sym}
use mathlib.Core.Logic.{◌≢◌, ◌⊎◌}
use mathlib.Core.Option.{Option, none, some}
use mathlib.Core.List.{List, [], ◌∷◌, ◌++◌}
use Prim.Native.String.{String}
use native.Mathlib.Omega.{arith}
use text.Mathlib.TextEquality.{eq_iff}
use stv_renew.Prelude.Tests.{if◌then◌else◌, Option-cases}
use stv_renew.Prelude.Text.{str_eq}

module _ {A : Type 0} (key : A → String) where
  unfoldable pub find : String → List A → Option A
  find k [] = none
  find k (x ∷ xs) = if str_eq (key x) k then some x else find k xs

  -- Replaces the first record that has the key of the one given.
  unfoldable pub set_at : A → List A → List A
  set_at a [] = []
  set_at a (x ∷ xs) = if str_eq (key x) (key a) then a ∷ xs else x ∷ set_at a xs

  pub find-key : (k : String) (xs : List A) (a : A) → find k xs ≡ some a → key a ≡ k
  unfolding find
  find-key k [] a h = cc
  find-key k (x ∷ xs) a h = ground (arith, eq_iff (key x) k, find-key k xs a)

  pub find_self : (k : String) (xs : List A) (a : A) → find k xs ≡ some a → find (key a) xs ≡ some a
  find_self k xs a h = subst (λ i. find i xs ≡ some a) (sym (find-key k xs a h)) h

  abbrev pub replace : A → Option A → Option A
  replace a none = none
  replace a (some _) = some a

  pub find-set_at :
      (k : String) (a : A) (xs : List A)
      → find k (set_at a xs) ≡ (if str_eq (key a) k then replace a (find k xs) else find k xs)
  unfolding find set_at
  find-set_at k a [] = ground arith
  find-set_at k a (x ∷ xs) =
      ground (arith, eq_iff (key a) k, eq_iff (key x) k, eq_iff (key x) (key a), find-set_at k a xs)

  pub find-set_at_same :
      (k : String) (a x : A) (xs : List A)
      → key a ≡ k
      → find k xs ≡ some x
      → find k (set_at a xs) ≡ some a
  find-set_at_same k a x xs same h = ground (arith, find-set_at k a xs, eq_iff (key a) k)

  pub find-set_at_other :
      (k : String) (a : A) (xs : List A) → key a ≢ k → find k (set_at a xs) ≡ find k xs
  find-set_at_other k a xs other = ground (arith, find-set_at k a xs, eq_iff (key a) k)

  pub find-append :
      (k : String) (xs : List A) (a : A)
      → find k (xs ++ a ∷ [])
        ≡ elim (find k xs) [ some x ↦ some x | none ↦ if str_eq (key a) k then some a else none ]
  unfolding find
  find-append k [] a = ground arith
  find-append k (x ∷ xs) a = ground (arith, find-append k xs a)

  -- Where a record found after a write, or after an append, comes from.
  pub found_after_set :
      (k : String) (a x : A) (xs : List A)
      → find k (set_at a xs) ≡ some x
      → ((key a ≡ k) × (x ≡ a)) ⊎ (find k xs ≡ some x)
  found_after_set k a x xs h =
      ground (arith, find-set_at k a xs, eq_iff (key a) k, Option-cases (find k xs))

  pub found_after_append :
      (k : String) (xs : List A) (a x : A)
      → find k (xs ++ a ∷ []) ≡ some x
      → ((key a ≡ k) × (x ≡ a)) ⊎ (find k xs ≡ some x)
  found_after_append k xs a x h = ground (arith, find-append k xs a, eq_iff (key a) k)

  -- No two records have one key.
  abbrev pub Distinct : List A → Type 0
  Distinct [] = Unit {0}
  Distinct (x ∷ xs) = (find (key x) xs ≡ none) × Distinct xs

  pub set_at-Distinct : (a : A) (xs : List A) → Distinct xs → Distinct (set_at a xs)
  unfolding set_at
  set_at-Distinct a [] d = tt
  set_at-Distinct a (x ∷ xs) d = ground (
    arith,
    eq_iff (key x) (key a),
    eq_iff (key a) (key x),
    set_at-Distinct a xs d.1,
    find-set_at (key x) a xs,
  )

  pub append-Distinct :
      (xs : List A) (a : A) → Distinct xs → find (key a) xs ≡ none → Distinct (xs ++ a ∷ [])
  unfolding find
  append-Distinct [] a d h = (refl, tt)
  append-Distinct (x ∷ xs) a d h = ground (
    arith,
    eq_iff (key x) (key a),
    eq_iff (key a) (key x),
    find-append (key x) xs a,
    append-Distinct xs a d.1,
  )
