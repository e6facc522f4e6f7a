-- ===== src/ThreadPool/Choice/Scan.antt =====
-- What the scan of the ready set keeps.
use stv_renew.ThreadPool.Graph.{push_all}
use stv_renew.Prelude.{
  ◌≡◌, refl, sym, ◌∙◌, ap, ◌⊎◌, inl, inr, ℕ, Bool, true, false, String, List, [], ◌∷◌, Option, none,
  some, arith, Bool-cases, str_eq-cases, str_eq_refl, some_inj, contains, if◌then◌else◌, ◌≢◌,
}
use stv_renew.ThreadPool.State.{Pool}
use stv_renew.ThreadPool.Pick.{Candidate, better_than, improve, candidate_of, Best, consider, scan}
use stv_renew.ThreadPool.Choice.Order.{better_than_trans, better_than_irrefl}

-- What an id of the ready set offers, in the class of candidates that fit the soft budgets, or not.
abbrev pub Offers : Pool → ℕ → Bool → String → Candidate → Type 0
Offers p now fit id c = (candidate_of p now id ≡ some c) × (c.soft_fit ≡ fit)

-- No id seen offers a candidate that is better.
abbrev pub IsTop : Pool → ℕ → Bool → List String → Candidate → Type 0
IsTop p now fit seen b =
    (x : String) (c : Candidate)
    → contains seen x ≡ true
    → Offers p now fit x c
    → better_than c b ≡ false

-- The best of a class among the ids seen: one of them offers it, and none is better; or none offers
-- any.
abbrev pub IsBest : Pool → ℕ → Bool → List String → Option Candidate → Type 0
IsBest p now fit seen none =
    (x : String) (c : Candidate) → contains seen x ≡ true → ¬ Offers p now fit x c
IsBest p now fit seen (some b) =
    (id : String) × (contains seen id ≡ true) × Offers p now fit id b × IsTop p now fit seen b

-- An id seen is the one seen last or was seen before.
pub seen_cases :
    (id x : String) (seen : List String)
    → contains (id ∷ seen) x ≡ true
    → (id ≡ x) ⊎ (contains seen x ≡ true)
seen_cases id x seen h = elim (str_eq-cases id x) [
  | inl (_, same) ↦ inl same
  | inr (other, _) ↦ inr (ground arith)
]

same_offer :
    (p : Pool) (now : ℕ) (fit : Bool) (id x : String) (a b : Candidate)
    → id ≡ x
    → Offers p now fit id a
    → Offers p now fit x b
    → b ≡ a
same_offer p now fit id x a b e (h, _) (k, _) =
    some_inj (sym k ∙ ap (candidate_of p now) (sym e) ∙ h)

-- A candidate that beats the best so far, or is not better than it.
module _ (p : Pool) (now : ℕ) (fit : Bool) (seen : List String) (id : String) (c : Candidate) where
  IsTop-new :
      Offers p now fit id c
      → ((x : String) (d : Candidate)
          → contains seen x ≡ true
          → Offers p now fit x d
          → better_than d c ≡ false)
      → IsTop p now fit (id ∷ seen) c
  IsTop-new h before x d k j = elim (seen_cases id x seen k) [
    | inl same ↦
        ap (λ y. better_than y c) (same_offer p now fit id x c d same h j) ∙ better_than_irrefl c
    | inr earlier ↦ before x d earlier j
  ]

  IsTop-old :
      (b : Candidate)
      → Offers p now fit id c
      → better_than c b ≡ false
      → IsTop p now fit seen b
      → IsTop p now fit (id ∷ seen) b
  IsTop-old b h worse top x d k j = elim (seen_cases id x seen k) [
    | inl same ↦ ap (λ y. better_than y b) (same_offer p now fit id x c d same h j) ∙ worse
    | inr earlier ↦ top x d earlier j
  ]

  improve-IsBest :
      (o : Option Candidate)
      → Offers p now fit id c
      → IsBest p now fit seen o
      → IsBest p now fit (id ∷ seen) (improve o c)
  unfolding improve
  improve-IsBest none h before =
      (id, ground (arith, str_eq_refl id), h, IsTop-new h (λ x d k j. absurd (before x d k j)))
  improve-IsBest (some b) h (x, k, j, top) = elim (Bool-cases (better_than c b)) [
    | inl better ↦ rw better (
      id,
      ground (arith, str_eq_refl id),
      h,
      IsTop-new h (λ y d a o. beaten d (top y d a o) better),
    )
    | inr worse ↦ rw worse (x, ground arith, j, IsTop-old b h worse top)
  ]
    where
      beaten :
          (d : Candidate)
          → better_than d b ≡ false
          → better_than c b ≡ true
          → better_than d c ≡ false
      beaten d a e = ground (arith, better_than_trans d c b)

module _ (p : Pool) (now : ℕ) (fit : Bool) (seen : List String) (id : String) where
  -- An id that offers nothing in the class.
  skip-IsBest :
      (o : Option Candidate)
      → ((d : Candidate) → ¬ Offers p now fit id d)
      → IsBest p now fit seen o
      → IsBest p now fit (id ∷ seen) o
  skip-IsBest none barren before = λ x d k j. elim (seen_cases id x seen k) [
    | inl same ↦ barren d (ap (candidate_of p now) same ∙ j.0, j.1)
    | inr earlier ↦ before x d earlier j
  ]
  skip-IsBest (some b) barren (y, k, h, top) = (
    y,
    ground arith,
    h,
    λ x d a j. elim (seen_cases id x seen a) [
      | inl same ↦ absurd (barren d (ap (candidate_of p now) same ∙ j.0, j.1))
      | inr earlier ↦ top x d earlier j
    ],
  )

-- Both classes.
abbrev AreBest : Pool → ℕ → List String → Best → Type 0
AreBest p now seen b = IsBest p now true seen b.soft_fit × IsBest p now false seen b.soft_over

other_class :
    (p : Pool) (now : ℕ) (id : String) (c : Candidate) (fit : Bool)
    → candidate_of p now id ≡ some c
    → c.soft_fit ≢ fit
    → (d : Candidate) → ¬ Offers p now fit id d
other_class p now id c fit h other d (k, j) =
    other (ap (λ (x : Candidate). x.soft_fit) (some_inj (sym h ∙ k)) ∙ j)

consider-AreBest :
    (p : Pool) (now : ℕ) (seen : List String) (id : String) (b : Best) (o : Option Candidate)
    → candidate_of p now id ≡ o
    → AreBest p now seen b
    → AreBest p now (id ∷ seen) (consider b o)
unfolding consider
consider-AreBest p now seen id b none h (fits, over) =
    let barren : (fit : Bool) (d : Candidate) → ¬ Offers p now fit id d = λ fit d (k, _). cc in
    (
      skip-IsBest p now true seen id b.soft_fit (barren true) fits,
      skip-IsBest p now false seen id b.soft_over (barren false) over,
    )
consider-AreBest p now seen id b (some c) h (fits, over) = split c.soft_fit refl
  where
    split :
        (fit : Bool)
        → c.soft_fit ≡ fit
        → AreBest p now (id ∷ seen) (
            if fit
            then record b { soft_fit = improve b.soft_fit c }
            else record b { soft_over = improve b.soft_over c })
    split true e = (
      improve-IsBest p now true seen id c b.soft_fit (h, e) fits,
      skip-IsBest p now false seen id b.soft_over
          (other_class p now id c false h (λ k. ground arith)) over,
    )
    split false e = (
      skip-IsBest p now true seen id b.soft_fit (other_class p now id c true h (λ k. ground arith))
          fits,
      improve-IsBest p now false seen id c b.soft_over (h, e) over,
    )

pub scan-AreBest :
    (p : Pool) (now : ℕ) (ids seen : List String) (b : Best)
    → AreBest p now seen b
    → AreBest p now (push_all ids seen) (scan p now b ids)
unfolding scan
scan-AreBest p now [] seen b h = h
scan-AreBest p now (id ∷ ids) seen b h =
    scan-AreBest p now ids (id ∷ seen) (consider b (candidate_of p now id))
      (consider-AreBest p now seen id b (candidate_of p now id) refl h)
