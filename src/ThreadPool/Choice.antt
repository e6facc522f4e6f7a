-- ===== src/ThreadPool/Choice.antt =====
-- `pick_candidate_locked` chooses a best candidate.
mod Order
pub mod Scan
use stv_renew.ThreadPool.Search.{contains-push_all_new}
use stv_renew.ThreadPool.Graph.{push_all}
use Prim.Native.String.compare
use stv_renew.Prelude.{
  ◌≡◌, refl, ◌∙◌, ◌⊎◌, inl, inr, ℕ, Bool, true, false, String, List, [], ◌∷◌, Option, none, some,
  arith, contains,
}
use stv_renew.ThreadPool.State.{Pool}
use stv_renew.ThreadPool.Pick.{Candidate, Best, choose, pick_candidate}
use stv_renew.ThreadPool.Choice.Scan.{Offers, IsTop, IsBest, scan-AreBest}

-- Nothing in the ready set offers a candidate of the class.
abbrev pub OffersNone : Pool → ℕ → Bool → Type 0
OffersNone p now fit =
    (x : String) (d : Candidate) → contains p.ready_set x ≡ true → ¬ Offers p now fit x d

-- What the choice is to be. A candidate comes from the ready set, and no candidate of its class is
-- better; one that exceeds the soft budgets is chosen only when nothing runs and nothing fits. No
-- choice: nothing fits, and something runs or there is no candidate at all.
abbrev pub Chosen : Pool → ℕ → Option Candidate → Type 0
Chosen p now none = OffersNone p now true × (p.running_set ≡ [] → OffersNone p now false)
Chosen p now (some c) =
    ((id : String) × (contains p.ready_set id ≡ true) × Offers p now c.soft_fit id c)
    × IsTop p now c.soft_fit p.ready_set c
    × ((c.soft_fit ≡ true) ⊎ ((p.running_set ≡ []) × OffersNone p now true))

contains-pushed :
    (xs seen : List String) (x : String)
    → contains (push_all xs seen) x ≡ true
    → (contains xs x ≡ true) ⊎ (contains seen x ≡ true)
contains-pushed [] seen x h = inr h
contains-pushed (y ∷ xs) seen x h = elim (contains-pushed xs (y ∷ seen) x h) [
  | inl k ↦ inl (ground arith)
  | inr k ↦ ground arith
]

was_ready :
    (p : Pool) (x : String)
    → contains (push_all p.ready_set []) x ≡ true
    → contains p.ready_set x ≡ true
was_ready p x h = elim (contains-pushed p.ready_set [] x h) [ inl k ↦ k | inr k ↦ cc ]

nothing_ready :
    (p : Pool) (now : ℕ) (fit : Bool)
    → IsBest p now fit (push_all p.ready_set []) none
    → OffersNone p now fit
nothing_ready p now fit f x d k = f x d (contains-push_all_new x p.ready_set [] k)

best_ready :
    (p : Pool) (now : ℕ) (fit : Bool) (c : Candidate)
    → IsBest p now fit (push_all p.ready_set []) (some c)
    → (c.soft_fit ≡ fit)
      × ((id : String) × (contains p.ready_set id ≡ true) × Offers p now c.soft_fit id c)
      × IsTop p now c.soft_fit p.ready_set c
best_ready p now fit c (id, k, (h, e), top) = (
  e,
  (id, was_ready p id k, (h, refl)),
  λ x d a (j, o). top x d (contains-push_all_new x p.ready_set [] a) (j, o ∙ e),
)

choose-Chosen :
    (p : Pool) (now : ℕ) (busy : List String) (fits over : Option Candidate)
    → p.running_set ≡ busy
    → IsBest p now true (push_all p.ready_set []) fits
    → IsBest p now false (push_all p.ready_set []) over
    → Chosen p now (choose true busy (record { soft_fit = fits; soft_over = over }))
unfolding choose
choose-Chosen p now busy (some c) over h f g =
    let (e, from, top) = best_ready p now true c f in (from, top, inl e)
choose-Chosen p now (x ∷ xs) none over h f g = (nothing_ready p now true f, λ e. cc)
choose-Chosen p now [] none none h f g =
    (nothing_ready p now true f, λ e. nothing_ready p now false g)
choose-Chosen p now [] none (some c) h f g =
    let (e, from, top) = best_ready p now false c g in
    (from, top, inr (h, nothing_ready p now true f))

-- The choice of a worker: a candidate that is chosen is offered by a task of the ready set, as
-- `candidate_of` computes it, and no task of the set offers a better one of the same class (within
-- the soft budgets, or over them); it exceeds the soft budgets only when nothing runs and no task
-- offers one within them. When none is chosen, no task offers one within the soft budgets, and
-- something runs or no task offers any.
pub pick_candidate-Chosen : (p : Pool) (now : ℕ) → Chosen p now (pick_candidate p now true)
unfolding pick_candidate
pick_candidate-Chosen p now =
    let start : Best = record { soft_fit = none; soft_over = none } in
    let (f, g) = scan-AreBest p now p.ready_set [] start ((λ x d k. cc), (λ x d k. cc)) in
    choose-Chosen p now p.running_set _ _ refl f g
