-- ===== src/ThreadPool/Cycles.antt =====
-- `creates_cycle_locked` decides reachability along the successor lists.
use mathlib.Core.Path.{subst}
use stv_renew.Prelude.{
  ◌≡◌, refl, sym, ◌∙◌, ap, ◌↔◌, inl, inr, ℕ, zero, suc, ◌+◌, Bool, true, false, ◌||◌, String, List,
  [], ◌∷◌, Option, some, arith, Bool-cases, Option-cases, str_eq, str_eq-cases, str_eq_refl, eq_iff,
  contains, length, All,
}
use stv_renew.ThreadPool.State.{Successors, successors_of}
use stv_renew.ThreadPool.Graph.{push_all, edge_count, cycle_search, found, creates_cycle}
use stv_renew.ThreadPool.Search.{
  cycle_search_answers, contains-push_all, contains-push_all_new, length-push_all, budget_empty,
}

-- A path along the successor lists.
pub data Leads (succ : Successors) : String → String → Type 0 where
  here : (a : String) → Leads succ a a
  edge :
      (a b c : String) → contains (successors_of a succ) b ≡ true → Leads succ b c → Leads succ a c

snoc :
    {succ : Successors} {a b : String} (c : String)
    → Leads succ a b
    → contains (successors_of b succ) c ≡ true
    → Leads succ a c
snoc c (here b) k = edge b c c k (here c)
snoc c (edge a x b j p) k = edge a x c j (snoc c p k)

All-of {ℓ} :
    {P : String → Type ℓ} (xs : List String)
    → ((x : String) → contains xs x ≡ true → P x)
    → All P xs
All-of [] h = tt
All-of (x ∷ xs) h = (h x (ground (arith, str_eq_refl x)), All-of xs (λ y k. h y (ground arith)))

All-push_all {ℓ} :
    (P : String → Type ℓ) (xs stack : List String)
    → All P xs
    → All P stack
    → All P (push_all xs stack)
All-push_all P [] stack a b = b
All-push_all P (x ∷ xs) stack a b = All-push_all P xs (x ∷ stack) a.1 (a.0, b)

abbrev Known : List String → List String → String → Type 0
Known stack visited x = (contains visited x || contains stack x) ≡ true

drop-Known :
    (x y : String) (stack visited : List String)
    → contains visited x ≡ true
    → Known (x ∷ stack) visited y
    → Known stack visited y
drop-Known x y stack visited seen k = ground (arith, eq_iff x y)

move-Known :
    (x y : String) (xs stack visited : List String)
    → Known (x ∷ stack) visited y
    → Known (push_all xs stack) (x ∷ visited) y
move-Known x y xs stack visited k = ground (arith, contains-push_all y xs stack)

pushed-Known :
    (x y : String) (xs stack visited : List String)
    → contains xs y ≡ true
    → Known (push_all xs stack) (x ∷ visited) y
pushed-Known x y xs stack visited k = ground (arith, contains-push_all_new y xs stack)

true_not_false : true ≡ false → ⊥
true_not_false h = cc

module _ (succ : Successors) (id : String) (deps : List String) where
  abbrev From : String → Type 0
  From x = (d : String) × (contains deps d ≡ true) × Leads succ d x

  next_From : (x : String) → From x → All From (successors_of x succ)
  next_From x (d, k, p) = All-of (successors_of x succ) (λ y j. (d, k, snoc y p j))

  -- The answer yes comes from a path.
  search_sound :
      (fuel : ℕ) (stack visited : List String)
      → All From stack
      → cycle_search fuel succ id stack visited ≡ some true
      → From id
  unfolding cycle_search
  search_sound zero stack visited a h = cc
  search_sound (suc fuel) [] visited a h = cc
  search_sound (suc fuel) (x ∷ stack) visited a h = elim (str_eq-cases x id) [
    | inl (_, same) ↦ let (d, k, p) = a.0 in (d, k, subst (λ y. Leads succ d y) same p)
    | inr (other, _) ↦
        let rest = rw (other, cycle_search) at h in
        elim (Bool-cases (contains visited x)) [
          | inl seen ↦ search_sound fuel stack visited a.1 (rw seen at rest)
          | inr new ↦
              search_sound fuel (push_all (successors_of x succ) stack) (x ∷ visited)
                (All-push_all From (successors_of x succ) stack (next_From x a.0) a.1)
                (rw new at rest)
        ]
  ]

  -- Every edge out of a visited id leads to one that is visited or on the stack.
  record Explored (stack visited : List String) : Type 0 where
    edges :
        (v y : String)
        → contains visited v ≡ true
        → contains (successors_of v succ) y ≡ true
        → Known stack visited y
    starts : (d : String) → contains deps d ≡ true → Known stack visited d
    avoids : contains visited id ≡ false

  skip :
      (x : String) (stack visited : List String)
      → contains visited x ≡ true
      → Explored (x ∷ stack) visited
      → Explored stack visited
  skip x stack visited seen v = record {
    edges = λ a y k j. drop-Known x y stack visited seen (v.edges a y k j);
    starts = λ d k. drop-Known x d stack visited seen (v.starts d k);
    avoids = v.avoids;
  }

  explore :
      (x : String) (stack visited : List String)
      → str_eq x id ≡ false
      → Explored (x ∷ stack) visited
      → Explored (push_all (successors_of x succ) stack) (x ∷ visited)
  explore x stack visited other v = record {
    edges = λ a y k j. elim (str_eq-cases x a) [
      | inl (_, same) ↦
          pushed-Known x y (successors_of x succ) stack visited
            (subst (λ b. contains (successors_of b succ) y ≡ true) (sym same) j)
      | inr (differ, _) ↦
          move-Known x y (successors_of x succ) stack visited (v.edges a y (ground arith) j)
    ];
    starts = λ d k. move-Known x d (successors_of x succ) stack visited (v.starts d k);
    avoids = ground (arith, v.avoids);
  }

  search_complete :
      (fuel : ℕ) (stack visited : List String)
      → Explored stack visited
      → cycle_search fuel succ id stack visited ≡ some false
      → (final : List String) × Explored [] final
  unfolding cycle_search
  search_complete zero stack visited v h = cc
  search_complete (suc fuel) [] visited v h = (visited, v)
  search_complete (suc fuel) (x ∷ stack) visited v h = elim (Bool-cases (str_eq x id)) [
    | inl same ↦ cc (rw (same, cycle_search) at h)
    | inr other ↦
        let rest = rw (other, cycle_search) at h in
        elim (Bool-cases (contains visited x)) [
          | inl seen ↦
              search_complete fuel stack visited (skip x stack visited seen v) (rw seen at rest)
          | inr new ↦
              search_complete fuel (push_all (successors_of x succ) stack) (x ∷ visited)
                (explore x stack visited other v) (rw new at rest)
        ]
  ]

  outside :
      (final : List String)
      → Explored [] final
      → (a b : String) → Leads succ a b
      → contains final a ≡ true
      → contains final b ≡ true
  outside final v a b (here _) k = k
  outside final v a c (edge _ b _ j p) k = outside final v b c p (ground (arith, v.edges a b k j))

  abbrev answer : Option Bool
  answer = cycle_search (suc (length deps + edge_count succ)) succ id (push_all deps []) []

  -- The fuel is enough.
  answered : (r : Bool) × (answer ≡ some r)
  answered = elim (Option-cases answer) [
    | inl e ↦ absurd (
        cycle_search_answers (suc (length deps + edge_count succ)) succ id (push_all deps []) []
          (omega (arith, length-push_all deps [], budget_empty succ)) e)
    | inr r ↦ r
  ]

  first-Explored : Explored (push_all deps []) []
  first-Explored = record {
    edges = λ a y k j. cc;
    starts = λ d k. contains-push_all_new d deps [] k;
    avoids = refl;
  }

  answer_no : answer ≡ some false → ¬ From id
  answer_no h (d, k, p) =
      let (final, v) = search_complete _ (push_all deps []) [] first-Explored h in
      let reached = outside final v d id p (ground (arith, v.starts d k)) in
      true_not_false (sym reached ∙ v.avoids)

  answer_yes : answer ≡ some true → From id
  answer_yes h =
      search_sound _ (push_all deps []) []
        (All-push_all From deps [] (All-of deps (λ d k. (d, k, here d))) tt) h

  decides : (r : Bool) → answer ≡ some r → (found answer ≡ true) ↔ From id
  decides true e = (λ _. answer_yes e, λ _. ap found e)
  decides false e = (λ h. absurd (true_not_false (sym h ∙ ap found e)), λ p. absurd (answer_no e p))

-- The cycle check answers yes exactly when the new task can be reached from one of its dependencies
-- along the successor lists.
pub creates_cycle-Leads :
    (succ : Successors) (id : String) (deps : List String)
    → (creates_cycle succ id deps ≡ true)
      ↔ ((d : String) × (contains deps d ≡ true) × Leads succ d id)
unfolding creates_cycle
creates_cycle-Leads succ id deps = let (r, e) = answered succ id deps in decides succ id deps r e
