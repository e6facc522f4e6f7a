-- ===== src/ThreadPool/Changes/Links.antt =====
-- What the loop of `submit` over the dependencies writes and counts.
use stv_renew.Prelude.{
  ◌≡◌, ◌≢◌, ◌∙◌, refl, sym, ap, inl, inr, ℕ, suc, ◌+◌, ◌≤◌, Bool, true, false, String, List, [],
  ◌∷◌, ◌++◌, Option, none, some, str_eq, str_eq-cases, str_eq_refl, if◌then◌else◌, arith,
  Bool-cases,
}
use stv_renew.Errors.{TaskError}
use stv_renew.Task.{TaskState, queued, ready, running, paused, failed, succeeded, state_eq}
use stv_renew.ThreadPool.State.{Node, Successors, find_node, successors_of, add_successor}
use stv_renew.ThreadPool.Submission.{Linked, refused, linked, link_deps}
use stv_renew.ThreadPool.Changes.{occurrences, met, unmet, has_succeeded}

occurrences-append :
    (x : String) (xs : List String) (y : String)
    → occurrences x (xs ++ y ∷ []) ≡ occurrences x xs + (if str_eq y x then 1 else 0)
occurrences-append x [] y = omega arith
occurrences-append x (z ∷ zs) y = omega (arith, occurrences-append x zs y)

-- One edge more.
added :
    (x d k y : String) (m : Successors)
    → occurrences x (successors_of d (add_successor k y m))
      ≡ occurrences x (successors_of d m) + (if str_eq k d then if str_eq y x then 1 else 0 else 0)
unfolding successors_of add_successor
added x d k y [] = ground arith
added x d k y ((j, v) ∷ m) = elim (str_eq-cases j k) [
  | inl (e, same) ↦ elim (Bool-cases (str_eq k d)) [
    | inl h ↦ rw (e, same, h) (occurrences-append x v y)
    | inr h ↦ rw (e, same, h) (omega arith)
  ]
  | inr (e, other) ↦ rw e (elim (str_eq-cases j d) [
    | inl (h, same) ↦ elim (str_eq-cases k d) [
      | inl (_, also) ↦ absurd (other (same ∙ sym also))
      | inr (g, _) ↦ rw (h, g) (omega arith)
    ]
    | inr (h, _) ↦ rw h (added x d k y m)
  ])
]

abbrev pub edges : Linked → Successors
edges (refused _ succ) = succ
edges (linked _ _ succ) = succ

-- The dependency that has failed already, if the list was linked up to one.
abbrev pub blocked : Linked → Bool
blocked (linked _ none _) = false
blocked _ = true

abbrev pub count_of : Linked → ℕ
count_of (linked k _ _) = k
count_of (refused _ _) = 0

pub record Links (nodes : List Node) (id : String) (ds : List String) (k : ℕ) (succ : Successors)
    (l : Linked) : Type 0 where
  pub own :
      (d : String)
      → occurrences id (successors_of d (edges l))
        ≤ occurrences id (successors_of d succ) + occurrences d ds
  pub others :
      (d y : String)
      → y ≢ id
      → occurrences y (successors_of d (edges l)) ≡ occurrences y (successors_of d succ)
  pub counted : blocked l ≡ false → count_of l ≡ k + unmet nodes ds

module _ (nodes : List Node) (id : String) where
  -- The loop stops at its first dependency.
  stopped :
      (d : String) (ds : List String) (k : ℕ) (succ : Successors) (l : Linked)
      → edges l ≡ succ
      → blocked l ≡ true
      → Links nodes id (d ∷ ds) k succ l
  stopped d ds k succ l same stop = record {
    own = λ e. rw same (omega arith);
    others = λ e y _. rw same refl;
    counted = λ e. absurd (apart (sym stop ∙ e));
  }
    where
      apart : true ≡ false → ⊥
      apart e = cc

  one_more :
      (d e : String) (succ : Successors)
      → occurrences id (successors_of e (add_successor d id succ))
        ≡ occurrences id (successors_of e succ) + (if str_eq d e then 1 else 0)
  one_more d e succ = added id e d id succ ∙ ground (arith, str_eq_refl id)

  same_others :
      (d e y : String) (succ : Successors)
      → y ≢ id
      → occurrences y (successors_of e (add_successor d id succ))
        ≡ occurrences y (successors_of e succ)
  same_others d e y succ other = elim (str_eq-cases id y) [
    | inl (_, same) ↦ absurd (other (sym same))
    | inr (h, _) ↦ added y e d id succ ∙ ground arith
  ]

  blocked_at :
      (d : String) (ds : List String) (k : ℕ) (succ : Successors) (b : String)
      → Links nodes id (d ∷ ds) k succ (linked k (some b) (add_successor d id succ))
  blocked_at d ds k succ b = record {
    own = λ e. omega (arith, one_more d e succ);
    others = λ e y other. same_others d e y succ other;
    counted = λ e. absurd (apart e);
  }
    where
      apart : true ≡ false → ⊥
      apart e = cc

  follows :
      (d : String) (ds : List String) (k j : ℕ) (succ : Successors) (l : Linked)
      → Links nodes id ds j (add_successor d id succ) l
      → j ≡ (if met nodes d then 0 else 1) + k
      → Links nodes id (d ∷ ds) k succ l
  follows d ds k j succ l f h = record {
    own = λ e. omega (arith, f.own e, one_more d e succ);
    others = λ e y other. f.others e y other ∙ same_others d e y succ other;
    counted = λ e. omega (arith, f.counted e, h);
  }

  pub link_deps-Links :
      (ds : List String) (k : ℕ) (succ : Successors)
      → Links nodes id ds k succ (link_deps nodes id ds k succ)
  unfolding link_deps state_eq
  link_deps-Links [] k succ = record {
    own = λ e. omega arith;
    others = λ e y _. refl;
    counted = λ _. omega arith;
  }
  link_deps-Links (d ∷ ds) k succ =
      by_test (λ j. link_deps-Links ds j (add_successor d id succ)) _ _ (str_eq d id)
        (find_node d nodes) refl
    where
      by_state : Node → Linked
      by_state dep = elim dep.task.state [
        | succeeded ↦ link_deps nodes id ds k (add_successor d id succ)
        | failed ↦ linked k (some d) (add_successor d id succ)
        | TaskState.canceled ↦ linked k (some d) (add_successor d id succ)
        | _ ↦ link_deps nodes id ds (suc k) (add_successor d id succ)
      ]

      looked : TaskError → Option Node → Linked
      looked x none = refused x succ
      looked x (some dep) = by_state dep

      waits :
          (ih : (j : ℕ)
            → Links nodes id ds j
                (add_successor d id succ)
                (link_deps nodes id ds j (add_successor d id succ)))
          (dep : Node)
          → find_node d nodes ≡ some dep
          → state_eq dep.task.state succeeded ≡ false
          → Links nodes id (d ∷ ds) k succ (link_deps nodes id ds (suc k) (add_successor d id succ))
      waits ih dep found h =
          follows d ds k (suc k) succ _ (ih (suc k)) (rw (ap has_succeeded found ∙ h) (omega arith))

      found_dep :
          (ih : (j : ℕ)
            → Links nodes id ds j
                (add_successor d id succ)
                (link_deps nodes id ds j (add_successor d id succ)))
          (dep : Node) (st : TaskState)
          → find_node d nodes ≡ some dep
          → dep.task.state ≡ st
          → Links nodes id (d ∷ ds) k succ (by_state dep)
      found_dep ih dep succeeded found h = rw h (
          follows d ds k k succ _ (ih k)
            (rw (ap has_succeeded found ∙ ap (λ s. state_eq s succeeded) h) (omega arith)))
      found_dep ih dep failed found h = rw h (blocked_at d ds k succ d)
      found_dep ih dep TaskState.canceled found h = rw h (blocked_at d ds k succ d)
      found_dep ih dep queued found h = rw h (waits ih dep found (ap (λ s. state_eq s succeeded) h))
      found_dep ih dep ready found h = rw h (waits ih dep found (ap (λ s. state_eq s succeeded) h))
      found_dep ih dep running found h =
          rw h (waits ih dep found (ap (λ s. state_eq s succeeded) h))
      found_dep ih dep paused found h = rw h (waits ih dep found (ap (λ s. state_eq s succeeded) h))

      by_find :
          (ih : (j : ℕ)
            → Links nodes id ds j
                (add_successor d id succ)
                (link_deps nodes id ds j (add_successor d id succ)))
          (x : TaskError) (o : Option Node)
          → find_node d nodes ≡ o
          → Links nodes id (d ∷ ds) k succ (looked x o)
      by_find ih x none found = stopped d ds k succ _ refl refl
      by_find ih x (some dep) found = found_dep ih dep dep.task.state found refl

      by_test :
          (ih : (j : ℕ)
            → Links nodes id ds j
                (add_successor d id succ)
                (link_deps nodes id ds j (add_successor d id succ)))
          (x y : TaskError) (b : Bool) (o : Option Node)
          → find_node d nodes ≡ o
          → Links nodes id (d ∷ ds) k succ (if b then refused y succ else looked x o)
      by_test ih x y true o found = stopped d ds k succ _ refl refl
      by_test ih x y false o found = by_find ih x o found
