-- ===== src/Simple/Idle/Promoting.antt =====
-- What the promotion loop of `tick` leaves.
use mathlib.Core.Path.{subst}
use stv_renew.Prelude.{
  ◌≡◌, refl, sym, ◌∙◌, ap, inl, inr, ℕ, Bool, true, false, not, ◌&&◌, String, List, [], ◌∷◌, none,
  some, arith, Bool-cases, Option-cases, contains, str_eq-cases, some_inj, str_eq_refl,
}
use stv_renew.Task.{queued, ready, state_eq, transition_to}
use stv_renew.Task.Transition.{transition_to-Allowed, Allowed, queued_ready}
use stv_renew.Simple.{
  Entry, Scheduler, find_entry, set_entry, store, notify, deps_met, is_nil, is_succeeded, promote,
  promote_all,
}
use stv_renew.Simple.Entries.{
  find_entry-id, find_entry_self, find_entry-set_entry_same, find_entry-set_entry_other,
}

-- The condition of the promotion loop.
abbrev pub is_due : Entry → List Entry → Bool
is_due e es = state_eq e.task.state queued && not (is_nil e.task.deps) && deps_met es e.task.deps

-- The entry as the loop promotes it.
abbrev pub promoted_entry : ℕ → Entry → Entry
promoted_entry now e = record e { task = (transition_to e.task ready now).0 }

pub data Promotion (now : ℕ) (id : String) (xs ys : List Entry) : Type 0 where
  missing : find_entry id xs ≡ none → ys ≡ xs → Promotion now id xs ys
  not_due :
      (e : Entry)
      → find_entry id xs ≡ some e
      → is_due e xs ≡ false
      → ys ≡ xs
      → Promotion now id xs ys
  was_due :
      (e : Entry)
      → find_entry id xs ≡ some e
      → is_due e xs ≡ true
      → ys ≡ set_entry (promoted_entry now e) xs
      → Promotion now id xs ys

pub promote-Promotion :
    (now : ℕ) (s : Scheduler) (id : String) → Promotion now id s.entries (promote now s id).entries
unfolding promote store notify
promote-Promotion now s id = elim (Option-cases (find_entry id s.entries)) [
  | inl e ↦ missing e (rw (e, promote))
  | inr (x, e) ↦ elim (Bool-cases (is_due x s.entries)) [
    | inl c ↦ was_due x e c (rw (e, promote, c))
    | inr c ↦ not_due x e c (rw (e, promote, c))
  ]
]

pub due_queued : (e : Entry) (es : List Entry) → is_due e es ≡ true → e.task.state ≡ queued
unfolding state_eq
due_queued e es h = ground arith

promoted_ready :
    (now : ℕ) (e : Entry) → e.task.state ≡ queued → (promoted_entry now e).task.state ≡ ready
promoted_ready now e h =
    let a = transition_to-Allowed e.task ready now in
    a.1 (a.0.1 (subst (λ x. Allowed x ready) (sym h) queued_ready))

succeeded_of : Entry → Bool
succeeded_of e = is_succeeded (some e)

-- No promotion changes whether a task has succeeded.
Promotion-succeeded :
    {now : ℕ} {id : String} {xs ys : List Entry} (d : String)
    → Promotion now id xs ys
    → is_succeeded (find_entry d ys) ≡ is_succeeded (find_entry d xs)
Promotion-succeeded d (missing e same) = ap (λ l. is_succeeded (find_entry d l)) same
Promotion-succeeded d (not_due e f c same) = ap (λ l. is_succeeded (find_entry d l)) same
Promotion-succeeded {now} {id} {xs} d (was_due e found due same) =
    elim (str_eq-cases e.task.task_id d) [
      | inl (_, it) ↦ ground (
        arith,
        find_entry-set_entry_same d (promoted_entry now e) e xs,
        (transition_to-Allowed e.task ready now).3,
        subst (λ x. find_entry x xs ≡ some e) it (find_entry_self id xs e found),
        due_queued e xs due,
        promoted_ready now e,
      )
      | inr (_, other) ↦
          ap (λ l. is_succeeded (find_entry d l)) same
          ∙ ap is_succeeded (
              find_entry-set_entry_other d (promoted_entry now e) xs
                (λ p. other (sym (transition_to-Allowed e.task ready now).3 ∙ p)))
    ]

deps_met-cong :
    (xs ys : List Entry) (ds : List String)
    → ((d : String) → is_succeeded (find_entry d ys) ≡ is_succeeded (find_entry d xs))
    → deps_met ys ds ≡ deps_met xs ds
unfolding deps_met
deps_met-cong xs ys [] h = refl
deps_met-cong xs ys (d ∷ ds) h = cc (h d, deps_met-cong xs ys ds h)

none_not_some : {e : Entry} → none ≡ some e → ⊥
none_not_some h = cc

pub unmet_dep :
    (es : List Entry) (ds : List String)
    → deps_met es ds ≡ false
    → (d : String) × (contains ds d ≡ true) × (is_succeeded (find_entry d es) ≡ false)
unfolding deps_met
unmet_dep es [] h = cc
unmet_dep es (d ∷ ds) h = elim (Bool-cases (is_succeeded (find_entry d es))) [
  | inl won ↦ let (x, k, u) = unmet_dep es ds (rw won at h) in (x, ground arith, u)
  | inr lost ↦ (d, ground (arith, str_eq_refl d), lost)
]

-- The task under this id is not due.
abbrev Settled : String → List Entry → Type 0
Settled id es = (e : Entry) → find_entry id es ≡ some e → is_due e es ≡ false

ready_not_due : (e : Entry) (es : List Entry) → e.task.state ≡ ready → is_due e es ≡ false
unfolding state_eq
ready_not_due e es h = ground arith

transport_due :
    {x e : Entry} {xs ys : List Entry} → e ≡ x → ys ≡ xs → is_due e xs ≡ false → is_due x ys ≡ false
transport_due {x} {e} {xs} p q h =
    subst (λ l. is_due x l ≡ false) (sym q) (subst (λ (y : Entry). is_due y xs ≡ false) p h)

found_twice :
    {x e : Entry} {xs ys : List Entry} (id : String)
    → find_entry id xs ≡ some e
    → ys ≡ xs
    → find_entry id ys ≡ some x
    → e ≡ x
found_twice id f q h = some_inj (sym f ∙ sym (ap (find_entry id) q) ∙ h)

Promotion-Settled :
    {now : ℕ} {id : String} {xs ys : List Entry} → Promotion now id xs ys → Settled id ys
Promotion-Settled {id = id} (missing e same) x h =
    absurd (none_not_some (sym e ∙ sym (ap (find_entry id) same) ∙ h))
Promotion-Settled (not_due e f c same) x h = transport_due (found_twice _ f same h) same c
Promotion-Settled {now} {id} {xs} {ys} (was_due e f due same) x h =
    let new : Entry = promoted_entry now e in
    let name = (transition_to-Allowed e.task ready now).3 ∙ find_entry-id id xs e f in
    let it : new ≡ x = found_twice _ (find_entry-set_entry_same id new e xs name f) same h in
    ready_not_due x ys
      (sym (ap (λ (y : Entry). y.task.state) it) ∙ promoted_ready now e (due_queued e xs due))

Promotion-keeps-Settled :
    {now : ℕ} {j : String} {xs ys : List Entry} (id : String)
    → Promotion now j xs ys
    → Settled id xs
    → Settled id ys
Promotion-keeps-Settled id (missing e same) old x h =
    transport_due {x = x} refl same (old x (sym (ap (find_entry id) same) ∙ h))
Promotion-keeps-Settled id (not_due e f c same) old x h =
    transport_due {x = x} refl same (old x (sym (ap (find_entry id) same) ∙ h))
Promotion-keeps-Settled {now} {j} {xs} {ys} id (was_due e f due same) old x h =
    elim (str_eq-cases j id) [
      | inl (_, it) ↦
          Promotion-Settled (was_due e (subst (λ i. find_entry i xs ≡ some e) it f) due same) x h
      | inr (_, other) ↦
          let name = (transition_to-Allowed e.task ready now).3 ∙ find_entry-id j xs e f in
          let before =
            sym
              (find_entry-set_entry_other id (promoted_entry now e) xs (λ p. other (sym name ∙ p)))
            ∙ sym (ap (find_entry id) same)
            ∙ h in
          ap (λ b. state_eq x.task.state queued && not (is_nil x.task.deps) && b)
            (deps_met-cong xs ys x.task.deps (λ d. Promotion-succeeded d (was_due e f due same)))
          ∙ old x before
    ]

promote_all-keeps-Settled :
    (now : ℕ) (s : Scheduler) (l : List String) (id : String)
    → Settled id s.entries
    → Settled id (promote_all now s l).entries
unfolding promote_all
promote_all-keeps-Settled now s [] id h = h
promote_all-keeps-Settled now s (j ∷ l) id h =
    promote_all-keeps-Settled now (promote now s j) l id
      (Promotion-keeps-Settled id (promote-Promotion now s j) h)

pub promote_all-Settled :
    (now : ℕ) (s : Scheduler) (l : List String) (id : String)
    → contains l id ≡ true
    → Settled id (promote_all now s l).entries
unfolding promote_all
promote_all-Settled now s [] id h = cc
promote_all-Settled now s (j ∷ l) id h = elim (str_eq-cases j id) [
  | inl (_, it) ↦ promote_all-keeps-Settled now (promote now s j) l id (
      subst (λ i. Settled i (promote now s j).entries) it
        (Promotion-Settled (promote-Promotion now s j)))
  | inr (other, _) ↦ promote_all-Settled now (promote now s j) l id (rw other at h)
]
