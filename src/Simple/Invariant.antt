-- ===== src/Simple/Invariant.antt =====
-- What holds of the simple scheduler between two operations.

use mathlib.Core.Path.{subst}
use stv_renew.Prelude.{
  ◌≡◌, refl, sym, ◌∙◌, ap, ◌⊎◌, inl, inr, true, false, String, List, [], ◌∷◌, Option, none, some,
  arith, contains, str_eq-cases, some_inj,
}
use stv_renew.Task.{TaskState, queued, ready, succeeded}
use stv_renew.Task.Lifecycle.{IsValid, IsFinal, transition_to-IsValid}
use stv_renew.Task.Transition.{transition_to-Allowed}
use stv_renew.Task.Starting.{started}
use stv_renew.Simple.{
  Entry, Scheduler, find_entry, deps_met, Op, step, run, create_simple_scheduler, is_succeeded,
}
use stv_renew.Simple.Entries.{
  find_entry-append, Distinct, find_entry-set_entry_same, find_entry-set_entry_other, found_after,
  found_pushed,
}
use stv_renew.Simple.Changes.{Changes-Distinct, step-Changes}
use stv_renew.Simple.Changes.Chain.{
  Change, Changes, follow, promoted, push, done, then_change, IsProper, Changes-trans,
}

-- The dependency was submitted and has succeeded.
abbrev pub Succeeded : String → List Entry → Type 0
Succeeded d es = (dep : Entry) × (find_entry d es ≡ some dep) × (dep.task.state ≡ succeeded)

-- Ids are unique, every task is valid, and a task that was ever made ready (it is ready, running,
-- failed or succeeded, or is paused from ready or running) has only succeeded dependencies.
pub record Inv (es : List Entry) : Type 0 where
  pub distinct : Distinct es
  pub valid : (id : String) (e : Entry) → find_entry id es ≡ some e → IsValid e.task
  pub sound :
      (id d : String) (e : Entry)
      → find_entry id es ≡ some e
      → started e.task ≡ true
      → contains e.task.deps d ≡ true
      → Succeeded d es

pub deps_met-Succeeded :
    (es : List Entry) (ds : List String) (d : String)
    → deps_met es ds ≡ true
    → contains ds d ≡ true
    → Succeeded d es
unfolding deps_met
deps_met-Succeeded es [] d met h = cc
deps_met-Succeeded es (x ∷ ds) d met h = elim (str_eq-cases x d) [
  | inl (_, same) ↦
      subst (λ y. Succeeded y es) same (head_succeeded (find_entry x es) refl (ground arith))
  | inr (other, _) ↦ deps_met-Succeeded es ds d (ground arith) (ground arith)
]
  where
    head_succeeded :
        (o : Option Entry) → find_entry x es ≡ o → is_succeeded o ≡ true → Succeeded x es
    head_succeeded none e s = cc
    head_succeeded (some y) e s = (y, e, ground arith)

not_final : {t : TaskState} → t ≡ queued → IsFinal t → ⊥
not_final e f = ground arith

pushed_unsound :
    (e : Entry) (d : String)
    → (e.task.deps ≡ []) ⊎ (started e.task ≡ false)
    → started e.task ≡ true
    → contains e.task.deps d ≡ true
    → ⊥
pushed_unsound e d fresh s k = ground arith

-- A task that was canceled or has succeeded stays in the list, in its state, and so do its
-- dependencies.
pub Change-final :
    {xs ys : List Entry} (id : String) (e : Entry)
    → Change xs ys
    → find_entry id xs ≡ some e
    → IsFinal e.task.state
    → (x : Entry) × (find_entry id ys ≡ some x) × (x.task.state ≡ e.task.state)
Change-final {xs} id e (follow old new found f) h fin = elim (str_eq-cases new.task.task_id id) [
  | inl (_, same) ↦
      let here : old ≡ e =
        some_inj (sym (subst (λ x. find_entry x xs ≡ some old) same found) ∙ h) in
      (
        new,
        find_entry-set_entry_same id new e xs same h,
        f.final (subst (λ (x : Entry). IsFinal x.task.state) (sym here) fin)
            ∙ ap (λ (x : Entry). x.task.state) here,
      )
  | inr (_, other) ↦ (e, find_entry-set_entry_other id new xs other ∙ h, refl)
]
Change-final {xs} id e (promoted old now found waits met) h fin =
    elim (str_eq-cases old.task.task_id id) [
      | inl (_, same) ↦
          let here : old ≡ e =
            some_inj (sym (subst (λ x. find_entry x xs ≡ some old) same found) ∙ h) in
          absurd (not_final waits (subst (λ (x : Entry). IsFinal x.task.state) (sym here) fin))
      | inr (_, other) ↦ (
        e,
        find_entry-set_entry_other id _ xs
              (λ p. other (sym (transition_to-Allowed old.task ready now).3 ∙ p))
            ∙ h,
        refl,
      )
    ]
Change-final {xs} id e (push new unused v fresh) h fin = (e, find_entry-append id xs new e h, refl)

Change-Succeeded :
    {xs ys : List Entry} (d : String) → Change xs ys → Succeeded d xs → Succeeded d ys
Change-Succeeded d c (dep, found, won) =
    let (x, there, same) = Change-final d dep c found (inr won) in (x, there, same ∙ won)

Change-Inv : {xs ys : List Entry} → Change xs ys → Inv xs → Inv ys
Change-Inv {xs} (follow old new found f) v = record {
  distinct = Changes-Distinct (then_change done (follow old new found f)) v.distinct;
  valid = λ id e h. elim (found_after id new e xs h) [
    | inl (same, it) ↦
        subst (λ (x : Entry). IsValid x.task) (sym it)
          (f.valid (v.valid new.task.task_id old found))
    | inr before ↦ v.valid id e before
  ];
  sound = λ id d e h s k.
      Change-Succeeded d (follow old new found f) (elim (found_after id new e xs h) [
        | inl (same, it) ↦
            v.sound new.task.task_id d old found
              (f.starts (v.valid new.task.task_id old found)
                (subst (λ (x : Entry). started x.task ≡ true) it s))
              (subst (λ l. contains l d ≡ true) f.same_deps
                (subst (λ (x : Entry). contains x.task.deps d ≡ true) it k))
        | inr before ↦ v.sound id d e before s k
      ]);
}
Change-Inv {xs} (promoted old now found waits met) v = record {
  distinct = Changes-Distinct (then_change done (promoted old now found waits met)) v.distinct;
  valid = λ id e h. elim (found_after id _ e xs h) [
    | inl (same, it) ↦
        subst (λ (x : Entry). IsValid x.task) (sym it)
          (transition_to-IsValid old.task ready now (v.valid old.task.task_id old found))
    | inr before ↦ v.valid id e before
  ];
  sound = λ id d e h s k.
      Change-Succeeded d (promoted old now found waits met) (elim (found_after id _ e xs h) [
        | inl (same, it) ↦ deps_met-Succeeded xs old.task.deps d met (
            subst (λ l. contains l d ≡ true) (transition_to-Allowed old.task ready now).4
              (subst (λ (x : Entry). contains x.task.deps d ≡ true) it k))
        | inr before ↦ v.sound id d e before s k
      ]);
}
Change-Inv {xs} (push new unused valid_new fresh) v = record {
  distinct = Changes-Distinct (then_change done (push new unused valid_new fresh)) v.distinct;
  valid = λ id e h. elim (found_pushed id xs new e h) [
    | inl (same, it) ↦ subst (λ (x : Entry). IsValid x.task) (sym it) valid_new
    | inr before ↦ v.valid id e before
  ];
  sound = λ id d e h s k.
      Change-Succeeded d (push new unused valid_new fresh) (elim (found_pushed id xs new e h) [
        | inl (same, it) ↦ absurd (
            pushed_unsound new d fresh (subst (λ (x : Entry). started x.task ≡ true) it s)
              (subst (λ (x : Entry). contains x.task.deps d ≡ true) it k))
        | inr before ↦ v.sound id d e before s k
      ]);
}

pub Changes-Inv : {xs ys : List Entry} → Changes xs ys → Inv xs → Inv ys
Changes-Inv done v = v
Changes-Inv (then_change a b) v = Change-Inv b (Changes-Inv a v)

pub Changes-final :
    {xs ys : List Entry} (id : String) (e : Entry)
    → Changes xs ys
    → find_entry id xs ≡ some e
    → IsFinal e.task.state
    → (x : Entry) × (find_entry id ys ≡ some x) × (x.task.state ≡ e.task.state)
Changes-final id e done h fin = (e, h, refl)
Changes-final id e (then_change a b) h fin =
    let (x, found, same) = Changes-final id e a h fin in
    let (y, there, kept) = Change-final id x b found (subst IsFinal (sym same) fin) in
    (y, there, kept ∙ same)

-- A history whose submitted tasks are new.
abbrev pub AllProper : List Op → Type 0
AllProper [] = Unit {0}
AllProper (op ∷ ops) = IsProper op × AllProper ops

pub run-Changes :
    (s : Scheduler) (ops : List Op)
    → Distinct s.entries
    → AllProper ops
    → Changes s.entries (run s ops).entries
unfolding run
run-Changes s [] d p = done
run-Changes s (op ∷ ops) d p =
    let c = step-Changes s op d p.0 in
    Changes-trans c (run-Changes (step s op) ops (Changes-Distinct c d) p.1)

create-Inv : Inv create_simple_scheduler.entries
unfolding find_entry
create-Inv = record { distinct = tt; valid = λ id e h. cc; sound = λ id d e h. cc }

pub run-Inv : (ops : List Op) → AllProper ops → Inv (run create_simple_scheduler ops).entries
run-Inv ops p = Changes-Inv (run-Changes create_simple_scheduler ops tt p) create-Inv
