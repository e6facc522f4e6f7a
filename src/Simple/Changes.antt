-- ===== src/Simple/Changes.antt =====
-- What each operation does to the entry list, as a chain of small changes.
pub mod Chain
pub mod Calls
use stv_renew.Task.Transition.{transition_to-Allowed}
use mathlib.Core.Path.{subst}
use stv_renew.Prelude.{
  is_empty, ◌≡◌, refl, sym, ◌∙◌, ◌⊎◌, inl, inr, ℕ, true, false, ◌&&◌, String, List, [], ◌∷◌, Option,
  none, some, arith, Bool-cases, if◌then◌else◌, eq_iff,
}
use stv_renew.Errors.{is_ok, ok, err, Status}
use stv_renew.Task.{TaskState, ready, running, state_eq, TaskDescriptor, transition_to}
use stv_renew.Task.Lifecycle.{transition_to-IsValid}
use stv_renew.Task.Starting.{started, transition_to-Follows}
use stv_renew.Simple.{
  Entry, Scheduler, find_entry, set_entry, store, notify, is_nil, enqueue, submit, pick_best,
  tick_begin, Op, submits, cancels, pauses, resumes, listens, begins, reports, ends, step,
  check_submit, check_deps, improves, start_best, ids,
}
use stv_renew.Simple.Entries.{Distinct, set_entry-Distinct, append-Distinct}
use stv_renew.Simple.Changes.Chain.{
  Change, follow, promoted, push, Changes, done, then_change, one, Changes-trans, IsNew, IsProper,
}
use stv_renew.Simple.Changes.Calls.{
  store_follow, cancel-Changes, pause-Changes, resume-Changes, promote_all-Changes,
  report_progress-Changes, tick_end-Changes,
}

-- What `submit` has checked when it does not return early.
pub record Checked (es : List Entry) (t : TaskDescriptor) : Type 0 where
  pub named : is_empty t.task_id ≡ false
  pub unused : find_entry t.task_id es ≡ none
  pub known : check_deps t.task_id es t.deps ≡ ok tt

pub check_submit-Checked :
    (es : List Entry) (t : TaskDescriptor) → check_submit es t true ≡ ok tt → Checked es t
unfolding check_submit
check_submit-Checked es t h = ground arith

nil-of-is_nil : (ids : List String) → is_nil ids ≡ true → ids ≡ []
nil-of-is_nil ids h = ground arith

not_started : (t : TaskDescriptor) → IsNew t → started t ≡ false
not_started t (waits, v) = ground (arith, v.only_paused)

enqueue-Changes :
    (s : Scheduler) (t : TaskDescriptor) (stage now : ℕ)
    → IsNew t
    → find_entry t.task_id s.entries ≡ none
    → Changes s.entries (enqueue s t stage now).0.entries
unfolding enqueue
enqueue-Changes s t stage now new unused = elim (Bool-cases (is_nil t.deps)) [
  | inl e ↦
      rw (e, enqueue)
        (elim (Bool-cases (is_ok (transition_to t ready now).1)) [
          | inl r ↦
              let f = transition_to-Allowed t ready now in
              rw (r, enqueue)
                (one (
                  push _ (subst (λ x. find_entry x s.entries ≡ none) (sym f.3) unused)
                    (transition_to-IsValid t ready now new.1) (inl (f.4 ∙ nil-of-is_nil t.deps e))))
          | inr r ↦ rw (r, enqueue) done
        ])
  | inr e ↦ rw (e, enqueue) (one (push _ unused new.1 (inr (not_started t new))))
]

submit-Changes :
    (s : Scheduler) (t : TaskDescriptor) (stage : Option ℕ) (now : ℕ)
    → IsNew t
    → Changes s.entries (submit s t stage now).0.entries
unfolding submit
submit-Changes s t none now new = done
submit-Changes s t (some stage) now new = submitted (check_submit s.entries t true) refl
  where
    submitted :
        (r : Status)
        → check_submit s.entries t true ≡ r
        → Changes s.entries (submit s t (some stage) now).0.entries
    submitted (ok _) e =
        rw (e, submit)
          (enqueue-Changes s t stage now new (check_submit-Checked s.entries t e).unused)
    submitted (err _) e = rw (e, submit) done

Change-Distinct : {xs ys : List Entry} → Change xs ys → Distinct xs → Distinct ys
Change-Distinct {xs} (follow e e' found f) d = set_entry-Distinct e' xs d
Change-Distinct {xs} (promoted e now found waits met) d = set_entry-Distinct _ xs d
Change-Distinct {xs} (push e unused v fresh) d = append-Distinct xs e d unused

-- Ids stay unique.
pub Changes-Distinct : {xs ys : List Entry} → Changes xs ys → Distinct xs → Distinct ys
Changes-Distinct done d = d
Changes-Distinct (then_change a b) d = Change-Distinct b (Changes-Distinct a d)

ready_of-state_eq : (s : TaskState) → state_eq s ready ≡ true → s ≡ ready
unfolding state_eq
ready_of-state_eq s h = ground arith

-- The entry picked is in the list, and ready.
pub pick_best-found :
    (best : Option Entry) (es : List Entry) (b : Entry)
    → Distinct es
    → pick_best best es ≡ some b
    → (best ≡ some b) ⊎ ((find_entry b.task.task_id es ≡ some b) × (b.task.state ≡ ready))
unfolding pick_best find_entry
pick_best-found best [] b d h = inl h
pick_best-found best (e ∷ es) b d h = ground (
  arith,
  pick_best-found (if state_eq e.task.state ready && improves best e then some e else best) es b d.1
      h,
  eq_iff e.task.task_id b.task.task_id,
  ready_of-state_eq e.task.state,
)

dispatch-Changes :
    (s : Scheduler) (b : Entry) (now : ℕ)
    → Distinct s.entries
    → pick_best none s.entries ≡ some b
    → Changes s.entries
        (set_entry (record b { task = (transition_to b.task running now).0 }) s.entries)
dispatch-Changes s b now d h = elim (pick_best-found none s.entries b d h) [
  | inl e ↦ absurd (cc)
  | inr (found, is_ready) ↦
      store_follow s.entries b.task.task_id b _ found
        (transition_to-Follows b.task running now (inr (inr (inr (inr (inr (is_ready, refl)))))))
]

start_best-Changes :
    (s : Scheduler) (best : Option Entry) (now : ℕ)
    → Distinct s.entries
    → pick_best none s.entries ≡ best
    → Changes s.entries (start_best s best now).0.entries
unfolding start_best store notify
start_best-Changes s none now d h = done
start_best-Changes s (some b) now d h = dispatch-Changes s b now d h

pub tick_begin-Changes :
    (s : Scheduler) (now : ℕ) → Distinct s.entries → Changes s.entries (tick_begin s now).0.entries
unfolding tick_begin
tick_begin-Changes s now d =
    let before = promote_all-Changes now s (ids s.entries) in
    Changes-trans before (start_best-Changes _ _ now (Changes-Distinct before d) refl)

-- Every operation changes the entry list by a chain of such changes.
pub step-Changes :
    (s : Scheduler) (op : Op)
    → Distinct s.entries
    → IsProper op
    → Changes s.entries (step s op).entries
unfolding step
step-Changes s (submits t stage now) d new = submit-Changes s t stage now new
step-Changes s (cancels id now) d p = cancel-Changes s id now
step-Changes s (pauses id now) d p = pause-Changes s id now
step-Changes s (resumes id now) d p = resume-Changes s id now
step-Changes s (listens cb) d p = done
step-Changes s (begins now) d p = tick_begin-Changes s now d
step-Changes s (reports id x) d p = report_progress-Changes s id x
step-Changes s (ends id result outputs now) d p = tick_end-Changes s id result outputs now
