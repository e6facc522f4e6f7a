-- ===== src/Simple/Changes/Calls.antt =====
-- The calls other than `submit`, and the promotion, as changes.
use mathlib.Core.Path.{subst}
use stv_renew.Prelude.{
  ◌≡◌, refl, sym, ◌∙◌, inl, inr, ℕ, Bool, true, false, not, ◌&&◌, String, List, [], ◌∷◌, some,
  arith, Bool-cases, Option-cases, if◌then◌else◌,
}
use stv_renew.Prelude.Float.{Float, float_one}
use stv_renew.Errors.{is_canceled_category, TaskError, ok, err, Status}
use stv_renew.Task.{
  TaskState, queued, paused, canceled, failed, succeeded, state_eq, TaskDescriptor, transition_to,
}
use stv_renew.Task.Lifecycle.{resume_target}
use stv_renew.Task.Starting.{
  Follows, Follows-trans, IsSafeTarget, transition_to-Follows, set_progress-Follows, error-Follows,
}
use stv_renew.Pipeline.{Values}
use stv_renew.Simple.{
  Entry, Scheduler, find_entry, set_entry, store, notify, deps_met, is_nil, move, cancel, pause,
  resume, request_token, promote, promote_all, report_progress, finish, tick_end, ids,
}
use stv_renew.Simple.Entries.{find_entry-id, find_entry_self}
use stv_renew.Simple.Changes.Chain.{follow, promoted, Changes, done, one, Changes-trans}

pub store_follow :
    (es : List Entry) (id : String) (e e' : Entry)
    → find_entry id es ≡ some e
    → Follows e.task e'.task
    → Changes es (set_entry e' es)
store_follow es id e e' found f = one (
    follow e e'
      (subst (λ x. find_entry x es ≡ some e) (sym (f.same_id ∙ find_entry-id id es e found)) found)
      f)

-- Whether or not the transition is accepted, its result is stored.
pub move-entries :
    (s : Scheduler) (e : Entry) (target : TaskState) (now : ℕ)
    → (move s e target now).0.entries
      ≡ set_entry (record e { task = (transition_to e.task target now).0 }) s.entries
unfolding move store notify
move-entries s e target now = ground arith

move-Changes :
    (s : Scheduler) (id : String) (e : Entry) (target : TaskState) (now : ℕ)
    → find_entry id s.entries ≡ some e
    → IsSafeTarget e.task target
    → Changes s.entries (move s e target now).0.entries
move-Changes s id e target now found safe =
    rw (move-entries s e target now)
      (store_follow s.entries id e _ found (transition_to-Follows e.task target now safe))

pub cancel-Changes :
    (s : Scheduler) (id : String) (now : ℕ) → Changes s.entries (cancel s id now).0.entries
unfolding cancel request_token
cancel-Changes s id now = elim (Option-cases (find_entry id s.entries)) [
  | inl e ↦ rw (e, cancel) done
  | inr (x, e) ↦
      rw (e, cancel)
        (move-Changes (request_token s x.task.cancel_token) id x canceled now e (inr (inl refl)))
]

pub pause-Changes :
    (s : Scheduler) (id : String) (now : ℕ) → Changes s.entries (pause s id now).0.entries
unfolding pause
pause-Changes s id now = elim (Option-cases (find_entry id s.entries)) [
  | inl e ↦ rw (e, pause) done
  | inr (x, e) ↦ rw (e, pause) (move-Changes s id x paused now e (inl refl))
]

pub resume-Changes :
    (s : Scheduler) (id : String) (now : ℕ) → Changes s.entries (resume s id now).0.entries
unfolding resume
resume-Changes s id now = elim (Option-cases (find_entry id s.entries)) [
  | inl e ↦ rw (e, resume) done
  | inr (x, e) ↦
      rw (e, resume)
        (move-Changes s id x (resume_target x.task) now e (inr (inr (inr (inr (inl refl))))))
]

promotable :
    (t : TaskDescriptor) (es : List Entry)
    → (state_eq t.state queued && not (is_nil t.deps) && deps_met es t.deps) ≡ true
    → (t.state ≡ queued) × (deps_met es t.deps ≡ true)
unfolding state_eq
promotable t es h = ground arith

promote-Changes :
    (now : ℕ) (s : Scheduler) (id : String) → Changes s.entries (promote now s id).entries
unfolding promote store notify
promote-Changes now s id = elim (Option-cases (find_entry id s.entries)) [
  | inl e ↦ rw (e, promote) done
  | inr (x, e) ↦
      elim (Bool-cases (
        state_eq x.task.state queued
        && not (is_nil x.task.deps)
        && deps_met s.entries x.task.deps)) [
          | inl c ↦
              let (waits, met) = promotable x.task s.entries c in
              rw (e, promote, c) (one (promoted x now (find_entry_self id s.entries x e) waits met))
          | inr c ↦ rw (e, promote, c) done
        ]
]

pub promote_all-Changes :
    (now : ℕ) (s : Scheduler) (ids : List String)
    → Changes s.entries (promote_all now s ids).entries
unfolding promote_all
promote_all-Changes now s [] = done
promote_all-Changes now s (id ∷ ids) =
    Changes-trans (promote-Changes now s id) (promote_all-Changes now (promote now s id) ids)

pub report_progress-Changes :
    (s : Scheduler) (id : String) (p : Float) → Changes s.entries (report_progress s id p).entries
unfolding report_progress store notify
report_progress-Changes s id p = elim (Option-cases (find_entry id s.entries)) [
  | inl e ↦ rw (e, report_progress) done
  | inr (x, e) ↦
      rw (e, report_progress) (store_follow s.entries id x _ e (set_progress-Follows x.task p))
]

fail-Changes :
    (es : List Entry) (id : String) (e : Entry) (x : TaskError) (b : Bool) (now : ℕ)
    → find_entry id es ≡ some e
    → Changes es (
        set_entry
          (record e {
            task =
                (transition_to
                  (record e.task { error = some x })
                  (if b then canceled else failed)
                  now).0;
          })
          es)
fail-Changes es id e x true now found =
    store_follow es id e _ found (
      Follows-trans (error-Follows e.task x)
        (transition_to-Follows _ canceled now (inr (inl refl))))
fail-Changes es id e x false now found = store_follow es id e _ found (
    Follows-trans (error-Follows e.task x)
      (transition_to-Follows _ failed now (inr (inr (inl refl)))))

finish-Changes :
    (s : Scheduler) (id : String) (e : Entry) (result : Status) (outputs : Values) (now : ℕ)
    → find_entry id s.entries ≡ some e
    → Changes s.entries (finish s e result outputs now).entries
unfolding finish store notify
finish-Changes s id e (ok _) outputs now found = store_follow s.entries id e _ found (
    Follows-trans (transition_to-Follows e.task succeeded now (inr (inr (inr (inl refl)))))
      (set_progress-Follows _ float_one))
finish-Changes s id e (err x) outputs now found =
    fail-Changes s.entries id e x (is_canceled_category x.category) now found

pub tick_end-Changes :
    (s : Scheduler) (id : String) (result : Status) (outputs : Values) (now : ℕ)
    → Changes s.entries (tick_end s id result outputs now).entries
unfolding tick_end
tick_end-Changes s id result outputs now = elim (Option-cases (find_entry id s.entries)) [
  | inl e ↦ rw (e, tick_end) done
  | inr (x, e) ↦ rw (e, tick_end) (finish-Changes s id x result outputs now e)
]
