-- ===== src/Simple/Defects.antt =====
-- Where the simple scheduler reports or does what its state machine forbids.
use stv_renew.Simple.Ticks.{ready_not_running}
use stv_renew.Simple.Idle.Promoting.{
  Promotion, missing, not_due, was_due, promote-Promotion, due_queued,
}
use stv_renew.Prelude.{
  ◌≡◌, refl, sym, ◌∙◌, ap, ◌≢◌, inl, inr, ℕ, Bool, true, false, String, List, [], ◌∷◌, ◌++◌, Option,
  none, some, arith, some_inj, str_eq-cases,
}
use stv_renew.Prelude.Float.{float_one}
use stv_renew.Errors.{ok}
use stv_renew.Task.{
  TaskState, queued, ready, running, succeeded, TaskDescriptor, transition_to, set_progress,
}
use stv_renew.Task.Lifecycle.{IsValid, resume_target}
use stv_renew.Task.Transition.{transition_to-Allowed, Allowed, running_succeeded}
use stv_renew.Notify.{event, call_all}
use stv_renew.Pipeline.{Values, Dispatch}
use stv_renew.Simple.{
  Entry, Scheduler, find_entry, store, notify, pick_best, promote, promote_all, start_best,
  tick_begin, finish, tick_end, resume, move, ids,
}
use stv_renew.Simple.Entries.{
  find_entry-id, find_entry-set_entry_same, find_entry-set_entry_other, Distinct,
}
use stv_renew.Simple.Changes.{Changes-Distinct, pick_best-found}
use stv_renew.Simple.Changes.Calls.{promote_all-Changes, resume-Changes, move-entries}
use stv_renew.Simple.Invariant.{Inv}

succeeded_only_from_running : {a : TaskState} → Allowed a succeeded → a ≡ running
succeeded_only_from_running running_succeeded = refl

refused_success :
    (t : TaskDescriptor) (now : ℕ) → t.state ≢ running → (transition_to t succeeded now).0 ≡ t
refused_success t now h =
    let a = transition_to-Allowed t succeeded now in
    a.2 (not_true (λ r. h (succeeded_only_from_running (a.0.0 r))))
  where
    not_true : {b : Bool} → ¬ (b ≡ true) → b ≡ false
    not_true n = ground arith

-- When the stage of a task returns success while the task is not running any more (it was canceled
-- or paused in the meantime), the task keeps its state, but its progress is set to 1, its outputs are
-- stored, and every callback is told that it has succeeded.
pub tick_end_false_success :
    (s : Scheduler) (id : String) (e : Entry) (outputs : Values) (now : ℕ)
    → find_entry id s.entries ≡ some e
    → e.task.state ≢ running
    → let s' = tick_end s id (ok tt) outputs now in
      (s'.effects ≡ s.effects ++ call_all s.callbacks (event id succeeded float_one))
      × (find_entry id s'.entries
          ≡ some (record e { task = set_progress e.task float_one; last_outputs = outputs }))
unfolding tick_end finish store notify set_progress
tick_end_false_success s id e outputs now found h =
    rw (found, tick_end)
      (rw (refused_success e.task now h) (
        ap (λ i. s.effects ++ call_all s.callbacks (event i succeeded float_one))
            (find_entry-id id s.entries e found),
        find_entry-set_entry_same id _ e s.entries (find_entry-id id s.entries e found) found,
      ))

queued_not_running : {t : TaskState} → t ≡ queued → t ≡ running → ⊥
queued_not_running a b = cc

-- A task that is not queued is left alone by the promotions.
promote_keeps :
    (now : ℕ) (s : Scheduler) (j id : String) (x : Entry)
    → find_entry id s.entries ≡ some x
    → x.task.state ≡ running
    → find_entry id (promote now s j).entries ≡ some x
promote_keeps now s j id x found h = kept (promote-Promotion now s j)
  where
    kept : {ys : List Entry} → Promotion now j s.entries ys → find_entry id ys ≡ some x
    kept (missing e same) = ap (find_entry id) same ∙ found
    kept (not_due e f c same) = ap (find_entry id) same ∙ found
    kept (was_due e f due same) = elim (str_eq-cases j id) [
      | inl (_, it) ↦ absurd (
          queued_not_running (due_queued e s.entries due) (
            ap (λ (y : Entry). y.task.state)
              (some_inj (sym f ∙ ap (λ i. find_entry i s.entries) it ∙ found))
            ∙ h))
      | inr (_, other) ↦
          ap (find_entry id) same
          ∙ find_entry-set_entry_other id _ s.entries (λ p.
            other (
              sym ((transition_to-Allowed e.task ready now).3 ∙ find_entry-id j s.entries e f) ∙ p))
          ∙ found
    ]

promote_all_keeps :
    (now : ℕ) (s : Scheduler) (l : List String) (id : String) (x : Entry)
    → find_entry id s.entries ≡ some x
    → x.task.state ≡ running
    → find_entry id (promote_all now s l).entries ≡ some x
unfolding promote_all
promote_all_keeps now s [] id x found h = found
promote_all_keeps now s (j ∷ l) id x found h =
    promote_all_keeps now (promote now s j) l id x (promote_keeps now s j id x found h) h

start_best_not :
    (s : Scheduler) (best : Option Entry) (now : ℕ) (id : String) (x : Entry) (d : Dispatch)
    → Distinct s.entries
    → pick_best none s.entries ≡ best
    → find_entry id s.entries ≡ some x
    → x.task.state ≡ running
    → (start_best s best now).1 ≡ some d
    → d.task_id ≢ id
unfolding start_best
start_best_not s none now id x d u picked found h e = cc
start_best_not s (some b) now id x d u picked found h e =
    elim (pick_best-found none s.entries b u picked) [
      | inl n ↦ cc
      | inr (there, is_ready) ↦ λ same.
          let name : b.task.task_id ≡ id = ap (λ (y : Dispatch). y.task_id) (some_inj e) ∙ same in
          let it : b ≡ x = some_inj (sym there ∙ ap (λ i. find_entry i s.entries) name ∙ found) in
          ready_not_running is_ready (ap (λ (y : Entry). y.task.state) it ∙ h)
    ]

-- `tick` never hands out a task that is already running.
tick_begin_not_running :
    (s : Scheduler) (now : ℕ) (id : String) (x : Entry) (d : Dispatch)
    → Distinct s.entries
    → find_entry id s.entries ≡ some x
    → x.task.state ≡ running
    → (tick_begin s now).1 ≡ some d
    → d.task_id ≢ id
unfolding tick_begin
tick_begin_not_running s now id x d u found h e =
    start_best_not _ _ now id x d (Changes-Distinct (promote_all-Changes now s (ids s.entries)) u)
      refl (promote_all_keeps now s (ids s.entries) id x found h) h e

resumed_ready :
    (t : TaskDescriptor) (now : ℕ)
    → t.state ≡ ready
    → IsValid t
    → (resume_target t ≡ running)
      × ((transition_to t running now).1 ≡ ok tt)
      × ((transition_to t running now).0.state ≡ running)
unfolding resume_target transition_to
resumed_ready t now h v = ground arith

resume_found :
    (s : Scheduler) (id : String) (e : Entry) (now : ℕ)
    → find_entry id s.entries ≡ some e
    → resume s id now ≡ move s e (resume_target e.task) now
unfolding resume
resume_found s id e now found = rw (found, resume)

move_status :
    (s : Scheduler) (e : Entry) (target : TaskState) (now : ℕ)
    → (move s e target now).1 ≡ (transition_to e.task target now).1
unfolding move
move_status s e target now = refl

resume_ready_runs :
    (s : Scheduler) (id : String) (e : Entry) (now : ℕ)
    → Inv s.entries
    → find_entry id s.entries ≡ some e
    → e.task.state ≡ ready
    → ((resume s id now).1 ≡ ok tt)
      × ((x : Entry) × (find_entry id (resume s id now).0.entries ≡ some x)
          × (x.task.state ≡ running))
resume_ready_runs s id e now v found h =
    let (target, accepted, runs) = resumed_ready e.task now h (v.valid id e found) in
    let x : Entry = record e { task = (transition_to e.task running now).0 } in
    let name = (transition_to-Allowed e.task running now).3 ∙ find_entry-id id s.entries e found in
    rw (resume_found s id e now found, target)
      (
        move_status s e running now ∙ accepted,
        (
          x,
          ap (find_entry id) (move-entries s e running now)
              ∙ find_entry-set_entry_same id x e s.entries name found,
          runs,
        ),
      )

-- In a state that a history of the scheduler reaches, `resume` on a ready task succeeds and sets the
-- task running although no stage was started, and the next `tick` does not hand it out.
pub resume_ready_strands :
    (s : Scheduler) (id : String) (e : Entry) (now later : ℕ) (d : Dispatch)
    → Inv s.entries
    → find_entry id s.entries ≡ some e
    → e.task.state ≡ ready
    → let s' = (resume s id now).0 in
      ((resume s id now).1 ≡ ok tt)
      × ((x : Entry) × (find_entry id s'.entries ≡ some x) × (x.task.state ≡ running))
      × ((tick_begin s' later).1 ≡ some d → d.task_id ≢ id)
resume_ready_strands s id e now later d v found h =
    let (accepted, (x, there, runs)) = resume_ready_runs s id e now v found h in
    (
      accepted,
      (x, there, runs),
      tick_begin_not_running (resume s id now).0 later id x d
          (Changes-Distinct (resume-Changes s id now) v.distinct) there runs,
    )
