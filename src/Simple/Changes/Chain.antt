-- ===== src/Simple/Changes/Chain.antt =====
-- What one call may do to the entries.
use stv_renew.Prelude.{◌≡◌, ◌⊎◌, ℕ, true, false, List, [], ◌∷◌, ◌++◌, none, some}
use stv_renew.Task.{queued, ready, TaskDescriptor, transition_to}
use stv_renew.Task.Lifecycle.{IsValid}
use stv_renew.Task.Starting.{started, Follows}
use stv_renew.Simple.{Entry, find_entry, set_entry, deps_met, Op, submits}

-- One entry is moved on, or promoted because its dependencies are met, or a new one is appended.
pub data Change (es : List Entry) : List Entry → Type 0 where
  follow :
      (e e' : Entry)
      → find_entry e'.task.task_id es ≡ some e
      → Follows e.task e'.task
      → Change es (set_entry e' es)
  promoted :
      (e : Entry) (now : ℕ)
      → find_entry e.task.task_id es ≡ some e
      → e.task.state ≡ queued
      → deps_met es e.task.deps ≡ true
      → Change es (set_entry (record e { task = (transition_to e.task ready now).0 }) es)
  push :
      (e : Entry)
      → find_entry e.task.task_id es ≡ none
      → IsValid e.task
      → (e.task.deps ≡ []) ⊎ (started e.task ≡ false)
      → Change es (es ++ e ∷ [])

pub data Changes (es : List Entry) : List Entry → Type 0 where
  done : Changes es es
  then_change : {xs ys : List Entry} → Changes es xs → Change xs ys → Changes es ys

pub one : {xs ys : List Entry} → Change xs ys → Changes xs ys
one c = then_change done c

pub Changes-trans : {es xs ys : List Entry} → Changes es xs → Changes xs ys → Changes es ys
Changes-trans a done = a
Changes-trans a (then_change b c) = then_change (Changes-trans a b) c

-- A task that nobody has touched: what a caller may submit.
abbrev pub IsNew : TaskDescriptor → Type 0
IsNew t = (t.state ≡ queued) × IsValid t

-- An operation whose submitted task is new.
abbrev pub IsProper : Op → Type 0
IsProper (submits t _ _) = IsNew t
IsProper _ = Unit {0}
