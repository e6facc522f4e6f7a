-- ===== src/Simple/Ticks.antt =====
-- What `tick` starts: a ready task of the highest priority, after every promotion that was due.
use stv_renew.Pipeline.{Dispatch}
use mathlib.Core.Path.{subst}
use stv_renew.Prelude.{
  ◌≡◌, refl, sym, ◌∙◌, ap, inl, inr, ℕ, true, String, List, [], ◌∷◌, Option, none, some, arith,
  contains, some_inj,
}
use stv_renew.Prelude.Int.{◌≤ℤ◌}
use stv_renew.Task.{TaskState, ready, running, state_eq, TaskDescriptor, transition_to}
use stv_renew.Task.Transition.{transition_to-Allowed, ready_running, Allowed}
use stv_renew.Task.Starting.{started}
use stv_renew.Simple.{
  Entry, Scheduler, find_entry, set_entry, store, notify, pick_best, tick_begin, start_best, ids,
}
use stv_renew.Simple.Entries.{find_entry-set_entry_same, found_after}
use stv_renew.Simple.Changes.{pick_best-found, tick_begin-Changes}
use stv_renew.Simple.Changes.Calls.{promote_all-Changes}
use stv_renew.Simple.Invariant.{Inv, Changes-Inv, Succeeded}

is_ready : (s : TaskState) → s ≡ ready → state_eq s ready ≡ true
unfolding state_eq
is_ready s h = ground arith

pick_best_keeps :
    (x : Entry) (es : List Entry) (b : Entry)
    → pick_best (some x) es ≡ some b
    → x.task.priority ≤ℤ b.task.priority
unfolding pick_best
pick_best_keeps x [] b h = ground arith
pick_best_keeps x (e ∷ es) b h = ground (arith, pick_best_keeps x es b, pick_best_keeps e es b)

pick_best_max :
    (best : Option Entry) (es : List Entry) (b : Entry) (id : String) (e : Entry)
    → pick_best best es ≡ some b
    → find_entry id es ≡ some e
    → e.task.state ≡ ready
    → e.task.priority ≤ℤ b.task.priority
unfolding pick_best find_entry
pick_best_max best [] b id e h found r = cc
pick_best_max none (x ∷ es) b id e h found r = ground (
  arith,
  pick_best_max none es b id e,
  pick_best_max (some x) es b id e,
  pick_best_keeps x es b,
  is_ready e.task.state,
)
pick_best_max (some y) (x ∷ es) b id e h found r = ground (
  arith,
  pick_best_max (some y) es b id e,
  pick_best_max (some x) es b id e,
  pick_best_keeps x es b,
  pick_best_keeps y es b,
  is_ready e.task.state,
)

-- What `tick` has established when it starts a task.
pub record Started (es : List Entry) (d : Dispatch) : Type 0 where
  pub entry : Entry
  pub found : find_entry d.task_id es ≡ some entry
  pub runs : entry.task.state ≡ running
  pub stage : d.stage ≡ entry.stage
  pub deps_done : (dep : String) → contains entry.task.deps dep ≡ true → Succeeded dep es
  pub highest :
      (id : String) (e : Entry)
      → find_entry id es ≡ some e
      → e.task.state ≡ ready
      → e.task.priority ≤ℤ entry.task.priority

pub ready_not_running : {t : TaskState} → t ≡ ready → t ≡ running → ⊥
ready_not_running a b = cc

running_after :
    (t : TaskDescriptor) (now : ℕ)
    → t.state ≡ ready
    → (transition_to t running now).0.state ≡ running
running_after t now h =
    let a = transition_to-Allowed t running now in
    a.1 (a.0.1 (subst (λ x. Allowed x running) (sym h) ready_running))

running_is_started : (t : TaskDescriptor) → t.state ≡ running → started t ≡ true
running_is_started t h = ground arith

chosen-Started :
    (es : List Entry) (b : Entry) (now : ℕ) (d : Dispatch)
    → let x : Entry = record b { task = (transition_to b.task running now).0 } in
      d.task_id ≡ b.task.task_id
      → d.stage ≡ b.stage
      → pick_best none es ≡ some b
      → find_entry b.task.task_id es ≡ some b
      → b.task.state ≡ ready
      → Inv (set_entry x es)
      → Started (set_entry x es) d
chosen-Started es b now d name stage picked found is_ready w =
    let x : Entry = record b { task = (transition_to b.task running now).0 } in
    let a = transition_to-Allowed b.task running now in
    let runs : x.task.state ≡ running = running_after b.task now is_ready in
    let here : find_entry b.task.task_id (set_entry x es) ≡ some x =
      find_entry-set_entry_same b.task.task_id x b es a.3 found in
    record {
      entry = x;
      found = subst (λ i. find_entry i (set_entry x es) ≡ some x) (sym name) here;
      runs = runs;
      stage = stage;
      deps_done = λ dep k. w.sound b.task.task_id dep x here (running_is_started x.task runs) k;
      highest = λ id e h r. elim (found_after id x e es h) [
        | inl (same, it) ↦
            absurd (ready_not_running (sym (ap (λ (y : Entry). y.task.state) it) ∙ r) runs)
        | inr before ↦
            subst (λ p. e.task.priority ≤ℤ p) (sym a.5)
              (pick_best_max none es b id e picked before r)
      ];
    }

start_best-Started :
    (s : Scheduler) (best : Option Entry) (now : ℕ) (d : Dispatch)
    → pick_best none s.entries ≡ best
    → Inv s.entries
    → Inv (start_best s best now).0.entries
    → (start_best s best now).1 ≡ some d
    → Started (start_best s best now).0.entries d
unfolding start_best store notify
start_best-Started s none now d picked v w h = cc
start_best-Started s (some b) now d picked v w h =
    elim (pick_best-found none s.entries b v.distinct picked) [
      | inl e ↦ cc
      | inr (found, is_ready) ↦
          subst (Started _) (some_inj h)
            (chosen-Started s.entries b now _ refl refl picked found is_ready w)
    ]

-- When `tick` starts a task, from any state that a history of the scheduler reaches, the task handed
-- out is in the list, running, with the stage that is executed; all its dependencies have succeeded;
-- and no task that is still ready has a higher priority.
pub tick_begin-Started :
    (s : Scheduler) (now : ℕ) (d : Dispatch)
    → Inv s.entries
    → (tick_begin s now).1 ≡ some d
    → Started (tick_begin s now).0.entries d
unfolding tick_begin
tick_begin-Started s now d v h =
    start_best-Started _ _ now d refl (Changes-Inv (promote_all-Changes now s (ids s.entries)) v)
      (Changes-Inv (tick_begin-Changes s now v.distinct) v) h
