-- ===== src/Workflow/Completion/Counting.antt =====
-- What the engine counts of an event.
use stv_renew.Prelude.{
  ◌≡◌, refl, ◌∙◌, ap, ℕ, suc, ◌+◌, ◌==◌, Bool, true, false, ◌&&◌, ◌||◌, String, List, [], ◌∷◌, ◌++◌,
  arith, contains, if◌then◌else◌,
}
use stv_renew.Task.{TaskState, canceled, succeeded, state_eq}
use stv_renew.Notify.{StateEvent}
use stv_renew.Workflow.{WorkflowState, Note, progressed, finished, output_file, advance}

-- The events that tell of the success of a task with one of the ids.
unfoldable pub successes : List String → List StateEvent → ℕ
unfolding state_eq
successes ids [] = 0
successes ids (ev ∷ evs) =
    if contains ids ev.task_id && state_eq ev.state succeeded
    then suc (successes ids evs)
    else successes ids evs

unfoldable pub failures : List String → List StateEvent → Bool
unfolding state_eq
failures ids [] = false
failures ids (ev ∷ evs) =
    contains ids ev.task_id && (state_eq ev.state TaskState.failed || state_eq ev.state canceled)
    || failures ids evs

-- The calls of the completion callback.
abbrev pub completions : List Note → List Note
completions [] = []
completions (progressed w t s p ∷ ns) = completions ns
completions (finished w s p ∷ ns) = finished w s p ∷ completions ns

pub completions-append :
    (xs ys : List Note) → completions (xs ++ ys) ≡ completions xs ++ completions ys
completions-append [] ys = refl
completions-append (progressed w t s p ∷ xs) ys = completions-append xs ys
completions-append (finished w s p ∷ xs) ys =
    ap (λ n. finished w s p ∷ n) (completions-append xs ys)

-- A workflow as it was, further on.
pub record Counts (wf w : WorkflowState) (n : ℕ) (f : Bool) : Type 0 where
  pub same_trace : w.trace_id ≡ wf.trace_id
  pub same_ids : w.task_ids ≡ wf.task_ids
  pub same_total : w.total ≡ wf.total
  pub counted : w.completed ≡ wf.completed + n
  pub marked : w.failed ≡ (wf.failed || f)

pub advance-Counts :
    (wf : WorkflowState) (st : TaskState)
    → Counts wf
        (advance wf st)
        (if state_eq st succeeded then 1 else 0)
        (state_eq st TaskState.failed || state_eq st canceled)
unfolding advance state_eq
advance-Counts wf st = record {
  same_trace = ground arith;
  same_ids = ground arith;
  same_total = ground arith;
  counted = ground arith;
  marked = ground arith;
}

pub Counts-trans :
    {a b c : WorkflowState} {n m : ℕ} {f g : Bool}
    → Counts a b n f
    → Counts b c m g
    → Counts a c (n + m) (f || g)
Counts-trans x y = record {
  same_trace = y.same_trace ∙ x.same_trace;
  same_ids = y.same_ids ∙ x.same_ids;
  same_total = y.same_total ∙ x.same_total;
  counted = omega (arith, x.counted, y.counted);
  marked = ground (arith, x.marked, y.marked);
}

pub advance-path :
    (wf : WorkflowState) (st : TaskState)
    → ((advance wf st).completed == (advance wf st).total) ≡ true
    → (advance wf st).output_path ≡ output_file
unfolding advance state_eq
advance-path wf st h = ground arith

abbrev pub due_note : WorkflowState → WorkflowState → StateEvent → Bool → List Note
due_note wf w ev tells =
    if contains wf.task_ids ev.task_id && (w.completed == w.total) && tells
    then finished wf.trace_id true output_file ∷ []
    else []

pub counted_once :
    (wf : WorkflowState) (st : TaskState)
    → Counts wf
        (advance wf st)
        (if state_eq st succeeded then 1 else 0)
        ((state_eq st TaskState.failed || state_eq st canceled) || false)
counted_once wf st =
    let a = advance-Counts wf st in
    record {
      same_trace = a.same_trace;
      same_ids = a.same_ids;
      same_total = a.same_total;
      counted = a.counted;
      marked = ground (arith, a.marked);
    }

pub counted_none : {wf : WorkflowState} → Counts wf wf 0 false
counted_none {wf} = record {
  same_trace = refl;
  same_ids = refl;
  same_total = refl;
  counted = omega arith;
  marked = ground arith;
}
