-- ===== src/Stages/Inputs.antt =====
-- The stages of infra/src/stages.cpp under `SimpleScheduler`: what reaches the first task of a chain.
use stv_renew.Prelude.{
  ◌≡◌, refl, sym, ◌∙◌, ap, inl, inr, ℕ, false, String, [], Option, none, some, some_inj,
}
use stv_renew.Errors.{TaskError, err, look_up}
use stv_renew.Task.{running, transition_to}
use stv_renew.Task.Transition.{transition_to-Allowed}
use stv_renew.Pipeline.{StageContext, Dispatch, get_text}
use stv_renew.Simple.{
  Entry, Scheduler, find_entry, set_entry, store, notify, start_best, pick_best, tick_begin, ids,
  collect_inputs,
}
use stv_renew.Simple.Entries.{Distinct, find_entry-set_entry_same}
use stv_renew.Simple.Changes.{Changes-Distinct, pick_best-found}
use stv_renew.Simple.Changes.Calls.{promote_all-Changes}
use stv_renew.Stages.{StageKind, execute_stage}
use stv_renew.Stages.Run.{Client, StageRun, returned}
use stv_renew.Stages.Finished.{needed, Finished, no_input, no_answer, bad_status, bad_body, success}
use stv_renew.Stages.Outcomes.{execute_stage-Finished}

-- The run sent nothing, reported nothing, and returned an error that is not to be retried.
abbrev pub Starved : StageRun → Type 0
Starved run =
    (run.events ≡ []) × ((e : TaskError) × (run.ending ≡ returned (err e)) × (e.retryable ≡ false))

Finished-Starved :
    {kind : StageKind} {client : Client} {ctx : StageContext} {input : String} {run : StageRun}
    → input ≡ ""
    → Finished kind client ctx input run
    → Starved run
Finished-Starved h (no_input e _ events ending _ once) = (events, (e, ending, once))
Finished-Starved h (no_answer _ _ _ given _ _ _ _) = absurd (given h)
Finished-Starved h (bad_status _ _ _ _ given _ _ _ _ _ _) = absurd (given h)
Finished-Starved h (bad_body _ _ _ _ given _ _ _ _) = absurd (given h)
Finished-Starved h (success _ _ _ _ given _ _ _ _ _ _) = absurd (given h)

nothing_in : (ctx : StageContext) (key : String) → ctx.inputs ≡ [] → get_text ctx key "" ≡ ""
unfolding get_text look_up
nothing_in ctx key h = rw (h, get_text) refl

-- The context of a task without dependencies.
start_best-inputs :
    (s : Scheduler) (best : Option Entry) (now : ℕ) (d : Dispatch) (e : Entry)
    → Distinct s.entries
    → pick_best none s.entries ≡ best
    → (start_best s best now).1 ≡ some d
    → find_entry d.task_id (start_best s best now).0.entries ≡ some e
    → e.task.deps ≡ []
    → d.context.inputs ≡ []
unfolding start_best store notify collect_inputs
start_best-inputs s none now d e distinct picked h found deps = cc
start_best-inputs s (some b) now d e distinct picked h found deps =
    elim (pick_best-found none s.entries b distinct picked) [
      | inl x ↦ cc
      | inr (there, is_ready) ↦
          let x : Entry = record b { task = (transition_to b.task running now).0 } in
          let a = transition_to-Allowed b.task running now in
          let here : find_entry b.task.task_id (set_entry x s.entries) ≡ some x =
            find_entry-set_entry_same b.task.task_id x b s.entries a.3 there in
          let name : d.task_id ≡ b.task.task_id =
            ap (λ (y : Dispatch). y.task_id) (some_inj (sym h)) in
          let same : x ≡ e =
            some_inj
              (sym here ∙ ap (λ i. find_entry i (set_entry x s.entries)) (sym name) ∙ found) in
          ap (λ (y : Dispatch). y.context.inputs) (some_inj (sym h))
          ∙ ap (λ ds. collect_inputs (set_entry x s.entries) ds [])
              (sym a.4 ∙ ap (λ (y : Entry). y.task.deps) same ∙ deps)
    ]

-- Under the simple scheduler a task without dependencies, such as the storyboard task of every
-- workflow, gets no inputs: each of the four stages then ends with an error before it sends anything.
pub tick_begin-Starved :
    (s : Scheduler) (now : ℕ) (d : Dispatch) (e : Entry) (kind : StageKind) (client : Client)
    (base : String) (clock counter : ℕ)
    → Distinct s.entries
    → (tick_begin s now).1 ≡ some d
    → find_entry d.task_id (tick_begin s now).0.entries ≡ some e
    → e.task.deps ≡ []
    → Starved (execute_stage kind client base clock counter d.context)
unfolding tick_begin
tick_begin-Starved s now d e kind client base clock counter distinct h found deps =
    let after = Changes-Distinct (promote_all-Changes now s (ids s.entries)) distinct in
    Finished-Starved
      (nothing_in d.context (needed kind) (start_best-inputs _ _ now d e after refl h found deps))
      (execute_stage-Finished kind client base clock counter d.context)
