-- ===== src/Workflow/Stopping.antt =====
-- `cancel_workflow` over any scheduler that keeps the laws of `IsLawful`, and `SimpleScheduler` as one.
use stv_renew.Task.Lifecycle.{to_canceled-terminal}
use stv_renew.Simple.Changes.Calls.{move-entries}
use mathlib.Core.Path.{subst}
use stv_renew.Prelude.{
  ◌≡◌, refl, sym, ◌∙◌, ap, ◌⊎◌, inl, inr, ℕ, true, String, List, [], ◌∷◌, none, some, arith,
  contains, str_eq-cases, if◌then◌else◌, ◌==◌, str_eq_refl, Option-cases, some_inj,
}
use stv_renew.Errors.{ok}
use stv_renew.Task.{canceled, is_terminal, transition_to}
use stv_renew.Task.Transition.{transition_to-Allowed}
use stv_renew.Cancel.{allocate}
use stv_renew.Notify.{StateEvent, Effect, notified, token_callback}
use stv_renew.Simple
use stv_renew.Simple.{Entry, Scheduler, find_entry, set_entry, request_token}
use stv_renew.Simple.Entries.{find_entry-id, find_entry-set_entry_same, find_entry-set_entry_other}
use stv_renew.Workflow.{
  Api, Engine, WorkflowState, find_workflow, handle_all, handle_state_change, cancel_all,
  cancel_workflow,
}

-- The events among new effects that go to the engine, whose callback has number `cb`.
abbrev events_for : ℕ → List Effect → List StateEvent
events_for cb [] = []
events_for cb (token_callback n ∷ fx) = events_for cb fx
events_for cb (notified k ev ∷ fx) =
    let rest = events_for cb fx in if k == cb then ev ∷ rest else rest

abbrev drop_length {ℓ} : {A B : Type ℓ} → List A → List B → List B
drop_length [] ys = ys
drop_length (_ ∷ xs) [] = []
drop_length (_ ∷ xs) (_ ∷ ys) = drop_length xs ys

-- `SimpleScheduler` as the engine sees it.
abbrev pub simple_api : ℕ → Api
simple_api cb = record {
  State = Scheduler;
  submit = λ s t stage now.
      let (s', r) = Simple.submit s t stage now in
      (s', (events_for cb (drop_length s.effects s'.effects), r));
  cancel = λ s id now.
      let (s', r) = Simple.cancel s id now in
      (s', (events_for cb (drop_length s.effects s'.effects), r));
  create_token =
      λ s. let (tokens, address) = allocate s.tokens in (record s { tokens = tokens }, address);
}

-- What `cancel` promises to the engine.
pub record IsLawful (api : Api) : Type 1 where
  pub Known : api.State → String → Type 0
  pub Stopped : api.State → String → Type 0
  pub cancel-Stopped :
      (s : api.State) (id : String) (now : ℕ) → Known s id → Stopped (api.cancel s id now).0 id
  pub cancel-keeps :
      (s : api.State) (id x : String) (now : ℕ) → Stopped s x → Stopped (api.cancel s id now).0 x
  pub cancel-Known :
      (s : api.State) (id x : String) (now : ℕ) → Known s x → Known (api.cancel s id now).0 x

module _ (api : Api) (lawful : IsLawful api) (draws : ℕ → ℕ) (now : ℕ) where
  handle_all-scheduler :
      (e : Engine api.State) (evs : List StateEvent) → (handle_all e evs).scheduler ≡ e.scheduler
  unfolding handle_all handle_state_change
  handle_all-scheduler e [] = refl
  handle_all-scheduler e (ev ∷ evs) = handle_all-scheduler (handle_state_change e ev) evs

  -- The engine after one call of `cancel` in the loop.
  abbrev canceled_one : Engine api.State → String → Engine api.State
  canceled_one e id =
      let (s, (evs, r)) = api.cancel e.scheduler id now in
      handle_all (record e { scheduler = s }) evs

  canceled_one-scheduler :
      (e : Engine api.State) (id : String)
      → (canceled_one e id).scheduler ≡ (api.cancel e.scheduler id now).0
  canceled_one-scheduler e id = handle_all-scheduler _ _

  cancel_all-keeps :
      (ids : List String) (e : Engine api.State) (x : String)
      → lawful.Stopped e.scheduler x
      → lawful.Stopped (cancel_all api draws e ids now).scheduler x
  unfolding cancel_all
  cancel_all-keeps [] e x h = h
  cancel_all-keeps (id ∷ ids) e x h = cancel_all-keeps ids (canceled_one e id) x (
      subst (λ s. lawful.Stopped s x) (sym (canceled_one-scheduler e id))
        (lawful.cancel-keeps e.scheduler id x now h))

  cancel_all-Stopped :
      (ids : List String) (e : Engine api.State)
      → ((x : String) → contains ids x ≡ true → lawful.Known e.scheduler x)
      → (x : String) → contains ids x ≡ true
      → lawful.Stopped (cancel_all api draws e ids now).scheduler x
  unfolding cancel_all
  cancel_all-Stopped [] e known x k = cc
  cancel_all-Stopped (id ∷ ids) e known x k = elim (str_eq-cases id x) [
    | inl (_, same) ↦ cancel_all-keeps ids (canceled_one e id) x (
        subst (λ s. lawful.Stopped s x) (sym (canceled_one-scheduler e id))
          (subst (λ y. lawful.Stopped (api.cancel e.scheduler id now).0 y) same
            (lawful.cancel-Stopped e.scheduler id now (known id (ground (arith, str_eq_refl id))))))
    | inr (other, _) ↦
        cancel_all-Stopped ids (canceled_one e id)
          (λ y j.
            subst (λ s. lawful.Known s y) (sym (canceled_one-scheduler e id))
              (lawful.cancel-Known e.scheduler id y now (known y (ground arith))))
          x (ground arith)
  ]

-- After `cancel_workflow` of an active workflow whose tasks the scheduler knows, every task of the
-- workflow has stopped, over every scheduler whose `cancel` keeps the laws; the call succeeds.
pub cancel_workflow-Stopped :
    (api : Api) (lawful : IsLawful api) (draws : ℕ → ℕ) (e : Engine api.State) (trace : String)
    (now : ℕ) (wf : WorkflowState)
    → find_workflow trace e.active ≡ some wf
    → ((x : String) → contains wf.task_ids x ≡ true → lawful.Known e.scheduler x)
    → let (e', r) = cancel_workflow api draws e trace now in
      (r ≡ ok tt) × ((x : String) → contains wf.task_ids x ≡ true → lawful.Stopped e'.scheduler x)
unfolding cancel_workflow
cancel_workflow-Stopped api lawful draws e trace now wf h known =
    rw (h, cancel_workflow) (refl, cancel_all-Stopped api lawful draws now wf.task_ids e known)

-- `SimpleScheduler` keeps the laws: a task is known when it is in the list, and stopped when it is
-- there and in a terminal state.
abbrev pub EntryKnown : Scheduler → String → Type 0
EntryKnown s x = (y : Entry) × (find_entry x s.entries ≡ some y)

abbrev pub EntryStopped : Scheduler → String → Type 0
EntryStopped s x =
    (y : Entry) × (find_entry x s.entries ≡ some y) × (is_terminal y.task.state ≡ true)

abbrev pub canceled_entry : Entry → ℕ → Entry
canceled_entry e now = record e { task = (transition_to e.task canceled now).0 }

cancel-entries :
    (s : Scheduler) (id : String) (e : Entry) (now : ℕ)
    → find_entry id s.entries ≡ some e
    → (Simple.cancel s id now).0.entries ≡ set_entry (canceled_entry e now) s.entries
unfolding Simple.cancel request_token
cancel-entries s id e now h =
    rw (h, Simple.cancel) (move-entries (request_token s e.task.cancel_token) e canceled now)

cancel-unknown :
    (s : Scheduler) (id : String) (now : ℕ)
    → find_entry id s.entries ≡ none
    → (Simple.cancel s id now).0.entries ≡ s.entries
unfolding Simple.cancel
cancel-unknown s id now h = rw (h, Simple.cancel) refl

-- What `cancel` makes of an entry that is in the list.
pub cancel-entry :
    (s : Scheduler) (id x : String) (y : Entry) (now : ℕ)
    → find_entry x s.entries ≡ some y
    → (find_entry x (Simple.cancel s id now).0.entries ≡ some y)
      ⊎ (find_entry x (Simple.cancel s id now).0.entries ≡ some (canceled_entry y now))
cancel-entry s id x y now h = elim (Option-cases (find_entry id s.entries)) [
  | inl k ↦ inl (ap (find_entry x) (cancel-unknown s id now k) ∙ h)
  | inr (e, k) ↦
      let name : (canceled_entry e now).task.task_id ≡ id =
        (transition_to-Allowed e.task canceled now).3 ∙ find_entry-id id s.entries e k in
      let after = ap (find_entry x) (cancel-entries s id e now k) in
      elim (str_eq-cases id x) [
        | inl (_, same) ↦
            let one : e ≡ y = some_inj (sym k ∙ ap (λ i. find_entry i s.entries) same ∙ h) in
            inr (
              after
              ∙ find_entry-set_entry_same x (canceled_entry e now) y s.entries (name ∙ same) h
              ∙ ap (λ z. some (canceled_entry z now)) one)
        | inr (_, other) ↦ inl (
            after
            ∙ find_entry-set_entry_other x (canceled_entry e now) s.entries
                (λ p. other (sym name ∙ p))
            ∙ h)
      ]
]

-- `cancel` on a known id leaves it in a terminal state.
pub cancel_known :
    (s : Scheduler) (id : String) (now : ℕ)
    → EntryKnown s id
    → EntryStopped (Simple.cancel s id now).0 id
cancel_known s id now (y, h) = (
  canceled_entry y now,
  ap (find_entry id) (cancel-entries s id y now h)
      ∙ find_entry-set_entry_same id (canceled_entry y now) y s.entries
          ((transition_to-Allowed y.task canceled now).3 ∙ find_entry-id id s.entries y h) h,
  to_canceled-terminal y.task y.task.state now refl,
)

unfoldable pub simple_laws : (cb : ℕ) → IsLawful (simple_api cb)
simple_laws cb = record {
  Known = EntryKnown;
  Stopped = EntryStopped;
  cancel-Stopped = cancel_known;
  cancel-keeps = λ s id x now (y, h, t). elim (cancel-entry s id x y now h) [
    | inl k ↦ (y, k, t)
    | inr k ↦ (canceled_entry y now, k, to_canceled-terminal y.task y.task.state now refl)
  ];
  cancel-Known = λ s id x now (y, h). elim (cancel-entry s id x y now h) [
    | inl k ↦ (y, k)
    | inr k ↦ (canceled_entry y now, k)
  ];
}
