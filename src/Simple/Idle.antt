-- ===== src/Simple/Idle.antt =====
-- When `tick` starts nothing: no task was ready, and every promotion that was due has been made.
pub mod Promoting
use mathlib.Core.Path.{subst}
use stv_renew.Prelude.{
  ◌≡◌, refl, sym, ◌∙◌, ap, ◌≢◌, ◌⊎◌, inl, inr, ℕ, true, false, String, List, [], ◌∷◌, Option, none,
  some, arith, eq_iff, contains,
}
use stv_renew.Task.{queued, ready, state_eq}
use stv_renew.Simple.{
  Entry, Scheduler, find_entry, set_entry, deps_met, is_succeeded, pick_best, promote, promote_all,
  start_best, tick_begin, ids,
}
use stv_renew.Simple.Idle.Promoting.{
  is_due, promoted_entry, Promotion, missing, not_due, was_due, promote-Promotion, unmet_dep,
  promote_all-Settled,
}

ids-set_entry : (e : Entry) (es : List Entry) → ids (set_entry e es) ≡ ids es
unfolding set_entry
ids-set_entry e [] = refl
ids-set_entry e (x ∷ es) = ground (arith, ids-set_entry e es, eq_iff x.task.task_id e.task.task_id)

ids-promote :
    (now : ℕ) (s : Scheduler) (id : String) → ids (promote now s id).entries ≡ ids s.entries
ids-promote now s id = same_ids (promote-Promotion now s id)
  where
    same_ids : {ys : List Entry} → Promotion now id s.entries ys → ids ys ≡ ids s.entries
    same_ids (missing e same) = ap ids same
    same_ids (not_due e f c same) = ap ids same
    same_ids (was_due e f due same) = ap ids same ∙ ids-set_entry (promoted_entry now e) s.entries

ids-promote_all :
    (now : ℕ) (s : Scheduler) (l : List String) → ids (promote_all now s l).entries ≡ ids s.entries
unfolding promote_all
ids-promote_all now s [] = refl
ids-promote_all now s (j ∷ l) = ids-promote_all now (promote now s j) l ∙ ids-promote now s j

contains-ids :
    (id : String) (es : List Entry) (e : Entry)
    → find_entry id es ≡ some e
    → contains (ids es) id ≡ true
unfolding find_entry
contains-ids id [] e h = cc
contains-ids id (x ∷ es) e h = ground (arith, contains-ids id es e)

pick_best-some : (x : Entry) (es : List Entry) → pick_best (some x) es ≢ none
unfolding pick_best
pick_best-some x [] h = cc
pick_best-some x (e ∷ es) h = ground (arith, pick_best-some x es, pick_best-some e es)

-- Where nothing is picked nothing is ready.
pick_best-none :
    (es : List Entry) (id : String) (e : Entry)
    → pick_best none es ≡ none
    → find_entry id es ≡ some e
    → e.task.state ≢ ready
unfolding pick_best find_entry state_eq
pick_best-none [] id e h found r = cc
pick_best-none (x ∷ es) id e h found r = ground (arith, pick_best-none es id e, pick_best-some x es)

start_best-none :
    (s : Scheduler) (best : Option Entry) (now : ℕ)
    → (start_best s best now).1 ≡ none
    → ((start_best s best now).0 ≡ s) × (best ≡ none)
unfolding start_best
start_best-none s none now h = (refl, refl)
start_best-none s (some b) now h = cc

waits_of :
    (e : Entry) (es : List Entry)
    → is_due e es ≡ false
    → e.task.state ≡ queued
    → (e.task.deps ≡ []) ⊎ (deps_met es e.task.deps ≡ false)
unfolding state_eq
waits_of e es h q = ground arith

-- When `tick` starts nothing, no task in the list is ready, and each task that is still queued has no
-- dependency at all or one that has not succeeded.
pub tick_begin_idle :
    (s : Scheduler) (now : ℕ) (id : String) (e : Entry)
    → (tick_begin s now).1 ≡ none
    → find_entry id (tick_begin s now).0.entries ≡ some e
    → (e.task.state ≢ ready)
      × (e.task.state ≡ queued
          → (e.task.deps ≡ [])
            ⊎ ((d : String) × (contains e.task.deps d ≡ true)
                × (is_succeeded (find_entry d (tick_begin s now).0.entries) ≡ false)))
unfolding tick_begin
tick_begin_idle s now id e h found =
    let s' = promote_all now s (ids s.entries) in
    let (same, nothing) = start_best-none s' (pick_best none s'.entries) now h in
    let found' : find_entry id s'.entries ≡ some e =
      sym (ap (λ (x : Scheduler). find_entry id x.entries) same) ∙ found in
    let listed : contains (ids s.entries) id ≡ true =
      subst (λ l. contains l id ≡ true) (ids-promote_all now s (ids s.entries))
        (contains-ids id s'.entries e found') in
    (
      pick_best-none s'.entries id e nothing found',
      λ q.
          elim (waits_of e s'.entries (promote_all-Settled now s (ids s.entries) id listed e found')
            q) [
              | inl no_deps ↦ inl no_deps
              | inr unmet ↦
                  let (d, k, u) = unmet_dep s'.entries e.task.deps unmet in
                  inr (
                    d,
                    k,
                    sym (ap (λ (x : Scheduler). is_succeeded (find_entry d x.entries)) (sym same))
                        ∙ u,
                  )
            ],
    )
