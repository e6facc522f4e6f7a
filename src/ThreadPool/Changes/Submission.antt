-- ===== src/ThreadPool/Changes/Submission.antt =====
-- `submit` as a change.
use stv_renew.Notify.{event}
use stv_renew.Cancel.{allocate}
use stv_renew.ThreadPool.Graph.{creates_cycle}
use mathlib.Core.Path.{subst}
use stv_renew.Prelude.{
  ◌≡◌, ◌∙◌, refl, sym, inl, inr, ℕ, zero, suc, ◌≤◌, Bool, true, false, Option, none, some,
  Bool-cases, if◌then◌else◌, arith, [], ◌∷◌, concat,
}
use stv_renew.Prelude.Int.{max_ℤ}
use stv_renew.Errors.{TaskError, Status, ok, err, is_ok, internal_error}
use stv_renew.Task.{TaskState, queued, ready, canceled, state_eq, transition_to, TaskDescriptor}
use stv_renew.Task.Transition.{transition_to-Allowed}
use stv_renew.Task.Active.{waiting, begun}
use stv_renew.ThreadPool.State.{Node, Pool, find_node, dispatch_events, insert}
use stv_renew.ThreadPool.Submission.{
  submit, check_request, admit, place, normalized, normalize_demand, Linked, refused, linked,
  add_node, new_node, link_deps,
}
use stv_renew.ThreadPool.Changes.{books, IsNormal, Changes, done, push, stale, one, Wired, unmet}
use stv_renew.ThreadPool.Changes.Links.{Links, edges, link_deps-Links}

normalized-IsNormal : (t : TaskDescriptor) → IsNormal (normalized t).resource_demand
unfolding normalized normalize_demand max_ℤ
normalized-IsNormal t = ground arith

-- What a node needs to be pushed.
abbrev IsFresh : Pool → TaskDescriptor → Type 0
IsFresh p t = (find_node t.task_id p.nodes ≡ none) × IsNormal t.resource_demand

transition_to-IsFresh :
    (p : Pool) (t : TaskDescriptor) (new : TaskState) (now : ℕ)
    → IsFresh p t
    → IsFresh p (transition_to t new now).0
transition_to-IsFresh p t new now (unused, normal) =
    let f = transition_to-Allowed t new now in
    (subst (λ i. find_node i p.nodes ≡ none) (sym f.3) unused, subst IsNormal (sym f.6) normal)

check_request-unused :
    (p : Pool) (t : TaskDescriptor)
    → check_request p t true ≡ ok tt
    → find_node t.task_id p.nodes ≡ none
unfolding check_request
check_request-unused p t h = ground arith

wired :
    (p : Pool) (u : TaskDescriptor) (n : Node) (l : Linked)
    → n.task.task_id ≡ u.task_id
    → n.task.deps ≡ u.deps
    → Links p.nodes u.task_id u.deps 0 p.successors l
    → (waiting n.task ≡ true → unmet p.nodes u.deps ≤ n.unmet_deps)
    → (begun n.task ≡ true → unmet p.nodes u.deps ≡ 0)
    → Wired (books p) n (edges l)
wired p u n l same deps f c r = record {
  own = λ d. rw (same, deps) (f.own d);
  others = λ d y other. f.others d y (rw⁻¹ same other);
  counted = λ e. rw deps (c e);
  ready = λ e. rw deps (r e);
}

apart : {A : Type 0} → true ≡ false → A
apart e = absurd (go e)
  where
    go : true ≡ false → ⊥
    go e = cc

-- A queued task is not begun; canceled, it neither waits nor is begun; made ready, it does not wait.
queued_kind : (t : TaskDescriptor) → t.state ≡ queued → begun t ≡ false
unfolding state_eq
queued_kind t h = ground arith

canceled_kind :
    (t : TaskDescriptor) (now : ℕ)
    → t.state ≡ queued
    → (waiting (transition_to t canceled now).0 ≡ false)
      × (begun (transition_to t canceled now).0 ≡ false)
unfolding state_eq transition_to
canceled_kind t now h = (ground arith, ground arith)

ready_accepted :
    (t : TaskDescriptor) (now : ℕ) → t.state ≡ queued → is_ok (transition_to t ready now).1 ≡ true
unfolding transition_to
ready_accepted t now h = ground arith

-- In a strict history the task is queued and accepted.
abbrev pub Accepts : Bool → TaskDescriptor → Status → Type 0
Accepts s t r = s ≡ true → (t.state ≡ queued) × (is_ok r ≡ true)

module _ {s : Bool} where
  not_strict : (s ≡ true → ⊥) → s ≡ false
  not_strict h = elim (Bool-cases s) [ inl e ↦ absurd (h e) | inr e ↦ e ]

  place-Changes :
      (p : Pool) (t : TaskDescriptor) (stage now : ℕ) (l : Linked)
      → IsFresh p t
      → Links p.nodes t.task_id t.deps 0 p.successors l
      → Accepts s t (place p t stage now l).1
      → Changes s (books p) (books (place p t stage now l).0)
  unfolding place dispatch_events
  place-Changes p t stage now (refused e succ) fresh f h =
      one (stale succ (not_strict (λ k. apart (sym (h k).1))))
  place-Changes p t stage now (linked k (some d) succ) fresh f h =
      let u = record t { error = some _ } in
      let g = transition_to-IsFresh p u canceled now fresh in
      let a = transition_to-Allowed u canceled now in
      one (
        push _ _ g.0 refl g.1 refl (λ e.
          let kind = canceled_kind u now (h e).0 in
          wired p t _ (linked k (some d) succ) a.3 a.4 f (λ w. apart (sym w ∙ kind.0))
            (λ w. apart (sym w ∙ kind.1))))
  place-Changes p t stage now (linked (suc k) none succ) fresh f h = one (
      push _ _ fresh.0 refl fresh.1 refl (λ e.
        wired p t _ (linked (suc k) none succ) refl refl f (λ _. omega (arith, f.counted refl))
          (λ w. apart (sym w ∙ queued_kind t (h e).0))))
  place-Changes p t stage now (linked zero none succ) fresh f h =
      by_result (is_ok (transition_to t ready now).1) refl h
    where
      made : Bool → Pool × Status
      made b =
          let (t', r) = transition_to t ready now in
          if b
          then (
            add_node (record p { successors = succ; ready_set = insert t.task_id p.ready_set })
                (new_node t' stage 0 now) (event t'.task_id ready t'.progress ∷ []),
            ok tt,
          )
          else (record p { successors = succ }, r)

      by_result :
          (b : Bool)
          → is_ok (transition_to t ready now).1 ≡ b
          → Accepts s t (made b).1
          → Changes s (books p) (books (made b).0)
      by_result true e h =
          let g = transition_to-IsFresh p t ready now fresh in
          let a = transition_to-Allowed t ready now in
          one (
            push _ _ g.0 refl g.1 refl (λ _.
              wired p t _ (linked zero none succ) a.3 a.4 f (λ _. omega (arith, f.counted refl))
                (λ _. omega (arith, f.counted refl))))
      by_result false e h =
          one (stale succ (not_strict (λ k. apart (sym (ready_accepted t now (h k).0) ∙ e))))

  admit-Changes :
      (p : Pool) (t : TaskDescriptor) (stage now : ℕ)
      → IsFresh p t
      → Accepts s t (admit p t stage now).1
      → Changes s (books p) (books (admit p t stage now).0)
  unfolding admit
  admit-Changes p t stage now fresh h = by_token t.cancel_token h
    where
      placed :
          (q : Pool) (u : TaskDescriptor) (cyclic : Bool) (x : TaskError) (l : Linked)
          → IsFresh q u
          → Links q.nodes u.task_id u.deps 0 q.successors l
          → Accepts s u
              (if◌then◌else◌ {A = Pool × Status} cyclic (q, err x) (place q u stage now l)).1
          → Changes s (books q) (
              books (if◌then◌else◌ {A = Pool × Status} cyclic (q, err x) (place q u stage now l)).0)
      placed q u true x l f g k = done
      placed q u false x l f g k = place-Changes q u stage now l f g k

      given : Option ℕ → Pool × TaskDescriptor
      given none =
          let (tokens, a) = allocate p.tokens in
          (record p { tokens = tokens }, record t { cancel_token = some a })
      given (some a) = (p, t)

      checked : Pool × TaskDescriptor → Pool × Status
      checked (q, u) =
          if creates_cycle q.successors u.task_id u.deps
          then (
            q,
            err (internal_error (concat ("Dependency cycle detected for task: " ∷ u.task_id ∷ []))),
          )
          else place q u stage now (link_deps q.nodes u.task_id u.deps 0 q.successors)

      by_token :
          (o : Option ℕ)
          → Accepts s t (checked (given o)).1
          → Changes s (books p) (books (checked (given o)).0)
      by_token none k = placed _ _ _ _ _ fresh (link_deps-Links _ _ _ _ _) k
      by_token (some a) k = placed _ _ _ _ _ fresh (link_deps-Links _ _ _ _ _) k

  pub submit-Changes :
      (p : Pool) (t : TaskDescriptor) (stage : Option ℕ) (now : ℕ)
      → Accepts s t (submit p t stage now).1
      → Changes s (books p) (books (submit p t stage now).0)
  unfolding submit normalized
  submit-Changes p t none now h = done
  submit-Changes p t (some stage) now h = submitted (check_request p (normalized t) true) refl h
    where
      answer : Status → Pool × Status
      answer (ok _) = admit p (normalized t) stage now
      answer (err e) = (p, err e)

      submitted :
          (r : Status)
          → check_request p (normalized t) true ≡ r
          → Accepts s t (answer r).1
          → Changes s (books p) (books (answer r).0)
      submitted (ok _) e k =
          admit-Changes p (normalized t) stage now
            (check_request-unused p (normalized t) e, normalized-IsNormal t) k
      submitted (err _) e k = done
