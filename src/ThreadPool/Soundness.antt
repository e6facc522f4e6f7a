-- ===== src/ThreadPool/Soundness.antt =====
-- Which tasks have begun, in every history.
mod Writes
use mathlib.Core.Path.{subst}
use stv_renew.Prelude.{
  ◌≡◌, ◌≢◌, ◌∙◌, refl, sym, ap, inl, inr, ◌+◌, ◌≤◌, true, false, String, List, [], ◌∷◌, ◌++◌, some,
  str_eq_refl, arith, All, none, Option,
}
use stv_renew.Prelude.Int.{ℤ}
use stv_renew.Task.{TaskDescriptor, ready, running, succeeded, state_eq}
use stv_renew.Task.Active.{waiting, begun}
use stv_renew.ThreadPool.Config.{SchedulerConfig}
use stv_renew.ThreadPool.State.{Node, Successors, find_node, set_node, successors_of, create_pool}
use stv_renew.ThreadPool.Nodes.{node_found_pushed, find_node-set_node_same, unpushed}
use stv_renew.ThreadPool.Steps.{Op, run}
use stv_renew.ThreadPool.Changes.{
  Books, books, occurrences, met, unmet, has_succeeded, Change, quiet, succeed, skip, push, stale,
  start, release, Changes, done, then_change, Wired, Woken,
}
use stv_renew.ThreadPool.Changes.Steps.{run-Changes, AllAccepted}
use stv_renew.ThreadPool.Soundness.Writes.{
  Sound, SoundBooks, unmet-Grows, unmet-met, unmet-All, Grows-set_node, Grows-append, write-Sound,
  quiet-Sound, kinds, succeeded_kept, not_succeeded, clash,
}

not_met : (t : TaskDescriptor) → t.state ≢ succeeded → state_eq t.state succeeded ≡ false
unfolding state_eq
not_met t h = ground arith

is_met : (t : TaskDescriptor) → t.state ≡ succeeded → state_eq t.state succeeded ≡ true
unfolding state_eq
is_met t h = ground arith

-- The task's dependents are now to be woken, once for each edge.
succeed-Sound :
    (b : Books) (n n' : Node)
    → find_node n'.task.task_id b.nodes ≡ some n
    → n'.task.deps ≡ n.task.deps
    → n.task.state ≢ succeeded
    → n'.task.state ≡ succeeded
    → (begun n'.task ≡ true → begun n.task ≡ true)
    → SoundBooks b
    → Sound (set_node n' b.nodes) b.successors (successors_of n'.task.task_id b.successors)
succeed-Sound b n n' found deps was is begins i =
    let kept : state_eq n.task.state succeeded ≡ true → state_eq n'.task.state succeeded ≡ true =
      λ _. is_met n'.task is in
    let g = Grows-set_node n n' b.nodes found kept in
    let before = ap has_succeeded found ∙ not_met n.task was in
    let after =
      ap has_succeeded (find_node-set_node_same n'.task.task_id n' n b.nodes refl found)
      ∙ is_met n'.task is in
    write-Sound b.nodes b.successors b.pending _ n n' found deps kept
      (λ y m k w. omega (
        arith,
        i.counted y m k w,
        i.edged n'.task.task_id y m k,
        unmet-met b.nodes (set_node n' b.nodes) n'.task.task_id m.task.deps g before after,
      ))
      (λ w. clash (sym w ∙ (kinds n'.task).1.1.1 is))
      (λ w. i.met_all n'.task.task_id n found (begins w)) i

wake-Sound :
    (b : Books) (n n' : Node) (rest : List String)
    → find_node n'.task.task_id b.nodes ≡ some n
    → b.pending ≡ n'.task.task_id ∷ rest
    → Woken n n'
    → SoundBooks b
    → Sound (set_node n' b.nodes) b.successors rest
wake-Sound b n n' rest found first w i =
    let kept : state_eq n.task.state succeeded ≡ true → state_eq n'.task.state succeeded ≡ true =
      λ e. clash (sym e ∙ not_succeeded n.task (inl w.was_queued)) in
    let g = Grows-set_node n n' b.nodes found kept in
    let less : (y : String) → occurrences y rest ≤ occurrences y b.pending =
      λ y. rw first (omega arith) in
    let mine : occurrences n'.task.task_id b.pending ≡ 1 + occurrences n'.task.task_id rest =
      rw (first, str_eq_refl n'.task.task_id) refl in
    let old = i.counted n'.task.task_id n found ((kinds n.task).0 w.was_queued).0 in
    write-Sound b.nodes b.successors b.pending rest n n' found w.same_deps kept
      (λ y m k e.
        omega (
          arith,
          i.counted y m k e,
          less y,
          unmet-Grows b.nodes (set_node n' b.nodes) m.task.deps g,
        ))
      (λ e.
        omega
          (arith, old, mine, w.counted, unmet-Grows b.nodes (set_node n' b.nodes) n.task.deps g))
      (λ e. elim w.becomes [
        | inl q ↦ clash (sym e ∙ ((kinds n'.task).0 q).1)
        | inr (_, none_left) ↦ omega (arith, old, mine, w.counted, none_left)
      ])
      i

none_some : {A : Type 0} {x : Node} → Path (Option Node) none (some x) → A
none_some e = absurd (go e)
  where
    go : {x : Node} → Path (Option Node) none (some x) → ⊥
    go e = cc

push-Sound :
    (b : Books) (n : Node) (succ : Successors)
    → find_node n.task.task_id b.nodes ≡ none
    → b.pending ≡ []
    → Wired b n succ
    → SoundBooks b
    → Sound (b.nodes ++ n ∷ []) succ b.pending
push-Sound b n succ fresh first w i =
    let g = Grows-append n b.nodes in
    let ns' = b.nodes ++ n ∷ [] in
    let quiet_now : (y : String) → occurrences y b.pending ≡ 0 = λ y. rw first refl in
    record {
      edged = λ d y m k. elim (node_found_pushed y b.nodes n m k) [
        | inl (same, is) ↦
            subst (λ z. occurrences z (successors_of d succ) ≤ occurrences d m.task.deps) same
              (subst
                (λ (x : Node).
                  occurrences n.task.task_id (successors_of d succ) ≤ occurrences d x.task.deps)
                (sym is) (omega (arith, w.own d, i.unnamed d n.task.task_id fresh)))
        | inr k' ↦ omega (
          arith,
          i.edged d y m k',
          w.others d y
              (λ same. none_some (sym fresh ∙ ap (λ z. find_node z b.nodes) (sym same) ∙ k')),
        )
      ];
      unnamed = λ d y gone.
          let (gone', other) = unpushed y b.nodes n gone in
          w.others d y (λ same. other (sym same)) ∙ i.unnamed d y gone';
      counted = λ y m k. elim (node_found_pushed y b.nodes n m k) [
        | inl (same, is) ↦
            subst
              (λ (x : Node).
                waiting x.task ≡ true
                → unmet ns' x.task.deps + occurrences y b.pending ≤ x.unmet_deps)
              (sym is)
              (λ e. omega (arith, quiet_now y, w.counted e, unmet-Grows b.nodes ns' n.task.deps g))
        | inr k' ↦ λ e. omega (arith, i.counted y m k' e, unmet-Grows b.nodes ns' m.task.deps g)
      ];
      met_all = λ y m k. elim (node_found_pushed y b.nodes n m k) [
        | inl (same, is) ↦
            subst (λ (x : Node). begun x.task ≡ true → unmet ns' x.task.deps ≡ 0) (sym is)
              (λ e. omega (arith, w.ready e, unmet-Grows b.nodes ns' n.task.deps g))
        | inr k' ↦ λ e. omega (arith, i.met_all y m k' e, unmet-Grows b.nodes ns' m.task.deps g)
      ];
    }

Change-Sound : {b c : Books} → Change true b c → SoundBooks b → SoundBooks c
Change-Sound {b} (quiet n n' found mark count m) i =
    quiet-Sound b.nodes b.successors b.pending n n' found m.same_deps (inl count)
      (succeeded_kept n.task n'.task m.final) m.waits_back m.begun_back i
Change-Sound {b} (succeed n n' found mark count m was is first) i =
    succeed-Sound b n n' found m.same_deps was is m.begun_back i
Change-Sound {b} (Change.wake n n' rest found first w) i = wake-Sound b n n' rest found first w i
Change-Sound {b} (skip id rest first) i = record {
  edged = i.edged;
  unnamed = i.unnamed;
  counted = λ y m k e.
      let less : occurrences y rest ≤ occurrences y b.pending = rw first (omega arith) in
      omega (arith, less, i.counted y m k e);
  met_all = i.met_all;
}
Change-Sound {b} (push n succ fresh idle normal first wires) i =
    push-Sound b n succ fresh first (wires refl) i
Change-Sound {b} (stale succ loose) i = clash loose
Change-Sound {b} (start n n' found was is mark demand deps fits) i =
    let (waits, begins) = (kinds n'.task).1.1.0 is in
    quiet-Sound b.nodes b.successors b.pending n n' found deps (inr waits)
      (λ e. clash (sym e ∙ not_succeeded n.task (inr was))) (λ e. clash (sym e ∙ waits))
      (λ _. ((kinds n.task).1.0 was).1) i
Change-Sound {b} (release n found mark) i =
    quiet-Sound b.nodes b.successors b.pending n (record n { running = false }) found refl
      (inl refl) (λ e. e) (λ e. e) (λ e. e) i

Changes-Sound : {b c : Books} → Changes true b c → SoundBooks b → SoundBooks c
Changes-Sound done i = i
Changes-Sound (then_change a b) i = Change-Sound b (Changes-Sound a i)

create_pool-Sound : (hw : ℤ) (c : SchedulerConfig) → SoundBooks (books (create_pool hw c))
unfolding create_pool find_node successors_of
create_pool-Sound hw c = record {
  edged = λ d y n k. none_some k;
  unnamed = λ d y k. refl;
  counted = λ y n k. none_some k;
  met_all = λ y n k. none_some k;
}

-- In every history whose submissions are of queued tasks and are accepted, however the workers'
-- sections interleave with the calls: a task that is neither canceled, nor queued, nor paused from
-- queued (one that is ready, runs, is paused from there, failed or succeeded) has only dependencies
-- that the table has as succeeded.
pub run-Sound :
    (hw : ℤ) (c : SchedulerConfig) (ops : List Op) (id : String) (n : Node)
    → AllAccepted (create_pool hw c) ops
    → find_node id (run (create_pool hw c) ops).nodes ≡ some n
    → begun n.task ≡ true
    → All (λ d. met (run (create_pool hw c) ops).nodes d ≡ true) n.task.deps
run-Sound hw c ops id n accepted found started =
    let i =
      Changes-Sound (run-Changes (create_pool hw c) ops (λ _. accepted)) (create_pool-Sound hw c) in
    unmet-All _ n.task.deps (i.met_all id n found started)
