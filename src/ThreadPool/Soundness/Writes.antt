-- ===== src/ThreadPool/Soundness/Writes.antt =====
-- What the edges, the counts and the wake-ups hold together, and how the writes to the nodes keep it.
use mathlib.Core.Path.{subst}
use stv_renew.Prelude.{
  ◌≡◌, ◌∙◌, sym, ap, inl, inr, ◌+◌, ◌≤◌, true, false, String, List, [], ◌∷◌, ◌++◌, Option, none,
  some, Option-cases, Bool-cases, str_eq-cases, arith, All, ◌⊎◌,
}
use stv_renew.Task.{TaskState, TaskDescriptor, running, queued, succeeded, state_eq, is_terminal}
use stv_renew.Task.Active.{waiting, begun}
use stv_renew.ThreadPool.State.{Node, Successors, find_node, set_node, successors_of}
use stv_renew.ThreadPool.Nodes.{
  find_node-set_node_same, find_node-set_node_other, find_node-append, node_found_after,
}
use stv_renew.ThreadPool.Changes.{Books, occurrences, met, unmet, has_succeeded}

-- What has succeeded stays so.
abbrev pub Grows : List Node → List Node → Type 0
Grows ns ns' = (d : String) → met ns d ≡ true → met ns' d ≡ true

pub unmet-Grows :
    (ns ns' : List Node) (ds : List String) → Grows ns ns' → unmet ns' ds ≤ unmet ns ds
unmet-Grows ns ns' [] g = omega arith
unmet-Grows ns ns' (d ∷ ds) g = elim (Bool-cases (met ns d)) [
  | inl e ↦ rw (e, g d e) (omega (arith, unmet-Grows ns ns' ds g))
  | inr e ↦ rw e (ground (arith, unmet-Grows ns ns' ds g))
]

-- A dependency that succeeds is taken off as often as it is listed.
pub unmet-met :
    (ns ns' : List Node) (d : String) (ds : List String)
    → Grows ns ns'
    → met ns d ≡ false
    → met ns' d ≡ true
    → unmet ns' ds + occurrences d ds ≤ unmet ns ds
unmet-met ns ns' d [] g before after = omega arith
unmet-met ns ns' d (e ∷ es) g before after = elim (str_eq-cases e d) [
  | inl (h, same) ↦
      rw (h, ap (met ns) same ∙ before, ap (met ns') same ∙ after)
        (omega (arith, unmet-met ns ns' d es g before after))
  | inr (h, _) ↦ elim (Bool-cases (met ns e)) [
    | inl k ↦ rw (h, k, g e k) (omega (arith, unmet-met ns ns' d es g before after))
    | inr k ↦ rw (h, k) (ground (arith, unmet-met ns ns' d es g before after))
  ]
]

pub unmet-All :
    (ns : List Node) (ds : List String) → unmet ns ds ≡ 0 → All (λ d. met ns d ≡ true) ds
unmet-All ns [] h = tt
unmet-All ns (d ∷ ds) h = (ground arith, unmet-All ns ds (ground arith))

pub Grows-set_node :
    (n n' : Node) (ns : List Node)
    → find_node n'.task.task_id ns ≡ some n
    → (state_eq n.task.state succeeded ≡ true → state_eq n'.task.state succeeded ≡ true)
    → Grows ns (set_node n' ns)
Grows-set_node n n' ns found kept d h = elim (str_eq-cases n'.task.task_id d) [
  | inl (_, same) ↦
      ap has_succeeded
        (find_node-set_node_same d n' n ns same (ap (λ i. find_node i ns) (sym same) ∙ found))
      ∙ kept (sym (ap has_succeeded found) ∙ ap (met ns) same ∙ h)
  | inr (_, other) ↦ ap has_succeeded (find_node-set_node_other d n' ns other) ∙ h
]

pub Grows-append : (n : Node) (ns : List Node) → Grows ns (ns ++ n ∷ [])
Grows-append n ns d h = elim (Option-cases (find_node d ns)) [
  | inl e ↦ absurd (apart (sym (ap has_succeeded e) ∙ h))
  | inr (m, e) ↦ ap has_succeeded (find_node-append d ns n m e) ∙ sym (ap has_succeeded e) ∙ h
]
  where
    apart : false ≡ true → ⊥
    apart e = cc

-- Between two changes: no task has more edges from a dependency than it lists it, none has edges
-- without a node; a waiting task counts at least the dependencies that have not succeeded and its
-- wake-ups to come; a task that has begun has no dependency that has not succeeded.
pub record Sound (ns : List Node) (succ : Successors) (pending : List String) : Type 0 where
  pub edged :
      (d y : String) (n : Node)
      → find_node y ns ≡ some n
      → occurrences y (successors_of d succ) ≤ occurrences d n.task.deps
  pub unnamed : (d y : String) → find_node y ns ≡ none → occurrences y (successors_of d succ) ≡ 0
  pub counted :
      (y : String) (n : Node)
      → find_node y ns ≡ some n
      → waiting n.task ≡ true
      → unmet ns n.task.deps + occurrences y pending ≤ n.unmet_deps
  pub met_all :
      (y : String) (n : Node)
      → find_node y ns ≡ some n
      → begun n.task ≡ true
      → unmet ns n.task.deps ≡ 0

abbrev pub SoundBooks : Books → Type 0
SoundBooks b = Sound b.nodes b.successors b.pending

still_none :
    (y : String) (n n' : Node) (ns : List Node)
    → find_node n'.task.task_id ns ≡ some n
    → find_node y (set_node n' ns) ≡ none
    → find_node y ns ≡ none
still_none y n n' ns found gone = elim (str_eq-cases n'.task.task_id y) [
  | inl (_, same) ↦ absurd (
      apart (
        sym gone
        ∙ find_node-set_node_same y n' n ns same (ap (λ i. find_node i ns) (sym same) ∙ found)))
  | inr (_, other) ↦ sym (find_node-set_node_other y n' ns other) ∙ gone
]
  where
    apart : {x : Node} → Path (Option Node) none (some x) → ⊥
    apart e = cc

pub clash : {A : Type 0} → true ≡ false → A
clash e = absurd (go e)
  where
    go : true ≡ false → ⊥
    go e = cc

-- A write: what has to be shown of the tasks that are left alone, and of the one that is written.
pub write-Sound :
    (ns : List Node) (succ : Successors) (pending pending' : List String) (n n' : Node)
    → find_node n'.task.task_id ns ≡ some n
    → n'.task.deps ≡ n.task.deps
    → (state_eq n.task.state succeeded ≡ true → state_eq n'.task.state succeeded ≡ true)
    → ((y : String) (m : Node)
        → find_node y ns ≡ some m
        → waiting m.task ≡ true
        → unmet (set_node n' ns) m.task.deps + occurrences y pending' ≤ m.unmet_deps)
    → (waiting n'.task ≡ true
        → unmet (set_node n' ns) n.task.deps + occurrences n'.task.task_id pending' ≤ n'.unmet_deps)
    → (begun n'.task ≡ true → unmet ns n.task.deps ≡ 0)
    → Sound ns succ pending
    → Sound (set_node n' ns) succ pending'
write-Sound ns succ pending pending' n n' found deps kept others own begins i =
    let g = Grows-set_node n n' ns found kept in
    record {
      edged = λ d y m k. elim (node_found_after y n' m ns k) [
        | inl (same, is) ↦
            subst (λ (x : Node). occurrences y (successors_of d succ) ≤ occurrences d x.task.deps)
              (sym is) (rw deps (i.edged d y n (ap (λ i. find_node i ns) (sym same) ∙ found)))
        | inr k' ↦ i.edged d y m k'
      ];
      unnamed = λ d y gone. i.unnamed d y (still_none y n n' ns found gone);
      counted = λ y m k. elim (node_found_after y n' m ns k) [
        | inl (same, is) ↦
            subst
              (λ (x : Node).
                waiting x.task ≡ true
                → unmet (set_node n' ns) x.task.deps + occurrences y pending' ≤ x.unmet_deps)
              (sym is)
              (λ w.
                subst (λ ds. unmet (set_node n' ns) ds + occurrences y pending' ≤ n'.unmet_deps)
                  (sym deps)
                  (subst
                    (λ z.
                      unmet (set_node n' ns) n.task.deps + occurrences z pending' ≤ n'.unmet_deps)
                    same (own w)))
        | inr k' ↦ others y m k'
      ];
      met_all = λ y m k. elim (node_found_after y n' m ns k) [
        | inl (same, is) ↦
            subst (λ (x : Node). begun x.task ≡ true → unmet (set_node n' ns) x.task.deps ≡ 0)
              (sym is)
              (λ w.
                subst (λ ds. unmet (set_node n' ns) ds ≡ 0) (sym deps)
                  (omega (arith, begins w, unmet-Grows ns (set_node n' ns) n.task.deps g)))
        | inr k' ↦
            λ w. omega (arith, i.met_all y m k' w, unmet-Grows ns (set_node n' ns) m.task.deps g)
      ];
    }

-- A write after which the task waits for no more, and has begun only if it had.
pub quiet-Sound :
    (ns : List Node) (succ : Successors) (pending : List String) (n n' : Node)
    → find_node n'.task.task_id ns ≡ some n
    → n'.task.deps ≡ n.task.deps
    → n'.unmet_deps ≡ n.unmet_deps ⊎ (waiting n'.task ≡ false)
    → (state_eq n.task.state succeeded ≡ true → state_eq n'.task.state succeeded ≡ true)
    → (waiting n'.task ≡ true → waiting n.task ≡ true)
    → (begun n'.task ≡ true → begun n.task ≡ true)
    → Sound ns succ pending
    → Sound (set_node n' ns) succ pending
quiet-Sound ns succ pending n n' found deps count kept waits begins i =
    let g = Grows-set_node n n' ns found kept in
    write-Sound ns succ pending pending n n' found deps kept
      (λ y m k w. omega (arith, i.counted y m k w, unmet-Grows ns (set_node n' ns) m.task.deps g))
      (λ w. elim count [
        | inl e ↦ omega (
          arith,
          e,
          i.counted n'.task.task_id n found (waits w),
          unmet-Grows ns (set_node n' ns) n.task.deps g,
        )
        | inr e ↦ clash (sym w ∙ e)
      ])
      (λ w. i.met_all n'.task.task_id n found (begins w)) i

pub kinds :
    (t : TaskDescriptor)
    → (t.state ≡ queued → (waiting t ≡ true) × (begun t ≡ false))
      × ((t.state ≡ TaskState.ready → (waiting t ≡ false) × (begun t ≡ true))
          × ((t.state ≡ running → (waiting t ≡ false) × (begun t ≡ true))
              × (t.state ≡ succeeded → waiting t ≡ false)))
unfolding state_eq
kinds t = (
  (λ h. (ground arith, ground arith)),
  ((λ h. (ground arith, ground arith)), ((λ h. (ground arith, ground arith)), (λ h. ground arith))),
)

pub succeeded_kept :
    (t t' : TaskDescriptor)
    → (is_terminal t.state ≡ true → t'.state ≡ t.state)
    → state_eq t.state succeeded ≡ true
    → state_eq t'.state succeeded ≡ true
unfolding state_eq is_terminal
succeeded_kept t t' h e = ground arith

pub not_succeeded :
    (t : TaskDescriptor)
    → (t.state ≡ queued) ⊎ (t.state ≡ TaskState.ready)
    → state_eq t.state succeeded ≡ false
unfolding state_eq
not_succeeded t h = ground arith
