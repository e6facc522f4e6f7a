-- ===== src/ThreadPool/Defects.antt =====
-- Where the thread pool's bookkeeping of dependencies goes wrong.
use mathlib.Core.Path.{subst}
use stv_renew.Prelude.{
  ◌≡◌, refl, sym, ◌∙◌, ap, ◌≢◌, inl, inr, ℕ, true, false, String, List, [], ◌∷◌, ◌++◌, none, some,
  arith, Option-cases, str_eq_refl, eq_iff, contains, concat,
}
use stv_renew.Errors.{TaskError, internal_error, ok, err, Status}
use stv_renew.Task.{TaskDescriptor, is_terminal}
use stv_renew.ThreadPool.State.{Node, Pool, Successors, find_node, add_successor, successors_of}
use stv_renew.ThreadPool.Graph.{creates_cycle}
use stv_renew.ThreadPool.Cycles.{here, edge, creates_cycle-Leads}
use stv_renew.ThreadPool.Submission.{
  refused, link_deps, check_request, admit, place, submit, normalized,
}

contains_last : (xs : List String) (x : String) → contains (xs ++ x ∷ []) x ≡ true
contains_last [] x = ground (arith, str_eq_refl x)
contains_last (y ∷ xs) x = ground (arith, contains_last xs x)

successors_of-add_successor :
    (d id : String) (succ : Successors)
    → contains (successors_of d (add_successor d id succ)) id ≡ true
unfolding successors_of add_successor
successors_of-add_successor d id [] = ground (arith, str_eq_refl d, str_eq_refl id)
successors_of-add_successor d id ((k, v) ∷ m) =
    ground (arith, contains_last v id, successors_of-add_successor d id m)

link_second_missing :
    (nodes : List Node) (id d m : String) (rest : List String) (n : Node) (succ : Successors)
    → d ≢ id
    → m ≢ id
    → find_node d nodes ≡ some n
    → is_terminal n.task.state ≡ false
    → find_node m nodes ≡ none
    → link_deps nodes id (d ∷ m ∷ rest) 0 succ
      ≡ refused
          (internal_error (concat ("Dependency not found: " ∷ m ∷ [])))
          (add_successor d id succ)
unfolding link_deps is_terminal
link_second_missing nodes id d m rest n succ d_other m_other found live missing =
    ground (arith, eq_iff d id, eq_iff m id)

admit_cycle :
    (p : Pool) (t : TaskDescriptor) (stage now : ℕ)
    → creates_cycle p.successors t.task_id t.deps ≡ true
    → (admit p t stage now).1
      ≡ err (internal_error (concat ("Dependency cycle detected for task: " ∷ t.task_id ∷ [])))
unfolding admit
admit_cycle p t stage now h = elim (Option-cases t.cancel_token) [
  | inl e ↦ rw (e, admit) (rw h)
  | inr (a, e) ↦ rw (e, admit) (rw h)
]

admit_links :
    (p : Pool) (t : TaskDescriptor) (stage now : ℕ) (e : TaskError) (succ : Successors)
    → creates_cycle p.successors t.task_id t.deps ≡ false
    → link_deps p.nodes t.task_id t.deps 0 p.successors ≡ refused e succ
    → let (p', r) = admit p t stage now in
      (r ≡ err e) × (p'.successors ≡ succ) × (p'.nodes ≡ p.nodes) × (p'.config ≡ p.config)
unfolding admit place
admit_links p t stage now e succ h k = elim (Option-cases t.cancel_token) [
  | inl n ↦ rw (n, admit) (rw h (rw k (refl, refl, refl, refl)))
  | inr (a, n) ↦ rw (n, admit) (rw h (rw k (refl, refl, refl, refl)))
]

submit_admits :
    (p : Pool) (t : TaskDescriptor) (stage now : ℕ)
    → check_request p (normalized t) true ≡ ok tt
    → submit p t (some stage) now ≡ admit p (normalized t) stage now
unfolding submit
submit_admits p t stage now h = rw (h, submit)

check_request-cong :
    (p q : Pool) (t u : TaskDescriptor)
    → q.nodes ≡ p.nodes
    → q.config ≡ p.config
    → u.task_id ≡ t.task_id
    → u.resource_demand ≡ t.resource_demand
    → check_request p t true ≡ ok tt
    → check_request q u true ≡ ok tt
unfolding check_request
check_request-cong p q t u a b c d h = ground arith

normalized_parts :
    (t : TaskDescriptor) → ((normalized t).task_id ≡ t.task_id) × ((normalized t).deps ≡ t.deps)
unfolding normalized
normalized_parts t = (refl, refl)

edge_is_cycle :
    (succ : Successors) (d id : String) (rest : List String)
    → creates_cycle (add_successor d id succ) id (d ∷ rest) ≡ true
edge_is_cycle succ d id rest = (creates_cycle-Leads (add_successor d id succ) id (d ∷ rest)).1 (
  d,
  ground (arith, str_eq_refl d),
  edge d id id (successors_of-add_successor d id succ) (here id),
)

normalized_same :
    (t : TaskDescriptor) (ds : List String)
    → ((normalized (record t { deps = ds })).task_id ≡ (normalized t).task_id)
      × ((normalized (record t { deps = ds })).resource_demand ≡ (normalized t).resource_demand)
unfolding normalized
normalized_same t ds = (refl, refl)

admit_refusal :
    (p : Pool) (t : TaskDescriptor) (stage now : ℕ) (e : TaskError) (succ : Successors)
    → creates_cycle p.successors t.task_id t.deps ≡ false
    → link_deps p.nodes t.task_id t.deps 0 p.successors ≡ refused e succ
    → let (p', r) = admit p (normalized t) stage now in
      (r ≡ err e) × (p'.successors ≡ succ) × (p'.nodes ≡ p.nodes) × (p'.config ≡ p.config)
unfolding normalized
admit_refusal p t stage now e succ h k = admit_links p (normalized t) stage now e succ h k

readmit_refused :
    (p : Pool) (t : TaskDescriptor) (stage now : ℕ) (succ : Successors) (d : String)
    (others : List String)
    → p.successors ≡ add_successor d t.task_id succ
    → (admit p (normalized (record t { deps = d ∷ others })) stage now).1
      ≡ err (internal_error (concat ("Dependency cycle detected for task: " ∷ t.task_id ∷ [])))
unfolding normalized
readmit_refused p t stage now succ d others h =
    admit_cycle p (normalized (record t { deps = d ∷ others })) stage now (
      subst (λ s. creates_cycle s t.task_id (d ∷ others) ≡ true) (sym h)
        (edge_is_cycle succ d t.task_id others))

-- A task whose first dependency exists (and is not terminal) and whose second does not is refused
-- by `submit`, and no node is added; but the edge from the first dependency stays behind. When the
-- task is then submitted again, with that first dependency and any others, it is refused as a
-- dependency cycle, although no such task was ever accepted.
pub resubmit_refused :
    (p : Pool) (t : TaskDescriptor) (stage now later : ℕ) (d m : String) (rest others : List String)
    (n : Node)
    → t.deps ≡ d ∷ m ∷ rest
    → check_request p (normalized t) true ≡ ok tt
    → creates_cycle p.successors t.task_id t.deps ≡ false
    → d ≢ t.task_id
    → m ≢ t.task_id
    → find_node d p.nodes ≡ some n
    → is_terminal n.task.state ≡ false
    → find_node m p.nodes ≡ none
    → let p' = (submit p t (some stage) now).0 in
      ((submit p t (some stage) now).1
        ≡ err (internal_error (concat ("Dependency not found: " ∷ m ∷ []))))
      × (p'.nodes ≡ p.nodes)
      × ((submit p' (record t { deps = d ∷ others }) (some stage) later).1
          ≡ err (internal_error (concat ("Dependency cycle detected for task: " ∷ t.task_id ∷ []))))
resubmit_refused p t stage now later d m rest others n deps good acyclic d_other m_other found live
      missing =
    let again : TaskDescriptor = record t { deps = d ∷ others } in
    let linked =
      subst
        (λ ds.
          link_deps p.nodes t.task_id ds 0 p.successors
          ≡ refused (internal_error (concat ("Dependency not found: " ∷ m ∷ [])))
              (add_successor d t.task_id p.successors))
        (sym deps)
        (link_second_missing p.nodes t.task_id d m rest n p.successors d_other m_other found live
          missing) in
    let (status, succ, nodes, config) =
      admit_refusal p t stage now (internal_error (concat ("Dependency not found: " ∷ m ∷ [])))
        (add_successor d t.task_id p.successors) acyclic linked in
    let p' = (admit p (normalized t) stage now).0 in
    let good' =
      check_request-cong p p' (normalized t) (normalized again) nodes config
        (normalized_same t (d ∷ others)).0 (normalized_same t (d ∷ others)).1 good in
    rw (submit_admits p t stage now good) (
      status,
      nodes,
      ap (λ (x : Pool × Status). x.1) (submit_admits p' again stage later good')
          ∙ readmit_refused p' t stage later p.successors d others succ,
    )
