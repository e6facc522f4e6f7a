-- ===== src/ThreadPool/Walks.antt =====
-- The walk of `propagate_dependency_canceled_locked` ends within its fuel.
use stv_renew.Prelude.{
  ◌≡◌, ◌≢◌, refl, sym, ◌∙◌, ap, inl, inr, ℕ, zero, suc, ◌+◌, ◌≤◌, ◌<◌, Bool, true, false, String,
  List, [], ◌∷◌, Option, none, some, arith, Bool-cases, contains, str_eq, str_eq-cases, eq_iff,
  length, if◌then◌else◌,
}
use mathlib.Core.Path.{subst}
use stv_renew.Task.{is_terminal}
use stv_renew.Notify.{StateEvent}
use stv_renew.ThreadPool.State.{Node, Pool, Successors, find_node, successors_of, put_node}
use stv_renew.ThreadPool.Graph.{cancel_node, Walk, visit, visit_all, walk, edge_count}

-- The entries of the successor lists that the walk has not visited.
fresh : List String → List String → ℕ
fresh [] visited = 0
fresh (x ∷ xs) visited = if contains visited x then fresh xs visited else suc (fresh xs visited)

pub unvisited : Successors → List String → ℕ
unfolding fresh
unvisited [] visited = 0
unvisited ((k, v) ∷ m) visited = fresh v visited + unvisited m visited

fresh_mono : (xs visited : List String) (id : String) → fresh xs (id ∷ visited) ≤ fresh xs visited
unfolding fresh
fresh_mono [] visited id = omega arith
fresh_mono (x ∷ xs) visited id = ground (arith, fresh_mono xs visited id)

fresh_less :
    (xs visited : List String) (id : String)
    → contains xs id ≡ true
    → contains visited id ≡ false
    → fresh xs (id ∷ visited) < fresh xs visited
unfolding fresh
fresh_less [] visited id h k = cc
fresh_less (x ∷ xs) visited id h k = elim (str_eq-cases x id) [
  | inl (_, same) ↦
      let unseen : contains visited x ≡ false = ap (contains visited) same ∙ k in
      let eq : str_eq id x ≡ true = (eq_iff id x).1 (sym same) in
      rw (eq, unseen) (omega (arith, fresh_mono xs visited id))
  | inr (other, _) ↦ ground (arith, fresh_less xs visited id, eq_iff id x, eq_iff x id)
]

unvisited_mono :
    (m : Successors) (visited : List String) (id : String)
    → unvisited m (id ∷ visited) ≤ unvisited m visited
unfolding unvisited
unvisited_mono [] visited id = omega arith
unvisited_mono ((k, v) ∷ m) visited id =
    omega (arith, fresh_mono v visited id, unvisited_mono m visited id)

unvisited_less :
    (m : Successors) (visited : List String) (current id : String)
    → contains (successors_of current m) id ≡ true
    → contains visited id ≡ false
    → unvisited m (id ∷ visited) < unvisited m visited
unfolding unvisited successors_of
unvisited_less [] visited current id h k = cc
unvisited_less ((j, v) ∷ m) visited current id h k = elim (Bool-cases (str_eq j current)) [
  | inl e ↦ omega (arith, fresh_less v visited id (rw e at h) k, unvisited_mono m visited id)
  | inr e ↦
      omega (arith, unvisited_less m visited current id (rw e at h) k, fresh_mono v visited id)
]

-- What is left to do: the stack, and the entries that may still be pushed.
abbrev Within : Successors → ℕ → Walk → Type 0
Within succ left w = (w.pool.successors ≡ succ) × (length w.stack + unvisited succ w.visited ≤ left)

pub cancel_node-successors :
    (now : ℕ) (current : String) (p : Pool) (events : List StateEvent) (n : Node) (b : Bool)
    → (if b then (p, events) else cancel_node now current (p, events) n).0.successors ≡ p.successors
unfolding cancel_node put_node
cancel_node-successors now current p events n true = refl
cancel_node-successors now current p events n false = refl

visit-Within :
    (now : ℕ) (current : String) (succ : Successors) (left : ℕ) (w : Walk) (id : String)
    → contains (successors_of current succ) id ≡ true
    → Within succ left w
    → Within succ left (visit now current w id)
unfolding visit
visit-Within now current succ left w id listed (same, few) =
    by_case (contains w.visited id) (find_node id w.pool.nodes) refl
  where
    by_case :
        (seen : Bool) (o : Option Node)
        → contains w.visited id ≡ seen
        → Within succ left (
            if seen then w else elim o [
              | none ↦ record w { visited = id ∷ w.visited }
              | some n ↦
                  let (p, events) =
                    if is_terminal n.task.state
                    then (w.pool, w.events)
                    else cancel_node now current (w.pool, w.events) n in
                  record {
                    pool = p;
                    events = events;
                    stack = id ∷ w.stack;
                    visited = id ∷ w.visited;
                  }
            ])
    by_case true o e = (same, few)
    by_case false none e = (same, omega (arith, few, unvisited_mono succ w.visited id))
    by_case false (some n) e = (
      cancel_node-successors now current w.pool w.events n (is_terminal n.task.state) ∙ same,
      omega (arith, few, unvisited_less succ w.visited current id listed e),
    )

visit_all-Within :
    (now : ℕ) (current : String) (succ : Successors) (left : ℕ) (ids : List String) (w : Walk)
    → ((x : String) → contains ids x ≡ true → contains (successors_of current succ) x ≡ true)
    → Within succ left w
    → Within succ left (visit_all now current w ids)
unfolding visit_all
visit_all-Within now current succ left [] w h k = k
visit_all-Within now current succ left (id ∷ ids) w h k =
    visit_all-Within now current succ left ids (visit now current w id) (λ x j. h x (ground arith))
      (visit-Within now current succ left w id (h id (ground (arith, eq_iff id id))) k)

pub walk_ends :
    (fuel now : ℕ) (p : Pool) (events : List StateEvent) (stack visited : List String)
    → length stack + unvisited p.successors visited < fuel
    → walk fuel now p events stack visited ≢ none
unfolding walk
walk_ends zero now p events stack visited h e = omega (arith, h)
walk_ends (suc fuel) now p events [] visited h e = cc
walk_ends (suc fuel) now p events (current ∷ stack) visited h e =
    let w =
      visit_all now current (record { pool = p; events = events; stack = stack; visited = visited })
        (successors_of current p.successors) in
    let (same, few) =
      visit_all-Within now current p.successors (length stack + unvisited p.successors visited)
        (successors_of current p.successors)
        (record { pool = p; events = events; stack = stack; visited = visited }) (λ x k. k)
        (refl, omega arith) in
    walk_ends fuel now w.pool w.events w.stack w.visited
      (subst (λ s. length w.stack + unvisited s w.visited < fuel) (sym same)
        (omega (arith, few, h)))
      e

pub unvisited_empty : (m : Successors) → unvisited m [] ≡ edge_count m
unfolding unvisited fresh
unvisited_empty [] = refl
unvisited_empty ((k, v) ∷ m) = omega (arith, unvisited_empty m, all_fresh v)
  where
    all_fresh : (v : List String) → fresh v [] ≡ length v
    all_fresh [] = refl
    all_fresh (x ∷ v) = ap suc (all_fresh v)
