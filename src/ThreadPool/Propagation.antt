-- ===== src/ThreadPool/Propagation.antt =====
-- `propagate_dependency_canceled_locked` reaches every dependent.
use stv_renew.ThreadPool.Choice.Scan.{seen_cases}
use mathlib.Core.Path.{subst}
use stv_renew.Prelude.{
  ◌≡◌, refl, sym, ◌∙◌, inl, inr, ℕ, zero, suc, Bool, true, false, String, List, [], ◌∷◌, Option,
  none, some, arith, some_inj, contains, str_eq_refl, if◌then◌else◌,
}
use stv_renew.Task.{is_terminal}
use stv_renew.Notify.{StateEvent}
use stv_renew.ThreadPool.State.{Node, Pool, find_node, successors_of}
use stv_renew.ThreadPool.Graph.{
  cancel_node, Walk, visit, visit_all, walk, walked, propagate_canceled, edge_count,
}
use stv_renew.ThreadPool.Walks.{walk_ends, unvisited_empty}
use stv_renew.ThreadPool.Reached.{AllVisited, wider, Good, Good-unknown, Visited, visit_found}

-- The tasks that depend on the root, directly or through tasks that the scheduler has.
pub data Below (p : Pool) (root : String) : String → Type 0 where
  child : (y : String) → contains (successors_of root p.successors) y ≡ true → Below p root y
  further :
      (x y : String) (n : Node)
      → Below p root x
      → find_node x p.nodes ≡ some n
      → contains (successors_of x p.successors) y ≡ true
      → Below p root y

module _ (start : Pool) (root : String) where
  visit-Visited :
      (now : ℕ) (current : String) (w : Walk) (id : String)
      → Good start root w.pool (current ∷ w.stack) w.visited
      → Visited start root current id w (visit now current w id)
  unfolding visit
  visit-Visited now current w id g =
      by_case (contains w.visited id) (find_node id w.pool.nodes) refl refl
    where
      own : contains (id ∷ w.visited) id ≡ true
      own = ground (arith, str_eq_refl id)

      by_case :
          (seen : Bool) (o : Option Node)
          → contains w.visited id ≡ seen
          → find_node id w.pool.nodes ≡ o
          → Visited start root current id w (
              if seen then w else elim o [
                | none ↦ record w { visited = id ∷ w.visited }
                | some n ↦
                    let (p, events) =
                      if is_terminal n.task.state
                      then (w.pool, w.events)
                      else cancel_node now current (w.pool, w.events) n in
                    record {
                      pool = p;
                      events = events;
                      stack = id ∷ w.stack;
                      visited = id ∷ w.visited;
                    }
              ])
      by_case true o e h = record { good = g; seen = e; more = λ y k. k }
      by_case false none e h = record {
        good = Good-unknown start root w.pool (current ∷ w.stack) w.visited id h g;
        seen = own;
        more = λ y k. wider id y w.visited k;
      }
      by_case false (some n) e h = record {
        good = visit_found start root now current w id n (is_terminal n.task.state) h refl e g;
        seen = own;
        more = λ y k. wider id y w.visited k;
      }

  -- All ids of the list are visited after the loop.
  visit_all-Good :
      (now : ℕ) (current : String) (ids : List String) (w : Walk)
      → Good start root w.pool (current ∷ w.stack) w.visited
      → let w' = visit_all now current w ids in
        Good start root w'.pool (current ∷ w'.stack) w'.visited
        × AllVisited ids w'.visited
        × ((y : String) → contains w.visited y ≡ true → contains w'.visited y ≡ true)
  unfolding visit_all
  visit_all-Good now current [] w g = (g, (λ y k. cc), λ y k. k)
  visit_all-Good now current (id ∷ ids) w g =
      let v = visit-Visited now current w id g in
      let (good, all, more) = visit_all-Good now current ids (visit now current w id) v.good in
      (
        good,
        λ y k. elim (seen_cases id y ids k) [
          | inl e ↦
              subst (λ z. contains (visit_all now current w (id ∷ ids)).visited z ≡ true) e
                (more id v.seen)
          | inr j ↦ all y j
        ],
        λ y k. more y (v.more y k),
      )

  -- The id looked at is done when its successors are visited.
  Good-done :
      (p : Pool) (current : String) (stack visited : List String)
      → AllVisited (successors_of current start.successors) visited
      → Good start root p (current ∷ stack) visited
      → Good start root p stack visited
  Good-done p current stack visited all g = record {
    same = g.same;
    known = g.known;
    ended = g.ended;
    spread = λ x k. elim (g.spread x k) [
      | inl h ↦ inl h
      | inr (inl h) ↦ elim (seen_cases current x stack h) [
        | inl e ↦
            inr (inr (subst (λ i. AllVisited (successors_of i start.successors) visited) e all))
        | inr j ↦ inr (inl j)
      ]
      | inr (inr h) ↦ inr (inr h)
    ];
    rooted = elim g.rooted [
      | inl h ↦ elim (seen_cases current root stack h) [
        | inl e ↦ inr (subst (λ i. AllVisited (successors_of i start.successors) visited) e all)
        | inr j ↦ inl j
      ]
      | inr h ↦ inr h
    ];
  }

  walk-Good :
      (fuel now : ℕ) (p : Pool) (events : List StateEvent) (stack visited : List String)
      (q : Pool × List StateEvent)
      → Good start root p stack visited
      → walk fuel now p events stack visited ≡ some q
      → (v : List String) × Good start root q.0 [] v
  unfolding walk
  walk-Good zero now p events stack visited q g e = cc
  walk-Good (suc fuel) now p events [] visited q g e = (
    visited,
    subst (λ (x : Pool × List StateEvent). Good start root x.0 [] visited) (some_inj e) g,
  )
  walk-Good (suc fuel) now p events (current ∷ stack) visited q g e =
      let w0 : Walk = record { pool = p; events = events; stack = stack; visited = visited } in
      let w = visit_all now current w0 (successors_of current p.successors) in
      let (good, all, more) =
        visit_all-Good now current (successors_of current p.successors) w0 g in
      walk-Good fuel now w.pool w.events w.stack w.visited q
        (Good-done w.pool current w.stack w.visited
          (subst (λ s. AllVisited (successors_of current s) w.visited) g.same all) good)
        e

  first-Good : Good start root start (root ∷ []) []
  first-Good = record {
    same = refl;
    known = λ x n h gone. none_not_some (sym gone ∙ h);
    ended = λ x n k h. cc;
    spread = λ x k. cc;
    rooted = inl (ground (arith, str_eq_refl root));
  }
    where
      none_not_some : {n : Node} → none ≡ some n → ⊥
      none_not_some e = cc

  Below-visited :
      (q : Pool) (v : List String) (y : String)
      → Good start root q [] v
      → Below start root y
      → contains v y ≡ true
  Below-visited q v _ g (child y k) = elim g.rooted [ inl h ↦ cc | inr all ↦ all y k ]
  Below-visited q v _ g (further x y n b found k) = elim (g.spread x (Below-visited q v x g b)) [
    | inl gone ↦ absurd (g.known x n found gone)
    | inr (inl h) ↦ cc
    | inr (inr all) ↦ all y k
  ]

-- After the propagation from a task, every task that depends on it, directly or through tasks that
-- the scheduler has, is in a terminal state.
pub propagate_canceled-Below :
    (p : Pool) (events : List StateEvent) (now : ℕ) (root y : String) (m : Node)
    → Below p root y
    → find_node y (propagate_canceled now root (p, events)).0.nodes ≡ some m
    → is_terminal m.task.state ≡ true
unfolding propagate_canceled
propagate_canceled-Below p events now root y m below found =
    by_outcome (walk (suc (suc (edge_count p.successors))) now p events (root ∷ []) []) refl found
  where
    by_outcome :
        (o : Option (Pool × List StateEvent))
        → walk (suc (suc (edge_count p.successors))) now p events (root ∷ []) [] ≡ o
        → find_node y (walked (p, events) o).0.nodes ≡ some m
        → is_terminal m.task.state ≡ true
    by_outcome none e h = absurd (
        walk_ends (suc (suc (edge_count p.successors))) now p events (root ∷ []) []
          (omega (arith, unvisited_empty p.successors)) e)
    by_outcome (some q) e h =
        let (v, good) =
          walk-Good p root (suc (suc (edge_count p.successors))) now p events (root ∷ []) [] q
            (first-Good p root) e in
        good.ended y m (Below-visited p root q.0 v y good below) h
