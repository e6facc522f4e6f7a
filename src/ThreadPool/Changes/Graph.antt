-- ===== src/ThreadPool/Changes/Graph.antt =====
-- The walks over the dependency graph as changes.
use stv_renew.Task.Transition.{transition_to-Allowed}
use mathlib.Core.Path.{subst}
use stv_renew.ThreadPool.Nodes.{find_node-id}
use stv_renew.Prelude.{
  ◌≡◌, refl, inl, inr, ℕ, zero, suc, Bool, true, false, not, ◌||◌, ◌==◌, String, List, [], ◌∷◌,
  ◌++◌, Option, none, some, contains, if◌then◌else◌, arith, ◌-◌, ◌&&◌, sym, ◌∙◌,
}
use stv_renew.Errors.{is_ok}
use stv_renew.Task.{queued, ready, canceled, state_eq, is_terminal, transition_to, TaskDescriptor}
use stv_renew.Task.Active.{Moves-trans, transition_to-Moves, error-Moves}
use stv_renew.Notify.{StateEvent, event}
use stv_renew.ThreadPool.State.{Node, Pool, find_node, put_node, successors_of, insert, set_node}
use stv_renew.ThreadPool.Graph.{
  ancestor_failed, cancel_node, Walk, visit, visit_all, walk, walked, propagate_canceled,
  edge_count, wake, wake_all,
}
use stv_renew.ThreadPool.Changes.{
  Books, books, Changes, done, quiet_write, Changes-trans, waking, Change, skip, Woken, one,
}

abbrev Eventful : Type 0
Eventful = Pool × List StateEvent

is_queued : (t : TaskDescriptor) → state_eq t.state queued ≡ true → t.state ≡ queued
unfolding state_eq
is_queued t h = ground arith

becomes_ready :
    (t : TaskDescriptor) (now : ℕ) → t.state ≡ queued → (transition_to t ready now).0.state ≡ ready
unfolding transition_to
becomes_ready t now h = ground arith

module _ {s : Bool} where
  cancel_node-Changes :
      (now : ℕ) (current : String) (pe : Eventful) (n : Node) (id : String)
      → find_node id pe.0.nodes ≡ some n
      → Changes s (books pe.0) (books (cancel_node now current pe n).0)
  unfolding cancel_node put_node
  cancel_node-Changes now current (p, events) n id found =
      quiet_write (books p) id n _ found refl refl (
        Moves-trans (error-Moves n.task (ancestor_failed current))
          (transition_to-Moves _ canceled now (inr (inl refl))))

  visited-Changes :
      (now : ℕ) (current : String) (pe : Eventful) (n : Node) (id : String) (b : Bool)
      → find_node id pe.0.nodes ≡ some n
      → Changes s (books pe.0) (books (if b then pe else cancel_node now current pe n).0)
  visited-Changes now current pe n id true found = done
  visited-Changes now current pe n id false found = cancel_node-Changes now current pe n id found

  visit-Changes :
      (now : ℕ) (current : String) (w : Walk) (id : String)
      → Changes s (books w.pool) (books (visit now current w id).pool)
  unfolding visit
  visit-Changes now current w id = by_case (contains w.visited id) (find_node id w.pool.nodes) refl
    where
      by_case :
          (seen : Bool) (o : Option Node)
          → find_node id w.pool.nodes ≡ o
          → Changes s (books w.pool) (
              books
                (if seen then w else elim o [
                  | none ↦ record w { visited = id ∷ w.visited }
                  | some n ↦
                      let (p, events) =
                        if is_terminal n.task.state
                        then (w.pool, w.events)
                        else cancel_node now current (w.pool, w.events) n in
                      record {
                        pool = p;
                        events = events;
                        stack = id ∷ w.stack;
                        visited = id ∷ w.visited;
                      }
                ]).pool)
      by_case true o e = done
      by_case false none e = done
      by_case false (some n) e =
          visited-Changes now current (w.pool, w.events) n id (is_terminal n.task.state) e

  visit_all-Changes :
      (now : ℕ) (current : String) (ids : List String) (w : Walk)
      → Changes s (books w.pool) (books (visit_all now current w ids).pool)
  unfolding visit_all
  visit_all-Changes now current [] w = done
  visit_all-Changes now current (id ∷ ids) w =
      Changes-trans (visit-Changes now current w id)
        (visit_all-Changes now current ids (visit now current w id))

  walk-Changes :
      (fuel now : ℕ) (p : Pool) (events : List StateEvent) (stack visited : List String)
      (start : Eventful) (b : Books)
      → Changes s b (books p)
      → Changes s b (books start.0)
      → Changes s b (books (walked start (walk fuel now p events stack visited)).0)
  unfolding walk
  walk-Changes zero now p events stack visited start b h k = k
  walk-Changes (suc fuel) now p events [] visited start b h k = h
  walk-Changes (suc fuel) now p events (current ∷ stack) visited start b h k =
      let w =
        visit_all now current
          (record { pool = p; events = events; stack = stack; visited = visited })
          (successors_of current p.successors) in
      walk-Changes fuel now w.pool w.events w.stack w.visited start b
        (Changes-trans h (visit_all-Changes now current (successors_of current p.successors) _)) k

  pub propagate_canceled-Changes :
      (now : ℕ) (root : String) (start : Eventful)
      → Changes s (books start.0) (books (propagate_canceled now root start).0)
  unfolding propagate_canceled
  propagate_canceled-Changes now root (p, events) =
      walk-Changes (suc (suc (edge_count p.successors))) now p events (root ∷ []) [] (p, events)
        (books p) done done

  -- A write of a woken node, found under its id.
  woken_by :
      {b : Books} (id : String) (rest : List String) (n n' : Node)
      → find_node id b.nodes ≡ some n
      → b.pending ≡ id ∷ rest
      → Woken n n'
      → Change s b (record b { nodes = set_node n' b.nodes; pending = rest })
  woken_by {b} id rest n n' found first w =
      let named = sym (w.same_id ∙ find_node-id id b.nodes n found) in
      Change.wake n n' rest (subst (λ i. find_node i b.nodes ≡ some n) named found)
        (subst (λ i. b.pending ≡ i ∷ rest) named first) w

  wake-Changes :
      (now : ℕ) (pe : Eventful) (id : String) (ids : List String)
      → Changes s (waking pe.0 (id ∷ ids)) (waking (wake now pe id).0 ids)
  unfolding wake put_node
  wake-Changes now (p, events) id ids = by_case (find_node id p.nodes) refl
    where
      woken : Node → ℕ → Bool → Eventful
      woken n left b =
          let (t, r) = transition_to n.task ready now in
          if b
          then (
            record (put_node p (record n { task = t; unmet_deps = left; ready_since = now })) {
              ready_set = insert id p.ready_set;
            },
            events ++ event id ready t.progress ∷ [],
          )
          else (put_node p (record n { unmet_deps = left }), events)

      counted : Node → Eventful
      counted n =
          let left = n.unmet_deps - 1 in
          woken n left (left == 0 && is_ok (transition_to n.task ready now).1)

      looked : Option Node → Eventful
      looked none = (p, events)
      looked (some n) =
          if not (state_eq n.task.state queued) || n.unmet_deps == 0 then (p, events) else counted n

      by_tests :
          (n : Node) (left : ℕ) (a b : Bool)
          → find_node id p.nodes ≡ some n
          → left ≡ n.unmet_deps - 1
          → (not (state_eq n.task.state queued) || n.unmet_deps == 0) ≡ a
          → (left == 0 && is_ok (transition_to n.task ready now).1) ≡ b
          → Changes s
              (waking p (id ∷ ids))
              (waking (if◌then◌else◌ {A = Eventful} a (p, events) (woken n left b)).0 ids)
      by_tests n left true b found l e k = one (skip id ids refl)
      by_tests n left false true found l e k = one (
          woken_by id ids n
            (record n {
              task = (transition_to n.task ready now).0;
              unmet_deps = left;
              ready_since = now;
            })
            found refl
            (let f = transition_to-Allowed n.task ready now in
              record {
                same_id = f.3;
                same_demand = f.6;
                same_deps = f.4;
                same_mark = refl;
                was_queued = is_queued n.task (ground arith);
                counted = ground arith;
                becomes =
                    inr (becomes_ready n.task now (is_queued n.task (ground arith)), ground arith);
              }))
      by_tests n left false false found l e k = one (
          woken_by id ids n (record n { unmet_deps = left }) found refl
            (record {
              same_id = refl;
              same_demand = refl;
              same_deps = refl;
              same_mark = refl;
              was_queued = is_queued n.task (ground arith);
              counted = ground arith;
              becomes = inl (is_queued n.task (ground arith));
            }))

      by_case :
          (o : Option Node)
          → find_node id p.nodes ≡ o
          → Changes s (waking p (id ∷ ids)) (waking (looked o).0 ids)
      by_case none e = one (skip id ids refl)
      by_case (some n) e = by_tests n _ _ _ e refl refl refl

  pub wake_all-Changes :
      (now : ℕ) (pe : Eventful) (ids : List String)
      → Changes s (waking pe.0 ids) (books (wake_all now pe ids).0)
  unfolding wake_all
  wake_all-Changes now pe [] = done
  wake_all-Changes now pe (id ∷ ids) =
      Changes-trans (wake-Changes now pe id ids) (wake_all-Changes now (wake now pe id) ids)
