-- ===== src/ThreadPool/Reached.antt =====
-- What the walk of `propagate_dependency_canceled_locked` keeps while it visits the dependents.
use stv_renew.ThreadPool.Choice.Scan.{seen_cases}
use stv_renew.Prelude.{
  ◌≡◌, ◌≢◌, refl, sym, ◌∙◌, ap, ◌⊎◌, inl, inr, ℕ, Bool, true, false, String, List, ◌∷◌, none, some,
  arith, some_inj, contains, str_eq-cases, str_eq_refl, if◌then◌else◌,
}
use stv_renew.Task.{canceled, is_terminal, transition_to}
use stv_renew.Task.Lifecycle.{to_canceled-terminal}
use stv_renew.Task.Transition.{transition_to-Allowed}
use stv_renew.Notify.{StateEvent}
use stv_renew.ThreadPool.State.{Node, Pool, find_node, successors_of}
use stv_renew.ThreadPool.Graph.{ancestor_failed, cancel_node, Walk}
use stv_renew.ThreadPool.Nodes.{find_node-id, find_node-set_node_same, find_node-set_node_other}
use stv_renew.ThreadPool.Terminal.{cancel_node-nodes}
use stv_renew.ThreadPool.Walks.{cancel_node-successors}

-- Every id of a list was visited.
abbrev pub AllVisited : List String → List String → Type 0
AllVisited ids visited = (y : String) → contains ids y ≡ true → contains visited y ≡ true

abbrev canceled_node : ℕ → String → Node → Node
canceled_node now current n = record n {
  task = (transition_to (record n.task { error = some (ancestor_failed current) }) canceled now).0;
}

cancel_node_self :
    (now : ℕ) (current : String) (p : Pool) (events : List StateEvent) (n : Node) (id : String)
    → find_node id p.nodes ≡ some n
    → find_node id (cancel_node now current (p, events) n).0.nodes
      ≡ some (canceled_node now current n)
cancel_node_self now current p events n id h =
    ap (find_node id) (cancel_node-nodes now current p events n)
    ∙ find_node-set_node_same id (canceled_node now current n) n p.nodes
        ((transition_to-Allowed (record n.task { error = some (ancestor_failed current) }) canceled
            now).3
          ∙ find_node-id id p.nodes n h)
        h

pub wider :
    (id y : String) (visited : List String)
    → contains visited y ≡ true
    → contains (id ∷ visited) y ≡ true
wider id y visited h = ground arith

pub AllVisited-wider :
    (ids visited : List String) (id : String)
    → AllVisited ids visited
    → AllVisited ids (id ∷ visited)
AllVisited-wider ids visited id h = λ y k. wider id y visited (h y k)

module _ (start : Pool) (root : String) where
  -- What holds while the walk has the ids of `pending` still to look at.
  pub record Good (p : Pool) (pending visited : List String) : Type 0 where
    pub same : p.successors ≡ start.successors
    pub known :
        (x : String) (n : Node) → find_node x start.nodes ≡ some n → find_node x p.nodes ≢ none
    pub ended :
        (x : String) (n : Node)
        → contains visited x ≡ true
        → find_node x p.nodes ≡ some n
        → is_terminal n.task.state ≡ true
    pub spread :
        (x : String)
        → contains visited x ≡ true
        → (find_node x p.nodes ≡ none)
          ⊎ ((contains pending x ≡ true) ⊎ AllVisited (successors_of x start.successors) visited)
    pub rooted :
        (contains pending root ≡ true) ⊎ AllVisited (successors_of root start.successors) visited

  -- An id without a node.
  pub Good-unknown :
      (p : Pool) (pending visited : List String) (id : String)
      → find_node id p.nodes ≡ none
      → Good p pending visited
      → Good p pending (id ∷ visited)
  Good-unknown p pending visited id h g = record {
    same = g.same;
    known = g.known;
    ended = λ x n k found. elim (seen_cases id x visited k) [
      | inl e ↦ absurd (none_not_some (sym h ∙ ap (λ i. find_node i p.nodes) e ∙ found))
      | inr j ↦ g.ended x n j found
    ];
    spread = λ x k. elim (seen_cases id x visited k) [
      | inl e ↦ inl (ap (λ i. find_node i p.nodes) (sym e) ∙ h)
      | inr j ↦ elim (g.spread x j) [
        | inl a ↦ inl a
        | inr (inl b) ↦ inr (inl b)
        | inr (inr c) ↦ inr (inr (AllVisited-wider _ visited id c))
      ]
    ];
    rooted = elim g.rooted [ inl a ↦ inl a | inr b ↦ inr (AllVisited-wider _ visited id b) ];
  }
    where
      none_not_some : {n : Node} → none ≡ some n → ⊥
      none_not_some e = cc

  -- An id whose task has ended is still to be looked at.
  Good-ended :
      (p : Pool) (pending visited : List String) (id : String) (n : Node)
      → find_node id p.nodes ≡ some n
      → is_terminal n.task.state ≡ true
      → Good p pending visited
      → Good p (id ∷ pending) (id ∷ visited)
  Good-ended p pending visited id n h t g = record {
    same = g.same;
    known = g.known;
    ended = λ x m k found. elim (seen_cases id x visited k) [
      | inl e ↦
          ap (λ (y : Node). is_terminal y.task.state)
            (some_inj (sym found ∙ ap (λ i. find_node i p.nodes) (sym e) ∙ h))
          ∙ t
      | inr j ↦ g.ended x m j found
    ];
    spread = λ x k. elim (seen_cases id x visited k) [
      | inl e ↦ inr (inl (ap (λ i. contains (i ∷ pending) x) e ∙ first x))
      | inr j ↦ elim (g.spread x j) [
        | inl a ↦ inl a
        | inr (inl b) ↦ inr (inl (wider id x pending b))
        | inr (inr c) ↦ inr (inr (AllVisited-wider _ visited id c))
      ]
    ];
    rooted = elim g.rooted [
      | inl a ↦ inl (wider id root pending a)
      | inr b ↦ inr (AllVisited-wider _ visited id b)
    ];
  }
    where
      first : (x : String) → contains (x ∷ pending) x ≡ true
      first x = ground (arith, str_eq_refl x)

  -- A task is canceled before its id goes on the stack.
  Good-canceled :
      (now : ℕ) (current : String) (p : Pool) (events : List StateEvent)
      (pending visited : List String) (id : String) (n : Node)
      → find_node id p.nodes ≡ some n
      → contains visited id ≡ false
      → Good p pending visited
      → Good (cancel_node now current (p, events) n).0 pending visited
  Good-canceled now current p events pending visited id n h unseen g =
      let same = cancel_node-successors now current p events n false in
      let name = find_node-id id p.nodes n h in
      record {
        same = same ∙ g.same;
        known = λ x m k gone. elim (str_eq-cases id x) [
          | inl (_, e) ↦ none_not_some (
              sym gone
              ∙ ap (λ i. find_node i (cancel_node now current (p, events) n).0.nodes) (sym e)
              ∙ cancel_node_self now current p events n id h)
          | inr (_, other) ↦ g.known x m k (sym (others x other) ∙ gone)
        ];
        ended = λ x m k found. elim (str_eq-cases id x) [
          | inl (_, e) ↦ absurd (apart (sym unseen ∙ ap (contains visited) e ∙ k))
          | inr (_, other) ↦ g.ended x m k (sym (others x other) ∙ found)
        ];
        spread = λ x k. elim (str_eq-cases id x) [
          | inl (_, e) ↦ absurd (apart (sym unseen ∙ ap (contains visited) e ∙ k))
          | inr (_, other) ↦ elim (g.spread x k) [
            | inl a ↦ inl (others x other ∙ a)
            | inr b ↦ inr b
          ]
        ];
        rooted = g.rooted;
      }
    where
      none_not_some : {m : Node} → none ≡ some m → ⊥
      none_not_some e = cc

      apart : false ≡ true → ⊥
      apart e = cc

      others :
          (x : String)
          → id ≢ x
          → find_node x (cancel_node now current (p, events) n).0.nodes ≡ find_node x p.nodes
      others x other =
          ap (find_node x) (cancel_node-nodes now current p events n)
          ∙ find_node-set_node_other x _ p.nodes (λ e. other (
              sym (find_node-id id p.nodes n h)
              ∙ sym
                  (transition_to-Allowed (record n.task { error = some (ancestor_failed current) })
                    canceled now).3
              ∙ e))

  Good-pending :
      (p : Pool) (a b visited : List String)
      → ((x : String) → contains a x ≡ true → contains b x ≡ true)
      → Good p a visited
      → Good p b visited
  Good-pending p a b visited f g = record {
    same = g.same;
    known = g.known;
    ended = g.ended;
    spread = λ x k. elim (g.spread x k) [
      | inl h ↦ inl h
      | inr (inl h) ↦ inr (inl (f x h))
      | inr (inr h) ↦ inr (inr h)
    ];
    rooted = elim g.rooted [ inl h ↦ inl (f root h) | inr h ↦ inr h ];
  }

  -- A visit, with the id that is looked at still pending.
  pub record Visited (current id : String) (w w' : Walk) : Type 0 where
    pub good : Good w'.pool (current ∷ w'.stack) w'.visited
    pub seen : contains w'.visited id ≡ true
    pub more : (y : String) → contains w.visited y ≡ true → contains w'.visited y ≡ true

  swap :
      (id current : String) (stack : List String) (x : String)
      → contains (id ∷ current ∷ stack) x ≡ true
      → contains (current ∷ id ∷ stack) x ≡ true
  swap id current stack x h = ground arith

  pub visit_found :
      (now : ℕ) (current : String) (w : Walk) (id : String) (n : Node) (b : Bool)
      → find_node id w.pool.nodes ≡ some n
      → is_terminal n.task.state ≡ b
      → contains w.visited id ≡ false
      → Good w.pool (current ∷ w.stack) w.visited
      → Good
          (if b then (w.pool, w.events) else cancel_node now current (w.pool, w.events) n).0
          (current ∷ id ∷ w.stack)
          (id ∷ w.visited)
  visit_found now current w id n true h t unseen g =
      Good-pending w.pool (id ∷ current ∷ w.stack) _ _ (swap id current w.stack)
        (Good-ended w.pool (current ∷ w.stack) w.visited id n h t g)
  visit_found now current w id n false h t unseen g =
      let p' = (cancel_node now current (w.pool, w.events) n).0 in
      let ending =
        to_canceled-terminal (record n.task { error = some (ancestor_failed current) }) n.task.state
          now refl in
      Good-pending p' (id ∷ current ∷ w.stack) _ _ (swap id current w.stack) (
        Good-ended p' (current ∷ w.stack) w.visited id (canceled_node now current n)
          (cancel_node_self now current w.pool w.events n id h) ending
          (Good-canceled now current w.pool w.events (current ∷ w.stack) w.visited id n h unseen g))
