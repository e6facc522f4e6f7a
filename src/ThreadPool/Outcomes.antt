-- ===== src/ThreadPool/Outcomes.antt =====
-- The outcome of a task in every history.
use stv_renew.Prelude.{
  ◌≡◌, ◌∙◌, refl, sym, ap, inl, inr, true, false, String, List, some, some_inj, str_eq-cases, Bool,
}
use stv_renew.Task.{is_terminal}
use stv_renew.ThreadPool.State.{Node, Pool, find_node, set_node}
use stv_renew.ThreadPool.Nodes.{find_node-set_node_same, find_node-set_node_other, find_node-append}
use stv_renew.ThreadPool.Steps.{Op, run}
use stv_renew.ThreadPool.Changes.{
  Books, Change, quiet, push, start, release, Changes, done, then_change, succeed, skip, stale,
}
use stv_renew.ThreadPool.Changes.Steps.{run-Changes, not_strict}

-- The table still has a node under the id, whose task is in the same terminal state.
abbrev pub Decided : String → Node → List Node → Type 0
Decided id n ns = (m : Node) × (find_node id ns ≡ some m) × (m.task.state ≡ n.task.state)

written :
    (id : String) (n x x' : Node) (ns : List Node)
    → find_node id ns ≡ some n
    → find_node x'.task.task_id ns ≡ some x
    → (is_terminal x.task.state ≡ true → x'.task.state ≡ x.task.state)
    → is_terminal n.task.state ≡ true
    → Decided id n (set_node x' ns)
written id n x x' ns there found kept ended = elim (str_eq-cases x'.task.task_id id) [
  | inl (_, same) ↦
      let one : x ≡ n = some_inj (sym found ∙ ap (λ i. find_node i ns) same ∙ there) in
      (
        x',
        find_node-set_node_same id x' n ns same there,
        kept (ap (λ (y : Node). is_terminal y.task.state) one ∙ ended)
            ∙ ap (λ (y : Node). y.task.state) one,
      )
  | inr (_, other) ↦ (n, find_node-set_node_other id x' ns other ∙ there, refl)
]

Change-Decided :
    {s : Bool} {b c : Books} (id : String) (n : Node)
    → Change s b c
    → find_node id b.nodes ≡ some n
    → is_terminal n.task.state ≡ true
    → Decided id n c.nodes
unfolding is_terminal
Change-Decided {s} {b} id n (quiet x x' found mark count m) there ended =
    written id n x x' b.nodes there found m.final ended
Change-Decided {s} {b} id n (succeed x x' found mark count m was is first) there ended =
    written id n x x' b.nodes there found m.final ended
Change-Decided {s} {b} id n (Change.wake x x' rest found first w) there ended =
    written id n x x' b.nodes there found (λ e. not_strict (sym (ap is_terminal w.was_queued) ∙ e))
      ended
Change-Decided id n (skip k rest first) there ended = (n, there, refl)
Change-Decided id n (stale succ loose) there ended = (n, there, refl)
Change-Decided {s} {b} id n (push x succ fresh idle normal first wires) there ended =
    (n, find_node-append id b.nodes x n there, refl)
Change-Decided {s} {b} id n (start x x' found was is mark demand deps fits) there ended =
    written id n x x' b.nodes there found (λ e. not_strict (sym (ap is_terminal was) ∙ e)) ended
Change-Decided {s} {b} id n (release x found mark) there ended =
    written id n x (record x { running = false }) b.nodes there found (λ _. refl) ended

Changes-Decided :
    {s : Bool} {b c : Books} (id : String) (n : Node)
    → Changes s b c
    → find_node id b.nodes ≡ some n
    → is_terminal n.task.state ≡ true
    → Decided id n c.nodes
Changes-Decided id n done there ended = (n, there, refl)
Changes-Decided id n (then_change a b) there ended =
    let (m, found, same) = Changes-Decided id n a there ended in
    let (k, found', same') = Change-Decided id m b found (ap is_terminal same ∙ ended) in
    (k, found', same' ∙ same)

-- A task that has succeeded, failed or been canceled is never forgotten, and stays in that state
-- whatever calls and workers' sections follow.
pub run-Decided :
    (p : Pool) (id : String) (n : Node) (ops : List Op)
    → find_node id p.nodes ≡ some n
    → is_terminal n.task.state ≡ true
    → Decided id n (run p ops).nodes
run-Decided p id n ops there ended = Changes-Decided id n (run-Changes p ops not_strict) there ended
