-- ===== src/ThreadPool/Nodes.antt =====
-- The node table as a map from ids.
use stv_renew.Prelude.{◌≡◌, ◌≢◌, ◌⊎◌, String, List, [], ◌∷◌, ◌++◌, some, arith, none, eq_iff}
use stv_renew.Prelude.Table
use stv_renew.ThreadPool.State.{Node, node_key, find_node, set_node}

pub find_node-id :
    (id : String) (ns : List Node) (n : Node) → find_node id ns ≡ some n → n.task.task_id ≡ id
unfolding find_node
find_node-id = Table.find-key node_key

pub find_node_self :
    (id : String) (ns : List Node) (n : Node)
    → find_node id ns ≡ some n
    → find_node n.task.task_id ns ≡ some n
unfolding find_node
find_node_self = Table.find_self node_key

pub find_node-set_node_same :
    (id : String) (n x : Node) (ns : List Node)
    → n.task.task_id ≡ id
    → find_node id ns ≡ some x
    → find_node id (set_node n ns) ≡ some n
unfolding find_node set_node
find_node-set_node_same = Table.find-set_at_same node_key

pub find_node-set_node_other :
    (id : String) (n : Node) (ns : List Node)
    → n.task.task_id ≢ id
    → find_node id (set_node n ns) ≡ find_node id ns
unfolding find_node set_node
find_node-set_node_other = Table.find-set_at_other node_key

pub find_node-append :
    (id : String) (ns : List Node) (n x : Node)
    → find_node id ns ≡ some x
    → find_node id (ns ++ n ∷ []) ≡ some x
unfolding find_node
find_node-append id ns n x h = ground (arith, Table.find-append node_key id ns n)

pub node_found_after :
    (id : String) (n x : Node) (ns : List Node)
    → find_node id (set_node n ns) ≡ some x
    → ((n.task.task_id ≡ id) × (x ≡ n)) ⊎ (find_node id ns ≡ some x)
unfolding find_node set_node
node_found_after = Table.found_after_set node_key

pub node_found_pushed :
    (id : String) (ns : List Node) (n x : Node)
    → find_node id (ns ++ n ∷ []) ≡ some x
    → ((n.task.task_id ≡ id) × (x ≡ n)) ⊎ (find_node id ns ≡ some x)
unfolding find_node
node_found_pushed = Table.found_after_append node_key

pub unpushed :
    (id : String) (ns : List Node) (n : Node)
    → find_node id (ns ++ n ∷ []) ≡ none
    → (find_node id ns ≡ none) × (n.task.task_id ≢ id)
unfolding find_node
unpushed id ns n h = (
  ground (arith, Table.find-append node_key id ns n),
  (λ same. ground (arith, Table.find-append node_key id ns n, eq_iff n.task.task_id id)),
)
