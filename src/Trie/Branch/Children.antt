-- ===== src/Trie/Branch/Children.antt =====
-- `Branches` as a sequence: what stands at a position after a write, an append or an insertion.
use block_preempt.Prelude.{ℕ, zero, suc, ◌≤◌, ◌<◌, ◌≡◌, refl, ap, some, arith}
use block_preempt.Trie.Node.{
  Node, Nodes, nil, cons, length_nodes, get_node?, append_node, insert_node,
}

pub get_node?-insert_node_self :
    (i : ℕ) (m : Node) (ns : Nodes)
    → i ≤ length_nodes ns
    → get_node? (insert_node i m ns) i ≡ some m
get_node?-insert_node_self zero m ns h = refl
get_node?-insert_node_self (suc i) m nil h = elim h [ ]
get_node?-insert_node_self (suc i) m (cons n ns) h = get_node?-insert_node_self i m ns (omega arith)

pub get_node?-insert_node_below :
    (i : ℕ) (m : Node) (ns : Nodes) (j : ℕ)
    → j < i
    → i ≤ length_nodes ns
    → get_node? (insert_node i m ns) j ≡ get_node? ns j
get_node?-insert_node_below zero m ns j h le = elim h [ ]
get_node?-insert_node_below (suc i) m nil j h le = elim le [ ]
get_node?-insert_node_below (suc i) m (cons n ns) zero h le = refl
get_node?-insert_node_below (suc i) m (cons n ns) (suc j) h le =
    get_node?-insert_node_below i m ns j (omega arith) (omega arith)

pub get_node?-insert_node_above :
    (i : ℕ) (m : Node) (ns : Nodes) (j : ℕ)
    → i ≤ j
    → i ≤ length_nodes ns
    → get_node? (insert_node i m ns) (suc j) ≡ get_node? ns j
get_node?-insert_node_above zero m ns j h le = refl
get_node?-insert_node_above (suc i) m nil j h le = elim le [ ]
get_node?-insert_node_above (suc i) m (cons n ns) zero h le = elim h [ ]
get_node?-insert_node_above (suc i) m (cons n ns) (suc j) h le =
    get_node?-insert_node_above i m ns j (omega arith) (omega arith)

pub length_nodes-insert_node :
    (i : ℕ) (m : Node) (ns : Nodes) → length_nodes (insert_node i m ns) ≡ suc (length_nodes ns)
length_nodes-insert_node zero m ns = refl
length_nodes-insert_node (suc i) m nil = refl
length_nodes-insert_node (suc i) m (cons n ns) = ap suc (length_nodes-insert_node i m ns)

pub get_node?-append_node_self :
    (ns : Nodes) (m : Node) → get_node? (append_node ns m) (length_nodes ns) ≡ some m
get_node?-append_node_self nil m = refl
get_node?-append_node_self (cons n ns) m = get_node?-append_node_self ns m

pub get_node?-append_node_ne :
    (ns : Nodes) (m : Node) (i : ℕ)
    → i < length_nodes ns
    → get_node? (append_node ns m) i ≡ get_node? ns i
get_node?-append_node_ne nil m i h = elim h [ ]
get_node?-append_node_ne (cons n ns) m zero h = refl
get_node?-append_node_ne (cons n ns) m (suc i) h = get_node?-append_node_ne ns m i (omega arith)

pub length_nodes-append_node :
    (ns : Nodes) (m : Node) → length_nodes (append_node ns m) ≡ suc (length_nodes ns)
length_nodes-append_node nil m = refl
length_nodes-append_node (cons n ns) m = ap suc (length_nodes-append_node ns m)
