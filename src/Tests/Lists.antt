-- ===== src/Tests/Lists.antt =====
-- Rings of nodes.
use e_os_aarch64_hal.Base.{◌≡◌, refl, [], ◌∷◌, arith}
use e_os_aarch64_hal.NodeList.{
  Heap, add_node_tail, add_node_ordered, link_before, link_self, remove_node,
}
use e_os_aarch64_hal.NodeList.Chain.{Ring}
use e_os_aarch64_hal.NodeList.Ordered.{insert, Inserted, add_node_ordered-insert}
use e_os_aarch64_hal.NodeList.Remove.{Removed, remove_node-erase}

abbrev clear : Heap
clear = record { prev = λ _. 0; next = λ _. 0; pnode = λ _. 0; order_val = λ n. n }

-- The nodes 2 and 6, in this order; a node's order value is its address.
two_nodes : Heap
unfolding add_node_tail link_before link_self
two_nodes = (add_node_tail 2 6 (add_node_tail 0 2 clear).0).0

two_nodes-Ring : Ring two_nodes 2 (2 ∷ 6 ∷ [])
unfolding two_nodes
two_nodes-Ring = ground arith

add_node_ordered-insert_example :
    Inserted two_nodes 4 (2 ∷ 6 ∷ []) (add_node_ordered 2 2 4 two_nodes)
add_node_ordered-insert_example =
    add_node_ordered-insert 2 two_nodes 2 4 (2 ∷ 6 ∷ []) two_nodes-Ring refl (omega arith)
      (omega arith)

-- The new node stands between the two.
order_example : insert two_nodes.order_val 4 (2 ∷ 6 ∷ []) ≡ 2 ∷ 4 ∷ 6 ∷ []
unfolding insert two_nodes
order_example = refl

remove_node-erase_example : Removed two_nodes 2 (2 ∷ 6 ∷ []) (remove_node 2 2 two_nodes)
remove_node-erase_example = remove_node-erase two_nodes 2 2 (2 ∷ 6 ∷ []) two_nodes-Ring refl
