-- ===== src/NodeList.antt =====
-- The circular doubly linked list of eos_aarch64/core/common.c (`_os_node_t` of
-- eos_aarch64/core/eos_internal.h), over an explicit memory of nodes.
--
-- A node is named by its address, 0 is NULL. The memory has a map for each field of the structure.
-- The C functions take the address of the head pointer; here they take the head's value and return
-- the new one beside the new memory.
pub mod Chain
pub mod Insert
pub mod Remove
pub mod Ordered
use e_os_aarch64_hal.Base.{
  ℕ, zero, suc, ◌&&◌, ◌||◌, Option, none, some, not, if◌then◌else◌, ◌==◌, leb, ltb,
}
use mathlib.Core.Option

abbrev pub Ptr : Type 0
Ptr = ℕ

abbrev pub null : Ptr
null = 0

-- A store: the map with one address overwritten.
abbrev pub write : (Ptr → ℕ) → Ptr → ℕ → Ptr → ℕ
write f p v q = if q == p then v else f q

pub record Heap : Type 0 where
  pub prev : Ptr → Ptr
  pub next : Ptr → Ptr
  pub pnode : Ptr → ℕ
  pub order_val : Ptr → ℕ

abbrev pub set_prev : Ptr → Ptr → Heap → Heap
set_prev p v h = record h { prev = write h.prev p v }

abbrev pub set_next : Ptr → Ptr → Heap → Heap
set_next p v h = record h { next = write h.next p v }

-- The four stores by which both insertions put `new_node` in front of `node`.
unfoldable pub link_before : Ptr → Ptr → Heap → Heap
link_before node new_node h =
    let h1 = set_prev new_node (h.prev node) h in
    let h2 = set_next (h1.prev new_node) new_node h1 in
    let h3 = set_next new_node node h2 in set_prev (h3.next new_node) new_node h3

-- The first node of an empty list points at itself.
unfoldable pub link_self : Ptr → Heap → Heap
link_self new_node h = set_next new_node new_node (set_prev new_node new_node h)

unfoldable pub add_node_tail : Ptr → Ptr → Heap → Heap × Ptr
unfolding link_before link_self
add_node_tail head new_node h =
    if not (head == null)
    then (link_before head new_node h, head)
    else (link_self new_node h, new_node)

-- The search for the node to insert in front of, on fuel: `none` says that it still runs.
unfoldable pub find_later : ℕ → Ptr → ℕ → Ptr → Heap → Option Ptr
find_later zero head order node h = none
find_later (suc k) head order node h =
    let rest = find_later k head order (h.next node) h in
    if leb (h.order_val node) order && not (node == head) then rest else some node

unfoldable pub add_node_ordered : ℕ → Ptr → Ptr → Heap → Option (Heap × Ptr)
unfolding link_before link_self
add_node_ordered fuel head new_node h =
    if not (head == null)
    then (if ltb (h.order_val new_node) (h.order_val head)
        then some (link_before head new_node h, new_node)
        else Option.map (λ node. (link_before node new_node h, head))
            (find_later fuel head (h.order_val new_node) (h.next head) h))
    else some (link_self new_node h, new_node)

-- `node->next = NULL; node->prev = NULL;`
unfoldable pub detach : Ptr → Heap → Heap
detach node h = set_prev node null (set_next node null h)

-- `(node->prev)->next = node->next; (node->next)->prev = node->prev;`
unfoldable pub unlink : Ptr → Heap → Heap
unlink node h =
    let h1 = set_next (h.prev node) (h.next node) h in set_prev (h1.next node) (h1.prev node) h1

unfoldable pub remove_node : Ptr → Ptr → Heap → ℕ × Heap × Ptr
unfolding detach unlink
remove_node head node h =
    if h.next node == null || h.prev node == null
    then (0, h, head)
    else if h.next node == node
    then (1, detach node h, null)
    else let h2 = unlink node h in (1, detach node h2, if node == head then h2.next node else head)
