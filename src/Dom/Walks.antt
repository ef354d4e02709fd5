-- ===== src/Dom/Walks.antt =====
-- src/dom.c: the walks over a subtree in tree order, on a stack with its top first. A walk takes a
-- round for each node of the subtree; `visits` of the greatest depth is at least that.
pub mod Orders
pub mod Reading
use tai_ci.Base.{
  ℕ, zero, suc, Bool, true, false, List, [], ◌∷◌, ◌++◌, Option, none, some, Bytes, codes,
  if◌then◌else◌, str_eq, ◌==◌, length,
}
use tai_ci.Maps.{tai_map_get}
use tai_ci.Dom.{
  NodeKind, element, text_node, Node, Heap, DomStatus, ok, no_memory, max_depth, visits,
}

-- The nodes that a node puts on the stack: its children, the first on top.
abbrev pub below_of : NodeKind → List ℕ → List ℕ
below_of element children = children
below_of text_node children = []

abbrev pub text_in : NodeKind → Bytes → Bytes
text_in element value = []
text_in text_node value = value

unfoldable pub text_loop : ℕ → Heap → List ℕ → Bytes → Bytes
text_loop zero h stack out = out
text_loop (suc fuel) h [] out = out
text_loop (suc fuel) h (x ∷ stack) out =
    text_loop fuel h (below_of (h x).kind (h x).children ++ stack)
      (out ++ text_in (h x).kind (h x).value)

-- `memory` says whether the allocations of a call succeed, of which there is one at least.
unfoldable pub tai_node_text_content : Bool → Heap → ℕ → Option Bytes
tai_node_text_content memory h n =
    if memory then some (text_loop (visits max_depth h n) h (n ∷ []) []) else none

abbrev pub is_text_of : Option Bytes → Bytes → Bool
is_text_of none id = false
is_text_of (some value) id = str_eq value id

-- The test of a node that is popped.
abbrev pub has_id : NodeKind → Option Bytes → Bytes → Bool
has_id element value id = is_text_of value id
has_id text_node value id = false

unfoldable pub has_the_id : Heap → Bytes → ℕ → Bool
has_the_id h id x = has_id (h x).kind (tai_map_get (h x).attributes (codes "id")) id

unfoldable pub find_loop : ℕ → Heap → Bytes → List ℕ → Option ℕ
find_loop zero h id stack = none
find_loop (suc fuel) h id [] = none
find_loop (suc fuel) h id (x ∷ stack) =
    let later = find_loop fuel h id (below_of (h x).kind (h x).children ++ stack) in
    if has_the_id h id x then some x else later

unfoldable pub tai_node_find_by_id : Bool → Heap → ℕ → Bytes → DomStatus × Option ℕ
tai_node_find_by_id memory h root id =
    if length id == 0
    then (ok, none)
    else if memory
    then (ok, find_loop (visits max_depth h root) h id (root ∷ []))
    else (no_memory, none)
