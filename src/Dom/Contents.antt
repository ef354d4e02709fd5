-- ===== src/Dom/Contents.antt =====
-- src/dom.c: setting the text of a node. `memory` says whether the allocations that are reached
-- succeed, and `fresh` is the address that calloc gives. `nodes` are the document's.
pub mod Orphans
pub mod Hanging
pub mod Setting
use tai_ci.Base.{
  ℕ, zero, suc, Bool, true, false, not, List, [], ◌∷◌, ◌++◌, Option, none, some, Bytes, length, leb,
  ◌==◌, if◌then◌else◌,
}
use tai_ci.Maps.{empty_map}
use tai_ci.Dom.{
  NodeKind, element, text_node, Node, Heap, DomStatus, ok, no_memory, node_limit, depth_limit,
  max_depth, script_node_limit, write, set_parent, set_children, ancestors,
}

-- The heap, the document's nodes, the status and the former children.
pub record Changed : Type 0 where
  pub heap : Heap
  pub nodes : List ℕ
  pub status : DomStatus
  pub removed : List ℕ

abbrev pub failed : Heap → List ℕ → DomStatus → Changed
failed h nodes status = record { heap = h; nodes = nodes; status = status; removed = [] }

-- The loop that takes the parent from the old children.
unfoldable pub orphans : Heap → List ℕ → Heap
orphans h [] = h
orphans h (c ∷ cs) = orphans (set_parent h c none) cs

unfoldable pub emptied : Heap → ℕ → Heap
emptied h n = set_children (orphans h (h n).children) n []

abbrev pub text_node_of : ℕ → Bytes → Node
text_node_of document text = record {
  kind = text_node;
  document = document;
  value = text;
  attributes = empty_map;
  style = empty_map;
  visited = false;
  parent = none;
  children = [];
}

-- `node_new`, and then the change that cannot fail.
unfoldable pub with_text : Heap → ℕ → ℕ → Bytes → Heap
with_text h n fresh text =
    set_parent
      (set_children (emptied (write h fresh (text_node_of (h n).document text)) n) n (fresh ∷ []))
      fresh (some n)

unfoldable pub set_element_text : Bool → Heap → List ℕ → ℕ → ℕ → Bytes → Changed
set_element_text memory h nodes n fresh [] = record {
  heap = emptied h n;
  nodes = nodes;
  status = ok;
  removed = (h n).children;
}
set_element_text memory h nodes n fresh (b ∷ text) =
    if leb script_node_limit (length nodes)
    then failed h nodes node_limit
    else if leb max_depth (ancestors h n)
    then failed h nodes depth_limit
    else if not memory
    then failed h nodes no_memory
    else record {
      heap = with_text h n fresh (b ∷ text);
      nodes = nodes ++ fresh ∷ [];
      status = ok;
      removed = (h n).children;
    }

abbrev pub set_by_kind : NodeKind → Bool → Heap → List ℕ → ℕ → ℕ → Bytes → Changed
set_by_kind element memory h nodes n fresh text = set_element_text memory h nodes n fresh text
set_by_kind text_node memory h nodes n fresh text =
    if memory
    then record {
      heap = write h n (record (h n) { value = text });
      nodes = nodes;
      status = ok;
      removed = [];
    }
    else failed h nodes no_memory

unfoldable pub tai_node_set_text_content : Bool → Heap → List ℕ → ℕ → ℕ → Bytes → Changed
tai_node_set_text_content memory h nodes n fresh text =
    set_by_kind (h n).kind memory h nodes n fresh text
