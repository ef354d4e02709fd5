-- ===== src/Dom.antt =====
-- src/dom.c: the nodes of documents and how scripts move them. Nodes stand at addresses; a heap has
-- the nodes of all documents. A pointer that may be NULL is an option. `value` is the tag of an element
-- and the text of a text node; the id and what is kept for inputs and scrolling are left out. `memory` says whether a call's allocations succeed.
pub mod Links
pub mod Depth
pub mod Moving
pub mod Walks
pub mod Contents
pub mod Serial
use tai_ci.Base.{
  ℕ, zero, suc, ◌+◌, ◌-◌, Bool, true, false, not, ◌||◌, ◌&&◌, List, [], ◌∷◌, ◌++◌, Option, none,
  some, Bytes, length, ltb, leb, ◌==◌, if◌then◌else◌,
}
use tai_ci.Maps.{Map, empty_map}

pub data NodeKind : Type 0 where
  element text_node : NodeKind

pub record Node : Type 0 where
  pub kind : NodeKind
  pub document : ℕ
  pub value : Bytes
  pub attributes : Map
  pub style : Map
  pub visited : Bool
  pub parent : Option ℕ
  pub children : List ℕ

abbrev pub Heap : Type 0
Heap = ℕ → Node

pub data DomStatus : Type 0 where
  ok no_memory node_limit wrong_document cycle not_child : DomStatus
  reference_not_child parse_error depth_limit : DomStatus

abbrev pub max_depth : ℕ
max_depth = 512

abbrev pub script_node_limit : ℕ
script_node_limit = 1000000

unfoldable pub write : Heap → ℕ → Node → Heap
write h n node m = if m == n then node else h m

-- `n->parent = parent` and the like
unfoldable pub set_parent : Heap → ℕ → Option ℕ → Heap
set_parent h n parent = write h n (record (h n) { parent = parent })

unfoldable pub set_children : Heap → ℕ → List ℕ → Heap
set_children h n children = write h n (record (h n) { children = children })

-- The loop that removes the first occurrence.
unfoldable pub remove_first : ℕ → List ℕ → List ℕ
remove_first c [] = []
remove_first c (x ∷ xs) = let rest = remove_first c xs in if x == c then xs else x ∷ rest

-- From its parent, if there is one.
abbrev pub unlink : Heap → ℕ → Option ℕ → Heap
unlink h c none = h
unlink h c (some old) = set_parent (set_children h old (remove_first c (h old).children)) c none

unfoldable pub detach : Heap → ℕ → Heap
detach h c = unlink h c (h c).parent

-- Before the first occurrence of the reference, or at the end where there is none.
unfoldable pub insert_before : Option ℕ → ℕ → List ℕ → List ℕ
insert_before none c xs = xs ++ c ∷ []
insert_before (some ref) c [] = c ∷ []
insert_before (some ref) c (x ∷ xs) =
    let rest = insert_before (some ref) c xs in if x == ref then c ∷ x ∷ xs else x ∷ rest

-- The walk from a node up its parents, for at most `fuel` nodes. A document has no node with more
-- than `max_depth` ancestors, so `max_depth + 1` is enough.
unfoldable pub on_chain : ℕ → Heap → ℕ → Option ℕ → Bool
on_chain zero h c n = false
on_chain (suc fuel) h c none = false
on_chain (suc fuel) h c (some n) =
    let above = on_chain fuel h c (h n).parent in if n == c then true else above

-- The number of nodes on the walk.
unfoldable pub chain_length : ℕ → Heap → Option ℕ → ℕ
chain_length zero h n = 0
chain_length (suc fuel) h none = 0
chain_length (suc fuel) h (some n) = suc (chain_length fuel h (h n).parent)

unfoldable pub ancestors : Heap → ℕ → ℕ
ancestors h n = chain_length (suc max_depth) h (h n).parent

abbrev pub with_depth : ℕ → List ℕ → List (ℕ × ℕ)
with_depth depth [] = []
with_depth depth (n ∷ ns) = (n, depth) ∷ with_depth depth ns

-- Pushes the children in order, so that the last is on top.
unfoldable pub push_all : List (ℕ × ℕ) → List (ℕ × ℕ) → List (ℕ × ℕ)
push_all [] stack = stack
push_all (item ∷ items) stack = push_all items (item ∷ stack)

-- The loop of `fits_below`, on the stack with its top first, for at most `fuel` rounds: whether the
-- budget is kept.
unfoldable pub fits_loop : ℕ → Heap → ℕ → List (ℕ × ℕ) → Bool
fits_loop zero h budget stack = true
fits_loop (suc fuel) h budget [] = true
fits_loop (suc fuel) h budget ((n, depth) ∷ stack) =
    let next = fits_loop fuel h budget stack in
    let pushed = fits_loop fuel h budget (push_all (with_depth (suc depth) (h n).children) stack) in
    if length (h n).children == 0 then next else if leb budget depth then false else pushed

-- The number of nodes at most `budget` levels below a node, itself counted: the rounds that the loop
-- takes at most. It ends in the node's own subtree, whatever that is.
abbrev pub sum_of : (ℕ → ℕ) → List ℕ → ℕ
sum_of f [] = 0
sum_of f (x ∷ xs) = f x + sum_of f xs

unfoldable pub visits : ℕ → Heap → ℕ → ℕ
visits zero h n = 1
visits (suc budget) h n = suc (sum_of (visits budget h) (h n).children)

unfoldable pub fits_below : Heap → ℕ → ℕ → Bool
fits_below h n budget = fits_loop (suc (visits budget h n)) h budget ((n, 0) ∷ [])

abbrev pub is_parent : Option ℕ → ℕ → Bool
is_parent none p = false
is_parent (some q) p = q == p

abbrev in_document : Heap → Option ℕ → ℕ → Bool
in_document h none document = true
in_document h (some n) document = (h n).document == document

abbrev under : Heap → Option ℕ → ℕ → Bool
under h none p = true
under h (some n) p = is_parent (h n).parent p

abbrev is_node : Option ℕ → ℕ → Bool
is_node none c = false
is_node (some n) c = n == c

-- The nodes after the tests of `tai_node_insert_before`.
unfoldable pub place : Heap → ℕ → ℕ → Option ℕ → Heap
place h p c ref =
    let detached = detach h c in
    set_parent (set_children detached p (insert_before ref c (detached p).children)) c (some p)

-- The heap, the status and `*changed`. `stack_ok` says whether the allocations of `fits_below` that
-- are reached succeed, `memory` the one of the children.
unfoldable pub insert_nodes : Bool → Bool → Heap → ℕ → ℕ → Option ℕ → Heap × DomStatus × Bool
insert_nodes stack_ok memory h p c ref =
    if not ((h p).document == (h c).document) || not (in_document h ref (h p).document)
    then (h, wrong_document, false)
    else if not (under h ref p)
    then (h, reference_not_child, false)
    else if is_node ref c
    then (h, ok, false)
    else if on_chain (suc max_depth) h c (some p)
    then (h, cycle, false)
    else if ltb max_depth (ancestors h p + 1)
    then (h, depth_limit, false)
    else if not stack_ok
    then (h, no_memory, false)
    else if not (fits_below h c (max_depth - (ancestors h p + 1)))
    then (h, depth_limit, false)
    else if not memory
    then (h, no_memory, false)
    else (place h p c ref, ok, true)

unfoldable pub tai_node_insert_before :
    Bool → Bool → Heap → Option ℕ → Option ℕ → Option ℕ → Heap × DomStatus × Bool
tai_node_insert_before stack_ok memory h none c ref = (h, wrong_document, false)
tai_node_insert_before stack_ok memory h (some p) none ref = (h, wrong_document, false)
tai_node_insert_before stack_ok memory h (some p) (some c) ref =
    insert_nodes stack_ok memory h p c ref

unfoldable pub tai_node_remove_child : Heap → Option ℕ → Option ℕ → Heap × DomStatus
tai_node_remove_child h none c = (h, wrong_document)
tai_node_remove_child h (some p) none = (h, wrong_document)
tai_node_remove_child h (some p) (some c) =
    if not ((h p).document == (h c).document)
    then (h, wrong_document)
    else if not (is_parent (h c).parent p)
    then (h, not_child)
    else (detach h c, ok)

-- A document's nodes in the order of their ids; `fresh` is the address that calloc gives.
unfoldable pub tai_document_create_element :
    Bool → Heap → ℕ → List ℕ → ℕ → Option Bytes → Heap × List ℕ × DomStatus × Option ℕ
tai_document_create_element memory h document nodes fresh none = (h, nodes, wrong_document, none)
tai_document_create_element memory h document nodes fresh (some tag) =
    if leb script_node_limit (length nodes)
    then (h, nodes, node_limit, none)
    else if not memory
    then (h, nodes, no_memory, none)
    else (
      write h fresh (record {
        kind = element;
        document = document;
        value = tag;
        attributes = empty_map;
        style = empty_map;
        visited = false;
        parent = none;
        children = [];
      }),
      nodes ++ fresh ∷ [],
      ok,
      some fresh,
    )
