-- ===== src/Dom/Serial.antt =====
-- src/dom.c: the text of a subtree as markup, which is written with a stack of the open elements, the
-- innermost first, each with the children that are still to come. A child takes at most two rounds
-- for each node under it.
pub mod Writing
use tai_ci.Base.{
  ℕ, zero, suc, ◌*◌, Bool, true, false, ◌||◌, ◌&&◌, List, [], ◌∷◌, ◌++◌, Bytes, codes,
  if◌then◌else◌, str_eq, ◌==◌, Option, some, none,
}
use tai_ci.Maps.{Pair}
use tai_ci.Dom.{NodeKind, element, text_node, Node, Heap, max_depth, visits}

unfoldable pub escaped_as : Bool → ℕ → Bytes
escaped_as quote c =
    if c == 38
    then codes "&amp;"
    else if c == 60
    then codes "&lt;"
    else if c == 62
    then codes "&gt;"
    else if quote && c == 34
    then codes "&quot;"
    else if quote && c == 39
    then codes "&#x27;"
    else c ∷ []

unfoldable pub escape_into : Bool → Bytes → Bytes
escape_into quote [] = []
escape_into quote (c ∷ cs) = escaped_as quote c ++ escape_into quote cs

abbrev pub one_of : Bytes → List Bytes → Bool
one_of t [] = false
one_of t (name ∷ names) = str_eq t name || one_of t names

unfoldable pub is_void : Bytes → Bool
is_void t = one_of t (
    codes "area"
    ∷ codes "base"
    ∷ codes "br"
    ∷ codes "col"
    ∷ codes "embed"
    ∷ codes "hr"
    ∷ codes "img"
    ∷ codes "input"
    ∷ codes "link"
    ∷ codes "meta"
    ∷ codes "param"
    ∷ codes "source"
    ∷ codes "track"
    ∷ codes "wbr"
    ∷ [])

unfoldable pub attribute_text : List Pair → Bytes
attribute_text [] = []
attribute_text (a ∷ rest) =
    32 ∷ a.key ++ codes "=\"" ++ escape_into true a.value ++ 34 ∷ attribute_text rest

unfoldable pub open_tag : Node → Bytes
open_tag node = 60 ∷ node.value ++ attribute_text node.attributes.items ++ 62 ∷ []

unfoldable pub close_tag : Node → Bytes
close_tag node = 60 ∷ 47 ∷ node.value ++ 62 ∷ []

-- A frame: an element, and the children from `next` on.
abbrev pub Frame : Type 0
Frame = ℕ × List ℕ

abbrev pub is_open : List Frame → Bool
is_open [] = false
is_open (f ∷ frames) = true

-- What a child writes before the children of its own, and the frame that it opens.
abbrev pub child_text : NodeKind → Node → Bytes
child_text text_node node = escape_into false node.value
child_text element node = open_tag node

abbrev pub child_frame : NodeKind → Node → ℕ → List Frame
child_frame text_node node c = []
child_frame element node c = if is_void node.value then [] else (c, node.children) ∷ []

unfoldable pub serialize_loop : ℕ → Heap → Bool → List Frame → Bytes → Bytes
serialize_loop zero h outer frames out = out
serialize_loop (suc fuel) h outer [] out = out
serialize_loop (suc fuel) h outer ((n, []) ∷ frames) out =
    serialize_loop fuel h outer frames
      (out ++ (if is_open frames || outer then close_tag (h n) else []))
serialize_loop (suc fuel) h outer ((n, c ∷ cs) ∷ frames) out =
    serialize_loop fuel h outer (child_frame (h c).kind (h c) c ++ (n, cs) ∷ frames)
      (out ++ child_text (h c).kind (h c))

abbrev pub serialize_from : NodeKind → Heap → ℕ → Bool → Bytes
serialize_from text_node h n outer = if outer then escape_into false (h n).value else []
serialize_from element h n outer =
    if outer && is_void (h n).value
    then open_tag (h n)
    else serialize_loop (suc (2 * visits max_depth h n)) h outer ((n, (h n).children) ∷ [])
        (if outer then open_tag (h n) else [])

-- `memory` says whether the allocations of the call succeed, of which there is one at least.
unfoldable pub tai_node_serialize : Bool → Heap → ℕ → Bool → Option Bytes
tai_node_serialize memory h n outer =
    if memory then some (serialize_from (h n).kind h n outer) else none
