-- ===== src/Tests/DomRuns.antt =====
-- Runs of src/dom.c and of the selectors of src/css.c on a small document.
use tai_ci.Base.{
  ℕ, zero, suc, ◌≡◌, ◌≤◌, true, false, List, [], ◌∷◌, Option, none, some, Bytes, codes, refl, arith,
  leb, ltb, ◌==◌, str_eq, ◌&&◌, ◌||◌, ◌↔◌, ◌-◌, ◌+◌, ◌*◌, if◌then◌else◌,
}
use tai_ci.Port.{pos}
use tai_ci.Maps.{Map, empty_map, tai_map_get, map_index}
use tai_ci.Utf8.{Utf8proc, character}
use tai_ci.Dom.{
  element, Node, Heap, cycle, tai_node_insert_before, tai_node_remove_child, insert_nodes, place,
  detach, insert_before, remove_first, set_parent, set_children, write, on_chain, ancestors,
  chain_length, fits_below, fits_loop, visits, push_all,
}
use tai_ci.Dom.Links.{Linked, occurrences}
use tai_ci.Dom.Depth.{At, top, below}
use tai_ci.Dom.Moving.{IsForest, Moved, insert_before-Moved, Removed, remove_child-Removed}
use tai_ci.Css.{
  Selector, tag, class, has, sequence, descendant, no_more, more, tai_selector_matches, tests_of,
  descends, climb_ancestors, has_descendant, holds_all, any, has_class, find_class, class_word,
  past_class_word, space, skip_space, whitespace_at, is_white,
}
use tai_ci.Css.Matching.{Asks, matches-iff-Asks}
use tai_ci.Tests.SessionRuns.{ascii, ascii_iterate}

abbrev node : Bytes → Map → Option ℕ → List ℕ → Node
node name attributes parent children = record {
  kind = element;
  document = 0;
  value = name;
  attributes = attributes;
  style = empty_map;
  visited = false;
  parent = parent;
  children = children;
}

abbrev with_class : Bytes → Map
with_class name = record {
  items = record { key = codes "class"; value = name; priority = pos 0 } ∷ [];
  capacity = 8;
}

-- A `div` that holds a `p` and an `a`; all other nodes are on their own.
abbrev pub tree : Heap
tree zero = node (codes "div") empty_map none (1 ∷ 2 ∷ [])
tree (suc zero) = node (codes "p") (with_class (codes "old new")) (some 0) []
tree (suc (suc zero)) = node (codes "a") empty_map (some 0) []
tree (suc (suc (suc n))) = node (codes "br") empty_map none []

tree-Linked : Linked tree
unfolding occurrences
tree-Linked zero zero = refl
tree-Linked zero (suc zero) = refl
tree-Linked zero (suc (suc zero)) = refl
tree-Linked zero (suc (suc (suc n))) = ground arith
tree-Linked (suc zero) zero = refl
tree-Linked (suc zero) (suc zero) = refl
tree-Linked (suc zero) (suc (suc zero)) = refl
tree-Linked (suc zero) (suc (suc (suc n))) = ground arith
tree-Linked (suc (suc zero)) zero = refl
tree-Linked (suc (suc zero)) (suc zero) = refl
tree-Linked (suc (suc zero)) (suc (suc zero)) = refl
tree-Linked (suc (suc zero)) (suc (suc (suc n))) = ground arith
tree-Linked (suc (suc (suc m))) zero = ground arith
tree-Linked (suc (suc (suc m))) (suc zero) = ground arith
tree-Linked (suc (suc (suc m))) (suc (suc zero)) = ground arith
tree-Linked (suc (suc (suc m))) (suc (suc (suc n))) = ground arith

tree-shallow : (n : ℕ) → (d : ℕ) × (d ≤ 512) × At tree n d
tree-shallow zero = (0, omega arith, top 0 refl)
tree-shallow (suc zero) = (1, omega arith, below 1 0 0 refl (top 0 refl))
tree-shallow (suc (suc zero)) = (1, omega arith, below 2 0 0 refl (top 0 refl))
tree-shallow (suc (suc (suc n))) = (0, omega arith, top (suc (suc (suc n))) refl)

pub tree-IsForest : IsForest tree
tree-IsForest = record { linked = tree-Linked; shallow = tree-shallow }

insert_before-Moved_example :
    Moved tree 1 2 none (tai_node_insert_before true true tree (some 1) (some 2) none)
insert_before-Moved_example = insert_before-Moved true true tree 1 2 none tree-IsForest

remove_child-Removed_example : Removed tree 0 1 (tai_node_remove_child tree (some 0) (some 1))
remove_child-Removed_example = remove_child-Removed tree 0 1 tree-IsForest

moved_first :
    ((tai_node_insert_before true true tree (some 0) (some 2) (some 1)).0 0).children ≡ 2 ∷ 1 ∷ []
unfolding tai_node_insert_before insert_nodes place detach insert_before remove_first set_parent
    set_children write on_chain ancestors chain_length fits_below fits_loop visits push_all
moved_first = refl

into_itself : (tai_node_insert_before true true tree (some 1) (some 0) none).1 ≡ cycle
unfolding tai_node_insert_before insert_nodes on_chain
into_itself = refl

-- `div p`, with the classes of the `p`.
abbrev in_div : Selector
in_div = descendant 12 (
    more (tag 1 (codes "div")) (
      more (sequence 11 (more (tag 1 (codes "p")) (more (class 10 (codes "new")) no_more)))
        no_more))

matches-iff-Asks_example :
    (tai_selector_matches ascii tree in_div 1 ≡ true) ↔ Asks ascii tree in_div 1
matches-iff-Asks_example = matches-iff-Asks ascii tree in_div 1 tree-IsForest

matches_in_div : tai_selector_matches ascii tree in_div 1 ≡ true
unfolding tai_selector_matches tests_of descends climb_ancestors holds_all has_class find_class
    class_word past_class_word space skip_space whitespace_at is_white character ascii_iterate
    tai_map_get map_index str_eq
matches_in_div = refl

not_in_div : tai_selector_matches ascii tree in_div 2 ≡ false
unfolding tai_selector_matches tests_of descends climb_ancestors holds_all has_class find_class
    class_word past_class_word space skip_space whitespace_at is_white character ascii_iterate
    tai_map_get map_index str_eq
not_in_div = refl

has_link : tai_selector_matches ascii tree (has 11 (tag 1 (codes "a"))) 0 ≡ true
unfolding tai_selector_matches has_descendant any str_eq
has_link = refl

-- UTF-8 of up to two bytes.
two_iterate : Bytes → Option (ℕ × ℕ)
two_iterate [] = none
two_iterate (b ∷ []) = if ltb b 128 then some (1, b) else none
two_iterate (b ∷ c ∷ rest) =
    if ltb b 128
    then some (1, b)
    else if leb 194 b && ltb b 224 && leb 128 c && ltb c 192
    then some (2, (b - 192) * 64 + (c - 128))
    else none

abbrev two_bytes : Utf8proc
unfolding two_iterate
two_bytes = record {
  iterate = two_iterate;
  is_decimal = λ b. false;
  is_separator = λ b. b == 32 || b == 160;
  is_alnum = λ b. leb 97 b && leb b 122;
  casefold = some;
}

-- The class is `à`, in UTF-8 the bytes 195 and 160, and so is the selector's: it does not match, as
-- the second byte on its own is taken for a no-break space.
abbrev accented : Heap
accented n = node (codes "p") (with_class (195 ∷ 160 ∷ [])) none []

accented_class : tai_selector_matches two_bytes accented (class 10 (195 ∷ 160 ∷ [])) 0 ≡ false
unfolding tai_selector_matches has_class find_class class_word past_class_word space skip_space
    whitespace_at is_white character two_iterate tai_map_get map_index str_eq
accented_class = refl
