-- ===== src/Css.antt =====
-- src/css.c: selectors and the nodes that they match. A document is a heap of Dom; utf8proc is a
-- parameter.
pub mod Lines
pub mod Matching
pub mod Selecting
pub mod Sheets
pub mod Cascade
pub mod Words
use tai_ci.Base.{
  ℕ, zero, suc, Bool, true, false, not, ◌||◌, ◌&&◌, List, [], ◌∷◌, Option, none, some, Bytes, codes,
  length, drop, leb, ◌==◌, if◌then◌else◌, str_eq, reverse,
}
use tai_ci.Maps.{tai_map_get}
use tai_ci.Utf8.{Utf8proc, character}
use tai_ci.Dom.{NodeKind, element, text_node, Node, Heap, max_depth}

-- `TaiSelector`, each kind with its priority, and with its name or its children.
mutual
  pub data Selector : Type 0 where
    tag class id : ℕ → Bytes → Selector
    visited : ℕ → Selector
    has : ℕ → Selector → Selector
    sequence descendant : ℕ → Selectors → Selector

  pub data Selectors : Type 0 where
    no_more : Selectors
    more : Selector → Selectors → Selectors

-- The test of `whitespace` on a code point.
unfoldable pub is_white : Utf8proc → ℕ → Bool
is_white U c = leb 9 c && leb c 13 || leb 28 c && leb c 32 || c == 133 || U.is_separator c

unfoldable pub whitespace_at : Utf8proc → Bytes → Bool
whitespace_at U [] = U.is_separator 0
whitespace_at U (b ∷ rest) = is_white U (character U b rest).1

-- The loop of `space`; the length of the text is fuel enough.
unfoldable pub skip_space : ℕ → Utf8proc → Bytes → Bytes
skip_space zero U text = text
skip_space (suc fuel) U [] = []
skip_space (suc fuel) U (b ∷ rest) =
    let next = skip_space fuel U (drop (character U b rest).0 (b ∷ rest)) in
    if whitespace_at U (b ∷ rest) then next else b ∷ rest

unfoldable pub space : Utf8proc → Bytes → Bytes
space U text = skip_space (length text) U text

-- The bytes before the first one that is taken for white space, and those from there.
unfoldable pub class_word : Utf8proc → Bytes → Bytes
class_word U [] = []
class_word U (b ∷ rest) =
    let more_of = class_word U rest in if whitespace_at U (b ∷ rest) then [] else b ∷ more_of

unfoldable pub past_class_word : Utf8proc → Bytes → Bytes
past_class_word U [] = []
past_class_word U (b ∷ rest) =
    let next = past_class_word U rest in if whitespace_at U (b ∷ rest) then b ∷ rest else next

-- The loop over the words of the `class` attribute; `none` where it is still running.
unfoldable pub find_class : ℕ → Utf8proc → Bytes → Bytes → Option Bool
find_class zero U value name = none
find_class (suc fuel) U [] name = some false
find_class (suc fuel) U (b ∷ rest) name =
    let value = space U (b ∷ rest) in
    let later = find_class fuel U (past_class_word U value) name in
    if str_eq (class_word U value) name then some true else later

abbrev pub or_false : Option Bool → Bool
or_false none = false
or_false (some found) = found

-- Every round passes a byte.
unfoldable pub has_class : Utf8proc → Bytes → Bytes → Bool
has_class U value name = or_false (find_class (suc (length value)) U value name)

abbrev pub is_element : NodeKind → Bool
is_element element = true
is_element text_node = false

abbrev pub or_blank : Option Bytes → Bytes
or_blank none = []
or_blank (some value) = value

abbrev pub attribute_of : Node → Bytes → Bytes
attribute_of node key = or_blank (tai_map_get node.attributes key)

unfoldable pub any : (ℕ → Bool) → List ℕ → Bool
any t [] = false
any t (x ∷ xs) = t x || any t xs

-- `has_descendant` with the selector's test, for `fuel` levels.
unfoldable pub has_descendant : ℕ → Heap → (ℕ → Bool) → ℕ → Bool
has_descendant zero h t n = false
has_descendant (suc fuel) h t n = any (λ c. t c || has_descendant fuel h t c) (h n).children

unfoldable pub holds_all : List (ℕ → Bool) → ℕ → Bool
holds_all [] n = true
holds_all (t ∷ ts) n = t n && holds_all ts n

-- The tests that `i` still counts, the last one first.
abbrev pub next_tests : (ℕ → Bool) → List (ℕ → Bool) → ℕ → List (ℕ → Bool)
next_tests t ts n = if t n then ts else t ∷ ts

-- The loop over the ancestors, for at most `fuel` of them: whether all tests have been met.
unfoldable pub climb_ancestors : ℕ → Heap → List (ℕ → Bool) → Option ℕ → Bool
climb_ancestors fuel h [] n = true
climb_ancestors zero h (t ∷ ts) n = false
climb_ancestors (suc fuel) h (t ∷ ts) none = false
climb_ancestors (suc fuel) h (t ∷ ts) (some n) =
    climb_ancestors fuel h (next_tests t ts n) (h n).parent

-- The DESCENDANT case, on the tests from the last one. Without any, the code reads before the array.
unfoldable pub descends : Heap → List (ℕ → Bool) → ℕ → Bool
descends h [] n = false
descends h (t ∷ ts) n = t n && climb_ancestors (suc max_depth) h ts (h n).parent

-- `tests_of` are the tests of the children, in order.
unfoldable mutual
  pub tai_selector_matches : Utf8proc → Heap → Selector → ℕ → Bool
  tai_selector_matches U h (sequence p ss) n = holds_all (tests_of U h ss) n
  tai_selector_matches U h (descendant p ss) n = descends h (reverse (tests_of U h ss)) n
  tai_selector_matches U h (tag p name) n = is_element (h n).kind && str_eq (h n).value name
  tai_selector_matches U h (visited p) n =
      is_element (h n).kind && (h n).visited && str_eq (h n).value (codes "a")
  tai_selector_matches U h (has p s) n =
      is_element (h n).kind && has_descendant (suc max_depth) h (tai_selector_matches U h s) n
  tai_selector_matches U h (id p name) n =
      is_element (h n).kind && str_eq (attribute_of (h n) (codes "id")) name
  tai_selector_matches U h (class p name) n =
      is_element (h n).kind && has_class U (attribute_of (h n) (codes "class")) name

  pub tests_of : Utf8proc → Heap → Selectors → List (ℕ → Bool)
  tests_of U h no_more = []
  tests_of U h (more s ss) = tai_selector_matches U h s ∷ tests_of U h ss
