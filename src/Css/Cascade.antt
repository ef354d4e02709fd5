-- ===== src/Css/Cascade.antt =====
-- src/css.c: the style of a node, from what it inherits, the rules of a sheet and its own `style`
-- attribute; up to the font size, which is computed with the C doubles. Allocations succeed. A rank
-- is an `int`.
pub mod Ranks
pub mod Deciding
pub mod Fits
use tai_ci.Base.{
  ℕ, zero, suc, ◌+◌, Bool, true, false, not, List, [], ◌∷◌, Option, none, some, Bytes, codes, leb,
  ltb, ◌==◌, if◌then◌else◌, str_eq,
}
use tai_ci.Port.{ℤ, pos, negsuc}
use tai_ci.Maps.{Map, Pair, empty_map, tai_map_set, tai_map_get, tai_map_priority}
use tai_ci.Utf8.{Utf8proc}
use tai_ci.Dom.{NodeKind, element, text_node, Node, Heap}
use tai_ci.Css.{Selector, tai_selector_matches, is_element}
use tai_ci.Css.Selecting.{Parse, parsed, refused, no_memory, unfinished, int_max, priority}
use tai_ci.Css.Sheets.{Rule, body}

abbrev pub at_least : ℕ → ℤ → Bool
at_least rank (pos n) = leb n rank
at_least rank (negsuc n) = true

abbrev pub is_important : ℤ → Bool
is_important (pos n) = ltb 0 n
is_important (negsuc n) = true

-- A style, none where memory runs out or the `style` attribute is refused, or a rank that overflows,
-- on which C says nothing.
pub data Styled : Type 0 where
  styled : Map → Styled
  no_style : Styled
  overflow : Styled

abbrev pub set_style : Map × Bool → Styled
set_style (m, ok) = if ok then styled m else no_style

abbrev pub then_style : Styled → (Map → Styled) → Styled
then_style (styled m) f = f m
then_style no_style f = no_style
then_style overflow f = overflow

abbrev pub as_int : ℕ → Option ℕ
as_int n = if leb n int_max then some n else none

unfoldable pub rank_in : ℕ → Pair → Option ℕ
rank_in priority p = as_int (priority + (if is_important p.priority then 10000 else 0))

-- One round of the loop of `apply`.
unfoldable pub apply_pair : Map → Pair → ℕ → Styled
apply_pair style p rank =
    if at_least rank (tai_map_priority style p.key)
    then set_style (tai_map_set true true true style p.key p.value (pos rank))
    else styled style

abbrev pub ranked : Map → Pair → Option ℕ → Styled
ranked style p none = overflow
ranked style p (some rank) = apply_pair style p rank

unfoldable pub apply : Map → List Pair → ℕ → Styled
apply style [] priority = styled style
apply style (p ∷ ps) priority =
    then_style (ranked style p (rank_in priority p)) (λ next. apply next ps priority)

-- The properties with their defaults, those that are inherited first.
abbrev pub inherited : List (Bytes × Bytes)
inherited =
    (codes "font-size", codes "16px")
    ∷ (codes "font-style", codes "normal")
    ∷ (codes "font-weight", codes "normal")
    ∷ (codes "color", codes "black")
    ∷ (codes "font-family", codes "Times")
    ∷ (codes "text-align", codes "left")
    ∷ []

abbrev pub own : List (Bytes × Bytes)
own =
    (codes "width", codes "auto")
    ∷ (codes "height", codes "auto")
    ∷ (codes "display", codes "inline")
    ∷ (codes "border-radius", codes "0px")
    ∷ (codes "overflow", codes "visible")
    ∷ (codes "opacity", codes "1.0")
    ∷ (codes "mix-blend-mode", codes "normal")
    ∷ (codes "filter", codes "none")
    ∷ []

abbrev pub or_default : Option Bytes → Bytes → Bytes
or_default none default = default
or_default (some v) default = v

-- The value of the parent's style, or the default where there is no parent or no value.
abbrev pub from_parent : Heap → Option ℕ → Bytes → Bytes → Bytes
from_parent h none key default = default
from_parent h (some p) key default = or_default (tai_map_get (h p).style key) default

unfoldable pub inherit : Heap → Option ℕ → Map → List (Bytes × Bytes) → Styled
inherit h parent style [] = styled style
inherit h parent style ((key, default) ∷ keys) =
    then_style
      (set_style (tai_map_set true true true style key (from_parent h parent key default) (pos 0)))
      (λ next. inherit h parent next keys)

unfoldable pub initial_style : Heap → Option ℕ → Styled
initial_style h parent =
    then_style (inherit h parent empty_map inherited) (λ style. inherit h none style own)

-- The style after a rule of the loop.
abbrev pub apply_rule : Utf8proc → Heap → ℕ → Map → Rule → Styled
apply_rule U h n style r =
    if tai_selector_matches U h r.selector n
    then apply style r.declarations.items (priority r.selector)
    else styled style

unfoldable pub apply_rules : Utf8proc → Heap → ℕ → Map → List Rule → Styled
apply_rules U h n style [] = styled style
apply_rules U h n style (r ∷ rules) =
    then_style (apply_rule U h n style r) (λ next. apply_rules U h n next rules)

abbrev pub apply_parsed : Map → Parse Map → Styled
apply_parsed style (parsed m rest) = apply style m.items 1000
apply_parsed style (refused rest) = no_style
apply_parsed style no_memory = no_style
apply_parsed style unfinished = no_style

abbrev pub apply_inline : Utf8proc → Map → Option Bytes → Styled
apply_inline U style none = styled style
apply_inline U style (some text) = apply_parsed style (body U empty_map text)

unfoldable pub apply_sheet : Utf8proc → Heap → ℕ → List Rule → Map → Styled
apply_sheet U h n rules style =
    if is_element (h n).kind
    then then_style (apply_rules U h n style rules)
        (λ next. apply_inline U next (tai_map_get (h n).attributes (codes "style")))
    else styled style

abbrev pub is_inherit : Option Bytes → Bool
is_inherit none = false
is_inherit (some v) = str_eq v (codes "inherit")

-- The loop over the properties whose value is `inherit`.
unfoldable pub resolve_inherit : Heap → Option ℕ → Map → List (Bytes × Bytes) → Styled
resolve_inherit h parent style [] = styled style
resolve_inherit h parent style ((key, default) ∷ keys) =
    let value = from_parent h parent key default in
    let changed =
      if is_inherit (tai_map_get style key)
      then set_style (tai_map_set true true true style key value (tai_map_priority style key))
      else styled style in
    then_style changed (λ next. resolve_inherit h parent next keys)

-- The style of a node before its font size is computed; nothing where memory runs out.
unfoldable pub cascaded_style : Utf8proc → Heap → List Rule → ℕ → Styled
cascaded_style U h rules n = then_style (initial_style h (h n).parent) (λ start.
    then_style (apply_sheet U h n rules start)
      (λ style. resolve_inherit h (h n).parent style inherited))
