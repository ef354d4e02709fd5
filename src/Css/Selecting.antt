-- ===== src/Css/Selecting.antt =====
-- src/css.c: the parser of selectors. A parser's position is the text that is left; `refused` is
-- NULL or false, with the position where the function gave up, and `no_memory` is that with `oom` set,
-- which every caller hands on. `unfinished` is not one of the code's: it
-- stands for a loop that is still running when its fuel is gone, and is handed on as well. Allocations succeed, so `oom` comes from `utf8proc_map`, which refuses
-- text that is not UTF-8.
pub mod Specificity
pub mod PartShapes
pub mod Shapes
pub mod Progress
pub mod Ends
pub mod Within
use tai_ci.Base.{
  ℕ, zero, suc, ◌+◌, ◌-◌, Bool, true, false, not, ◌||◌, ◌&&◌, List, [], ◌∷◌, Option, none, some,
  Bytes, codes, length, drop, take, ltb, ◌==◌, if◌then◌else◌, str_eq,
}
use tai_ci.Utf8.{Utf8proc, character}
use tai_ci.Css.{
  Selector, tag, class, id, visited, has, sequence, descendant, Selectors, no_more, more, space,
}

pub data Parse (A : Type 0) : Type 0 where
  parsed : A → Bytes → Parse A
  refused : Bytes → Parse A
  no_memory : Parse A
  unfinished : Parse A

abbrev pub and_then : {A B : Type 0} → Parse A → (A → Bytes → Parse B) → Parse B
and_then (parsed x rest) f = f x rest
and_then (refused rest) f = refused rest
and_then no_memory f = no_memory
and_then unfinished f = unfinished

abbrev pub int_max : ℕ
int_max = 2147483647

-- `slice`: the text, case-folded where `lower` is set.
abbrev pub sliced : Option Bytes → Bytes → Parse Bytes
sliced none rest = no_memory
sliced (some name) rest = parsed name rest

unfoldable pub slice : Utf8proc → Bool → Bytes → Bytes → Parse Bytes
slice U lower text rest = sliced (if lower then U.casefold text else some text) rest

-- The test of the loop of `identifier`: of `#.%` in a word, and of `_` in a name.
unfoldable pub in_name : Utf8proc → Bool → ℕ → Bool
in_name U word cp =
    U.is_alnum cp || cp == 45 || (if word then cp == 35 || cp == 46 || cp == 37 else cp == 95)

-- The position after the characters of a name. The length of the text is fuel enough.
unfoldable pub past_name : ℕ → Utf8proc → Bool → Bytes → Bytes
past_name zero U word text = text
past_name (suc fuel) U word [] = []
past_name (suc fuel) U word (b ∷ rest) =
    let next = past_name fuel U word (drop (character U b rest).0 (b ∷ rest)) in
    if in_name U word (character U b rest).1 then next else b ∷ rest

unfoldable pub identifier : Utf8proc → Bool → Bool → Bytes → Parse Bytes
identifier U lower word text =
    let rest = past_name (length text) U word text in
    if length rest == length text
    then refused text
    else slice U lower (take (length text - length rest) text) rest

abbrev pub priority : Selector → ℕ
priority (tag p name) = p
priority (class p name) = p
priority (id p name) = p
priority (visited p) = p
priority (has p s) = p
priority (sequence p ss) = p
priority (descendant p ss) = p

-- A selector that is being built: its priority and its children.
pub record Building : Type 0 where
  pub priority : ℕ
  pub children : Selectors

abbrev pub nothing : Building
nothing = record { priority = 0; children = no_more }

abbrev pub append_child : Selectors → Selector → Selectors
append_child no_more s = more s no_more
append_child (more t ss) s = more t (append_child ss s)

unfoldable pub child_add : Building → Selector → Bytes → Parse Building
child_add parent child rest =
    if ltb (int_max - priority child) parent.priority
    then refused rest
    else parsed
        (record {
          priority = parent.priority + priority child;
          children = append_child parent.children child;
        })
        rest

-- Up to the `)` that closes, and what follows it; `depth` are the `(` that are open.
unfoldable pub closing : ℕ → Bytes → Option (Bytes × Bytes)
closing depth [] = none
closing depth (b ∷ rest) =
    let next = closing (if b == 40 then suc depth else if b == 41 then depth - 1 else depth) rest in
    if b == 41 && depth == 1
    then some ([], rest)
    else elim next [ none ↦ none | some (inner, after) ↦ some (b ∷ inner, after) ]

-- The selector inside `:has(...)`; the text after it is where the outer parser goes on.
abbrev pub inside_has : Parse Selector → Bytes → Parse Selector
inside_has (parsed s left) after =
    and_then (child_add (record { priority = 10; children = no_more }) s after)
      (λ built rest. parsed (has built.priority s) rest)
inside_has (refused left) after = refused after
inside_has no_memory after = no_memory
inside_has unfinished after = unfinished

abbrev pub has_argument : (Bytes → Parse Selector) → Option (Bytes × Bytes) → Parse Selector
has_argument selector none = refused []
has_argument selector (some (inner, after)) = inside_has (selector inner) after

-- `nested` is the parser of the selector inside; there is none at the depth limit.
abbrev pub has_part : Option (Bytes → Parse Selector) → Bytes → Parse Selector
has_part none text = refused text
has_part (some selector) [] = refused []
has_part (some selector) (b ∷ rest) =
    if b == 40 then has_argument selector (closing 1 rest) else refused (b ∷ rest)

abbrev pub pseudo : Option (Bytes → Parse Selector) → Bytes → Bytes → Parse Selector
pseudo nested name rest =
    if str_eq name (codes "visited")
    then parsed (visited 10) rest
    else if str_eq name (codes "has")
    then has_part nested rest
    else refused rest

-- The part behind a `.`, a `#` or a `:`.
unfoldable pub part : Utf8proc → Option (Bytes → Parse Selector) → ℕ → Bytes → Parse Selector
part U nested mark text = and_then (identifier U (mark == 58) false text) (λ name rest.
    if mark == 46
    then parsed (class 10 name) rest
    else if mark == 35
    then parsed (id 100 name) rest
    else pseudo nested name rest)

unfoldable pub is_mark : ℕ → Bool
is_mark b = b == 46 || b == 58 || b == 35

-- The loop over the parts; every round passes a byte.
unfoldable pub parts :
    ℕ → Utf8proc → Option (Bytes → Parse Selector) → Building → Bytes → Parse Building
parts zero U nested built text = unfinished
parts (suc fuel) U nested built [] = parsed built []
parts (suc fuel) U nested built (b ∷ rest) =
    let next =
      and_then (part U nested b rest)
        (λ s after. and_then (child_add built s after) (parts fuel U nested)) in
    if is_mark b then next else parsed built (b ∷ rest)

-- A single child stands for itself.
abbrev pub one_or : (ℕ → Selectors → Selector) → ℕ → Selectors → Selector
one_or kind p no_more = kind p no_more
one_or kind p (more s no_more) = s
one_or kind p (more s (more t ss)) = kind p (more s (more t ss))

abbrev pub sequence_of : ℕ → Selectors → Bytes → Parse Selector
sequence_of p no_more rest = refused rest
sequence_of p (more s ss) rest = parsed (one_or sequence p (more s ss)) rest

abbrev pub first_part : Utf8proc → Bytes → Parse Building
first_part U [] = parsed nothing []
first_part U (b ∷ rest) =
    if is_mark b
    then parsed nothing (b ∷ rest)
    else and_then (identifier U true false (b ∷ rest))
        (λ name after. child_add nothing (tag 1 name) after)

unfoldable pub simple : Utf8proc → Option (Bytes → Parse Selector) → Bytes → Parse Selector
simple U nested text = and_then (first_part U text) (λ start rest.
    and_then (parts (suc (length rest)) U nested start rest)
      (λ built after. sequence_of built.priority built.children after))

-- Whether the loop of `selector` ends.
abbrev pub line_ends : Bytes → Bool
line_ends [] = true
line_ends (b ∷ rest) = b == 123

-- The loop; every round passes a byte.
unfoldable pub compound :
    ℕ → Utf8proc → Option (Bytes → Parse Selector) → Building → Bytes → Parse Selector
compound zero U nested out text = unfinished
compound (suc fuel) U nested out text = and_then (simple U nested text) (λ s rest.
    and_then (child_add out s rest) (λ built after.
      let left = space U after in
      let next = compound fuel U nested built left in
      if line_ends left
      then parsed (one_or descendant built.priority built.children) left
      else next))

-- `selector`, where `levels` are those that are left below the limit of 128.
unfoldable pub selector : ℕ → Utf8proc → Bytes → Parse Selector
selector zero U text = compound (suc (length text)) U none nothing text
selector (suc levels) U text =
    compound (suc (length text)) U (some (selector levels U)) nothing text

abbrev pub answer : Parse Selector → Option Selector
answer (parsed s rest) = some s
answer (refused rest) = none
answer no_memory = none
answer unfinished = none

unfoldable pub tai_selector_parse : Utf8proc → Bytes → Option Selector
tai_selector_parse U text = answer (selector 128 U text)
