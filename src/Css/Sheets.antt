-- ===== src/Css/Sheets.antt =====
-- src/css.c: declarations, rules and sheets, with the parser's positions and results as in Selecting.
-- A map's growth fails only where its capacity overflows.
pub mod Rules
pub mod Positions
pub mod Recovery
pub mod Ends
use tai_ci.Base.{
  ℕ, zero, suc, ◌+◌, ◌-◌, Bool, true, false, not, ◌||◌, ◌&&◌, List, [], ◌∷◌, ◌++◌, Option, none,
  some, Bytes, codes, length, drop, leb, ◌==◌, if◌then◌else◌, str_eq,
}
use tai_ci.Port.{pos}
use tai_ci.Maps.{Map, Pair, empty_map, tai_map_set}
use tai_ci.Utf8.{Utf8proc}
use tai_ci.Css.{Selector, whitespace_at, space}
use tai_ci.Css.Selecting.{
  Parse, parsed, refused, no_memory, unfinished, and_then, slice, identifier, selector,
}

pub record Rule : Type 0 where
  pub selector : Selector
  pub declarations : Map

-- What a declaration has gathered: `family` and `value` are NULL at first.
pub record Gathered : Type 0 where
  pub value : Option Bytes
  pub family : Option Bytes
  pub expanded : Map
  pub important : Bool
  pub saw_size : Bool

abbrev pub gathered_none : Gathered
gathered_none = record {
  value = none;
  family = none;
  expanded = empty_map;
  important = false;
  saw_size = false;
}

abbrev pub append_text : Option Bytes → Bytes → Bytes
append_text none text = text
append_text (some []) text = text
append_text (some (b ∷ out)) text = (b ∷ out) ++ 32 ∷ text

unfoldable pub ends : Bytes → Bytes → Bool
ends s suffix = leb (length suffix) (length s) && str_eq (drop (length s - length suffix) s) suffix

abbrev pub prefixed : ℕ → Parse Bytes → Parse Bytes
prefixed b (parsed token rest) = parsed (b ∷ token) rest
prefixed b (refused rest) = refused rest
prefixed b no_memory = no_memory
prefixed b unfinished = unfinished

-- The token up to white space or one of `;}!` outside of parentheses, of which `depth` are open.
unfoldable pub scan_token : Utf8proc → ℕ → Bytes → Parse Bytes
scan_token U depth [] = if depth == 0 then parsed [] [] else refused []
scan_token U depth (b ∷ rest) =
    let next =
      scan_token U (if b == 40 then suc depth else if b == 41 then depth - 1 else depth) rest in
    if depth == 0 && (whitespace_at U (b ∷ rest) || b == 59 || b == 125 || b == 33)
    then parsed [] (b ∷ rest)
    else if b == 41 && depth == 0
    then refused (b ∷ rest)
    else prefixed b next

abbrev pub set_expanded : Gathered → Map × Bool → Bytes → Parse Gathered
set_expanded v (m, stored) rest =
    if stored then parsed (record v { expanded = m }) rest else no_memory

-- A token of `font`.
unfoldable pub store_font : Gathered → Bytes → Bytes → Parse Gathered
store_font v token rest =
    if str_eq token (codes "italic")
    then set_expanded v (tai_map_set true true true v.expanded (codes "font-style") token (pos 0))
        rest
    else if str_eq token (codes "bold")
    then set_expanded v (tai_map_set true true true v.expanded (codes "font-weight") token (pos 0))
        rest
    else if str_eq token (codes "normal")
    then and_then
        (set_expanded v (tai_map_set true true true v.expanded (codes "font-style") token (pos 0))
          rest)
        (λ w left.
          set_expanded w (tai_map_set true true true w.expanded (codes "font-weight") token (pos 0))
            left)
    else if ends token (codes "px") || ends token (codes "%")
    then set_expanded (record v { saw_size = true })
        (tai_map_set true true true v.expanded (codes "font-size") token (pos 0)) rest
    else if v.saw_size
    then parsed (record v { family = some (append_text v.family token) }) rest
    else parsed v rest

unfoldable pub store_token : Bool → Gathered → Bytes → Bytes → Parse Gathered
store_token font v token rest =
    if font
    then store_font v token rest
    else parsed (record v { value = some (append_text v.value token) }) rest

abbrev pub important_name : Gathered → Bytes → Bytes → Parse Gathered
important_name v name rest =
    if str_eq name (codes "important")
    then parsed (record v { important = true }) rest
    else refused rest

abbrev pub nonempty_token : Utf8proc → Bool → Bytes → Bytes → Parse Bytes
nonempty_token U font [] rest = refused rest
nonempty_token U font (b ∷ token) rest = slice U font (b ∷ token) rest

-- One round of the loop of `declaration`, from the first byte of what is there.
unfoldable pub gather : Utf8proc → Bool → Gathered → ℕ → Bytes → Parse Gathered
gather U font v b rest =
    if b == 33
    then and_then (identifier U true false (space U rest)) (important_name v)
    else and_then (and_then (scan_token U 0 (b ∷ rest)) (nonempty_token U font))
        (store_token font v)

-- The loop, before `;`, `}` or the end. Every round passes a byte.
unfoldable pub values : ℕ → Utf8proc → Bool → Gathered → Bytes → Parse Gathered
values zero U font v text = unfinished
values (suc fuel) U font v [] = parsed v []
values (suc fuel) U font v (b ∷ rest) =
    let next = and_then (gather U font v b rest) (λ w left. values fuel U font w (space U left)) in
    if b == 59 || b == 125 then parsed v (b ∷ rest) else next

abbrev pub set_declaration : Map × Bool → Bytes → Parse Map
set_declaration (m, stored) rest = if stored then parsed m rest else no_memory

abbrev pub rank_of : Bool → ℕ
rank_of true = 1
rank_of false = 0

-- The pairs of `expanded`, in order.
unfoldable pub set_pairs : Bool → Map → List Pair → Bytes → Parse Map
set_pairs important map [] rest = parsed map rest
set_pairs important map (p ∷ ps) rest =
    and_then
      (set_declaration (tai_map_set true true true map p.key p.value (pos (rank_of important)))
        rest)
      (λ m left. set_pairs important m ps left)

abbrev pub with_family : Gathered → Option Bytes → Bytes → Parse Gathered
with_family v none rest = parsed v rest
with_family v (some family) rest =
    set_expanded v (tai_map_set true true true v.expanded (codes "font-family") family (pos 0)) rest

abbrev pub or_none : Option Bytes → Bytes
or_none none = []
or_none (some value) = value

unfoldable pub store_declaration : Map → Bytes → Gathered → Bytes → Parse Map
store_declaration map prop v rest =
    if str_eq prop (codes "font")
    then and_then (with_family v v.family rest)
        (λ w left. set_pairs w.important map w.expanded.items left)
    else set_declaration
        (tai_map_set true true true map prop (or_none v.value) (pos (rank_of v.important))) rest

-- After the property and white space.
unfoldable pub after_property : Utf8proc → Map → Bytes → Bytes → Parse Map
after_property U map prop [] = refused []
after_property U map prop (b ∷ rest) =
    let text = space U rest in
    if b == 58
    then and_then (values (suc (length text)) U (str_eq prop (codes "font")) gathered_none text)
        (store_declaration map prop)
    else refused (b ∷ rest)

unfoldable pub declaration : Utf8proc → Map → Bytes → Parse Map
declaration U map text =
    and_then (identifier U true true text) (λ prop rest. after_property U map prop (space U rest))

-- The loop of `body` after a declaration that is refused.
unfoldable pub to_next : Bytes → Bytes
to_next [] = []
to_next (b ∷ rest) = let next = to_next rest in if b == 59 || b == 125 then b ∷ rest else next

abbrev pub past_semicolon : Bytes → Bytes
past_semicolon [] = []
past_semicolon (b ∷ rest) = if b == 59 then rest else b ∷ rest

-- The map and the position after a declaration.
abbrev pub recovered : Map → Parse Map → Parse Map
recovered map (parsed m rest) = parsed m (past_semicolon rest)
recovered map (refused rest) = parsed map (past_semicolon (to_next rest))
recovered map no_memory = no_memory
recovered map unfinished = unfinished

-- The loop of `body`.
unfoldable pub declarations : ℕ → Utf8proc → Map → Bytes → Parse Map
declarations zero U map text = unfinished
declarations (suc fuel) U map [] = parsed map []
declarations (suc fuel) U map (b ∷ rest) =
    let next =
      and_then (recovered map (declaration U map (b ∷ rest)))
        (λ m left. declarations fuel U m (space U left)) in
    if b == 125 then parsed map (b ∷ rest) else next

unfoldable pub body : Utf8proc → Map → Bytes → Parse Map
body U map text = let start = space U text in declarations (suc (length start)) U map start

-- A rule whose selector is parsed, up to its `}`.
abbrev pub closed_rule : Selector → Map → Bytes → Parse Rule
closed_rule s m [] = refused []
closed_rule s m (b ∷ rest) =
    if b == 125
    then parsed (record { selector = s; declarations = m }) (b ∷ rest)
    else refused (b ∷ rest)

abbrev pub rule_of : Utf8proc → Selector → Bytes → Parse Rule
rule_of U s [] = refused []
rule_of U s (b ∷ rest) =
    if b == 123 then and_then (body U empty_map rest) (closed_rule s) else refused (b ∷ rest)

unfoldable pub rule : Utf8proc → Bytes → Parse Rule
rule U text = and_then (selector 128 U text) (rule_of U)

unfoldable pub past_rule : Bytes → Bytes
past_rule [] = []
past_rule (b ∷ rest) = let next = past_rule rest in if b == 125 then rest else next

-- How the loop over the rules ends: `running` is that its fuel is gone.
pub data Ending : Type 0 where
  done : Ending
  failed : Ending
  running : Ending

-- The end of a round, which hands on to the next one or leaves the loop where memory runs out.
abbrev pub go_on :
    (List Rule → Bytes → List Rule × Ending) → List Rule → Parse Rule → List Rule × Ending
go_on f rules (parsed r rest) = f (rules ++ r ∷ []) (past_rule rest)
go_on f rules (refused rest) = f rules (past_rule rest)
go_on f rules no_memory = (rules, failed)
go_on f rules unfinished = (rules, running)

-- The loop of `tai_css_extend`; every round passes a byte.
unfoldable pub extend : ℕ → Utf8proc → List Rule → Bytes → List Rule × Ending
extend zero U rules text = (rules, running)
extend (suc fuel) U rules [] = (rules, done)
extend (suc fuel) U rules (b ∷ rest) = go_on (extend fuel U) rules (rule U (space U (b ∷ rest)))

-- The rules of the sheet, and the result.
unfoldable pub tai_css_extend : Utf8proc → List Rule → Bytes → List Rule × Ending
tai_css_extend U rules css = extend (suc (length css)) U rules css

abbrev pub all_or_none : List Rule × Ending → Option (List Rule)
all_or_none (rules, done) = some rules
all_or_none (rules, failed) = none
all_or_none (rules, running) = none

unfoldable pub tai_css_parse : Utf8proc → Bytes → Option (List Rule)
tai_css_parse U css = all_or_none (tai_css_extend U [] css)
