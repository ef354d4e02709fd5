-- ===== src/Css/Cascade/Fits.antt =====
-- The ranks of src/css.c as an `int`.
use tai_ci.Base.{
  ℕ, ◌+◌, ◌≤◌, ◌≡◌, ◌≢◌, Bool, true, false, List, [], ◌∷◌, Option, none, some, Bytes, codes, arith,
  if◌then◌else◌, Bool-cases, inl, inr, All,
}
use tai_ci.Port.{pos}
use tai_ci.Maps.{Map, Pair, empty_map, tai_map_set, tai_map_get, tai_map_priority}
use tai_ci.Utf8.{Utf8proc}
use tai_ci.Dom.{Heap}
use tai_ci.Css.{tai_selector_matches, is_element}
use tai_ci.Css.Selecting.{Parse, parsed, refused, no_memory, unfinished, int_max, priority}
use tai_ci.Css.Sheets.{Rule, body}
use tai_ci.Css.Cascade.{
  at_least, is_important, Styled, styled, no_style, overflow, set_style, then_style, as_int,
  rank_in, apply_pair, ranked, apply, apply_rules, apply_parsed, apply_inline, apply_sheet,
}

-- Room for the 10000 of `!important`.
abbrev pub Roomy : Rule → Type 0
Roomy r = priority r.selector + 10000 ≤ int_max

then_style-fits :
    (o : Styled) (f : Map → Styled)
    → o ≢ overflow
    → ((m : Map) → f m ≢ overflow)
    → then_style o f ≢ overflow
then_style-fits (styled m) f a b = b m
then_style-fits no_style f a b = a
then_style-fits overflow f a b = a

test_fits :
    (b : Bool) (o q : Styled) → o ≢ overflow → q ≢ overflow → (if b then o else q) ≢ overflow
test_fits true o q f g = f
test_fits false o q f g = g

styled_fits : (m : Map) → styled m ≢ overflow
styled_fits m e = ground (arith, e)

no_style_fits : no_style ≢ overflow
no_style_fits e = ground (arith, e)

set_style-fits : (r : Map × Bool) → set_style r ≢ overflow
set_style-fits (m, true) = styled_fits m
set_style-fits (m, false) = no_style_fits

apply_pair-fits : (style : Map) (p : Pair) (rank : ℕ) → apply_pair style p rank ≢ overflow
unfolding apply_pair
apply_pair-fits style p rank =
    test_fits (at_least rank (tai_map_priority style p.key)) _ (styled style)
      (set_style-fits (tai_map_set true true true style p.key p.value (pos rank)))
      (styled_fits style)

as_int-fits : (n : ℕ) → n ≤ int_max → as_int n ≡ some n
as_int-fits n k = ground (arith, k)

ranked-fits :
    (style : Map) (p : Pair) (priority : ℕ)
    → priority + 10000 ≤ int_max
    → ranked style p (rank_in priority p) ≢ overflow
unfolding rank_in
ranked-fits style p priority k = elim (Bool-cases (is_important p.priority)) [
  | inl e ↦ rw (e, as_int-fits (priority + 10000) k) (apply_pair-fits style p (priority + 10000))
  | inr e ↦
      rw (e, as_int-fits (priority + 0) (omega (arith, k))) (apply_pair-fits style p (priority + 0))
]

apply-fits :
    (ps : List Pair) (style : Map) (priority : ℕ)
    → priority + 10000 ≤ int_max
    → apply style ps priority ≢ overflow
unfolding apply
apply-fits [] style priority k = styled_fits style
apply-fits (p ∷ ps) style priority k =
    then_style-fits (ranked style p (rank_in priority p)) _ (ranked-fits style p priority k)
      (λ next. apply-fits ps next priority k)

apply_rules-fits :
    (U : Utf8proc) (h : Heap) (n : ℕ) (rules : List Rule) (style : Map)
    → All Roomy rules
    → apply_rules U h n style rules ≢ overflow
unfolding apply_rules
apply_rules-fits U h n [] style a = styled_fits style
apply_rules-fits U h n (r ∷ rules) style a =
    then_style-fits _ _
      (test_fits (tai_selector_matches U h r.selector n) _ (styled style)
        (apply-fits r.declarations.items style (priority r.selector) a.0) (styled_fits style))
      (λ next. apply_rules-fits U h n rules next a.1)

apply_parsed-fits : (style : Map) (r : Parse Map) → apply_parsed style r ≢ overflow
apply_parsed-fits style (parsed m rest) = apply-fits m.items style 1000 (omega arith)
apply_parsed-fits style (refused rest) = no_style_fits
apply_parsed-fits style no_memory = no_style_fits
apply_parsed-fits style unfinished = no_style_fits

apply_inline-fits :
    (U : Utf8proc) (style : Map) (o : Option Bytes) → apply_inline U style o ≢ overflow
apply_inline-fits U style none = styled_fits style
apply_inline-fits U style (some text) = apply_parsed-fits style (body U empty_map text)

-- Where the selector of each rule has a priority of at most INT_MAX - 10000, no rank that is computed
-- while the rules and the `style` attribute are applied to a node overflows an `int`, whatever their
-- declarations are.
pub apply_sheet-fits :
    (U : Utf8proc) (h : Heap) (n : ℕ) (rules : List Rule) (style : Map)
    → All Roomy rules
    → apply_sheet U h n rules style ≢ overflow
unfolding apply_sheet
apply_sheet-fits U h n rules style a =
    test_fits (is_element (h n).kind) _ (styled style)
      (then_style-fits (apply_rules U h n style rules) _ (apply_rules-fits U h n rules style a)
        (λ next. apply_inline-fits U next (tai_map_get (h n).attributes (codes "style"))))
      (styled_fits style)
