-- ===== src/Css/Sheets/Rules.antt =====
-- The rules that src/css.c adds to a sheet.
use tai_ci.Base.{ℕ, zero, suc, ◌≡◌, refl, ap, ◌∙◌, List, [], ◌∷◌, ◌++◌, Bytes, length, All, ◌==◌}
use tai_ci.Maps.{Map, empty_map}
use tai_ci.Utf8.{Utf8proc}
use tai_ci.Css.{Selector, space}
use tai_ci.Css.Selecting.{Parse, parsed, refused, no_memory, unfinished, selector}
use tai_ci.Css.Selecting.Progress.{Each, and_then-Each, test-Each}
use tai_ci.Css.Selecting.Specificity.{Shaped, Got}
use tai_ci.Css.Selecting.Shapes.{selector-Got}
use tai_ci.Css.Sheets.{
  Ending, done, failed, running, Rule, body, closed_rule, rule_of, rule, past_rule, go_on, extend,
  tai_css_extend,
}

abbrev ShapedRule : Rule → Type 0
ShapedRule r = Shaped r.selector

abbrev ReadRule : Rule → Bytes → Type 0
ReadRule r rest = Shaped r.selector

abbrev AnyMap : Map → Bytes → Type 0
AnyMap m rest = Unit

any_result : (r : Parse Map) → Each AnyMap r
any_result (parsed m rest) = tt
any_result (refused rest) = tt
any_result no_memory = tt
any_result unfinished = tt

closed_rule-Shaped :
    (s : Selector) (m : Map) (rest : Bytes) → Shaped s → Each ReadRule (closed_rule s m rest)
closed_rule-Shaped s m [] f = tt
closed_rule-Shaped s m (b ∷ rest) f = test-Each ReadRule (b == 125) _ _ (λ e. f) (λ e. tt)

rule_of-Shaped :
    (U : Utf8proc) (s : Selector) (rest : Bytes) → Shaped s → Each ReadRule (rule_of U s rest)
rule_of-Shaped U s [] f = tt
rule_of-Shaped U s (b ∷ rest) f =
    test-Each ReadRule (b == 123) _ _
      (λ e.
        and_then-Each AnyMap ReadRule (body U empty_map rest) _ (any_result (body U empty_map rest))
          (λ m left k. closed_rule-Shaped s m left f))
      (λ e. tt)

rule-Shaped : (U : Utf8proc) (text : Bytes) → Each ReadRule (rule U text)
unfolding rule
rule-Shaped U text =
    and_then-Each (Got (length text)) ReadRule (selector 128 U text) _ (selector-Got 128 U text)
      (λ s rest got. rule_of-Shaped U s rest got.0)

-- The rules are those from before and then new ones, whose selectors are shaped.
abbrev pub Extends : List Rule → List Rule × Ending → Type 0
Extends rules r =
    (new : List Rule) × (r.0 ≡ rules ++ new) × All (λ (rule : Rule). Shaped rule.selector) new

append_none : (xs : List Rule) → xs ≡ xs ++ []
append_none [] = refl
append_none (x ∷ xs) = ap (λ l. x ∷ l) (append_none xs)

append_append : (xs ys zs : List Rule) → (xs ++ ys) ++ zs ≡ xs ++ (ys ++ zs)
append_append [] ys zs = refl
append_append (x ∷ xs) ys zs = ap (λ l. x ∷ l) (append_append xs ys zs)

kept-Extends : (rules : List Rule) (ok : Ending) → Extends rules (rules, ok)
kept-Extends rules ok = ([], append_none rules, tt)

go_on-Extends :
    (rules : List Rule) (f : List Rule → Bytes → List Rule × Ending) (r : Parse Rule)
    → ((more : List Rule) (rest : Bytes) → Extends more (f more rest))
    → Each ReadRule r
    → Extends rules (go_on f rules r)
go_on-Extends rules f (parsed r rest) g k =
    let (new, same, shaped) = g (rules ++ r ∷ []) (past_rule rest) in
    (r ∷ new, same ∙ append_append rules (r ∷ []) new, (k, shaped))
go_on-Extends rules f (refused rest) g k = g rules (past_rule rest)
go_on-Extends rules f no_memory g k = kept-Extends rules failed
go_on-Extends rules f unfinished g k = kept-Extends rules running

extend-Extends :
    (fuel : ℕ) (U : Utf8proc) (rules : List Rule) (text : Bytes)
    → Extends rules (extend fuel U rules text)
unfolding extend
extend-Extends zero U rules text = kept-Extends rules running
extend-Extends (suc fuel) U rules [] = kept-Extends rules done
extend-Extends (suc fuel) U rules (b ∷ rest) =
    go_on-Extends rules (extend fuel U) (rule U (space U (b ∷ rest))) (extend-Extends fuel U)
      (rule-Shaped U (space U (b ∷ rest)))

-- Whatever the text is, and whether the call succeeds or fails, the rules after tai_css_extend are
-- those from before, in order, and then new ones; and the selector of each new rule has, at every
-- depth, the priority that its parts add up to, which is an `int`, and no empty sequence or line.
pub css_extend-Extends :
    (U : Utf8proc) (rules : List Rule) (css : Bytes) → Extends rules (tai_css_extend U rules css)
unfolding tai_css_extend
css_extend-Extends U rules css = extend-Extends (suc (length css)) U rules css
