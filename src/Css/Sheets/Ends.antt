-- ===== src/Css/Sheets/Ends.antt =====
-- The loops over the values, the declarations and the rules of src/css.c.
use tai_ci.Base.{
  ℕ, zero, suc, ◌≤◌, ◌<◌, ◌≢◌, inl, inr, List, [], ◌∷◌, ◌++◌, Bytes, arith, length, ◌==◌,
  Bool-cases,
}
use tai_ci.Maps.{Map, empty_map}
use tai_ci.Utf8.{Utf8proc}
use tai_ci.Css.{Selector, space}
use tai_ci.Css.Selecting.{Parse, parsed, refused, no_memory, unfinished, selector}
use tai_ci.Css.Selecting.Progress.{length-space}
use tai_ci.Css.Selecting.Within.{Within, and_then-Within, test-Within, Within-up}
use tai_ci.Css.Selecting.Ends.{Within-ends, selector-Within}
use tai_ci.Css.Sheets.{
  Rule, declaration, recovered, declarations, body, closed_rule, rule_of, rule, past_rule, Ending,
  running, go_on, extend, tai_css_extend,
}
use tai_ci.Css.Sheets.Recovery.{declaration-Given, recovered-Strict}
use tai_ci.Css.Sheets.Positions.{round-Within}

declarations-Within :
    (fuel : ℕ) (U : Utf8proc) (map : Map) (text : Bytes) (n : ℕ)
    → length text < fuel
    → length text ≤ n
    → Within n (declarations fuel U map text)
unfolding declarations
declarations-Within zero U map text n enough k = absurd (omega arith)
declarations-Within (suc fuel) U map [] n enough k = k
declarations-Within (suc fuel) U map (b ∷ rest) n enough k = elim (Bool-cases (b == 125)) [
  | inl e ↦ rw e k
  | inr e ↦ rw e (
      round-Within (suc (length rest)) n (recovered map (declaration U map (b ∷ rest))) _ k
        (recovered-Strict map b rest (declaration U map (b ∷ rest)) e
          (declaration-Given U map b rest))
        (λ m left l.
          let low = length-space U left in
          declarations-Within fuel U m (space U left) n (omega (arith, low, l))
            (omega (arith, low, l))))
]

body-Within :
    (U : Utf8proc) (map : Map) (text : Bytes) (n : ℕ) → length text ≤ n → Within n (body U map text)
unfolding body
body-Within U map text n k =
    declarations-Within (suc (length (space U text))) U map (space U text) n (omega arith)
      (omega (arith, length-space U text))

closed_rule-Within :
    (s : Selector) (m : Map) (rest : Bytes) (n : ℕ)
    → length rest ≤ n
    → Within n (closed_rule s m rest)
closed_rule-Within s m [] n k = k
closed_rule-Within s m (b ∷ rest) n k =
    test-Within n (b == 125) (parsed _ (b ∷ rest)) (refused (b ∷ rest)) k k

rule_of-Within :
    (U : Utf8proc) (s : Selector) (text : Bytes) (n : ℕ)
    → length text ≤ n
    → Within n (rule_of U s text)
rule_of-Within U s [] n k = k
rule_of-Within U s (b ∷ rest) n k =
    test-Within n (b == 123) _ (refused (b ∷ rest))
      (and_then-Within n (body U empty_map rest) _ (body-Within U empty_map rest n (omega arith))
        (λ m left l. closed_rule-Within s m left n l))
      k

rule-Within : (U : Utf8proc) (text : Bytes) (n : ℕ) → length text ≤ n → Within n (rule U text)
unfolding rule
rule-Within U text n k =
    and_then-Within n (selector 128 U text) _
      (Within-up (length text) n (selector 128 U text) k (selector-Within 128 U text))
      (λ s rest l. rule_of-Within U s rest n l)

length-past_rule : (text : Bytes) (n : ℕ) → length text ≤ suc n → length (past_rule text) ≤ n
unfolding past_rule
length-past_rule [] n k = omega arith
length-past_rule (b ∷ rest) n k = elim (Bool-cases (b == 125)) [
  | inl e ↦ rw e (omega arith)
  | inr e ↦ rw e (length-past_rule rest n (omega arith))
]

-- A round ends, and the loop goes on before `n` bytes at most.
go_on-ends :
    (rules : List Rule) (f : List Rule → Bytes → List Rule × Ending) (r : Parse Rule) (n : ℕ)
    → Within (suc n) r
    → ((more : List Rule) (rest : Bytes) → length rest ≤ n → (f more rest).1 ≢ running)
    → (go_on f rules r).1 ≢ running
go_on-ends rules f (parsed r rest) n k g =
    g (rules ++ r ∷ []) (past_rule rest) (length-past_rule rest n k)
go_on-ends rules f (refused rest) n k g = g rules (past_rule rest) (length-past_rule rest n k)
go_on-ends rules f no_memory n k g = λ e. ground (arith, e)
go_on-ends rules f unfinished n k g = λ e. ground (arith, k)

extend-ends :
    (fuel : ℕ) (U : Utf8proc) (rules : List Rule) (text : Bytes)
    → length text < fuel
    → (extend fuel U rules text).1 ≢ running
unfolding extend
extend-ends zero U rules text enough = absurd (omega arith)
extend-ends (suc fuel) U rules [] enough = λ e. ground (arith, e)
extend-ends (suc fuel) U rules (b ∷ rest) enough =
    go_on-ends rules (extend fuel U) (rule U (space U (b ∷ rest))) (length rest)
      (rule-Within U (space U (b ∷ rest)) (suc (length rest)) (length-space U (b ∷ rest)))
      (λ more left k. extend-ends fuel U more left (omega arith))

-- On every text tai_css_extend and the parser of a rule's body end, with success, a refusal or out of
-- memory: the loops over the rules, over the declarations of a rule and over the values of a
-- declaration each leave by their own test within one round more than there are bytes left.
pub sheet-ends :
    (U : Utf8proc) (rules : List Rule) (map : Map) (text : Bytes)
    → ((tai_css_extend U rules text).1 ≢ running) × (body U map text ≢ unfinished)
unfolding tai_css_extend
sheet-ends U rules map text = (
  extend-ends (suc (length text)) U rules text (omega arith),
  Within-ends (length text) (body U map text) (body-Within U map text (length text) (omega arith)),
)
