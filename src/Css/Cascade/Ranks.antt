-- ===== src/Css/Cascade/Ranks.antt =====
-- Which declaration gives a property its value in src/css.c.
use tai_ci.Base.{
  ℕ, zero, suc, ◌+◌, ◌≡◌, ◌⊎◌, refl, sym, ap, ◌∙◌, inl, inr, Bool, true, false, not, ◌||◌, List, [],
  ◌∷◌, ◌++◌, Option, none, some, Bytes, codes, arith, leb, if◌then◌else◌, str_eq, Bool-cases, All,
}
use tai_ci.Port.{ℤ, pos, negsuc}
use tai_ci.Maps.{Map, Pair, empty_map, tai_map_get, tai_map_priority}
use tai_ci.Utf8.{Utf8proc}
use tai_ci.Dom.{Heap}
use tai_ci.Css.{tai_selector_matches, is_element}
use tai_ci.Css.Selecting.{Parse, parsed, refused, no_memory, unfinished, priority}
use tai_ci.Css.Sheets.{Rule, body}
use tai_ci.Css.Cascade.{
  at_least, is_important, Styled, styled, no_style, overflow, then_style, as_int, rank_in,
  apply_pair, ranked, apply, apply_rule, apply_rules, apply_parsed, apply_inline, apply_sheet,
}

-- A declaration with its rank.
pub record Declared : Type 0 where
  pub pair : Pair
  pub rank : ℕ

-- What `!important`, which is a priority other than 0, adds to the rank.
abbrev pub weight : ℤ → ℕ
weight (pos zero) = 0
weight (pos (suc n)) = 10000
weight (negsuc n) = 10000

abbrev pub entries : List Pair → ℕ → List Declared
entries [] priority = []
entries (p ∷ ps) priority =
    record { pair = p; rank = priority + weight p.priority } ∷ entries ps priority

-- The declarations of the rules that match, in order.
abbrev pub rule_entries : Utf8proc → Heap → ℕ → List Rule → List Declared
rule_entries U h n [] = []
rule_entries U h n (r ∷ rules) =
    (if tai_selector_matches U h r.selector n
      then entries r.declarations.items (priority r.selector)
      else [])
    ++ rule_entries U h n rules

abbrev pub parsed_entries : Parse Map → List Declared
parsed_entries (parsed m rest) = entries m.items 1000
parsed_entries (refused rest) = []
parsed_entries no_memory = []
parsed_entries unfinished = []

abbrev pub inline_entries : Utf8proc → Option Bytes → List Declared
inline_entries U none = []
inline_entries U (some text) = parsed_entries (body U empty_map text)

-- All that a node gets: the matching rules' declarations, and then those of its `style` attribute,
-- whose selector counts 1000.
abbrev pub sheet_entries : Utf8proc → Heap → ℕ → List Rule → List Declared
sheet_entries U h n rules =
    if is_element (h n).kind
    then rule_entries U h n rules ++ inline_entries U (tai_map_get (h n).attributes (codes "style"))
    else []

-- Of another key, or of a rank that is at most, or below, a given one.
abbrev pub at_most : Bytes → ℕ → Declared → Bool
at_most key rank e = not (str_eq e.pair.key key) || leb e.rank rank

abbrev pub below_rank : Bytes → ℤ → Declared → Bool
below_rank key rank e = not (str_eq e.pair.key key) || not (at_least e.rank rank)

-- The value of a key after some declarations: the old one, where all of them for the key rank below
-- it; or that of a declaration for the key, which ranks no lower than the old one and than those
-- before it, and higher than those after it.
abbrev pub Decided : Map → List Declared → Map → Bytes → Type 0
Decided start es final key =
    ((tai_map_get final key ≡ tai_map_get start key)
      × All (λ e. below_rank key (tai_map_priority start key) e ≡ true) es)
    ⊎ ((before : List Declared) × (e : Declared) × (after : List Declared) × (es
          ≡ before ++ e ∷ after)
        × (str_eq e.pair.key key ≡ true)
        × (tai_map_get final key ≡ some e.pair.value)
        × (at_least e.rank (tai_map_priority start key) ≡ true)
        × All (λ x. at_most key e.rank x ≡ true) before
        × All (λ x. below_rank key (pos e.rank) x ≡ true) after)

unfoldable pub run : Map → List Declared → Styled
run style [] = styled style
run style (e ∷ es) = then_style (apply_pair style e.pair e.rank) (λ next. run next es)

pub then_style-styled :
    (o : Styled) (f : Map → Styled) (final : Map)
    → then_style o f ≡ styled final
    → (m : Map) × (o ≡ styled m) × (f m ≡ styled final)
then_style-styled (styled m) f final e = (m, refl, e)
then_style-styled no_style f final e = absurd (ground (arith, e))
then_style-styled overflow f final e = absurd (ground (arith, e))

styled_same : (m n : Map) → styled m ≡ styled n → m ≡ n
styled_same m n e = ground (arith, e)

run-append :
    (es fs : List Declared) (style m final : Map)
    → run style es ≡ styled m
    → run m fs ≡ styled final
    → run style (es ++ fs) ≡ styled final
unfolding run
run-append [] fs style m final e f = rw (styled_same style m e) f
run-append (x ∷ es) fs style m final e f =
    let (next, first, second) =
      then_style-styled (apply_pair style x.pair x.rank) (λ n. run n es) m e in
    rw first (run-append es fs next m final second f)

weight_of : (z : ℤ) → (if is_important z then 10000 else 0) ≡ weight z
weight_of (pos zero) = refl
weight_of (pos (suc n)) = ground arith
weight_of (negsuc n) = refl

as_int-some : (n rank : ℕ) → as_int n ≡ some rank → n ≡ rank
as_int-some n rank e = ground (arith, e)

ranked-apply_pair :
    (style m : Map) (p : Pair) (o : Option ℕ)
    → ranked style p o ≡ styled m
    → (rank : ℕ) × (o ≡ some rank) × (apply_pair style p rank ≡ styled m)
ranked-apply_pair style m p none e = absurd (ground (arith, e))
ranked-apply_pair style m p (some rank) e = (rank, refl, e)

-- A round that does not overflow applies the declaration with its rank.
ranked-weight :
    (style m : Map) (p : Pair) (priority : ℕ)
    → ranked style p (rank_in priority p) ≡ styled m
    → apply_pair style p (priority + weight p.priority) ≡ styled m
unfolding rank_in
ranked-weight style m p priority e =
    let (rank, fits, applied) = ranked-apply_pair style m p (rank_in priority p) e in
    let n = priority + (if is_important p.priority then 10000 else 0) in
    let same : priority + weight p.priority ≡ rank =
      ap (λ w. priority + w) (sym (weight_of p.priority)) ∙ as_int-some n rank fits in
    rw same applied

apply-run :
    (ps : List Pair) (style final : Map) (priority : ℕ)
    → apply style ps priority ≡ styled final
    → run style (entries ps priority) ≡ styled final
unfolding apply run
apply-run [] style final priority e = e
apply-run (p ∷ ps) style final priority e =
    let (next, first, second) =
      then_style-styled (ranked style p (rank_in priority p)) (λ n. apply n ps priority) final e in
    rw (ranked-weight style next p priority first) (apply-run ps next final priority second)

run_test :
    (b : Bool) (style final : Map) (ps : List Pair) (priority : ℕ)
    → (if b then apply style ps priority else styled style) ≡ styled final
    → run style (if b then entries ps priority else []) ≡ styled final
unfolding run
run_test true style final ps priority e = apply-run ps style final priority e
run_test false style final ps priority e = e

apply_rules-run :
    (U : Utf8proc) (h : Heap) (n : ℕ) (rules : List Rule) (style final : Map)
    → apply_rules U h n style rules ≡ styled final
    → run style (rule_entries U h n rules) ≡ styled final
unfolding apply_rules run
apply_rules-run U h n [] style final e = e
apply_rules-run U h n (r ∷ rules) style final e =
    let (m, first, second) =
      then_style-styled (apply_rule U h n style r) (λ next. apply_rules U h n next rules) final e in
    run-append
      (if tai_selector_matches U h r.selector n
        then entries r.declarations.items (priority r.selector)
        else [])
      (rule_entries U h n rules) style m final
      (run_test (tai_selector_matches U h r.selector n) style m r.declarations.items
        (priority r.selector) first)
      (apply_rules-run U h n rules m final second)

apply_parsed-run :
    (style final : Map) (r : Parse Map)
    → apply_parsed style r ≡ styled final
    → run style (parsed_entries r) ≡ styled final
apply_parsed-run style final (parsed m rest) e = apply-run m.items style final 1000 e
apply_parsed-run style final (refused rest) e = absurd (ground (arith, e))
apply_parsed-run style final no_memory e = absurd (ground (arith, e))
apply_parsed-run style final unfinished e = absurd (ground (arith, e))

apply_inline-run :
    (U : Utf8proc) (style final : Map) (o : Option Bytes)
    → apply_inline U style o ≡ styled final
    → run style (inline_entries U o) ≡ styled final
unfolding run
apply_inline-run U style final none e = e
apply_inline-run U style final (some text) e =
    apply_parsed-run style final (body U empty_map text) e

pub apply_sheet-run :
    (U : Utf8proc) (h : Heap) (n : ℕ) (rules : List Rule) (style final : Map)
    → apply_sheet U h n rules style ≡ styled final
    → run style (sheet_entries U h n rules) ≡ styled final
unfolding apply_sheet run
apply_sheet-run U h n rules style final e = elim (Bool-cases (is_element (h n).kind)) [
  | inl f ↦
      let own = tai_map_get (h n).attributes (codes "style") in
      let (m, first, second) =
        then_style-styled (apply_rules U h n style rules) (λ next. apply_inline U next own) final
          (rw f at e) in
      rw f (
        run-append (rule_entries U h n rules) (inline_entries U own) style m final
          (apply_rules-run U h n rules style m first) (apply_inline-run U m final own second))
  | inr f ↦ rw f (rw f at e)
]
