-- ===== src/Css/Cascade/Deciding.antt =====
-- The property values that src/css.c settles on.
use tai_ci.Base.{
  ℕ, ◌≡◌, refl, ap, ◌∙◌, inl, inr, Bool, true, false, ◌&&◌, List, [], ◌∷◌, some, Bytes, arith, leb,
  if◌then◌else◌, str_eq, str_eq→eq, Bool-cases,
}
use tai_ci.Port.{ℤ, pos, negsuc}
use tai_ci.Maps.{Map, Pair, tai_map_set, tai_map_get, tai_map_priority}
use tai_ci.Maps.Lookup.{get-set, priority-set}
use tai_ci.Utf8.{Utf8proc}
use tai_ci.Dom.{Heap}
use tai_ci.Css.Sheets.{Rule}
use tai_ci.Css.Cascade.{at_least, styled, set_style, apply_pair, apply_sheet}
use tai_ci.Css.Cascade.Ranks.{
  Declared, sheet_entries, at_most, below_rank, Decided, run, then_style-styled, apply_sheet-run,
}

set_style-styled :
    (r : Map × Bool) (next : Map) → set_style r ≡ styled next → (r.1 ≡ true) × (r.0 ≡ next)
set_style-styled (m, true) next e = (refl, ground (arith, e))
set_style-styled (m, false) next e = absurd (ground (arith, e))

-- Whether a declaration takes a key from the style.
abbrev takes : Map → Pair → ℕ → Bytes → Bool
takes m p rank key = str_eq p.key key && at_least rank (tai_map_priority m key)

abbrev Taken : Map → Pair → ℕ → Map → Bytes → Type 0
Taken m p rank next key =
    (tai_map_get next key ≡ (if takes m p rank key then some p.value else tai_map_get m key))
    × (tai_map_priority next key
        ≡ (if takes m p rank key then pos rank else tai_map_priority m key))

apply_pair-Taken :
    (m : Map) (p : Pair) (rank : ℕ) (next : Map) (key : Bytes)
    → apply_pair m p rank ≡ styled next
    → Taken m p rank next key
unfolding apply_pair
apply_pair-Taken m p rank next key e =
    elim (Bool-cases (at_least rank (tai_map_priority m p.key))) [
      | inl f ↦
          let (ok, same) =
            set_style-styled (tai_map_set true true true m p.key p.value (pos rank)) next
              (rw f at e) in
          rw⁻¹ same (elim (Bool-cases (str_eq p.key key)) [
            | inl g ↦
                let fits : at_least rank (tai_map_priority m key) ≡ true =
                  rw (str_eq→eq p.key key g) at f in
                (
                  get-set true true true m p.key key p.value (pos rank) ∙ rw (ok, g, fits) refl,
                  priority-set true true true m p.key key p.value (pos rank)
                      ∙ rw (ok, g, fits) refl,
                )
            | inr g ↦ (
              get-set true true true m p.key key p.value (pos rank) ∙ rw (ok, g) refl,
              priority-set true true true m p.key key p.value (pos rank) ∙ rw (ok, g) refl,
            )
          ])
      | inr f ↦
          let same : styled m ≡ styled next = rw f at e in
          let equal : m ≡ next = ground (arith, same) in
          rw⁻¹ equal (elim (Bool-cases (str_eq p.key key)) [
            | inl g ↦
                let low : at_least rank (tai_map_priority m key) ≡ false =
                  rw (str_eq→eq p.key key g) at f in
                rw (g, low) (refl, refl)
            | inr g ↦ rw g (refl, refl)
          ])
    ]

at_least_trans :
    (a b : ℕ) (z : ℤ) → at_least a z ≡ true → at_least b (pos a) ≡ true → at_least b z ≡ true
at_least_trans a b (pos n) e f = ground (arith, e, f)
at_least_trans a b (negsuc n) e f = refl

lower-least : (a b : ℕ) (z : ℤ) → at_least a z ≡ false → at_least b z ≡ true → leb a b ≡ true
lower-least a b (pos n) e f = ground (arith, e, f)
lower-least a b (negsuc n) e f = absurd (ground (arith, e))

below-at_most :
    (key : Bytes) (e : Declared) (rank : ℕ) (z : ℤ)
    → below_rank key z e ≡ true
    → at_least rank z ≡ true
    → at_most key rank e ≡ true
below-at_most key e rank z low most = elim (Bool-cases (at_least e.rank z)) [
  | inl f ↦ ground (arith, low, f)
  | inr f ↦ ground (arith, lower-least e.rank rank z f most)
]

-- A declaration that takes the key.
taken-Decided :
    (m next final : Map) (e : Declared) (es : List Declared) (key : Bytes)
    → str_eq e.pair.key key ≡ true
    → at_least e.rank (tai_map_priority m key) ≡ true
    → tai_map_get next key ≡ some e.pair.value
    → tai_map_priority next key ≡ pos e.rank
    → Decided next es final key
    → Decided m (e ∷ es) final key
taken-Decided m next final e es key g f value rank (inl (same, lows)) =
    inr ([], e, es, refl, g, same ∙ value, f, tt, rw rank at lows)
taken-Decided m next final e es key g f value rank
      (inr (before, w, after, split, gw, got, least, bs, cs)) =
    let more : leb e.rank w.rank ≡ true = rw rank at least in
    inr (
      e ∷ before,
      w,
      after,
      ap (λ l. e ∷ l) split,
      gw,
      got,
      at_least_trans e.rank w.rank (tai_map_priority m key) f more,
      (rw (g, more) refl, bs),
      cs,
    )

-- One that does not, since it is for another key or ranks below what is there.
left-Decided :
    (m next final : Map) (e : Declared) (es : List Declared) (key : Bytes)
    → below_rank key (tai_map_priority m key) e ≡ true
    → tai_map_get next key ≡ tai_map_get m key
    → tai_map_priority next key ≡ tai_map_priority m key
    → Decided next es final key
    → Decided m (e ∷ es) final key
left-Decided m next final e es key low value rank (inl (same, lows)) =
    inl (same ∙ value, (low, rw rank at lows))
left-Decided m next final e es key low value rank
      (inr (before, w, after, split, gw, got, least, bs, cs)) =
    let most : at_least w.rank (tai_map_priority m key) ≡ true = rw rank at least in
    inr (
      e ∷ before,
      w,
      after,
      ap (λ l. e ∷ l) split,
      gw,
      got,
      most,
      (below-at_most key e w.rank (tai_map_priority m key) low most, bs),
      cs,
    )

step-Decided :
    (m next final : Map) (e : Declared) (es : List Declared) (key : Bytes)
    → Taken m e.pair e.rank next key
    → Decided next es final key
    → Decided m (e ∷ es) final key
step-Decided m next final e es key (value, rank) d = elim (Bool-cases (str_eq e.pair.key key)) [
  | inl g ↦ elim (Bool-cases (at_least e.rank (tai_map_priority m key))) [
    | inl f ↦ taken-Decided m next final e es key g f (rw (g, f) at value) (rw (g, f) at rank) d
    | inr f ↦
        left-Decided m next final e es key (rw (g, f) refl) (rw (g, f) at value) (rw (g, f) at rank)
          d
  ]
  | inr g ↦ left-Decided m next final e es key (rw g refl) (rw g at value) (rw g at rank) d
]

run-Decided :
    (es : List Declared) (m final : Map) (key : Bytes)
    → run m es ≡ styled final
    → Decided m es final key
unfolding run
run-Decided [] m final key e = let same : m ≡ final = ground (arith, e) in inl (rw same refl, tt)
run-Decided (x ∷ es) m final key e =
    let (next, first, second) =
      then_style-styled (apply_pair m x.pair x.rank) (λ n. run n es) final e in
    step-Decided m next final x es key (apply_pair-Taken m x.pair x.rank next key first)
      (run-Decided es next final key second)

-- Where the rules and the `style` attribute have been applied to a style, which they are unless a
-- rank overflows, memory runs out or the attribute is refused, every property then has the
-- value of a declaration for it among those of the matching rules, in order, and then of the
-- attribute: one whose rank, which is the selector's priority or 1000, and 10000 more where it is
-- important, is at least that of every one before it and of the value that was there, and above that
-- of every one after it. It has the value that was there where all of them rank below that.
pub apply_sheet-Decided :
    (U : Utf8proc) (h : Heap) (n : ℕ) (rules : List Rule) (style final : Map) (key : Bytes)
    → apply_sheet U h n rules style ≡ styled final
    → Decided style (sheet_entries U h n rules) final key
apply_sheet-Decided U h n rules style final key e =
    run-Decided (sheet_entries U h n rules) style final key
      (apply_sheet-run U h n rules style final e)
