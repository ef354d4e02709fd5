-- ===== src/Css/Selecting/PartShapes.antt =====
-- The parts of the selectors that src/css.c parses.
use tai_ci.Base.{
  ℕ, zero, suc, ◌-◌, ◌≤◌, ◌<◌, ◌≡◌, ◌⊎◌, refl, inl, inr, false, [], ◌∷◌, Option, none, some, Bytes,
  codes, arith, length, ltb, ◌==◌, str_eq, Bool-cases,
}
use tai_ci.Utf8.{Utf8proc}
use tai_ci.Css.{Selector, no_more}
use tai_ci.Css.Selecting.{
  Parse, parsed, refused, no_memory, unfinished, int_max, identifier, priority, Building, child_add,
  closing, inside_has, has_argument, has_part, pseudo, part, is_mark, parts,
}
use tai_ci.Css.Selecting.Progress.{
  Each, and_then-Each, test-Each, Before, identifier-Each, After, closing-After,
}
use tai_ci.Css.Selecting.Specificity.{Begun, Built, Got, Shaped, Shaped-priority, add-Begun, room}

abbrev pub ShapedOnly : Selector → Bytes → Type 0
ShapedOnly s rest = Shaped s

inside_has-Got :
    (r : Parse Selector) (after : Bytes) (n : ℕ)
    → Each ShapedOnly r
    → length after < n
    → Each (Got n) (inside_has r after)
unfolding Shaped child_add
inside_has-Got (parsed s left) after n f k =
    let small = Shaped-priority s f in
    elim (Bool-cases (ltb (int_max - priority s) 10)) [
      | inl e ↦ rw e tt
      | inr e ↦ rw e ((refl, room int_max 10 (priority s) e small, f), k)
    ]
inside_has-Got (refused left) after n f k = tt
inside_has-Got no_memory after n f k = tt
inside_has-Got unfinished after n f k = tt

-- The parser of the selector inside, where there is one, gives shaped selectors.
abbrev pub NestedShaped : Option (Bytes → Parse Selector) → Type 0
NestedShaped none = Unit
NestedShaped (some f) = (text : Bytes) → Each ShapedOnly (f text)

has_argument-Got :
    (f : Bytes → Parse Selector) (o : Option (Bytes × Bytes)) (n m : ℕ)
    → NestedShaped (some f)
    → m ≤ n
    → After m o
    → Each (Got n) (has_argument f o)
has_argument-Got f none n m g low a = tt
has_argument-Got f (some (inner, after)) n m g low a =
    inside_has-Got (f inner) after n (g inner) (omega arith)

has_part-Got :
    (o : Option (Bytes → Parse Selector)) (text : Bytes) (n : ℕ)
    → NestedShaped o
    → length text ≤ n
    → Each (Got n) (has_part o text)
has_part-Got none text n g k = tt
has_part-Got (some f) [] n g k = tt
has_part-Got (some f) (b ∷ rest) n g k =
    test-Each (Got n) (b == 40) (has_argument f (closing 1 rest)) (refused (b ∷ rest))
      (λ e.
        has_argument-Got f (closing 1 rest) n (length rest) g (omega arith) (closing-After 1 rest))
      (λ e. tt)

pseudo-Got :
    (o : Option (Bytes → Parse Selector)) (name rest : Bytes) (n : ℕ)
    → NestedShaped o
    → length rest < n
    → Each (Got n) (pseudo o name rest)
unfolding Shaped
pseudo-Got o name rest n g k =
    test-Each (Got n) (str_eq name (codes "visited")) _ _ (λ e. (refl, k))
      (λ e.
        test-Each (Got n) (str_eq name (codes "has")) (has_part o rest) (refused rest)
          (λ f. has_part-Got o rest n g (omega arith)) (λ f. tt))

pub part-Got :
    (U : Utf8proc) (o : Option (Bytes → Parse Selector)) (mark : ℕ) (text : Bytes)
    → NestedShaped o
    → Each (Got (length text)) (part U o mark text)
unfolding part Shaped
part-Got U o mark text g =
    and_then-Each (Before (length text)) (Got (length text)) (identifier U (mark == 58) false text)
      _ (identifier-Each U (mark == 58) false text)
      (λ name rest k.
        test-Each (Got (length text)) (mark == 46) _ _ (λ e. (refl, k))
          (λ e.
            test-Each (Got (length text)) (mark == 35) _ _ (λ f. (refl, k))
              (λ f. pseudo-Got o name rest (length text) g k)))

-- The position is before `n` more bytes, unless there is no part yet.
abbrev pub Started : ℕ → Building → Bytes → Type 0
Started n b rest = Built b × (length rest ≤ n) × (b.children ≡ no_more ⊎ length rest < n)

Begun-Started : (m n : ℕ) (b : Building) (rest : Bytes) → m ≤ n → Begun m b rest → Started n b rest
Begun-Started m n b rest low f = (f.0, omega (arith, f.1), inr (omega (arith, f.1)))

pub parts-Started :
    (fuel : ℕ) (U : Utf8proc) (o : Option (Bytes → Parse Selector)) (b : Building) (text : Bytes)
    (n : ℕ)
    → NestedShaped o
    → Started n b text
    → Each (Started n) (parts fuel U o b text)
unfolding parts
parts-Started zero U o b text n g f = tt
parts-Started (suc fuel) U o b [] n g f = f
parts-Started (suc fuel) U o b (c ∷ rest) n g f =
    test-Each (Started n) (is_mark c) _ _
      (λ e.
        and_then-Each (Got (length rest)) (Started n) (part U o c rest) _ (part-Got U o c rest g)
          (λ s after got.
            and_then-Each (Begun (length rest)) (Started n) (child_add b s after) _
              (add-Begun b s after (length rest) f.0 got.0 got.1)
              (λ built left next.
                parts-Started fuel U o built left n g
                  (Begun-Started (length rest) n built left (omega (arith, f.1)) next))))
      (λ e. f)
