-- ===== src/Css/Selecting/Shapes.antt =====
-- The selectors that src/css.c parses.
use tai_ci.Base.{
  ℕ, zero, suc, ◌≤◌, ◌<◌, ◌≡◌, ◌≢◌, ◌⊎◌, refl, inl, inr, true, false, [], ◌∷◌, Option, none, some,
  Bytes, arith, length,
}
use tai_ci.Utf8.{Utf8proc}
use tai_ci.Css.{Selector, tag, sequence, descendant, Selectors, no_more, more, space}
use tai_ci.Css.Selecting.{
  Parse, parsed, refused, no_memory, unfinished, int_max, identifier, Building, nothing, child_add,
  is_mark, parts, one_or, sequence_of, first_part, simple, line_ends, compound, selector, answer,
  tai_selector_parse,
}
use tai_ci.Css.Selecting.Progress.{
  Each, and_then-Each, test-Each, Before, length-space, identifier-Each,
}
use tai_ci.Css.Selecting.Specificity.{
  AllShaped, Begun, Built, Got, Shaped, add-Begun, count, nothing-Built, priorities,
}
use tai_ci.Css.Selecting.PartShapes.{NestedShaped, ShapedOnly, Started, parts-Started}

sequence_Shaped :
    (p : ℕ) (ss : Selectors)
    → p ≡ priorities ss
    → p ≤ int_max
    → 2 ≤ count ss
    → AllShaped ss
    → Shaped (sequence p ss)
unfolding Shaped
sequence_Shaped p ss e low two a = (e, low, two, a)

descendant_Shaped :
    (p : ℕ) (ss : Selectors)
    → p ≡ priorities ss
    → p ≤ int_max
    → 2 ≤ count ss
    → AllShaped ss
    → Shaped (descendant p ss)
unfolding Shaped
descendant_Shaped p ss e low two a = (e, low, two, a)

one_or-Shaped :
    (kind : ℕ → Selectors → Selector) (p : ℕ) (s : Selector) (ss : Selectors)
    → AllShaped (more s ss)
    → (2 ≤ count (more s ss) → Shaped (kind p (more s ss)))
    → Shaped (one_or kind p (more s ss))
unfolding AllShaped
one_or-Shaped kind p s no_more a f = a.0
one_or-Shaped kind p s (more t ss) a f = f (omega arith)

sequence_of-Got :
    (n p : ℕ) (ss : Selectors) (rest : Bytes)
    → p ≡ priorities ss
    → p ≤ int_max
    → AllShaped ss
    → (ss ≡ no_more ⊎ length rest < n)
    → Each (Got n) (sequence_of p ss rest)
sequence_of-Got n p no_more rest e low a k = tt
sequence_of-Got n p (more s ss) rest e low a (inl wrong) = absurd (ground (arith, wrong))
sequence_of-Got n p (more s ss) rest e low a (inr k) =
    (one_or-Shaped sequence p s ss a (λ two. sequence_Shaped p (more s ss) e low two a), k)

tag_Started :
    (name after : Bytes) (n : ℕ)
    → length after < n
    → Each (Started n) (child_add nothing (tag 1 name) after)
unfolding child_add Shaped AllShaped
tag_Started name after n k = ((refl, omega arith, (refl, tt)), omega arith, inr k)

first_part-Started :
    (U : Utf8proc) (text : Bytes) → Each (Started (length text)) (first_part U text)
unfolding Shaped
first_part-Started U [] = (nothing-Built, omega arith, inl refl)
first_part-Started U (b ∷ rest) =
    test-Each (Started (suc (length rest))) (is_mark b) _ _
      (λ e. (nothing-Built, omega arith, inl refl))
      (λ e.
        and_then-Each (Before (suc (length rest))) (Started (suc (length rest)))
          (identifier U true false (b ∷ rest)) _ (identifier-Each U true false (b ∷ rest))
          (λ name after k. tag_Started name after (suc (length rest)) k))

pub simple-Got :
    (U : Utf8proc) (o : Option (Bytes → Parse Selector)) (text : Bytes)
    → NestedShaped o
    → Each (Got (length text)) (simple U o text)
unfolding simple
simple-Got U o text g =
    let n = length text in
    and_then-Each (Started n) (Got n) (first_part U text) _ (first_part-Started U text)
      (λ start rest f.
        and_then-Each (Started n) (Got n) (parts (suc (length rest)) U o start rest) _
          (parts-Started (suc (length rest)) U o start rest n g f)
          (λ built after k.
            sequence_of-Got n built.priority built.children after k.0.0 k.0.1 k.0.2 k.2))

compound_of-Shaped :
    (b : Building)
    → Built b
    → b.children ≢ no_more
    → Shaped (one_or descendant b.priority b.children)
compound_of-Shaped b f k = go b.priority b.children f.0 f.1 f.2 k
  where
    go :
        (p : ℕ) (ss : Selectors)
        → p ≡ priorities ss
        → p ≤ int_max
        → AllShaped ss
        → ss ≢ no_more
        → Shaped (one_or descendant p ss)
    go p no_more e low a k = absurd (k refl)
    go p (more s ss) e low a k =
        one_or-Shaped descendant p s ss a (λ two. descendant_Shaped p (more s ss) e low two a)

compound-Got :
    (fuel : ℕ) (U : Utf8proc) (o : Option (Bytes → Parse Selector)) (b : Building) (text : Bytes)
    (n : ℕ)
    → NestedShaped o
    → Built b
    → length text ≤ n
    → Each (Got n) (compound fuel U o b text)
unfolding compound
compound-Got zero U o b text n g f k = tt
compound-Got (suc fuel) U o b text n g f k =
    and_then-Each (Got (length text)) (Got n) (simple U o text) _ (simple-Got U o text g)
      (λ s rest got.
        and_then-Each (Begun (length text)) (Got n) (child_add b s rest) _
          (add-Begun b s rest (length text) f got.0 got.1)
          (λ built after next.
            let left = length-space U after in
            test-Each (Got n) (line_ends (space U after)) _ _
              (λ e. (compound_of-Shaped built next.0 next.2, omega (arith, left, next.1)))
              (λ e.
                compound-Got fuel U o built (space U after) n g next.0
                  (omega (arith, left, next.1)))))

pub only_Shaped : (n : ℕ) (r : Parse Selector) → Each (Got n) r → Each ShapedOnly r
only_Shaped n (parsed s rest) k = k.0
only_Shaped n (refused rest) k = tt
only_Shaped n no_memory k = tt
only_Shaped n unfinished k = tt

-- A selector that is parsed has the priority of its parts, which is an `int`, and has no empty
-- sequence or line in it at any depth; and the parser passes at least a byte.
pub selector-Got :
    (levels : ℕ) (U : Utf8proc) (text : Bytes) → Each (Got (length text)) (selector levels U text)
unfolding selector
selector-Got zero U text =
    compound-Got (suc (length text)) U none nothing text (length text) tt nothing-Built
      (omega arith)
selector-Got (suc levels) U text =
    compound-Got (suc (length text)) U (some (selector levels U)) nothing text (length text)
      (λ inner. only_Shaped (length inner) (selector levels U inner) (selector-Got levels U inner))
      nothing-Built (omega arith)

answer-Shaped :
    (r : Parse Selector) (n : ℕ) (s : Selector) → Each (Got n) r → answer r ≡ some s → Shaped s
answer-Shaped (parsed t rest) n s k e = let same : t ≡ s = ground (arith, e) in rw⁻¹ same k.0
answer-Shaped (refused rest) n s k e = absurd (ground (arith, e))
answer-Shaped no_memory n s k e = absurd (ground (arith, e))
answer-Shaped unfinished n s k e = absurd (ground (arith, e))

-- A selector that tai_selector_parse gives has, with all the selectors in it, the priority that its
-- parts add up to, which is an `int`, and no empty sequence or line, so that matching it reads no
-- child that is not there.
pub selector_parse-Shaped :
    (U : Utf8proc) (text : Bytes) (s : Selector) → tai_selector_parse U text ≡ some s → Shaped s
unfolding tai_selector_parse
selector_parse-Shaped U text s e =
    answer-Shaped (selector 128 U text) (length text) s (selector-Got 128 U text) e
