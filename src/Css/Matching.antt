-- ===== src/Css/Matching.antt =====
-- `tai_selector_matches` of src/css.c, and what a selector means.
use tai_ci.Base.{
  ℕ, suc, ◌≡◌, ◌↔◌, refl, sym, Bool, true, false, ◌&&◌, List, [], ◌∷◌, Bytes, codes, arith, str_eq,
  str_eq→eq, str_eq_refl, reverse, All,
}
use tai_ci.Utf8.{Utf8proc}
use tai_ci.Dom.{NodeKind, element, text_node, Heap, max_depth}
use tai_ci.Dom.Moving.{IsForest}
use tai_ci.Css.{
  Selector, tag, class, id, visited, has, sequence, descendant, has_class, is_element, attribute_of,
  has_descendant, holds_all, climb_ancestors, descends, tai_selector_matches, tests_of,
}
use tai_ci.Css.Lines.{
  Inside, Under-At, Chain, climb_ancestors-Chain, Chain-climb_ancestors, has_descendant-Inside,
  Inside-has_descendant,
}

-- The last test holds of the node, and the others, from the last, of ancestors that are each above
-- the one before.
abbrev pub Line : Heap → List (ℕ → Bool) → ℕ → Type 0
Line h [] n = true ≡ false
Line h (t ∷ ts) n = (t n ≡ true) × Chain h ts n

-- What a selector asks of a node, by what its parts match.
abbrev pub Asks : Utf8proc → Heap → Selector → ℕ → Type 0
Asks U h (tag p name) n = ((h n).kind ≡ element) × ((h n).value ≡ name)
Asks U h (class p name) n =
    ((h n).kind ≡ element) × (has_class U (attribute_of (h n) (codes "class")) name ≡ true)
Asks U h (id p name) n = ((h n).kind ≡ element) × (attribute_of (h n) (codes "id") ≡ name)
Asks U h (visited p) n = ((h n).kind ≡ element) × ((h n).visited ≡ true) × ((h n).value ≡ codes "a")
Asks U h (has p s) n =
    ((h n).kind ≡ element) × ((m : ℕ) × Inside h n m × (tai_selector_matches U h s m ≡ true))
Asks U h (sequence p ss) n = All (λ (t : ℕ → Bool). t n ≡ true) (tests_of U h ss)
Asks U h (descendant p ss) n = Line h (reverse (tests_of U h ss)) n

is_element-eq : (k : NodeKind) → is_element k ≡ true → k ≡ element
is_element-eq element e = refl
is_element-eq text_node e = absurd (ground (arith, e))

both : (a b : Bool) → (a && b) ≡ true → (a ≡ true) × (b ≡ true)
both true b e = (refl, e)
both false b e = absurd (ground (arith, e))

-- A test of an element, and its converse.
element_asks : (k : NodeKind) (b : Bool) → (is_element k && b) ≡ true → (k ≡ element) × (b ≡ true)
element_asks k b e = let (l, r) = both (is_element k) b e in (is_element-eq k l, r)

asks_element : (k : NodeKind) (b : Bool) → k ≡ element → b ≡ true → (is_element k && b) ≡ true
asks_element k b e f = rw (e, f) refl

same_text : (a b : Bytes) → a ≡ b → str_eq a b ≡ true
same_text a b e = rw e (str_eq_refl b)

holds_all-All :
    (ts : List (ℕ → Bool)) (n : ℕ) → holds_all ts n ≡ true → All (λ (t : ℕ → Bool). t n ≡ true) ts
unfolding holds_all
holds_all-All [] n e = tt
holds_all-All (t ∷ ts) n e = let (l, r) = both (t n) (holds_all ts n) e in (l, holds_all-All ts n r)

All-holds_all :
    (ts : List (ℕ → Bool)) (n : ℕ) → All (λ (t : ℕ → Bool). t n ≡ true) ts → holds_all ts n ≡ true
unfolding holds_all
All-holds_all [] n a = refl
All-holds_all (t ∷ ts) n a = rw (a.0, All-holds_all ts n a.1) refl

descends-Line : (h : Heap) (ts : List (ℕ → Bool)) (n : ℕ) → descends h ts n ≡ true → Line h ts n
unfolding descends
descends-Line h [] n e = sym e
descends-Line h (t ∷ ts) n e =
    let (l, r) = both (t n) (climb_ancestors (suc max_depth) h ts (h n).parent) e in
    (l, climb_ancestors-Chain h (suc max_depth) ts n r)

Line-descends :
    (h : Heap) (ts : List (ℕ → Bool)) (n : ℕ) → IsForest h → Line h ts n → descends h ts n ≡ true
unfolding descends
Line-descends h [] n f a = sym a
Line-descends h (t ∷ ts) n f a =
    let (d, low, at) = f.shallow n in
    rw (a.0, Chain-climb_ancestors h (suc max_depth) d ts n at (omega arith) a.1) refl

matches-Asks :
    (U : Utf8proc) (h : Heap) (s : Selector) (n : ℕ)
    → IsForest h
    → tai_selector_matches U h s n ≡ true
    → Asks U h s n
unfolding tai_selector_matches
matches-Asks U h (tag p name) n f e =
    let (l, r) = element_asks (h n).kind (str_eq (h n).value name) e in
    (l, str_eq→eq (h n).value name r)
matches-Asks U h (class p name) n f e =
    element_asks (h n).kind (has_class U (attribute_of (h n) (codes "class")) name) e
matches-Asks U h (id p name) n f e =
    let (l, r) = element_asks (h n).kind (str_eq (attribute_of (h n) (codes "id")) name) e in
    (l, str_eq→eq (attribute_of (h n) (codes "id")) name r)
matches-Asks U h (visited p) n f e =
    let (k, r) = both (is_element (h n).kind && (h n).visited) (str_eq (h n).value (codes "a")) e in
    let (l, v) = element_asks (h n).kind (h n).visited k in
    (l, v, str_eq→eq (h n).value (codes "a") r)
matches-Asks U h (has p s) n f e =
    let (l, r) =
      element_asks (h n).kind (has_descendant (suc max_depth) h (tai_selector_matches U h s) n) e in
    (l, has_descendant-Inside h (suc max_depth) (tai_selector_matches U h s) n f.linked r)
matches-Asks U h (sequence p ss) n f e = holds_all-All (tests_of U h ss) n e
matches-Asks U h (descendant p ss) n f e = descends-Line h (reverse (tests_of U h ss)) n e

Asks-matches :
    (U : Utf8proc) (h : Heap) (s : Selector) (n : ℕ)
    → IsForest h
    → Asks U h s n
    → tai_selector_matches U h s n ≡ true
unfolding tai_selector_matches
Asks-matches U h (tag p name) n f (l, r) =
    asks_element (h n).kind (str_eq (h n).value name) l (same_text (h n).value name r)
Asks-matches U h (class p name) n f (l, r) = rw (l, r) refl
Asks-matches U h (id p name) n f (l, r) =
    asks_element (h n).kind (str_eq (attribute_of (h n) (codes "id")) name) l
      (same_text (attribute_of (h n) (codes "id")) name r)
Asks-matches U h (visited p) n f (l, v, r) = rw (l, v, same_text (h n).value (codes "a") r) refl
Asks-matches U h (has p s) n f (l, r) =
    let (m, (k, u), hit) = r in
    let (d, low, at) = f.shallow m in
    let small = Under-At h n m (suc k) d u at in
    asks_element (h n).kind (has_descendant (suc max_depth) h (tai_selector_matches U h s) n) l (
      Inside-has_descendant h (suc max_depth) k (tai_selector_matches U h s) n m f.linked u
        (omega arith) hit)
Asks-matches U h (sequence p ss) n f a = All-holds_all (tests_of U h ss) n a
Asks-matches U h (descendant p ss) n f a = Line-descends h (reverse (tests_of U h ss)) n f a

-- On a well-formed document a selector matches a node exactly where the node is what the selector
-- asks for: an element with the tag, the class or the id, or a visited link; an element with a
-- strict descendant that the inner selector matches; one that every part matches; one that the last
-- part matches, with ancestors, each above the one before, that the other parts match in turn.
pub matches-iff-Asks :
    (U : Utf8proc) (h : Heap) (s : Selector) (n : ℕ)
    → IsForest h
    → (tai_selector_matches U h s n ≡ true) ↔ Asks U h s n
matches-iff-Asks U h s n f = (matches-Asks U h s n f, Asks-matches U h s n f)
