-- ===== src/Css/Lines.antt =====
-- The walks of src/css.c over a document: up to the ancestors, and down to the descendants.
use tai_ci.Base.{
  ℕ, zero, suc, ◌≤◌, ◌<◌, ◌≡◌, refl, sym, ◌∙◌, inl, inr, Bool, true, ◌||◌, List, [], ◌∷◌, none,
  some, arith, ◌==◌, Bool-cases, Option-cases,
}
use tai_ci.Dom.{Heap}
use tai_ci.Dom.Depth.{At, top, below, Under, itself, deeper}
use tai_ci.Dom.Links.{child_parent, Linked, occurrences}
use tai_ci.Css.{any, has_descendant, next_tests, climb_ancestors}

-- A node that stands strictly under another.
abbrev pub Inside : Heap → ℕ → ℕ → Type 0
Inside h m n = (k : ℕ) × Under h m n (suc k)

-- Ancestors of a node, each above the one before, that meet the tests in turn.
abbrev pub Chain : Heap → List (ℕ → Bool) → ℕ → Type 0
Chain h [] n = Unit
Chain h (t ∷ ts) n = (m : ℕ) × Inside h m n × (t m ≡ true) × Chain h ts m

Inside-Under : (h : Heap) (a m n k : ℕ) → Inside h a m → Under h m n k → Inside h a n
Inside-Under h a m n zero i itself = i
Inside-Under h a m n (suc k) i (deeper _ q _ e u) =
    let (j, above) = Inside-Under h a m q k i u in (suc j, deeper n q (suc j) e above)

Chain-Under :
    (h : Heap) (ts : List (ℕ → Bool)) (m n k : ℕ) → Under h m n k → Chain h ts m → Chain h ts n
Chain-Under h [] m n k u c = tt
Chain-Under h (t ∷ ts) m n k u (a, i, hit, more) = (a, Inside-Under h a m n k i u, hit, more)

parent_same : (h : Heap) (n p q : ℕ) → (h n).parent ≡ some p → (h n).parent ≡ some q → p ≡ q
parent_same h n p q e f = let same : some p ≡ some q = sym e ∙ f in ground (arith, same)

one_up : (h : Heap) (n p : ℕ) → (h n).parent ≡ some p → Inside h p n
one_up h n p e = (0, deeper n p 0 e itself)

pub climb_ancestors-Chain :
    (h : Heap) (fuel : ℕ) (ts : List (ℕ → Bool)) (n : ℕ)
    → climb_ancestors fuel h ts (h n).parent ≡ true
    → Chain h ts n
unfolding climb_ancestors
climb_ancestors-Chain h fuel [] n e = tt
climb_ancestors-Chain h zero (t ∷ ts) n e = absurd (ground (arith, e))
climb_ancestors-Chain h (suc fuel) (t ∷ ts) n e = elim (Option-cases (h n).parent) [
  | inl f ↦ absurd (ground (arith, rw f at e))
  | inr (p, f) ↦
      let onward : climb_ancestors fuel h (next_tests t ts p) (h p).parent ≡ true = rw f at e in
      elim (Bool-cases (t p)) [
        | inl hit ↦ (p, one_up h n p f, hit, climb_ancestors-Chain h fuel ts p (rw hit at onward))
        | inr miss ↦
            Chain-Under h (t ∷ ts) p n 1 (deeper n p 0 f itself)
              (climb_ancestors-Chain h fuel (t ∷ ts) p (rw miss at onward))
      ]
]

-- The chain as seen from the parent, after the parent's own test.
next_Chain :
    (h : Heap) (t : ℕ → Bool) (ts : List (ℕ → Bool)) (n p : ℕ)
    → (h n).parent ≡ some p
    → Chain h (t ∷ ts) n
    → Chain h (next_tests t ts p) p
next_Chain h t ts n p e (m, (zero, deeper _ q _ f itself), hit, more) =
    let same : q ≡ p = parent_same h n q p f e in rw (sym same, hit) more
next_Chain h t ts n p e (m, (suc k, deeper _ q _ f u), hit, more) =
    let same : q ≡ p = parent_same h n q p f e in
    rw (sym same) (elim (Bool-cases (t q)) [
      | inl g ↦ rw g (Chain-Under h ts m q (suc k) u more)
      | inr g ↦ rw g (m, (k, u), hit, more)
    ])

pub Chain-climb_ancestors :
    (h : Heap) (fuel d : ℕ) (ts : List (ℕ → Bool)) (n : ℕ)
    → At h n d
    → d ≤ fuel
    → Chain h ts n
    → climb_ancestors fuel h ts (h n).parent ≡ true
unfolding climb_ancestors
Chain-climb_ancestors h fuel d [] n a k c = refl
Chain-climb_ancestors h fuel zero (t ∷ ts) n (top _ e) k (m, (j, deeper _ q _ f u), hit, more) =
    let wrong : none ≡ some q = sym e ∙ f in absurd (ground (arith, wrong))
Chain-climb_ancestors h zero (suc d) (t ∷ ts) n a k c = absurd (omega arith)
Chain-climb_ancestors h (suc fuel) (suc d) (t ∷ ts) n (below _ p _ e a) k c = rw e (
    Chain-climb_ancestors h fuel d (next_tests t ts p) p a (omega arith)
      (next_Chain h t ts n p e c))

pub Under-At : (h : Heap) (n m k d : ℕ) → Under h n m k → At h m d → k ≤ d
Under-At h n m zero d itself a = omega arith
Under-At h n m (suc k) zero (deeper _ q _ f u) (top _ e) =
    let wrong : none ≡ some q = sym e ∙ f in absurd (ground (arith, wrong))
Under-At h n m (suc k) (suc d) (deeper _ q _ f u) (below _ p _ e a) =
    let same : q ≡ p = parent_same h m q p f e in
    let low : k ≤ d = Under-At h n q k d u (rw same a) in omega arith

any-occurrence :
    (t : ℕ → Bool) (xs : List ℕ) → any t xs ≡ true → (x : ℕ) × (1 ≤ occurrences x xs) × (t x ≡ true)
unfolding any occurrences
any-occurrence t [] e = absurd (ground (arith, e))
any-occurrence t (x ∷ xs) e = elim (Bool-cases (t x)) [
  | inl f ↦ (x, ground arith, f)
  | inr f ↦ let (y, once, hit) = any-occurrence t xs (rw f at e) in (y, omega arith, hit)
]

occurrence-any :
    (t : ℕ → Bool) (xs : List ℕ) (x : ℕ) → 1 ≤ occurrences x xs → t x ≡ true → any t xs ≡ true
unfolding any occurrences
occurrence-any t [] x o e = absurd (omega arith)
occurrence-any t (y ∷ ys) x o e = elim (Bool-cases (y == x)) [
  | inl f ↦ let same : y ≡ x = ground arith in rw (same, e) refl
  | inr f ↦ ground (arith, occurrence-any t ys x (ground arith) e)
]

pub has_descendant-Inside :
    (h : Heap) (fuel : ℕ) (t : ℕ → Bool) (n : ℕ)
    → Linked h
    → has_descendant fuel h t n ≡ true
    → (m : ℕ) × Inside h n m × (t m ≡ true)
unfolding has_descendant
has_descendant-Inside h zero t n l e = absurd (ground (arith, e))
has_descendant-Inside h (suc fuel) t n l e =
    let (c, once, hit) = any-occurrence (λ c. t c || has_descendant fuel h t c) (h n).children e in
    let up = child_parent h n c l once in
    elim (Bool-cases (t c)) [
      | inl f ↦ (c, one_up h c n up, f)
      | inr f ↦
          let (m, (k, u), found) = has_descendant-Inside h fuel t c l (rw f at hit) in
          (m, Inside-Under h n c m (suc k) (one_up h c n up) u, found)
    ]

-- The child on the way down.
first_step :
    (h : Heap) (n m k : ℕ) → Under h n m (suc k) → (c : ℕ) × ((h c).parent ≡ some n) × Under h c m k
first_step h n m zero (deeper _ _ _ e itself) = (m, e, itself)
first_step h n m (suc k) (deeper _ q _ e u) =
    let (c, up, down) = first_step h n q k u in (c, up, deeper m q k e down)

on_way :
    (h : Heap) (t : ℕ → Bool) (b : Bool) (c m k : ℕ)
    → Under h c m k
    → t m ≡ true
    → ((j : ℕ) → Under h c m (suc j) → k ≡ suc j → b ≡ true)
    → (t c || b) ≡ true
on_way h t b c m zero itself e r = rw e refl
on_way h t b c m (suc k) u e r = ground (arith, r k u refl)

pub Inside-has_descendant :
    (h : Heap) (fuel k : ℕ) (t : ℕ → Bool) (n m : ℕ)
    → Linked h
    → Under h n m (suc k)
    → k < fuel
    → t m ≡ true
    → has_descendant fuel h t n ≡ true
unfolding has_descendant
Inside-has_descendant h zero k t n m l u low e = absurd (omega arith)
Inside-has_descendant h (suc fuel) k t n m l u low e =
    let (c, up, down) = first_step h n m k u in
    let once : occurrences c (h n).children ≡ 1 = l n c ∙ rw up (ground arith) in
    let inner = λ (j : ℕ) (v : Under h c m (suc j)) (s : k ≡ suc j).
      Inside-has_descendant h fuel j t c m l v (omega arith) e in
    occurrence-any (λ c. t c || has_descendant fuel h t c) (h n).children c (omega arith)
      (on_way h t (has_descendant fuel h t c) c m k down e inner)
