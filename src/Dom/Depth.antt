-- ===== src/Dom/Depth.antt =====
-- The depth of the nodes of src/dom.c, and the two walks that measure it.
use tai_ci.Base.{
  ℕ, zero, suc, ◌+◌, ◌-◌, ◌≤◌, ◌<◌, ◌≡◌, refl, ap, sym, ◌∙◌, inl, inr, true, false, List, [], ◌∷◌,
  none, some, arith, ◌==◌, Bool-cases, length, leb, All,
}
use tai_ci.Dom.{
  Heap, on_chain, chain_length, ancestors, max_depth, with_depth, push_all, fits_loop, sum_of,
  visits, fits_below,
}
use tai_ci.Dom.Links.{Linked, occurrences}

-- A node that has `d` ancestors, and then no more.
pub data At (h : Heap) : ℕ → ℕ → Type 0 where
  top : (n : ℕ) → (h n).parent ≡ none → At h n 0
  below : (n p d : ℕ) → (h n).parent ≡ some p → At h p d → At h n (suc d)

-- A node that stands `k` levels under `c`.
pub data Under (h : Heap) (c : ℕ) : ℕ → ℕ → Type 0 where
  itself : Under h c c 0
  deeper : (n m k : ℕ) → (h n).parent ≡ some m → Under h c m k → Under h c n (suc k)

pub chain_length-At :
    (h : Heap) (fuel n d : ℕ) → At h n d → d < fuel → chain_length fuel h (some n) ≡ suc d
unfolding chain_length
chain_length-At h zero n d a k = absurd (omega arith)
chain_length-At h (suc zero) n zero (top _ e) k = refl
chain_length-At h (suc (suc fuel)) n zero (top _ e) k = rw e refl
chain_length-At h (suc fuel) n (suc d) (below _ p _ e a) k =
    rw e (ap suc (chain_length-At h fuel p d a (omega arith)))

pub ancestors-At : (h : Heap) (n d : ℕ) → At h n d → d ≤ max_depth → ancestors h n ≡ d
unfolding ancestors chain_length
ancestors-At h n zero (top _ e) k = rw e refl
ancestors-At h n (suc d) (below _ p _ e a) k =
    rw e (chain_length-At h (suc max_depth) p d a (omega arith))

-- A chain that the walk does not find `c` on stays as it is when `c` gets another parent.
pub on_chain-At :
    (h g : Heap) (c : ℕ)
    → ((x : ℕ) → (x == c) ≡ false → (g x).parent ≡ (h x).parent)
    → (fuel n d : ℕ) → At h n d
    → d < fuel
    → on_chain fuel h c (some n) ≡ false
    → At g n d
unfolding on_chain
on_chain-At h g c same zero n d a k e = absurd (omega arith)
on_chain-At h g c same (suc fuel) n zero (top _ r) k e =
    let apart : (n == c) ≡ false = ground arith in top n (same n apart ∙ r)
on_chain-At h g c same (suc fuel) n (suc d) (below _ p _ r a) k e =
    let apart : (n == c) ≡ false = ground arith in
    let above : on_chain fuel h c (some p) ≡ false =
      ap (on_chain fuel h c) (sym r) ∙ ground arith in
    below n p d (same n apart ∙ r) (on_chain-At h g c same fuel p d a (omega arith) above)

-- No node stands more than `b` levels below a node.
abbrev pub Fits : Heap → ℕ → ℕ → Type 0
Fits h zero n = (h n).children ≡ []
Fits h (suc b) n = All (Fits h b) (h n).children

abbrev FitsItem : Heap → ℕ → ℕ × ℕ → Type 0
FitsItem h budget item = Fits h (budget - item.1) item.0

abbrev Reached : ℕ → ℕ × ℕ → Type 0
Reached budget item = item.1 ≤ budget

-- The rounds that a stack takes at most.
weight : Heap → ℕ → List (ℕ × ℕ) → ℕ
weight h budget [] = 0
weight h budget (item ∷ items) = visits (budget - item.1) h item.0 + weight h budget items

All-push_all :
    (P : ℕ × ℕ → Type 0) (items stack : List (ℕ × ℕ))
    → All P items
    → All P stack
    → All P (push_all items stack)
unfolding push_all
All-push_all P [] stack a b = b
All-push_all P (i ∷ items) stack a b = All-push_all P items (i ∷ stack) a.1 (a.0, b)

push_all-All :
    (P : ℕ × ℕ → Type 0) (items stack : List (ℕ × ℕ))
    → All P (push_all items stack)
    → All P items × All P stack
unfolding push_all
push_all-All P [] stack a = (tt, a)
push_all-All P (i ∷ items) stack a =
    let (l, r) = push_all-All P items (i ∷ stack) a in ((r.0, l), r.1)

weight-push_all :
    (h : Heap) (budget : ℕ) (items stack : List (ℕ × ℕ))
    → weight h budget (push_all items stack) ≡ weight h budget items + weight h budget stack
unfolding push_all weight
weight-push_all h budget [] stack = omega arith
weight-push_all h budget (i ∷ items) stack =
    omega (arith, weight-push_all h budget items (i ∷ stack))

weight-with_depth :
    (h : Heap) (budget depth : ℕ) (ns : List ℕ)
    → weight h budget (with_depth depth ns) ≡ sum_of (visits (budget - depth) h) ns
unfolding weight
weight-with_depth h budget depth [] = refl
weight-with_depth h budget depth (n ∷ ns) = omega (arith, weight-with_depth h budget depth ns)

All-with_depth :
    (budget depth : ℕ) (ns : List ℕ) → depth ≤ budget → All (Reached budget) (with_depth depth ns)
All-with_depth budget depth [] k = tt
All-with_depth budget depth (n ∷ ns) k = (k, All-with_depth budget depth ns k)

with_depth-Fits :
    (h : Heap) (budget depth : ℕ) (ns : List ℕ)
    → All (FitsItem h budget) (with_depth depth ns)
    → All (Fits h (budget - depth)) ns
with_depth-Fits h budget depth [] a = tt
with_depth-Fits h budget depth (n ∷ ns) a = (a.0, with_depth-Fits h budget depth ns a.1)

visits-positive : (b : ℕ) (h : Heap) (n : ℕ) → 1 ≤ visits b h n
unfolding visits
visits-positive zero h n = omega arith
visits-positive (suc b) h n = omega arith

no_elements : (xs : List ℕ) → (length xs == 0) ≡ true → xs ≡ []
no_elements [] e = refl
no_elements (x ∷ xs) e = absurd (ground arith)

leaf-Fits : (h : Heap) (b n : ℕ) → (length (h n).children == 0) ≡ true → Fits h b n
leaf-Fits h zero n e = no_elements (h n).children e
leaf-Fits h (suc b) n e = rw (no_elements (h n).children e) tt

fits_loop-Fits :
    (h : Heap) (budget fuel : ℕ) (stack : List (ℕ × ℕ))
    → weight h budget stack ≤ fuel
    → All (Reached budget) stack
    → fits_loop fuel h budget stack ≡ true
    → All (FitsItem h budget) stack
unfolding fits_loop weight visits
fits_loop-Fits h budget fuel [] w r e = tt
fits_loop-Fits h budget zero ((n, d) ∷ stack) w r e =
    absurd (omega (arith, visits-positive (budget - d) h n))
fits_loop-Fits h budget (suc fuel) ((n, d) ∷ stack) w r e =
    let one = visits-positive (budget - d) h n in
    elim (Bool-cases (length (h n).children == 0)) [
      | inl f ↦ (
        leaf-Fits h (budget - d) n f,
        fits_loop-Fits h budget fuel stack (omega arith) r.1 (ground arith),
      )
      | inr f ↦
          let deep : leb budget d ≡ false = ground arith in
          let on : fits_loop fuel h budget (push_all (with_depth (suc d) (h n).children) stack)
              ≡ true =
            ground arith in
          let less : budget - d ≡ suc (budget - suc d) = ground arith in
          let size : visits (budget - d) h n
              ≡ suc (sum_of (visits (budget - suc d) h) (h n).children) =
            rw less refl in
          let (mine, others) =
            push_all-All (FitsItem h budget) (with_depth (suc d) (h n).children) stack (
              fits_loop-Fits h budget fuel (push_all (with_depth (suc d) (h n).children) stack)
                (omega (
                  arith,
                  w,
                  size,
                  weight-push_all h budget (with_depth (suc d) (h n).children) stack,
                  weight-with_depth h budget (suc d) (h n).children,
                ))
                (All-push_all (Reached budget) (with_depth (suc d) (h n).children) stack
                  (All-with_depth budget (suc d) (h n).children (ground arith)) r.1)
                on) in
          (rw less (with_depth-Fits h budget (suc d) (h n).children mine), others)
    ]

-- What the walk down accepts fits.
pub fits_below-Fits : (h : Heap) (n budget : ℕ) → fits_below h n budget ≡ true → Fits h budget n
unfolding fits_below weight
fits_below-Fits h n budget e =
    let same : budget - 0 ≡ budget = omega arith in
    rw same at (
      (fits_loop-Fits h budget (suc (visits budget h n)) ((n, 0) ∷ []) (rw same (omega arith))
        (omega arith, tt) e).0)

All-occurrences : (P : ℕ → Type 0) (x : ℕ) (xs : List ℕ) → All P xs → 1 ≤ occurrences x xs → P x
unfolding occurrences
All-occurrences P x [] a k = absurd (omega arith)
All-occurrences P x (y ∷ ys) a k = elim (Bool-cases (y == x)) [
  | inl e ↦ let same : y ≡ x = ground arith in rw⁻¹ same a.0
  | inr e ↦ All-occurrences P x ys a.1 (ground arith)
]

child_Fits :
    (h : Heap) (m n b k : ℕ)
    → 1 ≤ occurrences n (h m).children
    → k ≤ b
    → Fits h (b - k) m
    → (suc k ≤ b) × Fits h (b - suc k) n
unfolding occurrences
child_Fits h m n b k once low f = elim (Bool-cases (b - k == 0)) [
  | inl e ↦
      let none_left : b - k ≡ 0 = ground arith in
      let leaf : (h m).children ≡ [] = rw none_left at f in absurd (omega (arith, rw leaf at once))
  | inr e ↦
      let more : b - k ≡ suc (b - suc k) = ground arith in
      (ground arith, All-occurrences (Fits h (b - suc k)) n (h m).children (rw more at f) once)
]

-- A node under one that fits is at most the budget below it.
pub Under-Fits :
    (h : Heap) (c b n k : ℕ) → Linked h → Fits h b c → Under h c n k → (k ≤ b) × Fits h (b - k) n
Under-Fits h c b n zero l f itself = let same : b - 0 ≡ b = omega arith in (omega arith, rw same f)
Under-Fits h c b n (suc k) l f (deeper _ m _ e u) =
    let (low, fits) = Under-Fits h c b m k l f u in
    let once : occurrences n (h m).children ≡ 1 = l m n ∙ rw e (ground arith) in
    child_Fits h m n b k (omega arith) low fits
