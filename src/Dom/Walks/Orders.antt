-- ===== src/Dom/Walks/Orders.antt =====
-- The tree order of src/dom.c.
use tai_ci.Base.{
  ℕ, zero, suc, ◌+◌, ◌-◌, ◌≤◌, ◌≡◌, refl, sym, ap, ◌∙◌, List, [], ◌∷◌, ◌++◌, none, some, arith, All,
}
use tai_ci.Dom.{NodeKind, element, text_node, Heap, max_depth, sum_of, visits}
use tai_ci.Dom.Links.{occurrences, child_parent}
use tai_ci.Dom.Depth.{At, top, below, Fits}
use tai_ci.Dom.Moving.{IsForest}
use tai_ci.Dom.Walks.{below_of}

-- A node, and then what is under its children, for `b` levels.
abbrev pub joined : (ℕ → List ℕ) → List ℕ → List ℕ
joined f [] = []
joined f (x ∷ xs) = f x ++ joined f xs

abbrev pub order : ℕ → Heap → ℕ → List ℕ
order zero h n = n ∷ []
order (suc b) h n = n ∷ joined (order b h) (below_of (h n).kind (h n).children)

-- The nodes that a walk pops.
unfoldable pub walk : ℕ → Heap → List ℕ → List ℕ
walk zero h stack = []
walk (suc fuel) h [] = []
walk (suc fuel) h (x ∷ stack) = x ∷ walk fuel h (below_of (h x).kind (h x).children ++ stack)

-- Nodes on the stack with the levels that are under each.
abbrev Items : Type 0
Items = List (ℕ × ℕ)

abbrev nodes_of : Items → List ℕ
nodes_of [] = []
nodes_of (i ∷ items) = i.0 ∷ nodes_of items

abbrev orders_of : Heap → Items → List ℕ
orders_of h [] = []
orders_of h (i ∷ items) = order i.1 h i.0 ++ orders_of h items

abbrev size_of : Heap → Items → ℕ
size_of h [] = 0
size_of h (i ∷ items) = visits i.1 h i.0 + size_of h items

abbrev ItemFits : Heap → ℕ × ℕ → Type 0
ItemFits h i = Fits h i.1 i.0

abbrev with_levels : ℕ → List ℕ → Items
with_levels b [] = []
with_levels b (n ∷ ns) = (n, b) ∷ with_levels b ns

nodes_of-append :
    (b : ℕ) (ns : List ℕ) (items : Items)
    → nodes_of (with_levels b ns ++ items) ≡ ns ++ nodes_of items
nodes_of-append b [] items = refl
nodes_of-append b (n ∷ ns) items = ap (λ l. n ∷ l) (nodes_of-append b ns items)

append_assoc : (xs ys zs : List ℕ) → (xs ++ ys) ++ zs ≡ xs ++ (ys ++ zs)
append_assoc [] ys zs = refl
append_assoc (x ∷ xs) ys zs = ap (λ l. x ∷ l) (append_assoc xs ys zs)

orders_of-append :
    (h : Heap) (b : ℕ) (ns : List ℕ) (items : Items)
    → orders_of h (with_levels b ns ++ items) ≡ joined (order b h) ns ++ orders_of h items
orders_of-append h b [] items = refl
orders_of-append h b (n ∷ ns) items =
    ap (λ l. order b h n ++ l) (orders_of-append h b ns items)
    ∙ sym (append_assoc (order b h n) (joined (order b h) ns) (orders_of h items))

size_of-append :
    (h : Heap) (b : ℕ) (ns : List ℕ) (items : Items)
    → size_of h (with_levels b ns ++ items) ≡ sum_of (visits b h) ns + size_of h items
size_of-append h b [] items = omega arith
size_of-append h b (n ∷ ns) items = omega (arith, size_of-append h b ns items)

All-with_levels :
    (h : Heap) (b : ℕ) (ns : List ℕ) (items : Items)
    → All (Fits h b) ns
    → All (ItemFits h) items
    → All (ItemFits h) (with_levels b ns ++ items)
All-with_levels h b [] items f g = g
All-with_levels h b (n ∷ ns) items f g = (f.0, All-with_levels h b ns items f.1 g)

-- What a node puts on the stack.
sum_below : (f : ℕ → ℕ) (k : NodeKind) (ns : List ℕ) → sum_of f (below_of k ns) ≤ sum_of f ns
sum_below f element ns = omega arith
sum_below f text_node ns = omega arith

All-below : (P : ℕ → Type 0) (k : NodeKind) (ns : List ℕ) → All P ns → All P (below_of k ns)
All-below P element ns a = a
All-below P text_node ns a = tt

leaf : (k : NodeKind) (ns : List ℕ) → ns ≡ [] → below_of k ns ≡ []
leaf element ns e = e
leaf text_node ns e = refl

pub walk-order :
    (h : Heap) (fuel : ℕ) (items : Items)
    → size_of h items ≤ fuel
    → All (ItemFits h) items
    → walk fuel h (nodes_of items) ≡ orders_of h items
unfolding walk visits
walk-order h zero [] k f = refl
walk-order h (suc fuel) [] k f = refl
walk-order h zero ((n, zero) ∷ items) k f = absurd (omega arith)
walk-order h zero ((n, suc b) ∷ items) k f = absurd (omega arith)
walk-order h (suc fuel) ((n, zero) ∷ items) k f =
    ap (λ l. n ∷ l)
      (rw (leaf (h n).kind (h n).children f.0) (walk-order h fuel items (omega arith) f.1))
walk-order h (suc fuel) ((n, suc b) ∷ items) k f =
    let down = below_of (h n).kind (h n).children in
    let less = sum_below (visits b h) (h n).kind (h n).children in
    ap (λ l. n ∷ l)
      (ap (walk fuel h) (sym (nodes_of-append b down items))
        ∙ walk-order h fuel (with_levels b down ++ items)
            (omega (arith, size_of-append h b down items, less))
            (All-with_levels h b down items (All-below (Fits h b) (h n).kind (h n).children f.0)
              f.1)
        ∙ orders_of-append h b down items)

All-map : (P Q : ℕ → Type 0) (ns : List ℕ) → ((n : ℕ) → P n → Q n) → All P ns → All Q ns
All-map P Q [] f a = tt
All-map P Q (n ∷ ns) f a = (f n a.0, All-map P Q ns f a.1)

Fits-suc : (h : Heap) (b n : ℕ) → Fits h b n → Fits h (suc b) n
Fits-suc h zero n f = rw f tt
Fits-suc h (suc b) n f =
    All-map (Fits h b) (Fits h (suc b)) (h n).children (λ m g. Fits-suc h b m g) f

Fits-up : (h : Heap) (k b c n : ℕ) → c ≡ k + b → Fits h b n → Fits h c n
Fits-up h zero b c n e f = let same : c ≡ b = omega arith in rw same f
Fits-up h (suc k) b zero n e f = absurd (omega arith)
Fits-up h (suc k) b (suc c) n e f = Fits-suc h c n (Fits-up h k b c n (omega arith) f)

At_same : (h : Heap) (n d e : ℕ) → At h n d → At h n e → d ≡ e
At_same h n zero zero a b = refl
At_same h n zero (suc e) (top _ p) (below _ m _ q b) =
    let wrong : none ≡ some m = sym p ∙ q in absurd (ground (arith, wrong))
At_same h n (suc d) zero (below _ m _ q b) (top _ p) =
    let wrong : none ≡ some m = sym p ∙ q in absurd (ground (arith, wrong))
At_same h n (suc d) (suc e) (below _ m _ q a) (below _ l _ r b) =
    let both : some m ≡ some l = sym q ∙ r in
    let same : m ≡ l = ground (arith, both) in ap suc (At_same h l d e (rw same at a) b)

occurrences-All : (P : ℕ → Type 0) (xs : List ℕ) → ((c : ℕ) → 1 ≤ occurrences c xs → P c) → All P xs
unfolding occurrences
occurrences-All P [] f = tt
occurrences-All P (x ∷ xs) f = (f x (ground arith), occurrences-All P xs (λ c k. f c (omega arith)))

All-nothing : (xs : List ℕ) → All (λ (c : ℕ). 1 ≤ 0) xs → xs ≡ []
All-nothing [] a = refl
All-nothing (x ∷ xs) a = let wrong = a.0 in absurd (omega arith)

-- The depth of a child.
child_At :
    (h : Heap) (n c d : ℕ)
    → IsForest h
    → At h n d
    → 1 ≤ occurrences c (h n).children
    → At h c (suc d) × (suc d ≤ max_depth)
child_At h n c d f a k =
    let at = below c n d (child_parent h n c f.linked k) a in
    let (e, low, here) = f.shallow c in
    let same : suc d ≡ e = At_same h c (suc d) e at here in (at, omega arith)

forest_Fits : (h : Heap) (b n d : ℕ) → IsForest h → At h n d → d + b ≡ max_depth → Fits h b n
forest_Fits h zero n d f a e = All-nothing (h n).children (
    occurrences-All (λ c. 1 ≤ 0) (h n).children
      (λ c k. let (at, low) = child_At h n c d f a k in omega arith))
forest_Fits h (suc b) n d f a e =
    occurrences-All (Fits h b) (h n).children (λ c k.
      let (at, low) = child_At h n c d f a k in forest_Fits h b c (suc d) f at (omega arith))

-- No node of a forest stands more than `max_depth` levels below another.
pub IsForest-Fits : (h : Heap) (n : ℕ) → IsForest h → Fits h max_depth n
IsForest-Fits h n f =
    let (d, low, at) = f.shallow n in
    Fits-up h d (max_depth - d) max_depth n (omega arith)
      (forest_Fits h (max_depth - d) n d f at (omega arith))

append_none : (xs : List ℕ) → xs ++ [] ≡ xs
append_none [] = refl
append_none (x ∷ xs) = ap (λ l. x ∷ l) (append_none xs)

-- The nodes that a walk from one node of a forest pops.
pub walk_from :
    (h : Heap) (n : ℕ) → IsForest h → walk (visits max_depth h n) h (n ∷ []) ≡ order max_depth h n
walk_from h n f =
    walk-order h (visits max_depth h n) ((n, max_depth) ∷ []) (omega arith)
      (IsForest-Fits h n f, tt)
    ∙ append_none (order max_depth h n)
