-- ===== src/Dom/Contents/Orphans.antt =====
-- The nodes that lose their parent, and the one that gets new children, in src/dom.c.
use tai_ci.Base.{
  ℕ, zero, suc, ◌+◌, ◌≤◌, ◌≡◌, refl, ap, ◌∙◌, inl, inr, Bool, true, false, List, [], ◌∷◌, Option,
  none, some, Bytes, arith, leb, ◌==◌, if◌then◌else◌, Bool-cases,
}
use tai_ci.Dom.{NodeKind, Node, Heap, set_parent, set_children, write, is_parent}
use tai_ci.Dom.Links.{
  Linked, bit, occurrences, set_parent_parent, set_parent_children, set_children_parent,
  set_children_children,
}
use tai_ci.Dom.Depth.{At, top, below}
use tai_ci.Dom.Moving.{IsForest}
use tai_ci.Dom.Contents.{orphans, emptied}

-- Whether a node is in a list.
abbrev pub among : ℕ → List ℕ → Bool
among x cs = leb 1 (occurrences x cs)

orphans_parent :
    (h : Heap) (cs : List ℕ) (x : ℕ)
    → (orphans h cs x).parent ≡ (if among x cs then none else (h x).parent)
unfolding orphans occurrences
orphans_parent h [] x = refl
orphans_parent h (c ∷ cs) x =
    orphans_parent (set_parent h c none) cs x
    ∙ rw (set_parent_parent h c none x) (elim (Bool-cases (c == x)) [
      | inl e ↦
          let other : (x == c) ≡ true = ground (arith, e) in
          let found : leb 1 (bit true + occurrences x cs) ≡ true = ground arith in
          rw (other, e, found)
            (elim (Bool-cases (among x cs)) [ inl f ↦ rw f refl | inr f ↦ rw f refl ])
      | inr e ↦
          let other : (x == c) ≡ false = ground (arith, e) in
          let later : bit false + occurrences x cs ≡ occurrences x cs = omega arith in
          rw (other, e, later) refl
    ])

orphans_children : (h : Heap) (cs : List ℕ) (x : ℕ) → (orphans h cs x).children ≡ (h x).children
unfolding orphans
orphans_children h [] x = refl
orphans_children h (c ∷ cs) x =
    orphans_children (set_parent h c none) cs x ∙ set_parent_children h c none x

-- In a document, the children of a node are those whose parent it is.
among-is_parent :
    (h : Heap) (n x : ℕ) → Linked h → among x (h n).children ≡ is_parent (h x).parent n
among-is_parent h n x l = elim (Bool-cases (is_parent (h x).parent n)) [
  | inl e ↦
      let once : occurrences x (h n).children ≡ 1 = l n x ∙ rw e refl in rw (once, e) (ground arith)
  | inr e ↦
      let never : occurrences x (h n).children ≡ 0 = l n x ∙ rw e refl in
      rw (never, e) (ground arith)
]

pub emptied_parent :
    (h : Heap) (n x : ℕ)
    → Linked h
    → (emptied h n x).parent ≡ (if is_parent (h x).parent n then none else (h x).parent)
unfolding emptied
emptied_parent h n x l =
    set_children_parent (orphans h (h n).children) n [] x
    ∙ orphans_parent h (h n).children x
    ∙ ap (λ (b : Bool). if b then none else (h x).parent) (among-is_parent h n x l)

pub emptied_children :
    (h : Heap) (n x : ℕ) → (emptied h n x).children ≡ (if x == n then [] else (h x).children)
unfolding emptied
emptied_children h n x =
    set_children_children (orphans h (h n).children) n [] x
    ∙ ap (λ (l : List ℕ). if x == n then [] else l) (orphans_children h (h n).children x)

lost_bit :
    (o : Option ℕ) (n p : ℕ)
    → bit (is_parent (if is_parent o n then none else o) p)
      ≡ (if p == n then 0 else bit (is_parent o p))
lost_bit none n p = elim (Bool-cases (p == n)) [ inl e ↦ rw e refl | inr e ↦ rw e refl ]
lost_bit (some q) n p = elim (Bool-cases (q == n)) [
  | inl e ↦ rw e (ground (arith, e))
  | inr e ↦ rw e (ground (arith, e))
]

emptied-Linked : (h : Heap) (n : ℕ) → Linked h → Linked (emptied h n)
unfolding occurrences
emptied-Linked h n l p c =
    rw (emptied_children h n p, emptied_parent h n c l, lost_bit (h c).parent n p)
      (elim (Bool-cases (p == n)) [ inl e ↦ rw e refl | inr e ↦ rw e (l p c) ])

pub emptied_At :
    (h : Heap) (n x d : ℕ) → Linked h → At h x d → (e : ℕ) × (e ≤ d) × At (emptied h n) x e
emptied_At h n x zero l (top _ e) = (0, omega arith, top x (emptied_parent h n x l ∙ rw e refl))
emptied_At h n x (suc d) l (below _ p _ e a) = elim (Bool-cases (p == n)) [
  | inl f ↦ (0, omega arith, top x (emptied_parent h n x l ∙ rw (e, f) refl))
  | inr f ↦
      let (k, low, at) = emptied_At h n p d l a in
      (suc k, omega arith, below x p k (emptied_parent h n x l ∙ rw (e, f) refl) at)
]

pub emptied-IsForest : (h : Heap) (n : ℕ) → IsForest h → IsForest (emptied h n)
emptied-IsForest h n f = record {
  linked = emptied-Linked h n f.linked;
  shallow = λ x.
      let (d, low, at) = f.shallow x in
      let (e, under_it, new) = emptied_At h n x d f.linked at in (e, omega arith, new);
}

-- What is in a node besides its links.
abbrev pub inside : Node → NodeKind × Bytes
inside node = (node.kind, node.value)

pub set_parent_inside :
    (h : Heap) (n : ℕ) (o : Option ℕ) (x : ℕ) → inside (set_parent h n o x) ≡ inside (h x)
unfolding set_parent write
set_parent_inside h n o x = elim (Bool-cases (x == n)) [
  | inl e ↦ let same : x ≡ n = ground arith in rw (e, same) refl
  | inr e ↦ rw e refl
]

pub set_children_inside :
    (h : Heap) (n : ℕ) (l : List ℕ) (x : ℕ) → inside (set_children h n l x) ≡ inside (h x)
unfolding set_children write
set_children_inside h n l x = elim (Bool-cases (x == n)) [
  | inl e ↦ let same : x ≡ n = ground arith in rw (e, same) refl
  | inr e ↦ rw e refl
]

orphans_inside : (h : Heap) (cs : List ℕ) (x : ℕ) → inside (orphans h cs x) ≡ inside (h x)
unfolding orphans
orphans_inside h [] x = refl
orphans_inside h (c ∷ cs) x =
    orphans_inside (set_parent h c none) cs x ∙ set_parent_inside h c none x

pub emptied_inside : (h : Heap) (n x : ℕ) → inside (emptied h n x) ≡ inside (h x)
unfolding emptied
emptied_inside h n x =
    set_children_inside (orphans h (h n).children) n [] x ∙ orphans_inside h (h n).children x
