-- ===== src/Dom/Contents/Hanging.antt =====
-- Placing a new node in a document of src/dom.c.
use tai_ci.Base.{
  ℕ, zero, suc, ◌<◌, ◌≡◌, refl, ap, ◌∙◌, inl, inr, false, [], ◌∷◌, Option, none, some, arith, ◌==◌,
  if◌then◌else◌, Bool-cases,
}
use tai_ci.Dom.{Node, Heap, max_depth, set_parent, set_children, write, is_parent}
use tai_ci.Dom.Links.{
  Linked, bit, occurrences, set_parent_parent, set_parent_children, set_children_parent,
  set_children_children,
}
use tai_ci.Dom.Depth.{At, top, below}
use tai_ci.Dom.Moving.{IsForest}
use tai_ci.Dom.Contents.Orphans.{inside, set_parent_inside, set_children_inside}

-- An address that no node is linked to, as that of a node that is not there yet; so it is another
-- than that of a node that is there.
pub record IsFresh (h : Heap) (n fresh : ℕ) : Type 0 where
  pub another : (n == fresh) ≡ false
  pub no_parent : (h fresh).parent ≡ none
  pub no_children : (h fresh).children ≡ []

-- Writing a node changes no link where the links are the same.
abbrev pub SameLinks : Heap → Heap → Type 0
SameLinks h g =
    ((x : ℕ) → (g x).parent ≡ (h x).parent) × ((x : ℕ) → (g x).children ≡ (h x).children)

pub write-SameLinks :
    (h : Heap) (n : ℕ) (node : Node)
    → node.parent ≡ (h n).parent
    → node.children ≡ (h n).children
    → SameLinks h (write h n node)
unfolding write
write-SameLinks h n node e f = (
  λ x. elim (Bool-cases (x == n)) [
    | inl g ↦ let same : x ≡ n = ground arith in rw (g, same) e
    | inr g ↦ rw g refl
  ],
  λ x. elim (Bool-cases (x == n)) [
    | inl g ↦ let same : x ≡ n = ground arith in rw (g, same) f
    | inr g ↦ rw g refl
  ],
)

pub same_At : (h g : Heap) (x d : ℕ) → SameLinks h g → At h x d → At g x d
same_At h g x zero s (top _ e) = top x (s.0 x ∙ e)
same_At h g x (suc d) s (below _ p _ e a) = below x p d (s.0 x ∙ e) (same_At h g p d s a)

pub same-IsForest : (h g : Heap) → SameLinks h g → IsForest h → IsForest g
same-IsForest h g s f = record {
  linked = λ p c. rw (s.1 p, s.0 c) (f.linked p c);
  shallow = λ x. let (d, low, at) = f.shallow x in (d, low, same_At h g x d s at);
}

-- Hanging a node without links under one that has no children.
unfoldable pub hang : Heap → ℕ → ℕ → Heap
hang h n fresh = set_parent (set_children h n (fresh ∷ [])) fresh (some n)

hang_parent :
    (h : Heap) (n fresh x : ℕ)
    → (hang h n fresh x).parent ≡ (if x == fresh then some n else (h x).parent)
unfolding hang
hang_parent h n fresh x =
    set_parent_parent (set_children h n (fresh ∷ [])) fresh (some n) x
    ∙ ap (λ (o : Option ℕ). if x == fresh then some n else o)
        (set_children_parent h n (fresh ∷ []) x)

pub hang_children :
    (h : Heap) (n fresh x : ℕ)
    → (hang h n fresh x).children ≡ (if x == n then fresh ∷ [] else (h x).children)
unfolding hang
hang_children h n fresh x =
    set_parent_children (set_children h n (fresh ∷ [])) fresh (some n) x
    ∙ set_children_children h n (fresh ∷ []) x

hang-Linked :
    (h : Heap) (n fresh : ℕ)
    → Linked h
    → (h n).children ≡ []
    → (h fresh).parent ≡ none
    → Linked (hang h n fresh)
unfolding occurrences
hang-Linked h n fresh l empty alone p c =
    rw (hang_children h n fresh p, hang_parent h n fresh c)
      (elim (Bool-cases (p == n)) [
        | inl e ↦ elim (Bool-cases (c == fresh)) [
          | inl f ↦ rw (e, f) (ground (arith, e, f))
          | inr f ↦
              let same : p ≡ n = ground (arith, e) in
              let never : 0 ≡ bit (is_parent (h c).parent n) = rw empty at (l n c) in
              rw (e, f, same) (ground (arith, never, f))
        ]
        | inr e ↦ elim (Bool-cases (c == fresh)) [
          | inl f ↦
              let same : c ≡ fresh = ground (arith, f) in
              let never : occurrences c (h p).children ≡ 0 = l p c ∙ rw (same, alone) refl in
              rw (e, f) (ground (arith, never, e))
          | inr f ↦ rw (e, f) (l p c)
        ]
      ])

-- A node other than the fresh one, which has nothing under it, keeps its place.
hang_At :
    (h : Heap) (n fresh x d : ℕ)
    → Linked h
    → (h fresh).children ≡ []
    → (x == fresh) ≡ false
    → At h x d
    → At (hang h n fresh) x d
unfolding occurrences
hang_At h n fresh x zero l bare other (top _ e) = top x (hang_parent h n fresh x ∙ rw other e)
hang_At h n fresh x (suc d) l bare other (below _ p _ e a) = elim (Bool-cases (p == fresh)) [
  | inl f ↦
      let same : p ≡ fresh = ground (arith, f) in
      let once : occurrences x (h p).children ≡ bit (is_parent (some p) p) = rw e at (l p x) in
      let wrong : 0 ≡ bit (is_parent (some fresh) fresh) = rw (same, bare) at once in
      absurd (ground (arith, wrong))
  | inr f ↦ below x p d (hang_parent h n fresh x ∙ rw other e) (hang_At h n fresh p d l bare f a)
]

pub hang-IsForest :
    (h : Heap) (n fresh d : ℕ)
    → IsForest h
    → (h n).children ≡ []
    → (h fresh).parent ≡ none
    → (h fresh).children ≡ []
    → (n == fresh) ≡ false
    → At h n d
    → d < max_depth
    → IsForest (hang h n fresh)
hang-IsForest h n fresh d f empty alone bare apart a low = record {
  linked = hang-Linked h n fresh f.linked empty alone;
  shallow = λ x. elim (Bool-cases (x == fresh)) [
    | inl e ↦ (
      suc d,
      omega arith,
      below x n d (hang_parent h n fresh x ∙ rw e refl)
          (hang_At h n fresh n d f.linked bare apart a),
    )
    | inr e ↦
        let (k, small, at) = f.shallow x in (k, small, hang_At h n fresh x k f.linked bare e at)
  ];
}

pub hang_inside : (h : Heap) (n fresh x : ℕ) → inside (hang h n fresh x) ≡ inside (h x)
unfolding hang
hang_inside h n fresh x =
    set_parent_inside (set_children h n (fresh ∷ [])) fresh (some n) x
    ∙ set_children_inside h n (fresh ∷ []) x
