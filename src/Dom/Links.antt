-- ===== src/Dom/Links.antt =====
-- The links between parents and children of src/dom.c.
use tai_ci.Base.{
  ℕ, ◌+◌, ◌-◌, ◌≡◌, ◌≤◌, refl, ap, ◌∙◌, inl, inr, Bool, true, false, List, [], ◌∷◌, ◌++◌, Option,
  none, some, arith, ◌==◌, if◌then◌else◌, Bool-cases, Option-cases,
}
use tai_ci.Dom.{
  Heap, write, unlink, set_parent, set_children, remove_first, detach, insert_before, place,
  is_parent,
}

abbrev pub bit : Bool → ℕ
bit true = 1
bit false = 0

-- How often a node stands in a list.
unfoldable pub occurrences : ℕ → List ℕ → ℕ
occurrences c [] = 0
occurrences c (x ∷ xs) = bit (x == c) + occurrences c xs

-- A node is once among the children of its parent, and among no other's.
abbrev pub Linked : Heap → Type 0
Linked h = (p c : ℕ) → occurrences c (h p).children ≡ bit (is_parent (h c).parent p)

occurrences-remove_first :
    (c x : ℕ) (xs : List ℕ) → occurrences x (remove_first c xs) ≡ occurrences x xs - bit (c == x)
unfolding occurrences remove_first
occurrences-remove_first c x [] = ground arith
occurrences-remove_first c x (y ∷ ys) = ground (arith, occurrences-remove_first c x ys)

occurrences-append :
    (x c : ℕ) (xs : List ℕ) → occurrences x (xs ++ c ∷ []) ≡ occurrences x xs + bit (c == x)
unfolding occurrences
occurrences-append x c [] = ground arith
occurrences-append x c (y ∷ ys) = ground (arith, occurrences-append x c ys)

occurrences-insert_before :
    (ref : Option ℕ) (c x : ℕ) (xs : List ℕ)
    → occurrences x (insert_before ref c xs) ≡ occurrences x xs + bit (c == x)
unfolding occurrences insert_before
occurrences-insert_before none c x xs = occurrences-append x c xs
occurrences-insert_before (some ref) c x [] = ground arith
occurrences-insert_before (some ref) c x (y ∷ ys) =
    ground (arith, occurrences-insert_before (some ref) c x ys)

==_same : (a b : ℕ) → (a == b) ≡ true → a ≡ b
==_same a b h = ground arith

==_comm : (a b : ℕ) → (a == b) ≡ (b == a)
==_comm a b = ground arith

pub set_parent_parent :
    (h : Heap) (n : ℕ) (o : Option ℕ) (x : ℕ)
    → (set_parent h n o x).parent ≡ (if x == n then o else (h x).parent)
unfolding set_parent write
set_parent_parent h n o x = elim (Bool-cases (x == n)) [ inl e ↦ rw e refl | inr e ↦ rw e refl ]

pub set_parent_children :
    (h : Heap) (n : ℕ) (o : Option ℕ) (x : ℕ) → (set_parent h n o x).children ≡ (h x).children
unfolding set_parent write
set_parent_children h n o x = elim (Bool-cases (x == n)) [
  | inl e ↦ rw (e, ==_same x n e) refl
  | inr e ↦ rw e refl
]

pub set_children_parent :
    (h : Heap) (n : ℕ) (l : List ℕ) (x : ℕ) → (set_children h n l x).parent ≡ (h x).parent
unfolding set_children write
set_children_parent h n l x = elim (Bool-cases (x == n)) [
  | inl e ↦ rw (e, ==_same x n e) refl
  | inr e ↦ rw e refl
]

pub set_children_children :
    (h : Heap) (n : ℕ) (l : List ℕ) (x : ℕ)
    → (set_children h n l x).children ≡ (if x == n then l else (h x).children)
unfolding set_children write
set_children_children h n l x = elim (Bool-cases (x == n)) [ inl e ↦ rw e refl | inr e ↦ rw e refl ]

-- What the two writes of `detach` leave at each node.
unlink_parent :
    (h : Heap) (c x : ℕ) (o : Option ℕ)
    → (h c).parent ≡ o
    → (unlink h c o x).parent ≡ (if x == c then none else (h x).parent)
unlink_parent h c x none e = elim (Bool-cases (x == c)) [
  | inl f ↦ rw (f, ==_same x c f) e
  | inr f ↦ rw f refl
]
unlink_parent h c x (some old) e =
    rw
      (
        set_parent_parent (set_children h old (remove_first c (h old).children)) c none x,
        set_children_parent h old (remove_first c (h old).children) x,
      )
      refl

unlink_children :
    (h : Heap) (c p : ℕ) (o : Option ℕ)
    → (unlink h c o p).children
      ≡ (if is_parent o p then remove_first c (h p).children else (h p).children)
unlink_children h c p none = refl
unlink_children h c p (some old) =
    set_parent_children (set_children h old (remove_first c (h old).children)) c none p
    ∙ set_children_children h old (remove_first c (h old).children) p
    ∙ (elim (Bool-cases (p == old)) [
      | inl g ↦ rw (g, ==_comm old p, g, ==_same p old g) refl
      | inr g ↦ rw (g, ==_comm old p, g) refl
    ])

pub detach_parent :
    (h : Heap) (c x : ℕ) → (detach h c x).parent ≡ (if x == c then none else (h x).parent)
unfolding detach
detach_parent h c x = unlink_parent h c x (h c).parent refl

pub detach_children :
    (h : Heap) (c p : ℕ)
    → (detach h c p).children
      ≡ (if is_parent (h c).parent p then remove_first c (h p).children else (h p).children)
unfolding detach
detach_children h c p = unlink_children h c p (h c).parent

occurrences-removed :
    (b : Bool) (c x : ℕ) (xs : List ℕ)
    → occurrences x (if b then remove_first c xs else xs)
      ≡ occurrences x xs - (if b then bit (c == x) else 0)
occurrences-removed true c x xs = occurrences-remove_first c x xs
occurrences-removed false c x xs = omega arith

pub detach-Linked : (h : Heap) (c : ℕ) → Linked h → Linked (detach h c)
detach-Linked h c l p x =
    rw
      (
        detach_children h c p,
        detach_parent h c x,
        occurrences-removed (is_parent (h c).parent p) c x (h p).children,
        l p x,
      )
      (elim (Bool-cases (x == c)) [
        | inl e ↦ rw (e, ==_comm c x, e, ==_same x c e) (ground arith)
        | inr e ↦ rw (e, ==_comm c x, e) (ground arith)
      ])

pub place_parent :
    (h : Heap) (p c : ℕ) (ref : Option ℕ) (x : ℕ)
    → (place h p c ref x).parent ≡ (if x == c then some p else (h x).parent)
unfolding place
place_parent h p c ref x =
    let hung = set_children (detach h c) p (insert_before ref c (detach h c p).children) in
    set_parent_parent hung c (some p) x ∙ (elim (Bool-cases (x == c)) [
      | inl e ↦ rw e refl
      | inr e ↦ rw e (
          set_children_parent (detach h c) p (insert_before ref c (detach h c p).children) x
          ∙ detach_parent h c x
          ∙ rw e refl)
    ])

pub place_children :
    (h : Heap) (p c : ℕ) (ref : Option ℕ) (x : ℕ)
    → (place h p c ref x).children
      ≡ (if x == p then insert_before ref c (detach h c p).children else (detach h c x).children)
unfolding place
place_children h p c ref x =
    set_parent_children (set_children (detach h c) p (insert_before ref c (detach h c p).children))
      c (some p) x
    ∙ set_children_children (detach h c) p (insert_before ref c (detach h c p).children) x

hung_bit :
    (x c p : ℕ) (o : Option ℕ)
    → bit (is_parent (if x == c then none else o) p) + bit (c == x)
      ≡ bit (is_parent (if x == c then some p else o) p)
hung_bit x c p o = elim (Bool-cases (x == c)) [
  | inl e ↦ rw (e, ==_comm c x, e) (ground arith)
  | inr e ↦ rw (e, ==_comm c x, e) (omega arith)
]

-- Placing a node under a parent links it there and nowhere else.
pub place-Linked : (h : Heap) (p c : ℕ) (ref : Option ℕ) → Linked h → Linked (place h p c ref)
place-Linked h p c ref l q x =
    let kept = detach-Linked h c l q x in
    rw (place_children h p c ref q, place_parent h p c ref x)
      (elim (Bool-cases (q == p)) [
        | inl f ↦
            rw
              (
                f,
                occurrences-insert_before ref c x (detach h c p).children,
                detach-Linked h c l p x,
                detach_parent h c x,
                ==_same q p f,
              )
              (hung_bit x c p (h x).parent)
        | inr f ↦ rw (f, kept, detach_parent h c x) (ground (arith, ==_comm p q))
      ])

-- A child has its parent.
pub child_parent :
    (h : Heap) (n c : ℕ) → Linked h → 1 ≤ occurrences c (h n).children → (h c).parent ≡ some n
child_parent h n c l o = elim (Option-cases (h c).parent) [
  | inl e ↦
      let lost : occurrences c (h n).children ≡ bit (is_parent none n) = rw e at (l n c) in
      absurd (omega arith)
  | inr (p, e) ↦
      let held : occurrences c (h n).children ≡ bit (is_parent (some p) n) = rw e at (l n c) in
      e ∙ ap some (ground (arith, held, o))
]
