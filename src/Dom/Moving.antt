-- ===== src/Dom/Moving.antt =====
-- `tai_node_insert_before` and `tai_node_remove_child` of src/dom.c on well-formed documents.
use tai_ci.Base.{
  ℕ, zero, suc, ◌+◌, ◌-◌, ◌≤◌, ◌≡◌, ◌≢◌, ◌⊎◌, refl, ap, ◌∙◌, inl, inr, Bool, true, false, not, ◌||◌,
  Option, none, some, arith, ◌==◌, if◌then◌else◌, Bool-cases, ltb,
}
use tai_ci.Dom.{
  Heap, DomStatus, remove_first, ok, no_memory, wrong_document, cycle, not_child,
  reference_not_child, depth_limit, max_depth, detach, insert_before, on_chain, ancestors,
  fits_below, place, insert_nodes, is_parent, is_node, in_document, under, tai_node_insert_before,
  tai_node_remove_child,
}
use tai_ci.Dom.Links.{
  Linked, detach-Linked, detach_parent, detach_children, place-Linked, place_parent, place_children,
}
use tai_ci.Dom.Depth.{
  At, top, below, Under, itself, deeper, on_chain-At, ancestors-At, fits_below-Fits, Under-Fits,
}

-- Parents and children agree, and every node has at most `max_depth` ancestors; so no node is its
-- own ancestor.
pub record IsForest (h : Heap) : Type 0 where
  pub linked : Linked h
  pub shallow : (n : ℕ) → (d : ℕ) × (d ≤ max_depth) × At h n d

abbrev Shallow : Heap → ℕ → Type 0
Shallow g n = (d : ℕ) × (d ≤ max_depth) × At g n d

same_number : (c : ℕ) → (c == c) ≡ true
same_number c = ground arith

-- A node is not under `c` and keeps its depth, or it is `k` levels under `c` and takes the new depth.
Shift : Heap → Heap → ℕ → ℕ → ℕ → ℕ → Type 0
Shift h g c base n d = At g n d ⊎ ((k : ℕ) × Under h c n k × At g n (base + k))

at_top : (h g : Heap) (c base n d : ℕ) → At g c base → (n == c) ≡ true → Shift h g c base n d
unfolding Shift
at_top h g c base n d new f =
    let same : n ≡ c = ground arith in
    let sum : base + 0 ≡ base = omega arith in inr (0, rw same itself, rw (same, sum) new)

shift :
    (h g : Heap) (c base : ℕ)
    → ((x : ℕ) → (x == c) ≡ false → (g x).parent ≡ (h x).parent)
    → At g c base
    → (n d : ℕ) → At h n d
    → Shift h g c base n d
unfolding Shift
shift h g c base same new n zero (top _ e) = elim (Bool-cases (n == c)) [
  | inl f ↦ at_top h g c base n zero new f
  | inr f ↦ inl (top n (same n f ∙ e))
]
shift h g c base same new n (suc d) (below _ p _ e a) = elim (Bool-cases (n == c)) [
  | inl f ↦ at_top h g c base n (suc d) new f
  | inr f ↦ elim (shift h g c base same new p d a) [
    | inl old ↦ inl (below n p d (same n f ∙ e) old)
    | inr (k, u, moved) ↦ inr (
      suc k,
      deeper n p k e u,
      let sum : base + suc k ≡ suc (base + k) = omega arith in
          rw sum (below n p (base + k) (same n f ∙ e) moved),
    )
  ]
]

place-Shallow :
    (h : Heap) (p c : ℕ) (ref : Option ℕ)
    → IsForest h
    → on_chain (suc max_depth) h c (some p) ≡ false
    → ltb max_depth (ancestors h p + 1) ≡ false
    → fits_below h c (max_depth - (ancestors h p + 1)) ≡ true
    → (n : ℕ) → Shallow (place h p c ref) n
unfolding Shift
place-Shallow h p c ref f apart room fits n =
    let g = place h p c ref in
    let (dp, small, at) = f.shallow p in
    let deep : ancestors h p ≡ dp = ancestors-At h p dp at small in
    let same : (x : ℕ) → (x == c) ≡ false → (g x).parent ≡ (h x).parent =
      λ x e. place_parent h p c ref x ∙ rw e refl in
    let own : (g c).parent ≡ some p = place_parent h p c ref c ∙ rw (same_number c) refl in
    let parent_at : At g p dp =
      on_chain-At h g c same (suc max_depth) p dp at (omega arith) apart in
    let (d, low, here) = f.shallow n in
    elim (shift h g c (suc dp) same (below c p dp own parent_at) n d here) [
      | inl old ↦ (d, low, old)
      | inr (k, u, moved) ↦
          let (inside, _) =
            Under-Fits h c (max_depth - (ancestors h p + 1)) n k f.linked
              (fits_below-Fits h c (max_depth - (ancestors h p + 1)) fits) u in
          (suc dp + k, ground (arith, deep, inside, room), moved)
    ]

no_parent : (b : Bool) (o : Option ℕ) → o ≡ none → (if b then none else o) ≡ none
no_parent true o e = refl
no_parent false o e = e

detach-Shallow : (h : Heap) (c n d : ℕ) → At h n d → (e : ℕ) × (e ≤ d) × At (detach h c) n e
detach-Shallow h c n zero (top _ e) =
    (0, omega arith, top n (detach_parent h c n ∙ no_parent (n == c) (h n).parent e))
detach-Shallow h c n (suc d) (below _ p _ e a) = elim (Bool-cases (n == c)) [
  | inl f ↦ (0, omega arith, top n (detach_parent h c n ∙ rw f refl))
  | inr f ↦
      let (m, low, at) = detach-Shallow h c p d a in
      (suc m, omega arith, below n p m (detach_parent h c n ∙ rw f e) at)
]

pub detach-IsForest : (h : Heap) (c : ℕ) → IsForest h → IsForest (detach h c)
detach-IsForest h c f = record {
  linked = detach-Linked h c f.linked;
  shallow = λ n.
      let (d, low, at) = f.shallow n in
      let (e, under_it, new) = detach-Shallow h c n d at in (e, omega arith, new);
}

-- What `tai_node_insert_before` did: it left all as it was, or it succeeded, and the child is under
-- the parent, at its place among the children.
pub record Moved (h : Heap) (p c : ℕ) (ref : Option ℕ) (r : Heap × DomStatus × Bool) : Type 0 where
  pub forest : IsForest r.0
  pub effect :
      ((r.0 ≡ h) × (r.2 ≡ false))
      ⊎ ((r.1 ≡ ok)
          × (r.2 ≡ true)
          × ((r.0 c).parent ≡ some p)
          × ((r.0 p).children ≡ insert_before ref c (detach h c p).children))

same-Moved :
    (h : Heap) (p c : ℕ) (ref : Option ℕ) (s : DomStatus)
    → IsForest h
    → Moved h p c ref (h, s, false)
same-Moved h p c ref s f = record { forest = f; effect = inl (refl, refl) }

test-Moved :
    (h : Heap) (p c : ℕ) (ref : Option ℕ) (b : Bool) (r q : Heap × DomStatus × Bool)
    → (b ≡ true → Moved h p c ref r)
    → (b ≡ false → Moved h p c ref q)
    → Moved h p c ref (if b then r else q)
test-Moved h p c ref true r q m n = m refl
test-Moved h p c ref false r q m n = n refl

place-Moved :
    (h : Heap) (p c : ℕ) (ref : Option ℕ)
    → IsForest h
    → on_chain (suc max_depth) h c (some p) ≡ false
    → ltb max_depth (ancestors h p + 1) ≡ false
    → fits_below h c (max_depth - (ancestors h p + 1)) ≡ true
    → Moved h p c ref (place h p c ref, ok, true)
place-Moved h p c ref f apart room fits = record {
  forest = record {
    linked = place-Linked h p c ref f.linked;
    shallow = place-Shallow h p c ref f apart room fits;
  };
  effect = inr (
    refl,
    refl,
    place_parent h p c ref c ∙ rw (same_number c) refl,
    place_children h p c ref p ∙ rw (same_number p) refl,
  );
}

-- On a forest where parents and children agree and no node has more than 512 ancestors, the call
-- keeps that, whatever nodes and reference it is given and whatever fails. Either nothing changes,
-- or the call succeeds, the child's parent is the given one, and the parent's children are those it
-- had without the child, with the child before the reference or at the end.
pub insert_before-Moved :
    (stack_ok memory : Bool) (h : Heap) (p c : ℕ) (ref : Option ℕ)
    → IsForest h
    → Moved h p c ref (tai_node_insert_before stack_ok memory h (some p) (some c) ref)
unfolding tai_node_insert_before insert_nodes
insert_before-Moved stack_ok memory h p c ref f =
    let as_was = λ (s : DomStatus). same-Moved h p c ref s f in
    test-Moved h p c ref
      (not ((h p).document == (h c).document) || not (in_document h ref (h p).document)) _ _
      (λ e. as_was wrong_document)
      (λ e.
        test-Moved h p c ref (not (under h ref p)) _ _ (λ e. as_was reference_not_child)
          (λ e.
            test-Moved h p c ref (is_node ref c) _ _ (λ e. as_was ok)
              (λ e.
                test-Moved h p c ref (on_chain (suc max_depth) h c (some p)) _ _ (λ e. as_was cycle)
                  (λ apart.
                    test-Moved h p c ref (ltb max_depth (ancestors h p + 1)) _ _
                      (λ e. as_was depth_limit)
                      (λ room.
                        test-Moved h p c ref (not stack_ok) _ _ (λ e. as_was no_memory)
                          (λ e.
                            test-Moved h p c ref
                              (not (fits_below h c (max_depth - (ancestors h p + 1)))) _ _
                              (λ e. as_was depth_limit)
                              (λ fits.
                                test-Moved h p c ref (not memory) _ _ (λ e. as_was no_memory)
                                  (λ e.
                                    place-Moved h p c ref f apart room
                                      (ground (arith, fits))))))))))

is_parent-some : (o : Option ℕ) (p : ℕ) → is_parent o p ≡ true → o ≡ some p
is_parent-some none p e = ground arith
is_parent-some (some q) p e = ap some (ground arith)

-- What `tai_node_remove_child` did: it took the node from the parent, or it failed and left all as it
-- was.
pub record Removed (h : Heap) (p c : ℕ) (r : Heap × DomStatus) : Type 0 where
  pub forest : IsForest r.0
  pub effect :
      ((r.1 ≡ ok)
        × ((h c).parent ≡ some p)
        × ((r.0 c).parent ≡ none)
        × ((r.0 p).children ≡ remove_first c (h p).children))
      ⊎ ((r.1 ≢ ok) × ((h c).parent ≢ some p ⊎ (h p).document ≢ (h c).document) × (r.0 ≡ h))

wrong_document≢ok : wrong_document ≢ ok
wrong_document≢ok e = ground (arith, e)

not_child≢ok : not_child ≢ ok
not_child≢ok e = ground (arith, e)

taken-Removed :
    (h : Heap) (p c : ℕ)
    → IsForest h
    → is_parent (h c).parent p ≡ true
    → Removed h p c (detach h c, ok)
taken-Removed h p c f g = record {
  forest = detach-IsForest h c f;
  effect = inl (
    refl,
    is_parent-some (h c).parent p g,
    detach_parent h c c ∙ rw (same_number c) refl,
    detach_children h c p ∙ rw g refl,
  );
}

-- On such a forest the call keeps it one. Either it answers ok, and the node was a child of the given
-- parent and now has no parent, and the parent's children are without its first occurrence; or it
-- answers another status, the node was no child of the given parent or of another document, and
-- nothing changes.
pub remove_child-Removed :
    (h : Heap) (p c : ℕ) → IsForest h → Removed h p c (tai_node_remove_child h (some p) (some c))
unfolding tai_node_remove_child
remove_child-Removed h p c f = elim (Bool-cases (not ((h p).document == (h c).document))) [
  | inl e ↦
      rw e (record {
        forest = f;
        effect = inr (wrong_document≢ok, inr (λ q. ground (arith, q)), refl);
      })
  | inr e ↦ elim (Bool-cases (is_parent (h c).parent p)) [
    | inl g ↦ rw (e, g) (taken-Removed h p c f g)
    | inr g ↦
        rw (e, g)
          (record {
            forest = f;
            effect = inr (not_child≢ok, inl (λ q. ground (arith, g, rw q at g)), refl);
          })
  ]
]
