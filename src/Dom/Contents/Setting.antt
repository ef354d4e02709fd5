-- ===== src/Dom/Contents/Setting.antt =====
-- `tai_node_set_text_content` of src/dom.c on well-formed documents.
use tai_ci.Base.{
  ℕ, ◌≡◌, ◌≢◌, ◌⊎◌, refl, sym, ap, ◌∙◌, inl, inr, Bool, true, false, not, List, [], ◌∷◌, ◌++◌, none,
  Bytes, arith, leb, ◌==◌, if◌then◌else◌, Bool-cases, length, some,
}
use tai_ci.Dom.{
  NodeKind, element, text_node, Node, Heap, DomStatus, ok, no_memory, node_limit, depth_limit,
  max_depth, script_node_limit, write, ancestors,
}
use tai_ci.Dom.Depth.{ancestors-At}
use tai_ci.Dom.Moving.{IsForest}
use tai_ci.Dom.Walks.{tai_node_text_content}
use tai_ci.Dom.Walks.Reading.{walks-order}
use tai_ci.Dom.Contents.{
  Changed, failed, emptied, with_text, text_node_of, set_element_text, set_by_kind,
  tai_node_set_text_content,
}
use tai_ci.Dom.Contents.Orphans.{
  inside, emptied_inside, emptied_At, emptied_parent, emptied_children, emptied-IsForest,
}
use tai_ci.Dom.Contents.Hanging.{
  IsFresh, same_At, write-SameLinks, same-IsForest, hang, hang-IsForest, hang_inside, hang_children,
}

-- What the call did: the document is well-formed still, and either the node's text content is the
-- text, or the call failed and changed nothing.
pub record TextSet (h : Heap) (nodes : List ℕ) (n : ℕ) (text : Bytes) (r : Changed) : Type 0 where
  pub forest : IsForest r.heap
  pub effect :
      ((r.status ≡ ok) × (tai_node_text_content true r.heap n ≡ some text))
      ⊎ ((r.status ≢ ok) × (r.heap ≡ h) × (r.nodes ≡ nodes))

failed-TextSet :
    (h : Heap) (nodes : List ℕ) (n : ℕ) (text : Bytes) (s : DomStatus)
    → IsForest h
    → s ≢ ok
    → TextSet h nodes n text (failed h nodes s)
failed-TextSet h nodes n text s f k = record { forest = f; effect = inr (k, refl, refl) }

append_none : (xs : Bytes) → xs ++ [] ≡ xs
append_none [] = refl
append_none (x ∷ xs) = ap (λ l. x ∷ l) (append_none xs)

no_memory≢ok : no_memory ≢ ok
no_memory≢ok e = ground (arith, e)

node_limit≢ok : node_limit ≢ ok
node_limit≢ok e = ground (arith, e)

depth_limit≢ok : depth_limit ≢ ok
depth_limit≢ok e = ground (arith, e)

-- The text of a text node is its own, and that of an element its children's.
own_text :
    (h : Heap) (n : ℕ) (text : Bytes)
    → IsForest h
    → inside (h n) ≡ (text_node, text)
    → tai_node_text_content true h n ≡ some text
own_text h n text f e =
    (walks-order true h n [] f).0
    ∙ rw (ap (λ p. p.0) e, ap (λ p. p.1) e) (ap some (append_none text))

childless_text :
    (h : Heap) (n : ℕ)
    → IsForest h
    → (h n).kind ≡ element
    → (h n).children ≡ []
    → tai_node_text_content true h n ≡ some []
childless_text h n f e c = (walks-order true h n [] f).0 ∙ rw (e, c) refl

child_text :
    (h : Heap) (n c : ℕ) (text : Bytes)
    → IsForest h
    → (h n).kind ≡ element
    → (h n).children ≡ c ∷ []
    → inside (h c) ≡ (text_node, text)
    → tai_node_text_content true h n ≡ some text
child_text h n c text f e k i =
    (walks-order true h n [] f).0
    ∙ rw (e, k, ap (λ p. p.0) i, ap (λ p. p.1) i) (ap some (append_none text))

both_empty : (b : Bool) → if◌then◌else◌ {A = List ℕ} b [] [] ≡ []
both_empty true = refl
both_empty false = refl

write_inside :
    (h : Heap) (c : ℕ) (node : Node) (x : ℕ)
    → inside (write h c node x) ≡ (if x == c then inside node else inside (h x))
unfolding write
write_inside h c node x = elim (Bool-cases (x == c)) [ inl e ↦ rw e refl | inr e ↦ rw e refl ]

same_number : (n : ℕ) → (n == n) ≡ true
same_number n = ground arith

with_text-TextSet :
    (h : Heap) (nodes : List ℕ) (n fresh : ℕ) (text : Bytes)
    → IsForest h
    → IsFresh h n fresh
    → (h n).kind ≡ element
    → leb max_depth (ancestors h n) ≡ false
    → TextSet h nodes n text (record {
      heap = with_text h n fresh text;
      nodes = nodes ++ fresh ∷ [];
      status = ok;
      removed = (h n).children;
    })
unfolding with_text hang
with_text-TextSet h nodes n fresh text f new kind low =
    let made = write h fresh (text_node_of (h n).document text) in
    let same =
      write-SameLinks h fresh (text_node_of (h n).document text) (sym new.no_parent)
        (sym new.no_children) in
    let bare = emptied made n in
    let (d, small, at) = f.shallow n in
    let (e, less, there) =
      emptied_At made n n d (same-IsForest h made same f).linked (same_At h made n d same at) in
    let deep : ancestors h n ≡ d = ancestors-At h n d at small in
    let empty : (bare n).children ≡ [] = emptied_children made n n ∙ rw (same_number n) refl in
    let alone : (bare fresh).parent ≡ none =
      emptied_parent made n fresh (same-IsForest h made same f).linked
      ∙ rw (same.0 fresh ∙ new.no_parent) refl in
    let none_below : (bare fresh).children ≡ [] =
      emptied_children made n fresh
      ∙ rw (same.1 fresh ∙ new.no_children) (both_empty (fresh == n)) in
    let forest =
      hang-IsForest bare n fresh e (emptied-IsForest made n (same-IsForest h made same f)) empty
        alone none_below new.another there (ground (arith, low, deep, less)) in
    let own : inside (hang bare n fresh n) ≡ inside (h n) =
      hang_inside bare n fresh n
      ∙ emptied_inside made n n
      ∙ write_inside h fresh (text_node_of (h n).document text) n
      ∙ rw new.another refl in
    let put : inside (hang bare n fresh fresh) ≡ (text_node, text) =
      hang_inside bare n fresh fresh
      ∙ emptied_inside made n fresh
      ∙ write_inside h fresh (text_node_of (h n).document text) fresh
      ∙ rw (same_number fresh) refl in
    record {
      forest = forest;
      effect = inl (
        refl,
        child_text (hang bare n fresh) n fresh text forest (ap (λ p. p.0) own ∙ kind)
            (hang_children bare n fresh n ∙ rw (same_number n) refl) put,
      );
    }

test-TextSet :
    (h : Heap) (nodes : List ℕ) (n : ℕ) (text : Bytes) (b : Bool) (r q : Changed)
    → (b ≡ true → TextSet h nodes n text r)
    → (b ≡ false → TextSet h nodes n text q)
    → TextSet h nodes n text (if b then r else q)
test-TextSet h nodes n text true r q f g = f refl
test-TextSet h nodes n text false r q f g = g refl

set_element_text-TextSet :
    (memory : Bool) (h : Heap) (nodes : List ℕ) (n fresh : ℕ) (text : Bytes)
    → IsForest h
    → IsFresh h n fresh
    → (h n).kind ≡ element
    → TextSet h nodes n text (set_element_text memory h nodes n fresh text)
unfolding set_element_text
set_element_text-TextSet memory h nodes n fresh [] f new kind =
    let forest = emptied-IsForest h n f in
    record {
      forest = forest;
      effect = inl (
        refl,
        childless_text (emptied h n) n forest (ap (λ p. p.0) (emptied_inside h n n) ∙ kind)
            (emptied_children h n n ∙ rw (same_number n) refl),
      );
    }
set_element_text-TextSet memory h nodes n fresh (b ∷ text) f new kind =
    test-TextSet h nodes n (b ∷ text) (leb script_node_limit (length nodes)) _ _
      (λ e. failed-TextSet h nodes n (b ∷ text) node_limit f node_limit≢ok)
      (λ e.
        test-TextSet h nodes n (b ∷ text) (leb max_depth (ancestors h n)) _ _
          (λ g. failed-TextSet h nodes n (b ∷ text) depth_limit f depth_limit≢ok)
          (λ g.
            test-TextSet h nodes n (b ∷ text) (not memory) _ _
              (λ k. failed-TextSet h nodes n (b ∷ text) no_memory f no_memory≢ok)
              (λ k. with_text-TextSet h nodes n fresh (b ∷ text) f new kind g)))

write-TextSet :
    (h : Heap) (nodes : List ℕ) (n : ℕ) (text : Bytes)
    → IsForest h
    → (h n).kind ≡ text_node
    → TextSet h nodes n text (record {
      heap = write h n (record (h n) { value = text });
      nodes = nodes;
      status = ok;
      removed = [];
    })
write-TextSet h nodes n text f kind =
    let forest =
      same-IsForest h (write h n (record (h n) { value = text }))
        (write-SameLinks h n (record (h n) { value = text }) refl refl) f in
    record {
      forest = forest;
      effect = inl (
        refl,
        own_text (write h n (record (h n) { value = text })) n text forest
            (write_inside h n (record (h n) { value = text }) n ∙ rw (same_number n, kind) refl),
      );
    }

by_kind-TextSet :
    (k : NodeKind) (memory : Bool) (h : Heap) (nodes : List ℕ) (n fresh : ℕ) (text : Bytes)
    → IsForest h
    → IsFresh h n fresh
    → (h n).kind ≡ k
    → TextSet h nodes n text (set_by_kind k memory h nodes n fresh text)
by_kind-TextSet element memory h nodes n fresh text f new e =
    set_element_text-TextSet memory h nodes n fresh text f new e
by_kind-TextSet text_node memory h nodes n fresh text f new e =
    test-TextSet h nodes n text memory _ _ (λ k. write-TextSet h nodes n text f e)
      (λ k. failed-TextSet h nodes n text no_memory f no_memory≢ok)

-- Setting the text content of a node of a well-formed document, with a new node at an address that
-- is linked to nothing, keeps the document well-formed, whatever fails. On success the text content
-- of the node, where it can be allocated, is then the text; otherwise nothing changes.
pub set_text_content-TextSet :
    (memory : Bool) (h : Heap) (nodes : List ℕ) (n fresh : ℕ) (text : Bytes)
    → IsForest h
    → IsFresh h n fresh
    → TextSet h nodes n text (tai_node_set_text_content memory h nodes n fresh text)
unfolding tai_node_set_text_content
set_text_content-TextSet memory h nodes n fresh text f new =
    by_kind-TextSet (h n).kind memory h nodes n fresh text f new refl
