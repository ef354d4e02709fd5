-- ===== src/Dom/Serial/Writing.antt =====
-- The markup of a subtree that src/dom.c writes.
use tai_ci.Base.{
  ℕ, zero, suc, ◌+◌, ◌*◌, ◌≤◌, ◌≡◌, refl, sym, ap, ◌∙◌, inl, inr, Bool, true, false, ◌||◌, List, [],
  ◌∷◌, ◌++◌, Bytes, arith, if◌then◌else◌, Bool-cases, All, some, none,
}
use mathlib.Core.List.{append_assoc}
use tai_ci.Dom.{NodeKind, element, text_node, Node, Heap, max_depth, sum_of, visits}
use tai_ci.Dom.Depth.{Fits}
use tai_ci.Dom.Moving.{IsForest}
use tai_ci.Dom.Walks.Orders.{IsForest-Fits}
use tai_ci.Dom.Serial.{
  escape_into, is_void, open_tag, close_tag, Frame, is_open, child_text, child_frame,
  serialize_loop, serialize_from, tai_node_serialize,
}

abbrev pub joined : (ℕ → Bytes) → List ℕ → Bytes
joined f [] = []
joined f (x ∷ xs) = f x ++ joined f xs

-- The markup of a node, by its kind and whether it is void, from the markup of its children.
abbrev pub marked : NodeKind → Bool → Node → Bytes → Bytes
marked text_node void node inside = escape_into false node.value
marked element true node inside = open_tag node
marked element false node inside = open_tag node ++ (inside ++ close_tag node)

-- The markup of a node with what is under it, for `b` levels.
abbrev pub markup : ℕ → Heap → ℕ → Bytes
markup zero h n = marked (h n).kind (is_void (h n).value) (h n) []
markup (suc b) h n =
    marked (h n).kind (is_void (h n).value) (h n) (joined (markup b h) (h n).children)

-- Frames with the levels that are under the children that are to come.
abbrev Levels : Type 0
Levels = List (ℕ × List ℕ × ℕ)

abbrev frames_of : Levels → List Frame
frames_of [] = []
frames_of (i ∷ items) = (i.0, i.1) ∷ frames_of items

abbrev rounds : Heap → Levels → ℕ
rounds h [] = 0
rounds h (i ∷ items) = 1 + 2 * sum_of (visits i.2 h) i.1 + rounds h items

abbrev LevelFits : Heap → ℕ × List ℕ × ℕ → Type 0
LevelFits h i = All (Fits h i.2) i.1

abbrev written : Heap → Bool → Levels → Bytes
written h outer [] = []
written h outer (i ∷ items) =
    joined (markup i.2 h) i.1
    ++ ((if is_open (frames_of items) || outer then close_tag (h i.0) else [])
        ++ written h outer items)

-- The levels that a child opens.
abbrev child_levels : NodeKind → Node → ℕ → ℕ → Levels
child_levels text_node node c b = []
child_levels element node c zero = if is_void node.value then [] else (c, [], 0) ∷ []
child_levels element node c (suc b) = if is_void node.value then [] else (c, node.children, b) ∷ []

frames-child :
    (h : Heap) (k : NodeKind) (c b : ℕ) (items : Levels)
    → Fits h b c
    → frames_of (child_levels k (h c) c b ++ items) ≡ child_frame k (h c) c ++ frames_of items
frames-child h text_node c b items f = refl
frames-child h element c zero items f = elim (Bool-cases (is_void (h c).value)) [
  | inl e ↦ rw e refl
  | inr e ↦ rw (e, f) refl
]
frames-child h element c (suc b) items f = elim (Bool-cases (is_void (h c).value)) [
  | inl e ↦ rw e refl
  | inr e ↦ rw e refl
]

rounds-child :
    (h : Heap) (k : NodeKind) (c b : ℕ) (items : Levels)
    → suc (rounds h (child_levels k (h c) c b ++ items)) ≤ 2 * visits b h c + rounds h items
unfolding visits
rounds-child h text_node c zero items = omega arith
rounds-child h text_node c (suc b) items = omega arith
rounds-child h element c zero items = elim (Bool-cases (is_void (h c).value)) [
  | inl e ↦ rw e (omega arith)
  | inr e ↦ rw e (omega arith)
]
rounds-child h element c (suc b) items = elim (Bool-cases (is_void (h c).value)) [
  | inl e ↦ rw e (omega arith)
  | inr e ↦ rw e (omega arith)
]

child-Fits :
    (h : Heap) (k : NodeKind) (c b : ℕ) (items : Levels)
    → Fits h b c
    → All (LevelFits h) items
    → All (LevelFits h) (child_levels k (h c) c b ++ items)
child-Fits h text_node c b items f a = a
child-Fits h element c zero items f a = elim (Bool-cases (is_void (h c).value)) [
  | inl e ↦ rw e a
  | inr e ↦ rw e (tt, a)
]
child-Fits h element c (suc b) items f a = elim (Bool-cases (is_void (h c).value)) [
  | inl e ↦ rw e a
  | inr e ↦ rw e (f, a)
]

rejoin : (a b c d : Bytes) → a ++ (b ++ (c ++ d)) ≡ (a ++ (b ++ c)) ++ d
rejoin a b c d = ap (λ l. a ++ l) (sym (append_assoc b c d)) ∙ sym (append_assoc a (b ++ c) d)

abbrev pub inside_of : ℕ → Heap → ℕ → Bytes
inside_of zero h n = []
inside_of (suc b) h n = joined (markup b h) (h n).children

markup-marked :
    (b : ℕ) (h : Heap) (n : ℕ)
    → marked (h n).kind (is_void (h n).value) (h n) (inside_of b h n) ≡ markup b h n
markup-marked zero h n = refl
markup-marked (suc b) h n = refl

-- What a child with the levels that it opens writes is its markup.
child_written :
    (h : Heap) (outer : Bool) (k : NodeKind) (c b n : ℕ) (cs : List ℕ) (l : ℕ) (items : Levels)
    → child_text k (h c) ++ written h outer (child_levels k (h c) c b ++ (n, cs, l) ∷ items)
      ≡ marked k (is_void (h c).value) (h c) (inside_of b h c)
        ++ written h outer ((n, cs, l) ∷ items)
child_written h outer text_node c b n cs l items = refl
child_written h outer element c zero n cs l items = elim (Bool-cases (is_void (h c).value)) [
  | inl v ↦ rw v refl
  | inr v ↦
      rw v (
        sym
          (append_assoc (open_tag (h c)) (close_tag (h c)) (written h outer ((n, cs, l) ∷ items))))
]
child_written h outer element c (suc b) n cs l items = elim (Bool-cases (is_void (h c).value)) [
  | inl v ↦ rw v refl
  | inr v ↦ rw v (
      rejoin (open_tag (h c)) (joined (markup b h) (h c).children) (close_tag (h c))
        (written h outer ((n, cs, l) ∷ items)))
]

append_none : (xs : Bytes) → xs ≡ xs ++ []
append_none [] = refl
append_none (x ∷ xs) = ap (λ l. x ∷ l) (append_none xs)

loop-written :
    (fuel : ℕ) (h : Heap) (outer : Bool) (items : Levels) (out : Bytes)
    → rounds h items ≤ fuel
    → All (LevelFits h) items
    → serialize_loop fuel h outer (frames_of items) out ≡ out ++ written h outer items
unfolding serialize_loop
loop-written zero h outer [] out k f = append_none out
loop-written (suc fuel) h outer [] out k f = append_none out
loop-written zero h outer (i ∷ items) out k f = absurd (omega arith)
loop-written (suc fuel) h outer ((n, [], b) ∷ items) out k f =
    let closing = if is_open (frames_of items) || outer then close_tag (h n) else [] in
    loop-written fuel h outer items (out ++ closing) (omega arith) f.1
    ∙ append_assoc out closing (written h outer items)
loop-written (suc fuel) h outer ((n, c ∷ cs, b) ∷ items) out k f =
    let kind = (h c).kind in
    let left = (n, cs, b) ∷ items in
    let down = child_levels kind (h c) c b ++ left in
    let closing = if is_open (frames_of items) || outer then close_tag (h n) else [] in
    ap (λ (fs : List Frame). serialize_loop fuel h outer fs (out ++ child_text kind (h c)))
      (sym (frames-child h kind c b left f.0.0))
    ∙ loop-written fuel h outer down (out ++ child_text kind (h c))
        (omega (arith, rounds-child h kind c b left))
        (child-Fits h kind c b left f.0.0 (f.0.1, f.1))
    ∙ append_assoc out (child_text kind (h c)) (written h outer down)
    ∙ ap (λ l. out ++ l)
        (child_written h outer kind c b n cs b items
          ∙ ap (λ m. m ++ written h outer left) (markup-marked b h c)
          ∙ sym (
              append_assoc (markup b h c) (joined (markup b h) cs)
                (closing ++ written h outer items)))

-- The loop from a node.
from_loop :
    (h : Heap) (n : ℕ) (outer : Bool) (out : Bytes)
    → IsForest h
    → serialize_loop (suc (2 * visits max_depth h n)) h outer ((n, (h n).children) ∷ []) out
      ≡ out ++ (inside_of max_depth h n ++ ((if outer then close_tag (h n) else []) ++ []))
unfolding visits
from_loop h n outer out f =
    loop-written (suc (2 * visits max_depth h n)) h outer ((n, (h n).children, 511) ∷ []) out
      (omega arith) (IsForest-Fits h n f, tt)

element_text :
    (h : Heap) (n : ℕ)
    → IsForest h
    → serialize_from element h n true
      ≡ marked element (is_void (h n).value) (h n) (inside_of max_depth h n)
element_text h n f = elim (Bool-cases (is_void (h n).value)) [
  | inl v ↦ rw v refl
  | inr v ↦ rw v (
      from_loop h n true (open_tag (h n)) f
      ∙ ap (λ l. open_tag (h n) ++ (inside_of max_depth h n ++ l))
          (sym (append_none (close_tag (h n)))))
]

-- What is written for a node: its markup, or that of its children.
abbrev pub serialized : NodeKind → Heap → ℕ → Bool → Bytes
serialized k h n true = markup max_depth h n
serialized text_node h n false = []
serialized element h n false = inside_of max_depth h n

serialize_from-kind :
    (k : NodeKind) (h : Heap) (n : ℕ) (outer : Bool)
    → IsForest h
    → (h n).kind ≡ k
    → serialize_from k h n outer ≡ serialized k h n outer
serialize_from-kind text_node h n false f e = refl
serialize_from-kind text_node h n true f e =
    ap (λ k. marked k (is_void (h n).value) (h n) (inside_of max_depth h n)) (sym e)
    ∙ markup-marked max_depth h n
serialize_from-kind element h n false f e =
    from_loop h n false [] f ∙ sym (append_none (inside_of max_depth h n))
serialize_from-kind element h n true f e =
    element_text h n f
    ∙ ap (λ k. marked k (is_void (h n).value) (h n) (inside_of max_depth h n)) (sym e)
    ∙ markup-marked max_depth h n

-- On a well-formed document the serializer, which keeps a stack, writes the markup of a node as it is
-- given by recursion: a text node escaped, and an element's tag and attributes, what its children
-- write, in order, and its end tag, where a void element has neither of the last two. Where the inner
-- markup is asked for, it is what the children write, and none for a text node. Where the memory
-- cannot be allocated, there is no result.
pub node_serialize-serialized :
    (memory : Bool) (h : Heap) (n : ℕ) (outer : Bool)
    → IsForest h
    → tai_node_serialize memory h n outer
      ≡ (if memory then some (serialized (h n).kind h n outer) else none)
unfolding tai_node_serialize
node_serialize-serialized memory h n outer f =
    ap (λ (o : Bytes). if memory then some o else none)
      (serialize_from-kind (h n).kind h n outer f refl)
