-- ===== src/Dom/Walks/Reading.antt =====
-- What the walks of src/dom.c over a subtree give.
use tai_ci.Base.{
  ℕ, zero, suc, ◌≡◌, refl, ap, ◌∙◌, inl, inr, Bool, List, [], ◌∷◌, ◌++◌, Option, none, some, Bytes,
  if◌then◌else◌, Bool-cases, length, ◌==◌,
}
use tai_ci.Dom.{Heap, ok, no_memory, max_depth, visits}
use tai_ci.Dom.Moving.{IsForest}
use tai_ci.Dom.Walks.{
  below_of, text_in, text_loop, tai_node_text_content, has_the_id, find_loop, tai_node_find_by_id,
}
use tai_ci.Dom.Walks.Orders.{order, walk, walk_from}

-- The texts of the text nodes, one after the other.
abbrev pub texts : Heap → List ℕ → Bytes
texts h [] = []
texts h (n ∷ ns) = text_in (h n).kind (h n).value ++ texts h ns

-- The first node that is an element with the id.
abbrev pub first_with : Heap → Bytes → List ℕ → Option ℕ
first_with h id [] = none
first_with h id (n ∷ ns) = if has_the_id h id n then some n else first_with h id ns

append_assoc : (xs ys zs : Bytes) → (xs ++ ys) ++ zs ≡ xs ++ (ys ++ zs)
append_assoc [] ys zs = refl
append_assoc (x ∷ xs) ys zs = ap (λ l. x ∷ l) (append_assoc xs ys zs)

append_none : (xs : Bytes) → xs ≡ xs ++ []
append_none [] = refl
append_none (x ∷ xs) = ap (λ l. x ∷ l) (append_none xs)

text_loop-walk :
    (fuel : ℕ) (h : Heap) (stack : List ℕ) (out : Bytes)
    → text_loop fuel h stack out ≡ out ++ texts h (walk fuel h stack)
unfolding text_loop walk
text_loop-walk zero h stack out = append_none out
text_loop-walk (suc fuel) h [] out = append_none out
text_loop-walk (suc fuel) h (x ∷ stack) out =
    text_loop-walk fuel h (below_of (h x).kind (h x).children ++ stack)
      (out ++ text_in (h x).kind (h x).value)
    ∙ append_assoc out (text_in (h x).kind (h x).value)
        (texts h (walk fuel h (below_of (h x).kind (h x).children ++ stack)))

find_loop-walk :
    (fuel : ℕ) (h : Heap) (id : Bytes) (stack : List ℕ)
    → find_loop fuel h id stack ≡ first_with h id (walk fuel h stack)
unfolding find_loop walk
find_loop-walk zero h id stack = refl
find_loop-walk (suc fuel) h id [] = refl
find_loop-walk (suc fuel) h id (x ∷ stack) = elim (Bool-cases (has_the_id h id x)) [
  | inl e ↦ rw e refl
  | inr e ↦ rw e (find_loop-walk fuel h id (below_of (h x).kind (h x).children ++ stack))
]

-- The two reading walks agree with the tree order, in which a node stands before what is under its
-- children, in their order, and nothing is under a text node: on a well-formed document the text
-- content is that of the text nodes in this order, and an id that is not empty is found at the first
-- element in this order that has it. Where their memory cannot be allocated, the first gives nothing
-- and the second reports that and finds nothing; no element is found for the empty id.
pub walks-order :
    (memory : Bool) (h : Heap) (n : ℕ) (id : Bytes)
    → IsForest h
    → (tai_node_text_content memory h n
        ≡ (if memory then some (texts h (order max_depth h n)) else none))
      × (tai_node_find_by_id memory h n id ≡ (
          if length id == 0
          then (ok, none)
          else if memory
          then (ok, first_with h id (order max_depth h n))
          else (no_memory, none)))
unfolding tai_node_text_content tai_node_find_by_id
walks-order memory h n id f = (
  ap (λ (o : Bytes). if memory then some o else none)
      (text_loop-walk (visits max_depth h n) h (n ∷ []) [] ∙ ap (texts h) (walk_from h n f)),
  ap
      (λ (o : Option ℕ).
        if length id == 0 then (ok, none) else if memory then (ok, o) else (no_memory, none))
      (find_loop-walk (visits max_depth h n) h id (n ∷ [])
        ∙ ap (first_with h id) (walk_from h n f)),
)
