-- ===== src/Css/Selecting/Within.antt =====
-- Where the functions of the selector parser of src/css.c leave the position, whether they succeed or
-- give up.
use tai_ci.Base.{
  ℕ, zero, suc, ◌-◌, ◌≤◌, ◌<◌, ◌≡◌, Bool, true, false, [], ◌∷◌, Option, none, some, Bytes, codes,
  arith, length, take, ltb, ◌==◌, if◌then◌else◌, str_eq,
}
use tai_ci.Utf8.{Utf8proc}
use tai_ci.Css.{Selector, tag, class, id, visited, Selectors, no_more, more}
use tai_ci.Css.Selecting.{
  Parse, parsed, refused, no_memory, unfinished, and_then, int_max, sliced, slice, past_name,
  identifier, priority, Building, nothing, child_add, closing, inside_has, has_argument, has_part,
  pseudo, part, is_mark, parts, sequence_of, first_part, simple,
}
use tai_ci.Css.Selecting.Progress.{length-past_name, After, closing-After}

-- The call ends, and the position is before `n` more bytes at most.
abbrev pub Within : {A : Type 0} → ℕ → Parse A → Type 0
Within n (parsed x rest) = length rest ≤ n
Within n (refused rest) = length rest ≤ n
Within n no_memory = Unit
Within n unfinished = true ≡ false

pub and_then-Within :
    {A B : Type 0}
    → (n : ℕ) (r : Parse A) (f : A → Bytes → Parse B) → Within n r
    → ((x : A) (rest : Bytes) → length rest ≤ n → Within n (f x rest))
    → Within n (and_then r f)
and_then-Within n (parsed x rest) f k g = g x rest k
and_then-Within n (refused rest) f k g = k
and_then-Within n no_memory f k g = tt
and_then-Within n unfinished f k g = k

pub test-Within :
    {A : Type 0}
    → (n : ℕ) (b : Bool) (r q : Parse A) → Within n r
    → Within n q
    → Within n (if b then r else q)
test-Within n true r q k l = k
test-Within n false r q k l = l

pub Within-up : {A : Type 0} → (m n : ℕ) (r : Parse A) → m ≤ n → Within m r → Within n r
Within-up m n (parsed x rest) low k = omega arith
Within-up m n (refused rest) low k = omega arith
Within-up m n no_memory low k = tt
Within-up m n unfinished low k = k

sliced-Within :
    (n : ℕ) (o : Option Bytes) (rest : Bytes) → length rest ≤ n → Within n (sliced o rest)
sliced-Within n none rest k = tt
sliced-Within n (some name) rest k = k

pub slice-Within :
    (U : Utf8proc) (lower : Bool) (text rest : Bytes) (n : ℕ)
    → length rest ≤ n
    → Within n (slice U lower text rest)
unfolding slice
slice-Within U lower text rest n k =
    sliced-Within n (if lower then U.casefold text else some text) rest k

pub identifier-Within :
    (U : Utf8proc) (lower of_word : Bool) (text : Bytes) (n : ℕ)
    → length text ≤ n
    → Within n (identifier U lower of_word text)
unfolding identifier
identifier-Within U lower of_word text n k =
    let rest = past_name (length text) U of_word text in
    test-Within n (length rest == length text) (refused text)
      (slice U lower (take (length text - length rest) text) rest) k
      (slice-Within U lower (take (length text - length rest) text) rest n
        (omega (arith, length-past_name (length text) U of_word text)))

pub child_add-Within :
    (b : Building) (s : Selector) (rest : Bytes) (n : ℕ)
    → length rest ≤ n
    → Within n (child_add b s rest)
unfolding child_add
child_add-Within b s rest n k =
    test-Within n (ltb (int_max - priority s) b.priority) (refused rest) (parsed _ rest) k k

-- The same for a call that starts with fewer bytes.
pub then-Within :
    {A B : Type 0}
    → (m n : ℕ) (r : Parse A) (f : A → Bytes → Parse B) → m ≤ n
    → Within m r
    → ((x : A) (rest : Bytes) → length rest ≤ m → Within n (f x rest))
    → Within n (and_then r f)
then-Within m n (parsed x rest) f low k g = g x rest k
then-Within m n (refused rest) f low k g = omega arith
then-Within m n no_memory f low k g = tt
then-Within m n unfinished f low k g = k

inside_has-Within :
    (r : Parse Selector) (after : Bytes) (m n : ℕ)
    → Within m r
    → length after ≤ n
    → Within n (inside_has r after)
inside_has-Within (parsed s left) after m n w k =
    and_then-Within n (child_add (record { priority = 10; children = no_more }) s after) _
      (child_add-Within (record { priority = 10; children = no_more }) s after n k) (λ b rest l. l)
inside_has-Within (refused left) after m n w k = k
inside_has-Within no_memory after m n w k = tt
inside_has-Within unfinished after m n w k = w

-- The parser of the selector inside, where there is one, ends.
abbrev pub NestedWithin : Option (Bytes → Parse Selector) → Type 0
NestedWithin none = Unit
NestedWithin (some f) = (text : Bytes) → Within (length text) (f text)

has_argument-Within :
    (f : Bytes → Parse Selector) (o : Option (Bytes × Bytes)) (m n : ℕ)
    → NestedWithin (some f)
    → m ≤ n
    → After m o
    → Within n (has_argument f o)
has_argument-Within f none m n g low a = omega arith
has_argument-Within f (some (inner, after)) m n g low a =
    inside_has-Within (f inner) after (length inner) n (g inner) (omega arith)

has_part-Within :
    (o : Option (Bytes → Parse Selector)) (text : Bytes) (n : ℕ)
    → NestedWithin o
    → length text ≤ n
    → Within n (has_part o text)
has_part-Within none text n g k = k
has_part-Within (some f) [] n g k = k
has_part-Within (some f) (b ∷ rest) n g k =
    test-Within n (b == 40) (has_argument f (closing 1 rest)) (refused (b ∷ rest))
      (has_argument-Within f (closing 1 rest) (length rest) n g (omega arith)
        (closing-After 1 rest))
      k

part-Within :
    (U : Utf8proc) (o : Option (Bytes → Parse Selector)) (mark : ℕ) (text : Bytes) (n : ℕ)
    → NestedWithin o
    → length text ≤ n
    → Within n (part U o mark text)
unfolding part
part-Within U o mark text n g k =
    and_then-Within n (identifier U (mark == 58) false text) _
      (identifier-Within U (mark == 58) false text n k)
      (λ name rest l. test-Within n (mark == 46) (parsed (class 10 name) rest) _ l (
        test-Within n (mark == 35) (parsed (id 100 name) rest) (pseudo o name rest) l (
          test-Within n (str_eq name (codes "visited")) (parsed (visited 10) rest) _ l (
            test-Within n (str_eq name (codes "has")) (has_part o rest) (refused rest)
              (has_part-Within o rest n g l) l))))

parts-Within :
    (fuel : ℕ) (U : Utf8proc) (o : Option (Bytes → Parse Selector)) (b : Building) (text : Bytes)
    (n : ℕ)
    → NestedWithin o
    → length text < fuel
    → length text ≤ n
    → Within n (parts fuel U o b text)
unfolding parts
parts-Within zero U o b text n g enough k = absurd (omega arith)
parts-Within (suc fuel) U o b [] n g enough k = k
parts-Within (suc fuel) U o b (c ∷ rest) n g enough k =
    let m = length rest in
    test-Within n (is_mark c) _ (parsed b (c ∷ rest))
      (then-Within m n (part U o c rest) _ (omega arith) (part-Within U o c rest m g (omega arith))
        (λ s after l.
          then-Within m n (child_add b s after) _ (omega arith) (child_add-Within b s after m l)
            (λ built left r. parts-Within fuel U o built left n g (omega arith) (omega arith))))
      k

sequence_of-Within :
    (p : ℕ) (ss : Selectors) (rest : Bytes) (n : ℕ)
    → length rest ≤ n
    → Within n (sequence_of p ss rest)
sequence_of-Within p no_more rest n k = k
sequence_of-Within p (more s ss) rest n k = k

first_part-Within :
    (U : Utf8proc) (text : Bytes) (n : ℕ) → length text ≤ n → Within n (first_part U text)
first_part-Within U [] n k = k
first_part-Within U (b ∷ rest) n k = test-Within n (is_mark b) (parsed nothing (b ∷ rest)) _ k (
    and_then-Within n (identifier U true false (b ∷ rest)) _
      (identifier-Within U true false (b ∷ rest) n k)
      (λ name after l. child_add-Within nothing (tag 1 name) after n l))

pub simple-Within :
    (U : Utf8proc) (o : Option (Bytes → Parse Selector)) (text : Bytes) (n : ℕ)
    → NestedWithin o
    → length text ≤ n
    → Within n (simple U o text)
unfolding simple
simple-Within U o text n g k =
    and_then-Within n (first_part U text) _ (first_part-Within U text n k) (λ start rest l.
      and_then-Within n (parts (suc (length rest)) U o start rest) _
        (parts-Within (suc (length rest)) U o start rest n g (omega arith) l)
        (λ built after m. sequence_of-Within built.priority built.children after n m))
