-- ===== src/Css/Selecting/Progress.antt =====
-- How far the parsing functions of src/css.c get in the text.
use tai_ci.Base.{
  ℕ, zero, suc, ◌-◌, ◌≤◌, ◌<◌, ◌≡◌, refl, Bool, true, false, ◌&&◌, [], ◌∷◌, Option, none, some,
  Bytes, arith, length, drop, take, ◌==◌, if◌then◌else◌, length-drop,
}
use tai_ci.Utf8.{Utf8proc, character}
use tai_ci.Css.{whitespace_at, skip_space, space}
use tai_ci.Css.Selecting.{
  Parse, parsed, refused, no_memory, unfinished, and_then, sliced, slice, in_name, past_name,
  identifier, closing,
}

-- What holds of a value and of the position after it, where there is one.
abbrev pub Each : {A : Type 0} → (A → Bytes → Type 0) → Parse A → Type 0
Each P (parsed x rest) = P x rest
Each P (refused rest) = Unit
Each P no_memory = Unit
Each P unfinished = Unit

pub and_then-Each :
    {A B : Type 0}
    → (P : A → Bytes → Type 0) (Q : B → Bytes → Type 0) (r : Parse A) (f : A → Bytes → Parse B)
    → Each P r
    → ((x : A) (rest : Bytes) → P x rest → Each Q (f x rest))
    → Each Q (and_then r f)
and_then-Each P Q (parsed x rest) f e g = g x rest e
and_then-Each P Q (refused rest) f e g = tt
and_then-Each P Q no_memory f e g = tt
and_then-Each P Q unfinished f e g = tt

pub test-Each :
    {A : Type 0}
    → (P : A → Bytes → Type 0) (b : Bool) (r q : Parse A) → (b ≡ true → Each P r)
    → (b ≡ false → Each P q)
    → Each P (if b then r else q)
test-Each P true r q f g = f refl
test-Each P false r q f g = g refl

-- The position is before `n` more bytes.
abbrev pub Before : {A : Type 0} → ℕ → A → Bytes → Type 0
Before n x rest = length rest < n

shorter_test :
    (b : Bool) (s t : Bytes) (n : ℕ) → length s ≤ n → length t ≤ n → length (if b then s else t) ≤ n
shorter_test true s t n p q = p
shorter_test false s t n p q = q

pub length-past_name :
    (fuel : ℕ) (U : Utf8proc) (word : Bool) (text : Bytes)
    → length (past_name fuel U word text) ≤ length text
unfolding past_name
length-past_name zero U word text = omega arith
length-past_name (suc fuel) U word [] = omega arith
length-past_name (suc fuel) U word (b ∷ rest) =
    shorter_test (in_name U word (character U b rest).1)
      (past_name fuel U word (drop (character U b rest).0 (b ∷ rest))) (b ∷ rest)
      (suc (length rest))
      (omega (
        arith,
        length-past_name fuel U word (drop (character U b rest).0 (b ∷ rest)),
        length-drop (character U b rest).0 (b ∷ rest),
      ))
      (omega arith)

length-skip_space :
    (fuel : ℕ) (U : Utf8proc) (text : Bytes) → length (skip_space fuel U text) ≤ length text
unfolding skip_space
length-skip_space zero U text = omega arith
length-skip_space (suc fuel) U [] = omega arith
length-skip_space (suc fuel) U (b ∷ rest) =
    shorter_test (whitespace_at U (b ∷ rest))
      (skip_space fuel U (drop (character U b rest).0 (b ∷ rest))) (b ∷ rest) (suc (length rest))
      (omega (
        arith,
        length-skip_space fuel U (drop (character U b rest).0 (b ∷ rest)),
        length-drop (character U b rest).0 (b ∷ rest),
      ))
      (omega arith)

pub length-space : (U : Utf8proc) (text : Bytes) → length (space U text) ≤ length text
unfolding space
length-space U text = length-skip_space (length text) U text

sliced-Each :
    (n : ℕ) (o : Option Bytes) (rest : Bytes) → length rest < n → Each (Before n) (sliced o rest)
sliced-Each n none rest k = tt
sliced-Each n (some name) rest k = k

pub identifier-Each :
    (U : Utf8proc) (lower word : Bool) (text : Bytes)
    → Each (Before (length text)) (identifier U lower word text)
unfolding identifier slice
identifier-Each U lower word text =
    let rest = past_name (length text) U word text in
    test-Each (Before (length text)) (length rest == length text) _ _ (λ e. tt)
      (λ e.
        sliced-Each (length text)
          (if lower
            then U.casefold (take (length text - length rest) text)
            else some (take (length text - length rest) text))
          rest (ground (arith, e, length-past_name (length text) U word text)))

-- The position after the `)`, where there is one.
abbrev pub After : ℕ → Option (Bytes × Bytes) → Type 0
After n none = Unit
After n (some (inner, after)) = length after < n

closing_After :
    (b : Bool) (c : ℕ) (rest : Bytes) (next : Option (Bytes × Bytes)) (n : ℕ)
    → length rest < n
    → After (length rest) next
    → After n (
        if b
        then some ([], rest)
        else elim next [ none ↦ none | some (inner, after) ↦ some (c ∷ inner, after) ])
closing_After true c rest next n k a = k
closing_After false c rest none n k a = tt
closing_After false c rest (some (inner, after)) n k a = omega arith

pub closing-After : (depth : ℕ) (text : Bytes) → After (length text) (closing depth text)
unfolding closing
closing-After depth [] = tt
closing-After depth (b ∷ rest) =
    closing_After (b == 41 && depth == 1) b rest
      (closing (if b == 40 then suc depth else if b == 41 then depth - 1 else depth) rest)
      (suc (length rest)) (omega arith)
      (closing-After (if b == 40 then suc depth else if b == 41 then depth - 1 else depth) rest)
