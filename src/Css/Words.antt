-- ===== src/Css/Words.antt =====
-- The loops over characters of src/css.c: white space, names, and the words of a class attribute.
use tai_ci.Base.{
  ℕ, zero, suc, ◌≤◌, ◌<◌, ◌≡◌, ◌≢◌, inl, inr, Bool, true, false, [], ◌∷◌, none, Bytes, arith,
  length, drop, length-drop, Bool-cases, Option-cases, str_eq,
}
use tai_ci.Utf8.{Utf8proc, IsUtf8proc, character}
use tai_ci.Css.{is_white, whitespace_at, skip_space, space, class_word, past_class_word, find_class}
use tai_ci.Css.Selecting.{in_name, past_name}

-- `Skips U t text left`: from `text` on, characters that meet the test `t` are passed, one after the
-- other, up to `left`, which is the end or starts with a character that does not meet it.
pub data Skips (U : Utf8proc) (t : ℕ → Bool) : Bytes → Bytes → Type 0 where
  at_end : Skips U t [] []
  stopped :
      (b : ℕ) (rest : Bytes) → t (character U b rest).1 ≡ false → Skips U t (b ∷ rest) (b ∷ rest)
  passed :
      (b : ℕ) (rest left : Bytes)
      → t (character U b rest).1 ≡ true
      → Skips U t (drop (character U b rest).0 (b ∷ rest)) left
      → Skips U t (b ∷ rest) left

character_positive :
    (U : Utf8proc) (b : ℕ) (rest : Bytes) → IsUtf8proc U → 1 ≤ (character U b rest).0
unfolding character
character_positive U b rest V = elim (Option-cases (U.iterate (b ∷ rest))) [
  | inl e ↦ rw (character, e) (omega arith)
  | inr ((n, c), e) ↦ rw (character, e) (V.advances (b ∷ rest) n c e).0
]

-- What is left after a character.
length-rest :
    (U : Utf8proc) (b : ℕ) (rest : Bytes)
    → IsUtf8proc U
    → length (drop (character U b rest).0 (b ∷ rest)) ≤ length rest
length-rest U b rest V =
    omega (arith, length-drop (character U b rest).0 (b ∷ rest), character_positive U b rest V)

skip_space-Skips :
    (fuel : ℕ) (U : Utf8proc) (text : Bytes)
    → IsUtf8proc U
    → length text ≤ fuel
    → Skips U (is_white U) text (skip_space fuel U text)
unfolding skip_space whitespace_at
skip_space-Skips zero U [] V enough = at_end
skip_space-Skips zero U (b ∷ rest) V enough = absurd (omega arith)
skip_space-Skips (suc fuel) U [] V enough = at_end
skip_space-Skips (suc fuel) U (b ∷ rest) V enough =
    let left = drop (character U b rest).0 (b ∷ rest) in
    elim (Bool-cases (is_white U (character U b rest).1)) [
      | inl e ↦ rw e (
          passed b rest (skip_space fuel U left) e
            (skip_space-Skips fuel U left V (omega (arith, length-rest U b rest V))))
      | inr e ↦ rw e (stopped b rest e)
    ]

past_name-Skips :
    (fuel : ℕ) (U : Utf8proc) (of_word : Bool) (text : Bytes)
    → IsUtf8proc U
    → length text ≤ fuel
    → Skips U (in_name U of_word) text (past_name fuel U of_word text)
unfolding past_name
past_name-Skips zero U w [] V enough = at_end
past_name-Skips zero U w (b ∷ rest) V enough = absurd (omega arith)
past_name-Skips (suc fuel) U w [] V enough = at_end
past_name-Skips (suc fuel) U w (b ∷ rest) V enough =
    let left = drop (character U b rest).0 (b ∷ rest) in
    elim (Bool-cases (in_name U w (character U b rest).1)) [
      | inl e ↦ rw e (
          passed b rest (past_name fuel U w left) e
            (past_name-Skips fuel U w left V (omega (arith, length-rest U b rest V))))
      | inr e ↦ rw e (stopped b rest e)
    ]

length-past_class_word :
    (U : Utf8proc) (text : Bytes) → length (past_class_word U text) ≤ length text
unfolding past_class_word
length-past_class_word U [] = omega arith
length-past_class_word U (b ∷ rest) = elim (Bool-cases (whitespace_at U (b ∷ rest))) [
  | inl e ↦ rw e (omega arith)
  | inr e ↦ rw e (omega (arith, length-past_class_word U rest))
]

-- After white space, a word or the end follows.
spaced :
    (fuel : ℕ) (U : Utf8proc) (text : Bytes) (n : ℕ)
    → IsUtf8proc U
    → length text ≤ fuel
    → length text ≤ suc n
    → length (past_class_word U (skip_space fuel U text)) ≤ n
unfolding skip_space past_class_word
spaced zero U [] n V p q = omega arith
spaced zero U (b ∷ rest) n V p q = absurd (omega arith)
spaced (suc fuel) U [] n V p q = omega arith
spaced (suc fuel) U (b ∷ rest) n V p q =
    let low = length-rest U b rest V in
    elim (Bool-cases (whitespace_at U (b ∷ rest))) [
      | inl e ↦ rw e (
          spaced fuel U (drop (character U b rest).0 (b ∷ rest)) n V (omega (arith, low))
            (omega (arith, low)))
      | inr e ↦ rw (e, e) (omega (arith, length-past_class_word U rest))
    ]

find_class-ends :
    (fuel : ℕ) (U : Utf8proc) (text name : Bytes)
    → IsUtf8proc U
    → length text < fuel
    → find_class fuel U text name ≢ none
unfolding find_class space
find_class-ends zero U text name V enough = absurd (omega arith)
find_class-ends (suc fuel) U [] name V enough = λ e. ground (arith, e)
find_class-ends (suc fuel) U (b ∷ rest) name V enough =
    let value = space U (b ∷ rest) in
    let low = spaced (suc (length rest)) U (b ∷ rest) (length rest) V (omega arith) (omega arith) in
    elim (Bool-cases (str_eq (class_word U value) name)) [
      | inl e ↦ rw e (λ f. ground (arith, f))
      | inr e ↦ rw e (find_class-ends fuel U (past_class_word U value) name V (omega (arith, low)))
    ]

-- Where utf8proc gives characters of at least a byte that are in the text, the loops over white space
-- and over a name leave by their own tests: they pass characters that are white space, or in the
-- name, up to the end of the text or one that is not. And the loop over the words of a class
-- attribute ends, with an answer, within one round more than the attribute has bytes.
pub words-end :
    (U : Utf8proc) (of_word : Bool) (text name : Bytes)
    → IsUtf8proc U
    → Skips U (is_white U) text (space U text)
      × Skips U (in_name U of_word) text (past_name (length text) U of_word text)
      × (find_class (suc (length text)) U text name ≢ none)
unfolding space
words-end U of_word text name V = (
  skip_space-Skips (length text) U text V (omega arith),
  past_name-Skips (length text) U of_word text V (omega arith),
  find_class-ends (suc (length text)) U text name V (omega arith),
)
