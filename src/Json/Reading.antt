-- ===== src/Json/Reading.antt =====
-- A reader of the JSON strings of src/core.c.
use tai_ci.Base.{
  ℕ, zero, suc, ◌+◌, ◌-◌, ◌*◌, ◌/◌, ◌%◌, ◌<◌, ◌≡◌, refl, ap, inl, inr, false, ◌||◌, [], ◌∷◌, ◌++◌,
  Option, none, some, Bytes, arith, leb, ltb, ◌==◌, if◌then◌else◌, below, below-at, Bool-cases,
  ==_iff,
}
use tai_ci.Json.{small_hex, escape, tai_json_string}

-- Where the reader stands: in the text, behind a backslash, or with `n + 1` digits to come of a
-- number.
pub data Place : Type 0 where
  in_text : Place
  behind_slash : Place
  in_number : ℕ → ℕ → Place

abbrev digit : ℕ → ℕ
digit c = if leb c 57 then c - 48 else c - 87

abbrev put : ℕ → Option Bytes → Option Bytes
put c none = none
put c (some cs) = some (c ∷ cs)

abbrev at_end : Bytes → Option Bytes
at_end [] = some []
at_end (c ∷ cs) = none

-- What follows the opening quotation mark, up to the closing one, which must be the last byte; no
-- control character may stand there unescaped.
unfoldable pub read : Place → Bytes → Option Bytes
read p [] = none
read in_text (c ∷ cs) =
    let escaped = read behind_slash cs in
    let rest = read in_text cs in
    if c == 34
    then at_end cs
    else if c == 92
    then escaped
    else if ltb c 32
    then none
    else put c rest
read behind_slash (c ∷ cs) =
    let number = read (in_number 3 0) cs in
    let rest = read in_text cs in if c == 117 then number else put c rest
read (in_number zero n) (c ∷ cs) = put (16 * n + digit c) (read in_text cs)
read (in_number (suc k) n) (c ∷ cs) = read (in_number k (16 * n + digit c)) cs

pub read_string : Bytes → Option Bytes
read_string [] = none
read_string (c ∷ cs) = if c == 34 then read in_text cs else none

digit-small_hex : (n : ℕ) → n < 16 → digit (small_hex n) ≡ n
unfolding small_hex below
digit-small_hex n h = (==_iff _ _).0 (below-at (λ i. digit (small_hex i) == i) 16 n refl h)

ordinary : (c : ℕ) → (c == 34 || c == 92) ≡ false → ((c == 34) ≡ false) × ((c == 92) ≡ false)
ordinary c e = ground arith

read-escape : (s : Bytes) → read in_text (escape s ++ 34 ∷ []) ≡ some s
unfolding read escape
read-escape [] = refl
read-escape (c ∷ cs) = elim (Bool-cases (c == 34 || c == 92)) [
  | inl e ↦ let other : (c == 117) ≡ false = ground arith in rw (e, other, read-escape cs) refl
  | inr e ↦ elim (Bool-cases (ltb c 32)) [
    | inl f ↦
        rw
          (
            e,
            f,
            digit-small_hex (c / 16) (ground arith),
            digit-small_hex (c % 16) (omega arith),
            read-escape cs,
          )
          (ap (λ n. some (n ∷ cs)) (omega arith))
    | inr f ↦ let (quote, slash) = ordinary c e in rw (e, f, quote, slash, f, read-escape cs) refl
  ]
]

-- Every string is read back from what is written for it.
pub read_string-json_string : (s : Bytes) → read_string (tai_json_string (some s)) ≡ some s
unfolding read_string tai_json_string
read_string-json_string s = read-escape s
