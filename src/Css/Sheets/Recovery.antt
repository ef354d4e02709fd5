-- ===== src/Css/Sheets/Recovery.antt =====
-- How the parser of src/css.c goes on after a declaration.
use tai_ci.Base.{
  ℕ, suc, ◌-◌, ◌≤◌, ◌<◌, ◌≡◌, ◌⊎◌, refl, inl, inr, Bool, true, false, [], ◌∷◌, Option, none, some,
  Bytes, arith, length, take, ◌==◌, if◌then◌else◌, Bool-cases,
}
use tai_ci.Maps.{Map}
use tai_ci.Utf8.{Utf8proc}
use tai_ci.Css.Selecting.{
  Parse, parsed, refused, no_memory, unfinished, and_then, sliced, slice, past_name, identifier,
}
use tai_ci.Css.Selecting.Progress.{length-past_name}
use tai_ci.Css.Selecting.Within.{Within}
use tai_ci.Css.Sheets.{declaration, to_next, past_semicolon, recovered}
use tai_ci.Css.Sheets.Positions.{Strict, after_name-Within}

-- A name is behind the position, or there is none and the position stays.
abbrev Named : Bytes → Parse Bytes → Type 0
Named text (parsed name rest) = length rest < length text
Named text (refused rest) = rest ≡ text
Named text no_memory = Unit
Named text unfinished = true ≡ false

sliced-Named :
    (text rest : Bytes) (o : Option Bytes) → length rest < length text → Named text (sliced o rest)
sliced-Named text rest none k = tt
sliced-Named text rest (some name) k = k

test-Named :
    (text : Bytes) (b : Bool) (r q : Parse Bytes)
    → (b ≡ true → Named text r)
    → (b ≡ false → Named text q)
    → Named text (if b then r else q)
test-Named text true r q f g = f refl
test-Named text false r q f g = g refl

identifier-Named : (U : Utf8proc) (text : Bytes) → Named text (identifier U true true text)
unfolding identifier slice
identifier-Named U text =
    let rest = past_name (length text) U true text in
    test-Named text (length rest == length text) _ _ (λ e. refl)
      (λ e.
        sliced-Named text rest (U.casefold (take (length text - length rest) text))
          (ground (arith, e, length-past_name (length text) U true text)))

-- A declaration leaves the position where it is only where it is refused.
abbrev pub Given : ℕ → Bytes → Parse Map → Type 0
Given b rest (parsed m left) = length left ≤ length rest
Given b rest (refused left) = left ≡ b ∷ rest ⊎ length left ≤ length rest
Given b rest no_memory = Unit
Given b rest unfinished = true ≡ false

Within-Given : (b : ℕ) (rest : Bytes) (r : Parse Map) → Within (length rest) r → Given b rest r
Within-Given b rest (parsed m left) k = k
Within-Given b rest (refused left) k = inr k
Within-Given b rest no_memory k = tt
Within-Given b rest unfinished k = k

then-Given :
    (b : ℕ) (rest : Bytes) (r : Parse Bytes) (f : Bytes → Bytes → Parse Map)
    → Named (b ∷ rest) r
    → ((name left : Bytes) → length left ≤ length rest → Within (length rest) (f name left))
    → Given b rest (and_then r f)
then-Given b rest (parsed name left) f k g =
    Within-Given b rest (f name left) (g name left (omega arith))
then-Given b rest (refused left) f k g = inl k
then-Given b rest no_memory f k g = tt
then-Given b rest unfinished f k g = k

pub declaration-Given :
    (U : Utf8proc) (map : Map) (b : ℕ) (rest : Bytes) → Given b rest (declaration U map (b ∷ rest))
unfolding declaration
declaration-Given U map b rest =
    then-Given b rest (identifier U true true (b ∷ rest)) _ (identifier-Named U (b ∷ rest))
      (λ name left k. after_name-Within U map name left (length rest) k)

pub length-past_semicolon : (text : Bytes) → length (past_semicolon text) ≤ length text
length-past_semicolon [] = omega arith
length-past_semicolon (b ∷ rest) = ground arith

pub length-to_next : (text : Bytes) → length (to_next text) ≤ length text
unfolding to_next
length-to_next [] = omega arith
length-to_next (b ∷ rest) = ground (arith, length-to_next rest)

-- Giving up on a declaration passes its first byte.
length-skipped :
    (b : ℕ) (rest : Bytes)
    → (b == 125) ≡ false
    → length (past_semicolon (to_next (b ∷ rest))) ≤ length rest
unfolding to_next
length-skipped b rest e = elim (Bool-cases (b == 59)) [
  | inl f ↦ rw (f, f) (omega arith)
  | inr f ↦ rw (f, e) (omega (arith, length-past_semicolon (to_next rest), length-to_next rest))
]

-- A round of the loop over the declarations passes a byte.
pub recovered-Strict :
    (map : Map) (b : ℕ) (rest : Bytes) (r : Parse Map)
    → (b == 125) ≡ false
    → Given b rest r
    → Strict (suc (length rest)) (recovered map r)
recovered-Strict map b rest (parsed m left) e k = omega (arith, length-past_semicolon left)
recovered-Strict map b rest (refused left) e (inl same) =
    rw same (omega (arith, length-skipped b rest e))
recovered-Strict map b rest (refused left) e (inr k) =
    omega (arith, length-past_semicolon (to_next left), length-to_next left)
recovered-Strict map b rest no_memory e k = tt
recovered-Strict map b rest unfinished e k = k
