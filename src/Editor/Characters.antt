-- ===== src/Editor/Characters.antt =====
-- The number of characters of a text and their offsets, of src/presentation_address.c.
use tai_ci.Base.{
  ℕ, zero, suc, ◌-◌, ◌≤◌, ◌≡◌, refl, inl, inr, [], ◌∷◌, Bytes, arith, length, drop, Option-cases,
  length-drop,
}
use tai_ci.Editor.{
  promised_width, following, first_bits, tai_pres_utf8_width, count_from, utf8_count,
  tai_pres_utf8_byte_at,
}

promised_width-positive : (c : ℕ) → 1 ≤ promised_width c
unfolding promised_width
promised_width-positive c = ground arith

-- Any text: a character is at least one byte and lies in the text.
width_bounds :
    (c : ℕ) (cs : Bytes)
    → (1 ≤ (tai_pres_utf8_width c cs).0) × ((tai_pres_utf8_width c cs).0 ≤ suc (length cs))
unfolding tai_pres_utf8_width
width_bounds c cs =
    let some_width = promised_width-positive c in
    elim (Option-cases (following (promised_width c - 1) (first_bits (promised_width c) c) cs)) [
      | inl e ↦ rw e (ground arith)
      | inr (value, e) ↦ rw e (ground arith)
    ]

byte_at-count_from :
    (fuel : ℕ) (text : Bytes)
    → length text ≤ fuel
    → tai_pres_utf8_byte_at text (count_from fuel text) ≡ length text
unfolding tai_pres_utf8_byte_at count_from
byte_at-count_from zero [] h = refl
byte_at-count_from zero (c ∷ cs) h = absurd (omega arith)
byte_at-count_from (suc fuel) [] h = refl
byte_at-count_from (suc fuel) (c ∷ cs) h =
    let (low, high) = width_bounds c cs in
    let w = (tai_pres_utf8_width c cs).0 in
    let rest = length-drop w (c ∷ cs) in
    omega (arith, rest, byte_at-count_from fuel (drop w (c ∷ cs)) (omega arith))

-- Every text: the offset of the character whose index is the number of characters is the length.
pub byte_at-count : (text : Bytes) → tai_pres_utf8_byte_at text (utf8_count text) ≡ length text
unfolding utf8_count
byte_at-count text = byte_at-count_from (length text) text (omega arith)
