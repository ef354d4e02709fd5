-- ===== src/Address/Encoding.antt =====
-- The query of a search URL of src/session.c, and how a server reads it.
use tai_ci.Base.{
  ℕ, ◌+◌, ◌-◌, ◌*◌, ◌/◌, ◌%◌, ◌<◌, ◌≡◌, refl, ap, inl, inr, true, false, [], ◌∷◌, Bytes, IsByte,
  arith, All, leb, ◌==◌, if◌then◌else◌, lacks, below, below-at, Bool-cases, ==_iff,
}
use tai_ci.Address.{query_byte, hex, encode}

-- The value of an upper-case hexadecimal digit.
abbrev pub unhex : ℕ → ℕ
unhex c = if leb c 57 then c - 48 else c - 55

abbrev pub plain : ℕ → ℕ
plain c = if c == 43 then 32 else c

-- application/x-www-form-urlencoded.
unfoldable pub decode : Bytes → Bytes
decode [] = []
decode (c ∷ []) = plain c ∷ []
decode (c ∷ d ∷ []) = plain c ∷ plain d ∷ []
decode (c ∷ d ∷ e ∷ rest) =
    let escaped = decode rest in
    let others = decode (d ∷ e ∷ rest) in
    if c == 37 then (16 * unhex d + unhex e) ∷ escaped else plain c ∷ others

unhex-hex : (n : ℕ) → n < 16 → unhex (hex n) ≡ n
unfolding hex below
unhex-hex n h = (==_iff _ _).0 (below-at (λ i. unhex (hex i) == i) 16 n refl h)

query_byte-hex : (n : ℕ) → n < 16 → query_byte (hex n) ≡ true
unfolding query_byte hex below
query_byte-hex n h = below-at (λ i. query_byte (hex i)) 16 n refl h

decode-plain : (c : ℕ) (cs : Bytes) → (c == 37) ≡ false → decode (c ∷ cs) ≡ plain c ∷ decode cs
unfolding decode
decode-plain c [] h = refl
decode-plain c (d ∷ []) h = refl
decode-plain c (d ∷ e ∷ rest) h = rw h refl

decode-escaped :
    (n m : ℕ) (cs : Bytes) → decode (37 ∷ n ∷ m ∷ cs) ≡ (16 * unhex n + unhex m) ∷ decode cs
unfolding decode
decode-escaped n m cs = refl

plain-query_byte : (c : ℕ) → query_byte c ≡ true → ((c == 37) ≡ false) × (plain c ≡ c)
unfolding query_byte
plain-query_byte c h = ground arith

-- Decoding what was encoded gives the text back, for any bytes.
pub decode-encode : (text : Bytes) → All IsByte text → decode (encode text) ≡ text
unfolding encode decode
decode-encode [] h = refl
decode-encode (c ∷ cs) h = elim (Bool-cases (query_byte c)) [
  | inl e ↦
      let (other, same) = plain-query_byte c e in
      rw (e, decode-plain c (encode cs) other, same) (ap (λ t. c ∷ t) (decode-encode cs h.1))
  | inr e ↦ elim (Bool-cases (c == 32)) [
    | inl f ↦ rw (e, f, decode-plain 43 (encode cs) refl) (ground (arith, decode-encode cs h.1))
    | inr f ↦
        rw
          (
            e,
            f,
            decode-escaped (hex (c / 16)) (hex (c % 16)) (encode cs),
            unhex-hex (c / 16) (omega (arith, h.0)),
            unhex-hex (c % 16) (omega arith),
          )
          (ground (arith, decode-encode cs h.1))
  ]
]

query_byte-sharp : (c : ℕ) → query_byte c ≡ true → (c == 35) ≡ false
unfolding query_byte
query_byte-sharp c h = ground arith

-- No byte of an encoded text starts a fragment.
pub lacks-encode : (text : Bytes) → All IsByte text → lacks 35 (encode text) ≡ true
unfolding encode lacks
lacks-encode [] h = refl
lacks-encode (c ∷ cs) h =
    let more = lacks-encode cs h.1 in
    let high = query_byte-sharp (hex (c / 16)) (query_byte-hex (c / 16) (omega (arith, h.0))) in
    let low = query_byte-sharp (hex (c % 16)) (query_byte-hex (c % 16) (omega arith)) in
    elim (Bool-cases (query_byte c)) [
      | inl e ↦ rw (e, query_byte-sharp c e) more
      | inr e ↦ elim (Bool-cases (c == 32)) [
        | inl f ↦ rw (e, f) more
        | inr f ↦ rw (e, f, high, low) more
      ]
    ]
