-- ===== src/Utf8.antt =====
-- utf8proc, which src/url.c, src/session.c and src/css.c call, as a parameter: `utf8proc_iterate` gives the
-- width and the code point of the first character, or `none` for its negative answer;
-- whether `utf8proc_category(c)` is ND, one of ZS, ZL and ZP, or one of LU to LO and ND to NO; and `utf8proc_map` with UTF8PROC_CASEFOLD.
use tai_ci.Base.{
  ℕ, zero, suc, ◌+◌, ◌-◌, ◌≤◌, ◌<◌, ◌≡◌, Bool, ◌||◌, ◌&&◌, [], ◌∷◌, Option, none, some, Bytes,
  length, drop, take, leb, ◌==◌, if◌then◌else◌,
}

pub record Utf8proc : Type 0 where
  pub iterate : Bytes → Option (ℕ × ℕ)
  pub is_decimal : ℕ → Bool
  pub is_separator : ℕ → Bool
  pub is_alnum : ℕ → Bool
  pub casefold : Bytes → Option Bytes

-- What the callers rely on: a character is at least a byte and lies in the text, an ASCII byte is
-- a character, and of the ASCII characters exactly the digits are decimal.
pub record IsUtf8proc (U : Utf8proc) : Type 0 where
  pub advances :
      (text : Bytes) (n c : ℕ) → U.iterate text ≡ some (n, c) → (1 ≤ n) × (n ≤ length text)
  pub ascii : (b : ℕ) (text : Bytes) → b < 128 → U.iterate (b ∷ text) ≡ some (1, b)
  pub ascii_decimal : (b : ℕ) → b < 128 → U.is_decimal b ≡ (leb 48 b && leb b 57)

-- `whitespace` of src/url.c, and `address_space` of src/session.c.
unfoldable pub whitespace : ℕ → Bool
whitespace c =
    leb 9 c && leb c 13
    || leb 28 c && leb c 32
    || c == 133
    || c == 160
    || c == 5760
    || leb 8192 c && leb c 8202
    || c == 8232
    || c == 8233
    || c == 8239
    || c == 8287
    || c == 12288

module _ (U : Utf8proc) where
  -- One round's character: where the text is not UTF-8, the byte itself.
  unfoldable pub character : ℕ → Bytes → ℕ × ℕ
  character b rest = elim (U.iterate (b ∷ rest)) [ none ↦ (1, b) | some found ↦ found ]

  -- The loop of `strip` and `trim_address` at `i`, with `rest` from there on, for at most `fuel`
  -- rounds; the length of the text is enough, since every round passes a byte.
  unfoldable pub strip_loop : ℕ → Bytes → ℕ → ℕ → ℕ → ℕ × ℕ
  strip_loop zero rest i first last = (first, last)
  strip_loop (suc fuel) [] i first last = (first, last)
  strip_loop (suc fuel) (b ∷ rest) i first last =
      let (n, cp) = character b rest in
      strip_loop fuel (drop n (b ∷ rest)) (i + n)
        (if whitespace cp then (if first == i then first + n else first) else first)
        (if whitespace cp then last else i + n)

  unfoldable pub strip : Bytes → Bytes
  strip text =
      let (first, last) = strip_loop (length text) text 0 0 0 in
      take (last - first) (drop first text)
