-- ===== src/Port.antt =====
-- src/url.c: the text of a port, as Python's `int` reads it, and its value as a `long long`.
use tai_ci.Base.{
  ℕ, suc, zero, ◌+◌, ◌-◌, ◌*◌, ◌%◌, Bool, true, false, not, ◌||◌, ◌&&◌, [], ◌∷◌, ◌++◌, Option, none,
  some, Bytes, codes, length, drop, ltb, leb, ◌==◌, if◌then◌else◌, str_eq,
}
use tai_ci.Utf8.{Utf8proc, whitespace}

pub data ℤ : Type 0 where
  pos : ℕ → ℤ
  negsuc : ℕ → ℤ

abbrev pub minus_sign : ℕ
minus_sign = 45

-- strtoll(number, NULL, 10) with ERANGE answered by LLONG_MIN, on what `decimal_port` makes.
unfoldable pub value : ℕ → Bytes → ℕ
value n [] = n
value n (d ∷ ds) = value (10 * n + (d - 48)) ds

abbrev negated : ℕ → ℤ
negated zero = pos 0
negated (suc n) = negsuc n

abbrev pub llong_min : ℤ
llong_min = negsuc 9223372036854775807

unfoldable pub port_of : Bytes → ℤ
port_of [] = pos 0
port_of (d ∷ ds) =
    if d == minus_sign
    then (if ltb 9223372036854775808 (value 0 ds) then llong_min else negated (value 0 ds))
    else (if ltb 9223372036854775807 (value 0 (d ∷ ds)) then llong_min else pos (value 0 (d ∷ ds)))

-- The local variables of `decimal_port`'s loop; `digits` and `used` are one list.
pub record Scan : Type 0 where
  pub negative : Bool
  pub started : Bool
  pub trailing : Bool
  pub previous_digit : Bool
  pub digits : Bytes

unfoldable pub skip_zeros : Bytes → Bytes
skip_zeros [] = []
skip_zeros (d ∷ []) = d ∷ []
skip_zeros (d ∷ e ∷ ds) = if d == 48 then skip_zeros (e ∷ ds) else d ∷ e ∷ ds

-- What follows the loop: `none` is its answer 0.
unfoldable pub finish_port : Scan → Option Bytes
finish_port s =
    if length s.digits == 0 || not s.previous_digit || ltb 4300 (length s.digits)
    then none
    else (let kept = skip_zeros s.digits in
        some (if s.negative && not (str_eq kept (codes "0")) then minus_sign ∷ kept else kept))

module _ (U : Utf8proc) where
  -- The first code point of the run of decimal digits that ends at this one.
  unfoldable pub first_decimal : ℕ → ℕ
  first_decimal zero = zero
  first_decimal (suc c) = elim (U.is_decimal c) [ true ↦ first_decimal c | false ↦ suc c ]

  -- One round on the code point `cp`; `none` is `goto invalid`.
  unfoldable pub scan_character : ℕ → Scan → Option Scan
  scan_character cp s =
      if whitespace cp && not (leb 28 cp && leb cp 31)
      then some (record s { trailing = s.started || s.trailing })
      else if s.trailing
      then none
      else if not s.started && (cp == 43 || cp == minus_sign)
      then some (record s { negative = cp == minus_sign; started = true })
      else if cp == 95
      then (if s.previous_digit
          then some (record s { started = true; previous_digit = false })
          else none)
      else if not (U.is_decimal cp)
      then none
      else some (record s {
        started = true;
        previous_digit = true;
        digits = s.digits ++ (48 + (cp - first_decimal cp) % 10) ∷ [];
      })

  -- The loop, for at most `fuel` rounds; the length of the text is enough.
  unfoldable pub scan_port : ℕ → Bytes → Scan → Option Bytes
  scan_port zero text s = finish_port s
  scan_port (suc fuel) [] s = finish_port s
  scan_port (suc fuel) (b ∷ rest) s = elim (U.iterate (b ∷ rest)) [
    | none ↦ none
    | some (n, cp) ↦ elim (scan_character cp s) [
      | none ↦ none
      | some next ↦ scan_port fuel (drop n (b ∷ rest)) next
    ]
  ]

  unfoldable pub decimal_port : Bytes → Option Bytes
  decimal_port text = scan_port (length text) text (record {
    negative = false;
    started = false;
    trailing = false;
    previous_digit = false;
    digits = [];
  })
