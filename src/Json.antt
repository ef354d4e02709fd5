-- ===== src/Json.antt =====
-- src/core.c: `tai_json_string`, the bytes that it writes.
pub mod Reading
use tai_ci.Base.{
  ℕ, ◌/◌, ◌%◌, Bool, true, false, ◌||◌, List, [], ◌∷◌, ◌++◌, Option, none, some, Bytes, codes,
  get_or, ltb, ◌==◌, if◌then◌else◌,
}

-- A digit of "%04x".
unfoldable pub small_hex : ℕ → ℕ
small_hex n = get_or (codes "0123456789abcdef") n 0

unfoldable pub escape : Bytes → Bytes
escape [] = []
escape (c ∷ cs) =
    let rest = escape cs in
    if c == 34 || c == 92
    then 92 ∷ c ∷ rest
    else if ltb c 32
    then 92 ∷ 117 ∷ 48 ∷ 48 ∷ small_hex (c / 16) ∷ small_hex (c % 16) ∷ rest
    else c ∷ rest

-- NULL is written as the empty string.
unfoldable pub tai_json_string : Option Bytes → Bytes
tai_json_string none = 34 ∷ 34 ∷ []
tai_json_string (some s) = 34 ∷ (escape s ++ 34 ∷ [])
