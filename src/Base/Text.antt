-- ===== src/Base/Text.antt =====
-- C strings as lists of bytes: the NUL that ends a string is the end of the list. `strcmp`,
-- `strncmp` with the length of a literal, `strchr`, `strrchr` and `strstr` of the C library.
use Prim.Native.Nat.{ℕ, ◌<◌}
use Prim.Native.Char.{code}
use Prim.Native.String.{String}
use mathlib.Core.Path.{◌≡◌, refl}
use mathlib.Core.Bool.{Bool, true, false, ◌&&◌, ◌||◌}
use mathlib.Core.List.{List, [], ◌∷◌}
use native.Mathlib.Omega.{arith}
use tai_ci.Base.Tests.{ltb, ◌==◌}

abbrev pub Bytes : Type 0
Bytes = List ℕ

abbrev pub IsByte : ℕ → Type 0
IsByte c = c < 256

-- The bytes of an ASCII literal.
abbrev pub codes : String → Bytes
codes String.[] = []
codes (String.◌∷◌ c s) = code c ∷ codes s

-- strcmp(a, b) < 0
unfoldable pub str_lt : Bytes → Bytes → Bool
str_lt a [] = false
str_lt [] (y ∷ b) = true
str_lt (x ∷ a) (y ∷ b) = ltb x y || (x == y && str_lt a b)

-- strcmp(a, b) == 0
unfoldable pub str_eq : Bytes → Bytes → Bool
str_eq [] [] = true
str_eq [] (y ∷ b) = false
str_eq (x ∷ a) [] = false
str_eq (x ∷ a) (y ∷ b) = x == y && str_eq a b

-- strncmp(text, literal, strlen(literal)) == 0
unfoldable pub starts_with : Bytes → Bytes → Bool
starts_with text [] = true
starts_with [] (y ∷ b) = false
starts_with (x ∷ a) (y ∷ b) = x == y && starts_with a b

pub str_eq→eq : (a b : Bytes) → str_eq a b ≡ true → a ≡ b
unfolding str_eq
str_eq→eq [] [] h = refl
str_eq→eq [] (y ∷ b) h = ground arith
str_eq→eq (x ∷ a) [] h = ground arith
str_eq→eq (x ∷ a) (y ∷ b) h = ground (arith, str_eq→eq a b)

pub str_eq_refl : (a : Bytes) → str_eq a a ≡ true
unfolding str_eq
str_eq_refl [] = refl
str_eq_refl (x ∷ a) = ground (arith, str_eq_refl a)

pub str_lt_irrefl : (a : Bytes) → str_lt a a ≡ false
unfolding str_lt
str_lt_irrefl [] = refl
str_lt_irrefl (x ∷ a) = ground (arith, str_lt_irrefl a)

pub str_lt_trans : (a b c : Bytes) → str_lt a b ≡ true → str_lt b c ≡ true → str_lt a c ≡ true
unfolding str_lt
str_lt_trans a [] c h k = ground arith
str_lt_trans a (y ∷ b) [] h k = ground arith
str_lt_trans [] (y ∷ b) (z ∷ c) h k = refl
str_lt_trans (x ∷ a) (y ∷ b) (z ∷ c) h k = ground (arith, str_lt_trans a b c)

-- Neither below the other: equal.
pub str_lt_total : (a b : Bytes) → str_lt a b ≡ false → str_eq a b ≡ false → str_lt b a ≡ true
unfolding str_lt str_eq
str_lt_total [] [] h k = ground arith
str_lt_total [] (y ∷ b) h k = ground arith
str_lt_total (x ∷ a) [] h k = refl
str_lt_total (x ∷ a) (y ∷ b) h k = ground (arith, str_lt_total a b)

pub str_lt-str_eq : (a b : Bytes) → str_lt a b ≡ true → str_eq a b ≡ false
unfolding str_lt str_eq
str_lt-str_eq a [] h = ground arith
str_lt-str_eq [] (y ∷ b) h = refl
str_lt-str_eq (x ∷ a) (y ∷ b) h = ground (arith, str_lt-str_eq a b)

pub str_eq_comm : (a b : Bytes) → str_eq a b ≡ str_eq b a
unfolding str_eq
str_eq_comm [] [] = refl
str_eq_comm [] (y ∷ b) = refl
str_eq_comm (x ∷ a) [] = refl
str_eq_comm (x ∷ a) (y ∷ b) = ground (arith, str_eq_comm a b)

pub str_gt-str_eq : (a b : Bytes) → str_lt a b ≡ true → str_eq b a ≡ false
str_gt-str_eq a b h = rw (str_eq_comm b a) (str_lt-str_eq a b h)
