-- ===== src/Base/Splits.antt =====
-- `strchr`, `strrchr` and `strstr` of the C library, as the parts before and after what they find.
use Prim.Native.Nat.{ℕ}
use mathlib.Core.Path.{◌≡◌, refl, ap}
use mathlib.Core.Bool.{Bool, true, false}
use mathlib.Core.List.{[], ◌∷◌, ◌++◌}
use mathlib.Core.Option.{Option, none, some}
use native.Mathlib.Omega.{arith}
use mathlib.Core.Logic.{inl, inr}
use tai_ci.Base.Tests.{Bool-cases, ◌==◌, if◌then◌else◌}
use tai_ci.Base.Lists.{length, drop}
use tai_ci.Base.Text.{Bytes, starts_with}

-- The parts with one more byte before the first.
abbrev pub longer : ℕ → Option (Bytes × Bytes) → Option (Bytes × Bytes)
longer x none = none
longer x (some (a, b)) = some (x ∷ a, b)

-- strchr(s, c)
unfoldable pub split_first : ℕ → Bytes → Option (Bytes × Bytes)
split_first c [] = none
split_first c (x ∷ s) = if x == c then some ([], s) else longer x (split_first c s)

-- strrchr(s, c)
unfoldable pub split_last : ℕ → Bytes → Option (Bytes × Bytes)
split_last c [] = none
split_last c (x ∷ s) = elim (split_last c s) [
  | none ↦ if x == c then some ([], s) else none
  | some (a, b) ↦ some (x ∷ a, b)
]

-- strstr(s, text)
unfoldable pub split_on : Bytes → Bytes → Option (Bytes × Bytes)
split_on text [] = none
split_on text (x ∷ s) =
    if starts_with (x ∷ s) text
    then some ([], drop (length text) (x ∷ s))
    else longer x (split_on text s)

-- The byte does not occur.
unfoldable pub lacks : ℕ → Bytes → Bool
lacks c [] = true
lacks c (x ∷ s) = if x == c then false else lacks c s

pub split_first-lacks : (c : ℕ) (s : Bytes) → lacks c s ≡ true → split_first c s ≡ none
unfolding split_first lacks
split_first-lacks c [] h = refl
split_first-lacks c (x ∷ s) h = ground (arith, split_first-lacks c s)

pub split_first-append :
    (c : ℕ) (a b : Bytes) → lacks c a ≡ true → split_first c (a ++ c ∷ b) ≡ some (a, b)
unfolding split_first lacks
split_first-append c [] b h = ground arith
split_first-append c (x ∷ a) b h = ground (arith, split_first-append c a b)

-- What the answer of `split_first` says of the text.
abbrev pub Splits : ℕ → Bytes → Option (Bytes × Bytes) → Type 0
Splits c s none = lacks c s ≡ true
Splits c s (some (a, b)) = (s ≡ a ++ c ∷ b) × (lacks c a ≡ true)

longer-Splits :
    (c x : ℕ) (s : Bytes) (o : Option (Bytes × Bytes))
    → (x == c) ≡ false
    → Splits c s o
    → Splits c (x ∷ s) (longer x o)
unfolding lacks
longer-Splits c x s none e h = rw e h
longer-Splits c x s (some (a, b)) e h = rw e (ap (λ t. x ∷ t) h.0, h.1)

pub split_first-Splits : (c : ℕ) (s : Bytes) → Splits c s (split_first c s)
unfolding split_first lacks
split_first-Splits c [] = refl
split_first-Splits c (x ∷ s) = elim (Bool-cases (x == c)) [
  | inl e ↦ let same : x ≡ c = ground arith in rw (e, same) (refl, refl)
  | inr e ↦ rw e (longer-Splits c x s (split_first c s) e (split_first-Splits c s))
]
