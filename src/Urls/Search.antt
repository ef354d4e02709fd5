-- ===== src/Urls/Search.antt =====
-- `lower_bound` of src/visited.c and src/bookmarks.c: binary search in a sorted array of strings.
use tai_ci.Base.{
  ℕ, zero, suc, ◌+◌, ◌-◌, ◌/◌, ◌≤◌, ◌<◌, ◌≡◌, refl, ap, true, false, List, [], ◌∷◌, ◌++◌, arith,
  Bytes, str_lt, str_lt_trans, length, get_or, get_or-append_left, if◌then◌else◌, Bool-cases, inl,
  inr, dec_lt,
}

-- The loop, on fuel: every round makes `count` smaller, so `count` rounds are enough.
unfoldable pub lower_loop : List Bytes → Bytes → ℕ → ℕ → ℕ → ℕ
lower_loop urls url zero first count = first
lower_loop urls url (suc fuel) first zero = first
lower_loop urls url (suc fuel) first (suc k) =
    let step = suc k / 2 in
    let middle = first + step in
    elim (str_lt (get_or urls middle []) url) [
      | true ↦ lower_loop urls url fuel (middle + 1) (suc k - (step + 1))
      | false ↦ lower_loop urls url fuel first step
    ]

abbrev pub AllAbove : Bytes → List Bytes → Type 0
AllAbove x [] = Unit
AllAbove x (y ∷ ys) = (str_lt x y ≡ true) × AllAbove x ys

-- Strictly ascending, in `strcmp`'s order.
abbrev pub IsSorted : List Bytes → Type 0
IsSorted [] = Unit
IsSorted (x ∷ xs) = AllAbove x xs × IsSorted xs

-- How many of the first strings are below `url`: what the search stands for.
unfoldable pub rank : Bytes → List Bytes → ℕ
rank url [] = 0
rank url (x ∷ xs) = if str_lt x url then suc (rank url xs) else 0

-- `r` splits the strings into those below `url` and those not below it.
pub record Splits (urls : List Bytes) (url : Bytes) (r : ℕ) : Type 0 where
  pub inside : r ≤ length urls
  pub below : (i : ℕ) → i < r → str_lt (get_or urls i []) url ≡ true
  pub above : (i : ℕ) → r ≤ i → i < length urls → str_lt (get_or urls i []) url ≡ false

AllAbove-get_or :
    (x : Bytes) (xs : List Bytes) (j : ℕ)
    → AllAbove x xs
    → j < length xs
    → str_lt x (get_or xs j []) ≡ true
AllAbove-get_or x [] j a h = absurd (omega arith)
AllAbove-get_or x (y ∷ ys) zero a h = a.0
AllAbove-get_or x (y ∷ ys) (suc j) a h = AllAbove-get_or x ys j a.1 (omega arith)

IsSorted-get_or :
    (xs : List Bytes) (i j : ℕ)
    → IsSorted xs
    → i < j
    → j < length xs
    → str_lt (get_or xs i []) (get_or xs j []) ≡ true
IsSorted-get_or [] i j s h k = absurd (omega arith)
IsSorted-get_or (x ∷ xs) i zero s h k = absurd (omega arith)
IsSorted-get_or (x ∷ xs) zero (suc j) s h k = AllAbove-get_or x xs j s.0 (omega arith)
IsSorted-get_or (x ∷ xs) (suc i) (suc j) s h k =
    IsSorted-get_or xs i j s.1 (omega arith) (omega arith)

module _ (urls : List Bytes) (url : Bytes) where
  lower_loop-Splits :
      (fuel first count : ℕ)
      → count ≤ fuel
      → first + count ≤ length urls
      → IsSorted urls
      → ((i : ℕ) → i < first → str_lt (get_or urls i []) url ≡ true)
      → ((i : ℕ) → first + count ≤ i → i < length urls → str_lt (get_or urls i []) url ≡ false)
      → Splits urls url (lower_loop urls url fuel first count)
  unfolding lower_loop
  lower_loop-Splits zero first count h inside s below above = record {
    inside = omega arith;
    below = below;
    above = λ i p q. above i (omega arith) q;
  }
  lower_loop-Splits (suc fuel) first zero h inside s below above = record {
    inside = omega arith;
    below = below;
    above = λ i p q. above i (omega arith) q;
  }
  lower_loop-Splits (suc fuel) first (suc k) h inside s below above =
      elim (Bool-cases (str_lt (get_or urls (first + suc k / 2) []) url)) [
        | inl lower ↦
            rw (lower, lower_loop)
              (lower_loop-Splits fuel (first + suc k / 2 + 1) (suc k - (suc k / 2 + 1))
                (omega arith) (omega arith) s (λ i p. below_middle i (omega arith) lower)
                (λ i p q. above i (omega arith) q))
        | inr upper ↦
            rw (upper, lower_loop)
              (lower_loop-Splits fuel first (suc k / 2) (omega arith) (omega arith) s below
                (λ i p q. above_middle i p q upper))
      ]
    where
      below_middle :
          (i : ℕ)
          → i ≤ first + suc k / 2
          → str_lt (get_or urls (first + suc k / 2) []) url ≡ true
          → str_lt (get_or urls i []) url ≡ true
      below_middle i p lower = elim (dec_lt i (first + suc k / 2)) [
        | yes q ↦
            str_lt_trans _ _ _ (IsSorted-get_or urls i (first + suc k / 2) s q (omega arith)) lower
        | no q ↦ let e : i ≡ first + suc k / 2 = omega arith in rw e lower
      ]

      above_middle :
          (i : ℕ)
          → first + suc k / 2 ≤ i
          → i < length urls
          → str_lt (get_or urls (first + suc k / 2) []) url ≡ false
          → str_lt (get_or urls i []) url ≡ false
      above_middle i p q upper = elim (dec_lt (first + suc k / 2) i) [
        | yes r ↦ elim (Bool-cases (str_lt (get_or urls i []) url)) [
          | inl e ↦ cc (str_lt_trans _ _ _ (IsSorted-get_or urls (first + suc k / 2) i s r q) e)
          | inr e ↦ e
        ]
        | no r ↦ let e : i ≡ first + suc k / 2 = omega arith in rw e upper
      ]

rank-Splits : (urls : List Bytes) (url : Bytes) (r : ℕ) → Splits urls url r → r ≡ rank url urls
unfolding rank
rank-Splits [] url r h = omega (arith, h.inside)
rank-Splits (x ∷ xs) url zero h = rw (h.above 0 (omega arith) (omega arith))
rank-Splits (x ∷ xs) url (suc r) h = rw (h.below 0 (omega arith)) (
    ap suc (
      rank-Splits xs url r (record {
        inside = omega (arith, h.inside);
        below = λ i p. h.below (suc i) (omega arith);
        above = λ i p q. h.above (suc i) (omega arith) (omega arith);
      })))

-- On a sorted array the search finds the split point.
pub lower_loop-eq-rank :
    (urls : List Bytes) (url : Bytes)
    → IsSorted urls
    → lower_loop urls url (length urls) 0 (length urls) ≡ rank url urls
lower_loop-eq-rank urls url s = rank-Splits urls url _ (
    lower_loop-Splits urls url (length urls) 0 (length urls) (omega arith) (omega arith) s
      (λ i p. absurd (omega arith)) (λ i p q. absurd (omega arith)))

-- The search reads no string at or past `first + count`: what lies there does not matter.
pub lower_loop-append :
    (urls junk : List Bytes) (url : Bytes) (fuel first count : ℕ)
    → first + count ≤ length urls
    → lower_loop (urls ++ junk) url fuel first count ≡ lower_loop urls url fuel first count
unfolding lower_loop
lower_loop-append urls junk url zero first count h = refl
lower_loop-append urls junk url (suc fuel) first zero h = refl
lower_loop-append urls junk url (suc fuel) first (suc k) h =
    rw (get_or-append_left urls junk (first + suc k / 2) [] (omega arith), lower_loop)
      (elim (Bool-cases (str_lt (get_or urls (first + suc k / 2) []) url)) [
        | inl e ↦
            rw (e, lower_loop)
              (lower_loop-append urls junk url fuel (first + suc k / 2 + 1)
                (suc k - (suc k / 2 + 1)) (omega arith))
        | inr e ↦
            rw (e, lower_loop)
              (lower_loop-append urls junk url fuel first (suc k / 2) (omega arith))
      ])
