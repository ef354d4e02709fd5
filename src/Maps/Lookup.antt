-- ===== src/Maps/Lookup.antt =====
-- `tai_map_set` and `tai_map_get` of src/core.c.
use tai_ci.Base.{
  ◌≡◌, refl, sym, ap, ◌∙◌, Bool, true, false, List, [], ◌∷◌, ◌++◌, Option, none, some, Bytes, arith,
  inl, inr, length, get_elem?, ltb, if◌then◌else◌, str_eq, str_eq→eq, str_eq_refl, Bool-cases,
}
use tai_ci.Port.{ℤ, negsuc}
use tai_ci.Maps.{Pair, Map, map_index, replace_at, tai_map_set, tai_map_get, tai_map_priority}

-- What the first pair of a key answers, as an independent search.
abbrev pub find_pair : {A : Type 0} → (Bytes → ℤ → A) → A → List Pair → Bytes → A
find_pair f d [] key = d
find_pair f d (p ∷ ps) key = if str_eq p.key key then f p.value p.priority else find_pair f d ps key

abbrev value_of : Bytes → ℤ → Option Bytes
value_of value priority = some value

abbrev priority_of : Bytes → ℤ → ℤ
priority_of value priority = priority

get_elem-map_index :
    {A : Type 0}
    → (f : Bytes → ℤ → A) (d : A) (ps : List Pair) (key : Bytes)
    → (elim (get_elem? ps (map_index ps key)) [ none ↦ d | some p ↦ f p.value p.priority ])
      ≡ find_pair f d ps key
unfolding map_index
get_elem-map_index f d [] key = refl
get_elem-map_index f d (p ∷ ps) key = elim (Bool-cases (str_eq p.key key)) [
  | inl e ↦ rw e refl
  | inr e ↦ rw e (get_elem-map_index f d ps key)
]

pub get-find_pair :
    (m : Map) (key : Bytes) → tai_map_get m key ≡ find_pair value_of none m.items key
unfolding tai_map_get
get-find_pair m key = get_elem-map_index value_of none m.items key

pub priority-find_pair :
    (m : Map) (key : Bytes) → tai_map_priority m key ≡ find_pair priority_of (negsuc 0) m.items key
unfolding tai_map_priority
priority-find_pair m key = get_elem-map_index priority_of (negsuc 0) m.items key

apart : (a b c : Bytes) → str_eq a b ≡ false → str_eq a c ≡ true → str_eq b c ≡ false
apart a b c e f = elim (Bool-cases (str_eq b c)) [
  | inl g ↦
      let same : a ≡ b = str_eq→eq a c f ∙ sym (str_eq→eq b c g) in
      absurd (ground (arith, sym e ∙ ap (λ x. str_eq x b) same ∙ str_eq_refl b))
  | inr g ↦ g
]

-- Two tests that exclude each other, in either order.
swap_tests {ℓ} :
    {A : Type ℓ} (b c : Bool) (x y z : A)
    → (b ≡ true → c ≡ false)
    → (if b then x else (if c then y else z)) ≡ (if c then y else (if b then x else z))
swap_tests true true x y z h = absurd (ground (arith, h refl))
swap_tests true false x y z h = refl
swap_tests false c x y z h = refl

over {ℓ} :
    {A : Type ℓ} (x y z : A) (b : Bool)
    → (if b then x else z) ≡ (if b then x else (if b then y else z))
over x y z true = refl
over x y z false = refl

find_pair-replace_at :
    {A : Type 0}
    → (f : Bytes → ℤ → A) (d : A) (ps : List Pair) (key other value : Bytes) (priority : ℤ)
    → ltb (map_index ps key) (length ps) ≡ true
    → find_pair f d (replace_at ps (map_index ps key) value priority) other
      ≡ (if str_eq key other then f value priority else find_pair f d ps other)
unfolding map_index replace_at
find_pair-replace_at f d [] key other value priority h = ground arith
find_pair-replace_at f d (p ∷ ps) key other value priority h =
    elim (Bool-cases (str_eq p.key key)) [
      | inl e ↦ let same = str_eq→eq p.key key e in rw e (rw same (over _ _ _ (str_eq key other)))
      | inr e ↦
          rw (e, find_pair-replace_at f d ps key other value priority (ground arith))
            (swap_tests (str_eq p.key other) (str_eq key other) _ _ _ (apart p.key key other e))
    ]

find_pair-append :
    {A : Type 0}
    → (f : Bytes → ℤ → A) (d : A) (ps : List Pair) (key other value : Bytes) (priority : ℤ)
    → ltb (map_index ps key) (length ps) ≡ false
    → find_pair f d (ps ++ record { key = key; value = value; priority = priority } ∷ []) other
      ≡ (if str_eq key other then f value priority else find_pair f d ps other)
unfolding map_index
find_pair-append f d [] key other value priority h = refl
find_pair-append f d (p ∷ ps) key other value priority h = elim (Bool-cases (str_eq p.key key)) [
  | inl e ↦ absurd (ground arith)
  | inr e ↦
      rw (find_pair-append f d ps key other value priority (ground arith))
        (swap_tests (str_eq p.key other) (str_eq key other) _ _ _ (apart p.key key other e))
]

set_found :
    {A : Type 0}
    → (f : Bytes → ℤ → A) (d : A) (value_ok key_ok realloc_ok : Bool) (m : Map)
      (key other value : Bytes) (priority : ℤ)
    → find_pair f d (tai_map_set value_ok key_ok realloc_ok m key value priority).0.items other ≡ (
        if (tai_map_set value_ok key_ok realloc_ok m key value priority).1
        then (if str_eq key other then f value priority else find_pair f d m.items other)
        else find_pair f d m.items other)
unfolding tai_map_set
set_found f d value_ok key_ok realloc_ok m key other value priority =
    elim (Bool-cases (ltb (map_index m.items key) (length m.items))) [
      | inl e ↦ ground (arith, find_pair-replace_at f d m.items key other value priority)
      | inr e ↦ ground (arith, find_pair-append f d m.items key other value priority)
    ]

-- A set that succeeds makes the value the answer for its key, and leaves every other key's answer;
-- one that fails leaves every answer.
pub get-set :
    (value_ok key_ok realloc_ok : Bool) (m : Map) (key other value : Bytes) (priority : ℤ)
    → tai_map_get (tai_map_set value_ok key_ok realloc_ok m key value priority).0 other ≡ (
        if (tai_map_set value_ok key_ok realloc_ok m key value priority).1
        then (if str_eq key other then some value else tai_map_get m other)
        else tai_map_get m other)
get-set value_ok key_ok realloc_ok m key other value priority =
    rw
      (
        get-find_pair (tai_map_set value_ok key_ok realloc_ok m key value priority).0 other,
        get-find_pair m other,
      )
      (set_found value_of none value_ok key_ok realloc_ok m key other value priority)

-- And so for the priorities.
pub priority-set :
    (value_ok key_ok realloc_ok : Bool) (m : Map) (key other value : Bytes) (priority : ℤ)
    → tai_map_priority (tai_map_set value_ok key_ok realloc_ok m key value priority).0 other ≡ (
        if (tai_map_set value_ok key_ok realloc_ok m key value priority).1
        then (if str_eq key other then priority else tai_map_priority m other)
        else tai_map_priority m other)
priority-set value_ok key_ok realloc_ok m key other value priority =
    rw
      (
        priority-find_pair (tai_map_set value_ok key_ok realloc_ok m key value priority).0 other,
        priority-find_pair m other,
      )
      (set_found priority_of (negsuc 0) value_ok key_ok realloc_ok m key other value priority)
