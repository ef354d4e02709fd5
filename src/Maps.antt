-- ===== src/Maps.antt =====
-- src/core.c: the small ordered map that headers, cookie attributes and style properties are kept
-- in. `items` are the pairs in order; `count` is its length. Allocations are Boolean arguments.
pub mod Lookup
use tai_ci.Base.{
  ℕ, zero, suc, ◌+◌, ◌*◌, ◌/◌, ◌%◌, Bool, true, false, not, ◌||◌, List, [], ◌∷◌, ◌++◌, Option, none,
  some, Bytes, length, get_elem?, ltb, ◌==◌, if◌then◌else◌, str_eq, size_max,
}
use tai_ci.Port.{ℤ, negsuc}

pub record Pair : Type 0 where
  pub key : Bytes
  pub value : Bytes
  pub priority : ℤ

pub record Map : Type 0 where
  pub items : List Pair
  pub capacity : ℕ

abbrev pub empty_map : Map
empty_map = record { items = []; capacity = 0 }

unfoldable pub map_index : List Pair → Bytes → ℕ
map_index [] key = 0
map_index (p ∷ ps) key = let rest = map_index ps key in if str_eq p.key key then 0 else suc rest

-- `value` and `priority` of the i-th pair.
unfoldable pub replace_at : List Pair → ℕ → Bytes → ℤ → List Pair
replace_at [] i value priority = []
replace_at (p ∷ ps) zero value priority = record p { value = value; priority = priority } ∷ ps
replace_at (p ∷ ps) (suc i) value priority = p ∷ replace_at ps i value priority

-- The capacity for one more pair; sizeof(TaiPair) is 24.
unfoldable pub grow : Bool → Map → Option ℕ
grow realloc_ok m =
    if length m.items == m.capacity
    then (let cap = if m.capacity == 0 then 8 else (m.capacity * 2) % (size_max + 1) in
        if ltb cap m.capacity || ltb (size_max / 24) cap
        then none
        else if realloc_ok
        then some cap
        else none)
    else some m.capacity

unfoldable pub tai_map_set : Bool → Bool → Bool → Map → Bytes → Bytes → ℤ → Map × Bool
tai_map_set value_ok key_ok realloc_ok m key value priority =
    if not value_ok
    then (m, false)
    else if ltb (map_index m.items key) (length m.items)
    then (record m { items = replace_at m.items (map_index m.items key) value priority }, true)
    else if not key_ok
    then (m, false)
    else elim (grow realloc_ok m) [
      | none ↦ (m, false)
      | some capacity ↦ (
        record {
          items = m.items ++ record { key = key; value = value; priority = priority } ∷ [];
          capacity = capacity;
        },
        true,
      )
    ]

unfoldable pub tai_map_get : Map → Bytes → Option Bytes
tai_map_get m key = elim (get_elem? m.items (map_index m.items key)) [
  | none ↦ none
  | some p ↦ some p.value
]

unfoldable pub tai_map_priority : Map → Bytes → ℤ
tai_map_priority m key = elim (get_elem? m.items (map_index m.items key)) [
  | none ↦ negsuc 0
  | some p ↦ p.priority
]

-- The loop of `tai_map_copy`, with no allocation failing.
unfoldable pub copy_items : Map → List Pair → Option Map
copy_items m [] = some m
copy_items m (p ∷ ps) =
    let (next, ok) = tai_map_set true true true m p.key p.value p.priority in
    let rest = copy_items next ps in if ok then rest else none

-- The destination, which is another map than the source, and the result; `memory` says whether every allocation succeeds.
unfoldable pub tai_map_copy : Bool → Map → Map → Map × Bool
tai_map_copy memory destination source =
    if memory
    then (elim (copy_items empty_map source.items) [
      | none ↦ (destination, false)
      | some copy ↦ (copy, true)
    ])
    else if length source.items == 0
    then (empty_map, true)
    else (destination, false)
