-- ===== src/Bookmarks/Candidate.antt =====
-- The list that `persist_candidate` writes of src/bookmarks.c, string by string from an index, beside
-- the list that the toggle makes.
use tai_ci.Base.{
  ℕ, zero, suc, ◌+◌, ◌-◌, ◌≤◌, ◌<◌, ◌≡◌, ◌≢◌, refl, inl, inr, Bool, true, false, ◌||◌, List, [],
  ◌∷◌, ◌++◌, Option, none, some, Bytes, length, get_or, length-append, ltb, if◌then◌else◌, arith,
  Bool-cases, All,
}
use tai_ci.Urls.Sorted.{insert_at, remove_at}
use tai_ci.Bookmarks.Format.{FitsFile, length-write_u32}
use tai_ci.Bookmarks.{
  max_file_bytes, u32_max, candidate_item, tabulate, next_count, file_size, write_items, file_bytes,
  Persisted, in_memory, failed, renamed, persist_items,
}

-- A list is the table of its own strings.
tabulate-eq :
    (n first : ℕ) (f : ℕ → Bytes) (l : List Bytes)
    → length l ≡ n
    → ((i : ℕ) → i < n → f (first + i) ≡ get_or l i [])
    → tabulate n first f ≡ l
unfolding tabulate
tabulate-eq zero first f [] e h = refl
tabulate-eq zero first f (x ∷ l) e h = absurd (omega arith)
tabulate-eq (suc n) first f [] e h = absurd (omega arith)
tabulate-eq (suc n) first f (x ∷ l) e h =
    λ i. first_item i ∷ tabulate-eq n (first + 1) f l (omega arith) later i
  where
    first_item : f first ≡ x
    first_item = let at : first + 0 ≡ first = omega arith in rw at at (h 0 (omega arith))

    later : (i : ℕ) → i < n → f (first + 1 + i) ≡ get_or l i []
    later i p =
        let at : first + suc i ≡ first + 1 + i = omega arith in rw at at (h (suc i) (omega arith))

get_or-insert_at :
    (urls : List Bytes) (url : Bytes) (index i : ℕ)
    → index ≤ length urls
    → candidate_item urls url index true i ≡ get_or (insert_at urls index url) i []
unfolding candidate_item
get_or-insert_at urls url zero zero h = refl
get_or-insert_at urls url zero (suc i) h = ground arith
get_or-insert_at [] url (suc index) i h = absurd (omega arith)
get_or-insert_at (x ∷ urls) url (suc index) zero h = ground arith
get_or-insert_at (x ∷ urls) url (suc index) (suc i) h =
    ground (arith, get_or-insert_at urls url index i)

get_or-remove_at :
    (urls : List Bytes) (url : Bytes) (index i : ℕ)
    → candidate_item urls url index false i ≡ get_or (remove_at urls index) i []
unfolding candidate_item
get_or-remove_at [] url zero i = ground arith
get_or-remove_at [] url (suc index) i = ground arith
get_or-remove_at (x ∷ urls) url zero i = ground arith
get_or-remove_at (x ∷ urls) url (suc index) zero = ground arith
get_or-remove_at (x ∷ urls) url (suc index) (suc i) =
    ground (arith, get_or-remove_at urls url index i)

pub candidate-insert :
    (urls : List Bytes) (url : Bytes) (index : ℕ)
    → index ≤ length urls
    → length (insert_at urls index url) ≡ length urls + 1
    → tabulate (next_count urls true) 0 (candidate_item urls url index true)
      ≡ insert_at urls index url
unfolding next_count
candidate-insert urls url index h n =
    tabulate-eq (length urls + 1) 0 (candidate_item urls url index true) (insert_at urls index url)
      n (λ i p. let at : 0 + i ≡ i = omega arith in rw at (get_or-insert_at urls url index i h))

pub candidate-remove :
    (urls : List Bytes) (url : Bytes) (index : ℕ)
    → length (remove_at urls index) ≡ length urls - 1
    → tabulate (next_count urls false) 0 (candidate_item urls url index false)
      ≡ remove_at urls index
unfolding next_count
candidate-remove urls url index n =
    tabulate-eq (length urls - 1) 0 (candidate_item urls url index false) (remove_at urls index) n
      (λ i p. let at : 0 + i ≡ i = omega arith in rw at (get_or-remove_at urls url index i))

abbrev pub Fits : ℕ → List Bytes → Option ℕ → Type 0
Fits total items none = Unit
Fits total items (some n) =
    (total + length (write_items items) ≤ max_file_bytes)
    × All (λ (item : Bytes). length item ≤ u32_max) items

Fits-cons :
    (total : ℕ) (item : Bytes) (items : List Bytes) (r : Option ℕ)
    → length item ≤ u32_max
    → Fits (total + (4 + length item)) items r
    → Fits total (item ∷ items) r
unfolding write_items
Fits-cons total item items none h f = tt
Fits-cons total item items (some n) h f = (
  omega (
    arith,
    f.0,
    length-write_u32 (length item) (item ++ write_items items),
    length-append item (write_items items),
  ),
  (h, f.1),
)

abbrev too_large : ℕ → Bytes → Bool
too_large total item =
    ltb u32_max (length item)
    || ltb (max_file_bytes - 4) total
    || ltb (max_file_bytes - total - 4) (length item)

-- A size that the loop computes is within the limits, string by string and in all.
file_size-Fits :
    (total : ℕ) (items : List Bytes)
    → total ≤ max_file_bytes
    → Fits total items (file_size total items)
unfolding file_size write_items
file_size-Fits total [] h = (omega arith, tt)
file_size-Fits total (item ∷ items) h = elim (Bool-cases (too_large total item)) [
  | inl e ↦ rw (e, file_size) tt
  | inr e ↦
      rw (e, file_size)
        (Fits-cons total item items (file_size (total + (4 + length item)) items) (ground arith)
          (file_size-Fits (total + (4 + length item)) items (ground arith)))
]

-- What `persist_candidate` did with the list `items`: it failed, it had no file to write, or it
-- replaced the file by that of `items`, which fits.
abbrev pub Stores : Option Bytes → List Bytes → Persisted → Type 0
Stores path items failed = Unit
Stores path items in_memory = path ≡ none
Stores path items (renamed bytes) =
    (bytes ≡ file_bytes items)
    × FitsFile items
    × All (λ (item : Bytes). length item ≤ u32_max) items
    × (path ≢ none)

length-file_bytes :
    (items : List Bytes) → length (file_bytes items) ≡ 12 + length (write_items items)
unfolding file_bytes
length-file_bytes items = omega (arith, length-write_u32 (length items) (write_items items))

renamed-Stores :
    (io_ok : Bool) (path : Bytes) (items : List Bytes) (r : Option ℕ)
    → length items ≤ u32_max
    → Fits 12 items r
    → Stores (some path) items (elim r [
      | none ↦ failed
      | some total ↦ if io_ok then renamed (file_bytes items) else failed
    ])
renamed-Stores io_ok path items none n f = tt
renamed-Stores true path items (some total) n f =
    (refl, (n, omega (arith, f.0, length-file_bytes items)), f.1, λ e. cc)
renamed-Stores false path items (some total) n f = tt

pub persist_items-Stores :
    (io_ok : Bool) (path : Option Bytes) (count : ℕ) (items : List Bytes)
    → length items ≡ count
    → Stores path items (persist_items io_ok path count items)
unfolding persist_items
persist_items-Stores io_ok none count items n = refl
persist_items-Stores io_ok (some path) count items n = elim (Bool-cases (ltb u32_max count)) [
  | inl e ↦ rw (e, persist_items) tt
  | inr e ↦
      rw (e, persist_items)
        (renamed-Stores io_ok path items (file_size 12 items) (ground arith)
          (file_size-Fits 12 items (omega arith)))
]
