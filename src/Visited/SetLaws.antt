-- ===== src/Visited/SetLaws.antt =====
-- The visited URLs of src/visited.c as a set.
use tai_ci.Base.{
  ℕ, ◌+◌, ◌≤◌, ◌≡◌, inl, inr, refl, Bool, true, false, ◌||◌, List, [], ◌∷◌, Option, none, some,
  Bytes, length, Bool-cases, Option-cases, max_pointers, arith, str_eq, if◌then◌else◌, str_eq→eq,
}
use tai_ci.Urls.Search.{IsSorted, rank, lower_loop-eq-rank}
use tai_ci.Urls.Sorted.{
  member, holds_at, insert_at, holds_at-rank, insert_at-IsSorted, member-insert_at,
  length-insert_at,
}
use tai_ci.Visited.{
  Visited, lower_bound, tai_visited_contains, grow, add_url, tai_visited_copy, copy_urls,
  tai_visited_add,
}

pub record IsValid (v : Visited) : Type 0 where
  pub sorted : IsSorted v.urls
  pub room : length v.urls ≤ v.capacity
  pub small : v.capacity ≤ max_pointers

lower_bound-eq-rank :
    (v : Visited) (url : Bytes) → IsSorted v.urls → lower_bound v url ≡ rank url v.urls
unfolding lower_bound
lower_bound-eq-rank v url s = lower_loop-eq-rank v.urls url s

found-eq-member :
    (v : Visited) (url : Bytes)
    → IsSorted v.urls
    → holds_at v.urls url (lower_bound v url) ≡ member url v.urls
found-eq-member v url s = rw (lower_bound-eq-rank v url s) (holds_at-rank v.urls url s)

pub contains-eq-member :
    (v : Visited) (url : Bytes)
    → IsSorted v.urls
    → tai_visited_contains (some v) (some url) ≡ member url v.urls
unfolding tai_visited_contains
contains-eq-member v url s = lower_loop-rank
  where
    lower_loop-rank : holds_at v.urls url (lower_bound v url) ≡ member url v.urls
    lower_loop-rank = found-eq-member v url s

-- Room for one more string.
abbrev Fits : ℕ → Option ℕ → Type 0
Fits n none = Unit
Fits n (some c) = (n + 1 ≤ c) × (c ≤ max_pointers)

grow-Fits : (ok : Bool) (v : Visited) → IsValid v → Fits (length v.urls) (grow ok v)
unfolding grow
grow-Fits ok v h = ground arith

absent_insert :
    (v : Visited) (url : Bytes)
    → IsValid v
    → holds_at v.urls url (lower_bound v url) ≡ false
    → IsSorted (insert_at v.urls (lower_bound v url) url)
      × (length (insert_at v.urls (lower_bound v url) url) ≡ length v.urls + 1)
absent_insert v url h absent = rw (lower_bound-eq-rank v url h.sorted) (
  insert_at-IsSorted v.urls url h.sorted (rw (found-eq-member v url h.sorted) at absent),
  length-insert_at v.urls url,
)

pub add_url-IsValid :
    (realloc_ok strdup_ok : Bool) (v : Visited) (url : Bytes)
    → IsValid v
    → IsValid (add_url realloc_ok strdup_ok v url).0
unfolding add_url
add_url-IsValid realloc_ok strdup_ok v url h =
    ground (arith, absent_insert v url h, grow-Fits realloc_ok v h)

found_again :
    (v : Visited) (url j : Bytes)
    → IsValid v
    → holds_at v.urls url (lower_bound v url) ≡ true
    → member j v.urls ≡ (str_eq url j || member j v.urls)
found_again v url j h found = elim (Bool-cases (str_eq url j)) [
  | inr other ↦ rw other
  | inl same ↦ rw same (rw (← str_eq→eq url j same) (rw (found-eq-member v url h.sorted) at found))
]

inserted :
    (v : Visited) (url j : Bytes)
    → IsValid v
    → member j (insert_at v.urls (lower_bound v url) url) ≡ (str_eq url j || member j v.urls)
inserted v url j h =
    rw (lower_bound-eq-rank v url h.sorted) (member-insert_at v.urls url h.sorted j)

-- What a call of `add_url` that answers `done` leaves in the set.
abbrev pub added : Bytes → Bytes → Bool → Bool → Bool
added url j before done = if done then str_eq url j || before else before

member-add_url :
    (realloc_ok strdup_ok : Bool) (v : Visited) (url j : Bytes)
    → IsValid v
    → member j (add_url realloc_ok strdup_ok v url).0.urls
      ≡ added url j (member j v.urls) (add_url realloc_ok strdup_ok v url).1
unfolding add_url
member-add_url realloc_ok strdup_ok v url j h =
    ground (arith, found_again v url j h, inserted v url j h)

-- After `tai_visited_add` the set answers yes for the added URL and for what it held before, if the
-- call succeeded; and as before if it failed. The set stays well-formed either way.
pub add-contains :
    (realloc_ok strdup_ok : Bool) (v : Visited) (url j : Bytes)
    → IsValid v
    → IsValid (add_url realloc_ok strdup_ok v url).0
      × (tai_visited_contains (tai_visited_add realloc_ok strdup_ok (some v) (some url)).0 (some j)
          ≡ (if (tai_visited_add realloc_ok strdup_ok (some v) (some url)).1
              then str_eq url j || tai_visited_contains (some v) (some j)
              else tai_visited_contains (some v) (some j)))
unfolding tai_visited_add
add-contains realloc_ok strdup_ok v url j h =
    let valid = add_url-IsValid realloc_ok strdup_ok v url h in
    (
      valid,
      rw
          (
            contains-eq-member (add_url realloc_ok strdup_ok v url).0 j valid.sorted,
            contains-eq-member v j h.sorted,
          )
          (member-add_url realloc_ok strdup_ok v url j h),
    )

-- A failed call changes nothing that a client can see: the strings are the same.
pub add_failed :
    (realloc_ok strdup_ok : Bool) (v : Visited) (url : Bytes)
    → (add_url realloc_ok strdup_ok v url).1 ≡ false
    → (add_url realloc_ok strdup_ok v url).0.urls ≡ v.urls
unfolding add_url
add_failed realloc_ok strdup_ok v url e = ground arith

copy_urls_all :
    (strdup_ok : ℕ → Bool) (i : ℕ) (urls : List Bytes)
    → ((k : ℕ) → strdup_ok k ≡ true)
    → copy_urls strdup_ok i urls ≡ some urls
unfolding copy_urls
copy_urls_all strdup_ok i [] h = refl
copy_urls_all strdup_ok i (url ∷ rest) h = rw (copy_urls_all strdup_ok (i + 1) rest h, h i)

copy_urls-eq :
    (strdup_ok : ℕ → Bool) (i : ℕ) (urls copied : List Bytes)
    → copy_urls strdup_ok i urls ≡ some copied
    → copied ≡ urls
unfolding copy_urls
copy_urls-eq strdup_ok i [] copied e = cc
copy_urls-eq strdup_ok i (url ∷ rest) copied e =
    elim (Option-cases (copy_urls strdup_ok (i + 1) rest)) [
      | inl failed ↦ cc (rw failed at e)
      | inr (done, f) ↦ ground (arith, copy_urls-eq strdup_ok (i + 1) rest done f)
    ]

length_zero : (urls : List Bytes) → length urls ≡ 0 → [] ≡ urls
length_zero [] e = refl
length_zero (x ∷ urls) e = absurd (omega arith)

copy_made :
    (calloc_ok malloc_ok : Bool) (strdup_ok : ℕ → Bool) (v c : Visited)
    → tai_visited_copy calloc_ok malloc_ok strdup_ok (some v) ≡ some c
    → (c.urls ≡ v.urls) × (c.capacity ≡ length v.urls)
unfolding tai_visited_copy
copy_made calloc_ok malloc_ok strdup_ok v c e = elim (Option-cases (copy_urls strdup_ok 0 v.urls)) [
  | inl failed ↦ ground (arith, length_zero v.urls)
  | inr (done, f) ↦ ground (arith, copy_urls-eq strdup_ok 0 v.urls done f, length_zero v.urls)
]

-- A copy of a well-formed set that is made holds the same strings and is well-formed.
pub copy_same :
    (calloc_ok malloc_ok : Bool) (strdup_ok : ℕ → Bool) (v c : Visited)
    → IsValid v
    → tai_visited_copy calloc_ok malloc_ok strdup_ok (some v) ≡ some c
    → (c.urls ≡ v.urls) × IsValid c
copy_same calloc_ok malloc_ok strdup_ok v c h e =
    let (same, size) = copy_made calloc_ok malloc_ok strdup_ok v c e in
    (
      same,
      record {
        sorted = rw same h.sorted;
        room = rw (same, size) (omega arith);
        small = rw size (omega arith);
      },
    )
