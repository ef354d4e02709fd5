-- ===== src/Visited.antt =====
-- src/visited.c: the set of visited URLs, a sorted array that is searched by bisection. The array's
-- strings are the list `urls`, so `count` is its length; `capacity` is the allocated size. Each
-- allocation is a Boolean argument that says whether it succeeds; a NULL pointer is `none`.
pub mod SetLaws
use tai_ci.Base.{
  ℕ, suc, ◌+◌, ◌*◌, ◌/◌, Bool, true, false, List, [], ◌∷◌, Option, none, some, Bytes, length,
  max_pointers, ltb, ◌==◌, if◌then◌else◌,
}
use tai_ci.Urls.Search.{lower_loop}
use tai_ci.Urls.Sorted.{holds_at, insert_at}

pub record Visited : Type 0 where
  pub urls : List Bytes
  pub capacity : ℕ

unfoldable pub lower_bound : Visited → Bytes → ℕ
lower_bound v url = lower_loop v.urls url (length v.urls) 0 (length v.urls)

abbrev empty : Visited
empty = record { urls = []; capacity = 0 }

unfoldable pub tai_visited_create : Bool → Option Visited
tai_visited_create calloc_ok = if calloc_ok then some empty else none

unfoldable pub tai_visited_contains : Option Visited → Option Bytes → Bool
tai_visited_contains none url = false
tai_visited_contains (some v) none = false
tai_visited_contains (some v) (some url) = holds_at v.urls url (lower_bound v url)

-- The size that a full array grows to: doubled, at most `max_pointers`, at least 8.
unfoldable pub next_capacity : ℕ → ℕ
next_capacity capacity =
    let next = if ltb capacity (max_pointers / 2) then capacity * 2 else max_pointers in
    if ltb next 8 then 8 else next

-- The capacity that the array has when the new string is stored, or `none` where it cannot grow.
unfoldable pub grow : Bool → Visited → Option ℕ
unfolding next_capacity
grow realloc_ok v =
    if length v.urls == v.capacity
    then (if v.capacity == max_pointers
        then none
        else (if realloc_ok then some (next_capacity v.capacity) else none))
    else some v.capacity

-- The state and the result of `tai_visited_add` behind its test for NULL. When the copy of the
-- string cannot be made, the array has already grown.
unfoldable pub add_url : Bool → Bool → Visited → Bytes → Visited × Bool
add_url realloc_ok strdup_ok v url =
    let index = lower_bound v url in
    if holds_at v.urls url index then (v, true) else elim (grow realloc_ok v) [
      | none ↦ (v, false)
      | some capacity ↦
          if strdup_ok
          then (record { urls = insert_at v.urls index url; capacity = capacity }, true)
          else (record v { capacity = capacity }, false)
    ]

unfoldable pub tai_visited_add : Bool → Bool → Option Visited → Option Bytes → Option Visited × Bool
unfolding add_url
tai_visited_add realloc_ok strdup_ok none url = (none, false)
tai_visited_add realloc_ok strdup_ok (some v) none = (some v, false)
tai_visited_add realloc_ok strdup_ok (some v) (some url) =
    let (after, done) = add_url realloc_ok strdup_ok v url in (some after, done)

-- The loop of `tai_visited_copy`; `strdup_ok i` says whether the i-th copy of a string is made.
unfoldable pub copy_urls : (ℕ → Bool) → ℕ → List Bytes → Option (List Bytes)
copy_urls strdup_ok i [] = some []
copy_urls strdup_ok i (url ∷ rest) = elim (copy_urls strdup_ok (i + 1) rest) [
  | none ↦ none
  | some copied ↦ if strdup_ok i then some (url ∷ copied) else none
]

unfoldable pub tai_visited_copy : Bool → Bool → (ℕ → Bool) → Option Visited → Option Visited
unfolding tai_visited_create copy_urls
tai_visited_copy calloc_ok malloc_ok strdup_ok none = none
tai_visited_copy calloc_ok malloc_ok strdup_ok (some v) = elim (tai_visited_create calloc_ok) [
  | none ↦ none
  | some copy ↦
      if length v.urls == 0
      then some copy
      else (if malloc_ok
          then (elim (copy_urls strdup_ok 0 v.urls) [
            | none ↦ none
            | some urls ↦ some (record { urls = urls; capacity = length v.urls })
          ])
          else none)
]
