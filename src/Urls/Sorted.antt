-- ===== src/Urls/Sorted.antt =====
-- What the two sorted collections do at the index that the search returns: the test for presence,
-- the insertion by `memmove` and the removal by `memmove`.
use tai_ci.Base.{
  ℕ, suc, ◌+◌, ◌≤◌, ◌≡◌, refl, Bool, true, false, ◌&&◌, ◌||◌, List, [], ◌∷◌, ◌++◌, arith, Bytes,
  str_lt, str_eq, str_lt_trans, str_lt_total, str_lt-str_eq, str_gt-str_eq, not, str_eq→eq,
  str_eq_comm, ◌⊎◌, length, get_or, take, drop, if◌then◌else◌, Bool-cases, inl, inr, ltb,
}
use tai_ci.Urls.Search.{AllAbove, IsSorted, rank}

-- Presence by a walk over all strings.
unfoldable pub member : Bytes → List Bytes → Bool
member url [] = false
member url (x ∷ xs) = str_eq x url || member url xs

-- index < count && !strcmp(urls[index], url)
abbrev pub holds_at : List Bytes → Bytes → ℕ → Bool
holds_at urls url index = ltb index (length urls) && str_eq (get_or urls index []) url

-- memmove(urls + index + 1, urls + index, ...); urls[index] = url
abbrev pub insert_at : List Bytes → ℕ → Bytes → List Bytes
insert_at urls index url = take index urls ++ url ∷ drop index urls

-- memmove(urls + index, urls + index + 1, ...)
abbrev pub remove_at : List Bytes → ℕ → List Bytes
remove_at urls index = take index urls ++ drop (suc index) urls

pub AllAbove-trans :
    (x y : Bytes) (ys : List Bytes) → str_lt x y ≡ true → AllAbove y ys → AllAbove x ys
AllAbove-trans x y [] h a = tt
AllAbove-trans x y (z ∷ zs) h a = (str_lt_trans x y z h a.0, AllAbove-trans x y zs h a.1)

member-AllAbove :
    (url x : Bytes) (xs : List Bytes) → str_lt url x ≡ true → AllAbove x xs → member url xs ≡ false
unfolding member
member-AllAbove url x [] h a = refl
member-AllAbove url x (y ∷ ys) h a =
    rw (str_gt-str_eq url y (str_lt_trans url x y h a.0)) (member-AllAbove url x ys h a.1)

-- In a sorted array the string at the search's index decides presence.
pub holds_at-rank :
    (urls : List Bytes) (url : Bytes)
    → IsSorted urls
    → holds_at urls url (rank url urls) ≡ member url urls
unfolding rank member
holds_at-rank [] url s = refl
holds_at-rank (x ∷ xs) url s = elim (Bool-cases (str_lt x url)) [
  | inl lower ↦ rw (lower, str_lt-str_eq x url lower) (ground (arith, holds_at-rank xs url s.1))
  | inr upper ↦ elim (Bool-cases (str_eq x url)) [
    | inl same ↦ rw (upper, same) (ground arith)
    | inr other ↦
        let absent = member-AllAbove url x xs (str_lt_total x url upper other) s.0 in
        rw (upper, other, absent) (ground arith)
  ]
]

-- Insertion and removal by a walk.
pub add_sorted : Bytes → List Bytes → List Bytes
add_sorted url [] = url ∷ []
add_sorted url (x ∷ xs) = if str_lt x url then x ∷ add_sorted url xs else url ∷ x ∷ xs

pub remove_sorted : Bytes → List Bytes → List Bytes
remove_sorted url [] = []
remove_sorted url (x ∷ xs) = if str_lt x url then x ∷ remove_sorted url xs else xs

insert_at-rank :
    (urls : List Bytes) (url : Bytes) → insert_at urls (rank url urls) url ≡ add_sorted url urls
unfolding rank add_sorted
insert_at-rank [] url = refl
insert_at-rank (x ∷ xs) url = ground (arith, insert_at-rank xs url)

remove_at-rank :
    (urls : List Bytes) (url : Bytes) → remove_at urls (rank url urls) ≡ remove_sorted url urls
unfolding rank remove_sorted
remove_at-rank [] url = refl
remove_at-rank (x ∷ xs) url = ground (arith, remove_at-rank xs url)

AllAbove-add_sorted :
    (y url : Bytes) (xs : List Bytes)
    → str_lt y url ≡ true
    → AllAbove y xs
    → AllAbove y (add_sorted url xs)
unfolding add_sorted
AllAbove-add_sorted y url [] h a = (h, tt)
AllAbove-add_sorted y url (x ∷ xs) h a = ground (arith, AllAbove-add_sorted y url xs h a.1)

IsSorted-add_sorted :
    (url : Bytes) (xs : List Bytes)
    → IsSorted xs
    → member url xs ≡ false
    → IsSorted (add_sorted url xs)
unfolding add_sorted member
IsSorted-add_sorted url [] s h = (tt, tt)
IsSorted-add_sorted url (x ∷ xs) s h = elim (Bool-cases (str_lt x url)) [
  | inl lower ↦
      rw lower
        (AllAbove-add_sorted x url xs lower s.0, IsSorted-add_sorted url xs s.1 (ground arith))
  | inr upper ↦
      let above = str_lt_total x url upper (ground arith) in
      rw upper ((above, AllAbove-trans url x xs above s.0), s)
]

AllAbove-remove_sorted :
    (y url : Bytes) (xs : List Bytes) → AllAbove y xs → AllAbove y (remove_sorted url xs)
unfolding remove_sorted
AllAbove-remove_sorted y url [] a = tt
AllAbove-remove_sorted y url (x ∷ xs) a = ground (arith, AllAbove-remove_sorted y url xs a.1)

IsSorted-remove_sorted :
    (url : Bytes) (xs : List Bytes) → IsSorted xs → IsSorted (remove_sorted url xs)
unfolding remove_sorted
IsSorted-remove_sorted url [] s = tt
IsSorted-remove_sorted url (x ∷ xs) s =
    ground (arith, AllAbove-remove_sorted x url xs s.0, IsSorted-remove_sorted url xs s.1)

member-add_sorted :
    (url j : Bytes) (xs : List Bytes) → member j (add_sorted url xs) ≡ (str_eq url j || member j xs)
unfolding add_sorted member
member-add_sorted url j [] = refl
member-add_sorted url j (x ∷ xs) = ground (arith, member-add_sorted url j xs)

member_head : (x : Bytes) (xs : List Bytes) → AllAbove x xs → member x xs ≡ false
unfolding member
member_head x [] a = refl
member_head x (y ∷ ys) a = rw (str_gt-str_eq x y a.0) (member_head x ys a.1)

str_eq-other : (x url j : Bytes) → str_eq x url ≡ false → str_eq x j ≡ true → str_eq url j ≡ false
str_eq-other x url j h e = rw (← str_eq→eq x j e, str_eq_comm url x) h

-- What removal takes away is the one string.
member-remove_sorted :
    (url j : Bytes) (xs : List Bytes)
    → IsSorted xs
    → member url xs ≡ true
    → member j (remove_sorted url xs) ≡ (not (str_eq url j) && member j xs)
unfolding remove_sorted member
member-remove_sorted url j [] s h = cc
member-remove_sorted url j (x ∷ xs) s h = elim (Bool-cases (str_lt x url)) [
  | inl lower ↦
      ground
        (arith, str_lt-str_eq x url lower, str_eq-other x url j, member-remove_sorted url j xs s.1)
  | inr upper ↦ elim (Bool-cases (str_eq x url)) [
    | inr other ↦ cc (member-AllAbove url x xs (str_lt_total x url upper other) s.0, rw other at h)
    | inl same ↦ rw upper (rw (← str_eq→eq x url same) (kept (Bool-cases (str_eq x j))))
  ]
]
  where
    kept :
        (str_eq x j ≡ true) ⊎ (str_eq x j ≡ false)
        → member j xs ≡ (not (str_eq x j) && (str_eq x j || member j xs))
    kept (inl e) = rw e (rw (← str_eq→eq x j e) (member_head x xs s.0))
    kept (inr e) = rw e

module _ (urls : List Bytes) (url : Bytes) (s : IsSorted urls) where
  pub insert_at-IsSorted : member url urls ≡ false → IsSorted (insert_at urls (rank url urls) url)
  insert_at-IsSorted h = rw (insert_at-rank urls url) (IsSorted-add_sorted url urls s h)

  pub remove_at-IsSorted : IsSorted (remove_at urls (rank url urls))
  remove_at-IsSorted = rw (remove_at-rank urls url) (IsSorted-remove_sorted url urls s)

  pub member-insert_at :
      (j : Bytes) → member j (insert_at urls (rank url urls) url) ≡ (str_eq url j || member j urls)
  member-insert_at j = rw (insert_at-rank urls url) (member-add_sorted url j urls)

  pub member-remove_at :
      (j : Bytes)
      → member url urls ≡ true
      → member j (remove_at urls (rank url urls)) ≡ (not (str_eq url j) && member j urls)
  member-remove_at j h = rw (remove_at-rank urls url) (member-remove_sorted url j urls s h)

length-add_sorted : (url : Bytes) (xs : List Bytes) → length (add_sorted url xs) ≡ length xs + 1
unfolding add_sorted
length-add_sorted url [] = refl
length-add_sorted url (x ∷ xs) = ground (arith, length-add_sorted url xs)

length-remove_sorted : (url : Bytes) (xs : List Bytes) → length (remove_sorted url xs) ≤ length xs
unfolding remove_sorted
length-remove_sorted url [] = omega arith
length-remove_sorted url (x ∷ xs) = ground (arith, length-remove_sorted url xs)

pub length-insert_at :
    (urls : List Bytes) (url : Bytes)
    → length (insert_at urls (rank url urls) url) ≡ length urls + 1
length-insert_at urls url = rw (insert_at-rank urls url) (length-add_sorted url urls)

pub length-remove_at :
    (urls : List Bytes) (url : Bytes) → length (remove_at urls (rank url urls)) ≤ length urls
length-remove_at urls url = rw (remove_at-rank urls url) (length-remove_sorted url urls)
