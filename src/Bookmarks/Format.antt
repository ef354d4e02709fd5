-- ===== src/Bookmarks/Format.antt =====
-- The format of the bookmarks file of src/bookmarks.c: writing, then reading.
use mathlib.Core.List.{append_assoc, append-nil}
use tai_ci.Base.{
  ℕ, ◌+◌, ◌*◌, ◌≤◌, ◌<◌, ◌≡◌, refl, Bool, true, false, List, [], ◌∷◌, ◌++◌, Bytes, length, drop,
  length-append, take-length-append, drop-length-append, str_eq, str_eq_refl, arith, All,
}
use tai_ci.Urls.Search.{IsSorted}
use tai_ci.Bookmarks.{
  max_file_bytes, u32_max, file_magic, valid_url, read_u32, write_u32, write_items, file_bytes,
  regular, loaded, has_nul, ascends, stopped, parse_urls, load_file,
}

-- What the file can hold of a string: no NUL, a valid URL, a 32-bit length.
abbrev pub Storable : Bytes → Type 0
Storable url = (valid_url url ≡ true) × (has_nul url ≡ false) × (length url ≤ u32_max)

-- The strings `us` follow the strings `before` in ascending order.
abbrev pub Follow : List Bytes → List Bytes → Type 0
Follow before [] = Unit
Follow before (u ∷ us) = (ascends before u ≡ true) × Storable u × Follow (before ++ u ∷ []) us

read_u32-write_u32 : (n : ℕ) (rest : Bytes) → n ≤ u32_max → read_u32 (write_u32 n ++ rest) ≡ n
unfolding read_u32 write_u32
read_u32-write_u32 n rest h = omega arith

drop-write_u32 : (n : ℕ) (rest : Bytes) → drop 4 (write_u32 n ++ rest) ≡ rest
unfolding write_u32
drop-write_u32 n rest = refl

pub length-write_u32 : (n : ℕ) (rest : Bytes) → length (write_u32 n ++ rest) ≡ 4 + length rest
unfolding write_u32
length-write_u32 n rest = omega arith

valid_url-length : (url : Bytes) → valid_url url ≡ true → 0 < length url
unfolding valid_url str_eq
valid_url-length [] h = cc
valid_url-length (c ∷ cs) h = omega arith

parse_urls-write_items :
    (alloc : ℕ → Bool) (i : ℕ) (before us : List Bytes)
    → ((k : ℕ) → alloc k ≡ true)
    → Follow before us
    → parse_urls alloc i (length us) before (write_items us) ≡ stopped (before ++ us) []
unfolding parse_urls write_items
parse_urls-write_items alloc i before [] a f = rw append-nil
parse_urls-write_items alloc i before (u ∷ us) a f =
    rw
      (
        read_u32-write_u32 (length u) (u ++ write_items us) f.1.2,
        drop-write_u32 (length u) (u ++ write_items us),
        length-write_u32 (length u) (u ++ write_items us),
        take-length-append u (write_items us),
        drop-length-append u (write_items us),
      )
      (ground (
        arith,
        a i,
        length-append u (write_items us),
        valid_url-length u f.1.0,
        append_assoc before (u ∷ []) us,
        parse_urls-write_items alloc (i + 1) (before ++ u ∷ []) us a f.2,
      ))

-- What a file has to be for its bytes to stand for `us`.
abbrev pub FitsFile : List Bytes → Type 0
FitsFile us = (length us ≤ u32_max) × (length (file_bytes us) ≤ max_file_bytes)

length-write_items :
    (before us : List Bytes) → Follow before us → length us * 5 ≤ length (write_items us)
unfolding write_items
length-write_items before [] f = omega arith
length-write_items before (u ∷ us) f = omega (
  arith,
  length-write_u32 (length u) (u ++ write_items us),
  length-append u (write_items us),
  valid_url-length u f.1.0,
  length-write_items (before ++ u ∷ []) us f.2,
)

load_file-file_bytes :
    (alloc : ℕ → Bool) (us : List Bytes)
    → ((k : ℕ) → alloc k ≡ true)
    → Follow [] us
    → FitsFile us
    → load_file alloc (regular (file_bytes us)) ≡ loaded us
unfolding load_file file_bytes
load_file-file_bytes alloc us a f h =
    rw
      (
        length-write_u32 (length us) (write_items us),
        read_u32-write_u32 (length us) (write_items us) h.0,
        drop-write_u32 (length us) (write_items us),
        str_eq_refl file_magic,
      )
      (ground (
        arith,
        a 0,
        a 1,
        h.1,
        length-write_u32 (length us) (write_items us),
        length-write_items [] us f,
        parse_urls-write_items alloc 2 [] us a f,
      ))

ascends-IsSorted :
    (before : List Bytes) (u : Bytes) (us : List Bytes)
    → IsSorted (before ++ u ∷ us)
    → ascends before u ≡ true
unfolding ascends
ascends-IsSorted [] u us s = refl
ascends-IsSorted (x ∷ []) u us s = s.0.0
ascends-IsSorted (x ∷ y ∷ xs) u us s = ascends-IsSorted (y ∷ xs) u us s.1

IsSorted-Follow :
    (before us : List Bytes) → IsSorted (before ++ us) → All Storable us → Follow before us
IsSorted-Follow before [] s a = tt
IsSorted-Follow before (u ∷ us) s a = (
  ascends-IsSorted before u us s,
  a.0,
  IsSorted-Follow (before ++ u ∷ []) us (rw (append_assoc before (u ∷ []) us) s) a.1,
)

-- Round trip: a sorted list of storable URLs that fits the file is read back from what is written.
pub load_file-round_trip :
    (alloc : ℕ → Bool) (us : List Bytes)
    → ((k : ℕ) → alloc k ≡ true)
    → IsSorted us
    → All Storable us
    → FitsFile us
    → load_file alloc (regular (file_bytes us)) ≡ loaded us
load_file-round_trip alloc us a s f h =
    load_file-file_bytes alloc us a (IsSorted-Follow [] us s f) h
