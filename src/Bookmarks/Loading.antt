-- ===== src/Bookmarks/Loading.antt =====
-- `load_file` of src/bookmarks.c: which files it accepts.
use mathlib.Core.List.{append_assoc, append-nil}
use tai_ci.Base.{
  ℕ, zero, suc, ◌+◌, ◌≤◌, ◌≡◌, ◌∙◌, refl, sym, ap, inl, inr, Bool, true, not, ◌||◌, List, [], ◌∷◌,
  ◌++◌, Bytes, IsByte, length, take, drop, length-append, length-drop, length-drop, length-drop,
  ltb, str_lt, str_lt_trans, str_eq→eq, arith, Bool-cases, All,
}
use tai_ci.Urls.Search.{IsSorted, AllAbove}
use tai_ci.Bookmarks.Format.{Storable, Follow}
use tai_ci.Bookmarks.{
  max_file_bytes, u32_max, file_magic, valid_url, read_u32, write_u32, write_items, file_bytes,
  regular, loaded, ascends, Parsed, stopped, no_memory, bad_length, parse_urls, check_end,
  load_file,
}

write_u32-read_u32 :
    (rest : Bytes)
    → 4 ≤ length rest
    → All IsByte rest
    → write_u32 (read_u32 rest) ++ drop 4 rest ≡ rest
unfolding write_u32 read_u32
write_u32-read_u32 (a ∷ b ∷ c ∷ d ∷ rest) h k = ground arith
write_u32-read_u32 (a ∷ b ∷ c ∷ []) h k = absurd (omega arith)
write_u32-read_u32 (a ∷ b ∷ []) h k = absurd (omega arith)
write_u32-read_u32 (a ∷ []) h k = absurd (omega arith)
write_u32-read_u32 [] h k = absurd (omega arith)

read_u32-le : (rest : Bytes) → All IsByte rest → read_u32 rest ≤ u32_max
unfolding read_u32
read_u32-le (a ∷ b ∷ c ∷ d ∷ rest) k = omega arith
read_u32-le (a ∷ b ∷ c ∷ []) k = omega arith
read_u32-le (a ∷ b ∷ []) k = omega arith
read_u32-le (a ∷ []) k = omega arith
read_u32-le [] k = omega arith

All-drop : (n : ℕ) (rest : Bytes) → All IsByte rest → All IsByte (drop n rest)
All-drop zero rest a = a
All-drop (suc n) [] a = tt
All-drop (suc n) (c ∷ rest) a = All-drop n rest a.1

take-append-drop : (n : ℕ) (l : Bytes) → take n l ++ drop n l ≡ l
take-append-drop zero l = refl
take-append-drop (suc n) [] = refl
take-append-drop (suc n) (c ∷ l) = ap (λ r. c ∷ r) (take-append-drop n l)

length-take_le : (n : ℕ) (l : Bytes) → n ≤ length l → length (take n l) ≡ n
length-take_le zero l h = refl
length-take_le (suc n) [] h = absurd (omega arith)
length-take_le (suc n) (c ∷ l) h = omega (arith, length-take_le n l)

-- What a loop that read all `left` strings has read.
record Reads (left : ℕ) (before urls : List Bytes) (rest after : Bytes) : Type 0 where
  us : List Bytes
  all_read : urls ≡ before ++ us
  follow : Follow before us
  bytes : rest ≡ write_items us ++ after
  count : length us ≡ left

reassemble :
    (rest after : Bytes) (us : List Bytes)
    → 4 ≤ length rest
    → read_u32 rest ≤ length (drop 4 rest)
    → All IsByte rest
    → drop (read_u32 rest) (drop 4 rest) ≡ write_items us ++ after
    → rest ≡ write_items (take (read_u32 rest) (drop 4 rest) ∷ us) ++ after
unfolding write_items
reassemble rest after us long fits b e = sym (
    rw (length-take_le (read_u32 rest) (drop 4 rest) fits) (
      append_assoc (write_u32 (read_u32 rest))
        (take (read_u32 rest) (drop 4 rest) ++ write_items us) after
      ∙ ap (λ t. write_u32 (read_u32 rest) ++ t)
          (append_assoc (take (read_u32 rest) (drop 4 rest)) (write_items us) after
            ∙ ap (λ t. take (read_u32 rest) (drop 4 rest) ++ t) (sym e)
            ∙ take-append-drop (read_u32 rest) (drop 4 rest))
      ∙ write_u32-read_u32 rest long b))

parse_urls-Reads :
    (alloc : ℕ → Bool) (i left : ℕ) (before urls : List Bytes) (rest after : Bytes)
    → parse_urls alloc i left before rest ≡ stopped urls after
    → length urls ≡ length before + left
    → All IsByte rest
    → Reads left before urls rest after
unfolding parse_urls
parse_urls-Reads alloc i zero before urls rest after e n b = record {
  us = [];
  all_read = ground (arith, append-nil before);
  follow = tt;
  bytes = unfold write_items in ground arith;
  count = refl;
}
parse_urls-Reads alloc i (suc left) before urls rest after e n b =
    let len = read_u32 rest in
    let tail = drop 4 rest in
    let url = take len tail in
    elim (Bool-cases (ltb (length rest) 4)) [
      | inl short ↦ absurd (ground arith)
      | inr long ↦ elim (Bool-cases (bad_length len tail)) [
        | inl bad ↦ absurd (ground arith)
        | inr good ↦ elim (Bool-cases (alloc i)) [
          | inr out ↦ absurd (ground arith)
          | inl ok ↦ elim (Bool-cases (not (valid_url url) || not (ascends before url))) [
            | inl bad ↦ absurd (ground arith)
            | inr fine ↦
                let r =
                  parse_urls-Reads alloc (i + 1) left (before ++ url ∷ []) urls (drop len tail)
                    after (ground arith) (omega (arith, length-append before (url ∷ [])))
                    (All-drop len tail (All-drop 4 rest b)) in
                record {
                  us = url ∷ r.us;
                  all_read = r.all_read ∙ append_assoc before (url ∷ []) r.us;
                  follow = (
                    ground arith,
                    (
                      ground arith,
                      ground arith,
                      omega (arith, read_u32-le rest b, length-take_le len tail (ground arith)),
                    ),
                    r.follow,
                  );
                  bytes = reassemble rest after r.us (ground arith) (ground arith) b r.bytes;
                  count = omega (arith, r.count);
                }
          ]
        ]
      ]
    ]

Follow-Storable : (before us : List Bytes) → Follow before us → All Storable us
Follow-Storable before [] f = tt
Follow-Storable before (u ∷ us) f = (f.1, Follow-Storable (before ++ u ∷ []) us f.2)

ascends-str_lt :
    (x u : Bytes) (xs : List Bytes)
    → IsSorted (x ∷ xs)
    → ascends (x ∷ xs) u ≡ true
    → str_lt x u ≡ true
unfolding ascends
ascends-str_lt x u [] s a = a
ascends-str_lt x u (y ∷ ys) s a = str_lt_trans x y u s.0.0 (ascends-str_lt y u ys s.1 a)

AllAbove-snoc :
    (x u : Bytes) (xs : List Bytes) → AllAbove x xs → str_lt x u ≡ true → AllAbove x (xs ++ u ∷ [])
AllAbove-snoc x u [] a h = (h, tt)
AllAbove-snoc x u (y ∷ ys) a h = (a.0, AllAbove-snoc x u ys a.1 h)

IsSorted-snoc :
    (u : Bytes) (xs : List Bytes) → IsSorted xs → ascends xs u ≡ true → IsSorted (xs ++ u ∷ [])
unfolding ascends
IsSorted-snoc u [] s a = (tt, tt)
IsSorted-snoc u (x ∷ []) s a = ((a, tt), (tt, tt))
IsSorted-snoc u (x ∷ y ∷ ys) s a = (
  AllAbove-snoc x u (y ∷ ys) s.0 (ascends-str_lt x u (y ∷ ys) s a),
  IsSorted-snoc u (y ∷ ys) s.1 a,
)

Follow-IsSorted :
    (before us : List Bytes) → IsSorted before → Follow before us → IsSorted (before ++ us)
Follow-IsSorted before [] s f = rw append-nil s
Follow-IsSorted before (u ∷ us) s f =
    rw (append_assoc before (u ∷ []) us) at
      (Follow-IsSorted (before ++ u ∷ []) us (IsSorted-snoc u before s f.0) f.2)

-- The tests that an accepted file has passed.
record Accepted (alloc : ℕ → Bool) (bytes : Bytes) (urls : List Bytes) : Type 0 where
  long : 12 ≤ length bytes
  small : length bytes ≤ max_file_bytes
  magic : take 8 bytes ≡ file_magic
  parsed : parse_urls alloc 2 (read_u32 (drop 8 bytes)) [] (drop 12 bytes) ≡ stopped urls []
  count : length urls ≡ read_u32 (drop 8 bytes)

length_zero : (l : Bytes) → length l ≡ 0 → l ≡ []
length_zero [] h = refl
length_zero (c ∷ l) h = absurd (omega arith)

check_end-stopped :
    (count : ℕ) (p : Parsed) (urls : List Bytes)
    → check_end count p ≡ loaded urls
    → (p ≡ stopped urls []) × (length urls ≡ count)
check_end-stopped count no_memory urls e = cc
check_end-stopped count (stopped us rest) urls e = ground (arith, length_zero rest)

load_file-Accepted :
    (alloc : ℕ → Bool) (bytes : Bytes) (urls : List Bytes)
    → load_file alloc (regular bytes) ≡ loaded urls
    → Accepted alloc bytes urls
unfolding load_file
load_file-Accepted alloc bytes urls e =
    let (parsed, count) =
      check_end-stopped (read_u32 (drop 8 bytes))
        (parse_urls alloc 2 (read_u32 (drop 8 bytes)) [] (drop 12 bytes)) urls (ground arith) in
    record {
      long = ground arith;
      small = ground arith;
      magic = str_eq→eq (take 8 bytes) file_magic (ground arith);
      parsed = parsed;
      count = count;
    }

drop-nil : (n : ℕ) → drop {A = ℕ} n [] ≡ []
drop-nil zero = refl
drop-nil (suc n) = refl

drop-drop : (m n k : ℕ) (l : Bytes) → n + m ≡ k → drop m (drop n l) ≡ drop k l
drop-drop m zero k l e = let same : m ≡ k = omega arith in rw same
drop-drop m (suc n) k [] e = drop-nil m ∙ sym (drop-nil k)
drop-drop m (suc n) zero (c ∷ l) e = absurd (omega arith)
drop-drop m (suc n) (suc k) (c ∷ l) e = drop-drop m n k l (omega arith)

header_bytes :
    (bytes body : Bytes)
    → 12 ≤ length bytes
    → All IsByte bytes
    → take 8 bytes ≡ file_magic
    → drop 12 bytes ≡ body
    → bytes ≡ file_magic ++ (write_u32 (read_u32 (drop 8 bytes)) ++ body)
header_bytes bytes body long b magic e = sym (
    ap (λ t. t ++ (write_u32 (read_u32 (drop 8 bytes)) ++ body)) (sym magic)
    ∙ ap (λ t. take 8 bytes ++ (write_u32 (read_u32 (drop 8 bytes)) ++ t))
        (sym e ∙ sym (drop-drop 4 8 12 bytes refl))
    ∙ ap (λ t. take 8 bytes ++ t)
        (write_u32-read_u32 (drop 8 bytes) (omega (arith, length-drop 8 bytes))
          (All-drop 8 bytes b))
    ∙ take-append-drop 8 bytes)

-- Nothing but what `tai_bookmarks_toggle` could have written is accepted: a file that loads is
-- byte for byte the file of the list that it loads as, and that list is sorted and has only
-- storable URLs.
pub load_file-canonical :
    (alloc : ℕ → Bool) (bytes : Bytes) (urls : List Bytes)
    → All IsByte bytes
    → load_file alloc (regular bytes) ≡ loaded urls
    → (bytes ≡ file_bytes urls) × IsSorted urls × All Storable urls
unfolding file_bytes
load_file-canonical alloc bytes urls b e =
    let a = load_file-Accepted alloc bytes urls e in
    let r =
      parse_urls-Reads alloc 2 (read_u32 (drop 8 bytes)) [] urls (drop 12 bytes) [] a.parsed
        (omega (arith, a.count)) (All-drop 12 bytes b) in
    let all : r.us ≡ urls = sym r.all_read in
    (
      rw a.count (
          header_bytes bytes (write_items urls) a.long b a.magic
            (r.bytes ∙ append-nil (write_items r.us) ∙ ap write_items all)),
      rw all at (Follow-IsSorted [] r.us tt r.follow),
      rw all at (Follow-Storable [] r.us r.follow),
    )
