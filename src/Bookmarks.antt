-- ===== src/Bookmarks.antt =====
-- src/bookmarks.c: the bookmark collection, sorted like the visited set, and the file that it is
-- kept in. `urls` and `capacity` are the array, `path` is the file's path, if there is one. What an
-- allocation or a call of the operating system answers is a Boolean argument.
pub mod Format
pub mod Loading
pub mod Candidate
pub mod Toggling
use tai_ci.Base.{
  ℕ, zero, suc, ◌+◌, ◌-◌, ◌*◌, ◌/◌, ◌%◌, Bool, true, false, not, ◌&&◌, ◌||◌, List, [], ◌∷◌, ◌++◌,
  Option, none, some, Bytes, codes, length, get_or, take, drop, max_pointers, ltb, leb, ◌==◌,
  str_eq, str_lt, if◌then◌else◌,
}
use tai_ci.Urls.Search.{lower_loop}
use tai_ci.Urls.Sorted.{holds_at, insert_at, remove_at}

pub record Bookmarks : Type 0 where
  pub urls : List Bytes
  pub capacity : ℕ
  pub path : Option Bytes

abbrev pub max_file_bytes : ℕ
max_file_bytes = 16777216

abbrev pub u32_max : ℕ
u32_max = 4294967295

abbrev pub file_magic : Bytes
file_magic = b'T' ∷ b'A' ∷ b'I' ∷ b'B' ∷ b'K' ∷ b'M' ∷ b'1' ∷ b'\n' ∷ []

abbrev pub empty : Bookmarks
empty = record { urls = []; capacity = 0; path = none }

unfoldable pub tai_bookmarks_create : Bool → Option Bookmarks
tai_bookmarks_create malloc_ok = if malloc_ok then some empty else none

unfoldable pub valid_url : Bytes → Bool
valid_url url =
    not (str_eq url [])
    && not (str_eq url (codes "about:blank"))
    && not (str_eq url (codes "about:bookmarks"))

unfoldable pub lower_bound : Bookmarks → Bytes → ℕ
lower_bound b url = lower_loop b.urls url (length b.urls) 0 (length b.urls)

unfoldable pub tai_bookmarks_contains : Option Bookmarks → Option Bytes → Bool
tai_bookmarks_contains none url = false
tai_bookmarks_contains (some b) none = false
tai_bookmarks_contains (some b) (some url) =
    valid_url url && holds_at b.urls url (lower_bound b url)

-- Four bytes, the lowest first. The bytes are below 256, so `|` of the shifted bytes is their sum.
unfoldable pub read_u32 : Bytes → ℕ
read_u32 bytes =
    get_or bytes 0 0
    + get_or bytes 1 0 * 256
    + get_or bytes 2 0 * 65536
    + get_or bytes 3 0 * 16777216

unfoldable pub write_u32 : ℕ → Bytes
write_u32 number =
    number % 256 ∷ (number / 256) % 256 ∷ (number / 65536) % 256 ∷ (number / 16777216) % 256 ∷ []

-- The i-th string of the list that a toggle leaves.
unfoldable pub candidate_item : List Bytes → Bytes → ℕ → Bool → ℕ → Bytes
candidate_item urls url index true i =
    if ltb i index then get_or urls i [] else (if i == index then url else get_or urls (i - 1) [])
candidate_item urls url index false i = get_or urls (if ltb i index then i else i + 1) []

-- f(first), f(first + 1), ..., n of them
unfoldable pub tabulate : ℕ → ℕ → (ℕ → Bytes) → List Bytes
tabulate zero first f = []
tabulate (suc n) first f = f first ∷ tabulate n (first + 1) f

unfoldable pub next_count : List Bytes → Bool → ℕ
next_count urls adding = if adding then length urls + 1 else length urls - 1

-- The loop that adds up the file's size, with its limits.
unfoldable pub file_size : ℕ → List Bytes → Option ℕ
file_size total [] = some total
file_size total (item ∷ items) =
    let rest = file_size (total + (4 + length item)) items in
    if ltb u32_max (length item)
      || ltb (max_file_bytes - 4) total
      || ltb (max_file_bytes - total - 4) (length item)
    then none
    else rest

unfoldable pub write_items : List Bytes → Bytes
write_items [] = []
write_items (item ∷ items) = write_u32 (length item) ++ (item ++ write_items items)

-- The bytes that are written to the temporary file.
unfoldable pub file_bytes : List Bytes → Bytes
file_bytes items = file_magic ++ (write_u32 (length items) ++ write_items items)

pub data Persisted : Type 0 where
  in_memory : Persisted
  failed : Persisted
  renamed : Bytes → Persisted

-- `io_ok` says whether every call up to the renaming succeeds; where it does not, the temporary file
-- is removed and the bookmarks file stays as it was.
unfoldable pub persist_items : Bool → Option Bytes → ℕ → List Bytes → Persisted
persist_items io_ok none count items = in_memory
persist_items io_ok (some path) count items =
    if ltb u32_max count then failed else (elim (file_size 12 items) [
      | none ↦ failed
      | some total ↦ if io_ok then renamed (file_bytes items) else failed
    ])

unfoldable pub persist_candidate : Bool → Bookmarks → Bytes → ℕ → Bool → Persisted
persist_candidate io_ok b url index adding =
    let count = next_count b.urls adding in
    persist_items io_ok b.path count (tabulate count 0 (candidate_item b.urls url index adding))

pub record Toggled : Type 0 where
  pub after : Bookmarks
  -- `*now_bookmarked`, or `none` where the call returns false
  pub now_bookmarked : Option Bool
  -- the new contents of the bookmarks file, if it was replaced
  pub written : Option Bytes

abbrev pub written_by : Persisted → Option Bytes
written_by in_memory = none
written_by failed = none
written_by (renamed bytes) = some bytes

abbrev pub has_failed : Persisted → Bool
has_failed failed = true
has_failed p = false

unfoldable pub next_capacity : ℕ → ℕ
next_capacity capacity =
    let next = if ltb capacity (max_pointers / 2) then capacity * 2 else max_pointers in
    if ltb next 4 then 4 else next

-- The capacity for one more string, or `none` where the array cannot grow.
unfoldable pub grow : Bool → Bookmarks → Option ℕ
grow realloc_ok b =
    if length b.urls == b.capacity
    then (if length b.urls == max_pointers
        then none
        else (if realloc_ok then some (next_capacity b.capacity) else none))
    else some b.capacity

abbrev pub unchanged : Bookmarks → Toggled
unchanged b = record { after = b; now_bookmarked = none; written = none }

unfoldable pub remove_url : Bool → Bookmarks → Bytes → ℕ → Toggled
remove_url io_ok b url index =
    let p = persist_candidate io_ok b url index false in
    if has_failed p then unchanged b else record {
      after = record b { urls = remove_at b.urls index };
      now_bookmarked = some false;
      written = written_by p;
    }

unfoldable pub add_url : Bool → Bool → Bool → Bookmarks → Bytes → ℕ → Toggled
add_url malloc_ok realloc_ok io_ok b url index =
    if malloc_ok
    then (elim (grow realloc_ok b) [
      | none ↦ unchanged b
      | some capacity ↦
          let grown = record b { capacity = capacity } in
          let p = persist_candidate io_ok grown url index true in
          if has_failed p then unchanged grown else record {
            after = record grown { urls = insert_at b.urls index url };
            now_bookmarked = some true;
            written = written_by p;
          }
    ])
    else unchanged b

unfoldable pub tai_bookmarks_toggle : Bool → Bool → Bool → Bookmarks → Bytes → Toggled
tai_bookmarks_toggle malloc_ok realloc_ok io_ok b url =
    let index = lower_bound b url in
    if not (valid_url url)
    then unchanged b
    else if holds_at b.urls url index
    then remove_url io_ok b url index
    else add_url malloc_ok realloc_ok io_ok b url index

-- What opening and reading the file shows.
pub data File : Type 0 where
  missing : File
  unopened : File
  irregular : File
  regular : Bytes → File

pub data LoadError : Type 0 where
  cannot_open invalid_file out_of_memory : LoadError

pub data Loaded : Type 0 where
  loaded : List Bytes → Loaded
  load_error : LoadError → Loaded

unfoldable pub has_nul : Bytes → Bool
has_nul [] = false
has_nul (c ∷ cs) = c == 0 || has_nul cs

-- The last string so far is below the next one.
unfoldable pub ascends : List Bytes → Bytes → Bool
ascends [] url = true
ascends (x ∷ []) url = str_lt x url
ascends (x ∷ y ∷ xs) url = ascends (y ∷ xs) url

pub data Parsed : Type 0 where
  stopped : List Bytes → Bytes → Parsed
  no_memory : Parsed

abbrev bad_length : ℕ → Bytes → Bool
bad_length n rest = n == 0 || ltb (length rest) n || has_nul (take n rest)

-- The loop over `count` strings, on the rounds left: the strings read so far and the bytes from
-- `position` on; a `break` stops it. `alloc i` says whether the i-th string can be allocated.
unfoldable pub parse_urls : (ℕ → Bool) → ℕ → ℕ → List Bytes → Bytes → Parsed
parse_urls alloc i zero urls rest = stopped urls rest
parse_urls alloc i (suc left) urls rest =
    let n = read_u32 rest in
    let after = drop 4 rest in
    let url = take n after in
    let next = parse_urls alloc (i + 1) left (urls ++ url ∷ []) (drop n after) in
    if ltb (length rest) 4
    then stopped urls rest
    else if bad_length n after
    then stopped urls after
    else if not (alloc i)
    then no_memory
    else if not (valid_url url) || not (ascends urls url)
    then stopped urls after
    else next

-- `bookmarks->count != count || position != file_size`
abbrev check_end : ℕ → Parsed → Loaded
check_end count no_memory = load_error out_of_memory
check_end count (stopped urls rest) =
    if not (length urls == count) || not (length rest == 0)
    then load_error invalid_file
    else loaded urls

abbrev parse_body : (ℕ → Bool) → ℕ → Bytes → Loaded
parse_body alloc count body =
    if ltb (length body / 5) count
    then load_error invalid_file
    else if not (count == 0) && not (alloc 1)
    then load_error out_of_memory
    else check_end count (parse_urls alloc 2 count [] body)

-- `alloc 0` is the buffer of the file, `alloc 1` the array, `alloc (2 + i)` the i-th string.
unfoldable pub load_file : (ℕ → Bool) → File → Loaded
load_file alloc missing = loaded []
load_file alloc unopened = load_error cannot_open
load_file alloc irregular = load_error invalid_file
load_file alloc (regular bytes) =
    if ltb (length bytes) 12 || ltb max_file_bytes (length bytes)
    then load_error invalid_file
    else if not (alloc 0)
    then load_error out_of_memory
    else if not (str_eq (take 8 bytes) file_magic)
    then load_error invalid_file
    else parse_body alloc (read_u32 (drop 8 bytes)) (drop 12 bytes)
