-- ===== src/Cache.antt =====
-- src/network.c: the cache of responses. `time` answers a number of seconds, an argument. `memory`
-- says whether the allocations of a call succeed.
pub mod Bounds
pub mod Hits
use tai_ci.Base.{
  ℕ, zero, suc, ◌+◌, ◌-◌, ◌*◌, Bool, true, false, not, ◌||◌, ◌&&◌, List, [], ◌∷◌, ◌++◌, Option,
  none, some, Bytes, codes, length, drop, ltb, leb, ◌==◌, if◌then◌else◌, str_eq, starts_with,
  split_first, split_on,
}
use tai_ci.Port.{value}
use tai_ci.Maps.{Map, tai_map_get}
use tai_ci.Cookies.{is_space, lower, cut}

pub record Response : Type 0 where
  pub status : ℕ
  pub headers : Map
  pub body : Bytes
  pub error : Option Bytes
  pub certificate_error : Bool

pub record Entry : Type 0 where
  pub key : Bytes
  pub response : Response
  pub expires : ℕ

-- What `cache_store` reads of a request: whether it has a payload and an origin, the key of its URL
-- and its response.
pub record Request : Type 0 where
  pub payload : Bool
  pub origin : Bool
  pub key : Bytes
  pub response : Response

-- The copy has no error text, and no certificate error.
unfoldable pub response_copy : Response → Response
response_copy r = record r { error = none; certificate_error = false }

unfoldable pub cache_find : ℕ → List Entry → Bytes → Option Response
cache_find now [] key = none
cache_find now (e ∷ es) key =
    if str_eq e.key key && ltb now e.expires then some e.response else cache_find now es key

unfoldable pub skip_spaces : Bytes → Bytes
skip_spaces [] = []
skip_spaces (c ∷ cs) = let rest = skip_spaces cs in if is_space c then rest else c ∷ cs

unfoldable pub is_digit : ℕ → Bool
is_digit c = leb 48 c && leb c 57

-- The digits that `strtol` reads, and where it stops.
unfoldable pub digits_of : Bytes → Bytes × Bytes
digits_of [] = ([], [])
digits_of (c ∷ cs) =
    let (digits, rest) = digits_of cs in if is_digit c then (c ∷ digits, rest) else ([], c ∷ cs)

-- The number behind "max-age=", or `none` where `age` stays -1: strtol fails above LONG_MAX.
unfoldable pub age_of : Bytes → Option ℕ
age_of num =
    let (digits, rest) = digits_of num in
    if length digits == 0
      || ltb 9223372036854775807 (value 0 digits)
      || not (length (skip_spaces rest) == 0)
    then none
    else some (value 0 digits)

-- The loop over the directives, for at most `fuel` rounds; the length of the text is enough.
unfoldable pub max_age : ℕ → Bytes → Option ℕ
max_age zero p = none
max_age (suc fuel) [] = none
max_age (suc fuel) (c ∷ cs) =
    let (part, rest) = cut 44 (c ∷ cs) in
    let directive = skip_spaces part in
    let later = max_age fuel rest in
    if starts_with directive (codes "max-age=") then age_of (drop 8 directive) else later

-- How long the response of a request may be kept.
unfoldable pub kept_for : Request → Option ℕ
kept_for q =
    if q.payload || q.origin || not (q.response.status == 200)
    then none
    else elim (tai_map_get q.response.headers (codes "cache-control")) [
      | none ↦ none
      | some text ↦ elim (split_on (codes "no-store") (lower text)) [
        | some _ ↦ none
        | none ↦ max_age (length (lower text)) (lower text)
      ]
    ]

abbrev pub max_lifetime : ℕ
max_lifetime = 315360000

abbrev pub max_bytes : ℕ
max_bytes = 67108864

-- The sum of the lengths of the bodies.
unfoldable pub total : List Entry → ℕ
total [] = 0
total (e ∷ es) = length e.response.body + total es

unfoldable pub put_entry : List Entry → Entry → List Entry
put_entry [] new = new ∷ []
put_entry (e ∷ es) new = if str_eq e.key new.key then new ∷ es else e ∷ put_entry es new

-- The cache that the new entry is put in.
unfoldable pub make_room : List Entry → Entry → List Entry
make_room entries new =
    if ltb max_bytes (length new.response.body + total entries) || ltb 64 (1 + length entries)
    then []
    else entries

unfoldable pub entry_of : ℕ → Request → ℕ → Entry
entry_of now q age = record {
  key = q.key;
  response = response_copy q.response;
  expires = now + (if ltb max_lifetime age then max_lifetime else age);
}

unfoldable pub cache_store : Bool → ℕ → List Entry → Request → List Entry
cache_store memory now entries q = if not memory then entries else elim (kept_for q) [
  | none ↦ entries
  | some age ↦ put_entry (make_room entries (entry_of now q age)) (entry_of now q age)
]
