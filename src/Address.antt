-- ===== src/Address.antt =====
-- src/session.c: what is typed in the address bar becomes a URL or a search.
pub mod Encoding
pub mod Searching
use tai_ci.Base.{
  ℕ, suc, ◌+◌, ◌-◌, ◌*◌, ◌/◌, ◌%◌, Bool, true, false, not, ◌||◌, ◌&&◌, List, [], ◌∷◌, ◌++◌, Option,
  none, some, Bytes, codes, length, drop, take, get_or, ltb, leb, ◌==◌, if◌then◌else◌, starts_with,
  size_max, split_on,
}
use tai_ci.Utf8.{Utf8proc, strip_loop}
use tai_ci.Url.{Url, is_scheme, has_prefix, tai_url_parse}

-- `strip` of src/url.c over again.
unfoldable pub trim_address : Utf8proc → Bytes → Bytes
trim_address U text =
    let (first, last) = strip_loop U (length text) text 0 0 0 in
    take (last - first) (drop first text)

unfoldable pub is_address_url : Bytes → Bool
is_address_url text =
    (elim (split_on (codes "://") text) [ none ↦ false | some _ ↦ true ])
    || has_prefix text "about:"
    || has_prefix text "data:"
    || has_prefix text "file:"
    || has_prefix text "view-source:"
    || has_prefix text "mailto:"

unfoldable pub query_byte : ℕ → Bool
query_byte c =
    leb 65 c && leb c 90
    || leb 97 c && leb c 122
    || leb 48 c && leb c 57
    || c == 95
    || c == 46
    || c == 45
    || c == 126

-- `text[11]` is the NUL, or one of `#`, `?` and `/`.
unfoldable pub ends_blank : Bytes → Bool
ends_blank [] = true
ends_blank (c ∷ cs) = c == 35 || c == 63 || c == 47

unfoldable pub explicit_about_blank : Bytes → Bool
explicit_about_blank text =
    let viewed = if has_prefix text "view-source:" then drop 12 text else text in
    has_prefix viewed "about:blank" && ends_blank (drop 11 viewed)

abbrev pub search_prefix : Bytes
search_prefix = codes "https://html.duckduckgo.com/html/?q="

-- hex[n]
unfoldable pub hex : ℕ → ℕ
hex n = get_or (codes "0123456789ABCDEF") n 0

unfoldable pub encode : Bytes → Bytes
encode [] = []
encode (c ∷ cs) =
    let rest = encode cs in
    if query_byte c
    then c ∷ rest
    else if c == 32
    then 43 ∷ rest
    else 37 ∷ hex (c / 16) ∷ hex (c % 16) ∷ rest

-- `malloc_ok` says whether the result can be allocated; sizeof(prefix) is 37.
unfoldable pub search_address : Bool → Bytes → Option Bytes
search_address malloc_ok text =
    if ltb ((size_max - 37) / 3) (length text)
    then none
    else if malloc_ok
    then some (search_prefix ++ encode text)
    else none

unfoldable pub is_blank : Url → Bool
is_blank url = is_scheme url.scheme "about" && is_scheme url.path "blank"

-- `memory` says whether every allocation succeeds.
unfoldable pub tai_session_normalize_address : Utf8proc → Bool → Option Bytes → Option Bytes
tai_session_normalize_address U memory none = none
tai_session_normalize_address U memory (some text) =
    let trimmed = trim_address U text in
    let candidate =
      if is_address_url trimmed then some trimmed else search_address memory trimmed in
    if memory
    then (elim (tai_url_parse U memory candidate) [
      | none ↦ none
      | some url ↦
          if is_blank url && not (explicit_about_blank trimmed) then none else some url.serialized
    ])
    else none
