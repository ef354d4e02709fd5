-- ===== src/Url.antt =====
-- src/url.c: the URL record, its parser, its serialization and the resolution of relative URLs.
-- Strings are lists of bytes without their NUL. `memory` says whether every allocation that a call
-- makes succeeds; where one fails the call frees what it made and answers NULL, which is `none`.
pub mod Resolve
pub mod Output
use tai_ci.Base.{
  ℕ, suc, zero, ◌+◌, ◌-◌, ◌*◌, ◌%◌, ◌^◌, Bool, true, false, not, ◌||◌, ◌&&◌, List, [], ◌∷◌, ◌++◌,
  Option, String, none, some, Bytes, codes, length, drop, take, ltb, leb, ◌==◌, if◌then◌else◌,
  str_eq, starts_with, split_first, split_last, split_on,
}
use tai_ci.Utf8.{Utf8proc, whitespace, strip}
use tai_ci.Port.{ℤ, pos, negsuc, port_of, decimal_port, minus_sign}

pub record Url : Type 0 where
  pub scheme : Bytes
  pub host : Bytes
  pub path : Bytes
  pub fragment : Bytes
  pub key : Bytes
  pub serialized : Bytes
  pub origin : Bytes
  pub port_text : Bytes
  pub port : ℤ
  pub view_source : Bool

-- The bytes of punctuation that the code looks for.
abbrev pub colon : ℕ
colon = 58

abbrev pub slash : ℕ
slash = 47

abbrev pub hash : ℕ
hash = 35

unfoldable pub is_scheme : Bytes → String → Bool
is_scheme scheme name = str_eq scheme (codes name)

unfoldable pub has_prefix : Bytes → String → Bool
has_prefix text prefix = starts_with text (codes prefix)

unfoldable pub tai_url_is_http : Url → Bool
tai_url_is_http u = is_scheme u.scheme "http" || is_scheme u.scheme "https"

unfoldable pub tai_url_is_external : Url → Bool
tai_url_is_external u = is_scheme u.scheme "mailto"

unfoldable pub supported : Bytes → Bool
supported s =
    is_scheme s "http"
    || is_scheme s "https"
    || is_scheme s "file"
    || is_scheme s "data"
    || is_scheme s "about"
    || is_scheme s "mailto"

abbrev is_pos : ℤ → ℕ → Bool
is_pos (pos n) m = n == m
is_pos (negsuc n) m = false

unfoldable pub default_port : Url → Bool
default_port u =
    is_scheme u.scheme "http" && is_pos u.port 80 || is_scheme u.scheme "https" && is_pos u.port 443

abbrev pub join : Bytes → Bytes → Bytes → Bytes
join a b c = a ++ (b ++ c)

-- `base` of `finalize`.
unfoldable pub serialized_base : Url → Bytes
serialized_base u =
    if is_scheme u.scheme "mailto"
    then codes "mailto:" ++ u.path
    else if u.view_source
    then codes "view-source:" ++ u.key
    else if is_scheme u.scheme "about"
    then codes "about:" ++ u.path
    else if is_scheme u.scheme "data"
    then codes "data:" ++ u.path
    else if is_scheme u.scheme "file"
    then codes "file://" ++ u.path
    else join (join u.scheme (codes "://") u.host)
        (if default_port u then [] else colon ∷ u.port_text) u.path

unfoldable pub with_fragment : Url → Bytes → Bytes
with_fragment u base =
    if is_scheme u.scheme "mailto"
    then base
    else (elim u.fragment [ [] ↦ base | c ∷ cs ↦ base ++ hash ∷ c ∷ cs ])

unfoldable pub finalize : Url → Url
finalize u = record u {
  origin = join u.scheme (codes "://") u.host ++ colon ∷ u.port_text;
  serialized = with_fragment u (serialized_base u);
}

-- The fields before parsing.
abbrev pub blank_url : Bytes → Url
blank_url text = record {
  scheme = [];
  host = [];
  path = [];
  fragment = [];
  key = text;
  serialized = [];
  origin = [];
  port_text = codes "0";
  port = pos 0;
  view_source = false;
}

unfoldable pub fallback : Url → Url
fallback u = record u { scheme = codes "about"; path = codes "blank"; key = codes "about:blank" }

-- The path of `host` and `path` together, and its default.
unfoldable pub split_path : Bytes → Bytes × Bytes
split_path s = elim (split_first slash s) [
  | none ↦ (s, codes "/")
  | some (host, path) ↦ (host, slash ∷ path)
]

abbrev pub with_key : Url → Url
with_key u = record u {
  key = join u.scheme (codes "://") u.host ++ join (colon ∷ u.port_text) u.path [];
}

module _ (U : Utf8proc) where
  -- The branch of http and https, with the text behind "://".
  unfoldable pub parse_http : Url → Bytes → Url
  parse_http u s =
      let plain = is_scheme u.scheme "http" in
      let (authority, path) = split_path s in
      let v = record u {
        port = pos (if plain then 80 else 443);
        port_text = if plain then codes "80" else codes "443";
        path = path;
        host = authority;
      } in
      elim (split_first colon authority) [
        | none ↦ with_key v
        | some (host, number) ↦ elim (decimal_port U number) [
          | none ↦ fallback (record v { host = host })
          | some digits ↦
              with_key (record v { host = host; port_text = digits; port = port_of digits })
        ]
      ]

  unfoldable pub parse_hierarchical : Url → Bytes → Url
  parse_hierarchical u s =
      if not (supported u.scheme)
      then fallback u
      else if tai_url_is_http u
      then parse_http u s
      else record u { path = if is_scheme u.scheme "file" then s else u.path; key = s }

  -- From the tests of the schemes on; `s` has neither "view-source:" nor the fragment.
  unfoldable pub parse_scheme : Url → Bytes → Url
  parse_scheme u s =
      if has_prefix s "about:" || has_prefix s "mailto:"
      then (elim (split_first colon s) [
        | none ↦ u
        | some (scheme, path) ↦ record u { key = s; scheme = scheme; path = path }
      ])
      else if has_prefix s "data:"
      then record u { scheme = codes "data"; path = drop 5 s; key = s }
      else elim (split_on (codes "://") s) [
        | none ↦ fallback u
        | some (scheme, rest) ↦ parse_hierarchical (record u { scheme = scheme }) rest
      ]

  unfoldable pub parse_fragment : Url → Bytes → Url
  parse_fragment u s = elim (split_first hash s) [
    | none ↦ parse_scheme u s
    | some (before, fragment) ↦ parse_scheme (record u { fragment = fragment }) before
  ]

  unfoldable pub parse : Bytes → Url
  parse text =
      let viewed = has_prefix text "view-source:" in
      finalize (
        parse_fragment (record (blank_url text) { view_source = viewed })
          (if viewed then drop 12 text else text))

  unfoldable pub tai_url_parse : Bool → Option Bytes → Option Url
  tai_url_parse memory none = none
  tai_url_parse memory (some text) = if memory then some (parse text) else none
