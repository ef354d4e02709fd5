-- ===== src/Address/Searching.antt =====
-- What src/session.c makes of a typed text that is no URL.
use tai_ci.Base.{
  ◌-◌, ◌/◌, ◌≤◌, ◌≡◌, refl, ap, true, false, [], ◌++◌, some, Bytes, IsByte, codes, arith, length,
  drop, All, All-take, All-drop, ltb, size_max, str_eq, starts_with, split_first, split_on, lacks,
  split_first-lacks,
}
use tai_ci.Utf8.{Utf8proc, strip_loop}
use tai_ci.Url.{
  Url, blank_url, parse, parse_fragment, parse_scheme, parse_hierarchical, parse_http, split_path,
  supported, is_scheme, has_prefix, tai_url_is_http, finalize, with_fragment, serialized_base,
  default_port, tai_url_parse,
}
use tai_ci.Port.{pos}
use tai_ci.Address.{
  trim_address, is_address_url, search_prefix, encode, search_address, is_blank,
  tai_session_normalize_address,
}
use tai_ci.Address.Encoding.{decode, decode-encode, lacks-encode}

-- The text behind "https://".
abbrev behind : Bytes → Bytes
behind query = codes "html.duckduckgo.com/html/?q=" ++ query

-- The fields of a search URL, on what they were before.
abbrev searched : Url → Bytes → Url
searched u query = record u {
  scheme = codes "https";
  host = codes "html.duckduckgo.com";
  path = codes "/html/?q=" ++ query;
  port = pos 443;
  port_text = codes "443";
  key = codes "https://html.duckduckgo.com:443/html/?q=" ++ (query ++ []);
}

parse_http-behind :
    (U : Utf8proc) (u : Url) (query : Bytes)
    → parse_http U (record u { scheme = codes "https" }) (behind query) ≡ searched u query
unfolding parse_http split_path split_first is_scheme str_eq
parse_http-behind U u query = refl

parse_hierarchical-behind :
    (U : Utf8proc) (u : Url) (query : Bytes)
    → parse_hierarchical U (record u { scheme = codes "https" }) (behind query) ≡ searched u query
unfolding parse_hierarchical supported tai_url_is_http is_scheme str_eq
parse_hierarchical-behind U u query = parse_http-behind U u query

parse_scheme-search_prefix :
    (U : Utf8proc) (u : Url) (query : Bytes)
    → parse_scheme U u (search_prefix ++ query) ≡ searched u query
unfolding parse_scheme has_prefix split_on starts_with
parse_scheme-search_prefix U u query = parse_hierarchical-behind U u query

parse_fragment-search_prefix :
    (U : Utf8proc) (u : Url) (query : Bytes)
    → lacks 35 query ≡ true
    → parse_fragment U u (search_prefix ++ query) ≡ searched u query
unfolding parse_fragment lacks
parse_fragment-search_prefix U u query h =
    rw (parse_fragment, split_first-lacks 35 (search_prefix ++ query) h)
      (parse_scheme-search_prefix U u query)

parse-searched :
    (U : Utf8proc) (query : Bytes)
    → lacks 35 query ≡ true
    → parse U (search_prefix ++ query)
      ≡ finalize (searched (blank_url (search_prefix ++ query)) query)
unfolding parse has_prefix starts_with
parse-searched U query h =
    ap finalize (parse_fragment-search_prefix U (blank_url (search_prefix ++ query)) query h)

-- A search URL parses to itself, on the search engine's host.
pub parse-search_prefix :
    (U : Utf8proc) (query : Bytes)
    → lacks 35 query ≡ true
    → ((parse U (search_prefix ++ query)).serialized ≡ search_prefix ++ query)
      × ((parse U (search_prefix ++ query)).host ≡ codes "html.duckduckgo.com")
      × (is_blank (parse U (search_prefix ++ query)) ≡ false)
unfolding finalize with_fragment serialized_base default_port is_scheme str_eq is_blank
parse-search_prefix U query h = rw (parse-searched U query h) (refl, refl, refl)

All-trim_address :
    (U : Utf8proc) (text : Bytes) → All IsByte text → All IsByte (trim_address U text)
unfolding trim_address
All-trim_address U text h =
    let ends = strip_loop U (length text) text 0 0 0 in
    All-take IsByte (ends.1 - ends.0) (drop ends.0 text) (All-drop IsByte ends.0 text h)

search_address_made :
    (text : Bytes)
    → length text ≤ (size_max - 37) / 3
    → search_address true text ≡ some (search_prefix ++ encode text)
unfolding search_address
search_address_made text h =
    let e : ltb ((size_max - 37) / 3) (length text) ≡ false = ground arith in simp e

-- A text whose trimmed form is no URL, and not too long, is normalized to the search URL whose query
-- decodes to the trimmed text, if no allocation fails.
pub normalize_address-search :
    (U : Utf8proc) (text : Bytes)
    → All IsByte text
    → is_address_url (trim_address U text) ≡ false
    → length (trim_address U text) ≤ (size_max - 37) / 3
    → (query : Bytes) × (tai_session_normalize_address U true (some text)
        ≡ some (search_prefix ++ query))
      × (decode query ≡ trim_address U text)
unfolding tai_session_normalize_address tai_url_parse
normalize_address-search U text b none_of_these short =
    let trimmed = trim_address U text in
    let safe = All-trim_address U text b in
    let (same, _, full) = parse-search_prefix U (encode trimmed) (lacks-encode trimmed safe) in
    (
      encode trimmed,
      rw (none_of_these, search_address_made trimmed short, full, same) refl,
      decode-encode trimmed safe,
    )
