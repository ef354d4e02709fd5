-- ===== src/Tests/SessionRuns.antt =====
-- Runs of src/session.c and src/url.c on ASCII text, where a page is its URL and loads at once.
use tai_ci.Base.{
  ℕ, ◌≡◌, ◌≤◌, String, refl, true, false, ◌&&◌, [], ◌∷◌, ◌++◌, Option, none, some, Bytes, codes,
  arith, length, leb, ◌==◌, ◌||◌, str_eq, starts_with, split_first, split_last, split_on, inl,
}
use tai_ci.Utf8.{Utf8proc, IsUtf8proc, whitespace, character, strip_loop, strip}
use tai_ci.Port.{
  pos, negsuc, value, port_of, skip_zeros, finish_port, first_decimal, scan_character, scan_port,
  decimal_port,
}
use tai_ci.Url.{
  Url, parse, parse_fragment, parse_scheme, parse_hierarchical, parse_http, split_path, supported,
  is_scheme, has_prefix, tai_url_is_http, finalize, with_fragment, serialized_base, default_port,
  tai_url_parse, fallback,
}
use tai_ci.Url.Resolve.{
  sans_fragment, parent, climb, scheme_of, relative_text, rooted_text, absolute_text, resolved_text,
  tai_url_resolve,
}
use tai_ci.Address.{trim_address, is_address_url, tai_session_normalize_address}
use tai_ci.Address.Encoding.{decode}
use tai_ci.Address.Searching.{normalize_address-search}
use tai_ci.Session.Trail.{go_back}
use tai_ci.Session.Moves.{IsSession, Did, trail}
use tai_ci.Session.Requests.{
  perform, destination, goes_back, perform-Did, Loads, back-forward, history_target-commit_history,
}
use tai_ci.Session.{
  Pages, page_loaded, done, Session, tai_session_back, tai_session_forward,
  tai_session_commit_history, tai_session_history_target,
}

unfoldable pub ascii_iterate : Bytes → Option (ℕ × ℕ)
ascii_iterate [] = none
ascii_iterate (b ∷ rest) = some (1, b)

abbrev pub ascii : Utf8proc
unfolding ascii_iterate
ascii = record {
  iterate = ascii_iterate;
  is_decimal = λ b. leb 48 b && leb b 57;
  is_separator = λ b. b == 32 || b == 160;
  is_alnum = λ b. leb 48 b && leb b 57 || leb 65 b && leb b 90 || leb 97 b && leb b 122;
  casefold = some;
}

pub ascii-IsUtf8proc : IsUtf8proc ascii
unfolding ascii_iterate
ascii-IsUtf8proc = record {
  advances = advances_lem;
  ascii = λ b text h. refl;
  ascii_decimal = λ b h. refl;
}
  where
    advances_lem :
        (text : Bytes) (n c : ℕ) → ascii_iterate text ≡ some (n, c) → (1 ≤ n) × (n ≤ length text)
    advances_lem [] n c e = ground arith
    advances_lem (b ∷ text) n c e = ground arith

abbrev string_of : String → Bytes
string_of text = (parse ascii (codes text)).serialized

parse_http_run : string_of "http://Example.com:080/a?b#c" ≡ codes "http://Example.com/a?b#c"
unfolding ascii_iterate whitespace value port_of skip_zeros finish_port first_decimal scan_character
    scan_port decimal_port parse parse_fragment parse_scheme parse_hierarchical parse_http
    split_path supported is_scheme has_prefix tai_url_is_http finalize with_fragment serialized_base
    default_port split_first split_on starts_with str_eq fallback
parse_http_run = refl

parse_file_run : string_of "view-source:file:///x" ≡ codes "view-source:/x"
unfolding ascii_iterate parse parse_fragment parse_scheme parse_hierarchical parse_http split_path
    supported is_scheme has_prefix tai_url_is_http finalize with_fragment serialized_base
    default_port split_first split_on starts_with str_eq fallback
parse_file_run = refl

-- The pages of the runs.
abbrev instant : Pages
instant = record {
  Page = Url;
  tai_page_url = λ url. url;
  tai_page_load_request = λ url referrer body css view rtl. page_loaded url;
}

abbrev page_at : String → Url
page_at text = record {
  scheme = codes "about";
  host = [];
  path = codes text;
  fragment = [];
  key = [];
  serialized = codes text;
  origin = [];
  port_text = [];
  port = pos 0;
  view_source = false;
}

-- Two entries, on the second.
abbrev visiting : Session instant
visiting = record {
  has_network = true;
  default_css = [];
  page = some (page_at "b");
  urls = codes "a" ∷ codes "b" ∷ [];
  index = 1;
  rtl = false;
}

visiting-IsSession : IsSession instant visiting
visiting-IsSession = record { inside = inl (omega arith) }

perform-Did_example :
    Did instant visiting
      (destination instant ascii visiting (goes_back true))
      (perform instant ascii visiting (goes_back true))
perform-Did_example = perform-Did instant ascii visiting (goes_back true) visiting-IsSession

instant-Loads : Loads instant ascii
instant-Loads = record { loads = λ url referrer body css view rtl. (url, refl) }

back-forward_example :
    (p q : Url) × (tai_session_back instant ascii true visiting
      ≡ (record visiting { page = some p; index = 0 }, done))
    × (tai_session_forward instant ascii true (tai_session_back instant ascii true visiting).0
        ≡ (record visiting { page = some q }, done))
back-forward_example =
    back-forward instant ascii visiting (page_at "b") instant-Loads refl refl (omega arith)
      (omega arith)

target_behind : tai_session_history_target instant true visiting (negsuc 0) ≡ some (codes "a", 0)
unfolding tai_session_history_target
target_behind = refl

history_target-commit_history_example :
    ((tai_session_commit_history instant visiting (some (page_at "a")) 0).1 ≡ done)
    × (trail instant (tai_session_commit_history instant visiting (some (page_at "a")) 0).0
        ≡ go_back (trail instant visiting))
history_target-commit_history_example =
    history_target-commit_history instant visiting (negsuc 0) (codes "a") 0 (page_at "a")
      visiting-IsSession target_behind refl

trim_run : trim_address ascii (codes " c++ & x ") ≡ codes "c++ & x"
unfolding ascii_iterate whitespace character strip_loop trim_address
trim_run = refl

words_run : is_address_url (trim_address ascii (codes " c++ & x ")) ≡ false
unfolding is_address_url has_prefix starts_with split_on
words_run = rw trim_run refl

normalize_address-search_example :
    (query : Bytes) × (tai_session_normalize_address ascii true (some (codes " c++ & x "))
      ≡ some (codes "https://html.duckduckgo.com/html/?q=" ++ query))
    × (decode query ≡ trim_address ascii (codes " c++ & x "))
normalize_address-search_example =
    normalize_address-search ascii (codes " c++ & x ") (search arith) words_run
      (rw trim_run (omega arith))

resolve_run :
    (elim (tai_url_resolve ascii true
      (some (parse ascii (codes "http://h/a/b/c")))
      (some (codes " ../d#e "))) [ none ↦ [] | some u ↦ u.serialized ])
    ≡ codes "http://h/a/d#e"
unfolding ascii_iterate whitespace character strip_loop strip sans_fragment parent climb scheme_of
    relative_text rooted_text absolute_text resolved_text tai_url_resolve tai_url_parse value
    port_of skip_zeros finish_port first_decimal scan_character scan_port decimal_port parse
    parse_fragment parse_scheme parse_hierarchical parse_http split_path supported is_scheme
    split_last has_prefix tai_url_is_http finalize with_fragment serialized_base default_port
    split_first split_on starts_with str_eq fallback
resolve_run = refl
