-- ===== src/Tests/CookieRuns.antt =====
-- Runs of the map of src/core.c and of the cookie jar of src/network.c; a date is its length.
use tai_ci.Base.{
  ℕ, ◌≡◌, refl, true, false, [], ◌∷◌, none, some, Bytes, codes, arith, length, leb, if◌then◌else◌,
  str_eq, split_first,
}
use tai_ci.Port.{pos}
use tai_ci.Maps.{empty_map, map_index, replace_at, grow, tai_map_set, tai_map_get}
use tai_ci.Maps.Lookup.{get-set}
use tai_ci.Cookies.{
  Dates, is_space, to_lower, lower, trim_start, trim_end, trim_copy, cut, attribute, set_attribute,
  parse_params, has, httponly, Cookie, Jar, cookie_at, remove_cookie, put_cookie, has_expired,
  cookie_valid, is_protected, has_equals, refused_to_js, expiry, settle_cookie, store_parsed,
  cookie_store, jar_store, tai_cookie_jar_js_set, tai_cookie_jar_http_set, serialize_params,
  cookie_serialize, tai_cookie_jar_js_get, Request, allows, jar_request_cookie,
}
use tai_ci.Cookies.Protection.{Sends, js_set-httponly, jar_store-other, request_cookie-own}

abbrev dates : Dates
dates = record { Time = ℕ; curl_getdate = λ text. some (length text); is_past = leb }

program : Unit {0}
unfolding map_index replace_at grow tai_map_set tai_map_get is_space to_lower lower trim_start
    trim_end trim_copy cut attribute set_attribute parse_params has cookie_at remove_cookie
    put_cookie has_expired cookie_valid is_protected has_equals refused_to_js expiry settle_cookie
    store_parsed cookie_store jar_store tai_cookie_jar_js_set tai_cookie_jar_http_set
    serialize_params cookie_serialize tai_cookie_jar_js_get allows jar_request_cookie str_eq
    split_first
program = tt

-- A response of "h" sets an HttpOnly cookie.
abbrev stored : Jar dates
unfolding program
stored =
    (tai_cookie_jar_http_set dates true 0 0 [] (some (codes "h"))
      (some (codes " s=1 ; HttpOnly; SameSite = LAX"))).0

abbrev session_cookie : Cookie dates
session_cookie = record {
  host = codes "h";
  value = codes "s=1";
  params = record {
    items =
        record { key = codes "httponly"; value = codes "true"; priority = pos 0 }
        ∷ record { key = codes "samesite"; value = codes "lax"; priority = pos 0 }
        ∷ [];
    capacity = 8;
  };
  expires = none;
}

stored_run : stored ≡ session_cookie ∷ []
unfolding program
stored_run = refl

-- Once the cookie of "h" has expired, a request to it sends the cookie of the next host.
next_run :
    jar_request_cookie dates true 9
      (record { host = codes "h"; value = codes "old=1"; params = empty_map; expires = some 3 }
        ∷ record {
          host = codes "other";
          value = codes "secret=2";
          params = empty_map;
          expires = none;
        }
        ∷ [])
      (record { host = codes "h"; payload = false; referrer = none })
    ≡ (
      record { host = codes "other"; value = codes "secret=2"; params = empty_map; expires = none }
          ∷ [],
      (true, some (codes "secret=2")),
    )
unfolding program
next_run = refl

found_run : cookie_at dates (session_cookie ∷ []) (codes "h") ≡ some session_cookie
unfolding program
found_run = refl

fresh_run : has_expired dates 0 session_cookie ≡ false
unfolding program
fresh_run = refl

protected_run : has session_cookie.params httponly ≡ true
unfolding program
protected_run = refl

other_host : (h : Bytes) → some (codes "x") ≡ some h → str_eq h (codes "h") ≡ false
unfolding program
other_host h e = let same : codes "x" ≡ h = ground arith in rw⁻¹ same refl

abbrev posting : Request dates
posting = record { host = codes "h"; payload = true; referrer = some (codes "elsewhere") }

always_fresh :
    (c : Cookie dates)
    → cookie_at dates (session_cookie ∷ []) (codes "h") ≡ some c
    → has_expired dates 0 c ≡ false
unfolding program
always_fresh c e = let same : session_cookie ≡ c = ground arith in rw⁻¹ same refl

get-set_example :
    tai_map_get (tai_map_set true true true empty_map (codes "k") (codes "v") (pos 1)).0 (codes "k")
    ≡ (if (tai_map_set true true true empty_map (codes "k") (codes "v") (pos 1)).1
        then (if str_eq (codes "k") (codes "k")
            then some (codes "v")
            else tai_map_get empty_map (codes "k"))
        else tai_map_get empty_map (codes "k"))
get-set_example = get-set true true true empty_map (codes "k") (codes "k") (codes "v") (pos 1)

js_set-httponly_example :
    (tai_cookie_jar_js_set dates true 0 0
        (session_cookie ∷ [])
        (some (codes "h"))
        (some (codes "s=2"))
      ≡ (session_cookie ∷ [], true))
    × (tai_cookie_jar_js_get dates true 0 (session_cookie ∷ []) (some (codes "h"))
        ≡ (session_cookie ∷ [], some []))
js_set-httponly_example =
    js_set-httponly dates true 0 0 (session_cookie ∷ []) (codes "h") (codes "s=2") session_cookie
      found_run fresh_run protected_run

jar_store-other_example :
    cookie_at dates
      (jar_store dates true 0 0
        (session_cookie ∷ [])
        (some (codes "x"))
        (some (codes "a=b"))
        false).0
      (codes "h")
    ≡ cookie_at dates (session_cookie ∷ []) (codes "h")
jar_store-other_example =
    jar_store-other dates true 0 0 (session_cookie ∷ []) (some (codes "x")) (some (codes "a=b"))
      (codes "h") false other_host

request_cookie-own_example :
    ((jar_request_cookie dates true 0 (session_cookie ∷ []) posting).0 ≡ session_cookie ∷ [])
    × Sends dates true posting
        (cookie_at dates (session_cookie ∷ []) (codes "h"))
        (jar_request_cookie dates true 0 (session_cookie ∷ []) posting).1
request_cookie-own_example =
    request_cookie-own dates true 0 (session_cookie ∷ []) posting always_fresh
