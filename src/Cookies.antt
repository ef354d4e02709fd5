-- ===== src/Cookies.antt =====
-- src/network.c: the cookie jar. It keeps at most one cookie of a host, in a list; a host's cookie is
-- the first of the list with its name. The jar's mutex makes every call one step. `time`, its
-- comparison with an expiry and `curl_getdate` are the parameter `Dates`. `memory` says whether the
-- allocations of a call succeed: a call in which one fails answers false, whichever it is, and has
-- then only dropped what had expired.
pub mod Protection
use tai_ci.Base.{
  ℕ, zero, suc, ◌+◌, Bool, true, false, not, ◌||◌, ◌&&◌, List, [], ◌∷◌, ◌++◌, Option, none, some,
  Bytes, codes, length, leb, ◌==◌, if◌then◌else◌, str_eq, split_first,
}
use tai_ci.Port.{pos}
use tai_ci.Maps.{Pair, Map, empty_map, tai_map_set, tai_map_get}

pub record Dates : Type 1 where
  pub Time : Type 0
  -- `none` is -1
  pub curl_getdate : Bytes → Option Time
  -- expires <= time(NULL)
  pub is_past : Time → Time → Bool

-- isspace and tolower of the C locale.
unfoldable pub is_space : ℕ → Bool
is_space c = leb 9 c && leb c 13 || c == 32

unfoldable pub to_lower : ℕ → ℕ
to_lower c = if leb 65 c && leb c 90 then c + 32 else c

unfoldable pub lower : Bytes → Bytes
lower [] = []
lower (c ∷ cs) = to_lower c ∷ lower cs

unfoldable pub trim_start : Bytes → Bytes
trim_start [] = []
trim_start (c ∷ cs) = let rest = trim_start cs in if is_space c then rest else c ∷ cs

abbrev before_end : ℕ → Bytes → Bytes
before_end c [] = if is_space c then [] else c ∷ []
before_end c (d ∷ ds) = c ∷ d ∷ ds

unfoldable pub trim_end : Bytes → Bytes
trim_end [] = []
trim_end (c ∷ cs) = before_end c (trim_end cs)

unfoldable pub trim_copy : Bytes → Bytes
trim_copy s = trim_end (trim_start s)

-- The text up to the byte, and the text behind it, empty where the byte is missing.
unfoldable pub cut : ℕ → Bytes → Bytes × Bytes
cut c s = elim (split_first c s) [ none ↦ (s, []) | some parts ↦ parts ]

-- The key and the value of one attribute.
unfoldable pub attribute : Bytes → Bytes × Bytes
attribute part = elim (split_first 61 part) [
  | none ↦ (lower part, codes "true")
  | some (before, after) ↦ (lower (trim_copy before), trim_copy after)
]

unfoldable pub set_attribute : Map → Bytes → Map × Bool
set_attribute params part =
    let (key, value) = attribute part in
    tai_map_set true true true params key
      (if str_eq key (codes "samesite") then lower value else value) (pos 0)

-- The loop over the attributes, for at most `fuel` rounds; the length of the text is enough, since
-- every round passes a byte.
unfoldable pub parse_params : ℕ → Bytes → Map → Option Map
parse_params zero p params = some params
parse_params (suc fuel) [] params = some params
parse_params (suc fuel) (c ∷ cs) params =
    let (text, rest) = cut 59 (c ∷ cs) in
    let part = trim_copy text in
    let (next, ok) = set_attribute params part in
    let skipped = parse_params fuel rest params in
    let taken = parse_params fuel rest next in
    if length part == 0 then skipped else if ok then taken else none

unfoldable pub has : Map → Bytes → Bool
has params key = elim (tai_map_get params key) [ none ↦ false | some _ ↦ true ]

abbrev pub httponly : Bytes
httponly = codes "httponly"

module _ (D : Dates) where
  pub record Cookie : Type 0 where
    pub host : Bytes
    pub value : Bytes
    pub params : Map
    -- `has_expiry` and `expires`
    pub expires : Option D.Time

  abbrev pub Jar : Type 0
  Jar = List Cookie

  -- The cookie at `cookie_slot`.
  unfoldable pub cookie_at : Jar → Bytes → Option Cookie
  cookie_at [] host = none
  cookie_at (c ∷ cs) host = if str_eq c.host host then some c else cookie_at cs host

  unfoldable pub remove_cookie : Jar → Bytes → Jar
  remove_cookie [] host = []
  remove_cookie (c ∷ cs) host = if str_eq c.host host then cs else c ∷ remove_cookie cs host

  -- In place of the host's cookie, or last.
  unfoldable pub put_cookie : Jar → Bytes → Cookie → Jar
  put_cookie [] host new = new ∷ []
  put_cookie (c ∷ cs) host new = if str_eq c.host host then new ∷ cs else c ∷ put_cookie cs host new

  unfoldable pub has_expired : D.Time → Cookie → Bool
  has_expired now c = elim c.expires [ none ↦ false | some at ↦ D.is_past at now ]

  abbrev first_of : Jar → Option Cookie
  first_of [] = none
  first_of (c ∷ cs) = some c

  -- The jar without the host's cookie if that has expired, and the cookie that the slot then holds:
  -- after a removal that is the next of the list, whatever its host.
  unfoldable pub cookie_valid : D.Time → Jar → Bytes → Jar × Option Cookie
  cookie_valid now [] host = ([], none)
  cookie_valid now (c ∷ cs) host =
      let (rest, found) = cookie_valid now cs host in
      if str_eq c.host host
      then (if has_expired now c then (cs, first_of cs) else (c ∷ cs, some c))
      else (c ∷ rest, found)

  unfoldable pub is_protected : Option Cookie → Bool
  is_protected none = false
  is_protected (some c) = has c.params httponly

  unfoldable pub has_equals : Bytes → Bool
  has_equals value = elim (split_first 61 value) [ none ↦ false | some _ ↦ true ]

  -- What JavaScript may not store.
  unfoldable pub refused_to_js : Bytes → Map → Bool
  refused_to_js value params = length value == 0 || not (has_equals value) || has params httponly

  unfoldable pub expiry : Map → Option D.Time
  expiry params = elim (tai_map_get params (codes "expires")) [
    | none ↦ none
    | some text ↦ D.curl_getdate text
  ]

  -- The end of `cookie_store`, at its second call of `time`.
  unfoldable pub settle_cookie : D.Time → Jar → Cookie → Jar
  settle_cookie now jar c =
      if has_expired now c then remove_cookie jar c.host else put_cookie jar c.host c

  -- `cookie_store` behind the first test, on the jar that `cookie_valid` leaves.
  unfoldable pub store_parsed : Bool → D.Time → Jar → Bytes → Bytes → Bool → Jar × Bool
  store_parsed memory now jar host text js =
      let (before, after) = cut 59 text in
      let value = trim_copy before in
      if not memory then (jar, false) else elim (parse_params (length after) after empty_map) [
        | none ↦ (jar, false)
        | some params ↦ if js && refused_to_js value params then (jar, true) else (
          settle_cookie now jar
              (record { host = host; value = value; params = params; expires = expiry params }),
          true,
        )
      ]

  -- `now` and `later` are what the two calls of `time` answer.
  unfoldable pub cookie_store : Bool → D.Time → D.Time → Jar → Bytes → Bytes → Bool → Jar × Bool
  cookie_store memory now later jar [] text js = (jar, true)
  cookie_store memory now later jar (h ∷ hs) text js =
      let (valid, old) = cookie_valid now jar (h ∷ hs) in
      if js && is_protected old
      then (valid, true)
      else store_parsed memory later valid (h ∷ hs) text js

  unfoldable pub jar_store :
      Bool → D.Time → D.Time → Jar → Option Bytes → Option Bytes → Bool → Jar × Bool
  jar_store memory now later jar host none js = (jar, false)
  jar_store memory now later jar none (some text) js = (jar, true)
  jar_store memory now later jar (some host) (some text) js =
      cookie_store memory now later jar host text js

  unfoldable pub tai_cookie_jar_js_set :
      Bool → D.Time → D.Time → Jar → Option Bytes → Option Bytes → Jar × Bool
  tai_cookie_jar_js_set memory now later jar host text =
      jar_store memory now later jar host text true

  unfoldable pub tai_cookie_jar_http_set :
      Bool → D.Time → D.Time → Jar → Option Bytes → Option Bytes → Jar × Bool
  tai_cookie_jar_http_set memory now later jar host text =
      jar_store memory now later jar host text false

  unfoldable pub serialize_params : List Pair → Bytes
  serialize_params [] = []
  serialize_params (p ∷ ps) =
      codes "; "
      ++ (p.key
          ++ ((if str_eq p.value (codes "true") then [] else 61 ∷ p.value) ++ serialize_params ps))

  unfoldable pub cookie_serialize : Option Cookie → Bytes
  cookie_serialize none = []
  cookie_serialize (some c) =
      if has c.params httponly then [] else c.value ++ serialize_params c.params.items

  -- The jar, and the text, or `none` where it cannot be allocated.
  unfoldable pub tai_cookie_jar_js_get : Bool → D.Time → Jar → Option Bytes → Jar × Option Bytes
  tai_cookie_jar_js_get memory now jar none = (jar, if memory then some [] else none)
  tai_cookie_jar_js_get memory now jar (some []) = (jar, if memory then some [] else none)
  tai_cookie_jar_js_get memory now jar (some (h ∷ hs)) =
      let (valid, found) = cookie_valid now jar (h ∷ hs) in
      (valid, if memory then some (cookie_serialize found) else none)

  -- The fields of a request that `jar_request_cookie` reads: the host of its URL, whether it has a
  -- payload, and the host of its referrer.
  pub record Request : Type 0 where
    pub host : Bytes
    pub payload : Bool
    pub referrer : Option Bytes

  abbrev pub is_lax : Option Bytes → Bool
  is_lax none = false
  is_lax (some site) = str_eq site (codes "lax")

  abbrev pub is_foreign : Option Bytes → Bytes → Bool
  is_foreign none host = false
  is_foreign (some referrer) host = not (str_eq referrer host)

  unfoldable pub allows : Request → Cookie → Bool
  allows q c = not (
      q.payload && is_lax (tai_map_get c.params (codes "samesite")) && is_foreign q.referrer q.host)

  -- `*value`, and the result, which is false where the copy of the value cannot be allocated.
  abbrev pub sent_value : Bool → Request → Option Cookie → Bool × Option Bytes
  sent_value memory q none = (true, none)
  sent_value memory q (some c) =
      if allows q c then (memory, if memory then some c.value else none) else (true, none)

  unfoldable pub jar_request_cookie : Bool → D.Time → Jar → Request → Jar × (Bool × Option Bytes)
  jar_request_cookie memory now jar q =
      let (valid, found) = cookie_valid now jar q.host in (valid, sent_value memory q found)
