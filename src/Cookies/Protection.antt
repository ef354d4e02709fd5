-- ===== src/Cookies/Protection.antt =====
-- The cookie jar of src/network.c: whose cookie a call reads and changes.
use tai_ci.Base.{
  ◌≡◌, ◌≢◌, ◌⊎◌, refl, sym, ap, codes, str_eq_refl, ◌∙◌, inl, inr, Bool, true, false, [], ◌∷◌,
  Option, none, some, Bytes, arith, length, if◌then◌else◌, str_eq, str_eq→eq, Bool-cases,
  Option-cases,
}
use tai_ci.Maps.{empty_map, tai_map_get}
use tai_ci.Cookies.{
  Dates, httponly, has, Cookie, Jar, cookie_at, remove_cookie, put_cookie, has_expired,
  cookie_valid, is_protected, settle_cookie, store_parsed, cookie_store, jar_store,
  tai_cookie_jar_js_set, tai_cookie_jar_js_get, cookie_serialize, parse_params, cut, Request,
  is_lax, is_foreign, allows, sent_value, jar_request_cookie,
}

differs : (a b c : Bytes) → str_eq a b ≡ true → str_eq b c ≡ false → str_eq a c ≡ false
differs a b c e f = let same = str_eq→eq a b e in rw same f

some_same : (a b : Bytes) → some a ≡ some b → a ≡ b
some_same a b e = ground (arith, e)

str_eq_apart : (a b : Bytes) → str_eq a b ≡ false → a ≢ b
str_eq_apart a b e f = ground (arith, sym e ∙ ap (λ x. str_eq x b) f ∙ str_eq_refl b)

module _ (D : Dates) where
  lax_cases :
      (o : Option Bytes)
      → ((is_lax D o ≡ true) × (o ≡ some (codes "lax")))
        ⊎ ((is_lax D o ≡ false) × (o ≢ some (codes "lax")))
  lax_cases none = inr (refl, λ e. ground (arith, e))
  lax_cases (some site) = elim (Bool-cases (str_eq site (codes "lax"))) [
    | inl e ↦ inl (e, ap some (str_eq→eq site (codes "lax") e))
    | inr e ↦ inr (e, λ f. str_eq_apart site (codes "lax") e (some_same site (codes "lax") f))
  ]

  foreign_cases :
      (o : Option Bytes) (host : Bytes)
      → ((is_foreign D o host ≡ true) × ((r : Bytes) × (o ≡ some r) × (r ≢ host)))
        ⊎ ((is_foreign D o host ≡ false) × ((o ≡ none) ⊎ (o ≡ some host)))
  foreign_cases none host = inr (refl, inl refl)
  foreign_cases (some r) host = elim (Bool-cases (str_eq r host)) [
    | inl e ↦ inr (rw e refl, inr (ap some (str_eq→eq r host e)))
    | inr e ↦ inl (rw e refl, (r, refl, str_eq_apart r host e))
  ]

  cookie_valid-fresh :
      (now : D.Time) (jar : Jar D) (host : Bytes) (c : Cookie D)
      → cookie_at D jar host ≡ some c
      → has_expired D now c ≡ false
      → cookie_valid D now jar host ≡ (jar, some c)
  unfolding cookie_at cookie_valid
  cookie_valid-fresh now [] host c e f = absurd (ground arith)
  cookie_valid-fresh now (d ∷ ds) host c e f = elim (Bool-cases (str_eq d.host host)) [
    | inl g ↦ let same : d ≡ c = ground arith in rw (g, same, f) refl
    | inr g ↦ rw (g, cookie_valid-fresh now ds host c (ground arith) f) refl
  ]

  cookie_valid-absent :
      (now : D.Time) (jar : Jar D) (host : Bytes)
      → cookie_at D jar host ≡ none
      → cookie_valid D now jar host ≡ (jar, none)
  unfolding cookie_at cookie_valid
  cookie_valid-absent now [] host e = refl
  cookie_valid-absent now (d ∷ ds) host e = elim (Bool-cases (str_eq d.host host)) [
    | inl g ↦ absurd (ground arith)
    | inr g ↦ rw (g, cookie_valid-absent now ds host (ground arith)) refl
  ]

  -- While a host's cookie is HttpOnly and has not expired, JavaScript can neither replace nor remove
  -- it, whatever it stores for that host, and what it reads is empty, if that can be allocated.
  pub js_set-httponly :
      (memory : Bool) (now later : D.Time) (jar : Jar D) (host text : Bytes) (c : Cookie D)
      → cookie_at D jar host ≡ some c
      → has_expired D now c ≡ false
      → has c.params httponly ≡ true
      → (tai_cookie_jar_js_set D memory now later jar (some host) (some text) ≡ (jar, true))
        × (tai_cookie_jar_js_get D true now jar (some host) ≡ (jar, some []))
  unfolding tai_cookie_jar_js_set jar_store cookie_store tai_cookie_jar_js_get is_protected
      cookie_serialize
  js_set-httponly memory now later jar [] text c e f g = (refl, refl)
  js_set-httponly memory now later jar (h ∷ hs) text c e f g =
      let valid = cookie_valid-fresh now jar (h ∷ hs) c e f in rw (valid, g) (refl, refl)

  other-cookie_valid :
      (now : D.Time) (jar : Jar D) (host other : Bytes)
      → str_eq host other ≡ false
      → cookie_at D (cookie_valid D now jar host).0 other ≡ cookie_at D jar other
  unfolding cookie_at cookie_valid
  other-cookie_valid now [] host other d = refl
  other-cookie_valid now (c ∷ cs) host other d = elim (Bool-cases (str_eq c.host host)) [
    | inl g ↦ elim (Bool-cases (has_expired D now c)) [
      | inl x ↦ rw (g, x, differs c.host host other g d) refl
      | inr x ↦ rw (g, x) refl
    ]
    | inr g ↦ rw (g, other-cookie_valid now cs host other d) refl
  ]

  other-remove_cookie :
      (jar : Jar D) (host other : Bytes)
      → str_eq host other ≡ false
      → cookie_at D (remove_cookie D jar host) other ≡ cookie_at D jar other
  unfolding cookie_at remove_cookie
  other-remove_cookie [] host other d = refl
  other-remove_cookie (c ∷ cs) host other d = elim (Bool-cases (str_eq c.host host)) [
    | inl g ↦ rw (g, differs c.host host other g d) refl
    | inr g ↦ rw (g, other-remove_cookie cs host other d) refl
  ]

  other-put_cookie :
      (jar : Jar D) (host other : Bytes) (new : Cookie D)
      → str_eq new.host other ≡ false
      → str_eq host other ≡ false
      → cookie_at D (put_cookie D jar host new) other ≡ cookie_at D jar other
  unfolding cookie_at put_cookie
  other-put_cookie [] host other new n d = rw n refl
  other-put_cookie (c ∷ cs) host other new n d = elim (Bool-cases (str_eq c.host host)) [
    | inl g ↦ rw (g, n, differs c.host host other g d) refl
    | inr g ↦ rw (g, other-put_cookie cs host other new n d) refl
  ]

  other-settle_cookie :
      (now : D.Time) (jar : Jar D) (c : Cookie D) (other : Bytes)
      → str_eq c.host other ≡ false
      → cookie_at D (settle_cookie D now jar c) other ≡ cookie_at D jar other
  unfolding settle_cookie
  other-settle_cookie now jar c other d = elim (Bool-cases (has_expired D now c)) [
    | inl x ↦ rw x (other-remove_cookie jar c.host other d)
    | inr x ↦ rw x (other-put_cookie jar c.host other c d d)
  ]

  abbrev Leaves : Jar D → Bytes → Jar D × Bool → Type 0
  Leaves jar other r = cookie_at D r.0 other ≡ cookie_at D jar other

  if-Leaves :
      (jar : Jar D) (other : Bytes) (b : Bool) (r q : Jar D × Bool)
      → Leaves jar other r
      → Leaves jar other q
      → Leaves jar other (if b then r else q)
  if-Leaves jar other true r q h k = h
  if-Leaves jar other false r q h k = k

  other-store_parsed :
      (memory : Bool) (now : D.Time) (jar : Jar D) (host text other : Bytes) (js : Bool)
      → str_eq host other ≡ false
      → Leaves jar other (store_parsed D memory now jar host text js)
  unfolding store_parsed
  other-store_parsed false now jar host text other js d = refl
  other-store_parsed true now jar host text other js d =
      elim (Option-cases (parse_params (length (cut 59 text).1) (cut 59 text).1 empty_map)) [
        | inl e ↦ rw e refl
        | inr (params, e) ↦
            rw e (if-Leaves jar other _ _ _ refl (other-settle_cookie now jar _ other d))
      ]

  -- Storing a cookie for one host, by JavaScript or by a response, and whatever happens in it,
  -- leaves the cookie of every other host as it was.
  pub jar_store-other :
      (memory : Bool) (now later : D.Time) (jar : Jar D) (host text : Option Bytes) (other : Bytes)
      (js : Bool)
      → ((h : Bytes) → host ≡ some h → str_eq h other ≡ false)
      → cookie_at D (jar_store D memory now later jar host text js).0 other ≡ cookie_at D jar other
  unfolding jar_store cookie_store
  jar_store-other memory now later jar host none other js d = refl
  jar_store-other memory now later jar none (some text) other js d = refl
  jar_store-other memory now later jar (some []) (some text) other js d = refl
  jar_store-other memory now later jar (some (h ∷ hs)) (some text) other js d =
      let far = d (h ∷ hs) refl in
      let valid = (cookie_valid D now jar (h ∷ hs)).0 in
      let kept = other-cookie_valid now jar (h ∷ hs) other far in
      if-Leaves jar other _ _ _ kept
        (other-store_parsed memory later valid (h ∷ hs) text other js far ∙ kept)

  -- A request that posts from another host, and a cookie that is `SameSite=Lax`.
  abbrev pub Withheld : Request D → Cookie D → Type 0
  Withheld q c =
      (q.payload ≡ true)
      × (tai_map_get c.params (codes "samesite") ≡ some (codes "lax"))
      × ((referrer : Bytes) × (q.referrer ≡ some referrer) × (referrer ≢ q.host))

  -- One of the three is missing.
  abbrev pub Granted : Request D → Cookie D → Type 0
  Granted q c =
      (q.payload ≡ false)
      ⊎ ((tai_map_get c.params (codes "samesite") ≢ some (codes "lax"))
          ⊎ ((q.referrer ≡ none) ⊎ (q.referrer ≡ some q.host)))

  -- What a request with the cookie of its host is given: nothing where it is withheld, and where it
  -- is granted the value, or a failure if its copy cannot be allocated.
  abbrev pub Sends : Bool → Request D → Option (Cookie D) → Bool × Option Bytes → Type 0
  Sends memory q none r = r ≡ (true, none)
  Sends memory q (some c) r =
      (Withheld q c × (r ≡ (true, none)))
      ⊎ (Granted q c × (r ≡ (memory, if memory then some c.value else none)))

  sent-Sends :
      (memory : Bool) (q : Request D) (c : Cookie D)
      → Sends memory q (some c) (sent_value D memory q (some c))
  unfolding allows
  sent-Sends memory q c = elim (Bool-cases q.payload) [
    | inl p ↦ elim (lax_cases (tai_map_get c.params (codes "samesite"))) [
      | inl (l, lax) ↦ elim (foreign_cases q.referrer q.host) [
        | inl (f, far) ↦ rw (p, l, f) (inl ((refl, lax, far), refl))
        | inr (f, near) ↦ rw (p, l, f) (inr (inr (inr near), refl))
      ]
      | inr (l, other) ↦ rw (p, l) (inr (inr (inl other), refl))
    ]
    | inr p ↦ rw p (inr (inl refl, refl))
  ]

  -- A request whose host's cookie is absent or has not expired leaves the jar as it is and gets the
  -- value of that cookie and of no other, or fails where the copy cannot be allocated. It gets nothing
  -- where there is no cookie, or where the cookie is `SameSite=Lax` and the request has a payload and a
  -- referrer on another host; in all other cases it gets the value.
  pub request_cookie-own :
      (memory : Bool) (now : D.Time) (jar : Jar D) (q : Request D)
      → ((c : Cookie D) → cookie_at D jar q.host ≡ some c → has_expired D now c ≡ false)
      → ((jar_request_cookie D memory now jar q).0 ≡ jar)
        × Sends memory q (cookie_at D jar q.host) (jar_request_cookie D memory now jar q).1
  unfolding jar_request_cookie
  request_cookie-own memory now jar q fresh = elim (Option-cases (cookie_at D jar q.host)) [
    | inl e ↦ rw (e, cookie_valid-absent now jar q.host e) (refl, refl)
    | inr (c, e) ↦
        rw (e, cookie_valid-fresh now jar q.host c e (fresh c e)) (refl, sent-Sends memory q c)
  ]
