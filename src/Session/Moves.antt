-- ===== src/Session/Moves.antt =====
-- The operations of src/session.c as moves along the trail.
use tai_ci.Base.{
  ℕ, suc, ◌+◌, ◌-◌, ◌≤◌, ◌<◌, ◌≡◌, ◌⊎◌, inl, inr, refl, ap, ◌∙◌, Bool, ◌||◌, true, false, not, List,
  [], ◌∷◌, ◌++◌, Option, none, some, Bytes, arith, length, take, get_or, leb, ltb, ◌==◌, str_eq,
  length-append, length-take, str_eq→eq, if◌then◌else◌,
}
use tai_ci.Utf8.{Utf8proc}
use tai_ci.Url.{tai_url_parse, tai_url_is_external}
use tai_ci.Address.{tai_session_normalize_address}
use tai_ci.Session.Trail.{
  Trail, visit, go_back, go_forward, walk, walk-forward, walk-back, walk-visit,
}
use tai_ci.Session.{
  Pages, Outcome, done, failed, Intent, Loaded, page_loaded, load_failed, Session, append_url,
  append_loaded, shown, tai_session_record_fragment, tai_session_commit_navigation,
  tai_session_commit_history, settle_traverse, traverse, tai_session_back, tai_session_forward,
  tai_session_navigate, tai_session_navigate_address,
}

-- `kept` of `append_url`.
abbrev kept_of : ℕ → List Bytes → ℕ
kept_of i xs = if length xs == 0 then 0 else i + 1

abbrev pub Inside : ℕ → List Bytes → Type 0
Inside i xs = (i < length xs) ⊎ ((xs ≡ []) × (i ≡ 0))

take-append-Inside :
    (n : ℕ) (xs : List Bytes) (url : Bytes) → n ≤ length xs → n < length (take n xs ++ url ∷ [])
take-append-Inside n xs url h =
    omega (arith, length-append (take n xs) (url ∷ []), length-take n xs)

kept_of-cons : (i : ℕ) (x : Bytes) (xs : List Bytes) → kept_of i (x ∷ xs) ≡ suc i
kept_of-cons i x xs = ground arith

kept_of-Inside :
    (i : ℕ) (xs : List Bytes) (url : Bytes)
    → Inside i xs
    → kept_of i xs < length (take (kept_of i xs) xs ++ url ∷ [])
kept_of-Inside i [] url h = omega arith
kept_of-Inside i (x ∷ xs) url (inl h) =
    rw (kept_of-cons i x xs) (take-append-Inside (suc i) (x ∷ xs) url (omega arith))
kept_of-Inside i (x ∷ xs) url (inr h) = absurd (ground arith)

kept_of-walk :
    (i : ℕ) (xs : List Bytes) (url : Bytes)
    → Inside i xs
    → walk (kept_of i xs) [] (take (kept_of i xs) xs ++ url ∷ []) ≡ visit url (walk i [] xs)
kept_of-walk i [] url h = refl
kept_of-walk i (x ∷ xs) url (inl h) = rw (kept_of-cons i x xs) (walk-visit i [] (x ∷ xs) url h)
kept_of-walk i (x ∷ xs) url (inr h) = absurd (ground arith)

inside_jump :
    (target : ℕ) (xs : List Bytes) (b : Bool)
    → (length xs == 0 || leb (length xs) target || b) ≡ false
    → target < length xs
inside_jump target xs b h = ground arith

module _ (P : Pages) where
  abbrev pub trail : Session P → Option Trail
  trail s = walk s.index [] s.urls

  -- The index is inside the history, or there is none.
  pub record IsSession (s : Session P) : Type 0 where
    pub inside : Inside s.index s.urls

  -- The call succeeded, shows the page `p`, and stands where `moved p` says.
  abbrev pub Moved : (P.Page → Option Trail) → Session P × Outcome → Type 0
  Moved moved r = (r.1 ≡ done) × ((p : P.Page) × (r.0.page ≡ some p) × (trail r.0 ≡ moved p))

  -- What an operation did: nothing at all, or the move.
  pub record Did (s : Session P) (moved : P.Page → Option Trail) (r : Session P × Outcome)
      : Type 0 where
    pub kept : IsSession r.0
    pub effect : (r.0 ≡ s) ⊎ Moved moved r

  pub nothing-Did :
      (s : Session P) (moved : P.Page → Option Trail) (o : Outcome)
      → IsSession s
      → Did s moved (s, o)
  nothing-Did s moved o h = record { kept = h; effect = inl refl }

  pub if-Did :
      {s : Session P} {moved : P.Page → Option Trail} (b : Bool) {r q : Session P × Outcome}
      → Did s moved r
      → Did s moved q
      → Did s moved (if b then r else q)
  if-Did true h k = h
  if-Did false h k = k

  pub option-Did {ℓ} :
      {A : Type ℓ} {s : Session P} {moved : P.Page → Option Trail} (o : Option A)
      {r : Session P × Outcome} {f : A → Session P × Outcome}
      → Did s moved r
      → ((a : A) → Did s moved (f a))
      → Did s moved (elim o [ none ↦ r | some a ↦ f a ])
  option-Did none h k = h
  option-Did (some a) h k = k a

  -- The same with what the test says.
  test-Did :
      {s : Session P} {moved : P.Page → Option Trail} (b : Bool) {r q : Session P × Outcome}
      → (b ≡ true → Did s moved r)
      → (b ≡ false → Did s moved q)
      → Did s moved (if b then r else q)
  test-Did true h k = h refl
  test-Did false h k = k refl

  found-Did {ℓ} :
      {A : Type ℓ} {s : Session P} {moved : P.Page → Option Trail} (o : Option A)
      {r : Session P × Outcome} {f : A → Session P × Outcome}
      → Did s moved r
      → ((a : A) → o ≡ some a → Did s moved (f a))
      → Did s moved (elim o [ none ↦ r | some a ↦ f a ])
  found-Did none h k = h
  found-Did (some a) h k = k a refl

  moves-Did :
      {s : Session P} {moved : P.Page → Option Trail} (other : P.Page → Option Trail)
      {r : Session P × Outcome}
      → ((p : P.Page) → moved p ≡ other p)
      → Did s moved r
      → Did s other r
  moves-Did {s} other {r} same h = record {
    kept = h.kept;
    effect = elim h.effect [
      | inl e ↦ inl e
      | inr (e, (p, now, at)) ↦ inr (e, (p, now, at ∙ same p))
    ];
  }

  -- To the URL of the page that is shown then.
  abbrev pub visited : Session P → P.Page → Option Trail
  visited s p = visit (P.tai_page_url p).serialized (trail s)

  abbrev appended : Session P → Bytes → Option P.Page → ℕ → Session P × Outcome
  appended s url candidate kept = (
    record s { urls = take kept s.urls ++ url ∷ []; index = kept; page = shown P s candidate },
    done,
  )

  appended-Did :
      (s : Session P) (url : Bytes) (candidate : Option P.Page) (p : P.Page)
      → url ≡ (P.tai_page_url p).serialized
      → shown P s candidate ≡ some p
      → IsSession s
      → Did s (visited s) (appended s url candidate (kept_of s.index s.urls))
  appended-Did s url candidate p same now h = record {
    kept = record { inside = inl (kept_of-Inside s.index s.urls url h.inside) };
    effect = inr (refl, (p, now, rw same (kept_of-walk s.index s.urls _ h.inside)));
  }

  append_url-Did :
      (strdup_ok malloc_ok : Bool) (s : Session P) (url : Bytes) (candidate : Option P.Page)
      (p : P.Page)
      → url ≡ (P.tai_page_url p).serialized
      → shown P s candidate ≡ some p
      → IsSession s
      → Did s (visited s) (append_url P strdup_ok malloc_ok s url candidate)
  unfolding append_url
  append_url-Did strdup_ok malloc_ok s url candidate p same now h =
      search (if-Did, nothing-Did, appended-Did)

  append_loaded-Did :
      (strdup_ok malloc_ok : Bool) (s : Session P) (l : Loaded P.Page)
      → IsSession s
      → Did s (visited s) (append_loaded P strdup_ok malloc_ok s l)
  unfolding append_loaded
  append_loaded-Did strdup_ok malloc_ok s (load_failed text) h = nothing-Did s _ _ h
  append_loaded-Did strdup_ok malloc_ok s (page_loaded p) h =
      append_url-Did strdup_ok malloc_ok s _ (some p) p refl refl h

  pub navigate-Did :
      (U : Utf8proc) (parse_ok strdup_ok malloc_ok : Bool) (s : Session P) (intent : Option Intent)
      → IsSession s
      → Did s (visited s) (tai_session_navigate P U parse_ok strdup_ok malloc_ok s intent)
  unfolding tai_session_navigate
  navigate-Did U parse_ok strdup_ok malloc_ok s none h = nothing-Did s _ _ h
  navigate-Did U parse_ok strdup_ok malloc_ok s (some intent) h =
      option-Did s.page (nothing-Did s _ _ h) (λ page.
        if-Did (not s.has_network) (nothing-Did s _ _ h) (
          if-Did intent.external (nothing-Did s _ _ h) (
            option-Did (tai_url_parse U parse_ok intent.url) (nothing-Did s _ _ h)
              (λ url. append_loaded-Did strdup_ok malloc_ok s _ h))))

  pub navigate_address-Did :
      (U : Utf8proc) (normalize_ok parse_ok strdup_ok malloc_ok : Bool) (s : Session P)
      (text : Option Bytes)
      → IsSession s
      → Did s
          (visited s)
          (tai_session_navigate_address P U normalize_ok parse_ok strdup_ok malloc_ok s text)
  unfolding tai_session_navigate_address
  navigate_address-Did U normalize_ok parse_ok strdup_ok malloc_ok s none h = nothing-Did s _ _ h
  navigate_address-Did U normalize_ok parse_ok strdup_ok malloc_ok s (some text) h =
      option-Did s.page (nothing-Did s _ _ h) (λ page.
        if-Did (not s.has_network) (nothing-Did s _ _ h) (
          option-Did (tai_session_normalize_address U normalize_ok (some text))
            (nothing-Did s _ _ h)
            (λ normalized.
              option-Did (tai_url_parse U parse_ok (some normalized)) (nothing-Did s _ _ h) (λ url.
                if-Did (tai_url_is_external url) (nothing-Did s _ _ h)
                  (append_loaded-Did strdup_ok malloc_ok s _ h)))))

  pub record_fragment-Did :
      (strdup_ok malloc_ok : Bool) (s : Session P) (url : Option Bytes)
      → IsSession s
      → Did s (visited s) (tai_session_record_fragment P strdup_ok malloc_ok s url)
  unfolding tai_session_record_fragment
  record_fragment-Did strdup_ok malloc_ok s none h = nothing-Did s _ _ h
  record_fragment-Did strdup_ok malloc_ok s (some url) h =
      found-Did s.page (nothing-Did s _ _ h) (λ p now.
        test-Did (str_eq url (P.tai_page_url p).serialized)
          (λ e. append_url-Did strdup_ok malloc_ok s url none p (str_eq→eq _ _ e) now h)
          (λ e. nothing-Did s _ _ h))

  pub commit_navigation-Did :
      (strdup_ok malloc_ok : Bool) (s : Session P) (candidate : Option P.Page)
      → IsSession s
      → Did s (visited s) (tai_session_commit_navigation P strdup_ok malloc_ok s candidate)
  unfolding tai_session_commit_navigation
  commit_navigation-Did strdup_ok malloc_ok s none h = nothing-Did s _ _ h
  commit_navigation-Did strdup_ok malloc_ok s (some p) h =
      append_url-Did strdup_ok malloc_ok s _ (some p) p refl refl h

  -- To an index of the history.
  abbrev pub jumped : Session P → ℕ → P.Page → Option Trail
  jumped s target p = walk target [] s.urls

  settle_traverse-Did :
      (s : Session P) (target : ℕ) (l : Loaded P.Page)
      → target < length s.urls
      → IsSession s
      → Did s (jumped s target) (settle_traverse P s target l)
  settle_traverse-Did s target (load_failed text) k h = nothing-Did s _ (failed text) h
  settle_traverse-Did s target (page_loaded page) k h = record {
    kept = record { inside = inl k };
    effect = inr (refl, (page, refl, refl));
  }

  traverse-Did :
      (U : Utf8proc) (parse_ok : Bool) (s : Session P) (target : ℕ)
      → target < length s.urls
      → IsSession s
      → Did s (jumped s target) (traverse P U parse_ok s target)
  unfolding traverse
  traverse-Did U parse_ok s target k h = option-Did s.page (nothing-Did s _ _ h) (λ page.
      if-Did (not s.has_network) (nothing-Did s _ _ h) (
        option-Did (tai_url_parse U parse_ok (some (get_or s.urls target []))) (nothing-Did s _ _ h)
          (λ url. settle_traverse-Did s target _ k h)))

  pub commit_history-Did :
      (s : Session P) (candidate : Option P.Page) (target : ℕ)
      → IsSession s
      → Did s (jumped s target) (tai_session_commit_history P s candidate target)
  unfolding tai_session_commit_history
  commit_history-Did s none target h = nothing-Did s _ _ h
  commit_history-Did s (some p) target h =
      test-Did
        (length s.urls == 0
          || leb (length s.urls) target
          || not (str_eq (P.tai_page_url p).serialized (get_or s.urls target [])))
        (λ e. nothing-Did s _ _ h)
        (λ e. record {
          kept = record { inside = inl (inside_jump target s.urls _ e) };
          effect = inr (refl, (p, refl, refl));
        })

  abbrev pub backed : Session P → P.Page → Option Trail
  backed s p = go_back (trail s)

  abbrev pub forwarded : Session P → P.Page → Option Trail
  forwarded s p = go_forward (trail s)

  pub back-Did :
      (U : Utf8proc) (parse_ok : Bool) (s : Session P)
      → IsSession s
      → Did s (backed s) (tai_session_back P U parse_ok s)
  unfolding tai_session_back
  back-Did U parse_ok s h =
      test-Did (s.index == 0) (λ e. nothing-Did s _ _ h)
        (λ e.
          let one : suc (s.index - 1) ≡ s.index = ground arith in
          let q : s.index < length s.urls = ground (arith, h.inside) in
          moves-Did (backed s)
            (λ p.
              walk-back (s.index - 1) [] s.urls (rw one q)
              ∙ ap (λ n. go_back (walk n [] s.urls)) one)
            (traverse-Did U parse_ok s (s.index - 1) (omega arith) h))

  pub forward-Did :
      (U : Utf8proc) (parse_ok : Bool) (s : Session P)
      → IsSession s
      → Did s (forwarded s) (tai_session_forward P U parse_ok s)
  unfolding tai_session_forward
  forward-Did U parse_ok s h =
      test-Did (ltb (s.index + 1) (length s.urls))
        (λ e.
          let one : s.index + 1 ≡ suc s.index = omega arith in
          let q : s.index + 1 < length s.urls = ground arith in
          moves-Did (forwarded s) (λ p. rw one (walk-forward s.index [] s.urls (omega arith)))
            (traverse-Did U parse_ok s (s.index + 1) q h))
        (λ e. nothing-Did s _ _ h)
