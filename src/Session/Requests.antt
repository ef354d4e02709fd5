-- ===== src/Session/Requests.antt =====
-- The operations of src/session.c as one step, and where back and forward lead.
use tai_ci.Base.{
  ℕ, suc, ◌+◌, ◌-◌, ◌<◌, ◌≡◌, refl, ap, ◌∙◌, sym, Bool, true, false, [], Option, none, some, Bytes,
  arith, length, get_or, ltb, leb, ◌==◌, str_eq_refl,
}
use tai_ci.Utf8.{Utf8proc}
use tai_ci.Url.{Url, parse, tai_url_parse}
use tai_ci.Port.{ℤ, pos, negsuc}
use tai_ci.Session.Trail.{Trail, go_back, go_forward, walk, walk-forward, walk-back}
use tai_ci.Session.Moves.{
  trail, IsSession, Did, visited, jumped, backed, forwarded, navigate-Did, navigate_address-Did,
  record_fragment-Did, commit_navigation-Did, commit_history-Did, back-Did, forward-Did,
}
use tai_ci.Session.{
  Pages, Outcome, done, Intent, Session, traverse, settle_traverse, page_loaded,
  tai_session_record_fragment, tai_session_commit_navigation, tai_session_commit_history,
  tai_session_history_target, tai_session_back, tai_session_forward, tai_session_navigate,
  tai_session_navigate_address,
}

module _ (P : Pages) where
  -- A call of one of the operations that change a session, with its arguments and with whether its
  -- allocations succeed.
  pub data Request : Type 0 where
    navigates : Bool → Bool → Bool → Option Intent → Request
    addresses : Bool → Bool → Bool → Bool → Option Bytes → Request
    fragments : Bool → Bool → Option Bytes → Request
    commits : Bool → Bool → Option P.Page → Request
    commits_index : Option P.Page → ℕ → Request
    goes_back : Bool → Request
    goes_forward : Bool → Request

  module _ (U : Utf8proc) where
    unfoldable pub perform : Session P → Request → Session P × Outcome
    perform s (navigates a b c intent) = tai_session_navigate P U a b c s intent
    perform s (addresses a b c d text) = tai_session_navigate_address P U a b c d s text
    perform s (fragments a b url) = tai_session_record_fragment P a b s url
    perform s (commits a b page) = tai_session_commit_navigation P a b s page
    perform s (commits_index page target) = tai_session_commit_history P s page target
    perform s (goes_back a) = tai_session_back P U a s
    perform s (goes_forward a) = tai_session_forward P U a s

    -- Where a request leads along the trail, when it ends on the page `p`.
    abbrev pub destination : Session P → Request → P.Page → Option Trail
    destination s (commits_index page target) = jumped P s target
    destination s (goes_back a) = backed P s
    destination s (goes_forward a) = forwarded P s
    destination s request = visited P s

    -- A request on a session whose index is inside its history keeps it so. Either it changes
    -- nothing at all, or it succeeds and the trail moves as the request says: to a new entry with
    -- the URL of the page now shown, that forgets what was ahead; one step back; one step forward;
    -- or to the given index.
    pub perform-Did :
        (s : Session P) (request : Request)
        → IsSession P s
        → Did P s (destination s request) (perform s request)
    unfolding perform
    perform-Did s (navigates a b c intent) h = navigate-Did P U a b c s intent h
    perform-Did s (addresses a b c d text) h = navigate_address-Did P U a b c d s text h
    perform-Did s (fragments a b url) h = record_fragment-Did P a b s url h
    perform-Did s (commits a b page) h = commit_navigation-Did P a b s page h
    perform-Did s (commits_index page target) h = commit_history-Did P s page target h
    perform-Did s (goes_back a) h = back-Did P U a s h
    perform-Did s (goes_forward a) h = forward-Did P U a s h

    -- The page module builds a page for every request.
    pub record Loads : Type 0 where
      pub loads :
          (url referrer : Url) (body : Option Bytes) (css : Bytes) (view : P.Page) (rtl : Bool)
          → (p : P.Page) × (P.tai_page_load_request url referrer body css view rtl ≡ page_loaded p)

    pub traverse_loaded :
        (s : Session P) (target : ℕ) (page : P.Page)
        → Loads
        → s.page ≡ some page
        → s.has_network ≡ true
        → (p : P.Page) × (traverse P U true s target
            ≡ (record s { page = some p; index = target }, done))
    unfolding traverse tai_url_parse
    traverse_loaded s target page l now net =
        let url = parse U (get_or s.urls target []) in
        let (p, e) = l.loads url (P.tai_page_url page) none s.default_css page s.rtl in
        let known : Session P = record s { page = some page; has_network = true } in
        (p, rw (now, net) (ap (λ x. settle_traverse P known target x) e))

    back-traverse :
        (s : Session P)
        → 0 < s.index
        → tai_session_back P U true s ≡ traverse P U true s (s.index - 1)
    unfolding tai_session_back
    back-traverse s h = let e : (s.index == 0) ≡ false = ground arith in simp e

    forward-traverse :
        (s : Session P)
        → s.index + 1 < length s.urls
        → tai_session_forward P U true s ≡ traverse P U true s (s.index + 1)
    unfolding tai_session_forward
    forward-traverse s h = let e : ltb (s.index + 1) (length s.urls) ≡ true = ground arith in simp e

    -- In a session with a page, a network and an index above 0 and inside the history, where every
    -- page loads and no allocation fails, going back succeeds and lowers the index by one; going
    -- forward then succeeds too and, but for the page, gives the session that it began with.
    pub back-forward :
        (s : Session P) (page : P.Page)
        → Loads
        → s.page ≡ some page
        → s.has_network ≡ true
        → 0 < s.index
        → s.index < length s.urls
        → (p q : P.Page) × (tai_session_back P U true s
            ≡ (record s { page = some p; index = s.index - 1 }, done))
          × (tai_session_forward P U true (tai_session_back P U true s).0
              ≡ (record s { page = some q }, done))
    back-forward s page l now net positive inside =
        let (p, e) = traverse_loaded s (s.index - 1) page l now net in
        let t : Session P = record s { page = some p; index = s.index - 1 } in
        let (q, f) = traverse_loaded t (t.index + 1) p l refl net in
        let one : s.index - 1 + 1 ≡ s.index = omega arith in
        let back = back-traverse s positive ∙ e in
        (
          p,
          q,
          back,
          rw back (
              forward-traverse t (rw one inside)
              ∙ f
              ∙ ap (λ i. (record s { page = some q; index = i }, done)) one),
        )

  target_ahead :
      (s : Session P) (n : ℕ) (url : Bytes) (target : ℕ)
      → tai_session_history_target P true s (pos n) ≡ some (url, target)
      → (target ≡ s.index + 1) × (target < length s.urls) × (url ≡ get_or s.urls target [])
  unfolding tai_session_history_target
  target_ahead s n url target e = ground arith

  target_behind :
      (s : Session P) (n : ℕ) (url : Bytes) (target : ℕ)
      → IsSession P s
      → tai_session_history_target P true s (negsuc n) ≡ some (url, target)
      → (s.index ≡ target + 1) × (s.index < length s.urls) × (url ≡ get_or s.urls target [])
  unfolding tai_session_history_target
  target_behind s n url target h e = ground (arith, h.inside)

  commit_history_made :
      (s : Session P) (p : P.Page) (target : ℕ)
      → target < length s.urls
      → (P.tai_page_url p).serialized ≡ get_or s.urls target []
      → tai_session_commit_history P s (some p) target
        ≡ (record s { page = some p; index = target }, done)
  unfolding tai_session_commit_history
  commit_history_made s p target h e =
      let f : (length s.urls == 0) ≡ false = ground arith in
      let g : leb (length s.urls) target ≡ false = ground arith in
      rw (e, str_eq_refl (get_or s.urls target []), f, g) refl

  -- A page with the URL that is answered for a direction, committed at the target that is answered
  -- with it, is accepted and moves the trail one step: forward for a direction of 1 and back for one
  -- of -1. The index of the session is inside its history.
  pub history_target-commit_history :
      (s : Session P) (direction : ℤ) (url : Bytes) (target : ℕ) (p : P.Page)
      → IsSession P s
      → tai_session_history_target P true s direction ≡ some (url, target)
      → (P.tai_page_url p).serialized ≡ url
      → ((tai_session_commit_history P s (some p) target).1 ≡ done)
        × (trail P (tai_session_commit_history P s (some p) target).0
            ≡ (elim direction [ pos n ↦ go_forward (trail P s) | negsuc n ↦ go_back (trail P s) ]))
  history_target-commit_history s (pos n) url target p h e same =
      let (a, b, c) = target_ahead s n url target e in
      let one : target ≡ suc s.index = omega arith in
      rw (commit_history_made s p target b (same ∙ c))
        (refl, rw one (walk-forward s.index [] s.urls (omega arith)))
  history_target-commit_history s (negsuc n) url target p h e same =
      let (a, b, c) = target_behind s n url target h e in
      let one : s.index ≡ suc target = omega arith in
      rw (commit_history_made s p target (omega arith) (same ∙ c)) (
        refl,
        walk-back target [] s.urls (omega arith) ∙ ap (λ i. go_back (walk i [] s.urls)) (sym one),
      )
