-- ===== src/Session.antt =====
-- src/session.c: the history of one tab and the page it shows. What the page module answers (the
-- URL of a page, and what `tai_page_load_request` makes of a request) is the parameter `Pages`.
-- `urls` and `index` are the history; `count` is the length of `urls`. `has_network` says that the
-- session has a network, and `none` as the page is NULL. Each allocation is a Boolean argument that
-- says whether it succeeds. The session itself is never NULL here, and a failed call answers the
-- text of its error, as for a caller whose `*error` was NULL.
pub mod Trail
pub mod Moves
pub mod Requests
use tai_ci.Base.{
  ℕ, suc, ◌+◌, ◌-◌, Bool, true, false, not, ◌||◌, ◌&&◌, List, [], ◌∷◌, ◌++◌, Option, none, some,
  Bytes, String, length, take, get_or, ltb, leb, ◌==◌, if◌then◌else◌, str_eq, max_pointers, codes,
}
use tai_ci.Utf8.{Utf8proc}
use tai_ci.Port.{ℤ, pos, negsuc}
use tai_ci.Url.{Url, tai_url_parse, tai_url_is_external}
use tai_ci.Address.{tai_session_normalize_address}

pub data Loaded {ℓ} (Page : Type ℓ) : Type ℓ where
  page_loaded : Page → Loaded Page
  load_failed : Bytes → Loaded Page

pub record Pages : Type 1 where
  pub Page : Type 0
  pub tai_page_url : Page → Url
  -- URL, referrer, body, style sheet, the page that gives the viewport, and `rtl`
  pub tai_page_load_request : Url → Url → Option Bytes → Bytes → Page → Bool → Loaded Page

pub record Intent : Type 0 where
  pub external : Bool
  pub url : Option Bytes
  pub body : Option Bytes

pub data Outcome : Type 0 where
  done : Outcome
  failed : Bytes → Outcome

abbrev failure : String → Outcome
failure message = failed (codes message)

module _ (P : Pages) where
  open P use {Page, tai_page_url, tai_page_load_request}

  pub record Session : Type 0 where
    pub has_network : Bool
    pub default_css : Bytes
    pub page : Option Page
    pub urls : List Bytes
    pub index : ℕ
    pub rtl : Bool

  unfoldable pub tai_session_create :
      Bool → Bool → Option Page → Option Bytes → Bool → Option Session
  tai_session_create memory network none default_css rtl = none
  tai_session_create memory network (some page) none rtl = none
  tai_session_create memory network (some page) (some css) rtl =
      if network && memory
      then some (record {
        has_network = true;
        default_css = css;
        page = some page;
        urls = (tai_page_url page).serialized ∷ [];
        index = 0;
        rtl = rtl;
      })
      else none

  unfoldable pub tai_session_create_empty : Bool → Option Bytes → Bool → Option Session
  tai_session_create_empty calloc_ok none rtl = none
  tai_session_create_empty calloc_ok (some css) rtl =
      if calloc_ok
      then some (record {
        has_network = false;
        default_css = css;
        page = none;
        urls = [];
        index = 0;
        rtl = rtl;
      })
      else none

  unfoldable pub tai_session_history_url : Bool → Session → ℕ → Option Bytes
  tai_session_history_url strdup_ok s index =
      if ltb index (length s.urls) && strdup_ok then some (get_or s.urls index []) else none

  abbrev pub shown : Session → Option Page → Option Page
  shown s none = s.page
  shown s (some candidate) = some candidate

  unfoldable pub append_url : Bool → Bool → Session → Bytes → Option Page → Session × Outcome
  append_url strdup_ok malloc_ok s url candidate =
      let kept = if length s.urls == 0 then 0 else s.index + 1 in
      if leb max_pointers kept
      then (s, failure "history capacity exceeded")
      else if not strdup_ok
      then (s, failure "history URL allocation failed")
      else if not malloc_ok
      then (s, failure "history allocation failed")
      else (
        record s { urls = take kept s.urls ++ url ∷ []; index = kept; page = shown s candidate },
        done,
      )

  unfoldable pub append_loaded : Bool → Bool → Session → Loaded Page → Session × Outcome
  append_loaded strdup_ok malloc_ok s (load_failed text) = (s, failed text)
  append_loaded strdup_ok malloc_ok s (page_loaded candidate) =
      append_url strdup_ok malloc_ok s (tai_page_url candidate).serialized (some candidate)

  abbrev pub load_request : Session → Page → Url → Option Bytes → Loaded Page
  load_request s page url body =
      tai_page_load_request url (tai_page_url page) body s.default_css page s.rtl

  unfoldable pub tai_session_record_fragment :
      Bool → Bool → Session → Option Bytes → Session × Outcome
  tai_session_record_fragment strdup_ok malloc_ok s none =
      (s, failure "invalid fragment history URL")
  tai_session_record_fragment strdup_ok malloc_ok s (some url) = elim s.page [
    | none ↦ (s, failure "invalid fragment history URL")
    | some page ↦
        if str_eq url (tai_page_url page).serialized
        then append_url strdup_ok malloc_ok s url none
        else (s, failure "invalid fragment history URL")
  ]

  -- `direction < 0`, for the two directions that pass the first test.
  abbrev pub is_backward : ℤ → Option Bool
  is_backward (pos n) = if n == 1 then some false else none
  is_backward (negsuc n) = if n == 0 then some true else none

  -- The index that is stored with the URL of the answer true.
  unfoldable pub tai_session_history_target : Bool → Session → ℤ → Option (Bytes × ℕ)
  tai_session_history_target strdup_ok s direction = elim (is_backward direction) [
    | none ↦ none
    | some backward ↦
        let target = if backward then s.index - 1 else s.index + 1 in
        if length s.urls == 0
        then none
        else if backward && s.index == 0 || leb (length s.urls) target
        then none
        else if strdup_ok
        then some (get_or s.urls target [], target)
        else none
  ]

  unfoldable pub tai_session_commit_navigation :
      Bool → Bool → Session → Option Page → Session × Outcome
  tai_session_commit_navigation strdup_ok malloc_ok s none =
      (s, failure "invalid loaded-page commit")
  tai_session_commit_navigation strdup_ok malloc_ok s (some candidate) =
      append_url strdup_ok malloc_ok s (tai_page_url candidate).serialized (some candidate)

  unfoldable pub tai_session_commit_history : Session → Option Page → ℕ → Session × Outcome
  tai_session_commit_history s none target = (s, failure "invalid history-page commit")
  tai_session_commit_history s (some candidate) target =
      if length s.urls == 0
        || leb (length s.urls) target
        || not (str_eq (tai_page_url candidate).serialized (get_or s.urls target []))
      then (s, failure "invalid history-page commit")
      else (record s { page = some candidate; index = target }, done)

  abbrev pub settle_traverse : Session → ℕ → Loaded Page → Session × Outcome
  settle_traverse s target (load_failed text) = (s, failed text)
  settle_traverse s target (page_loaded candidate) =
      (record s { page = some candidate; index = target }, done)

  module _ (U : Utf8proc) where
    -- `parse_ok` says whether the allocations of `tai_url_parse` succeed.
    unfoldable pub traverse : Bool → Session → ℕ → Session × Outcome
    traverse parse_ok s target = elim s.page [
      | none ↦ (s, failure "session has no loaded page")
      | some page ↦
          if not s.has_network
          then (s, failure "session has no loaded page")
          else elim (tai_url_parse U parse_ok (some (get_or s.urls target []))) [
            | none ↦ (s, failure "history URL allocation failed")
            | some url ↦ settle_traverse s target (load_request s page url none)
          ]
    ]

    unfoldable pub tai_session_back : Bool → Session → Session × Outcome
    tai_session_back parse_ok s =
        if s.index == 0 then (s, done) else traverse parse_ok s (s.index - 1)

    unfoldable pub tai_session_forward : Bool → Session → Session × Outcome
    tai_session_forward parse_ok s =
        if ltb (s.index + 1) (length s.urls) then traverse parse_ok s (s.index + 1) else (s, done)

    unfoldable pub tai_session_navigate :
        Bool → Bool → Bool → Session → Option Intent → Session × Outcome
    tai_session_navigate parse_ok strdup_ok malloc_ok s none =
        (s, failure "invalid session navigation")
    tai_session_navigate parse_ok strdup_ok malloc_ok s (some intent) = elim s.page [
      | none ↦ (s, failure "invalid session navigation")
      | some page ↦
          if not s.has_network
          then (s, failure "invalid session navigation")
          else if intent.external
          then (s, done)
          else elim (tai_url_parse U parse_ok intent.url) [
            | none ↦ (s, failure "navigation URL allocation failed")
            | some url ↦ append_loaded strdup_ok malloc_ok s (load_request s page url intent.body)
          ]
    ]

    -- `normalize_ok` says the same of `tai_session_normalize_address`.
    unfoldable pub tai_session_navigate_address :
        Bool → Bool → Bool → Bool → Session → Option Bytes → Session × Outcome
    tai_session_navigate_address normalize_ok parse_ok strdup_ok malloc_ok s none =
        (s, failure "invalid address navigation")
    tai_session_navigate_address normalize_ok parse_ok strdup_ok malloc_ok s (some text) =
        elim s.page [
          | none ↦ (s, failure "invalid address navigation")
          | some page ↦
              if not s.has_network
              then (s, failure "invalid address navigation")
              else elim (tai_session_normalize_address U normalize_ok (some text)) [
                | none ↦ (s, failure "address URL is malformed or unsupported")
                | some normalized ↦ elim (tai_url_parse U parse_ok (some normalized)) [
                  | none ↦ (s, failure "address URL allocation failed")
                  | some url ↦
                      if tai_url_is_external url
                      then (s, failure "mailto requires an external application")
                      else append_loaded strdup_ok malloc_ok s (load_request s page url none)
                ]
              ]
        ]
