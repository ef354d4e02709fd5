-- ===== src/Url/Resolve.antt =====
-- `tai_url_resolve` of src/url.c: the text of the absolute URL that a relative one stands for.
use tai_ci.Base.{
  ℕ, Bool, ◌||◌, ◌&&◌, [], ◌∷◌, ◌++◌, Option, none, some, Bytes, codes, length, ltb, ◌==◌,
  if◌then◌else◌, split_first, split_last,
}
use tai_ci.Utf8.{Utf8proc, strip}
use tai_ci.Url.{
  Url, colon, slash, hash, join, supported, is_scheme, has_prefix, tai_url_is_http, tai_url_parse,
}

-- The text before the first `#`.
unfoldable pub sans_fragment : Bytes → Bytes
sans_fragment text = elim (split_first hash text) [ none ↦ text | some (before, _) ↦ before ]

-- `*parent = '\0'` at the last slash, if there is one.
unfoldable pub parent : Bytes → Bytes
parent dir = elim (split_last slash dir) [ none ↦ dir | some (before, _) ↦ before ]

-- The loop over leading "../": the rest of the text and the directory.
unfoldable pub climb : Bytes → Bytes → Bytes × Bytes
climb [] dir = ([], dir)
climb (a ∷ []) dir = (a ∷ [], dir)
climb (a ∷ b ∷ []) dir = (a ∷ b ∷ [], dir)
climb (a ∷ b ∷ c ∷ tail) dir =
    let above = climb tail (parent dir) in
    if a == 46 && b == 46 && c == slash then above else (a ∷ b ∷ c ∷ tail, dir)

-- A colon that stands before every slash ends a scheme.
unfoldable pub scheme_of : Bytes → Option Bytes
scheme_of s = elim (split_first colon s) [
  | none ↦ none
  | some (scheme, _) ↦ elim (split_first slash s) [
    | none ↦ some scheme
    | some (before, _) ↦ if ltb (length scheme) (length before) then some scheme else none
  ]
]

-- The branch of a path that is relative to the base's directory.
unfoldable pub relative_text : Url → Bytes → Option Bytes
relative_text base s = elim (split_last slash base.path) [
  | none ↦ none
  | some (dir, _) ↦
      let (tail, above) = climb s dir in
      let prefix =
        if tai_url_is_http base then base.origin else join base.scheme (codes "://") base.host in
      some (prefix ++ join above (slash ∷ []) tail)
]

-- The branch of a path from the root.
unfoldable pub rooted_text : Url → Bytes → Option Bytes
rooted_text base s =
    if tai_url_is_http base
    then some (base.origin ++ s)
    else if is_scheme base.scheme "file"
    then some (codes "file://" ++ s)
    else none

module _ (U : Utf8proc) where
  -- `text` where the relative URL names a scheme.
  unfoldable pub absolute_text : Bytes → Bytes → Option Bytes
  absolute_text s scheme = elim (U.casefold scheme) [
    | none ↦ none
    | some folded ↦ if supported folded || is_scheme folded "view-source" then some s else none
  ]

  -- `text` for the stripped relative URL `c ∷ cs`.
  unfoldable pub resolved_text : Url → ℕ → Bytes → Option Bytes
  resolved_text base c cs =
      if c == hash
      then some (sans_fragment base.serialized ++ (if length cs == 0 then [] else c ∷ cs))
      else if has_prefix (c ∷ cs) "//"
      then some (base.scheme ++ colon ∷ c ∷ cs)
      else elim (scheme_of (c ∷ cs)) [
        | some scheme ↦ absolute_text (c ∷ cs) scheme
        | none ↦ if c == slash then rooted_text base (c ∷ cs) else relative_text base (c ∷ cs)
      ]

  unfoldable pub tai_url_resolve : Bool → Option Url → Option Bytes → Option Url
  tai_url_resolve memory none relative = none
  tai_url_resolve memory (some base) none = none
  tai_url_resolve memory (some base) (some relative) = elim (strip U relative) [
    | [] ↦ if memory then some base else none
    | c ∷ cs ↦ tai_url_parse U memory (resolved_text base c cs)
  ]
