-- ===== src/Markup/Escaping.antt =====
-- A reader of the bookmarks page of src/tabset.c.
use mathlib.Core.List.{append_assoc}
use tai_ci.Base.{
  ℕ, zero, suc, ◌≡◌, refl, ap, ◌∙◌, inl, inr, true, false, List, [], ◌∷◌, ◌++◌, Option, none, some,
  Bytes, codes, arith, ◌==◌, if◌then◌else◌, lacks, Bool-cases, length, drop, starts_with,
  split_first, split_first-append, str_eq, str_eq_refl,
}
use tai_ci.Markup.{escaped_byte, markup_append_escaped, markup_items}

-- The byte that an entity's name stands for.
unfoldable pub named : Bytes → ℕ
named name =
    if str_eq name (codes "amp")
    then 38
    else if str_eq name (codes "lt")
    then 60
    else if str_eq name (codes "gt")
    then 62
    else if str_eq name (codes "quot")
    then 34
    else 39

-- Text with its entities read; the name of an entity so far, where the reader stands in one.
unfoldable pub unescape : Option Bytes → Bytes → Bytes
unescape name [] = []
unescape none (c ∷ cs) =
    let rest = unescape none cs in
    let entity = unescape (some []) cs in if c == 38 then entity else c ∷ rest
unescape (some name) (c ∷ cs) =
    let rest = unescape none cs in
    let longer = unescape (some (name ++ c ∷ [])) cs in
    if c == 59 then named name ∷ rest else longer

-- The URLs of the list's links, for at most `fuel` links: of each, the attribute up to the quotation
-- mark, if the text up to the next tag is the same.
unfoldable pub read_items : ℕ → Bytes → List Bytes
read_items zero text = []
read_items (suc fuel) text =
    if starts_with text (codes "<li><a href=\"")
    then (elim (split_first 34 (drop 13 text)) [
      | none ↦ []
      | some (address, rest) ↦ elim (split_first 60 (drop 1 rest)) [
        | none ↦ []
        | some (label, more) ↦
            let others = read_items fuel (drop 8 more) in
            if str_eq address label then unescape none address ∷ others else []
      ]
    ])
    else []

-- A byte is one of the five that are escaped, or stands for itself.
by_byte :
    (P : ℕ → Type 0)
    → P 38
    → P 60
    → P 62
    → P 34
    → P 39
    → ((c : ℕ)
        → escaped_byte c ≡ c ∷ []
        → ((c == 38) ≡ false) × ((c == 34) ≡ false) × ((c == 60) ≡ false)
        → P c)
    → (c : ℕ) → P c
unfolding escaped_byte
by_byte P a b d e f other c = elim (Bool-cases (c == 38)) [
  | inl h ↦ let same : c ≡ 38 = ground arith in rw same a
  | inr h ↦ elim (Bool-cases (c == 60)) [
    | inl i ↦ let same : c ≡ 60 = ground arith in rw same b
    | inr i ↦ elim (Bool-cases (c == 62)) [
      | inl j ↦ let same : c ≡ 62 = ground arith in rw same d
      | inr j ↦ elim (Bool-cases (c == 34)) [
        | inl k ↦ let same : c ≡ 34 = ground arith in rw same e
        | inr k ↦ elim (Bool-cases (c == 39)) [
          | inl l ↦ let same : c ≡ 39 = ground arith in rw same f
          | inr l ↦ other c (rw (h, i, j, k, l) refl) (h, k, i)
        ]
      ]
    ]
  ]
]

unescape-escaped_byte :
    (c : ℕ) (rest : Bytes) → unescape none (escaped_byte c ++ rest) ≡ c ∷ unescape none rest
unfolding unescape escaped_byte named str_eq
unescape-escaped_byte c rest =
    by_byte (λ x. unescape none (escaped_byte x ++ rest) ≡ x ∷ unescape none rest) refl refl refl
      refl refl (λ x plain h. rw (plain, h.0) refl) c

lacks-escaped_byte :
    (c : ℕ) (rest : Bytes)
    → (lacks 34 rest ≡ true) × (lacks 60 rest ≡ true)
    → (lacks 34 (escaped_byte c ++ rest) ≡ true) × (lacks 60 (escaped_byte c ++ rest) ≡ true)
unfolding lacks escaped_byte
lacks-escaped_byte c rest h =
    by_byte
      (λ x. (lacks 34 (escaped_byte x ++ rest) ≡ true) × (lacks 60 (escaped_byte x ++ rest) ≡ true))
      h h h h h (λ x plain k. rw (plain, k.1, k.2) h) c

unescape-append_escaped : (s : Bytes) → unescape none (markup_append_escaped s) ≡ s
unfolding markup_append_escaped unescape
unescape-append_escaped [] = refl
unescape-append_escaped (c ∷ cs) =
    unescape-escaped_byte c (markup_append_escaped cs)
    ∙ ap (λ t. c ∷ t) (unescape-append_escaped cs)

lacks-append_escaped :
    (s : Bytes)
    → (lacks 34 (markup_append_escaped s) ≡ true) × (lacks 60 (markup_append_escaped s) ≡ true)
unfolding markup_append_escaped lacks
lacks-append_escaped [] = (refl, refl)
lacks-append_escaped (c ∷ cs) =
    lacks-escaped_byte c (markup_append_escaped cs) (lacks-append_escaped cs)

-- The links of the page, whatever bytes the URLs have, are read back as the URLs, in their order,
-- with the same text shown for each.
pub read_items-markup_items :
    (urls : List Bytes) (after : Bytes)
    → read_items (length urls) (markup_items urls ++ after) ≡ urls
unfolding read_items markup_items starts_with
read_items-markup_items [] after = refl
read_items-markup_items (url ∷ urls) after =
    let text = markup_append_escaped url in
    let (quote, tag) = lacks-append_escaped url in
    rw
      (
        append_assoc text _ after,
        split_first-append 34 text _ quote,
        append_assoc text _ after,
        split_first-append 60 text _ tag,
        str_eq_refl text,
        unescape-append_escaped url,
        read_items-markup_items urls after,
      )
      refl
