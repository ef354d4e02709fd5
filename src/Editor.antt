-- ===== src/Editor.antt =====
-- src/presentation_address.c: the characters of the address field's text, and how the field follows
-- the page that is shown. `count` of a text is counted in characters, the cursor too.
pub mod Characters
use tai_ci.Base.{
  ℕ, zero, suc, ◌+◌, ◌-◌, ◌*◌, ◌%◌, Bool, true, false, not, ◌||◌, ◌&&◌, List, [], ◌∷◌, Option, none,
  some, Bytes, length, drop, ltb, leb, ◌==◌, if◌then◌else◌, str_eq,
}

-- The width that the first byte promises.
unfoldable pub promised_width : ℕ → ℕ
promised_width first =
    if leb 194 first && leb first 223
    then 2
    else if leb 224 first && leb first 239
    then 3
    else if leb 240 first && leb first 244
    then 4
    else 1

-- The loop over the bytes that follow the first, `n` of them: `first & mask` is the value so far.
unfoldable pub following : ℕ → ℕ → Bytes → Option ℕ
following zero value rest = some value
following (suc n) value [] = some value
following (suc n) value (next ∷ rest) =
    let more = following n (value * 64 + next % 64) rest in
    if leb 128 next && ltb next 192 then more else none

unfoldable pub first_bits : ℕ → ℕ → ℕ
first_bits width first =
    if width == 2 then first % 32 else (if width == 3 then first % 16 else first % 8)

unfoldable pub overlong : ℕ → ℕ → Bool
overlong width value =
    width == 3 && ltb value 2048
    || width == 4 && ltb value 65536
    || ltb 1114111 value
    || leb 55296 value && leb value 57343

-- The width of the first character and its code point, at an offset inside the text: the text from
-- there on is `first ∷ rest`.
unfoldable pub tai_pres_utf8_width : ℕ → Bytes → ℕ × ℕ
tai_pres_utf8_width first rest =
    let width = promised_width first in
    if ltb first 128
    then (1, first)
    else if width == 1 || ltb (1 + length rest) width
    then (1, first)
    else elim (following (promised_width first - 1) (first_bits (promised_width first) first)
        rest) [
          | none ↦ (1, first)
          | some value ↦
              if overlong (promised_width first) value
              then (1, first)
              else (promised_width first, value)
        ]

-- The loops, for at most `fuel` rounds; the length of the text is enough.
unfoldable pub count_from : ℕ → Bytes → ℕ
count_from zero text = 0
count_from (suc fuel) [] = 0
count_from (suc fuel) (c ∷ cs) = suc (count_from fuel (drop (tai_pres_utf8_width c cs).0 (c ∷ cs)))

unfoldable pub utf8_count : Bytes → ℕ
utf8_count text = count_from (length text) text

-- On the characters that are left to pass.
unfoldable pub tai_pres_utf8_byte_at : Bytes → ℕ → ℕ
tai_pres_utf8_byte_at text zero = 0
tai_pres_utf8_byte_at [] (suc n) = 0
tai_pres_utf8_byte_at (c ∷ cs) (suc n) =
    let width = (tai_pres_utf8_width c cs).0 in
    width + tai_pres_utf8_byte_at (drop width (c ∷ cs)) n

-- `text ? text : ""`
abbrev pub or_empty : Option Bytes → Bytes
or_empty none = []
or_empty (some text) = text

abbrev is_present : Option Bytes → Bool
is_present none = false
is_present (some text) = true

pub record AddressEditor : Type 0 where
  pub text : Option Bytes
  pub cursor : ℕ
  pub focused : Bool
  pub dirty : Bool

pub record AddressWatch : Type 0 where
  pub url : Option Bytes
  pub active_index : ℕ

unfoldable pub tai_pres_editor_discard : AddressEditor → AddressEditor
tai_pres_editor_discard e = record {
  text = elim e.text [ none ↦ none | some _ ↦ some [] ];
  cursor = 0;
  focused = false;
  dirty = false;
}

-- `url` and `active_index` are the view's; the results are the watch, the editor, whether the chrome
-- changed, and whether the call succeeded.
unfoldable pub tai_pres_address_follow_view :
    Bool
    → AddressWatch
    → Option Bytes
    → ℕ
    → AddressEditor
    → Bool
    → AddressWatch × AddressEditor × Bool × Bool
tai_pres_address_follow_view strdup_ok w url active_index e chrome_changed =
    let shown = or_empty url in
    let same_tab = is_present w.url && w.active_index == active_index in
    let same_url = str_eq (or_empty w.url) shown in
    let edited = e.focused || e.dirty in
    if same_tab && same_url
    then (w, e, chrome_changed, true)
    else if not strdup_ok
    then (w, e, chrome_changed, false)
    else (
      record { url = some shown; active_index = active_index },
      (if same_tab && edited then tai_pres_editor_discard e else e),
      same_tab && edited || chrome_changed,
      true,
    )

unfoldable pub editor_set_text : Bool → AddressEditor → Option Bytes → AddressEditor × Bool
editor_set_text strdup_ok e text =
    let copy = or_empty text in
    if strdup_ok
    then (record e { text = some copy; cursor = utf8_count copy }, true)
    else (e, false)
