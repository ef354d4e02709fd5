-- ===== src/Tests/MarkupRuns.antt =====
-- Runs of the bookmarks page of src/tabset.c and of the address field of
-- src/presentation_address.c.
use tai_ci.Base.{◌≡◌, refl, true, false, [], ◌∷◌, ◌++◌, some, codes, str_eq}
use tai_ci.Markup.{markup_items}
use tai_ci.Markup.Escaping.{read_items, read_items-markup_items}
use tai_ci.Editor.{
  tai_pres_editor_discard, tai_pres_address_follow_view, promised_width, following, first_bits,
  overlong, tai_pres_utf8_width, count_from, utf8_count, tai_pres_utf8_byte_at,
}
use tai_ci.Editor.Characters.{byte_at-count}

read_items-markup_items_example :
    read_items 1 (markup_items (codes "http://h/?a=\"<&'>" ∷ []) ++ codes "</ul>")
    ≡ codes "http://h/?a=\"<&'>" ∷ []
read_items-markup_items_example =
    read_items-markup_items (codes "http://h/?a=\"<&'>" ∷ []) (codes "</ul>")

-- "aé€" and a byte that starts no character.
count_run : utf8_count (97 ∷ 195 ∷ 169 ∷ 226 ∷ 130 ∷ 172 ∷ 255 ∷ []) ≡ 4
unfolding utf8_count count_from tai_pres_utf8_width promised_width following first_bits overlong
count_run = refl

byte_at-count_example :
    tai_pres_utf8_byte_at (97 ∷ 195 ∷ 169 ∷ []) (utf8_count (97 ∷ 195 ∷ 169 ∷ [])) ≡ 3
byte_at-count_example = byte_at-count (97 ∷ 195 ∷ 169 ∷ [])

-- A page that loads in the tab takes away what was being typed.
follow_run :
    tai_pres_address_follow_view true
      (record { url = some (codes "a"); active_index = 0 })
      (some (codes "b"))
      0
      (record { text = some (codes "typed"); cursor = 5; focused = true; dirty = true })
      false
    ≡ (
      record { url = some (codes "b"); active_index = 0 },
      record { text = some []; cursor = 0; focused = false; dirty = false },
      true,
      true,
    )
unfolding tai_pres_address_follow_view tai_pres_editor_discard str_eq
follow_run = refl
