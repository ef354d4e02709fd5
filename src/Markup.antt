-- ===== src/Markup.antt =====
-- src/tabset.c: the page that lists the bookmarks, as HTML text. `memory` says whether the
-- allocations succeed. No text here comes near SIZE_MAX.
pub mod Escaping
use tai_ci.Base.{
  ℕ, Bool, true, false, List, [], ◌∷◌, ◌++◌, Option, none, some, Bytes, codes, length, ◌==◌,
  if◌then◌else◌,
}

-- What stands for one byte.
unfoldable pub escaped_byte : ℕ → Bytes
escaped_byte c =
    if c == 38
    then codes "&amp;"
    else if c == 60
    then codes "&lt;"
    else if c == 62
    then codes "&gt;"
    else if c == 34
    then codes "&quot;"
    else if c == 39
    then codes "&#x27;"
    else c ∷ []

unfoldable pub markup_append_escaped : Bytes → Bytes
markup_append_escaped [] = []
markup_append_escaped (c ∷ cs) = escaped_byte c ++ markup_append_escaped cs

unfoldable pub markup_items : List Bytes → Bytes
markup_items [] = []
markup_items (url ∷ urls) =
    codes "<li><a href=\""
    ++ (markup_append_escaped url
        ++ (codes "\">" ++ (markup_append_escaped url ++ (codes "</a></li>" ++ markup_items urls))))

unfoldable pub markup_list : List Bytes → Bytes
markup_list [] = codes "<p>No bookmarks yet.</p>"
markup_list (url ∷ urls) = codes "<ul>" ++ (markup_items (url ∷ urls) ++ codes "</ul>")

-- Of the snapshot's URLs.
unfoldable pub bookmarks_markup : Bool → List Bytes → Option Bytes
bookmarks_markup memory urls =
    if memory
    then some (
        codes "<html><head><title>Bookmarks</title></head><body><h1>Bookmarks</h1>"
        ++ (markup_list urls ++ codes "</body></html>"))
    else none
