-- ===== src/Tests/BookmarkRuns.antt =====
-- Runs of src/bookmarks.c.
use tai_ci.Base.{
  ◌≡◌, refl, true, false, List, [], ◌∷◌, ◌++◌, none, some, Bytes, codes, arith, str_lt, str_eq, All,
}
use tai_ci.Urls.Search.{lower_loop, IsSorted}
use tai_ci.Bookmarks.Format.{Storable, load_file-round_trip}
use tai_ci.Bookmarks.Loading.{load_file-canonical}
use tai_ci.Bookmarks.Toggling.{IsValid, Answers, toggle-Toggles}
use tai_ci.Bookmarks.{
  Bookmarks, valid_url, lower_bound, read_u32, write_u32, write_items, file_bytes, load_file,
  regular, loaded, parse_urls, ascends, has_nul, tai_bookmarks_toggle, remove_url, add_url, grow,
  next_capacity, persist_candidate, persist_items, file_size, tabulate, candidate_item, next_count,
}

program : Unit {0}
unfolding lower_loop valid_url lower_bound read_u32 write_u32 write_items file_bytes load_file
    parse_urls ascends has_nul tai_bookmarks_toggle remove_url add_url grow next_capacity
    persist_candidate persist_items file_size tabulate candidate_item next_count str_eq str_lt
program = tt

abbrev two_urls : List Bytes
two_urls = codes "a" ∷ codes "c" ∷ []

abbrev saved : Bookmarks
saved = record { urls = two_urls; capacity = 4; path = some (codes "/b") }

two_urls-IsSorted : IsSorted two_urls
unfolding program
two_urls-IsSorted = ((refl, tt), (tt, tt))

two_urls-Storable : All Storable two_urls
unfolding program
two_urls-Storable = ((refl, refl, omega arith), ((refl, refl, omega arith), tt))

load_file-round_trip_example :
    load_file (λ _. true) (regular (file_bytes two_urls)) ≡ loaded two_urls
unfolding program
load_file-round_trip_example =
    load_file-round_trip (λ _. true) two_urls (λ k. refl) two_urls-IsSorted two_urls-Storable
      (omega arith, omega arith)

abbrev stored : Bytes
stored = codes "TAIBKM1" ++ (10 ∷ 2 ∷ 0 ∷ 0 ∷ 0 ∷ 1 ∷ 0 ∷ 0 ∷ 0 ∷ 97 ∷ 1 ∷ 0 ∷ 0 ∷ 0 ∷ 99 ∷ [])

load_stored : load_file (λ _. true) (regular stored) ≡ loaded two_urls
unfolding program
load_stored = refl

load_file-canonical_example :
    (stored ≡ file_bytes two_urls) × IsSorted two_urls × All Storable two_urls
load_file-canonical_example =
    load_file-canonical (λ _. true) stored two_urls (omega arith) load_stored

saved-IsValid : IsValid saved
unfolding program
saved-IsValid = record {
  sorted = two_urls-IsSorted;
  room = omega arith;
  small = omega arith;
  strings = ((refl, refl), ((refl, refl), tt));
}

toggle-Toggles_example :
    IsValid (tai_bookmarks_toggle true true true saved (codes "b")).after
    × Answers saved
        (codes "b")
        (tai_bookmarks_toggle true true true saved (codes "b"))
        (tai_bookmarks_toggle true true true saved (codes "b")).now_bookmarked
unfolding has_nul
toggle-Toggles_example = toggle-Toggles saved (codes "b") saved-IsValid true true true refl

toggle_adds :
    (tai_bookmarks_toggle true true true saved (codes "b")).after.urls
    ≡ codes "a" ∷ codes "b" ∷ codes "c" ∷ []
unfolding program
toggle_adds = refl

-- A file that cannot be written leaves everything as it was.
toggle_fails : (tai_bookmarks_toggle true true false saved (codes "a")).now_bookmarked ≡ none
unfolding program
toggle_fails = refl
