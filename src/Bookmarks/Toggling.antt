-- ===== src/Bookmarks/Toggling.antt =====
-- `tai_bookmarks_toggle` of src/bookmarks.c: the collection, the answer and the file.
use tai_ci.Base.{
  ℕ, suc, ◌+◌, ◌-◌, ◌≤◌, ◌<◌, ◌≡◌, refl, inl, inr, Bool, true, false, not, ◌&&◌, ◌||◌, List, [],
  ◌∷◌, Option, none, some, Bytes, length, take, drop, length-append, length-take, length-drop,
  max_pointers, str_eq, if◌then◌else◌, arith, Bool-cases, Option-cases, All, All-append, All-take,
  All-drop,
}
use tai_ci.Urls.Search.{IsSorted, rank, lower_loop-eq-rank}
use tai_ci.Urls.Sorted.{
  member, holds_at, insert_at, remove_at, holds_at-rank, insert_at-IsSorted, remove_at-IsSorted,
  member-insert_at, member-remove_at, length-insert_at,
}
use tai_ci.Bookmarks.Format.{Storable, load_file-round_trip}
use tai_ci.Bookmarks.Candidate.{Stores, candidate-insert, candidate-remove, persist_items-Stores}
use tai_ci.Bookmarks.{
  Bookmarks, valid_url, has_nul, lower_bound, Persisted, persist_candidate, has_failed, written_by,
  grow, next_capacity, next_count, Toggled, remove_url, add_url, tai_bookmarks_toggle, u32_max,
  load_file, regular, loaded, unchanged, in_memory, failed, renamed,
}

-- Strings that the collection may hold; C strings have no NUL.
abbrev pub IsUrl : Bytes → Type 0
IsUrl url = (valid_url url ≡ true) × (has_nul url ≡ false)

pub record IsValid (b : Bookmarks) : Type 0 where
  pub sorted : IsSorted b.urls
  pub room : length b.urls ≤ b.capacity
  pub small : b.capacity ≤ max_pointers
  pub strings : All IsUrl b.urls

module _ (b : Bookmarks) (url : Bytes) (v : IsValid b) where
  index-eq-rank : lower_bound b url ≡ rank url b.urls
  unfolding lower_bound
  index-eq-rank = lower_loop-eq-rank b.urls url v.sorted

  found-eq-member : holds_at b.urls url (lower_bound b url) ≡ member url b.urls
  found-eq-member = rw index-eq-rank (holds_at-rank b.urls url v.sorted)

  -- The list without the URL.
  record Removed : Type 0 where
    sorted : IsSorted (remove_at b.urls (lower_bound b url))
    size : length (remove_at b.urls (lower_bound b url)) ≡ length b.urls - 1
    strings : All IsUrl (remove_at b.urls (lower_bound b url))
    members :
        (j : Bytes)
        → member j (remove_at b.urls (lower_bound b url)) ≡ (not (str_eq url j) && member j b.urls)

  removed : holds_at b.urls url (lower_bound b url) ≡ true → Removed
  removed found = record {
    sorted = rw index-eq-rank (remove_at-IsSorted b.urls url v.sorted);
    size =
        let small : lower_bound b url < length b.urls = ground arith in
        omega (
          arith,
          length-append (take (lower_bound b url) b.urls) (drop (suc (lower_bound b url)) b.urls),
          length-take (lower_bound b url) b.urls,
          length-drop (suc (lower_bound b url)) b.urls,
        );
    strings =
        All-append IsUrl (take (lower_bound b url) b.urls) (drop (suc (lower_bound b url)) b.urls)
          (All-take IsUrl (lower_bound b url) b.urls v.strings)
          (All-drop IsUrl (suc (lower_bound b url)) b.urls v.strings);
    members = λ j.
        rw index-eq-rank (member-remove_at b.urls url v.sorted j (rw found-eq-member at found));
  }

  -- The list with the URL.
  record Inserted : Type 0 where
    sorted : IsSorted (insert_at b.urls (lower_bound b url) url)
    size : length (insert_at b.urls (lower_bound b url) url) ≡ length b.urls + 1
    strings : All IsUrl (insert_at b.urls (lower_bound b url) url)
    members :
        (j : Bytes)
        → member j (insert_at b.urls (lower_bound b url) url) ≡ (str_eq url j || member j b.urls)

  inserted : holds_at b.urls url (lower_bound b url) ≡ false → IsUrl url → Inserted
  inserted absent u = record {
    sorted =
        rw index-eq-rank (insert_at-IsSorted b.urls url v.sorted (rw found-eq-member at absent));
    size = rw index-eq-rank (length-insert_at b.urls url);
    strings =
        All-append IsUrl (take (lower_bound b url) b.urls) (url ∷ drop (lower_bound b url) b.urls)
          (All-take IsUrl (lower_bound b url) b.urls v.strings)
          (u, All-drop IsUrl (lower_bound b url) b.urls v.strings);
    members = λ j. rw index-eq-rank (member-insert_at b.urls url v.sorted j);
  }

-- After the write, reading the file gives the list that is in memory.
abbrev pub OnDisk : Option Bytes → List Bytes → Option Bytes → Type 0
OnDisk none urls written = written ≡ none
OnDisk (some path) urls written =
    (bytes : Bytes) × (written ≡ some bytes) × (load_file (λ _. true) (regular bytes) ≡ loaded urls)

storable :
    (urls : List Bytes)
    → All IsUrl urls
    → All (λ (u : Bytes). length u ≤ u32_max) urls
    → All Storable urls
storable [] a h = tt
storable (u ∷ urls) a h = ((a.0.0, a.0.1, h.0), storable urls a.1 h.1)

Stores-OnDisk :
    (path : Option Bytes) (urls : List Bytes) (p : Persisted)
    → IsSorted urls
    → All IsUrl urls
    → Stores path urls p
    → has_failed p ≡ false
    → OnDisk path urls (written_by p)
Stores-OnDisk path urls failed s a h f = cc
Stores-OnDisk none urls in_memory s a h f = refl
Stores-OnDisk (some path) urls in_memory s a h f = cc
Stores-OnDisk none urls (renamed bytes) s a h f = absurd (h.3 refl)
Stores-OnDisk (some path) urls (renamed bytes) s a h f = (
  bytes,
  refl,
  rw h.0 (load_file-round_trip (λ _. true) urls (λ k. refl) s (storable urls a h.2) h.1),
)

-- What a toggle answers: on success the new state of the URL, which is the opposite of the old one,
-- with every other URL as it was and the file, if there is one, now holding the new list; on failure
-- the strings and the file are as they were.
abbrev pub Answers : Bookmarks → Bytes → Toggled → Option Bool → Type 0
Answers b url t none = (t.after.urls ≡ b.urls) × (t.written ≡ none)
Answers b url t (some now) =
    (now ≡ not (member url b.urls))
    × ((j : Bytes) → member j t.after.urls ≡ (if str_eq url j then now else member j b.urls))
    × OnDisk b.path t.after.urls t.written

abbrev Toggles : Bookmarks → Bytes → Toggled → Type 0
Toggles b url t = IsValid t.after × Answers b url t t.now_bookmarked

Stores-remove :
    (io_ok : Bool) (b : Bookmarks) (url : Bytes) (index : ℕ)
    → length (remove_at b.urls index) ≡ length b.urls - 1
    → Stores b.path (remove_at b.urls index) (persist_candidate io_ok b url index false)
unfolding persist_candidate next_count
Stores-remove io_ok b url index n =
    rw (candidate-remove b.urls url index n)
      (persist_items-Stores io_ok b.path (length b.urls - 1) (remove_at b.urls index) n)

Stores-insert :
    (io_ok : Bool) (b : Bookmarks) (url : Bytes) (index : ℕ)
    → index ≤ length b.urls
    → length (insert_at b.urls index url) ≡ length b.urls + 1
    → Stores b.path (insert_at b.urls index url) (persist_candidate io_ok b url index true)
unfolding persist_candidate next_count
Stores-insert io_ok b url index h n =
    rw (candidate-insert b.urls url index h n)
      (persist_items-Stores io_ok b.path (length b.urls + 1) (insert_at b.urls index url) n)

abbrev Fits : ℕ → Option ℕ → Type 0
Fits n none = Unit
Fits n (some c) = (n + 1 ≤ c) × (c ≤ max_pointers)

grow-Fits : (ok : Bool) (b : Bookmarks) → IsValid b → Fits (length b.urls) (grow ok b)
unfolding grow next_capacity
grow-Fits ok b h = ground arith

rank-le : (url : Bytes) (urls : List Bytes) → rank url urls ≤ length urls
unfolding rank
rank-le url [] = omega arith
rank-le url (x ∷ urls) = ground (arith, rank-le url urls)

module _ (b : Bookmarks) (url : Bytes) (v : IsValid b) where
  unchanged-Toggles :
      (c : ℕ)
      → length b.urls ≤ c
      → c ≤ max_pointers
      → Toggles b url (unchanged (record b { capacity = c }))
  unchanged-Toggles c h k =
      (record { sorted = v.sorted; room = h; small = k; strings = v.strings }, (refl, refl))

  remove_url-Toggles :
      (io_ok : Bool)
      → holds_at b.urls url (lower_bound b url) ≡ true
      → Toggles b url (remove_url io_ok b url (lower_bound b url))
  unfolding remove_url
  remove_url-Toggles io_ok found =
      let r = removed b url v found in
      let p = persist_candidate io_ok b url (lower_bound b url) false in
      let stores = Stores-remove io_ok b url (lower_bound b url) r.size in
      elim (Bool-cases (has_failed p)) [
        | inl e ↦ rw (e, remove_url) (unchanged-Toggles b.capacity v.room v.small)
        | inr e ↦
            rw (e, remove_url)
              (
                record {
                  sorted = r.sorted;
                  room = omega (arith, r.size, v.room);
                  small = v.small;
                  strings = r.strings;
                },
                (
                  ground (arith, found-eq-member b url v),
                  λ j. ground (arith, r.members j),
                  Stores-OnDisk b.path _ p r.sorted r.strings stores e,
                ),
              )
      ]

  stored_url :
      (io_ok : Bool) (c : ℕ)
      → holds_at b.urls url (lower_bound b url) ≡ false
      → IsUrl url
      → length b.urls + 1 ≤ c
      → c ≤ max_pointers
      → has_failed
          (persist_candidate io_ok (record b { capacity = c }) url (lower_bound b url) true)
        ≡ false
      → Toggles b url (record {
        after = record b { urls = insert_at b.urls (lower_bound b url) url; capacity = c };
        now_bookmarked = some true;
        written =
            written_by
              (persist_candidate io_ok (record b { capacity = c }) url (lower_bound b url) true);
      })
  stored_url io_ok c absent u h k e =
      let r = inserted b url v absent u in
      let grown : Bookmarks = record b { capacity = c } in
      let stores =
        Stores-insert io_ok grown url (lower_bound b url)
          (rw (index-eq-rank b url v) (rank-le url b.urls)) r.size in
      (
        record { sorted = r.sorted; room = omega (arith, r.size); small = k; strings = r.strings },
        (
          ground (arith, found-eq-member b url v),
          λ j. ground (arith, r.members j),
          Stores-OnDisk b.path _ (persist_candidate io_ok grown url (lower_bound b url) true)
              r.sorted r.strings stores e,
        ),
      )

  add_url-Toggles :
      (malloc_ok realloc_ok io_ok : Bool)
      → holds_at b.urls url (lower_bound b url) ≡ false
      → IsUrl url
      → Toggles b url (add_url malloc_ok realloc_ok io_ok b url (lower_bound b url))
  unfolding add_url
  add_url-Toggles false realloc_ok io_ok absent u = unchanged-Toggles b.capacity v.room v.small
  add_url-Toggles true realloc_ok io_ok absent u = elim (Option-cases (grow realloc_ok b)) [
    | inl e ↦ rw (e, add_url) (unchanged-Toggles b.capacity v.room v.small)
    | inr (c, e) ↦
        let fits : Fits (length b.urls) (some c) = rw e at (grow-Fits realloc_ok b v) in
        elim (Bool-cases (
          has_failed
            (persist_candidate io_ok (record b { capacity = c }) url (lower_bound b url) true))) [
              | inl f ↦ rw (e, f, add_url) (unchanged-Toggles c (omega (arith, fits.0)) fits.1)
              | inr f ↦ rw (e, f, add_url) (stored_url io_ok c absent u fits.0 fits.1 f)
            ]
  ]

  -- A toggle keeps the collection well-formed, whatever fails. If it succeeds, its answer is the
  -- opposite of the URL's old state, the URL has that state now and every other URL its old one, and
  -- the file of a collection that has one now reads back as the new collection. If it fails, the
  -- strings are as they were and the file is not written.
  pub toggle-Toggles :
      (malloc_ok realloc_ok io_ok : Bool)
      → has_nul url ≡ false
      → IsValid (tai_bookmarks_toggle malloc_ok realloc_ok io_ok b url).after
        × Answers b url
            (tai_bookmarks_toggle malloc_ok realloc_ok io_ok b url)
            (tai_bookmarks_toggle malloc_ok realloc_ok io_ok b url).now_bookmarked
  unfolding tai_bookmarks_toggle
  toggle-Toggles malloc_ok realloc_ok io_ok clean = elim (Bool-cases (valid_url url)) [
    | inr bad ↦ rw (bad, tai_bookmarks_toggle) (unchanged-Toggles b.capacity v.room v.small)
    | inl good ↦ elim (Bool-cases (holds_at b.urls url (lower_bound b url))) [
      | inl found ↦ rw (good, found, tai_bookmarks_toggle) (remove_url-Toggles io_ok found)
      | inr absent ↦
          rw (good, absent, tai_bookmarks_toggle)
            (add_url-Toggles malloc_ok realloc_ok io_ok absent (good, clean))
    ]
  ]
