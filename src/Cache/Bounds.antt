-- ===== src/Cache/Bounds.antt =====
-- The size of the response cache of src/network.c.
use tai_ci.Base.{
  ℕ, ◌+◌, ◌≤◌, ◌⊎◌, inl, inr, Bool, true, false, List, [], ◌∷◌, arith, length, ltb, ◌||◌,
  Bool-cases, Option-cases,
}
use tai_ci.Cache.{
  Entry, Request, total, put_entry, make_room, entry_of, kept_for, cache_store, max_bytes,
}

-- At most 64 entries, and at most 64 MiB of bodies or a single entry.
pub record IsSmall (entries : List Entry) : Type 0 where
  pub few : length entries ≤ 64
  pub light : (total entries ≤ max_bytes) ⊎ (length entries ≤ 1)

length-put_entry : (es : List Entry) (new : Entry) → length (put_entry es new) ≤ 1 + length es
unfolding put_entry
length-put_entry [] new = omega arith
length-put_entry (e ∷ es) new = ground (arith, length-put_entry es new)

total-put_entry :
    (es : List Entry) (new : Entry) → total (put_entry es new) ≤ length new.response.body + total es
unfolding put_entry total
total-put_entry [] new = omega arith
total-put_entry (e ∷ es) new = ground (arith, total-put_entry es new)

put_entry-IsSmall : (es : List Entry) (new : Entry) → IsSmall (put_entry (make_room es new) new)
unfolding make_room
put_entry-IsSmall es new =
    elim (Bool-cases
      (ltb max_bytes (length new.response.body + total es) || ltb 64 (1 + length es))) [
        | inl e ↦ rw e (record {
          few = omega (arith, length-put_entry [] new);
          light = inr omega (arith, length-put_entry [] new);
        })
        | inr e ↦ rw e (record {
          few = ground (arith, length-put_entry es new);
          light = inl ground (arith, total-put_entry es new);
        })
      ]

-- Storing a response keeps the cache within 64 entries and, unless one entry is all there is, within
-- 64 MiB of bodies.
pub cache_store-IsSmall :
    (memory : Bool) (now : ℕ) (entries : List Entry) (q : Request)
    → IsSmall entries
    → IsSmall (cache_store memory now entries q)
unfolding cache_store
cache_store-IsSmall false now entries q h = h
cache_store-IsSmall true now entries q h = elim (Option-cases (kept_for q)) [
  | inl e ↦ rw e h
  | inr (age, e) ↦ rw e (put_entry-IsSmall entries (entry_of now q age))
]
