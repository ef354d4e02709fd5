-- ===== src/Cache/Hits.antt =====
-- What `cache_find` of src/network.c answers for what was stored.
use tai_ci.Base.{
  ℕ, ◌+◌, ◌<◌, ◌≡◌, inl, inr, refl, true, List, [], ◌∷◌, some, arith, ltb, str_eq, str_eq_refl,
  Bool-cases,
}
use tai_ci.Cache.{
  Entry, Request, response_copy, put_entry, make_room, entry_of, kept_for, cache_store, cache_find,
  max_lifetime,
}

find-put_entry :
    (now : ℕ) (es : List Entry) (new : Entry)
    → now < new.expires
    → cache_find now (put_entry es new) new.key ≡ some new.response
unfolding cache_find put_entry
find-put_entry now [] new h =
    let fresh : ltb now new.expires ≡ true = ground arith in rw (str_eq_refl new.key, fresh) refl
find-put_entry now (e ∷ es) new h = elim (Bool-cases (str_eq e.key new.key)) [
  | inl f ↦
      let fresh : ltb now new.expires ≡ true = ground arith in
      rw (f, str_eq_refl new.key, fresh) refl
  | inr f ↦ rw (f, f, find-put_entry now es new h) refl
]

-- A response that may be kept for `age` seconds is found under its key until that many seconds, or
-- ten years if that is less, have passed; what is found has its status,
-- headers and body. No allocation fails.
pub cache_find-store :
    (now later age : ℕ) (entries : List Entry) (q : Request)
    → kept_for q ≡ some age
    → later < now + age
    → later < now + max_lifetime
    → cache_find later (cache_store true now entries q) q.key ≡ some (response_copy q.response)
unfolding cache_store entry_of
cache_find-store now later age entries q e h k = rw e (
    find-put_entry later (make_room entries (entry_of now q age)) (entry_of now q age)
      (ground arith))
