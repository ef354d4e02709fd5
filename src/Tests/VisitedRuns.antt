-- ===== src/Tests/VisitedRuns.antt =====
-- Runs of src/visited.c.
use tai_ci.Base.{
  ◌≡◌, refl, true, [], ◌∷◌, some, ◌||◌, ◌++◌, codes, arith, str_lt, str_eq, if◌then◌else◌,
}
use tai_ci.Urls.Search.{lower_loop, rank, lower_loop-eq-rank, lower_loop-append}
use tai_ci.Visited.{
  Visited, lower_bound, tai_visited_contains, tai_visited_add, add_url, grow, next_capacity,
  tai_visited_copy, tai_visited_create, copy_urls,
}
use tai_ci.Visited.SetLaws.{IsValid, add-contains, copy_same}

program : Unit {0}
unfolding lower_loop lower_bound tai_visited_contains tai_visited_add add_url grow next_capacity
    tai_visited_copy tai_visited_create copy_urls str_eq
program = tt

abbrev two_urls : Visited
two_urls = record { urls = codes "a" ∷ codes "c" ∷ []; capacity = 8 }

two_urls-IsValid : IsValid two_urls
unfolding str_lt
two_urls-IsValid = record {
  sorted = (((refl), tt), (tt, tt));
  room = omega arith;
  small = omega arith;
}

add_between :
    (tai_visited_add true true (some two_urls) (some (codes "b"))).0
    ≡ some (record { urls = codes "a" ∷ codes "b" ∷ codes "c" ∷ []; capacity = 8 })
unfolding program str_lt
add_between = refl

add-contains_example :
    IsValid (add_url true true two_urls (codes "b")).0
    × (tai_visited_contains
          (tai_visited_add true true (some two_urls) (some (codes "b"))).0
          (some (codes "a"))
        ≡ (if (tai_visited_add true true (some two_urls) (some (codes "b"))).1
            then str_eq (codes "b") (codes "a")
              || tai_visited_contains (some two_urls) (some (codes "a"))
            else tai_visited_contains (some two_urls) (some (codes "a"))))
add-contains_example = add-contains true true two_urls (codes "b") (codes "a") two_urls-IsValid

copied :
    tai_visited_copy true true (λ _. true) (some two_urls)
    ≡ some (record { urls = codes "a" ∷ codes "c" ∷ []; capacity = 2 })
unfolding program
copied = refl

copy_same_example : (two_urls.urls ≡ two_urls.urls) × IsValid (record two_urls { capacity = 2 })
copy_same_example =
    copy_same true true (λ _. true) two_urls (record two_urls { capacity = 2 }) two_urls-IsValid
      copied

lower_loop-eq-rank_example :
    lower_loop two_urls.urls (codes "b") 2 0 2 ≡ rank (codes "b") two_urls.urls
lower_loop-eq-rank_example = lower_loop-eq-rank two_urls.urls (codes "b") two_urls-IsValid.sorted

lower_loop-append_example :
    lower_loop (two_urls.urls ++ codes "x" ∷ []) (codes "b") 2 0 2
    ≡ lower_loop two_urls.urls (codes "b") 2 0 2
lower_loop-append_example =
    lower_loop-append two_urls.urls (codes "x" ∷ []) (codes "b") 2 0 2 (omega arith)
