-- ===== src/Tests/CacheRuns.antt =====
-- Runs of the response cache of src/network.c and of the JSON strings of src/core.c.
use tai_ci.Base.{
  ◌≡◌, refl, true, false, inl, [], ◌∷◌, none, some, codes, arith, starts_with, split_first,
  split_on, str_eq,
}
use tai_ci.Port.{value, pos}
use tai_ci.Maps.{map_index, tai_map_get}
use tai_ci.Cookies.{is_space, to_lower, lower, cut}
use tai_ci.Cache.{
  Request, response_copy, cache_find, skip_spaces, is_digit, digits_of, age_of, max_age, kept_for,
  total, cache_store,
}
use tai_ci.Cache.Bounds.{IsSmall, cache_store-IsSmall}
use tai_ci.Cache.Hits.{cache_find-store}
use tai_ci.Json.{small_hex, escape, tai_json_string}
use tai_ci.Json.Reading.{read_string, read_string-json_string}

abbrev request : Request
request = record {
  payload = false;
  origin = false;
  key = codes "http://h:80/";
  response = record {
    status = 200;
    headers = record {
      items =
          record {
            key = codes "cache-control";
            value = codes "public, Max-Age=60 ";
            priority = pos 0;
          }
          ∷ [];
      capacity = 8;
    };
    body = codes "page";
    error = none;
    certificate_error = false;
  };
}

kept_run : kept_for request ≡ some 60
unfolding kept_for tai_map_get map_index lower to_lower max_age age_of digits_of is_digit
    skip_spaces is_space cut value split_first split_on starts_with str_eq
kept_run = refl

cache_store-IsSmall_example : IsSmall (cache_store true 100 [] request)
unfolding total
cache_store-IsSmall_example =
    cache_store-IsSmall true 100 [] request
      (record { few = omega arith; light = inl (omega arith) })

cache_find-store_example :
    cache_find 159 (cache_store true 100 [] request) request.key
    ≡ some (response_copy request.response)
cache_find-store_example =
    cache_find-store 100 159 60 [] request kept_run (omega arith) (omega arith)

escape_run : tai_json_string (some (34 ∷ 10 ∷ 97 ∷ [])) ≡ codes "\"\\\"\\u000aa\""
unfolding tai_json_string escape small_hex
escape_run = refl

read_string-json_string_example :
    read_string (tai_json_string (some (34 ∷ 10 ∷ 97 ∷ []))) ≡ some (34 ∷ 10 ∷ 97 ∷ [])
read_string-json_string_example = read_string-json_string (34 ∷ 10 ∷ 97 ∷ [])
