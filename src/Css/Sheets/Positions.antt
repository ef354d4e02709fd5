-- ===== src/Css/Sheets/Positions.antt =====
-- Where the functions for declarations and rules of src/css.c leave the position.
use tai_ci.Base.{
  ℕ, zero, suc, ◌+◌, ◌-◌, ◌≤◌, ◌<◌, ◌≡◌, Bool, true, false, ◌||◌, ◌&&◌, List, [], ◌∷◌, Option, none,
  some, Bytes, codes, arith, length, ◌==◌, if◌then◌else◌, str_eq,
}
use tai_ci.Port.{pos}
use tai_ci.Maps.{Map, Pair, tai_map_set}
use tai_ci.Utf8.{Utf8proc}
use tai_ci.Css.{whitespace_at, space}
use tai_ci.Css.Selecting.{
  Parse, parsed, refused, no_memory, unfinished, and_then, identifier, slice,
}
use tai_ci.Css.Selecting.Progress.{Each, Before, length-space}
use tai_ci.Css.Selecting.Within.{
  Within, and_then-Within, test-Within, Within-up, slice-Within, identifier-Within,
}
use tai_ci.Css.Sheets.{
  Gathered, gathered_none, ends, prefixed, scan_token, set_expanded, store_font, store_token,
  nonempty_token, gather, values, set_declaration, rank_of, set_pairs, with_family, or_none,
  store_declaration, after_property,
}

-- The call ends, and the position is before `n` more bytes, and before at most `n` where the function gave up.
abbrev pub Strict : {A : Type 0} → ℕ → Parse A → Type 0
Strict n (parsed x rest) = length rest < n
Strict n (refused rest) = length rest ≤ n
Strict n no_memory = Unit
Strict n unfinished = true ≡ false

and_then-Strict :
    {A B : Type 0}
    → (n : ℕ) (r : Parse A) (f : A → Bytes → Parse B) → Strict n r
    → ((x : A) (rest : Bytes) → length rest < n → Strict n (f x rest))
    → Strict n (and_then r f)
and_then-Strict n (parsed x rest) f k g = g x rest k
and_then-Strict n (refused rest) f k g = k
and_then-Strict n no_memory f k g = tt
and_then-Strict n unfinished f k g = k

test-Strict :
    {A : Type 0}
    → (n : ℕ) (b : Bool) (r q : Parse A) → Strict n r
    → Strict n q
    → Strict n (if b then r else q)
test-Strict n true r q k l = k
test-Strict n false r q k l = l

Within-Strict : {A : Type 0} → (m n : ℕ) (r : Parse A) → m < n → Within m r → Strict n r
Within-Strict m n (parsed x rest) low k = omega arith
Within-Strict m n (refused rest) low k = omega arith
Within-Strict m n no_memory low k = tt
Within-Strict m n unfinished low k = k

pub Strict-Within : {A : Type 0} → (n : ℕ) (r : Parse A) → Strict n r → Within n r
Strict-Within n (parsed x rest) k = omega arith
Strict-Within n (refused rest) k = k
Strict-Within n no_memory k = tt
Strict-Within n unfinished k = k

pub Strict-Each : {A : Type 0} → (n : ℕ) (r : Parse A) → Strict n r → Each (Before n) r
Strict-Each n (parsed x rest) k = k
Strict-Each n (refused rest) k = tt
Strict-Each n no_memory k = tt
Strict-Each n unfinished k = tt

-- A token with what is left has at most `n` bytes.
abbrev Scanned : ℕ → Parse Bytes → Type 0
Scanned n (parsed token rest) = length token + length rest ≤ n
Scanned n (refused rest) = length rest ≤ n
Scanned n no_memory = Unit
Scanned n unfinished = true ≡ false

test-Scanned :
    (n : ℕ) (b : Bool) (r q : Parse Bytes)
    → Scanned n r
    → Scanned n q
    → Scanned n (if b then r else q)
test-Scanned n true r q k l = k
test-Scanned n false r q k l = l

prefixed-Scanned : (n b : ℕ) (r : Parse Bytes) → Scanned n r → Scanned (suc n) (prefixed b r)
prefixed-Scanned n b (parsed token rest) k = omega arith
prefixed-Scanned n b (refused rest) k = omega arith
prefixed-Scanned n b no_memory k = tt
prefixed-Scanned n b unfinished k = k

scan_token-Scanned :
    (U : Utf8proc) (depth : ℕ) (text : Bytes) → Scanned (length text) (scan_token U depth text)
unfolding scan_token
scan_token-Scanned U depth [] =
    test-Scanned 0 (depth == 0) (parsed [] []) (refused []) (omega arith) (omega arith)
scan_token-Scanned U depth (b ∷ rest) =
    let inner = if b == 40 then suc depth else if b == 41 then depth - 1 else depth in
    test-Scanned (suc (length rest))
      (depth == 0 && (whitespace_at U (b ∷ rest) || b == 59 || b == 125 || b == 33))
      (parsed [] (b ∷ rest)) _ (omega arith)
      (test-Scanned (suc (length rest)) (b == 41 && depth == 0) (refused (b ∷ rest))
        (prefixed b (scan_token U inner rest)) (omega arith)
        (prefixed-Scanned (length rest) b (scan_token U inner rest)
          (scan_token-Scanned U inner rest)))

nonempty-Strict :
    (U : Utf8proc) (font : Bool) (n : ℕ) (r : Parse Bytes)
    → Scanned n r
    → Strict n (and_then r (nonempty_token U font))
nonempty-Strict U font n (parsed [] rest) k = omega arith
nonempty-Strict U font n (parsed (b ∷ token) rest) k =
    Within-Strict (length rest) n (slice U font (b ∷ token) rest) (omega arith)
      (slice-Within U font (b ∷ token) rest (length rest) (omega arith))
nonempty-Strict U font n (refused rest) k = k
nonempty-Strict U font n no_memory k = tt
nonempty-Strict U font n unfinished k = k

set_expanded-Strict :
    (v : Gathered) (p : Map × Bool) (rest : Bytes) (n : ℕ)
    → length rest < n
    → Strict n (set_expanded v p rest)
set_expanded-Strict v (m, stored) rest n k = test-Strict n stored (parsed _ rest) no_memory k tt

store_token-Strict :
    (font : Bool) (v : Gathered) (token rest : Bytes) (n : ℕ)
    → length rest < n
    → Strict n (store_token font v token rest)
unfolding store_token store_font
store_token-Strict false v token rest n k = k
store_token-Strict true v token rest n k =
    let e = v.expanded in
    test-Strict n (str_eq token (codes "italic")) _ _
      (set_expanded-Strict v (tai_map_set true true true e (codes "font-style") token (pos 0)) rest
        n k)
      (test-Strict n (str_eq token (codes "bold")) _ _
        (set_expanded-Strict v (tai_map_set true true true e (codes "font-weight") token (pos 0))
          rest n k)
        (test-Strict n (str_eq token (codes "normal")) _ _
          (and_then-Strict n
            (set_expanded v (tai_map_set true true true e (codes "font-style") token (pos 0)) rest)
            _
            (set_expanded-Strict v (tai_map_set true true true e (codes "font-style") token (pos 0))
              rest n k)
            (λ w left l.
              set_expanded-Strict w
                (tai_map_set true true true w.expanded (codes "font-weight") token (pos 0)) left n
                l))
          (test-Strict n (ends token (codes "px") || ends token (codes "%")) _ _
            (set_expanded-Strict (record v { saw_size = true })
              (tai_map_set true true true e (codes "font-size") token (pos 0)) rest n k)
            (test-Strict n v.saw_size (parsed _ rest) (parsed v rest) k k))))

pub gather-Strict :
    (U : Utf8proc) (font : Bool) (v : Gathered) (b : ℕ) (rest : Bytes)
    → Strict (suc (length rest)) (gather U font v b rest)
unfolding gather
gather-Strict U font v b rest =
    let n = suc (length rest) in
    test-Strict n (b == 33) _ _
      (and_then-Strict n (identifier U true false (space U rest)) _
        (Within-Strict (length rest) n (identifier U true false (space U rest)) (omega arith)
          (identifier-Within U true false (space U rest) (length rest) (length-space U rest)))
        (λ name left l.
          test-Strict n (str_eq name (codes "important")) (parsed _ left) (refused left) l
            (omega arith)))
      (and_then-Strict n (and_then (scan_token U 0 (b ∷ rest)) (nonempty_token U font)) _
        (nonempty-Strict U font n (scan_token U 0 (b ∷ rest)) (scan_token-Scanned U 0 (b ∷ rest)))
        (λ token left l. store_token-Strict font v token left n l))

-- A loop goes on behind the position of a round.
pub round-Within :
    {A B : Type 0}
    → (m n : ℕ) (r : Parse A) (f : A → Bytes → Parse B) → m ≤ n
    → Strict m r
    → ((x : A) (rest : Bytes) → length rest < m → Within n (f x rest))
    → Within n (and_then r f)
round-Within m n (parsed x rest) f low k g = g x rest k
round-Within m n (refused rest) f low k g = omega arith
round-Within m n no_memory f low k g = tt
round-Within m n unfinished f low k g = k

values-Within :
    (fuel : ℕ) (U : Utf8proc) (font : Bool) (v : Gathered) (text : Bytes) (n : ℕ)
    → length text < fuel
    → length text ≤ n
    → Within n (values fuel U font v text)
unfolding values
values-Within zero U font v text n enough k = absurd (omega arith)
values-Within (suc fuel) U font v [] n enough k = k
values-Within (suc fuel) U font v (b ∷ rest) n enough k =
    test-Within n (b == 59 || b == 125) (parsed v (b ∷ rest)) _ k (
      round-Within (suc (length rest)) n (gather U font v b rest) _ k
        (gather-Strict U font v b rest)
        (λ w left l.
          let low = length-space U left in
          values-Within fuel U font w (space U left) n (omega (arith, low, l))
            (omega (arith, low, l))))

set_declaration-Within :
    (p : Map × Bool) (rest : Bytes) (n : ℕ) → length rest ≤ n → Within n (set_declaration p rest)
set_declaration-Within (m, stored) rest n k = test-Within n stored (parsed m rest) no_memory k tt

set_pairs-Within :
    (important : Bool) (map : Map) (ps : List Pair) (rest : Bytes) (n : ℕ)
    → length rest ≤ n
    → Within n (set_pairs important map ps rest)
unfolding set_pairs
set_pairs-Within important map [] rest n k = k
set_pairs-Within important map (p ∷ ps) rest n k =
    and_then-Within n
      (set_declaration (tai_map_set true true true map p.key p.value (pos (rank_of important)))
        rest)
      _
      (set_declaration-Within
        (tai_map_set true true true map p.key p.value (pos (rank_of important))) rest n k)
      (λ m left l. set_pairs-Within important m ps left n l)

with_family-Within :
    (v : Gathered) (o : Option Bytes) (rest : Bytes) (n : ℕ)
    → length rest ≤ n
    → Within n (with_family v o rest)
with_family-Within v none rest n k = k
with_family-Within v (some family) rest n k =
    Within-up (length rest) n (with_family v (some family) rest) k
      (go (tai_map_set true true true v.expanded (codes "font-family") family (pos 0)))
  where
    go : (p : Map × Bool) → Within (length rest) (set_expanded v p rest)
    go (m, stored) = test-Within (length rest) stored (parsed _ rest) no_memory (omega arith) tt

store_declaration-Within :
    (map : Map) (prop : Bytes) (v : Gathered) (rest : Bytes) (n : ℕ)
    → length rest ≤ n
    → Within n (store_declaration map prop v rest)
unfolding store_declaration
store_declaration-Within map prop v rest n k =
    test-Within n (str_eq prop (codes "font")) _ _
      (and_then-Within n (with_family v v.family rest) _ (with_family-Within v v.family rest n k)
        (λ w left l. set_pairs-Within w.important map w.expanded.items left n l))
      (set_declaration-Within
        (tai_map_set true true true map prop (or_none v.value) (pos (rank_of v.important))) rest n
        k)

after_property-Within :
    (U : Utf8proc) (map : Map) (prop text : Bytes) (n : ℕ)
    → length text ≤ n
    → Within n (after_property U map prop text)
unfolding after_property
after_property-Within U map prop [] n k = k
after_property-Within U map prop (b ∷ rest) n k =
    let low : length (space U rest) ≤ n = omega (arith, length-space U rest) in
    test-Within n (b == 58) _ (refused (b ∷ rest))
      (and_then-Within n
        (values (suc (length (space U rest))) U (str_eq prop (codes "font")) gathered_none
          (space U rest))
        _
        (values-Within (suc (length (space U rest))) U (str_eq prop (codes "font")) gathered_none
          (space U rest) n (omega arith) low)
        (λ v left l. store_declaration-Within map prop v left n l))
      k

pub after_name-Within :
    (U : Utf8proc) (map : Map) (prop rest : Bytes) (n : ℕ)
    → length rest ≤ n
    → Within n (after_property U map prop (space U rest))
after_name-Within U map prop rest n k =
    after_property-Within U map prop (space U rest) n (omega (arith, length-space U rest))
