-- ===== src/Session/Trail.antt =====
-- The history of src/session.c as a user sees it: the entries behind the current one, nearest first,
-- the current one, and those ahead.
use tai_ci.Base.{
  ℕ, zero, suc, ◌<◌, ◌≡◌, refl, List, [], ◌∷◌, ◌++◌, Option, none, some, Bytes, arith, length, take,
}

pub record Trail : Type 0 where
  pub behind : List Bytes
  pub current : Bytes
  pub ahead : List Bytes

-- A new page: what was ahead is forgotten.
abbrev pub visit : Bytes → Option Trail → Option Trail
visit url none = some (record { behind = []; current = url; ahead = [] })
visit url (some t) = some (record { behind = t.current ∷ t.behind; current = url; ahead = [] })

abbrev pub back_from : List Bytes → Trail → Trail
back_from [] t = t
back_from (url ∷ behind) t = record { behind = behind; current = url; ahead = t.current ∷ t.ahead }

abbrev pub forward_from : List Bytes → Trail → Trail
forward_from [] t = t
forward_from (url ∷ ahead) t = record {
  behind = t.current ∷ t.behind;
  current = url;
  ahead = ahead;
}

abbrev pub go_back : Option Trail → Option Trail
go_back none = none
go_back (some t) = some (back_from t.behind t)

abbrev pub go_forward : Option Trail → Option Trail
go_forward none = none
go_forward (some t) = some (forward_from t.ahead t)

-- The trail of an array and an index.
abbrev pub walk : ℕ → List Bytes → List Bytes → Option Trail
walk i past [] = none
walk zero past (x ∷ xs) = some (record { behind = past; current = x; ahead = xs })
walk (suc i) past (x ∷ xs) = walk i (x ∷ past) xs

pub walk-forward :
    (i : ℕ) (past xs : List Bytes)
    → suc i < length xs
    → walk (suc i) past xs ≡ go_forward (walk i past xs)
walk-forward i past [] h = absurd (omega arith)
walk-forward zero past (x ∷ []) h = absurd (omega arith)
walk-forward zero past (x ∷ y ∷ xs) h = refl
walk-forward (suc i) past (x ∷ xs) h = walk-forward i (x ∷ past) xs (omega arith)

pub walk-back :
    (i : ℕ) (past xs : List Bytes)
    → suc i < length xs
    → walk i past xs ≡ go_back (walk (suc i) past xs)
walk-back i past [] h = absurd (omega arith)
walk-back zero past (x ∷ []) h = absurd (omega arith)
walk-back zero past (x ∷ y ∷ xs) h = refl
walk-back (suc i) past (x ∷ xs) h = walk-back i (x ∷ past) xs (omega arith)

pub walk-visit :
    (i : ℕ) (past xs : List Bytes) (url : Bytes)
    → i < length xs
    → walk (suc i) past (take (suc i) xs ++ url ∷ []) ≡ visit url (walk i past xs)
walk-visit i past [] url h = absurd (omega arith)
walk-visit zero past (x ∷ xs) url h = refl
walk-visit (suc i) past (x ∷ xs) url h = walk-visit i (x ∷ past) xs url (omega arith)
