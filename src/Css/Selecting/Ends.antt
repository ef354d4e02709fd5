-- ===== src/Css/Selecting/Ends.antt =====
-- The loops of the selector parser of src/css.c.
use tai_ci.Base.{ℕ, zero, suc, ◌≤◌, ◌<◌, ◌≢◌, Option, none, some, Bytes, arith, length}
use tai_ci.Utf8.{Utf8proc}
use tai_ci.Css.{Selector, space}
use tai_ci.Css.Selecting.{
  Parse, parsed, refused, no_memory, unfinished, and_then, Building, nothing, child_add, simple,
  line_ends, compound, selector,
}
use tai_ci.Css.Selecting.Progress.{Each, length-space}
use tai_ci.Css.Selecting.Specificity.{Got, Built, Begun, add-Begun, nothing-Built}
use tai_ci.Css.Selecting.PartShapes.{NestedShaped}
use tai_ci.Css.Selecting.Shapes.{simple-Got, only_Shaped, selector-Got}
use tai_ci.Css.Selecting.Within.{Within, test-Within, NestedWithin, simple-Within, child_add-Within}

pub Within-ends : {A : Type 0} → (n : ℕ) (r : Parse A) → Within n r → r ≢ unfinished
Within-ends n (parsed x rest) k e = ground (arith, e)
Within-ends n (refused rest) k e = ground (arith, e)
Within-ends n no_memory k e = ground (arith, e)
Within-ends n unfinished k e = ground (arith, k)

-- A call of which more is known than that it ends.
both-Within :
    {A B : Type 0}
    → (P : A → Bytes → Type 0) (n : ℕ) (r : Parse A) (f : A → Bytes → Parse B) → Within n r
    → Each P r
    → ((x : A) (rest : Bytes) → P x rest → length rest ≤ n → Within n (f x rest))
    → Within n (and_then r f)
both-Within P n (parsed x rest) f k e g = g x rest e k
both-Within P n (refused rest) f k e g = k
both-Within P n no_memory f k e g = tt
both-Within P n unfinished f k e g = k

compound-Within :
    (fuel : ℕ) (U : Utf8proc) (o : Option (Bytes → Parse Selector)) (b : Building) (text : Bytes)
    (n : ℕ)
    → NestedShaped o
    → NestedWithin o
    → Built b
    → length text < fuel
    → length text ≤ n
    → Within n (compound fuel U o b text)
unfolding compound
compound-Within zero U o b text n f g d enough k = absurd (omega arith)
compound-Within (suc fuel) U o b text n f g d enough k =
    let m = length text in
    both-Within (Got m) n (simple U o text) _ (simple-Within U o text n g k) (simple-Got U o text f)
      (λ s rest got l.
        both-Within (Begun m) n (child_add b s rest) _ (child_add-Within b s rest n l)
          (add-Begun b s rest m d got.0 got.1)
          (λ built after next low.
            let left : length (space U after) ≤ n = omega (arith, length-space U after) in
            test-Within n (line_ends (space U after)) (parsed _ (space U after))
              (compound fuel U o built (space U after)) left
              (compound-Within fuel U o built (space U after) n f g next.0
                (omega (arith, length-space U after, next.1)) left)))

-- The selector parser ends, and leaves at most the text.
pub selector-Within :
    (levels : ℕ) (U : Utf8proc) (text : Bytes) → Within (length text) (selector levels U text)
unfolding selector
selector-Within zero U text =
    compound-Within (suc (length text)) U none nothing text (length text) tt tt nothing-Built
      (omega arith) (omega arith)
selector-Within (suc levels) U text =
    compound-Within (suc (length text)) U (some (selector levels U)) nothing text (length text)
      (λ inner. only_Shaped (length inner) (selector levels U inner) (selector-Got levels U inner))
      (selector-Within levels U) nothing-Built (omega arith) (omega arith)

-- The selector parser ends, with a selector, a refusal or out of memory, on every text and with any
-- number of levels left for `:has`: the loop over the parts of a sequence leaves by its own test
-- within one round more than there are bytes left, and so does the loop over the sequences of a
-- line, at every level. (Each of them stands on loops over characters, which pass what utf8proc gives.)
pub selector-ends : (levels : ℕ) (U : Utf8proc) (text : Bytes) → selector levels U text ≢ unfinished
selector-ends levels U text =
    Within-ends (length text) (selector levels U text) (selector-Within levels U text)
