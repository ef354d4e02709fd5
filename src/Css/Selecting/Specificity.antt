-- ===== src/Css/Selecting/Specificity.antt =====
-- The priorities of the selectors of src/css.c, and the selectors that are being built.
use tai_ci.Base.{ℕ, suc, ◌+◌, ◌-◌, ◌≤◌, ◌<◌, ◌≡◌, ◌≢◌, refl, ap, false, Bytes, arith, length, ltb}
use tai_ci.Css.{
  Selector, tag, class, id, visited, has, sequence, descendant, Selectors, no_more, more,
}
use tai_ci.Css.Selecting.{int_max, priority, Building, nothing, append_child, child_add}
use tai_ci.Css.Selecting.Progress.{Each, test-Each}

abbrev pub priorities : Selectors → ℕ
priorities no_more = 0
priorities (more s ss) = priority s + priorities ss

abbrev pub count : Selectors → ℕ
count no_more = 0
count (more s ss) = suc (count ss)

-- The priority of a part is that of its kind, that of a `:has` is 10 more than its selector's, and
-- that of a sequence or a line is the sum of its parts', of which there are at least two. All are an
-- `int`.
unfoldable mutual
  pub Shaped : Selector → Type 0
  Shaped (tag p name) = p ≡ 1
  Shaped (class p name) = p ≡ 10
  Shaped (id p name) = p ≡ 100
  Shaped (visited p) = p ≡ 10
  Shaped (has p s) = (p ≡ 10 + priority s) × (p ≤ int_max) × Shaped s
  Shaped (sequence p ss) = (p ≡ priorities ss) × (p ≤ int_max) × (2 ≤ count ss) × AllShaped ss
  Shaped (descendant p ss) = (p ≡ priorities ss) × (p ≤ int_max) × (2 ≤ count ss) × AllShaped ss

  pub AllShaped : Selectors → Type 0
  AllShaped no_more = Unit
  AllShaped (more s ss) = Shaped s × AllShaped ss

-- A parsed selector, and what is left of the text.
abbrev pub Got : ℕ → Selector → Bytes → Type 0
Got n s rest = Shaped s × (length rest < n)

abbrev pub Built : Building → Type 0
Built b = (b.priority ≡ priorities b.children) × (b.priority ≤ int_max) × AllShaped b.children

abbrev pub Begun : ℕ → Building → Bytes → Type 0
Begun n b rest = Built b × (length rest < n) × (b.children ≢ no_more)

pub nothing-Built : Built nothing
unfolding AllShaped
nothing-Built = (refl, omega arith, tt)

priorities-append_child :
    (ss : Selectors) (s : Selector) → priorities (append_child ss s) ≡ priorities ss + priority s
priorities-append_child no_more s = omega arith
priorities-append_child (more t ss) s = omega (arith, priorities-append_child ss s)

count-append_child : (ss : Selectors) (s : Selector) → count (append_child ss s) ≡ suc (count ss)
count-append_child no_more s = refl
count-append_child (more t ss) s = ap suc (count-append_child ss s)

append_child-AllShaped :
    (ss : Selectors) (s : Selector) → AllShaped ss → Shaped s → AllShaped (append_child ss s)
unfolding AllShaped
append_child-AllShaped no_more s a b = (b, tt)
append_child-AllShaped (more t ss) s a b = (a.0, append_child-AllShaped ss s a.1 b)

append_child≢no_more : (ss : Selectors) (s : Selector) → append_child ss s ≢ no_more
append_child≢no_more no_more s e = ground (arith, e)
append_child≢no_more (more t ss) s e = ground (arith, e)

pub room : (m b p : ℕ) → ltb (m - p) b ≡ false → p ≤ m → b + p ≤ m
room m b p e k = ground (arith, e, k)

child_add-Begun :
    (b : Building) (s : Selector) (rest : Bytes) (n : ℕ)
    → Built b
    → Shaped s
    → priority s ≤ int_max
    → length rest < n
    → Each (Begun n) (child_add b s rest)
unfolding child_add
child_add-Begun b s rest n (sum, low, all) f small k =
    test-Each (Begun n) (ltb (int_max - priority s) b.priority) _ _ (λ e. tt)
      (λ e. (
        (
          omega (arith, sum, priorities-append_child b.children s),
          room int_max b.priority (priority s) e small,
          append_child-AllShaped b.children s all f,
        ),
        k,
        append_child≢no_more b.children s,
      ))

pub Shaped-priority : (s : Selector) → Shaped s → priority s ≤ int_max
unfolding Shaped
Shaped-priority (tag p name) f = omega arith
Shaped-priority (class p name) f = omega arith
Shaped-priority (id p name) f = omega arith
Shaped-priority (visited p) f = omega arith
Shaped-priority (has p s) f = f.1
Shaped-priority (sequence p ss) f = f.1
Shaped-priority (descendant p ss) f = f.1

pub add-Begun :
    (b : Building) (s : Selector) (rest : Bytes) (n : ℕ)
    → Built b
    → Shaped s
    → length rest < n
    → Each (Begun n) (child_add b s rest)
add-Begun b s rest n f g k = child_add-Begun b s rest n f g (Shaped-priority s g) k
