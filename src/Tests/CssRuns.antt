-- ===== src/Tests/CssRuns.antt =====
-- Runs of the parser and the cascade of src/css.c.
use tai_ci.Base.{arith, true, ◌≡◌, ◌≢◌, List, none, [], ◌∷◌, some, codes, refl, str_eq}
use tai_ci.Port.{pos}
use tai_ci.Maps.{
  Map, empty_map, tai_map_get, map_index, tai_map_set, tai_map_priority, replace_at, grow,
}
use tai_ci.Utf8.{character}
use tai_ci.Css.{
  tag, class, has, sequence, descendant, no_more, more, space, skip_space, whitespace_at, is_white,
  tai_selector_matches, has_class, find_class, class_word, past_class_word,
}
use tai_ci.Css.Selecting.{
  tai_selector_parse, unfinished, selector, compound, simple, parts, part, is_mark, closing,
  child_add, identifier, past_name, in_name, slice,
}
use tai_ci.Css.Selecting.Specificity.{Shaped}
use tai_ci.Css.Selecting.Shapes.{selector_parse-Shaped}
use tai_ci.Css.Selecting.Ends.{selector-ends}
use tai_ci.Css.Sheets.{
  running, Rule, rule, body, declarations, declaration, after_property, values, gather, scan_token,
  store_token, store_declaration, to_next, past_rule, extend, tai_css_extend, tai_css_parse,
}
use tai_ci.Css.Sheets.Ends.{sheet-ends}
use tai_ci.Css.Words.{Skips, words-end}
use tai_ci.Css.Sheets.Rules.{Extends, css_extend-Extends}
use tai_ci.Css.Cascade.{styled, overflow, apply_sheet, apply_rules, apply, apply_pair, rank_in}
use tai_ci.Css.Cascade.Ranks.{sheet_entries, Decided}
use tai_ci.Css.Cascade.Fits.{apply_sheet-fits}
use tai_ci.Css.Cascade.Deciding.{apply_sheet-Decided}
use tai_ci.Tests.SessionRuns.{ascii-IsUtf8proc, ascii, ascii_iterate}
use tai_ci.Tests.DomRuns.{tree}

parse_run :
    tai_selector_parse ascii (codes "div :has(a b).x")
    ≡ some (
        descendant 23 (
          more (tag 1 (codes "div")) (
            more
              (sequence 22 (
                more
                  (has 12
                    (descendant 2 (more (tag 1 (codes "a")) (more (tag 1 (codes "b")) no_more))))
                  (more (class 10 (codes "x")) no_more)))
              no_more)))
unfolding tai_selector_parse selector compound simple parts part is_mark closing child_add
    identifier past_name in_name slice space skip_space whitespace_at is_white character
    ascii_iterate str_eq
parse_run = refl

selector_parse-Shaped_example : Shaped (
    descendant 23 (
      more (tag 1 (codes "div")) (
        more
          (sequence 22 (
            more
              (has 12 (descendant 2 (more (tag 1 (codes "a")) (more (tag 1 (codes "b")) no_more))))
              (more (class 10 (codes "x")) no_more)))
          no_more)))
selector_parse-Shaped_example = selector_parse-Shaped ascii (codes "div :has(a b).x") _ parse_run

selector-ends_example : selector 128 ascii (codes "a :has(b.c) d!") ≢ unfinished
selector-ends_example = selector-ends 128 ascii (codes "a :has(b.c) d!")

css_extend-Extends_example : Extends [] (tai_css_extend ascii [] (codes "p{color:red;x}?a{}"))
css_extend-Extends_example = css_extend-Extends ascii [] (codes "p{color:red;x}?a{}")

abbrev blue : Map
blue = record {
  items = record { key = codes "color"; value = codes "blue"; priority = pos 0 } ∷ [];
  capacity = 8;
}

abbrev red : Map
red = record {
  items = record { key = codes "color"; value = codes "red"; priority = pos 1 } ∷ [];
  capacity = 8;
}

abbrev rules : List Rule
rules =
    record { selector = tag 1 (codes "p"); declarations = red }
    ∷ record { selector = class 10 (codes "new"); declarations = blue }
    ∷ []

sheet_run :
    tai_css_parse ascii (codes "p { color : red !important } ]{} .new{color:blue}") ≡ some rules
unfolding tai_css_parse tai_css_extend extend rule body declarations declaration after_property
    values gather scan_token store_token store_declaration to_next past_rule tai_map_set map_index
    grow replace_at selector compound simple parts part is_mark child_add identifier past_name
    in_name slice space skip_space whitespace_at is_white character ascii_iterate str_eq
sheet_run = refl

applied :
    apply_sheet ascii tree 1 rules empty_map
    ≡ styled (record red {
      items = record { key = codes "color"; value = codes "red"; priority = pos 10001 } ∷ [];
    })
unfolding apply_sheet apply_rules apply apply_pair rank_in tai_selector_matches has_class find_class
    class_word past_class_word space skip_space whitespace_at is_white character ascii_iterate
    tai_map_get tai_map_set tai_map_priority map_index grow replace_at str_eq
applied = refl

apply_sheet-Decided_example :
    Decided empty_map
      (sheet_entries ascii tree 1 rules)
      (record red {
        items = record { key = codes "color"; value = codes "red"; priority = pos 10001 } ∷ [];
      })
      (codes "color")
apply_sheet-Decided_example =
    apply_sheet-Decided ascii tree 1 rules empty_map _ (codes "color") applied

apply_sheet-fits_example : apply_sheet ascii tree 1 rules empty_map ≢ overflow
apply_sheet-fits_example =
    apply_sheet-fits ascii tree 1 rules empty_map (omega arith, (omega arith, tt))

sheet-ends_example :
    ((tai_css_extend ascii [] (codes "p{color:red;;x}]")).1 ≢ running)
    × (body ascii empty_map (codes "p{color:red;;x}]") ≢ unfinished)
sheet-ends_example = sheet-ends ascii [] empty_map (codes "p{color:red;;x}]")

words-end_example :
    Skips ascii (is_white ascii) (codes " b") (space ascii (codes " b"))
    × Skips ascii (in_name ascii true) (codes " b") (past_name 2 ascii true (codes " b"))
    × (find_class 3 ascii (codes " b") (codes "b") ≢ none)
words-end_example = words-end ascii true (codes " b") (codes "b") ascii-IsUtf8proc
