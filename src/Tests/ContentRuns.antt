-- ===== src/Tests/ContentRuns.antt =====
-- Runs of the walks of src/dom.c over a subtree, and of setting its text, on a small document.
use tai_ci.Base.{str_eq, ◌≡◌, true, [], ◌∷◌, codes, refl, some}
use tai_ci.Dom.{
  element, ok, max_depth, visits, ancestors, chain_length, set_parent, set_children, write,
}
use tai_ci.Dom.Walks.{text_loop, tai_node_text_content, tai_node_find_by_id}
use tai_ci.Dom.Walks.Orders.{order}
use tai_ci.Dom.Walks.Reading.{texts, first_with, walks-order}
use tai_ci.Dom.Contents.{tai_node_set_text_content, set_element_text, with_text, emptied, orphans}
use tai_ci.Dom.Contents.Hanging.{IsFresh}
use tai_ci.Dom.Contents.Setting.{TextSet, set_text_content-TextSet}
use tai_ci.Dom.Serial.{
  tai_node_serialize, serialize_loop, open_tag, close_tag, attribute_text, escape_into, escaped_as,
  is_void,
}
use tai_ci.Dom.Serial.Writing.{serialized, node_serialize-serialized}
use tai_ci.Tests.DomRuns.{tree, tree-IsForest}

walks-order_example :
    (tai_node_text_content true tree 0 ≡ some (texts tree (order max_depth tree 0)))
    × (tai_node_find_by_id true tree 0 (codes "x")
        ≡ (ok, first_with tree (codes "x") (order max_depth tree 0)))
walks-order_example = walks-order true tree 0 (codes "x") tree-IsForest

new_node : IsFresh tree 0 3
new_node = record { another = refl; no_parent = refl; no_children = refl }

set_text_content-TextSet_example :
    TextSet tree
      (0 ∷ 1 ∷ 2 ∷ [])
      0
      (codes "hi")
      (tai_node_set_text_content true tree (0 ∷ 1 ∷ 2 ∷ []) 0 3 (codes "hi"))
set_text_content-TextSet_example =
    set_text_content-TextSet true tree (0 ∷ 1 ∷ 2 ∷ []) 0 3 (codes "hi") tree-IsForest new_node

set_run :
    tai_node_text_content true
      (tai_node_set_text_content true tree (0 ∷ 1 ∷ 2 ∷ []) 0 3 (codes "hi")).heap
      0
    ≡ some (codes "hi")
unfolding tai_node_set_text_content set_element_text with_text emptied orphans tai_node_text_content
    text_loop visits ancestors chain_length set_parent set_children write
set_run = refl

node_serialize-serialized_example :
    tai_node_serialize true tree 0 true ≡ some (serialized element tree 0 true)
node_serialize-serialized_example = node_serialize-serialized true tree 0 true tree-IsForest

serialize_run :
    tai_node_serialize true tree 0 true ≡ some (codes "<div><p class=\"old new\"></p><a></a></div>")
unfolding tai_node_serialize serialize_loop open_tag close_tag attribute_text escape_into escaped_as
    is_void visits str_eq
serialize_run = refl
