-- ===== src/KnowledgeGraph/Schema/Validation.antt =====
-- Which updates `validate_update` of knowledge_graph/schema.py accepts.
use ros2_vlm_demo.Common.{
  String, ◌≡◌, ◌≢◌, ◌⊎◌, true, false, Bool, contains, ◌==◌, if◌then◌else◌, not,
}
use ros2_vlm_demo.KnowledgeGraph.Schema.{
  GraphUpdate, Checked, ok, err, accept, check_set_attribute, check_relation, is_valid_entity_id,
  is_none, is_long_text, valid_ops, unknown_operation, bad_entity_id, empty_fact_id,
}

-- What the schema demands of an update, operation by operation.
pub data Conforms (u : GraphUpdate) : Type 0 where
  adds_entity : u.op ≡ "add_entity" → is_valid_entity_id u.entity_id ≡ true → Conforms u
  sets_attribute :
      u.op ≡ "set_attribute"
      → is_valid_entity_id u.entity_id ≡ true
      → u.attribute ≢ ""
      → is_none u.value ≡ false
      → is_long_text u.value ≡ false
      → Conforms u
  relates_entities :
      (u.op ≡ "add_relation") ⊎ (u.op ≡ "remove_relation")
      → is_valid_entity_id u.subject ≡ true
      → is_valid_entity_id u.object ≡ true
      → u.predicate ≢ ""
      → Conforms u
  names_fact : u.op ≡ "invalidate_fact" → u.fact_id ≢ "" → Conforms u

abbrev pub is_ok : Checked → Bool
is_ok (ok v) = true
is_ok (err e) = false

-- The checks of one operation, chosen by its name.
unfoldable check_op : String → GraphUpdate → Checked
check_op op u =
    if not (contains valid_ops op)
    then err unknown_operation
    else if op == "add_entity"
    then (if not (is_valid_entity_id u.entity_id) then err bad_entity_id else accept u)
    else if op == "set_attribute"
    then check_set_attribute u
    else if op == "add_relation"
    then check_relation u
    else if op == "remove_relation"
    then check_relation u
    else if op == "invalidate_fact"
    then (if u.fact_id == "" then err empty_fact_id else accept u)
    else accept u
