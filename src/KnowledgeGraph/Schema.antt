-- ===== src/KnowledgeGraph/Schema.antt =====
-- knowledge_graph/schema.py: entities, facts, proposed updates and their validation.
pub mod EntityId
pub mod Confidence
pub mod Validation
use ros2_vlm_demo.Common.{
  ℕ, String, Bool, true, false, ◌&&◌, ◌||◌, not, List, [], ◌∷◌, ltb, leb, eqb, length, is_empty,
  codes, contains, ◌==◌, if◌then◌else◌,
}
use ros2_vlm_demo.Common.Dict.{Dict}
use ros2_vlm_demo.Float.{Float, lt, zero_f, one_f}
use ros2_vlm_demo.Json.{Value, null, str}

abbrev pub valid_ops : List String
valid_ops =
    "add_entity" ∷ "set_attribute" ∷ "add_relation" ∷ "remove_relation" ∷ "invalidate_fact" ∷ []

abbrev pub max_id_length : ℕ
max_id_length = 128

abbrev pub max_value_length : ℕ
max_value_length = 1024

-- `[a-zA-Z0-9_\-]`
unfoldable pub is_id_char : ℕ → Bool
is_id_char c =
    leb b'a' c && leb c b'z'
    || (leb b'A' c && leb c b'Z' || (leb b'0' c && leb c b'9' || (eqb c b'_' || eqb c b'-')))

abbrev pub newline : ℕ
newline = 10

-- The rest of a match of `[a-zA-Z0-9_\-]+$`: `$` also matches before a final newline.
unfoldable pub entity_id_rest : List ℕ → Bool
entity_id_rest [] = true
entity_id_rest (c ∷ cs) =
    let rest = entity_id_rest cs in if is_id_char c then rest else (eqb c newline && is_empty cs)

unfoldable pub entity_id_re : List ℕ → Bool
unfolding entity_id_rest
entity_id_re [] = false
entity_id_re (c ∷ cs) = is_id_char c && entity_id_rest cs

unfoldable pub is_valid_entity_id : String → Bool
is_valid_entity_id entity_id =
    leb 1 (length (codes entity_id))
    && leb (length (codes entity_id)) max_id_length
    && entity_id_re (codes entity_id)

-- `max(0.0, min(1.0, v))`: `min` keeps 1.0 unless `v < 1.0`, and `max` keeps 0.0 unless it is less.
unfoldable pub clamp_confidence : Float → Float
clamp_confidence v =
    let capped = if lt v one_f then v else one_f in if lt zero_f capped then capped else zero_f

pub record Entity : Type 0 where
  pub entity_id : String
  pub entity_type : String
  pub created_at : String
  pub attributes : Dict Value

pub data FactType : Type 0 where
  attribute relation : FactType

pub record Fact : Type 0 where
  pub fact_id : String
  pub fact_type : FactType
  pub subject : String
  pub predicate : String
  pub obj : Value
  pub confidence : Float
  pub timestamp : String
  pub source : String
  pub valid : Bool
  pub provenance : String

pub record GraphUpdate : Type 0 where
  pub op : String
  pub schema_version : Value
  pub entity_id : String
  pub entity_type : String
  pub attribute : String
  pub value : Value
  pub subject : String
  pub predicate : String
  pub object : String
  pub fact_id : String
  pub confidence : Float
  pub timestamp : String
  pub source : String
  pub provenance : String

-- The messages of `SchemaError`.
pub data SchemaError : Type 0 where
  unknown_operation bad_entity_id empty_attribute no_value value_too_long : SchemaError
  bad_subject bad_object empty_predicate empty_fact_id : SchemaError

pub data Checked : Type 0 where
  ok : GraphUpdate → Checked
  err : SchemaError → Checked

-- `value is None`
abbrev pub is_none : Value → Bool
is_none null = true
is_none _ = false

-- `isinstance(value, str) and len(value) > MAX_VALUE_LENGTH`
abbrev pub is_long_text : Value → Bool
is_long_text (str s) = ltb max_value_length (length (codes s))
is_long_text _ = false

-- The last statement: the confidence of the update is replaced by its clamped value.
abbrev pub accept : GraphUpdate → Checked
accept u = ok (record u { confidence = clamp_confidence u.confidence })

unfoldable pub check_set_attribute : GraphUpdate → Checked
check_set_attribute u =
    if not (is_valid_entity_id u.entity_id)
    then err bad_entity_id
    else if u.attribute == ""
    then err empty_attribute
    else if is_none u.value
    then err no_value
    else if is_long_text u.value
    then err value_too_long
    else accept u

-- `add_relation` and `remove_relation` make the same three checks.
unfoldable pub check_relation : GraphUpdate → Checked
check_relation u =
    if not (is_valid_entity_id u.subject)
    then err bad_subject
    else if not (is_valid_entity_id u.object)
    then err bad_object
    else if u.predicate == ""
    then err empty_predicate
    else accept u

unfoldable pub validate_update : GraphUpdate → Checked
unfolding check_set_attribute check_relation
validate_update u =
    if not (contains valid_ops u.op)
    then err unknown_operation
    else if u.op == "add_entity"
    then (if not (is_valid_entity_id u.entity_id) then err bad_entity_id else accept u)
    else if u.op == "set_attribute"
    then check_set_attribute u
    else if u.op == "add_relation"
    then check_relation u
    else if u.op == "remove_relation"
    then check_relation u
    else if u.op == "invalidate_fact"
    then (if u.fact_id == "" then err empty_fact_id else accept u)
    else accept u
