-- ===== src/KnowledgeGraph/Store.antt =====
-- knowledge_graph/graph_store.py: entities and facts in dicts, keyed by their identifiers. The
-- store is used by one thread here; the lock makes each method one step. A stored object that is
-- mutated in place is written back under its key, so that the order of the dict stays.
pub mod Laws
use ros2_vlm_demo.Common.{
  ℕ, String, ◌<>◌, Bool, true, false, ◌&&◌, ◌||◌, not, Option, none, some, List, [], length, filter,
  ◌==◌, if◌then◌else◌,
}
use ros2_vlm_demo.Common.Dict
use ros2_vlm_demo.Common.Dict.{Dict}
use ros2_vlm_demo.Json.{is_text}
use ros2_vlm_demo.KnowledgeGraph.Schema.{Entity, Fact, FactType, attribute, relation}

pub record GraphStore : Type 0 where
  pub entities : Dict Entity
  pub facts : Dict Fact

abbrev pub empty_store : GraphStore
empty_store = record { entities = []; facts = [] }

-- Returns the stored entity, which is the old one if the identifier was known.
abbrev pub stored_or : Option Entity → Entity → GraphStore → Entity × GraphStore
stored_or (some old) entity s = (old, s)
stored_or none entity s =
    (entity, record s { entities = Dict.insert entity.entity_id entity s.entities })

unfoldable pub add_entity : Entity → GraphStore → Entity × GraphStore
add_entity entity s = stored_or (Dict.lookup entity.entity_id s.entities) entity s

unfoldable pub get_entity : String → GraphStore → Option Entity
get_entity entity_id s = Dict.lookup entity_id s.entities

unfoldable pub has_entity : String → GraphStore → Bool
has_entity entity_id s = Dict.has entity_id s.entities

unfoldable pub all_entities : GraphStore → List Entity
all_entities s = Dict.values s.entities

unfoldable pub entity_count : GraphStore → ℕ
entity_count s = length s.entities

unfoldable pub add_fact : Fact → GraphStore → GraphStore
add_fact fact s = record s { facts = Dict.insert fact.fact_id fact s.facts }

unfoldable pub get_fact : String → GraphStore → Option Fact
get_fact fact_id s = Dict.lookup fact_id s.facts

-- The provenance of an invalidated fact: the reason, if one is given, is appended.
abbrev pub noted : String → String → String
noted provenance reason =
    if reason == ""
    then provenance
    else if provenance == ""
    then "invalidated: " <> reason
    else provenance <> "; invalidated: " <> reason

abbrev pub retired : String → Fact → Fact
retired reason f = record f { valid = false; provenance = noted f.provenance reason }

abbrev pub retire : Option Fact → String → String → GraphStore → Bool × GraphStore
retire none fact_id reason s = (false, s)
retire (some f) fact_id reason s =
    if f.valid
    then (true, record s { facts = Dict.insert fact_id (retired reason f) s.facts })
    else (false, s)

unfoldable pub invalidate_fact : String → String → GraphStore → Bool × GraphStore
invalidate_fact fact_id reason s = retire (Dict.lookup fact_id s.facts) fact_id reason s

unfoldable pub valid_facts : GraphStore → List Fact
valid_facts s = filter (λ f. f.valid) (Dict.values s.facts)

unfoldable pub all_facts : GraphStore → List Fact
all_facts s = Dict.values s.facts

-- The filter of `facts_for_entity`.
abbrev pub is_about : String → Bool → Fact → Bool
is_about entity_id valid_only f = f.subject == entity_id && (not valid_only || f.valid)

unfoldable pub facts_for_entity : String → Bool → GraphStore → List Fact
facts_for_entity entity_id valid_only s =
    filter (is_about entity_id valid_only) (Dict.values s.facts)

abbrev pub is_relation : FactType → Bool
is_relation relation = true
is_relation attribute = false

abbrev pub is_attribute : FactType → Bool
is_attribute relation = false
is_attribute attribute = true

-- The filter of `facts_for_relation`.
abbrev pub relates : String → String → String → Bool → Fact → Bool
relates subject predicate obj valid_only f =
    is_relation f.fact_type
    && (f.subject == subject
        && (f.predicate == predicate && (is_text f.obj obj && (not valid_only || f.valid))))

unfoldable pub facts_for_relation : String → String → String → Bool → GraphStore → List Fact
facts_for_relation subject predicate obj valid_only s =
    filter (relates subject predicate obj valid_only) (Dict.values s.facts)

unfoldable pub fact_count : Bool → GraphStore → ℕ
fact_count valid_only s =
    if valid_only then length (filter (λ f. f.valid) (Dict.values s.facts)) else length s.facts

unfoldable pub snapshot : GraphStore → List Entity × List Fact
snapshot s = (Dict.values s.entities, filter (λ f. f.valid) (Dict.values s.facts))
