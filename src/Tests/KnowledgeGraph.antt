-- ===== src/Tests/KnowledgeGraph.antt =====
-- A small world for knowledge_graph/: two relations, an attribute set twice, and refused updates.
use ros2_vlm_demo.Common.{
  ℕ, zero, suc, String, ◌≡◌, ◌≢◌, ◌⊎◌, refl, ◌∙◌, sym, ap, true, false, some, List, [], ◌∷◌, length,
  codes, string_dec, ◌<>◌, if◌then◌else◌, ◌↔◌,
}
use ros2_vlm_demo.Common.Dict
use ros2_vlm_demo.Float.{half_f, one_f, one_units, nan}
use ros2_vlm_demo.Json.{null, str}
use ros2_vlm_demo.KnowledgeGraph.Schema.{
  GraphUpdate, Fact, relation, attribute, clamp_confidence, validate_update, is_valid_entity_id,
}
use ros2_vlm_demo.KnowledgeGraph.Schema.Confidence.{
  InUnit, clamp_confidence_id, clamp_confidence_lem,
}
use ros2_vlm_demo.KnowledgeGraph.Schema.EntityId.{IsEntityId, is_valid_entity_id_lem}
use ros2_vlm_demo.KnowledgeGraph.Store.{
  GraphStore, empty_store, invalidate_fact, facts_for_relation, relates,
}
use ros2_vlm_demo.KnowledgeGraph.Store.Laws.{passes, marked_opt, IsWritten, invalidate_fact_lem}
use ros2_vlm_demo.KnowledgeGraph.World.{Env, Settings, World, relation_already_exists}
use ros2_vlm_demo.KnowledgeGraph.Updater.{
  apply, apply_single, ensure_entity, op_add_relation, op_set_attribute, op_remove_relation,
  op_invalidate_fact, new_fact, commit_relation, gate,
}
use ros2_vlm_demo.KnowledgeGraph.Updater.Step.{Steps}
use ros2_vlm_demo.KnowledgeGraph.Updater.Invariant.{IsSound, IsFresh}
use ros2_vlm_demo.KnowledgeGraph.Updater.Sound.{IsSound-empty}
use ros2_vlm_demo.KnowledgeGraph.Updater.Operations.{apply-Steps, apply-IsSound}
use ros2_vlm_demo.KnowledgeGraph.Updater.History.{Remembers, apply-Remembers}
use ros2_vlm_demo.KnowledgeGraph.Updater.Counts.{apply_single_rejected}
use ros2_vlm_demo.KnowledgeGraph.Updater.Attribute.{
  after_set, mirrored, op_set_attribute_lem, mirror_outlives_fact,
}
use ros2_vlm_demo.KnowledgeGraph.Updater.Relations.{op_remove_relation_lem, add_relation_twice}

-- Identifiers "", "x", "xx", ...
pub tally : ℕ → String
tally zero = ""
tally (suc n) = String.◌∷◌ "x" (tally n)

length-tally : (n : ℕ) → length (codes (tally n)) ≡ n
unfolding tally
length-tally zero = refl
length-tally (suc n) = ap suc (length-tally n)

abbrev pub env : Env
env = record { uuid = tally; utc_now = λ n. "now" }

env-IsFresh : IsFresh env
env-IsFresh i j e = sym (length-tally i) ∙ ap (λ s. length (codes s)) e ∙ length-tally j

abbrev pub cfg : Settings
cfg = record { min_commit_confidence = half_f; require_known_entities = false }

abbrev pub world : World
world = record { store = empty_store; drawn = 0; readings = 0 }

pub world-IsSound : IsSound env cfg world
world-IsSound = IsSound-empty env cfg

abbrev blank : GraphUpdate
blank = record {
  op = "";
  schema_version = null;
  entity_id = "";
  entity_type = "unknown";
  attribute = "";
  value = null;
  subject = "";
  predicate = "";
  object = "";
  fact_id = "";
  confidence = one_f;
  timestamp = "t0";
  source = "vlm";
  provenance = "";
}

abbrev set_colour : GraphUpdate
set_colour = record blank {
  op = "set_attribute";
  entity_id = "dog_17";
  attribute = "colour";
  value = str "red";
}

abbrev near : GraphUpdate
near = record blank { op = "add_relation"; subject = "dog_17"; predicate = "near"; object = "car" }

abbrev not_near : GraphUpdate
not_near = record near { op = "remove_relation" }

abbrev forget_colour : GraphUpdate
forget_colour = record blank { op = "invalidate_fact"; fact_id = "" }

abbrev bogus : GraphUpdate
bogus = record blank { op = "paint" }

abbrev pub updates : List GraphUpdate
updates = set_colour ∷ near ∷ bogus ∷ set_colour ∷ not_near ∷ []

apply-Steps_example : Steps env cfg world (apply env cfg updates world).1
apply-Steps_example = apply-Steps env cfg updates world world-IsSound

apply-IsSound_example : IsSound env cfg (apply env cfg updates world).1
apply-IsSound_example = apply-IsSound env cfg updates world world-IsSound

apply-Remembers_example : Remembers world (apply env cfg updates world).1
apply-Remembers_example = apply-Remembers env cfg env-IsFresh updates world world-IsSound

apply_single_rejected_example : (apply_single env cfg bogus world).1 ≡ world
unfolding apply_single validate_update gate string_dec
apply_single_rejected_example = apply_single_rejected env cfg bogus world refl

op_set_attribute_lem_example :
    let r = op_set_attribute env cfg set_colour world in
    let f = new_fact env cfg attribute "dog_17" "colour" (str "red") set_colour world in
    (r.0.accepted ≡ true)
    × (r.0.committed_facts ≡ f.fact_id ∷ [])
    × (Dict.lookup "x" r.1.store.facts
        ≡ after_set set_colour f "x" (Dict.lookup "x" world.store.facts))
    × (mirrored r.1 "dog_17" "colour" ≡ some (str "red"))
unfolding ensure_entity string_dec Dict.has
op_set_attribute_lem_example = op_set_attribute_lem env cfg set_colour world "x" world-IsSound refl

mirror_outlives_fact_example :
    let w' =
      (op_invalidate_fact env cfg forget_colour (op_set_attribute env cfg set_colour world).1).1 in
    (passes (λ f. f.valid) (Dict.lookup "" w'.store.facts) ≡ false)
    × (mirrored w' "dog_17" "colour" ≡ some (str "red"))
unfolding ensure_entity string_dec tally Dict.has
mirror_outlives_fact_example =
    mirror_outlives_fact env cfg set_colour forget_colour world world-IsSound refl refl

op_remove_relation_lem_example :
    let w = (apply env cfg updates world).1 in
    let r = op_remove_relation env cfg not_near w in
    (r.0.accepted ≡ true)
    × (facts_for_relation "dog_17" "near" "car" true r.1.store ≡ [])
    × (Dict.lookup "x" r.1.store.facts ≡ (
        if passes (relates "dog_17" "near" "car" true) (Dict.lookup "x" w.store.facts)
        then marked_opt ("removed by VLM at " <> "t0") (Dict.lookup "x" w.store.facts)
        else Dict.lookup "x" w.store.facts))
    × (r.1.store.entities ≡ w.store.entities)
op_remove_relation_lem_example =
    op_remove_relation_lem env cfg not_near (apply env cfg updates world).1 "x"
      apply-IsSound_example

add_relation_twice_example :
    let w' = (op_add_relation env cfg near world).1 in
    let r = op_add_relation env cfg near w' in
    (r.1 ≡ w') × (r.0.accepted ≡ true) × (r.0.reason ≡ relation_already_exists)
unfolding op_add_relation ensure_entity commit_relation string_dec Dict.has Dict.lookup Dict.insert
    Dict.values
add_relation_twice_example = add_relation_twice env cfg near near world (refl, refl, refl) refl

abbrev seen : Fact
seen = record {
  fact_id = "x";
  fact_type = relation;
  subject = "cup";
  predicate = "near";
  obj = null;
  confidence = half_f;
  timestamp = "now";
  source = "camera";
  valid = true;
  provenance = "";
}

abbrev one_fact : GraphStore
one_fact = record { entities = []; facts = ("x", seen) ∷ [] }

invalidate_fact_lem_example :
    ((invalidate_fact "x" "gone" one_fact).0
      ≡ passes (λ f. f.valid) (Dict.lookup "x" one_fact.facts))
    × ((((seen.fact_id ≡ "x")
            × IsWritten "gone"
                (Dict.lookup "x" one_fact.facts)
                (Dict.lookup "x" (invalidate_fact "x" "gone" one_fact).1.facts))
          ⊎ ((seen.fact_id ≢ "x")
              × (Dict.lookup "x" (invalidate_fact "x" "gone" one_fact).1.facts
                  ≡ Dict.lookup "x" one_fact.facts)))
        × (((invalidate_fact "x" "gone" one_fact).1.entities ≡ [])
            × (invalidate_fact "x" "again" (invalidate_fact "x" "gone" one_fact).1
                ≡ (false, (invalidate_fact "x" "gone" one_fact).1))))
invalidate_fact_lem_example = invalidate_fact_lem "x" "gone" one_fact "x" "again"

clamp_half : clamp_confidence half_f ≡ half_f
unfolding half_f one_units
clamp_half = clamp_confidence_id half_f (refl, refl)

clamp_confidence_lem_example :
    InUnit (clamp_confidence nan)
    × (clamp_confidence (clamp_confidence nan) ≡ clamp_confidence nan)
    × (clamp_confidence nan ≡ one_f)
clamp_confidence_lem_example = clamp_confidence_lem nan

is_valid_entity_id_lem_example : (is_valid_entity_id "dog_17" ≡ true) ↔ IsEntityId (codes "dog_17")
is_valid_entity_id_lem_example = is_valid_entity_id_lem "dog_17"
