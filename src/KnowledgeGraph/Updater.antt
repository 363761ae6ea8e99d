-- ===== src/KnowledgeGraph/Updater.antt =====
-- knowledge_graph/graph_updater.py: `GraphUpdater` checks each proposed update, reconciles it with
-- the store and commits it. The identifiers of `uuid.uuid4` and the times of `utc_now` are drawn
-- from an environment, one after the other. A result refers to its facts and entity by identifier.
pub mod Step
pub mod Invariant
pub mod Sound
pub mod Ensure
pub mod Refines
pub mod Operations
pub mod History
pub mod Counts
pub mod Attribute
pub mod Relations
use ros2_vlm_demo.Common.{
  ℕ, ◌+◌, String, ◌<>◌, Bool, true, false, ◌&&◌, not, Option, none, some, List, [], ◌∷◌, ◌++◌, map,
  length, filter, is_empty, ◌==◌, if◌then◌else◌,
}
use ros2_vlm_demo.Common.Dict
use ros2_vlm_demo.Float.{Float, lt}
use ros2_vlm_demo.Json.{Value, str}
use ros2_vlm_demo.KnowledgeGraph.Schema.{
  Entity, Fact, FactType, attribute, relation, GraphUpdate, SchemaError, Checked, ok, err,
  validate_update, clamp_confidence,
}
use ros2_vlm_demo.KnowledgeGraph.World.{
  Env, Settings, World, Reason, no_reason, entity_already_existed, relation_already_exists,
  relation_not_found, schema_error, low_confidence, unknown_entity, unknown_subject, unknown_object,
  not_found_or_invalid, unknown_op, UpdateResult, ApplyResult,
}
use ros2_vlm_demo.KnowledgeGraph.Store.{
  GraphStore, add_entity, get_entity, has_entity, add_fact, invalidate_fact, facts_for_entity,
  facts_for_relation, is_attribute,
}

abbrev pub accepted_with : String → Reason → List String → UpdateResult
accepted_with op reason ids = record {
  op = op;
  accepted = true;
  reason = reason;
  committed_facts = ids;
  committed_entity = none;
}

abbrev pub rejected_with : String → Reason → UpdateResult
rejected_with op reason = record {
  op = op;
  accepted = false;
  reason = reason;
  committed_facts = [];
  committed_entity = none;
}

abbrev pub ids_of : List Fact → List String
ids_of = map (λ f. f.fact_id)

-- `for fact in facts: self._store.invalidate_fact(fact.fact_id, reason=reason)`
unfoldable pub invalidate_each : List String → String → GraphStore → GraphStore
unfolding invalidate_fact
invalidate_each [] reason s = s
invalidate_each (i ∷ is) reason s = invalidate_each is reason (invalidate_fact i reason s).1

-- `entity.attributes[name] = value`, on the stored entity.
abbrev pub mirror_onto : Option Entity → String → String → Value → GraphStore → GraphStore
mirror_onto none entity_id name value s = s
mirror_onto (some e) entity_id name value s = record s {
  entities =
      Dict.insert entity_id (record e { attributes = Dict.insert name value e.attributes })
        s.entities;
}

-- The facts that a `set_attribute` supersedes.
abbrev pub is_prior : String → Fact → Bool
is_prior name f = is_attribute f.fact_type && (f.predicate == name && f.valid)

module _ (env : Env) (cfg : Settings) where
  -- The entity that `_ensure_entity` creates.
  abbrev pub implicit_entity : String → ℕ → Entity
  implicit_entity entity_id reading = record {
    entity_id = entity_id;
    entity_type = "unknown";
    created_at = env.utc_now reading;
    attributes = [];
  }

  unfoldable pub ensure_entity : String → World → Bool × World
  unfolding has_entity add_entity
  ensure_entity entity_id w =
      if has_entity entity_id w.store
      then (true, w)
      else if cfg.require_known_entities
      then (false, w)
      else (
        true,
        record w {
          store = (add_entity (implicit_entity entity_id w.readings) w.store).1;
          readings = w.readings + 1;
        },
      )

  -- The fact that `set_attribute` and `add_relation` commit, with the next identifier.
  abbrev pub new_fact : FactType → String → String → Value → GraphUpdate → World → Fact
  new_fact kind subject predicate target u w = record {
    fact_id = env.uuid w.drawn;
    fact_type = kind;
    subject = subject;
    predicate = predicate;
    obj = target;
    confidence = u.confidence;
    timestamp = u.timestamp;
    source = u.source;
    valid = true;
    provenance = u.provenance;
  }

  abbrev pub commit : Fact → World → World
  commit f w = record w { store = add_fact f w.store; drawn = w.drawn + 1 }

  -- `stored is entity` holds when the identifier was new.
  unfoldable pub op_add_entity : GraphUpdate → World → UpdateResult × World
  unfolding add_entity has_entity
  op_add_entity u w =
      let entity : Entity = record {
        entity_id = u.entity_id;
        entity_type = u.entity_type;
        created_at = u.timestamp;
        attributes = [];
      } in
      let known = has_entity u.entity_id w.store in
      let (stored, store') = add_entity entity w.store in
      (
        record {
          op = "add_entity";
          accepted = true;
          reason = if known then entity_already_existed else no_reason;
          committed_facts = [];
          committed_entity = some stored.entity_id;
        },
        record w { store = store' },
      )

  -- The part of `_op_set_attribute` after the entity has been ensured.
  unfoldable pub commit_attribute : GraphUpdate → World → UpdateResult × World
  unfolding invalidate_each facts_for_entity add_fact get_entity
  commit_attribute u w =
      let prior = filter (is_prior u.attribute) (facts_for_entity u.entity_id true w.store) in
      let s1 =
        invalidate_each (ids_of prior) ("superseded by set_attribute at " <> u.timestamp) w.store in
      let f = new_fact attribute u.entity_id u.attribute u.value u w in
      let s2 = add_fact f s1 in
      let s3 = mirror_onto (get_entity u.entity_id s2) u.entity_id u.attribute u.value s2 in
      (
        accepted_with "set_attribute" no_reason (f.fact_id ∷ []),
        record w { store = s3; drawn = w.drawn + 1 },
      )

  unfoldable pub op_set_attribute : GraphUpdate → World → UpdateResult × World
  op_set_attribute u w =
      let (known, w') = ensure_entity u.entity_id w in
      if known
      then commit_attribute u w'
      else (rejected_with "set_attribute" (unknown_entity u.entity_id), w')

  -- The part of `_op_add_relation` after both entities have been ensured.
  unfoldable pub commit_relation : GraphUpdate → World → UpdateResult × World
  unfolding facts_for_relation add_fact
  commit_relation u w =
      let existing = facts_for_relation u.subject u.predicate u.object true w.store in
      let f = new_fact relation u.subject u.predicate (str u.object) u w in
      if not (is_empty existing)
      then (accepted_with "add_relation" relation_already_exists (ids_of existing), w)
      else (accepted_with "add_relation" no_reason (f.fact_id ∷ []), commit f w)

  unfoldable pub op_add_relation : GraphUpdate → World → UpdateResult × World
  op_add_relation u w =
      let (known, w1) = ensure_entity u.subject w in
      let (known', w2) = ensure_entity u.object w1 in
      if not known
      then (rejected_with "add_relation" (unknown_subject u.subject), w1)
      else if not known'
      then (rejected_with "add_relation" (unknown_object u.object), w2)
      else commit_relation u w2

  unfoldable pub op_remove_relation : GraphUpdate → World → UpdateResult × World
  op_remove_relation u w =
      let found = facts_for_relation u.subject u.predicate u.object true w.store in
      if is_empty found then (accepted_with "remove_relation" relation_not_found [], w) else (
        accepted_with "remove_relation" no_reason (ids_of found),
        record w {
          store = invalidate_each (ids_of found) ("removed by VLM at " <> u.timestamp) w.store;
        },
      )

  unfoldable pub op_invalidate_fact : GraphUpdate → World → UpdateResult × World
  op_invalidate_fact u w =
      let (done, s) = invalidate_fact u.fact_id ("invalidated by VLM at " <> u.timestamp) w.store in
      if done then (accepted_with "invalidate_fact" no_reason [], record w { store = s }) else (
        rejected_with "invalidate_fact" (not_found_or_invalid u.fact_id),
        record w { store = s },
      )

  unfoldable pub dispatch : GraphUpdate → World → UpdateResult × World
  dispatch u w =
      if u.op == "add_entity"
      then op_add_entity u w
      else if u.op == "set_attribute"
      then op_set_attribute u w
      else if u.op == "add_relation"
      then op_add_relation u w
      else if u.op == "remove_relation"
      then op_remove_relation u w
      else if u.op == "invalidate_fact"
      then op_invalidate_fact u w
      else (rejected_with u.op (unknown_op u.op), w)

  -- The confidence gate, on an update that has been validated.
  unfoldable pub gate : GraphUpdate → Checked → World → UpdateResult × World
  gate proposed (err e) w = (rejected_with proposed.op (schema_error e), w)
  gate proposed (ok u) w =
      if lt u.confidence cfg.min_commit_confidence
      then (rejected_with u.op (low_confidence u.confidence cfg.min_commit_confidence), w)
      else dispatch u w

  unfoldable pub apply_single : GraphUpdate → World → UpdateResult × World
  apply_single u w = gate u (validate_update u) w

  abbrev pub count_in : ApplyResult → UpdateResult → ApplyResult
  count_in r outcome =
      if outcome.accepted
      then record r { results = r.results ++ outcome ∷ []; accepted = r.accepted + 1 }
      else record r { results = r.results ++ outcome ∷ []; rejected = r.rejected + 1 }

  unfoldable pub apply_loop : List GraphUpdate → ApplyResult → World → ApplyResult × World
  apply_loop [] r w = (r, w)
  apply_loop (u ∷ us) r w =
      let (outcome, w') = apply_single u w in apply_loop us (count_in r outcome) w'

  unfoldable pub apply : List GraphUpdate → World → ApplyResult × World
  apply updates w =
      apply_loop updates
        (record { total = length updates; accepted = 0; rejected = 0; results = [] }) w
