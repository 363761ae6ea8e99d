-- ===== src/KnowledgeGraph/Updater/Attribute.antt =====
-- What `set_attribute` leaves, and what becomes of the mirrored value when its fact is invalidated
-- (knowledge_graph/graph_updater.py, `_op_set_attribute` and `_op_invalidate_fact`).
use ros2_vlm_demo.Common.{
  ◌+◌, String, ◌<>◌, ◌≡◌, refl, ◌∙◌, ap, true, false, ◌&&◌, Bool, Option, none, some, [], ◌∷◌,
  arith, ◌==◌, if◌then◌else◌, filter, Bool-cases, inl, inr,
}
use mathlib.Core.Path.{ap₂}
use ros2_vlm_demo.Common.Dict
use ros2_vlm_demo.Json.{Value}
use ros2_vlm_demo.KnowledgeGraph.Schema.{Entity, Fact, attribute, GraphUpdate}
use ros2_vlm_demo.KnowledgeGraph.Store.{
  is_about, get_entity, add_fact, facts_for_entity, invalidate_fact,
}
use ros2_vlm_demo.KnowledgeGraph.Store.Laws.{
  passes, marked_opt, lookup-invalidate_fact, entities-invalidate_fact,
}
use ros2_vlm_demo.KnowledgeGraph.World.{Env, Settings, World}
use ros2_vlm_demo.KnowledgeGraph.Updater.{
  ensure_entity, op_set_attribute, commit_attribute, op_invalidate_fact, new_fact, is_prior,
  mirror_onto, invalidate_each, ids_of,
}
use ros2_vlm_demo.KnowledgeGraph.Updater.Ensure.{
  ensure_entity-Steps, ensure_entity-known, ensure_entity-facts,
}
use ros2_vlm_demo.KnowledgeGraph.Updater.Invariant.{IsSound}
use ros2_vlm_demo.KnowledgeGraph.Updater.Sound.{Steps-IsSound}
use ros2_vlm_demo.KnowledgeGraph.Updater.Refines.{lookup-superseded, entities-invalidate_each}

-- The facts that an update supersedes.
abbrev pub superseded : GraphUpdate → Fact → Bool
superseded u f = is_about u.entity_id true f && is_prior u.attribute f

-- The facts after `set_attribute`, from those before.
abbrev pub after_set : GraphUpdate → Fact → String → Option Fact → Option Fact
after_set u f k old =
    if f.fact_id == k
    then some f
    else if passes (superseded u) old
    then marked_opt ("superseded by set_attribute at " <> u.timestamp) old
    else old

-- The value that an entity mirrors for an attribute.
abbrev pub mirrored_in : Dict.Dict Entity → String → String → Option Value
mirrored_in d entity_id name = elim (Dict.lookup entity_id d) [
  | none ↦ none
  | some e ↦ Dict.lookup name e.attributes
]

abbrev pub mirrored : World → String → String → Option Value
mirrored w = mirrored_in w.store.entities

facts-mirror_onto :
    (o : Option Entity) (k name : String) (v : Value) (w : World)
    → (mirror_onto o k name v w.store).facts ≡ w.store.facts
facts-mirror_onto none k name v w = refl
facts-mirror_onto (some e) k name v w = refl

mirrored-mirror_onto :
    (o : Option Entity) (k name : String) (v : Value) (w : World)
    → Dict.lookup k w.store.entities ≡ o
    → Dict.has k w.store.entities ≡ true
    → mirrored (record w { store = mirror_onto o k name v w.store }) k name ≡ some v
mirrored-mirror_onto none k name v w e h = cc (h, Dict.has_of_lookup-none k w.store.entities e)
mirrored-mirror_onto (some x) k name v w e h =
    let y : Entity = record x { attributes = Dict.insert name v x.attributes } in
    ground (
      arith,
      Dict.lookup-insert k k y w.store.entities,
      Dict.lookup-insert name name v x.attributes,
    )

module _ (env : Env) (cfg : Settings) where
  lookup-commit_attribute :
      (u : GraphUpdate) (w : World) (k : String)
      → IsSound env cfg w
      → Dict.lookup k (commit_attribute env cfg u w).1.store.facts
        ≡ after_set u
            (new_fact env cfg attribute u.entity_id u.attribute u.value u w)
            k
            (Dict.lookup k w.store.facts)
  unfolding commit_attribute
  lookup-commit_attribute u w k s =
      let reason = "superseded by set_attribute at " <> u.timestamp in
      let ids =
        ids_of (filter (is_prior u.attribute) (facts_for_entity u.entity_id true w.store)) in
      let s1 = invalidate_each ids reason w.store in
      let f = new_fact env cfg attribute u.entity_id u.attribute u.value u w in
      let w2 : World = record w { store = add_fact f s1 } in
      ap (λ d. Dict.lookup k d)
        (facts-mirror_onto (get_entity u.entity_id w2.store) u.entity_id u.attribute u.value w2)
      ∙ Dict.lookup-insert k f.fact_id f s1.facts
      ∙ ap (λ (t : Option Fact). if f.fact_id == k then some f else t)
          (lookup-superseded env cfg u reason w.store k s.keyed s.nodup_facts)

  mirrored-commit_attribute :
      (u : GraphUpdate) (w : World)
      → Dict.has u.entity_id w.store.entities ≡ true
      → mirrored (commit_attribute env cfg u w).1 u.entity_id u.attribute ≡ some u.value
  unfolding commit_attribute
  mirrored-commit_attribute u w known =
      let reason = "superseded by set_attribute at " <> u.timestamp in
      let ids =
        ids_of (filter (is_prior u.attribute) (facts_for_entity u.entity_id true w.store)) in
      let f = new_fact env cfg attribute u.entity_id u.attribute u.value u w in
      let w2 : World = record w { store = add_fact f (invalidate_each ids reason w.store) } in
      mirrored-mirror_onto (get_entity u.entity_id w2.store) u.entity_id u.attribute u.value w2 refl
        (rw (entities-invalidate_each ids reason w.store) known)

  new_fact_drawn :
      (u : GraphUpdate) (w v : World)
      → v.drawn ≡ w.drawn
      → new_fact env cfg attribute u.entity_id u.attribute u.value u v
        ≡ new_fact env cfg attribute u.entity_id u.attribute u.value u w
  new_fact_drawn u w v e = rw e

  commits-commit_attribute :
      (u : GraphUpdate) (w : World)
      → ((commit_attribute env cfg u w).0.accepted ≡ true)
        × ((commit_attribute env cfg u w).0.committed_facts ≡ env.uuid w.drawn ∷ [])
        × ((commit_attribute env cfg u w).1.drawn ≡ w.drawn + 1)
  unfolding commit_attribute
  commits-commit_attribute u w = (refl, refl, refl)

  op_set_attribute-known :
      (u : GraphUpdate) (w : World)
      → (ensure_entity env cfg u.entity_id w).0 ≡ true
      → op_set_attribute env cfg u w
        ≡ commit_attribute env cfg u (ensure_entity env cfg u.entity_id w).1
  unfolding op_set_attribute
  op_set_attribute-known u w known = rw known

  -- In a sound world where the entity is known or may be created, `set_attribute` is accepted and
  -- commits one fact under the next identifier; every valid attribute fact of the same entity and
  -- name is marked as superseded, every other fact stays, and the entity mirrors the new value.
  pub op_set_attribute_lem :
      (u : GraphUpdate) (w : World) (k : String)
      → IsSound env cfg w
      → (ensure_entity env cfg u.entity_id w).0 ≡ true
      → let r = op_set_attribute env cfg u w in
        let f = new_fact env cfg attribute u.entity_id u.attribute u.value u w in
        (r.0.accepted ≡ true)
        × (r.0.committed_facts ≡ f.fact_id ∷ [])
        × (Dict.lookup k r.1.store.facts ≡ after_set u f k (Dict.lookup k w.store.facts))
        × (mirrored r.1 u.entity_id u.attribute ≡ some u.value)
  op_set_attribute_lem u w k s known =
      let w' = (ensure_entity env cfg u.entity_id w).1 in
      let (same_facts, same_drawn) = ensure_entity-facts env cfg u.entity_id w in
      let sound : IsSound env cfg w' =
        Steps-IsSound env cfg (ensure_entity-Steps env cfg u.entity_id w) s in
      let (accepted, ids, _) = commits-commit_attribute u w' in
      rw (op_set_attribute-known u w known) (
        accepted,
        ids ∙ ap (λ n. env.uuid n ∷ []) same_drawn,
        lookup-commit_attribute u w' k sound
            ∙ ap₂ (λ f d. after_set u f k (Dict.lookup k d)) (new_fact_drawn u w w' same_drawn)
                same_facts,
        mirrored-commit_attribute u w' (ensure_entity-known env cfg u.entity_id w known),
      )

  entities-op_invalidate_fact :
      (u : GraphUpdate) (w : World)
      → (op_invalidate_fact env cfg u w).1.store.entities ≡ w.store.entities
  unfolding op_invalidate_fact
  entities-op_invalidate_fact u w =
      let reason = "invalidated by VLM at " <> u.timestamp in
      let same = entities-invalidate_fact u.fact_id reason w.store in
      elim (Bool-cases (invalidate_fact u.fact_id reason w.store).0) [
        | inl done ↦ rw done same
        | inr missing ↦ rw missing same
      ]

  lookup-op_invalidate_fact :
      (u : GraphUpdate) (w : World) (k : String)
      → Dict.lookup k (op_invalidate_fact env cfg u w).1.store.facts ≡ (
          if u.fact_id == k
          then marked_opt ("invalidated by VLM at " <> u.timestamp) (Dict.lookup k w.store.facts)
          else Dict.lookup k w.store.facts)
  unfolding op_invalidate_fact
  lookup-op_invalidate_fact u w k =
      let reason = "invalidated by VLM at " <> u.timestamp in
      let law = lookup-invalidate_fact u.fact_id reason w.store k in
      elim (Bool-cases (invalidate_fact u.fact_id reason w.store).0) [
        | inl done ↦ rw done law
        | inr missing ↦ rw missing law
      ]

  -- The mirrored value outlives its fact: after a `set_attribute` and an `invalidate_fact` of the
  -- fact that it committed, that fact is not valid, and the entity mirrors the value all the same.
  pub mirror_outlives_fact :
      (u v : GraphUpdate) (w : World)
      → IsSound env cfg w
      → (ensure_entity env cfg u.entity_id w).0 ≡ true
      → v.fact_id ≡ env.uuid w.drawn
      → let w' = (op_invalidate_fact env cfg v (op_set_attribute env cfg u w).1).1 in
        (passes (λ f. f.valid) (Dict.lookup v.fact_id w'.store.facts) ≡ false)
        × (mirrored w' u.entity_id u.attribute ≡ some u.value)
  mirror_outlives_fact u v w s known same =
      let (_, _, _, value) = op_set_attribute_lem u w v.fact_id s known in
      let w1 = (op_set_attribute env cfg u w).1 in
      (
        ap (passes (λ f. f.valid)) (lookup-op_invalidate_fact v w1 v.fact_id)
            ∙ never_valid v (Dict.lookup v.fact_id w1.store.facts),
        ap (λ (d : Dict.Dict Entity). mirrored_in d u.entity_id u.attribute)
              (entities-op_invalidate_fact v w1)
            ∙ value,
      )
    where
      never_valid :
          (v : GraphUpdate) (o : Option Fact)
          → passes
              (λ f. f.valid)
              (if v.fact_id == v.fact_id
                then marked_opt ("invalidated by VLM at " <> v.timestamp) o
                else o)
            ≡ false
      never_valid v none = ground arith
      never_valid v (some f) = ground arith
