-- ===== src/KnowledgeGraph/Updater/Ensure.antt =====
-- The three ways in which `_ensure_entity` of knowledge_graph/graph_updater.py ends.
use ros2_vlm_demo.Common.{
  ◌+◌, String, ◌≡◌, refl, ap, Bool, true, false, arith, Bool-cases, inl, inr, ◌⊎◌,
}
use ros2_vlm_demo.Common.Dict
use ros2_vlm_demo.Common.Dict.{Dict, NodupKeys}
use ros2_vlm_demo.KnowledgeGraph.World.{Env, Settings, World}
use ros2_vlm_demo.KnowledgeGraph.Updater.{ensure_entity, implicit_entity}
use ros2_vlm_demo.KnowledgeGraph.Updater.Step.{add, Steps, stay, then_step}
use ros2_vlm_demo.KnowledgeGraph.Updater.Invariant.{with_entity}

module _ (env : Env) (cfg : Settings) (entity_id : String) (w : World) where
  -- The entity is known.
  abbrev pub EndsKnown : Type 0
  EndsKnown =
      (Dict.has entity_id w.store.entities ≡ true) × (ensure_entity env cfg entity_id w ≡ (true, w))

  -- It is unknown and must be known.
  abbrev pub EndsRefused : Type 0
  EndsRefused =
      (Dict.has entity_id w.store.entities ≡ false)
      × (cfg.require_known_entities ≡ true)
      × (ensure_entity env cfg entity_id w ≡ (false, w))

  -- It is created.
  abbrev pub EndsCreated : Type 0
  EndsCreated =
      (Dict.has entity_id w.store.entities ≡ false)
      × (cfg.require_known_entities ≡ false)
      × (ensure_entity env cfg entity_id w ≡ (
        true,
        with_entity w entity_id (implicit_entity env cfg entity_id w.readings) (w.readings + 1),
      ))

  pub ensure_entity-cases : EndsKnown ⊎ EndsRefused ⊎ EndsCreated
  unfolding ensure_entity
  ensure_entity-cases = elim (Bool-cases (Dict.has entity_id w.store.entities)) [
    | inl old ↦ inl (old, ground arith)
    | inr new ↦ elim (Bool-cases cfg.require_known_entities) [
      | inl strict ↦ inr (inl (new, strict, ground arith))
      | inr lax ↦
          inr
            (inr (new, lax, ground (arith, Dict.lookup-none_of_has entity_id w.store.entities new)))
    ]
  ]

  pub ensure_entity-Steps : Steps env cfg w (ensure_entity env cfg entity_id w).1
  ensure_entity-Steps = elim ensure_entity-cases [
    | inl (_, e) ↦ rw e stay
    | inr (inl (_, _, e)) ↦ rw e stay
    | inr (inr (new, _, e)) ↦
        rw e (
          then_step stay
            (add w (implicit_entity env cfg entity_id w.readings) (w.readings + 1) new))
  ]

  -- An entity that has been ensured is known.
  pub ensure_entity-known :
      (ensure_entity env cfg entity_id w).0 ≡ true
      → Dict.has entity_id (ensure_entity env cfg entity_id w).1.store.entities ≡ true
  ensure_entity-known h = elim ensure_entity-cases [
    | inl (old, e) ↦ rw e old
    | inr (inl (_, _, e)) ↦ cc (h, ap (λ (r : Bool × World). r.0) e)
    | inr (inr (_, _, e)) ↦ rw e (
        rw
          (Dict.has-insert entity_id entity_id (implicit_entity env cfg entity_id w.readings)
            w.store.entities)
          (ground arith))
  ]

  -- What was known before still is.
  pub ensure_entity-keeps :
      (o : String)
      → Dict.has o w.store.entities ≡ true
      → Dict.has o (ensure_entity env cfg entity_id w).1.store.entities ≡ true
  ensure_entity-keeps o h = elim ensure_entity-cases [
    | inl (_, e) ↦ rw e h
    | inr (inl (_, _, e)) ↦ rw e h
    | inr (inr (_, _, e)) ↦ rw e (
        Dict.has-insert_mono o entity_id (implicit_entity env cfg entity_id w.readings)
          w.store.entities h)
  ]

  -- No fact and no identifier is touched.
  pub ensure_entity-facts :
      ((ensure_entity env cfg entity_id w).1.store.facts ≡ w.store.facts)
      × ((ensure_entity env cfg entity_id w).1.drawn ≡ w.drawn)
  ensure_entity-facts = elim ensure_entity-cases [
    | inl (_, e) ↦ rw e (refl, refl)
    | inr (inl (_, _, e)) ↦ rw e (refl, refl)
    | inr (inr (_, _, e)) ↦ rw e (refl, refl)
  ]
