-- ===== src/KnowledgeGraph/Updater/Operations.antt =====
-- Each operation of `GraphUpdater` (knowledge_graph/graph_updater.py), and `apply`, is a run of the
-- abstract machine.
use ros2_vlm_demo.Common.{
  ◌≡◌, refl, ap, Bool, true, false, List, [], ◌∷◌, arith, is_empty, ◌==◌, if◌then◌else◌, Bool-cases,
  Option-cases, inl, inr, ◌<>◌,
}
use ros2_vlm_demo.Common.Dict
use ros2_vlm_demo.Common.Dict.{Dict, NodupKeys}
use ros2_vlm_demo.Float.{lt}
use ros2_vlm_demo.KnowledgeGraph.Schema.{GraphUpdate}
use ros2_vlm_demo.KnowledgeGraph.Schema.Confidence.{InUnit}
use ros2_vlm_demo.KnowledgeGraph.Store.{add_entity, invalidate_fact, facts_for_relation}
use ros2_vlm_demo.KnowledgeGraph.World.{Env, Settings, World}
use ros2_vlm_demo.KnowledgeGraph.Updater.{ensure_entity}
use ros2_vlm_demo.KnowledgeGraph.Updater.Step.{add, Steps, stay, then_step, Steps-trans}
use ros2_vlm_demo.KnowledgeGraph.Updater.Invariant.{IsSound}
use ros2_vlm_demo.KnowledgeGraph.Updater.Ensure.{
  ensure_entity-Steps, ensure_entity-known, ensure_entity-keeps,
}
use ros2_vlm_demo.KnowledgeGraph.Schema.{Checked, ok, err, validate_update, clamp_confidence}
use ros2_vlm_demo.KnowledgeGraph.Schema.Confidence.{clamp_confidence_lem}
use ros2_vlm_demo.KnowledgeGraph.Updater.{
  op_add_entity, op_set_attribute, op_add_relation, op_remove_relation, op_invalidate_fact,
  dispatch, gate, apply_single, apply_loop, apply, ApplyResult, UpdateResult,
}
use ros2_vlm_demo.KnowledgeGraph.Updater.Sound.{Steps-IsSound}
use ros2_vlm_demo.KnowledgeGraph.Updater.Refines.{
  commit_attribute-Steps, commit_relation-Steps, invalidate_fact-Steps, invalidate_each-Steps,
}

-- The update that validation accepts is the proposed one with its confidence clamped.
pub validate_update-ok :
    (u v : GraphUpdate)
    → validate_update u ≡ ok v
    → v ≡ record u { confidence = clamp_confidence u.confidence }
unfolding validate_update
validate_update-ok u v h = ground arith

pub Steps-if :
    (env : Env) (cfg : Settings) (w : World) (b : Bool) (x y : UpdateResult × World)
    → Steps env cfg w x.1
    → Steps env cfg w y.1
    → Steps env cfg w (if b then x else y).1
Steps-if env cfg w true x y h k = h
Steps-if env cfg w false x y h k = k

module _ (env : Env) (cfg : Settings) where
  op_add_entity-Steps :
      (u : GraphUpdate) (w : World) → Steps env cfg w (op_add_entity env cfg u w).1
  unfolding op_add_entity add_entity
  op_add_entity-Steps u w = elim (Option-cases (Dict.lookup u.entity_id w.store.entities)) [
    | inr (old, e) ↦ rw e stay
    | inl new ↦ rw new (
        then_step stay
          (add w _ w.readings (Dict.has_of_lookup-none u.entity_id w.store.entities new)))
  ]

  pub op_remove_relation-Steps :
      (u : GraphUpdate) (w : World) → Steps env cfg w (op_remove_relation env cfg u w).1
  unfolding op_remove_relation
  op_remove_relation-Steps u w =
      elim (Bool-cases
        (is_empty (facts_for_relation u.subject u.predicate u.object true w.store))) [
          | inl absent ↦ rw absent stay
          | inr found ↦ rw found (invalidate_each-Steps env cfg _ _ w)
        ]

  op_invalidate_fact-Steps :
      (u : GraphUpdate) (w : World) → Steps env cfg w (op_invalidate_fact env cfg u w).1
  unfolding op_invalidate_fact
  op_invalidate_fact-Steps u w =
      let reason = "invalidated by VLM at " <> u.timestamp in
      let run = invalidate_fact-Steps env cfg u.fact_id reason w in
      elim (Bool-cases (invalidate_fact u.fact_id reason w.store).0) [
        | inl done ↦ rw done run
        | inr missing ↦ rw missing run
      ]

  module _ (u : GraphUpdate) (w : World) (s : IsSound env cfg w) (unit : InUnit u.confidence)
      (conf : lt u.confidence cfg.min_commit_confidence ≡ false) where
    op_set_attribute-Steps : Steps env cfg w (op_set_attribute env cfg u w).1
    unfolding op_set_attribute
    op_set_attribute-Steps =
        let w' = (ensure_entity env cfg u.entity_id w).1 in
        let run : Steps env cfg w w' = ensure_entity-Steps env cfg u.entity_id w in
        elim (Bool-cases (ensure_entity env cfg u.entity_id w).0) [
          | inl known ↦ rw known (
              Steps-trans env cfg run (
                commit_attribute-Steps env cfg u w' (Steps-IsSound env cfg run s) unit conf
                  (ensure_entity-known env cfg u.entity_id w known)))
          | inr unknown ↦ rw unknown run
        ]

    op_add_relation-Steps : Steps env cfg w (op_add_relation env cfg u w).1
    unfolding op_add_relation
    op_add_relation-Steps =
        let w1 = (ensure_entity env cfg u.subject w).1 in
        let w2 = (ensure_entity env cfg u.object w1).1 in
        let run1 : Steps env cfg w w1 = ensure_entity-Steps env cfg u.subject w in
        let run2 : Steps env cfg w1 w2 = ensure_entity-Steps env cfg u.object w1 in
        elim (Bool-cases (ensure_entity env cfg u.subject w).0) [
          | inl known ↦ elim (Bool-cases (ensure_entity env cfg u.object w1).0) [
            | inl known' ↦
                rw (known, known')
                  (Steps-trans env cfg (Steps-trans env cfg run1 run2) (
                    commit_relation-Steps env cfg u w2 unit conf
                      (ensure_entity-keeps env cfg u.object w1 u.subject
                        (ensure_entity-known env cfg u.subject w known))
                      (ensure_entity-known env cfg u.object w1 known')))
            | inr unknown ↦ rw (known, unknown) (Steps-trans env cfg run1 run2)
          ]
          | inr unknown ↦ rw unknown run1
        ]

    dispatch-Steps : Steps env cfg w (dispatch env cfg u w).1
    unfolding dispatch
    dispatch-Steps = Steps-if env cfg w (u.op == "add_entity") _ _ (op_add_entity-Steps u w) (
        Steps-if env cfg w (u.op == "set_attribute") _ _ op_set_attribute-Steps (
          Steps-if env cfg w (u.op == "add_relation") _ _ op_add_relation-Steps (
            Steps-if env cfg w (u.op == "remove_relation") _ _ (op_remove_relation-Steps u w) (
              Steps-if env cfg w (u.op == "invalidate_fact") _ _ (op_invalidate_fact-Steps u w)
                stay))))

  gate-Steps :
      (proposed u : GraphUpdate) (w : World)
      → IsSound env cfg w
      → InUnit u.confidence
      → Steps env cfg w (gate env cfg proposed (ok u) w).1
  unfolding gate
  gate-Steps proposed u w s unit = elim (Bool-cases (lt u.confidence cfg.min_commit_confidence)) [
    | inl low ↦ rw low stay
    | inr high ↦ rw high (dispatch-Steps u w s unit high)
  ]

  apply_single-Steps :
      (u : GraphUpdate) (w : World)
      → IsSound env cfg w
      → Steps env cfg w (apply_single env cfg u w).1
  unfolding apply_single
  apply_single-Steps u w s = by_check (validate_update u) refl
    where
      by_check : (c : Checked) → validate_update u ≡ c → Steps env cfg w (gate env cfg u c w).1
      by_check (ok v) e = gate-Steps u v w s (
          rw (ap (λ (x : GraphUpdate). x.confidence) (validate_update-ok u v e))
            (clamp_confidence_lem u.confidence).0)
      by_check (err x) e = unfold gate in stay

  apply_loop-Steps :
      (us : List GraphUpdate) (r : ApplyResult) (w : World)
      → IsSound env cfg w
      → Steps env cfg w (apply_loop env cfg us r w).1
  unfolding apply_loop
  apply_loop-Steps [] r w s = stay
  apply_loop-Steps (u ∷ us) r w s =
      let run = apply_single-Steps u w s in
      Steps-trans env cfg run
        (apply_loop-Steps us _ (apply_single env cfg u w).1 (Steps-IsSound env cfg run s))

  -- From a sound world, applying any list of proposed updates, valid or not, changes the world
  -- only by a run of the machine: entities are added, facts are committed under their guards or
  -- retired, attributes are mirrored, and nothing else is written.
  pub apply-Steps :
      (us : List GraphUpdate) (w : World)
      → IsSound env cfg w
      → Steps env cfg w (apply env cfg us w).1
  unfolding apply
  apply-Steps us w s = apply_loop-Steps us _ w s

  -- From a sound world, applying any list of proposed updates leaves a sound world: dict keys are
  -- unique and facts stand under their own identifiers, which have been drawn; of the valid facts no
  -- two give values of one attribute of one entity, and no two state one relation; every confidence
  -- lies in [0, 1] and not below the threshold; and every subject and relation object is an entity.
  pub apply-IsSound :
      (us : List GraphUpdate) (w : World)
      → IsSound env cfg w
      → IsSound env cfg (apply env cfg us w).1
  apply-IsSound us w s = Steps-IsSound env cfg (apply-Steps us w s) s
