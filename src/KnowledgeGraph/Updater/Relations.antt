-- ===== src/KnowledgeGraph/Updater/Relations.antt =====
-- What `add_relation` and `remove_relation` leave (knowledge_graph/graph_updater.py,
-- `_op_add_relation` and `_op_remove_relation`).
use ros2_vlm_demo.Common.{
  String, ◌<>◌, ◌≡◌, refl, ◌∙◌, ap, true, false, Bool, Option, none, some, [], ◌∷◌, arith,
  if◌then◌else◌, string_dec, filter, is_empty, Bool-cases, inl, inr,
}
use ros2_vlm_demo.Common.Dict
use ros2_vlm_demo.Common.Dict.{Dict, NodupKeys}
use ros2_vlm_demo.Json.{str}
use ros2_vlm_demo.KnowledgeGraph.Schema.{Fact, relation, GraphUpdate}
use ros2_vlm_demo.KnowledgeGraph.Store.{relates, facts_for_relation}
use ros2_vlm_demo.KnowledgeGraph.Store.Laws.{passes, marked_opt, contains-values}
use ros2_vlm_demo.KnowledgeGraph.World.{Env, Settings, World, relation_already_exists}
use ros2_vlm_demo.KnowledgeGraph.Updater.{
  ensure_entity, op_add_relation, commit_relation, op_remove_relation, new_fact,
}
use ros2_vlm_demo.KnowledgeGraph.Updater.Ensure.{
  ensure_entity-cases, ensure_entity-known, ensure_entity-keeps,
}
use ros2_vlm_demo.KnowledgeGraph.Updater.Invariant.{IsSound}
use ros2_vlm_demo.KnowledgeGraph.Updater.Sound.{Steps-IsSound}
use ros2_vlm_demo.KnowledgeGraph.Updater.Operations.{op_remove_relation-Steps}
use ros2_vlm_demo.KnowledgeGraph.Updater.Refines.{
  lookup-invalidate_each, entities-invalidate_each, none_passes,
}

-- No fact passes, none is listed.
filter-values-nil :
    (p : Fact → Bool) (d : Dict Fact)
    → NodupKeys d
    → ((k : String) → passes p (Dict.lookup k d) ≡ false)
    → filter p (Dict.values d) ≡ []
unfolding Dict.values Dict.lookup
filter-values-nil p [] u h = refl
filter-values-nil p ((j, f) ∷ d) (fresh, u) h =
    ground (arith, h j, filter-values-nil p d u (λ k. rest k (string_dec j k)))
  where
    rest : (k : String) → Dec (j ≡ k) → passes p (Dict.lookup k d) ≡ false
    rest k (yes same) = rw (← same) (rw (Dict.lookup-none_of_has j d fresh) refl)
    rest k (no other) = ground (arith, h k)

module _ (env : Env) (cfg : Settings) where
  -- Of an update that names the same relation.
  abbrev pub SameRelation : GraphUpdate → GraphUpdate → Type 0
  SameRelation u v = (v.subject ≡ u.subject) × (v.predicate ≡ u.predicate) × (v.object ≡ u.object)

  abbrev states : GraphUpdate → Fact → Bool
  states u = relates u.subject u.predicate u.object true

  lookup-op_remove_relation :
      (u : GraphUpdate) (w : World) (k : String)
      → IsSound env cfg w
      → Dict.lookup k (op_remove_relation env cfg u w).1.store.facts ≡ (
          if passes (states u) (Dict.lookup k w.store.facts)
          then marked_opt ("removed by VLM at " <> u.timestamp) (Dict.lookup k w.store.facts)
          else Dict.lookup k w.store.facts)
  unfolding op_remove_relation facts_for_relation
  lookup-op_remove_relation u w k s =
      elim (Bool-cases (is_empty (filter (states u) (Dict.values w.store.facts)))) [
        | inl absent ↦ rw absent (absent_case (Dict.lookup k w.store.facts) refl absent)
        | inr found ↦ rw found (
            lookup-invalidate_each _ _ w.store k
            ∙ rw (contains-values (states u) w.store.facts k s.keyed s.nodup_facts))
      ]
    where
      absent_case :
          (o : Option Fact)
          → Dict.lookup k w.store.facts ≡ o
          → is_empty (filter (states u) (Dict.values w.store.facts)) ≡ true
          → o ≡ (
              if passes (states u) o then marked_opt ("removed by VLM at " <> u.timestamp) o else o)
      absent_case none e h = refl
      absent_case (some f) e h = rw (none_passes env cfg (states u) w.store.facts k f h e)

  entities-op_remove_relation :
      (u : GraphUpdate) (w : World)
      → ((op_remove_relation env cfg u w).0.accepted ≡ true)
        × ((op_remove_relation env cfg u w).1.store.entities ≡ w.store.entities)
  unfolding op_remove_relation
  entities-op_remove_relation u w =
      elim (Bool-cases
        (is_empty (facts_for_relation u.subject u.predicate u.object true w.store))) [
          | inl absent ↦ rw absent (refl, refl)
          | inr found ↦ rw found (refl, entities-invalidate_each _ _ w.store)
        ]

  -- In a sound world `remove_relation` is always accepted, whatever entities it names and whether
  -- or not they must be known: no valid fact states the relation afterwards, each fact that did is
  -- marked as removed, every other fact and all entities are as they were.
  pub op_remove_relation_lem :
      (u : GraphUpdate) (w : World) (k : String)
      → IsSound env cfg w
      → let r = op_remove_relation env cfg u w in
        (r.0.accepted ≡ true)
        × (facts_for_relation u.subject u.predicate u.object true r.1.store ≡ [])
        × (Dict.lookup k r.1.store.facts ≡ (
            if passes (relates u.subject u.predicate u.object true) (Dict.lookup k w.store.facts)
            then marked_opt ("removed by VLM at " <> u.timestamp) (Dict.lookup k w.store.facts)
            else Dict.lookup k w.store.facts))
        × (r.1.store.entities ≡ w.store.entities)
  unfolding facts_for_relation
  op_remove_relation_lem u w k s =
      let (accepted, same) = entities-op_remove_relation u w in
      let sound : IsSound env cfg (op_remove_relation env cfg u w).1 =
        Steps-IsSound env cfg (op_remove_relation-Steps env cfg u w) s in
      (
        accepted,
        filter-values-nil (states u) (op_remove_relation env cfg u w).1.store.facts
            sound.nodup_facts
            (λ j.
              ap (passes (states u)) (lookup-op_remove_relation u w j s)
              ∙ none_left (Dict.lookup j w.store.facts)),
        lookup-op_remove_relation u w k s,
        same,
      )
    where
      none_left :
          (o : Option Fact)
          → passes (states u) (
              if passes (states u) o then marked_opt ("removed by VLM at " <> u.timestamp) o else o)
            ≡ false
      none_left none = refl
      none_left (some f) = ground arith

  -- A relation that has been added is there.
  commit_relation-present :
      (u : GraphUpdate) (w : World)
      → is_empty (filter (states u) (Dict.values (commit_relation env cfg u w).1.store.facts))
        ≡ false
  unfolding commit_relation
  commit_relation-present u w =
      let f = new_fact env cfg relation u.subject u.predicate (str u.object) u w in
      let d = Dict.insert f.fact_id f w.store.facts in
      elim (Bool-cases (is_empty (filter (states u) (Dict.values w.store.facts)))) [
        | inr old ↦ rw old old
        | inl new ↦ rw new (elim (Bool-cases (is_empty (filter (states u) (Dict.values d)))) [
          | inr there ↦ there
          | inl empty ↦
              let found : Dict.lookup f.fact_id d ≡ some f =
                ground (arith, Dict.lookup-insert f.fact_id f.fact_id f w.store.facts) in
              absurd (ground (arith, none_passes env cfg (states u) d f.fact_id f empty found))
        ])
      ]

  entities-commit_relation :
      (u : GraphUpdate) (w : World)
      → (commit_relation env cfg u w).1.store.entities ≡ w.store.entities
  unfolding commit_relation
  entities-commit_relation u w = ground arith

  op_add_relation-known :
      (u : GraphUpdate) (w : World)
      → (op_add_relation env cfg u w).0.accepted ≡ true
      → (w' : World) × (op_add_relation env cfg u w ≡ commit_relation env cfg u w')
        × (Dict.has u.subject w'.store.entities ≡ true)
        × (Dict.has u.object w'.store.entities ≡ true)
  unfolding op_add_relation
  op_add_relation-known u w h =
      let w1 = (ensure_entity env cfg u.subject w).1 in
      let w2 = (ensure_entity env cfg u.object w1).1 in
      elim (Bool-cases (ensure_entity env cfg u.subject w).0) [
        | inl known ↦ elim (Bool-cases (ensure_entity env cfg u.object w1).0) [
          | inl known' ↦ (
            w2,
            rw (known, known'),
            ensure_entity-keeps env cfg u.object w1 u.subject
                (ensure_entity-known env cfg u.subject w known),
            ensure_entity-known env cfg u.object w1 known',
          )
          | inr unknown ↦ cc (rw (known, unknown) at h)
        ]
        | inr unknown ↦ cc (rw unknown at h)
      ]

  ensure_entity-old :
      (i : String) (w : World)
      → Dict.has i w.store.entities ≡ true
      → ensure_entity env cfg i w ≡ (true, w)
  ensure_entity-old i w h = elim (ensure_entity-cases env cfg i w) [
    | inl (_, e) ↦ e
    | inr (inl (new, _, _)) ↦ cc (h, new)
    | inr (inr (new, _, _)) ↦ cc (h, new)
  ]

  op_add_relation-old :
      (u : GraphUpdate) (w : World)
      → Dict.has u.subject w.store.entities ≡ true
      → Dict.has u.object w.store.entities ≡ true
      → op_add_relation env cfg u w ≡ commit_relation env cfg u w
  unfolding op_add_relation
  op_add_relation-old u w hs ho =
      rw (ensure_entity-old u.subject w hs) (rw (ensure_entity-old u.object w ho))

  commit_relation-old :
      (u : GraphUpdate) (w : World)
      → is_empty (filter (states u) (Dict.values w.store.facts)) ≡ false
      → ((commit_relation env cfg u w).1 ≡ w)
        × ((commit_relation env cfg u w).0.accepted ≡ true)
        × ((commit_relation env cfg u w).0.reason ≡ relation_already_exists)
  unfolding commit_relation
  commit_relation-old u w h = rw h (refl, refl, refl)

  -- Adding a relation twice is adding it once: after an accepted `add_relation`, another one with
  -- the same subject, predicate and object, whatever its confidence and provenance, is accepted as
  -- existing already and changes nothing.
  pub add_relation_twice :
      (u v : GraphUpdate) (w : World)
      → SameRelation u v
      → (op_add_relation env cfg u w).0.accepted ≡ true
      → let w' = (op_add_relation env cfg u w).1 in
        let r = op_add_relation env cfg v w' in
        (r.1 ≡ w') × (r.0.accepted ≡ true) × (r.0.reason ≡ relation_already_exists)
  add_relation_twice u v w (es, ep, eo) h =
      let (w0, e, hs, ho) = op_add_relation-known u w h in
      rw e (
        let w1 = (commit_relation env cfg u w0).1 in
        let same = entities-commit_relation u w0 in
        let hs' : Dict.has v.subject w1.store.entities ≡ true = rw (es, same) hs in
        let ho' : Dict.has v.object w1.store.entities ≡ true = rw (eo, same) ho in
        let there : is_empty (filter (states v) (Dict.values w1.store.facts)) ≡ false =
          rw (es, ep, eo) (commit_relation-present u w0) in
        rw (op_add_relation-old v w1 hs' ho') (commit_relation-old v w1 there))
