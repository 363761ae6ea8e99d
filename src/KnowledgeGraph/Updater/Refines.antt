-- ===== src/KnowledgeGraph/Updater/Refines.antt =====
-- `GraphUpdater` (knowledge_graph/graph_updater.py) changes the world model only by runs of the
-- abstract machine.
use ros2_vlm_demo.Common.{
  ◌+◌, String, ◌≡◌, refl, ◌∙◌, sym, Bool, true, false, ◌&&◌, Option, none, some, List, [], ◌∷◌,
  arith, filter, is_empty, contains, if◌then◌else◌, Bool-cases, Option-cases, inl, inr, ◌<>◌,
}
use ros2_vlm_demo.Common.Dict
use ros2_vlm_demo.Common.Dict.{Dict, NodupKeys}
use ros2_vlm_demo.Float.{lt}
use ros2_vlm_demo.Json.{Value, str}
use ros2_vlm_demo.KnowledgeGraph.Schema.{Entity, Fact, attribute, relation, GraphUpdate}
use ros2_vlm_demo.KnowledgeGraph.Schema.Confidence.{InUnit}
use ros2_vlm_demo.KnowledgeGraph.Store.{
  GraphStore, invalidate_fact, facts_for_entity, is_about, relates,
}
use ros2_vlm_demo.KnowledgeGraph.Store.Laws.{
  IsKeyed, contains-values, passes, marked_opt, lookup-invalidate_fact, entities-invalidate_fact,
}
use ros2_vlm_demo.KnowledgeGraph.World.{Env, Settings, World}
use ros2_vlm_demo.KnowledgeGraph.Updater.{
  invalidate_each, new_fact, commit_attribute, commit_relation, ids_of, is_prior, mirror_onto,
}
use ros2_vlm_demo.KnowledgeGraph.Updater.Step.{
  conflict, IsAdmissible, retire, commit, mirror, Steps, stay, then_step, Steps-trans,
}
use ros2_vlm_demo.KnowledgeGraph.Updater.Invariant.{IsSound}

filter-filter {ℓ} :
    {A : Type ℓ} (p q : A → Bool) (xs : List A)
    → filter p (filter q xs) ≡ filter (λ x. q x && p x) xs
filter-filter p q [] = refl
filter-filter p q (x ∷ xs) = ground (arith, filter-filter p q xs)

-- The identifiers listed are marked, all else is as it was.
pub lookup-invalidate_each :
    (ids : List String) (reason : String) (s : GraphStore) (k : String)
    → Dict.lookup k (invalidate_each ids reason s).facts ≡ (
        if contains ids k then marked_opt reason (Dict.lookup k s.facts) else Dict.lookup k s.facts)
unfolding invalidate_each
lookup-invalidate_each [] reason s k = refl
lookup-invalidate_each (i ∷ is) reason s k =
    lookup-invalidate_each is reason (invalidate_fact i reason s).1 k
    ∙ rw (lookup-invalidate_fact i reason s k) (ground arith)

pub entities-invalidate_each :
    (ids : List String) (reason : String) (s : GraphStore)
    → (invalidate_each ids reason s).entities ≡ s.entities
unfolding invalidate_each
entities-invalidate_each [] reason s = refl
entities-invalidate_each (i ∷ is) reason s =
    entities-invalidate_each is reason (invalidate_fact i reason s).1
    ∙ entities-invalidate_fact i reason s

module _ (env : Env) (cfg : Settings) where
  pub invalidate_fact-Steps :
      (i reason : String) (w : World)
      → Steps env cfg w (record w { store = (invalidate_fact i reason w.store).1 })
  unfolding invalidate_fact
  invalidate_fact-Steps i reason w = elim (Option-cases (Dict.lookup i w.store.facts)) [
    | inl e ↦ rw e stay
    | inr (f, e) ↦ elim (Bool-cases f.valid) [
      | inl v ↦ rw (e, v) (then_step stay (retire w i reason f e v))
      | inr v ↦ rw (e, v) stay
    ]
  ]

  pub invalidate_each-Steps :
      (ids : List String) (reason : String) (w : World)
      → Steps env cfg w (record w { store = invalidate_each ids reason w.store })
  unfolding invalidate_each
  invalidate_each-Steps [] reason w = stay
  invalidate_each-Steps (i ∷ is) reason w =
      Steps-trans env cfg (invalidate_fact-Steps i reason w) (
        invalidate_each-Steps is reason (record w { store = (invalidate_fact i reason w.store).1 }))

  -- What the facts are after the prior ones have been retired.
  pub lookup-superseded :
      (u : GraphUpdate) (reason : String) (s : GraphStore) (k : String)
      → IsKeyed s.facts
      → NodupKeys s.facts
      → Dict.lookup k
          (invalidate_each
            (ids_of (filter (is_prior u.attribute) (facts_for_entity u.entity_id true s)))
            reason
            s).facts
        ≡ (if passes
              (λ f. is_about u.entity_id true f && is_prior u.attribute f)
              (Dict.lookup k s.facts)
            then marked_opt reason (Dict.lookup k s.facts)
            else Dict.lookup k s.facts)
  unfolding facts_for_entity
  lookup-superseded u reason s k keyed nodup =
      lookup-invalidate_each _ reason s k
      ∙ rw (
        filter-filter (is_prior u.attribute) (is_about u.entity_id true) (Dict.values s.facts),
        contains-values (λ f. is_about u.entity_id true f && is_prior u.attribute f) s.facts k keyed
            nodup,
      )

  superseded_no_conflict :
      (u : GraphUpdate) (reason : String) (w : World) (k : String) (g : Fact)
      → IsSound env cfg w
      → Dict.lookup k
          (invalidate_each
            (ids_of (filter (is_prior u.attribute) (facts_for_entity u.entity_id true w.store)))
            reason
            w.store).facts
        ≡ some g
      → conflict (new_fact env cfg attribute u.entity_id u.attribute u.value u w) g ≡ false
  superseded_no_conflict u reason w k g s e =
      no_conflict_of (Dict.lookup k w.store.facts)
        (sym (lookup-superseded u reason w.store k s.keyed s.nodup_facts) ∙ e)
    where
      no_conflict_of :
          (o : Option Fact)
          → (if passes (λ f. is_about u.entity_id true f && is_prior u.attribute f) o
              then marked_opt reason o
              else o)
            ≡ some g
          → conflict (new_fact env cfg attribute u.entity_id u.attribute u.value u w) g ≡ false
      no_conflict_of none h = ground arith
      no_conflict_of (some f) h = ground arith

  mirror-Steps :
      (o : Option Entity) (k name : String) (value : Value) (w : World)
      → Dict.lookup k w.store.entities ≡ o
      → Steps env cfg w (record w { store = mirror_onto o k name value w.store })
  mirror-Steps none k name value w e = stay
  mirror-Steps (some x) k name value w e = then_step stay (mirror w k name value x e)

  pub commit_attribute-Steps :
      (u : GraphUpdate) (w : World)
      → IsSound env cfg w
      → InUnit u.confidence
      → lt u.confidence cfg.min_commit_confidence ≡ false
      → Dict.has u.entity_id w.store.entities ≡ true
      → Steps env cfg w (commit_attribute env cfg u w).1
  unfolding commit_attribute
  commit_attribute-Steps u w s unit conf known =
      let reason = "superseded by set_attribute at " <> u.timestamp in
      let ids =
        ids_of (filter (is_prior u.attribute) (facts_for_entity u.entity_id true w.store)) in
      let w1 : World = record w { store = invalidate_each ids reason w.store } in
      let f = new_fact env cfg attribute u.entity_id u.attribute u.value u w in
      let w2 : World = record w1 {
        store = record w1.store { facts = Dict.insert f.fact_id f w1.store.facts };
        drawn = w.drawn + 1;
      } in
      let adm : IsAdmissible env cfg w1 f = record {
        fresh_id = refl;
        is_valid = refl;
        in_unit = unit;
        confident = conf;
        subject_known = rw (entities-invalidate_each ids reason w.store) known;
        object_known = refl;
        no_conflict = λ k g e. superseded_no_conflict u reason w k g s e;
      } in
      Steps-trans env cfg (then_step (invalidate_each-Steps ids reason w) (commit w1 f adm)) (
        mirror-Steps (Dict.lookup u.entity_id w2.store.entities) u.entity_id u.attribute u.value w2
          refl)

  -- No listed fact, no fact that passes.
  pub none_passes :
      (p : Fact → Bool) (d : Dict Fact) (k : String) (g : Fact)
      → is_empty (filter p (Dict.values d)) ≡ true
      → Dict.lookup k d ≡ some g
      → p g ≡ false
  unfolding Dict.values Dict.lookup
  none_passes p [] k g h e = cc
  none_passes p ((j, f) ∷ d) k g h e = ground (arith, none_passes p d k g)

  pub commit_relation-Steps :
      (u : GraphUpdate) (w : World)
      → InUnit u.confidence
      → lt u.confidence cfg.min_commit_confidence ≡ false
      → Dict.has u.subject w.store.entities ≡ true
      → Dict.has u.object w.store.entities ≡ true
      → Steps env cfg w (commit_relation env cfg u w).1
  unfolding commit_relation
  commit_relation-Steps u w unit conf known known' =
      let p = relates u.subject u.predicate u.object true in
      let f = new_fact env cfg relation u.subject u.predicate (str u.object) u w in
      elim (Bool-cases (is_empty (filter p (Dict.values w.store.facts)))) [
        | inl new ↦
            let adm : IsAdmissible env cfg w f = record {
              fresh_id = refl;
              is_valid = refl;
              in_unit = unit;
              confident = conf;
              subject_known = known;
              object_known = known';
              no_conflict =
                  λ k g e. let other = none_passes p w.store.facts k g new e in ground arith;
            } in
            rw new (then_step stay (commit w f adm))
        | inr old ↦ rw old stay
      ]
