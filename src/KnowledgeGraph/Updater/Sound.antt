-- ===== src/KnowledgeGraph/Updater/Sound.antt =====
-- Every step of the abstract machine behind `GraphUpdater` (knowledge_graph/graph_updater.py) keeps
-- the invariant.
use ros2_vlm_demo.Common.{
  ℕ, ◌+◌, String, ◌≡◌, refl, sym, true, false, inl, inr, some, [], arith, string_dec, Bool-cases,
  ◌∷◌,
}
use ros2_vlm_demo.Common.Dict
use ros2_vlm_demo.Common.Dict.{NodupKeys, Dict}
use ros2_vlm_demo.Json.{Value, str}
use ros2_vlm_demo.KnowledgeGraph.Schema.{Entity, Fact}
use ros2_vlm_demo.KnowledgeGraph.Store.{retired, empty_store, is_attribute}
use ros2_vlm_demo.KnowledgeGraph.Store.Laws.{IsKeyed, insert-IsKeyed}
use ros2_vlm_demo.KnowledgeGraph.World.{Env, Settings, World}
use ros2_vlm_demo.KnowledgeGraph.Updater.Step.{
  target_known, IsAdmissible, Step, add, retire, commit, mirror, Steps, Steps-keep,
}
use ros2_vlm_demo.KnowledgeGraph.Updater.Invariant.{
  IsSound, with_entity, IsDrawn, EachFact-insert, IsUnique-retire, IsUnique-commit,
}

-- More entities: what was known stays known.
target_known_mono :
    (f : Fact) (w v : World)
    → ((o : String) → Dict.has o w.store.entities ≡ true → Dict.has o v.store.entities ≡ true)
    → target_known f w ≡ true
    → target_known f v ≡ true
target_known_mono f w v more h = elim (Bool-cases (is_attribute f.fact_type)) [
  | inl a ↦ rw a
  | inr r ↦ rw r (known_mono f.obj (rw r at h))
]
  where
    known_mono :
        (o : Value)
        → ((elim o [ str t ↦ Dict.has t w.store.entities | _ ↦ false ]) ≡ true)
        → (elim o [ str t ↦ Dict.has t v.store.entities | _ ↦ false ]) ≡ true
    known_mono (str t) e = more t e
    known_mono _ e = cc

module _ (env : Env) (cfg : Settings) where
  -- An entity is written, under a new key or in place of the old one.
  IsSound-entities :
      (w : World) (k : String) (e : Entity) (readings : ℕ)
      → IsSound env cfg w
      → IsSound env cfg (with_entity w k e readings)
  IsSound-entities w k e readings s =
      let more = λ (o : String) (h : Dict.has o w.store.entities ≡ true).
        Dict.has-insert_mono o k e w.store.entities h in
      record {
        nodup_entities = Dict.insert-NodupKeys k e w.store.entities s.nodup_entities;
        nodup_facts = s.nodup_facts;
        keyed = s.keyed;
        drawn = s.drawn;
        unique = s.unique;
        in_unit = s.in_unit;
        confident = s.confident;
        subject_known = λ j f h. more f.subject (s.subject_known j f h);
        object_known =
            λ j f h. target_known_mono f w (with_entity w k e readings) more (s.object_known j f h);
      }

  IsSound-retire :
      (w : World) (i reason : String) (f : Fact)
      → Dict.lookup i w.store.facts ≡ some f
      → f.fact_id ≡ i
      → IsSound env cfg w
      → IsSound env cfg (record w {
        store = record w.store { facts = Dict.insert i (retired reason f) w.store.facts };
      })
  IsSound-retire w i reason f h e s =
      let d = w.store.facts in
      let g = retired reason f in
      record {
        nodup_entities = s.nodup_entities;
        nodup_facts = Dict.insert-NodupKeys i g d s.nodup_facts;
        keyed = insert-IsKeyed i g d e s.keyed;
        drawn = EachFact-insert _ _ i g d (λ k x p. p) s.drawn (s.drawn i f h);
        unique = IsUnique-retire i reason f d s.unique;
        in_unit = EachFact-insert _ _ i g d (λ k x p. p) s.in_unit (s.in_unit i f h);
        confident = EachFact-insert _ _ i g d (λ k x p. p) s.confident (s.confident i f h);
        subject_known =
            EachFact-insert _ _ i g d (λ k x p. p) s.subject_known (s.subject_known i f h);
        object_known = EachFact-insert _ _ i g d (λ k x p. p) s.object_known (s.object_known i f h);
      }

  IsSound-commit :
      (w : World) (f : Fact)
      → IsAdmissible env cfg w f
      → IsSound env cfg w
      → IsSound env cfg (record w {
        store = record w.store { facts = Dict.insert f.fact_id f w.store.facts };
        drawn = w.drawn + 1;
      })
  IsSound-commit w f a s =
      let d = w.store.facts in
      record {
        nodup_entities = s.nodup_entities;
        nodup_facts = Dict.insert-NodupKeys f.fact_id f d s.nodup_facts;
        keyed = insert-IsKeyed f.fact_id f d refl s.keyed;
        drawn =
            EachFact-insert (λ k x. IsDrawn env w.drawn k) (λ k x. IsDrawn env (w.drawn + 1) k)
              f.fact_id f d (λ k x (i, l, p). (i, omega arith, p)) s.drawn
              (w.drawn, omega arith, sym a.fresh_id);
        unique = IsUnique-commit f.fact_id f d a.is_valid a.no_conflict s.unique;
        in_unit = EachFact-insert _ _ f.fact_id f d (λ k x p. p) s.in_unit a.in_unit;
        confident = EachFact-insert _ _ f.fact_id f d (λ k x p. p) s.confident a.confident;
        subject_known =
            EachFact-insert _ _ f.fact_id f d (λ k x p. p) s.subject_known a.subject_known;
        object_known = EachFact-insert _ _ f.fact_id f d (λ k x p. p) s.object_known a.object_known;
      }

  -- In a keyed dict a fact is found under its identifier.
  pub fact_id_of_lookup :
      (k : String) (f : Fact) (d : Dict Fact) → IsKeyed d → Dict.lookup k d ≡ some f → f.fact_id ≡ k
  unfolding Dict.lookup
  fact_id_of_lookup k f [] h e = cc
  fact_id_of_lookup k f ((j, g) ∷ d) (p, h) e = elim (string_dec j k) [
    | yes q ↦ ground arith
    | no n ↦ fact_id_of_lookup k f d h (ground arith)
  ]

  -- Every step of the machine keeps the invariant.
  pub Step-IsSound : (a b : World) → Step env cfg a b → IsSound env cfg a → IsSound env cfg b
  Step-IsSound a b (add w e readings new) s = IsSound-entities w e.entity_id e readings s
  Step-IsSound a b (retire w i reason f h v) s =
      IsSound-retire w i reason f h (fact_id_of_lookup i f w.store.facts s.keyed h) s
  Step-IsSound a b (commit w f adm) s = IsSound-commit w f adm s
  Step-IsSound a b (mirror w k name value e h) s =
      IsSound-entities w k (record e { attributes = Dict.insert name value e.attributes })
        w.readings s

  pub Steps-IsSound : {w v : World} → Steps env cfg w v → IsSound env cfg w → IsSound env cfg v
  Steps-IsSound r = Steps-keep env cfg (IsSound env cfg) Step-IsSound r

  -- The store that `GraphStore.__init__` makes.
  pub IsSound-empty : IsSound env cfg (record { store = empty_store; drawn = 0; readings = 0 })
  unfolding Dict.lookup
  IsSound-empty = record {
    nodup_entities = tt;
    nodup_facts = tt;
    keyed = tt;
    drawn = λ k f e. cc;
    unique = λ j k f g e. cc;
    in_unit = λ k f e. cc;
    confident = λ k f e. cc;
    subject_known = λ k f e. cc;
    object_known = λ k f e. cc;
  }
