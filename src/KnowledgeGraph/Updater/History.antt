-- ===== src/KnowledgeGraph/Updater/History.antt =====
-- What `GraphUpdater` (knowledge_graph/graph_updater.py) never loses or rewrites.
use ros2_vlm_demo.Common.{String, ◌≡◌, ◌∙◌, sym, true, some, List, arith, ap, ◌≢◌, string_dec}
use mathlib.Core.Path.{subst}
use mathlib.Core.Option.{some-injective}
use ros2_vlm_demo.Common.Dict
use ros2_vlm_demo.Json.{Value}
use ros2_vlm_demo.KnowledgeGraph.Schema.{Entity, Fact, GraphUpdate}
use ros2_vlm_demo.KnowledgeGraph.Store.{retired}
use ros2_vlm_demo.KnowledgeGraph.World.{Env, Settings, World}
use ros2_vlm_demo.KnowledgeGraph.Updater.{apply}
use ros2_vlm_demo.KnowledgeGraph.Updater.Step.{
  Step, add, retire, commit, mirror, Steps, stay, then_step,
}
use ros2_vlm_demo.KnowledgeGraph.Updater.Invariant.{IsFresh, IsSound}
use ros2_vlm_demo.KnowledgeGraph.Updater.Sound.{Steps-IsSound}
use ros2_vlm_demo.KnowledgeGraph.Updater.Operations.{apply-Steps}

-- The same fact, later: it says what it said, and may have become invalid.
pub record IsLater (f g : Fact) : Type 0 where
  pub fact_id : g.fact_id ≡ f.fact_id
  pub fact_type : g.fact_type ≡ f.fact_type
  pub subject : g.subject ≡ f.subject
  pub predicate : g.predicate ≡ f.predicate
  pub obj : g.obj ≡ f.obj
  pub confidence : g.confidence ≡ f.confidence
  pub timestamp : g.timestamp ≡ f.timestamp
  pub source : g.source ≡ f.source
  pub never_revived : g.valid ≡ true → f.valid ≡ true

-- The same entity, later: its attributes may have changed.
pub record IsLaterEntity (e d : Entity) : Type 0 where
  pub entity_id : d.entity_id ≡ e.entity_id
  pub entity_type : d.entity_type ≡ e.entity_type
  pub created_at : d.created_at ≡ e.created_at

pub record Remembers (w v : World) : Type 0 where
  pub facts :
      (k : String) (f : Fact)
      → Dict.lookup k w.store.facts ≡ some f
      → (g : Fact) × (Dict.lookup k v.store.facts ≡ some g) × IsLater f g
  pub entities :
      (k : String) (e : Entity)
      → Dict.lookup k w.store.entities ≡ some e
      → (d : Entity) × (Dict.lookup k v.store.entities ≡ some d) × IsLaterEntity e d

IsLater-refl : (f : Fact) → IsLater f f
IsLater-refl f = ground arith

IsLater-trans : (f g h : Fact) → IsLater f g → IsLater g h → IsLater f h
IsLater-trans f g h p q = ground arith

IsLaterEntity-trans : (a b c : Entity) → IsLaterEntity a b → IsLaterEntity b c → IsLaterEntity a c
IsLaterEntity-trans a b c p q = ground arith

Remembers-refl : (w : World) → Remembers w w
Remembers-refl w = record {
  facts = λ k f h. (f, h, IsLater-refl f);
  entities = λ k e h. (e, h, ground arith);
}

Remembers-trans : (a b c : World) → Remembers a b → Remembers b c → Remembers a c
Remembers-trans a b c p q = record {
  facts = λ k f h.
      let (g, hg, fg) = p.facts k f h in
      let (x, hx, gx) = q.facts k g hg in (x, hx, IsLater-trans f g x fg gx);
  entities = λ k e h.
      let (d, hd, ed) = p.entities k e h in
      let (x, hx, dx) = q.entities k d hd in (x, hx, IsLaterEntity-trans e d x ed dx);
}

lookup-insert_ne {ℓ} :
    {V : Type ℓ} (j k : String) (v w : V) (d : Dict.Dict V)
    → k ≢ j
    → Dict.lookup j d ≡ some w
    → Dict.lookup j (Dict.insert k v d) ≡ some w
lookup-insert_ne j k v w d n h = ground (arith, Dict.lookup-insert j k v d)

lookup-insert_self {ℓ} :
    {V : Type ℓ} (j k : String) (v : V) (d : Dict.Dict V)
    → k ≡ j
    → Dict.lookup j (Dict.insert k v d) ≡ some v
lookup-insert_self j k v d e = ground (arith, Dict.lookup-insert j k v d)

-- What is found under one key is one value.
found_once {ℓ} :
    {V : Type ℓ} (i k : String) (f g : V) (d : Dict.Dict V)
    → i ≡ k
    → Dict.lookup i d ≡ some f
    → Dict.lookup k d ≡ some g
    → f ≡ g
found_once i k f g d same h hg = some-injective f g (sym h ∙ ap (λ t. Dict.lookup t d) same ∙ hg)

IsLater-retired : (f g : Fact) (reason : String) → f ≡ g → IsLater g (retired reason f)
IsLater-retired f g reason p = subst (λ x. IsLater x (retired reason f)) p (ground arith)

IsLaterEntity-mirror :
    (e d : Entity) (name : String) (value : Value)
    → e ≡ d
    → IsLaterEntity d (record e { attributes = Dict.insert name value e.attributes })
IsLaterEntity-mirror e d name value p =
    subst (λ x. IsLaterEntity x (record e { attributes = Dict.insert name value e.attributes })) p
      (ground arith)

module _ (env : Env) (cfg : Settings) (fresh : IsFresh env) where
  -- The next identifier is no key yet.
  next_is_new :
      (w : World) (f : Fact)
      → IsSound env cfg w
      → Dict.lookup (env.uuid w.drawn) w.store.facts ≢ some f
  next_is_new w f s h =
      let (i, l, e) = s.drawn (env.uuid w.drawn) f h in omega (arith, fresh i w.drawn e)

  Step-Remembers : (a b : World) → Step env cfg a b → IsSound env cfg a → Remembers a b
  Step-Remembers a b (add w e readings new) s = record {
    facts = λ k f h. (f, h, IsLater-refl f);
    entities = λ k d h. (
      d,
      lookup-insert_ne k e.entity_id e d w.store.entities
          (λ p. cc (
            ap (λ t. Dict.has t w.store.entities) p,
            new,
            Dict.has_of_lookup k w.store.entities d h,
          ))
          h,
      ground arith,
    );
  }
  Step-Remembers a b (retire w i reason f h v) s = record {
    facts = λ k g hg. elim (string_dec i k) [
      | yes same ↦ (
        retired reason f,
        lookup-insert_self k i (retired reason f) w.store.facts same,
        IsLater-retired f g reason (found_once i k f g w.store.facts same h hg),
      )
      | no other ↦
          (g, lookup-insert_ne k i (retired reason f) g w.store.facts other hg, IsLater-refl g)
    ];
    entities = λ k d hd. (d, hd, ground arith);
  }
  Step-Remembers a b (commit w f adm) s = record {
    facts = λ k g hg. (
      g,
      lookup-insert_ne k f.fact_id f g w.store.facts
          (λ p.
            next_is_new w g s
              (subst (λ t. Dict.lookup t w.store.facts ≡ some g) (sym p ∙ adm.fresh_id) hg))
          hg,
      IsLater-refl g,
    );
    entities = λ k d hd. (d, hd, ground arith);
  }
  Step-Remembers a b (mirror w k name value e h) s = record {
    facts = λ j f hf. (f, hf, IsLater-refl f);
    entities = λ j d hd. elim (string_dec k j) [
      | yes same ↦ (
        record e { attributes = Dict.insert name value e.attributes },
        lookup-insert_self j k _ w.store.entities same,
        IsLaterEntity-mirror e d name value (found_once k j e d w.store.entities same h hd),
      )
      | no other ↦ (d, lookup-insert_ne j k _ d w.store.entities other hd, ground arith)
    ];
  }

  Steps-Remembers : {w v : World} → Steps env cfg w v → IsSound env cfg w → Remembers w v
  Steps-Remembers {w} stay s = Remembers-refl w
  Steps-Remembers {w} (then_step {v} {u} run st) s =
      Remembers-trans w v u (Steps-Remembers run s)
        (Step-Remembers v u st (Steps-IsSound env cfg run s))

  -- From a sound world, and with identifiers that never repeat, applying any list of updates
  -- forgets nothing: every fact is still found under its identifier and says what it said, an
  -- invalid one has not become valid, and every entity is still there with its type and its time
  -- of creation.
  pub apply-Remembers :
      (us : List GraphUpdate) (w : World) → IsSound env cfg w → Remembers w (apply env cfg us w).1
  apply-Remembers us w s = Steps-Remembers (apply-Steps env cfg us w s) s
