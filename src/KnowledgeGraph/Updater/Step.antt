-- ===== src/KnowledgeGraph/Updater/Step.antt =====
-- The abstract machine that `GraphUpdater` (knowledge_graph/graph_updater.py) refines: the only
-- four ways in which the world model may change, each with its guard, and runs of them.
use ros2_vlm_demo.Common.{ℕ, ◌+◌, String, ◌≡◌, Bool, true, false, ◌&&◌, some, ◌==◌, if◌then◌else◌}
use ros2_vlm_demo.Common.Dict
use ros2_vlm_demo.Float.{lt}
use ros2_vlm_demo.Json.{Value, is_text, str}
use ros2_vlm_demo.KnowledgeGraph.Schema.{Entity, Fact}
use ros2_vlm_demo.KnowledgeGraph.Schema.Confidence.{InUnit}
use ros2_vlm_demo.KnowledgeGraph.Store.{is_attribute, is_relation, retired}
use ros2_vlm_demo.KnowledgeGraph.World.{Env, Settings, World}

-- The two facts say who stands to what: attributes by entity and name, relations by all three.
abbrev same_target : Value → Value → Bool
same_target (str a) v = is_text v a
same_target _ v = false

abbrev pub conflict : Fact → Fact → Bool
conflict f g =
    g.valid
    && (f.subject == g.subject
        && (f.predicate == g.predicate
            && (if is_attribute f.fact_type
                then is_attribute g.fact_type
                else (is_relation g.fact_type && same_target f.obj g.obj))))

-- The object of a relation is an entity.
abbrev pub target_known : Fact → World → Bool
target_known f w =
    if is_attribute f.fact_type
    then true
    else elim f.obj [ str o ↦ Dict.has o w.store.entities | _ ↦ false ]

module _ (env : Env) (cfg : Settings) where
  -- When a fact may be committed.
  pub record IsAdmissible (w : World) (f : Fact) : Type 0 where
    pub fresh_id : f.fact_id ≡ env.uuid w.drawn
    pub is_valid : f.valid ≡ true
    pub in_unit : InUnit f.confidence
    pub confident : lt f.confidence cfg.min_commit_confidence ≡ false
    pub subject_known : Dict.has f.subject w.store.entities ≡ true
    pub object_known : target_known f w ≡ true
    pub no_conflict :
        (k : String) (g : Fact) → Dict.lookup k w.store.facts ≡ some g → conflict f g ≡ false

  pub data Step : World → World → Type 0 where
    -- A new entity; the clock may have been read.
    add :
        (w : World) (e : Entity) (readings : ℕ)
        → Dict.has e.entity_id w.store.entities ≡ false
        → Step w (record w {
          store = record w.store { entities = Dict.insert e.entity_id e w.store.entities };
          readings = readings;
        })
    -- A valid fact is marked as no longer valid.
    retire :
        (w : World) (i reason : String) (f : Fact)
        → Dict.lookup i w.store.facts ≡ some f
        → f.valid ≡ true
        → Step w (record w {
          store = record w.store { facts = Dict.insert i (retired reason f) w.store.facts };
        })
    -- A new fact, under the next identifier.
    commit :
        (w : World) (f : Fact)
        → IsAdmissible w f
        → Step w (record w {
          store = record w.store { facts = Dict.insert f.fact_id f w.store.facts };
          drawn = w.drawn + 1;
        })
    -- An attribute of a stored entity is overwritten.
    mirror :
        (w : World) (k name : String) (value : Value) (e : Entity)
        → Dict.lookup k w.store.entities ≡ some e
        → Step w (record w {
          store = record w.store {
            entities =
                Dict.insert k
                  (record e { attributes = Dict.insert name value e.attributes })
                  w.store.entities;
          };
        })

  pub data Steps (w : World) : World → Type 0 where
    stay : Steps w w
    then_step : {v u : World} → Steps w v → Step v u → Steps w u

  pub Steps-trans : {a b c : World} → Steps a b → Steps b c → Steps a c
  Steps-trans r stay = r
  Steps-trans r (then_step s st) = then_step (Steps-trans r s) st

  -- What a step keeps, a run keeps.
  pub Steps-keep :
      (P : World → Type 0)
      → ((a b : World) → Step a b → P a → P b)
      → {w v : World} → Steps w v
      → P w
      → P v
  Steps-keep P keep stay h = h
  Steps-keep P keep (then_step {v} {u} r st) h = keep v u st (Steps-keep P keep r h)
