-- ===== src/KnowledgeGraph/Updater/Invariant.antt =====
-- The invariant of the world model behind `GraphUpdater` (knowledge_graph/graph_updater.py), kept
-- by every step of the abstract machine.
use ros2_vlm_demo.Common.{ℕ, ◌<◌, String, ◌≡◌, ap, sym, ◌∙◌, true, false, inl, inr, some, arith}
use mathlib.Core.Path.{subst₂}
use ros2_vlm_demo.Common.Dict
use ros2_vlm_demo.Common.Dict.{NodupKeys, Dict}
use ros2_vlm_demo.Float.{lt}
use ros2_vlm_demo.KnowledgeGraph.Schema.{Entity, Fact}
use ros2_vlm_demo.KnowledgeGraph.Schema.Confidence.{InUnit}
use ros2_vlm_demo.KnowledgeGraph.Store.{retired}
use ros2_vlm_demo.KnowledgeGraph.Store.Laws.{IsKeyed}
use ros2_vlm_demo.KnowledgeGraph.World.{Env, Settings, World}
use ros2_vlm_demo.KnowledgeGraph.Updater.Step.{conflict, target_known}

-- Identifiers are drawn without repetition, as `uuid.uuid4` is relied on to do.
abbrev pub IsFresh : Env → Type 0
IsFresh env = (i j : ℕ) → env.uuid i ≡ env.uuid j → i ≡ j

-- A fact's identifier has been drawn.
abbrev pub IsDrawn : Env → ℕ → String → Type 0
IsDrawn env n k = (i : ℕ) × (i < n) × (env.uuid i ≡ k)

abbrev pub EachFact : (String → Fact → Type 0) → Dict Fact → Type 0
EachFact P d = (k : String) (f : Fact) → Dict.lookup k d ≡ some f → P k f

-- No two valid facts say different things of the same.
abbrev pub IsUnique : Dict Fact → Type 0
IsUnique d =
    (j k : String) (f g : Fact)
    → Dict.lookup j d ≡ some f
    → Dict.lookup k d ≡ some g
    → f.valid ≡ true
    → conflict f g ≡ true
    → j ≡ k

pub record IsSound (env : Env) (cfg : Settings) (w : World) : Type 0 where
  pub nodup_entities : NodupKeys w.store.entities
  pub nodup_facts : NodupKeys w.store.facts
  pub keyed : IsKeyed w.store.facts
  pub drawn : EachFact (λ k f. IsDrawn env w.drawn k) w.store.facts
  pub unique : IsUnique w.store.facts
  pub in_unit : EachFact (λ k f. InUnit f.confidence) w.store.facts
  pub confident : EachFact (λ k f. lt f.confidence cfg.min_commit_confidence ≡ false) w.store.facts
  pub subject_known : EachFact (λ k f. Dict.has f.subject w.store.entities ≡ true) w.store.facts
  pub object_known : EachFact (λ k f. target_known f w ≡ true) w.store.facts

-- A statement of each fact survives a write that makes it true of the written fact.
pub EachFact-insert :
    (P Q : String → Fact → Type 0) (i : String) (g : Fact) (d : Dict Fact)
    → ((k : String) (f : Fact) → P k f → Q k f)
    → EachFact P d
    → Q i g
    → EachFact Q (Dict.insert i g d)
EachFact-insert P Q i g d weaken h new k f e = elim (Dict.lookup-insert-some k i g f d e) [
  | inl (p, q) ↦ subst₂ Q p q new
  | inr (_, old) ↦ weaken k f (h k f old)
]

conflict_symm : (f g : Fact) → f.valid ≡ true → conflict f g ≡ true → conflict g f ≡ true
conflict_symm f g v h = ground arith

-- A fact whose retirement changes nothing that a conflict looks at but its validity.
pub IsUnique-retire :
    (i reason : String) (g : Fact) (d : Dict Fact)
    → IsUnique d
    → IsUnique (Dict.insert i (retired reason g) d)
IsUnique-retire i reason g d u j k f h ej ek vf c =
    elim (Dict.lookup-insert-some j i (retired reason g) f d ej) [
      | inl (_, q) ↦ cc (vf, ap (λ (x : Fact). x.valid) q)
      | inr (_, oldj) ↦ elim (Dict.lookup-insert-some k i (retired reason g) h d ek) [
        | inl (_, q) ↦ absurd (ground (arith, q, ap (λ (x : Fact). x.valid) q))
        | inr (_, oldk) ↦ u j k f h oldj oldk vf c
      ]
    ]

pub IsUnique-commit :
    (i : String) (g : Fact) (d : Dict Fact)
    → g.valid ≡ true
    → EachFact (λ k f. conflict g f ≡ false) d
    → IsUnique d
    → IsUnique (Dict.insert i g d)
IsUnique-commit i g d v none_like u j k f h ej ek vf c =
    elim (Dict.lookup-insert-some j i g f d ej) [
      | inl (p, q) ↦ elim (Dict.lookup-insert-some k i g h d ek) [
        | inl (p', _) ↦ sym p ∙ p'
        | inr (_, oldk) ↦ cc (q, c, none_like k h oldk)
      ]
      | inr (_, oldj) ↦ elim (Dict.lookup-insert-some k i g h d ek) [
        | inl (_, q) ↦
            let c' : conflict f g ≡ true = rw q c in
            cc (conflict_symm f g vf c', none_like j f oldj)
        | inr (_, oldk) ↦ u j k f h oldj oldk vf c
      ]
    ]

-- An entity is written under a key.
abbrev pub with_entity : World → String → Entity → ℕ → World
with_entity w k e readings = record w {
  store = record w.store { entities = Dict.insert k e w.store.entities };
  readings = readings;
}
