-- ===== src/KnowledgeGraph/World.antt =====
-- The data of knowledge_graph/graph_updater.py: the updater's settings, what it draws from its
-- environment, the world that it changes, and the results that it reports.
use ros2_vlm_demo.Common.{ℕ, String, Bool, Option, List}
use ros2_vlm_demo.Float.{Float}
use ros2_vlm_demo.KnowledgeGraph.Schema.{SchemaError, clamp_confidence}
use ros2_vlm_demo.KnowledgeGraph.Store.{GraphStore}

-- `uuid k` is the k-th identifier drawn, `utc_now k` the k-th reading of the clock.
pub record Env : Type 0 where
  pub uuid : ℕ → String
  pub utc_now : ℕ → String

pub record Settings : Type 0 where
  pub min_commit_confidence : Float
  pub require_known_entities : Bool

-- `GraphUpdater.__init__`
unfoldable pub new_updater : Float → Bool → Settings
new_updater min_commit_confidence require_known_entities = record {
  min_commit_confidence = clamp_confidence min_commit_confidence;
  require_known_entities = require_known_entities;
}

-- The store, and how much of the environment has been drawn.
pub record World : Type 0 where
  pub store : GraphStore
  pub drawn : ℕ
  pub readings : ℕ

-- What `reason` says.
pub data Reason : Type 0 where
  no_reason entity_already_existed relation_already_exists relation_not_found : Reason
  schema_error : SchemaError → Reason
  low_confidence : Float → Float → Reason
  unknown_entity unknown_subject unknown_object : String → Reason
  not_found_or_invalid unknown_op : String → Reason

pub record UpdateResult : Type 0 where
  pub op : String
  pub accepted : Bool
  pub reason : Reason
  pub committed_facts : List String
  pub committed_entity : Option String

pub record ApplyResult : Type 0 where
  pub total : ℕ
  pub accepted : ℕ
  pub rejected : ℕ
  pub results : List UpdateResult
