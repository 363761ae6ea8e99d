-- ===== src/Tests/Retrieval.antt =====
-- Two entities and a fact for knowledge_graph/context_retrieval.py.
use mathlib.Core.List.{Perm}
use ros2_vlm_demo.Common.{◌≡◌, refl, true, none, List, [], ◌∷◌, map, filter, All, string_dec}
use ros2_vlm_demo.Common.Int.{pos}
use ros2_vlm_demo.Common.Dict
use ros2_vlm_demo.Float.{zero_f, half_f, one_f}
use ros2_vlm_demo.Json.{str}
use ros2_vlm_demo.KnowledgeGraph.Schema.{Entity, Fact, relation}
use ros2_vlm_demo.KnowledgeGraph.Store.{GraphStore, snapshot}
use ros2_vlm_demo.KnowledgeGraph.Retrieval.{
  Library, RetrievalConfig, Scored, ranked, is_selected, retrieve_salient_subgraph,
}
use ros2_vlm_demo.KnowledgeGraph.Retrieval.Selection.{IsSelection, retrieve_salient_subgraph_lem}
use ros2_vlm_demo.KnowledgeGraph.Retrieval.Evidence.{IsEvidence, facts-retrieve_lem}

-- A library whose sums keep the right side and whose products keep the weight.
abbrev pub library : Library
library = record {
  add = λ a b. b;
  total = λ xs. half_f;
  subtract = λ a b. a;
  times = λ a b. b;
  divide = λ a b. a;
  of_count = λ n. one_f;
  decay = λ a. one_f;
  round_4 = λ a. a;
  posix = λ s. none;
  lower = λ s. s;
  text_of = λ v. "?";
}

abbrev pub config : RetrievalConfig
config = record {
  context_budget = pos 25;
  task_relevance_weight = one_f;
  entity_relevance_weight = one_f;
  recency_weight = one_f;
  confidence_weight = one_f;
  min_confidence = zero_f;
  max_entities = pos 50;
}

abbrev door : Entity
door = record { entity_id = "door"; entity_type = "thing"; created_at = "1"; attributes = [] }

abbrev cup : Entity
cup = record { entity_id = "cup"; entity_type = "thing"; created_at = "1"; attributes = [] }

abbrev near : Fact
near = record {
  fact_id = "f0";
  fact_type = relation;
  subject = "door";
  predicate = "near";
  obj = str "cup";
  confidence = half_f;
  timestamp = "1";
  source = "";
  valid = true;
  provenance = "";
}

abbrev graph : GraphStore
graph = record { entities = ("door", door) ∷ ("cup", cup) ∷ []; facts = ("f0", near) ∷ [] }

by_name :
    map (λ e. e.entity_id) (retrieve_salient_subgraph library config [] [] zero_f graph).entities
    ≡ "cup" ∷ []
unfolding retrieve_salient_subgraph Dict.values half_f string_dec
by_name = refl

retrieve_salient_subgraph_lem_example :
    (chosen : List Scored) × ((retrieve_salient_subgraph library config [] [] zero_f graph).entities
      ≡ map (λ c. c.1) chosen)
    × IsSelection library config [] [] zero_f (ranked library config [] [] zero_f graph) chosen
retrieve_salient_subgraph_lem_example =
    retrieve_salient_subgraph_lem library config [] [] zero_f graph

facts-retrieve_lem_example :
    let sub = retrieve_salient_subgraph library config [] [] zero_f graph in
    Perm sub.facts (
      filter
        (is_selected library config [] [] zero_f (map (λ e. e.entity_id) sub.entities))
        (snapshot graph).1)
    × All (IsEvidence config (map (λ e. e.entity_id) sub.entities)) sub.facts
facts-retrieve_lem_example = facts-retrieve_lem library config [] [] zero_f graph
