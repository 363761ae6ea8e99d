-- ===== src/Tests/Graph.antt =====
-- A run with the knowledge graph for web_console/experiment_engine.py.
use ros2_vlm_demo.Common.{ℕ, ◌≡◌, String, some, [], ◌∷◌, codes, eqb}
use ros2_vlm_demo.Float.{half_f, zero_f}
use ros2_vlm_demo.KnowledgeGraph.Updater.Invariant.{IsSound}
use ros2_vlm_demo.Workbench.History.{Text}
use ros2_vlm_demo.Workbench.Experiment.{ExperimentDefinition, Reply}
use ros2_vlm_demo.Workbench.Experiment.Runs.{labels}
use ros2_vlm_demo.Workbench.Experiment.Graph.{Setting, Protocol, run_knowledge_graph}
use ros2_vlm_demo.Workbench.Experiment.Graph.Sound.{run_knowledge_graph_lem}
use ros2_vlm_demo.Tests.KnowledgeGraph.{env, cfg, world, updates, world-IsSound}
use ros2_vlm_demo.Tests.Retrieval.{library, config}
use ros2_vlm_demo.Tests.Workbench.{experiment}

-- Every response proposes the same updates; the second call fails.
abbrev protocol : Protocol
protocol = record {
  serialize_subgraph = λ g. codes "graph";
  update_instructions = codes "propose";
  parse_graph_updates = λ t. some updates;
  keywords_from_prompt = λ t. [];
}

abbrev graph_reply : ℕ → String → Text → Reply
graph_reply i path prompt = record {
  success = eqb i 0;
  text = codes "a dog";
  error = [];
  elapsed_ms = half_f;
}

abbrev setting : Setting
setting = record {
  infer = graph_reply;
  cancelled = λ i. eqb i 2;
  now = λ i. zero_f;
  lib = library;
  env = env;
  settings = cfg;
  retrieval_config = config;
  protocol = protocol;
}

abbrev graph_experiment : ExperimentDefinition
graph_experiment = record experiment { strategy = "single_frame_knowledge_graph" }

abbrev jpg : String → String
jpg path = ".jpg"

run_knowledge_graph_lem_example :
    IsSound env cfg (run_knowledge_graph setting graph_experiment world).1
    × (labels (run_knowledge_graph setting graph_experiment world).0
        ≡ (0, "1.jpg") ∷ (1, "2.jpg") ∷ [])
run_knowledge_graph_lem_example =
    run_knowledge_graph_lem setting graph_experiment world world-IsSound
