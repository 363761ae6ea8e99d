-- ===== src/Workbench/Experiment/Graph.antt =====
-- `_run_knowledge_graph` and `run_experiment` of web_console/experiment_engine.py. The texts of the
-- protocol with the model are an interface, `Protocol`.
pub mod Sound
use ros2_vlm_demo.Common.{
  ℕ, ◌+◌, String, Bool, true, false, ◌&&◌, not, Option, none, some, List, [], ◌∷◌, is_empty, ◌==◌,
  if◌then◌else◌,
}
use ros2_vlm_demo.Float.{Float}
use ros2_vlm_demo.KnowledgeGraph.Schema.{GraphUpdate}
use ros2_vlm_demo.KnowledgeGraph.World.{Env, Settings, World, ApplyResult}
use ros2_vlm_demo.KnowledgeGraph.Updater.{apply}
use ros2_vlm_demo.KnowledgeGraph.Retrieval.{
  Library, RetrievalConfig, SubGraph, retrieve_salient_subgraph,
}
use ros2_vlm_demo.Workbench.History.{Text, join, blank_line, build_prompt}
use ros2_vlm_demo.Workbench.Experiment.{
  ExperimentDefinition, FrameResult, Reply, Invalid, frame_result, validate_definition,
  run_single_frame, run_observation_history,
}

-- How a graph is written into a prompt, how proposals are read from a response (`none` where that
-- raises), and the keywords of a task.
pub record Protocol : Type 0 where
  pub serialize_subgraph : SubGraph → Text
  pub update_instructions : Text
  pub parse_graph_updates : Text → Option (List GraphUpdate)
  pub keywords_from_prompt : Text → List String

-- Everything a run draws on: the service, the cancellation, the clock (`now i` at frame `i`), Python's
-- library, the updater's environment and its settings.
pub record Setting : Type 0 where
  pub infer : ℕ → String → Text → Reply
  pub cancelled : ℕ → Bool
  pub now : ℕ → Float
  pub lib : Library
  pub env : Env
  pub settings : Settings
  pub retrieval_config : RetrievalConfig
  pub protocol : Protocol

abbrev pub Counts : Type 0
Counts = ℕ × ℕ

abbrev pub counts_of : ApplyResult × World → Counts × World
counts_of (r, w) = ((r.accepted, r.rejected), w)

module _ (x : Setting) (d : ExperimentDefinition) where
  abbrev pub absorb_parsed : Option (List GraphUpdate) → World → Counts × World
  absorb_parsed none w = ((0, 0), w)
  absorb_parsed (some updates) w = counts_of (apply x.env x.settings updates w)

  -- A failed or empty reply, and one that cannot be read, leave the world alone.
  unfoldable pub absorb : Reply → World → Counts × World
  absorb reply w =
      if reply.success && not (is_empty reply.text)
      then absorb_parsed (x.protocol.parse_graph_updates reply.text) w
      else ((0, 0), w)

  unfoldable pub graph_prompt : ℕ → World → Text
  graph_prompt i w =
      let subgraph =
        retrieve_salient_subgraph x.lib x.retrieval_config
          (x.protocol.keywords_from_prompt d.task_prompt) [] (x.now i) w.store in
      join blank_line (
        x.protocol.serialize_subgraph subgraph
        ∷ x.protocol.update_instructions
        ∷ build_prompt d.task_prompt d.system_instruction [] 0
        ∷ [])

  abbrev pub graph_result : ℕ → String → Text → Counts → FrameResult
  graph_result i path prompt (accepted, rejected) =
      record (frame_result x.infer x.cancelled d i path prompt 0 false) {
        graph_updates_accepted = accepted;
        graph_updates_rejected = rejected;
      }

  unfoldable pub graph_loop : ℕ → List String → World → List FrameResult × World
  graph_loop i [] w = ([], w)
  graph_loop i (path ∷ paths) w =
      let prompt = graph_prompt i w in
      let (counts, w') = absorb (x.infer i path prompt) w in
      let (rest, w'') = graph_loop (i + 1) paths w' in
      if x.cancelled i then ([], w) else (graph_result i path prompt counts ∷ rest, w'')

  unfoldable pub run_knowledge_graph : World → List FrameResult × World
  unfolding graph_loop
  run_knowledge_graph w = graph_loop 0 d.image_paths w

  -- What `run_experiment` returns or raises.
  pub data Run : Type 0 where
    finished : List FrameResult → World → Run
    value_error : Option Invalid → Run

  abbrev pub run_valid : (words : Text → List Text) → World → Run
  run_valid words w =
      if d.strategy == "single_frame"
      then finished (run_single_frame x.infer x.cancelled d) w
      else if d.strategy == "single_frame_observation_history"
      then finished (run_observation_history x.infer x.cancelled d words) w
      else if d.strategy == "single_frame_knowledge_graph"
      then (let (results, w') = run_knowledge_graph w in finished results w')
      else value_error none

  abbrev pub run_checked : (words : Text → List Text) → Option Invalid → World → Run
  run_checked words none w = run_valid words w
  run_checked words (some e) w = value_error (some e)

  unfoldable pub run_experiment :
      (suffix : String → String) → (words : Text → List Text) → World → Run
  unfolding validate_definition run_single_frame run_observation_history run_knowledge_graph
  run_experiment suffix words w = run_checked words (validate_definition suffix d) w
