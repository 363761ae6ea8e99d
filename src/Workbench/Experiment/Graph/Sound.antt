-- ===== src/Workbench/Experiment/Graph/Sound.antt =====
-- What a run with the knowledge graph in web_console/experiment_engine.py leaves behind.
use ros2_vlm_demo.Common.{
  ℕ, ◌+◌, String, ◌≡◌, refl, ap, Bool, true, false, ◌&&◌, not, Option, none, some, List, [], ◌∷◌,
  is_empty, arith, Bool-cases, Option-cases, contains, inl, inr,
}
use ros2_vlm_demo.KnowledgeGraph.Schema.{GraphUpdate}
use ros2_vlm_demo.KnowledgeGraph.World.{World}
use ros2_vlm_demo.KnowledgeGraph.Updater.Invariant.{IsSound}
use ros2_vlm_demo.KnowledgeGraph.Updater.Operations.{apply-IsSound}
use ros2_vlm_demo.Workbench.Experiment.{
  ExperimentDefinition, Reply, Invalid, validate_definition, valid_strategies,
}
use ros2_vlm_demo.Workbench.History.{Text}
use ros2_vlm_demo.Workbench.Experiment.Runs.{labels, processed}
use ros2_vlm_demo.Workbench.Experiment.Graph.{
  Setting, absorb, absorb_parsed, graph_prompt, graph_loop, run_knowledge_graph, Run, finished,
  value_error, run_valid, run_experiment,
}

module _ (x : Setting) (d : ExperimentDefinition) where
  absorb_parsed-IsSound :
      (o : Option (List GraphUpdate)) (w : World)
      → IsSound x.env x.settings w
      → IsSound x.env x.settings (absorb_parsed x d o w).1
  absorb_parsed-IsSound none w s = s
  absorb_parsed-IsSound (some us) w s = apply-IsSound x.env x.settings us w s

  absorb-IsSound :
      (reply : Reply) (w : World)
      → IsSound x.env x.settings w
      → IsSound x.env x.settings (absorb x d reply w).1
  unfolding absorb
  absorb-IsSound reply w s = elim (Bool-cases (reply.success && not (is_empty reply.text))) [
    | inl good ↦ rw good (absorb_parsed-IsSound (x.protocol.parse_graph_updates reply.text) w s)
    | inr bad ↦ rw bad s
  ]

  graph_loop-IsSound :
      (i : ℕ) (paths : List String) (w : World)
      → IsSound x.env x.settings w
      → IsSound x.env x.settings (graph_loop x d i paths w).1
  unfolding graph_loop
  graph_loop-IsSound i [] w s = s
  graph_loop-IsSound i (path ∷ paths) w s = elim (Bool-cases (x.cancelled i)) [
    | inl stop ↦ rw stop s
    | inr go ↦
        let reply = x.infer i path (graph_prompt x d i w) in
        rw go (graph_loop-IsSound (i + 1) paths (absorb x d reply w).1 (absorb-IsSound reply w s))
  ]

  graph_loop-labels :
      (i : ℕ) (paths : List String) (w : World)
      → labels (graph_loop x d i paths w).0 ≡ processed x.cancelled i paths
  unfolding graph_loop
  graph_loop-labels i [] w = refl
  graph_loop-labels i (path ∷ paths) w = elim (Bool-cases (x.cancelled i)) [
    | inl stop ↦ rw stop refl
    | inr go ↦
        let reply = x.infer i path (graph_prompt x d i w) in
        rw go (ap (λ t. (i, path) ∷ t) (graph_loop-labels (i + 1) paths (absorb x d reply w).1))
  ]

  -- Whatever the service answers, whatever proposals are read from it and wherever the run is
  -- cancelled, a run with the knowledge graph leaves a sound world a sound world, and reports the images
  -- in order up to the first frame before which it is cancelled.
  pub run_knowledge_graph_lem :
      (w : World)
      → IsSound x.env x.settings w
      → IsSound x.env x.settings (run_knowledge_graph x d w).1
        × (labels (run_knowledge_graph x d w).0 ≡ processed x.cancelled 0 d.image_paths)
  unfolding run_knowledge_graph
  run_knowledge_graph_lem w s =
      (graph_loop-IsSound 0 d.image_paths w s, graph_loop-labels 0 d.image_paths w)

abbrev pub is_finished : {x : Setting} {d : ExperimentDefinition} → Run x d → Bool
is_finished (finished results w) = true
is_finished (value_error e) = false

abbrev pub is_valid : Option Invalid → Bool
is_valid none = true
is_valid (some e) = false

module _ (x : Setting) (d : ExperimentDefinition) where
  known_strategy :
      (words : Text → List Text) (w : World)
      → contains valid_strategies d.strategy ≡ true
      → is_finished (run_valid x d words w) ≡ true
  known_strategy words w h = ground arith

  known_if_valid :
      (suffix : String → String)
      → validate_definition suffix d ≡ none
      → contains valid_strategies d.strategy ≡ true
  unfolding validate_definition
  known_if_valid suffix h = elim (Bool-cases (contains valid_strategies d.strategy)) [
    | inl known ↦ known
    | inr unknown ↦ absurd (cc (rw unknown at h))
  ]

  -- run_experiment returns results exactly for the definitions that are valid, and raises for the
  -- others: its last branch, for a valid strategy that is not implemented, is never reached.
  pub run_experiment_lem :
      (suffix : String → String) (words : Text → List Text) (w : World)
      → is_finished (run_experiment x d suffix words w) ≡ is_valid (validate_definition suffix d)
  unfolding run_experiment
  run_experiment_lem suffix words w = elim (Option-cases (validate_definition suffix d)) [
    | inl fine ↦ rw fine (known_strategy words w (known_if_valid suffix fine))
    | inr (e, bad) ↦ rw bad refl
  ]
