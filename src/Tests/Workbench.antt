-- ===== src/Tests/Workbench.antt =====
-- A run of four images for web_console/experiment_engine.py.
use ros2_vlm_demo.Common.{
  ℕ, ◌≤◌, String, ◌≡◌, refl, Bool, true, false, none, List, [], ◌∷◌, length, codes, eqb, arith,
}
use ros2_vlm_demo.Common.Int.{pos}
use ros2_vlm_demo.Float.{half_f, one_f, zero_f}
use ros2_vlm_demo.Workbench.History.{Text, truncate_history}
use ros2_vlm_demo.Workbench.History.Laws.{IsNewest, truncate_history_lem}
use ros2_vlm_demo.Workbench.Repetition.{take_last}
use ros2_vlm_demo.Workbench.Experiment.{
  ExperimentDefinition, Reply, run_single_frame, run_observation_history,
}
use ros2_vlm_demo.Workbench.Experiment.Window.{unbounded_loop, run_observation_history_lem}
use ros2_vlm_demo.Workbench.Experiment.Runs.{
  processed, labels, plain_all, entries_used, successes_before, runs_in_order, no_history,
}

abbrev notes : List Text
notes = codes "a dog" ∷ codes "a cat" ∷ codes "no one" ∷ []

cut_to_two : truncate_history notes 14 ≡ codes "a cat; no one"
unfolding truncate_history
cut_to_two = refl

truncate_history_lem_example :
    (length (truncate_history notes 14) ≤ 14) × IsNewest notes 14 (truncate_history notes 14)
truncate_history_lem_example = truncate_history_lem notes 14 (omega arith)

abbrev pub experiment : ExperimentDefinition
experiment = record {
  strategy = "single_frame_observation_history";
  image_paths = "1.jpg" ∷ "2.jpg" ∷ "3.jpg" ∷ "4.jpg" ∷ [];
  task_prompt = codes "Describe.";
  system_instruction = [];
  observation_history_max_entries = pos 2;
  observation_history_max_chars = pos 4000;
  max_generate_length = pos 96;
  temperature = zero_f;
  top_p = one_f;
  top_k = pos 20;
  source_dataset_id = none;
  source_frame_records = [];
}

abbrev no_entries : ExperimentDefinition
no_entries = record experiment { observation_history_max_entries = pos 0 }

abbrev answer : ℕ → String → Text → Reply
answer i path prompt = record { success = true; text = codes path; error = []; elapsed_ms = half_f }

abbrev stop_at_3 : ℕ → Bool
stop_at_3 i = eqb i 3

abbrev pub one_word : Text → List Text
one_word t = t ∷ []

used_entries :
    entries_used (run_observation_history answer (λ i. false) experiment one_word)
    ≡ 0 ∷ 1 ∷ 2 ∷ 2 ∷ []
unfolding run_observation_history take_last
used_entries = refl

runs_in_order_example :
    (labels (run_single_frame answer stop_at_3 experiment)
      ≡ processed stop_at_3 0 experiment.image_paths)
    × (labels (run_observation_history answer stop_at_3 experiment one_word)
        ≡ processed stop_at_3 0 experiment.image_paths)
runs_in_order_example = runs_in_order answer stop_at_3 experiment one_word

run_observation_history_lem_example :
    run_observation_history answer stop_at_3 experiment one_word
    ≡ unbounded_loop answer stop_at_3 experiment one_word 0 experiment.image_paths []
run_observation_history_lem_example =
    run_observation_history_lem answer stop_at_3 experiment one_word

no_history_example :
    let rs = run_observation_history answer stop_at_3 no_entries one_word in
    (plain_all rs ≡ run_single_frame answer stop_at_3 no_entries)
    × (entries_used rs ≡ successes_before 0 rs)
no_history_example = no_history answer stop_at_3 no_entries one_word refl
