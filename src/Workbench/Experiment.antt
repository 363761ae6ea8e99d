-- ===== src/Workbench/Experiment.antt =====
-- The runs of web_console/experiment_engine.py: `validate_definition`, `_run_single_frame` and
-- `_run_observation_history`. The inference service, its latency and the cancellation are arguments:
-- `infer i path prompt` is the reply to the i-th call and `cancelled i` the answer before frame i.
-- The JSONL artifacts and the `on_frame` callback are written from the results and are left out.
pub mod Window
pub mod Runs
pub mod Graph
use ros2_vlm_demo.Common.{
  ℕ, zero, suc, ◌+◌, ◌*◌, String, Bool, true, false, ◌&&◌, ◌||◌, not, Option, none, some, List, [],
  ◌∷◌, ◌++◌, length, ltb, leb, is_empty, contains, any, if◌then◌else◌,
}
use ros2_vlm_demo.Common.Int.{ℤ, pos, pos_part, ltb_ℤ}
use ros2_vlm_demo.Float.{Float, fin, lt, le, zero_f, one_f, one_units}
use ros2_vlm_demo.Workbench.History.{Text, build_prompt}
use ros2_vlm_demo.Workbench.Repetition.{compute_repetition, take_last}

-- An entry of `source_frame_records`.
pub record SourceRecord : Type 0 where
  pub frame_index : Option ℤ
  pub timestamp_ns : Option ℤ

pub record ExperimentDefinition : Type 0 where
  pub strategy : String
  pub image_paths : List String
  pub task_prompt : Text
  pub system_instruction : Text
  pub observation_history_max_entries : ℤ
  pub observation_history_max_chars : ℤ
  pub max_generate_length : ℤ
  pub temperature : Float
  pub top_p : Float
  pub top_k : ℤ
  pub source_dataset_id : Option String
  pub source_frame_records : List SourceRecord

pub record FrameResult : Type 0 where
  pub frame_index : ℕ
  pub image_path : String
  pub prompt_used : Text
  pub success : Bool
  pub text : Text
  pub error : Text
  pub latency_ms : Float
  pub history_entries_used : ℕ
  pub repetition_flag : Bool
  pub source_dataset_id : Option String
  pub source_frame_index : Option ℤ
  pub source_timestamp_ns : Option ℤ
  pub graph_updates_accepted : ℕ
  pub graph_updates_rejected : ℕ

-- The messages of `validate_definition`.
pub data Invalid : Type 0 where
  unknown_strategy no_images too_many_images unsupported_extension no_task_prompt : Invalid
  bad_generate_length bad_temperature bad_top_p bad_top_k bad_max_entries bad_max_chars : Invalid

abbrev pub valid_strategies : List String
valid_strategies =
    "single_frame" ∷ "single_frame_observation_history" ∷ "single_frame_knowledge_graph" ∷ []

abbrev pub max_images : ℕ
max_images = 10000

abbrev pub max_history_entries : ℕ
max_history_entries = 256

abbrev pub max_history_chars : ℕ
max_history_chars = 1000000

-- `low <= x <= high`
abbrev pub within : ℤ → ℤ → ℤ → Bool
within low high x = not (ltb_ℤ x low) && not (ltb_ℤ high x)

abbrev pub two_f : Float
two_f = fin (pos (2 * one_units))

-- `ALLOWED_IMAGE_EXTENSIONS` of web_console/inference_client.py
abbrev pub allowed_image_extensions : List String
allowed_image_extensions = ".jpg" ∷ ".jpeg" ∷ ".png" ∷ ".bmp" ∷ ".webp" ∷ ".tiff" ∷ ".tif" ∷ []

module _ (suffix : String → String) where
  abbrev pub unsupported : String → Bool
  unsupported p = not (contains allowed_image_extensions (suffix p))

  -- `suffix` is `Path(p).suffix.lower()`; `none` means that the definition is valid.
  unfoldable pub validate_definition : ExperimentDefinition → Option Invalid
  validate_definition d =
      if not (contains valid_strategies d.strategy)
      then some unknown_strategy
      else if is_empty d.image_paths
      then some no_images
      else if ltb max_images (length d.image_paths)
      then some too_many_images
      else if any unsupported d.image_paths
      then some unsupported_extension
      else if is_empty d.task_prompt
      then some no_task_prompt
      else if not (within (pos 1) (pos 4096) d.max_generate_length)
      then some bad_generate_length
      else if not (le zero_f d.temperature && le d.temperature two_f)
      then some bad_temperature
      else if not (lt zero_f d.top_p && le d.top_p one_f)
      then some bad_top_p
      else if ltb_ℤ d.top_k (pos 1)
      then some bad_top_k
      else if not (within (pos 0) (pos max_history_entries) d.observation_history_max_entries)
      then some bad_max_entries
      else if not (within (pos 0) (pos max_history_chars) d.observation_history_max_chars)
      then some bad_max_chars
      else none

-- What the inference service answers, and how long it took.
pub record Reply : Type 0 where
  pub success : Bool
  pub text : Text
  pub error : Text
  pub elapsed_ms : Float

abbrev pub get_record : List SourceRecord → ℕ → Option SourceRecord
get_record [] i = none
get_record (r ∷ rs) zero = some r
get_record (r ∷ rs) (suc i) = get_record rs i

abbrev pub record_index : Option SourceRecord → Option ℤ
record_index none = none
record_index (some r) = r.frame_index

abbrev pub record_timestamp : Option SourceRecord → Option ℤ
record_timestamp none = none
record_timestamp (some r) = r.timestamp_ns

module _ (infer : ℕ → String → Text → Reply) (cancelled : ℕ → Bool) (d : ExperimentDefinition) where
  -- The result of frame `i`, from the prompt, the reply and what the strategy adds.
  abbrev pub frame_result : ℕ → String → Text → ℕ → Bool → FrameResult
  frame_result i path prompt entries repetition =
      let reply = infer i path prompt in
      let source = get_record d.source_frame_records i in
      record {
        frame_index = i;
        image_path = path;
        prompt_used = prompt;
        success = reply.success;
        text = reply.text;
        error = reply.error;
        latency_ms = reply.elapsed_ms;
        history_entries_used = entries;
        repetition_flag = repetition;
        source_dataset_id = d.source_dataset_id;
        source_frame_index = record_index source;
        source_timestamp_ns = record_timestamp source;
        graph_updates_accepted = 0;
        graph_updates_rejected = 0;
      }

  unfoldable pub single_loop : Text → ℕ → List String → List FrameResult
  single_loop prompt i [] = []
  single_loop prompt i (path ∷ paths) =
      let rest = single_loop prompt (i + 1) paths in
      if cancelled i then [] else frame_result i path prompt 0 false ∷ rest

  unfoldable pub run_single_frame : List FrameResult
  unfolding single_loop
  run_single_frame =
      single_loop (build_prompt d.task_prompt d.system_instruction [] 0) 0 d.image_paths

  abbrev pub max_entries : ℕ
  max_entries = pos_part d.observation_history_max_entries

  -- The history that goes into the prompt.
  abbrev pub shown : List Text → List Text
  shown history = if ltb 0 max_entries then history else []

  abbrev pub history_prompt : List Text → Text
  history_prompt history =
      build_prompt d.task_prompt d.system_instruction (shown history)
        (pos_part d.observation_history_max_chars)

  -- The history after a reply: only a successful one with a text is kept.
  abbrev pub remember : List Text → Reply → List Text
  remember history reply =
      if reply.success && not (is_empty reply.text)
      then (if ltb 0 max_entries
          then take_last max_entries (history ++ reply.text ∷ [])
          else history ++ reply.text ∷ [])
      else history

  module _ (words : Text → List Text) where
    abbrev pub repetition : List Text → Reply → Bool
    repetition history reply =
        if reply.success && (not (is_empty reply.text) && not (is_empty history))
        then compute_repetition words reply.text history
        else false

    unfoldable pub history_loop : ℕ → List String → List Text → List FrameResult
    history_loop i [] history = []
    history_loop i (path ∷ paths) history =
        let reply = infer i path (history_prompt history) in
        let rest = history_loop (i + 1) paths (remember history reply) in
        if cancelled i
        then []
        else frame_result i path (history_prompt history) (length history)
            (repetition history reply)
          ∷ rest

    unfoldable pub run_observation_history : List FrameResult
    unfolding history_loop
    run_observation_history = history_loop 0 d.image_paths []
