-- ===== src/Distillation/Schema.antt =====
-- distillation/schema.py: the temporal samples. A text that the pipeline looks into is the list of
-- its code points.
use ros2_vlm_demo.Common.{ℕ, String, Bool, Option, List, length}
use ros2_vlm_demo.Float.{Float}

abbrev pub Text : Type 0
Text = List ℕ

pub record FrameRef : Type 0 where
  pub path : String
  pub t_seconds : Float

pub record TemporalTarget : Type 0 where
  pub change_detected : Bool
  pub change : String
  pub state_start : String
  pub state_end : String
  pub evidence_start_s : Float
  pub evidence_end_s : Float
  pub confidence : Float
  pub scene_observation : String

pub record Provenance : Type 0 where
  pub repo_commit : String
  pub teacher_model : String
  pub teacher_engine_identity : String
  pub teacher_prompt_version : String
  pub validation_version : String
  pub generated_at_utc : String
  pub input_representation : String
  pub sequence_type : String
  pub timestamp_policy : String
  pub effective_fps : Float
  pub rendered_timestamp_control : Bool
  pub runtime_temporal_encoding : String

-- The reasons that distillation/validator.py gives.
pub data Rejection : Type 0 where
  missing_target no_frames timestamp_not_monotonic evidence_time_inverted : Rejection
  evidence_start_before_sequence evidence_end_after_sequence static_false_positive : Rejection
  missing_fields : List String → Rejection
  confidence_out_of_range : Float → Rejection
  hallucinated_frame_reference : List ℕ → ℕ → Rejection

pub record TemporalSample : Type 0 where
  pub sample_id : String
  pub schema_version : String
  pub frames : List FrameRef
  pub prompt_profile : String
  pub target : Option TemporalTarget
  pub raw_teacher_response : String
  pub provenance : Provenance
  pub validation_status : String
  pub rejection_reasons : List Rejection

unfoldable pub frame_count : TemporalSample → ℕ
frame_count sample = length sample.frames
