-- ===== src/Tests/Distillation.antt =====
-- A sample of three frames for distillation/validator.py.
use ros2_vlm_demo.Common.{
  Option, ◌-◌, ◌+◌, ◌≡◌, refl, ◌↔◌, true, false, none, some, [], ◌∷◌, codes, eqb, leb, ◌||◌, ◌&&◌,
  if◌then◌else◌, string_dec,
}
use ros2_vlm_demo.Float.{Float, zero_f, half_f, one_f, one_units}
use ros2_vlm_demo.Distillation.Schema.{TemporalTarget, TemporalSample}
use ros2_vlm_demo.Common.Int.{ℤ}
use ros2_vlm_demo.Distillation.Codec.{from_dict, to_dict, loaded}
use ros2_vlm_demo.Distillation.Codec.RoundTrip.{from_dict-to_dict}
use ros2_vlm_demo.Distillation.References.{Classes, references}
use ros2_vlm_demo.Distillation.Validator.{
  validate_has_frames, validate_has_target, validate_required_fields, validate_confidence_range,
  validate_timestamp_ordering, validate_evidence_ordering, validate_evidence_within_sequence,
  validate_no_hallucinated_frame_refs, hallucinated, validate_static_consistency, validators,
  validate_sample, is_accepted,
}
use ros2_vlm_demo.Distillation.Validator.Faithful.{IsAcceptable}
use ros2_vlm_demo.Distillation.Validator.Verdict.{validate_sample_lem}

-- The characters of ASCII.
abbrev pub ascii : Classes
ascii = record {
  is_word = λ x.
      (leb 48 x && leb x 57) || ((leb 65 x && leb x 90) || ((leb 97 x && leb x 122) || eqb x 95));
  is_space = λ x. eqb x 32 || (leb 9 x && leb x 13);
  digit = λ x. if leb 48 x && leb x 57 then some (x - 48) else none;
  is_letter = λ small x. eqb x small || eqb (x + 32) small;
}

abbrev exact : Float → Float
exact t = t

abbrev pub sample : TemporalSample
sample = record {
  sample_id = "door-17";
  schema_version = "temporal_sample_v2";
  frames =
      record { path = "0.jpg"; t_seconds = zero_f }
      ∷ record { path = "1.jpg"; t_seconds = half_f }
      ∷ record { path = "2.jpg"; t_seconds = one_f }
      ∷ [];
  prompt_profile = "temporal_observation_v1";
  target = some record {
    change_detected = true;
    change = "approaching";
    state_start = "far";
    state_end = "near in frame 3";
    evidence_start_s = half_f;
    evidence_end_s = one_f;
    confidence = half_f;
    scene_observation = "a door";
  };
  raw_teacher_response = "Frame 2 shows a door, subframe 9 does not count";
  provenance = record {
    repo_commit = "";
    teacher_model = "";
    teacher_engine_identity = "";
    teacher_prompt_version = "";
    validation_version = "";
    generated_at_utc = "";
    input_representation = "";
    sequence_type = "";
    timestamp_policy = "";
    effective_fps = zero_f;
    rendered_timestamp_control = false;
    runtime_temporal_encoding = "";
  };
  validation_status = "pending";
  rejection_reasons = [];
}

-- Its raw response speaks of a fourth frame.
abbrev invented : TemporalSample
invented = record sample { raw_teacher_response = "In IMAGE  4, the door opens" }

referred :
    references ascii false
      (codes "Frame 2 shows a door, subframe 9 does not, image 12x nor image 12")
    ≡ 2 ∷ 12 ∷ []
unfolding references
referred = refl

accepted_test : is_accepted (validate_sample (validators ascii exact exact) sample) ≡ true
unfolding validate_sample validators string_dec validate_has_frames validate_has_target
    validate_required_fields validate_confidence_range half_f one_units validate_timestamp_ordering
    validate_evidence_ordering validate_evidence_within_sequence validate_no_hallucinated_frame_refs
    hallucinated validate_static_consistency
accepted_test = refl

invented_test : is_accepted (validate_sample (validators ascii exact exact) invented) ≡ false
unfolding validate_sample validators string_dec validate_has_frames validate_has_target
    validate_required_fields validate_confidence_range half_f one_units validate_timestamp_ordering
    validate_evidence_ordering validate_evidence_within_sequence validate_no_hallucinated_frame_refs
    hallucinated validate_static_consistency
invented_test = refl

validate_sample_lem_example :
    (is_accepted (validate_sample (validators ascii exact exact) sample) ≡ true)
    ↔ IsAcceptable ascii exact exact sample
validate_sample_lem_example = validate_sample_lem ascii exact exact sample

abbrev units : ℤ → Option Float
units z = none

abbrev target : TemporalTarget
target = record {
  change_detected = true;
  change = "approaching";
  state_start = "far";
  state_end = "near";
  evidence_start_s = half_f;
  evidence_end_s = one_f;
  confidence = half_f;
  scene_observation = "a door";
}

from_dict-to_dict_example : from_dict units (to_dict target) ≡ loaded target
from_dict-to_dict_example = from_dict-to_dict units target
