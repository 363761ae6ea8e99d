-- ===== src/Distillation/Validator/Verdict.antt =====
-- When `validate_sample` of distillation/validator.py accepts.
use ros2_vlm_demo.Common.{◌≡◌, ◌↔◌, true, none, some, arith, is_empty}
use ros2_vlm_demo.Float.{Float}
use ros2_vlm_demo.Distillation.Schema.{TemporalTarget, TemporalSample}
use ros2_vlm_demo.Distillation.References.{Classes}
use ros2_vlm_demo.Distillation.Validator.{
  run_validators, validators, validate_sample, is_accepted, validate_has_frames,
  validate_has_target, validate_required_fields, validate_confidence_range,
  validate_timestamp_ordering, validate_evidence_ordering, validate_evidence_within_sequence,
  validate_no_hallucinated_frame_refs, validate_static_consistency,
}
use ros2_vlm_demo.Distillation.Validator.Faithful.{
  IsFaithful, IsAcceptable, and_true, empty_if_accepted, accepted_if_empty, blank_fields_iff,
  passes_required, passes_confidence, passes_evidence, passes_static, passes-IsWithin, passes_refs,
  within_frames, passes_with_target, passes_frames, passes_order, has_target,
}

module _ (c : Classes) (minus_tolerance plus_tolerance : Float → Float) where
  -- All nine pass together.
  all_pass_iff :
      (s : TemporalSample)
      → (is_empty (run_validators (validators c minus_tolerance plus_tolerance) s) ≡ true) ↔ (
          (validate_has_frames s ≡ none)
          × (validate_has_target s ≡ none)
          × (validate_required_fields c s ≡ none)
          × (validate_confidence_range s ≡ none)
          × (validate_timestamp_ordering s ≡ none)
          × (validate_evidence_ordering s ≡ none)
          × (validate_evidence_within_sequence minus_tolerance plus_tolerance s ≡ none)
          × (validate_no_hallucinated_frame_refs c s ≡ none)
          × (validate_static_consistency s ≡ none))
  unfolding run_validators validators
  all_pass_iff s = (λ h. ground arith, λ h. ground arith)

  IsFaithful-if_passing :
      (s : TemporalSample) (t : TemporalTarget)
      → s.target ≡ some t
      → is_empty (run_validators (validators c minus_tolerance plus_tolerance) s) ≡ true
      → IsFaithful c minus_tolerance plus_tolerance s t
  IsFaithful-if_passing s t at h =
      let (to, from) = all_pass_iff s in
      let (p1, p2, p3, p4, p5, p6, p7, p8, p9) = to h in
      let (frames_to, frames_from) = passes_frames c minus_tolerance plus_tolerance s in
      let (order_to, order_from) = passes_order c minus_tolerance plus_tolerance s in
      let (required_to, required_from) = passes_required c minus_tolerance plus_tolerance s t at in
      let (blank_to, blank_from) = blank_fields_iff c minus_tolerance plus_tolerance t in
      let (confidence_to, confidence_from) =
        passes_confidence c minus_tolerance plus_tolerance s t at in
      let (evidence_to, evidence_from) = passes_evidence c minus_tolerance plus_tolerance s t at in
      let (within_to, within_from) =
        passes-IsWithin c minus_tolerance plus_tolerance s t at (frames_to p1) in
      let (refs_to, refs_from) = passes_refs c minus_tolerance plus_tolerance s t at in
      let (static_to, static_from) = passes_static c minus_tolerance plus_tolerance s t at in
      let (b1, b2, b3, b4) = blank_to (required_to p3) in
      record {
        change = b1;
        state_start = b2;
        state_end = b3;
        scene_observation = b4;
        confidence = and_true (confidence_to p4);
        frames_in_order = order_to p5;
        evidence_in_order = evidence_to p6;
        evidence_within = within_to p7;
        no_invented_frame = refs_to p8;
        static_is_static = static_to p9;
      }

  passing_if-IsFaithful :
      (s : TemporalSample) (t : TemporalTarget)
      → s.target ≡ some t
      → IsFaithful c minus_tolerance plus_tolerance s t
      → is_empty (run_validators (validators c minus_tolerance plus_tolerance) s) ≡ true
  passing_if-IsFaithful s t at w =
      let (to, from) = all_pass_iff s in
      let (frames_to, frames_from) = passes_frames c minus_tolerance plus_tolerance s in
      let (order_to, order_from) = passes_order c minus_tolerance plus_tolerance s in
      let (required_to, required_from) = passes_required c minus_tolerance plus_tolerance s t at in
      let (blank_to, blank_from) = blank_fields_iff c minus_tolerance plus_tolerance t in
      let (confidence_to, confidence_from) =
        passes_confidence c minus_tolerance plus_tolerance s t at in
      let (evidence_to, evidence_from) = passes_evidence c minus_tolerance plus_tolerance s t at in
      let here = within_frames c minus_tolerance plus_tolerance s.frames t w.evidence_within in
      let (within_to, within_from) = passes-IsWithin c minus_tolerance plus_tolerance s t at here in
      let (refs_to, refs_from) = passes_refs c minus_tolerance plus_tolerance s t at in
      let (static_to, static_from) = passes_static c minus_tolerance plus_tolerance s t at in
      let (low, high) = w.confidence in
      from (
        frames_from here,
        passes_with_target c minus_tolerance plus_tolerance s t at,
        required_from (blank_from (w.change, w.state_start, w.state_end, w.scene_observation)),
        confidence_from (rw low high),
        order_from w.frames_in_order,
        evidence_from w.evidence_in_order,
        within_from w.evidence_within,
        refs_from w.no_invented_frame,
        static_from w.static_is_static,
      )

-- A sample is accepted exactly when it has frames whose times never go back and a target whose four
-- texts are not blank, whose confidence is in [0, 1], whose evidence is not inverted and lies within
-- the times of the frames up to the tolerance, whose texts and raw response refer to no frame beyond
-- the last, and that shows no change if the prompt profile is a static one.
pub validate_sample_lem :
    (c : Classes) (minus_tolerance plus_tolerance : Float → Float) (s : TemporalSample)
    → (is_accepted (validate_sample (validators c minus_tolerance plus_tolerance) s) ≡ true)
      ↔ IsAcceptable c minus_tolerance plus_tolerance s
unfolding validate_sample
validate_sample_lem c m p s = (
  λ h.
      let e = empty_if_accepted _ h in
      let (to, from) = all_pass_iff c m p s in
      let (p1, p2, p3, p4, p5, p6, p7, p8, p9) = to e in
      let (t, at) = has_target c m p s p2 in (t, at, IsFaithful-if_passing c m p s t at e),
  λ (t, at, w). accepted_if_empty _ (passing_if-IsFaithful c m p s t at w),
)
