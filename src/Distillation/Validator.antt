-- ===== src/Distillation/Validator.antt =====
-- distillation/validator.py: the validators of `VALIDATORS` in their order, `validate_sample` and
-- `validate_batch`. `minus_tolerance` and `plus_tolerance` are the rounded `t - 1e-6` and `t + 1e-6`.
pub mod Faithful
pub mod Verdict
pub mod Batch
use mathlib.Core.List.{reverse}
use ros2_vlm_demo.Common.{
  ℕ, String, Bool, true, false, not, ◌&&◌, ◌||◌, Option, none, some, List, [], ◌∷◌, ◌++◌, codes,
  any, filter, is_empty, length, ltb, eqb, if◌then◌else◌, ◌==◌,
}
use ros2_vlm_demo.Float.{Float, lt, le, zero_f, one_f}
use ros2_vlm_demo.Distillation.Schema.{
  Text, FrameRef, TemporalTarget, TemporalSample, Rejection, missing_target, no_frames,
  timestamp_not_monotonic, evidence_time_inverted, evidence_start_before_sequence,
  evidence_end_after_sequence, static_false_positive, missing_fields, confidence_out_of_range,
  hallucinated_frame_reference, frame_count,
}
use ros2_vlm_demo.Distillation.References.{Classes, references}

abbrev pub validation_version : String
validation_version = "validator_v2"

-- What a validator finds wrong.
abbrev pub Verdict : Type 0
Verdict = Option Rejection

abbrev pub reject_if : Bool → Rejection → Verdict
reject_if b r = if b then some r else none

unfoldable pub validate_has_frames : TemporalSample → Verdict
validate_has_frames s = reject_if (is_empty s.frames) no_frames

abbrev pub is_missing : Option TemporalTarget → Bool
is_missing none = true
is_missing (some t) = false

unfoldable pub validate_has_target : TemporalSample → Verdict
validate_has_target s = reject_if (is_missing s.target) missing_target

-- A later frame has an earlier time.
unfoldable pub goes_back : List FrameRef → Bool
goes_back [] = false
goes_back (f ∷ []) = false
goes_back (f ∷ g ∷ fs) =
    let rest = goes_back (g ∷ fs) in if lt g.t_seconds f.t_seconds then true else rest

unfoldable pub validate_timestamp_ordering : TemporalSample → Verdict
unfolding goes_back
validate_timestamp_ordering s = reject_if (goes_back s.frames) timestamp_not_monotonic

-- Validators of the target pass a sample that has none.
abbrev pub with_target : Option TemporalTarget → (TemporalTarget → Verdict) → Verdict
with_target none check = none
with_target (some t) check = check t

unfoldable pub validate_confidence_range : TemporalSample → Verdict
validate_confidence_range s = with_target s.target λ t.
    reject_if (not (le zero_f t.confidence && le t.confidence one_f))
      (confidence_out_of_range t.confidence)

unfoldable pub validate_evidence_ordering : TemporalSample → Verdict
validate_evidence_ordering s =
    with_target s.target
      λ t. reject_if (lt t.evidence_end_s t.evidence_start_s) evidence_time_inverted

abbrev pub last_time : Float → List FrameRef → Float
last_time t [] = t
last_time t (f ∷ fs) = last_time f.t_seconds fs

-- `str.endswith`
abbrev pub starts_text : Text → Text → Bool
starts_text [] t = true
starts_text (a ∷ s) [] = false
starts_text (a ∷ s) (b ∷ t) = let rest = starts_text s t in if eqb a b then rest else false

abbrev pub ends_text : Text → Text → Bool
ends_text suffix t = starts_text (reverse suffix) (reverse t)

unfoldable pub validate_static_consistency : TemporalSample → Verdict
validate_static_consistency s = with_target s.target λ t.
    reject_if (ends_text (codes "_static") (codes s.prompt_profile) && t.change_detected)
      static_false_positive

abbrev pub joined_texts : String → Option TemporalTarget → Text
joined_texts raw none = codes raw
joined_texts raw (some t) =
    codes raw
    ++ (codes " "
        ++ codes t.scene_observation
        ++ (codes " "
            ++ codes t.state_start
            ++ (codes " " ++ codes t.state_end ++ (codes " " ++ codes t.change))))

module _ (c : Classes) where
  -- `not val.strip()`
  abbrev pub is_blank : String → Bool
  is_blank t = not (any (λ x. not (c.is_space x)) (codes t))

  abbrev pub name_if_blank : String → String → List String
  name_if_blank name t = if is_blank t then name ∷ [] else []

  -- Of the eight attributes the four texts can be missing; the numbers and the flag are never None.
  abbrev pub blank_fields : TemporalTarget → List String
  blank_fields t =
      name_if_blank "change" t.change
      ++ (name_if_blank "state_start" t.state_start
          ++ (name_if_blank "state_end" t.state_end
              ++ name_if_blank "scene_observation" t.scene_observation))

  unfoldable pub validate_required_fields : TemporalSample → Verdict
  validate_required_fields s =
      with_target s.target
        λ t. reject_if (not (is_empty (blank_fields t))) (missing_fields (blank_fields t))

  -- The references to frames beyond the sequence. `int` refuses a number of more than 4300 digits with
  -- ValueError, by Python's default limit: a text with such a number is outside the model.
  unfoldable pub hallucinated : TemporalSample → List ℕ
  unfolding references frame_count
  hallucinated s =
      filter (ltb (frame_count s))
        (references c false (joined_texts s.raw_teacher_response s.target))

  unfoldable pub validate_no_hallucinated_frame_refs : TemporalSample → Verdict
  validate_no_hallucinated_frame_refs s =
      reject_if (not (is_empty (hallucinated s)))
        (hallucinated_frame_reference (hallucinated s) (frame_count s))

module _ (minus_tolerance plus_tolerance : Float → Float) where
  abbrev pub check_within : List FrameRef → TemporalTarget → Verdict
  check_within [] t = none
  check_within (f ∷ fs) t =
      if lt t.evidence_start_s (minus_tolerance f.t_seconds)
      then some evidence_start_before_sequence
      else reject_if (lt (plus_tolerance (last_time f.t_seconds fs)) t.evidence_end_s)
          evidence_end_after_sequence

  unfoldable pub validate_evidence_within_sequence : TemporalSample → Verdict
  validate_evidence_within_sequence s = with_target s.target (check_within s.frames)

abbrev pub cons_if : Verdict → List Rejection → List Rejection
cons_if none rs = rs
cons_if (some r) rs = r ∷ rs

-- `for fn in validators: passed, reason = fn(sample); if not passed: reasons.append(reason)`
unfoldable pub run_validators : List (TemporalSample → Verdict) → TemporalSample → List Rejection
run_validators [] s = []
run_validators (v ∷ vs) s = cons_if (v s) (run_validators vs s)

abbrev pub is_accepted : TemporalSample → Bool
is_accepted s = s.validation_status == "accepted"

module _ (c : Classes) (minus_tolerance plus_tolerance : Float → Float) where
  unfoldable pub validators : List (TemporalSample → Verdict)
  validators =
      validate_has_frames
      ∷ validate_has_target
      ∷ validate_required_fields c
      ∷ validate_confidence_range
      ∷ validate_timestamp_ordering
      ∷ validate_evidence_ordering
      ∷ validate_evidence_within_sequence minus_tolerance plus_tolerance
      ∷ validate_no_hallucinated_frame_refs c
      ∷ validate_static_consistency
      ∷ []

module _ (vs : List (TemporalSample → Verdict)) where
  unfoldable pub validate_sample : TemporalSample → TemporalSample
  unfolding run_validators
  validate_sample s =
      let reasons = run_validators vs s in
      record s {
        provenance = record s.provenance { validation_version = validation_version };
        validation_status = if is_empty reasons then "accepted" else "rejected";
        rejection_reasons = reasons;
      }

  unfoldable pub validate_loop :
      List TemporalSample
      → List TemporalSample
      → List TemporalSample
      → List TemporalSample × List TemporalSample
  validate_loop [] accepted rejected = (accepted, rejected)
  validate_loop (s ∷ ss) accepted rejected =
      let result = validate_sample s in
      validate_loop ss (if is_accepted result then accepted ++ result ∷ [] else accepted)
        (if is_accepted result then rejected else rejected ++ result ∷ [])

  unfoldable pub validate_batch : List TemporalSample → List TemporalSample × List TemporalSample
  unfolding validate_loop
  validate_batch samples = validate_loop samples [] []
