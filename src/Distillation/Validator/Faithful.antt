-- ===== src/Distillation/Validator/Faithful.antt =====
-- What each validator of distillation/validator.py passes.
use mathlib.Core.Path.{subst}
use ros2_vlm_demo.Common.{
  ℕ, ◌≤◌, ◌≡◌, refl, sym, ◌↔◌, Bool, true, false, not, ◌&&◌, none, some, Option, List, [], ◌∷◌,
  arith, All, is_empty, filter, ltb, Bool-cases, inl, inr, string_dec, codes, ◌==◌, if◌then◌else◌,
}
use ros2_vlm_demo.Float.{Float, lt, le, zero_f, one_f}
use ros2_vlm_demo.Distillation.Schema.{
  FrameRef, TemporalTarget, TemporalSample, Rejection, frame_count, hallucinated_frame_reference,
  timestamp_not_monotonic, missing_target,
}
use ros2_vlm_demo.Distillation.References.{Classes, references}
use ros2_vlm_demo.Distillation.Validator.{
  Verdict, reject_if, cons_if, goes_back, last_time, ends_text, joined_texts, is_blank,
  blank_fields, hallucinated, check_within, validate_has_frames, validate_has_target,
  validate_required_fields, validate_confidence_range, validate_timestamp_ordering,
  validate_evidence_ordering, validate_evidence_within_sequence,
  validate_no_hallucinated_frame_refs, validate_static_consistency, is_missing,
}

-- No time is followed by an earlier one.
abbrev pub InOrder : List FrameRef → Type 0
InOrder [] = Unit
InOrder (f ∷ []) = Unit
InOrder (f ∷ g ∷ fs) = (lt g.t_seconds f.t_seconds ≡ false) × InOrder (g ∷ fs)

module _ (c : Classes) (minus_tolerance plus_tolerance : Float → Float) where
  -- The evidence lies within the times of the frames, up to the tolerance.
  abbrev pub IsWithin : List FrameRef → TemporalTarget → Type 0
  IsWithin [] t = ⊥
  IsWithin (f ∷ fs) t =
      (lt t.evidence_start_s (minus_tolerance f.t_seconds) ≡ false)
      × (lt (plus_tolerance (last_time f.t_seconds fs)) t.evidence_end_s ≡ false)

  -- What makes a sample with this target acceptable.
  pub record IsFaithful (s : TemporalSample) (t : TemporalTarget) : Type 0 where
    pub change : is_blank c t.change ≡ false
    pub state_start : is_blank c t.state_start ≡ false
    pub state_end : is_blank c t.state_end ≡ false
    pub scene_observation : is_blank c t.scene_observation ≡ false
    pub confidence : (le zero_f t.confidence ≡ true) × (le t.confidence one_f ≡ true)
    pub frames_in_order : InOrder s.frames
    pub evidence_in_order : lt t.evidence_end_s t.evidence_start_s ≡ false
    pub evidence_within : IsWithin s.frames t
    pub no_invented_frame :
        All
          (λ n. n ≤ frame_count s)
          (references c false (joined_texts s.raw_teacher_response (some t)))
    pub static_is_static :
        (ends_text (codes "_static") (codes s.prompt_profile) && t.change_detected) ≡ false

  abbrev pub IsAcceptable : TemporalSample → Type 0
  IsAcceptable s = (t : TemporalTarget) × (s.target ≡ some t) × IsFaithful s t

goes_back_iff : (fs : List FrameRef) → (goes_back fs ≡ false) ↔ InOrder fs
unfolding goes_back
goes_back_iff [] = (λ h. tt, λ h. refl)
goes_back_iff (f ∷ []) = (λ h. tt, λ h. refl)
goes_back_iff (f ∷ g ∷ fs) =
    let (to, from) = goes_back_iff (g ∷ fs) in
    (λ h. (ground arith, to (ground arith)), λ (h, k). rw (h, from k))

no_larger : (n : ℕ) (xs : List ℕ) → (is_empty (filter (ltb n) xs) ≡ true) ↔ All (λ x. x ≤ n) xs
no_larger n [] = (λ h. tt, λ h. refl)
no_larger n (x ∷ xs) =
    let (to, from) = no_larger n xs in
    (
      λ h. elim (Bool-cases (ltb n x)) [
        | inl more ↦ cc (rw more at h)
        | inr fits ↦ (ground arith, to (rw fits at h))
      ],
      λ (h, k). let e : ltb n x ≡ false = ground arith in rw e (from k),
    )

reject_iff : (b : Bool) (r : Rejection) → (reject_if b r ≡ none) ↔ (b ≡ false)
reject_iff b r = ground arith

reject_unless_iff : (b : Bool) (r : Rejection) → (reject_if (not b) r ≡ none) ↔ (b ≡ true)
reject_unless_iff b r = ground arith

passes_cons :
    (v : Verdict) (rs : List Rejection)
    → (is_empty (cons_if v rs) ≡ true) ↔ ((v ≡ none) × (is_empty rs ≡ true))
passes_cons v rs = ground arith

pub and_true : {a b : Bool} → (a && b) ≡ true → (a ≡ true) × (b ≡ true)
and_true h = ground arith

pub empty_if_accepted :
    (b : Bool) → ((if b then "accepted" else "rejected") == "accepted") ≡ true → b ≡ true
unfolding string_dec
empty_if_accepted false h = cc
empty_if_accepted true h = refl

pub accepted_if_empty :
    (b : Bool) → b ≡ true → ((if b then "accepted" else "rejected") == "accepted") ≡ true
unfolding string_dec
accepted_if_empty b h = rw h refl

target_of :
    (o : Option TemporalTarget)
    → reject_if (is_missing o) missing_target ≡ none
    → (t : TemporalTarget) × (o ≡ some t)
target_of none h = ground arith
target_of (some t) h = (t, refl)

module _ (c : Classes) (minus_tolerance plus_tolerance : Float → Float) where
  pub blank_fields_iff :
      (t : TemporalTarget)
      → (is_empty (blank_fields c t) ≡ true) ↔ (
          (is_blank c t.change ≡ false)
          × (is_blank c t.state_start ≡ false)
          × (is_blank c t.state_end ≡ false)
          × (is_blank c t.scene_observation ≡ false))
  blank_fields_iff t = ground arith

  module _ (s : TemporalSample) (t : TemporalTarget) (at : s.target ≡ some t) where
    pub passes_required :
        (validate_required_fields c s ≡ none) ↔ (is_empty (blank_fields c t) ≡ true)
    unfolding validate_required_fields
    passes_required = rw at (reject_unless_iff (is_empty (blank_fields c t)) _)

    pub passes_confidence :
        (validate_confidence_range s ≡ none)
        ↔ ((le zero_f t.confidence && le t.confidence one_f) ≡ true)
    unfolding validate_confidence_range
    passes_confidence =
        rw at (reject_unless_iff (le zero_f t.confidence && le t.confidence one_f) _)

    pub passes_evidence :
        (validate_evidence_ordering s ≡ none) ↔ (lt t.evidence_end_s t.evidence_start_s ≡ false)
    unfolding validate_evidence_ordering
    passes_evidence = rw at (reject_iff (lt t.evidence_end_s t.evidence_start_s) _)

    pub passes_static :
        (validate_static_consistency s ≡ none)
        ↔ ((ends_text (codes "_static") (codes s.prompt_profile) && t.change_detected) ≡ false)
    unfolding validate_static_consistency
    passes_static =
        rw at
          (reject_iff (ends_text (codes "_static") (codes s.prompt_profile) && t.change_detected) _)

    IsWithin-iff :
        (fs : List FrameRef)
        → (is_empty fs ≡ false)
        → (check_within minus_tolerance plus_tolerance fs t ≡ none)
          ↔ IsWithin c minus_tolerance plus_tolerance fs t
    IsWithin-iff [] h = ground arith
    IsWithin-iff (f ∷ fs) h = ground arith

    pub passes-IsWithin :
        (is_empty s.frames ≡ false)
        → (validate_evidence_within_sequence minus_tolerance plus_tolerance s ≡ none)
          ↔ IsWithin c minus_tolerance plus_tolerance s.frames t
    unfolding validate_evidence_within_sequence
    passes-IsWithin h = rw at (IsWithin-iff s.frames h)

    abbrev NoInvented : Option TemporalTarget → Type 0
    NoInvented o =
        All (λ n. n ≤ frame_count s) (references c false (joined_texts s.raw_teacher_response o))

    pub passes_refs :
        (validate_no_hallucinated_frame_refs c s ≡ none)
        ↔ All
            (λ n. n ≤ frame_count s)
            (references c false (joined_texts s.raw_teacher_response (some t)))
    unfolding validate_no_hallucinated_frame_refs hallucinated
    passes_refs =
        let (to, from) =
          no_larger (frame_count s)
            (references c false (joined_texts s.raw_teacher_response s.target)) in
        let (to2, from2) =
          reject_unless_iff (is_empty (hallucinated c s))
            (hallucinated_frame_reference (hallucinated c s) (frame_count s)) in
        (λ h. subst NoInvented at (to (to2 h)), λ h. from2 (from (subst NoInvented (sym at) h)))

  pub within_frames :
      (fs : List FrameRef) (t : TemporalTarget)
      → IsWithin c minus_tolerance plus_tolerance fs t
      → is_empty fs ≡ false
  within_frames [] t h = ground arith
  within_frames (f ∷ fs) t h = refl

  pub passes_with_target :
      (s : TemporalSample) (t : TemporalTarget) → s.target ≡ some t → validate_has_target s ≡ none
  unfolding validate_has_target
  passes_with_target s t at = rw at refl

  pub passes_frames :
      (s : TemporalSample) → (validate_has_frames s ≡ none) ↔ (is_empty s.frames ≡ false)
  unfolding validate_has_frames
  passes_frames s = reject_iff (is_empty s.frames) _

  pub passes_order :
      (s : TemporalSample) → (validate_timestamp_ordering s ≡ none) ↔ InOrder s.frames
  unfolding validate_timestamp_ordering
  passes_order s =
      let (to, from) = goes_back_iff s.frames in
      let (to2, from2) = reject_iff (goes_back s.frames) timestamp_not_monotonic in
      (λ h. to (to2 h), λ h. from2 (from h))

  pub has_target :
      (s : TemporalSample)
      → validate_has_target s ≡ none
      → (t : TemporalTarget) × (s.target ≡ some t)
  unfolding validate_has_target
  has_target s h = target_of s.target h
