-- ===== src/Distillation/Evaluation.antt =====
-- distillation/evaluation.py: the comparison of a prediction with its ground truth and the report of a
-- batch. A rate is the pair of its two counts; rounding arithmetic is an argument.
pub mod Own
pub mod Perfect
use ros2_vlm_demo.Common.{
  ℕ, zero, suc, ◌+◌, String, ◌==◌, codes, Bool, true, false, not, Option, none, some, List, [], ◌∷◌,
  ◌++◌, map, ltb, is_empty, length, if◌then◌else◌, any,
}
use ros2_vlm_demo.Common.Dict
use ros2_vlm_demo.Common.Dict.{Dict}
use ros2_vlm_demo.Float.{Float, lt, le, zero_f, one_f}
use ros2_vlm_demo.Distillation.Schema.{FrameRef, TemporalTarget, TemporalSample, frame_count}
use ros2_vlm_demo.Distillation.References.{Classes, references}
use ros2_vlm_demo.Distillation.Validator.{last_time}

-- `a - b`, `a / b`, `1 / 3`, `2 / 3` and `statistics.mean`.
pub record Arithmetic : Type 0 where
  pub sub : Float → Float → Float
  pub div : Float → Float → Float
  pub third : Float
  pub two_thirds : Float
  pub mean : List Float → Float

pub data Bucket : Type 0 where
  early mid late : Bucket

abbrev pub same_bucket : Bucket → Bucket → Bool
same_bucket early early = true
same_bucket mid mid = true
same_bucket late late = true
same_bucket _ _ = false

abbrev pub same_flag : Bool → Bool → Bool
same_flag true b = b
same_flag false b = not b

pub record SampleMetrics : Type 0 where
  pub sample_id : String
  pub change_detected_correct : Option Bool
  pub direction_correct : Option Bool
  pub event_bucket_correct : Option Bool
  pub is_false_positive : Option Bool
  pub schema_valid : Bool
  pub hallucinated_ref : Bool
  pub confidence : Option Float
  pub gt_change_detected : Option Bool

-- A rate: the sum and the number of the values.
abbrev pub Rate : Type 0
Rate = Option (ℕ × ℕ)

pub record EvaluationReport : Type 0 where
  pub n_samples : ℕ
  pub change_detection_accuracy : Rate
  pub direction_accuracy : Rate
  pub event_time_bucket_accuracy : Rate
  pub static_false_positive_rate : Rate
  pub schema_adherence : Rate
  pub hallucinated_frame_reference_rate : Rate
  pub mean_confidence : Option Float
  pub per_sample : List SampleMetrics

abbrev pub first_time : Float → List FrameRef → Float
first_time t [] = t
first_time t (f ∷ fs) = f.t_seconds

abbrev pub new_metrics : String → SampleMetrics
new_metrics sample_id = record {
  sample_id = sample_id;
  change_detected_correct = none;
  direction_correct = none;
  event_bucket_correct = none;
  is_false_positive = none;
  schema_valid = true;
  hallucinated_ref = false;
  confidence = none;
  gt_change_detected = none;
}

-- `{s.sample_id: s for s in ground_truths}`, from a dict on.
unfoldable pub truth_map : Dict TemporalSample → List TemporalSample → Dict TemporalSample
truth_map d [] = d
truth_map d (s ∷ ss) = truth_map (Dict.insert s.sample_id s d) ss

-- `[m.f for m in per_sample if m.f is not None]`
abbrev pub known : {A : Type 0} → (SampleMetrics → Option A) → List SampleMetrics → List A
known f [] = []
known f (m ∷ ms) = elim (f m) [ none ↦ known f ms | some x ↦ x ∷ known f ms ]

abbrev pub count_true : List Bool → ℕ
count_true [] = 0
count_true (b ∷ bs) = let rest = count_true bs in if b then rest + 1 else rest

-- `_rate`
abbrev pub rate : List Bool → Rate
rate bs = if is_empty bs then none else some (count_true bs, length bs)

module _ (a : Arithmetic) (c : Classes) where
  unfoldable pub evidence_bucket : Float → Float → Float → Bucket
  evidence_bucket start t_min t_max =
      let duration = a.sub t_max t_min in
      let frac = a.div (a.sub start t_min) duration in
      if le duration zero_f
      then early
      else if lt frac a.third
      then early
      else if lt frac a.two_thirds
      then mid
      else late

  unfoldable pub has_hallucinated_frame_ref : TemporalSample → TemporalTarget → Bool
  has_hallucinated_frame_ref s t =
      any (λ n. ltb (frame_count s) n)
        (references c false (
          codes t.scene_observation
          ++ (codes " " ++ (codes t.state_start ++ (codes " " ++ codes t.state_end)))))

  -- The bucket of a ground truth: without frames the sequence is from 0.0 to 1.0.
  unfoldable pub true_bucket : Float → TemporalSample → Bucket
  unfolding evidence_bucket
  true_bucket start truth =
      evidence_bucket start (first_time zero_f truth.frames) (last_time one_f truth.frames)

  -- The bucket of a prediction: without frames those of the ground truth are taken.
  unfoldable pub predicted_bucket : Float → TemporalSample → TemporalSample → Bucket
  unfolding true_bucket
  predicted_bucket start predicted truth =
      if is_empty predicted.frames then true_bucket start truth else true_bucket start predicted

  -- The fields that need no ground truth.
  unfoldable pub own_metrics : TemporalSample → TemporalTarget → SampleMetrics
  own_metrics predicted t = record (new_metrics predicted.sample_id) {
    hallucinated_ref = has_hallucinated_frame_ref predicted t;
    confidence = some t.confidence;
  }

  unfoldable pub compare_targets :
      TemporalSample → TemporalTarget → TemporalSample → TemporalTarget → SampleMetrics
  unfolding own_metrics
  compare_targets predicted t truth g = record (own_metrics predicted t) {
    gt_change_detected = some g.change_detected;
    change_detected_correct = some (same_flag t.change_detected g.change_detected);
    direction_correct = if g.change_detected then some (t.change == g.change) else none;
    event_bucket_correct =
        if g.change_detected
        then some (
            same_bucket (predicted_bucket t.evidence_start_s predicted truth)
              (true_bucket g.evidence_start_s truth))
        else none;
    is_false_positive = if g.change_detected then none else some t.change_detected;
  }

  -- `compare_sample`, on the two targets; without a ground truth as `evaluate_batch` does.
  unfoldable pub compare_with :
      TemporalSample
      → Option TemporalTarget
      → TemporalSample
      → Option TemporalTarget
      → SampleMetrics
  unfolding compare_targets
  compare_with predicted none truth g = record (new_metrics predicted.sample_id) {
    schema_valid = false;
  }
  compare_with predicted (some t) truth none = own_metrics predicted t
  compare_with predicted (some t) truth (some g) = compare_targets predicted t truth g

  unfoldable pub compare_sample : TemporalSample → TemporalSample → SampleMetrics
  unfolding compare_with
  compare_sample predicted truth = compare_with predicted predicted.target truth truth.target

  unfoldable pub metric_of : Option TemporalSample → TemporalSample → SampleMetrics
  unfolding compare_sample
  metric_of (some truth) predicted = compare_sample predicted truth
  metric_of none predicted = compare_with predicted predicted.target predicted none

  unfoldable pub metrics_of : Dict TemporalSample → List TemporalSample → List SampleMetrics
  unfolding metric_of
  metrics_of d [] = []
  metrics_of d (s ∷ ss) = metric_of (Dict.lookup s.sample_id d) s ∷ metrics_of d ss

  unfoldable pub report_of : ℕ → List SampleMetrics → EvaluationReport
  report_of n ms = record {
    n_samples = n;
    change_detection_accuracy = rate (known (λ m. m.change_detected_correct) ms);
    direction_accuracy = rate (known (λ m. m.direction_correct) ms);
    event_time_bucket_accuracy = rate (known (λ m. m.event_bucket_correct) ms);
    static_false_positive_rate = rate (known (λ m. m.is_false_positive) ms);
    schema_adherence = rate (map (λ m. m.schema_valid) ms);
    hallucinated_frame_reference_rate = rate (map (λ m. m.hallucinated_ref) ms);
    mean_confidence =
        if is_empty (known (λ m. m.confidence) ms)
        then none
        else some (a.mean (known (λ m. m.confidence) ms));
    per_sample = ms;
  }

  unfoldable pub evaluate_batch : List TemporalSample → List TemporalSample → EvaluationReport
  unfolding report_of truth_map metrics_of
  evaluate_batch predictions truths =
      report_of (length predictions) (metrics_of (truth_map [] truths) predictions)
