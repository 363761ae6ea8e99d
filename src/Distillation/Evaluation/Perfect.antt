-- ===== src/Distillation/Evaluation/Perfect.antt =====
-- The evaluation of labelled samples against themselves.
use mathlib.Core.Path.{subst}
use ros2_vlm_demo.Common.{
  ℕ, zero, suc, ◌≡◌, refl, sym, ap, ◌∙◌, Bool, true, false, Option, none, some, List, [], ◌∷◌, map,
  length, if◌then◌else◌, arith, All,
}
use ros2_vlm_demo.Common.Dict
use ros2_vlm_demo.Common.Dict.{Dict, lookup-insert}
use ros2_vlm_demo.Distillation.Schema.{TemporalSample}
use ros2_vlm_demo.Distillation.References.{Classes}
use ros2_vlm_demo.Distillation.Evaluation.{
  Arithmetic, SampleMetrics, EvaluationReport, compare_sample, metric_of, truth_map, metrics_of,
  known, count_true, rate, report_of, evaluate_batch,
}
use ros2_vlm_demo.Distillation.Evaluation.Own.{
  all_of, none_of, IsLabelled, shows_change, changed, static, HasOwnIds, IsPerfect, labelled_lem,
  found,
}

module _ (a : Arithmetic) (c : Classes) where
  -- Each sample is compared with itself.
  abbrev own : List TemporalSample → List SampleMetrics
  own ss = map (λ s. compare_sample a c s s) ss

  metrics_lem :
      (d : Dict TemporalSample) (ss : List TemporalSample)
      → All (λ s. Dict.lookup s.sample_id d ≡ some s) ss
      → metrics_of a c d ss ≡ own ss
  unfolding metrics_of metric_of
  metrics_lem d [] h = refl
  metrics_lem d (s ∷ ss) (h, hs) =
      rw h (ap (λ ms. compare_sample a c s s ∷ ms) (metrics_lem d ss hs))

  own_lem :
      (ss : List TemporalSample)
      → All IsLabelled ss
      → All (λ s. IsPerfect a c (shows_change s.target) (compare_sample a c s s)) ss
  unfolding compare_sample
  own_lem [] h = tt
  own_lem (s ∷ ss) (h, hs) = (labelled_lem a c s s.target h, own_lem ss hs)

  abbrev PerfectAll : List TemporalSample → Type 0
  PerfectAll ss = All (λ s. IsPerfect a c (shows_change s.target) (compare_sample a c s s)) ss

  abbrev repeated : Bool → ℕ → List Bool
  repeated b zero = []
  repeated b (suc n) = b ∷ repeated b n

  detected_lem :
      (ss : List TemporalSample)
      → PerfectAll ss
      → known (λ m. m.change_detected_correct) (own ss) ≡ repeated true (length ss)
  detected_lem [] h = refl
  detected_lem (s ∷ ss) (h, hs) = rw h.detected (ap (λ bs. true ∷ bs) (detected_lem ss hs))

  if_changed :
      (b : Bool) (o : Option Bool) (rest : List Bool) (n : ℕ)
      → o ≡ (if b then some true else none)
      → rest ≡ repeated true n
      → elim o [ none ↦ rest | some x ↦ x ∷ rest ] ≡ repeated true (if b then suc n else n)
  if_changed true o rest n h k = rw h (ap (λ bs. true ∷ bs) k)
  if_changed false o rest n h k = rw h k

  if_static :
      (b : Bool) (o : Option Bool) (rest : List Bool) (n : ℕ)
      → o ≡ (if b then none else some false)
      → rest ≡ repeated false n
      → elim o [ none ↦ rest | some x ↦ x ∷ rest ] ≡ repeated false (if b then n else suc n)
  if_static true o rest n h k = rw h k
  if_static false o rest n h k = rw h (ap (λ bs. false ∷ bs) k)

  direction_lem :
      (ss : List TemporalSample)
      → PerfectAll ss
      → known (λ m. m.direction_correct) (own ss) ≡ repeated true (changed ss)
  direction_lem [] h = refl
  direction_lem (s ∷ ss) (h, hs) =
      if_changed (shows_change s.target) (compare_sample a c s s).direction_correct _ (changed ss)
        h.direction (direction_lem ss hs)

  bucket_rate_lem :
      (ss : List TemporalSample)
      → PerfectAll ss
      → known (λ m. m.event_bucket_correct) (own ss) ≡ repeated true (changed ss)
  bucket_rate_lem [] h = refl
  bucket_rate_lem (s ∷ ss) (h, hs) =
      if_changed (shows_change s.target) (compare_sample a c s s).event_bucket_correct _
        (changed ss) h.bucket (bucket_rate_lem ss hs)

  static_lem :
      (ss : List TemporalSample)
      → PerfectAll ss
      → known (λ m. m.is_false_positive) (own ss) ≡ repeated false (static ss)
  static_lem [] h = refl
  static_lem (s ∷ ss) (h, hs) =
      if_static (shows_change s.target) (compare_sample a c s s).is_false_positive _ (static ss)
        h.static_flag (static_lem ss hs)

  schema_lem :
      (ss : List TemporalSample)
      → PerfectAll ss
      → map (λ (m : SampleMetrics). m.schema_valid) (own ss) ≡ repeated true (length ss)
  schema_lem [] h = refl
  schema_lem (s ∷ ss) (h, hs) = rw h.valid (ap (λ bs. true ∷ bs) (schema_lem ss hs))

  length-repeated : (b : Bool) (n : ℕ) → length (repeated b n) ≡ n
  length-repeated b zero = refl
  length-repeated b (suc n) = ap suc (length-repeated b n)

  count_true-repeated : (b : Bool) (n : ℕ) → count_true (repeated b n) ≡ (if b then n else 0)
  count_true-repeated b zero = ground arith
  count_true-repeated true (suc n) = omega (arith, count_true-repeated true n)
  count_true-repeated false (suc n) = count_true-repeated false n

  rate-repeated-true : (n : ℕ) → rate (repeated true n) ≡ all_of n
  rate-repeated-true zero = refl
  rate-repeated-true (suc n) =
      ap (λ (k : ℕ × ℕ). some k)
        (λ i. (count_true-repeated true (suc n) i, length-repeated true (suc n) i))

  rate-repeated-false : (n : ℕ) → rate (repeated false n) ≡ none_of n
  rate-repeated-false zero = refl
  rate-repeated-false (suc n) =
      ap (λ (k : ℕ × ℕ). some k)
        (λ i. (count_true-repeated false (suc n) i, length-repeated false (suc n) i))

  -- The report of an evaluation without a mistake.
  pub record IsFaultless (ss : List TemporalSample) (r : EvaluationReport) : Type 0 where
    pub samples : r.n_samples ≡ length ss
    pub change_detection : r.change_detection_accuracy ≡ all_of (length ss)
    pub direction : r.direction_accuracy ≡ all_of (changed ss)
    pub event_time : r.event_time_bucket_accuracy ≡ all_of (changed ss)
    pub false_positives : r.static_false_positive_rate ≡ none_of (static ss)
    pub schema : r.schema_adherence ≡ all_of (length ss)

  report_lem :
      (ss : List TemporalSample)
      → PerfectAll ss
      → IsFaultless ss (report_of a c (length ss) (own ss))
  unfolding report_of
  report_lem ss h = record {
    samples = refl;
    change_detection = ap rate (detected_lem ss h) ∙ rate-repeated-true (length ss);
    direction = ap rate (direction_lem ss h) ∙ rate-repeated-true (changed ss);
    event_time = ap rate (bucket_rate_lem ss h) ∙ rate-repeated-true (changed ss);
    false_positives = ap rate (static_lem ss h) ∙ rate-repeated-false (static ss);
    schema = ap rate (schema_lem ss h) ∙ rate-repeated-true (length ss);
  }

  -- Labelled samples with identifiers of their own, evaluated against themselves, are without a mistake, whatever the rounding: every sample is counted with its change detected, every change with its direction and its bucket right, every static sample as no false positive, and every target as valid.
  pub evaluate_batch_lem :
      (ss : List TemporalSample)
      → All IsLabelled ss
      → HasOwnIds ss
      → IsFaultless ss (evaluate_batch a c ss ss)
  unfolding evaluate_batch
  evaluate_batch_lem ss labelled own_ids =
      subst (λ ms. IsFaultless ss (report_of a c (length ss) ms))
        (sym (metrics_lem (truth_map [] ss) ss (found a c [] ss own_ids)))
        (report_lem ss (own_lem ss labelled))
