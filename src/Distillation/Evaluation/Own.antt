-- ===== src/Distillation/Evaluation/Own.antt =====
-- The comparison of a labelled sample with itself.
use ros2_vlm_demo.Common.{
  ℕ, zero, suc, ◌≡◌, refl, ap, ◌∙◌, String, ◌==◌, Bool, true, false, Option, none, some, List, [],
  ◌∷◌, if◌then◌else◌, arith, All,
}
use ros2_vlm_demo.Common.Dict
use ros2_vlm_demo.Common.Dict.{Dict, lookup-insert}
use ros2_vlm_demo.Distillation.Schema.{TemporalTarget, TemporalSample}
use ros2_vlm_demo.Distillation.References.{Classes}
use ros2_vlm_demo.Distillation.Evaluation.{
  Arithmetic, Bucket, early, mid, late, same_bucket, same_flag, SampleMetrics, Rate,
  predicted_bucket, true_bucket, own_metrics, compare_targets, compare_with, truth_map,
}

-- `n` of `n`; no rate of nothing.
abbrev pub all_of : ℕ → Rate
all_of zero = none
all_of (suc n) = some (suc n, suc n)

-- None of `n`.
abbrev pub none_of : ℕ → Rate
none_of zero = none
none_of (suc n) = some (0, suc n)

-- A sample has a target.
abbrev pub IsLabelled : TemporalSample → Type 0
IsLabelled s = (t : TemporalTarget) × (s.target ≡ some t)

abbrev pub shows_change : Option TemporalTarget → Bool
shows_change none = false
shows_change (some t) = t.change_detected

abbrev pub changed : List TemporalSample → ℕ
changed [] = 0
changed (s ∷ ss) = let rest = changed ss in if shows_change s.target then suc rest else rest

abbrev pub static : List TemporalSample → ℕ
static [] = 0
static (s ∷ ss) = let rest = static ss in if shows_change s.target then rest else suc rest

-- No two samples have one identifier.
abbrev pub HasOwnIds : List TemporalSample → Type 0
HasOwnIds [] = Unit
HasOwnIds (s ∷ ss) = All (λ r. (s.sample_id == r.sample_id) ≡ false) ss × HasOwnIds ss

text_self : (t : String) → (t == t) ≡ true
text_self t = ground arith

bucket_self : (b : Bucket) → same_bucket b b ≡ true
bucket_self early = refl
bucket_self mid = refl
bucket_self late = refl

flag_self : (b : Bool) → same_flag b b ≡ true
flag_self true = refl
flag_self false = refl

module _ (a : Arithmetic) (c : Classes) where
  -- What the rates read of a comparison.
  pub record IsPerfect (change : Bool) (m : SampleMetrics) : Type 0 where
    pub detected : m.change_detected_correct ≡ some true
    pub direction : m.direction_correct ≡ (if change then some true else none)
    pub bucket : m.event_bucket_correct ≡ (if change then some true else none)
    pub static_flag : m.is_false_positive ≡ (if change then none else some false)
    pub valid : m.schema_valid ≡ true

  same_if_changed :
      (b d : Bool)
      → d ≡ true
      → Path (Option Bool) (if b then some d else none) (if b then some true else none)
  same_if_changed b d e = rw e refl

  bucket_lem :
      (s : TemporalSample) (t : TemporalTarget)
      → predicted_bucket a c t.evidence_start_s s s ≡ true_bucket a c t.evidence_start_s s
  unfolding predicted_bucket
  bucket_lem s t = ground arith

  pub own-IsPerfect :
      (s : TemporalSample) (t : TemporalTarget)
      → IsPerfect t.change_detected (compare_targets a c s t s t)
  unfolding compare_targets own_metrics
  own-IsPerfect s t = record {
    detected = ap some (flag_self t.change_detected);
    direction = same_if_changed t.change_detected (t.change == t.change) (text_self t.change);
    bucket = same_if_changed t.change_detected _ (
        ap (λ b. same_bucket b (true_bucket a c t.evidence_start_s s)) (bucket_lem s t)
        ∙ bucket_self (true_bucket a c t.evidence_start_s s));
    static_flag = ground arith;
    valid = refl;
  }

  pub labelled_lem :
      (s : TemporalSample) (o : Option TemporalTarget)
      → ((t : TemporalTarget) × (o ≡ some t))
      → IsPerfect (shows_change o) (compare_with a c s o s o)
  unfolding compare_with
  labelled_lem s none (t, e) = absurd (ground arith)
  labelled_lem s (some t) h = own-IsPerfect s t

  -- A sample that comes later does not hide one with another identifier.
  lookup_later :
      (k : String) (d : Dict TemporalSample) (ss : List TemporalSample)
      → All (λ r. (k == r.sample_id) ≡ false) ss
      → Dict.lookup k (truth_map d ss) ≡ Dict.lookup k d
  unfolding truth_map
  lookup_later k d [] h = refl
  lookup_later k d (s ∷ ss) (h, hs) =
      lookup_later k (Dict.insert s.sample_id s d) ss hs
      ∙ ground (arith, lookup-insert k s.sample_id s d)

  -- Every sample is found under its identifier.
  pub found :
      (d : Dict TemporalSample) (ss : List TemporalSample)
      → HasOwnIds ss
      → All (λ s. Dict.lookup s.sample_id (truth_map d ss) ≡ some s) ss
  unfolding truth_map
  found d [] h = tt
  found d (s ∷ ss) (h, hs) =
      let d' = Dict.insert s.sample_id s d in
      (
        lookup_later s.sample_id d' ss h
            ∙ ground (arith, lookup-insert s.sample_id s.sample_id s d),
        found d' ss hs,
      )
