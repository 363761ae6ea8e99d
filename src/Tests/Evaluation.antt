-- ===== src/Tests/Evaluation.antt =====
-- The sample of the door for distillation/evaluation.py.
use ros2_vlm_demo.Common.{refl, false, some, List, [], ◌∷◌, string_dec}
use ros2_vlm_demo.Float.{Float, zero_f, half_f, one_f}
use ros2_vlm_demo.Distillation.Schema.{TemporalSample}
use ros2_vlm_demo.Distillation.Evaluation.{Arithmetic, evaluate_batch}
use ros2_vlm_demo.Distillation.Evaluation.Own.{HasOwnIds}
use ros2_vlm_demo.Distillation.Evaluation.Perfect.{IsFaultless, evaluate_batch_lem}
use ros2_vlm_demo.Tests.Distillation.{sample, ascii}

abbrev coarse : Arithmetic
coarse = record {
  sub = λ b a. b;
  div = λ b a. b;
  third = half_f;
  two_thirds = one_f;
  mean = λ ts. zero_f;
}

abbrev first_only : Float → Float → Float
first_only x y = x

abbrev quiet : TemporalSample
quiet = record sample {
  sample_id = "wall-3";
  target = some record {
    change_detected = false;
    change = "";
    state_start = "grey";
    state_end = "grey";
    evidence_start_s = zero_f;
    evidence_end_s = one_f;
    confidence = half_f;
    scene_observation = "a wall";
  };
}

abbrev two : List TemporalSample
two = sample ∷ quiet ∷ []

other_ids : HasOwnIds two
unfolding string_dec
other_ids = ((refl, tt), (tt, tt))

evaluate_batch_lem_example : IsFaultless coarse ascii two (evaluate_batch coarse ascii two two)
evaluate_batch_lem_example =
    evaluate_batch_lem coarse ascii two ((_, refl), ((_, refl), tt)) other_ids
