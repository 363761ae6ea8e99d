-- ===== src/Distillation/Controls.antt =====
-- `ControlledSequenceEvaluator` of distillation/evaluation.py: the transforms of a sequence and the
-- target that a transformed sequence is scored against. `random.Random(seed).shuffle` and the
-- arithmetic of floats are arguments; times are numbers.
pub mod Twice
use mathlib.Core.List.{reverse}
use ros2_vlm_demo.Common.{
  String, ◌==◌, Bool, true, false, Option, none, some, List, [], ◌∷◌, ◌++◌, if◌then◌else◌,
}
use ros2_vlm_demo.Common.Dict
use ros2_vlm_demo.Common.Dict.{Dict}
use ros2_vlm_demo.Float.{Float, lt, zero_f}
use ros2_vlm_demo.KnowledgeGraph.Retrieval.{sort}
use ros2_vlm_demo.Distillation.Schema.{FrameRef, TemporalTarget, TemporalSample}
use ros2_vlm_demo.Distillation.Validator.{last_time}
use ros2_vlm_demo.Distillation.Evaluation.{
  Arithmetic, EvaluationReport, evaluate_batch, first_time, truth_map,
}
use ros2_vlm_demo.Distillation.References.{Classes}

pub data Transform : Type 0 where
  chronological reversed shuffled duplicated_frame single_terminal_frame unknown : Transform

abbrev pub by_time : List FrameRef → List FrameRef
by_time frames = sort (λ f g. lt f.t_seconds g.t_seconds) frames

abbrev pub last_frame : FrameRef → List FrameRef → FrameRef
last_frame f [] = f
last_frame f (g ∷ gs) = last_frame g gs

abbrev pub with_last : List FrameRef → List FrameRef
with_last [] = []
with_last (f ∷ fs) = (f ∷ fs) ++ (last_frame f fs ∷ [])

abbrev pub only_last : List FrameRef → List FrameRef
only_last [] = []
only_last (f ∷ fs) = last_frame f fs ∷ []

-- `apply_transform`; none is ValueError.
unfoldable pub apply_transform :
    (List FrameRef → List FrameRef) → TemporalSample → Transform → Option TemporalSample
apply_transform shuffle s chronological = some (record s { frames = by_time s.frames })
apply_transform shuffle s reversed = some (record s { frames = reverse s.frames })
apply_transform shuffle s shuffled = some (record s { frames = shuffle s.frames })
apply_transform shuffle s duplicated_frame = some (record s { frames = with_last s.frames })
apply_transform shuffle s single_terminal_frame = some (record s { frames = only_last s.frames })
apply_transform shuffle s unknown = none

-- `_REVERSE_DIRECTION_MAP.get(change, change)`
unfoldable pub reverse_direction : String → String
reverse_direction change =
    if change == "approaching"
    then "receding"
    else if change == "receding"
    then "approaching"
    else if change == "accelerating"
    then "decelerating"
    else if change == "decelerating"
    then "accelerating"
    else change

-- `min(a, b)` and `max(a, b)`
abbrev pub min_of : Float → Float → Float
min_of a b = if lt b a then b else a

abbrev pub max_of : Float → Float → Float
max_of a b = if lt a b then b else a

module _ (a : Arithmetic) (add : Float → Float → Float) where
  -- The interval of the evidence after the reversal of a sequence with these times in order.
  unfoldable pub reversed_evidence : List FrameRef → Float → Float → Float × Float
  reversed_evidence [] start end_s = (start, end_s)
  reversed_evidence (f ∷ fs) start end_s =
      let t_min = f.t_seconds in
      let t_max = last_time t_min fs in
      let new_start = a.sub (add t_max t_min) start in
      let new_end = a.sub (add t_max t_min) end_s in
      if lt zero_f (a.sub t_max t_min)
      then (min_of new_start new_end, max_of new_start new_end)
      else (start, end_s)

  unfoldable pub reversed_target : List FrameRef → TemporalTarget → TemporalTarget
  unfolding reversed_evidence reverse_direction
  reversed_target frames t =
      let evidence = reversed_evidence frames t.evidence_start_s t.evidence_end_s in
      record {
        change_detected = t.change_detected;
        change = reverse_direction t.change;
        state_start = t.state_end;
        state_end = t.state_start;
        evidence_start_s = evidence.0;
        evidence_end_s = evidence.1;
        confidence = t.confidence;
        scene_observation = t.scene_observation;
      }

  abbrev pub reverse_labelled : TemporalSample → Option TemporalTarget → TemporalSample
  reverse_labelled s none = s
  reverse_labelled s (some t) = record s {
    frames = by_time s.frames;
    target = some (reversed_target (by_time s.frames) t);
  }

  -- `_derive_control_target`
  unfoldable pub derive_control_target : TemporalSample → Transform → TemporalSample
  unfolding reversed_target
  derive_control_target s reversed = reverse_labelled s s.target
  derive_control_target s shuffled = record s { target = none }
  derive_control_target s _ = s

  module _ (c : Classes) where
    abbrev pub control_for : Option TemporalSample → Transform → TemporalSample → TemporalSample
    control_for none transform predicted = predicted
    control_for (some truth) transform predicted = derive_control_target truth transform

    abbrev pub controls :
        Dict TemporalSample → Transform → List TemporalSample → List TemporalSample
    controls d transform [] = []
    controls d transform (s ∷ ss) =
        control_for (Dict.lookup s.sample_id d) transform s ∷ controls d transform ss

    -- One entry of `evaluate_transforms`.
    unfoldable pub evaluate_transform :
        Transform → List TemporalSample → List TemporalSample → EvaluationReport
    evaluate_transform transform predictions truths =
        evaluate_batch a c predictions (controls (truth_map [] truths) transform predictions)
