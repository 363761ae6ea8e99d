-- ===== src/KnowledgeGraph/Schema/Confidence.antt =====
-- `clamp_confidence` of knowledge_graph/schema.py.
use ros2_vlm_demo.Common.{◌≡◌, true, arith}
use ros2_vlm_demo.Float.{Float, nan, le, zero_f, one_f, one_units_pos}
use ros2_vlm_demo.KnowledgeGraph.Schema.{clamp_confidence}

abbrev pub InUnit : Float → Type 0
InUnit v = (le zero_f v ≡ true) × (le v one_f ≡ true)

-- A value in [0, 1] is returned as it is.
pub clamp_confidence_id : (v : Float) → InUnit v → clamp_confidence v ≡ v
unfolding clamp_confidence
clamp_confidence_id v h = ground (arith, one_units_pos)

-- Whatever the float, infinite or NaN included, the clamped value lies in [0, 1]; clamping twice
-- is clamping once; and NaN becomes 1.0.
pub clamp_confidence_lem :
    (v : Float)
    → InUnit (clamp_confidence v)
      × (clamp_confidence (clamp_confidence v) ≡ clamp_confidence v)
      × (clamp_confidence nan ≡ one_f)
unfolding clamp_confidence
clamp_confidence_lem v =
    (ground (arith, one_units_pos), ground (arith, one_units_pos), ground (arith, one_units_pos))
