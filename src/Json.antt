-- ===== src/Json.antt =====
-- JSON values as `json.loads` returns them.
use ros2_vlm_demo.Common.{String, Bool, false, ◌==◌}
use ros2_vlm_demo.Common.Int.{ℤ}
use ros2_vlm_demo.Float.{Float}

mutual
  pub data Value : Type 0 where
    null : Value
    bool : Bool → Value
    int : ℤ → Value
    float : Float → Value
    str : String → Value
    dict : Members → Value
    list : Elements → Value

  -- The items of a dict, in insertion order.
  pub data Members : Type 0 where
    no_members : Members
    member : (key : String) (value : Value) (rest : Members) → Members

  pub data Elements : Type 0 where
    no_elements : Elements
    element : (first : Value) (rest : Elements) → Elements

-- `v == s` for a text `s`
abbrev pub is_text : Value → String → Bool
is_text (str t) s = t == s
is_text _ s = false
