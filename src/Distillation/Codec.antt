-- ===== src/Distillation/Codec.antt =====
-- `TemporalTarget.to_dict` and `TemporalTarget.from_dict` of distillation/schema.py. `float` of an
-- integer rounds, or raises OverflowError; it is an argument, `of_int`.
pub mod RoundTrip
use ros2_vlm_demo.Common.{
  String, Bool, true, false, if◌then◌else◌, Option, none, some, List, [], ◌∷◌,
}
use ros2_vlm_demo.Common.Int.{ℤ, pos}
use ros2_vlm_demo.Common.Dict
use ros2_vlm_demo.Common.Dict.{Dict}
use ros2_vlm_demo.Float.{Float}
use ros2_vlm_demo.Json.{Value, bool, int, float, str}
use ros2_vlm_demo.Distillation.Schema.{TemporalTarget}

pub data Error : Type 0 where
  key_error type_error overflow_error : Error

-- What a call returns or raises.
pub data Loaded (A : Type 0) : Type 0 where
  loaded : A → Loaded A
  raised : Error → Loaded A

abbrev pub and_then : {A B : Type 0} → Loaded A → (A → Loaded B) → Loaded B
and_then (loaded a) f = f a
and_then (raised e) f = raised e

abbrev pub to_dict : TemporalTarget → Dict Value
to_dict t =
    ("change_detected", bool t.change_detected)
    ∷ ("change", str t.change)
    ∷ ("state_start", str t.state_start)
    ∷ ("state_end", str t.state_end)
    ∷ ("evidence_start_s", float t.evidence_start_s)
    ∷ ("evidence_end_s", float t.evidence_end_s)
    ∷ ("confidence", float t.confidence)
    ∷ ("scene_observation", str t.scene_observation)
    ∷ []

-- `d[k]`, checked with `isinstance`. A bool is an int.
abbrev pub as_bool : Option Value → Loaded Bool
as_bool none = raised key_error
as_bool (some (bool b)) = loaded b
as_bool (some _) = raised type_error

abbrev pub as_number : Option Value → Loaded Value
as_number none = raised key_error
as_number (some (bool b)) = loaded (bool b)
as_number (some (int z)) = loaded (int z)
as_number (some (float f)) = loaded (float f)
as_number (some _) = raised type_error

abbrev pub as_text : Option Value → Loaded String
as_text none = raised key_error
as_text (some (str s)) = loaded s
as_text (some _) = raised type_error

module _ (of_int : ℤ → Option Float) where
  abbrev pub or_overflow : Option Float → Loaded Float
  or_overflow none = raised overflow_error
  or_overflow (some f) = loaded f

  -- `float(v)` of a number.
  abbrev pub to_float : Value → Loaded Float
  to_float (bool b) = or_overflow (of_int (pos (if b then 1 else 0)))
  to_float (int z) = or_overflow (of_int z)
  to_float (float f) = loaded f
  to_float _ = raised type_error

  unfoldable pub from_dict : Dict Value → Loaded TemporalTarget
  from_dict d = and_then (as_bool (Dict.lookup "change_detected" d)) λ cd.
      and_then (as_number (Dict.lookup "confidence" d)) λ conf.
        and_then (as_number (Dict.lookup "evidence_start_s" d)) λ start.
          and_then (as_number (Dict.lookup "evidence_end_s" d)) λ stop.
            and_then (as_text (Dict.lookup "change" d)) λ change.
              and_then (as_text (Dict.lookup "state_start" d)) λ state_start.
                and_then (as_text (Dict.lookup "state_end" d)) λ state_end.
                  and_then (as_text (Dict.lookup "scene_observation" d)) λ scene.
                    and_then (to_float start) λ start_f. and_then (to_float stop) λ stop_f.
                      and_then (to_float conf) λ conf_f. loaded (record {
                        change_detected = cd;
                        change = change;
                        state_start = state_start;
                        state_end = state_end;
                        evidence_start_s = start_f;
                        evidence_end_s = stop_f;
                        confidence = conf_f;
                        scene_observation = scene;
                      })
