-- ===== src/Distillation/Codec/RoundTrip.antt =====
-- What `from_dict` of distillation/schema.py makes of a dict.
use mathlib.Core.Path.{subst}
use ros2_vlm_demo.Common.{String, ◌≡◌, refl, Bool, Option, some, string_dec, arith}
use ros2_vlm_demo.Common.Int.{ℤ}
use ros2_vlm_demo.Common.Dict
use ros2_vlm_demo.Common.Dict.{Dict}
use ros2_vlm_demo.Float.{Float}
use ros2_vlm_demo.Json.{Value, bool, str}
use ros2_vlm_demo.Distillation.Schema.{TemporalTarget}
use ros2_vlm_demo.Distillation.Codec.{
  Loaded, loaded, raised, and_then, to_dict, as_bool, as_number, as_text, to_float, from_dict,
}

-- A written target is read back as it was, whatever the rounding of integers.
pub from_dict-to_dict :
    (of_int : ℤ → Option Float) (t : TemporalTarget) → from_dict of_int (to_dict t) ≡ loaded t
unfolding from_dict Dict.lookup string_dec
from_dict-to_dict of_int t = refl

and_then_inv :
    {A B : Type 0} (m : Loaded A) (f : A → Loaded B) (b : B)
    → and_then m f ≡ loaded b
    → (a : A) × (m ≡ loaded a) × (f a ≡ loaded b)
and_then_inv (loaded a) f b h = (a, refl, h)
and_then_inv (raised e) f b h = absurd (cc h)

as_bool_inv : (o : Option Value) (b : Bool) → as_bool o ≡ loaded b → o ≡ some (bool b)
as_bool_inv o b h = ground arith

as_text_inv : (o : Option Value) (s : String) → as_text o ≡ loaded s → o ≡ some (str s)
as_text_inv o s h = ground arith

as_number_inv : (o : Option Value) (v : Value) → as_number o ≡ loaded v → o ≡ some v
as_number_inv o v h = ground arith

-- The value stands under the key.
abbrev pub Holds : Dict Value → String → Value → Type 0
Holds d key v = Dict.lookup key d ≡ some v

-- A number that stands under the key converts to the float.
abbrev pub HoldsFloat : (ℤ → Option Float) → Dict Value → String → Float → Type 0
HoldsFloat of_int d key f = (v : Value) × Holds d key v × (to_float of_int v ≡ loaded f)

-- What a dict holds for a target.
abbrev pub Stands : (ℤ → Option Float) → Dict Value → TemporalTarget → Type 0
Stands of_int d t =
    Holds d "change_detected" (bool t.change_detected)
    × Holds d "change" (str t.change)
    × Holds d "state_start" (str t.state_start)
    × Holds d "state_end" (str t.state_end)
    × Holds d "scene_observation" (str t.scene_observation)
    × HoldsFloat of_int d "evidence_start_s" t.evidence_start_s
    × HoldsFloat of_int d "evidence_end_s" t.evidence_end_s
    × HoldsFloat of_int d "confidence" t.confidence

loaded_inj : {A : Type 0} (a b : A) → loaded a ≡ loaded b → a ≡ b
loaded_inj a b h = cc h

-- Whatever is read stands in the dict: the flag and the four texts as they are, and the three numbers
-- up to the conversion to a float.
pub from_dict_lem :
    (of_int : ℤ → Option Float) (d : Dict Value) (t : TemporalTarget)
    → from_dict of_int d ≡ loaded t
    → Stands of_int d t
unfolding from_dict
from_dict_lem of_int d t h0 =
    let (cd, e1, h1) = and_then_inv _ _ t h0 in
    let (conf, e2, h2) = and_then_inv _ _ t h1 in
    let (start, e3, h3) = and_then_inv _ _ t h2 in
    let (stop, e4, h4) = and_then_inv _ _ t h3 in
    let (change, e5, h5) = and_then_inv _ _ t h4 in
    let (state_start, e6, h6) = and_then_inv _ _ t h5 in
    let (state_end, e7, h7) = and_then_inv _ _ t h6 in
    let (scene, e8, h8) = and_then_inv _ _ t h7 in
    let (start_f, e9, h9) = and_then_inv _ _ t h8 in
    let (stop_f, e10, h10) = and_then_inv _ _ t h9 in
    let (conf_f, e11, h11) = and_then_inv _ _ t h10 in
    subst (Stands of_int d) (loaded_inj _ t h11) (
      as_bool_inv _ cd e1,
      as_text_inv _ change e5,
      as_text_inv _ state_start e6,
      as_text_inv _ state_end e7,
      as_text_inv _ scene e8,
      (start, as_number_inv _ start e3, e9),
      (stop, as_number_inv _ stop e4, e10),
      (conf, as_number_inv _ conf e2, e11),
    )
