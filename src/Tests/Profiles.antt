-- ===== src/Tests/Profiles.antt =====
-- A response with prose around its object for web_console/task_profiles.py.
use ros2_vlm_demo.Common.{
  ℕ, if◌then◌else◌, ◌≡◌, refl, Bool, Option, none, some, [], ◌∷◌, codes, eqb, length,
}
use ros2_vlm_demo.Json.{Value, dict, str, no_members, member}
use ros2_vlm_demo.Distillation.Schema.{Text}
use ros2_vlm_demo.Workbench.Profiles.{up_to_close, parse_structured_output}
use ros2_vlm_demo.Workbench.Profiles.Prose.{
  IsBalanced, nothing, plain, nested, with_raw, parse_structured_output_lem,
}

abbrev is_blank : ℕ → Bool
is_blank x = eqb x 32

-- A parser that takes five code points for an object.
abbrev loads : Text → Option Value
loads t = if eqb (length t) 5 then some (dict (member "a" (str "b") no_members)) else none

abbrev body : Text
body = 97 ∷ 123 ∷ 125 ∷ []

balanced : IsBalanced body
balanced = plain 97 (123 ∷ 125 ∷ []) refl refl (nested [] [] nothing nothing)

parse_structured_output_lem_example :
    parse_structured_output is_blank loads
      (72 ∷ 105 ∷ 123 ∷ 97 ∷ 123 ∷ 125 ∷ 125 ∷ 33 ∷ [])
      (some ("a" ∷ []))
    ≡ with_raw
        (72 ∷ 105 ∷ 123 ∷ 97 ∷ 123 ∷ 125 ∷ 125 ∷ 33 ∷ [])
        (parse_structured_output is_blank loads (123 ∷ 97 ∷ 123 ∷ 125 ∷ 125 ∷ []) (some ("a" ∷ [])))
parse_structured_output_lem_example =
    parse_structured_output_lem is_blank refl loads (72 ∷ 105 ∷ []) body (33 ∷ []) (some ("a" ∷ []))
      (refl, (refl, tt)) balanced

-- The brace in the text of {"a":"}"} ends the object too early, whatever parses it.
cut_short : up_to_close 1 (codes "\"a\":\"}\"}") ≡ codes "\"a\":\"}"
unfolding up_to_close
cut_short = refl
