-- ===== src/Workbench/Profiles.antt =====
-- web_console/task_profiles.py: the parsing of structured output and the look-up of a profile. A text is
-- the list of its code points; `json.loads` and `str.isspace` are arguments.
pub mod Prose
use ros2_vlm_demo.Common.{
  ℕ, suc, ◌+◌, ◌-◌, String, ◌==◌, Bool, true, false, not, Option, none, some, List, [], ◌∷◌, eqb,
  is_empty, any, if◌then◌else◌,
}
use ros2_vlm_demo.Json.{Value, dict, Members, no_members, member}
use ros2_vlm_demo.Distillation.Schema.{Text}

pub record TaskProfile : Type 0 where
  pub name : String
  pub version : String
  -- The keys that the output schema requires, if there is a schema.
  pub required : Option (List String)

pub data ParseError : Type 0 where
  no_error empty_response no_object_found json_error not_an_object : ParseError
  missing_keys : List String → ParseError

pub record ParsedOutput : Type 0 where
  pub raw_text : Text
  pub parsed : Option Members
  pub parse_success : Bool
  pub parse_error : ParseError
  pub malformed_flag : Bool

abbrev pub open_brace : ℕ
open_brace = 123

abbrev pub close_brace : ℕ
close_brace = 125

unfoldable pub get_profile_by_name : List TaskProfile → String → Option TaskProfile
get_profile_by_name [] name = none
get_profile_by_name (p ∷ ps) name =
    let rest = get_profile_by_name ps name in if p.name == name then some p else rest

-- What follows the first opening brace.
unfoldable pub after_brace : Text → Option Text
after_brace [] = none
after_brace (x ∷ xs) = let rest = after_brace xs in if eqb x open_brace then some xs else rest

-- The loop that counts braces, at a depth that is not 0: the text up to the brace that closes, or all.
unfoldable pub up_to_close : ℕ → Text → Text
up_to_close depth [] = []
up_to_close depth (x ∷ xs) =
    let deeper = up_to_close (depth + 1) xs in
    let higher = up_to_close (depth - 1) xs in
    let level = up_to_close depth xs in
    if eqb x open_brace
    then x ∷ deeper
    else if eqb x close_brace
    then (if eqb depth 1 then x ∷ [] else x ∷ higher)
    else x ∷ level

-- `k in obj`
abbrev pub has_key : String → Members → Bool
has_key k no_members = false
has_key k (member j v rest) = if j == k then true else has_key k rest

abbrev pub missing : List String → Members → List String
missing [] obj = []
missing (k ∷ ks) obj = let rest = missing ks obj in if has_key k obj then rest else k ∷ rest

abbrev pub failed_parse : Text → Option Members → ParseError → ParsedOutput
failed_parse raw obj e = record {
  raw_text = raw;
  parsed = obj;
  parse_success = false;
  parse_error = e;
  malformed_flag = true;
}

abbrev pub parsed_object : Text → Members → ParsedOutput
parsed_object raw obj = record {
  raw_text = raw;
  parsed = some obj;
  parse_success = true;
  parse_error = no_error;
  malformed_flag = false;
}

-- The required keys are tested only with a profile that has a schema.
abbrev pub check_keys : Text → Option (List String) → Members → ParsedOutput
check_keys raw none obj = parsed_object raw obj
check_keys raw (some required) obj =
    if is_empty (missing required obj)
    then parsed_object raw obj
    else failed_parse raw (some obj) (missing_keys (missing required obj))

unfoldable pub check_value : Text → Option (List String) → Option Value → ParsedOutput
check_value raw required none = failed_parse raw none json_error
check_value raw required (some (dict obj)) = check_keys raw required obj
check_value raw required (some _) = failed_parse raw none not_an_object

module _ (is_space : ℕ → Bool) (loads : Text → Option Value) where
  abbrev pub parse_from : Text → Option (List String) → Option Text → ParsedOutput
  parse_from raw required none = failed_parse raw none no_object_found
  parse_from raw required (some rest) =
      check_value raw required (loads (open_brace ∷ up_to_close 1 rest))

  unfoldable pub parse_structured_output : Text → Option (List String) → ParsedOutput
  unfolding after_brace
  parse_structured_output raw required =
      if any (λ x. not (is_space x)) raw
      then parse_from raw required (after_brace raw)
      else failed_parse raw none empty_response
