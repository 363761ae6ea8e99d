-- ===== src/Workbench/Reviews/Request.antt =====
-- `validate_review` of web_console/review_store.py, on a request body that `json.loads` has read.
-- Python's conversions of a text to an integer and of a value to a text are arguments.
pub mod Laws
use ros2_vlm_demo.Common.{
  ℕ, zero, suc, ◌+◌, ◌-◌, ◌/◌, ◌≤◌, String, ◌≡◌, refl, ◌≢◌, ◌↔◌, ◌⊎◌, Bool, true, false, not, ◌&&◌,
  ◌||◌, Option, none, some, List, [], ◌∷◌, ◌==◌, codes, eqb, ltb, length, is_empty, if◌then◌else◌,
  contains, arith, string_dec, ap, inl, inr,
}
use ros2_vlm_demo.Common.Int.{ℤ, pos, negsuc, ltb_ℤ}
use ros2_vlm_demo.Common.Dict
use ros2_vlm_demo.Common.Dict.{Dict}
use ros2_vlm_demo.Float.{Float, nan, neg_inf, pos_inf, fin, one_units}
use ros2_vlm_demo.Json.{
  Value, null, bool, int, float, str, list, dict, Elements, no_elements, element, Members,
  no_members, member,
}

pub data Problem : Type 0 where
  frame_index_required frame_index_not_integer frame_index_negative label_required unknown_label
        note_too_long :
      Problem

-- What the call comes to: it returns None or a message, or an exception leaves it.
pub data Outcome : Type 0 where
  valid overflow_error unhashable : Outcome
  invalid : Problem → Outcome

-- `int(v)`: an integer, an exception that the code catches, or OverflowError.
pub data Converted : Type 0 where
  whole : ℤ → Converted
  caught overflow : Converted

abbrev pub allowed_review_labels : List String
allowed_review_labels =
    "acceptable" ∷ "unsupported_hallucinated" ∷ "missed_important_detail" ∷ "ambiguous" ∷ []

abbrev pub max_note_chars : ℕ
max_note_chars = 1000

-- `-n`
abbrev pub negated : ℕ → ℤ
negated zero = pos 0
negated (suc n) = negsuc n

-- `int(f)` cuts towards zero.
unfoldable pub int_of_float : Float → Converted
int_of_float nan = caught
int_of_float neg_inf = overflow
int_of_float pos_inf = overflow
int_of_float (fin (pos n)) = whole (pos (n / one_units))
int_of_float (fin (negsuc n)) = whole (negated ((n + 1) / one_units))

-- `not v`
unfoldable pub is_falsy : Value → Bool
is_falsy null = true
is_falsy (bool b) = not b
is_falsy (int (pos n)) = eqb n 0
is_falsy (int (negsuc n)) = false
is_falsy (float (fin (pos n))) = eqb n 0
is_falsy (float _) = false
is_falsy (str s) = s == ""
is_falsy (list no_elements) = true
is_falsy (list (element x xs)) = false
is_falsy (dict no_members) = true
is_falsy (dict (member k x xs)) = false

-- A value that cannot be looked up in a set.
abbrev pub is_unhashable : Value → Bool
is_unhashable (list xs) = true
is_unhashable (dict xs) = true
is_unhashable _ = false

abbrev pub is_allowed : Value → Bool
is_allowed (str s) = contains allowed_review_labels s
is_allowed _ = false

abbrev pub or_else : Option Value → Value → Value
or_else none v = v
or_else (some v) w = v

module _ (parse_int : String → Option ℤ) (text_of : Value → String) where
  abbrev pub parsed : Option ℤ → Converted
  parsed none = caught
  parsed (some z) = whole z

  unfoldable pub int_of : Value → Converted
  unfolding int_of_float
  int_of null = caught
  int_of (bool b) = whole (pos (if b then 1 else 0))
  int_of (int z) = whole z
  int_of (float f) = int_of_float f
  int_of (str s) = parsed (parse_int s)
  int_of (list xs) = caught
  int_of (dict xs) = caught

  abbrev pub check_note : Value → Outcome
  check_note note =
      if not (is_falsy note) && ltb max_note_chars (length (codes (text_of note)))
      then invalid note_too_long
      else valid

  abbrev pub check_label : Value → Value → Outcome
  check_label label note =
      if is_falsy label
      then invalid label_required
      else if is_unhashable label
      then unhashable
      else if not (is_allowed label)
      then invalid unknown_label
      else check_note note

  abbrev pub check_index : Converted → Value → Value → Outcome
  check_index caught label note = invalid frame_index_not_integer
  check_index overflow label note = overflow_error
  check_index (whole fi) label note =
      if ltb_ℤ fi (pos 0) then invalid frame_index_negative else check_label label note

  abbrev pub check_body : Value → Value → Value → Outcome
  check_body null label note = invalid frame_index_required
  check_body frame_index label note = check_index (int_of frame_index) label note

  unfoldable pub validate_review : Dict Value → Outcome
  validate_review body =
      check_body (or_else (Dict.lookup "frame_index" body) null)
        (or_else (Dict.lookup "label" body) (str "")) (or_else (Dict.lookup "note" body) (str ""))

-- A request that is let through: the frame index converts to an integer that is not negative, the
-- label is an allowed text, and the note is empty or short.
pub record IsReview (parse_int : String → Option ℤ) (text_of : Value → String)
    (frame_index label note : Value) : Type 0 where
  pub index : ℕ
  pub converts : int_of parse_int text_of frame_index ≡ whole (pos index)
  pub label_text : String
  pub is_label : label ≡ str label_text
  pub allowed : contains allowed_review_labels label_text ≡ true
  pub short : (not (is_falsy note) && ltb max_note_chars (length (codes (text_of note)))) ≡ false
