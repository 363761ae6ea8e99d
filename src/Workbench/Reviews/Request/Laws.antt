-- ===== src/Workbench/Reviews/Request/Laws.antt =====
-- Which requests `validate_review` of web_console/review_store.py lets through.
use ros2_vlm_demo.Common.{
  String, ◌≡◌, refl, ◌≢◌, ◌↔◌, ◌⊎◌, true, false, not, ◌&&◌, Option, none, some, ◌==◌, codes, ltb,
  length, contains, arith, string_dec, ap, inl, inr,
}
use ros2_vlm_demo.Common.Int.{ℤ, pos, negsuc}
use ros2_vlm_demo.Common.Dict
use ros2_vlm_demo.Common.Dict.{Dict}
use ros2_vlm_demo.Float.{nan, neg_inf, pos_inf, fin}
use ros2_vlm_demo.Json.{
  Value, null, bool, int, float, str, list, dict, no_elements, element, no_members, member,
}
use ros2_vlm_demo.Workbench.Reviews.Request.{
  Converted, valid, overflow_error, whole, caught, overflow, allowed_review_labels, max_note_chars,
  int_of_float, is_falsy, or_else, parsed, int_of, check_label, check_index, check_body,
  validate_review, IsReview,
}

no_empty_label : contains allowed_review_labels "" ≡ false
unfolding string_dec
no_empty_label = refl

allowed_nonempty : (s : String) → contains allowed_review_labels s ≡ true → (s == "") ≡ false
allowed_nonempty s h = elim (string_dec s "") [
  | yes p ↦ absurd (cc (ap (contains allowed_review_labels) p, no_empty_label, h))
  | no n ↦ ground arith
]

module _ (parse_int : String → Option ℤ) (text_of : Value → String) where
  check_label_valid :
      (label note : Value)
      → check_label parse_int text_of label note ≡ valid
      → (s : String) × (label ≡ str s)
        × (contains allowed_review_labels s ≡ true)
        × ((not (is_falsy note) && ltb max_note_chars (length (codes (text_of note)))) ≡ false)
  unfolding is_falsy
  check_label_valid null note h = ground arith
  check_label_valid (bool b) note h = ground arith
  check_label_valid (int (pos n)) note h = ground arith
  check_label_valid (int (negsuc n)) note h = ground arith
  check_label_valid (float f) note h = ground arith
  check_label_valid (str s) note h = (s, refl, ground arith, ground arith)
  check_label_valid (list no_elements) note h = ground arith
  check_label_valid (list (element x xs)) note h = ground arith
  check_label_valid (dict no_members) note h = ground arith
  check_label_valid (dict (member k x xs)) note h = ground arith

  check_index_valid :
      (k : Converted) (frame_index label note : Value)
      → int_of parse_int text_of frame_index ≡ k
      → check_index parse_int text_of k label note ≡ valid
      → IsReview parse_int text_of frame_index label note
  check_index_valid caught frame_index label note e h = absurd (cc h)
  check_index_valid overflow frame_index label note e h = absurd (cc h)
  check_index_valid (whole (pos n)) frame_index label note e h =
      let (s, is, ok, short) = check_label_valid label note (ground arith) in
      record { index = n; converts = e; label_text = s; is_label = is; allowed = ok; short = short }
  check_index_valid (whole (negsuc n)) frame_index label note e h = ground arith

  check_label_complete :
      (s : String) (note : Value)
      → contains allowed_review_labels s ≡ true
      → (not (is_falsy note) && ltb max_note_chars (length (codes (text_of note)))) ≡ false
      → check_label parse_int text_of (str s) note ≡ valid
  unfolding is_falsy
  check_label_complete s note a b = rw (allowed_nonempty s a, a, b) refl

  check_index_complete :
      (frame_index label note : Value)
      → IsReview parse_int text_of frame_index label note
      → check_index parse_int text_of (int_of parse_int text_of frame_index) label note ≡ valid
  check_index_complete frame_index label note r =
      let done = check_label_complete r.label_text note r.allowed r.short in
      rw (r.converts, r.is_label) (ground (arith, done))

  null_is_caught : int_of parse_int text_of null ≡ caught
  unfolding int_of
  null_is_caught = refl

  no_null_review : (label note : Value) → IsReview parse_int text_of null label note → ⊥
  no_null_review label note r = cc (null_is_caught, r.converts)

  check_body_valid :
      (frame_index label note : Value)
      → (check_body parse_int text_of frame_index label note ≡ valid)
        ↔ IsReview parse_int text_of frame_index label note
  check_body_valid null label note =
      ((λ h. absurd (cc h)), λ r. absurd (no_null_review label note r))
  check_body_valid (bool b) label note =
      (check_index_valid _ (bool b) label note refl, check_index_complete (bool b) label note)
  check_body_valid (int z) label note =
      (check_index_valid _ (int z) label note refl, check_index_complete (int z) label note)
  check_body_valid (float f) label note =
      (check_index_valid _ (float f) label note refl, check_index_complete (float f) label note)
  check_body_valid (str s) label note =
      (check_index_valid _ (str s) label note refl, check_index_complete (str s) label note)
  check_body_valid (list xs) label note =
      (check_index_valid _ (list xs) label note refl, check_index_complete (list xs) label note)
  check_body_valid (dict xs) label note =
      (check_index_valid _ (dict xs) label note refl, check_index_complete (dict xs) label note)

  label_overflow : (label note : Value) → check_label parse_int text_of label note ≢ overflow_error
  label_overflow label note h = ground arith

  parsed_overflow : (o : Option ℤ) → parsed parse_int text_of o ≢ overflow
  parsed_overflow none h = cc h
  parsed_overflow (some z) h = cc h

  index_overflow :
      (k : Converted) (label note : Value)
      → (check_index parse_int text_of k label note ≡ overflow_error) ↔ (k ≡ overflow)
  index_overflow caught label note = ((λ h. absurd (cc h)), λ h. absurd (cc h))
  index_overflow overflow label note = ((λ h. refl), λ h. refl)
  index_overflow (whole z) label note =
      ((λ h. ground (arith, label_overflow label note)), λ h. absurd (cc h))

  overflow_iff :
      (v : Value)
      → (int_of parse_int text_of v ≡ overflow) ↔ ((v ≡ float pos_inf) ⊎ (v ≡ float neg_inf))
  unfolding int_of int_of_float
  overflow_iff null = ((λ h. absurd (cc h)), ground arith)
  overflow_iff (bool b) = ((λ h. absurd (cc h)), ground arith)
  overflow_iff (int z) = ((λ h. absurd (cc h)), ground arith)
  overflow_iff (float nan) = ((λ h. absurd (cc h)), ground arith)
  overflow_iff (float pos_inf) = ((λ h. inl refl), λ h. refl)
  overflow_iff (float neg_inf) = ((λ h. inr refl), λ h. refl)
  overflow_iff (float (fin (pos n))) = ((λ h. absurd (cc h)), ground arith)
  overflow_iff (float (fin (negsuc n))) = ((λ h. absurd (cc h)), ground arith)
  overflow_iff (str s) = ((λ h. absurd (parsed_overflow (parse_int s) h)), ground arith)
  overflow_iff (list xs) = ((λ h. absurd (cc h)), ground arith)
  overflow_iff (dict xs) = ((λ h. absurd (cc h)), ground arith)

  check_body_overflow :
      (v label note : Value)
      → (check_body parse_int text_of v label note ≡ overflow_error)
        ↔ (int_of parse_int text_of v ≡ overflow)
  unfolding int_of
  check_body_overflow null label note = ((λ h. absurd (cc h)), λ h. absurd (cc h))
  check_body_overflow (bool b) label note = index_overflow _ label note
  check_body_overflow (int z) label note = index_overflow _ label note
  check_body_overflow (float f) label note = index_overflow _ label note
  check_body_overflow (str s) label note = index_overflow _ label note
  check_body_overflow (list xs) label note = index_overflow _ label note
  check_body_overflow (dict xs) label note = index_overflow _ label note

-- A request passes exactly when its frame index converts to an integer that is not negative, its
-- label is one of the four texts and its note is falsy or has at most 1000 characters; and
-- OverflowError leaves the check exactly when the frame index is an infinite float.
pub validate_review_lem :
    (parse_int : String → Option ℤ) (text_of : Value → String) (body : Dict Value)
    → let frame_index = or_else (Dict.lookup "frame_index" body) null in
      let label = or_else (Dict.lookup "label" body) (str "") in
      let note = or_else (Dict.lookup "note" body) (str "") in
      ((validate_review parse_int text_of body ≡ valid)
        ↔ IsReview parse_int text_of frame_index label note)
      × ((validate_review parse_int text_of body ≡ overflow_error)
          ↔ ((frame_index ≡ float pos_inf) ⊎ (frame_index ≡ float neg_inf)))
unfolding validate_review
validate_review_lem parse_int text_of body =
    let (to, from) =
      check_body_overflow parse_int text_of (or_else (Dict.lookup "frame_index" body) null)
        (or_else (Dict.lookup "label" body) (str ""))
        (or_else (Dict.lookup "note" body) (str "")) in
    let (to2, from2) =
      overflow_iff parse_int text_of (or_else (Dict.lookup "frame_index" body) null) in
    (
      check_body_valid parse_int text_of (or_else (Dict.lookup "frame_index" body) null)
          (or_else (Dict.lookup "label" body) (str ""))
          (or_else (Dict.lookup "note" body) (str "")),
      (λ h. to2 (to h), λ h. from (from2 h)),
    )
