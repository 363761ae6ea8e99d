-- ===== src/Tests/Reviews.antt =====
-- A run with two reviews for web_console/review_store.py.
use ros2_vlm_demo.Common.{
  String, ◌≡◌, refl, arith, ◌↔◌, ◌⊎◌, true, false, Option, none, some, [], ◌∷◌, string_dec, codes,
}
use ros2_vlm_demo.Common.Int.{ℤ, pos}
use ros2_vlm_demo.Common.Dict
use ros2_vlm_demo.Common.Dict.{Dict}
use ros2_vlm_demo.Float.{pos_inf, neg_inf}
use ros2_vlm_demo.Json.{Value, null, int, str, float}
use ros2_vlm_demo.Workbench.RunId.{
  is_safe_run_id, uuid_re, is_hex, HasShape, uuid, is_safe_run_id_lem,
}
use ros2_vlm_demo.Workbench.Reviews.{
  ReviewAnnotation, Store, upsert_review, get_review_for_frame, read_reviews, to_dict, put,
  get_reviews, by_frame, place, first_for,
}
use ros2_vlm_demo.Workbench.Reviews.Laws.{IsCapped, upsert_review-IsCapped}
use ros2_vlm_demo.Workbench.Reviews.Request.{
  validate_review, valid, overflow_error, IsReview, is_falsy, int_of, or_else,
}
use ros2_vlm_demo.Workbench.Reviews.Request.Laws.{validate_review_lem}

abbrev run : String
run = "0123abcd-0123-4567-89ab-0123456789ab"

safe_run : is_safe_run_id run ≡ true
unfolding is_safe_run_id uuid_re is_hex
safe_run = refl

unsafe_run : is_safe_run_id "../../../../etc/passwd" ≡ false
unfolding is_safe_run_id uuid_re is_hex
unsafe_run = refl

is_safe_run_id_lem_example : (is_safe_run_id run ≡ true) ↔ HasShape uuid (codes run)
is_safe_run_id_lem_example = is_safe_run_id_lem run

abbrev first_review : ReviewAnnotation
first_review = record {
  run_id = run;
  frame_index = 4;
  label = "ambiguous";
  note = "";
  created_at = "09:00";
  updated_at = "09:00";
  schema_version = 1;
}

abbrev second_review : ReviewAnnotation
second_review = record first_review { label = "acceptable"; created_at = "10:00"; updated_at = "" }

abbrev reviewed : Store
reviewed = (run, first_review ∷ []) ∷ []

keeps_creation :
    get_review_for_frame run 4 (upsert_review true second_review reviewed).1
    ≡ some (record second_review { created_at = "09:00"; updated_at = "10:00" })
unfolding string_dec upsert_review read_reviews Dict.lookup Dict.insert put to_dict is_safe_run_id
    uuid_re is_hex get_review_for_frame get_reviews by_frame place first_for
keeps_creation = refl

no_reviews_IsCapped : IsCapped []
unfolding read_reviews Dict.lookup
no_reviews_IsCapped r = ground arith

upsert_review-IsCapped_example : IsCapped (upsert_review true first_review []).1
upsert_review-IsCapped_example = upsert_review-IsCapped true first_review [] no_reviews_IsCapped

abbrev no_int : String → Option ℤ
no_int s = none

abbrev no_text : Value → String
no_text v = ""

abbrev request : Dict Value
request = ("frame_index", int (pos 4)) ∷ ("label", str "ambiguous") ∷ []

passes : validate_review no_int no_text request ≡ valid
unfolding validate_review Dict.lookup string_dec is_falsy int_of
passes = refl

overflows : validate_review no_int no_text (("frame_index", float pos_inf) ∷ []) ≡ overflow_error
unfolding validate_review Dict.lookup string_dec int_of
overflows = refl

validate_review_lem_example :
    ((validate_review no_int no_text request ≡ valid)
      ↔ IsReview no_int no_text
          (or_else (Dict.lookup "frame_index" request) null)
          (or_else (Dict.lookup "label" request) (str ""))
          (or_else (Dict.lookup "note" request) (str "")))
    × ((validate_review no_int no_text request ≡ overflow_error) ↔ (
        (or_else (Dict.lookup "frame_index" request) null ≡ float pos_inf)
        ⊎ (or_else (Dict.lookup "frame_index" request) null ≡ float neg_inf)))
validate_review_lem_example = validate_review_lem no_int no_text request
