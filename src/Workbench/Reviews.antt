-- ===== src/Workbench/Reviews.antt =====
-- web_console/review_store.py: the reviews of a run, at most one for each frame. The file of a run is
-- the list of the records that `to_dict` writes; only the store writes it. A failing write is an
-- argument, `writes`.
pub mod Laws
pub mod Request
use ros2_vlm_demo.Common.{
  ℕ, suc, String, Bool, true, false, not, ◌&&◌, Option, none, some, List, [], ◌∷◌, ◌==◌, eqb, leb,
  ltb, any, length, if◌then◌else◌,
}
use ros2_vlm_demo.Common.Dict
use ros2_vlm_demo.Common.Dict.{Dict}
use ros2_vlm_demo.Workbench.RunId.{is_safe_run_id}

-- A frame index that `validate_review` lets through is not negative.
pub record ReviewAnnotation : Type 0 where
  pub run_id : String
  pub frame_index : ℕ
  pub label : String
  pub note : String
  pub created_at : String
  pub updated_at : String
  pub schema_version : ℕ

abbrev pub max_reviews_per_run : ℕ
max_reviews_per_run = 10000

-- `a or b` on texts.
abbrev pub text_or : String → String → String
text_or a b = if a == "" then b else a

unfoldable pub to_dict : ReviewAnnotation → ReviewAnnotation
to_dict a = record a { updated_at = text_or a.updated_at a.created_at }

abbrev pub is_for : ℕ → ReviewAnnotation → Bool
is_for i r = eqb r.frame_index i

-- What replaces `old`: the first time of creation is kept.
abbrev pub replacement : ReviewAnnotation → ReviewAnnotation → ReviewAnnotation
replacement old a = record (to_dict a) { created_at = text_or old.created_at a.created_at }

-- The loop that replaces the first review of the frame, and the append when there is none.
unfoldable pub put : ReviewAnnotation → List ReviewAnnotation → List ReviewAnnotation
unfolding to_dict
put a [] = to_dict a ∷ []
put a (r ∷ rs) =
    let rest = put a rs in if is_for a.frame_index r then replacement r a ∷ rs else r ∷ rest

abbrev pub Store : Type 0
Store = Dict (List ReviewAnnotation)

abbrev pub or_empty : Option (List ReviewAnnotation) → List ReviewAnnotation
or_empty none = []
or_empty (some rs) = rs

-- The reviews of a run; an unsafe identifier has none.
unfoldable pub read_reviews : String → Store → List ReviewAnnotation
read_reviews run_id s = if is_safe_run_id run_id then or_empty (Dict.lookup run_id s) else []

unfoldable pub upsert_review : Bool → ReviewAnnotation → Store → Bool × Store
unfolding put read_reviews
upsert_review writes a s =
    let reviews = read_reviews a.run_id s in
    if not (is_safe_run_id a.run_id)
    then (false, s)
    else if leb max_reviews_per_run (length reviews) && not (any (is_for a.frame_index) reviews)
    then (false, s)
    else if writes
    then (true, Dict.insert a.run_id (put a reviews) s)
    else (false, s)

-- One step of a stable insertion sort by frame index.
unfoldable pub place : ReviewAnnotation → List ReviewAnnotation → List ReviewAnnotation
place r [] = r ∷ []
place r (x ∷ xs) =
    let rest = place r xs in if leb r.frame_index x.frame_index then r ∷ x ∷ xs else x ∷ rest

unfoldable pub by_frame : List ReviewAnnotation → List ReviewAnnotation
unfolding place
by_frame [] = []
by_frame (r ∷ rs) = place r (by_frame rs)

unfoldable pub get_reviews : String → Store → List ReviewAnnotation
unfolding read_reviews by_frame
get_reviews run_id s = by_frame (read_reviews run_id s)

-- The loop of `get_review_for_frame`.
unfoldable pub first_for : ℕ → List ReviewAnnotation → Option ReviewAnnotation
first_for i [] = none
first_for i (r ∷ rs) = let rest = first_for i rs in if is_for i r then some r else rest

unfoldable pub get_review_for_frame : String → ℕ → Store → Option ReviewAnnotation
unfolding get_reviews first_for
get_review_for_frame run_id i s = first_for i (get_reviews run_id s)
