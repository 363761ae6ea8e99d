-- ===== src/Workbench/Reviews/Laws.antt =====
-- What `upsert_review` of web_console/review_store.py changes.
use ros2_vlm_demo.Common.{
  ℕ, ◌+◌, ◌≤◌, ◌<◌, String, ◌≡◌, refl, ap, ◌⊎◌, inl, inr, Bool, true, false, Option, none, some,
  List, [], ◌∷◌, ◌==◌, string_dec, eqb, any, length, if◌then◌else◌, arith,
}
use ros2_vlm_demo.Common.Dict
use ros2_vlm_demo.Common.Dict.{Dict}
use ros2_vlm_demo.Workbench.RunId.{is_safe_run_id}
use ros2_vlm_demo.Workbench.Reviews.{
  ReviewAnnotation, Store, to_dict, is_for, replacement, put, read_reviews, upsert_review,
  max_reviews_per_run,
}

-- What the store holds for a frame after a review has been put there.
abbrev pub merged : Option ReviewAnnotation → ReviewAnnotation → ReviewAnnotation
merged none a = to_dict a
merged (some old) a = replacement old a

read_reviews-insert :
    (run k : String) (rs : List ReviewAnnotation) (s : Store)
    → is_safe_run_id k ≡ true
    → read_reviews run (Dict.insert k rs s) ≡ (if k == run then rs else read_reviews run s)
unfolding read_reviews
read_reviews-insert run k rs s h = elim (string_dec k run) [
  | yes p ↦ ground (arith, Dict.lookup-insert run k rs s, ap is_safe_run_id p)
  | no n ↦ ground (arith, Dict.lookup-insert run k rs s)
]

-- Either nothing is written, or the reviews of the run are replaced by those with the new one.
upsert_review-cases :
    (writes : Bool) (a : ReviewAnnotation) (s : Store)
    → (upsert_review writes a s ≡ (false, s))
      ⊎ ((is_safe_run_id a.run_id ≡ true)
          × ((length (read_reviews a.run_id s) < max_reviews_per_run)
              ⊎ (any (is_for a.frame_index) (read_reviews a.run_id s) ≡ true))
          × (upsert_review writes a s
              ≡ (true, Dict.insert a.run_id (put a (read_reviews a.run_id s)) s)))
unfolding upsert_review
upsert_review-cases writes a s = ground arith

-- No two reviews of one frame.
abbrev pub NoTwins : List ReviewAnnotation → Type 0
NoTwins [] = Unit
NoTwins (r ∷ rs) = (any (is_for r.frame_index) rs ≡ false) × NoTwins rs

any-put :
    (i : ℕ) (a : ReviewAnnotation) (rs : List ReviewAnnotation)
    → any (is_for i) (put a rs) ≡ (if eqb a.frame_index i then true else any (is_for i) rs)
unfolding put to_dict
any-put i a [] = ground arith
any-put i a (r ∷ rs) = ground (arith, any-put i a rs)

put-NoTwins : (a : ReviewAnnotation) (rs : List ReviewAnnotation) → NoTwins rs → NoTwins (put a rs)
unfolding put to_dict
put-NoTwins a [] h = (refl, tt)
put-NoTwins a (r ∷ rs) (fresh, rest) =
    ground (arith, put-NoTwins a rs rest, any-put r.frame_index a rs)

length-put :
    (a : ReviewAnnotation) (rs : List ReviewAnnotation)
    → length (put a rs) ≡ (if any (is_for a.frame_index) rs then length rs else length rs + 1)
unfolding put
length-put a [] = refl
length-put a (r ∷ rs) = ground (arith, length-put a rs)

-- Each file has one review for a frame at most, and no more reviews than the cap.
abbrev pub IsCapped : Store → Type 0
IsCapped s =
    (run : String)
    → NoTwins (read_reviews run s) × (length (read_reviews run s) ≤ max_reviews_per_run)

-- An upsert keeps at most one review for each frame of a run, and at most 10000 reviews in a run.
pub upsert_review-IsCapped :
    (writes : Bool) (a : ReviewAnnotation) (s : Store)
    → IsCapped s
    → IsCapped (upsert_review writes a s).1
upsert_review-IsCapped writes a s h run = elim (upsert_review-cases writes a s) [
  | inl kept ↦ rw kept (h run)
  | inr (safe, room, put_there) ↦
      let rs = read_reviews a.run_id s in
      let (single, few) = h a.run_id in
      let (single', few') = h run in
      let twins = put-NoTwins a rs single in
      rw (put_there, read_reviews-insert run a.run_id (put a rs) s safe)
        (ground (arith, length-put a rs, twins))
]
