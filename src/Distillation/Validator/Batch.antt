-- ===== src/Distillation/Validator/Batch.antt =====
-- How `validate_batch` of distillation/validator.py parts its samples.
use ros2_vlm_demo.Common.{
  ◌≡◌, refl, ap, ◌∙◌, arith, length, suc, ◌+◌, not, Bool, List, [], ◌∷◌, ◌++◌, map, filter,
  Bool-cases, inl, inr,
}
use mathlib.Core.List.{append_assoc, append-nil}
use ros2_vlm_demo.Distillation.Schema.{TemporalSample}
use ros2_vlm_demo.Distillation.Validator.{
  Verdict, validate_sample, validate_loop, validate_batch, is_accepted,
}

filter_parts :
    (p : TemporalSample → Bool) (ss : List TemporalSample)
    → length (filter p ss) + length (filter (λ s. not (p s)) ss) ≡ length ss
filter_parts p [] = refl
filter_parts p (s ∷ ss) = let ih = filter_parts p ss in ground arith

length-map :
    (f : TemporalSample → TemporalSample) (ss : List TemporalSample) → length (map f ss) ≡ length ss
length-map f [] = refl
length-map f (s ∷ ss) = ap suc (length-map f ss)

module _ (vs : List (TemporalSample → Verdict)) where
  abbrev accepted_ones : List TemporalSample → List TemporalSample
  accepted_ones ss = filter is_accepted (map (validate_sample vs) ss)

  abbrev rejected_ones : List TemporalSample → List TemporalSample
  rejected_ones ss = filter (λ s. not (is_accepted s)) (map (validate_sample vs) ss)

  validate_loop_lem :
      (ss accepted rejected : List TemporalSample)
      → validate_loop vs ss accepted rejected
        ≡ (accepted ++ accepted_ones ss, rejected ++ rejected_ones ss)
  unfolding validate_loop
  validate_loop_lem [] accepted rejected = rw (append-nil accepted) (rw (append-nil rejected) refl)
  validate_loop_lem (s ∷ ss) accepted rejected =
      elim (Bool-cases (is_accepted (validate_sample vs s))) [
        | inl good ↦ rw good (
            rw (validate_loop_lem ss (accepted ++ validate_sample vs s ∷ []) rejected)
              (rw (append_assoc accepted (validate_sample vs s ∷ []) (accepted_ones ss)) refl))
        | inr bad ↦ rw bad (
            rw (validate_loop_lem ss accepted (rejected ++ validate_sample vs s ∷ []))
              (rw (append_assoc rejected (validate_sample vs s ∷ []) (rejected_ones ss)) refl))
      ]

-- validate_batch returns the validated samples in their order, the accepted ones and the rejected
-- ones, none of them lost and none in both.
pub validate_batch_lem :
    (vs : List (TemporalSample → Verdict)) (ss : List TemporalSample)
    → (validate_batch vs ss ≡ (
      filter is_accepted (map (validate_sample vs) ss),
      filter (λ s. not (is_accepted s)) (map (validate_sample vs) ss),
    ))
      × (let (accepted, rejected) = validate_batch vs ss in
          length accepted + length rejected ≡ length ss)
unfolding validate_batch
validate_batch_lem vs ss = (
  validate_loop_lem vs ss [] [],
  rw (validate_loop_lem vs ss [] [])
      (filter_parts is_accepted (map (validate_sample vs) ss) ∙ length-map (validate_sample vs) ss),
)
