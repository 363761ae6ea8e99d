-- ===== src/Distillation/Controls/Twice.antt =====
-- The control target of a reversed sequence, derived twice.
use ros2_vlm_demo.Common.{
  ◌≡◌, refl, sym, ◌∙◌, String, ◌==◌, string_dec, true, false, Option, none, some, if_lem, arith,
}
use ros2_vlm_demo.Float.{Float}
use ros2_vlm_demo.Distillation.Schema.{TemporalTarget, TemporalSample}
use ros2_vlm_demo.Distillation.Evaluation.{Arithmetic}
use ros2_vlm_demo.Distillation.Controls.{
  reversed, reverse_direction, reversed_target, reverse_labelled, derive_control_target,
}

-- What is said of a sequence, its evidence's interval apart.
abbrev pub SameContent : Option TemporalTarget → Option TemporalTarget → Type 0
SameContent none none = Unit
SameContent (some t) (some u) =
    (t.change_detected ≡ u.change_detected)
    × ((t.change ≡ u.change)
        × ((t.state_start ≡ u.state_start)
            × ((t.state_end ≡ u.state_end)
                × ((t.confidence ≡ u.confidence) × (t.scene_observation ≡ u.scene_observation)))))
SameContent _ _ = ⊥

equal_lem : (t u : String) → (t == u) ≡ true → t ≡ u
equal_lem t u h = ground arith

-- Another word is left as it is.
other_direction :
    (change : String)
    → (change == "approaching") ≡ false
    → (change == "receding") ≡ false
    → (change == "accelerating") ≡ false
    → (change == "decelerating") ≡ false
    → reverse_direction change ≡ change
unfolding reverse_direction
other_direction change h1 h2 h3 h4 = rw (h1, h2, h3, h4) refl

approaching_lem : reverse_direction "approaching" ≡ "receding"
unfolding reverse_direction string_dec
approaching_lem = refl

receding_lem : reverse_direction "receding" ≡ "approaching"
unfolding reverse_direction string_dec
receding_lem = refl

accelerating_lem : reverse_direction "accelerating" ≡ "decelerating"
unfolding reverse_direction string_dec
accelerating_lem = refl

decelerating_lem : reverse_direction "decelerating" ≡ "accelerating"
unfolding reverse_direction string_dec
decelerating_lem = refl

direction_twice : (change : String) → reverse_direction (reverse_direction change) ≡ change
unfolding reverse_direction
direction_twice change =
    let P = λ (d : String). reverse_direction d ≡ change in
    if_lem P (change == "approaching") "receding" _
      (λ h. receding_lem ∙ sym (equal_lem change "approaching" h))
      (λ h1.
        if_lem P (change == "receding") "approaching" _
          (λ h. approaching_lem ∙ sym (equal_lem change "receding" h))
          (λ h2.
            if_lem P (change == "accelerating") "decelerating" _
              (λ h. decelerating_lem ∙ sym (equal_lem change "accelerating" h))
              (λ h3.
                if_lem P (change == "decelerating") "accelerating" change
                  (λ h. accelerating_lem ∙ sym (equal_lem change "decelerating" h))
                  (λ h4. other_direction change h1 h2 h3 h4))))

module _ (a : Arithmetic) (add : Float → Float → Float) where
  twice :
      (s : TemporalSample) (o : Option TemporalTarget)
      → s.target ≡ o
      → SameContent (derive_control_target a add (reverse_labelled a add s o) reversed).target o
  unfolding derive_control_target reversed_target
  twice s none e = rw e tt
  twice s (some t) e = (refl, (direction_twice t.change, (refl, (refl, (refl, refl)))))

  -- Deriving the control target of the reversed sequence twice gives back what the first target said: whether and what has changed, both states, the confidence and the observation, whatever the times and the rounding; and a sample without a target keeps none.
  pub derive_control_target_twice :
      (s : TemporalSample)
      → SameContent
          (derive_control_target a add (derive_control_target a add s reversed) reversed).target
          s.target
  unfolding derive_control_target
  derive_control_target_twice s = twice s s.target refl
