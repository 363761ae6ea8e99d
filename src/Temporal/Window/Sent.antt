-- ===== src/Temporal/Window/Sent.antt =====
-- The worker does not refuse the times of a window that the node sends.
use mathlib.Core.Option.{some-injective}
use ros2_vlm_demo.Common.{
  ◌≡◌, refl, true, false, not, Option, none, some, List, [], ◌∷◌, map, any, arith,
}
use ros2_vlm_demo.Float.{Float, lt, le, zero_f}
use ros2_vlm_demo.Temporal.Request.{Platform, is_finite, steps_back, check_timestamps}
use ros2_vlm_demo.Temporal.Window.{FrameRecord, Config, Node, is_config, Reaches}
use ros2_vlm_demo.Temporal.Window.Invariant.{Chain, HasFiniteTimes, Pending, Reaches-IsValid}

-- The difference of two finite doubles is a number, above zero only if the first is above the second.
pub record IsSub (sub : Float → Float → Float) : Type 0 where
  pub number :
      (b a : Float) → is_finite b ≡ true → is_finite a ≡ true → le (sub b a) (sub b a) ≡ true
  pub above :
      (b a : Float)
      → is_finite b ≡ true
      → is_finite a ≡ true
      → lt zero_f (sub b a) ≡ true
      → lt a b ≡ true

above_zero :
    (d p : Float) → le d d ≡ true → lt d p ≡ false → lt zero_f p ≡ true → lt zero_f d ≡ true
above_zero d p n h k = ground arith

lt-le : (a b : Float) → lt a b ≡ true → le b a ≡ false
lt-le a b h = ground arith

module _ (p : Platform) (sub : Float → Float → Float) (c : Config) (is_sub : IsSub sub)
    (apart : lt zero_f c.sample_period ≡ true) where
  abbrev pub times : List FrameRecord → List Float
  times xs = map (λ r. r.stamp_sec) xs

  rising :
      (xs : List FrameRecord)
      → Chain sub c xs
      → HasFiniteTimes sub c xs
      → steps_back p (times xs) ≡ false
  unfolding steps_back
  rising [] ch f = refl
  rising (a ∷ []) ch f = refl
  rising (a ∷ b ∷ xs) (((back, (late, soon)), next), ch) (fa, (fb, fs)) =
      let d = sub b.stamp_sec a.stamp_sec in
      let later =
        is_sub.above b.stamp_sec a.stamp_sec fb fa
          (above_zero d c.sample_period (is_sub.number b.stamp_sec a.stamp_sec fb fa) soon apart) in
      rw (lt-le a.stamp_sec b.stamp_sec later) (rising (b ∷ xs) ch (fb, fs))

  finite_lem :
      (xs : List FrameRecord)
      → HasFiniteTimes sub c xs
      → any (λ t. not (is_finite t)) (times xs) ≡ false
  finite_lem [] f = refl
  finite_lem (a ∷ xs) (fa, fs) = rw (fa) (finite_lem xs fs)

  check_lem :
      (pending : Option (List FrameRecord)) (xs : List FrameRecord)
      → Pending sub c pending
      → pending ≡ some xs
      → check_timestamps p (times xs) ≡ none
  unfolding check_timestamps
  check_lem none xs v e = ground arith
  check_lem (some ys) xs (w, _) e =
      rw⁻¹ (some-injective ys xs e) (rw (finite_lem ys w.finite, rising ys w.chain w.finite) refl)

  -- If the sample period is above zero, then the times of every window that is pending in a reachable state pass the worker's tests: they are finite and strictly increasing.
  pub check_timestamps-pending :
      (n : Node) (xs : List FrameRecord)
      → is_config c ≡ true
      → Reaches sub c n
      → n.pending ≡ some xs
      → check_timestamps p (times xs) ≡ none
  check_timestamps-pending n xs fine reached e =
      let v = Reaches-IsValid sub c n fine reached in check_lem n.pending xs v.pending e
