-- ===== src/Tests/Window.antt =====
-- Three messages of one pixel for the window of flashrt_temporal/temporal_ros_node.py.
use ros2_vlm_demo.Common.{
  ℕ, ◌+◌, ◌-◌, ◌≡◌, refl, true, none, some, [], ◌∷◌, ltb, if◌then◌else◌, arith,
}
use ros2_vlm_demo.Common.Int.{ℤ, pos, negsuc, pos_part, neg_part}
use ros2_vlm_demo.Float.{Float, fin, lt, le, zero_f, nan}
use ros2_vlm_demo.Temporal.Request.{is_finite, check_timestamps}
use ros2_vlm_demo.Temporal.Window.{
  Message, FrameRecord, Config, Node, is_config, rgb8, start, admit, convert, sample,
  ros_image_to_bgr, image_callback, Reaches, starts, calls_back,
}
use ros2_vlm_demo.Temporal.Window.Invariant.{IsValid, Reaches-IsValid}
use ros2_vlm_demo.Temporal.Window.Sent.{IsSub, check_timestamps-pending}
use ros2_vlm_demo.Tests.Temporal.{platform}

abbrev sub_ℤ : ℤ → ℤ → ℤ
sub_ℤ a b =
    let x = pos_part a + neg_part b in
    let y = neg_part a + pos_part b in if ltb x y then negsuc (y - x - 1) else pos (x - y)

abbrev sub : Float → Float → Float
sub (fin a) (fin b) = fin (sub_ℤ a b)
sub _ _ = nan

number : (b a : Float) → is_finite b ≡ true → is_finite a ≡ true → le (sub b a) (sub b a) ≡ true
number b a h k = ground arith

above :
    (b a : Float)
    → is_finite b ≡ true
    → is_finite a ≡ true
    → lt zero_f (sub b a) ≡ true
    → lt a b ≡ true
above b a h k e = ground arith

abbrev config : Config
config = record {
  sample_period = fin (pos 5);
  window_frames = 2;
  require_full = true;
  max_gap = fin (pos 12);
}

fine : is_config config ≡ true
unfolding is_config
fine = refl

abbrev message : ℕ → Message
message t = record {
  stamp = fin (pos t);
  encoding = rgb8;
  width = 1;
  height = 1;
  step = 4;
  payload = 1 ∷ 2 ∷ 3 ∷ 0 ∷ [];
}

abbrev node : Node
node = image_callback sub config (message 27) (
    image_callback sub config (message 20)
      (image_callback sub config (message 18) (image_callback sub config (message 10) start)))

reached : Reaches sub config node
reached = calls_back _ (message 27) refl (
    calls_back _ (message 20) refl
      (calls_back _ (message 18) refl (calls_back start (message 10) refl starts)))

abbrev frame : ℕ → ℕ → FrameRecord
frame t n = record {
  image = record { height = 1; width = 1; channels = 3; bytes = 3 ∷ 2 ∷ 1 ∷ [] };
  stamp_sec = fin (pos t);
  sequence = n;
}

pending_frames : node.pending ≡ some (frame 18 2 ∷ frame 27 3 ∷ [])
unfolding image_callback admit convert sample ros_image_to_bgr
pending_frames = refl

Reaches-IsValid_example : IsValid sub config node
Reaches-IsValid_example = Reaches-IsValid sub config node fine reached

is_sub : IsSub sub
is_sub = record { number = number; above = above }

check_timestamps-pending_example :
    check_timestamps platform (fin (pos 18) ∷ fin (pos 27) ∷ []) ≡ none
check_timestamps-pending_example =
    check_timestamps-pending platform sub config is_sub refl node (frame 18 2 ∷ frame 27 3 ∷ [])
      fine reached pending_frames
