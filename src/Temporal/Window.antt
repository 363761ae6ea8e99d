-- ===== src/Temporal/Window.antt =====
-- The state of `FlashRtTemporalNode` of flashrt_temporal/temporal_ros_node.py: its constructor's
-- checks, `_image_callback` and the taking of a window in `_worker_loop`. The subtraction of two
-- floats is an argument.
pub mod Invariant
pub mod Sent
use ros2_vlm_demo.Common.{
  ℕ, zero, suc, ◌+◌, ◌-◌, ◌*◌, ◌≡◌, Bool, true, false, not, ◌&&◌, ◌||◌, Option, none, some, List,
  [], ◌∷◌, ◌++◌, eqb, ltb, length, if◌then◌else◌,
}
use ros2_vlm_demo.Float.{Float, lt, le, zero_f}
use ros2_vlm_demo.Temporal.Wire.{Bytes, take, drop}
use ros2_vlm_demo.Temporal.Request.{is_finite}
use ros2_vlm_demo.Temporal.Client.{Array}

pub data Encoding : Type 0 where
  bgr8 rgb8 mono8 other_encoding : Encoding

-- sensor_msgs/Image, with the time of its header in seconds.
pub record Message : Type 0 where
  pub stamp : Float
  pub encoding : Encoding
  pub width : ℕ
  pub height : ℕ
  pub step : ℕ
  pub payload : Bytes

pub record FrameRecord : Type 0 where
  pub image : Array
  pub stamp_sec : Float
  pub sequence : ℕ

-- The parameters of the node that the window depends on.
pub record Config : Type 0 where
  pub sample_period : Float
  pub window_frames : ℕ
  pub require_full : Bool
  pub max_gap : Float

-- The state that the callback and the worker's thread share.
pub record Node : Type 0 where
  pub buffer : List FrameRecord
  pub last_sampled : Option Float
  pub sequence : ℕ
  pub pending : Option (List FrameRecord)

-- The first three ValueErrors of the constructor, and the fourth, about the two periods.
unfoldable pub is_config : Config → Bool
is_config c =
    if lt c.sample_period zero_f
    then false
    else if ltb c.window_frames 1 || ltb 32 c.window_frames
    then false
    else if le c.max_gap zero_f
    then false
    else if lt zero_f c.sample_period && le c.max_gap c.sample_period
    then false
    else true

abbrev pub start : Node
start = record { buffer = []; last_sampled = none; sequence = 0; pending = none }

-- `raw[:, :min_step]`: the first `packed` bytes of each of the rows of `step` bytes.
abbrev pub packed_rows : ℕ → ℕ → ℕ → Bytes → Bytes
packed_rows zero step packed raw = []
packed_rows (suc height) step packed raw =
    take packed raw ++ packed_rows height step packed (drop step raw)

-- `np.repeat(mono[:, :, None], 3, axis=2)`
abbrev pub repeat_mono : Bytes → Bytes
repeat_mono [] = []
repeat_mono (b ∷ bs) = b ∷ b ∷ b ∷ repeat_mono bs

-- `arr[:, :, ::-1]`
abbrev pub reverse_pixels : Bytes → Bytes
reverse_pixels (r ∷ g ∷ b ∷ rest) = b ∷ g ∷ r ∷ reverse_pixels rest
reverse_pixels rest = rest

abbrev pub channels_of : Encoding → ℕ
channels_of mono8 = 1
channels_of _ = 3

abbrev pub to_bgr : Encoding → Bytes → Bytes
to_bgr mono8 bs = repeat_mono bs
to_bgr rgb8 bs = reverse_pixels bs
to_bgr _ bs = bs

abbrev pub is_known : Encoding → Bool
is_known other_encoding = false
is_known _ = true

-- None is a ValueError, raised by the tests or by `reshape`.
unfoldable pub ros_image_to_bgr : Message → Option Array
ros_image_to_bgr m =
    if not (is_known m.encoding)
    then none
    else if ltb m.step (m.width * channels_of m.encoding)
    then none
    else if ltb (length m.payload) (m.step * m.height)
    then none
    else if not (eqb (length m.payload) (m.step * m.height))
    then none
    else some record {
      height = m.height;
      width = m.width;
      channels = 3;
      bytes =
          to_bgr m.encoding
            (packed_rows m.height m.step (m.width * channels_of m.encoding) m.payload);
    }

-- `_reset_temporal_window`
abbrev pub reset_temporal_window : Node → Node
reset_temporal_window n = record {
  buffer = [];
  last_sampled = none;
  sequence = n.sequence;
  pending = none;
}

-- `deque.append` on a deque of `maxlen` entries.
abbrev pub append_bounded : {A : Type 0} → ℕ → List A → A → List A
append_bounded maxlen [] x = if eqb maxlen 0 then [] else x ∷ []
append_bounded maxlen (y ∷ ys) x =
    if ltb (length (y ∷ ys)) maxlen then (y ∷ ys) ++ (x ∷ []) else ys ++ (x ∷ [])

module _ (sub : Float → Float → Float) (c : Config) where
  -- The window after the tests on the time, or none if the message is left out.
  unfoldable pub admit : Option Float → Float → Node → Option Node
  admit none stamp n = some n
  admit (some last) stamp n =
      let elapsed = sub stamp last in
      if lt elapsed zero_f
      then some (reset_temporal_window n)
      else if lt c.max_gap elapsed
      then some (reset_temporal_window n)
      else if lt elapsed c.sample_period
      then none
      else some n

  -- The part after the conversion.
  unfoldable pub sample : Float → Array → Node → Node
  sample stamp image n =
      let buffer =
        append_bounded c.window_frames n.buffer
          (record { image = image; stamp_sec = stamp; sequence = n.sequence + 1 }) in
      record {
        buffer = buffer;
        last_sampled = some stamp;
        sequence = n.sequence + 1;
        pending =
            if c.require_full && ltb (length buffer) c.window_frames
            then n.pending
            else some buffer;
      }

  unfoldable pub convert : Message → Node → Node
  unfolding ros_image_to_bgr sample
  convert m n = elim (ros_image_to_bgr m) [ none ↦ n | some image ↦ sample m.stamp image n ]

  unfoldable pub image_callback : Message → Node → Node
  unfolding admit convert
  image_callback m n = elim (admit n.last_sampled m.stamp n) [ none ↦ n | some n' ↦ convert m n' ]

  -- `window = self.pending` and `self.pending = None` of the worker's thread.
  abbrev pub take_window : Node → Node
  take_window n = record {
    buffer = n.buffer;
    last_sampled = n.last_sampled;
    sequence = n.sequence;
    pending = none;
  }

  -- What the node's two threads do to its state, in any order; the time of a message is finite.
  pub data Reaches : Node → Type 0 where
    starts : Reaches start
    calls_back :
        (n : Node) (m : Message)
        → is_finite m.stamp ≡ true
        → Reaches n
        → Reaches (image_callback m n)
    takes : (n : Node) → Reaches n → Reaches (take_window n)
