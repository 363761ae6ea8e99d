-- ===== src/Temporal/Video.antt =====
-- `effective_fps`, `build_video_metadata` and `build_messages` of flashrt_temporal/flashrt_ipc_worker.py.
-- Rounding arithmetic is an argument.
pub mod Indices
pub mod Sampling
use ros2_vlm_demo.Common.{
  ℕ, zero, suc, ◌+◌, ◌-◌, Bool, true, false, ◌||◌, List, [], ◌∷◌, ◌++◌, map, Option, none, some,
  eqb, leb, ltb, is_empty, length, if◌then◌else◌,
}
use ros2_vlm_demo.Float.{Float, lt, zero_f, one_f}
use ros2_vlm_demo.Temporal.Wire.{
  Bytes, has_flag, flag_has_fps, sequence_temporal_images, sequence_video,
}
use ros2_vlm_demo.Temporal.Request.{Platform, Picture, ParsedRequest}

-- `max(0.0, b - a)`, `b - a`, `statistics.median`, `1.0 / dt`, `n / fps`, and `int(round(t * 1000.0))` of
-- a time that is not negative: none is the OverflowError for a product that is infinite.
pub record Arithmetic : Type 0 where
  pub since : Float → Float → Float
  pub sub : Float → Float → Float
  pub median : List Float → Float
  pub inverse : Float → Float
  pub frames_over : ℕ → Float → Float
  pub index_of : Float → Option ℕ

pub data Backend : Type 0 where
  edge_vlm_ipc_timestamps edge_vlm_ipc_fps : Backend

pub record Metadata : Type 0 where
  pub total_num_frames : ℕ
  pub fps : Float
  pub duration : Float
  pub frames_indices : List ℕ
  pub video_backend : Backend

-- The loop over `indices`, after an index `previous`.
abbrev pub spread : ℕ → List ℕ → List ℕ
spread previous [] = []
spread previous (i ∷ is) =
    let index = if leb i previous then previous + 1 else i in index ∷ spread index is

abbrev pub spread_all : List ℕ → List ℕ
spread_all [] = []
spread_all (i ∷ is) = i ∷ spread i is

abbrev pub last_of {ℓ} : {A : Type ℓ} → A → List A → A
last_of x [] = x
last_of x (y ∷ ys) = last_of y ys

abbrev pub and_index : Option ℕ → Option (List ℕ) → Option (List ℕ)
and_index none rest = none
and_index (some i) none = none
and_index (some i) (some is) = some (i ∷ is)

-- `list(range(n))`, from `i` on.
abbrev pub range_from : ℕ → ℕ → List ℕ
range_from i zero = []
range_from i (suc n) = i ∷ range_from (i + 1) n

module _ (p : Platform) (a : Arithmetic) (timebase : Float) where
  abbrev pub differences : List Float → List Float
  differences [] = []
  differences (x ∷ []) = []
  differences (x ∷ y ∷ ts) = a.sub y x ∷ differences (y ∷ ts)

  unfoldable pub effective_fps : ParsedRequest → Float
  effective_fps req =
      if has_flag flag_has_fps req.header.schema_flags
      then p.double_of req.header.fps
      else if ltb (length req.timestamps) 2
      then one_f
      else if lt zero_f (a.median (differences req.timestamps))
      then a.inverse (a.median (differences req.timestamps))
      else one_f

  abbrev pub span_of : List Float → Float
  span_of [] = zero_f
  span_of (t ∷ []) = zero_f
  span_of (t ∷ u ∷ ts) = last_of u ts

  -- The indices of the times, each rounded; none is OverflowError.
  unfoldable pub rounded_all : List Float → Option (List ℕ)
  rounded_all [] = some []
  rounded_all (t ∷ ts) = and_index (a.index_of t) (rounded_all ts)

  abbrev pub indexed : List Float → List ℕ → Metadata
  indexed relative rounded = record {
    total_num_frames = last_of 0 (spread_all rounded) + 1;
    fps = timebase;
    duration = span_of relative;
    frames_indices = spread_all rounded;
    video_backend = edge_vlm_ipc_timestamps;
  }

  abbrev pub with_indices : List Float → Option (List ℕ) → Option Metadata
  with_indices relative none = none
  with_indices relative (some rounded) = some (indexed relative rounded)

  -- The metadata of a request with times, the first of which is `first`; none is OverflowError.
  unfoldable pub timed_metadata : Float → List Float → Option Metadata
  unfolding rounded_all
  timed_metadata first ts =
      let relative = map (λ t. a.since t first) (first ∷ ts) in
      with_indices relative (rounded_all relative)

  unfoldable pub untimed_metadata : ParsedRequest → Metadata
  unfolding effective_fps
  untimed_metadata req = record {
    total_num_frames = length req.frames;
    fps = effective_fps req;
    duration =
        if ltb 1 (length req.frames)
        then a.frames_over (length req.frames - 1) (effective_fps req)
        else zero_f;
    frames_indices = range_from 0 (length req.frames);
    video_backend = edge_vlm_ipc_fps;
  }

  unfoldable pub build_video_metadata : ParsedRequest → Option Metadata
  unfolding timed_metadata untimed_metadata
  build_video_metadata req = elim req.timestamps [
    | [] ↦ some (untimed_metadata req)
    | first ∷ ts ↦ timed_metadata first ts
  ]

pub data Content : Type 0 where
  text : Bytes → Content
  image : Picture → Content
  video : List Picture → Content

pub data Message : Type 0 where
  system user assistant : List Content → Message

abbrev pub history_messages : List (Bytes × Bytes) → List Message
history_messages [] = []
history_messages ((u, a) ∷ entries) =
    user (text u ∷ []) ∷ assistant (text a ∷ []) ∷ history_messages entries

abbrev pub is_video : ParsedRequest → Bool
is_video req =
    eqb req.header.sequence_type sequence_temporal_images
    || eqb req.header.sequence_type sequence_video

abbrev pub user_content : ParsedRequest → List Content
user_content req =
    if is_video req
    then video req.frames ∷ text req.prompt ∷ []
    else map image req.frames ++ (text req.prompt ∷ [])

unfoldable pub build_messages : ParsedRequest → List Message
build_messages req =
    (if is_empty req.system_message then [] else system (text req.system_message ∷ []) ∷ [])
    ++ (history_messages req.history ++ (user (user_content req) ∷ []))
