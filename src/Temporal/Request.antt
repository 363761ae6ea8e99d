-- ===== src/Temporal/Request.antt =====
-- `_validate_header` and `read_request` of flashrt_temporal/flashrt_ipc_worker.py. A text is the list of
-- its code points. UTF-8 and the double of a bit pattern are arguments.
pub mod Parsed
use ros2_vlm_demo.Common.{
  ℕ, zero, suc, ◌+◌, ◌-◌, ◌*◌, Bool, true, false, not, ◌&&◌, ◌||◌, Option, none, some, List, [],
  ◌∷◌, eqb, ltb, is_empty, length, if◌then◌else◌, any,
}
use ros2_vlm_demo.Float.{Float, nan, neg_inf, pos_inf, fin, lt, le, zero_f}
use ros2_vlm_demo.Temporal.Wire.{
  Bytes, take, drop, of_le, magic, version, encoding_bgr8, max_text_bytes, max_image_bytes,
  max_history_entries, max_extra_images, has_flag, flag_structured, flag_multi_image, flag_has_fps,
  flag_has_frame_timestamps, sequence_images, sequence_temporal_images, sequence_video,
  RequestHeader, decode_header, PerImageHeader, decode_image_header, HistoryEntryHeader,
  decode_history_header,
}
use ros2_vlm_demo.Temporal.Stream.{
  Reader, ◌>>=◌, ◌>>◌, give, check, decoded, recv, eof_error, unicode_error, Fault, bad_magic,
  bad_pixels, zero_frame, bad_step, bad_image_size, image_too_large, text_too_large,
  too_many_entries, bad_sequence_type, bad_fps, fps_without_flag, bad_image_count,
  bad_timestamp_count, timestamps_without_flag, bad_extra_header, infinite_timestamp,
  timestamps_not_increasing, entry_too_large,
}

-- What the worker takes from its platform and its peer.
pub record Platform : Type 0 where
  pub chunk : ℕ → ℕ → ℕ
  pub decode_text : Bytes → Option Bytes
  pub double_of : ℕ → Float

-- A PIL image in RGB.
pub record Picture : Type 0 where
  pub width : ℕ
  pub height : ℕ
  pub rgb : Bytes

pub record ParsedRequest : Type 0 where
  pub header : RequestHeader
  pub frames : List Picture
  pub timestamps : List Float
  pub system_message : Bytes
  pub prompt : Bytes
  pub history : List (Bytes × Bytes)

-- `math.isfinite`
abbrev pub is_finite : Float → Bool
is_finite (fin z) = true
is_finite _ = false

-- `v == 0.0`
abbrev pub is_zero : Float → Bool
is_zero v = le v zero_f && le zero_f v

abbrev pub is_sequence_type : ℕ → Bool
is_sequence_type t =
    eqb t sequence_images || (eqb t sequence_temporal_images || eqb t sequence_video)

module _ (p : Platform) where
  unfoldable pub validate_header : RequestHeader → Option Fault
  validate_header h =
      let has_fps = has_flag flag_has_fps h.schema_flags in
      let fps = p.double_of h.fps in
      if not (eqb h.magic_number magic) || not (eqb h.protocol version)
      then some bad_magic
      else if not (eqb h.encoding encoding_bgr8)
      then some bad_pixels
      else if eqb h.width 0 || eqb h.height 0
      then some zero_frame
      else if not (eqb h.step (h.width * 3))
      then some bad_step
      else if not (eqb h.image_bytes (h.step * h.height))
      then some bad_image_size
      else if ltb max_image_bytes h.image_bytes
      then some image_too_large
      else if ltb max_text_bytes h.prompt_bytes || ltb max_text_bytes h.system_bytes
      then some text_too_large
      else if ltb max_history_entries h.history_count
      then some too_many_entries
      else if not (is_sequence_type h.sequence_type)
      then some bad_sequence_type
      else if has_fps && (not (is_finite fps) || le fps zero_f)
      then some bad_fps
      else if not has_fps && not (is_zero fps)
      then some fps_without_flag
      else none

  abbrev pub image_count : RequestHeader → ℕ
  image_count h = if has_flag flag_multi_image h.schema_flags then h.image_count else 1

  unfoldable pub check_counts : RequestHeader → Option Fault
  check_counts h =
      let is_multi = has_flag flag_multi_image h.schema_flags in
      let has_timestamps = has_flag flag_has_frame_timestamps h.schema_flags in
      if is_multi && (ltb (image_count h) 2 || ltb (max_extra_images + 1) (image_count h))
      then some bad_image_count
      else if has_timestamps && not (eqb h.timestamp_count (image_count h))
      then some bad_timestamp_count
      else if not has_timestamps && not (eqb h.timestamp_count 0)
      then some timestamps_without_flag
      else none

  unfoldable pub check_image : PerImageHeader → Option Fault
  check_image i =
      if eqb i.width 0
        || (eqb i.height 0
            || (not (eqb i.step (i.width * 3))
                || (not (eqb i.image_bytes (i.step * i.height))
                    || ltb max_image_bytes i.image_bytes)))
      then some bad_extra_header
      else none

  unfoldable pub read_image_headers : ℕ → Reader (List PerImageHeader)
  read_image_headers zero = give []
  read_image_headers (suc n) = do
    bs ← recv p.chunk 16
    check (check_image (decode_image_header bs))
    rest ← read_image_headers n
    give (decode_image_header bs ∷ rest)

  -- `arr[:, :, ::-1]`
  abbrev pub swap_channels : Bytes → Bytes
  swap_channels (b ∷ g ∷ r ∷ rest) = r ∷ g ∷ b ∷ swap_channels rest
  swap_channels rest = rest

  -- `bgr_payload_to_pil`; the check of the header has fixed the size of the payload.
  unfoldable pub bgr_payload_to_pil : Bytes → PerImageHeader → Reader Picture
  bgr_payload_to_pil payload i = do
    check (if not (eqb i.step (i.width * 3)) then some bad_step else none)
    give record { width = i.width; height = i.height; rgb = swap_channels payload }

  unfoldable pub read_frames : List PerImageHeader → Reader (List Picture)
  unfolding bgr_payload_to_pil
  read_frames [] = give []
  read_frames (i ∷ is) = do
    payload ← recv p.chunk i.image_bytes
    frame ← bgr_payload_to_pil payload i
    frames ← read_frames is
    give (frame ∷ frames)

  -- The doubles of `n` times eight bytes.
  abbrev pub doubles : ℕ → Bytes → List Float
  doubles zero bs = []
  doubles (suc n) bs = p.double_of (of_le (take 8 bs)) ∷ doubles n (drop 8 bs)

  -- `any(b <= a for a, b in zip(ts, ts[1:]))`
  unfoldable pub steps_back : List Float → Bool
  steps_back [] = false
  steps_back (a ∷ []) = false
  steps_back (a ∷ b ∷ ts) = let rest = steps_back (b ∷ ts) in if le b a then true else rest

  unfoldable pub check_timestamps : List Float → Option Fault
  unfolding steps_back
  check_timestamps ts =
      if any (λ t. not (is_finite t)) ts
      then some infinite_timestamp
      else if steps_back ts
      then some timestamps_not_increasing
      else none

  unfoldable pub read_timestamps : RequestHeader → Reader (List Float)
  read_timestamps h =
      if has_flag flag_has_frame_timestamps h.schema_flags
      then (do
        raw ← recv p.chunk (h.timestamp_count * 8)
        check (check_timestamps (doubles h.timestamp_count raw))
        give (doubles h.timestamp_count raw))
      else give []

  abbrev pub read_text : ℕ → Reader Bytes
  read_text n = do bs ← recv p.chunk n; decoded (p.decode_text bs)

  unfoldable pub read_system : RequestHeader → Reader Bytes
  read_system h =
      if has_flag flag_structured h.schema_flags && not (eqb h.system_bytes 0)
      then read_text h.system_bytes
      else give []

  unfoldable pub read_entries : ℕ → Reader (List (Bytes × Bytes))
  read_entries zero = give []
  read_entries (suc n) = do
    bs ← recv p.chunk 8
    let entry = decode_history_header bs
    check (
        if ltb max_text_bytes entry.user_bytes || ltb max_text_bytes entry.asst_bytes
        then some entry_too_large
        else none)
    user ← read_text entry.user_bytes
    asst ← read_text entry.asst_bytes
    rest ← read_entries n
    give ((user, asst) ∷ rest)

  unfoldable pub read_history : RequestHeader → Reader (List (Bytes × Bytes))
  read_history h =
      if has_flag flag_structured h.schema_flags then read_entries h.history_count else give []

  abbrev pub primary : RequestHeader → PerImageHeader
  primary h = record {
    width = h.width;
    height = h.height;
    step = h.step;
    image_bytes = h.image_bytes;
  }

  unfoldable pub read_request : Reader ParsedRequest
  read_request = do
    bs ← recv p.chunk 96
    let h = decode_header bs
    check (validate_header h)
    check (check_counts h)
    extra ← read_image_headers (image_count h - 1)
    frames ← read_frames (primary h ∷ extra)
    timestamps ← read_timestamps h
    system_message ← read_system h
    prompt ← read_text h.prompt_bytes
    history ← read_history h
    give record {
      header = h;
      frames = frames;
      timestamps = timestamps;
      system_message = system_message;
      prompt = prompt;
      history = history;
    }
