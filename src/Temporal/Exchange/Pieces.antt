-- ===== src/Temporal/Exchange/Pieces.antt =====
-- The pieces of a client's request as the worker reads them.
use mathlib.Core.Path.{ap₂}
use mathlib.Core.List.{append_assoc}
use ros2_vlm_demo.Common.{
  ℕ, zero, suc, ◌*◌, ◌^◌, ◌≤◌, ◌<◌, ◌≡◌, refl, ap, ◌∙◌, true, none, some, List, [], ◌∷◌, ◌++◌, map,
  eqb, length, length-append, arith, All,
}
use ros2_vlm_demo.Float.{Float}
use ros2_vlm_demo.Temporal.Wire.{
  Bytes, take, drop, RequestHeader, encode_image_header, max_image_bytes, has_flag,
  flag_has_frame_timestamps,
}
use ros2_vlm_demo.Temporal.Wire.Laws.{
  of_le-le_8, ImageFits, length-encode_image_header, decode-encode_image_header,
}
use ros2_vlm_demo.Temporal.Receive.Exact.{IsRecv, recv_exact_lem}
use ros2_vlm_demo.Temporal.Stream.{got, recv, bind-got}
use ros2_vlm_demo.Temporal.Request.{
  Platform, Picture, read_image_headers, check_image, swap_channels, read_frames, doubles,
  check_timestamps, read_timestamps, read_text,
}
use ros2_vlm_demo.Temporal.Client.{Encoder, Array, image_header, image_headers, payloads}
use ros2_vlm_demo.Temporal.Client as Client

eqb_self : (n : ℕ) → eqb n n ≡ true
eqb_self n = ground arith

take_prefix : (n : ℕ) (a rest : Bytes) → length a ≡ n → take n (a ++ rest) ≡ a
take_prefix zero [] rest e = refl
take_prefix zero (b ∷ a) rest e = absurd (omega arith)
take_prefix (suc n) [] rest e = absurd (omega arith)
take_prefix (suc n) (b ∷ a) rest e = ap (λ t. b ∷ t) (take_prefix n a rest (omega arith))

drop_prefix : (n : ℕ) (a rest : Bytes) → length a ≡ n → drop n (a ++ rest) ≡ rest
drop_prefix zero [] rest e = refl
drop_prefix zero (b ∷ a) rest e = absurd (omega arith)
drop_prefix (suc n) [] rest e = absurd (omega arith)
drop_prefix (suc n) (b ∷ a) rest e = drop_prefix n a rest (omega arith)

-- What stands at the front of the stream is received.
pub recv_prefix :
    (chunk : ℕ → ℕ → ℕ)
    → IsRecv chunk
    → (n : ℕ) (a rest : Bytes) → length a ≡ n
    → recv chunk n (a ++ rest) ≡ got a rest
unfolding recv
recv_prefix chunk is_recv n a rest e =
    rw (recv_exact_lem chunk is_recv n (a ++ rest), take_prefix n a rest e, drop_prefix n a rest e)
      (ground (arith, length-append a rest))

-- An array that the worker accepts.
pub record IsFrame (a : Array) : Type 0 where
  pub wide : 0 < a.width
  pub high : 0 < a.height
  pub bgr : a.channels ≡ 3
  pub packed : length a.bytes ≡ a.width * 3 * a.height
  pub small : a.width * 3 * a.height ≤ max_image_bytes

step_small : (w h : ℕ) → 0 < h → w * 3 * h ≤ max_image_bytes → w * 3 < 2 ^ 32
step_small w h k small = grind arith

width_small : (w h : ℕ) → 0 < h → w * 3 * h ≤ max_image_bytes → w < 2 ^ 32
width_small w h k small = omega (arith, step_small w h k small)

height_small : (w h : ℕ) → 0 < w → w * 3 * h ≤ max_image_bytes → h < 2 ^ 32
height_small w h k small = grind arith

pub image_fits : (a : Array) → IsFrame a → ImageFits (image_header a)
image_fits a f =
    let few = f.packed in
    let small = f.small in
    record {
      width = width_small a.width a.height f.high small;
      height = height_small a.width a.height f.wide small;
      step = step_small a.width a.height f.high small;
      image_bytes = omega arith;
    }

module _ (p : Platform) (is_recv : IsRecv p.chunk) where
  check_image_lem : (a : Array) → IsFrame a → check_image p (image_header a) ≡ none
  unfolding check_image
  check_image_lem a f =
      let h = f.small in let e = f.packed in let w = f.wide in let k = f.high in ground arith

  pub read_image_headers_lem :
      (frames : List Array) (rest : Bytes)
      → All IsFrame frames
      → read_image_headers p (length frames) (image_headers frames ++ rest)
        ≡ got (map image_header frames) rest
  unfolding read_image_headers
  read_image_headers_lem [] rest f = refl
  read_image_headers_lem (a ∷ frames) rest (f, fs) =
      rw (append_assoc (encode_image_header (image_header a)) (image_headers frames) rest) (
        bind-got (recv p.chunk 16) _ _ (
          recv_prefix p.chunk is_recv 16 (encode_image_header (image_header a))
            (image_headers frames ++ rest) (length-encode_image_header (image_header a)))
        ∙ rw (decode-encode_image_header (image_header a) (image_fits a f), check_image_lem a f)
            (bind-got (read_image_headers p (length frames)) _ _
              (read_image_headers_lem frames rest fs)))

  abbrev pub picture : Array → Picture
  picture a = record { width = a.width; height = a.height; rgb = swap_channels p a.bytes }

  pub read_frames_lem :
      (frames : List Array) (rest : Bytes)
      → All IsFrame frames
      → read_frames p (map image_header frames) (payloads frames ++ rest)
        ≡ got (map picture frames) rest
  unfolding read_frames
  read_frames_lem [] rest f = refl
  read_frames_lem (a ∷ frames) rest (f, fs) = rw (append_assoc a.bytes (payloads frames) rest) (
      bind-got (recv p.chunk (length a.bytes)) _ _
        (recv_prefix p.chunk is_recv (length a.bytes) a.bytes (payloads frames ++ rest) refl)
      ∙ rw (eqb_self (a.width * 3))
          (bind-got (read_frames p (map image_header frames)) _ _ (read_frames_lem frames rest fs)))

  module _ (e : Encoder) where
    -- A value that is a double of the platform.
    abbrev pub IsDouble : Float → Type 0
    IsDouble t = (e.bits_of t < 2 ^ 64) × (p.double_of (e.bits_of t) ≡ t)

    doubles_lem :
        (ts : List Float) → All IsDouble ts → doubles p (length ts) (Client.doubles e ts) ≡ ts
    doubles_lem [] h = refl
    doubles_lem (t ∷ ts) ((small, back), h) =
        ap₂ (λ x xs. x ∷ xs) (ap p.double_of (of_le-le_8 (e.bits_of t) small) ∙ back)
          (doubles_lem ts h)

    length-doubles : (ts : List Float) → length (Client.doubles e ts) ≡ length ts * 8
    length-doubles [] = refl
    length-doubles (t ∷ ts) = omega (arith, length-doubles ts)

    pub read_timestamps_lem :
        (h : RequestHeader) (ts : List Float) (rest : Bytes)
        → has_flag flag_has_frame_timestamps h.schema_flags ≡ true
        → h.timestamp_count ≡ length ts
        → All IsDouble ts
        → check_timestamps p ts ≡ none
        → read_timestamps p h (Client.doubles e ts ++ rest) ≡ got ts rest
    unfolding read_timestamps
    read_timestamps_lem h ts rest flag count all fine =
        rw (flag, count)
          (bind-got (recv p.chunk (length ts * 8)) _ _ (
              recv_prefix p.chunk is_recv (length ts * 8) (Client.doubles e ts) rest
                (length-doubles ts))
            ∙ rw (doubles_lem ts all, fine) refl)

    pub read_text_lem :
        (t rest : Bytes)
        → p.decode_text (e.encode_text t) ≡ some t
        → read_text p (length (e.encode_text t)) (e.encode_text t ++ rest) ≡ got t rest
    read_text_lem t rest back =
        bind-got (recv p.chunk (length (e.encode_text t))) _ _
          (recv_prefix p.chunk is_recv (length (e.encode_text t)) (e.encode_text t) rest refl)
        ∙ rw back refl
