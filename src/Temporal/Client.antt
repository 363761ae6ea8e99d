-- ===== src/Temporal/Client.antt =====
-- `IpcClient.infer` of flashrt_temporal/temporal_ros_node.py: the bytes of a request. An array has
-- three dimensions; UTF-8 and the bit pattern of a double are arguments.
use ros2_vlm_demo.Common.{
  ℕ, ◌+◌, ◌*◌, not, ◌||◌, List, [], ◌∷◌, ◌++◌, eqb, is_empty, length, if◌then◌else◌, any,
}
use ros2_vlm_demo.Float.{Float}
use ros2_vlm_demo.Temporal.Wire.{
  Bytes, le, magic, version, encoding_bgr8, sequence_images, sequence_video, RequestHeader,
  encode_header, PerImageHeader, encode_image_header,
}

-- `bits_of` is a double's pattern, `one_single` that of 1.0 as a c_float.
pub record Encoder : Type 0 where
  pub encode_text : Bytes → Bytes
  pub bits_of : Float → ℕ
  pub one_single : ℕ

-- A contiguous array of bytes.
pub record Array : Type 0 where
  pub height : ℕ
  pub width : ℕ
  pub channels : ℕ
  pub bytes : Bytes

pub data Refusal : Type 0 where
  no_frames timestamps_mismatch unsupported_sequence not_bgr8 : Refusal

-- `IpcClient`, as far as a request changes it.
pub record IpcClient : Type 0 where
  pub next_request_id : ℕ

pub data Sent : Type 0 where
  sent : RequestHeader → Bytes → IpcClient → Sent
  refused : Refusal → IpcClient → Sent

abbrev pub image_header : Array → PerImageHeader
image_header a = record {
  width = a.width;
  height = a.height;
  step = a.width * 3;
  image_bytes = length a.bytes;
}

abbrev pub image_headers : List Array → Bytes
image_headers [] = []
image_headers (a ∷ as_) = encode_image_header (image_header a) ++ image_headers as_

abbrev pub payloads : List Array → Bytes
payloads [] = []
payloads (a ∷ as_) = a.bytes ++ payloads as_

module _ (e : Encoder) where
  abbrev pub doubles : List Float → Bytes
  doubles [] = []
  doubles (t ∷ ts) = le 8 (e.bits_of t) ++ doubles ts

  -- HAS_FRAME_TIMESTAMPS is 16 and MULTI_IMAGE is 4. A c_float 0.0 and a c_double 0.0 are zero bits.
  abbrev pub request_header : ℕ → Array → List Array → List Float → Bytes → ℕ → ℕ → RequestHeader
  request_header request_id first extras timestamps prompt max_tokens sequence_type = record {
    magic_number = magic;
    protocol = version;
    request_id = request_id;
    width = first.width;
    height = first.height;
    step = first.width * 3;
    encoding = encoding_bgr8;
    image_bytes = length first.bytes;
    prompt_bytes = length (e.encode_text prompt);
    max_generate_length = max_tokens;
    temperature = 0;
    top_p = e.one_single;
    top_k = 1;
    schema_flags = if is_empty extras then 16 else 20;
    system_bytes = 0;
    history_count = 0;
    image_count = if is_empty extras then 0 else length extras + 1;
    sequence_type = sequence_type;
    fps = 0;
    timestamp_count = length timestamps;
    reserved = 0;
  }

  abbrev pub request_bytes : RequestHeader → Array → List Array → List Float → Bytes → Bytes
  request_bytes h first extras timestamps prompt =
      encode_header h
      ++ (image_headers extras
          ++ (first.bytes ++ (payloads extras ++ (doubles timestamps ++ e.encode_text prompt))))

  -- The part of `infer` after the first frame has been taken.
  unfoldable pub send_first : IpcClient → Array → List Array → List Float → Bytes → ℕ → ℕ → Sent
  send_first client first extras timestamps prompt max_tokens sequence_type =
      let request_id = client.next_request_id in
      let client' : IpcClient = record { next_request_id = request_id + 1 } in
      let h = request_header request_id first extras timestamps prompt max_tokens sequence_type in
      if not (eqb (length extras + 1) (length timestamps))
      then refused timestamps_mismatch client
      else if not (eqb sequence_type sequence_images || eqb sequence_type sequence_video)
      then refused unsupported_sequence client
      else if any (λ a. not (eqb a.channels 3)) (first ∷ extras)
      then refused not_bgr8 client'
      else sent h (request_bytes h first extras timestamps prompt) client'

  unfoldable pub send_request : IpcClient → List Array → List Float → Bytes → ℕ → ℕ → Sent
  unfolding send_first
  send_request client [] timestamps prompt max_tokens sequence_type = refused no_frames client
  send_request client (first ∷ extras) timestamps prompt max_tokens sequence_type =
      send_first client first extras timestamps prompt max_tokens sequence_type
