-- ===== src/Temporal/Wire.antt =====
-- The structures of flashrt_temporal/ipc_protocol.py as bytes: little-endian, in the layout that its
-- size assertions fix (four bytes of padding stand before `fps`). A float field is its bit pattern;
-- a signed one its two's complement.
pub mod Laws
use ros2_vlm_demo.Common.{
  ℕ, zero, suc, ◌+◌, ◌*◌, ◌/◌, ◌%◌, ◌^◌, Bool, List, [], ◌∷◌, ◌++◌, eqb, length,
}

-- A byte is a number below 256.
abbrev pub Bytes : Type 0
Bytes = List ℕ

-- `n` as `w` bytes, wrapped to their width as ctypes does.
abbrev pub le : ℕ → ℕ → Bytes
le zero n = []
le (suc w) n = (n % 256) ∷ le w (n / 256)

abbrev pub of_le : Bytes → ℕ
of_le [] = 0
of_le (b ∷ bs) = b + 256 * of_le bs

abbrev pub take : ℕ → Bytes → Bytes
take zero bs = []
take (suc n) [] = []
take (suc n) (b ∷ bs) = b ∷ take n bs

abbrev pub drop : ℕ → Bytes → Bytes
drop zero bs = bs
drop (suc n) [] = []
drop (suc n) (b ∷ bs) = drop n bs

-- The number at an offset.
abbrev pub field : ℕ → ℕ → Bytes → ℕ
field offset w bs = of_le (take w (drop offset bs))

abbrev pub magic : ℕ
magic = 0x45564C4D

abbrev pub version : ℕ
version = 3

abbrev pub encoding_bgr8 : ℕ
encoding_bgr8 = 1

abbrev pub max_text_bytes : ℕ
max_text_bytes = 1024 * 1024

abbrev pub max_image_bytes : ℕ
max_image_bytes = 256 * 1024 * 1024

abbrev pub max_history_entries : ℕ
max_history_entries = 256

abbrev pub max_extra_images : ℕ
max_extra_images = 31

-- `flags & (1 << k)`
abbrev pub has_flag : ℕ → ℕ → Bool
has_flag k flags = eqb (flags / 2 ^ k % 2) 1

abbrev pub flag_structured : ℕ
flag_structured = 0

abbrev pub flag_multi_image : ℕ
flag_multi_image = 2

abbrev pub flag_has_fps : ℕ
flag_has_fps = 3

abbrev pub flag_has_frame_timestamps : ℕ
flag_has_frame_timestamps = 4

abbrev pub sequence_images : ℕ
sequence_images = 0

abbrev pub sequence_temporal_images : ℕ
sequence_temporal_images = 1

abbrev pub sequence_video : ℕ
sequence_video = 2

pub record RequestHeader : Type 0 where
  pub magic_number : ℕ
  pub protocol : ℕ
  pub request_id : ℕ
  pub width : ℕ
  pub height : ℕ
  pub step : ℕ
  pub encoding : ℕ
  pub image_bytes : ℕ
  pub prompt_bytes : ℕ
  pub max_generate_length : ℕ
  pub temperature : ℕ
  pub top_p : ℕ
  pub top_k : ℕ
  pub schema_flags : ℕ
  pub system_bytes : ℕ
  pub history_count : ℕ
  pub image_count : ℕ
  pub sequence_type : ℕ
  pub fps : ℕ
  pub timestamp_count : ℕ
  pub reserved : ℕ

unfoldable pub encode_header : RequestHeader → Bytes
encode_header h =
    le 4 h.magic_number
    ++ (le 4 h.protocol
        ++ (le 8 h.request_id
            ++ (le 4 h.width
                ++ (le 4 h.height
                    ++ (le 4 h.step
                        ++ (le 4 h.encoding
                            ++ (le 4 h.image_bytes
                                ++ (le 4 h.prompt_bytes
                                    ++ (le 4 h.max_generate_length
                                        ++ (le 4 h.temperature
                                            ++ (le 4 h.top_p
                                                ++ (le 4 h.top_k
                                                    ++ (le 4 h.schema_flags
                                                        ++ (le 4 h.system_bytes
                                                            ++ (le 4 h.history_count
                                                            ++ (le 4 h.image_count
                                                            ++ (le 4 h.sequence_type
                                                            ++ (le 4 0
                                                            ++ (le 8 h.fps
                                                            ++ (le 4 h.timestamp_count
                                                            ++ le 4 h.reserved))))))))))))))))))))

unfoldable pub decode_header : Bytes → RequestHeader
decode_header bs = record {
  magic_number = field 0 4 bs;
  protocol = field 4 4 bs;
  request_id = field 8 8 bs;
  width = field 16 4 bs;
  height = field 20 4 bs;
  step = field 24 4 bs;
  encoding = field 28 4 bs;
  image_bytes = field 32 4 bs;
  prompt_bytes = field 36 4 bs;
  max_generate_length = field 40 4 bs;
  temperature = field 44 4 bs;
  top_p = field 48 4 bs;
  top_k = field 52 4 bs;
  schema_flags = field 56 4 bs;
  system_bytes = field 60 4 bs;
  history_count = field 64 4 bs;
  image_count = field 68 4 bs;
  sequence_type = field 72 4 bs;
  fps = field 80 8 bs;
  timestamp_count = field 88 4 bs;
  reserved = field 92 4 bs;
}

pub record PerImageHeader : Type 0 where
  pub width : ℕ
  pub height : ℕ
  pub step : ℕ
  pub image_bytes : ℕ

unfoldable pub encode_image_header : PerImageHeader → Bytes
encode_image_header p = le 4 p.width ++ (le 4 p.height ++ (le 4 p.step ++ le 4 p.image_bytes))

unfoldable pub decode_image_header : Bytes → PerImageHeader
decode_image_header bs = record {
  width = field 0 4 bs;
  height = field 4 4 bs;
  step = field 8 4 bs;
  image_bytes = field 12 4 bs;
}

pub record HistoryEntryHeader : Type 0 where
  pub user_bytes : ℕ
  pub asst_bytes : ℕ

unfoldable pub decode_history_header : Bytes → HistoryEntryHeader
decode_history_header bs = record { user_bytes = field 0 4 bs; asst_bytes = field 4 4 bs }

pub record ResponseHeader : Type 0 where
  pub magic_number : ℕ
  pub protocol : ℕ
  pub request_id : ℕ
  pub success : ℕ
  pub text_bytes : ℕ
  pub error_bytes : ℕ
  pub temporal_encoding_bytes : ℕ
  pub temporal_fallback_used : ℕ
  pub inference_seconds : ℕ

unfoldable pub encode_response : ResponseHeader → Bytes
encode_response r =
    le 4 r.magic_number
    ++ (le 4 r.protocol
        ++ (le 8 r.request_id
            ++ (le 4 r.success
                ++ (le 4 r.text_bytes
                    ++ (le 4 r.error_bytes
                        ++ (le 4 r.temporal_encoding_bytes
                            ++ (le 4 r.temporal_fallback_used
                                ++ (le 4 0 ++ le 8 r.inference_seconds))))))))

unfoldable pub decode_response : Bytes → ResponseHeader
decode_response bs = record {
  magic_number = field 0 4 bs;
  protocol = field 4 4 bs;
  request_id = field 8 8 bs;
  success = field 16 4 bs;
  text_bytes = field 20 4 bs;
  error_bytes = field 24 4 bs;
  temporal_encoding_bytes = field 28 4 bs;
  temporal_fallback_used = field 32 4 bs;
  inference_seconds = field 40 8 bs;
}
