-- ===== src/Temporal/Wire/Laws.antt =====
-- What is written as a structure is read back.
use ros2_vlm_demo.Common.{ℕ, ◌^◌, ◌<◌, ◌≡◌, refl, length, arith}
use ros2_vlm_demo.Temporal.Wire.{
  le, of_le, RequestHeader, encode_header, decode_header, PerImageHeader, encode_image_header,
  decode_image_header,
}

pub of_le-le_4 : (n : ℕ) → n < 2 ^ 32 → of_le (le 4 n) ≡ n
of_le-le_4 n h = omega arith

pub of_le-le_8 : (n : ℕ) → n < 2 ^ 64 → of_le (le 8 n) ≡ n
of_le-le_8 n h = omega arith

-- Every number fits into its field.
pub record Fits (h : RequestHeader) : Type 0 where
  pub magic_number : h.magic_number < 2 ^ 32
  pub protocol : h.protocol < 2 ^ 32
  pub request_id : h.request_id < 2 ^ 64
  pub width : h.width < 2 ^ 32
  pub height : h.height < 2 ^ 32
  pub step : h.step < 2 ^ 32
  pub encoding : h.encoding < 2 ^ 32
  pub image_bytes : h.image_bytes < 2 ^ 32
  pub prompt_bytes : h.prompt_bytes < 2 ^ 32
  pub max_generate_length : h.max_generate_length < 2 ^ 32
  pub temperature : h.temperature < 2 ^ 32
  pub top_p : h.top_p < 2 ^ 32
  pub top_k : h.top_k < 2 ^ 32
  pub schema_flags : h.schema_flags < 2 ^ 32
  pub system_bytes : h.system_bytes < 2 ^ 32
  pub history_count : h.history_count < 2 ^ 32
  pub image_count : h.image_count < 2 ^ 32
  pub sequence_type : h.sequence_type < 2 ^ 32
  pub fps : h.fps < 2 ^ 64
  pub timestamp_count : h.timestamp_count < 2 ^ 32
  pub reserved : h.reserved < 2 ^ 32

pub length-encode_header : (h : RequestHeader) → length (encode_header h) ≡ 96
unfolding encode_header
length-encode_header h = refl

pub decode_header-encode_header : (h : RequestHeader) → Fits h → decode_header (encode_header h) ≡ h
unfolding encode_header decode_header
decode_header-encode_header h f = λ i. record {
  magic_number = of_le-le_4 h.magic_number f.magic_number i;
  protocol = of_le-le_4 h.protocol f.protocol i;
  request_id = of_le-le_8 h.request_id f.request_id i;
  width = of_le-le_4 h.width f.width i;
  height = of_le-le_4 h.height f.height i;
  step = of_le-le_4 h.step f.step i;
  encoding = of_le-le_4 h.encoding f.encoding i;
  image_bytes = of_le-le_4 h.image_bytes f.image_bytes i;
  prompt_bytes = of_le-le_4 h.prompt_bytes f.prompt_bytes i;
  max_generate_length = of_le-le_4 h.max_generate_length f.max_generate_length i;
  temperature = of_le-le_4 h.temperature f.temperature i;
  top_p = of_le-le_4 h.top_p f.top_p i;
  top_k = of_le-le_4 h.top_k f.top_k i;
  schema_flags = of_le-le_4 h.schema_flags f.schema_flags i;
  system_bytes = of_le-le_4 h.system_bytes f.system_bytes i;
  history_count = of_le-le_4 h.history_count f.history_count i;
  image_count = of_le-le_4 h.image_count f.image_count i;
  sequence_type = of_le-le_4 h.sequence_type f.sequence_type i;
  fps = of_le-le_8 h.fps f.fps i;
  timestamp_count = of_le-le_4 h.timestamp_count f.timestamp_count i;
  reserved = of_le-le_4 h.reserved f.reserved i;
}

pub record ImageFits (p : PerImageHeader) : Type 0 where
  pub width : p.width < 2 ^ 32
  pub height : p.height < 2 ^ 32
  pub step : p.step < 2 ^ 32
  pub image_bytes : p.image_bytes < 2 ^ 32

pub length-encode_image_header : (p : PerImageHeader) → length (encode_image_header p) ≡ 16
unfolding encode_image_header
length-encode_image_header p = refl

pub decode-encode_image_header :
    (p : PerImageHeader) → ImageFits p → decode_image_header (encode_image_header p) ≡ p
unfolding encode_image_header decode_image_header
decode-encode_image_header p f = λ i. record {
  width = of_le-le_4 p.width f.width i;
  height = of_le-le_4 p.height f.height i;
  step = of_le-le_4 p.step f.step i;
  image_bytes = of_le-le_4 p.image_bytes f.image_bytes i;
}
