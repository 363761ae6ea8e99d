-- ===== src/Temporal/Response.antt =====
-- `send_response` of flashrt_temporal/flashrt_ipc_worker.py and the end of `IpcClient.infer` of
-- flashrt_temporal/temporal_ros_node.py, which reads its bytes.
pub mod RoundTrip
use ros2_vlm_demo.Common.{
  ℕ, Bool, true, false, not, ◌||◌, Option, none, some, List, [], ◌++◌, eqb, ltb, length,
  if◌then◌else◌,
}
use ros2_vlm_demo.Float.{Float}
use ros2_vlm_demo.Temporal.Wire.{
  Bytes, magic, version, max_text_bytes, ResponseHeader, encode_response, decode_response,
}
use ros2_vlm_demo.Temporal.Stream.{Reader, ◌>>=◌, ◌>>◌, give, check, recv, Fault, bad_response}
use ros2_vlm_demo.Temporal.Request.{Platform, read_text}
use ros2_vlm_demo.Temporal.Client.{Encoder}

-- What the client returns of a request.
pub record Answer : Type 0 where
  pub success : Bool
  pub text : Bytes
  pub error : Bytes
  pub inference_seconds : Float
  pub temporal_encoding : Bytes

abbrev pub response_header : Encoder → ℕ → Answer → Bool → ResponseHeader
response_header e request_id a fallback_used = record {
  magic_number = magic;
  protocol = version;
  request_id = request_id;
  success = if a.success then 1 else 0;
  text_bytes = length (e.encode_text a.text);
  error_bytes = length (e.encode_text a.error);
  temporal_encoding_bytes = length (e.encode_text a.temporal_encoding);
  temporal_fallback_used = if fallback_used then 1 else 0;
  inference_seconds = e.bits_of a.inference_seconds;
}

-- The bytes that are sent; none if ValueError is raised, before anything is sent.
unfoldable pub send_response : Encoder → ℕ → Answer → Bool → Option Bytes
send_response e request_id a fallback_used =
    if ltb max_text_bytes (length (e.encode_text a.text))
      || (ltb max_text_bytes (length (e.encode_text a.error))
          || ltb max_text_bytes (length (e.encode_text a.temporal_encoding)))
    then none
    else some (
        encode_response (response_header e request_id a fallback_used)
        ++ (e.encode_text a.text ++ (e.encode_text a.error ++ e.encode_text a.temporal_encoding)))

module _ (p : Platform) where
  unfoldable pub check_response : ℕ → ResponseHeader → Option Fault
  check_response request_id r =
      if not (eqb r.magic_number magic)
        || (not (eqb r.protocol version) || not (eqb r.request_id request_id))
      then some bad_response
      else none

  unfoldable pub read_response : ℕ → Reader Answer
  read_response request_id = do
    bs ← recv p.chunk 48
    let r = decode_response bs
    check (check_response request_id r)
    text ← read_text p r.text_bytes
    error ← read_text p r.error_bytes
    temporal_encoding ← read_text p r.temporal_encoding_bytes
    give record {
      success = not (eqb r.success 0);
      text = text;
      error = error;
      inference_seconds = p.double_of r.inference_seconds;
      temporal_encoding = temporal_encoding;
    }
