-- ===== src/Temporal/Response/RoundTrip.antt =====
-- The client reads the worker's answer, and only the answer to its own request.
use mathlib.Core.List.{append_assoc}
use ros2_vlm_demo.Common.{
  ℕ, ◌^◌, ◌≤◌, ◌<◌, ◌≡◌, refl, ap, ◌∙◌, Bool, true, false, not, none, some, ◌++◌, eqb, length,
  if◌then◌else◌, arith,
}
use ros2_vlm_demo.Temporal.Wire.{
  Bytes, ResponseHeader, encode_response, decode_response, max_text_bytes,
}
use ros2_vlm_demo.Temporal.Wire.Laws.{of_le-le_4, of_le-le_8}
use ros2_vlm_demo.Temporal.Receive.Exact.{IsRecv}
use ros2_vlm_demo.Temporal.Stream.{got, failed, recv, bind-got, bad_response}
use ros2_vlm_demo.Temporal.Request.{Platform, read_text}
use ros2_vlm_demo.Temporal.Client.{Encoder}
use ros2_vlm_demo.Temporal.Exchange.Pieces.{recv_prefix, read_text_lem}
use ros2_vlm_demo.Temporal.Response.{
  Answer, response_header, send_response, check_response, read_response,
}

-- Every number of an answer's header fits into its field.
record ResponseFits (r : ResponseHeader) : Type 0 where
  magic_number : r.magic_number < 2 ^ 32
  protocol : r.protocol < 2 ^ 32
  request_id : r.request_id < 2 ^ 64
  success : r.success < 2 ^ 32
  text_bytes : r.text_bytes < 2 ^ 32
  error_bytes : r.error_bytes < 2 ^ 32
  temporal_encoding_bytes : r.temporal_encoding_bytes < 2 ^ 32
  temporal_fallback_used : r.temporal_fallback_used < 2 ^ 32
  inference_seconds : r.inference_seconds < 2 ^ 64

length-encode_response : (r : ResponseHeader) → length (encode_response r) ≡ 48
unfolding encode_response
length-encode_response r = refl

decode_response-encode_response :
    (r : ResponseHeader) → ResponseFits r → decode_response (encode_response r) ≡ r
unfolding encode_response decode_response
decode_response-encode_response r f = λ i. record {
  magic_number = of_le-le_4 r.magic_number f.magic_number i;
  protocol = of_le-le_4 r.protocol f.protocol i;
  request_id = of_le-le_8 r.request_id f.request_id i;
  success = of_le-le_4 r.success f.success i;
  text_bytes = of_le-le_4 r.text_bytes f.text_bytes i;
  error_bytes = of_le-le_4 r.error_bytes f.error_bytes i;
  temporal_encoding_bytes = of_le-le_4 r.temporal_encoding_bytes f.temporal_encoding_bytes i;
  temporal_fallback_used = of_le-le_4 r.temporal_fallback_used f.temporal_fallback_used i;
  inference_seconds = of_le-le_8 r.inference_seconds f.inference_seconds i;
}

-- Texts that UTF-8 gives back and that are short enough, and a double.
pub record IsAnswer (p : Platform) (e : Encoder) (a : Answer) : Type 0 where
  pub is_recv : IsRecv p.chunk
  pub text : p.decode_text (e.encode_text a.text) ≡ some a.text
  pub error : p.decode_text (e.encode_text a.error) ≡ some a.error
  pub temporal_encoding :
      p.decode_text (e.encode_text a.temporal_encoding) ≡ some a.temporal_encoding
  pub short_text : length (e.encode_text a.text) ≤ max_text_bytes
  pub short_error : length (e.encode_text a.error) ≤ max_text_bytes
  pub short_encoding : length (e.encode_text a.temporal_encoding) ≤ max_text_bytes
  pub small : e.bits_of a.inference_seconds < 2 ^ 64
  pub back : p.double_of (e.bits_of a.inference_seconds) ≡ a.inference_seconds

module _ (p : Platform) (e : Encoder) (a : Answer) (w : IsAnswer p e a) (fallback_used : Bool)
    (request_id asked : ℕ) (small : request_id < 2 ^ 64) where
  abbrev pub r : ResponseHeader
  r = response_header e request_id a fallback_used

  fits : ResponseFits r
  fits =
      let text = w.short_text in
      let error = w.short_error in
      let encoding = w.short_encoding in
      record {
        magic_number = omega arith;
        protocol = omega arith;
        request_id = small;
        success = ground arith;
        text_bytes = omega arith;
        error_bytes = omega arith;
        temporal_encoding_bytes = omega arith;
        temporal_fallback_used = ground arith;
        inference_seconds = w.small;
      }

  abbrev pub body : Bytes
  body = e.encode_text a.text ++ (e.encode_text a.error ++ e.encode_text a.temporal_encoding)

  send_lem : send_response e request_id a fallback_used ≡ some (encode_response r ++ body)
  unfolding send_response
  send_lem =
      let text = w.short_text in
      let error = w.short_error in let encoding = w.short_encoding in ground arith

  success_lem : (b : Bool) → not (eqb (if b then 1 else 0) 0) ≡ b
  success_lem true = refl
  success_lem false = refl

  abbrev texts : Bytes → Bytes
  texts rest =
      e.encode_text a.text ++ (e.encode_text a.error ++ (e.encode_text a.temporal_encoding ++ rest))

  bytes_lem : (rest : Bytes) → (encode_response r ++ body) ++ rest ≡ encode_response r ++ texts rest
  bytes_lem rest = simp (append_assoc)

  read_own :
      (rest : Bytes)
      → check_response p asked r ≡ none
      → read_response p asked (encode_response r ++ texts rest) ≡ got a rest
  unfolding read_response
  read_own rest fine =
      bind-got (recv p.chunk 48) _ _ (
        recv_prefix p.chunk w.is_recv 48 (encode_response r) (texts rest)
          (length-encode_response r))
      ∙ rw (decode_response-encode_response r fits, fine)
          (bind-got (read_text p r.text_bytes) _ _ (read_text_lem p w.is_recv e a.text _ w.text)
            ∙ (bind-got (read_text p r.error_bytes) _ _
                  (read_text_lem p w.is_recv e a.error _ w.error)
                ∙ (bind-got (read_text p r.temporal_encoding_bytes) _ _
                      (read_text_lem p w.is_recv e a.temporal_encoding rest w.temporal_encoding)
                    ∙ rw (success_lem a.success, w.back) refl)))

  read_other :
      (rest : Bytes)
      → check_response p asked r ≡ some bad_response
      → read_response p asked (encode_response r ++ texts rest) ≡ failed bad_response
  unfolding read_response
  read_other rest bad =
      bind-got (recv p.chunk 48) _ _ (
        recv_prefix p.chunk w.is_recv 48 (encode_response r) (texts rest)
          (length-encode_response r))
      ∙ rw (decode_response-encode_response r fits, bad) refl

  check_lem : check_response p asked r ≡ (if eqb asked request_id then none else some bad_response)
  unfolding check_response
  check_lem = ground arith

  by_id :
      (b : Bool) (rest : Bytes)
      → check_response p asked r ≡ (if b then none else some bad_response)
      → read_response p asked (encode_response r ++ texts rest)
        ≡ (if b then got a rest else failed bad_response)
  by_id true rest e' = read_own rest e'
  by_id false rest e' = read_other rest e'

  -- The worker sends an answer whose texts are within the limit, and the client, however the bytes arrive, reads the same answer and leaves what follows in the stream if it asked with the id the worker answers, and raises otherwise.
  pub read_response-send_response :
      (rest : Bytes)
      → (send_response e request_id a fallback_used ≡ some (encode_response r ++ body))
        × (read_response p asked ((encode_response r ++ body) ++ rest)
            ≡ (if eqb asked request_id then got a rest else failed bad_response))
  read_response-send_response rest = (
    send_lem,
    ap (read_response p asked) (bytes_lem rest) ∙ by_id (eqb asked request_id) rest check_lem,
  )
