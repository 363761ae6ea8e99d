-- ===== src/Temporal/Serve.antt =====
-- `infer` and the loop over one connection in `serve` of flashrt_temporal/flashrt_ipc_worker.py, while
-- no signal stops it and the peer takes every answer. What the processor and the engine make of a
-- request is an argument.
pub mod Termination
pub mod Call
use ros2_vlm_demo.Common.{
  ℕ, zero, suc, ◌+◌, ◌^◌, ◌≡◌, Bool, true, false, ◌||◌, Option, none, some, String, List, [], ◌∷◌,
  eqb, leb, ltb, length, if◌then◌else◌,
}
use ros2_vlm_demo.Float.{Float, zero_f}
use ros2_vlm_demo.Temporal.Wire.{Bytes}
use ros2_vlm_demo.Temporal.Stream.{Outcome, got, failed}
use ros2_vlm_demo.Temporal.Request.{Platform, ParsedRequest, read_request}
use ros2_vlm_demo.Temporal.Client.{Encoder}
use ros2_vlm_demo.Temporal.Response.{Answer, send_response}
use ros2_vlm_demo.Temporal.Video.{is_video}

-- The exceptions whose text the worker sends.
pub data Problem : Type 0 where
  length_not_positive length_above_limit response_too_long : Problem
  engine_error : Bytes → Problem

-- What a request comes to: a text and its seconds, or an exception.
pub data Generated : Type 0 where
  generated : Bytes → Float → Generated
  raised : Problem → Generated

-- `str(exc)`, the code points of a literal, and processor and engine.
pub record Engine : Type 0 where
  pub limit : ℕ
  pub str : Problem → Bytes
  pub code_points : String → Bytes
  pub run : ParsedRequest → Generated

abbrev pub temporal_encoding : ParsedRequest → String
temporal_encoding req =
    if is_video req
    then "flashrt_cosmos3_native_video"
    else if ltb 1 (length req.frames)
    then "flashrt_ordered_multi_image"
    else "flashrt_single_image"

-- `max_generate_length` is signed: from 2^31 on the number stands for a negative one.
unfoldable pub infer : Engine → ParsedRequest → Generated
infer g req =
    let n = req.header.max_generate_length in
    if eqb n 0 || leb (2 ^ 31) n
    then raised length_not_positive
    else if ltb g.limit n
    then raised length_above_limit
    else g.run req

abbrev pub success_answer : Engine → ParsedRequest → Bytes → Float → Answer
success_answer g req text seconds = record {
  success = true;
  text = text;
  error = [];
  inference_seconds = seconds;
  temporal_encoding = g.code_points (temporal_encoding req);
}

abbrev pub error_answer : Engine → Problem → Answer
error_answer g x = record {
  success = false;
  text = [];
  error = g.str x;
  inference_seconds = zero_f;
  temporal_encoding = g.code_points "flashrt_cosmos3_error";
}

module _ (p : Platform) (e : Encoder) (g : Engine) where
  abbrev pub or_else : Option Bytes → Option Bytes → Option Bytes
  or_else (some bs) other = some bs
  or_else none other = other

  -- The bytes that answer a request; none if the answer to an exception raises too.
  unfoldable pub respond : ℕ → ParsedRequest → Generated → Option Bytes
  respond request_id req (raised x) = send_response e request_id (error_answer g x) false
  respond request_id req (generated text seconds) =
      or_else (send_response e request_id (success_answer g req text seconds) false)
        (send_response e request_id (error_answer g response_too_long) false)

  -- What the peer is sent until the loop leaves the connection, by `break` or by an exception.
  pub data Served : Type 0 where
    left crashed : List Bytes → Served
    unfinished : Served

  abbrev pub then_served : Bytes → Served → Served
  then_served bs (left sent) = left (bs ∷ sent)
  then_served bs (crashed sent) = crashed (bs ∷ sent)
  then_served bs unfinished = unfinished

  abbrev pub after_response : Option Bytes → Served → Served
  after_response none rest = crashed []
  after_response (some bs) rest = then_served bs rest

  -- The inner `while`, with fuel.
  unfoldable pub serve_client : ℕ → Bytes → Served
  serve_client zero s = unfinished
  serve_client (suc fuel) s = elim (read_request p s) [
    | failed x ↦ left []
    | got req rest ↦
        after_response (respond req.header.request_id req (infer g req)) (serve_client fuel rest)
  ]
