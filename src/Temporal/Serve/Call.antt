-- ===== src/Temporal/Serve/Call.antt =====
-- A call of the client that the worker serves.
use mathlib.Core.List.{append-nil}
use ros2_vlm_demo.Common.{
  ℕ, ◌≡◌, inl, inr, map, length, ltb, if◌then◌else◌, String, refl, sym, ap, ◌∙◌, true, false, some,
  List, [], ◌∷◌, ◌++◌, eqb, arith,
}
use ros2_vlm_demo.Float.{Float}
use ros2_vlm_demo.Temporal.Wire.{Bytes, encode_response}
use ros2_vlm_demo.Temporal.Receive.Exact.{IsRecv, recv_exact_lem}
use ros2_vlm_demo.Temporal.Stream.{got, failed, recv, eof_error, bind-failed}
use ros2_vlm_demo.Temporal.Request.{Platform, ParsedRequest, read_request}
use ros2_vlm_demo.Temporal.Client.{Encoder, Array, IpcClient, request_bytes}
use ros2_vlm_demo.Temporal.Exchange.Pieces.{picture}
use ros2_vlm_demo.Temporal.Exchange.Accepted.{IsServable, h, parsed, read_request-send_request}
use ros2_vlm_demo.Temporal.Response.{Answer, send_response, read_response}
use ros2_vlm_demo.Temporal.Response.RoundTrip.{IsAnswer, r, body, read_response-send_response}
use ros2_vlm_demo.Temporal.Serve.{
  Engine, generated, left, temporal_encoding, respond, infer, success_answer, serve_client,
}

module _ (p : Platform) (e : Encoder) (g : Engine) (is_recv : IsRecv p.chunk) where
  recv_nothing : recv p.chunk 96 [] ≡ failed eof_error
  unfolding recv
  recv_nothing = rw (recv_exact_lem p.chunk is_recv 96 []) refl

  read_nothing : read_request p [] ≡ failed eof_error
  unfolding read_request
  read_nothing = bind-failed (recv p.chunk 96) _ [] recv_nothing

  serve_nothing : serve_client p e g 1 [] ≡ left []
  unfolding serve_client
  serve_nothing = rw (read_nothing, serve_client) refl

  serve_one :
      (s reply : Bytes) (req : ParsedRequest)
      → read_request p s ≡ got req []
      → respond p e g req.header.request_id req (infer g req) ≡ some reply
      → serve_client p e g 2 s ≡ left (reply ∷ [])
  unfolding serve_client
  serve_one s reply req read answer = rw (read, answer, serve_nothing, serve_client) refl

-- The name that the answer gives to what the client has asked for: a video, one image or more.
abbrev pub name_of_images : List Array → String
name_of_images [] = "flashrt_single_image"
name_of_images (a ∷ rest) = "flashrt_ordered_multi_image"

abbrev pub name_of_kind : ℕ → List Array → String
name_of_kind sequence_type extras =
    if eqb sequence_type 2 then "flashrt_cosmos3_native_video" else name_of_images extras

abbrev pub expected : Engine → ℕ → List Array → Bytes → Float → Answer
expected g sequence_type extras text seconds = record {
  success = true;
  text = text;
  error = [];
  inference_seconds = seconds;
  temporal_encoding = g.code_points (name_of_kind sequence_type extras);
}

module _ (p : Platform) (e : Encoder) (g : Engine) (client : IpcClient) (first : Array)
    (extras : List Array) (ts : List Float) (prompt : Bytes) (max_tokens sequence_type : ℕ)
    (w : IsServable p e client (first ∷ extras) ts prompt max_tokens sequence_type) where
  abbrev pub asked : ParsedRequest
  asked = parsed p e client first extras ts prompt max_tokens sequence_type w

  abbrev pub request : Bytes
  request =
      request_bytes e (h p e client first extras ts prompt max_tokens sequence_type w) first extras
        ts prompt

  images_lem :
      (frames : List Array)
      → (if ltb 1 (length (map (picture p w.is_recv) (first ∷ frames)))
          then "flashrt_ordered_multi_image"
          else "flashrt_single_image")
        ≡ name_of_images frames
  images_lem [] = refl
  images_lem (a ∷ rest) = ground arith

  kind_lem : temporal_encoding asked ≡ name_of_kind sequence_type extras
  kind_lem = elim w.kind [
    | inl images ↦ rw (images) (images_lem extras)
    | inr video ↦ rw (video) refl
  ]

  module _ (text : Bytes) (seconds : Float)
      (a : IsAnswer p e (expected g sequence_type extras text seconds)) where
    abbrev pub reply : Bytes
    reply =
        encode_response (
          r p e (expected g sequence_type extras text seconds) a false client.next_request_id
            client.next_request_id w.id)
        ++ body p e (expected g sequence_type extras text seconds) a false client.next_request_id
            client.next_request_id w.id

    same_answer : success_answer g asked text seconds ≡ expected g sequence_type extras text seconds
    same_answer = rw (kind_lem) refl

    same_id : (n : ℕ) → eqb n n ≡ true
    same_id n = ground arith

    responds :
        (id : ℕ)
        → send_response e id (expected g sequence_type extras text seconds) false ≡ some reply
        → infer g asked ≡ generated text seconds
        → respond p e g id asked (infer g asked) ≡ some reply
    unfolding respond
    responds id answered made = rw (made, respond, same_answer, answered) refl

    -- When the client is given one to 32 frames of a size that the protocol allows, with finite and increasing times, a text that UTF-8 gives back in at most 1 MiB, and numbers in range, the engine makes a text of the request, UTF-8 gives back that text, the empty one and the name of the request's kind, each encoded in at most 1 MiB, and the seconds are a double of the platform, then the worker reads the client's bytes, sends one answer and waits until the client closes the connection, and the client reads from that answer, for its own request, success with that text, its seconds, no error and the name of what it has asked for: a native video, a single image, or ordered images.
    pub read_response-serve_client :
        infer g asked ≡ generated text seconds
        → (serve_client p e g 2 request ≡ left (reply ∷ []))
          × (read_response p client.next_request_id (reply ++ [])
              ≡ got (expected g sequence_type extras text seconds) [])
    read_response-serve_client made =
        let answer = expected g sequence_type extras text seconds in
        let id = client.next_request_id in
        let (_, read) =
          read_request-send_request p e client first extras ts prompt max_tokens sequence_type w
            [] in
        let (answered, back) = read_response-send_response p e answer a false id id w.id [] in
        (
          serve_one p e g w.is_recv request reply asked
              (ap (read_request p) (sym (append-nil request)) ∙ read) (responds id answered made),
          back ∙ rw (same_id id) refl,
        )
