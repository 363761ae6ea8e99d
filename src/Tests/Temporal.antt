-- ===== src/Tests/Temporal.antt =====
-- Two frames of one pixel, sent to the worker of flashrt_temporal/ a byte at a time, and answered.
use ros2_vlm_demo.Common.{
  if◌then◌else◌, Option, none, some, ltb, ℕ, suc, ◌+◌, ◌/◌, ◌≤◌, ◌≡◌, refl, inr, false, List, [],
  ◌∷◌, ◌++◌, length, arith,
}
use ros2_vlm_demo.Common.Int.{pos}
use ros2_vlm_demo.Float.{Float, fin, zero_f}
use ros2_vlm_demo.Temporal.Wire.{Bytes, RequestHeader, encode_response}
use ros2_vlm_demo.Temporal.Receive.Exact.{IsRecv}
use ros2_vlm_demo.Temporal.Stream.{got, failed, bad_response}
use ros2_vlm_demo.Temporal.Request.{
  Platform, ParsedRequest, read_request, check_timestamps, steps_back,
}
use ros2_vlm_demo.Temporal.Request.Parsed.{IsAccepted, read_request-IsAccepted}
use ros2_vlm_demo.Temporal.Client.{Encoder, Array, IpcClient, sent, request_bytes, send_request}
use ros2_vlm_demo.Temporal.Exchange.Accepted.{IsServable, h, parsed, read_request-send_request}
use ros2_vlm_demo.Temporal.Response.{Answer, send_response, read_response}
use ros2_vlm_demo.Temporal.Response.RoundTrip.{IsAnswer, r, body, read_response-send_response}
use ros2_vlm_demo.Temporal.Video.{
  Arithmetic, Metadata, rounded_all, timed_metadata, build_video_metadata,
}
use ros2_vlm_demo.Temporal.Video.Indices.{IsSampled}
use ros2_vlm_demo.Temporal.Video.Sampling.{build_video_metadata-read_request}
use ros2_vlm_demo.Temporal.Serve.{Engine, generated, left, infer, success_answer, serve_client}
use ros2_vlm_demo.Temporal.Serve.Termination.{Ends, serve_client_lem}
use ros2_vlm_demo.Temporal.Serve.Call.{expected, reply, read_response-serve_client}

abbrev pub platform : Platform
platform = record {
  chunk = λ left remaining. 1;
  decode_text = λ bs. some bs;
  double_of = λ n. fin (pos n);
}

abbrev bits : Float → ℕ
bits (fin (pos n)) = n
bits _ = 0

abbrev encoder : Encoder
encoder = record { encode_text = λ t. t; bits_of = bits; one_single = 0x3F800000 }

abbrev client : IpcClient
client = record { next_request_id = 7 }

abbrev dark : Array
dark = record { height = 1; width = 1; channels = 3; bytes = 1 ∷ 2 ∷ 3 ∷ [] }

abbrev bright : Array
bright = record { height = 1; width = 1; channels = 3; bytes = 250 ∷ 251 ∷ 252 ∷ [] }

abbrev times : List Float
times = fin (pos 10) ∷ fin (pos 20) ∷ []

one_byte : IsRecv platform.chunk
one_byte k n h = (omega arith, omega arith)

in_order : check_timestamps platform times ≡ none
unfolding check_timestamps steps_back
in_order = refl

servable : IsServable platform encoder client (dark ∷ bright ∷ []) times (104 ∷ 105 ∷ []) 16 2
servable = record {
  is_recv = one_byte;
  zero_bits = refl;
  single = omega arith;
  id = omega arith;
  all_frames = (
    record {
      wide = omega arith;
      high = omega arith;
      bgr = refl;
      packed = refl;
      small = omega arith;
    },
    (
      record {
        wide = omega arith;
        high = omega arith;
        bgr = refl;
        packed = refl;
        small = omega arith;
      },
      tt,
    ),
  );
  window = omega arith;
  same_length = refl;
  doubles = ((omega arith, refl), ((omega arith, refl), tt));
  times = in_order;
  text = refl;
  short = omega arith;
  tokens = omega arith;
  kind = inr refl;
}

abbrev header : RequestHeader
header = h platform encoder client dark (bright ∷ []) times (104 ∷ 105 ∷ []) 16 2 servable

abbrev sent_bytes : Bytes
sent_bytes = request_bytes encoder header dark (bright ∷ []) times (104 ∷ 105 ∷ [])

abbrev taken : ParsedRequest
taken = parsed platform encoder client dark (bright ∷ []) times (104 ∷ 105 ∷ []) 16 2 servable

read_request-send_request_example :
    (send_request encoder client (dark ∷ bright ∷ []) times (104 ∷ 105 ∷ []) 16 2
      ≡ sent header sent_bytes (record { next_request_id = 8 }))
    × (read_request platform (sent_bytes ++ (9 ∷ [])) ≡ got taken (9 ∷ []))
read_request-send_request_example =
    read_request-send_request platform encoder client dark (bright ∷ []) times (104 ∷ 105 ∷ []) 16 2
      servable (9 ∷ [])

read_taken : read_request platform (sent_bytes ++ []) ≡ got taken []
read_taken =
    (read_request-send_request platform encoder client dark (bright ∷ []) times (104 ∷ 105 ∷ []) 16
      2 servable []).1

read_request-IsAccepted_example :
    IsAccepted platform one_byte taken × (96 + length {A = ℕ} [] ≤ length (sent_bytes ++ []))
read_request-IsAccepted_example =
    read_request-IsAccepted platform one_byte (sent_bytes ++ []) taken [] read_taken

abbrev milliseconds : Arithmetic
milliseconds = record {
  since = λ b a. b;
  sub = λ b a. b;
  median = λ ts. zero_f;
  inverse = λ t. t;
  frames_over = λ n t. t;
  index_of = λ t. if ltb 999 (bits t) then none else some (bits t / 30);
}

abbrev indices_of : Option Metadata → List ℕ
indices_of none = []
indices_of (some m) = m.frames_indices

build_video_metadata-read_request_example :
    IsSampled platform milliseconds
      (fin (pos 1000))
      (build_video_metadata platform milliseconds (fin (pos 1000)) taken)
      taken.timestamps
      2
build_video_metadata-read_request_example =
    build_video_metadata-read_request platform one_byte milliseconds (fin (pos 1000))
      (sent_bytes ++ []) taken [] read_taken

-- Two rounded indices that are equal are spread.
indices_spread :
    indices_of (build_video_metadata platform milliseconds (fin (pos 1000)) taken) ≡ 0 ∷ 1 ∷ []
unfolding build_video_metadata timed_metadata rounded_all
indices_spread = refl

-- A time too large to be counted in milliseconds is accepted and then raises.
distant_time :
    build_video_metadata platform milliseconds
      (fin (pos 1000))
      (record taken { timestamps = fin (pos 0) ∷ fin (pos 1000) ∷ [] })
    ≡ none
unfolding build_video_metadata timed_metadata rounded_all
distant_time = refl

abbrev engine : Engine
engine = record {
  limit = 512;
  str = λ x. 63 ∷ [];
  code_points = λ s. 118 ∷ [];
  run = λ req. generated (111 ∷ 107 ∷ []) (fin (pos 3));
}

made : infer engine taken ≡ generated (111 ∷ 107 ∷ []) (fin (pos 3))
unfolding infer
made = refl

abbrev answer : Answer
answer = success_answer engine taken (111 ∷ 107 ∷ []) (fin (pos 3))

short_answer : IsAnswer platform encoder answer
short_answer = record {
  is_recv = one_byte;
  text = refl;
  error = refl;
  temporal_encoding = refl;
  short_text = omega arith;
  short_error = omega arith;
  short_encoding = omega arith;
  small = omega arith;
  back = refl;
}

abbrev answer_bytes : Bytes
answer_bytes =
    encode_response (r platform encoder answer short_answer false 7 8 (omega arith))
    ++ body platform encoder answer short_answer false 7 8 (omega arith)

read_response-send_response_example :
    (send_response encoder 7 answer false ≡ some answer_bytes)
    × (read_response platform 8 (answer_bytes ++ []) ≡ failed bad_response)
read_response-send_response_example =
    read_response-send_response platform encoder answer short_answer false 7 8 (omega arith) []

serve_client_lem_example :
    Ends platform encoder engine one_byte
      (length sent_bytes / 96)
      (serve_client platform encoder engine (suc (length sent_bytes / 96)) sent_bytes)
serve_client_lem_example = serve_client_lem platform encoder engine one_byte sent_bytes

short_expected :
    IsAnswer platform encoder (expected engine 2 (bright ∷ []) (111 ∷ 107 ∷ []) (fin (pos 3)))
short_expected = record {
  is_recv = one_byte;
  text = refl;
  error = refl;
  temporal_encoding = refl;
  short_text = omega arith;
  short_error = omega arith;
  short_encoding = omega arith;
  small = omega arith;
  back = refl;
}

read_response-serve_client_example :
    (serve_client platform encoder engine 2 sent_bytes
      ≡ left (
          reply platform encoder engine client dark
            (bright ∷ [])
            times
            (104 ∷ 105 ∷ [])
            16
            2
            servable
            (111 ∷ 107 ∷ [])
            (fin (pos 3))
            short_expected
          ∷ []))
    × (read_response platform 7 (
          reply platform encoder engine client dark
            (bright ∷ [])
            times
            (104 ∷ 105 ∷ [])
            16
            2
            servable
            (111 ∷ 107 ∷ [])
            (fin (pos 3))
            short_expected
          ++ [])
        ≡ got (expected engine 2 (bright ∷ []) (111 ∷ 107 ∷ []) (fin (pos 3))) [])
read_response-serve_client_example =
    read_response-serve_client platform encoder engine client dark (bright ∷ []) times
      (104 ∷ 105 ∷ []) 16 2 servable (111 ∷ 107 ∷ []) (fin (pos 3)) short_expected made
