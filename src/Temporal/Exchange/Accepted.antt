-- ===== src/Temporal/Exchange/Accepted.antt =====
-- The worker reads what the client sends.
use mathlib.Core.List.{append_assoc}
use ros2_vlm_demo.Common.{
  ℕ, ◌+◌, ◌-◌, ◌^◌, ◌≤◌, ◌<◌, ◌≡◌, ◌⊎◌, refl, ap, ◌∙◌, Bool, true, false, not, ◌&&◌, ◌||◌, none,
  some, List, [], ◌∷◌, ◌++◌, map, eqb, ltb, is_empty, length, if◌then◌else◌, any, arith, All,
}
use ros2_vlm_demo.Float.{Float}
use ros2_vlm_demo.Temporal.Wire.{
  Bytes, RequestHeader, encode_header, sequence_images, sequence_video, max_text_bytes, has_flag,
  flag_has_fps, flag_has_frame_timestamps, flag_structured, flag_multi_image,
}
use ros2_vlm_demo.Temporal.Wire.Laws.{Fits, length-encode_header, decode_header-encode_header}
use ros2_vlm_demo.Temporal.Receive.Exact.{IsRecv}
use ros2_vlm_demo.Temporal.Stream.{got, recv, bind-got}
use ros2_vlm_demo.Temporal.Request.{
  Platform, ParsedRequest, is_zero, validate_header, check_counts, check_timestamps,
  read_image_headers, read_frames, read_timestamps, read_system, read_text, read_history,
  read_request, primary, image_count,
}
use ros2_vlm_demo.Temporal.Client.{
  Encoder, Array, IpcClient, Sent, sent, image_header, image_headers, payloads, request_header,
  request_bytes, send_first, send_request,
}
use ros2_vlm_demo.Temporal.Client as Client
use ros2_vlm_demo.Temporal.Exchange.Pieces.{
  recv_prefix, image_fits, IsFrame, picture, read_image_headers_lem, read_frames_lem,
  read_timestamps_lem, read_text_lem,
}

-- A request that the worker can serve: frames, finite increasing times, a text, and numbers in range.
pub record IsServable (p : Platform) (e : Encoder) (client : IpcClient) (frames : List Array)
    (ts : List Float) (prompt : Bytes) (max_tokens sequence_type : ℕ) : Type 0 where
  pub is_recv : IsRecv p.chunk
  pub zero_bits : is_zero (p.double_of 0) ≡ true
  pub single : e.one_single < 2 ^ 32
  pub id : client.next_request_id < 2 ^ 64
  pub all_frames : All IsFrame frames
  pub window : length frames ≤ 32
  pub same_length : length frames ≡ length ts
  pub doubles : All (λ t. (e.bits_of t < 2 ^ 64) × (p.double_of (e.bits_of t) ≡ t)) ts
  pub times : check_timestamps p ts ≡ none
  pub text : p.decode_text (e.encode_text prompt) ≡ some prompt
  pub short : length (e.encode_text prompt) ≤ max_text_bytes
  pub tokens : max_tokens < 2 ^ 31
  pub kind : (sequence_type ≡ sequence_images) ⊎ (sequence_type ≡ sequence_video)

abbrev flags : Bool → ℕ
flags single = if single then 16 else 20

no_fps : (b : Bool) → has_flag flag_has_fps (flags b) ≡ false
no_fps true = refl
no_fps false = refl

with_timestamps : (b : Bool) → has_flag flag_has_frame_timestamps (flags b) ≡ true
with_timestamps true = refl
with_timestamps false = refl

not_structured : (b : Bool) → has_flag flag_structured (flags b) ≡ false
not_structured true = refl
not_structured false = refl

flags_small : (b : Bool) → flags b < 2 ^ 32
flags_small b = ground arith

frame_count :
    (frames : List Array)
    → (if has_flag flag_multi_image (flags (is_empty frames))
        then if is_empty frames then 0 else length frames + 1
        else 1)
      ≡ length frames + 1
frame_count [] = refl
frame_count (f ∷ frames) = refl

few_or_one :
    (frames : List Array)
    → length frames ≤ 31
    → (has_flag flag_multi_image (flags (is_empty frames))
        && (ltb (length frames + 1) 2 || ltb 32 (length frames + 1)))
      ≡ false
few_or_one [] h = refl
few_or_one (f ∷ frames) h = ground arith

module _ (p : Platform) (e : Encoder) (client : IpcClient) (first : Array) (extras : List Array)
    (ts : List Float) (prompt : Bytes) (max_tokens sequence_type : ℕ)
    (w : IsServable p e client (first ∷ extras) ts prompt max_tokens sequence_type) where
  abbrev pub h : RequestHeader
  h = request_header e client.next_request_id first extras ts prompt max_tokens sequence_type

  header-Fits : Fits h
  header-Fits =
      let (f, fs) = w.all_frames in
      let image = image_fits first f in
      let few = w.window in
      let same = w.same_length in
      let short = w.short in
      record {
        magic_number = omega arith;
        protocol = omega arith;
        request_id = w.id;
        width = image.width;
        height = image.height;
        step = image.step;
        encoding = omega arith;
        image_bytes = image.image_bytes;
        prompt_bytes = omega arith;
        max_generate_length = let tokens = w.tokens in omega arith;
        temperature = omega arith;
        top_p = w.single;
        top_k = omega arith;
        schema_flags = flags_small (is_empty extras);
        system_bytes = omega arith;
        history_count = omega arith;
        image_count = ground arith;
        sequence_type = ground (arith, w.kind);
        fps = omega arith;
        timestamp_count = omega arith;
        reserved = omega arith;
      }

  valid_header : validate_header p h ≡ none
  unfolding validate_header
  valid_header =
      let (f, fs) = w.all_frames in
      let wide = f.wide in
      let high = f.high in
      let packed = f.packed in
      let small = f.small in
      let short = w.short in rw (no_fps (is_empty extras), w.zero_bits) (ground (arith, w.kind))

  valid_counts : check_counts p h ≡ none
  unfolding check_counts
  valid_counts =
      let few = w.window in
      let same = w.same_length in
      rw (with_timestamps (is_empty extras), frame_count extras)
        (ground (arith, few_or_one extras (omega arith)))

  image_count_lem : image_count p h - 1 ≡ length extras
  image_count_lem = rw (frame_count extras) (omega arith)

  abbrev pub parsed : ParsedRequest
  parsed = record {
    header = h;
    frames = map (picture p w.is_recv) (first ∷ extras);
    timestamps = ts;
    system_message = [];
    prompt = prompt;
    history = [];
  }

  abbrev after_frames : Bytes → Bytes
  after_frames rest = Client.doubles e ts ++ (e.encode_text prompt ++ rest)

  abbrev after_images : Bytes → Bytes
  after_images rest = payloads (first ∷ extras) ++ after_frames rest

  abbrev after_header : Bytes → Bytes
  after_header rest = image_headers extras ++ after_images rest

  bytes_lem :
      (rest : Bytes)
      → request_bytes e h first extras ts prompt ++ rest ≡ encode_header h ++ after_header rest
  bytes_lem rest = simp (append_assoc)

  system_lem : (s : Bytes) → read_system p h s ≡ got [] s
  unfolding read_system
  system_lem s = rw (not_structured (is_empty extras)) refl

  history_lem : (s : Bytes) → read_history p h s ≡ got [] s
  unfolding read_history
  history_lem s = rw (not_structured (is_empty extras)) refl

  read_request_lem :
      (rest : Bytes) → read_request p (encode_header h ++ after_header rest) ≡ got parsed rest
  unfolding read_request
  read_request_lem rest =
      bind-got (recv p.chunk 96) _ _ (
        recv_prefix p.chunk w.is_recv 96 (encode_header h) (after_header rest)
          (length-encode_header h))
      ∙ rw (decode_header-encode_header h header-Fits, valid_header, valid_counts, image_count_lem)
          (let (f, fs) = w.all_frames in
            bind-got (read_image_headers p (length extras)) _ _
              (read_image_headers_lem p w.is_recv extras (after_images rest) fs)
            ∙ (bind-got (read_frames p (primary p h ∷ map image_header extras)) _ _
                  (read_frames_lem p w.is_recv (first ∷ extras) (after_frames rest) w.all_frames)
                ∙ (bind-got (read_timestamps p h) _ _ (
                      read_timestamps_lem p w.is_recv e h ts (e.encode_text prompt ++ rest)
                        (with_timestamps (is_empty extras)) refl w.doubles w.times)
                    ∙ (bind-got (read_system p h) _ _ (system_lem (e.encode_text prompt ++ rest))
                        ∙ (bind-got (read_text p h.prompt_bytes) _ _
                              (read_text_lem p w.is_recv e prompt rest w.text)
                            ∙ bind-got (read_history p h) _ _ (history_lem rest))))))

  bgr_lem :
      (frames : List Array) → All IsFrame frames → any (λ a. not (eqb a.channels 3)) frames ≡ false
  bgr_lem [] f = refl
  bgr_lem (a ∷ frames) (f, fs) = let three = f.bgr in ground (arith, bgr_lem frames fs)

  send_lem :
      send_request e client (first ∷ extras) ts prompt max_tokens sequence_type
      ≡ sent h
          (request_bytes e h first extras ts prompt)
          (record { next_request_id = client.next_request_id + 1 })
  unfolding send_request send_first
  send_lem =
      let same = w.same_length in
      rw (bgr_lem (first ∷ extras) w.all_frames) (ground (arith, w.kind))

  -- For frames, times and a prompt that are in range, the client sends the request and takes the next id, and the worker, however the bytes arrive, reads the same header, the frames as RGB pictures in their order, the times and the prompt, and leaves what follows in the stream.
  pub read_request-send_request :
      (rest : Bytes)
      → (send_request e client (first ∷ extras) ts prompt max_tokens sequence_type
          ≡ sent h
              (request_bytes e h first extras ts prompt)
              (record { next_request_id = client.next_request_id + 1 }))
        × (read_request p (request_bytes e h first extras ts prompt ++ rest) ≡ got parsed rest)
  read_request-send_request rest =
      (send_lem, ap (read_request p) (bytes_lem rest) ∙ read_request_lem rest)
