-- ===== src/Temporal/Request/Parsed.antt =====
-- What holds of a request that `read_request` gives, and how much of the stream it takes.
use ros2_vlm_demo.Common.{
  ℕ, zero, suc, ◌+◌, ◌-◌, ◌*◌, ◌≤◌, ◌≡◌, refl, ap, ◌∙◌, Bool, true, false, not, none, some, List,
  [], ◌∷◌, eqb, leb, leb→le, length, if◌then◌else◌, arith, if_lem,
}
use ros2_vlm_demo.Float.{Float}
use ros2_vlm_demo.Temporal.Wire.{
  Bytes, take, drop, RequestHeader, PerImageHeader, decode_header, decode_image_header,
  decode_history_header, has_flag, flag_has_frame_timestamps, flag_structured,
}
use ros2_vlm_demo.Temporal.Receive.{received, closed}
use ros2_vlm_demo.Temporal.Receive.Exact.{IsRecv, recv_exact_lem, length-drop}
use ros2_vlm_demo.Temporal.Stream.{
  got, bad_step, Reader, ◌>>=◌, ◌>>◌, give, check, recv, as_outcome,
}
use ros2_vlm_demo.Temporal.Stream.Gives.{
  Gives, fault_lem, got-injective, bind-Gives, give-Gives, check-Gives, decoded-Gives, weaken,
  checked, any_check,
}
use ros2_vlm_demo.Temporal.Request.{
  Platform, ParsedRequest, validate_header, check_counts, image_count, read_image_headers,
  bgr_payload_to_pil, swap_channels, read_frames, read_timestamps, doubles, check_image,
  check_timestamps, read_system, read_text, read_entries, read_history, read_request, primary,
}

module _ (p : Platform) (is_recv : IsRecv p.chunk) where
  take_lem :
      (n : ℕ) (s : Bytes) (b : Bool)
      → leb n (length s) ≡ b
      → (bs s' : Bytes)
      → as_outcome (if b then received (take n s) (drop n s) else closed) ≡ got bs s'
      → Unit {0} × (n + length s' ≤ length s)
  take_lem n s false h bs s' e = absurd (fault_lem _ e)
  take_lem n s true h bs s' e =
      let (same, rest) = got-injective (take n s) bs (drop n s) s' e in
      (tt, rw⁻¹ rest (omega (arith, length-drop n s, leb→le n (length s) h)))

  recv-Gives : (n : ℕ) → Gives n (λ _. Unit {0}) (recv p.chunk n)
  unfolding recv
  recv-Gives n s bs s' e =
      take_lem n s (leb n (length s)) refl bs s' (rw⁻¹ (recv_exact_lem p.chunk is_recv n s) e)

  text_lem : (n : ℕ) → Gives n (λ _. Unit {0}) (read_text p n)
  text_lem n =
      bind-Gives n (λ _. Unit) (λ _. Unit) (recv p.chunk n) _ (recv-Gives n)
        (λ bs _ s t s' e. (tt, (decoded-Gives (p.decode_text bs) s t s' e).1))

  headers_lem : (n : ℕ) → Gives 0 (λ hs. length hs ≡ n) (read_image_headers p n)
  unfolding read_image_headers
  headers_lem zero = give-Gives (λ hs. length hs ≡ 0) [] refl
  headers_lem (suc n) =
      weaken 16 (λ hs. length hs ≡ suc n) (λ hs. length hs ≡ suc n) _
        (bind-Gives 16 (λ _. Unit) (λ hs. length hs ≡ suc n) (recv p.chunk 16) _ (recv-Gives 16)
          (λ bs _.
            bind-Gives 0 (λ _. check_image p (decode_image_header bs) ≡ none)
              (λ hs. length hs ≡ suc n) (check (check_image p (decode_image_header bs))) _
              (check-Gives _)
              (λ _ _.
                bind-Gives 0 (λ hs. length hs ≡ n) (λ hs. length hs ≡ suc n)
                  (read_image_headers p n) _ (headers_lem n)
                  (λ rest h.
                    give-Gives (λ hs. length hs ≡ suc n) (decode_image_header bs ∷ rest)
                      (ap suc h)))))
        (λ a h. h)

  picture_lem :
      (bs : Bytes) (i : PerImageHeader) → Gives 0 (λ _. Unit {0}) (bgr_payload_to_pil p bs i)
  unfolding bgr_payload_to_pil
  picture_lem bs i =
      checked (λ _. Unit) (if not (eqb i.step (i.width * 3)) then some bad_step else none)
        (record { width = i.width; height = i.height; rgb = swap_channels p bs }) (λ _. tt)

  frames_lem : (is : List PerImageHeader) → Gives 0 (λ fs. length fs ≡ length is) (read_frames p is)
  unfolding read_frames
  frames_lem [] = give-Gives (λ fs. length fs ≡ 0) [] refl
  frames_lem (i ∷ is) =
      weaken i.image_bytes (λ fs. length fs ≡ suc (length is)) (λ fs. length fs ≡ suc (length is)) _
        (bind-Gives i.image_bytes (λ _. Unit) _ (recv p.chunk i.image_bytes) _
          (recv-Gives i.image_bytes)
          (λ bs _.
            bind-Gives 0 (λ _. Unit) _ (bgr_payload_to_pil p bs i) _ (picture_lem bs i)
              (λ f _.
                bind-Gives 0 (λ fs. length fs ≡ length is) _ (read_frames p is) _ (frames_lem is)
                  (λ fs h. give-Gives (λ gs. length gs ≡ suc (length is)) (f ∷ fs) (ap suc h)))))
        (λ a h. h)

  length-doubles : (n : ℕ) (bs : Bytes) → length (doubles p n bs) ≡ n
  length-doubles zero bs = refl
  length-doubles (suc n) bs = ap suc (length-doubles n (drop 8 bs))

  -- Times that the worker has tested: as many as the header says, or none without the flag.
  abbrev pub HasTimes : RequestHeader → Bool → List Float → Type 0
  HasTimes h flag ts =
      if flag then (length ts ≡ h.timestamp_count) × (check_timestamps p ts ≡ none) else ts ≡ []

  abbrev timed : ℕ → Reader (List Float)
  timed n = do
    raw ← recv p.chunk (n * 8)
    check (check_timestamps p (doubles p n raw))
    give (doubles p n raw)

  times_if :
      (h : RequestHeader) (flag : Bool)
      → Gives 0 (HasTimes h flag) (if flag then timed h.timestamp_count else give [])
  times_if h false = give-Gives (λ ts. ts ≡ []) [] refl
  times_if h true =
      let n = h.timestamp_count in
      weaken (n * 8) (HasTimes h true) (HasTimes h true) (timed n)
        (bind-Gives (n * 8) (λ _. Unit) (HasTimes h true) (recv p.chunk (n * 8)) _
          (recv-Gives (n * 8))
          (λ raw _.
            checked (HasTimes h true) (check_timestamps p (doubles p n raw)) (doubles p n raw)
              (λ e. (length-doubles n raw, e))))
        (λ ts h. h)

  times_lem :
      (h : RequestHeader)
      → Gives 0
          (HasTimes h (has_flag flag_has_frame_timestamps h.schema_flags))
          (read_timestamps p h)
  unfolding read_timestamps
  times_lem h = times_if h (has_flag flag_has_frame_timestamps h.schema_flags)

  any_text : (n : ℕ) → Gives 0 (λ _. Unit {0}) (read_text p n)
  any_text n = weaken n (λ _. Unit) (λ _. Unit) (read_text p n) (text_lem n) (λ _ _. tt)

  system_lem : (h : RequestHeader) → Gives 0 (λ _. Unit {0}) (read_system p h)
  unfolding read_system
  system_lem h =
      if_lem (λ m. Gives 0 (λ _. Unit {0}) m) _ (read_text p h.system_bytes) (give [])
        (λ _. any_text h.system_bytes) (λ _. give-Gives (λ _. Unit) [] tt)

  entries_lem : (n : ℕ) → Gives 0 (λ es. length es ≡ n) (read_entries p n)
  unfolding read_entries
  entries_lem zero = give-Gives (λ es. length es ≡ 0) [] refl
  entries_lem (suc n) =
      weaken 8 (λ es. length es ≡ suc n) (λ es. length es ≡ suc n) _
        (bind-Gives 8 (λ _. Unit) (λ es. length es ≡ suc n) (recv p.chunk 8) _ (recv-Gives 8)
          (λ bs _.
            bind-Gives 0 (λ _. Unit) (λ es. length es ≡ suc n) _ _ (any_check _)
              (λ _ _.
                bind-Gives 0 (λ _. Unit) (λ es. length es ≡ suc n)
                  (read_text p (decode_history_header bs).user_bytes) _ (any_text _)
                  (λ user _.
                    bind-Gives 0 (λ _. Unit) (λ es. length es ≡ suc n)
                      (read_text p (decode_history_header bs).asst_bytes) _ (any_text _)
                      (λ asst _.
                        bind-Gives 0 (λ es. length es ≡ n) (λ es. length es ≡ suc n)
                          (read_entries p n) _ (entries_lem n)
                          (λ rest h.
                            give-Gives (λ es. length es ≡ suc n) ((user, asst) ∷ rest)
                              (ap suc h)))))))
        (λ _ h. h)

  -- As many entries as the header says, or none without the flag.
  abbrev pub HasHistory : RequestHeader → Bool → List (Bytes × Bytes) → Type 0
  HasHistory h flag es = if flag then length es ≡ h.history_count else es ≡ []

  history_if :
      (h : RequestHeader) (flag : Bool)
      → Gives 0 (HasHistory h flag) (if flag then read_entries p h.history_count else give [])
  history_if h false = give-Gives (λ es. es ≡ []) [] refl
  history_if h true = entries_lem h.history_count

  history_lem :
      (h : RequestHeader)
      → Gives 0 (HasHistory h (has_flag flag_structured h.schema_flags)) (read_history p h)
  unfolding read_history
  history_lem h = history_if h (has_flag flag_structured h.schema_flags)

  -- A request that has passed every test of the worker.
  pub record IsAccepted (req : ParsedRequest) : Type 0 where
    pub validated : validate_header p req.header ≡ none
    pub counted : check_counts p req.header ≡ none
    pub frames : length req.frames ≡ suc (image_count p req.header - 1)
    pub times :
        HasTimes req.header
          (has_flag flag_has_frame_timestamps req.header.schema_flags)
          req.timestamps
    pub history :
        HasHistory req.header (has_flag flag_structured req.header.schema_flags) req.history

  read_request-Gives : Gives 96 IsAccepted (read_request p)
  unfolding read_request
  read_request-Gives =
      bind-Gives 96 (λ _. Unit) IsAccepted (recv p.chunk 96) _ (recv-Gives 96)
        (λ bs _.
          let h = decode_header bs in
          bind-Gives 0 (λ _. validate_header p h ≡ none) IsAccepted (check (validate_header p h)) _
            (check-Gives _)
            (λ _ valid.
              bind-Gives 0 (λ _. check_counts p h ≡ none) IsAccepted (check (check_counts p h)) _
                (check-Gives _)
                (λ _ counted.
                  bind-Gives 0 (λ is. length is ≡ image_count p h - 1) IsAccepted
                    (read_image_headers p (image_count p h - 1)) _ (headers_lem _)
                    (λ extra few.
                      bind-Gives 0 (λ fs. length fs ≡ suc (length extra)) IsAccepted
                        (read_frames p (primary p h ∷ extra)) _ (frames_lem (primary p h ∷ extra))
                        (λ frames many.
                          bind-Gives 0
                            (HasTimes h (has_flag flag_has_frame_timestamps h.schema_flags))
                            IsAccepted (read_timestamps p h) _ (times_lem h)
                            (λ ts times.
                              bind-Gives 0 (λ _. Unit) IsAccepted (read_system p h) _ (system_lem h)
                                (λ system _.
                                  bind-Gives 0 (λ _. Unit) IsAccepted (read_text p h.prompt_bytes) _
                                    (any_text h.prompt_bytes)
                                    (λ prompt _.
                                      bind-Gives 0
                                        (HasHistory h (has_flag flag_structured h.schema_flags))
                                        IsAccepted (read_history p h) _ (history_lem h)
                                        (λ es entries. give-Gives IsAccepted _ (record {
                                          validated = valid;
                                          counted = counted;
                                          frames = many ∙ ap suc few;
                                          times = times;
                                          history = entries;
                                        }))))))))))

  -- Whatever request the worker takes from a stream has passed its tests of the header and of the counts, has as many frames as the header says, as many times, finite and strictly increasing, if it has times, and as many entries of history if it is structured, and at least the 96 bytes of its header have been taken from the stream.
  pub read_request-IsAccepted :
      (s : Bytes) (req : ParsedRequest) (s' : Bytes)
      → read_request p s ≡ got req s'
      → IsAccepted req × (96 + length s' ≤ length s)
  read_request-IsAccepted s req s' e = read_request-Gives s req s' e
