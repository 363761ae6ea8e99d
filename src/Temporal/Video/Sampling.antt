-- ===== src/Temporal/Video/Sampling.antt =====
-- The metadata of whatever request the worker takes from its stream.
use ros2_vlm_demo.Common.{
  ℕ, suc, ◌-◌, ◌≡◌, ◌⊎◌, inl, inr, refl, sym, ap, ◌∙◌, Bool, true, false, not, ◌&&◌, ◌||◌, some,
  none, ltb, eqb, length, if◌then◌else◌, arith,
}
use ros2_vlm_demo.Float.{Float}
use ros2_vlm_demo.Temporal.Wire.{
  Bytes, RequestHeader, has_flag, flag_has_frame_timestamps, flag_multi_image,
}
use ros2_vlm_demo.Temporal.Receive.Exact.{IsRecv}
use ros2_vlm_demo.Temporal.Stream.{
  got, bad_image_count, bad_timestamp_count, timestamps_without_flag,
}
use ros2_vlm_demo.Temporal.Request.{
  Platform, ParsedRequest, check_counts, image_count, read_request,
}
use ros2_vlm_demo.Temporal.Request.Parsed.{HasTimes, IsAccepted, read_request-IsAccepted}
use ros2_vlm_demo.Temporal.Video.{Arithmetic, build_video_metadata}
use ros2_vlm_demo.Temporal.Video.Indices.{IsSampled, metadata_lem}

-- The tests of the counts, of the two flags.
count_of :
    (multi timed : Bool) (n images : ℕ)
    → timed ≡ true
    → (let count = if multi then images else 1 in
        if multi && (ltb count 2 || ltb 32 count)
        then some bad_image_count
        else if timed && not (eqb n count)
        then some bad_timestamp_count
        else if not timed && not (eqb n 0)
        then some timestamps_without_flag
        else none)
      ≡ none
    → n ≡ suc ((if multi then images else 1) - 1)
count_of multi timed n images flag e = ground arith

module _ (p : Platform) (is_recv : IsRecv p.chunk) where
  count_lem :
      (h : RequestHeader)
      → check_counts p h ≡ none
      → has_flag flag_has_frame_timestamps h.schema_flags ≡ true
      → h.timestamp_count ≡ suc (image_count p h - 1)
  unfolding check_counts
  count_lem h e flag =
      count_of (has_flag flag_multi_image h.schema_flags) _ h.timestamp_count h.image_count flag e

  times_lem :
      (req : ParsedRequest) (flag : Bool)
      → has_flag flag_has_frame_timestamps req.header.schema_flags ≡ flag
      → IsAccepted p is_recv req
      → HasTimes p is_recv req.header flag req.timestamps
      → (length req.timestamps ≡ 0) ⊎ (length req.timestamps ≡ length req.frames)
  times_lem req false e w h = inl (ap length h)
  times_lem req true e w (many, _) = inr (many ∙ count_lem req.header w.counted e ∙ sym w.frames)

  -- For whatever request the worker takes from a stream, with times or without, the video metadata either raises OverflowError, which it does exactly when it rounds the distance of one of the request's times from the first and that rounding raises, or it has as many frame indices as there are frames, strictly increasing and below `total_num_frames`.
  pub build_video_metadata-read_request :
      (a : Arithmetic) (timebase : Float) (s : Bytes) (req : ParsedRequest) (s' : Bytes)
      → read_request p s ≡ got req s'
      → IsSampled p a timebase
          (build_video_metadata p a timebase req)
          req.timestamps
          (length req.frames)
  build_video_metadata-read_request a timebase s req s' e =
      let (w, _) = read_request-IsAccepted p is_recv s req s' e in
      metadata_lem p a timebase req (times_lem req _ refl w w.times)
