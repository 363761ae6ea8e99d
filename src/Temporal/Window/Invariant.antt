-- ===== src/Temporal/Window/Invariant.antt =====
-- What holds of the node's window in every state that its threads reach.
use mathlib.Core.Path.{subst}
use ros2_vlm_demo.Common.{
  ℕ, ◌+◌, ◌≤◌, ◌<◌, ◌≡◌, refl, sym, Bool, true, false, ◌&&◌, Option, none, some, List, [], ◌∷◌,
  ◌++◌, eqb, ltb, length, length-append, arith, All, if_lem, ltb→lt, inl, inr, ◌⊎◌, Option-cases,
}
use ros2_vlm_demo.Float.{Float, lt, zero_f}
use ros2_vlm_demo.Temporal.Request.{is_finite}
use ros2_vlm_demo.Temporal.Client.{Array}
use ros2_vlm_demo.Temporal.Window.{
  Message, FrameRecord, Config, Node, is_config, start, ros_image_to_bgr, reset_temporal_window,
  append_bounded, admit, sample, convert, image_callback, Reaches, starts, calls_back, takes,
}

eqb_positive : (n : ℕ) → 0 < n → eqb n 0 ≡ false
eqb_positive n h = ground arith

module _ (sub : Float → Float → Float) (c : Config) where
  -- `b` is no earlier than `a`, within the gap, at least a period later, and the next frame taken.
  abbrev InStep : Float → Float → Type 0
  InStep a b =
      (lt (sub b a) zero_f ≡ false)
      × ((lt c.max_gap (sub b a) ≡ false) × (lt (sub b a) c.sample_period ≡ false))

  abbrev Adjacent : FrameRecord → FrameRecord → Type 0
  Adjacent a b = InStep a.stamp_sec b.stamp_sec × (b.sequence ≡ a.sequence + 1)

  abbrev pub Chain : List FrameRecord → Type 0
  Chain [] = Unit
  Chain (a ∷ []) = Unit
  Chain (a ∷ b ∷ xs) = Adjacent a b × Chain (b ∷ xs)

  abbrev pub HasFiniteTimes : List FrameRecord → Type 0
  HasFiniteTimes xs = All (λ r. is_finite r.stamp_sec ≡ true) xs

  -- A window that the node may send.
  pub record IsWindow (xs : List FrameRecord) : Type 0 where
    pub chain : Chain xs
    pub finite : HasFiniteTimes xs
    pub bounded : length xs ≤ c.window_frames

  abbrev After : List FrameRecord → FrameRecord → Type 0
  After [] x = Unit
  After (a ∷ []) x = Adjacent a x
  After (a ∷ b ∷ xs) x = After (b ∷ xs) x

  abbrev EndsAt : List FrameRecord → Option Float → ℕ → Type 0
  EndsAt [] last n = last ≡ none
  EndsAt (a ∷ []) last n = (last ≡ some a.stamp_sec) × (a.sequence ≡ n)
  EndsAt (a ∷ b ∷ xs) last n = EndsAt (b ∷ xs) last n

  abbrev pub Pending : Option (List FrameRecord) → Type 0
  Pending none = Unit
  Pending (some xs) =
      IsWindow xs × ((0 < length xs) × ((c.require_full ≡ false) ⊎ (length xs ≡ c.window_frames)))

  pub record IsValid (n : Node) : Type 0 where
    pub buffer : IsWindow n.buffer
    pub ends : EndsAt n.buffer n.last_sampled n.sequence
    pub pending : Pending n.pending

  abbrev Follows : Option Float → Float → Type 0
  Follows none stamp = Unit
  Follows (some last) stamp = InStep last stamp

  Chain-append :
      (xs : List FrameRecord) (x : FrameRecord) → Chain xs → After xs x → Chain (xs ++ (x ∷ []))
  Chain-append [] x ch af = tt
  Chain-append (a ∷ []) x ch af = (af, tt)
  Chain-append (a ∷ b ∷ xs) x (ab, ch) af = (ab, Chain-append (b ∷ xs) x ch af)

  After-tail :
      (y : FrameRecord) (ys : List FrameRecord) (x : FrameRecord) → After (y ∷ ys) x → After ys x
  After-tail y [] x af = tt
  After-tail y (z ∷ ys) x af = af

  Chain-tail : (y : FrameRecord) (ys : List FrameRecord) → Chain (y ∷ ys) → Chain ys
  Chain-tail y [] ch = tt
  Chain-tail y (z ∷ ys) (yz, ch) = ch

  finite_append :
      (xs : List FrameRecord) (x : FrameRecord)
      → HasFiniteTimes xs
      → is_finite x.stamp_sec ≡ true
      → HasFiniteTimes (xs ++ (x ∷ []))
  finite_append [] x h k = (k, tt)
  finite_append (a ∷ xs) x (ha, h) k = (ha, finite_append xs x h k)

  EndsAt-append :
      (xs : List FrameRecord) (x : FrameRecord)
      → EndsAt (xs ++ (x ∷ [])) (some x.stamp_sec) x.sequence
  EndsAt-append [] x = (refl, refl)
  EndsAt-append (a ∷ []) x = (refl, refl)
  EndsAt-append (a ∷ b ∷ xs) x = EndsAt-append (b ∷ xs) x

  After-EndsAt :
      (xs : List FrameRecord) (last : Option Float) (n : ℕ) (x : FrameRecord)
      → EndsAt xs last n
      → Follows last x.stamp_sec
      → x.sequence ≡ n + 1
      → After xs x
  After-EndsAt [] last n x e f s = tt
  After-EndsAt (a ∷ []) last n x (e, k) f s = (subst (λ l. Follows l x.stamp_sec) e f, omega arith)
  After-EndsAt (a ∷ b ∷ xs) last n x e f s = After-EndsAt (b ∷ xs) last n x e f s

  append-IsWindow :
      (xs : List FrameRecord) (x : FrameRecord)
      → Chain xs
      → HasFiniteTimes xs
      → After xs x
      → is_finite x.stamp_sec ≡ true
      → length xs < c.window_frames
      → IsWindow (xs ++ (x ∷ []))
  append-IsWindow xs x ch fi af k few = record {
    chain = Chain-append xs x ch af;
    finite = finite_append xs x fi k;
    bounded = omega (arith, length-append xs (x ∷ []));
  }

  -- A window to which the frame has been added: the last conjunct is for the window's end.
  abbrev Added : FrameRecord → List FrameRecord → Type 0
  Added x xs = IsWindow xs × ((0 < length xs) × EndsAt xs (some x.stamp_sec) x.sequence)

  added :
      (xs : List FrameRecord) (x : FrameRecord)
      → Chain xs
      → HasFiniteTimes xs
      → After xs x
      → is_finite x.stamp_sec ≡ true
      → length xs < c.window_frames
      → Added x (xs ++ (x ∷ []))
  added xs x ch fi af k few = (
    append-IsWindow xs x ch fi af k few,
    (omega (arith, length-append xs (x ∷ [])), EndsAt-append xs x),
  )

  append_bounded_lem :
      (xs : List FrameRecord) (x : FrameRecord)
      → IsWindow xs
      → After xs x
      → is_finite x.stamp_sec ≡ true
      → 0 < c.window_frames
      → Added x (append_bounded c.window_frames xs x)
  append_bounded_lem [] x w af k some_frames =
      rw (eqb_positive c.window_frames some_frames) (added [] x tt tt tt k some_frames)
  append_bounded_lem (y ∷ ys) x w af k some_frames =
      if_lem (Added x) (ltb (length (y ∷ ys)) c.window_frames) ((y ∷ ys) ++ (x ∷ []))
        (ys ++ (x ∷ []))
        (λ few.
          added (y ∷ ys) x w.chain w.finite af k (ltb→lt (length (y ∷ ys)) c.window_frames few))
        (λ full.
          let few = w.bounded in
          let (fy, fys) = w.finite in
          added ys x (Chain-tail y ys w.chain) fys (After-tail y ys x af) k (omega arith))

  full_lem :
      (full : Bool) (n limit : ℕ)
      → (full && ltb n limit) ≡ false
      → n ≤ limit
      → (full ≡ false) ⊎ (n ≡ limit)
  full_lem full n limit h few = ground arith

  sample_lem :
      (stamp : Float) (image : Array) (n : Node)
      → IsValid n
      → Follows n.last_sampled stamp
      → is_finite stamp ≡ true
      → 0 < c.window_frames
      → IsValid (sample sub c stamp image n)
  unfolding sample
  sample_lem stamp image n v f k some_frames =
      let x : FrameRecord = record {
        image = image;
        stamp_sec = stamp;
        sequence = n.sequence + 1;
      } in
      let xs = append_bounded c.window_frames n.buffer x in
      let (window, (nonempty, ends)) =
        append_bounded_lem n.buffer x v.buffer
          (After-EndsAt n.buffer n.last_sampled n.sequence x v.ends f refl) k some_frames in
      record {
        buffer = window;
        ends = ends;
        pending =
            if_lem Pending (c.require_full && ltb (length xs) c.window_frames) n.pending (some xs)
              (λ h. v.pending)
              (λ h. (
                window,
                (nonempty, full_lem c.require_full (length xs) c.window_frames h window.bounded),
              ));
      }

  abbrev Admitted : Float → Option Node → Type 0
  Admitted stamp none = Unit
  Admitted stamp (some n) = IsValid n × Follows n.last_sampled stamp

  reset_lem : (n : Node) → IsValid (reset_temporal_window n)
  reset_lem n = record {
    buffer = record { chain = tt; finite = tt; bounded = omega arith };
    ends = refl;
    pending = tt;
  }

  admit_lem :
      (last : Option Float) (stamp : Float) (n : Node)
      → IsValid n
      → n.last_sampled ≡ last
      → Admitted stamp (admit sub c last stamp n)
  unfolding admit
  admit_lem none stamp n v e = (v, subst (λ l. Follows l stamp) (sym e) tt)
  admit_lem (some last) stamp n v e =
      if_lem (Admitted stamp) (lt (sub stamp last) zero_f) _ _ (λ back. (reset_lem n, tt))
        (λ forth.
          if_lem (Admitted stamp) (lt c.max_gap (sub stamp last)) _ _ (λ late. (reset_lem n, tt))
            (λ soon.
              if_lem (Admitted stamp) (lt (sub stamp last) c.sample_period) _ _ (λ skip. tt)
                (λ apart. (v, subst (λ l. Follows l stamp) (sym e) (forth, (soon, apart))))))

  convert_lem :
      (m : Message) (n : Node)
      → IsValid n
      → Follows n.last_sampled m.stamp
      → is_finite m.stamp ≡ true
      → 0 < c.window_frames
      → IsValid (convert sub c m n)
  unfolding convert
  convert_lem m n v f k some_frames = elim (Option-cases (ros_image_to_bgr m)) [
    | inl e ↦ rw (e, convert) v
    | inr (image, e) ↦ rw (e, convert) (sample_lem m.stamp image n v f k some_frames)
  ]

  callback_lem :
      (m : Message) (n : Node)
      → IsValid n
      → is_finite m.stamp ≡ true
      → 0 < c.window_frames
      → IsValid (image_callback sub c m n)
  unfolding image_callback
  callback_lem m n v k some_frames = elim (Option-cases (admit sub c n.last_sampled m.stamp n)) [
    | inl e ↦ rw (e, image_callback) v
    | inr (n', e) ↦
        let (v', f) = subst (Admitted m.stamp) e (admit_lem n.last_sampled m.stamp n v refl) in
        rw (e, image_callback) (convert_lem m n' v' f k some_frames)
  ]

  some_frames_lem : is_config c ≡ true → 0 < c.window_frames
  unfolding is_config
  some_frames_lem h = ground arith

  -- In every state that the callback and the worker's thread reach from the start, under parameters that the constructor takes and for messages with finite times, the buffer has at most `temporal_window_frames` frames, the newest has the time and the number of the last sample, two neighbours are no step back, within the gap, at least a period apart and numbered in a row, and a pending window is such a window, not empty, and full if full windows are required.
  pub Reaches-IsValid : (n : Node) → is_config c ≡ true → Reaches sub c n → IsValid n
  Reaches-IsValid n fine starts = reset_lem start
  Reaches-IsValid n fine (calls_back n' m finite before) =
      callback_lem m n' (Reaches-IsValid n' fine before) finite (some_frames_lem fine)
  Reaches-IsValid n fine (takes n' before) =
      let v = Reaches-IsValid n' fine before in
      record { buffer = v.buffer; ends = v.ends; pending = tt }
