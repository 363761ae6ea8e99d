-- ===== src/Temporal/Video/Indices.antt =====
-- The frame indices that the worker hands to its processor.
use mathlib.Core.Path.{subst}
use ros2_vlm_demo.Common.{
  ℕ, zero, suc, ◌+◌, ◌≤◌, ◌<◌, ◌≡◌, refl, ap, Option, none, some, false, List, [], ◌∷◌, map, leb,
  length, if◌then◌else◌, arith, All, ◌⊎◌, inl, inr,
}
use ros2_vlm_demo.Float.{Float}
use ros2_vlm_demo.Temporal.Request.{Platform, ParsedRequest}
use ros2_vlm_demo.Temporal.Video.{
  Arithmetic, Metadata, and_index, rounded_all, indexed, spread, last_of, range_from,
  timed_metadata, untimed_metadata, build_video_metadata,
}

-- Each number above the one before it, the first above `previous`.
abbrev Rises : ℕ → List ℕ → Type 0
Rises previous [] = Unit
Rises previous (i ∷ is) = (previous < i) × Rises i is

abbrev pub IsRising : List ℕ → Type 0
IsRising [] = Unit
IsRising (i ∷ is) = Rises i is

abbrev pub Each≤ : List ℕ → List ℕ → Type 0
Each≤ [] ys = Unit
Each≤ (x ∷ xs) [] = ⊥
Each≤ (x ∷ xs) (y ∷ ys) = (x ≤ y) × Each≤ xs ys

Rises-spread : (previous : ℕ) (is : List ℕ) → Rises previous (spread previous is)
Rises-spread previous [] = tt
Rises-spread previous (i ∷ is) =
    let index = if leb i previous then previous + 1 else i in (ground arith, Rises-spread index is)

Each≤-spread : (previous : ℕ) (is : List ℕ) → Each≤ is (spread previous is)
Each≤-spread previous [] = tt
Each≤-spread previous (i ∷ is) =
    let index = if leb i previous then previous + 1 else i in (ground arith, Each≤-spread index is)

length-spread : (previous : ℕ) (is : List ℕ) → length (spread previous is) ≡ length is
length-spread previous [] = refl
length-spread previous (i ∷ is) =
    let index = if leb i previous then previous + 1 else i in ap suc (length-spread index is)

not_back : (i previous : ℕ) → previous < i → leb i previous ≡ false
not_back i previous h = ground arith

-- A list that rises is left as it is.
spread-Rises : (previous : ℕ) (is : List ℕ) → Rises previous is → spread previous is ≡ is
spread-Rises previous [] h = refl
spread-Rises previous (i ∷ is) (h, k) =
    rw (not_back i previous h) (ap (λ t. i ∷ t) (spread-Rises i is k))

previous_lem : (previous : ℕ) (is : List ℕ) → Rises previous is → previous ≤ last_of previous is
previous_lem previous [] h = omega arith
previous_lem previous (i ∷ is) (h, k) = omega (arith, previous_lem i is k)

last_lem :
    (previous : ℕ) (is : List ℕ) → Rises previous is → All (λ i. i < last_of previous is + 1) is
last_lem previous [] h = tt
last_lem previous (i ∷ is) (h, k) = (omega (arith, previous_lem i is k), last_lem i is k)

Rises-after : (i n : ℕ) → Rises i (range_from (i + 1) n)
Rises-after i zero = tt
Rises-after i (suc n) = (omega arith, Rises-after (i + 1) n)

range_rises : (i n : ℕ) → IsRising (range_from i n)
range_rises i zero = tt
range_rises i (suc n) = Rises-after i n

range_below : (i n m : ℕ) → i + n ≤ m → All (λ j. j < m) (range_from i n)
range_below i zero m h = tt
range_below i (suc n) m h = (omega arith, range_below (i + 1) n m (omega arith))

length-range_from : (i n : ℕ) → length (range_from i n) ≡ n
length-range_from i zero = refl
length-range_from i (suc n) = ap suc (length-range_from (i + 1) n)

length-map_lem : {A B : Type 0} (f : A → B) (xs : List A) → length (map f xs) ≡ length xs
length-map_lem f [] = refl
length-map_lem f (x ∷ xs) = ap suc (length-map_lem f xs)

-- Rising indices below the number of frames.
pub record IsSampling (m : Metadata) (frames : ℕ) : Type 0 where
  pub rising : IsRising m.frames_indices
  pub below : All (λ i. i < m.total_num_frames) m.frames_indices
  pub one_each : length m.frames_indices ≡ frames

module _ (p : Platform) (a : Arithmetic) (timebase : Float) where
  -- The rounding of one of the times raises OverflowError, counted from the time `first`.
  abbrev pub Overflows : Float → List Float → Type 0
  Overflows first [] = ⊥
  Overflows first (t ∷ ts) = (a.index_of (a.since t first) ≡ none) ⊎ Overflows first ts

  abbrev pub HasOverflow : List Float → Type 0
  HasOverflow [] = ⊥
  HasOverflow (first ∷ ts) = Overflows first (first ∷ ts)

  -- The two results of the metadata: OverflowError for a time, or indices for the frames.
  abbrev pub IsSampled : Option Metadata → List Float → ℕ → Type 0
  IsSampled result ts frames =
      ((result ≡ none) × HasOverflow ts)
      ⊎ ((m : Metadata) × ((result ≡ some m) × ((¬ HasOverflow ts) × IsSampling m frames)))

  none_or_some : (i : ℕ) → Path (Option ℕ) (some i) none → ⊥
  none_or_some i h = ground arith

  and_index-none : (o : Option ℕ) → and_index o none ≡ none
  and_index-none none = refl
  and_index-none (some i) = refl

  neither : (i : ℕ) (P : Type 0) → (¬ P) → ¬ ((some i ≡ none) ⊎ P)
  neither i P fine (inl h) = none_or_some i h
  neither i P fine (inr h) = fine h

  both :
      (o : Option ℕ) (rest : Option (List ℕ)) (P : Type 0) (n : ℕ)
      → ((rest ≡ none) × P) ⊎ ((is : List ℕ) × ((rest ≡ some is) × ((¬ P) × (length is ≡ n))))
      → ((and_index o rest ≡ none) × ((o ≡ none) ⊎ P))
        ⊎ ((is : List ℕ) × ((and_index o rest ≡ some is)
              × ((¬ ((o ≡ none) ⊎ P)) × (length is ≡ suc n))))
  both o rest P n (inl (raised, h)) = inl (rw (raised) (and_index-none o), inr h)
  both none rest P n (inr h) = inl (refl, inl refl)
  both (some i) rest P n (inr (is, (made, (fine, many)))) =
      inr (i ∷ is, (rw (made) refl, (neither i P fine, ap suc many)))

  rounded_all_lem :
      (first : Float) (ts : List Float)
      → ((rounded_all p a timebase (map (λ t. a.since t first) ts) ≡ none) × Overflows first ts)
        ⊎ ((is : List ℕ) × ((rounded_all p a timebase (map (λ t. a.since t first) ts) ≡ some is)
              × ((¬ Overflows first ts) × (length is ≡ length ts))))
  unfolding rounded_all
  rounded_all_lem first [] = inr ([], (refl, (λ h. h, refl)))
  rounded_all_lem first (t ∷ ts) =
      both (a.index_of (a.since t first)) _ (Overflows first ts) (length ts)
        (rounded_all_lem first ts)

  indexed_lem :
      (relative : List Float) (i : ℕ) (is : List ℕ)
      → IsSampling (indexed p a timebase relative (i ∷ is)) (suc (length is))
  indexed_lem relative i is =
      let rises = Rises-spread i is in
      record {
        rising = rises;
        below = (omega (arith, previous_lem i _ rises), last_lem i _ rises);
        one_each = ap suc (length-spread i is);
      }

  timed_lem :
      (first : Float) (ts : List Float)
      → IsSampled (timed_metadata p a timebase first ts) (first ∷ ts) (length (first ∷ ts))
  unfolding timed_metadata
  timed_lem first ts = elim (rounded_all_lem first (first ∷ ts)) [
    | inl (raised, which) ↦ inl (rw (raised) refl, which)
    | inr ([], (made, (none_raises, many))) ↦ absurd (omega (arith, many))
    | inr (i ∷ is, (made, (none_raises, many))) ↦
        let relative = map (λ t. a.since t first) (first ∷ ts) in
        inr (
          indexed p a timebase relative (i ∷ is),
          (
            rw (made) refl,
            (
              none_raises,
              subst (IsSampling (indexed p a timebase relative (i ∷ is))) many
                  (indexed_lem relative i is),
            ),
          ),
        )
  ]

  untimed_lem :
      (req : ParsedRequest) → IsSampling (untimed_metadata p a timebase req) (length req.frames)
  unfolding untimed_metadata
  untimed_lem req = record {
    rising = range_rises 0 (length req.frames);
    below = range_below 0 (length req.frames) (length req.frames) (omega arith);
    one_each = length-range_from 0 (length req.frames);
  }

  metadata_of :
      (req : ParsedRequest) (ts : List Float)
      → req.timestamps ≡ ts
      → (length ts ≡ 0) ⊎ (length ts ≡ length req.frames)
      → IsSampled (build_video_metadata p a timebase req) ts (length req.frames)
  unfolding build_video_metadata
  metadata_of req [] e h =
      rw (e, build_video_metadata)
        (inr (untimed_metadata p a timebase req, (refl, (λ x. x, untimed_lem req))))
  metadata_of req (first ∷ ts) e (inl h) = absurd (omega (arith, h))
  metadata_of req (first ∷ ts) e (inr h) =
      rw (e, build_video_metadata)
        (subst (IsSampled (timed_metadata p a timebase first ts) (first ∷ ts)) h
          (timed_lem first ts))

  pub metadata_lem :
      (req : ParsedRequest)
      → (length req.timestamps ≡ 0) ⊎ (length req.timestamps ≡ length req.frames)
      → IsSampled (build_video_metadata p a timebase req) req.timestamps (length req.frames)
  metadata_lem req h = metadata_of req req.timestamps refl h
