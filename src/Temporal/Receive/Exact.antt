-- ===== src/Temporal/Receive/Exact.antt =====
-- `recv_exact` of flashrt_temporal/ipc_protocol.py ends, and does not depend on how the peer's bytes
-- are cut into pieces.
use mathlib.Core.List.{append_assoc, append-nil}
use ros2_vlm_demo.Common.{
  ℕ, zero, suc, ◌+◌, ◌-◌, ◌<◌, ◌≤◌, ◌≡◌, refl, ap, ◌∙◌, [], ◌∷◌, ◌++◌, length, eqb, leb, is_empty,
  if◌then◌else◌, false, Bool-cases, inl, inr, arith,
}
use ros2_vlm_demo.Temporal.Wire.{Bytes, take, drop}
use ros2_vlm_demo.Temporal.Receive.{Received, received, closed, recv_loop, recv_exact}

-- `recv` gives at least one byte of an open stream, and no more than it is asked for.
abbrev pub IsRecv : (ℕ → ℕ → ℕ) → Type 0
IsRecv chunk = (k n : ℕ) → 0 < n → (0 < chunk k n) × (chunk k n ≤ n)

-- The first bytes of the stream if it is long enough, and EOFError otherwise.
abbrev pub take_exactly : ℕ → Bytes → Received
take_exactly size stream =
    if leb size (length stream) then received (take size stream) (drop size stream) else closed

take-nil : (n : ℕ) → take n [] ≡ []
take-nil zero = refl
take-nil (suc n) = refl

drop-nil : (n : ℕ) → drop n [] ≡ []
drop-nil zero = refl
drop-nil (suc n) = refl

pub length-take : (n : ℕ) (bs : Bytes) → n ≤ length bs → length (take n bs) ≡ n
length-take zero bs h = refl
length-take (suc n) [] h = absurd (omega arith)
length-take (suc n) (b ∷ bs) h = omega (arith, length-take n bs (omega arith))

-- Of a list that is too short all is taken.
take_all : (n : ℕ) (bs : Bytes) → length bs ≤ n → take n bs ≡ bs
take_all n [] h = take-nil n
take_all zero (b ∷ bs) h = absurd (omega arith)
take_all (suc n) (b ∷ bs) h = ap (λ t. b ∷ t) (take_all n bs (omega arith))

drop_all : (n : ℕ) (bs : Bytes) → length bs ≤ n → drop n bs ≡ []
drop_all n [] h = drop-nil n
drop_all zero (b ∷ bs) h = absurd (omega arith)
drop_all (suc n) (b ∷ bs) h = drop_all n bs (omega arith)

pub length-drop : (n : ℕ) (bs : Bytes) → length (drop n bs) ≡ length bs - n
length-drop zero bs = omega arith
length-drop (suc n) [] = omega arith
length-drop (suc n) (b ∷ bs) = omega (arith, length-drop n bs)

take-add : (m n k : ℕ) (bs : Bytes) → m + n ≡ k → take m bs ++ take n (drop m bs) ≡ take k bs
take-add zero n k bs e = let e' : n ≡ k = omega arith in rw e' refl
take-add (suc m) n zero bs e = absurd (omega arith)
take-add (suc m) n (suc k) [] e = take-nil n
take-add (suc m) n (suc k) (b ∷ bs) e = ap (λ t. b ∷ t) (take-add m n k bs (omega arith))

drop-add : (m n k : ℕ) (bs : Bytes) → m + n ≡ k → drop n (drop m bs) ≡ drop k bs
drop-add zero n k bs e = let e' : n ≡ k = omega arith in rw e' refl
drop-add (suc m) n zero bs e = absurd (omega arith)
drop-add (suc m) n (suc k) [] e = drop-nil n
drop-add (suc m) n (suc k) (b ∷ bs) e = drop-add m n k bs (omega arith)

take_nonempty : (n : ℕ) (b : ℕ) (bs : Bytes) → 0 < n → is_empty (take n (b ∷ bs)) ≡ false
take_nonempty zero b bs h = absurd (omega arith)
take_nonempty (suc n) b bs h = refl

not_zero : (n : ℕ) → eqb (suc n) 0 ≡ false
not_zero n = ground arith

module _ (chunk : ℕ → ℕ → ℕ) (is_recv : IsRecv chunk) where
  abbrev outcome : ℕ → Bytes → Bytes → Received
  outcome n got stream =
      if leb n (length stream) then received (got ++ take n stream) (drop n stream) else closed

  -- One piece of a stream that is long enough for it, and what is left to do.
  outcome_step :
      (c n : ℕ) (got stream : Bytes)
      → c ≤ n
      → c ≤ length stream
      → outcome (n - c) (got ++ take c stream) (drop c stream) ≡ outcome n got stream
  outcome_step c n got stream h k =
      rw
        (
          append_assoc got (take c stream) (take (n - c) (drop c stream)),
          take-add c (n - c) n stream (omega arith),
          drop-add c (n - c) n stream (omega arith),
          length-drop c stream,
        )
        (ground arith)

  recv_loop_lem :
      (fuel n : ℕ) (got stream : Bytes)
      → n < fuel
      → recv_loop chunk fuel n got stream ≡ outcome n got stream
  unfolding recv_loop
  recv_loop_lem zero n got stream h = absurd (omega arith)
  recv_loop_lem (suc fuel) zero got stream h = rw (append-nil got) (ground arith)
  recv_loop_lem (suc fuel) (suc n) got [] h = rw (take-nil (chunk 0 (suc n))) (ground arith)
  recv_loop_lem (suc fuel) (suc n) got (b ∷ bs) h =
      let (some_bytes, few) = is_recv (length (b ∷ bs)) (suc n) (omega arith) in
      let c : ℕ = chunk (length (b ∷ bs)) (suc n) in
      rw (take_nonempty c b bs some_bytes, not_zero n)
        (elim (Bool-cases (leb c (length (b ∷ bs)))) [
          | inl fits ↦
              let le : c ≤ length (b ∷ bs) = ground arith in
              rw (length-take c (b ∷ bs) le) (
                recv_loop_lem fuel (suc n - c) (got ++ take c (b ∷ bs)) (drop c (b ∷ bs))
                  (omega arith)
                ∙ outcome_step c (suc n) got (b ∷ bs) few le)
          | inr short ↦
              let le : length (b ∷ bs) ≤ c = ground arith in
              rw (take_all c (b ∷ bs) le, drop_all c (b ∷ bs) le)
                (recv_loop_lem fuel (suc n - length (b ∷ bs)) (got ++ b ∷ bs) [] (omega arith)
                  ∙ ground arith)
        ])

  -- However the peer's bytes are cut into pieces, recv_exact ends: it returns the first bytes of the
  -- stream and leaves the rest, or raises EOFError if there are too few.
  pub recv_exact_lem :
      (size : ℕ) (stream : Bytes) → recv_exact chunk size stream ≡ take_exactly size stream
  unfolding recv_exact
  recv_exact_lem size stream = recv_loop_lem (size + 1) size [] stream (omega arith)
