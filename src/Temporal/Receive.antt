-- ===== src/Temporal/Receive.antt =====
-- `recv_exact` of flashrt_temporal/ipc_protocol.py. The peer's bytes are a list that ends where it
-- closes; `chunk left remaining` is how many bytes a `recv` gives, as far as the list reaches, when
-- `left` bytes of the connection have not been read yet.
pub mod Exact
use ros2_vlm_demo.Common.{
  ℕ, zero, suc, ◌+◌, ◌-◌, ◌<◌, ◌≤◌, Option, none, some, List, [], ◌∷◌, ◌++◌, length, eqb, is_empty,
  if◌then◌else◌, Bool,
}
use ros2_vlm_demo.Temporal.Wire.{Bytes, take, drop}

-- What a call comes to: the bytes and the rest of the stream, EOFError, or fuel that has run out.
pub data Received : Type 0 where
  received : Bytes → Bytes → Received
  closed : Received
  unfinished : Received

module _ (chunk : ℕ → ℕ → ℕ) where
  -- `while remaining`, with fuel.
  unfoldable pub recv_loop : ℕ → ℕ → Bytes → Bytes → Received
  recv_loop zero remaining got stream = unfinished
  recv_loop (suc fuel) remaining got stream =
      let piece = take (chunk (length stream) remaining) stream in
      let rest =
        recv_loop fuel (remaining - length piece) (got ++ piece)
          (drop (chunk (length stream) remaining) stream) in
      if eqb remaining 0 then received got stream else if is_empty piece then closed else rest

  unfoldable pub recv_exact : ℕ → Bytes → Received
  unfolding recv_loop
  recv_exact size stream = recv_loop (size + 1) size [] stream
