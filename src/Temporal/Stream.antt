-- ===== src/Temporal/Stream.antt =====
-- Reading from a connection: a result and the rest of the stream, or what is raised.
pub mod Gives
use ros2_vlm_demo.Common.{ℕ, ◌≡◌, Option, none, some}
use ros2_vlm_demo.Temporal.Wire.{Bytes}
use ros2_vlm_demo.Temporal.Receive.{Received, received, closed, unfinished, recv_exact}

-- The messages of ValueError, EOFError, and the error of a text that is no UTF-8.
pub data Fault : Type 0 where
  eof_error unicode_error : Fault
  bad_magic bad_pixels zero_frame bad_step bad_image_size image_too_large text_too_large : Fault
  too_many_entries bad_sequence_type bad_fps fps_without_flag bad_image_count : Fault
  bad_timestamp_count timestamps_without_flag bad_extra_header : Fault
  infinite_timestamp timestamps_not_increasing entry_too_large bad_response : Fault

pub data Outcome (A : Type 0) : Type 0 where
  got : A → Bytes → Outcome A
  failed : Fault → Outcome A

abbrev pub Reader : Type 0 → Type 0
Reader A = Bytes → Outcome A

infixl 5 ◌>>=◌ ◌>>◌
abbrev pub ◌>>=◌ : {A B : Type 0} → Reader A → (A → Reader B) → Reader B
◌>>=◌ m f s = elim (m s) [ failed e ↦ failed e | got a s' ↦ f a s' ]

abbrev pub ◌>>◌ : {A B : Type 0} → Reader A → Reader B → Reader B
◌>>◌ m k = m >>= λ _. k

abbrev pub give : {A : Type 0} → A → Reader A
give a s = got a s

-- A step whose result is known.
pub bind-got :
    {A B : Type 0} (m : Reader A) (f : A → Reader B) (s : Bytes) {a : A} {s' : Bytes}
    → m s ≡ got a s'
    → (m >>= f) s ≡ f a s'
bind-got m f s e = rw (e, ◌>>=◌)

pub bind-failed :
    {A B : Type 0} (m : Reader A) (f : A → Reader B) (s : Bytes) {x : Fault}
    → m s ≡ failed x
    → (m >>= f) s ≡ failed x
bind-failed m f s e = rw (e, ◌>>=◌)

-- `raise`, if there is something to raise.
abbrev pub check : Option Fault → Reader (Unit {0})
check none s = got tt s
check (some e) s = failed e

abbrev pub decoded : Option Bytes → Reader Bytes
decoded none s = failed unicode_error
decoded (some t) s = got t s

abbrev pub as_outcome : Received → Outcome Bytes
as_outcome (received bs rest) = got bs rest
as_outcome closed = failed eof_error
as_outcome unfinished = failed eof_error

unfoldable pub recv : (ℕ → ℕ → ℕ) → ℕ → Reader Bytes
unfolding recv_exact
recv chunk n s = as_outcome (recv_exact chunk n s)
