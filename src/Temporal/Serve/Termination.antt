-- ===== src/Temporal/Serve/Termination.antt =====
-- The loop over a connection ends.
use ros2_vlm_demo.Common.{
  ℕ, zero, suc, ◌+◌, ◌*◌, ◌/◌, ◌≤◌, ◌<◌, ◌≡◌, refl, Option, none, some, [], length, arith,
}
use ros2_vlm_demo.Temporal.Wire.{Bytes}
use ros2_vlm_demo.Temporal.Receive.Exact.{IsRecv}
use ros2_vlm_demo.Temporal.Stream.{Outcome, got, failed}
use ros2_vlm_demo.Temporal.Request.{Platform, ParsedRequest, read_request}
use ros2_vlm_demo.Temporal.Request.Parsed.{read_request-IsAccepted}
use ros2_vlm_demo.Temporal.Client.{Encoder}
use ros2_vlm_demo.Temporal.Serve.{
  Engine, Served, left, crashed, unfinished, after_response, respond, infer, serve_client,
}

module _ (p : Platform) (e : Encoder) (g : Engine) (is_recv : IsRecv p.chunk) where
  -- An end that is reached with at most so many answers.
  abbrev pub Ends : ℕ → Served p e g → Type 0
  Ends n (left sent) = length sent ≤ n
  Ends n (crashed sent) = length sent ≤ n
  Ends n unfinished = ⊥

  Ends-after :
      (n : ℕ) (o : Option Bytes) (rest : Served p e g)
      → Ends n rest
      → Ends (suc n) (after_response p e g o rest)
  Ends-after n none rest h = omega arith
  Ends-after n (some bs) (left sent) h = omega arith
  Ends-after n (some bs) (crashed sent) h = omega arith
  Ends-after n (some bs) unfinished h = absurd h

  Ends-read :
      (n : ℕ) (s : Bytes)
      → ((answer : Option Bytes) (rest : Bytes)
          → 96 + length rest ≤ length s
          → Ends n (after_response p e g answer (serve_client p e g n rest)))
      → (o : Outcome ParsedRequest) → read_request p s ≡ o
      → Ends n (elim o [
        | failed x ↦ left []
        | got req rest ↦
            after_response p e g
              (respond p e g req.header.request_id req (infer g req))
              (serve_client p e g n rest)
      ])
  Ends-read n s step (failed x) same = omega arith
  Ends-read n s step (got req rest) same =
      step (respond p e g req.header.request_id req (infer g req)) rest
        (read_request-IsAccepted p is_recv s req rest same).1

  Ends-with : (n : ℕ) (s : Bytes) → length s < 96 * suc n → Ends n (serve_client p e g (suc n) s)
  unfolding serve_client
  Ends-with zero s h = Ends-read 0 s (λ o rest few. absurd (omega arith)) (read_request p s) refl
  Ends-with (suc n) s h =
      Ends-read (suc n) s
        (λ o rest few.
          Ends-after n o (serve_client p e g (suc n) rest) (Ends-with n rest (omega arith)))
        (read_request p s) refl

  -- On whatever bytes a peer sends before it closes the connection, the loop over the connection ends, after at most one answer for every 96 bytes.
  pub serve_client_lem :
      (s : Bytes) → Ends (length s / 96) (serve_client p e g (suc (length s / 96)) s)
  serve_client_lem s = Ends-with (length s / 96) s (omega arith)
