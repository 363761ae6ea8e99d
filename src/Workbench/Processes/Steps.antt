-- ===== src/Workbench/Processes/Steps.antt =====
-- The steps of a stop of web_console/process_manager.py, each on one process.
use ros2_vlm_demo.Common.{
  ℕ, zero, suc, ◌+◌, ◌<◌, ◌≡◌, ◌⊎◌, inl, inr, refl, ap, ◌∙◌, Bool, true, List, [], ◌∷◌, length,
  if◌then◌else◌, arith, All,
}
use ros2_vlm_demo.Workbench.Processes.{
  Completion, Process, test_stop, begin_stop, finish_stop, fire, call_next, call_back, update_at,
  process_at,
}
use ros2_vlm_demo.Workbench.Processes.Call.{is_stopped}
use ros2_vlm_demo.Workbench.Processes.Each.{IsProcess}
use ros2_vlm_demo.Workbench.Processes.Stable.{At, Entering, Stopping, Ended, Fired, Reported}

-- Stopped, with its callback called once.
abbrev pub IsFinished : Process → Type 0
IsFinished p = (p.stopped ≡ true) × ((p.callback_fired ≡ true) × (length p.calls ≡ 1))

-- Stopped, with its callback called once or due once by a thread that has set the flag, or else,
-- `early`, with a thread that is to take the lock of `_fire_completion`.
abbrev pub HasStopped : Bool → Process → Type 0
HasStopped early p =
    (p.stopped ≡ true)
    × ((length p.calls + length p.calling ≡ 1) ⊎ ((early ≡ true) × (0 < p.firing)))

pub change-At :
    (P Q : Process → Type 0) (f : Process → Process)
    → ((p : Process) → P p → Q (f p))
    → (i : ℕ) (ps : List Process) → At P i ps
    → At Q i (update_at i f ps)
change-At P Q f change i [] h = absurd h
change-At P Q f change zero (p ∷ ps) h = change p h
change-At P Q f change (suc i) (p ∷ ps) h = change-At P Q f change i ps h

-- Of a valid manager's process more is known.
pub with_valid :
    (P : Process → Type 0) (i : ℕ) (ps : List Process)
    → At P i ps
    → All IsProcess ps
    → At (λ p. P p × IsProcess p) i ps
with_valid P i [] h vs = absurd h
with_valid P zero (p ∷ ps) h (v, vs) = (h, v)
with_valid P (suc i) (p ∷ ps) h (v, vs) = with_valid P i ps h vs

pub map-At :
    (P Q : Process → Type 0)
    → ((p : Process) → P p → Q p)
    → (i : ℕ) (ps : List Process) → At P i ps
    → At Q i ps
map-At P Q f i [] h = absurd h
map-At P Q f zero (p ∷ ps) h = f p h
map-At P Q f (suc i) (p ∷ ps) h = map-At P Q f i ps h

pub enters : (p : Process) → Entering (test_stop p)
unfolding test_stop
enters p = ground arith

pub starts : (p : Process) → Entering p → Stopping (begin_stop p)
unfolding begin_stop
starts p h = ground arith

pub stops : (p : Process) → Stopping p → (finish_stop p).stopped ≡ true
unfolding finish_stop
stops p h = ground arith

pub ended : (p : Process) → (p.stopped ≡ true) × IsProcess p → Ended p
ended p (h, v) = let a = v.answered in (h, ground arith)

pub fired : (p : Process) → Ended p → Fired (fire p)
unfolding fire
fired p h = ground arith

pub Reported-call_next :
    (cs : List Completion) (p : Process)
    → p.calling ≡ cs
    → Fired p × IsProcess p
    → Reported (call_next cs p)
Reported-call_next [] p e ((h, k), v) = (h, (k, ap length e))
Reported-call_next (c ∷ cs) p e ((h, k), v) =
    let one = v.once ∙ ap (λ b. if b then 1 else 0) k in
    let long = ap length e in (h, (k, ground arith))

pub reported : (p : Process) → Fired p × IsProcess p → Reported (call_back p)
unfolding call_back
reported p h = Reported-call_next p.calling p refl h

pub finished : (p : Process) → Reported p × IsProcess p → IsFinished p
finished p ((h, (k, none_due)), v) =
    let one = v.once ∙ ap (λ b. if b then 1 else 0) k in (h, (k, ground arith))

pub called : (early : Bool) (p : Process) → Fired p × IsProcess p → HasStopped early p
called early p ((h, k), v) = (h, inl (v.once ∙ ap (λ b. if b then 1 else 0) k))

pub waits_for :
    (early : Bool) → early ≡ true → (p : Process) → Ended p × IsProcess p → HasStopped early p
waits_for early e p ((h, k), v) = elim k [
  | inl fired ↦ (h, inl (v.once ∙ ap (λ b. if b then 1 else 0) fired))
  | inr waiting ↦ (h, inr (e, waiting))
]

pub stopped-At :
    (i : ℕ) (ps : List Process)
    → At (λ _. Unit) i ps
    → is_stopped (process_at i ps) ≡ true
    → At (λ p. p.stopped ≡ true) i ps
stopped-At i [] h e = absurd h
stopped-At zero (p ∷ ps) h e = e
stopped-At (suc i) (p ∷ ps) h e = stopped-At i ps h e
