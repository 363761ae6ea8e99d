-- ===== src/Workbench/Processes/Stable.antt =====
-- What no move of web_console/process_manager.py takes away from a process.
use ros2_vlm_demo.Common.{
  ℕ, zero, suc, ◌<◌, ◌≡◌, ◌⊎◌, refl, ap, length, ◌+◌, String, Bool, true, ◌||◌, Option, none, some,
  List, [], ◌∷◌, ◌++◌, if_lem, arith,
}
use ros2_vlm_demo.Common.Int.{ℤ}
use ros2_vlm_demo.Workbench.Processes.{
  Process, Manager, new_process, has_active, is_some, reserve, register, exits, collect, test_stop,
  begin_stop, finish_stop, wait_returns, fire, Completion, call_next, call_back, tests_stop,
  calls_back, Move, reserves, registers, abandons, ends, prints, begins_stop, finishes_stop, waits,
  fires, update_at, step, run,
}

-- The process with that number satisfies `P`.
abbrev pub At : (Process → Type 0) → ℕ → List Process → Type 0
At P i [] = ⊥
At P zero (p ∷ ps) = P p
At P (suc i) (p ∷ ps) = At P i ps

-- What no change of a process takes away.
pub record IsStable (P : Process → Type 0) : Type 0 where
  exits : (code : ℤ) (p : Process) → P p → P (exits code p)
  collect : (line : String) (p : Process) → P p → P (collect line p)
  test_stop : (p : Process) → P p → P (test_stop p)
  begin_stop : (p : Process) → P p → P (begin_stop p)
  finish_stop : (p : Process) → P p → P (finish_stop p)
  wait_returns : (p : Process) → P p → P (wait_returns p)
  fire : (p : Process) → P p → P (fire p)
  call_back : (p : Process) → P p → P (call_back p)

-- Stopped, or a thread is in `_stop_process` past its test.
abbrev pub Entering : Process → Type 0
Entering p = (p.stopped ≡ true) ⊎ (0 < p.entering + p.stopping)

Entering-call_next : (cs : List Completion) (p : Process) → Entering p → Entering (call_next cs p)
Entering-call_next [] p h = h
Entering-call_next (c ∷ cs) p h = h

pub Entering-IsStable : IsStable Entering
unfolding exits collect test_stop begin_stop finish_stop wait_returns fire call_back
Entering-IsStable = record {
  exits = λ code p h. ground arith;
  collect = λ line p h. ground arith;
  test_stop = λ p h. ground arith;
  begin_stop = λ p h. ground arith;
  finish_stop = λ p h. ground arith;
  wait_returns = λ p h. ground arith;
  fire = λ p h. ground arith;
  call_back = λ p h. Entering-call_next p.calling p h;
}

-- Stopped, or a thread is between the two locks of `_stop_process`.
abbrev pub Stopping : Process → Type 0
Stopping p = (p.stopped ≡ true) ⊎ (0 < p.stopping)

Stopping-call_next : (cs : List Completion) (p : Process) → Stopping p → Stopping (call_next cs p)
Stopping-call_next [] p h = h
Stopping-call_next (c ∷ cs) p h = h

pub Stopping-IsStable : IsStable Stopping
unfolding exits collect test_stop begin_stop finish_stop wait_returns fire call_back
Stopping-IsStable = record {
  exits = λ code p h. ground arith;
  collect = λ line p h. ground arith;
  test_stop = λ p h. ground arith;
  begin_stop = λ p h. ground arith;
  finish_stop = λ p h. ground arith;
  wait_returns = λ p h. ground arith;
  fire = λ p h. ground arith;
  call_back = λ p h. Stopping-call_next p.calling p h;
}

-- Stopped, and `_fire_completion` has set its flag.
abbrev pub Fired : Process → Type 0
Fired p = (p.stopped ≡ true) × (p.callback_fired ≡ true)

Fired-call_next : (cs : List Completion) (p : Process) → Fired p → Fired (call_next cs p)
Fired-call_next [] p h = h
Fired-call_next (c ∷ cs) p h = h

pub Fired-IsStable : IsStable Fired
unfolding exits collect test_stop begin_stop finish_stop wait_returns fire call_back
Fired-IsStable = record {
  exits = λ code p h. ground arith;
  collect = λ line p h. ground arith;
  test_stop = λ p h. ground arith;
  begin_stop = λ p h. ground arith;
  finish_stop = λ p h. ground arith;
  wait_returns = λ p h. ground arith;
  fire = λ p h. ground arith;
  call_back = λ p h. Fired-call_next p.calling p h;
}

-- Stopped, and a thread is to take the lock of `_fire_completion` or its flag is set.
abbrev pub Ended : Process → Type 0
Ended p = (p.stopped ≡ true) × ((p.callback_fired ≡ true) ⊎ (0 < p.firing))

Ended-call_next : (cs : List Completion) (p : Process) → Ended p → Ended (call_next cs p)
Ended-call_next [] p h = h
Ended-call_next (c ∷ cs) p h = h

pub Ended-IsStable : IsStable Ended
unfolding exits collect test_stop begin_stop finish_stop wait_returns fire call_back
Ended-IsStable = record {
  exits = λ code p h. ground arith;
  collect = λ line p h. ground arith;
  test_stop = λ p h. ground arith;
  begin_stop = λ p h. ground arith;
  finish_stop = λ p h. ground arith;
  wait_returns = λ p h. ground arith;
  fire = λ p h. ground arith;
  call_back = λ p h. Ended-call_next p.calling p h;
}

-- Stopped, and every call that `_fire_completion` has made due has been made.
abbrev pub Reported : Process → Type 0
Reported p = (p.stopped ≡ true) × ((p.callback_fired ≡ true) × (length p.calling ≡ 0))

Reported-call_next :
    (cs : List Completion) (p : Process) → p.calling ≡ cs → Reported p → Reported (call_next cs p)
Reported-call_next [] p e h = h
Reported-call_next (c ∷ cs) p e h = let a = ap length e in let b = h.1.1 in ground arith

pub Reported-IsStable : IsStable Reported
unfolding exits collect test_stop begin_stop finish_stop wait_returns fire call_back
Reported-IsStable = record {
  exits = λ code p h. ground arith;
  collect = λ line p h. ground arith;
  test_stop = λ p h. ground arith;
  begin_stop = λ p h. ground arith;
  finish_stop = λ p h. ground arith;
  wait_returns = λ p h. ground arith;
  fire = λ p h. ground arith;
  call_back = λ p h. Reported-call_next p.calling p refl h;
}

module _ (P : Process → Type 0) (stable : IsStable P) where
  At-update_at :
      (f : Process → Process)
      → ((p : Process) → P p → P (f p))
      → (i j : ℕ) (ps : List Process) → At P i ps
      → At P i (update_at j f ps)
  At-update_at f keep i j [] h = absurd h
  At-update_at f keep zero zero (p ∷ ps) h = keep p h
  At-update_at f keep zero (suc j) (p ∷ ps) h = h
  At-update_at f keep (suc i) zero (p ∷ ps) h = h
  At-update_at f keep (suc i) (suc j) (p ∷ ps) h = At-update_at f keep i j ps h

  At-append : (i : ℕ) (ps : List Process) (q : Process) → At P i ps → At P i (ps ++ (q ∷ []))
  At-append i [] q h = absurd h
  At-append zero (p ∷ ps) q h = h
  At-append (suc i) (p ∷ ps) q h = At-append i ps q h

  register-At :
      (o : Option String) (i : ℕ) (m : Manager)
      → At P i m.processes
      → At P i
          (elim o as (λ _. Manager) [
            | none ↦ m
            | some run_id ↦ record {
              processes = m.processes ++ (new_process run_id ∷ []);
              reserved = none;
            }
          ]).processes
  register-At none i m h = h
  register-At (some run_id) i m h = At-append i m.processes (new_process run_id) h

  reserve-At :
      (run_id : String) (i : ℕ) (m : Manager)
      → At P i m.processes
      → At P i (reserve run_id m).1.processes
  unfolding reserve
  reserve-At run_id i m h =
      if_lem (λ (r : Bool × Manager). At P i r.1.processes)
        (has_active m.processes || is_some m.reserved) _ _ (λ _. h) (λ _. h)

  step-At :
      (move : Move) (i : ℕ) (m : Manager) → At P i m.processes → At P i (step move m).processes
  unfolding register
  step-At (reserves run_id) i m h = reserve-At run_id i m h
  step-At registers i m h = register-At m.reserved i m h
  step-At abandons i m h = h
  step-At (ends j code) i m h = At-update_at (exits code) (stable.exits code) i j m.processes h
  step-At (prints j line) i m h =
      At-update_at (collect line) (stable.collect line) i j m.processes h
  step-At (tests_stop j) i m h = At-update_at test_stop stable.test_stop i j m.processes h
  step-At (calls_back j) i m h = At-update_at call_back stable.call_back i j m.processes h
  step-At (begins_stop j) i m h = At-update_at begin_stop stable.begin_stop i j m.processes h
  step-At (finishes_stop j) i m h = At-update_at finish_stop stable.finish_stop i j m.processes h
  step-At (waits j) i m h = At-update_at wait_returns stable.wait_returns i j m.processes h
  step-At (fires j) i m h = At-update_at fire stable.fire i j m.processes h

  pub run-At :
      (moves : List Move) (i : ℕ) (m : Manager)
      → At P i m.processes
      → At P i (run moves m).processes
  run-At [] i m h = h
  run-At (move ∷ moves) i m h = run-At moves i (step move m) (step-At move i m h)
