-- ===== src/Workbench/Processes/Keeps.antt =====
-- No change of web_console/process_manager.py makes a stopped process run.
use ros2_vlm_demo.Common.{◌≡◌, refl, String, true, ◌&&◌, List, [], ◌∷◌, eqb, ltb, length, if_lem}
use ros2_vlm_demo.Common.Int.{ℤ}
use ros2_vlm_demo.Workbench.Processes.{
  Process, is_some, exits, collect, test_stop, begin_stop, finish_stop, wait_returns, fire,
  Completion, call_next, call_back, max_log_lines,
}

-- A change that leaves a stopped process stopped.
abbrev pub KeepsStopped : (Process → Process) → Type 0
KeepsStopped f = (p : Process) → p.stopped ≡ true → (f p).stopped ≡ true

pub exits_keeps : (code : ℤ) → KeepsStopped (exits code)
unfolding exits
exits_keeps code p h =
    if_lem (λ (q : Process). q.stopped ≡ true) (is_some p.poll) p _ (λ _. h) (λ _. h)

pub collect_keeps : (line : String) → KeepsStopped (collect line)
unfolding collect
collect_keeps line p h =
    if_lem (λ (q : Process). q.stopped ≡ true) (ltb (length p.log_lines) max_log_lines) _ p (λ _. h)
      (λ _. h)

pub begin_stop_keeps : KeepsStopped begin_stop
unfolding begin_stop
begin_stop_keeps p h =
    if_lem (λ (q : Process). q.stopped ≡ true) (eqb p.entering 0) p _ (λ _. h) (λ _. h)

pub test_stop_keeps : KeepsStopped test_stop
unfolding test_stop
test_stop_keeps p h = if_lem (λ (q : Process). q.stopped ≡ true) p.stopped p _ (λ _. h) (λ _. h)

pub call_next_keeps : (cs : List Completion) → KeepsStopped (call_next cs)
call_next_keeps [] p h = h
call_next_keeps (c ∷ cs) p h = h

pub call_back_keeps : KeepsStopped call_back
unfolding call_back
call_back_keeps p h = call_next_keeps p.calling p h

pub finish_stop_keeps : KeepsStopped finish_stop
unfolding finish_stop
finish_stop_keeps p h =
    if_lem (λ (q : Process). q.stopped ≡ true) (eqb p.stopping 0) p _ (λ _. h) (λ _. refl)

pub wait_returns_keeps : KeepsStopped wait_returns
unfolding wait_returns
wait_returns_keeps p h =
    if_lem (λ (q : Process). q.stopped ≡ true) (p.waiting && is_some p.poll) _ p (λ _. refl)
      (λ _. h)

pub fire_keeps : KeepsStopped fire
unfolding fire
fire_keeps p h =
    if_lem (λ (q : Process). q.stopped ≡ true) (eqb p.firing 0) p _ (λ _. h)
      (λ _. if_lem (λ (q : Process). q.stopped ≡ true) p.callback_fired _ _ (λ _. h) (λ _. h))
