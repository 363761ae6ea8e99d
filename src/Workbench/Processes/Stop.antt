-- ===== src/Workbench/Processes/Stop.antt =====
-- A stop of web_console/process_manager.py comes to its end whatever happens between its steps.
use ros2_vlm_demo.Common.{ℕ, ◌≡◌, inl, true, List, if_lem}
use ros2_vlm_demo.Workbench.Processes.{
  Process, Manager, test_stop, begin_stop, finish_stop, fire, call_back, Move, tests_stop,
  begins_stop, finishes_stop, fires, calls_back, step, run, process_at,
}
use ros2_vlm_demo.Workbench.Processes.Call.{
  Others, is_stopped, has_fired, fire_completion, stop_process,
}
use ros2_vlm_demo.Workbench.Processes.Each.{IsProcess}
use ros2_vlm_demo.Workbench.Processes.Invariant.{IsManager, run-IsManager, step-IsManager}
use ros2_vlm_demo.Workbench.Processes.Stable.{
  IsStable, At, Entering, Entering-IsStable, Stopping, Stopping-IsStable, Ended, Ended-IsStable,
  Fired, Fired-IsStable, Reported, Reported-IsStable, run-At,
}
use ros2_vlm_demo.Workbench.Processes.Steps.{
  IsFinished, HasStopped, change-At, with_valid, map-At, enters, starts, stops, ended, fired,
  reported, finished, called, waits_for, stopped-At,
}

-- A valid manager whose process `i` satisfies `P`.
abbrev Holds : ℕ → (Process → Type 0) → Manager → Type 0
Holds i P m = IsManager m × At P i m.processes

module _ (i : ℕ) where
  know :
      (P Q : Process → Type 0) (m : Manager)
      → ((p : Process) → P p × IsProcess p → Q p)
      → Holds i P m
      → Holds i Q m
  know P Q m f (v, h) = (
    v,
    map-At (λ p. P p × IsProcess p) Q f i m.processes (with_valid P i m.processes h v.processes),
  )

  ran :
      (P : Process → Type 0) (stable : IsStable P) (moves : List Move) (m : Manager)
      → Holds i P m
      → Holds i P (run moves m)
  ran P stable moves m (v, h) = (run-IsManager moves m v, run-At P stable moves i m h)

  entered : (m : Manager) → Holds i (λ _. Unit) m → Holds i Entering (step (tests_stop i) m)
  entered m (v, h) = (
    step-IsManager (tests_stop i) m v,
    change-At (λ _. Unit) Entering test_stop (λ p _. enters p) i m.processes h,
  )

  begun : (m : Manager) → Holds i Entering m → Holds i Stopping (step (begins_stop i) m)
  begun m (v, h) = (
    step-IsManager (begins_stop i) m v,
    change-At Entering Stopping begin_stop starts i m.processes h,
  )

  halted : (m : Manager) → Holds i Stopping m → Holds i Ended (step (finishes_stop i) m)
  halted m (v, h) =
      know (λ p. p.stopped ≡ true) Ended (step (finishes_stop i) m) ended
        (
          step-IsManager (finishes_stop i) m v,
          change-At Stopping (λ p. p.stopped ≡ true) finish_stop stops i m.processes h,
        )

  set : (m : Manager) → Holds i Ended m → Holds i Fired (step (fires i) m)
  set m (v, h) = (step-IsManager (fires i) m v, change-At Ended Fired fire fired i m.processes h)

  answered : (m : Manager) → Holds i Fired m → Holds i Reported (step (calls_back i) m)
  answered m (v, h) = (
    step-IsManager (calls_back i) m v,
    change-At (λ p. Fired p × IsProcess p) Reported call_back reported i m.processes
        (with_valid Fired i m.processes h v.processes),
  )

  forget : (m : Manager) → Holds i Reported m → Holds i Fired m
  forget m = know Reported Fired m (λ p r. (r.0.0, r.0.1.0))

  completed :
      (moves : List Move) (m : Manager)
      → Holds i Ended m
      → Holds i Fired (fire_completion i moves m)
  unfolding fire_completion
  completed moves m h =
      if_lem (Holds i Fired) (has_fired (process_at i m.processes)) _ _ (λ _. set m h)
        (λ _.
          let later = run moves (step (fires i) m) in
          forget (step (calls_back i) later)
            (answered later (ran Fired Fired-IsStable moves (step (fires i) m) (set m h))))

  taken :
      (others : Others) (m : Manager)
      → Holds i (λ _. Unit) m
      → Holds i Fired (
          fire_completion i others.before_callback (
            run others.before_fire (
              step (finishes_stop i) (
                run others.before_end
                  (step (begins_stop i) (run others.before_mark (step (tests_stop i) m)))))))
  taken others m h =
      let tested = step (tests_stop i) m in
      let marked = run others.before_mark tested in
      let marking =
        begun marked (ran Entering Entering-IsStable others.before_mark tested (entered m h)) in
      let waited = run others.before_end (step (begins_stop i) marked) in
      let ending =
        halted waited (
          ran Stopping Stopping-IsStable others.before_end (step (begins_stop i) marked) marking) in
      let dead = step (finishes_stop i) waited in
      completed others.before_callback (run others.before_fire dead)
        (ran Ended Ended-IsStable others.before_fire dead ending)

  early_end :
      (m : Manager)
      → Holds i (λ _. Unit) m
      → is_stopped (process_at i m.processes) ≡ true
      → Holds i Ended m
  early_end m (v, h) e =
      know (λ p. p.stopped ≡ true) Ended m ended (v, stopped-At i m.processes h e)

  stopped :
      (others : Others) (m : Manager)
      → Holds i (λ _. Unit) m
      → Holds i Ended (stop_process i others m)
        × At
            (HasStopped (is_stopped (process_at i m.processes)))
            i
            (stop_process i others m).processes
  unfolding stop_process
  stopped others m h =
      let early = is_stopped (process_at i m.processes) in
      if_lem (λ m'. Holds i Ended m' × At (HasStopped early) i m'.processes) early _ _
        (λ e.
          let k = early_end m h e in (k, (know Ended (HasStopped early) m (waits_for early e) k).1))
        (λ e.
          let k = taken others m h in
          (
            know Fired Ended _ (λ p r. (r.0.0, inl r.0.1)) k,
            (know Fired (HasStopped early) _ (called early) k).1,
          ))

  -- In a valid state of the manager, of a process that has been registered, a call of `_stop_process` leaves, whatever other threads, callers and the system do between its steps, and whether the process dies or not, a stopped process whose callback has been called once or is due to be called once by a thread that has set the flag of `_fire_completion`, except that a call that found the process stopped and returned at once may also leave a thread that is to take the lock of `_fire_completion`. In either case, after whatever other moves, once a thread has taken that lock and one has then made the call that was due, the process is stopped and its callback has been called exactly once, and this stays so.
  pub stop_process_lem :
      (m : Manager)
      → IsManager m
      → At (λ _. Unit) i m.processes
      → (others : Others) (a b c : List Move)
      → At
          (HasStopped (is_stopped (process_at i m.processes)))
          i
          (stop_process i others m).processes
        × At IsFinished i
            (run c (
              step
                (calls_back i)
                (run b (step (fires i) (run a (stop_process i others m)))))).processes
  stop_process_lem m v here others a b c =
      let (k, h) = stopped others m (v, here) in
      let m' = stop_process i others m in
      let first = set (run a m') (ran Ended Ended-IsStable a m' k) in
      let lock = step (fires i) (run a m') in
      let second = answered (run b lock) (ran Fired Fired-IsStable b lock first) in
      let call = step (calls_back i) (run b lock) in
      (
        h,
        (know Reported IsFinished (run c call) finished
            (ran Reported Reported-IsStable c call second)).1,
      )
