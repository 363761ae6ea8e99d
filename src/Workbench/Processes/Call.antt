-- ===== src/Workbench/Processes/Call.antt =====
-- A call of `_stop_process` of web_console/process_manager.py among the moves of the others.
use ros2_vlm_demo.Common.{ℕ, Bool, false, Option, none, some, List, if◌then◌else◌}
use ros2_vlm_demo.Workbench.Processes.{
  Process, Manager, Move, tests_stop, begins_stop, finishes_stop, fires, calls_back, step, run,
  process_at,
}

-- What the other threads, the callers and the system do between the steps of the call: after its test,
-- before its second lock (the signals and the two waits), before the lock of `_fire_completion` (the
-- wait for the log), and before the callback.
pub record Others : Type 0 where
  pub before_mark : List Move
  pub before_end : List Move
  pub before_fire : List Move
  pub before_callback : List Move

abbrev pub is_stopped : Option Process → Bool
is_stopped none = false
is_stopped (some p) = p.stopped

abbrev pub has_fired : Option Process → Bool
has_fired none = false
has_fired (some p) = p.callback_fired

-- `_fire_completion`: the thread that has set the flag calls the callback.
unfoldable pub fire_completion : ℕ → List Move → Manager → Manager
fire_completion i before_callback m =
    if has_fired (process_at i m.processes)
    then step (fires i) m
    else step (calls_back i) (run before_callback (step (fires i) m))

-- `_stop_process`
unfoldable pub stop_process : ℕ → Others → Manager → Manager
unfolding fire_completion
stop_process i others m =
    if is_stopped (process_at i m.processes)
    then m
    else let begun = step (begins_stop i) (run others.before_mark (step (tests_stop i) m)) in
      let halted = step (finishes_stop i) (run others.before_end begun) in
      fire_completion i others.before_callback (run others.before_fire halted)
