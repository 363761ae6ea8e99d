-- ===== src/Tests/Processes.antt =====
-- Two experiments under web_console/process_manager.py.
use ros2_vlm_demo.Common.{◌≡◌, ◌↔◌, refl, string_dec, length, true, false, none, some, [], ◌∷◌}
use ros2_vlm_demo.Common.Int.{pos}
use ros2_vlm_demo.Workbench.Processes.{
  test_stop, exits, wait_returns, call_back, tests_stop, calls_back, process_at, fire, Manager,
  empty_manager, run, step, reserve, register, has_active, has_run, collect, begin_stop,
  finish_stop, reserves, registers, ends, prints, begins_stop, finishes_stop, waits, fires,
}
use ros2_vlm_demo.Workbench.Processes.Queries.{
  active_ros_run_id, first_running, get_logs, get_exit_code, is_running, get_process, stop_all_ros,
  active_places,
}
use ros2_vlm_demo.Workbench.Processes.Call.{Others, is_stopped, stop_process, fire_completion}
use ros2_vlm_demo.Workbench.Processes.Invariant.{IsManager, AllStopped, run-IsManager_lem}
use ros2_vlm_demo.Workbench.Processes.Stable.{At}
use ros2_vlm_demo.Workbench.Processes.Stop.{stop_process_lem}
use ros2_vlm_demo.Workbench.Processes.Steps.{IsFinished, HasStopped}
use ros2_vlm_demo.Workbench.Processes.Slot.{reserve_lem}

abbrev one_running : Manager
one_running = run (reserves "a" ∷ registers ∷ prints 0 "ready" ∷ []) empty_manager

one_running-IsManager : IsManager one_running
one_running-IsManager = run-IsManager_lem (reserves "a" ∷ registers ∷ prints 0 "ready" ∷ [])

-- While one experiment runs, another is refused.
refused : (reserve "b" one_running).0 ≡ false
unfolding reserve register has_active has_run collect string_dec
refused = refl

still_running : active_ros_run_id one_running ≡ some "a"
unfolding active_ros_run_id first_running has_run reserve register has_active collect string_dec
still_running = refl

here : At (λ _. Unit) 0 one_running.processes
unfolding reserve register has_active has_run collect
here = tt

-- Between the steps the process ends, and its waiting thread returns and sets the flag first.
abbrev raced : Others
raced = record {
  before_mark = [];
  before_end = ends 0 (pos 0) ∷ waits 0 ∷ [];
  before_fire = fires 0 ∷ [];
  before_callback = [];
}

stop_process_lem_example :
    At
      (HasStopped (is_stopped (process_at 0 one_running.processes)))
      0
      (stop_process 0 raced one_running).processes
    × At IsFinished 0
        (run [] (
          step
            (calls_back 0)
            (run [] (step (fires 0) (run [] (stop_process 0 raced one_running)))))).processes
stop_process_lem_example = stop_process_lem 0 one_running one_running-IsManager here raced [] [] []

-- The stop has returned and the callback is still to be called, by the waiting thread.
not_yet :
    At
      (λ p. (p.stopped ≡ true) × ((length p.calling ≡ 1) × (length p.calls ≡ 0)))
      0
      (stop_process 0 raced one_running).processes
unfolding reserve register has_active has_run collect test_stop begin_stop finish_stop exits
    wait_returns fire call_back stop_process fire_completion
not_yet = (refl, (refl, refl))

reserve_lem_example :
    ((reserve "b" one_running).0 ≡ true)
    ↔ ((one_running.reserved ≡ none) × AllStopped one_running.processes)
reserve_lem_example = reserve_lem "b" one_running one_running-IsManager

-- A process that has not ended when both waits of a stop are over no longer holds the slot.
abbrev survived : Manager
survived = run (tests_stop 0 ∷ begins_stop 0 ∷ finishes_stop 0 ∷ []) one_running

survivor : At (λ p. p.poll ≡ none) 0 survived.processes × ((reserve "b" survived).0 ≡ true)
unfolding reserve register has_active has_run collect test_stop begin_stop finish_stop
survivor = (refl, refl)

run-IsManager_lem_example : IsManager (
    run
      (reserves "a" ∷ registers ∷ ends 0 (pos 1) ∷ waits 0 ∷ fires 0 ∷ reserves "b" ∷ [])
      empty_manager)
run-IsManager_lem_example =
    run-IsManager_lem
      (reserves "a" ∷ registers ∷ ends 0 (pos 1) ∷ waits 0 ∷ fires 0 ∷ reserves "b" ∷ [])

logged : get_logs "a" one_running ≡ "ready" ∷ []
unfolding get_logs reserve register has_active has_run collect get_process string_dec
logged = refl

all_stopped : is_running "a" (stop_all_ros one_running) ≡ false
unfolding is_running stop_all_ros active_places reserve register has_active has_run collect
    test_stop begin_stop finish_stop fire call_back stop_process fire_completion get_process
    string_dec
all_stopped = refl

no_exit_code : get_exit_code "a" (stop_all_ros one_running) ≡ none
unfolding get_exit_code stop_all_ros active_places reserve register has_active has_run collect
    test_stop begin_stop finish_stop fire call_back stop_process fire_completion get_process
    string_dec
no_exit_code = refl
