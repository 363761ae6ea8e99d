-- ===== src/Workbench/Processes/Queries.antt =====
-- The queries of web_console/process_manager.py, and stop_all_ros.
use ros2_vlm_demo.Common.{
  ℕ, ◌+◌, some, none, String, ◌==◌, Bool, false, not, ◌&&◌, Option, none, some, List, [], ◌∷◌,
  if◌then◌else◌,
}
use ros2_vlm_demo.Common.Int.{ℤ}
use ros2_vlm_demo.Workbench.Processes.{Process, Manager, has_run, is_some}
use ros2_vlm_demo.Workbench.Processes.Call.{Others, stop_process}

-- `self._processes.get(run_id)`: the last that has been registered under the identifier.
unfoldable pub get_process : String → List Process → Option Process
get_process run_id [] = none
get_process run_id (p ∷ ps) = elim (get_process run_id ps) [
  | some q ↦ some q
  | none ↦ if p.run_id == run_id then some p else none
]

unfoldable pub is_running : String → Manager → Bool
unfolding get_process
is_running run_id m = elim (get_process run_id m.processes) [
  | none ↦ false
  | some p ↦ not p.stopped && not (is_some p.poll)
]

unfoldable pub get_logs : String → Manager → List String
unfolding get_process
get_logs run_id m = elim (get_process run_id m.processes) [ none ↦ [] | some p ↦ p.log_lines ]

unfoldable pub get_exit_code : String → Manager → Option ℤ
unfolding get_process
get_exit_code run_id m = elim (get_process run_id m.processes) [
  | none ↦ none
  | some p ↦ p.exit_code
]

-- The places of the table's processes that are not stopped, from `i` on.
unfoldable pub active_places : ℕ → List Process → List ℕ
unfolding has_run
active_places i [] = []
active_places i (p ∷ ps) =
    let rest = active_places (i + 1) ps in
    if not (has_run p.run_id ps) && not p.stopped then i ∷ rest else rest

abbrev alone : Others
alone = record { before_mark = []; before_end = []; before_fire = []; before_callback = [] }

abbrev pub stops : List ℕ → Manager → Manager
stops [] m = m
stops (i ∷ is) m = stops is (stop_process i alone m)

-- `stop_all_ros`, when no other thread moves: one stop after the other.
unfoldable pub stop_all_ros : Manager → Manager
unfolding active_places
stop_all_ros m = stops (active_places 0 m.processes) m

-- `self._processes.get(run_id)`: its place, from `i` on.
unfoldable pub find_run : ℕ → String → List Process → Option ℕ
unfolding has_run
find_run i run_id [] = none
find_run i run_id (p ∷ ps) =
    let rest = find_run (i + 1) run_id ps in
    if p.run_id == run_id && not (has_run run_id ps) then some i else rest

-- `active_ros_run_id`; the first process that has not ended, and is in the table.
unfoldable pub first_running : List Process → Option String
unfolding has_run
first_running [] = none
first_running (p ∷ ps) =
    let rest = first_running ps in
    if not (has_run p.run_id ps) && (not p.stopped && not (is_some p.poll))
    then some p.run_id
    else rest

unfoldable pub active_ros_run_id : Manager → Option String
unfolding first_running
active_ros_run_id m = elim m.reserved [
  | some run_id ↦ some run_id
  | none ↦ first_running m.processes
]
