-- ===== src/Workbench/RunStore.antt =====
-- web_console/run_store.py: the records of the runs and the transitions of a run's status. A run that
-- has no readable manifest has no entry. The lock makes each call one step.
pub mod Finalize
use ros2_vlm_demo.Common.{
  String, Bool, true, false, not, Option, none, some, List, [], ◌∷◌, ◌==◌, contains, if◌then◌else◌,
}
use ros2_vlm_demo.Common.Dict
use ros2_vlm_demo.Common.Dict.{Dict}
use ros2_vlm_demo.Json.{Value, str, list, dict, is_text}
use ros2_vlm_demo.Workbench.RunId.{is_safe_run_id}

abbrev pub Record : Type 0
Record = Dict Value

abbrev pub Runs : Type 0
Runs = Dict Record

abbrev pub terminal_statuses : List String
terminal_statuses = "completed" ∷ "failed" ∷ "stopped" ∷ []

-- `status in _TERMINAL_STATUSES`, of a status that is hashable; of an array or an object it raises
-- TypeError.
abbrev pub is_terminal_status : Option Value → Bool
is_terminal_status (some (str s)) = contains terminal_statuses s
is_terminal_status _ = false

abbrev pub is_hashable : Option Value → Bool
is_hashable (some (list vs)) = false
is_hashable (some (dict d)) = false
is_hashable _ = true

unfoldable pub is_terminal : Record → Bool
is_terminal r = is_terminal_status (Dict.lookup "status" r)

-- `record.get("status") == expected`
abbrev pub has_status : Option Value → String → Bool
has_status none expected = false
has_status (some v) expected = is_text v expected

-- `record.update(updates)`
unfoldable pub update : Record → Record → Record
update r [] = r
update r ((k, v) ∷ updates) = update (Dict.insert k v r) updates

unfoldable pub get_run : String → Runs → Option Record
get_run run_id runs = if is_safe_run_id run_id then Dict.lookup run_id runs else none

abbrev pub write : String → Record → Runs → Runs
write run_id r runs = Dict.insert run_id r runs

abbrev pub update_if : String → String → Record → Runs → Option Record → Option Record × Runs
update_if run_id expected updates runs none = (none, runs)
update_if run_id expected updates runs (some r) =
    if has_status (Dict.lookup "status" r) expected
    then (some (update r updates), write run_id (update r updates) runs)
    else (some r, runs)

unfoldable pub update_run_if_status : String → String → Record → Runs → Option Record × Runs
unfolding update
update_run_if_status run_id expected updates runs =
    if is_safe_run_id run_id
    then update_if run_id expected updates runs (Dict.lookup run_id runs)
    else (none, runs)

-- None is the TypeError.
abbrev pub finalize : String → Record → Runs → Option Record → Option Bool × Runs
finalize run_id updates runs none = (some false, runs)
finalize run_id updates runs (some r) =
    if not (is_hashable (Dict.lookup "status" r))
    then (none, runs)
    else if is_terminal r
    then (some false, runs)
    else (some true, write run_id (update r updates) runs)

unfoldable pub finalize_run : String → Record → Runs → Option Bool × Runs
unfolding update is_terminal
finalize_run run_id updates runs =
    if is_safe_run_id run_id
    then finalize run_id updates runs (Dict.lookup run_id runs)
    else (some false, runs)
