-- ===== src/Workbench/Processes.antt =====
-- web_console/process_manager.py: the manager's table and its threads. A move is what a thread does
-- under one hold of the lock or, without it, between two, or what the operating system does; a process
-- is named by its place in the order of registration. The table's only kind is "ros", and every start
-- gives a callback.
pub mod Report
pub mod Each
pub mod Keeps
pub mod Invariant
pub mod Stable
pub mod Call
pub mod Steps
pub mod Stop
pub mod Slot
pub mod Queries
use ros2_vlm_demo.Common.{
  ℕ, zero, suc, ◌+◌, ◌-◌, String, ◌==◌, Bool, true, false, not, ◌&&◌, ◌||◌, Option, none, some,
  List, [], ◌∷◌, ◌++◌, eqb, ltb, length, if◌then◌else◌, any,
}
use ros2_vlm_demo.Common.Int.{ℤ}

-- The arguments of `on_complete`.
pub record Completion : Type 0 where
  pub run_id : String
  pub exit_code : Option ℤ
  pub was_stopped : Bool
  pub logs : List String

-- `_ManagedProcess`; `poll` is what the process's `poll()` gives. Its threads: `entering` counts those
-- in `_stop_process` between the test of `stopped` and the first lock, `stopping` those between its two
-- locks, `waiting` is whether `_wait_proc` waits, `firing` counts those that are to take the lock of
-- `_fire_completion`, and `calling` has the arguments of those that have left it and are to call the
-- callback. `calls` are the calls that have been made.
pub record Process : Type 0 where
  pub run_id : String
  pub poll : Option ℤ
  pub log_lines : List String
  pub stopped : Bool
  pub exit_code : Option ℤ
  pub callback_fired : Bool
  pub explicitly_stopped : Bool
  pub calling : List Completion
  pub calls : List Completion
  pub entering : ℕ
  pub stopping : ℕ
  pub waiting : Bool
  pub firing : ℕ

-- Every process that has been registered, the oldest first, and the reservation.
pub record Manager : Type 0 where
  pub processes : List Process
  pub reserved : Option String

abbrev pub empty_manager : Manager
empty_manager = record { processes = []; reserved = none }

abbrev pub new_process : String → Process
new_process run_id = record {
  run_id = run_id;
  poll = none;
  log_lines = [];
  stopped = false;
  exit_code = none;
  callback_fired = false;
  explicitly_stopped = false;
  calling = [];
  calls = [];
  entering = 0;
  stopping = 0;
  waiting = true;
  firing = 0;
}

abbrev pub max_log_lines : ℕ
max_log_lines = 1000

-- A later process with the id has taken this one's place in the table.
unfoldable pub has_run : String → List Process → Bool
has_run run_id [] = false
has_run run_id (p ∷ ps) = let rest = has_run run_id ps in if p.run_id == run_id then true else rest

-- Some value of the table is not stopped.
unfoldable pub has_active : List Process → Bool
unfolding has_run
has_active [] = false
has_active (p ∷ ps) =
    let rest = has_active ps in if has_run p.run_id ps then rest else not p.stopped || rest

abbrev pub is_some {ℓ} : {A : Type ℓ} → Option A → Bool
is_some none = false
is_some (some a) = true

-- The check and the reservation in `start_ros_experiment`; false is RuntimeError.
unfoldable pub reserve : String → Manager → Bool × Manager
unfolding has_active
reserve run_id m =
    if has_active m.processes || is_some m.reserved
    then (false, m)
    else (true, record { processes = m.processes; reserved = some run_id })

-- What follows the reservation: `Popen` has given a process.
unfoldable pub register : Manager → Manager
register m = elim m.reserved [
  | none ↦ m
  | some run_id ↦ record { processes = m.processes ++ (new_process run_id ∷ []); reserved = none }
]

-- `Popen` has raised.
abbrev pub abandon : Manager → Manager
abandon m = record { processes = m.processes; reserved = none }

-- The process ends.
unfoldable pub exits : ℤ → Process → Process
exits code p = if is_some p.poll then p else record p { poll = some code }

-- A line in `_collect_logs`.
unfoldable pub collect : String → Process → Process
collect line p =
    if ltb (length p.log_lines) max_log_lines
    then record p { log_lines = p.log_lines ++ (line ∷ []) }
    else p

-- `if mp.stopped: return` of `_stop_process`, which takes no lock.
unfoldable pub test_stop : Process → Process
test_stop p = if p.stopped then p else record p { entering = p.entering + 1 }

-- The first lock of `_stop_process`, whether the process has been stopped since the test or not.
unfoldable pub begin_stop : Process → Process
begin_stop p = if eqb p.entering 0 then p else record p {
  entering = p.entering - 1;
  explicitly_stopped = true;
  stopping = p.stopping + 1;
}

-- The end of `_stop_process`, whether the process has ended or not.
unfoldable pub finish_stop : Process → Process
finish_stop p = if eqb p.stopping 0 then p else record p {
  stopping = p.stopping - 1;
  stopped = true;
  exit_code = p.poll;
  firing = p.firing + 1;
}

-- `_wait_proc`, when the process has ended.
unfoldable pub wait_returns : Process → Process
wait_returns p =
    if p.waiting && is_some p.poll
    then record p { waiting = false; stopped = true; exit_code = p.poll; firing = p.firing + 1 }
    else p

abbrev pub completion : Process → Completion
completion p = record {
  run_id = p.run_id;
  exit_code = p.exit_code;
  was_stopped = p.explicitly_stopped;
  logs = p.log_lines;
}

-- The lock of `_fire_completion`, after its wait.
unfoldable pub fire : Process → Process
fire p =
    if eqb p.firing 0
    then p
    else if p.callback_fired
    then record p { firing = p.firing - 1 }
    else record p {
      firing = p.firing - 1;
      callback_fired = true;
      calling = completion p ∷ p.calling;
    }

-- The first of the calls that are due.
abbrev pub call_next : List Completion → Process → Process
call_next [] p = p
call_next (c ∷ cs) p = record p { calling = cs; calls = c ∷ p.calls }

-- `mp.on_complete(...)`, with no lock held.
unfoldable pub call_back : Process → Process
call_back p = call_next p.calling p

pub data Move : Type 0 where
  reserves : String → Move
  registers abandons : Move
  ends : ℕ → ℤ → Move
  prints : ℕ → String → Move
  tests_stop begins_stop finishes_stop waits fires calls_back : ℕ → Move

abbrev pub update_at : ℕ → (Process → Process) → List Process → List Process
update_at i f [] = []
update_at zero f (p ∷ ps) = f p ∷ ps
update_at (suc i) f (p ∷ ps) = p ∷ update_at i f ps

abbrev pub on_process : ℕ → (Process → Process) → Manager → Manager
on_process i f m = record { processes = update_at i f m.processes; reserved = m.reserved }

abbrev pub step : Move → Manager → Manager
step (reserves run_id) m = (reserve run_id m).1
step registers m = register m
step abandons m = abandon m
step (ends i code) m = on_process i (exits code) m
step (prints i line) m = on_process i (collect line) m
step (tests_stop i) m = on_process i test_stop m
step (begins_stop i) m = on_process i begin_stop m
step (finishes_stop i) m = on_process i finish_stop m
step (waits i) m = on_process i wait_returns m
step (fires i) m = on_process i fire m
step (calls_back i) m = on_process i call_back m

-- The moves in their order.
abbrev pub run : List Move → Manager → Manager
run [] m = m
run (move ∷ moves) m = run moves (step move m)

abbrev pub process_at : ℕ → List Process → Option Process
process_at i [] = none
process_at zero (p ∷ ps) = some p
process_at (suc i) (p ∷ ps) = process_at i ps
