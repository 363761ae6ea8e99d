-- ===== src/Workbench/Processes/Invariant.antt =====
-- What holds of the manager after whatever moves of its threads.
use ros2_vlm_demo.Common.{
  ℕ, zero, suc, ◌≡◌, ◌⊎◌, inl, inr, refl, sym, ◌∙◌, String, Bool, true, false, not, ◌||◌, Option,
  none, some, List, [], ◌∷◌, ◌++◌, if◌then◌else◌, if_lem, arith, All,
}
use ros2_vlm_demo.Workbench.Processes.{
  Process, Manager, empty_manager, new_process, has_run, has_active, is_some, reserve, register,
  exits, collect, test_stop, begin_stop, finish_stop, wait_returns, fire, call_back, tests_stop,
  calls_back, Move, reserves, registers, abandons, ends, prints, begins_stop, finishes_stop, waits,
  fires, update_at, on_process, step, run,
}
use ros2_vlm_demo.Workbench.Processes.Each.{
  IsProcess, test_stop-IsProcess, call_back-IsProcess, new_process-IsProcess, exits-IsProcess,
  collect-IsProcess, begin_stop-IsProcess, finish_stop-IsProcess, wait_returns-IsProcess,
  fire-IsProcess,
}
use ros2_vlm_demo.Workbench.Processes.Keeps.{
  KeepsStopped, exits_keeps, collect_keeps, begin_stop_keeps, test_stop_keeps, call_back_keeps,
  finish_stop_keeps, wait_returns_keeps, fire_keeps,
}

-- Only the last of the processes may be running.
abbrev pub OthersStopped : List Process → Type 0
OthersStopped [] = Unit
OthersStopped (p ∷ []) = Unit
OthersStopped (p ∷ q ∷ ps) = (p.stopped ≡ true) × OthersStopped (q ∷ ps)

abbrev pub AllStopped : List Process → Type 0
AllStopped ps = All (λ p. p.stopped ≡ true) ps

-- While the slot is reserved no process is running.
pub record IsManager (m : Manager) : Type 0 where
  pub processes : All IsProcess m.processes
  pub others : OthersStopped m.processes
  pub slot : (m.reserved ≡ none) ⊎ AllStopped m.processes

All-update_at :
    (P : Process → Type 0) (f : Process → Process)
    → ((p : Process) → P p → P (f p))
    → (i : ℕ) (ps : List Process) → All P ps
    → All P (update_at i f ps)
All-update_at P f keep i [] h = tt
All-update_at P f keep zero (p ∷ ps) (h, hs) = (keep p h, hs)
All-update_at P f keep (suc i) (p ∷ ps) (h, hs) = (h, All-update_at P f keep i ps hs)

OthersStopped-update_at :
    (f : Process → Process)
    → KeepsStopped f
    → (i : ℕ) (ps : List Process) → OthersStopped ps
    → OthersStopped (update_at i f ps)
OthersStopped-update_at f keep i [] h = tt
OthersStopped-update_at f keep zero (p ∷ []) h = tt
OthersStopped-update_at f keep (suc i) (p ∷ []) h = tt
OthersStopped-update_at f keep zero (p ∷ q ∷ ps) (h, hs) = (keep p h, hs)
OthersStopped-update_at f keep (suc zero) (p ∷ q ∷ ps) (h, hs) =
    (h, OthersStopped-update_at f keep zero (q ∷ ps) hs)
OthersStopped-update_at f keep (suc (suc i)) (p ∷ q ∷ ps) (h, hs) =
    (h, OthersStopped-update_at f keep (suc i) (q ∷ ps) hs)

on_process-IsManager :
    (i : ℕ) (f : Process → Process) (m : Manager)
    → ((p : Process) → IsProcess p → IsProcess (f p))
    → KeepsStopped f
    → IsManager m
    → IsManager (on_process i f m)
on_process-IsManager i f m good keep v = record {
  processes = All-update_at IsProcess f good i m.processes v.processes;
  others = OthersStopped-update_at f keep i m.processes v.others;
  slot = elim v.slot [
    | inl e ↦ inl e
    | inr h ↦ inr (All-update_at (λ p. p.stopped ≡ true) f keep i m.processes h)
  ];
}

active_head :
    (replaced stopped rest : Bool)
    → (if replaced then rest else not stopped || rest) ≡ false
    → rest ≡ false
active_head replaced stopped rest h = ground arith

active_last : (stopped : Bool) → (not stopped || false) ≡ false → stopped ≡ true
active_last stopped h = ground arith

pub not_active : (ps : List Process) → OthersStopped ps → has_active ps ≡ false → AllStopped ps
unfolding has_active has_run
not_active [] others h = tt
not_active (p ∷ []) others h = (active_last p.stopped h, tt)
not_active (p ∷ q ∷ ps) (stopped, others) h = (
  stopped,
  not_active (q ∷ ps) others
      (active_head (has_run p.run_id (q ∷ ps)) p.stopped (has_active (q ∷ ps)) h),
)

append_others : (ps : List Process) (p : Process) → AllStopped ps → OthersStopped (ps ++ (p ∷ []))
append_others [] p h = tt
append_others (q ∷ []) p (h, hs) = (h, tt)
append_others (q ∷ r ∷ ps) p (h, hs) = (h, append_others (r ∷ ps) p hs)

All-append_one :
    (P : Process → Type 0) (ps : List Process) (p : Process)
    → All P ps
    → P p
    → All P (ps ++ (p ∷ []))
All-append_one P [] p hs h = (h, tt)
All-append_one P (q ∷ ps) p (hq, hs) h = (hq, All-append_one P ps p hs h)

neither : (a b : Bool) → (a || b) ≡ false → a ≡ false
neither a b h = ground arith

reserve-IsManager : (run_id : String) (m : Manager) → IsManager m → IsManager (reserve run_id m).1
unfolding reserve
reserve-IsManager run_id m v =
    if_lem (λ (r : Bool × Manager). IsManager r.1) (has_active m.processes || is_some m.reserved)
      (false, m) _ (λ _. v)
      (λ free. record {
        processes = v.processes;
        others = v.others;
        slot = inr (
            not_active m.processes v.others
              (neither (has_active m.processes) (is_some m.reserved) free));
      })

none_or_some : (s : String) → Path (Option String) none (some s) → ⊥
none_or_some s e = ground arith

register_lem :
    (o : Option String) (m : Manager)
    → m.reserved ≡ o
    → IsManager m
    → IsManager (elim o [
      | none ↦ m
      | some run_id ↦ record {
        processes = m.processes ++ (new_process run_id ∷ []);
        reserved = none;
      }
    ])
register_lem none m e v = v
register_lem (some run_id) m e v =
    let all : AllStopped m.processes = elim v.slot [
      | inl free ↦ absurd (none_or_some run_id (sym free ∙ e))
      | inr h ↦ h
    ] in
    record {
      processes =
          All-append_one IsProcess m.processes (new_process run_id) v.processes
            (new_process-IsProcess run_id);
      others = append_others m.processes (new_process run_id) all;
      slot = inl refl;
    }

pub step-IsManager : (move : Move) (m : Manager) → IsManager m → IsManager (step move m)
unfolding register
step-IsManager (reserves run_id) m v = reserve-IsManager run_id m v
step-IsManager registers m v = register_lem m.reserved m refl v
step-IsManager abandons m v = record { processes = v.processes; others = v.others; slot = inl refl }
step-IsManager (ends i code) m v =
    on_process-IsManager i (exits code) m (exits-IsProcess code) (exits_keeps code) v
step-IsManager (prints i line) m v =
    on_process-IsManager i (collect line) m (collect-IsProcess line) (collect_keeps line) v
step-IsManager (tests_stop i) m v =
    on_process-IsManager i test_stop m test_stop-IsProcess test_stop_keeps v
step-IsManager (calls_back i) m v =
    on_process-IsManager i call_back m call_back-IsProcess call_back_keeps v
step-IsManager (begins_stop i) m v =
    on_process-IsManager i begin_stop m begin_stop-IsProcess begin_stop_keeps v
step-IsManager (finishes_stop i) m v =
    on_process-IsManager i finish_stop m finish_stop-IsProcess finish_stop_keeps v
step-IsManager (waits i) m v =
    on_process-IsManager i wait_returns m wait_returns-IsProcess wait_returns_keeps v
step-IsManager (fires i) m v = on_process-IsManager i fire m fire-IsProcess fire_keeps v

pub run-IsManager : (moves : List Move) (m : Manager) → IsManager m → IsManager (run moves m)
run-IsManager [] m v = v
run-IsManager (move ∷ moves) m v = run-IsManager moves (step move m) (step-IsManager move m v)

-- After whatever moves of the threads, the system and the callers, in any order, at most the process registered last is not stopped, and none while the slot is reserved. Of every process, the calls of its callback that have been made and those that are due are one if `_fire_completion` has set its flag and none before; each is given the process's own identifier, a log within the limit and either the process's own exit code or, if a stop has been asked for, none. A stopped process has its flag set or a thread is about to take the lock of `_fire_completion`, and no log is above the limit.
pub run-IsManager_lem : (moves : List Move) → IsManager (run moves empty_manager)
run-IsManager_lem moves =
    run-IsManager moves empty_manager (record { processes = tt; others = tt; slot = inl refl })
