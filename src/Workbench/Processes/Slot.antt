-- ===== src/Workbench/Processes/Slot.antt =====
-- When a ROS experiment may start.
use ros2_vlm_demo.Common.{
  ◌≡◌, ◌↔◌, refl, String, Bool, true, false, not, ◌||◌, Option, none, some, List, [], ◌∷◌,
  if◌then◌else◌, arith,
}
use ros2_vlm_demo.Workbench.Processes.{Process, Manager, has_run, has_active, is_some, reserve}
use ros2_vlm_demo.Workbench.Processes.Invariant.{IsManager, AllStopped, not_active}

inactive_head :
    (replaced stopped rest : Bool)
    → stopped ≡ true
    → rest ≡ false
    → (if replaced then rest else not stopped || rest) ≡ false
inactive_head replaced stopped rest h k = ground arith

inactive : (ps : List Process) → AllStopped ps → has_active ps ≡ false
unfolding has_active
inactive [] h = refl
inactive (p ∷ ps) (h, hs) =
    inactive_head (has_run p.run_id ps) p.stopped (has_active ps) h (inactive ps hs)

false_or_true : Path Bool false true → ⊥
false_or_true h = ground arith

-- The two results of the check.
abbrev outcome : Bool → Option String → Manager → Manager → Bool × Manager
outcome active o m m' = if active || is_some o then (false, m) else (true, m')

granted :
    (active : Bool) (o : Option String) (m m' : Manager)
    → (outcome active o m m').0 ≡ true
    → (o ≡ none) × (active ≡ false)
granted true o m m' h = absurd (false_or_true h)
granted false none m m' h = (refl, refl)
granted false (some s) m m' h = absurd (false_or_true h)

free :
    (active : Bool) (o : Option String) (m m' : Manager)
    → o ≡ none
    → active ≡ false
    → (outcome active o m m').0 ≡ true
free active o m m' h k = rw (h, k) refl

-- In a valid state of the manager, `start_ros_experiment` gets the slot exactly if no caller holds it and every process that was ever registered is marked as stopped, also one whose place in the table another has taken.
pub reserve_lem :
    (run_id : String) (m : Manager)
    → IsManager m
    → ((reserve run_id m).0 ≡ true) ↔ ((m.reserved ≡ none) × AllStopped m.processes)
unfolding reserve
reserve_lem run_id m v = (
  λ h.
      let (none_reserved, idle) = granted (has_active m.processes) m.reserved m _ h in
      (none_reserved, not_active m.processes v.others idle),
  λ h. free (has_active m.processes) m.reserved m _ h.0 (inactive m.processes h.1),
)
