-- ===== src/Workbench/Processes/Report.antt =====
-- What the callbacks of web_console/process_manager.py are given.
use ros2_vlm_demo.Common.{
  ◌≤◌, ◌≡◌, ◌⊎◌, inl, inr, String, Bool, true, false, Option, none, List, [], ◌∷◌, sym, ap, ◌∙◌,
  length, arith, All,
}
use ros2_vlm_demo.Common.Int.{ℤ}
use ros2_vlm_demo.Workbench.Processes.{Completion, is_some, max_log_lines}

-- What a callback is given of a process with that identifier and that `poll`: the identifier, the code
-- with which the process has ended, or none if a stop has been asked for, and a log within the limit.
pub record IsReport (run_id : String) (poll : Option ℤ) (c : Completion) : Type 0 where
  pub same_run : c.run_id ≡ run_id
  pub code :
      ((c.exit_code ≡ poll) × (is_some poll ≡ true))
      ⊎ ((c.exit_code ≡ none) × (c.was_stopped ≡ true))
  pub logs : length c.logs ≤ max_log_lines

pub false_or_true : Path Bool false true → ⊥
false_or_true h = ground arith

-- A report of a process that has not ended stays one when it ends.
pub IsReport-exits :
    (run_id : String) (old : Option ℤ) (new : Option ℤ) (c : Completion)
    → is_some old ≡ false
    → IsReport run_id old c
    → IsReport run_id new c
IsReport-exits run_id old new c h r = record {
  same_run = r.same_run;
  code = elim r.code [ inl k ↦ absurd (false_or_true (sym h ∙ k.1)) | inr k ↦ inr k ];
  logs = r.logs;
}

pub All-IsReport :
    (run_id : String) (old new : Option ℤ) (cs : List Completion)
    → is_some old ≡ false
    → All (IsReport run_id old) cs
    → All (IsReport run_id new) cs
All-IsReport run_id old new [] h rs = tt
All-IsReport run_id old new (c ∷ cs) h (r, rs) =
    (IsReport-exits run_id old new c h r, All-IsReport run_id old new cs h rs)

pub reported_code :
    (code poll : Option ℤ) (asked : Bool)
    → (asked ≡ true) ⊎ (is_some code ≡ true)
    → (code ≡ none) ⊎ ((code ≡ poll) × (is_some poll ≡ true))
    → ((code ≡ poll) × (is_some poll ≡ true)) ⊎ ((code ≡ none) × (asked ≡ true))
reported_code code poll asked h (inr k) = inl k
reported_code code poll asked (inl h) (inl k) = inr (k, h)
reported_code code poll asked (inr h) (inl k) = absurd (false_or_true (sym (ap is_some k) ∙ h))
