-- ===== src/Workbench/Processes/Each.antt =====
-- What every change of a process keeps.
use mathlib.Core.Path.{subst}
use ros2_vlm_demo.Common.{
  ℕ, ◌+◌, ◌≤◌, ◌<◌, ◌≡◌, ◌⊎◌, inl, inr, refl, String, Bool, true, false, ◌&&◌, Option, none, some,
  List, [], ◌∷◌, sym, ap, ◌∙◌, eqb, ltb, length, length-append, if◌then◌else◌, if_lem, arith, All,
}
use ros2_vlm_demo.Common.Int.{ℤ}
use ros2_vlm_demo.Workbench.Processes.{
  Completion, Process, new_process, is_some, exits, collect, test_stop, begin_stop, finish_stop,
  wait_returns, completion, fire, call_next, call_back, max_log_lines,
}
use ros2_vlm_demo.Workbench.Processes.Report.{IsReport, false_or_true, All-IsReport, reported_code}

pub record IsProcess (p : Process) : Type 0 where
  pub once : length p.calls + length p.calling ≡ (if p.callback_fired then 1 else 0)
  pub due : All (IsReport p.run_id p.poll) p.calling
  pub made : All (IsReport p.run_id p.poll) p.calls
  pub running : (p.stopped ≡ true) ⊎ ((p.firing ≡ 0) × (p.callback_fired ≡ false))
  pub answered : (p.stopped ≡ false) ⊎ ((p.callback_fired ≡ true) ⊎ (0 < p.firing))
  pub asked : (p.stopping ≡ 0) ⊎ (p.explicitly_stopped ≡ true)
  pub code : (p.stopped ≡ false) ⊎ ((p.explicitly_stopped ≡ true) ⊎ (is_some p.exit_code ≡ true))
  pub ended : (p.exit_code ≡ none) ⊎ ((p.exit_code ≡ p.poll) × (is_some p.poll ≡ true))
  pub logs : length p.log_lines ≤ max_log_lines

pub new_process-IsProcess : (run_id : String) → IsProcess (new_process run_id)
new_process-IsProcess run_id = record {
  once = refl;
  due = tt;
  made = tt;
  running = inr (refl, refl);
  answered = inl refl;
  asked = inl refl;
  code = inl refl;
  ended = inl refl;
  logs = omega arith;
}

or_same : (o : Option ℤ) → (o ≡ none) ⊎ ((o ≡ o) × (is_some o ≡ true))
or_same none = inl refl
or_same (some c) = inr (refl, refl)

positive_stopping : (n : ℕ) (b : Bool) → eqb n 0 ≡ false → (n ≡ 0) ⊎ (b ≡ true) → b ≡ true
positive_stopping n b h k = ground arith

right : (a b : Bool) → (a && b) ≡ true → b ≡ true
right a b h = ground arith

not_ended :
    (code poll : Option ℤ)
    → is_some poll ≡ false
    → (code ≡ none) ⊎ ((code ≡ poll) × (is_some poll ≡ true))
    → code ≡ none
not_ended code poll h (inl k) = k
not_ended code poll h (inr k) = absurd (false_or_true (sym h ∙ k.1))

pub exits-IsProcess : (code : ℤ) (p : Process) → IsProcess p → IsProcess (exits code p)
unfolding exits
exits-IsProcess code p v =
    if_lem IsProcess (is_some p.poll) p _ (λ h. v)
      (λ h. record {
        once = v.once;
        due = All-IsReport p.run_id p.poll (some code) p.calling h v.due;
        made = All-IsReport p.run_id p.poll (some code) p.calls h v.made;
        running = v.running;
        answered = v.answered;
        asked = v.asked;
        code = v.code;
        ended = inl (not_ended p.exit_code p.poll h v.ended);
        logs = v.logs;
      })

pub collect-IsProcess : (line : String) (p : Process) → IsProcess p → IsProcess (collect line p)
unfolding collect
collect-IsProcess line p v =
    if_lem IsProcess (ltb (length p.log_lines) max_log_lines) _ p
      (λ few. record {
        once = v.once;
        due = v.due;
        made = v.made;
        running = v.running;
        answered = v.answered;
        asked = v.asked;
        code = v.code;
        ended = v.ended;
        logs = ground (arith, length-append p.log_lines (line ∷ []));
      })
      (λ full. v)

pub test_stop-IsProcess : (p : Process) → IsProcess p → IsProcess (test_stop p)
unfolding test_stop
test_stop-IsProcess p v =
    if_lem IsProcess p.stopped p _ (λ h. v)
      (λ h. record {
        once = v.once;
        due = v.due;
        made = v.made;
        running = v.running;
        answered = v.answered;
        asked = v.asked;
        code = v.code;
        ended = v.ended;
        logs = v.logs;
      })

pub begin_stop-IsProcess : (p : Process) → IsProcess p → IsProcess (begin_stop p)
unfolding begin_stop
begin_stop-IsProcess p v =
    if_lem IsProcess (eqb p.entering 0) p _ (λ h. v)
      (λ h. record {
        once = v.once;
        due = v.due;
        made = v.made;
        running = v.running;
        answered = v.answered;
        asked = inr refl;
        code = inr (inl refl);
        ended = v.ended;
        logs = v.logs;
      })

pub finish_stop-IsProcess : (p : Process) → IsProcess p → IsProcess (finish_stop p)
unfolding finish_stop
finish_stop-IsProcess p v =
    if_lem IsProcess (eqb p.stopping 0) p _ (λ h. v)
      (λ h.
        let asked = positive_stopping p.stopping p.explicitly_stopped h v.asked in
        record {
          once = v.once;
          due = v.due;
          made = v.made;
          running = inl refl;
          answered = inr (inr (omega arith));
          asked = inr asked;
          code = inr (inl asked);
          ended = or_same p.poll;
          logs = v.logs;
        })

pub wait_returns-IsProcess : (p : Process) → IsProcess p → IsProcess (wait_returns p)
unfolding wait_returns
wait_returns-IsProcess p v =
    if_lem IsProcess (p.waiting && is_some p.poll) _ p
      (λ h. record {
        once = v.once;
        due = v.due;
        made = v.made;
        running = inl refl;
        answered = inr (inr (omega arith));
        asked = v.asked;
        code = inr (inr (right p.waiting (is_some p.poll) h));
        ended = or_same p.poll;
        logs = v.logs;
      })
      (λ h. v)

has_stopped : (p : Process) → IsProcess p → eqb p.firing 0 ≡ false → p.stopped ≡ true
has_stopped p v h = let a = v.running in ground arith

true_or_false : Path Bool true false → ⊥
true_or_false h = ground arith

report : (p : Process) → IsProcess p → p.stopped ≡ true → IsReport p.run_id p.poll (completion p)
report p v h = record {
  same_run = refl;
  code = elim v.code [
    | inl k ↦ absurd (true_or_false (sym h ∙ k))
    | inr k ↦ reported_code p.exit_code p.poll p.explicitly_stopped k v.ended
  ];
  logs = v.logs;
}

pub fire-IsProcess : (p : Process) → IsProcess p → IsProcess (fire p)
unfolding fire
fire-IsProcess p v =
    if_lem IsProcess (eqb p.firing 0) p _ (λ h. v)
      (λ h.
        if_lem IsProcess p.callback_fired _ _
          (λ fired. record {
            once = v.once;
            due = v.due;
            made = v.made;
            running = inl (has_stopped p v h);
            answered = inr (inl fired);
            asked = v.asked;
            code = v.code;
            ended = v.ended;
            logs = v.logs;
          })
          (λ first. record {
            once = let a = v.once in ground arith;
            due = (report p v (has_stopped p v h), v.due);
            made = v.made;
            running = inl (has_stopped p v h);
            answered = inr (inl refl);
            asked = v.asked;
            code = v.code;
            ended = v.ended;
            logs = v.logs;
          }))

called_next :
    (cs : List Completion) (p : Process) → p.calling ≡ cs → IsProcess p → IsProcess (call_next cs p)
called_next [] p e v = v
called_next (c ∷ cs) p e v =
    let due : All (IsReport p.run_id p.poll) (c ∷ cs) =
      subst (All (IsReport p.run_id p.poll)) e v.due in
    record {
      once = let a = v.once in let b = ap length e in ground arith;
      due = due.1;
      made = (due.0, v.made);
      running = v.running;
      answered = v.answered;
      asked = v.asked;
      code = v.code;
      ended = v.ended;
      logs = v.logs;
    }

pub call_back-IsProcess : (p : Process) → IsProcess p → IsProcess (call_back p)
unfolding call_back
call_back-IsProcess p v = called_next p.calling p refl v
