-- ===== src/Workbench/Experiment/Window.antt =====
-- The rolling window of `_run_observation_history` in web_console/experiment_engine.py.
use ros2_vlm_demo.Common.{
  ℕ, ◌+◌, ◌≤◌, String, ◌≡◌, refl, ◌∙◌, ap, Bool, true, false, ◌&&◌, not, List, [], ◌∷◌, ◌++◌,
  length, length-append, ltb, leb, is_empty, arith, Bool-cases, inl, inr, if◌then◌else◌,
}
use ros2_vlm_demo.Workbench.History.{Text}
use ros2_vlm_demo.Workbench.Repetition.{take_last}
use ros2_vlm_demo.Workbench.Experiment.{
  ExperimentDefinition, FrameResult, Reply, frame_result, max_entries, history_prompt, remember,
  repetition, history_loop, run_observation_history,
}

pub length-take_last {ℓ} : {A : Type ℓ} (n : ℕ) (xs : List A) → length (take_last n xs) ≤ n
unfolding take_last
length-take_last n [] = omega arith
length-take_last n (x ∷ xs) = ground (arith, length-take_last n xs)

still_long {ℓ} :
    {A : Type ℓ} (x : A) (xs ys : List A) (n : ℕ)
    → leb (length (x ∷ xs)) n ≡ false
    → leb (length (x ∷ (xs ++ ys))) n ≡ false
still_long x xs ys n h = ground (arith, length-append xs ys)

if_same {ℓ} : {A : Type ℓ} (b : Bool) → ◌≡◌ {A = List A} [] (if b then [] else [])
if_same true = refl
if_same false = refl

-- A window of a window is the window.
pub take_last-append {ℓ} :
    {A : Type ℓ} (n : ℕ) (xs ys : List A)
    → take_last n (take_last n xs ++ ys) ≡ take_last n (xs ++ ys)
unfolding take_last
take_last-append n [] ys = refl
take_last-append n (x ∷ xs) ys = elim (Bool-cases (leb (length (x ∷ xs)) n)) [
  | inl short ↦ rw short refl
  | inr long ↦ rw (long, still_long x xs ys n long) (take_last-append n xs ys)
]

module _ (infer : ℕ → String → Text → Reply) (cancelled : ℕ → Bool) (d : ExperimentDefinition) where
  -- Of all the responses so far, those that count.
  abbrev pub window : List Text → List Text
  window all =
      if ltb 0 (max_entries infer cancelled d)
      then take_last (max_entries infer cancelled d) all
      else all

  -- All the responses so far that were successful and not empty.
  abbrev pub accumulate : List Text → Reply → List Text
  accumulate all reply =
      if reply.success && not (is_empty reply.text) then all ++ reply.text ∷ [] else all

  remember-window :
      (all : List Text) (reply : Reply)
      → remember infer cancelled d (window all) reply ≡ window (accumulate all reply)
  remember-window all reply =
      ground (arith, take_last-append (max_entries infer cancelled d) all (reply.text ∷ []))

  module _ (words : Text → List Text) where
    -- The run with the whole history kept, of which each frame is shown the window.
    unfoldable pub unbounded_loop : ℕ → List String → List Text → List FrameResult
    unbounded_loop i [] all = []
    unbounded_loop i (path ∷ paths) all =
        let prompt = history_prompt infer cancelled d (window all) in
        let reply = infer i path prompt in
        let rest = unbounded_loop (i + 1) paths (accumulate all reply) in
        if cancelled i
        then []
        else frame_result infer cancelled d i path prompt (length (window all))
            (repetition infer cancelled d words (window all) reply)
          ∷ rest

    history_loop-eq-unbounded_loop :
        (i : ℕ) (paths : List String) (all : List Text)
        → history_loop infer cancelled d words i paths (window all) ≡ unbounded_loop i paths all
    unfolding history_loop unbounded_loop
    history_loop-eq-unbounded_loop i [] all = refl
    history_loop-eq-unbounded_loop i (path ∷ paths) all =
        let reply = infer i path (history_prompt infer cancelled d (window all)) in
        rw (
          remember-window all reply,
          history_loop-eq-unbounded_loop (i + 1) paths (accumulate all reply),
        )

    -- The rolling history is a window on all responses: each frame of the run gets the prompt, the
    -- count and the repetition test of the last `max_entries` successful nonempty responses before
    -- it (of all of them, if `max_entries` is 0), however often the history has been cut.
    pub run_observation_history_lem :
        run_observation_history infer cancelled d words ≡ unbounded_loop 0 d.image_paths []
    unfolding run_observation_history take_last
    run_observation_history_lem =
        ap (history_loop infer cancelled d words 0 d.image_paths)
          (if_same (ltb 0 (max_entries infer cancelled d)))
        ∙ history_loop-eq-unbounded_loop 0 d.image_paths []
