-- ===== src/Workbench/Experiment/Runs.antt =====
-- Which frames a run of web_console/experiment_engine.py reports, and what its history costs.
use ros2_vlm_demo.Common.{
  ℕ, ◌+◌, ◌≤◌, ◌<◌, String, ◌≡◌, refl, ◌∙◌, ap, Bool, false, ◌&&◌, not, List, [], ◌∷◌, ◌++◌, map,
  length, length-append, is_empty, arith, All, Bool-cases, inl, inr, if◌then◌else◌,
}
use mathlib.Core.Path.{ap₂}
use ros2_vlm_demo.Workbench.History.{Text, build_prompt}
use ros2_vlm_demo.Workbench.Experiment.{
  ExperimentDefinition, FrameResult, Reply, frame_result, single_loop, run_single_frame,
  max_entries, history_prompt, remember, history_loop, run_observation_history,
}
use ros2_vlm_demo.Workbench.Experiment.Window.{length-take_last}

-- The images up to the first frame before which the run was cancelled, with their numbers.
abbrev pub processed : (ℕ → Bool) → ℕ → List String → List (ℕ × String)
processed cancelled i [] = []
processed cancelled i (path ∷ paths) =
    let rest = processed cancelled (i + 1) paths in if cancelled i then [] else (i, path) ∷ rest

abbrev pub labels : List FrameResult → List (ℕ × String)
labels = map (λ r. (r.frame_index, r.image_path))

-- A result without what only the history strategy reports.
abbrev pub plain : FrameResult → FrameResult
plain r = record r { history_entries_used = 0; repetition_flag = false }

abbrev pub plain_all : List FrameResult → List FrameResult
plain_all = map plain

abbrev pub entries_used : List FrameResult → List ℕ
entries_used = map (λ r. r.history_entries_used)

-- For each result how many earlier ones were successful and not empty.
abbrev pub successes_before : ℕ → List FrameResult → List ℕ
successes_before n [] = []
successes_before n (r ∷ rs) =
    n ∷ successes_before (if r.success && not (is_empty r.text) then n + 1 else n) rs

module _ (infer : ℕ → String → Text → Reply) (cancelled : ℕ → Bool) (d : ExperimentDefinition) where
  single_loop-labels :
      (prompt : Text) (i : ℕ) (paths : List String)
      → labels (single_loop infer cancelled d prompt i paths) ≡ processed cancelled i paths
  unfolding single_loop
  single_loop-labels prompt i [] = refl
  single_loop-labels prompt i (path ∷ paths) =
      ground (arith, single_loop-labels prompt (i + 1) paths)

  module _ (words : Text → List Text) where
    history_loop-labels :
        (i : ℕ) (paths : List String) (history : List Text)
        → labels (history_loop infer cancelled d words i paths history)
          ≡ processed cancelled i paths
    unfolding history_loop
    history_loop-labels i [] history = refl
    history_loop-labels i (path ∷ paths) history =
        let reply = infer i path (history_prompt infer cancelled d history) in
        elim (Bool-cases (cancelled i)) [
          | inl stop ↦ rw stop
          | inr go ↦ rw go (
              ap (λ t. (i, path) ∷ t)
                (history_loop-labels (i + 1) paths (remember infer cancelled d history reply)))
        ]

    -- Under both strategies the results are those of the images in order, numbered from 0, up to
    -- the first frame before which the run is cancelled: none is skipped and none comes twice.
    pub runs_in_order :
        (labels (run_single_frame infer cancelled d) ≡ processed cancelled 0 d.image_paths)
        × (labels (run_observation_history infer cancelled d words)
            ≡ processed cancelled 0 d.image_paths)
    unfolding run_single_frame run_observation_history
    runs_in_order = (single_loop-labels _ 0 d.image_paths, history_loop-labels 0 d.image_paths [])

    remember_bounded :
        (history : List Text) (reply : Reply)
        → 0 < max_entries infer cancelled d
        → length history ≤ max_entries infer cancelled d
        → length (remember infer cancelled d history reply) ≤ max_entries infer cancelled d
    remember_bounded history reply h b =
        ground
          (arith, length-take_last (max_entries infer cancelled d) (history ++ reply.text ∷ []))

    history_loop_bounded :
        (i : ℕ) (paths : List String) (history : List Text)
        → 0 < max_entries infer cancelled d
        → length history ≤ max_entries infer cancelled d
        → All
            (λ r. r.history_entries_used ≤ max_entries infer cancelled d)
            (history_loop infer cancelled d words i paths history)
    unfolding history_loop
    history_loop_bounded i [] history h b = tt
    history_loop_bounded i (path ∷ paths) history h b =
        let reply = infer i path (history_prompt infer cancelled d history) in
        elim (Bool-cases (cancelled i)) [
          | inl stop ↦ rw stop tt
          | inr go ↦ rw go (
            b,
            history_loop_bounded (i + 1) paths (remember infer cancelled d history reply) h
                (remember_bounded history reply h b),
          )
        ]

    -- With a positive limit no frame is reported to use more history entries than the limit.
    pub history_bounded :
        0 < max_entries infer cancelled d
        → All
            (λ r. r.history_entries_used ≤ max_entries infer cancelled d)
            (run_observation_history infer cancelled d words)
    unfolding run_observation_history
    history_bounded h = history_loop_bounded 0 d.image_paths [] h (omega arith)

    no_history_prompt :
        (history : List Text)
        → max_entries infer cancelled d ≡ 0
        → history_prompt infer cancelled d history
          ≡ build_prompt d.task_prompt d.system_instruction [] 0
    unfolding build_prompt
    no_history_prompt history z = ground arith

    length-remember :
        (history : List Text) (reply : Reply)
        → max_entries infer cancelled d ≡ 0
        → length (remember infer cancelled d history reply) ≡ (
            if reply.success && not (is_empty reply.text)
            then length history + 1
            else length history)
    length-remember history reply z = ground (arith, length-append history (reply.text ∷ []))

    no_history_loop :
        (i : ℕ) (paths : List String) (history : List Text)
        → max_entries infer cancelled d ≡ 0
        → let prompt = build_prompt d.task_prompt d.system_instruction [] 0 in
          let rs = history_loop infer cancelled d words i paths history in
          (plain_all rs ≡ single_loop infer cancelled d prompt i paths)
          × (entries_used rs ≡ successes_before (length history) rs)
    unfolding history_loop single_loop
    no_history_loop i [] history z = (refl, refl)
    no_history_loop i (path ∷ paths) history z =
        let reply = infer i path (history_prompt infer cancelled d history) in
        let (same, used) =
          no_history_loop (i + 1) paths (remember infer cancelled d history reply) z in
        elim (Bool-cases (cancelled i)) [
          | inl stop ↦ rw stop (refl, refl)
          | inr go ↦ rw go (
            ap₂ (λ p t. frame_result infer cancelled d i path p 0 false ∷ t)
                (no_history_prompt history z) same,
            ap (λ t. length history ∷ t)
                (used
                  ∙ ap
                      (λ n. successes_before n (
                        history_loop infer cancelled d words (i + 1) paths
                          (remember infer cancelled d history reply)))
                      (length-remember history reply z)),
          )
        ]

    -- With a limit of 0 the history strategy is the single-frame strategy: prompts, replies and all
    -- other fields agree, but for the repetition flag and the number of history entries used. That
    -- number is not 0: it counts the successful nonempty responses before the frame, although none
    -- of them is in the prompt.
    pub no_history :
        max_entries infer cancelled d ≡ 0
        → let rs = run_observation_history infer cancelled d words in
          (plain_all rs ≡ run_single_frame infer cancelled d)
          × (entries_used rs ≡ successes_before 0 rs)
    unfolding run_observation_history run_single_frame
    no_history z = no_history_loop 0 d.image_paths [] z
