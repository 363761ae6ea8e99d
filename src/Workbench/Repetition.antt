-- ===== src/Workbench/Repetition.antt =====
-- `_compute_repetition` of web_console/experiment_engine.py. `words` stands for the lower-casing, the
-- `re.sub` and the `split` of a text. `overlap >= 0.8` on the rounded quotient of two counts is the
-- comparison of five times the one with four times the other.
use ros2_vlm_demo.Common.{
  ℕ, ◌*◌, Bool, true, false, List, [], ◌∷◌, ◌++◌, length, leb, eqb, ◌||◌, ◌&&◌, is_empty, any,
  filter, if◌then◌else◌, not,
}
use ros2_vlm_demo.Workbench.History.{Text}

abbrev pub repetition_window : ℕ
repetition_window = 3

-- Whether two texts are equal.
abbrev pub text_eq : Text → Text → Bool
text_eq [] [] = true
text_eq (a ∷ s) (b ∷ t) = let rest = text_eq s t in if eqb a b then rest else false
text_eq _ _ = false

abbrev pub in_set : Text → List Text → Bool
in_set t = any (text_eq t)

abbrev pub space : Text
space = b' ' ∷ []

-- `set(" ".join(words[i : i + 3]) for i in range(len(words) - 2))`
unfoldable pub trigrams_of : List Text → List Text
trigrams_of (a ∷ b ∷ c ∷ ws) =
    let rest = trigrams_of (b ∷ c ∷ ws) in
    let t = a ++ (space ++ (b ++ (space ++ c))) in if in_set t rest then rest else t ∷ rest
trigrams_of _ = []

-- `xs[-n:]` for a positive `n`
unfoldable pub take_last {ℓ} : {A : Type ℓ} → ℕ → List A → List A
take_last n [] = []
take_last n (x ∷ xs) = let rest = take_last n xs in if leb (length (x ∷ xs)) n then x ∷ xs else rest

abbrev pub common : List Text → List Text → ℕ
common a b = length (filter (λ t. in_set t b) a)

abbrev pub smaller : List Text → List Text → ℕ
smaller a b = if leb (length a) (length b) then length a else length b

-- `overlap >= _REPETITION_THRESHOLD`
abbrev pub overlaps : List Text → List Text → Bool
overlaps new prev = leb (4 * smaller new prev) (5 * common new prev)

module _ (words : Text → List Text) where
  abbrev pub repeats : List Text → Text → Bool
  repeats new prev_text =
      let prev = trigrams_of (words prev_text) in not (is_empty prev) && overlaps new prev

  unfoldable pub compute_repetition : Text → List Text → Bool
  unfolding trigrams_of take_last
  compute_repetition new_text recent_texts =
      if is_empty new_text || is_empty recent_texts
      then false
      else (let new = trigrams_of (words new_text) in
          if is_empty new
          then false
          else any (repeats new) (take_last repetition_window recent_texts))
