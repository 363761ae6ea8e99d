-- ===== src/Workbench/History.antt =====
-- The prompt of web_console/experiment_engine.py: `_truncate_history` and `_build_prompt`. A text is
-- the list of its code points. `validate_definition` lets no negative budget through, so that
-- `max_chars <= 0` is `max_chars == 0`.
pub mod Laws
use mathlib.Core.List.{reverse}
use ros2_vlm_demo.Common.{
  ℕ, ◌+◌, Bool, List, [], ◌∷◌, ◌++◌, length, ltb, eqb, ◌||◌, is_empty, if◌then◌else◌, codes,
}

abbrev pub Text : Type 0
Text = List ℕ

-- `sep.join(parts)`
abbrev pub join : Text → List Text → Text
join sep [] = []
join sep (x ∷ []) = x
join sep (x ∷ y ∷ ys) = x ++ (sep ++ join sep (y ∷ ys))

abbrev pub semicolon : Text
semicolon = codes "; "

abbrev pub blank_line : Text
blank_line = b'\n' ∷ b'\n' ∷ []

-- What an entry adds to the block.
abbrev pub need : List Text → Text → ℕ
need selected entry = length entry + (if is_empty selected then 0 else 2)

-- The loop over the reversed history.
unfoldable pub select_entries : List Text → ℕ → List Text → ℕ → List Text
select_entries [] max_chars selected used = selected
select_entries (entry ∷ older) max_chars selected used =
    let rest = select_entries older max_chars (entry ∷ selected) (used + need selected entry) in
    if ltb max_chars (used + need selected entry) then selected else rest

unfoldable pub truncate_history : List Text → ℕ → Text
unfolding select_entries
truncate_history history max_chars =
    if is_empty history || eqb max_chars 0
    then []
    else join semicolon (select_entries (reverse history) max_chars [] 0)

abbrev pub history_parts : List Text → ℕ → List Text
history_parts history max_history_chars =
    if is_empty history
    then []
    else (let block = truncate_history history max_history_chars in
        if is_empty block then [] else codes "Prior observations:" ∷ block ∷ [])

abbrev pub system_parts : Text → List Text
system_parts system_instruction =
    if is_empty system_instruction then [] else system_instruction ∷ []

unfoldable pub build_prompt : Text → Text → List Text → ℕ → Text
unfolding truncate_history
build_prompt task_prompt system_instruction history max_history_chars = join blank_line (
    system_parts system_instruction
    ++ (history_parts history max_history_chars ++ task_prompt ∷ []))
