-- ===== src/Distillation/References.antt =====
-- The search of `_validate_no_hallucinated_frame_refs` in distillation/validator.py for
-- `\b(?:image|frame)\s+(\d+)\b`, ignoring case. Python's character classes are an argument.
use ros2_vlm_demo.Common.{
  ℕ, ◌+◌, ◌*◌, Bool, true, not, Option, none, some, List, [], ◌∷◌, codes, if◌then◌else◌,
}
use ros2_vlm_demo.Distillation.Schema.{Text}

-- `\w`, `\s`, the value of a `\d`, and whether a code point is the given small letter in some case.
pub record Classes : Type 0 where
  pub is_word : ℕ → Bool
  pub is_space : ℕ → Bool
  pub digit : ℕ → Option ℕ
  pub is_letter : ℕ → ℕ → Bool

module _ (c : Classes) where
  -- The rest of the text behind `word`.
  abbrev pub skip_word : Text → Text → Option Text
  skip_word [] text = some text
  skip_word (l ∷ ls) [] = none
  skip_word (l ∷ ls) (t ∷ ts) = let rest = skip_word ls ts in if c.is_letter l t then rest else none

  -- `\b` behind a word character.
  abbrev pub ends_word : Text → Bool
  ends_word [] = true
  ends_word (t ∷ ts) = not (c.is_word t)

  -- `(\d+)\b`, with the value read so far. Fewer digits than all end at no boundary.
  abbrev pub read_digits : ℕ → Text → Option ℕ
  read_digits value [] = some value
  read_digits value (t ∷ ts) = elim (c.digit t) [
    | some d ↦ read_digits (value * 10 + d) ts
    | none ↦ if c.is_word t then none else some value
  ]

  abbrev pub number : Text → Option ℕ
  number [] = none
  number (t ∷ ts) = elim (c.digit t) [ some d ↦ read_digits d ts | none ↦ none ]

  -- `\s+(\d+)\b`, once one space has been read.
  abbrev pub after_space : Text → Option ℕ
  after_space [] = none
  after_space (t ∷ ts) = let rest = after_space ts in if c.is_space t then rest else number (t ∷ ts)

  abbrev pub spaced_number : Text → Option ℕ
  spaced_number [] = none
  spaced_number (t ∷ ts) = if c.is_space t then after_space ts else none

  abbrev pub number_behind : Option Text → Option ℕ
  number_behind none = none
  number_behind (some rest) = spaced_number rest

  -- A match that starts here.
  abbrev pub reference_here : Text → Option ℕ
  reference_here text = elim (number_behind (skip_word (codes "image") text)) [
    | some n ↦ some n
    | none ↦ number_behind (skip_word (codes "frame") text)
  ]

  -- The numbers of all matches. Matches begin with a letter at a word boundary and end in digits,
  -- so no two overlap. `inside` tells whether the last character was a word character.
  unfoldable pub references : Bool → Text → List ℕ
  references inside [] = []
  references inside (t ∷ ts) =
      let rest = references (c.is_word t) ts in
      if inside then rest else elim (reference_here (t ∷ ts)) [ some n ↦ n ∷ rest | none ↦ rest ]
