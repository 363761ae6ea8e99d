-- ===== src/Workbench/History/Laws.antt =====
-- What `_truncate_history` of web_console/experiment_engine.py keeps.
use mathlib.Core.List.{
  reverse, reverse-append, reverse-reverse, reverse-cons, append_assoc, append-nil,
}
use ros2_vlm_demo.Common.{
  ℕ, ◌+◌, ◌≤◌, ◌<◌, ◌≡◌, refl, ◌∙◌, sym, ap, ◌⊎◌, inl, inr, List, [], ◌∷◌, ◌++◌, length,
  length-append, ltb, arith, Bool-cases,
}
use ros2_vlm_demo.Workbench.History.{Text, join, semicolon, need, select_entries, truncate_history}

-- The length of a block.
abbrev pub block_length : List Text → ℕ
block_length parts = length (join semicolon parts)

block_length-cons :
    (e : Text) (parts : List Text) → block_length (e ∷ parts) ≡ block_length parts + need parts e
block_length-cons e [] = omega arith
block_length-cons e (x ∷ xs) = omega (
  arith,
  length-append e (semicolon ++ join semicolon (x ∷ xs)),
  length-append semicolon (join semicolon (x ∷ xs)),
)

-- What the loop returns: the newest entries that fit, and one more would not.
record IsSelection (reversed : List Text) (max_chars : ℕ) (start parts : List Text) : Type 0 where
  older : List Text
  newer : List Text
  split : reversed ≡ reverse newer ++ older
  chosen : parts ≡ newer ++ start
  maximal :
      (older ≡ [])
      ⊎ ((e : Text) × (es : List Text) × (older ≡ e ∷ es) × (max_chars < block_length (e ∷ parts)))

select_entries_fits :
    (reversed : List Text) (max_chars : ℕ) (selected : List Text) (used : ℕ)
    → used ≡ block_length selected
    → used ≤ max_chars
    → block_length (select_entries reversed max_chars selected used) ≤ max_chars
unfolding select_entries
select_entries_fits [] m sel used e le = omega arith
select_entries_fits (x ∷ xs) m sel used e le =
    ground (arith, block_length-cons x sel, select_entries_fits xs m (x ∷ sel) (used + need sel x))

snoc_split :
    (x : Text) (xs newer older : List Text)
    → xs ≡ reverse newer ++ older
    → x ∷ xs ≡ reverse (newer ++ x ∷ []) ++ older
snoc_split x xs newer older e = rw reverse-append (ap (λ t. x ∷ t) e)

select_entries-IsSelection :
    (reversed : List Text) (max_chars : ℕ) (selected : List Text) (used : ℕ)
    → used ≡ block_length selected
    → IsSelection reversed max_chars selected (select_entries reversed max_chars selected used)
unfolding select_entries
select_entries-IsSelection [] m sel used e = record {
  older = [];
  newer = [];
  split = refl;
  chosen = refl;
  maximal = inl refl;
}
select_entries-IsSelection (x ∷ xs) m sel used e = elim (Bool-cases (ltb m (used + need sel x))) [
  | inl full ↦ rw full (record {
    older = x ∷ xs;
    newer = [];
    split = refl;
    chosen = refl;
    maximal = inr (x, xs, refl, ground (arith, block_length-cons x sel));
  })
  | inr fits ↦
      let next = used + need sel x in
      let rec =
        select_entries-IsSelection xs m (x ∷ sel) next (omega (arith, block_length-cons x sel)) in
      rw fits (record {
        older = rec.older;
        newer = rec.newer ++ x ∷ [];
        split = snoc_split x xs rec.newer rec.older rec.split;
        chosen = rec.chosen ∙ sym (append_assoc rec.newer (x ∷ []) sel);
        maximal = rec.maximal;
      })
]

-- The history that is kept, and what was left out before it.
pub record IsNewest (history : List Text) (max_chars : ℕ) (block : Text) : Type 0 where
  pub left_out : List Text
  pub kept : List Text
  pub split : history ≡ left_out ++ kept
  pub joined : block ≡ join semicolon kept
  pub maximal :
      (left_out ≡ [])
      ⊎ ((e : Text) × (es : List Text) × (left_out ≡ es ++ e ∷ [])
          × (max_chars < block_length (e ∷ kept)))

IsNewest-of_selection :
    (history : List Text) (max_chars : ℕ) (parts : List Text)
    → IsSelection (reverse history) max_chars [] parts
    → IsNewest history max_chars (join semicolon parts)
IsNewest-of_selection history m parts s = record {
  left_out = reverse s.older;
  kept = parts;
  split =
      sym (reverse-reverse history)
      ∙ ap reverse s.split
      ∙ reverse-append (reverse s.newer) s.older
      ∙ ap (λ t. reverse s.older ++ t)
          (reverse-reverse s.newer ∙ sym (append-nil s.newer) ∙ sym s.chosen);
  joined = refl;
  maximal = elim s.maximal [
    | inl none_left ↦ inl (rw none_left)
    | inr (e, es, split, over) ↦ inr (e, reverse es, rw split (reverse-cons e es), over)
  ];
}

truncate_history-eq :
    (history : List Text) (max_chars : ℕ)
    → 0 < max_chars
    → truncate_history history max_chars
      ≡ join semicolon (select_entries (reverse history) max_chars [] 0)
unfolding truncate_history
truncate_history-eq [] m h = refl
truncate_history-eq (x ∷ xs) m h = ground arith

-- With a positive budget the block has at most `max_chars` code points; it is the entries at the
-- end of the history, oldest first, joined by "; "; and with one more entry it would be too long.
pub truncate_history_lem :
    (history : List Text) (max_chars : ℕ)
    → 0 < max_chars
    → (length (truncate_history history max_chars) ≤ max_chars)
      × IsNewest history max_chars (truncate_history history max_chars)
truncate_history_lem history m h = rw (truncate_history-eq history m h) (
  select_entries_fits (reverse history) m [] 0 refl (omega arith),
  IsNewest-of_selection history m _ (select_entries-IsSelection (reverse history) m [] 0 refl),
)
