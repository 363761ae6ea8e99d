-- ===== src/Distillation/Dataset/Leakage.antt =====
-- The parts of `split_dataset` in distillation/dataset.py have no group in common.
use mathlib.Core.Path.{subst}
use ros2_vlm_demo.Common.{
  length, ℕ, String, ◌≡◌, refl, sym, ◌≢◌, Bool, true, false, Option, some, List, [], ◌∷◌, ◌++◌,
  contains, ◌==◌, string_dec, if◌then◌else◌, arith, Bool-cases, inl, inr, All,
}
use ros2_vlm_demo.Common.Dict
use ros2_vlm_demo.Distillation.Schema.{TemporalSample}
use ros2_vlm_demo.Distillation.Dataset.{
  group_key, Groups, or_empty, group_all, Split, split_loop, split_dataset, take_first, drop_first,
  at_least_one,
}

abbrev key_of : TemporalSample → String
key_of s = group_key s.sample_id

All-append :
    (P : TemporalSample → Type 0) (xs ys : List TemporalSample)
    → All P xs
    → All P ys
    → All P (xs ++ ys)
All-append P [] ys h k = k
All-append P (x ∷ xs) ys (h, hs) k = (h, All-append P xs ys hs k)

-- Every sample stands in the group of its key.
abbrev IsGrouped : Groups → Type 0
IsGrouped g = (k : String) → All (λ s. key_of s ≡ k) (or_empty (Dict.lookup k g))

All-if :
    (P : TemporalSample → Type 0) (b : Bool) (xs : List TemporalSample)
    (o : Option (List TemporalSample))
    → (b ≡ true → All P xs)
    → All P (or_empty o)
    → All P (or_empty (if b then some xs else o))
All-if P true xs o h k = h refl
All-if P false xs o h k = k

same_text : (a b : String) → (a == b) ≡ true → a ≡ b
same_text a b h = elim (string_dec a b) [ yes p ↦ p | no n ↦ ground arith ]

insert-IsGrouped :
    (s : TemporalSample) (g : Groups)
    → IsGrouped g
    → IsGrouped (Dict.insert (key_of s) (or_empty (Dict.lookup (key_of s) g) ++ s ∷ []) g)
insert-IsGrouped s g h k =
    let group = or_empty (Dict.lookup (key_of s) g) in
    rw (Dict.lookup-insert k (key_of s) (group ++ s ∷ []) g) (
      All-if (λ t. key_of t ≡ k) (key_of s == k) (group ++ s ∷ []) (Dict.lookup k g)
        (λ e.
          let p = same_text (key_of s) k e in
          subst (λ j. All (λ t. key_of t ≡ j) (group ++ s ∷ [])) p
            (All-append (λ t. key_of t ≡ key_of s) group (s ∷ []) (h (key_of s)) (refl, tt)))
        (h k))

group_all-IsGrouped :
    (ss : List TemporalSample) (g : Groups) → IsGrouped g → IsGrouped (group_all ss g)
unfolding group_all
group_all-IsGrouped [] g h = h
group_all-IsGrouped (s ∷ ss) g h = group_all-IsGrouped ss _ (insert-IsGrouped s g h)

-- Where the samples of a part have their keys.
pub record IsParted (train_keys val_keys : List String) (parts : Split) : Type 0 where
  pub in_train : All (λ s. contains train_keys (key_of s) ≡ true) parts.train
  pub in_val :
      All
        (λ s. (contains train_keys (key_of s) ≡ false) × (contains val_keys (key_of s) ≡ true))
        parts.val
  pub in_test :
      All
        (λ s. (contains train_keys (key_of s) ≡ false) × (contains val_keys (key_of s) ≡ false))
        parts.test

All-map :
    (P Q : TemporalSample → Type 0)
    → ((s : TemporalSample) → P s → Q s)
    → (ss : List TemporalSample) → All P ss
    → All Q ss
All-map P Q f [] h = tt
All-map P Q f (s ∷ ss) (h, hs) = (f s h, All-map P Q f ss hs)

module _ (train_keys val_keys : List String) (g : Groups) (grouped : IsGrouped g) where
  -- The samples of the group of a key have what the key has.
  group_has :
      (Q : String → Type 0) (key : String)
      → Q key
      → All (λ s. Q (key_of s)) (or_empty (Dict.lookup key g))
  group_has Q key q =
      All-map (λ s. key_of s ≡ key) (λ s. Q (key_of s)) (λ s e. subst Q (sym e) q)
        (or_empty (Dict.lookup key g)) (grouped key)

  split_loop-IsParted :
      (keys : List String) (parts : Split)
      → IsParted train_keys val_keys parts
      → IsParted train_keys val_keys (split_loop train_keys val_keys g keys parts)
  unfolding split_loop
  split_loop-IsParted [] parts h = h
  split_loop-IsParted (key ∷ keys) parts h = elim (Bool-cases (contains train_keys key)) [
    | inl a ↦ rw a (
        split_loop-IsParted keys _ record {
          in_train =
              All-append _ parts.train _ h.in_train
                (group_has (λ k. contains train_keys k ≡ true) key a);
          in_val = h.in_val;
          in_test = h.in_test;
        })
    | inr a ↦ elim (Bool-cases (contains val_keys key)) [
      | inl b ↦
          rw (a, b)
            (split_loop-IsParted keys _ record {
              in_train = h.in_train;
              in_val = All-append _ parts.val _ h.in_val (
                  group_has (λ k. (contains train_keys k ≡ false) × (contains val_keys k ≡ true))
                    key (a, b));
              in_test = h.in_test;
            })
      | inr b ↦
          rw (a, b)
            (split_loop-IsParted keys _ record {
              in_train = h.in_train;
              in_val = h.in_val;
              in_test = All-append _ parts.test _ h.in_test (
                  group_has (λ k. (contains train_keys k ≡ false) × (contains val_keys k ≡ false))
                    key (a, b));
            })
    ]
  ]

-- No sample of one list has the group key of a sample of the other.
abbrev pub Apart : List TemporalSample → List TemporalSample → Type 0
Apart ss ts = All (λ s. All (λ t. key_of s ≢ key_of t) ts) ss

apart :
    (P Q : String → Type 0)
    → ((k : String) → P k → Q k → ⊥)
    → (ss ts : List TemporalSample) → All (λ s. P (key_of s)) ss
    → All (λ t. Q (key_of t)) ts
    → Apart ss ts
apart P Q clash [] ts h k = tt
apart P Q clash (s ∷ ss) ts (h, hs) k = (
  All-map (λ t. Q (key_of t)) (λ t. key_of s ≢ key_of t) (λ t q e. clash (key_of t) (subst P e h) q)
      ts k,
  apart P Q clash ss ts hs k,
)

-- However the groups are shuffled and whatever the fractions, no group leaks: no two of the parts for
-- training, validation and test hold samples with the same group key.
pub split_dataset_lem :
    (shuffled : List String → List String) (train_share val_share : ℕ → ℕ)
    (samples : List TemporalSample)
    → let parts = split_dataset shuffled train_share val_share samples in
      Apart parts.train parts.val × Apart parts.train parts.test × Apart parts.val parts.test
unfolding split_dataset
split_dataset_lem shuffled train_share val_share samples =
    let groups = group_all samples [] in
    let keys = shuffled (Dict.keys groups) in
    let n_train = at_least_one (train_share (length keys)) in
    let n_val = at_least_one (val_share (length keys)) in
    let a = take_first n_train keys in
    let b = take_first n_val (drop_first n_train keys) in
    let w =
      split_loop-IsParted a b groups
        (group_all-IsGrouped samples [] (λ k. rw (Dict.lookup-nil k) tt)) keys
        (record { train = []; val = []; test = [] })
        (record { in_train = tt; in_val = tt; in_test = tt }) in
    (
      apart (λ k. contains a k ≡ true) (λ k. (contains a k ≡ false) × (contains b k ≡ true))
          (λ k p (q, r). cc (p, q)) _ _ w.in_train w.in_val,
      apart (λ k. contains a k ≡ true) (λ k. (contains a k ≡ false) × (contains b k ≡ false))
          (λ k p (q, r). cc (p, q)) _ _ w.in_train w.in_test,
      apart (λ k. (contains a k ≡ false) × (contains b k ≡ true))
          (λ k. (contains a k ≡ false) × (contains b k ≡ false)) (λ k (p, q) (r, s). cc (q, s)) _ _
          w.in_val w.in_test,
    )
