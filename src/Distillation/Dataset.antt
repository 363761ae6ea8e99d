-- ===== src/Distillation/Dataset.antt =====
-- `split_dataset` of distillation/dataset.py. The seeded shuffle of the sorted keys and the rounded
-- share of a number of groups, `round(n * frac)`, are arguments.
pub mod Leakage
use Prim.Native.String as String
use ros2_vlm_demo.Common.{
  ℕ, zero, suc, ◌+◌, String, Bool, true, false, Option, none, some, List, [], ◌∷◌, ◌++◌, contains,
  length, ltb, if◌then◌else◌, ◌==◌, ◌<>◌,
}
use ros2_vlm_demo.Common.Dict
use ros2_vlm_demo.Common.Dict.{Dict}
use ros2_vlm_demo.Distillation.Schema.{TemporalSample}

-- What stands before the last "-".
abbrev pub before_last_dash : String → Option String
before_last_dash String.[] = none
before_last_dash (String.◌∷◌ c s) =
    let rest = before_last_dash s in
    elim rest [
      | some p ↦ some (String.◌∷◌ c p)
      | none ↦ if String.◌∷◌ c String.[] == "-" then some "" else none
    ]

abbrev pub or_whole : Option String → String → String
or_whole none s = s
or_whole (some p) s = p

unfoldable pub group_key : String → String
group_key sample_id = or_whole (before_last_dash sample_id) sample_id

abbrev pub Groups : Type 0
Groups = Dict (List TemporalSample)

abbrev pub or_empty : Option (List TemporalSample) → List TemporalSample
or_empty none = []
or_empty (some ss) = ss

-- `groups.setdefault(k, []).append(s)` for each sample.
unfoldable pub group_all : List TemporalSample → Groups → Groups
group_all [] g = g
group_all (s ∷ ss) g =
    let k = group_key s.sample_id in
    group_all ss (Dict.insert k (or_empty (Dict.lookup k g) ++ s ∷ []) g)

-- `keys[:n]` and `keys[n:]`
abbrev pub take_first : ℕ → List String → List String
take_first zero ks = []
take_first (suc n) [] = []
take_first (suc n) (k ∷ ks) = k ∷ take_first n ks

abbrev pub drop_first : ℕ → List String → List String
drop_first zero ks = ks
drop_first (suc n) [] = []
drop_first (suc n) (k ∷ ks) = drop_first n ks

pub record Split : Type 0 where
  pub train : List TemporalSample
  pub val : List TemporalSample
  pub test : List TemporalSample

-- The loop over the keys, all of which are keys of the groups.
unfoldable pub split_loop : List String → List String → Groups → List String → Split → Split
split_loop train_keys val_keys g [] parts = parts
split_loop train_keys val_keys g (key ∷ keys) parts =
    let group = or_empty (Dict.lookup key g) in
    split_loop train_keys val_keys g keys (
      if contains train_keys key
      then record parts { train = parts.train ++ group }
      else if contains val_keys key
      then record parts { val = parts.val ++ group }
      else record parts { test = parts.test ++ group })

-- `max(1, m)`
abbrev pub at_least_one : ℕ → ℕ
at_least_one m = if ltb 1 m then m else 1

module _ (shuffled : List String → List String) (train_share val_share : ℕ → ℕ) where
  unfoldable pub split_dataset : List TemporalSample → Split
  unfolding group_all split_loop
  split_dataset samples =
      let groups = group_all samples [] in
      let keys = shuffled (Dict.keys groups) in
      let n_train = at_least_one (train_share (length keys)) in
      let n_val = at_least_one (val_share (length keys)) in
      split_loop (take_first n_train keys) (take_first n_val (drop_first n_train keys)) groups keys
        (record { train = []; val = []; test = [] })
