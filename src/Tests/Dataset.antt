-- ===== src/Tests/Dataset.antt =====
-- Three samples of two groups for distillation/dataset.py.
use ros2_vlm_demo.Common.{ℕ, ◌≡◌, refl, String, List, [], ◌∷◌, string_dec}
use ros2_vlm_demo.Common.Dict
use ros2_vlm_demo.Distillation.Schema.{TemporalSample}
use ros2_vlm_demo.Distillation.Dataset.{group_key, split_dataset, group_all, split_loop}
use ros2_vlm_demo.Distillation.Dataset.Leakage.{Apart, split_dataset_lem}
use ros2_vlm_demo.Tests.Distillation.{sample}

abbrev named : String → TemporalSample
named name = record sample { sample_id = name }

abbrev samples : List TemporalSample
samples = named "front-door-1" ∷ named "cup-1" ∷ named "front-door-2" ∷ []

abbrev as_they_are : List String → List String
as_they_are ks = ks

abbrev none_of : ℕ → ℕ
none_of n = 0

key_of_front_door : group_key "front-door-2" ≡ "front-door"
unfolding group_key string_dec
key_of_front_door = refl

trained :
    (split_dataset as_they_are none_of none_of samples).train
    ≡ named "front-door-1" ∷ named "front-door-2" ∷ []
unfolding split_dataset group_all split_loop group_key string_dec Dict.lookup Dict.insert Dict.keys
trained = refl

split_dataset_lem_example :
    let parts = split_dataset as_they_are none_of none_of samples in
    Apart parts.train parts.val × Apart parts.train parts.test × Apart parts.val parts.test
split_dataset_lem_example = split_dataset_lem as_they_are none_of none_of samples
