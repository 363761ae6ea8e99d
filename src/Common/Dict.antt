-- ===== src/Common/Dict.antt =====
-- Python's `dict` with string keys, in insertion order: an assignment to a present key keeps its
-- place, one to a new key appends.
use ros2_vlm_demo.Common.Tests.{if◌then◌else◌}
use ros2_vlm_demo.Common.Text.{◌==◌, string_dec}
use mathlib.Core.Logic.{◌≢◌, ◌⊎◌, inl, inr}
use mathlib.Core.Path.{◌≡◌, refl, ap}
use mathlib.Core.Bool.{Bool, true, false}
use mathlib.Core.Option.{Option, none, some}
use mathlib.Core.List.{List, [], ◌∷◌}
use native.Mathlib.Omega.{arith}
use Prim.Native.String.{String}

abbrev pub Dict {ℓ} : Type ℓ → Type ℓ
Dict V = List (String × V)

module _ {ℓ} {V : Type ℓ} where
  -- `d.get(k)`
  unfoldable pub lookup : String → Dict V → Option V
  lookup k [] = none
  lookup k ((j, v) ∷ d) = let rest = lookup k d in if j == k then some v else rest

  -- `d[k] = v`
  unfoldable pub insert : String → V → Dict V → Dict V
  insert k v [] = (k, v) ∷ []
  insert k v ((j, w) ∷ d) = let rest = insert k v d in if j == k then (j, v) ∷ d else (j, w) ∷ rest

  -- `k in d`
  unfoldable pub has : String → Dict V → Bool
  has k [] = false
  has k ((j, v) ∷ d) = let rest = has k d in if j == k then true else rest

  -- `list(d.values())`
  unfoldable pub values : Dict V → List V
  values [] = []
  values ((j, v) ∷ d) = v ∷ values d

  unfoldable pub keys : Dict V → List String
  keys [] = []
  keys ((j, v) ∷ d) = j ∷ keys d

  -- No key is listed twice, as in every dict.
  abbrev pub NodupKeys : Dict V → Type 0
  NodupKeys [] = Unit
  NodupKeys ((k, v) ∷ d) = (has k d ≡ false) × NodupKeys d

  pub lookup-nil : (k : String) → lookup k [] ≡ none
  unfolding lookup
  lookup-nil k = refl

  pub lookup-insert :
      (j k : String) (v : V) (d : Dict V)
      → lookup j (insert k v d) ≡ (if k == j then some v else lookup j d)
  unfolding insert lookup
  lookup-insert j k v [] = ground arith
  lookup-insert j k v ((i, w) ∷ d) = ground (arith, lookup-insert j k v d)

  pub has-insert :
      (j k : String) (v : V) (d : Dict V)
      → has j (insert k v d) ≡ (if k == j then true else has j d)
  unfolding insert has
  has-insert j k v [] = ground arith
  has-insert j k v ((i, w) ∷ d) = ground (arith, has-insert j k v d)

  pub insert-NodupKeys : (k : String) (v : V) (d : Dict V) → NodupKeys d → NodupKeys (insert k v d)
  unfolding insert has
  insert-NodupKeys k v [] _ = (refl, tt)
  insert-NodupKeys k v ((j, w) ∷ d) (fresh, u) =
      ground (arith, insert-NodupKeys k v d u, has-insert j k v d)

  pub has_lem :
      (k : String) (d : Dict V) → has k d ≡ elim (lookup k d) [ none ↦ false | some v ↦ true ]
  unfolding has lookup
  has_lem k [] = refl
  has_lem k ((j, v) ∷ d) = ground (arith, has_lem k d)

  -- What is found after a write is the written value, or was there.
  pub lookup-insert-some :
      (j k : String) (v w : V) (d : Dict V)
      → lookup j (insert k v d) ≡ some w
      → ((k ≡ j) × (v ≡ w)) ⊎ ((k ≢ j) × (lookup j d ≡ some w))
  lookup-insert-some j k v w d h = elim (string_dec k j) [
    | yes p ↦ inl (p, ground (arith, lookup-insert j k v d))
    | no n ↦ inr (n, ground (arith, lookup-insert j k v d))
  ]

  pub has_of_lookup : (k : String) (d : Dict V) (v : V) → lookup k d ≡ some v → has k d ≡ true
  has_of_lookup k d v h = ground (arith, has_lem k d)

  pub has-insert_mono :
      (j k : String) (v : V) (d : Dict V) → has j d ≡ true → has j (insert k v d) ≡ true
  has-insert_mono j k v d h = ground (arith, has-insert j k v d)

  pub lookup-none_of_has : (k : String) (d : Dict V) → has k d ≡ false → lookup k d ≡ none
  lookup-none_of_has k d h = ground (arith, has_lem k d)

  pub has-insert_present :
      (j k : String) (v : V) (d : Dict V) → has k d ≡ true → has j (insert k v d) ≡ has j d
  has-insert_present j k v d h = elim (string_dec k j) [
    | yes p ↦ ground (arith, has-insert j k v d, ap (λ t. has t d) p)
    | no n ↦ ground (arith, has-insert j k v d)
  ]

  pub has_of_lookup-none : (k : String) (d : Dict V) → lookup k d ≡ none → has k d ≡ false
  has_of_lookup-none k d h = ground (arith, has_lem k d)
