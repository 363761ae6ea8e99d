-- ===== src/Workbench/RunId.antt =====
-- `_UUID_RE` and `_is_safe_run_id` of web_console/run_store.py, which web_console/review_store.py
-- repeats.
use ros2_vlm_demo.Common.{
  ℕ, zero, suc, ◌≤◌, String, ◌≡◌, ◌↔◌, ◌⊎◌, sym, ◌∙◌, Bool, true, false, ◌&&◌, ◌||◌, Option, none,
  some, List, [], ◌∷◌, codes, leb, eqb, if◌then◌else◌, arith, Bool-cases, inl, inr,
}

-- `[0-9a-f]`
unfoldable pub is_hex : ℕ → Bool
is_hex c = leb b'0' c && leb c b'9' || leb b'a' c && leb c b'f'

-- `[0-9a-f]{n}`, and what follows it.
abbrev pub hex_run : ℕ → List ℕ → Option (List ℕ)
hex_run zero cs = some cs
hex_run (suc n) [] = none
hex_run (suc n) (c ∷ cs) = let rest = hex_run n cs in if is_hex c then rest else none

abbrev pub and_hex : ℕ → Option (List ℕ) → Option (List ℕ)
and_hex n none = none
and_hex n (some cs) = hex_run n cs

abbrev pub and_dash : Option (List ℕ) → Option (List ℕ)
and_dash none = none
and_dash (some []) = none
and_dash (some (c ∷ cs)) = if eqb c b'-' then some cs else none

-- `$`, which also matches before a final newline.
abbrev pub at_end : Option (List ℕ) → Bool
at_end none = false
at_end (some []) = true
at_end (some (c ∷ [])) = eqb c 10
at_end (some (c ∷ d ∷ cs)) = false

unfoldable pub uuid_re : List ℕ → Bool
uuid_re cs = at_end (
    and_hex 12 (
      and_dash
        (and_hex 4 (and_dash (and_hex 4 (and_dash (and_hex 4 (and_dash (and_hex 8 (some cs))))))))))

unfoldable pub is_safe_run_id : String → Bool
is_safe_run_id run_id = uuid_re (codes run_id)

-- What stands at a place of an identifier.
pub data Place : Type 0 where
  digit dash : Place

abbrev pub Stands : Place → ℕ → Type 0
Stands digit c = ((48 ≤ c) × (c ≤ 57)) ⊎ ((97 ≤ c) × (c ≤ 102))
Stands dash c = c ≡ 45

-- The characters stand at the places, and at most a newline follows.
abbrev pub HasShape : List Place → List ℕ → Type 0
HasShape [] [] = Unit
HasShape [] (c ∷ []) = c ≡ 10
HasShape [] (c ∷ d ∷ cs) = ⊥
HasShape (k ∷ ks) [] = ⊥
HasShape (k ∷ ks) (c ∷ cs) = Stands k c × HasShape ks cs

abbrev pub digits : ℕ → List Place → List Place
digits zero ks = ks
digits (suc n) ks = digit ∷ digits n ks

-- 8, 4, 4, 4 and 12 digits with dashes between.
abbrev pub uuid : List Place
uuid = digits 8 (dash ∷ digits 4 (dash ∷ digits 4 (dash ∷ digits 4 (dash ∷ digits 12 []))))

abbrev Fits : List Place → Option (List ℕ) → Type 0
Fits ks none = ⊥
Fits ks (some cs) = HasShape ks cs

at_end-Fits : (o : Option (List ℕ)) → (at_end o ≡ true) ↔ Fits [] o
at_end-Fits none = ground arith
at_end-Fits (some []) = ground arith
at_end-Fits (some (c ∷ [])) = ground arith
at_end-Fits (some (c ∷ d ∷ cs)) = ground arith

and_dash-Fits : (ks : List Place) (o : Option (List ℕ)) → Fits ks (and_dash o) ↔ Fits (dash ∷ ks) o
and_dash-Fits ks none = (λ h. h, λ h. h)
and_dash-Fits ks (some []) = (λ h. h, λ h. h)
and_dash-Fits ks (some (c ∷ cs)) = ground arith

hex_lem : (c : ℕ) → (is_hex c ≡ true) ↔ Stands digit c
unfolding is_hex
hex_lem c = ground arith

false_or_true : Path Bool false true → ⊥
false_or_true h = ground arith

hex_run-Fits :
    (n : ℕ) (ks : List Place) (cs : List ℕ) → Fits ks (hex_run n cs) ↔ HasShape (digits n ks) cs
hex_run-Fits zero ks cs = (λ h. h, λ h. h)
hex_run-Fits (suc n) ks [] = (λ h. h, λ h. h)
hex_run-Fits (suc n) ks (c ∷ cs) =
    let rest = hex_run-Fits n ks cs in
    let (to, from) = hex_lem c in
    elim (Bool-cases (is_hex c)) [
      | inl hex ↦ rw (hex) (λ h. (to hex, rest.0 h), λ h. rest.1 h.1)
      | inr other ↦ rw (other) (λ h. absurd h, λ h. absurd (false_or_true (sym other ∙ from h.0)))
    ]

and_hex-Fits :
    (n : ℕ) (ks : List Place) (o : Option (List ℕ)) → Fits ks (and_hex n o) ↔ Fits (digits n ks) o
and_hex-Fits n ks none = (λ h. h, λ h. h)
and_hex-Fits n ks (some cs) = hex_run-Fits n ks cs

then_iff : {A B C : Type 0} → A ↔ B → B ↔ C → A ↔ C
then_iff (f, g) (f', g') = (λ a. f' (f a), λ c. g (g' c))

-- `n` digits after a dash.
group_lem :
    (n : ℕ) (ks : List Place) (o : Option (List ℕ))
    → Fits ks (and_hex n (and_dash o)) ↔ Fits (dash ∷ digits n ks) o
group_lem n ks o = then_iff (and_hex-Fits n ks (and_dash o)) (and_dash-Fits (digits n ks) o)

-- A run identifier is safe exactly when it is 8, 4, 4, 4 and 12 digits of 0-9 and a-f with dashes between, or these 36 characters and a newline.
pub is_safe_run_id_lem : (s : String) → (is_safe_run_id s ≡ true) ↔ HasShape uuid (codes s)
unfolding is_safe_run_id uuid_re
is_safe_run_id_lem s =
    let four = dash ∷ digits 12 [] in
    let three = dash ∷ digits 4 four in
    let two = dash ∷ digits 4 three in
    then_iff (at_end-Fits _) (
      then_iff (group_lem 12 [] _) (
        then_iff (group_lem 4 four _) (
          then_iff (group_lem 4 three _) (
            then_iff (group_lem 4 two _) (and_hex-Fits 8 (dash ∷ digits 4 two) (some (codes s)))))))
