-- ===== src/Temporal/Stream/Gives.antt =====
-- What a reader guarantees of its result: a rule for each step of a chain.
use mathlib.Core.Path.{subst}
use ros2_vlm_demo.Common.{ℕ, ◌+◌, ◌≤◌, ◌≡◌, refl, ap, Option, none, some, length, arith}
use ros2_vlm_demo.Temporal.Wire.{Bytes}
use ros2_vlm_demo.Temporal.Stream.{Outcome, got, failed, Fault, Reader, ◌>>=◌, give, check, decoded}

-- Whatever result the reader gives satisfies `P`, and at least `n` bytes have been taken for it.
abbrev pub Gives {ℓ} : {A : Type 0} → ℕ → (A → Type ℓ) → Reader A → Type ℓ
Gives {A = A} n P m =
    (s : Bytes) (a : A) (s' : Bytes) → m s ≡ got a s' → P a × (n + length s' ≤ length s)

pub fault_lem : {A : Type 0} (x : Fault) {b : A} {s : Bytes} → failed x ≡ got b s → ⊥
fault_lem x h = ground arith

pub got-injective : {A : Type 0} (a b : A) (s t : Bytes) → got a s ≡ got b t → (a ≡ b) × (s ≡ t)
got-injective a b s t h = (cc, cc)

module _ {A B : Type 0} (n : ℕ) (P : A → Type 0) (Q : B → Type 0) (m : Reader A) (f : A → Reader B)
    (hm : Gives n P m) (hf : (a : A) → P a → Gives 0 Q (f a)) where
  bind_after :
      (s : Bytes) (o : Outcome A)
      → m s ≡ o
      → (b : B) (s' : Bytes) → elim o [ failed x ↦ failed x | got a t ↦ f a t ] ≡ got b s'
      → Q b × (n + length s' ≤ length s)
  bind_after s (failed x) h b s' e = absurd (fault_lem x e)
  bind_after s (got a t) h b s' e =
      let (pa, few) = hm s a t h in let (qb, fewer) = hf a pa t b s' e in (qb, omega arith)

  pub bind-Gives : Gives n Q (m >>= f)
  bind-Gives s b s' e = bind_after s (m s) refl b s' e

pub give-Gives : {A : Type 0} (P : A → Type 0) (a : A) → P a → Gives 0 P (give a)
give-Gives P a h s b s' e =
    let (same, rest) = got-injective a b s s' e in (subst P same h, rw rest (omega arith))

pub check-Gives : (o : Option Fault) → Gives 0 (λ _. o ≡ none) (check o)
check-Gives none s b s' e =
    (refl, let (same, rest) = got-injective tt b s s' e in rw rest (omega arith))
check-Gives (some x) s b s' e = absurd (fault_lem x e)

pub decoded-Gives : (o : Option Bytes) → Gives 0 (λ t. o ≡ some t) (decoded o)
decoded-Gives none s b s' e = ground arith
decoded-Gives (some x) s b s' e =
    let (same, rest) = got-injective x b s s' e in (ap some same, rw rest (omega arith))

pub weaken :
    {A : Type 0} (n : ℕ) (P Q : A → Type 0) (m : Reader A)
    → Gives n P m
    → ((a : A) → P a → Q a)
    → Gives 0 Q m
weaken n P Q m h k s a s' e = let (pa, few) = h s a s' e in (k a pa, omega arith)

pub checked :
    {A : Type 0} (P : A → Type 0) (o : Option Fault) (a : A)
    → (o ≡ none → P a)
    → Gives 0 P (check o >>= λ _. give a)
checked P o a h =
    bind-Gives 0 (λ _. o ≡ none) P (check o) (λ _. give a) (check-Gives o)
      (λ _ e. give-Gives P a (h e))

pub any_check : (o : Option Fault) → Gives 0 (λ _. Unit {0}) (check o)
any_check o = weaken 0 (λ _. o ≡ none) (λ _. Unit) (check o) (check-Gives o) (λ _ _. tt)
