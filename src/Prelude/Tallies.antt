-- ===== src/Prelude/Tallies.antt =====
-- How many elements of a list have a property, as a relation.
use Prim.Native.Nat.{ℕ, suc}
use mathlib.Core.Path.{◌≡◌}
use mathlib.Core.Logic.{◌↔◌, inl, inr}
use mathlib.Core.Bool.{Bool, true}
use mathlib.Core.List.{List, [], ◌∷◌}
use native.Mathlib.Omega.{arith}
use canonical_company_audito.Prelude.Tests.{Bool-cases}
use canonical_company_audito.Prelude.Lists.{count}

module _ {ℓ} {A : Type ℓ} (P : A → Type 0) where
  pub data Tally : List A → ℕ → Type ℓ where
    none_left : Tally [] 0
    counted : {x : A} {xs : List A} {n : ℕ} → P x → Tally xs n → Tally (x ∷ xs) (suc n)
    passed_over : {x : A} {xs : List A} {n : ℕ} → (P x → ⊥) → Tally xs n → Tally (x ∷ xs) n

  pub count-Tally :
      (p : A → Bool) → ((x : A) → (p x ≡ true) ↔ P x) → (xs : List A) → Tally xs (count p xs)
  count-Tally p decides [] = none_left
  count-Tally p decides (x ∷ xs) = elim (Bool-cases (p x)) [
    | inl e ↦ rw e (counted ((decides x).0 e) (count-Tally p decides xs))
    | inr n ↦ rw n (
        passed_over (λ h. let e = (decides x).1 h in absurd (ground (arith, e, n)))
          (count-Tally p decides xs))
  ]
