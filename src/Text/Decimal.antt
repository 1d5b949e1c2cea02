-- ===== src/Text/Decimal.antt =====
-- The fuel of `decimal` is enough for every number of at most 20 digits.
use Prim.Native.String.{◌++◌}
use native.Mathlib.Nat.{pow-suc}
use canonical_company_audito.Prelude.{
  ◌≡◌, refl, ap, ℕ, zero, suc, ◌/◌, ◌%◌, ◌^◌, ◌<◌, ◌≤◌, Bool-cases, true, inl, inr, ltb, arith,
}
use canonical_company_audito.Text.{decimal_fuel, decimal, digit}

more_fuel : (f g n : ℕ) → suc f ≤ g → n < 10 ^ suc f → decimal_fuel g n ≡ decimal_fuel (suc f) n
unfolding decimal_fuel
more_fuel f zero n e h = absurd (omega arith)
more_fuel zero (suc g) n e h = let small : ltb n 10 ≡ true = ground arith in rw small refl
more_fuel (suc f) (suc g) n e h = elim (Bool-cases (ltb n 10)) [
  | inl small ↦ rw small refl
  | inr large ↦
      let power = pow-suc 10 (suc f) in
      let ih = more_fuel f g (n / 10) (omega arith) (omega arith) in
      rw large (ap (λ front. front ++ digit (n % 10)) ih)
]

-- With more fuel the digits are the same.
decimal_enough : (g n : ℕ) → 20 ≤ g → n < 10 ^ 20 → decimal_fuel g n ≡ decimal n
unfolding decimal
decimal_enough g n e h = more_fuel 19 g n e h
