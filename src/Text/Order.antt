-- ===== src/Text/Order.antt =====
-- The order of texts is a linear order.
use Prim.Native.Char.{code}
use Prim.Native.Nat.{Ordering}
use Prim.Native.String.{[], ◌∷◌}
use text.Mathlib.TextEquality.{Char-path}
use canonical_company_audito.Prelude.{
  ◌≡◌, refl, String, true, false, ◌⊎◌, inl, inr, arith, ◌≢◌, Bool-cases, eq_iff, ◌==◌, subst,
}
use canonical_company_audito.Text.{compare, lt, le}

pub le_refl : (s : String) → le s s ≡ true
unfolding le
le_refl [] = refl
le_refl (c ∷ s) = ground (arith, le_refl s)

pub lt-eq-le : (s t : String) → lt s t ≡ true → le s t ≡ true
unfolding lt le
lt-eq-le s t h = ground arith

pub eq_of_compare : (s t : String) → compare s t ≡ Ordering.eq → s ≡ t
unfolding compare
eq_of_compare [] [] h = refl
eq_of_compare [] (d ∷ t) h = cc
eq_of_compare (c ∷ s) [] h = cc
eq_of_compare (c ∷ s) (d ∷ t) h =
    let p : code c ≡ code d = ground arith in
    let q : compare s t ≡ Ordering.eq = ground arith in
    λ i. Char-path c d p i ∷ eq_of_compare s t q i

pub lt_irrefl : (s : String) → lt s s ≡ false
unfolding lt
lt_irrefl [] = refl
lt_irrefl (c ∷ s) = ground (arith, lt_irrefl s)

pub lt_trans : (s t u : String) → lt s t ≡ true → lt t u ≡ true → lt s u ≡ true
unfolding lt
lt_trans [] (d ∷ t) (e ∷ u) h k = refl
lt_trans (c ∷ s) (d ∷ t) (e ∷ u) h k = ground (arith, lt_trans s t u)
lt_trans [] [] _ h k = cc
lt_trans (c ∷ s) [] _ h k = cc
lt_trans _ (d ∷ t) [] h k = cc

abbrev flip : Ordering → Ordering
flip Ordering.lt = Ordering.gt
flip Ordering.eq = Ordering.eq
flip Ordering.gt = Ordering.lt

compare_swap : (s t : String) → compare t s ≡ flip (compare s t)
unfolding compare
compare_swap [] [] = refl
compare_swap [] (d ∷ t) = refl
compare_swap (c ∷ s) [] = refl
compare_swap (c ∷ s) (d ∷ t) = ground (arith, compare_swap s t)

pub lt_trichotomy : (s t : String) → lt s t ≡ false → lt t s ≡ false → s ≡ t
unfolding lt
lt_trichotomy s t h k = eq_of_compare s t (ground (arith, compare_swap s t))

pub le-iff_lt : (s t : String) → le s t ≡ true → (lt s t ≡ true) ⊎ (s ≡ t)
unfolding le lt
le-iff_lt s t h = ground (arith, eq_of_compare s t)

pub le_total : (s t : String) → le s t ≡ false → le t s ≡ true
unfolding le
le_total s t h = ground (arith, compare_swap s t)

pub le_trans : (s t u : String) → le s t ≡ true → le t u ≡ true → le s u ≡ true
le_trans s t u h k = elim (le-iff_lt s t h) [
  | inl p ↦ elim (le-iff_lt t u k) [
    | inl q ↦ lt-eq-le s u (lt_trans s t u p q)
    | inr q ↦ rw (← q) (lt-eq-le s t p)
  ]
  | inr p ↦ rw p k
]

pub le_antisymm : (s t : String) → le s t ≡ true → le t s ≡ true → s ≡ t
unfolding le
le_antisymm s t h k = eq_of_compare s t (ground (arith, compare_swap s t))

pub lt_asymm : (s t : String) → lt s t ≡ true → lt t s ≡ false
unfolding lt
lt_asymm s t h = ground (arith, compare_swap s t)

pub ne_of_lt : (s t : String) → lt s t ≡ true → s ≢ t
ne_of_lt s t h e = ground (arith, lt_irrefl t, subst (λ x. lt x t ≡ true) e h)

pub lt_of_not : (s t : String) → (s == t) ≡ false → lt s t ≡ false → lt t s ≡ true
lt_of_not s t n h = elim (Bool-cases (lt t s)) [
  | inl p ↦ p
  | inr q ↦ ground (arith, (eq_iff s t).1 (lt_trichotomy s t h q))
]
