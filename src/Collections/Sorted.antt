-- ===== src/Collections/Sorted.antt =====
-- `sort_by` returns a rearrangement in key order.
use mathlib.Core.List.{Perm}
use mathlib.Core.List.Perm
use canonical_company_audito.Prelude.{
  ◌≡◌, String, true, List, [], ◌∷◌, arith, All, Bool-cases, inl, inr, Memᴰ,
}
use canonical_company_audito.Text.{le}
use canonical_company_audito.Text.Order.{le_total, le_trans}
use canonical_company_audito.Collections.{place, sort_by}

module _ {ℓ} {A : Type ℓ} (key : A → String) where
  -- In key order, equal keys allowed.
  abbrev pub Ascends : List A → Type 0
  Ascends [] = Unit
  Ascends (x ∷ xs) = All (λ y. le (key x) (key y) ≡ true) xs × Ascends xs

  place-perm : (x : A) (ys : List A) → Perm (place key x ys) (x ∷ ys)
  unfolding place
  place-perm x [] = Perm.refl _
  place-perm x (y ∷ ys) = elim (Bool-cases (le (key x) (key y))) [
    | inl e ↦ rw e (Perm.refl _)
    | inr e ↦ rw e (Perm.trans (Perm.cons y (place-perm x ys)) (Perm.swap _ _ _))
  ]

  pub sort_by-perm : (xs : List A) → Perm (sort_by key xs) xs
  unfolding sort_by
  sort_by-perm [] = Perm.refl _
  sort_by-perm (x ∷ xs) = Perm.trans (place-perm x (sort_by key xs)) (Perm.cons x (sort_by-perm xs))

  module _ (P : A → Type 0) where
    pub All-place : (x : A) (ys : List A) → P x → All P ys → All P (place key x ys)
    unfolding place
    All-place x [] p h = (p, tt)
    All-place x (y ∷ ys) p (q, h) = ground (arith, All-place x ys p h)

    pub All-sort_by : (xs : List A) → All P xs → All P (sort_by key xs)
    unfolding sort_by
    All-sort_by [] h = tt
    All-sort_by (x ∷ xs) (p, h) = All-place x (sort_by key xs) p (All-sort_by xs h)

  above_trans :
      (x y : A) (ys : List A)
      → le (key x) (key y) ≡ true
      → All (λ z. le (key y) (key z) ≡ true) ys
      → All (λ z. le (key x) (key z) ≡ true) ys
  above_trans x y [] h a = tt
  above_trans x y (z ∷ ys) h (p, a) = (le_trans (key x) (key y) (key z) h p, above_trans x y ys h a)

  place-Ascends : (x : A) (ys : List A) → Ascends ys → Ascends (place key x ys)
  unfolding place
  place-Ascends x [] s = (tt, tt)
  place-Ascends x (y ∷ ys) (a, s) = elim (Bool-cases (le (key x) (key y))) [
    | inl e ↦ rw e ((e, above_trans x y ys e a), (a, s))
    | inr e ↦ rw e (
      All-place (λ z. le (key y) (key z) ≡ true) x ys (le_total (key x) (key y) e) a,
      place-Ascends x ys s,
    )
  ]

  pub sort_by-Ascends : (xs : List A) → Ascends (sort_by key xs)
  unfolding sort_by
  sort_by-Ascends [] = tt
  sort_by-Ascends (x ∷ xs) = place-Ascends x (sort_by key xs) (sort_by-Ascends xs)

  Mem-place : (x : A) (ys : List A) {z : A} → Memᴰ z (x ∷ ys) → Memᴰ z (place key x ys)
  unfolding place
  Mem-place x [] m = m
  Mem-place x (y ∷ ys) (Memᴰ.head p) =
      let ih = Mem-place x ys (Memᴰ.head p) in
      elim (Bool-cases (le (key x) (key y))) [
        | inl e ↦ rw e (Memᴰ.head p)
        | inr e ↦ rw e (Memᴰ.tail ih)
      ]
  Mem-place x (y ∷ ys) (Memᴰ.tail (Memᴰ.head p)) = elim (Bool-cases (le (key x) (key y))) [
    | inl e ↦ rw e (Memᴰ.tail (Memᴰ.head p))
    | inr e ↦ rw e (Memᴰ.head p)
  ]
  Mem-place x (y ∷ ys) (Memᴰ.tail (Memᴰ.tail m)) =
      let ih = Mem-place x ys (Memᴰ.tail m) in
      elim (Bool-cases (le (key x) (key y))) [
        | inl e ↦ rw e (Memᴰ.tail (Memᴰ.tail m))
        | inr e ↦ rw e (Memᴰ.tail ih)
      ]

  pub Mem-sort_by : (xs : List A) {z : A} → Memᴰ z xs → Memᴰ z (sort_by key xs)
  unfolding sort_by
  Mem-sort_by [] m = m
  Mem-sort_by (x ∷ xs) (Memᴰ.head p) = Mem-place x (sort_by key xs) (Memᴰ.head p)
  Mem-sort_by (x ∷ xs) (Memᴰ.tail m) = Mem-place x (sort_by key xs) (Memᴰ.tail (Mem-sort_by xs m))
