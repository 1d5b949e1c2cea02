-- ===== src/Prelude/Lists.antt =====
-- Lists measured by native numbers, Boolean quantifiers and the predicates that they decide.
use Prim.Native.Nat.{ℕ, zero, suc, ◌+◌, ◌≤◌}
use mathlib.Core.Path.{◌≡◌, refl, ap, sym, subst, ◌∙◌}
use mathlib.Core.Logic.{◌↔◌, inl, inr}
use mathlib.Core.Bool.{Bool, true, false, ◌&&◌, ◌||◌}
use mathlib.Core.Option.{Option, none, some}
use mathlib.Core.List.{List, [], ◌∷◌, ◌++◌, map, Memᴰ}
use native.Mathlib.Omega.{arith}
use canonical_company_audito.Prelude.Tests.{if◌then◌else◌, Bool-cases, and-eq-true, or-eq-false}

module _ {ℓ} {A : Type ℓ} where
  abbrev pub length : List A → ℕ
  length [] = 0
  length (x ∷ xs) = suc (length xs)

  abbrev pub is_empty : List A → Bool
  is_empty [] = true
  is_empty (x ∷ xs) = false

  abbrev pub all : (A → Bool) → List A → Bool
  all p [] = true
  all p (x ∷ xs) = p x && all p xs

  abbrev pub any : (A → Bool) → List A → Bool
  any p [] = false
  any p (x ∷ xs) = p x || any p xs

  -- `iter().filter(p)`
  abbrev pub filter : (A → Bool) → List A → List A
  filter p [] = []
  filter p (x ∷ xs) = if p x then x ∷ filter p xs else filter p xs

  -- `iter().filter(p).count()`
  abbrev pub count : (A → Bool) → List A → ℕ
  count p xs = length (filter p xs)

  abbrev pub get_elem? : List A → ℕ → Option A
  get_elem? [] i = none
  get_elem? (x ∷ xs) zero = some x
  get_elem? (x ∷ xs) (suc i) = get_elem? xs i

  abbrev pub head? : List A → Option A
  head? [] = none
  head? (x ∷ xs) = some x

  abbrev pub take : ℕ → List A → List A
  take zero xs = []
  take (suc n) [] = []
  take (suc n) (x ∷ xs) = x ∷ take n xs

  pub length-append : (xs ys : List A) → length (xs ++ ys) ≡ length xs + length ys
  length-append [] ys = omega arith
  length-append (x ∷ xs) ys = omega (arith, length-append xs ys)

  pub count-le-length : (p : A → Bool) (xs : List A) → count p xs ≤ length xs
  count-le-length p [] = omega arith
  count-le-length p (x ∷ xs) = ground (arith, count-le-length p xs)

abbrev pub is_some {ℓ} : {A : Type ℓ} → Option A → Bool
is_some none = false
is_some (some a) = true

-- `flat_map`
abbrev pub flat_map {ℓ κ} : {A : Type ℓ} {B : Type κ} → (A → List B) → List A → List B
flat_map f [] = []
flat_map f (x ∷ xs) = f x ++ flat_map f xs

module _ {ℓ κ} {A : Type ℓ} (P : A → Type κ) where
  abbrev pub All : List A → Type κ
  All [] = Unit
  All (x ∷ xs) = P x × All xs

  pub All-append : (xs ys : List A) → All xs → All ys → All (xs ++ ys)
  All-append [] ys h k = k
  All-append (x ∷ xs) ys (p, h) k = (p, All-append xs ys h k)

  pub All_of_mem : (xs : List A) {a : A} → All xs → Memᴰ a xs → P a
  All_of_mem [] h m = elim m [ ]
  All_of_mem (x ∷ xs) (p, h) (Memᴰ.head e) = subst P (sym e) p
  All_of_mem (x ∷ xs) (p, h) (Memᴰ.tail m) = All_of_mem xs h m

module _ {ℓ} {A : Type ℓ} where
  pub any-eq-true :
      (p : A → Bool) (xs : List A) → any p xs ≡ true → (x : A) × Memᴰ x xs × (p x ≡ true)
  any-eq-true p [] h = ground arith
  any-eq-true p (x ∷ xs) h = elim (Bool-cases (p x)) [
    | inl e ↦ (x, Memᴰ.head refl, e)
    | inr e ↦ let (y, m, q) = any-eq-true p xs (rw e at h) in (y, Memᴰ.tail m, q)
  ]

  pub any_of_mem : (p : A → Bool) (xs : List A) {x : A} → Memᴰ x xs → p x ≡ true → any p xs ≡ true
  any_of_mem p [] m e = elim m [ ]
  any_of_mem p (x ∷ xs) (Memᴰ.head same) e =
      let here : p x ≡ true = ap p (sym same) ∙ e in rw here refl
  any_of_mem p (x ∷ xs) (Memᴰ.tail m) e = ground (arith, any_of_mem p xs m e)

  pub any-eq-false : (p : A → Bool) (xs : List A) → any p xs ≡ false → All (λ x. p x ≡ false) xs
  any-eq-false p [] h = tt
  any-eq-false p (x ∷ xs) h =
      let (here, later) = or-eq-false (p x) (any p xs) h in (here, any-eq-false p xs later)

  pub any-eq-false_of_All :
      (p : A → Bool) (xs : List A) → All (λ x. p x ≡ false) xs → any p xs ≡ false
  any-eq-false_of_All p [] h = refl
  any-eq-false_of_All p (x ∷ xs) (here, later) = rw here (any-eq-false_of_All p xs later)

  pub all-eq-true : (p : A → Bool) (xs : List A) → (all p xs ≡ true) ↔ All (λ x. p x ≡ true) xs
  all-eq-true p [] = (λ _. tt, λ _. refl)
  all-eq-true p (x ∷ xs) =
      let (to, from) = all-eq-true p xs in
      (
        λ h. let (here, later) = and-eq-true (p x) (all p xs) h in (here, to later),
        λ (here, later). rw here (from later),
      )

module _ {ℓ κ μ} {A : Type ℓ} {P : A → Type κ} {Q : A → Type μ} where
  pub All-imp : (xs : List A) → ((a : A) → P a → Q a) → All P xs → All Q xs
  All-imp [] f h = tt
  All-imp (x ∷ xs) f (p, h) = (f x p, All-imp xs f h)

module _ {ℓ κ} {A : Type ℓ} {B : Type κ} (p : A → Bool) (f : A → B) where
  -- An element of the list that passes the test and is sent to `y`.
  abbrev pub Comes : List A → B → Type (ℓ ⊔ κ)
  Comes xs y = (x : A) × Memᴰ x xs × (p x ≡ true) × (f x ≡ y)

  Comes-cons : (x : A) (xs : List A) {y : B} → Comes xs y → Comes (x ∷ xs) y
  Comes-cons x xs (z, m, q, r) = (z, Memᴰ.tail m, q, r)

  Comes-head :
      (x : A) (xs : List A) {y : B} {ys : List B}
      → p x ≡ true
      → Memᴰ y (f x ∷ ys)
      → (Memᴰ y ys → Comes xs y)
      → Comes (x ∷ xs) y
  Comes-head x xs e (Memᴰ.head same) k = (x, Memᴰ.head refl, e, sym same)
  Comes-head x xs e (Memᴰ.tail m) k = Comes-cons x xs (k m)

  pub of_mem-map-filter : (xs : List A) {y : B} → Memᴰ y (map f (filter p xs)) → Comes xs y
  of_mem-map-filter [] m = elim m [ ]
  of_mem-map-filter (x ∷ xs) m = elim (Bool-cases (p x)) [
    | inl e ↦ Comes-head x xs e (rw e at m) (of_mem-map-filter xs)
    | inr e ↦ Comes-cons x xs (of_mem-map-filter xs (rw e at m))
  ]

  pub mem-map-filter :
      (xs : List A) {x : A} → Memᴰ x xs → p x ≡ true → Memᴰ (f x) (map f (filter p xs))
  mem-map-filter [] m e = elim m [ ]
  mem-map-filter (x ∷ xs) {x = z} (Memᴰ.head same) e =
      let here : p x ≡ true = ap p (sym same) ∙ e in rw here (Memᴰ.head (ap f same))
  mem-map-filter (x ∷ xs) (Memᴰ.tail m) e =
      let ih = mem-map-filter xs m e in
      elim (Bool-cases (p x)) [ inl here ↦ rw here (Memᴰ.tail ih) | inr gone ↦ rw gone ih ]

module _ {ℓ κ μ ν} {A : Type ℓ} {P : A → Type κ} {Q : A → Type μ} {R : A → Type ν} where
  pub All-zip_imp : (xs : List A) → ((a : A) → P a → Q a → R a) → All P xs → All Q xs → All R xs
  All-zip_imp [] f h k = tt
  All-zip_imp (x ∷ xs) f (p, h) (q, k) = (f x p q, All-zip_imp xs f h k)
