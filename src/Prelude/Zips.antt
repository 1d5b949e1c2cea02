-- ===== src/Prelude/Zips.antt =====
-- Two lists taken together, and the elements that a search or a filter finds.
use mathlib.Core.Path.{◌≡◌, refl, ap, sym, ◌∙◌}
use mathlib.Core.Logic.{inl, inr}
use mathlib.Core.Bool.{Bool, true}
use mathlib.Core.Option.{some}
use mathlib.Core.List.{List, [], ◌∷◌, map, Memᴰ}
use native.Mathlib.Omega.{arith}
use canonical_company_audito.Prelude.Tests.{Bool-cases}
use canonical_company_audito.Prelude.Lists.{length, All, filter, head?}

abbrev pub zip {ℓ κ} : {A : Type ℓ} {B : Type κ} → List A → List B → List (A × B)
zip [] ys = []
zip (x ∷ xs) [] = []
zip (x ∷ xs) (y ∷ ys) = (x, y) ∷ zip xs ys

module _ {ℓ κ μ} {A : Type ℓ} {B : Type κ} (f : A → B) (P : A → Type μ) where
  -- A list of pairs from two lists of one length
  pub zip-split :
      (xs : List A) (ys : List B)
      → length ys ≡ length xs
      → All (λ (x, y). (y ≡ f x) × P x) (zip xs ys)
      → (ys ≡ map f xs) × All P xs
  zip-split [] [] e h = (refl, tt)
  zip-split [] (y ∷ ys) e h = absurd (omega arith)
  zip-split (x ∷ xs) [] e h = absurd (omega arith)
  zip-split (x ∷ xs) (y ∷ ys) e ((same, p), h) =
      let (later, ps) = zip-split xs ys (omega arith) h in (cc, (p, ps))

  pub zip-join : (xs : List A) → All P xs → All (λ (x, y). (y ≡ f x) × P x) (zip xs (map f xs))
  zip-join [] h = tt
  zip-join (x ∷ xs) (p, h) = ((refl, p), zip-join xs h)

module _ {ℓ κ μ} {A : Type ℓ} {B : Type κ} {C : Type μ} (f : A → B) (g : A → C) where
  pub map-zip : (xs : List A) → map (λ ((x, y) : A × B). g x) (zip xs (map f xs)) ≡ map g xs
  map-zip [] = refl
  map-zip (x ∷ xs) = ap (◌∷◌ (g x)) (map-zip xs)

pub length-map {ℓ κ} :
    {A : Type ℓ} {B : Type κ} (f : A → B) (xs : List A) → length (map f xs) ≡ length xs
length-map f [] = refl
length-map f (x ∷ xs) = omega (arith, length-map f xs)

module _ {ℓ κ} {A : Type ℓ} {B : Type κ} (R : A → B → Type 0) where
  -- Two lists of one length whose elements are related in order.
  abbrev pub Pairwise : List A → List B → Type 0
  Pairwise [] [] = Unit
  Pairwise (x ∷ xs) (y ∷ ys) = R x y × Pairwise xs ys
  Pairwise [] (y ∷ ys) = ⊥
  Pairwise (x ∷ xs) [] = ⊥

module _ {ℓ κ} {A : Type ℓ} {B : Type κ} {R S : A → B → Type 0} where
  pub Pairwise-imp :
      (xs : List A) (ys : List B)
      → ((x : A) (y : B) → R x y → S x y)
      → Pairwise R xs ys
      → Pairwise S xs ys
  Pairwise-imp [] [] f h = tt
  Pairwise-imp [] (y ∷ ys) f h = absurd h
  Pairwise-imp (x ∷ xs) [] f h = absurd h
  Pairwise-imp (x ∷ xs) (y ∷ ys) f (p, h) = (f x y p, Pairwise-imp xs ys f h)

pub some_inj {ℓ} : {A : Type ℓ} {x y : A} → some x ≡ some y → x ≡ y
some_inj h = cc

-- `iter().find(p)`
module _ {ℓ} {A : Type ℓ} (p : A → Bool) where
  pub find-eq-some : (xs : List A) {x : A} → head? (filter p xs) ≡ some x → Memᴰ x xs × (p x ≡ true)
  find-eq-some [] h = cc
  find-eq-some (y ∷ ys) h = elim (Bool-cases (p y)) [
    | inl e ↦ let same = some_inj (rw e at h) in (Memᴰ.head (sym same), ap p (sym same) ∙ e)
    | inr n ↦ let (m, e) = find-eq-some ys (rw n at h) in (Memᴰ.tail m, e)
  ]

  pub find_of_mem :
      (xs : List A) {x : A}
      → Memᴰ x xs
      → p x ≡ true
      → (y : A) × (head? (filter p xs) ≡ some y) × (p y ≡ true)
  find_of_mem [] m e = elim m [ ]
  find_of_mem (y ∷ ys) (Memᴰ.head same) e =
      let here : p y ≡ true = ap p (sym same) ∙ e in rw here (y, refl, here)
  find_of_mem (y ∷ ys) (Memᴰ.tail m) e = elim (Bool-cases (p y)) [
    | inl here ↦ rw here (y, refl, here)
    | inr n ↦ rw n (find_of_mem ys m e)
  ]

  mem-cons :
      (ys : List A) (y : A) {x : A}
      → p y ≡ true
      → (Memᴰ x (filter p ys) → Memᴰ x ys × (p x ≡ true))
      → Memᴰ x (y ∷ filter p ys)
      → Memᴰ x (y ∷ ys) × (p x ≡ true)
  mem-cons ys y e f (Memᴰ.head same) = (Memᴰ.head same, ap p same ∙ e)
  mem-cons ys y e f (Memᴰ.tail m) = let (k, q) = f m in (Memᴰ.tail k, q)

  pub mem-filter : (xs : List A) {x : A} → Memᴰ x (filter p xs) → Memᴰ x xs × (p x ≡ true)
  mem-filter [] m = elim m [ ]
  mem-filter (y ∷ ys) m = elim (Bool-cases (p y)) [
    | inl e ↦ mem-cons ys y e (mem-filter ys) (rw e at m)
    | inr n ↦ let (k, e) = mem-filter ys (rw n at m) in (Memᴰ.tail k, e)
  ]

  pub mem_filter_of : (xs : List A) {x : A} → Memᴰ x xs → p x ≡ true → Memᴰ x (filter p xs)
  mem_filter_of [] m e = elim m [ ]
  mem_filter_of (y ∷ ys) (Memᴰ.head same) e =
      let here : p y ≡ true = ap p (sym same) ∙ e in rw here (Memᴰ.head same)
  mem_filter_of (y ∷ ys) (Memᴰ.tail m) e = elim (Bool-cases (p y)) [
    | inl here ↦ rw here (Memᴰ.tail (mem_filter_of ys m e))
    | inr n ↦ rw n (mem_filter_of ys m e)
  ]
