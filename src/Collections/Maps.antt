-- ===== src/Collections/Maps.antt =====
-- Lookup after insertion, and the order of keys.
use canonical_company_audito.Prelude.{
  ◌≡◌, refl, String, true, false, ◌||◌, none, some, List, [], ◌∷◌, ◌==◌, eq_iff, inl, inr,
  if◌then◌else◌, arith, Bool-cases, Memᴰ, eq_refl, sym, ◌↔◌, ◌∙◌,
}
use canonical_company_audito.Text.{lt}
use canonical_company_audito.Text.Order.{lt_trans, lt_trichotomy, lt_of_not, ne_of_lt}
use canonical_company_audito.Collections.{get, insert, contains, set_insert, set_of}

module _ {ℓ} {V : Type ℓ} where
  pub get-insert :
      (k j : String) (v : V) (m : List (String × V))
      → get j (insert k v m) ≡ (if j == k then some v else get j m)
  unfolding get insert
  get-insert k j v [] = refl
  get-insert k j v ((i, w) ∷ m) =
      ground (arith, eq_iff k i, eq_iff j i, eq_iff j k, get-insert k j v m)

  -- Every key after the first is greater than it, and so on.
  abbrev pub KeysAbove : String → List (String × V) → Type 0
  KeysAbove k [] = Unit
  KeysAbove k ((j, v) ∷ m) = (lt k j ≡ true) × KeysAbove k m

  abbrev pub KeysAscend : List (String × V) → Type 0
  KeysAscend [] = Unit
  KeysAscend ((j, v) ∷ m) = KeysAbove j m × KeysAscend m

  KeysAbove-trans :
      (k j : String) (m : List (String × V)) → lt k j ≡ true → KeysAbove j m → KeysAbove k m
  KeysAbove-trans k j [] h a = tt
  KeysAbove-trans k j ((i, v) ∷ m) h (p, a) = (lt_trans k j i h p, KeysAbove-trans k j m h a)

  KeysAbove-insert :
      (b k : String) (v : V) (m : List (String × V))
      → lt b k ≡ true
      → KeysAbove b m
      → KeysAbove b (insert k v m)
  unfolding insert
  KeysAbove-insert b k v [] h a = (h, tt)
  KeysAbove-insert b k v ((j, w) ∷ m) h (p, a) = ground (arith, KeysAbove-insert b k v m h a)

  pub KeysAscend-insert :
      (k : String) (v : V) (m : List (String × V)) → KeysAscend m → KeysAscend (insert k v m)
  unfolding insert
  KeysAscend-insert k v [] s = (tt, tt)
  KeysAscend-insert k v ((j, w) ∷ m) (a, s) = elim (Bool-cases (k == j)) [
    | inl e ↦ let p : k ≡ j = (eq_iff k j).0 e in rw e (rw p (a, s))
    | inr n ↦ elim (Bool-cases (lt k j)) [
      | inl below ↦ rw n (rw below ((below, KeysAbove-trans k j m below a), (a, s)))
      | inr above ↦
          rw n (
            rw above
              (KeysAbove-insert j k v m (lt_of_not k j n above) a, KeysAscend-insert k v m s))
    ]
  ]

  pub get_of_KeysAbove : (k : String) (m : List (String × V)) → KeysAbove k m → get k m ≡ none
  unfolding get
  get_of_KeysAbove k [] a = refl
  get_of_KeysAbove k ((j, v) ∷ m) (p, a) = elim (Bool-cases (k == j)) [
    | inl e ↦ absurd (ne_of_lt k j p ((eq_iff k j).0 e))
    | inr n ↦ rw n (get_of_KeysAbove k m a)
  ]

  module _ (j i : String) (v w : V) (m n : List (String × V)) (a : KeysAbove j m)
      (b : KeysAbove i n) (h : (k : String) → get k ((j, v) ∷ m) ≡ get k ((i, w) ∷ n)) where
    head_not_below : lt j i ≡ false
    unfolding get
    head_not_below = elim (Bool-cases (lt j i)) [
      | inl p ↦
          let gone = get_of_KeysAbove j n (KeysAbove-trans j i n p b) in
          let differ : (j == i) ≡ false = ground (arith, eq_iff j i, ne_of_lt j i p) in
          ground (arith, h j, eq_refl j)
      | inr p ↦ p
    ]

    tail_lookups : j ≡ i → (k : String) → get k m ≡ get k n
    unfolding get
    tail_lookups keys k = elim (Bool-cases (k == j)) [
      | inl e ↦
          let same : k ≡ j = (eq_iff k j).0 e in
          let first : get k m ≡ none = rw same (get_of_KeysAbove j m a) in
          let second : get k n ≡ none = rw same (rw keys (get_of_KeysAbove i n b)) in
          first ∙ sym second
      | inr e ↦ let other : (k == i) ≡ false = rw (← keys) e in ground (arith, h k)
    ]

  -- A map in key order is determined by its lookups.
  pub map_ext :
      (m n : List (String × V))
      → KeysAscend m
      → KeysAscend n
      → ((k : String) → get k m ≡ get k n)
      → m ≡ n
  unfolding get
  map_ext [] [] s t h = refl
  map_ext [] ((i, w) ∷ n) s t h = ground (arith, h i, eq_refl i)
  map_ext ((j, v) ∷ m) [] s t h = ground (arith, h j, eq_refl j)
  map_ext ((j, v) ∷ m) ((i, w) ∷ n) (a, s) (b, t) h =
      let keys : j ≡ i =
        lt_trichotomy j i (head_not_below j i v w m n a b h)
          (head_not_below i j w v n m b a (λ k. sym (h k))) in
      let values : v ≡ w = ground (arith, h j, eq_refl j, (eq_iff j i).1 keys) in
      let tails : m ≡ n = map_ext m n s t (tail_lookups j i v w m n a b h keys) in
      cc (keys, values, tails)

pub contains-set_insert :
    (k j : String) (m : List String) → contains j (set_insert k m) ≡ (j == k || contains j m)
unfolding contains set_insert
contains-set_insert k j [] = refl
contains-set_insert k j (i ∷ m) =
    ground (arith, eq_iff k i, eq_iff j i, eq_iff j k, contains-set_insert k j m)

pub contains-set_of :
    (j : String) (m ks : List String) → contains j (set_of m ks) ≡ (contains j m || contains j ks)
unfolding set_of contains
contains-set_of j m [] = ground arith
contains-set_of j m (k ∷ ks) =
    ground (arith, contains-set_of j (set_insert k m) ks, contains-set_insert k j m)

mem_contains : (k : String) (m : List String) → Memᴰ k m → contains k m ≡ true
unfolding contains
mem_contains k [] e = elim e [ ]
mem_contains k (j ∷ m) (Memᴰ.head p) = ground (arith, (eq_iff k j).1 p)
mem_contains k (j ∷ m) (Memᴰ.tail e) = ground (arith, mem_contains k m e)

pub contains_iff : (k : String) (m : List String) → (contains k m ≡ true) ↔ Memᴰ k m
unfolding contains
contains_iff k [] = (λ h. absurd (ground arith), λ m. elim m [ ])
contains_iff k (j ∷ m) = (
  λ h. elim (Bool-cases (k == j)) [
    | inl e ↦ Memᴰ.head ((eq_iff k j).0 e)
    | inr n ↦ Memᴰ.tail ((contains_iff k m).0 (rw n at h))
  ],
  λ e. mem_contains k (j ∷ m) e,
)
