-- ===== src/Collections.antt =====
-- The standard collections as the program uses them: `BTreeMap<String, V>` and `BTreeSet<String>` as
-- lists in key order, and `sort_by` on a text key, which is stable.
pub mod Maps
pub mod Sorted
pub mod Unique
use canonical_company_audito.Prelude.{
  String, Bool, true, false, ◌||◌, Option, none, some, List, [], ◌∷◌, ◌==◌, if◌then◌else◌,
}
use canonical_company_audito.Text.{lt, le}

-- `BTreeMap<String, V>`
module _ {ℓ} {V : Type ℓ} where
  unfoldable pub get : String → List (String × V) → Option V
  get k [] = none
  get k ((j, v) ∷ m) = if k == j then some v else get k m

  unfoldable pub insert : String → V → List (String × V) → List (String × V)
  insert k v [] = (k, v) ∷ []
  insert k v ((j, w) ∷ m) =
      if k == j then (k, v) ∷ m else if lt k j then (k, v) ∷ (j, w) ∷ m else (j, w) ∷ insert k v m

  -- `iter().map(..).collect::<BTreeMap<_, _>>()`: a later entry replaces an earlier one
  unfoldable pub collect_into : List (String × V) → List (String × V) → List (String × V)
  collect_into m [] = m
  collect_into m ((k, v) ∷ rest) = collect_into (insert k v m) rest

-- `BTreeSet<String>`
unfoldable pub contains : String → List String → Bool
contains k [] = false
contains k (j ∷ m) = k == j || contains k m

-- `insert` returns whether the value is new; this is the set afterwards.
unfoldable pub set_insert : String → List String → List String
set_insert k [] = k ∷ []
set_insert k (j ∷ m) = if k == j then j ∷ m else if lt k j then k ∷ j ∷ m else j ∷ set_insert k m

unfoldable pub set_of : List String → List String → List String
set_of m [] = m
set_of m (k ∷ rest) = set_of (set_insert k m) rest

-- `sort_by(|left, right| key(left).cmp(&key(right)))`
module _ {ℓ} {A : Type ℓ} (key : A → String) where
  unfoldable pub place : A → List A → List A
  place x [] = x ∷ []
  place x (y ∷ ys) = if le (key x) (key y) then x ∷ y ∷ ys else y ∷ place x ys

  unfoldable pub sort_by : List A → List A
  unfolding place
  sort_by [] = []
  sort_by (x ∷ xs) = place x (sort_by xs)
