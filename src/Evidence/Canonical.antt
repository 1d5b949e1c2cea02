-- ===== src/Evidence/Canonical.antt =====
-- Digests do not depend on the order of the entries of objects (src/evidence.rs).
use canonical_company_audito.Prelude.{
  ◌≡◌, ◌≢◌, refl, sym, ap, ◌∙◌, String, true, false, some, List, [], ◌∷◌, Bool-cases, inl, inr,
}
use canonical_company_audito.Text.{le}
use canonical_company_audito.Text.Order.{le_total, le_trans, le_antisymm}
use canonical_company_audito.Json.{
  Value, array, object, Items, nil, cons, Fields, end, field, of_entries,
}
use canonical_company_audito.Collections.{place, sort_by, collect_into}
use canonical_company_audito.External.{External, Document}
use canonical_company_audito.Evidence.{
  entry_key, canonicalize, canonicalize_items, canonicalize_entries, canonical_json_bytes, digest,
}

-- Two values that differ only in the order of entries with different keys, at any depth.
mutual
  pub data Reordered : Value → Value → Type 0 where
    as_is : (v : Value) → Reordered v v
    in_array : (xs ys : Items) → ReorderedItems xs ys → Reordered (array xs) (array ys)
    in_object : (fs gs : Fields) → ReorderedFields fs gs → Reordered (object fs) (object gs)

  pub data ReorderedItems : Items → Items → Type 0 where
    no_items : ReorderedItems nil nil
    each_item :
        (v w : Value) (xs ys : Items)
        → Reordered v w
        → ReorderedItems xs ys
        → ReorderedItems (cons v xs) (cons w ys)

  pub data ReorderedFields : Fields → Fields → Type 0 where
    no_fields : ReorderedFields end end
    each_field :
        (k : String) (v w : Value) (fs gs : Fields)
        → Reordered v w
        → ReorderedFields fs gs
        → ReorderedFields (field k v fs) (field k w gs)
    swapped :
        (j k : String) (v w : Value) (fs : Fields)
        → j ≢ k
        → ReorderedFields (field j v (field k w fs)) (field k w (field j v fs))
    in_turn :
        (fs gs hs : Fields) → ReorderedFields fs gs → ReorderedFields gs hs → ReorderedFields fs hs

module _ {ℓ} {A : Type ℓ} (key : A → String) where
  module _ (x y : A) (below : le (key x) (key y) ≡ true)
      (not_above : le (key y) (key x) ≡ false) where
    place_comm_ordered : (zs : List A) → place key x (place key y zs) ≡ place key y (place key x zs)
    unfolding place
    place_comm_ordered [] = rw (below, not_above) refl
    place_comm_ordered (z ∷ zs) = elim (Bool-cases (le (key y) (key z))) [
      | inl yz ↦
          let xz = le_trans (key x) (key y) (key z) below yz in
          rw (yz, xz, below, not_above) (rw yz refl)
      | inr yz ↦ elim (Bool-cases (le (key x) (key z))) [
        | inl xz ↦ rw (yz, xz, not_above) (rw yz refl)
        | inr xz ↦ rw (yz, xz, yz) (ap (◌∷◌ z) (place_comm_ordered zs))
      ]
    ]

  -- Placing two values with different keys gives the same list in either order.
  place_comm :
      (x y : A) (zs : List A)
      → key x ≢ key y
      → place key x (place key y zs) ≡ place key y (place key x zs)
  place_comm x y zs n = elim (Bool-cases (le (key x) (key y))) [
    | inl xy ↦ elim (Bool-cases (le (key y) (key x))) [
      | inl yx ↦ absurd (n (le_antisymm (key x) (key y) xy yx))
      | inr yx ↦ place_comm_ordered x y xy yx zs
    ]
    | inr xy ↦ sym (place_comm_ordered y x (le_total (key x) (key y) xy) xy zs)
  ]

abbrev sorted_entries : Fields → List (String × Value)
sorted_entries fs = sort_by entry_key (canonicalize_entries fs)

mutual
  unfolding canonicalize canonicalize_items canonicalize_entries sort_by

  same_canonical : (v w : Value) → Reordered v w → canonicalize v ≡ canonicalize w
  same_canonical _ _ (as_is v) = refl
  same_canonical _ _ (in_array xs ys r) = ap array (same_items xs ys r)
  same_canonical _ _ (in_object fs gs r) =
      ap (λ es. object (of_entries (collect_into [] es))) (same_fields fs gs r)

  same_items :
      (xs ys : Items) → ReorderedItems xs ys → canonicalize_items xs ≡ canonicalize_items ys
  same_items _ _ no_items = refl
  same_items _ _ (each_item v w xs ys r rs) =
      let first = same_canonical v w r in let rest = same_items xs ys rs in rw (first, rest) refl

  same_fields : (fs gs : Fields) → ReorderedFields fs gs → sorted_entries fs ≡ sorted_entries gs
  same_fields _ _ no_fields = refl
  same_fields _ _ (each_field k v w fs gs r rs) =
      let first = same_canonical v w r in let rest = same_fields fs gs rs in rw (first, rest) refl
  same_fields _ _ (swapped j k v w fs n) =
      place_comm entry_key (j, canonicalize v) (k, canonicalize w) (sorted_entries fs) n
  same_fields _ _ (in_turn fs gs hs r q) = same_fields fs gs r ∙ same_fields gs hs q

-- Documents whose JSON values differ only in the order of entries with different keys, at any depth,
-- have the same digest.
pub digest-Reordered :
    (ext : External) (d e : Document) (v w : Value)
    → ext.to_value d ≡ some v
    → ext.to_value e ≡ some w
    → Reordered v w
    → digest ext d ≡ digest ext e
unfolding digest canonical_json_bytes
digest-Reordered ext d e v w dv ew r = let same = same_canonical v w r in rw (dv, ew, same) refl
