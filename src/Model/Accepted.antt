-- ===== src/Model/Accepted.antt =====
-- What the field checks and the validators of src/model.rs accept.
use canonical_company_audito.Prelude.{
  ℕ, ◌≤◌, ◌≡◌, ◌↔◌, refl, String, true, false, eq_iff, List, [], ◌∷◌, map, ltb, length, All, arith,
  all-eq-true, any-eq-false, any-eq-false_of_All, ap, All-imp,
}
use canonical_company_audito.Outcome.{
  AuditError, Result, ok, reject_if, ◌>>=◌, ◌>>◌, reject_if-eq-ok, >>-eq-ok,
}
use canonical_company_audito.Text.{
  codes, bytes, len, is_blank, is_control, trim, starts_with, ends_with, split,
}
use canonical_company_audito.Collections.Unique.{for_unique, Distinct, unique_loop-eq-ok}
use canonical_company_audito.Model.Checks.{
  is_identifier_byte, validate_identifier, is_unsafe_segment, validate_scope, validate_text,
  validate_unique_identifiers, validate_text_list,
}

pub record IsIdentifier (s : String) : Type 0 where
  pub nonempty : is_blank s ≡ false
  pub short : len s ≤ 160
  pub safe : All (λ b. is_identifier_byte b ≡ true) (bytes s)

pub validate_identifier-eq-ok :
    (field value : String) → (validate_identifier field value ≡ ok tt) ↔ IsIdentifier value
unfolding validate_identifier
validate_identifier-eq-ok field value =
    let (to, from) = all-eq-true is_identifier_byte (bytes value) in
    (
      λ h. record { nonempty = ground arith; short = ground arith; safe = to (ground arith) },
      λ v. ground (arith, from v.safe),
    )

pub record IsText (maximum : ℕ) (s : String) : Type 0 where
  pub nonempty : is_blank s ≡ false
  pub short : len s ≤ maximum
  pub trimmed : trim s ≡ s
  pub printable : All (λ c. is_control c ≡ false) (codes s)

pub validate_text-eq-ok :
    (field value : String) (maximum : ℕ)
    → (validate_text field value maximum ≡ ok tt) ↔ IsText maximum value
unfolding validate_text
validate_text-eq-ok field value maximum = (
  λ h. record {
    nonempty = ground arith;
    short = ground arith;
    trimmed = (eq_iff (trim value) value).0 (ground arith);
    printable = any-eq-false is_control (codes value) (ground arith);
  },
  λ v. ground (
    arith,
    (eq_iff (trim value) value).1 v.trimmed,
    any-eq-false_of_All is_control (codes value) v.printable,
  ),
)

pub record IsScope (s : String) : Type 0 where
  pub nonempty : is_blank s ≡ false
  pub short : len s ≤ 240
  pub no_leading : starts_with b'/' s ≡ false
  pub no_trailing : ends_with b'/' s ≡ false
  pub segments : All (λ p. is_unsafe_segment p ≡ false) (split b'/' s)

pub validate_scope-eq-ok : (value : String) → (validate_scope value ≡ ok tt) ↔ IsScope value
unfolding validate_scope
validate_scope-eq-ok value = (
  λ h. record {
    nonempty = ground arith;
    short = ground arith;
    no_leading = ground arith;
    no_trailing = ground arith;
    segments = any-eq-false is_unsafe_segment (split b'/' value) (ground arith);
  },
  λ v. ground (arith, any-eq-false_of_All is_unsafe_segment (split b'/' value) v.segments),
)

module _ {ℓ} {A : Type ℓ} where
  abbrev pub trivially : A → Result (Unit {0})
  trivially _ = ok tt

  pub All-trivially : (xs : List A) → All (λ x. trivially x ≡ ok tt) xs
  All-trivially [] = tt
  All-trivially (x ∷ xs) = (refl, All-trivially xs)

pub record IsUniqueList (Valid : String → Type 0) (maximum : ℕ) (values : List String)
    : Type 0 where
  pub short : length values ≤ maximum
  pub valid : All Valid values
  pub distinct : Distinct values

pub map_id {ℓ} : {A : Type ℓ} (xs : List A) → map (λ x. x) xs ≡ xs
map_id [] = refl
map_id (x ∷ xs) = ap (◌∷◌ x) (map_id xs)

-- The two list validators differ only in the check of one value.
module _ (check : String → Result (Unit {0})) (Valid : String → Type 0)
    (check_iff : (v : String) → (check v ≡ ok tt) ↔ Valid v) (maximum : ℕ)
    (long repeated : AuditError) where
  IsUniqueList-eq-ok :
      (values : List String)
      → ((reject_if (ltb maximum (length values)) long
            >> (for_unique (λ v. v) check repeated (λ _. ok tt) [] values >>= λ _. ok (tt {0})))
          ≡ ok tt)
        ↔ IsUniqueList Valid maximum values
  IsUniqueList-eq-ok values =
      let (to, from) = unique_loop-eq-ok (λ v. v) check repeated trivially values in
      (
        λ h.
            let (fits, loop) = >>-eq-ok _ _ h in
            let (checked, _, d) = to loop in
            record {
              short = let t = reject_if-eq-ok _ _ fits in ground arith;
              valid = All-imp values (λ v. (check_iff v).0) checked;
              distinct = rw map_id at d;
            },
        λ u.
            let fits : ltb maximum (length values) ≡ false = (let s = u.short in ground arith) in
            rw fits (
              from (
                All-imp values (λ v. (check_iff v).1) u.valid,
                All-trivially values,
                rw map_id u.distinct,
              )),
      )

pub validate_unique_identifiers-eq-ok :
    (field : String) (values : List String) (maximum : ℕ)
    → (validate_unique_identifiers field values maximum ≡ ok tt)
      ↔ IsUniqueList IsIdentifier maximum values
unfolding validate_unique_identifiers
validate_unique_identifiers-eq-ok field values maximum =
    IsUniqueList-eq-ok (validate_identifier field) IsIdentifier (validate_identifier-eq-ok field)
      maximum _ _ values

pub validate_text_list-eq-ok :
    (field : String) (values : List String) (maximum : ℕ)
    → (validate_text_list field values maximum ≡ ok tt) ↔ IsUniqueList (IsText 256) maximum values
unfolding validate_text_list
validate_text_list-eq-ok field values maximum =
    IsUniqueList-eq-ok (λ v. validate_text field v 256) (IsText 256)
      (λ v. validate_text-eq-ok field v 256) maximum _ _ values
