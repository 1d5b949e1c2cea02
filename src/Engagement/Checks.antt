-- ===== src/Engagement/Checks.antt =====
-- src/engagement.rs: the field checks.
use Prim.Native.String.{◌++◌}
use canonical_company_audito.Prelude.{
  ℕ, String, Bool, true, false, not, ◌&&◌, ◌||◌, ◌==◌, Option, none, some, List, [], ◌∷◌, ltb, leb,
  eqb, all, any, is_empty, is_some, length, ℤ, pos, ltb_ℤ,
}
use canonical_company_audito.Outcome.{AuditError, Result, ok, invalid, reject_if, ◌>>=◌, ◌>>◌}
use canonical_company_audito.Text.{
  codes, bytes, len, is_blank, is_control, trim, starts_with, ends_with, split, strip_prefix,
  decimal,
}
use canonical_company_audito.Collections.{get, insert}
use canonical_company_audito.Collections.Unique.{for_unique}
use canonical_company_audito.Model.{AssessmentPeriod}
use canonical_company_audito.Model.Checks.{is_identifier_byte}
use canonical_company_audito.Engagement.{EngagementActor}

unfoldable pub identifier : String → String → Result (Unit {0})
identifier field value =
    reject_if (is_blank value || ltb 160 (len value) || not (all is_identifier_byte (bytes value)))
      (invalid field "must contain 1..=160 safe identifier bytes")

unfoldable pub scope : String → String → Result (Unit {0})
scope field value =
    reject_if
      (is_blank value
        || ltb 240 (len value)
        || starts_with b'/' value
        || ends_with b'/' value
        || any
            (λ segment.
              is_blank segment
              || segment == "."
              || segment == ".."
              || not (all is_identifier_byte (bytes segment)))
            (split b'/' value))
      (invalid field "must be a safe relative hierarchical identifier")

unfoldable pub text : String → String → ℕ → Result (Unit {0})
text field value maximum =
    reject_if
      (is_blank value
        || ltb maximum (len value)
        || not (trim value == value)
        || any is_control (codes value))
      (invalid field ("must be trimmed text containing 1..=" ++ (decimal maximum ++ " bytes")))

unfoldable pub optional_text : String → String → ℕ → Result (Unit {0})
unfolding text
optional_text field value maximum = elim (is_blank value) [
  | true ↦ ok tt
  | false ↦ text field value maximum
]

unfoldable pub period : AssessmentPeriod → Result (Unit {0})
period value =
    reject_if (ltb_ℤ value.starts_at (pos 0) || ltb_ℤ value.ends_at value.starts_at)
      (invalid "period" "requires 0 <= startsAt <= endsAt")

unfoldable pub timestamp : String → ℤ → Result (Unit {0})
timestamp field value =
    reject_if (ltb_ℤ value (pos 0)) (invalid field "must be a non-negative Unix timestamp")

-- `is_ascii_hexdigit() && !is_ascii_uppercase()`
abbrev pub is_lower_hex : ℕ → Bool
is_lower_hex b = leb b'0' b && leb b b'9' || leb b'a' b && leb b b'f'

abbrev pub is_digest : Option String → Bool
is_digest none = false
is_digest (some hexadecimal) = eqb (len hexadecimal) 64 && all is_lower_hex (bytes hexadecimal)

unfoldable pub digest : String → String → Result (Unit {0})
digest field value =
    reject_if (not (is_digest (strip_prefix "sha256:" value)))
      (invalid field "must use sha256:<64 lowercase hexadecimal characters>")

abbrev duplicated : String → AuditError
duplicated field = invalid field "contains duplicate values"

-- The lists of `unique_identifiers` and `unique_text` differ in the check of one value.
abbrev pub unique_values :
    (String → Result (Unit {0})) → String → List String → ℕ → Bool → Result (Unit {0})
unique_values check field values maximum empty_allowed = do
  reject_if (not empty_allowed && is_empty values || ltb maximum (length values))
      (invalid field ("requires 1..=" ++ (decimal maximum ++ " unique values")))
  _ ← for_unique (λ v. v) check (duplicated field) (λ _. ok tt) [] values
  ok tt

unfoldable pub unique_identifiers : String → List String → ℕ → Bool → Result (Unit {0})
unique_identifiers field = unique_values (identifier field) field

unfoldable pub unique_text : String → List String → ℕ → Bool → Result (Unit {0})
unique_text field = unique_values (λ v. text field v 320) field

module _ {ℓ} {T : Type ℓ} (key : T → String) where
  -- the loop of `unique_by`: `insert` returns the entry that it replaced
  unfoldable pub index_from : AuditError → List (String × T) → List T → Result (List (String × T))
  index_from repeated m [] = ok m
  index_from repeated m (x ∷ xs) = do
    reject_if (is_some (get (key x) m)) repeated
    index_from repeated (insert (key x) x m) xs

  unfoldable pub unique_by : String → List T → ℕ → Result (List (String × T))
  unfolding index_from
  unique_by field values maximum = do
    reject_if (ltb maximum (length values))
        (invalid field ("may contain at most " ++ (decimal maximum ++ " values")))
    index_from (invalid field "contains duplicate identifiers") [] values

unfoldable pub require_actor : List (String × EngagementActor) → String → String → Result (Unit {0})
require_actor actors actor_id field = do
  identifier field actor_id
  reject_if (not (is_some (get actor_id actors)))
      (invalid field "references an unknown engagement actor")
