-- ===== src/Model/Checks.antt =====
-- src/model.rs: the field checks that the validators are made of.
use Prim.Native.String.{◌++◌}
use canonical_company_audito.Prelude.{
  ℕ, String, Bool, not, ◌||◌, ◌==◌, List, [], ltb, eqb, all, any, length,
}
use canonical_company_audito.Outcome.{Result, ok, invalid, reject_if, ◌>>=◌, ◌>>◌}
use canonical_company_audito.Text.{
  codes, bytes, len, is_blank, is_control, is_ascii_alphanumeric, trim, starts_with, ends_with,
  split, decimal,
}
use canonical_company_audito.Collections.Unique.{for_unique}

-- `validate_identifier` and its byte test
abbrev pub is_identifier_byte : ℕ → Bool
is_identifier_byte b =
    is_ascii_alphanumeric b || eqb b b'-' || eqb b b'_' || eqb b b'.' || eqb b b':' || eqb b b'@'

unfoldable pub validate_identifier : String → String → Result (Unit {0})
validate_identifier field value =
    reject_if (is_blank value || ltb 160 (len value) || not (all is_identifier_byte (bytes value)))
      (invalid field "must contain 1..=160 safe identifier bytes")

abbrev pub is_unsafe_segment : String → Bool
is_unsafe_segment segment =
    is_blank segment
    || segment == "."
    || segment == ".."
    || not (all is_identifier_byte (bytes segment))

unfoldable pub validate_scope : String → Result (Unit {0})
validate_scope value = do
  reject_if
      (is_blank value || ltb 240 (len value) || starts_with b'/' value || ends_with b'/' value)
      (invalid "scope" "must be a relative hierarchical identifier no longer than 240 bytes")
  reject_if (any is_unsafe_segment (split b'/' value))
      (invalid "scope" "contains an unsafe path segment")

unfoldable pub validate_text : String → String → ℕ → Result (Unit {0})
validate_text field value maximum =
    reject_if
      (is_blank value
        || ltb maximum (len value)
        || not (trim value == value)
        || any is_control (codes value))
      (invalid field ("must be trimmed text containing 1..=" ++ (decimal maximum ++ " bytes")))

unfoldable pub validate_unique_identifiers : String → List String → ℕ → Result (Unit {0})
validate_unique_identifiers field values maximum = do
  reject_if (ltb maximum (length values))
      (invalid field ("may contain at most " ++ (decimal maximum ++ " values")))
  _ ←
      for_unique (λ v. v) (validate_identifier field) (invalid field "contains duplicate values")
        (λ _. ok tt) [] values
  ok tt

unfoldable pub validate_text_list : String → List String → ℕ → Result (Unit {0})
validate_text_list field values maximum = do
  reject_if (ltb maximum (length values))
      (invalid field ("may contain at most " ++ (decimal maximum ++ " values")))
  _ ←
      for_unique (λ v. v) (λ v. validate_text field v 256)
        (invalid field "contains duplicate values") (λ _. ok tt) [] values
  ok tt
