-- ===== src/Readiness/Fields.antt =====
-- src/app/readiness.rs: the checks of identifiers, texts and dates.
use canonical_company_audito.Prelude.{
  ℕ, ◌+◌, ◌-◌, ◌*◌, ◌%◌, String, Bool, false, not, ◌&&◌, ◌||◌, List, [], ◌∷◌, ltb, leb, eqb, all,
  any, length, if◌then◌else◌,
}
use canonical_company_audito.Outcome.{AuditError}
use canonical_company_audito.Outcome as Outcome
use canonical_company_audito.Text.{codes, bytes, len, is_blank, is_ascii_alphanumeric}

abbrev pub max_bytes : ℕ
max_bytes = 1048576

abbrev pub version : String
version = "canonical.readiness-response/v1"

abbrev pub notice : String
notice =
    "Customer declarations and evidence references only. Evidence contents, operating effectiveness, applicability and reviewer identity have not been verified. This is not certification, attestation, authorization or a legal opinion."

abbrev pub invalid : AuditError
invalid =
    Outcome.invalid "readiness"
      "invalid packet, framework/version, context, answer, date or input limit"

abbrev pub starts_alphanumeric : List ℕ → Bool
starts_alphanumeric [] = false
starts_alphanumeric (b ∷ bs) = is_ascii_alphanumeric b

abbrev pub is_identifier_byte : ℕ → Bool
is_identifier_byte b =
    is_ascii_alphanumeric b || eqb b b'.' || eqb b b'_' || eqb b b':' || eqb b b'-'

unfoldable pub identifier : String → Bool
identifier value =
    not (is_blank value)
    && leb (len value) 128
    && starts_alphanumeric (bytes value)
    && all is_identifier_byte (bytes value)

-- `is_ascii_control` except for the tabulator and the two line ends
abbrev pub is_forbidden : ℕ → Bool
is_forbidden c = (ltb c 32 || eqb c 127) && not (eqb c 9 || eqb c 10 || eqb c 13)

unfoldable pub text : String → ℕ → Bool
text value maximum = leb (length (codes value)) maximum && not (any is_forbidden (codes value))

-- the white space of ECMAScript
abbrev pub is_trimmed : ℕ → Bool
is_trimmed c =
    leb 9 c && leb c 13
    || eqb c 0x20
    || eqb c 0xA0
    || eqb c 0x1680
    || leb 0x2000 c && leb c 0x200A
    || eqb c 0x2028
    || eqb c 0x2029
    || eqb c 0x202F
    || eqb c 0x205F
    || eqb c 0x3000
    || eqb c 0xFEFF

unfoldable pub blank_text : String → Bool
blank_text value = all is_trimmed (codes value)

abbrev pub is_digit : ℕ → Bool
is_digit b = leb b'0' b && leb b b'9'

-- `fold(0, |value, byte| value * 10 + u32::from(byte - b'0'))`
abbrev pub number_from : ℕ → List ℕ → ℕ
number_from value [] = value
number_from value (b ∷ bs) = number_from (value * 10 + (b - b'0')) bs

abbrev pub number : List ℕ → ℕ
number = number_from 0

abbrev pub is_multiple_of : ℕ → ℕ → Bool
is_multiple_of n d = eqb (n % d) 0

unfoldable pub leap : ℕ → Bool
leap year = is_multiple_of year 4 && (not (is_multiple_of year 100) || is_multiple_of year 400)

-- the days of the month, 0 where there is no such month
unfoldable pub maximum_day : ℕ → ℕ → ℕ
unfolding leap
maximum_day year month =
    if any (eqb month) (1 ∷ 3 ∷ 5 ∷ 7 ∷ 8 ∷ 10 ∷ 12 ∷ [])
    then 31
    else if any (eqb month) (4 ∷ 6 ∷ 9 ∷ 11 ∷ [])
    then 30
    else if eqb month 2 && leap year
    then 29
    else if eqb month 2
    then 28
    else 0

unfoldable pub valid_day : ℕ → ℕ → ℕ → Bool
unfolding maximum_day
valid_day year month day = leb 1900 year && ltb 0 day && leb day (maximum_day year month)

-- The ten bytes of `YYYY-MM-DD`; every other number of bytes is refused.
abbrev pub valid_date_bytes : List ℕ → Bool
valid_date_bytes (y1 ∷ y2 ∷ y3 ∷ y4 ∷ s1 ∷ m1 ∷ m2 ∷ s2 ∷ d1 ∷ d2 ∷ []) =
    eqb s1 b'-'
    && eqb s2 b'-'
    && all is_digit (y1 ∷ y2 ∷ y3 ∷ y4 ∷ m1 ∷ m2 ∷ d1 ∷ d2 ∷ [])
    && valid_day (number (y1 ∷ y2 ∷ y3 ∷ y4 ∷ [])) (number (m1 ∷ m2 ∷ [])) (number (d1 ∷ d2 ∷ []))
valid_date_bytes _ = false

unfoldable pub valid_date : String → Bool
unfolding valid_day
valid_date value = valid_date_bytes (bytes value)
