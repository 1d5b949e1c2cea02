-- ===== src/Adapters.antt =====
-- What the adapters that turn reports into evidence share: the freshness of an observation and the
-- JSON values of facts.
pub mod Scan
pub mod Signals
pub mod Scanned
pub mod Grouped
pub mod Facts
pub mod Composed
pub mod Receipts
pub mod AgentEval
pub mod AgentRuns
pub mod AgentReceipts
pub mod Readings
pub mod Native
pub mod NativeReadings
pub mod Operational
use Prim.Native.String.{◌++◌}
use canonical_company_audito.Prelude.{
  ℕ, suc, ℤ, pos, negsuc, ltb_ℤ, leb_ℤ, checked_add, String, Bool, not, ◌&&◌, ◌||◌, Option, none,
  some, List,
}
use canonical_company_audito.Outcome.{
  AuditError, Result, ok, invalid, reject_if, ok_or, ◌>>=◌, ◌>>◌,
}
use canonical_company_audito.Collections.{insert}
use canonical_company_audito.Json.{Value, string, number}
use canonical_company_audito.Text.{decimal, decimal_ℤ}

-- `json!(number)` of a `usize` and of a signed number
abbrev pub natural_value : ℕ → Value
natural_value n = number (record { literal = decimal n })

abbrev pub integer_value : ℤ → Value
integer_value n = number (record { literal = decimal_ℤ n })

-- `if let Some(value) = option { facts.insert(key, json!(value)); }`
abbrev pub insert_optional {ℓ} :
    {A : Type ℓ} → String → (A → Value) → Option A → List (String × Value) → List (String × Value)
insert_optional key value none facts = facts
insert_optional key value (some a) facts = insert key (value a) facts

-- `valid_for_seconds` starts at 1 and is bounded; the end of the validity must be an `i64`.
unfoldable pub freshness_end : String → String → ℤ → ℤ → ℤ → Result ℤ
freshness_end field reason maximum collected_at valid_for_seconds = do
  reject_if
      (ltb_ℤ collected_at (pos 0)
        || not (leb_ℤ (pos 1) valid_for_seconds && leb_ℤ valid_for_seconds maximum))
      (invalid field reason)
  ok_or (checked_add collected_at valid_for_seconds) (invalid field "validUntil overflowed")
