-- ===== src/Readiness.antt =====
-- src/app/readiness.rs: a customer's declarations for one framework of the readiness catalog.
pub mod Fields
pub mod Responses
pub mod Analysis
pub mod Checklist
pub mod Drafts
pub mod Gaps
use canonical_company_audito.Prelude.{ℕ, String, List}

pub record Question : Type 0 where
  pub id : String
  pub prompt : String
  pub evidence : String
  pub method : String

pub record Framework : Type 0 where
  pub id : String
  pub title : String
  pub edition : String
  pub scope_note : String
  pub sources : List String
  pub questions : List Question

pub record Catalog : Type 0 where
  pub version : String
  pub frameworks : List Framework

pub record Context : Type 0 where
  pub customer_id : String
  pub assessment_id : String
  pub scope : String
  pub period_start : String
  pub period_end : String
  pub as_of : String

pub data Status : Type 0 where
  unanswered implemented partial missing not_applicable : Status

abbrev pub label : Status → String
label unanswered = "unanswered"
label implemented = "implemented"
label partial = "partial"
label missing = "missing"
label not_applicable = "not_applicable"

pub record Answer : Type 0 where
  pub question_id : String
  pub status : Status
  pub owner : String
  pub notes : String
  pub evidence_ref : String
  pub evidence_date : String
  pub reviewer : String
  pub due_date : String

pub record Response : Type 0 where
  pub schema_version : String
  pub catalog_version : String
  pub framework_id : String
  pub context : Context
  pub answers : List Answer

pub record Summary : Type 0 where
  pub total : ℕ
  pub answered : ℕ
  pub declared_gaps : ℕ
  pub unknown_evidence : ℕ
  pub incomplete_metadata : ℕ
  pub review_pending : ℕ
  pub overdue_actions : ℕ
