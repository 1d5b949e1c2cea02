-- ===== src/Program.antt =====
-- src/program.rs: frameworks, rules and the program that joins them.
pub mod Validate
use canonical_company_audito.Prelude.{String, List}
use canonical_company_audito.Json.{Value}
use canonical_company_audito.Model.{Severity, FrameworkMapping}

abbrev pub program_schema : String
program_schema = "canonical.assessment-program/v1"

pub record FrameworkDescriptor : Type 0 where
  pub id : String
  pub title : String
  pub version : String
  pub authority : String
  pub source_url : String
  pub redistribution : String
  pub status_note : String

pub data ConditionOperator : Type 0 where
  equals number_at_least number_at_most non_empty : ConditionOperator

pub record RuleCondition : Type 0 where
  pub fact : String
  pub operator : ConditionOperator
  pub expected : Value

pub record AssessmentRule : Type 0 where
  pub id : String
  pub title : String
  pub category : String
  pub severity : Severity
  pub evidence_type : String
  pub condition : RuleCondition
  pub framework_mappings : List FrameworkMapping
  pub remediation : String

pub record AssessmentProgram : Type 0 where
  pub schema_version : String
  pub program_id : String
  pub version : String
  pub frameworks : List FrameworkDescriptor
  pub rules : List AssessmentRule
