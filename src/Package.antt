-- ===== src/Package.antt =====
-- src/package.rs: the documents of an audit package and their metadata.
pub mod Labels
pub mod Format
pub mod Render
pub mod Registers
pub mod Build
pub mod Integrity
use canonical_company_audito.Prelude.{ℕ, String, List}

abbrev pub package_schema : String
package_schema = "canonical.audit-package/v1"

pub record PackageDocument : Type 0 where
  pub file_name : String
  pub media_type : String
  pub sha256 : String
  pub bytes : ℕ
  pub content : String

pub record PackageDocumentMetadata : Type 0 where
  pub file_name : String
  pub media_type : String
  pub sha256 : String
  pub bytes : ℕ

pub record AuditPackageManifest : Type 0 where
  pub schema_version : String
  pub package_id : String
  pub dossier_id : String
  pub documents : List PackageDocumentMetadata

pub record AuditPackage : Type 0 where
  pub manifest : AuditPackageManifest
  pub documents : List PackageDocument
