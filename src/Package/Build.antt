-- ===== src/Package/Build.antt =====
-- src/package.rs: the package of a verified dossier, and its verification.
use canonical_company_audito.Prelude.{
  String, not, ◌||◌, ◌==◌, eqb, Option, List, [], ◌∷◌, map, length, zip, same, ℕ_discrete,
  String-discrete,
}
use Prim.Native.String.{◌++◌}
use canonical_company_audito.Outcome.{
  Result, ok, integrity, json, reject_if, ok_or, ◌>>=◌, ◌>>◌, map_result,
}
use canonical_company_audito.Text.{len}
use canonical_company_audito.Collections.Unique.{for_unique}
use canonical_company_audito.Dossier.{AuditDossier}
use canonical_company_audito.External.{
  text, package_documents, Document, tuple, content_bytes, External,
}
use canonical_company_audito.Evidence.{digest}
use canonical_company_audito.Audit.Run.{verify_dossier}
use canonical_company_audito.Package.{
  package_schema, PackageDocument, PackageDocumentMetadata, AuditPackage,
}
use canonical_company_audito.Package.Render.{
  render_audit_report, render_controls, render_exceptions, render_crosswalk,
}
use canonical_company_audito.Package.Registers.{
  render_evidence, render_requests, render_sampling, render_workpapers, render_trail,
}

-- a file name, a media type and a content
pub record Source : Type 0 where
  pub file_name : String
  pub media_type : String
  pub content : String

abbrev pub markdown : String → String → Source
markdown file_name content = record {
  file_name = file_name;
  media_type = "text/markdown";
  content = content;
}

-- `PackageDocumentMetadata::from`
abbrev pub metadata_of : PackageDocument → PackageDocumentMetadata
metadata_of d = record {
  file_name = d.file_name;
  media_type = d.media_type;
  sha256 = d.sha256;
  bytes = d.bytes;
}

pub PackageDocumentMetadata-discrete : Discrete PackageDocumentMetadata
PackageDocumentMetadata-discrete = hlevel (ℕ_discrete, String-discrete)

-- The documents in the order of the source; the last one is the dossier as JSON.
unfoldable pub sources : AuditDossier → String → List Source
unfolding render_audit_report render_controls render_evidence render_requests render_sampling
    render_workpapers render_exceptions render_trail render_crosswalk
sources d dossier_json =
    markdown "00-audit-report.md" (render_audit_report d)
    ∷ markdown "01-control-testing.md" (render_controls d)
    ∷ markdown "02-evidence-manifest.md" (render_evidence d)
    ∷ markdown "03-evidence-requests.md" (render_requests d)
    ∷ markdown "04-sampling.md" (render_sampling d)
    ∷ markdown "05-workpaper-index.md" (render_workpapers d)
    ∷ markdown "06-findings-and-actions.md" (render_exceptions d)
    ∷ markdown "07-audit-trail.md" (render_trail d)
    ∷ markdown "08-framework-crosswalk.md" (render_crosswalk d)
    ∷ record {
      file_name = "audit-dossier.json";
      media_type = "application/json";
      content = dossier_json ++ "\n";
    }
    ∷ []

abbrev pub identity : String → List PackageDocumentMetadata → Document
identity dossier_id documents = tuple (
    text "canonical.audit-package-identity/v1" ∷ text dossier_id ∷ package_documents documents ∷ [])

module _ (ext : External) where
  unfoldable pub package_document : Source → Result PackageDocument
  package_document s = digest ext (content_bytes s.content) >>= λ sha256. ok (record {
    file_name = s.file_name;
    media_type = s.media_type;
    sha256 = sha256;
    bytes = len s.content;
    content = s.content;
  })

  -- `serde_json::to_string_pretty` on the dossier
  module _ (to_string_pretty : AuditDossier → Option String) where
    unfoldable pub build_audit_package : AuditDossier → Result AuditPackage
    unfolding package_document sources
    build_audit_package d = do
      verify_dossier ext d
      dossier_json ← ok_or (to_string_pretty d) json
      documents ← map_result package_document (sources d dossier_json)
      package_id ← digest ext (identity d.dossier_id (map metadata_of documents))
      ok (record {
        manifest = record {
          schema_version = package_schema;
          package_id = package_id;
          dossier_id = d.dossier_id;
          documents = map metadata_of documents;
        };
        documents = documents;
      })

  unfoldable pub render_dossier_markdown : AuditDossier → Result String
  unfolding render_audit_report
  render_dossier_markdown d = do verify_dossier ext d; ok (render_audit_report d)

  -- one turn of the loop over the documents, after the check of the name
  unfoldable pub verify_document : PackageDocument × PackageDocumentMetadata → Result (Unit {0})
  verify_document (d, metadata) = do
    reject_if
        (not (same PackageDocumentMetadata-discrete metadata (metadata_of d))
          || not (eqb d.bytes (len d.content)))
        integrity
    sha256 ← digest ext (content_bytes d.content)
    reject_if (not (sha256 == d.sha256)) integrity

  abbrev pub unchecked : PackageDocument × PackageDocumentMetadata → Result (Unit {0})
  unchecked _ = ok tt

  unfoldable pub verify_audit_package : AuditPackage → Result (Unit {0})
  unfolding verify_document
  verify_audit_package p = do
    reject_if
        (not (p.manifest.schema_version == package_schema)
          || not (eqb (length p.manifest.documents) (length p.documents)))
        integrity
    _ ←
        for_unique (λ (d, metadata). d.file_name) unchecked integrity verify_document []
          (zip p.documents p.manifest.documents)
    expected ← digest ext (identity p.manifest.dossier_id p.manifest.documents)
    reject_if (not (expected == p.manifest.package_id)) integrity
