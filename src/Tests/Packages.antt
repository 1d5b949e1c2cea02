-- ===== src/Tests/Packages.antt =====
-- The theorems on packages, on the package of the sample audit.
use canonical_company_audito.Prelude.{◌≡◌, ◌↔◌, refl, String, Option, some, [], ◌∷◌}
use canonical_company_audito.Outcome.{ok}
use canonical_company_audito.Dossier.{AuditDossier}
use canonical_company_audito.Evidence.{canonicalize, canonical_json_bytes, sha256, digest}
use canonical_company_audito.Audit.Run.{verify_dossier}
use canonical_company_audito.Audit.Dossiers.{run_audit-verify_dossier}
use canonical_company_audito.Package.{package_schema, PackageDocument, AuditPackage}
use canonical_company_audito.Package.Build.{
  metadata_of, sources, package_document, build_audit_package, verify_audit_package,
}
use canonical_company_audito.Package.Integrity.{
  IsBound, build_audit_package-verify_audit_package, verify_audit_package-eq-ok,
}
use canonical_company_audito.Tests.Samples.{value_or, ext, request, program, engaged, dossier}
use canonical_company_audito.Tests.Audits.{audit_run}

abbrev note : PackageDocument
note = record {
  file_name = "note.md";
  media_type = "text/markdown";
  sha256 = "sha256:first";
  bytes = 4;
  content = "Note";
}

abbrev small : AuditPackage
small = record {
  manifest = record {
    schema_version = package_schema;
    package_id = "sha256:first";
    dossier_id = "d1";
    documents = metadata_of note ∷ [];
  };
  documents = note ∷ [];
}

verify_audit_package-eq-ok_example : (verify_audit_package ext small ≡ ok tt) ↔ IsBound ext small
verify_audit_package-eq-ok_example = verify_audit_package-eq-ok ext small

abbrev to_string_pretty : AuditDossier → Option String
to_string_pretty d = some "{}"

dossier_verified : verify_dossier ext dossier ≡ ok tt
dossier_verified = run_audit-verify_dossier ext request engaged program dossier audit_run

abbrev packaged : AuditPackage
packaged = value_or small (build_audit_package ext to_string_pretty dossier)

package_built : build_audit_package ext to_string_pretty dossier ≡ ok packaged
unfolding sources canonicalize canonical_json_bytes sha256 digest package_document
    build_audit_package
package_built = rw dossier_verified refl

build_audit_package-verify_audit_package_example : verify_audit_package ext packaged ≡ ok tt
build_audit_package-verify_audit_package_example =
    build_audit_package-verify_audit_package ext to_string_pretty dossier packaged package_built
