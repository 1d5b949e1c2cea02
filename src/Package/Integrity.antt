-- ===== src/Package/Integrity.antt =====
-- src/package.rs: what a verified package is bound to, and that a built one verifies.
use canonical_company_audito.Prelude.{
  zip-split, zip-join, map-zip, length-map, ◌≡◌, ◌↔◌, subst, refl, sym, ap, ◌∙◌, inl, inr, String,
  List, [], map, zip, length, All, All-imp, eq_iff, eq_refl, not, ◌==◌, arith, same_iff, Option,
}
use canonical_company_audito.Outcome.{
  Result, ok, integrity, Result-cases, reject_if, ◌>>=◌, >>=-eq-ok, >>-eq-ok, map_result,
  map-map_result, All-map_result, last_checked-eq-ok, ok_or, json,
}
use canonical_company_audito.Text.{len}
use canonical_company_audito.Text.{lt, compare}
use canonical_company_audito.Collections.{contains, set_insert}
use canonical_company_audito.Collections.Unique.{
  for_unique, Distinct, for_unique-Passes, unique_loop-eq-ok,
}
use canonical_company_audito.Dossier.{AuditDossier}
use canonical_company_audito.External.{content_bytes, External}
use canonical_company_audito.Evidence.{digest}
use canonical_company_audito.Audit.Run.{verify_dossier}
use canonical_company_audito.Model.Accepted.{trivially, All-trivially, map_id}
use canonical_company_audito.Package.{
  package_schema, PackageDocument, PackageDocumentMetadata, AuditPackage,
}
use canonical_company_audito.Package.Build.{
  Source, metadata_of, PackageDocumentMetadata-discrete, identity, sources, package_document,
  build_audit_package, verify_document, unchecked, verify_audit_package,
}

-- The ten file names differ.
file_names-Distinct :
    (d : AuditDossier) (dossier_json : String)
    → Distinct (map (λ s. s.file_name) (sources d dossier_json))
unfolding sources for_unique contains set_insert lt compare
file_names-Distinct d dossier_json =
    let names = map (λ s. s.file_name) (sources d dossier_json) in
    subst Distinct (map_id names)
      (for_unique-Passes (λ s. s) trivially integrity trivially [] names refl).0.distinct

module _ (ext : External) where
  -- The size of a document counts the bytes of its content; the digest is of the JSON value of these
  -- bytes, an array of numbers, and not of the bytes themselves.
  pub record IsExact (d : PackageDocument) : Type 0 where
    pub size : d.bytes ≡ len d.content
    pub digest_of : digest ext (content_bytes d.content) ≡ ok d.sha256

  verify_document-IsExact :
      (d : PackageDocument) (m : PackageDocumentMetadata)
      → (verify_document ext (d, m) ≡ ok tt) ↔ ((m ≡ metadata_of d) × IsExact d)
  unfolding verify_document
  verify_document-IsExact d m = (
    λ h.
        let (test, rest) = >>-eq-ok (reject_if _ integrity) _ h in
        (
          (same_iff PackageDocumentMetadata-discrete m (metadata_of d)).0 (ground arith),
          record {
            size = ground arith;
            digest_of =
                last_checked-eq-ok (digest ext (content_bytes d.content)) d.sha256 integrity rest;
          },
        ),
    λ (same, x). rw x.digest_of (
        ground (
          arith,
          (same_iff PackageDocumentMetadata-discrete m (metadata_of d)).1 same,
          x.size,
          eq_refl d.sha256,
        )),
  )

  -- What binds a package together.
  pub record IsBound (p : AuditPackage) : Type 0 where
    pub version : p.manifest.schema_version ≡ package_schema
    pub inventory : p.manifest.documents ≡ map metadata_of p.documents
    pub names : Distinct (map (λ d. d.file_name) p.documents)
    pub exact : All IsExact p.documents
    pub package_id :
        digest ext (identity p.manifest.dossier_id p.manifest.documents) ≡ ok p.manifest.package_id

  abbrev pairs : AuditPackage → List (PackageDocument × PackageDocumentMetadata)
  pairs p = zip p.documents p.manifest.documents

  abbrev pair_name : PackageDocument × PackageDocumentMetadata → String
  pair_name (d, metadata) = d.file_name

  abbrev loop : AuditPackage → Result (List String)
  loop p = for_unique pair_name (unchecked ext) integrity (verify_document ext) [] (pairs p)

  abbrev identity_of : AuditPackage → Result String
  identity_of p = digest ext (identity p.manifest.dossier_id p.manifest.documents)

  abbrev tail : AuditPackage → Result (Unit {0})
  tail p =
      identity_of p >>= λ expected. reject_if (not (expected == p.manifest.package_id)) integrity

  IsBound-of_loop :
      (p : AuditPackage)
      → p.manifest.schema_version ≡ package_schema
      → length p.manifest.documents ≡ length p.documents
      → (s : List String) → loop p ≡ ok s
      → tail p ≡ ok tt
      → IsBound p
  IsBound-of_loop p version lengths s run last =
      let passes =
        (for_unique-Passes pair_name (unchecked ext) integrity (verify_document ext) [] (pairs p)
          run).0 in
      let checked = All-imp (pairs p) (λ (d, m). (verify_document-IsExact d m).0) passes.afters in
      let (inventory, exact) =
        zip-split metadata_of IsExact p.documents p.manifest.documents lengths checked in
      record {
        version = version;
        inventory = inventory;
        names =
            subst Distinct (map-zip metadata_of (λ d. d.file_name) p.documents) (
              subst (λ ms. Distinct (map pair_name (zip p.documents ms))) inventory
                passes.distinct);
        exact = exact;
        package_id = last_checked-eq-ok (identity_of p) p.manifest.package_id integrity last;
      }

  loop_of_IsBound : (p : AuditPackage) → IsBound p → (s : List String) × (loop p ≡ ok s)
  loop_of_IsBound p b =
      let matched = zip-join metadata_of IsExact p.documents b.exact in
      let checked = All-imp _ (λ (d, m). (verify_document-IsExact d m).1) matched in
      let names =
        subst Distinct (sym (map-zip metadata_of (λ d. d.file_name) p.documents)) b.names in
      let documents = zip p.documents (map metadata_of p.documents) in
      let run =
        (unique_loop-eq-ok pair_name (unchecked ext) integrity (verify_document ext) documents).1
          (All-trivially documents, checked, names) in
      let (s, loops, _) =
        >>=-eq-ok
          (for_unique pair_name (unchecked ext) integrity (verify_document ext) [] documents)
          (λ _. ok tt) run in
      (s, rw b.inventory loops)

  -- A package verifies exactly when its schema is the known one, its manifest lists its documents,
  -- their names differ, their sizes are those of their contents, their digests are those of the
  -- canonical JSON array of the bytes of their contents, and the package identifier is the digest of
  -- the manifest.
  pub verify_audit_package-eq-ok :
      (p : AuditPackage) → (verify_audit_package ext p ≡ ok tt) ↔ IsBound p
  unfolding verify_audit_package
  verify_audit_package-eq-ok p = (
    λ h.
        let (test, rest) = >>-eq-ok (reject_if _ integrity) _ h in
        let (s, run, last) = >>=-eq-ok (loop p) _ rest in
        IsBound-of_loop p ((eq_iff p.manifest.schema_version package_schema).0 (ground arith))
          (ground arith) s run last,
    λ b.
        let (s, run) = loop_of_IsBound p b in
        let lengths : length p.manifest.documents ≡ length p.documents =
          ap length b.inventory ∙ length-map metadata_of p.documents in
        let version = (eq_iff p.manifest.schema_version package_schema).1 b.version in
        rw run (rw b.package_id (ground (arith, version, lengths, eq_refl p.manifest.package_id))),
  )

  package_document-IsExact :
      (s : Source) (d : PackageDocument)
      → package_document ext s ≡ ok d
      → (d.file_name ≡ s.file_name) × IsExact d
  unfolding package_document
  package_document-IsExact s d h = elim (Result-cases (digest ext (content_bytes s.content))) [
    | inl (x, q) ↦
        (ground (arith, q), record { size = ground (arith, q); digest_of = ground (arith, q) })
    | inr (e, q) ↦ absurd (ground (arith, q))
  ]

  abbrev package_of : AuditDossier → List PackageDocument → String → AuditPackage
  package_of d documents package_id = record {
    manifest = record {
      schema_version = package_schema;
      package_id = package_id;
      dossier_id = d.dossier_id;
      documents = map metadata_of documents;
    };
    documents = documents;
  }

  package_of-IsBound :
      (d : AuditDossier) (dossier_json : String) (documents : List PackageDocument)
      (package_id : String)
      → map_result (package_document ext) (sources d dossier_json) ≡ ok documents
      → digest ext (identity d.dossier_id (map metadata_of documents)) ≡ ok package_id
      → IsBound (package_of d documents package_id)
  package_of-IsBound d dossier_json documents package_id made identified =
      let names =
        map-map_result (package_document ext) (λ d. d.file_name) (λ s. s.file_name)
          (λ s d h. (package_document-IsExact s d h).0) (sources d dossier_json) documents made in
      record {
        version = refl;
        inventory = refl;
        names = rw names (file_names-Distinct d dossier_json);
        exact =
            All-map_result (package_document ext) IsExact
              (λ s d h. (package_document-IsExact s d h).1) (sources d dossier_json) documents made;
        package_id = identified;
      }

  module _ (to_string_pretty : AuditDossier → Option String) where
    -- A package that was built verifies.
    pub build_audit_package-verify_audit_package :
        (d : AuditDossier) (p : AuditPackage)
        → build_audit_package ext to_string_pretty d ≡ ok p
        → verify_audit_package ext p ≡ ok tt
    unfolding build_audit_package
    build_audit_package-verify_audit_package d p h =
        let (_, h1) = >>-eq-ok (verify_dossier ext d) _ h in
        let (dossier_json, _, h2) = >>=-eq-ok (ok_or (to_string_pretty d) json) _ h1 in
        let (documents, made, h3) =
          >>=-eq-ok (map_result (package_document ext) (sources d dossier_json)) _ h2 in
        let (package_id, identified, whole) =
          >>=-eq-ok (digest ext (identity d.dossier_id (map metadata_of documents))) _ h3 in
        let same : package_of d documents package_id ≡ p = cc whole in
        let bound = package_of-IsBound d dossier_json documents package_id made identified in
        (verify_audit_package-eq-ok p).1 (subst IsBound same bound)
