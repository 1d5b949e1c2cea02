-- ===== src/Config/Admitted.antt =====
-- src/audit_config.rs: the configurations that `validate` admits.
use canonical_company_audito.Prelude.{
  ◌≡◌, ◌↔◌, refl, String, Bool, true, false, not, eq_iff, List, All, All-imp, is_empty, arith,
  not-eq-true, ap,
}
use canonical_company_audito.Outcome.{ok, for_each, for_each-eq-ok}
use canonical_company_audito.Text.{is_blank, len, trim}
use canonical_company_audito.Config.{CanonicalAuditConfig, ToolchainPolicy, RepositoryLayout}
use canonical_company_audito.Config.Validate.{
  require_row, canonical_cli_version, validator_id, validator_revision, validator_receipt_schema,
  config_bridge_id, config_bridge_revision, requirements, is_lower_hex_revision,
}

abbrev pub Row : Type 0
Row = Bool × String

pub require_row-eq-ok : (row : Row) → (require_row row ≡ ok tt) ↔ (row.0 ≡ true)
require_row-eq-ok (true, reason) = (λ h. refl, λ h. refl)
require_row-eq-ok (false, reason) = (λ h. cc, λ h. absurd (ground arith))

-- A chain of `require` succeeds when all its conditions hold.
pub requirements-eq-ok :
    (rows : List Row) → (for_each require_row rows ≡ ok tt) ↔ All (λ row. row.0 ≡ true) rows
requirements-eq-ok rows =
    let (to, from) = for_each-eq-ok require_row rows in
    (
      λ h. All-imp rows (λ row. (require_row-eq-ok row).0) (to h),
      λ h. from (All-imp rows (λ row. (require_row-eq-ok row).1) h),
    )

pub record IsToolchain (t : ToolchainPolicy) : Type 0 where
  pub cli : t.canonical_cli ≡ canonical_cli_version
  pub validator : t.validator ≡ validator_id
  pub revision : t.validator_revision ≡ validator_revision
  pub receipt_schema : t.validator_receipt_schema ≡ validator_receipt_schema
  pub bridge : t.config_bridge ≡ config_bridge_id
  pub bridge_revision : t.config_bridge_revision ≡ config_bridge_revision
  pub exact : t.require_exact_cli_version ≡ true
  pub drift : t.runtime_schema_drift ≡ "warn"

pub record IsLayout (r : RepositoryLayout) : Type 0 where
  pub private : r.private ≡ true
  pub evidence : r.evidence_dir ≡ "evidence"
  pub workpapers : r.workpapers_dir ≡ "workpapers"
  pub reports : r.reports_dir ≡ "reports"
  pub manifests : r.manifests_dir ≡ "manifests"
  pub customer : r.customer_dir ≡ "customer"

-- Read-only, without plain secrets, with the known toolchain and the fixed layout.
pub record IsGuarded (c : CanonicalAuditConfig) : Type 0 where
  pub version : c.schema_version ≡ "canonical.audit-config.v1"
  pub toolchain : IsToolchain c.toolchain
  pub customer_named : is_blank (trim c.customer_id) ≡ false
  pub name_shown : is_blank (trim c.display_name) ≡ false
  pub read_only : c.audit_mode ≡ "read-only"
  pub no_mutations : c.security.allow_mutations ≡ false
  pub no_plaintext : c.security.allow_plaintext_secrets ≡ false
  pub schemes : is_empty c.security.secret_reference_schemes ≡ false
  pub layout : IsLayout c.repository
  pub published_from : c.publishing.source_dir ≡ "customer"
  pub no_raw_secrets : c.git.commit_raw_secrets ≡ false
  pub hashed : c.evidence.hash ≡ "sha256"

pub requirements-IsGuarded :
    (c : CanonicalAuditConfig) → All (λ row. row.0 ≡ true) (requirements c) → IsGuarded c
unfolding requirements
requirements-IsGuarded c
      (
        v,
        (
          t1,
          (
            t2,
            (
              t3,
              (
                t4,
                (
                  t5,
                  (
                    t6,
                    (
                      t7,
                      (
                        t8,
                        (
                          _,
                          (
                            _,
                            (
                              cn,
                              (
                                dn,
                                (
                                  ro,
                                  (
                                    nm,
                                    (
                                      np,
                                      (ns, (rp, (r1, (r2, (r3, (r4, (r5, (ps, (nr, (h, _)))))))))),
                                    ),
                                  ),
                                ),
                              ),
                            ),
                          ),
                        ),
                      ),
                    ),
                  ),
                ),
              ),
            ),
          ),
        ),
      ) =
    record {
      version = (eq_iff c.schema_version _).0 v;
      toolchain = record {
        cli = (eq_iff c.toolchain.canonical_cli _).0 t1;
        validator = (eq_iff c.toolchain.validator _).0 t2;
        revision = (eq_iff c.toolchain.validator_revision _).0 t3;
        receipt_schema = (eq_iff c.toolchain.validator_receipt_schema _).0 t4;
        bridge = (eq_iff c.toolchain.config_bridge _).0 t5;
        bridge_revision = (eq_iff c.toolchain.config_bridge_revision _).0 t6;
        exact = t7;
        drift = (eq_iff c.toolchain.runtime_schema_drift _).0 t8;
      };
      customer_named = not-eq-true _ cn;
      name_shown = not-eq-true _ dn;
      read_only = (eq_iff c.audit_mode _).0 ro;
      no_mutations = not-eq-true _ nm;
      no_plaintext = not-eq-true _ np;
      schemes = not-eq-true _ ns;
      layout = record {
        private = rp;
        evidence = (eq_iff c.repository.evidence_dir _).0 r1;
        workpapers = (eq_iff c.repository.workpapers_dir _).0 r2;
        reports = (eq_iff c.repository.reports_dir _).0 r3;
        manifests = (eq_iff c.repository.manifests_dir _).0 r4;
        customer = (eq_iff c.repository.customer_dir _).0 r5;
      };
      published_from = (eq_iff c.publishing.source_dir _).0 ps;
      no_raw_secrets = not-eq-true _ nr;
      hashed = (eq_iff c.evidence.hash _).0 h;
    }

-- The known revisions are lower hexadecimal, so two of the requirements say nothing more.
pub IsGuarded-requirements :
    (c : CanonicalAuditConfig) → IsGuarded c → All (λ row. row.0 ≡ true) (requirements c)
unfolding requirements is_lower_hex_revision len
IsGuarded-requirements c g =
    let t = g.toolchain in
    let l = g.layout in
    (
      (eq_iff c.schema_version _).1 g.version,
      (
        (eq_iff c.toolchain.canonical_cli _).1 t.cli,
        (
          (eq_iff c.toolchain.validator _).1 t.validator,
          (
            (eq_iff c.toolchain.validator_revision _).1 t.revision,
            (
              (eq_iff c.toolchain.validator_receipt_schema _).1 t.receipt_schema,
              (
                (eq_iff c.toolchain.config_bridge _).1 t.bridge,
                (
                  (eq_iff c.toolchain.config_bridge_revision _).1 t.bridge_revision,
                  (
                    t.exact,
                    (
                      (eq_iff c.toolchain.runtime_schema_drift _).1 t.drift,
                      (
                        rw t.revision refl,
                        (
                          rw t.bridge_revision refl,
                          (
                            ap not g.customer_named,
                            (
                              ap not g.name_shown,
                              (
                                (eq_iff c.audit_mode _).1 g.read_only,
                                (
                                  ap not g.no_mutations,
                                  (
                                    ap not g.no_plaintext,
                                    (
                                      ap not g.schemes,
                                      (
                                        l.private,
                                        (
                                          (eq_iff c.repository.evidence_dir _).1 l.evidence,
                                          (
                                            (eq_iff c.repository.workpapers_dir _).1 l.workpapers,
                                            (
                                              (eq_iff c.repository.reports_dir _).1 l.reports,
                                              (
                                                (eq_iff c.repository.manifests_dir _).1 l.manifests,
                                                (
                                                  (eq_iff c.repository.customer_dir _).1 l.customer,
                                                  (
                                                    (eq_iff c.publishing.source_dir _).1
                                                        g.published_from,
                                                    (
                                                      ap not g.no_raw_secrets,
                                                      ((eq_iff c.evidence.hash _).1 g.hashed, tt),
                                                    ),
                                                  ),
                                                ),
                                              ),
                                            ),
                                          ),
                                        ),
                                      ),
                                    ),
                                  ),
                                ),
                              ),
                            ),
                          ),
                        ),
                      ),
                    ),
                  ),
                ),
              ),
            ),
          ),
        ),
      ),
    )
