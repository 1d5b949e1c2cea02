-- ===== src/Lib.antt =====
-- The company auditor: a Rust program that assesses a company's manifest and evidence against a
-- program of rules, and records an audit of that assessment in a dossier that can be verified.
--
-- The parts and how they interact. A manifest names a tenant, a scope and a period. An evidence
-- bundle holds observations with facts. Sealing checks that the bundle belongs to the manifest and
-- gives each observation an identifier from a digest of its canonical JSON. The engine evaluates each
-- rule of a program on the sealed observations and writes a report that carries its own digest. An
-- engagement records the auditors' work: actors, requests, samples, workpapers, responses and events.
-- An audit validates the engagement against the assessment, joins findings with workpapers to control
-- results, chains the events by hashes and concludes in a dossier. Bundles of one tenant and scope can
-- be merged before an assessment. Adapters turn the report of an external scanner or the receipt of an
-- agent evaluation into an evidence bundle, and scanner signals summarise the findings of a bundle by
-- resource. A package renders a dossier as documents that are bound to a manifest by their digests.
-- The server assesses, audits and packages the bodies of signed requests. The audit configuration says
-- what may be collected with which references to secrets. The readiness command checks what a customer
-- declares for a framework and reports the gaps.
--
-- The files and the code they model, by its path in the repository:
-- - Prelude, Prelude/Tests, Prelude/Lists, Prelude/Zips, Prelude/Tallies, Prelude/Int: names and lemmas
--   that all parts share.
-- - Outcome: the errors of src/lib.rs, Result with its early return, and the loops over fallible
--   bodies.
-- - Text, Text/Order, Text/Decimal, Text/Prefix: the text functions of the standard library that the
--   program calls, on UTF-8 bytes or characters as there, and the order of texts.
-- - Collections and its children: the ordered map and set and the stable sort of the standard library.
-- - Json: serde_json's values.
-- - Model and its children: src/model.rs. Model/Checks has the field checks, Model/Scope
--   scope_contains, Model/Validate the `validate` methods, Model/Accepted and Model/Boundary what they
--   accept.
-- - Program, Program/Validate: src/program.rs.
-- - Evidence, Evidence/Sealing, Evidence/Canonical: src/evidence.rs. External holds serialisation,
--   SHA-256 and the doubles of JSON numbers as parameters, together with the values that are digested.
-- - Merge, Merge/Pools, Merge/Union: src/evidence_merge.rs.
-- - Engine and its children: src/engine.rs.
-- - Engagement and its children: src/engagement.rs. Checks has the field checks, Validate, Fieldwork
--   and Record the validation in the order of the source, Fields, Accepted, Reviewed, Finalized and
--   Against what it accepts.
-- - Dossier, Audit and its children: src/audit.rs. Audit/Run has run_audit and verify_dossier,
--   Trail, Controls, Conclusion, Coverage, Approved and Dossiers what a dossier is.
-- - Adapters, Adapters/Scan, Adapters/Scanned: src/external_evidence.rs. Adapters/Receipts,
--   Adapters/AgentEval, Adapters/AgentRuns, Adapters/AgentReceipts: src/agent_eval_evidence.rs.
--   Adapters/Signals, Adapters/Grouped: src/scanner_signals.rs. Adapters/Facts, Adapters/Composed: the
--   facts that the one writes and the other reads.
-- - Adapters/Native, Adapters/NativeReadings: src/native_readiness_evidence.rs. Adapters/Operational:
--   src/operational_evidence.rs. Adapters/Readings: what these two share.
-- - Config and its children: src/audit_config.rs. Validate, References, Admitted and Admission have the
--   validation and what it admits, Missing and Selectors the missing fields, Redact, Redacted and
--   Secrets the redaction.
-- - Package and its children: src/package.rs. Labels, Format, Render and Registers have the documents,
--   Build and Integrity the package and its verification.
-- - Report: src/report.rs, the Markdown of a report and the prompts on it.
-- - Readiness and its children: src/app/readiness.rs. Fields and Responses have the checks, Drafts the
--   draft, Analysis and Gaps the report, Checklist the Markdown and the command.
-- - Server, Server/Policy: src/server.rs.
-- - Tests and its children: sample inputs and the theorems applied to them.
--
-- How the code corresponds. Functions keep their names, except that `validate` names what it
-- validates (validate_manifest, validate_bundle, validate_observation, validate_program,
-- validate_engagement) and `Open` is `opened`. The body of a loop is a function of its own, and a
-- sequence of checks of one form is a list of the checked conditions in the order of the source. A map
-- is a list of entries in key order, also where the key is a pair, and a set a list in order; a loop
-- that inserts into a set and refuses a repeated value is for_unique. Times are integers; the checked
-- sum of a time and a validity is refused outside 64 bits. Counts are natural numbers; the
-- saturating product and the 16-bit result of basis_points are written out for 64-bit targets. Every
-- loop is structural recursion on the list; the decimal printing of a number has fuel for 20 digits,
-- which every 64-bit number fits (Text/Decimal).
--
-- Parameters, beyond External: the parsers of reports, receipts, requests, configurations and
-- responses (`none` is a parse error), the printer of indented JSON, the JSON text of a double, the
-- decoding of hexadecimal digits, HMAC-SHA-256, the prompt files, socket addresses, the listener, and
-- files.
--
-- Not modelled: the command line but for the readiness arguments; logging, the table of routes of the
-- server and the limit of a body that its framework enforces; parsing and printing of JSON and TOML;
-- the payloads of library errors; Severity::parse and the built-in program file.
pub mod Prelude
pub mod Outcome
pub mod Text
pub mod Collections
pub mod Json
pub mod Model
pub mod Program
pub mod Engagement
pub mod Dossier
pub mod Config
pub mod External
pub mod Evidence
pub mod Engine
pub mod Adapters
pub mod Audit
pub mod Package
pub mod Report
pub mod Readiness
pub mod Server
pub mod Merge
pub mod Tests
