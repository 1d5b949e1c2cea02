-- ===== src/Adapters/Signals.antt =====
-- src/scanner_signals.rs: scanner findings, fingerprinted and grouped by resource.
use Prim.Native.String.{◌++◌}
use canonical_company_audito.Prelude.{
  ℕ, ◌+◌, String, Bool, true, false, ◌&&◌, ◌||◌, ◌==◌, Option, none, some, List, [], ◌∷◌, map, ltb,
  if◌then◌else◌,
}
use canonical_company_audito.Outcome.{
  Result, ok, err, AuditError, invalid, ok_or, ◌>>=◌, ◌>>◌, for_state,
}
use canonical_company_audito.Text.{is_blank, lt}
use canonical_company_audito.Collections.{get, set_insert}
use canonical_company_audito.Json.{Value, null, string}
use canonical_company_audito.Model.{EvidenceObservation, EvidenceBundle}
use canonical_company_audito.Model.Validate.{validate_bundle}
use canonical_company_audito.External.{text, optional_text, Document, tuple, External}
use canonical_company_audito.Evidence.{digest}

pub record ScannerFindingFingerprint : Type 0 where
  pub fingerprint : String
  pub tool : String
  pub provider : Option String
  pub scanner_finding_id : String
  pub resource : Option String

pub record ScannerResourceSignals : Type 0 where
  pub provider : Option String
  pub resource : String
  pub tools : List String
  pub highest_severity : String
  pub finding_count : ℕ
  pub unique_fingerprints : List String
  pub observation_ids : List String

pub record ResourceAccumulator : Type 0 where
  pub tools : List String
  pub highest_severity : String
  pub finding_count : ℕ
  pub unique_fingerprints : List String
  pub observation_ids : List String

abbrev pub empty_accumulator : ResourceAccumulator
empty_accumulator = record {
  tools = [];
  highest_severity = "";
  finding_count = 0;
  unique_fingerprints = [];
  observation_ids = [];
}

unfoldable pub severity_rank : String → ℕ
severity_rank value =
    if value == "critical"
    then 5
    else if value == "high"
    then 4
    else if value == "medium"
    then 3
    else if value == "low"
    then 2
    else if value == "info"
    then 1
    else 0

unfoldable pub choose_higher : String → String → String
choose_higher left right = if ltb (severity_rank left) (severity_rank right) then right else left

-- `and_then(Value::as_str).filter(|value| !value.is_empty())`
abbrev pub non_empty_text : Option Value → Option String
non_empty_text (some (string s)) = if is_blank s then none else some s
non_empty_text _ = none

unfoldable pub required_fact : EvidenceObservation → String → Result String
required_fact o key =
    ok_or (non_empty_text (get key o.facts))
      (invalid "scannerFinding" ("scanner.finding is missing string fact " ++ key))

abbrev pub optional_value : Option Value → AuditError → Result (Option String)
optional_value none e = ok none
optional_value (some null) e = ok none
optional_value (some (string s)) e = if is_blank s then err e else ok (some s)
optional_value (some _) e = err e

unfoldable pub optional_fact : EvidenceObservation → String → Result (Option String)
optional_fact o key =
    optional_value (get key o.facts)
      (invalid "scannerFinding" ("scanner.finding fact " ++ (key ++ " must be a non-empty string")))

-- The groups are a `BTreeMap` on the provider and the resource.
abbrev pub GroupKey : Type 0
GroupKey = Option String × String

abbrev pub provider_eq : Option String → Option String → Bool
provider_eq none none = true
provider_eq (some p) (some q) = p == q
provider_eq _ _ = false

abbrev pub provider_lt : Option String → Option String → Bool
provider_lt none (some q) = true
provider_lt (some p) (some q) = lt p q
provider_lt _ none = false

abbrev pub key_eq : GroupKey → GroupKey → Bool
key_eq (p, r) (q, s) = provider_eq p q && r == s

abbrev pub key_lt : GroupKey → GroupKey → Bool
key_lt (p, r) (q, s) = provider_lt p q || provider_eq p q && lt r s

-- What one finding that names a resource contributes.
pub record Signal : Type 0 where
  pub key : GroupKey
  pub tool : String
  pub severity : String
  pub fingerprint : String
  pub observation_id : String

abbrev pub Groups : Type 0
Groups = List (GroupKey × ResourceAccumulator)

unfoldable pub absorb : Signal → ResourceAccumulator → ResourceAccumulator
absorb s group = record {
  tools = set_insert s.tool group.tools;
  highest_severity = choose_higher group.highest_severity s.severity;
  finding_count = group.finding_count + 1;
  unique_fingerprints = set_insert s.fingerprint group.unique_fingerprints;
  observation_ids = set_insert s.observation_id group.observation_ids;
}

-- `groups.entry(key).or_default()`, updated
unfoldable pub add_signal : Signal → Groups → Groups
unfolding absorb
add_signal s [] = (s.key, absorb s empty_accumulator) ∷ []
add_signal s ((key, group) ∷ groups) =
    if key_eq s.key key
    then (key, absorb s group) ∷ groups
    else if key_lt s.key key
    then (s.key, absorb s empty_accumulator) ∷ (key, group) ∷ groups
    else (key, group) ∷ add_signal s groups

abbrev pub resource_row : GroupKey × ResourceAccumulator → ScannerResourceSignals
resource_row ((provider, resource), group) = record {
  provider = provider;
  resource = resource;
  tools = group.tools;
  highest_severity = group.highest_severity;
  finding_count = group.finding_count;
  unique_fingerprints = group.unique_fingerprints;
  observation_ids = group.observation_ids;
}

abbrev pub fingerprint_identity :
    String → Option String → String → Option String → String → Document
fingerprint_identity tool provider scanner_finding_id resource title = tuple (
    text "canonical.external-scanner-fingerprint/v1"
    ∷ text tool
    ∷ optional_text provider
    ∷ text scanner_finding_id
    ∷ optional_text resource
    ∷ text title
    ∷ [])

module _ (ext : External) where
  -- the fingerprint of an observation of the type `scanner.finding`
  unfoldable pub finding_fingerprint : EvidenceObservation → Result ScannerFindingFingerprint
  unfolding required_fact optional_fact
  finding_fingerprint o = do
    tool ← required_fact o "tool"
    scanner_finding_id ← required_fact o "scannerFindingId"
    provider ← optional_fact o "provider"
    resource ← optional_fact o "resource"
    title ← required_fact o "title"
    fingerprint ← digest ext (fingerprint_identity tool provider scanner_finding_id resource title)
    ok (record {
      fingerprint = fingerprint;
      tool = tool;
      provider = provider;
      scanner_finding_id = scanner_finding_id;
      resource = resource;
    })

  unfoldable pub scanner_finding_fingerprint :
      EvidenceObservation → Result (Option ScannerFindingFingerprint)
  unfolding finding_fingerprint
  scanner_finding_fingerprint o =
      if o.evidence_type == "scanner.finding"
      then (finding_fingerprint o >>= λ fingerprint. ok (some fingerprint))
      else ok none

  -- The rest of one turn of the loop, once the fingerprint is there.
  unfoldable pub signal_from :
      EvidenceObservation → Option ScannerFindingFingerprint → Result (Option Signal)
  unfolding required_fact
  signal_from o none = ok none
  signal_from o (some fingerprint) = elim fingerprint.resource [
    | none ↦ ok none
    | some resource ↦ required_fact o "severity" >>= λ severity. ok (
        some (record {
          key = (fingerprint.provider, resource);
          tool = fingerprint.tool;
          severity = severity;
          fingerprint = fingerprint.fingerprint;
          observation_id = o.external_id;
        }))
  ]

  unfoldable pub signal_of : EvidenceObservation → Result (Option Signal)
  unfolding scanner_finding_fingerprint signal_from
  signal_of o = scanner_finding_fingerprint o >>= signal_from o

  abbrev pub add_optional : Option Signal → Groups → Groups
  add_optional none groups = groups
  add_optional (some s) groups = add_signal s groups

  unfoldable pub summarize_observation : Groups → EvidenceObservation → Result Groups
  unfolding signal_of
  summarize_observation groups o = signal_of o >>= λ s. ok (add_optional s groups)

  unfoldable pub summarize_scanner_resources : EvidenceBundle → Result (List ScannerResourceSignals)
  unfolding summarize_observation
  summarize_scanner_resources b = do
    validate_bundle b
    groups ← for_state summarize_observation [] b.observations
    ok (map resource_row groups)
