-- ===== src/Adapters/Facts.antt =====
-- src/external_evidence.rs and src/scanner_signals.rs: the facts of a finding are those that its fingerprint reads.
use Prim.Native.String.{[], ◌∷◌}
use mathlib.Core.List.{List, [], ◌∷◌}
use canonical_company_audito.Prelude.{
  ◌≡◌, refl, ◌∙◌, String, true, false, ◌==◌, Option, none, some, arith,
}
use canonical_company_audito.Outcome.{ok}
use canonical_company_audito.Text.{is_blank, lt, compare}
use canonical_company_audito.Collections.{contains, get, insert, collect_into}
use canonical_company_audito.Collections.Maps.{get-insert}
use canonical_company_audito.Json.{Value, string}
use canonical_company_audito.Model.{EvidenceObservation}
use canonical_company_audito.Adapters.{insert_optional}
use canonical_company_audito.Adapters.Scan.{
  approved_tools, ExternalFinding, ExternalScanReport, finding_facts, validate_finding,
}
use canonical_company_audito.Adapters.Signals.{required_fact, optional_fact}

-- A label that is there is not empty.
abbrev pub IsNamed : Option String → Type 0
IsNamed none = Unit
IsNamed (some s) = is_blank s ≡ false

abbrev pub mapped : Option String → Option Value
mapped none = none
mapped (some s) = some (string s)

get-insert_optional :
    (k j : String) (o : Option String) (m : List (String × Value))
    → (j == k) ≡ false
    → get j (insert_optional k string o m) ≡ get j m
get-insert_optional k j none m h = refl
get-insert_optional k j (some s) m h = ground (arith, get-insert k j (string s) m)

get-inserted :
    (k : String) (o : Option String) (m : List (String × Value))
    → get k m ≡ none
    → (k == k) ≡ true
    → get k (insert_optional k string o m) ≡ mapped o
get-inserted k none m h e = h
get-inserted k (some s) m h e = ground (arith, get-insert k k (string s) m)

module _ (r : ExternalScanReport) (f : ExternalFinding) where
  abbrev plain : List (String × Value)
  plain = collect_into [] (
      ("tool", string r.tool)
      ∷ ("scannerFindingId", string f.id)
      ∷ ("severity", string f.severity)
      ∷ ("title", string f.title)
      ∷ ("detail", string f.detail)
      ∷ [])

  finding_facts-plain :
      (j : String)
      → (j == "provider") ≡ false
      → (j == "resource") ≡ false
      → get j (finding_facts r f) ≡ get j plain
  unfolding finding_facts
  finding_facts-plain j p q =
      get-insert_optional "resource" j f.resource _ q
      ∙ get-insert_optional "provider" j r.provider _ p

  pub finding_facts-tool : get "tool" (finding_facts r f) ≡ some (string r.tool)
  unfolding get insert collect_into lt compare
  finding_facts-tool = finding_facts-plain "tool" refl refl

  pub finding_facts-id : get "scannerFindingId" (finding_facts r f) ≡ some (string f.id)
  unfolding get insert collect_into lt compare
  finding_facts-id = finding_facts-plain "scannerFindingId" refl refl

  pub finding_facts-severity : get "severity" (finding_facts r f) ≡ some (string f.severity)
  unfolding get insert collect_into lt compare
  finding_facts-severity = finding_facts-plain "severity" refl refl

  pub finding_facts-title : get "title" (finding_facts r f) ≡ some (string f.title)
  unfolding get insert collect_into lt compare
  finding_facts-title = finding_facts-plain "title" refl refl

  pub finding_facts-provider : get "provider" (finding_facts r f) ≡ mapped r.provider
  unfolding finding_facts get insert collect_into lt compare
  finding_facts-provider =
      get-insert_optional "resource" "provider" f.resource _ refl
      ∙ get-inserted "provider" r.provider plain refl refl

  pub finding_facts-resource : get "resource" (finding_facts r f) ≡ mapped f.resource
  unfolding finding_facts get insert collect_into lt compare
  finding_facts-resource =
      get-inserted "resource" f.resource _
        (get-insert_optional "provider" "resource" r.provider plain refl) refl

pub required_fact_of :
    (o : EvidenceObservation) (key : String) {s : String}
    → get key o.facts ≡ some (string s)
    → is_blank s ≡ false
    → required_fact o key ≡ ok s
unfolding required_fact
required_fact_of o key h n = rw (h, n) refl

pub optional_fact_of :
    (o : EvidenceObservation) (key : String) (s : Option String)
    → get key o.facts ≡ mapped s
    → IsNamed s
    → optional_fact o key ≡ ok s
unfolding optional_fact
optional_fact_of o key none h n = rw h refl
optional_fact_of o key (some s) h n = rw (h, n) refl

-- The text fields of an accepted finding are not empty.
pub validate_finding-nonempty :
    (f : ExternalFinding)
    → validate_finding f ≡ ok tt
    → (is_blank f.id ≡ false) × (is_blank f.severity ≡ false) × (is_blank f.title ≡ false)
unfolding validate_finding
validate_finding-nonempty f h = (ground arith, ground arith, ground arith)

pub approved_tools-nonempty : (t : String) → contains t approved_tools ≡ true → is_blank t ≡ false
unfolding contains
approved_tools-nonempty [] h = absurd (ground arith)
approved_tools-nonempty (c ∷ t) h = refl
