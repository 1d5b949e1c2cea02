-- ===== src/Adapters/Grouped.antt =====
-- src/scanner_signals.rs: every finding that names a resource is in the summary of that resource.
use canonical_company_audito.Prelude.{
  ◌≡◌, ◌≤◌, ◌+◌, suc, refl, sym, ap, ◌∙◌, ℕ, String, true, ◌==◌, eq_iff, eq_refl, Option, none,
  some, is_some, List, [], ◌∷◌, map, All, count, arith, inl, inr, ◌⊎◌, Bool-cases, and-eq-true,
}
use canonical_company_audito.Outcome.{ok, >>=-eq-ok, >>-eq-ok, for_state, map_result}
use canonical_company_audito.Collections.{contains, set_insert}
use canonical_company_audito.Collections.Maps.{contains-set_insert}
use canonical_company_audito.Model.{EvidenceObservation, EvidenceBundle}
use canonical_company_audito.Model.Validate.{validate_bundle}
use canonical_company_audito.External.{External}
use canonical_company_audito.Adapters.Signals.{
  ScannerResourceSignals, ResourceAccumulator, empty_accumulator, severity_rank, choose_higher,
  GroupKey, key_eq, key_lt, Signal, Groups, absorb, add_signal, add_optional, resource_row,
  signal_of, summarize_observation, summarize_scanner_resources,
}

key_of_key_eq : (a b : GroupKey) → key_eq a b ≡ true → a ≡ b
key_of_key_eq (none, r) (none, s) h = ap (λ r. (none, r)) ((eq_iff r s).0 h)
key_of_key_eq (some p, r) (some q, s) h =
    let (providers, resources) = and-eq-true (p == q) (r == s) h in
    let p' = (eq_iff p q).0 providers in let r' = (eq_iff r s).0 resources in cc
key_of_key_eq (none, r) (some q, s) h = absurd (ground arith)
key_of_key_eq (some p, r) (none, s) h = absurd (ground arith)

-- A row names the resource of a finding, its tool, its fingerprint and its observation, and is at
-- least as severe.
pub record Holds (s : Signal) (row : ScannerResourceSignals) : Type 0 where
  pub key : (row.provider, row.resource) ≡ s.key
  pub tool : contains s.tool row.tools ≡ true
  pub fingerprint : contains s.fingerprint row.unique_fingerprints ≡ true
  pub observation : contains s.observation_id row.observation_ids ≡ true
  pub severity : severity_rank s.severity ≤ severity_rank row.highest_severity

choose_higher_left : (a b : String) → severity_rank a ≤ severity_rank (choose_higher a b)
unfolding choose_higher
choose_higher_left a b = ground arith

choose_higher_right : (a b : String) → severity_rank b ≤ severity_rank (choose_higher a b)
unfolding choose_higher
choose_higher_right a b = ground arith

contains_new : (k : String) (m : List String) → contains k (set_insert k m) ≡ true
contains_new k m = ground (arith, contains-set_insert k k m, eq_refl k)

contains_kept :
    (k j : String) (m : List String) → contains j m ≡ true → contains j (set_insert k m) ≡ true
contains_kept k j m h = ground (arith, contains-set_insert k j m)

absorb-Holds :
    (s : Signal) (key : GroupKey) (g : ResourceAccumulator)
    → key ≡ s.key
    → Holds s (resource_row (key, absorb s g))
unfolding absorb
absorb-Holds s key g e = record {
  key = e;
  tool = contains_new s.tool g.tools;
  fingerprint = contains_new s.fingerprint g.unique_fingerprints;
  observation = contains_new s.observation_id g.observation_ids;
  severity = choose_higher_right g.highest_severity s.severity;
}

absorb-keeps :
    (s t : Signal) (key : GroupKey) (g : ResourceAccumulator)
    → Holds t (resource_row (key, g))
    → Holds t (resource_row (key, absorb s g))
unfolding absorb
absorb-keeps s t key g h = record {
  key = h.key;
  tool = contains_kept s.tool t.tool g.tools h.tool;
  fingerprint = contains_kept s.fingerprint t.fingerprint g.unique_fingerprints h.fingerprint;
  observation = contains_kept s.observation_id t.observation_id g.observation_ids h.observation;
  severity =
      let l = choose_higher_left g.highest_severity s.severity in let k = h.severity in omega arith;
}

-- Some row holds the finding.
abbrev pub Covered : Signal → List ScannerResourceSignals → Type 0
Covered s [] = ⊥
Covered s (row ∷ rows) = Holds s row ⊎ Covered s rows

abbrev rows_of : Groups → List ScannerResourceSignals
rows_of groups = map resource_row groups

Covered-add_signal : (s : Signal) (groups : Groups) → Covered s (rows_of (add_signal s groups))
unfolding add_signal
Covered-add_signal s [] = inl (absorb-Holds s s.key empty_accumulator refl)
Covered-add_signal s ((key, g) ∷ groups) = elim (Bool-cases (key_eq s.key key)) [
  | inl e ↦ rw e (inl (absorb-Holds s key g (sym (key_of_key_eq s.key key e))))
  | inr n ↦ elim (Bool-cases (key_lt s.key key)) [
    | inl below ↦ rw (n, below) (inl (absorb-Holds s s.key empty_accumulator refl))
    | inr above ↦ rw (n, above) (inr (Covered-add_signal s groups))
  ]
]

add_signal-keeps :
    (s t : Signal) (groups : Groups)
    → Covered t (rows_of groups)
    → Covered t (rows_of (add_signal s groups))
unfolding add_signal
add_signal-keeps s t [] h = absurd h
add_signal-keeps s t ((key, g) ∷ groups) h = elim (Bool-cases (key_eq s.key key)) [
  | inl e ↦ rw e (elim h [ inl here ↦ inl (absorb-keeps s t key g here) | inr later ↦ inr later ])
  | inr n ↦ elim (Bool-cases (key_lt s.key key)) [
    | inl below ↦ rw (n, below) (inr h)
    | inr above ↦
        rw (n, above)
          (elim h [ inl here ↦ inl here | inr later ↦ inr (add_signal-keeps s t groups later) ])
  ]
]

-- The findings that the rows count.
abbrev pub total : List ScannerResourceSignals → ℕ
total [] = 0
total (row ∷ rows) = row.finding_count + total rows

total-add_signal :
    (s : Signal) (groups : Groups)
    → total (rows_of (add_signal s groups)) ≡ suc (total (rows_of groups))
unfolding add_signal absorb
total-add_signal s [] = refl
total-add_signal s ((key, g) ∷ groups) = ground (arith, total-add_signal s groups)

abbrev pub CoveredIf : List ScannerResourceSignals → Option Signal → Type 0
CoveredIf rows none = Unit
CoveredIf rows (some s) = Covered s rows

module _ (ext : External) where
  -- What the loop has done, from the groups that it starts with.
  record Run (groups final : Groups) (observations : List EvidenceObservation) : Type 0 where
    signals : List (Option Signal)
    signals_are : map_result (signal_of ext) observations ≡ ok signals
    counted : total (rows_of final) ≡ count is_some signals + total (rows_of groups)
    covered : All (CoveredIf (rows_of final)) signals
    kept : (t : Signal) → Covered t (rows_of groups) → Covered t (rows_of final)

  add_optional-keeps :
      (s : Option Signal) (groups : Groups) (t : Signal)
      → Covered t (rows_of groups)
      → Covered t (rows_of (add_optional ext s groups))
  add_optional-keeps none groups t h = h
  add_optional-keeps (some s) groups t h = add_signal-keeps s t groups h

  CoveredIf-add_optional :
      (s : Option Signal) (groups : Groups) → CoveredIf (rows_of (add_optional ext s groups)) s
  CoveredIf-add_optional none groups = tt
  CoveredIf-add_optional (some s) groups = Covered-add_signal s groups

  CoveredIf-mono :
      (s : Option Signal) (rows rows' : List ScannerResourceSignals)
      → ((t : Signal) → Covered t rows → Covered t rows')
      → CoveredIf rows s
      → CoveredIf rows' s
  CoveredIf-mono none rows rows' f h = tt
  CoveredIf-mono (some s) rows rows' f h = f s h

  count-add_optional :
      (s : Option Signal) (signals : List (Option Signal)) (groups : Groups)
      → count is_some signals + total (rows_of (add_optional ext s groups))
        ≡ count is_some (s ∷ signals) + total (rows_of groups)
  count-add_optional none signals groups = refl
  count-add_optional (some s) signals groups = let l = total-add_signal s groups in omega arith

  turn_signal :
      (groups groups' : Groups) (o : EvidenceObservation)
      → summarize_observation ext groups o ≡ ok groups'
      → (s : Option Signal) × (signal_of ext o ≡ ok s) × (add_optional ext s groups ≡ groups')
  unfolding summarize_observation
  turn_signal groups groups' o h =
      let (s, this, next) = >>=-eq-ok (signal_of ext o) (λ s. ok (add_optional ext s groups)) h in
      (s, this, cc next)

  loop-Run :
      (groups final : Groups) (observations : List EvidenceObservation)
      → for_state (summarize_observation ext) groups observations ≡ ok final
      → Run groups final observations
  loop-Run groups final [] h =
      let same : groups ≡ final = cc h in
      rw (sym same) (record {
        signals = [];
        signals_are = refl;
        counted = omega arith;
        covered = tt;
        kept = λ t c. c;
      })
  loop-Run groups final (o ∷ os) h =
      let (groups', turn, rest) =
        >>=-eq-ok (summarize_observation ext groups o)
          (λ g. for_state (summarize_observation ext) g os) h in
      let (s, this, next) = turn_signal groups groups' o turn in
      let run = loop-Run (add_optional ext s groups) final os (rw next rest) in
      record {
        signals = s ∷ run.signals;
        signals_are = rw this (rw run.signals_are refl);
        counted = run.counted ∙ count-add_optional s run.signals groups;
        covered = (
          CoveredIf-mono s (rows_of (add_optional ext s groups)) (rows_of final) run.kept
              (CoveredIf-add_optional s groups),
          run.covered,
        );
        kept = λ t c. run.kept t (add_optional-keeps s groups t c);
      }

  -- A summary counts every finding that names a resource once, and each such finding is in a row of
  -- its provider and resource that names its tool, fingerprint and observation and is at least as
  -- severe.
  pub summarize_scanner_resources-covers :
      (b : EvidenceBundle) (rows : List ScannerResourceSignals)
      → summarize_scanner_resources ext b ≡ ok rows
      → (signals : List (Option Signal)) × (map_result (signal_of ext) b.observations ≡ ok signals)
        × (total rows ≡ count is_some signals)
        × All (CoveredIf rows) signals
  unfolding summarize_scanner_resources
  summarize_scanner_resources-covers b rows h =
      let (_, h1) = >>-eq-ok (validate_bundle b) _ h in
      let (groups, loop, whole) =
        >>=-eq-ok (for_state (summarize_observation ext) [] b.observations) _ h1 in
      let run = loop-Run [] groups b.observations loop in
      let same : rows_of groups ≡ rows = cc whole in
      (
        run.signals,
        run.signals_are,
        (let c = run.counted in rw (← same) (omega arith)),
        rw (← same) run.covered,
      )
