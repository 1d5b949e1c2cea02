-- ===== src/Server/Policy.antt =====
-- src/server.rs: what is served without a signature, and where.
use canonical_company_audito.Prelude.{
  ◌≡◌, ◌≢◌, ◌≤◌, ◌↔◌, ◌⊎◌, inl, inr, refl, sym, subst, ap, ◌∙◌, some_inj, ℕ, String, Bool, true,
  not, ◌&&◌, Option, none, some, is_some, List, leb, same, same_iff, Bool-cases, Option-cases,
  arith, length,
}
use canonical_company_audito.Outcome.{
  AuditError, Result, ok, err, ok_inj, server_policy, ok_or, ok_or-eq-ok, >>=-eq-ok, >>-eq-ok,
  reject_if,
}
use Prim.Native.String.{◌++◌}
use canonical_company_audito.Text.{len, strip_prefix}
use canonical_company_audito.Text.Prefix.{strip_prefix-eq-some, strip_prefix-append}
use canonical_company_audito.Model.{AssessmentRequest}
use canonical_company_audito.Dossier.{AuditDossier}
use canonical_company_audito.External.{External}
use canonical_company_audito.Engine.{assess}
use canonical_company_audito.Audit.Run.{run_audit}
use canonical_company_audito.Package.Build.{build_audit_package}
use canonical_company_audito.Server.{
  min_body_bytes, max_body_bytes, ServeConfig, AuditRequest, AppState, EnvironmentVariable, present,
  not_present, not_unicode, read_webhook_secret, check_policy, Signatures, bytes-discrete,
  verify_signature, check_signature, authenticate, Response, answer, handle, Body, report_body,
  dossier_body, package_body, assessment, audit_engagement, audit_package,
}

-- A secret of the environment has at least 32 bytes.
read_webhook_secret-length :
    (v : EnvironmentVariable) {secret : List ℕ}
    → read_webhook_secret v ≡ ok (some secret)
    → 32 ≤ length secret
unfolding read_webhook_secret len
read_webhook_secret-length (present secret) h = elim (Bool-cases (leb 32 (len secret))) [
  | inl e ↦ let same_secret = ok_inj (rw e at h) in ground (arith, e, same_secret)
  | inr n ↦ absurd (ground (arith, n))
]
read_webhook_secret-length not_present h = cc
read_webhook_secret-length not_unicode h = cc

module _ {Address : Type 0} (from_str : String → Option Address)
    (is_loopback : Address → Bool) where
  -- What the service may be bound to.
  pub record IsAllowed (config : ServeConfig) (address : Address) (secret : Option (List ℕ))
      : Type 0 where
    pub bound : from_str config.bind ≡ some address
    pub least : 1024 ≤ config.max_body_bytes
    pub most : config.max_body_bytes ≤ 10485760
    pub local : (is_loopback address ≡ true) ⊎ ((s : List ℕ) × (secret ≡ some s) × (32 ≤ length s))

  -- The service starts only on a loopback address or with a secret of at least 32 bytes, and with a
  -- limit of the body between 1 KiB and 10 MiB.
  pub check_policy-IsAllowed :
      (v : EnvironmentVariable) (config : ServeConfig) (address : Address)
      (secret : Option (List ℕ))
      → check_policy from_str is_loopback v config ≡ ok (address, secret)
      → IsAllowed config address secret
  unfolding check_policy
  check_policy-IsAllowed v config address secret h =
      let (sizes, h1) =
        >>-eq-ok
          (reject_if
            (not (
              leb min_body_bytes config.max_body_bytes && leb config.max_body_bytes max_body_bytes))
            (server_policy "max body bytes must be between 1024 and 10485760"))
          _ h in
      let (address', parsed, h2) = >>=-eq-ok (ok_or (from_str config.bind) _) _ h1 in
      let (secret', read, h3) = >>=-eq-ok (read_webhook_secret v) _ h2 in
      let (test, whole) =
        >>-eq-ok (reject_if (not (is_loopback address') && not (is_some secret')) _) _ h3 in
      let pair = ok_inj whole in
      let same_address : address' ≡ address = ap (λ p. p.0) pair in
      let same_secret : secret' ≡ secret = ap (λ p. p.1) pair in
      record {
        bound = ok_or-eq-ok (from_str config.bind) _ parsed ∙ ap some same_address;
        least = ground (arith, sizes);
        most = ground (arith, sizes);
        local = elim (Bool-cases (is_loopback address')) [
          | inl e ↦ inl (ap is_loopback (sym same_address) ∙ e)
          | inr n ↦ elim (Option-cases secret') [
            | inl gone ↦ absurd (ground (arith, test, n, gone))
            | inr (s, there) ↦
                inr (s, sym same_secret ∙ there, read_webhook_secret-length v (read ∙ ap ok there))
          ]
        ];
      }

none_ne_some {ℓ} : {A : Type ℓ} {a : A} → none ≢ some a
none_ne_some h = cc

some_ne_none {ℓ} : {A : Type ℓ} {a : A} → some a ≢ none
some_ne_none h = cc

-- A signature of the body under the secret.
pub record IsSigned (signatures : Signatures) (secret : List ℕ) (header : Option String)
    (body : List ℕ) : Type 0 where
  pub encoded : String
  pub reads : header ≡ some ("sha256=" ++ encoded)
  pub expected : List ℕ
  pub decodes : signatures.decode_hex encoded ≡ some expected
  pub code : signatures.mac secret body ≡ some expected

-- A request is let in without a secret, or signed under it.
abbrev pub IsAuthentic : Signatures → AppState → Option String → List ℕ → Type 0
IsAuthentic signatures state header body =
    (state.webhook_secret ≡ none)
    ⊎ ((s : List ℕ) × (state.webhook_secret ≡ some s) × IsSigned signatures s header body)

module _ (signatures : Signatures) where
  verify_signature-IsSigned :
      (secret body : List ℕ) (signature : String)
      → (verify_signature signatures secret body signature ≡ true)
        ↔ IsSigned signatures secret (some signature) body
  unfolding verify_signature
  verify_signature-IsSigned secret body signature = (
    λ h. elim (Option-cases (strip_prefix "sha256=" signature)) [
      | inl none_left ↦ absurd (ground (arith, h, none_left))
      | inr (encoded, stripped) ↦ elim (Option-cases (signatures.decode_hex encoded)) [
        | inl none_left ↦ absurd (ground (arith, h, stripped, none_left))
        | inr (expected, decodes) ↦ elim (Option-cases (signatures.mac secret body)) [
          | inl none_left ↦ absurd (ground (arith, h, stripped, decodes, none_left))
          | inr (code, made) ↦
              let verified : same bytes-discrete code expected ≡ true =
                rw (stripped, decodes, made) at h in
              record {
                encoded = encoded;
                reads = ap some (strip_prefix-eq-some "sha256=" signature encoded stripped);
                expected = expected;
                decodes = decodes;
                code = made ∙ ap some ((same_iff bytes-discrete code expected).0 verified);
              }
        ]
      ]
    ],
    λ is.
        let text : signature ≡ "sha256=" ++ is.encoded = some_inj is.reads in
        let stripped : strip_prefix "sha256=" signature ≡ some is.encoded =
          ap (strip_prefix "sha256=") text ∙ strip_prefix-append "sha256=" is.encoded in
        rw (stripped, is.decodes, is.code)
          ((same_iff bytes-discrete is.expected is.expected).1 refl),
  )

  check_signature-IsSigned :
      (secret body : List ℕ) (header : Option String)
      → (check_signature signatures secret body header ≡ none)
        ↔ IsSigned signatures secret header body
  check_signature-IsSigned secret body none = (λ h. cc, λ is. absurd (none_ne_some is.reads))
  check_signature-IsSigned secret body (some signature) =
      let (to, from) = verify_signature-IsSigned secret body signature in
      (
        λ h. elim (Bool-cases (verify_signature signatures secret body signature)) [
          | inl e ↦ to e
          | inr n ↦ absurd (some_ne_none (rw n at h))
        ],
        λ is. rw (from is) refl,
      )

  -- A request is let in exactly when it is authentic.
  authenticate-IsAuthentic :
      (state : AppState) (header : Option String) (body : List ℕ)
      → (authenticate signatures state header body ≡ none)
        ↔ IsAuthentic signatures state header body
  unfolding authenticate
  authenticate-IsAuthentic state header body = elim (Option-cases state.webhook_secret) [
    | inl open_to_all ↦ (λ _. inl open_to_all, λ _. rw open_to_all refl)
    | inr (secret, there) ↦
        let (to, from) = check_signature-IsSigned secret body header in
        (
          λ h. inr (secret, there, to (rw there at h)),
          λ authentic. elim authentic [
            | inl gone ↦ absurd (none_ne_some (sym gone ∙ there))
            | inr (s, at, is) ↦
                let same_secret : s ≡ secret = some_inj (sym at ∙ there) in
                rw there (from (subst (λ s. IsSigned signatures s header body) same_secret is))
          ],
        )
  ]

answer_status :
    {A : Type 0} (display : AuditError → String) (body : A → Body) (rejected : String)
    (result : Result A)
    → (answer display body rejected result).status ≢ 401
answer_status display body rejected (ok value) h = omega arith
answer_status display body rejected (err error) h = omega arith

-- A handler answers 401 exactly when the authentication refuses.
handle_status :
    {A : Type 0} (refusal : Option (String × String)) (request : Option A) (expected : String)
    (operate : A → Response)
    → ((a : A) → (operate a).status ≢ 401)
    → ((handle refusal request expected operate).status ≡ 401) ↔ (refusal ≢ none)
handle_status (some (code, message)) request expected operate other = (λ _. some_ne_none, λ _. refl)
handle_status none none expected operate other = (λ h. absurd (omega arith), λ n. absurd (n refl))
handle_status none (some a) expected operate other = (λ h. absurd (other a h), λ n. absurd (n refl))

module _ (ext : External) (signatures : Signatures) (display : AuditError → String)
    (state : AppState) (header : Option String) (body : List ℕ) where
  abbrev pub IsRefused : Response → Type 0
  IsRefused response = (response.status ≡ 401) ↔ (IsAuthentic signatures state header body → ⊥)

  refused :
      {A : Type 0} (request : Option A) (expected : String) (operate : A → Response)
      → ((a : A) → (operate a).status ≢ 401)
      → IsRefused (handle (authenticate signatures state header body) request expected operate)
  refused request expected operate other =
      let (to, from) =
        handle_status (authenticate signatures state header body) request expected operate other in
      let (let_in, authentic) = authenticate-IsAuthentic signatures state header body in
      (λ h a. to h (authentic a), λ n. from (λ e. n (let_in e)))

  -- Each of the three services answers 401 exactly when the request is not authentic: there is a
  -- secret, and the header is not a signature of the body under it.
  pub unauthorized_iff :
      (to_string_pretty : AuditDossier → Option String)
      (parse_assessment : List ℕ → Option AssessmentRequest)
      (parse_audit : List ℕ → Option AuditRequest) (parse_dossier : List ℕ → Option AuditDossier)
      → IsRefused (assessment ext signatures display parse_assessment state header body)
        × IsRefused (audit_engagement ext signatures display parse_audit state header body)
        × IsRefused
            (audit_package ext signatures display to_string_pretty parse_dossier state header body)
  unfolding assessment audit_engagement audit_package
  unauthorized_iff to_string_pretty parse_assessment parse_audit parse_dossier = (
    refused _ _ _
        (λ r. answer_status display report_body "assessment_rejected" (assess ext r state.program)),
    refused _ _ _ (λ r.
        answer_status display dossier_body "audit_rejected"
          (run_audit ext r.assessment r.engagement state.program)),
    refused _ _ _ (λ d.
        answer_status display package_body "package_rejected"
          (build_audit_package ext to_string_pretty d)),
  )
