-- ===== src/Config/Selectors.antt =====
-- src/audit_config.rs: the fields that are reported as missing.
use canonical_company_audito.Prelude.{
  ◌≡◌, ◌≢◌, ◌↔◌, refl, ap, String, Bool, true, false, not, List, [], ◌∷◌, ◌++◌, filter, flat_map,
  All, arith, inl, inr, Bool-cases, length,
}
use canonical_company_audito.Collections.{place, sort_by}
use canonical_company_audito.Collections.Sorted.{Ascends, sort_by-Ascends}
use canonical_company_audito.Config.{CanonicalAuditConfig}
use canonical_company_audito.Config.Services.{
  ServiceConnection, ServiceSettings, ServiceProvider, github, aws, gcp, azure, cloudflare,
  supabase, neondb, vercel, upstash, kubernetes, sentry, datadog, other,
}
use canonical_company_audito.Config.Validate.{nonempty, empty_vec}
use canonical_company_audito.Config.Missing.{
  MissingConfigField, selectors, push, missing_of, missing_required_fields,
}

-- The selectors that the collection from a provider needs.
abbrev pub HasSelectors : ServiceProvider → ServiceSettings → Type 0
HasSelectors github s = nonempty s.organization ≡ true
HasSelectors sentry s = nonempty s.organization ≡ true
HasSelectors aws s = nonempty s.account_id ≡ true
HasSelectors cloudflare s = nonempty s.account_id ≡ true
HasSelectors gcp s = empty_vec s.project_ids ≡ false
HasSelectors neondb s = empty_vec s.project_ids ≡ false
HasSelectors azure s = (nonempty s.tenant_id ≡ true) × (empty_vec s.subscription_ids ≡ false)
HasSelectors supabase s = empty_vec s.project_refs ≡ false
HasSelectors vercel s = nonempty s.team_id ≡ true
HasSelectors kubernetes s = empty_vec s.contexts ≡ false
HasSelectors datadog s = nonempty s.site ≡ true
HasSelectors upstash s = Unit
HasSelectors other s = Unit

append-eq-nil {ℓ} : {A : Type ℓ} (xs ys : List A) → (xs ++ ys ≡ []) ↔ ((xs ≡ []) × (ys ≡ []))
append-eq-nil [] ys = (λ h. (refl, h), λ (_, h). h)
append-eq-nil (x ∷ xs) ys = (λ h. cc, λ (h, _). cc)

module _ (s : ServiceConnection) where
  abbrev pushed : List (String × Bool) → List MissingConfigField
  pushed rows = flat_map (push s) rows

  pushed-eq-nil :
      (rows : List (String × Bool)) → (pushed rows ≡ []) ↔ All (λ row. row.1 ≡ false) rows
  pushed-eq-nil [] = (λ _. tt, λ _. refl)
  pushed-eq-nil ((field, true) ∷ rows) = (λ h. cc, λ (h, _). absurd (ground arith))
  pushed-eq-nil ((field, false) ∷ rows) =
      let (to, from) = pushed-eq-nil rows in (λ h. (refl, to h), λ (_, h). from h)

selectors-HasSelectors :
    (p : ServiceProvider) (s : ServiceSettings)
    → All (λ row. row.1 ≡ false) (selectors p s) ↔ HasSelectors p s
unfolding selectors
selectors-HasSelectors github s = (λ (h, _). ground arith, λ h. (ap not h, tt))
selectors-HasSelectors sentry s = (λ (h, _). ground arith, λ h. (ap not h, tt))
selectors-HasSelectors aws s = (λ (h, _). ground arith, λ h. (ap not h, tt))
selectors-HasSelectors cloudflare s = (λ (h, _). ground arith, λ h. (ap not h, tt))
selectors-HasSelectors gcp s = (λ (h, _). h, λ h. (h, tt))
selectors-HasSelectors neondb s = (λ (h, _). h, λ h. (h, tt))
selectors-HasSelectors azure s = (λ (h, (k, _)). (ground arith, k), λ (h, k). (ap not h, (k, tt)))
selectors-HasSelectors supabase s = (λ (h, _). h, λ h. (h, tt))
selectors-HasSelectors vercel s = (λ (h, _). ground arith, λ h. (ap not h, tt))
selectors-HasSelectors kubernetes s = (λ (h, _). h, λ h. (h, tt))
selectors-HasSelectors datadog s = (λ (h, _). ground arith, λ h. (ap not h, tt))
selectors-HasSelectors upstash s = (λ _. tt, λ _. tt)
selectors-HasSelectors other s = (λ _. tt, λ _. tt)

-- An enabled service has the selectors of its provider.
abbrev pub IsSelected : ServiceConnection → Type 0
IsSelected s = s.enabled ≡ true → HasSelectors s.provider s.settings

missing_of-eq-nil :
    (s : ServiceConnection) → (missing_of s ≡ []) ↔ HasSelectors s.provider s.settings
missing_of-eq-nil s =
    let (to, from) = pushed-eq-nil s (selectors s.provider s.settings) in
    let (to', from') = selectors-HasSelectors s.provider s.settings in
    (λ h. to' (to h), λ h. from (from' h))

abbrev unsorted : List ServiceConnection → List MissingConfigField
unsorted services = flat_map missing_of (filter (λ s. s.enabled) services)

unsorted-eq-nil :
    (services : List ServiceConnection) → (unsorted services ≡ []) ↔ All IsSelected services
unsorted-eq-nil [] = (λ _. tt, λ _. refl)
unsorted-eq-nil (s ∷ services) =
    let (to, from) = unsorted-eq-nil services in
    let (here_to, here_from) = missing_of-eq-nil s in
    elim (Bool-cases s.enabled) [
      | inl on ↦
          let (split, both) = append-eq-nil (missing_of s) (unsorted services) in
          rw on (
            λ h. let (here, later) = split h in (λ _. here_to here, to later),
            λ (here, later). both (here_from (here refl), from later),
          )
      | inr off ↦ rw off (λ h. (λ on. absurd (ground (arith, on)), to h), λ (_, later). from later)
    ]

place_ne_nil :
    (key : MissingConfigField → String) (x : MissingConfigField) (xs : List MissingConfigField)
    → place key x xs ≢ []
unfolding place
place_ne_nil key x [] h = let e = ap length h in omega arith
place_ne_nil key x (y ∷ ys) h = let e = ap length h in ground arith

sort_by-eq-nil :
    (key : MissingConfigField → String) (xs : List MissingConfigField)
    → (sort_by key xs ≡ []) ↔ (xs ≡ [])
unfolding sort_by place
sort_by-eq-nil key [] = (λ _. refl, λ _. refl)
sort_by-eq-nil key (x ∷ xs) = (
  λ h. absurd (place_ne_nil key x (sort_by key xs) h),
  λ h. absurd (let e : length (x ∷ xs) ≡ 0 = ap length h in omega arith),
)

-- The missing fields ascend by path, and there are none exactly when every enabled service has the
-- selectors of its provider.
pub missing_required_fields-eq-nil :
    (c : CanonicalAuditConfig)
    → Ascends (λ m. m.path) (missing_required_fields c)
      × ((missing_required_fields c ≡ []) ↔ All IsSelected c.services)
unfolding missing_required_fields
missing_required_fields-eq-nil c =
    let (to, from) = sort_by-eq-nil (λ m. m.path) (unsorted c.services) in
    let (to', from') = unsorted-eq-nil c.services in
    (sort_by-Ascends (λ m. m.path) (unsorted c.services), (λ h. to' (to h), λ h. from (from' h)))
