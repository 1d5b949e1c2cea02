-- ===== src/Config/References.antt =====
-- src/audit_config.rs: the secret references that `validate_secret_ref` accepts.
use Prim.Native.Char.{code}
use Prim.Native.String.{[], ◌∷◌, ◌++◌}
use mathlib.Core.List.{List, [], ◌∷◌}
use text.Mathlib.TextLemmas.{cons-append}
use canonical_company_audito.Prelude.{
  ◌≡◌, ◌↔◌, refl, sym, ap, ◌∙◌, ℕ, String, Bool, true, false, some, Memᴰ, Option-cases, inl, inr,
  any, any-eq-true, any_of_mem, subst, find-eq-some, find_of_mem, mem-filter, mem_filter_of, filter,
  head?, arith,
}
use canonical_company_audito.Outcome.{ok, ok_or, ok_or-eq-ok, >>=-eq-ok}
use canonical_company_audito.Text.Prefix.{strip_prefix-eq-some, strip_prefix-append}
use canonical_company_audito.Text.{is_blank, trim, strip_prefix}
use canonical_company_audito.Config.{
  CanonicalAuditConfig, SecretReferenceScheme, env, sops, file, vault, prefix,
}
use canonical_company_audito.Config.Validate.{
  scheme_eq, approved_schemes, has_prefix, validate_secret_ref,
}

scheme_of_eq : (s t : SecretReferenceScheme) → scheme_eq s t ≡ true → s ≡ t
scheme_of_eq s t h = ground arith

scheme_eq_refl : (s : SecretReferenceScheme) → scheme_eq s s ≡ true
scheme_eq_refl s = ground arith

-- The scheme of a reference is told by its first character.
abbrev initial : SecretReferenceScheme → ℕ
initial env = b'e'
initial sops = b's'
initial file = b'f'
initial vault = b'v'

initial-inj : (s t : SecretReferenceScheme) → initial s ≡ initial t → s ≡ t
initial-inj s t h = ground arith

abbrev first_code : String → ℕ
first_code [] = 0
first_code (c ∷ s) = code c

first_code-prefix :
    (s : SecretReferenceScheme) (t : String) → first_code (prefix s ++ t) ≡ initial s
first_code-prefix env t = ap first_code (cons-append _ "nv:" t)
first_code-prefix sops t = ap first_code (cons-append _ "ops:" t)
first_code-prefix file t = ap first_code (cons-append _ "ile:" t)
first_code-prefix vault t = ap first_code (cons-append _ "ault:" t)

-- A reference of a known scheme with a target that is not blank.
pub record IsSecretRef (schemes : List SecretReferenceScheme) (reference : String) : Type 0 where
  pub scheme : SecretReferenceScheme
  pub allowed : Memᴰ scheme schemes
  pub target : String
  pub reads : reference ≡ prefix scheme ++ target
  pub nonblank : is_blank (trim target) ≡ false

all_schemes : (s : SecretReferenceScheme) → Memᴰ s (env ∷ sops ∷ file ∷ vault ∷ [])
all_schemes env = Memᴰ.head refl
all_schemes sops = Memᴰ.tail (Memᴰ.head refl)
all_schemes file = Memᴰ.tail (Memᴰ.tail (Memᴰ.head refl))
all_schemes vault = Memᴰ.tail (Memᴰ.tail (Memᴰ.tail (Memᴰ.head refl)))

any-scheme_eq :
    (s : SecretReferenceScheme) (given : List SecretReferenceScheme)
    → (any (scheme_eq s) given ≡ true) ↔ Memᴰ s given
any-scheme_eq s given = (
  λ h.
      let (t, m, e) = any-eq-true (scheme_eq s) given h in
      subst (λ t. Memᴰ t given) (sym (scheme_of_eq s t e)) m,
  λ m. any_of_mem (scheme_eq s) given m (scheme_eq_refl s),
)

module _ (c : CanonicalAuditConfig) where
  approved_iff :
      (s : SecretReferenceScheme)
      → Memᴰ s (approved_schemes c) ↔ Memᴰ s c.security.secret_reference_schemes
  unfolding approved_schemes
  approved_iff s =
      let listed = any-scheme_eq s c.security.secret_reference_schemes in
      let test : (s : SecretReferenceScheme) → Bool =
        (λ s. any (scheme_eq s) c.security.secret_reference_schemes) in
      let every : List SecretReferenceScheme = env ∷ sops ∷ file ∷ vault ∷ [] in
      (
        λ m. listed.0 (mem-filter test every m).1,
        λ m. mem_filter_of test every (all_schemes s) (listed.1 m),
      )

  pub validate_secret_ref-IsSecretRef :
      (r : String)
      → validate_secret_ref (approved_schemes c) r ≡ ok tt
      → IsSecretRef c.security.secret_reference_schemes r
  unfolding validate_secret_ref
  validate_secret_ref-IsSecretRef r h =
      let (s, found, h1) =
        >>=-eq-ok (ok_or (head? (filter (has_prefix r) (approved_schemes c))) _) _ h in
      let first = ok_or-eq-ok (head? (filter (has_prefix r) (approved_schemes c))) _ found in
      let (m, e) = find-eq-some (has_prefix r) (approved_schemes c) {x = s} first in
      elim (Option-cases (strip_prefix (prefix s) r)) [
        | inr (t, q) ↦ record {
          scheme = s;
          allowed = (approved_iff s).0 m;
          target = t;
          reads = strip_prefix-eq-some (prefix s) r t q;
          nonblank = ground (arith, h1, q);
        }
        | inl n ↦ absurd (ground (arith, n, e))
      ]

  pub validate_secret_ref_of :
      (r : String)
      → IsSecretRef c.security.secret_reference_schemes r
      → validate_secret_ref (approved_schemes c) r ≡ ok tt
  unfolding validate_secret_ref
  validate_secret_ref_of r is =
      let stripped : strip_prefix (prefix is.scheme) r ≡ some is.target =
        rw is.reads (strip_prefix-append (prefix is.scheme) is.target) in
      let (s, found, e) =
        find_of_mem (has_prefix r) (approved_schemes c) ((approved_iff is.scheme).1 is.allowed)
          (rw stripped refl) in
      elim (Option-cases (strip_prefix (prefix s) r)) [
        | inr (t, q) ↦
            let reads = strip_prefix-eq-some (prefix s) r t q in
            let codes : initial s ≡ initial is.scheme =
              sym (first_code-prefix s t)
              ∙ (ap first_code (sym reads ∙ is.reads) ∙ first_code-prefix is.scheme is.target) in
            let same = initial-inj s is.scheme codes in rw (found, same, stripped, is.nonblank) refl
        | inl n ↦ absurd (ground arith)
      ]
