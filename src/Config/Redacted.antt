-- ===== src/Config/Redacted.antt =====
-- src/audit_config.rs: what is left of the secret references after redaction.
use Prim.Native.Char.{code}
use Prim.Native.String.{[], ◌∷◌, ◌++◌}
use mathlib.Core.List.{[], ◌∷◌}
use mathlib.Core.List as Lists
use canonical_company_audito.Prelude.{
  ◌≡◌, refl, ℕ, String, false, none, some, ap, ◌⊎◌, Bool-cases, Option-cases, inl, inr, eqb, All,
  arith,
}
use canonical_company_audito.Text.{codes, split_once}
use canonical_company_audito.Config.Redact.{redact_text}

-- No colon in it
abbrev pub IsPlain : String → Type 0
IsPlain s = All (λ c. eqb c b':' ≡ false) (codes s)

-- What redaction leaves of a reference with a colon: the text in front of the first one.
pub record IsSchemeOf (s redacted : String) : Type 0 where
  pub scheme : String
  pub target : String
  pub plain : IsPlain scheme
  pub splits : codes s ≡ Lists.◌++◌ (codes scheme) (b':' ∷ codes target)
  pub reads : redacted ≡ scheme ++ ":<redacted>"

-- A text and what redaction makes of it; nothing is left of a text without a colon.
abbrev pub IsRedactionOf : String → String → Type 0
IsRedactionOf s redacted = IsSchemeOf s redacted ⊎ (IsPlain s × (redacted ≡ "secret:<redacted>"))

-- The scheme in front of the first colon has none.
split_once-plain :
    (k : ℕ) (s first rest : String)
    → split_once k s ≡ some (first, rest)
    → All (λ c. eqb c k ≡ false) (codes first)
unfolding split_once
split_once-plain k [] first rest h = cc
split_once-plain k (c ∷ s) first rest h = elim (Bool-cases (eqb (code c) k)) [
  | inl e ↦ let blank : first ≡ [] = ground arith in rw blank tt
  | inr n ↦ elim (Option-cases (split_once k s)) [
    | inl e ↦ absurd (ground arith)
    | inr ((p, q), e) ↦
        let same : first ≡ c ∷ p = ground arith in rw same (n, split_once-plain k s p q e)
  ]
]

split_once-splits :
    (k : ℕ) (s first rest : String)
    → split_once k s ≡ some (first, rest)
    → codes s ≡ Lists.◌++◌ (codes first) (k ∷ codes rest)
unfolding split_once
split_once-splits k [] first rest h = cc
split_once-splits k (c ∷ s) first rest h = elim (Bool-cases (eqb (code c) k)) [
  | inl e ↦
      let blank : first ≡ [] = ground arith in
      let left : rest ≡ s = ground arith in
      let same : code c ≡ k = ground (arith, e) in rw blank (rw left (rw same refl))
  | inr n ↦ elim (Option-cases (split_once k s)) [
    | inl e ↦ absurd (ground arith)
    | inr ((p, q), e) ↦
        let same : first ≡ c ∷ p = ground arith in
        let left : rest ≡ q = ground arith in
        rw same (rw left (ap (◌∷◌ (code c)) (split_once-splits k s p q e)))
  ]
]

split_once-none :
    (k : ℕ) (s : String) → split_once k s ≡ none → All (λ c. eqb c k ≡ false) (codes s)
unfolding split_once
split_once-none k [] h = tt
split_once-none k (c ∷ s) h = elim (Bool-cases (eqb (code c) k)) [
  | inl e ↦ absurd (ground arith)
  | inr n ↦ elim (Option-cases (split_once k s)) [
    | inl e ↦ (n, split_once-none k s e)
    | inr ((p, q), e) ↦ absurd (ground arith)
  ]
]

pub redact_text-IsRedactionOf : (s : String) → IsRedactionOf s (redact_text s)
unfolding redact_text
redact_text-IsRedactionOf s = elim (Option-cases (split_once b':' s)) [
  | inl e ↦ inr (split_once-none b':' s e, rw e refl)
  | inr ((first, rest), e) ↦ inl (record {
    scheme = first;
    target = rest;
    plain = split_once-plain b':' s first rest e;
    splits = split_once-splits b':' s first rest e;
    reads = rw e refl;
  })
]
