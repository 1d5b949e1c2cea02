-- ===== src/Text/Prefix.antt =====
-- A text whose prefix was stripped is the prefix and what is left.
use Prim.Native.Char.{code}
use Prim.Native.String.{[], ◌∷◌, ◌++◌}
use text.Mathlib.TextEquality.{Char-path}
use text.Mathlib.TextLemmas.{nil-append, cons-append}
use canonical_company_audito.Prelude.{
  ◌≡◌, refl, sym, ◌∙◌, String, Bool-cases, true, some, eqb, inl, inr, arith,
}
use canonical_company_audito.Text.{strip_prefix}

pub strip_prefix-eq-some : (p s t : String) → strip_prefix p s ≡ some t → s ≡ p ++ t
unfolding strip_prefix
strip_prefix-eq-some [] s t h = let same : s ≡ t = cc in same ∙ sym (nil-append t)
strip_prefix-eq-some (c ∷ p) [] t h = cc
strip_prefix-eq-some (c ∷ p) (d ∷ s) t h = elim (Bool-cases (eqb (code c) (code d))) [
  | inl e ↦
      let same : code d ≡ code c = ground arith in
      let rest = strip_prefix-eq-some p s t (rw e at h) in
      (λ i. Char-path d c same i ∷ rest i) ∙ sym (cons-append c p t)
  | inr n ↦ absurd (ground arith)
]

pub strip_prefix-append : (p t : String) → strip_prefix p (p ++ t) ≡ some t
unfolding strip_prefix
strip_prefix-append [] t = rw (nil-append t) refl
strip_prefix-append (c ∷ p) t =
    let same : eqb (code c) (code c) ≡ true = ground arith in
    rw (cons-append c p t, same) (strip_prefix-append p t)
