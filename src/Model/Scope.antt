-- ===== src/Model/Scope.antt =====
-- src/model.rs: `scope_contains` compares hierarchical identifiers segment by segment.
use Prim.Native.Char.{Char, code}
use Prim.Native.String.{[], ◌∷◌}
use Prim.Native.String.compare
use mathlib.Core.List.{List, [], ◌∷◌, ◌++◌}
use text.Mathlib.TextEquality.{Char-path}
use text.Mathlib.TextLemmas.{cons-eq-cons, cons≢nil}
use canonical_company_audito.Prelude.{
  ◌≡◌, ◌↔◌, refl, sym, ap, ◌∙◌, String, Bool, true, false, ◌&&◌, ◌||◌, ◌==◌, Option, none, some, ℕ,
  eqb, eqb_iff, and-eq-true, arith, Bool-cases, inl, inr, ◌≢◌,
}
use canonical_company_audito.Text.{strip_prefix, starts_with, split, cons_head}

-- `suffix.starts_with('/')` on what `strip_prefix` returned
abbrev slash_follows : Option String → Bool
slash_follows none = false
slash_follows (some suffix) = starts_with b'/' suffix

unfoldable pub scope_contains : String → String → Bool
unfolding strip_prefix starts_with
scope_contains root candidate = candidate == root || slash_follows (strip_prefix root candidate)

-- The same test, one character at a time.
within : String → String → Bool
within [] [] = true
within [] (d ∷ s) = eqb (code d) b'/'
within (c ∷ r) [] = false
within (c ∷ r) (d ∷ s) = eqb (code c) (code d) && within r s

cons_eq : (c d : Char) (r s : String) → ((d ∷ s) == (c ∷ r)) ≡ (eqb (code c) (code d) && s == r)
cons_eq c d r s = rw (compare.cons-cons d c s r) (ground arith)

scope_contains-within : (r s : String) → scope_contains r s ≡ within r s
unfolding scope_contains within
scope_contains-within [] [] = refl
scope_contains-within [] (d ∷ s) = rw (compare.cons-nil d s) refl
scope_contains-within (c ∷ r) [] = rw (compare.nil-cons c r) refl
scope_contains-within (c ∷ r) (d ∷ s) =
    rw (cons_eq c d r s) (ground (arith, scope_contains-within r s))

split-ne-nil : (k : ℕ) (s : String) → split k s ≢ []
unfolding split
split-ne-nil k [] = cc
split-ne-nil k (c ∷ s) = ground (arith, split-ne-nil k s)

-- The first segment of the rest, with one more character.
cons_head-append :
    (c : Char) (ps qs : List String) → ps ≢ [] → cons_head c (ps ++ qs) ≡ cons_head c ps ++ qs
cons_head-append c [] qs n = absurd (n refl)
cons_head-append c (p ∷ ps) qs n = refl

-- `within` is the prefix order on segments.
within-split :
    (r s : String)
    → within r s ≡ true
    → (rest : List String) × (split b'/' s ≡ split b'/' r ++ rest)
unfolding within split
within-split [] [] h = ([], refl)
within-split [] (d ∷ s) h = (split b'/' s, rw h)
within-split (c ∷ r) [] h = absurd (ground arith)
within-split (c ∷ r) (d ∷ s) h =
    let (here, later) = and-eq-true (eqb (code c) (code d)) (within r s) h in
    let (rest, e) = within-split r s later in
    let same : c ≡ d = Char-path c d ((eqb_iff (code c) (code d)).0 here) in
    elim (Bool-cases (eqb (code c) b'/')) [
      | inl slash ↦ (rest, rw (← same) (rw slash (rw e refl)))
      | inr plain ↦ (
        rest,
        rw (← same)
            (rw plain (rw e (cons_head-append c (split b'/' r) rest (split-ne-nil b'/' r)))),
      )
    ]

cons_head_inj :
    (c d : Char) (ps qs rest : List String)
    → ps ≢ []
    → qs ≢ []
    → cons_head d ps ≡ cons_head c qs ++ rest
    → (c ≡ d) × (ps ≡ qs ++ rest)
cons_head_inj c d [] qs rest n m e = absurd (n refl)
cons_head_inj c d (p ∷ ps) [] rest n m e = absurd (m refl)
cons_head_inj c d (p ∷ ps) (q ∷ qs) rest n m e =
    let first : (d ∷ p) ≡ (c ∷ q) = cc in
    let (chars, texts) = cons-eq-cons.0 first in
    let later : ps ≡ qs ++ rest = cc e in (sym chars, cc (texts, later))

head_blank : (d : Char) (ps rest : List String) → cons_head d ps ≡ [] ∷ rest → ⊥
head_blank d [] rest e = cons≢nil (let first : (d ∷ []) ≡ [] = cc in first)
head_blank d (p ∷ ps) rest e = cons≢nil (let first : (d ∷ p) ≡ [] = cc in first)

append-ne-nil : (ps rest : List String) → ps ≢ [] → ps ++ rest ≢ []
append-ne-nil [] rest n e = n refl
append-ne-nil (p ∷ ps) rest n e = cc

more_segments :
    (r : String) (rest qs : List String)
    → ◌≡◌ {A = List String} ("" ∷ qs) ("" ∷ (split b'/' r ++ rest))
    → qs ≢ []
more_segments r rest qs e none_left =
    let tails : qs ≡ split b'/' r ++ rest = cc in
    append-ne-nil (split b'/' r) rest (split-ne-nil b'/' r) (sym tails ∙ none_left)

split-within :
    (r s : String) (rest : List String) → split b'/' s ≡ split b'/' r ++ rest → within r s ≡ true
unfolding within split
split-within [] [] rest e = refl
split-within [] (d ∷ s) rest e = elim (Bool-cases (eqb (code d) b'/')) [
  | inl slash ↦ slash
  | inr plain ↦ absurd (head_blank d (split b'/' s) rest (rw plain at e))
]
split-within (c ∷ r) [] rest e = elim (Bool-cases (eqb (code c) b'/')) [
  | inl slash ↦ absurd (more_segments r rest [] (rw slash at e) refl)
  | inr plain ↦
      let first = rw plain at e in
      let joined = cons_head-append c (split b'/' r) rest (split-ne-nil b'/' r) in
      absurd (head_blank c (split b'/' r ++ rest) [] (joined ∙ sym first))
]
split-within (c ∷ r) (d ∷ s) rest e = elim (Bool-cases (eqb (code c) b'/')) [
  | inl slash ↦ elim (Bool-cases (eqb (code d) b'/')) [
    | inl slash' ↦
        let tails : split b'/' s ≡ split b'/' r ++ rest =
          let both = rw (slash, slash') at e in cc in
        ground (arith, split-within r s rest tails)
    | inr plain' ↦
        absurd (head_blank d (split b'/' s) (split b'/' r ++ rest) (rw (slash, plain') at e))
  ]
  | inr plain ↦ elim (Bool-cases (eqb (code d) b'/')) [
    | inl slash' ↦
        let first = rw (plain, slash') at e in
        let joined = cons_head-append c (split b'/' r) rest (split-ne-nil b'/' r) in
        absurd (head_blank c (split b'/' r ++ rest) (split b'/' s) (joined ∙ sym first))
    | inr plain' ↦
        let (same, tails) =
          cons_head_inj c d (split b'/' s) (split b'/' r) rest (split-ne-nil b'/' s)
            (split-ne-nil b'/' r) (rw (plain, plain') at e) in
        ground (arith, ap code same, split-within r s rest tails)
  ]
]

-- A scope contains another exactly when its segments are a prefix of the other's segments.
pub scope_contains_iff :
    (root candidate : String)
    → (scope_contains root candidate ≡ true)
      ↔ ((rest : List String) × (split b'/' candidate ≡ split b'/' root ++ rest))
scope_contains_iff root candidate = (
  λ h. within-split root candidate (sym (scope_contains-within root candidate) ∙ h),
  λ (rest, e). scope_contains-within root candidate ∙ split-within root candidate rest e,
)
