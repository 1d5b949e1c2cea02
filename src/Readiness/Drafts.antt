-- ===== src/Readiness/Drafts.antt =====
-- src/app/readiness.rs: the draft that the program writes is a response that it accepts.
use Prim.Native.String.{[], ◌∷◌}
use mathlib.Core.List.{List, [], ◌∷◌}
use canonical_company_audito.Prelude.{
  ◌≡◌, refl, sym, ap, subst, ◌∙◌, String, true, false, eq_refl, map, length, All, Memᴰ, ltb, arith,
}
use canonical_company_audito.Outcome.{ok}
use canonical_company_audito.Text.{le}
use canonical_company_audito.Collections.{contains, set_of}
use canonical_company_audito.Collections.Maps.{contains-set_of, contains_iff}
use canonical_company_audito.Collections.Unique.{Distinct, unique_loop-eq-ok}
use canonical_company_audito.Readiness.{Catalog, Framework, Question, Context, Answer}
use canonical_company_audito.Readiness.Fields.{invalid, text}
use canonical_company_audito.Readiness.Responses.{
  validate_context, blank, draft, validate_answer, context_eq, known_question, valid_answer,
  validate,
}

le_empty : (s : String) → le "" s ≡ true
unfolding le
le_empty [] = refl
le_empty (c ∷ s) = refl

blank-valid : (q : Question) (c : Context) → validate_answer (blank q) c ≡ true
unfolding validate_answer text
blank-valid q c = rw (le_empty c.as_of) refl

context_eq_refl : (c : Context) → context_eq c c ≡ true
context_eq_refl c =
    rw
      (
        eq_refl c.customer_id,
        eq_refl c.assessment_id,
        eq_refl c.scope,
        eq_refl c.period_start,
        eq_refl c.period_end,
        eq_refl c.as_of,
      )
      refl

module _ {ℓ κ} {A : Type ℓ} {B : Type κ} (f : A → B) (P : B → Type 0) where
  All-map : (xs : List A) → ((x : A) → Memᴰ x xs → P (f x)) → All P (map f xs)
  All-map [] h = tt
  All-map (x ∷ xs) h = (h x (Memᴰ.head refl), All-map xs (λ y m. h y (Memᴰ.tail m)))

mem-map {ℓ κ} :
    {A : Type ℓ} {B : Type κ} (f : A → B) (xs : List A) {x : A} → Memᴰ x xs → Memᴰ (f x) (map f xs)
mem-map f [] m = elim m [ ]
mem-map f (x ∷ xs) (Memᴰ.head e) = Memᴰ.head (ap f e)
mem-map f (x ∷ xs) (Memᴰ.tail m) = Memᴰ.tail (mem-map f xs m)

module _ (framework : Framework) (context : Context) where
  abbrev ids : List String
  ids = map (λ q. q.id) framework.questions

  abbrev answers : List Answer
  answers = map blank framework.questions

  answers-ids : (qs : List Question) → map (λ a. a.question_id) (map blank qs) ≡ map (λ q. q.id) qs
  answers-ids [] = refl
  answers-ids (q ∷ qs) = ap (◌∷◌ q.id) (answers-ids qs)

  answers-known : All (λ a. known_question (set_of [] ids) a ≡ ok tt) answers
  answers-known =
      All-map blank (λ a. known_question (set_of [] ids) a ≡ ok tt) framework.questions
        λ q m.
          let listed = (contains_iff q.id ids).1 (mem-map (λ q. q.id) framework.questions m) in
          let known : contains q.id (set_of [] ids) ≡ true =
            contains-set_of q.id [] ids ∙ (ground (arith, listed)) in
          rw known refl

  answers-valid : All (λ a. valid_answer context a ≡ ok tt) answers
  answers-valid =
      All-map blank (λ a. valid_answer context a ≡ ok tt) framework.questions
        λ q m. rw (blank-valid q context) refl

  length-answers : (qs : List Question) → length (map blank qs) ≡ length qs
  length-answers [] = refl
  length-answers (q ∷ qs) = omega (arith, length-answers qs)

  -- The draft of a valid context is accepted, for a framework whose questions have distinct
  -- identifiers.
  pub draft-validate :
      (catalog : Catalog)
      → validate_context context ≡ ok tt
      → Distinct ids
      → validate catalog framework context (draft catalog framework context) ≡ ok tt
  unfolding validate draft
  draft-validate catalog valid distinct =
      let few : ltb (length framework.questions) (length answers) ≡ false =
        (let e = length-answers framework.questions in ground arith) in
      let names = subst Distinct (sym (answers-ids framework.questions)) distinct in
      let loop =
        (unique_loop-eq-ok (λ a. a.question_id) (known_question (set_of [] ids)) invalid
            (valid_answer context) answers).1
          (answers-known, answers-valid, names) in
      rw (valid, eq_refl catalog.version, eq_refl framework.id, context_eq_refl context, few) loop
