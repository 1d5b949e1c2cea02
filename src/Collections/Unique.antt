-- ===== src/Collections/Unique.antt =====
-- The loops that collect identifiers in a set and refuse a repeated one.
use canonical_company_audito.Prelude.{
  ◌≡◌, ◌≢◌, refl, ◌↔◌, String, false, List, [], ◌∷◌, map, eq_iff, arith, All, sym,
}
use canonical_company_audito.Outcome.{
  AuditError, Result, ok, ◌>>=◌, ◌>>◌, reject_if, reject_if-eq-ok, >>-eq-ok, >>=-eq-ok,
}
use canonical_company_audito.Collections.{contains, set_insert, set_of}
use canonical_company_audito.Collections.Maps.{contains-set_insert}

-- No two texts of the list are equal.
abbrev pub Distinct : List String → Type 0
Distinct [] = Unit
Distinct (k ∷ ks) = All (λ j. k ≢ j) ks × Distinct ks

module _ {ℓ} {A : Type ℓ} (key : A → String) (before : A → Result (Unit {0}))
    (repeated : AuditError) (after : A → Result (Unit {0})) where
  -- `for value in values { before(value)?; if !seen.insert(key(value)) { return Err(repeated); }
  -- after(value)?; }`, with the set that the loop leaves.
  unfoldable pub for_unique : List String → List A → Result (List String)
  for_unique seen [] = ok seen
  for_unique seen (x ∷ xs) = do
    before x
    reject_if (contains (key x) seen) repeated
    after x
    for_unique (set_insert (key x) seen) xs

  -- What an accepted loop has checked, from the set that it starts with.
  pub record Passes (seen : List String) (xs : List A) : Type ℓ where
    pub befores : All (λ x. before x ≡ ok tt) xs
    pub afters : All (λ x. after x ≡ ok tt) xs
    pub distinct : Distinct (map key xs)
    pub fresh : All (λ x. contains (key x) seen ≡ false) xs

  fresh_tail :
      (k : String) (seen : List String) (xs : List A)
      → All (λ x. contains (key x) (set_insert k seen) ≡ false) xs
      → All (λ x. contains (key x) seen ≡ false) xs × All (λ j. k ≢ j) (map key xs)
  fresh_tail k seen [] h = (tt, tt)
  fresh_tail k seen (x ∷ xs) (p, h) =
      let (later, apart) = fresh_tail k seen xs h in
      let law = contains-set_insert k (key x) seen in
      ((ground arith, later), (λ e. ground (arith, (eq_iff (key x) k).1 (sym e)), apart))

  fresh_cons :
      (k : String) (seen : List String) (xs : List A)
      → All (λ x. contains (key x) seen ≡ false) xs
      → All (λ j. k ≢ j) (map key xs)
      → All (λ x. contains (key x) (set_insert k seen) ≡ false) xs
  fresh_cons k seen [] h n = tt
  fresh_cons k seen (x ∷ xs) (p, h) (n, ns) =
      let law = contains-set_insert k (key x) seen in
      (ground (arith, eq_iff (key x) k, n), fresh_cons k seen xs h ns)

  pub for_unique-Passes :
      (seen : List String) (xs : List A) {s : List String}
      → for_unique seen xs ≡ ok s
      → Passes seen xs × (s ≡ set_of seen (map key xs))
  unfolding for_unique set_of
  for_unique-Passes seen [] e =
      (record { befores = tt; afters = tt; distinct = tt; fresh = tt }, cc)
  for_unique-Passes seen (x ∷ xs) e =
      let (b, e1) = >>-eq-ok (before x) _ e in
      let (c, e2) = >>-eq-ok (reject_if (contains (key x) seen) repeated) _ e1 in
      let (a, e3) = >>-eq-ok (after x) _ e2 in
      let (p, r) = for_unique-Passes (set_insert (key x) seen) xs e3 in
      let (later, apart) = fresh_tail (key x) seen xs p.fresh in
      (
        record {
          befores = (b, p.befores);
          afters = (a, p.afters);
          distinct = (apart, p.distinct);
          fresh = (reject_if-eq-ok _ _ c, later);
        },
        r,
      )

  pub for_unique_of_Passes :
      (seen : List String) (xs : List A)
      → Passes seen xs
      → for_unique seen xs ≡ ok (set_of seen (map key xs))
  unfolding for_unique set_of
  for_unique_of_Passes seen [] p = refl
  for_unique_of_Passes seen (x ∷ xs) p =
      let rest : Passes (set_insert (key x) seen) xs = record {
        befores = p.befores.1;
        afters = p.afters.1;
        distinct = p.distinct.1;
        fresh = fresh_cons (key x) seen xs p.fresh.1 p.distinct.0;
      } in
      rw p.befores.0
        (rw p.fresh.0 (rw p.afters.0 (for_unique_of_Passes (set_insert (key x) seen) xs rest)))

  fresh_nil : (xs : List A) → All (λ x. contains (key x) [] ≡ false) xs
  unfolding contains
  fresh_nil [] = tt
  fresh_nil (x ∷ xs) = (refl, fresh_nil xs)

  -- The loop from the empty set, whose set is dropped.
  pub unique_loop-eq-ok :
      (xs : List A)
      → ((for_unique [] xs >>= λ _. ok (tt {0})) ≡ ok tt)
        ↔ (All (λ x. before x ≡ ok tt) xs × All (λ x. after x ≡ ok tt) xs × Distinct (map key xs))
  unique_loop-eq-ok xs = (
    λ h.
        let (s, run, _) = >>=-eq-ok (for_unique [] xs) (λ _. ok tt) h in
        let p = (for_unique-Passes [] xs run).0 in (p.befores, p.afters, p.distinct),
    λ (b, a, d). rw (
        for_unique_of_Passes [] xs
          (record { befores = b; afters = a; distinct = d; fresh = fresh_nil xs })),
  )
