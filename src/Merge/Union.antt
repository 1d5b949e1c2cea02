-- ===== src/Merge/Union.antt =====
-- What a merged evidence bundle holds (src/evidence_merge.rs).
use canonical_company_audito.Prelude.{
  ◌≡◌, refl, sym, ap, ◌∙◌, String, true, List, [], ◌∷◌, ◌++◌, map, arith, All, flat_map, Memᴰ,
  All_of_mem, All-imp,
}
use canonical_company_audito.Text.{lt}
use canonical_company_audito.Outcome.{ok, for_state, >>=-eq-ok, >>-eq-ok}
use canonical_company_audito.Collections.Maps.{KeysAscend, KeysAbove}
use canonical_company_audito.Model.{evidence_schema, EvidenceObservation, EvidenceBundle}
use canonical_company_audito.Model.Validate.{validate_bundle}
use canonical_company_audito.External.{External, observation}
use canonical_company_audito.Evidence.{digest}
use canonical_company_audito.Merge.{Pool, add_bundle, merge_evidence_bundles}
use canonical_company_audito.Merge.Pools.{IsEntry, IsHeld, IsOf, get-mem, add_bundles-Leaves}

mem-append_left {ℓ} : {A : Type ℓ} {a : A} (xs ys : List A) → Memᴰ a xs → Memᴰ a (xs ++ ys)
mem-append_left [] ys m = elim m [ ]
mem-append_left (x ∷ xs) ys (Memᴰ.head e) = Memᴰ.head e
mem-append_left (x ∷ xs) ys (Memᴰ.tail m) = Memᴰ.tail (mem-append_left xs ys m)

mem-append_right {ℓ} : {A : Type ℓ} {a : A} (xs ys : List A) → Memᴰ a ys → Memᴰ a (xs ++ ys)
mem-append_right [] ys m = m
mem-append_right (x ∷ xs) ys m = Memᴰ.tail (mem-append_right xs ys m)

All-mem {ℓ} : {A : Type ℓ} (xs : List A) → All (λ a. Memᴰ a xs) xs
All-mem [] = tt
All-mem (x ∷ xs) = (Memᴰ.head refl, All-imp xs (λ a m. Memᴰ.tail m) (All-mem xs))

all_from :
    (bs : List EvidenceBundle)
    → All (λ b. All (λ o. Memᴰ o (flat_map (λ b. b.observations) bs)) b.observations) bs
all_from [] = tt
all_from (b ∷ bs) =
    let here =
      All-imp b.observations
        (λ a m. mem-append_left b.observations (flat_map (λ b. b.observations) bs) m)
        (All-mem b.observations) in
    let later =
      All-imp bs
        (λ c q.
          All-imp c.observations
            (λ a m. mem-append_right b.observations (flat_map (λ b. b.observations) bs) m) q)
        (all_from bs) in
    (here, later)

module _ (ext : External) where
  -- The observation, or another with its identifier and its digest, is in the bundle.
  pub record IsIn (b : EvidenceBundle) (o : EvidenceObservation) : Type 0 where
    pub held : EvidenceObservation
    pub present : Memᴰ held b.observations
    pub same_id : held.external_id ≡ o.external_id
    pub same_digest : digest ext (observation held) ≡ digest ext (observation o)

  -- The texts ascend strictly.
  abbrev pub Rises : List EvidenceObservation → Type 0
  Rises [] = Unit
  Rises (o ∷ os) = All (λ p. lt o.external_id p.external_id ≡ true) os × Rises os

  -- What merging promises: bundles of one tenant and scope are united, nothing is added, each
  -- identifier appears once and in order.
  pub record IsUnion (bundles : List EvidenceBundle) (b : EvidenceBundle) : Type 0 where
    pub valid : validate_bundle b ≡ ok tt
    pub version : b.schema_version ≡ evidence_schema
    pub one_scope : All (IsOf b.tenant_id b.scope_id) bundles
    pub sound : All (λ o. Memᴰ o (flat_map (λ b. b.observations) bundles)) b.observations
    pub complete : All (λ a. All (IsIn b) a.observations) bundles
    pub rising : Rises b.observations

  abbrev merged_from : Pool → List EvidenceObservation
  merged_from pool = map (λ entry. entry.1.1) pool

  above :
      (From : EvidenceObservation → Type 0) (k : String) (pool : Pool)
      → All (IsEntry ext From) pool
      → KeysAbove k pool
      → All (λ o. lt k o.external_id ≡ true) (merged_from pool)
  above From k [] e a = tt
  above From k ((j, (d, o)) ∷ pool) ((p, _, _), e) (l, a) = (rw p l, above From k pool e a)

  Rises-of_KeysAscend :
      (From : EvidenceObservation → Type 0) (pool : Pool)
      → All (IsEntry ext From) pool
      → KeysAscend pool
      → Rises (merged_from pool)
  Rises-of_KeysAscend From [] e s = tt
  Rises-of_KeysAscend From ((k, (d, o)) ∷ pool) ((p, _, _), e) (a, s) =
      (rw p (above From k pool e a), Rises-of_KeysAscend From pool e s)

  sound_of_entries :
      (From : EvidenceObservation → Type 0) (pool : Pool)
      → All (IsEntry ext From) pool
      → All From (merged_from pool)
  sound_of_entries From [] e = tt
  sound_of_entries From ((k, (d, o)) ∷ pool) ((_, _, f), e) = (f, sound_of_entries From pool e)

  merged_mem :
      (k d : String) (o : EvidenceObservation) (pool : Pool)
      → Memᴰ (k, (d, o)) pool
      → Memᴰ o (merged_from pool)
  merged_mem k d o [] m = elim m [ ]
  merged_mem k d o (x ∷ pool) (Memᴰ.head e) = Memᴰ.head (ap (λ y. y.1.1) e)
  merged_mem k d o (x ∷ pool) (Memᴰ.tail m) = Memᴰ.tail (merged_mem k d o pool m)

  complete_of_held :
      (From : EvidenceObservation → Type 0) (b : EvidenceBundle) (pool : Pool)
      → b.observations ≡ merged_from pool
      → All (IsEntry ext From) pool
      → (o : EvidenceObservation) → IsHeld ext pool o
      → IsIn b o
  complete_of_held From b pool same entries o h =
      let m = get-mem o.external_id (h.sha, h.held) pool h.found in
      let (same_key, digested, _) = All_of_mem (IsEntry ext From) pool entries m in
      record {
        held = h.held;
        present = rw same (merged_mem o.external_id h.sha h.held pool m);
        same_id = same_key;
        same_digest = digested ∙ sym h.digested;
      }

  abbrev merged_bundle : EvidenceBundle → Pool → EvidenceBundle
  merged_bundle first pool = record {
    schema_version = evidence_schema;
    tenant_id = first.tenant_id;
    scope_id = first.scope_id;
    observations = merged_from pool;
  }

  -- A merged bundle is valid and of one tenant and scope with every input, holds only observations of
  -- the inputs, holds each of them or one with the same identifier and digest, and lists them by
  -- strictly rising identifier.
  pub merge_evidence_bundles-IsUnion :
      (bundles : List EvidenceBundle) (b : EvidenceBundle)
      → merge_evidence_bundles ext bundles ≡ ok b
      → IsUnion bundles b
  unfolding merge_evidence_bundles
  merge_evidence_bundles-IsUnion [] b h = absurd (ground arith)
  merge_evidence_bundles-IsUnion (first ∷ rest) b h =
      let bundles = first ∷ rest in
      let (_, h1) = >>-eq-ok (validate_bundle first) _ h in
      let (pool, loop, h2) =
        >>=-eq-ok (for_state (add_bundle ext first.tenant_id first.scope_id) [] bundles) _ h1 in
      let From : EvidenceObservation → Type 0 =
        (λ o. Memᴰ o (flat_map (λ b. b.observations) bundles)) in
      let (ofs, p, holds, _) =
        add_bundles-Leaves ext From first.tenant_id first.scope_id [] pool bundles
          (all_from bundles) (record { ascending = tt; entries = tt }) loop in
      let (valid, e) =
        >>-eq-ok (validate_bundle (merged_bundle first pool)) (ok (merged_bundle first pool)) h2 in
      let whole : b ≡ merged_bundle first pool = ground arith in
      let same : b.observations ≡ merged_from pool = ap (λ b. b.observations) whole in
      record {
        valid = rw whole valid;
        version = rw whole refl;
        one_scope = All-imp bundles (λ a f. rw whole f) ofs;
        sound = rw same (sound_of_entries From pool p.entries);
        complete =
            All-imp bundles
              (λ a. All-imp a.observations (complete_of_held From b pool same p.entries)) holds;
        rising = rw same (Rises-of_KeysAscend From pool p.entries p.ascending);
      }
