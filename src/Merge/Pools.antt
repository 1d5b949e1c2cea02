-- ===== src/Merge/Pools.antt =====
-- What the loops of the merge keep of their pool (src/evidence_merge.rs).
use canonical_company_audito.Prelude.{
  ◌≡◌, refl, ◌∙◌, String, false, ◌==◌, eq_iff, none, some, List, [], ◌∷◌, arith, All, Memᴰ, inl,
  inr, if◌then◌else◌, eq_refl, Bool-cases, Option-cases, All-imp,
}
use canonical_company_audito.Text.{lt}
use canonical_company_audito.Outcome.{ok, for_state, >>=-eq-ok}
use canonical_company_audito.Collections.{get, insert}
use canonical_company_audito.Collections.Maps.{get-insert, KeysAscend, KeysAscend-insert}
use canonical_company_audito.Model.{EvidenceObservation, EvidenceBundle}
use canonical_company_audito.Model.Validate.{validate_bundle}
use canonical_company_audito.External.{External, observation}
use canonical_company_audito.Evidence.{digest}
use canonical_company_audito.Merge.{Pool, add_observation, add_bundle}

module _ (ext : External) (From : EvidenceObservation → Type 0) where
  -- An entry of the pool: its key, its digest and where its observation comes from.
  abbrev pub IsEntry : String × (String × EvidenceObservation) → Type 0
  IsEntry (k, (d, o)) = (o.external_id ≡ k) × (digest ext (observation o) ≡ ok d) × From o

  All-insert :
      (k : String) (v : String × EvidenceObservation) (pool : Pool)
      → IsEntry (k, v)
      → All IsEntry pool
      → All IsEntry (insert k v pool)
  unfolding insert
  All-insert k v [] e h = (e, tt)
  All-insert k v ((j, w) ∷ pool) e (p, h) = elim (Bool-cases (k == j)) [
    | inl a ↦ rw a (e, h)
    | inr a ↦ elim (Bool-cases (lt k j)) [
      | inl b ↦ rw a (rw b (e, (p, h)))
      | inr b ↦ rw a (rw b (p, All-insert k v pool e h))
    ]
  ]

  pub record IsPool (pool : Pool) : Type 0 where
    pub ascending : KeysAscend pool
    pub entries : All IsEntry pool

-- The pool holds, under the observation's identifier, an observation with the same digest.
pub record IsHeld (ext : External) (pool : Pool) (o : EvidenceObservation) : Type 0 where
  pub sha : String
  pub held : EvidenceObservation
  pub found : get o.external_id pool ≡ some (sha, held)
  pub digested : digest ext (observation o) ≡ ok sha

reflexive_if {ℓ} : {A : Type ℓ} (k : String) (a b : A) → (if k == k then a else b) ≡ a
reflexive_if k a b = rw (eq_refl k)

pub get-mem {ℓ} :
    {V : Type ℓ} (k : String) (v : V) (m : List (String × V)) → get k m ≡ some v → Memᴰ (k, v) m
unfolding get
get-mem k v [] h = absurd (ground arith)
get-mem k v ((j, w) ∷ m) h = elim (Bool-cases (k == j)) [
  | inl e ↦
      let keys : k ≡ j = (eq_iff k j).0 e in
      let values : v ≡ w = ground arith in Memᴰ.head (cc (keys, values))
  | inr n ↦ Memᴰ.tail (get-mem k v m (rw n at h))
]

-- A valid bundle of the tenant and the scope.
pub record IsOf (tenant_id scope_id : String) (b : EvidenceBundle) : Type 0 where
  pub valid : validate_bundle b ≡ ok tt
  pub tenant : b.tenant_id ≡ tenant_id
  pub scope : b.scope_id ≡ scope_id

module _ (ext : External) where
  add_observation-IsPool :
      (From : EvidenceObservation → Type 0) (pool pool' : Pool) (o : EvidenceObservation)
      → From o
      → IsPool ext From pool
      → add_observation ext pool o ≡ ok pool'
      → IsPool ext From pool' × IsHeld ext pool' o
  unfolding add_observation
  add_observation-IsPool From pool pool' o f p h =
      let (sha, digested, h1) = >>=-eq-ok (digest ext (observation o)) _ h in
      elim (Option-cases (get o.external_id pool)) [
        | inl absent ↦
            let whole : pool' ≡ insert o.external_id (sha, o) pool = ground arith in
            rw whole (
              record {
                ascending = KeysAscend-insert o.external_id (sha, o) pool p.ascending;
                entries =
                    All-insert ext From o.external_id (sha, o) pool (refl, digested, f) p.entries;
              },
              record {
                sha = sha;
                held = o;
                found =
                    get-insert o.external_id o.external_id (sha, o) pool
                    ∙ reflexive_if o.external_id (some (sha, o)) (get o.external_id pool);
                digested = digested;
              },
            )
        | inr ((sha', held), present) ↦
            let whole : pool' ≡ pool = ground arith in
            let agree : sha' ≡ sha = (eq_iff sha' sha).0 (ground arith) in
            rw whole
              (p, record { sha = sha'; held = held; found = present; digested = rw agree digested })
      ]

  differ :
      (pool : Pool) (k j : String) (v : String × EvidenceObservation)
      → get k pool ≡ some v
      → get j pool ≡ none
      → (k == j) ≡ false
  differ pool k j v present absent = elim (Bool-cases (k == j)) [
    | inl e ↦
        let same : k ≡ j = (eq_iff k j).0 e in
        absurd (let found = rw same at present in ground arith)
    | inr n ↦ n
  ]

  -- What the pool holds, it keeps.
  add_observation-keeps :
      (pool pool' : Pool) (o x : EvidenceObservation)
      → IsHeld ext pool x
      → add_observation ext pool o ≡ ok pool'
      → IsHeld ext pool' x
  unfolding add_observation
  add_observation-keeps pool pool' o x p h =
      let (sha, digested, h1) = >>=-eq-ok (digest ext (observation o)) _ h in
      elim (Option-cases (get o.external_id pool)) [
        | inl absent ↦
            let whole : pool' ≡ insert o.external_id (sha, o) pool = ground arith in
            let other : (x.external_id == o.external_id) ≡ false =
              differ pool x.external_id o.external_id (p.sha, p.held) p.found absent in
            let lookup = get-insert o.external_id x.external_id (sha, o) pool in
            rw whole (record {
              sha = p.sha;
              held = p.held;
              found = rw lookup (rw other p.found);
              digested = p.digested;
            })
        | inr (v, present) ↦ let whole : pool' ≡ pool = ground arith in rw whole p
      ]

  -- What a loop over observations leaves.
  record Leaves (From : EvidenceObservation → Type 0) (os : List EvidenceObservation)
      (pool pool' : Pool) : Type 0 where
    is_pool : IsPool ext From pool'
    holds : All (IsHeld ext pool') os
    keeps : (x : EvidenceObservation) → IsHeld ext pool x → IsHeld ext pool' x

  add_observations-Leaves :
      (From : EvidenceObservation → Type 0) (pool pool' : Pool) (os : List EvidenceObservation)
      → All From os
      → IsPool ext From pool
      → for_state (add_observation ext) pool os ≡ ok pool'
      → Leaves From os pool pool'
  add_observations-Leaves From pool pool' [] f p h =
      let whole : pool' ≡ pool = ground arith in
      record { is_pool = rw whole p; holds = tt; keeps = λ x k. rw whole k }
  add_observations-Leaves From pool pool' (o ∷ os) (f, fs) p h =
      let (next, first, h1) = >>=-eq-ok (add_observation ext pool o) _ h in
      let (p1, held) = add_observation-IsPool From pool next o f p first in
      let rest = add_observations-Leaves From next pool' os fs p1 h1 in
      record {
        is_pool = rest.is_pool;
        holds = (rest.keeps o held, rest.holds);
        keeps = λ x k. rest.keeps x (add_observation-keeps pool next o x k first);
      }

  add_bundle-ok :
      (tenant_id scope_id : String) (pool pool' : Pool) (b : EvidenceBundle)
      → add_bundle ext tenant_id scope_id pool b ≡ ok pool'
      → IsOf tenant_id scope_id b × (for_state (add_observation ext) pool b.observations ≡ ok pool')
  unfolding add_bundle
  add_bundle-ok tenant_id scope_id pool pool' b h = (
    record {
      valid = ground arith;
      tenant = (eq_iff b.tenant_id tenant_id).0 (ground arith);
      scope = (eq_iff b.scope_id scope_id).0 (ground arith);
    },
    ground arith,
  )

  pub add_bundles-Leaves :
      (From : EvidenceObservation → Type 0) (tenant_id scope_id : String) (pool pool' : Pool)
      (bs : List EvidenceBundle)
      → All (λ b. All From b.observations) bs
      → IsPool ext From pool
      → for_state (add_bundle ext tenant_id scope_id) pool bs ≡ ok pool'
      → All (IsOf tenant_id scope_id) bs
        × IsPool ext From pool'
        × All (λ b. All (IsHeld ext pool') b.observations) bs
        × ((x : EvidenceObservation) → IsHeld ext pool x → IsHeld ext pool' x)
  add_bundles-Leaves From t s pool pool' [] f p h =
      let whole : pool' ≡ pool = ground arith in (tt, rw whole p, tt, λ x k. rw whole k)
  add_bundles-Leaves From t s pool pool' (b ∷ bs) (f, fs) p h =
      let (next, first, h1) = >>=-eq-ok (add_bundle ext t s pool b) _ h in
      let (of, loop) = add_bundle-ok t s pool next b first in
      let here = add_observations-Leaves From pool next b.observations f p loop in
      let (ofs, is_pool, holds, keeps) =
        add_bundles-Leaves From t s next pool' bs fs here.is_pool h1 in
      (
        (of, ofs),
        is_pool,
        (All-imp b.observations keeps here.holds, holds),
        λ x k. keeps x (here.keeps x k),
      )
