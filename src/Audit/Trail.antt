-- ===== src/Audit/Trail.antt =====
-- The hash-chained trail of the engagement's events (src/audit.rs).
use canonical_company_audito.Prelude.{
  ℕ, suc, ◌≡◌, ◌↔◌, refl, sym, ap, ◌∙◌, String, Option, none, some, List, [], ◌∷◌, map, arith, Memᴰ,
  length, ◌++◌, ◌≤◌, ◌≢◌, ◌⊎◌, inl, inr, some_inj, leb, Bool-cases,
}
use canonical_company_audito.Outcome.{ok, >>=-eq-ok}
use canonical_company_audito.Engagement.{EngagementEvent}
use canonical_company_audito.Dossier.{AuditTrailEntry}
use canonical_company_audito.External.{External, Document, trail_entry}
use canonical_company_audito.Evidence.{digest}
use canonical_company_audito.Audit.{trail_from, build_audit_trail}

abbrev pub trail_tag : String
trail_tag = "canonical.audit-trail-entry/v1"

eq_or_lt : (m n : ℕ) → m ≤ suc n → (m ≡ suc n) ⊎ (m ≤ n)
eq_or_lt m n h = elim (Bool-cases (leb m n)) [
  | inl e ↦ inr (ground (arith, e))
  | inr e ↦ inl (ground (arith, e))
]

le_total : (m n : ℕ) → (m ≤ n) ⊎ (n ≤ m)
le_total m n = elim (Bool-cases (leb m n)) [
  | inl e ↦ inl (ground (arith, e))
  | inr e ↦ inr (ground (arith, e))
]

module _ (ext : External) where
  -- Each entry names the hash of the one before it, and its own hash is the digest of that name and of
  -- its event.
  abbrev pub IsLinked : Option String → List AuditTrailEntry → Type 0
  IsLinked previous [] = Unit
  IsLinked previous (x ∷ xs) =
      (x.previous_entry_sha256 ≡ previous)
      × (digest ext (trail_entry trail_tag previous x.event) ≡ ok x.entry_sha256)
      × IsLinked (some x.entry_sha256) xs

  trail_from-IsLinked :
      (previous : Option String) (events : List EngagementEvent) (xs : List AuditTrailEntry)
      → trail_from ext previous events ≡ ok xs
      → (map (λ x. x.event) xs ≡ events) × IsLinked previous xs
  unfolding trail_from
  trail_from-IsLinked previous [] xs h = let gone : xs ≡ [] = ground arith in rw gone (refl, tt)
  trail_from-IsLinked previous (event ∷ events) xs h =
      let (sha, hashed, h1) = >>=-eq-ok (digest ext (trail_entry trail_tag previous event)) _ h in
      let (rest, later, h2) = >>=-eq-ok (trail_from ext (some sha) events) _ h1 in
      let (same, links) = trail_from-IsLinked (some sha) events rest later in
      let whole : xs ≡ (
          record { event = event; previous_entry_sha256 = previous; entry_sha256 = sha } ∷ rest) =
        ground arith in
      rw whole (ap (◌∷◌ event) same, (refl, hashed, links))

  trail_from_of_IsLinked :
      (previous : Option String) (xs : List AuditTrailEntry)
      → IsLinked previous xs
      → trail_from ext previous (map (λ x. x.event) xs) ≡ ok xs
  unfolding trail_from
  trail_from_of_IsLinked previous [] l = refl
  trail_from_of_IsLinked previous (x ∷ xs) (p, d, l) =
      rw d (rw (trail_from_of_IsLinked (some x.entry_sha256) xs l) (rw (← p) refl))

  -- A trail is built from the events exactly when it lists them in order, each entry linked to the
  -- one before it and the first to none.
  pub build_audit_trail-IsLinked :
      (events : List EngagementEvent) (xs : List AuditTrailEntry)
      → (build_audit_trail ext events ≡ ok xs)
        ↔ ((map (λ x. x.event) xs ≡ events) × IsLinked none xs)
  unfolding build_audit_trail
  build_audit_trail-IsLinked events xs = (
    λ h. trail_from-IsLinked none events xs h,
    λ (same, l). rw (← same) (trail_from_of_IsLinked none xs l),
  )

  -- The hash that a trail ends with.
  abbrev pub last_hash : Option String → List AuditTrailEntry → Option String
  last_hash previous [] = previous
  last_hash previous (x ∷ xs) = last_hash (some x.entry_sha256) xs

  -- What the hash of an entry is the digest of.
  abbrev pub content : AuditTrailEntry → Document
  content x = trail_entry trail_tag x.previous_entry_sha256 x.event

  -- Among the contents of the entries of the two trails, equal digests come from equal contents.
  abbrev pub CollisionFree : List AuditTrailEntry → List AuditTrailEntry → Type 0
  CollisionFree xs ys =
      (x y : AuditTrailEntry)
      → Memᴰ x xs
      → Memᴰ y ys
      → digest ext (content x) ≡ digest ext (content y)
      → content x ≡ content y

  linked_unique :
      (p q : Option String) (xs ys : List AuditTrailEntry)
      → IsLinked p xs
      → IsLinked q ys
      → CollisionFree xs ys
      → length xs ≡ length ys
      → last_hash p xs ≡ last_hash q ys
      → (p ≡ q) × (xs ≡ ys)
  linked_unique p q [] [] l k free n h = (h, refl)
  linked_unique p q [] (y ∷ ys) l k free n h = absurd (omega arith)
  linked_unique p q (x ∷ xs) [] l k free n h = absurd (omega arith)
  linked_unique p q (x ∷ xs) (y ∷ ys) (lp, ld, l) (kp, kd, k) free n h =
      let (hashes, tails) =
        linked_unique (some x.entry_sha256) (some y.entry_sha256) xs ys l k
          (λ a b m1 m2. free a b (Memᴰ.tail m1) (Memᴰ.tail m2)) (omega arith) h in
      let hash : x.entry_sha256 ≡ y.entry_sha256 = some_inj hashes in
      let digests : digest ext (content x) ≡ digest ext (content y) =
        ap (λ p. digest ext (trail_entry trail_tag p x.event)) lp
        ∙ ld
        ∙ ap ok hash
        ∙ sym kd
        ∙ sym (ap (λ p. digest ext (trail_entry trail_tag p y.event)) kp) in
      let same = free x y (Memᴰ.head refl) (Memᴰ.head refl) digests in
      let previous : x.previous_entry_sha256 ≡ y.previous_entry_sha256 = cc same in
      let event : x.event ≡ y.event = cc same in
      let heads : x ≡ y = cc in (sym lp ∙ previous ∙ kp, cc)

  -- The shorter of two trails that end with the same hash is the end of the longer one.
  linked_suffix :
      (p q : Option String) (xs ys : List AuditTrailEntry)
      → IsLinked p xs
      → IsLinked q ys
      → CollisionFree xs ys
      → length xs ≤ length ys
      → last_hash p xs ≡ last_hash q ys
      → (zs : List AuditTrailEntry) × (p ≡ last_hash q zs) × (ys ≡ zs ++ xs)
  linked_suffix p q xs [] l k free n h =
      let (start, same) = linked_unique p q xs [] l k free (omega arith) h in ([], start, sym same)
  linked_suffix p q xs (y ∷ ys) l (kp, kd, k) free n h = elim (eq_or_lt (length xs) (length ys) n) [
    | inl e ↦
        let (start, same) = linked_unique p q xs (y ∷ ys) l (kp, kd, k) free e h in
        ([], start, sym same)
    | inr few ↦
        let (zs, start, whole) =
          linked_suffix p (some y.entry_sha256) xs ys l k (λ a b m1 m2. free a b m1 (Memᴰ.tail m2))
            few h in
        (y ∷ zs, start, ap (◌∷◌ y) whole)
  ]

  last_hash-some : (hash : String) (xs : List AuditTrailEntry) → none ≢ last_hash (some hash) xs
  last_hash-some hash [] h = cc
  last_hash-some hash (x ∷ xs) h = last_hash-some x.entry_sha256 xs h

  last_hash-eq-none : (xs : List AuditTrailEntry) → last_hash none xs ≡ none → xs ≡ []
  last_hash-eq-none [] h = refl
  last_hash-eq-none (x ∷ xs) h = absurd (last_hash-some x.entry_sha256 xs (sym h))

  linked_whole :
      (xs ys : List AuditTrailEntry)
      → IsLinked none xs
      → IsLinked none ys
      → CollisionFree xs ys
      → length xs ≤ length ys
      → last_hash none xs ≡ last_hash none ys
      → xs ≡ ys
  linked_whole xs ys l k free n h =
      let (zs, start, whole) = linked_suffix none none xs ys l k free n h in
      let gone : zs ≡ [] = last_hash-eq-none zs (sym start) in rw gone at (sym whole)

  -- The last hash commits to the trail: two trails that end with the same hash, or are both empty,
  -- list the same events, where equal digests of the contents of their entries, each with the hash of
  -- the entry before it, come from equal contents.
  pub build_audit_trail_unique :
      (es fs : List EngagementEvent) (xs ys : List AuditTrailEntry)
      → build_audit_trail ext es ≡ ok xs
      → build_audit_trail ext fs ≡ ok ys
      → CollisionFree xs ys
      → last_hash none xs ≡ last_hash none ys
      → es ≡ fs
  build_audit_trail_unique es fs xs ys h k free last =
      let (events, links) = (build_audit_trail-IsLinked es xs).0 h in
      let (events', links') = (build_audit_trail-IsLinked fs ys).0 k in
      let same : xs ≡ ys = elim (le_total (length xs) (length ys)) [
        | inl n ↦ linked_whole xs ys links links' free n last
        | inr n ↦ sym (
            linked_whole ys xs links' links (λ y x m1 m2 e. sym (free x y m2 m1 (sym e))) n
              (sym last))
      ] in
      sym events ∙ ap (map (λ x. x.event)) same ∙ events'
