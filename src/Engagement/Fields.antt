-- ===== src/Engagement/Fields.antt =====
-- What the lookup tables and the events of an engagement hold once accepted (src/engagement.rs).
use canonical_company_audito.Prelude.{
  ℕ, ◌+◌, ◌≡◌, ◌≢◌, ◌⊎◌, inl, inr, refl, sym, ap, ◌∙◌, arith, String, ◌==◌, eq_iff, none, some,
  List, [], ◌∷◌, map, All, Memᴰ, Bool-cases, Option-cases, ltb, eqb_iff, is_some, length,
}
use canonical_company_audito.Outcome.{AuditError, ok, reject_if, >>-eq-ok}
use canonical_company_audito.Collections.{get, insert}
use canonical_company_audito.Collections.Maps.{get-insert}
use canonical_company_audito.Collections.Unique.{Distinct}
use canonical_company_audito.Engagement.{EngagementActor, EngagementEvent}
use canonical_company_audito.Engagement.Checks.{index_from, unique_by, require_actor}
use canonical_company_audito.Engagement.Validate.{Actors}
use canonical_company_audito.Engagement.Record.{validate_events_from}

module _ {ℓ} {T : Type ℓ} (key : T → String) where
  -- The table holds values of the list, each under its own key, and the keys of the list differ.
  pub record IsIndex (xs : List T) (m : List (String × T)) : Type ℓ where
    pub sound : (k : String) (x : T) → get k m ≡ some x → Memᴰ x xs × (key x ≡ k)
    pub distinct : Distinct (map key xs)

  record Grows (xs : List T) (m m' : List (String × T)) : Type ℓ where
    sound :
        (k : String) (x : T) → get k m' ≡ some x → (get k m ≡ some x) ⊎ (Memᴰ x xs × (key x ≡ k))
    distinct : Distinct (map key xs)
    fresh : All (λ x. get (key x) m ≡ none) xs

  fresh_tail :
      (k : String) (v : T) (m : List (String × T)) (xs : List T)
      → All (λ x. get (key x) (insert k v m) ≡ none) xs
      → All (λ x. get (key x) m ≡ none) xs × All (λ j. k ≢ j) (map key xs)
  fresh_tail k v m [] h = (tt, tt)
  fresh_tail k v m (x ∷ xs) (p, h) =
      let (later, apart) = fresh_tail k v m xs h in
      let law = get-insert k (key x) v m in
      ((ground arith, later), (λ e. ground (arith, (eq_iff (key x) k).1 (sym e)), apart))

  inserted :
      (k : String) (y : T) (m : List (String × T)) (x : T) (xs : List T)
      → get k (insert (key x) x m) ≡ some y
      → (get k m ≡ some y) ⊎ (Memᴰ y (x ∷ xs) × (key y ≡ k))
  inserted k y m x xs q =
      let law = get-insert (key x) k x m in
      elim (Bool-cases (k == key x)) [
        | inl e ↦
            let keys : k ≡ key x = (eq_iff k (key x)).0 e in
            let values : y ≡ x = ground arith in inr (Memᴰ.head values, ap key values ∙ sym keys)
        | inr n ↦ inl (ground arith)
      ]

  index_from-Grows :
      (repeated : AuditError) (m m' : List (String × T)) (xs : List T)
      → index_from key repeated m xs ≡ ok m'
      → Grows xs m m'
  unfolding index_from
  index_from-Grows repeated m m' [] h =
      let same : m' ≡ m = ground arith in
      record { sound = λ k x p. inl (rw same at p); distinct = tt; fresh = tt }
  index_from-Grows repeated m m' (x ∷ xs) h =
      let (new, h1) = >>-eq-ok (reject_if (is_some (get (key x) m)) repeated) _ h in
      let absent : get (key x) m ≡ none = ground arith in
      let g = index_from-Grows repeated (insert (key x) x m) m' xs h1 in
      let (later, apart) = fresh_tail (key x) x m xs g.fresh in
      record {
        sound = λ k y p. elim (g.sound k y p) [
          | inl q ↦ inserted k y m x xs q
          | inr (mem, e) ↦ inr (Memᴰ.tail mem, e)
        ];
        distinct = (apart, g.distinct);
        fresh = (absent, later);
      }

  nothing : (k : String) (x : T) → ¬ (get k [] ≡ some x)
  unfolding get
  nothing k x q = ground arith

  pub unique_by-IsIndex :
      (field : String) (xs : List T) (maximum : ℕ) (m : List (String × T))
      → unique_by key field xs maximum ≡ ok m
      → IsIndex xs m
  unfolding unique_by
  unique_by-IsIndex field xs maximum m h =
      let (_, h1) = >>-eq-ok (reject_if (ltb maximum (length xs)) _) _ h in
      let g = index_from-Grows _ [] m xs h1 in
      record {
        sound =
            λ k x p. elim (g.sound k x p) [ inl q ↦ absurd (nothing k x q) | inr found ↦ found ];
        distinct = g.distinct;
      }

pub require_actor-known :
    (actors : Actors) (actor_id field : String)
    → require_actor actors actor_id field ≡ ok tt
    → (a : EngagementActor) × (get actor_id actors ≡ some a)
unfolding require_actor
require_actor-known actors actor_id field h = elim (Option-cases (get actor_id actors)) [
  | inl n ↦ absurd (ground arith)
  | inr found ↦ found
]

-- The numbers from `n` on, as many as the list is long.
abbrev pub count_from {ℓ} : {A : Type ℓ} → ℕ → List A → List ℕ
count_from n [] = []
count_from n (x ∷ xs) = n ∷ count_from (n + 1) xs

pub validate_events_from-sequence :
    (actors : Actors) (n : ℕ) (events : List EngagementEvent)
    → validate_events_from actors n events ≡ ok tt
    → (map (λ e. e.sequence) events ≡ count_from n events)
      × All (λ e. (a : EngagementActor) × (get e.actor_id actors ≡ some a)) events
unfolding validate_events_from
validate_events_from-sequence actors n [] h = (refl, tt)
validate_events_from-sequence actors n (e ∷ es) h =
    let at_n : e.sequence ≡ n = (eqb_iff e.sequence n).0 (ground arith) in
    let known = require_actor-known actors e.actor_id "event actor" (ground arith) in
    let (later, all_known) = validate_events_from-sequence actors (n + 1) es (ground arith) in
    (cc, (known, all_known))
