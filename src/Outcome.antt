-- ===== src/Outcome.antt =====
-- src/lib.rs: the errors of the crate, `Result` with `?` as the bind of a `do` block, and the loops
-- over fallible bodies that the validators are written with.
use canonical_company_audito.Prelude.{
  ◌≡◌, refl, ◌↔◌, ◌⊎◌, inl, inr, String, Bool, true, false, Option, none, some, List, [], ◌∷◌, All,
  not, ◌||◌, ◌==◌, eq_iff, or-eq-false, not-eq-false, ap, map, Pairwise,
}

-- The payloads of `Json`, `Toml` and `Io` are errors of other libraries and are left out.
pub data AuditError : Type 0 where
  invalid : String → String → AuditError
  unsupported_version : String → AuditError
  integrity : AuditError
  scope_denied : AuditError
  unknown_catalog_item : String → AuditError
  json : AuditError
  toml : AuditError
  io : AuditError
  server_policy : String → AuditError

pub data Result {ℓ} (T : Type ℓ) : Type ℓ where
  ok : (value : T) → Result T
  err : (error : AuditError) → Result T

-- `if condition { return Err(error); }`
abbrev pub reject_if : Bool → AuditError → Result (Unit {0})
reject_if condition error = elim condition [ true ↦ err error | false ↦ ok tt ]

-- `option.ok_or(error)?`
abbrev pub ok_or {ℓ} : {A : Type ℓ} → Option A → AuditError → Result A
ok_or none e = err e
ok_or (some a) e = ok a

-- `?`: the error returns early
infixl 5 ◌>>=◌
abbrev pub ◌>>=◌ {ℓ κ} : {T : Type ℓ} {U : Type κ} → Result T → (T → Result U) → Result U
err error >>= rest = err error
ok value >>= rest = rest value

-- `step?;`
infixl 5 ◌>>◌
abbrev pub ◌>>◌ {ℓ} : {U : Type ℓ} → Result (Unit {0}) → Result U → Result U
step >> rest = step >>= λ _. rest

pub Result-cases {ℓ} :
    {A : Type ℓ} (m : Result A) → ((a : A) × (m ≡ ok a)) ⊎ ((e : AuditError) × (m ≡ err e))
Result-cases (ok a) = inl (a, refl)
Result-cases (err e) = inr (e, refl)

-- A result is one value.
pub ok_unique {ℓ} : {A : Type ℓ} (m : Result A) (a b : A) → m ≡ ok a → m ≡ ok b → a ≡ b
ok_unique m a b p q = cc

pub ok_inj {ℓ} : {A : Type ℓ} {a b : A} → ok a ≡ ok b → a ≡ b
ok_inj h = cc

pub ok_or-eq-ok {ℓ} :
    {A : Type ℓ} (o : Option A) (e : AuditError) {a : A} → ok_or o e ≡ ok a → o ≡ some a
ok_or-eq-ok none e h = cc
ok_or-eq-ok (some a) e h = cc

-- A bind succeeds when its step succeeds and the rest succeeds on the value.
module _ {ℓ κ} {T : Type ℓ} {U : Type κ} where
  pub >>=-eq-ok :
      (step : Result T) (rest : T → Result U) {u : U}
      → (step >>= rest) ≡ ok u
      → (t : T) × (step ≡ ok t) × (rest t ≡ ok u)
  >>=-eq-ok (err error) rest h = cc
  >>=-eq-ok (ok value) rest h = (value, refl, h)

-- A step without a result: both halves succeed.
pub >>-eq-ok {ℓ} :
    {B : Type ℓ} (m : Result (Unit {0})) (k : Result B) {b : B}
    → (m >> k) ≡ ok b
    → (m ≡ ok tt) × (k ≡ ok b)
>>-eq-ok (ok tt) k h = (refl, h)
>>-eq-ok (err e) k h = cc

pub reject_if-eq-ok : (b : Bool) (e : AuditError) → reject_if b e ≡ ok tt → b ≡ false
reject_if-eq-ok true e h = cc
reject_if-eq-ok false e h = refl

module _ {ℓ} {A : Type ℓ} where
  -- `for value in values { body(value)?; }`
  abbrev pub for_each : (A → Result (Unit {0})) → List A → Result (Unit {0})
  for_each body [] = ok tt
  for_each body (x ∷ xs) = do body x; for_each body xs

  pub for_each-eq-ok :
      (body : A → Result (Unit {0})) (xs : List A)
      → (for_each body xs ≡ ok tt) ↔ All (λ x. body x ≡ ok tt) xs
  for_each-eq-ok body [] = (λ _. tt, λ _. refl)
  for_each-eq-ok body (x ∷ xs) =
      let (to, from) = for_each-eq-ok body xs in
      (
        λ h. let (here, later) = >>-eq-ok (body x) (for_each body xs) h in (here, to later),
        λ (here, later). rw here (from later),
      )

module _ {ℓ κ} {A : Type ℓ} {B : Type κ} where
  -- `iter().map(f).collect::<Result<Vec<_>, _>>()`
  abbrev pub map_result : (A → Result B) → List A → Result (List B)
  map_result f [] = ok []
  map_result f (x ∷ xs) = do y ← f x; ys ← map_result f xs; ok (y ∷ ys)

module _ {ℓ κ} {A : Type ℓ} {S : Type κ} where
  -- `for value in values { state = body(state, value)?; }`
  abbrev pub for_state : (S → A → Result S) → S → List A → Result S
  for_state body s [] = ok s
  for_state body s (x ∷ xs) = do s' ← body s x; for_state body s' xs

-- `if digest(..)? != expected || other { return Err(error); }`, and what follows it
pub checked-eq-ok {ℓ} :
    {B : Type ℓ} (m : Result String) (x : String) (other : Bool) (e : AuditError) (k : Result B)
    {b : B}
    → (m >>= λ d. reject_if (not (d == x) || other) e >> k) ≡ ok b
    → (m ≡ ok x) × (other ≡ false) × (k ≡ ok b)
checked-eq-ok (ok d) x other e k h =
    let (test, rest) = >>-eq-ok (reject_if (not (d == x) || other) e) k h in
    let (differs, b) = or-eq-false (not (d == x)) other (reject_if-eq-ok _ _ test) in
    (ap ok ((eq_iff d x).0 (not-eq-false (d == x) differs)), b, rest)
checked-eq-ok (err e') x other e k h = cc

pub last_checked-eq-ok :
    (m : Result String) (x : String) (e : AuditError)
    → (m >>= λ d. reject_if (not (d == x)) e) ≡ ok tt
    → m ≡ ok x
last_checked-eq-ok (ok d) x e h =
    ap ok ((eq_iff d x).0 (not-eq-false (d == x) (reject_if-eq-ok _ _ h)))
last_checked-eq-ok (err e') x e h = cc

-- `?` on a computed result: its parts, where the result is named.
module _ {ℓ κ μ} {A : Type ℓ} {B : Type κ} {C : Type μ} (f : A → Result B) (g : B → C) (h : A → C)
    (each : (x : A) (y : B) → f x ≡ ok y → g y ≡ h x) where
  -- What one result keeps of its input, the list of results keeps of the list.
  pub map-map_result : (xs : List A) (ys : List B) → map_result f xs ≡ ok ys → map g ys ≡ map h xs
  map-map_result [] ys e = let none_left : ys ≡ [] = cc in rw none_left
  map-map_result (x ∷ xs) ys e =
      let (y, first, rest) = >>=-eq-ok (f x) (λ y. map_result f xs >>= λ zs. ok (y ∷ zs)) e in
      let (zs, later, whole) = >>=-eq-ok (map_result f xs) (λ zs. ok (y ∷ zs)) rest in
      let same : ys ≡ y ∷ zs = cc in rw same (cc (each x y first, map-map_result xs zs later))

module _ {ℓ κ} {A : Type ℓ} {B : Type κ} (f : A → Result B) (P : B → Type 0)
    (each : (x : A) (y : B) → f x ≡ ok y → P y) where
  -- What every single result has, all results have.
  pub All-map_result : (xs : List A) (ys : List B) → map_result f xs ≡ ok ys → All P ys
  All-map_result [] ys e = let none_left : ys ≡ [] = cc in rw none_left tt
  All-map_result (x ∷ xs) ys e =
      let (y, first, rest) = >>=-eq-ok (f x) (λ y. map_result f xs >>= λ zs. ok (y ∷ zs)) e in
      let (zs, later, whole) = >>=-eq-ok (map_result f xs) (λ zs. ok (y ∷ zs)) rest in
      let same : ys ≡ y ∷ zs = cc in rw same (each x y first, All-map_result xs zs later)

module _ {ℓ} {A : Type ℓ} {B : Type 0} (f : A → Result B) where
  -- The results stand in the order of the inputs.
  pub map_result-Pairwise :
      (xs : List A) (ys : List B) → map_result f xs ≡ ok ys → Pairwise (λ x y. f x ≡ ok y) xs ys
  map_result-Pairwise [] ys e = let none_left : ys ≡ [] = cc in rw none_left tt
  map_result-Pairwise (x ∷ xs) ys e =
      let (y, first, rest) = >>=-eq-ok (f x) (λ y. map_result f xs >>= λ zs. ok (y ∷ zs)) e in
      let (zs, later, whole) = >>=-eq-ok (map_result f xs) (λ zs. ok (y ∷ zs)) rest in
      let same : ys ≡ y ∷ zs = cc in rw same (first, map_result-Pairwise xs zs later)
