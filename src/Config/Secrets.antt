-- ===== src/Config/Secrets.antt =====
-- src/audit_config.rs: redaction replaces exactly the secret references of a configuration.
use canonical_company_audito.Prelude.{
  ◌≡◌, refl, sym, ap, ◌∙◌, String, false, ◌==◌, eq_iff, Bool-cases, inl, inr, if◌then◌else◌, List,
  [], ◌∷◌, ◌++◌, Pairwise, map, flat_map, arith,
}
use canonical_company_audito.Json.{
  Value, null, bool, number, string, array, object, Items, nil, cons, Fields, end, field, items,
}
use canonical_company_audito.Config.Redact.{
  redact_text, redact_strings, redact_items, redact_fields, update_fields, update, each_item, each,
  redact_reference, redact_service, redact,
}
use canonical_company_audito.Config.Redacted.{IsRedactionOf, redact_text-IsRedactionOf}

-- The texts of a value, in order.
mutual
  pub texts_of : Value → List String
  texts_of (string s) = s ∷ []
  texts_of (array vs) = texts_of_items vs
  texts_of (object fs) = texts_of_fields fs
  texts_of null = []
  texts_of (bool b) = []
  texts_of (number n) = []

  pub texts_of_items : Items → List String
  texts_of_items nil = []
  texts_of_items (cons v vs) = texts_of v ++ texts_of_items vs

  pub texts_of_fields : Fields → List String
  texts_of_fields end = []
  texts_of_fields (field k v fs) = texts_of v ++ texts_of_fields fs

-- The value of a key, where there is one.
abbrev pub first_field : String → Fields → List Value
first_field key end = []
first_field key (field k v fs) = if k == key then v ∷ [] else first_field key fs

abbrev pub field_of : String → Value → List Value
field_of key (object fs) = first_field key fs
field_of key _ = []

abbrev pub items_of : Value → List Value
items_of (array vs) = items vs
items_of _ = []

abbrev pub reference_texts : Value → List String
reference_texts (string s) = s ∷ []
reference_texts _ = []

abbrev pub service_texts : Value → List String
service_texts s = flat_map reference_texts (flat_map items_of (field_of "auth_refs" s))

-- The secret references of a serialised configuration: those of its sources and of its services.
abbrev pub secret_texts : Value → List String
secret_texts v =
    flat_map texts_of (field_of "secret_sources" v)
    ++ flat_map service_texts (flat_map items_of (field_of "services" v))

module _ (key : String) (f : Value → Value) where
  first_field_updated :
      (fs : Fields) → first_field key (update_fields key f fs) ≡ map f (first_field key fs)
  unfolding update_fields
  first_field_updated end = refl
  first_field_updated (field k v fs) = elim (Bool-cases (k == key)) [
    | inl e ↦ rw e (rw e refl)
    | inr n ↦ rw n (rw n (first_field_updated fs))
  ]

  first_field_other :
      (other : String) (fs : Fields)
      → (key == other) ≡ false
      → first_field other (update_fields key f fs) ≡ first_field other fs
  unfolding update_fields
  first_field_other other end h = refl
  first_field_other other (field k v fs) h = elim (Bool-cases (k == key)) [
    | inl e ↦
        let apart : (k == other) ≡ false = ground (arith, (eq_iff k key).0 e, h) in
        rw (e, apart) refl
    | inr n ↦ elim (Bool-cases (k == other)) [
      | inl here ↦ rw (n, here) refl
      | inr gone ↦ rw (n, gone) (first_field_other other fs h)
    ]
  ]

  field_of_updated : (v : Value) → field_of key (update key f v) ≡ map f (field_of key v)
  unfolding update_fields
  field_of_updated (object fs) = first_field_updated fs
  field_of_updated null = refl
  field_of_updated (bool b) = refl
  field_of_updated (number n) = refl
  field_of_updated (string s) = refl
  field_of_updated (array vs) = refl

  field_of_other :
      (other : String) (v : Value)
      → (key == other) ≡ false
      → field_of other (update key f v) ≡ field_of other v
  unfolding update_fields
  field_of_other other (object fs) h = first_field_other other fs h
  field_of_other other null h = refl
  field_of_other other (bool b) h = refl
  field_of_other other (number n) h = refl
  field_of_other other (string s) h = refl
  field_of_other other (array vs) h = refl

map-append {ℓ κ} :
    {A : Type ℓ} {B : Type κ} (f : A → B) (xs ys : List A) → map f (xs ++ ys) ≡ map f xs ++ map f ys
map-append f [] ys = refl
map-append f (x ∷ xs) ys = ap (◌∷◌ (f x)) (map-append f xs ys)

-- What every element does, the list does.
module _ {ℓ κ} {A : Type ℓ} {B : Type κ} (f : A → A) (texts : A → List B) (g : B → B)
    (each_one : (x : A) → texts (f x) ≡ map g (texts x)) where
  flat_map_commutes : (xs : List A) → flat_map texts (map f xs) ≡ map g (flat_map texts xs)
  flat_map_commutes [] = refl
  flat_map_commutes (x ∷ xs) =
      rw (each_one x, flat_map_commutes xs) (sym (map-append g (texts x) (flat_map texts xs)))

items-each_item : (f : Value → Value) (vs : Items) → items (each_item f vs) ≡ map f (items vs)
unfolding each_item
items-each_item f nil = refl
items-each_item f (cons v vs) = ap (◌∷◌ (f v)) (items-each_item f vs)

items_of-each : (f : Value → Value) (v : Value) → items_of (each f v) ≡ map f (items_of v)
items_of-each f (array vs) = items-each_item f vs
items_of-each f null = refl
items_of-each f (bool b) = refl
items_of-each f (number n) = refl
items_of-each f (string s) = refl
items_of-each f (object fs) = refl

mutual
  unfolding redact_strings texts_of

  texts_redacted : (v : Value) → texts_of (redact_strings v) ≡ map redact_text (texts_of v)
  texts_redacted (string s) = refl
  texts_redacted (array vs) = items_redacted vs
  texts_redacted (object fs) = fields_redacted fs
  texts_redacted null = refl
  texts_redacted (bool b) = refl
  texts_redacted (number n) = refl

  items_redacted :
      (vs : Items) → texts_of_items (redact_items vs) ≡ map redact_text (texts_of_items vs)
  items_redacted nil = refl
  items_redacted (cons v vs) =
      rw (texts_redacted v, items_redacted vs)
        (sym (map-append redact_text (texts_of v) (texts_of_items vs)))

  fields_redacted :
      (fs : Fields) → texts_of_fields (redact_fields fs) ≡ map redact_text (texts_of_fields fs)
  fields_redacted end = refl
  fields_redacted (field k v fs) =
      rw (texts_redacted v, fields_redacted fs)
        (sym (map-append redact_text (texts_of v) (texts_of_fields fs)))

reference_redacted :
    (v : Value) → reference_texts (redact_reference v) ≡ map redact_text (reference_texts v)
reference_redacted (string s) = refl
reference_redacted null = refl
reference_redacted (bool b) = refl
reference_redacted (number n) = refl
reference_redacted (array vs) = refl
reference_redacted (object fs) = refl

service_redacted :
    (s : Value) → service_texts (redact_service s) ≡ map redact_text (service_texts s)
unfolding redact_service
service_redacted s =
    let refs = field_of "auth_refs" s in
    ap (λ vs. flat_map reference_texts (flat_map items_of vs))
      (field_of_updated "auth_refs" (each redact_reference) s)
    ∙ (ap (flat_map reference_texts) (
          flat_map_commutes (each redact_reference) items_of redact_reference
            (items_of-each redact_reference) refs)
        ∙ flat_map_commutes redact_reference reference_texts redact_text reference_redacted
            (flat_map items_of refs))

ap2 : {a b c d : List String} → a ≡ b → c ≡ d → a ++ c ≡ b ++ d
ap2 p q = cc

Pairwise-redacted : (ss : List String) → Pairwise IsRedactionOf ss (map redact_text ss)
Pairwise-redacted [] = tt
Pairwise-redacted (s ∷ ss) = (redact_text-IsRedactionOf s, Pairwise-redacted ss)

-- Redaction replaces each secret reference of a serialised configuration, of its sources and of its
-- services, in order: by what stands in front of its first colon and a marker, and where it has no
-- colon by a text that holds nothing of it.
pub secret_texts-redact :
    (v : Value) → Pairwise IsRedactionOf (secret_texts v) (secret_texts (redact v))
unfolding redact
secret_texts-redact v =
    let inner = update "services" (each redact_service) v in
    let sources =
      ap (flat_map texts_of) (
        field_of_updated "secret_sources" redact_strings inner
        ∙ ap (map redact_strings)
            (field_of_other "services" (each redact_service) "secret_sources" v refl))
      ∙ flat_map_commutes redact_strings texts_of redact_text texts_redacted
          (field_of "secret_sources" v) in
    let services =
      ap (λ vs. flat_map service_texts (flat_map items_of vs))
        (field_of_other "secret_sources" redact_strings "services" inner refl
          ∙ field_of_updated "services" (each redact_service) v)
      ∙ (ap (flat_map service_texts) (
            flat_map_commutes (each redact_service) items_of redact_service
              (items_of-each redact_service) (field_of "services" v))
          ∙ flat_map_commutes redact_service service_texts redact_text service_redacted
              (flat_map items_of (field_of "services" v))) in
    let same : secret_texts (redact v) ≡ map redact_text (secret_texts v) =
      ap2 sources services ∙ sym (map-append redact_text _ _) in
    rw same (Pairwise-redacted (secret_texts v))
