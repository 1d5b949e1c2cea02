-- ===== src/Config/Redact.antt =====
-- src/audit_config.rs: the JSON projection with the targets of the secret references removed.
use Prim.Native.String.{◌++◌}
use canonical_company_audito.Prelude.{String, Option, none, some, ◌==◌, if◌then◌else◌}
use canonical_company_audito.Text.{split_once}
use canonical_company_audito.Json.{
  Value, string, array, object, Items, nil, cons, Fields, end, field,
}
use canonical_company_audito.Outcome.{Result, ok, json, ok_or, ◌>>=◌}
use canonical_company_audito.Config.{CanonicalAuditConfig}
use canonical_company_audito.External.{External, config}

-- `text.split_once(':').map_or("secret", |(prefix, _)| prefix)`
abbrev pub scheme_or_secret : Option (String × String) → String
scheme_or_secret none = "secret"
scheme_or_secret (some (prefix, _)) = prefix

unfoldable pub redact_text : String → String
redact_text s = scheme_or_secret (split_once b':' s) ++ ":<redacted>"

unfoldable mutual
  unfolding redact_text

  pub redact_strings : Value → Value
  redact_strings (string s) = string (redact_text s)
  redact_strings (array vs) = array (redact_items vs)
  redact_strings (object fs) = object (redact_fields fs)
  redact_strings scalar = scalar

  pub redact_items : Items → Items
  redact_items nil = nil
  redact_items (cons v vs) = cons (redact_strings v) (redact_items vs)

  pub redact_fields : Fields → Fields
  redact_fields end = end
  redact_fields (field k v fs) = field k (redact_strings v) (redact_fields fs)

-- `if let Some(value) = value.get_mut(key) { .. }`
unfoldable pub update_fields : String → (Value → Value) → Fields → Fields
update_fields key f end = end
update_fields key f (field k v fs) =
    let rest = update_fields key f fs in if k == key then field k (f v) fs else field k v rest

abbrev pub update : String → (Value → Value) → Value → Value
update key f (object fs) = object (update_fields key f fs)
update key f v = v

-- `if let Some(values) = value.as_array_mut() { for item in values { .. } }`
unfoldable pub each_item : (Value → Value) → Items → Items
each_item f nil = nil
each_item f (cons v vs) = cons (f v) (each_item f vs)

abbrev pub each : (Value → Value) → Value → Value
each f (array vs) = array (each_item f vs)
each f v = v

-- `if let Some(text) = reference.as_str() { .. }`
abbrev pub redact_reference : Value → Value
redact_reference (string s) = string (redact_text s)
redact_reference v = v

unfoldable pub redact_service : Value → Value
unfolding update_fields each_item redact_text
redact_service v = update "auth_refs" (each redact_reference) v

-- The two steps of `redacted_json` on the serialised configuration.
unfoldable pub redact : Value → Value
unfolding redact_service update_fields each_item redact_strings
redact v = update "secret_sources" redact_strings (update "services" (each redact_service) v)

module _ (ext : External) where
  unfoldable pub redacted_json : CanonicalAuditConfig → Result Value
  unfolding redact
  redacted_json c = ok_or (ext.to_value (config c)) json >>= λ v. ok (redact v)

  unfoldable pub redacted_digest : CanonicalAuditConfig → Result String
  unfolding redacted_json
  redacted_digest c = do
    v ← redacted_json c
    content ← ok_or (ext.to_vec v) json
    ok (ext.sha256_hex content)
