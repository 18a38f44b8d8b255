-- ===== src/Witnesses/Configurations.antt =====
-- Configurations at concrete inputs.
use lumic.Prelude.{String, true, false, inl, inr, ◌≡◌, refl, ◌↔◌, none, some, [], ◌∷◌}
use lumic.Error.{ok}
use lumic.Json.{Sample, text, amount, sample_json, sample_values}
use lumic.Resource.{Entries}
use lumic.Configuration.{
  ConfigurationSchema, ConfigurationField, ConfigurationFieldType, port, secret, ApplyBehavior,
  restart, reload, get, resolve, apply_behavior, redacted,
}
use lumic.Configuration.Resolve.{IsResolvable, resolve_iff}
use lumic.Configuration.Resubmit.{resolve_again}
use lumic.Configuration.Redact.{Shows, redacted-agree}
use lumic.Configuration.Apply.{IsStrongest, apply_behavior-IsStrongest}

abbrev port_field : ConfigurationField Sample
port_field = record {
  key = "port";
  label = "Port";
  description = "";
  field_type = port;
  required = false;
  default = some (amount 6379);
  values = [];
  minimum = none;
  maximum = none;
  advanced = false;
  sensitive = false;
  apply = restart;
  target = none;
}

abbrev api_key_field : ConfigurationField Sample
api_key_field = record {
  key = "api_key";
  label = "API key";
  description = "";
  field_type = secret;
  required = false;
  default = none;
  values = [];
  minimum = none;
  maximum = none;
  advanced = false;
  sensitive = true;
  apply = reload;
  target = none;
}

abbrev search_schema : ConfigurationSchema Sample
search_schema = port_field ∷ api_key_field ∷ []

abbrev with_key : String → Entries Sample
with_key k = ("api_key", text k) ∷ []

abbrev resolved_search : Entries Sample
resolved_search = ("api_key", text "secret://a") ∷ ("port", amount 6379) ∷ []

resolving : resolve search_schema (with_key "secret://a") ≡ ok resolved_search
unfolding resolve lumic.Configuration.validate_schema lumic.Configuration.validate_fields
    lumic.Configuration.validate_definition lumic.Configuration.validate_catalog_key
    lumic.Configuration.validate_value lumic.Configuration.matches
    lumic.Configuration.resolve_fields lumic.Configuration.resolve_field get
    lumic.Configuration.insert
resolving = refl

resolve_iff_example :
    ((out : Entries Sample) × (resolve search_schema (with_key "secret://a") ≡ ok out))
    ↔ IsResolvable search_schema (with_key "secret://a")
resolve_iff_example = resolve_iff search_schema (with_key "secret://a")

resolve_again_example : resolve search_schema resolved_search ≡ ok resolved_search
resolve_again_example =
    resolve_again search_schema (with_key "secret://a") resolved_search resolving

redacted-agree_example :
    (redacted search_schema (with_key "secret://a")
      ≡ redacted search_schema (with_key "secret://b"))
    × Shows search_schema (with_key "secret://a") (redacted search_schema (with_key "secret://a"))
redacted-agree_example =
    redacted-agree search_schema (with_key "secret://a") (with_key "secret://b")
      (refl, λ h. absurd (h (api_key_field, inr (inl refl), refl, refl)), tt)

apply_behavior-IsStrongest_example :
    IsStrongest search_schema
      (with_key "secret://a")
      (with_key "secret://b")
      (apply_behavior search_schema (with_key "secret://a") (with_key "secret://b"))
apply_behavior-IsStrongest_example =
    apply_behavior-IsStrongest search_schema (with_key "secret://a") (with_key "secret://b")
