-- ===== src/Managed/Conversion.antt =====
-- crates/lumic-platform/src/framework_state.rs: the records of the framework state that the older
-- service state is kept as, and the way back.
use lumic.Prelude.{
  ℕ, ◌^◌, String, true, false, Option, none, some, [], ◌∷◌, ltb, string_eq, ◌<>◌, strip_prefix, ◌⊎◌,
  inl, inr, if◌then◌else◌,
}
use lumic.Error.{LumicError, Result, ok, err, invalid, ensure, ◌>>=◌, ◌>>◌}
use lumic.Resource.{
  service_resource, artifact, ResourceRef, ResourceRecord, ResourceOutput, Entries, new_ref,
}
use lumic.Configuration.{get}
use lumic.Managed.{Database, DatabaseUser, ServiceBackup}
use lumic.Managed.Wire.{Wire, Serde}

unfoldable pub narrow_timestamp : ℕ → Result ℕ
narrow_timestamp timestamp = do
  ensure (ltb timestamp (2 ^ 64)) (invalid "timestamp" "exceeds supported range")
  ok timestamp

-- `ok_or_else`
abbrev pub or_err : {A : Type 0} → LumicError → Option A → Result A
or_err error none = err error
or_err error (some a) = ok a

unfoldable pub prefixed_id : String → String → Result String
prefixed_id value prefix =
    or_err (invalid "resource.id" ("must start with '" <> (prefix <> "'")))
      (strip_prefix prefix value)

abbrev pub decoded : {T : Type 0} → String → String ⊎ T → Result T
decoded key (inl error) = err (invalid ("resource." <> key) ("has an invalid value: " <> error))
decoded key (inr t) = ok t

module _ {V : Type 0} ⦃wire : Wire V⦄ where
  abbrev pub string_value : String → V
  string_value s = wire.json.from_str s

  -- `map(Value::String).unwrap_or(Value::Null)`, and what `json!` gives of such an option
  abbrev pub optional_value : Option String → V
  optional_value none = wire.null
  optional_value (some s) = string_value s

  abbrev pub plain_output : V → ℕ → ResourceOutput V
  plain_output value updated = record {
    value = value;
    sensitive = false;
    updated_at_unix_ms = updated;
  }

  abbrev pub secret_output : String → ℕ → ResourceOutput V
  secret_output reference updated = record {
    value = string_value ("secret://" <> reference);
    sensitive = true;
    updated_at_unix_ms = updated;
  }

  abbrev pub text_of : Option V → Option String
  text_of none = none
  text_of (some value) = wire.json.as_str value

  unfoldable pub required_string : Entries V → String → Result String
  required_string attributes key =
      or_err (invalid ("resource." <> key) "must be a string") (text_of (get key attributes))

  abbrev pub null_or_text : String → V → Result (Option String)
  null_or_text key value =
      if wire.is_null value
      then ok none
      else (or_err (invalid ("resource." <> key) "must be a string or null")
            (wire.json.as_str value)
          >>= λ text. ok (some text))

  abbrev pub maybe_text : String → Option V → Result (Option String)
  maybe_text key none = ok none
  maybe_text key (some value) = null_or_text key value

  unfoldable pub optional_string : Entries V → String → Result (Option String)
  optional_string attributes key = maybe_text key (get key attributes)

  unfoldable pub deserialize_attribute : {T : Type 0} → Serde T V → Entries V → String → Result T
  deserialize_attribute serde attributes key = do
    value ← or_err (invalid ("resource." <> key) "is missing") (get key attributes)
    decoded key (serde.from_value value)

  -- the attributes are in the order of their keys, as a `BTreeMap` has them
  abbrev pub database_record : ResourceRef → Database → ℕ → ResourceRecord V
  database_record resource database created = record {
    resource = resource;
    attributes =
        ("name", string_value database.name)
        ∷ ("owner", optional_value database.owner)
        ∷ ("provider_service_id", string_value database.service_id)
        ∷ ("resource_type", string_value "database")
        ∷ [];
    outputs = ("database", plain_output (string_value database.name) created) ∷ [];
    created_at_unix_ms = created;
    updated_at_unix_ms = created;
  }

  unfoldable pub database_resource : Database → Result (ResourceRecord V)
  database_resource database = do
    created ← narrow_timestamp database.created_at_unix_ms
    resource ← new_ref service_resource ("database." <> database.id)
    ok (database_record resource database created)

  abbrev pub database_user_record : ResourceRef → DatabaseUser → ℕ → ℕ → ResourceRecord V
  database_user_record resource user created updated = record {
    resource = resource;
    attributes =
        ("databases", wire.texts.to_value user.databases)
        ∷ ("name", string_value user.name)
        ∷ ("provider_service_id", string_value user.service_id)
        ∷ ("resource_type", string_value "database_user")
        ∷ ("secret_reference", string_value user.secret_reference)
        ∷ [];
    outputs = ("credential", secret_output user.secret_reference updated) ∷ [];
    created_at_unix_ms = created;
    updated_at_unix_ms = updated;
  }

  unfoldable pub database_user_resource : DatabaseUser → Result (ResourceRecord V)
  database_user_resource user = do
    resource ← new_ref service_resource ("database-user." <> user.id)
    updated ← narrow_timestamp user.updated_at_unix_ms
    created ← narrow_timestamp user.created_at_unix_ms
    ok (database_user_record resource user created updated)

  abbrev pub backup_record : ResourceRef → ServiceBackup → ℕ → ResourceRecord V
  backup_record resource backup created = record {
    resource = resource;
    attributes =
        ("checksum_sha256", optional_value backup.checksum_sha256)
        ∷ ("database", optional_value backup.database)
        ∷ ("message", string_value backup.message)
        ∷ ("path", string_value backup.path)
        ∷ ("provider_service_id", string_value backup.service_id)
        ∷ ("resource_type", string_value "backup")
        ∷ ("size_bytes", wire.from_u64 backup.size_bytes)
        ∷ ("status", wire.status.to_value backup.status)
        ∷ [];
    outputs = [];
    created_at_unix_ms = created;
    updated_at_unix_ms = created;
  }

  unfoldable pub backup_resource : ServiceBackup → Result (ResourceRecord V)
  backup_resource backup = do
    created ← narrow_timestamp backup.created_at_unix_ms
    resource ← new_ref artifact ("backup." <> backup.id)
    ok (backup_record resource backup created)

  unfoldable pub database_from_resource : ResourceRecord V → Result Database
  database_from_resource r = do
    id ← prefixed_id r.resource.id "database."
    service_id ← required_string r.attributes "provider_service_id"
    name ← required_string r.attributes "name"
    owner ← optional_string r.attributes "owner"
    ok record {
      id = id;
      service_id = service_id;
      name = name;
      owner = owner;
      created_at_unix_ms = r.created_at_unix_ms;
    }

  unfoldable pub database_user_from_resource : ResourceRecord V → Result DatabaseUser
  database_user_from_resource r = do
    id ← prefixed_id r.resource.id "database-user."
    service_id ← required_string r.attributes "provider_service_id"
    name ← required_string r.attributes "name"
    secret_reference ← required_string r.attributes "secret_reference"
    databases ← deserialize_attribute wire.texts r.attributes "databases"
    ok record {
      id = id;
      service_id = service_id;
      name = name;
      secret_reference = secret_reference;
      databases = databases;
      created_at_unix_ms = r.created_at_unix_ms;
      updated_at_unix_ms = r.updated_at_unix_ms;
    }

  abbrev pub number_of : Option V → Option ℕ
  number_of none = none
  number_of (some value) = wire.as_u64 value

  unfoldable pub backup_from_resource : ResourceRecord V → Result ServiceBackup
  backup_from_resource r = do
    id ← prefixed_id r.resource.id "backup."
    service_id ← required_string r.attributes "provider_service_id"
    database ← optional_string r.attributes "database"
    path ← required_string r.attributes "path"
    size_bytes ←
        or_err (invalid "resource.size_bytes" "must be an unsigned integer")
          (number_of (get "size_bytes" r.attributes))
    checksum ← optional_string r.attributes "checksum_sha256"
    status ← deserialize_attribute wire.status r.attributes "status"
    message ← required_string r.attributes "message"
    ok record {
      id = id;
      service_id = service_id;
      database = database;
      path = path;
      size_bytes = size_bytes;
      checksum_sha256 = checksum;
      status = status;
      created_at_unix_ms = r.created_at_unix_ms;
      message = message;
    }
