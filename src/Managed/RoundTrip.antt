-- ===== src/Managed/RoundTrip.antt =====
-- Reading the databases, users and backups of the older state back from their records.
use lumic.Prelude.{
  ℕ, ◌<◌, ◌^◌, ◌≡◌, refl, ap, ◌∙◌, subst, String, Option, none, some, ltb, ◌<>◌, strip_prefix-<>,
}
use lumic.Error.{ok, ensure, >>=-eq-ok, ok-injective}
use lumic.Resource.{
  ResourceKind, ResourceRef, ResourceRecord, Entries, new_ref, validate_ref, service_resource,
  artifact,
}
use lumic.Configuration.{get}
use lumic.Managed.{Database, DatabaseUser, ServiceBackup}
use lumic.Managed.Wire.{Wire, Serde}
use lumic.Managed.Conversion.{
  narrow_timestamp, prefixed_id, string_value, optional_value, text_of, required_string,
  optional_string, null_or_text, deserialize_attribute, database_resource, database_from_resource,
  database_record, database_user_record, backup_record, database_user_resource,
  database_user_from_resource, backup_resource, backup_from_resource,
}

pub narrow_timestamp_lem : (n m : ℕ) → narrow_timestamp n ≡ ok m → n ≡ m
unfolding narrow_timestamp
narrow_timestamp_lem n m h =
    let (_, _, h') = >>=-eq-ok (ensure (ltb n (2 ^ 64)) _) _ h in ok-injective h'

pub new_ref_lem :
    (kind : ResourceKind) (id : String) (r : ResourceRef)
    → new_ref kind id ≡ ok r
    → record { kind = kind; id = id } ≡ r
unfolding new_ref
new_ref_lem kind id r h =
    let (_, _, h') = >>=-eq-ok (validate_ref (record { kind = kind; id = id })) _ h in
    ok-injective h'

prefixed_id_lem : (prefix id : String) → prefixed_id (prefix <> id) prefix ≡ ok id
unfolding prefixed_id
prefixed_id_lem prefix id = rw (strip_prefix-<> prefix id) refl

module _ (V : Type 0) ⦃wire : Wire V⦄ where
  null_or_text_lem :
      (key : String) (o : Option String) → null_or_text {V = V} key (optional_value o) ≡ ok o
  null_or_text_lem key none = rw wire.is_null-null refl
  null_or_text_lem key (some s) =
      rw (wire.is_null-from_str s) (rw (wire.json.as_str-from_str s) refl)

module _ {V : Type 0} ⦃wire : Wire V⦄ where
  pub required_lem :
      (attributes : Entries V) (key s : String)
      → get key attributes ≡ some (string_value s)
      → required_string attributes key ≡ ok s
  unfolding required_string
  required_lem attributes key s h = rw h (rw (wire.json.as_str-from_str s) refl)

  optional_lem :
      (attributes : Entries V) (key : String) (o : Option String)
      → get key attributes ≡ some (optional_value o)
      → optional_string attributes key ≡ ok o
  unfolding optional_string
  optional_lem attributes key o h = rw h (null_or_text_lem V key o)

  pub decoded_lem :
      {T : Type 0} (serde : Serde T V) (attributes : Entries V) (key : String) (t : T)
      → get key attributes ≡ some (serde.to_value t)
      → deserialize_attribute serde attributes key ≡ ok t
  unfolding deserialize_attribute
  decoded_lem serde attributes key t h = rw h (rw (serde.from_value-to_value t) refl)

module _ (V : Type 0) ⦃wire : Wire V⦄ where
  database_record_lem :
      (d : Database)
      → database_from_resource {V = V} (
          database_record
            (record { kind = service_resource; id = "database." <> d.id })
            d
            d.created_at_unix_ms)
        ≡ ok d
  unfolding database_from_resource get
  database_record_lem d =
      let r : ResourceRecord V =
        database_record (record { kind = service_resource; id = "database." <> d.id }) d
          d.created_at_unix_ms in
      rw (prefixed_id_lem "database." d.id) (
        rw (required_lem r.attributes "provider_service_id" d.service_id refl) (
          rw (required_lem r.attributes "name" d.name refl)
            (rw (optional_lem r.attributes "owner" d.owner refl) refl)))

  database_user_record_lem :
      (u : DatabaseUser)
      → database_user_from_resource {V = V} (
          database_user_record
            (record { kind = service_resource; id = "database-user." <> u.id })
            u
            u.created_at_unix_ms
            u.updated_at_unix_ms)
        ≡ ok u
  unfolding database_user_from_resource get
  database_user_record_lem u =
      let r : ResourceRecord V =
        database_user_record (record { kind = service_resource; id = "database-user." <> u.id }) u
          u.created_at_unix_ms u.updated_at_unix_ms in
      rw (prefixed_id_lem "database-user." u.id) (
        rw (required_lem r.attributes "provider_service_id" u.service_id refl) (
          rw (required_lem r.attributes "name" u.name refl) (
            rw (required_lem r.attributes "secret_reference" u.secret_reference refl)
              (rw (decoded_lem wire.texts r.attributes "databases" u.databases refl) refl))))

  backup_record_lem :
      (b : ServiceBackup)
      → b.size_bytes < 2 ^ 64
      → backup_from_resource {V = V} (
          backup_record (record { kind = artifact; id = "backup." <> b.id }) b b.created_at_unix_ms)
        ≡ ok b
  unfolding backup_from_resource get
  backup_record_lem b fits =
      let r : ResourceRecord V =
        backup_record (record { kind = artifact; id = "backup." <> b.id }) b b.created_at_unix_ms in
      rw (prefixed_id_lem "backup." b.id) (
        rw (required_lem r.attributes "provider_service_id" b.service_id refl) (
          rw (optional_lem r.attributes "database" b.database refl) (
            rw (required_lem r.attributes "path" b.path refl) (
              rw (wire.as_u64-from_u64 b.size_bytes fits) (
                rw (optional_lem r.attributes "checksum_sha256" b.checksum_sha256 refl) (
                  rw (decoded_lem wire.status r.attributes "status" b.status refl)
                    (rw (required_lem r.attributes "message" b.message refl) refl)))))))

  -- a record that is read back, and that shows its type and its service
  abbrev pub Shows : String → String → ResourceRecord V → Type 0
  Shows kind service_id r =
      (text_of (get "resource_type" r.attributes) ≡ some kind)
      × (text_of (get "provider_service_id" r.attributes) ≡ some service_id)

  -- A record that a database is kept as gives that database back, and shows it is one.
  pub database_resource_lem :
      (d : Database) (r : ResourceRecord V)
      → database_resource d ≡ ok r
      → (database_from_resource r ≡ ok d) × Shows "database" d.service_id r
  unfolding database_resource get
  database_resource_lem d r h =
      let (created, e, h1) = >>=-eq-ok (narrow_timestamp d.created_at_unix_ms) _ h in
      let (reference, e', h2) = >>=-eq-ok (new_ref service_resource ("database." <> d.id)) _ h1 in
      let p =
        ap (database_record _ d) (narrow_timestamp_lem _ created e)
        ∙ ap (λ x. database_record x d created) (new_ref_lem service_resource _ reference e')
        ∙ ok-injective h2 in
      subst (λ r. (database_from_resource r ≡ ok d) × Shows "database" d.service_id r) p
        (database_record_lem d, (wire.json.as_str-from_str _, wire.json.as_str-from_str _))

  -- A record that a user of a database is kept as gives that user back, and shows it is one.
  pub database_user_resource_lem :
      (u : DatabaseUser) (r : ResourceRecord V)
      → database_user_resource u ≡ ok r
      → (database_user_from_resource r ≡ ok u) × Shows "database_user" u.service_id r
  unfolding database_user_resource get
  database_user_resource_lem u r h =
      let (reference, e', h1) =
        >>=-eq-ok (new_ref service_resource ("database-user." <> u.id)) _ h in
      let (updated, e, h2) = >>=-eq-ok (narrow_timestamp u.updated_at_unix_ms) _ h1 in
      let (created, e'', h3) = >>=-eq-ok (narrow_timestamp u.created_at_unix_ms) _ h2 in
      let named : ResourceRef = record { kind = service_resource; id = "database-user." <> u.id } in
      let p =
        ap (λ c. database_user_record named u c u.updated_at_unix_ms)
          (narrow_timestamp_lem _ created e'')
        ∙ ap (λ m. database_user_record named u created m) (narrow_timestamp_lem _ updated e)
        ∙ ap (λ x. database_user_record x u created updated)
            (new_ref_lem service_resource _ reference e')
        ∙ ok-injective h3 in
      subst (λ r. (database_user_from_resource r ≡ ok u) × Shows "database_user" u.service_id r) p
        (database_user_record_lem u, (wire.json.as_str-from_str _, wire.json.as_str-from_str _))

  -- A record that a backup is kept as gives that backup back, and shows it is one.
  pub backup_resource_lem :
      (b : ServiceBackup) (r : ResourceRecord V)
      → b.size_bytes < 2 ^ 64
      → backup_resource b ≡ ok r
      → (backup_from_resource r ≡ ok b) × Shows "backup" b.service_id r
  unfolding backup_resource get
  backup_resource_lem b r fits h =
      let (created, e, h1) = >>=-eq-ok (narrow_timestamp b.created_at_unix_ms) _ h in
      let (reference, e', h2) = >>=-eq-ok (new_ref artifact ("backup." <> b.id)) _ h1 in
      let p =
        ap (backup_record _ b) (narrow_timestamp_lem _ created e)
        ∙ ap (λ x. backup_record x b created) (new_ref_lem artifact _ reference e')
        ∙ ok-injective h2 in
      subst (λ r. (backup_from_resource r ≡ ok b) × Shows "backup" b.service_id r) p
        (backup_record_lem b fits, (wire.json.as_str-from_str _, wire.json.as_str-from_str _))
