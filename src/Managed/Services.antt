-- ===== src/Managed/Services.antt =====
-- crates/lumic-platform/src/framework_state.rs: the instances that managed services are kept as, and
-- the way back.
use lumic.Prelude.{
  ℕ, String, Option, none, some, [], ◌∷◌, leb, nat_beq, ◌==◌, string_eq, ◌<>◌, codes, any, contains,
  decimal, dashes, if◌then◌else◌,
}
use lumic.Error.{Result, ok, err, invalid, ensure, ◌>>=◌, ◌>>◌}
use lumic.Resource.{ResourceOutput, Entries}
use lumic.Configuration.{get, insert}
use lumic.Service
use lumic.Service.{ServiceInstance, lumic_owned, managed}
use lumic.Managed.{
  ManagedServiceKind, mysql, postgresql, redis, typesense, meilisearch, valkey, rabbitmq, minio,
  opensearch, memcached, mongodb, clickhouse, prometheus, grafana, loki, gitea, gogs, kind_id,
  DesiredServiceState, ManagedService,
}
use lumic.Managed.Wire.{Wire}
use lumic.Managed.Conversion.{
  or_err, string_value, plain_output, secret_output, required_string, deserialize_attribute,
  number_of, narrow_timestamp,
}

abbrev pub to_instance_state : DesiredServiceState → Service.DesiredServiceState
to_instance_state DesiredServiceState.running = Service.DesiredServiceState.running
to_instance_state DesiredServiceState.stopped = Service.DesiredServiceState.stopped

abbrev pub to_managed_state : Service.DesiredServiceState → DesiredServiceState
to_managed_state Service.DesiredServiceState.running = DesiredServiceState.running
to_managed_state Service.DesiredServiceState.stopped = DesiredServiceState.stopped

unfoldable pub kind_of : String → Result ManagedServiceKind
kind_of id =
    if id == "mysql"
    then ok mysql
    else if id == "postgresql"
    then ok postgresql
    else if id == "redis"
    then ok redis
    else if id == "typesense"
    then ok typesense
    else if id == "meilisearch"
    then ok meilisearch
    else if id == "valkey"
    then ok valkey
    else if id == "rabbitmq"
    then ok rabbitmq
    else if id == "minio"
    then ok minio
    else if id == "opensearch"
    then ok opensearch
    else if id == "memcached"
    then ok memcached
    else if id == "mongodb"
    then ok mongodb
    else if id == "clickhouse"
    then ok clickhouse
    else if id == "prometheus"
    then ok prometheus
    else if id == "grafana"
    then ok grafana
    else if id == "loki"
    then ok loki
    else if id == "gitea"
    then ok gitea
    else if id == "gogs"
    then ok gogs
    else err (invalid "service.definition_id" "unsupported compatibility service")

-- `search_secret_name`, and the arms of the match on the kind in `migrate_service`
abbrev pub search_secret_name : ManagedServiceKind → Option String
search_secret_name typesense = some "api_key"
search_secret_name meilisearch = some "master_key"
search_secret_name _ = none

unfoldable pub endpoint_of : String → ℕ → String
endpoint_of address port =
    if any (λ c. nat_beq c b':') (codes address)
    then "[" <> (address <> ("]:" <> decimal port))
    else address <> (":" <> decimal port)

-- `u16::try_from`
abbrev pub as_port : Option ℕ → Option ℕ
as_port none = none
as_port (some n) = if leb n 65535 then some n else none

module _ {V : Type 0} ⦃wire : Wire V⦄ where
  unfoldable pub service_from_instance : ServiceInstance V → Result ManagedService
  service_from_instance i = do
    kind ← kind_of i.definition_id
    bind_address ← required_string i.configuration "bind_address"
    port ←
        or_err (invalid "service.configuration.port" "must be a valid port")
          (as_port (number_of (get "port" i.configuration)))
    settings ← deserialize_attribute wire.settings i.configuration "settings"
    package_name ← required_string i.platform_metadata "package"
    systemd_unit ← required_string i.platform_metadata "systemd_unit"
    secret_references ← deserialize_attribute wire.texts i.platform_metadata "secret_references"
    dependencies ← deserialize_attribute wire.dependencies i.platform_metadata "legacy_dependencies"
    ok record {
      id = i.id;
      name = i.display_name;
      kind = kind;
      «package» = package_name;
      systemd_unit = systemd_unit;
      desired_state = to_managed_state i.desired_state;
      configuration = record { bind_address = bind_address; port = port; settings = settings };
      secret_references = secret_references;
      dependencies = dependencies;
      created_at_unix_ms = i.created_at_unix_ms;
      updated_at_unix_ms = i.updated_at_unix_ms;
    }

  abbrev pub base_outputs : ManagedService → ℕ → Entries (ResourceOutput V)
  base_outputs service updated =
      let address = service.configuration.bind_address in
      let port = service.configuration.port in
      ("address", plain_output (string_value address) updated)
      ∷ ("endpoint", plain_output (string_value (endpoint_of address port)) updated)
      ∷ ("port", plain_output (wire.from_u64 port) updated)
      ∷ []

  abbrev pub search_outputs :
      ManagedService → ℕ → Option String → Result (Entries (ResourceOutput V))
  search_outputs service updated none = ok (base_outputs service updated)
  search_outputs service updated (some secret_name) = do
    let endpoint = endpoint_of service.configuration.bind_address service.configuration.port
    let expected = service.id <> ("-" <> dashes secret_name)
    ensure (contains service.secret_references expected) (
        invalid "service.secret_references"
          ("search service is missing required secret '" <> (secret_name <> "'")))
    ok (
        insert secret_name (secret_output expected updated) (
          insert "http" (plain_output (string_value ("http://" <> endpoint)) updated)
            (base_outputs service updated)))

  abbrev pub instance_of : ManagedService → ℕ → ℕ → Entries (ResourceOutput V) → ServiceInstance V
  instance_of service created updated outputs = record {
    id = service.id;
    definition_id = kind_id service.kind;
    definition_version = 1;
    display_name = service.name;
    ownership = lumic_owned;
    management_status = managed;
    desired_state = to_instance_state service.desired_state;
    configuration =
        ("bind_address", string_value service.configuration.bind_address)
        ∷ ("port", wire.from_u64 service.configuration.port)
        ∷ ("settings", wire.settings.to_value service.configuration.settings)
        ∷ [];
    outputs = outputs;
    platform_metadata =
        ("legacy_dependencies", wire.dependencies.to_value service.dependencies)
        ∷ ("package", string_value service.«package»)
        ∷ ("secret_references", wire.texts.to_value service.secret_references)
        ∷ ("systemd_unit", string_value service.systemd_unit)
        ∷ [];
    installed_version = none;
    created_at_unix_ms = created;
    updated_at_unix_ms = updated;
  }

  unfoldable pub migrate_service : ManagedService → Result (ServiceInstance V)
  migrate_service service = do
    updated ← narrow_timestamp service.updated_at_unix_ms
    outputs ← search_outputs service updated (search_secret_name service.kind)
    created ← narrow_timestamp service.created_at_unix_ms
    ok (instance_of service created updated outputs)
