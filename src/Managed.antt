-- ===== src/Managed.antt =====
-- crates/lumic-core/src/managed_service.rs: the services, databases, users and backups that the
-- service commands work on.
pub mod Wire
pub mod Conversion
pub mod Services
pub mod RoundTrip
pub mod Instances
pub mod Legacy
pub mod Pairs
pub mod Views
pub mod Saves
pub mod Lost
pub mod Session
pub mod Commands
pub mod Operations
pub mod Users
pub mod Publish
pub mod Attach
pub mod Kept
pub mod Binds
pub mod Verify
pub mod Stable
pub mod Effects
use lumic.Prelude.{
  ℕ, String, Bool, true, false, not, ◌&&◌, ◌||◌, Option, none, some, List, [], ◌∷◌, ◌<>◌, leb, ltb,
  nat_beq, PartialEq, ◌==◌, string_eq, codes, len, empty, all, any, first, is_ascii_lowercase,
  is_ascii_digit, is_ascii_control, if◌then◌else◌,
}
use lumic.Error.{Check, invalid, ensure, reject_if, each, ◌>>◌}
use lumic.Configuration.{has_control, is_key_char}
use lumic.Resource.{Entries}
use lumic.Lifecycle.Plan.{Plan, Change, Risk, RiskLevel, medium}

pub data ManagedServiceKind : Type 0 where
  mysql postgresql redis typesense meilisearch valkey rabbitmq minio opensearch : ManagedServiceKind
  memcached mongodb clickhouse prometheus grafana loki gitea gogs : ManagedServiceKind

abbrev pub kind_id : ManagedServiceKind → String
kind_id mysql = "mysql"
kind_id postgresql = "postgresql"
kind_id redis = "redis"
kind_id typesense = "typesense"
kind_id meilisearch = "meilisearch"
kind_id valkey = "valkey"
kind_id rabbitmq = "rabbitmq"
kind_id minio = "minio"
kind_id opensearch = "opensearch"
kind_id memcached = "memcached"
kind_id mongodb = "mongodb"
kind_id clickhouse = "clickhouse"
kind_id prometheus = "prometheus"
kind_id grafana = "grafana"
kind_id loki = "loki"
kind_id gitea = "gitea"
kind_id gogs = "gogs"

pub data DesiredServiceState : Type 0 where
  running stopped : DesiredServiceState

pub record ServiceConfiguration : Type 0 where
  pub bind_address : String
  pub port : ℕ
  pub settings : Entries String

abbrev pub valid_setting_key : String → Bool
valid_setting_key value = not (empty value) && leb (len value) 64 && all is_key_char (codes value)

abbrev pub is_bad_setting : String × String → Bool
is_bad_setting (key, value) =
    not (valid_setting_key key) || empty value || ltb 256 (len value) || has_control value

unfoldable pub validate_service_configuration : ServiceConfiguration → Check
validate_service_configuration c = do
  reject_if (nat_beq c.port 0) (invalid "port" "must be between 1 and 65535")
  ensure ((c.bind_address == "127.0.0.1") || (c.bind_address == "::1")) (
      invalid "bind_address"
        "reference services are loopback-only; remote exposure needs a later explicit policy")
  reject_if (any is_bad_setting c.settings)
      (invalid "settings" "keys and values must be bounded single-line configuration data")

pub record ServiceDependency : Type 0 where
  pub service_id : String
  pub required : Bool
  pub purpose : String

pub record ManagedService : Type 0 where
  pub id : String
  pub name : String
  pub kind : ManagedServiceKind
  pub «package» : String
  pub systemd_unit : String
  pub desired_state : DesiredServiceState
  pub configuration : ServiceConfiguration
  pub secret_references : List String
  pub dependencies : List ServiceDependency
  pub created_at_unix_ms : ℕ
  pub updated_at_unix_ms : ℕ

pub record Database : Type 0 where
  pub id : String
  pub service_id : String
  pub name : String
  pub owner : Option String
  pub created_at_unix_ms : ℕ

pub record DatabaseUser : Type 0 where
  pub id : String
  pub service_id : String
  pub name : String
  pub secret_reference : String
  pub databases : List String
  pub created_at_unix_ms : ℕ
  pub updated_at_unix_ms : ℕ

pub data BackupStatus : Type 0 where
  completed failed restored : BackupStatus

pub record ServiceBackup : Type 0 where
  pub id : String
  pub service_id : String
  pub database : Option String
  pub path : String
  pub size_bytes : ℕ
  pub checksum_sha256 : Option String
  pub status : BackupStatus
  pub created_at_unix_ms : ℕ
  pub message : String

pub record ManagedServiceState : Type 0 where
  pub services : List ManagedService
  pub databases : List Database
  pub users : List DatabaseUser
  pub backups : List ServiceBackup

-- `ManagedServiceState::default`
abbrev pub no_services : ManagedServiceState
no_services = record { services = []; databases = []; users = []; backups = [] }

abbrev pub is_service_char : ℕ → Bool
is_service_char c = is_ascii_lowercase c || is_ascii_digit c || nat_beq c b'-'

-- `validate_resource_id` of this module
unfoldable pub validate_service_id : String → String → Check
validate_service_id field value =
    ensure
      (not (empty value)
        && leb (len value) 63
        && first is_ascii_lowercase (codes value)
        && all is_service_char (codes value))
      (invalid field "must be a lowercase resource id")

abbrev pub is_identifier_start : ℕ → Bool
is_identifier_start c = is_ascii_lowercase c || nat_beq c b'_'

unfoldable pub validate_database_identifier : String → String → Check
validate_database_identifier field value =
    ensure
      (not (empty value)
        && leb (len value) 63
        && first is_identifier_start (codes value)
        && all is_key_char (codes value))
      (invalid field
        "must be a lowercase SQL identifier containing letters, digits, or underscores")

abbrev pub is_artifact_backed : ManagedServiceKind → Bool
is_artifact_backed gitea = true
is_artifact_backed gogs = true
is_artifact_backed _ = false

unfoldable pub install_plan : String → ManagedServiceKind → Bool → Plan
install_plan id kind already_managed =
    let artifact_backed = is_artifact_backed kind in
    record {
      id = "service-install-" <> id;
      summary = "Install and manage " <> (kind_id kind <> (" service '" <> (id <> "'")));
      changes =
          record {
            capability = "managed_service.install";
            summary =
                (if already_managed then "Reconcile" else "Install")
                <> (" "
                    <> ((if artifact_backed then "verified upstream artifact" else "native package")
                        <> ", systemd lifecycle, and Lumic resource state"));
            before = some (if already_managed then "managed" else "absent");
            after = some "installed, enabled, healthy, and managed";
            reversible = true;
          }
          ∷ [];
      risks =
          record {
            level = medium;
            summary = "Package installation and service startup change the host";
            mitigation =
                some "Native package state and service events are audited; uninstall is explicit";
          }
          ∷ [];
      preconditions =
          (if artifact_backed
            then "Debian or Ubuntu host with systemd, curl, and a supported CPU architecture"
            else "Debian or Ubuntu host with apt and systemd")
          ∷ [];
      validation =
          (if artifact_backed
            then "Pinned artifact digest, binary version, systemd state, and HTTP health probe"
            else "Package detection, systemd state, and provider health probe")
          ∷ [];
      recovery = "Stop/disable the unit or run managed service removal" ∷ [];
    }
