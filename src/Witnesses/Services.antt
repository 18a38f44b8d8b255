-- ===== src/Witnesses/Services.antt =====
-- The theorems on managed services at concrete inputs.
use lumic.Prelude.{
  ◌≡◌, ◌≢◌, refl, arith, String, Bool, true, false, Option, none, some, [], ◌∷◌, inl,
}
use lumic.Error.{ok, err, invalid, internal}
use lumic.Resource.{Entries, service_resource, artifact, ResourceRecord}
use lumic.Service.{ServiceInstance}
use lumic.Framework.{FrameworkState, initial}
use lumic.Lock.{regular}
use lumic.Framework.Store.{StateFile, missing, stored, Directory, BindingMutation}
use lumic.Managed.{
  postgresql, valkey, DesiredServiceState, ServiceDependency, BackupStatus, completed,
  ManagedService, Database, ServiceBackup, ManagedServiceState, no_services, ManagedServiceKind,
  ServiceConfiguration,
}
use lumic.Managed.Wire.{wire_json}
use lumic.Managed.Conversion.{database_record, backup_record}
use lumic.Managed.Services.{instance_of, base_outputs}
use lumic.Managed.Views.{Fits}
use lumic.Managed.Saves.{load-save, load-migrate, migrate_stuck}
use lumic.Managed.Lost.{newer_kind_once}
use lumic.Managed.Effects.{find_service-upsert_service, remove_blocks_saves}
use lumic.Managed.Legacy.{
  LegacyFile, legacy_stored, StateDir, copied, load_or_migrate, load_managed_service_state,
  save_managed_service_state, framework_to_managed_state, migrate_legacy, without_legacy,
}
use lumic.Managed.Session.{Context}
use lumic.Managed.Commands.{Host, upsert, upsert_service, find_service}
use lumic.Managed.Operations.{remove, without_service}
use lumic.Prelude.{In}
use lumic.Resource.{application, managed_service}
use lumic.Binding.{Binding}
use lumic.Application.{ApplicationServiceReference}
use lumic.Framework.{validate_state}
use lumic.Managed.{typesense}
use lumic.Managed.Conversion.{plain_output, secret_output}
use lumic.Managed.Publish.{persist_application_service_bindings}
use lumic.Managed.Kept.{persist_keeps}
use lumic.Witnesses.Values.{text}
use lumic.Witnesses.Values.{Value, value_wire}

abbrev service_of : String → ManagedServiceKind → ManagedService
service_of id kind = record {
  id = id;
  name = id;
  kind = kind;
  «package» = "server";
  systemd_unit = "server.service";
  desired_state = DesiredServiceState.running;
  configuration = record { bind_address = "127.0.0.1"; port = 5432; settings = [] };
  secret_references = [];
  dependencies = [];
  created_at_unix_ms = 1;
  updated_at_unix_ms = 1;
}

abbrev main : ManagedService
main = service_of "main" postgresql

abbrev cache : ManagedService
cache = service_of "cache" valkey

abbrev nightly : ServiceBackup
nightly = record {
  id = "main-1";
  service_id = "main";
  database = none;
  path = "/var/backups/lumic/main/main-1.sql";
  size_bytes = 10;
  checksum_sha256 = none;
  status = completed;
  created_at_unix_ms = 1;
  message = "local backup completed";
}

abbrev one_service : ManagedServiceState
one_service = record { services = main ∷ []; databases = []; users = []; backups = nightly ∷ [] }

abbrev newer_service : ManagedServiceState
newer_service = record { services = cache ∷ []; databases = []; users = []; backups = [] }

abbrev nightly_record : ResourceRecord Value
nightly_record = backup_record (record { kind = artifact; id = "backup.main-1" }) nightly 1

abbrev main_instance : ServiceInstance Value
main_instance = instance_of main 1 1 (base_outputs main 1)

abbrev cache_instance : ServiceInstance Value
cache_instance = instance_of cache 1 1 (base_outputs cache 1)

abbrev kept_state : FrameworkState Value
kept_state = record initial { services = main_instance ∷ []; resources = nightly_record ∷ [] }

abbrev migrated_state : FrameworkState Value
migrated_state = record kept_state {
  migrations =
      record {
        from_schema_version = 1;
        to_schema_version = 2;
        source = "managed-services.json";
        backup = "managed-services.v1.json";
        migrated_at_unix_ms = 5;
      }
      ∷ [];
}

abbrev dir : StateFile Value → Option LegacyFile → Bool → StateDir Value
dir file legacy has_backup = record {
  directory = record {
    file = file;
    is_absolute = true;
    is_writable = true;
    held = [];
    locks = λ value. regular;
  };
  legacy = legacy;
  has_backup = has_backup;
  legacy_path = "managed-services.json";
  backup_path = "managed-services.v1.json";
  copying = copied;
}

one_service-Fits : Fits one_service
one_service-Fits = ((omega arith, tt), (omega arith, tt))

load-migrate_example :
    (load_managed_service_state
        (dir (stored migrated_state) (some (legacy_stored one_service)) true)
        6
      ≡ (ok one_service, dir (stored migrated_state) (some (legacy_stored one_service)) true))
    × (true ≡ true)
unfolding lumic.Managed.Conversion.narrow_timestamp lumic.Managed.Conversion.prefixed_id
    lumic.Managed.Conversion.required_string lumic.Managed.Conversion.optional_string
    lumic.Managed.Conversion.deserialize_attribute lumic.Managed.Conversion.backup_resource
    lumic.Managed.Conversion.backup_from_resource lumic.Managed.Services.kind_of
    lumic.Managed.Services.service_from_instance lumic.Managed.Services.migrate_service
    lumic.Managed.Legacy.read_legacy lumic.Managed.Legacy.push_records
    lumic.Managed.Legacy.migrate_legacy lumic.Managed.Legacy.collect
    lumic.Managed.Legacy.framework_to_managed_state lumic.Managed.Legacy.without_legacy
    lumic.Managed.Legacy.load_or_migrate lumic.Managed.Legacy.load_managed_service_state
    lumic.Managed.Legacy.save_managed_service_state lumic.Framework.check_services
    lumic.Framework.check_resources lumic.Framework.check_bindings lumic.Framework.check_executions
    lumic.Framework.validate_state lumic.Framework.Store.load_file lumic.Framework.Store.save
    lumic.Service.validate_service lumic.Service.service_ref lumic.Resource.ref_beq
    lumic.Resource.new_ref lumic.Resource.validate_record lumic.Binding.assert_removable
    lumic.Binding.edges_from lumic.Binding.any_cycle lumic.Binding.reject_cycles
    lumic.Binding.validate_from lumic.Binding.validate_graph lumic.Configuration.get
    lumic.Managed.validate_service_id lumic.Managed.Commands.find_service
    lumic.Managed.Commands.upsert_service lumic.Managed.Operations.assert_service_removable
    lumic.Managed.Operations.remove
load-migrate_example =
    load-migrate (dir missing (some (legacy_stored one_service)) false)
      (dir (stored migrated_state) (some (legacy_stored one_service)) true) migrated_state
      one_service 5 6 one_service-Fits refl refl refl refl refl

abbrev both_services : ManagedServiceState
both_services = record one_service { services = main ∷ cache ∷ [] }

both_services-Fits : Fits both_services
both_services-Fits = ((omega arith, (omega arith, tt)), (omega arith, tt))

abbrev both_state : FrameworkState Value
both_state = record kept_state { services = main_instance ∷ cache_instance ∷ [] }

abbrev kept_dir : StateDir Value
kept_dir = dir (stored kept_state) none false

load-save_example :
    load_managed_service_state (dir (stored both_state) none false) 6
    ≡ (ok one_service, dir (stored both_state) none false)
unfolding lumic.Managed.Conversion.narrow_timestamp lumic.Managed.Conversion.prefixed_id
    lumic.Managed.Conversion.required_string lumic.Managed.Conversion.optional_string
    lumic.Managed.Conversion.deserialize_attribute lumic.Managed.Conversion.backup_resource
    lumic.Managed.Conversion.backup_from_resource lumic.Managed.Services.kind_of
    lumic.Managed.Services.service_from_instance lumic.Managed.Services.migrate_service
    lumic.Managed.Legacy.read_legacy lumic.Managed.Legacy.push_records
    lumic.Managed.Legacy.migrate_legacy lumic.Managed.Legacy.collect
    lumic.Managed.Legacy.framework_to_managed_state lumic.Managed.Legacy.without_legacy
    lumic.Managed.Legacy.load_or_migrate lumic.Managed.Legacy.load_managed_service_state
    lumic.Managed.Legacy.save_managed_service_state lumic.Framework.check_services
    lumic.Framework.check_resources lumic.Framework.check_bindings lumic.Framework.check_executions
    lumic.Framework.validate_state lumic.Framework.Store.load_file lumic.Framework.Store.save
    lumic.Service.validate_service lumic.Service.service_ref lumic.Resource.ref_beq
    lumic.Resource.new_ref lumic.Resource.validate_record lumic.Binding.assert_removable
    lumic.Binding.edges_from lumic.Binding.any_cycle lumic.Binding.reject_cycles
    lumic.Binding.validate_from lumic.Binding.validate_graph lumic.Configuration.get
    lumic.Managed.validate_service_id lumic.Managed.Commands.find_service
    lumic.Managed.Commands.upsert_service lumic.Managed.Operations.assert_service_removable
    lumic.Managed.Operations.remove
load-save_example =
    load-save kept_dir (dir (stored both_state) none false) kept_state no_services both_services 5 6
      both_services-Fits refl refl refl

newer_service-Fits : Fits newer_service
newer_service-Fits = ((omega arith, tt), tt)

newer_kind_once_example :
    (save_managed_service_state
      (dir (stored (record initial { services = cache_instance ∷ [] })) none false)
      newer_service
      6).0
    ≢ ok tt
unfolding lumic.Managed.Conversion.narrow_timestamp lumic.Managed.Conversion.prefixed_id
    lumic.Managed.Conversion.required_string lumic.Managed.Conversion.optional_string
    lumic.Managed.Conversion.deserialize_attribute lumic.Managed.Conversion.backup_resource
    lumic.Managed.Conversion.backup_from_resource lumic.Managed.Services.kind_of
    lumic.Managed.Services.service_from_instance lumic.Managed.Services.migrate_service
    lumic.Managed.Legacy.read_legacy lumic.Managed.Legacy.push_records
    lumic.Managed.Legacy.migrate_legacy lumic.Managed.Legacy.collect
    lumic.Managed.Legacy.framework_to_managed_state lumic.Managed.Legacy.without_legacy
    lumic.Managed.Legacy.load_or_migrate lumic.Managed.Legacy.load_managed_service_state
    lumic.Managed.Legacy.save_managed_service_state lumic.Framework.check_services
    lumic.Framework.check_resources lumic.Framework.check_bindings lumic.Framework.check_executions
    lumic.Framework.validate_state lumic.Framework.Store.load_file lumic.Framework.Store.save
    lumic.Service.validate_service lumic.Service.service_ref lumic.Resource.ref_beq
    lumic.Resource.new_ref lumic.Resource.validate_record lumic.Binding.assert_removable
    lumic.Binding.edges_from lumic.Binding.any_cycle lumic.Binding.reject_cycles
    lumic.Binding.validate_from lumic.Binding.validate_graph lumic.Configuration.get
    lumic.Managed.validate_service_id lumic.Managed.Commands.find_service
    lumic.Managed.Commands.upsert_service lumic.Managed.Operations.assert_service_removable
    lumic.Managed.Operations.remove
newer_kind_once_example =
    newer_kind_once Value (dir missing none false)
      (dir (stored (record initial { services = cache_instance ∷ [] })) none false) newer_service
      newer_service cache cache 5 6 newer_service-Fits newer_service-Fits (inl refl) refl refl
      (inl refl) refl

abbrev twice : ManagedServiceState
twice = record one_service { services = main ∷ main ∷ [] }

migrate_stuck_example :
    (load_or_migrate (dir missing (some (legacy_stored twice)) false) 5 ≡ (
      err (invalid "state.services" "duplicate service resource"),
      dir missing (some (legacy_stored twice)) true,
    ))
    × (load_or_migrate
          (record (load_or_migrate (dir missing (some (legacy_stored twice)) false) 5).1 {
            legacy = some (legacy_stored one_service);
          })
          6
        ≡ (
          err (
              internal
                "legacy state backup already exists without migrated state: managed-services.v1.json"),
          dir missing (some (legacy_stored one_service)) true,
        ))
unfolding lumic.Managed.Conversion.narrow_timestamp lumic.Managed.Conversion.prefixed_id
    lumic.Managed.Conversion.required_string lumic.Managed.Conversion.optional_string
    lumic.Managed.Conversion.deserialize_attribute lumic.Managed.Conversion.backup_resource
    lumic.Managed.Conversion.backup_from_resource lumic.Managed.Services.kind_of
    lumic.Managed.Services.service_from_instance lumic.Managed.Services.migrate_service
    lumic.Managed.Legacy.read_legacy lumic.Managed.Legacy.push_records
    lumic.Managed.Legacy.migrate_legacy lumic.Managed.Legacy.collect
    lumic.Managed.Legacy.framework_to_managed_state lumic.Managed.Legacy.without_legacy
    lumic.Managed.Legacy.load_or_migrate lumic.Managed.Legacy.load_managed_service_state
    lumic.Managed.Legacy.save_managed_service_state lumic.Framework.check_services
    lumic.Framework.check_resources lumic.Framework.check_bindings lumic.Framework.check_executions
    lumic.Framework.validate_state lumic.Framework.Store.load_file lumic.Framework.Store.save
    lumic.Service.validate_service lumic.Service.service_ref lumic.Resource.ref_beq
    lumic.Resource.new_ref lumic.Resource.validate_record lumic.Binding.assert_removable
    lumic.Binding.edges_from lumic.Binding.any_cycle lumic.Binding.reject_cycles
    lumic.Binding.validate_from lumic.Binding.validate_graph lumic.Configuration.get
    lumic.Managed.validate_service_id lumic.Managed.Commands.find_service
    lumic.Managed.Commands.upsert_service lumic.Managed.Operations.assert_service_removable
    lumic.Managed.Operations.remove
migrate_stuck_example =
    migrate_stuck (dir missing (some (legacy_stored twice)) false) twice one_service
      (invalid "state.services" "duplicate service resource") 5 6 refl refl refl refl refl

abbrev at_five : Context
at_five = record { dry_run = false; now = 5 }

abbrev renamed : ManagedService
renamed = record main { name = "Main" }

abbrev renamed_dir : StateDir Value
renamed_dir =
    dir
      (stored
        (record kept_state { services = instance_of renamed 1 1 (base_outputs renamed 1) ∷ [] }))
      none false

find_service-upsert_service_example :
    find_service at_five "main" renamed_dir ≡ (ok renamed, renamed_dir)
unfolding lumic.Managed.Conversion.narrow_timestamp lumic.Managed.Conversion.prefixed_id
    lumic.Managed.Conversion.required_string lumic.Managed.Conversion.optional_string
    lumic.Managed.Conversion.deserialize_attribute lumic.Managed.Conversion.backup_resource
    lumic.Managed.Conversion.backup_from_resource lumic.Managed.Services.kind_of
    lumic.Managed.Services.service_from_instance lumic.Managed.Services.migrate_service
    lumic.Managed.Legacy.read_legacy lumic.Managed.Legacy.push_records
    lumic.Managed.Legacy.migrate_legacy lumic.Managed.Legacy.collect
    lumic.Managed.Legacy.framework_to_managed_state lumic.Managed.Legacy.without_legacy
    lumic.Managed.Legacy.load_or_migrate lumic.Managed.Legacy.load_managed_service_state
    lumic.Managed.Legacy.save_managed_service_state lumic.Framework.check_services
    lumic.Framework.check_resources lumic.Framework.check_bindings lumic.Framework.check_executions
    lumic.Framework.validate_state lumic.Framework.Store.load_file lumic.Framework.Store.save
    lumic.Service.validate_service lumic.Service.service_ref lumic.Resource.ref_beq
    lumic.Resource.new_ref lumic.Resource.validate_record lumic.Binding.assert_removable
    lumic.Binding.edges_from lumic.Binding.any_cycle lumic.Binding.reject_cycles
    lumic.Binding.validate_from lumic.Binding.validate_graph lumic.Configuration.get
    lumic.Managed.validate_service_id lumic.Managed.Commands.find_service
    lumic.Managed.Commands.upsert_service lumic.Managed.Operations.assert_service_removable
    lumic.Managed.Operations.remove
find_service-upsert_service_example =
    find_service-upsert_service Value at_five at_five renamed one_service kept_dir kept_dir
      renamed_dir refl one_service-Fits refl refl refl

abbrev willing : Host
willing = record {
  record_event = λ action service context changed. ok tt;
  apply = λ unit action context. ok true;
  health = λ service. (true, "ready");
  remove_package = λ service context. ok true;
  create_secret = λ reference. ok tt;
  read_secret = λ reference. ok "password";
  delete_secret = λ reference. ok tt;
  create_database = λ kind name owner. ok tt;
  create_user = λ kind name password. ok tt;
  grant = λ kind database user. ok tt;
}

abbrev removed_dir : StateDir Value
removed_dir = dir (stored (record initial { resources = nightly_record ∷ [] })) none false

remove_blocks_saves_example :
    (upsert_service at_five (service_of "other" postgresql) removed_dir).0 ≢ ok tt
unfolding lumic.Managed.Conversion.narrow_timestamp lumic.Managed.Conversion.prefixed_id
    lumic.Managed.Conversion.required_string lumic.Managed.Conversion.optional_string
    lumic.Managed.Conversion.deserialize_attribute lumic.Managed.Conversion.backup_resource
    lumic.Managed.Conversion.backup_from_resource lumic.Managed.Services.kind_of
    lumic.Managed.Services.service_from_instance lumic.Managed.Services.migrate_service
    lumic.Managed.Legacy.read_legacy lumic.Managed.Legacy.push_records
    lumic.Managed.Legacy.migrate_legacy lumic.Managed.Legacy.collect
    lumic.Managed.Legacy.framework_to_managed_state lumic.Managed.Legacy.without_legacy
    lumic.Managed.Legacy.load_or_migrate lumic.Managed.Legacy.load_managed_service_state
    lumic.Managed.Legacy.save_managed_service_state lumic.Framework.check_services
    lumic.Framework.check_resources lumic.Framework.check_bindings lumic.Framework.check_executions
    lumic.Framework.validate_state lumic.Framework.Store.load_file lumic.Framework.Store.save
    lumic.Service.validate_service lumic.Service.service_ref lumic.Resource.ref_beq
    lumic.Resource.new_ref lumic.Resource.validate_record lumic.Binding.assert_removable
    lumic.Binding.edges_from lumic.Binding.any_cycle lumic.Binding.reject_cycles
    lumic.Binding.validate_from lumic.Binding.validate_graph lumic.Configuration.get
    lumic.Managed.validate_service_id lumic.Managed.Commands.find_service
    lumic.Managed.Commands.upsert_service lumic.Managed.Operations.assert_service_removable
    lumic.Managed.Operations.remove
remove_blocks_saves_example =
    remove_blocks_saves Value willing at_five at_five "main"
      (record {
        service = main;
        action = "remove";
        changed = true;
        message = "native data retained for explicit recovery or removal";
      })
      nightly (service_of "other" postgresql) one_service kept_dir kept_dir removed_dir refl refl
      (tt, (omega arith, tt)) (inl refl) refl refl

abbrev search : ManagedService
search = record (service_of "search" typesense) { secret_references = "search-api-key" ∷ [] }

abbrev search_instance : ServiceInstance Value
search_instance = instance_of search 1 1 (
    ("http", plain_output (text "http://127.0.0.1:8108") 1)
    ∷ ("api_key", secret_output "search-api-key" 1)
    ∷ [])

abbrev app_record : String → ResourceRecord Value
app_record id = record {
  resource = record { kind = application; id = id };
  attributes = ("domain", text "example.org") ∷ ("resource_type", text "application") ∷ [];
  outputs = [];
  created_at_unix_ms = 1;
  updated_at_unix_ms = 1;
}

abbrev to_app : String → String → String → String → Binding
to_app id output app input = record {
  id = id;
  producer = record { kind = managed_service; id = "search" };
  output = output;
  consumer = record { kind = application; id = app };
  input = input;
  created_at_unix_ms = 1;
}

abbrev shop_binding : Binding
shop_binding = to_app "shop-search" "http" "shop" "search_endpoint"

abbrev before_blog : FrameworkState Value
before_blog = record initial {
  services = search_instance ∷ [];
  resources = app_record "shop" ∷ [];
  bindings = shop_binding ∷ [];
}

abbrev with_blog : FrameworkState Value
with_blog = record before_blog {
  resources = app_record "shop" ∷ app_record "blog" ∷ [];
  bindings =
      shop_binding
      ∷ to_app "application-endpoint-0" "http" "blog" "search_endpoint"
      ∷ to_app "application-credential-0" "api_key" "blog" "search_credential"
      ∷ [];
}

abbrev search_reference : ApplicationServiceReference
search_reference = record {
  service_id = "search";
  role = "search";
  service_type = some "typesense";
  database = none;
  user = none;
  secret_reference = some "search-api-key";
}

persist_keeps_example : In shop_binding with_blog.bindings × (validate_state with_blog ≡ ok tt)
unfolding lumic.Managed.Conversion.narrow_timestamp lumic.Managed.Conversion.prefixed_id
    lumic.Managed.Conversion.required_string lumic.Managed.Conversion.optional_string
    lumic.Managed.Conversion.deserialize_attribute lumic.Managed.Conversion.database_resource
    lumic.Managed.Conversion.database_user_resource lumic.Managed.Conversion.backup_resource
    lumic.Managed.Conversion.database_from_resource
    lumic.Managed.Conversion.database_user_from_resource
    lumic.Managed.Conversion.backup_from_resource lumic.Managed.Services.kind_of
    lumic.Managed.Services.endpoint_of lumic.Managed.Services.service_from_instance
    lumic.Managed.Services.migrate_service
    lumic.Managed.Publish.persist_application_service_bindings lumic.Framework.has_output
    lumic.Framework.check_services lumic.Framework.check_resources lumic.Framework.check_binding
    lumic.Framework.check_bindings lumic.Framework.check_executions lumic.Framework.validate_state
    lumic.Service.validate_service lumic.Service.service_ref lumic.Resource.kind_beq
    lumic.Resource.ref_beq lumic.Resource.ref_lt lumic.Resource.is_resource_id
    lumic.Resource.validate_resource_id lumic.Resource.validate_output_name
    lumic.Resource.validate_ref lumic.Resource.new_ref lumic.Resource.key
    lumic.Resource.validate_output lumic.Resource.validate_record lumic.Binding.validate_binding
    lumic.Binding.consumers_of lumic.Binding.assert_removable lumic.Binding.next_of
    lumic.Binding.push_edge lumic.Binding.edges_from lumic.Binding.any_cycle lumic.Binding.has_cycle
    lumic.Binding.search_all lumic.Binding.reject_cycles lumic.Binding.validate_from
    lumic.Binding.validate_graph lumic.Configuration.validate_catalog_key
    lumic.Configuration.valid_version lumic.Configuration.is_direct
    lumic.Configuration.validate_target lumic.Configuration.bounded_string
    lumic.Configuration.integer_in_range lumic.Configuration.matches
    lumic.Configuration.validate_value lumic.Configuration.validate_definition
    lumic.Configuration.validate_fields lumic.Configuration.validate_schema lumic.Configuration.get
    lumic.Configuration.insert lumic.Configuration.resolve_field lumic.Configuration.resolve_fields
    lumic.Configuration.resolve lumic.Configuration.apply_behavior lumic.Configuration.redacted
persist_keeps_example =
    persist_keeps Value (λ s. "0") before_blog with_blog "blog" "example.org" search
      search_reference 1 shop_binding
      (record { other = refl; endpoint = refl; credential = refl; database = refl }) (inl refl) refl

abbrev archived : Binding
archived = record {
  id = "archive";
  producer = record { kind = managed_service; id = "main" };
  output = "endpoint";
  consumer = record { kind = artifact; id = "backup.main-1" };
  input = "source";
  created_at_unix_ms = 4;
}

abbrev archived_dry : BindingMutation
archived_dry = record { binding = archived; changed = true; dry_run = true }

abbrev unmigrated_dir : StateDir Value
unmigrated_dir = dir missing (some (legacy_stored one_service)) false

abbrev migrated_dir : StateDir Value
migrated_dir = dir (stored migrated_state) (some (legacy_stored one_service)) true
