-- ===== src/Managed/Legacy.antt =====
-- crates/lumic-platform/src/framework_state.rs: the migration of managed-services.json, and the
-- older service state as a view of the framework state that commands load and save.
use lumic.Prelude.{
  ℕ, String, Bool, true, false, not, ◌&&◌, ◌||◌, Option, none, some, List, [], ◌∷◌, ◌++◌, ◌==◌,
  string_eq, ◌<>◌, keep, map, contains, if◌then◌else◌,
}
use lumic.Error.{Result, Check, ok, err, invalid, internal, traverse, ◌>>=◌, ◌>>◌}
use lumic.Resource.{ResourceRecord}
use lumic.Configuration.{get}
use lumic.Service.{ServiceInstance}
use lumic.Framework.{FrameworkState, initial, schema_version, validate_state}
use lumic.Framework.Store.{StateFile, missing, Directory, load_file, save}
use lumic.Managed.{ManagedServiceState, no_services}
use lumic.Managed.Wire.{Wire, wire_json}
use lumic.Managed.Conversion.{
  text_of, database_resource, database_user_resource, backup_resource, database_from_resource,
  database_user_from_resource, backup_from_resource,
}
use lumic.Managed.Services.{service_from_instance, migrate_service}

-- the `matches!` on a definition id, which loading and saving share
abbrev pub is_compatible_id : String → Bool
is_compatible_id id =
    (id == "mysql")
    || (id == "postgresql")
    || (id == "redis")
    || (id == "typesense")
    || (id == "meilisearch")

abbrev pub is_compatible : {V : Type 0} → ServiceInstance V → Bool
is_compatible s = is_compatible_id s.definition_id

-- the `matches!` on what the attribute `resource_type` is
abbrev pub is_legacy_type : Option String → Bool
is_legacy_type none = false
is_legacy_type (some kind) = (kind == "database") || (kind == "database_user") || (kind == "backup")

-- `is_some_and(|service_id| ids.contains(service_id))`
abbrev pub is_among : List String → Option String → Bool
is_among ids none = false
is_among ids (some id) = contains ids id

-- managed-services.json where it exists: a symbolic link, a text that is no state, or a state
pub data LegacyFile : Type 0 where
  legacy_link legacy_corrupt : LegacyFile
  legacy_stored : ManagedServiceState → LegacyFile

-- what `fs::copy` and `fs::set_permissions` come to: the backup, no file, or an error with a file left
pub data Copying : Type 0 where
  copied not_begun cut_short : Copying

pub record StateDir (V : Type 0) : Type 0 where
  pub directory : Directory V
  pub legacy : Option LegacyFile
  pub has_backup : Bool  -- whether managed-services.v1.json exists
  pub legacy_path : String
  pub backup_path : String
  pub copying : Copying

unfoldable pub read_legacy : LegacyFile → Result ManagedServiceState
read_legacy legacy_link =
    err (invalid "state.legacy_path" "refusing to migrate state through a symbolic link")
read_legacy legacy_corrupt = err (internal "legacy managed-service state is invalid")
read_legacy (legacy_stored legacy) = ok legacy

-- `!path.exists()`
abbrev pub is_missing : {V : Type 0} → StateFile V → Bool
is_missing missing = true
is_missing _ = false

module _ {V : Type 0} ⦃wire : Wire V⦄ where
  -- the records that both migration and saving push, in their order
  unfoldable pub push_records : ManagedServiceState → FrameworkState V → Result (FrameworkState V)
  push_records legacy state = do
    services ← traverse migrate_service legacy.services
    databases ← traverse database_resource legacy.databases
    users ← traverse database_user_resource legacy.users
    backups ← traverse backup_resource legacy.backups
    ok (record state {
      services = state.services ++ services;
      resources = state.resources ++ (databases ++ (users ++ backups));
    })

  unfoldable pub migrate_legacy :
      ManagedServiceState → String → String → ℕ → Result (FrameworkState V)
  migrate_legacy legacy source backup now = do
    pushed ← push_records legacy initial
    let state : FrameworkState V = record pushed {
      migrations =
          pushed.migrations
          ++ record {
            from_schema_version = 1;
            to_schema_version = schema_version;
            source = source;
            backup = backup;
            migrated_at_unix_ms = now;
          }
            ∷ [];
    }
    validate_state state
    ok state

  -- the arms of the match on `resource_type`
  abbrev pub add_typed :
      ManagedServiceState → ResourceRecord V → Option String → Result ManagedServiceState
  add_typed legacy r none = ok legacy
  add_typed legacy r (some kind) =
      if kind == "database"
      then (database_from_resource r >>= λ d.
          ok (record legacy { databases = legacy.databases ++ d ∷ [] }))
      else if kind == "database_user"
      then (database_user_from_resource r >>= λ u.
          ok (record legacy { users = legacy.users ++ u ∷ [] }))
      else if kind == "backup"
      then (backup_from_resource r >>= λ b.
          ok (record legacy { backups = legacy.backups ++ b ∷ [] }))
      else ok legacy

  unfoldable pub collect :
      ManagedServiceState → List (ResourceRecord V) → Result ManagedServiceState
  collect legacy [] = ok legacy
  collect legacy (r ∷ resources) =
      add_typed legacy r (text_of (get "resource_type" r.attributes)) >>= λ next.
      collect next resources

  unfoldable pub framework_to_managed_state : FrameworkState V → Result ManagedServiceState
  framework_to_managed_state state = do
    services ← traverse service_from_instance (keep is_compatible state.services)
    collect (record no_services { services = services }) state.resources

  -- a record of a service that is among those replaced
  abbrev pub is_replaced : List String → ResourceRecord V → Bool
  is_replaced ids r =
      is_legacy_type (text_of (get "resource_type" r.attributes))
      && is_among ids (text_of (get "provider_service_id" r.attributes))

  abbrev pub compatible_ids : FrameworkState V → List String
  compatible_ids state = map (λ s. s.id) (keep is_compatible state.services)

  -- the two `retain`
  unfoldable pub without_legacy : FrameworkState V → FrameworkState V
  without_legacy state = record state {
    services = keep (λ s. not (is_compatible s)) state.services;
    resources = keep (λ r. not (is_replaced (compatible_ids state) r)) state.resources;
  }

  -- the saving of the state that the migration gave
  abbrev pub store_migrated :
      StateDir V → FrameworkState V → Result (Directory V) → Result (FrameworkState V) × StateDir V
  store_migrated d state (err error) = (err error, record d { has_backup = false })
  store_migrated d state (ok directory) = (ok state, record d { directory = directory })

  abbrev pub finish_migration :
      StateDir V → Result (FrameworkState V) → Result (FrameworkState V) × StateDir V
  finish_migration d (err error) = (err error, d)
  finish_migration d (ok state) = store_migrated d state (save d.directory state)

  abbrev pub copy_legacy :
      StateDir V → ManagedServiceState → ℕ → Copying → Result (FrameworkState V) × StateDir V
  copy_legacy d legacy now not_begun =
      (err (internal "resource framework state operation failed"), d)
  copy_legacy d legacy now cut_short =
      (err (internal "resource framework state operation failed"), record d { has_backup = true })
  copy_legacy d legacy now copied =
      finish_migration (record d { has_backup = true })
        (migrate_legacy legacy d.legacy_path d.backup_path now)

  abbrev pub migrate_read :
      StateDir V → ℕ → Result ManagedServiceState → Result (FrameworkState V) × StateDir V
  migrate_read d now (err error) = (err error, d)
  migrate_read d now (ok legacy) =
      if d.has_backup
      then (
        err (
            internal
              ("legacy state backup already exists without migrated state: " <> d.backup_path)),
        d,
      )
      else copy_legacy d legacy now d.copying

  abbrev pub migrate_file :
      StateDir V → ℕ → Option LegacyFile → Result (FrameworkState V) × StateDir V
  migrate_file d now none = (load_file d.directory.file, d)
  migrate_file d now (some file) = migrate_read d now (read_legacy file)

  -- the directory as it is afterwards, also where the result is an error
  unfoldable pub load_or_migrate : StateDir V → ℕ → Result (FrameworkState V) × StateDir V
  load_or_migrate d now =
      if not (is_missing d.directory.file)
      then (load_file d.directory.file, d)
      else migrate_file d now d.legacy

  unfoldable pub load_managed_service_state :
      StateDir V → ℕ → Result ManagedServiceState × StateDir V
  load_managed_service_state d now =
      let (loaded, d') = load_or_migrate d now in (loaded >>= framework_to_managed_state, d')

  abbrev pub replace_legacy : ManagedServiceState → FrameworkState V → Result (FrameworkState V)
  replace_legacy legacy state = push_records legacy (without_legacy state)

  abbrev pub stored_result : StateDir V → Result (Directory V) → Check × StateDir V
  stored_result d (err error) = (err error, d)
  stored_result d (ok directory) = (ok tt, record d { directory = directory })

  unfoldable pub save_managed_service_state :
      StateDir V → ManagedServiceState → ℕ → Check × StateDir V
  save_managed_service_state d legacy now =
      let (loaded, d') = load_or_migrate d now in
      stored_result d'
        (loaded >>= λ state. replace_legacy legacy state >>= λ next. save d'.directory next)
