-- ===== src/Managed/Operations.antt =====
-- crates/lumic-platform/src/managed_service.rs: the commands that change a service, its databases and
-- their users.
use lumic.Prelude.{
  ℕ, String, Bool, true, false, not, ◌&&◌, ◌||◌, Option, none, some, [], ◌∷◌, ◌++◌, ◌<>◌, ltb, ◌==◌,
  string_eq, map, any, keep, find, len, empty, if◌then◌else◌,
}
use lumic.Error.{Result, Check, ok, err, invalid, process, reject_if, each}
use lumic.Resource.{ResourceRef, managed_service, new_ref}
use lumic.Binding.{BindingGraph, assert_removable}
use lumic.Configuration.{get, has_control}
use lumic.Framework.{FrameworkState}
use lumic.Managed.{
  running, stopped, ServiceDependency, ManagedService, Database, ManagedServiceState,
  validate_database_identifier,
}
use lumic.Managed.Wire.{Wire}
use lumic.Managed.Conversion.{text_of}
use lumic.Managed.Legacy.{load_or_migrate}
use lumic.Managed.Session.{Context, Session, lift, state_time, load, store, ◌>>=◌, ◌>>◌}
use lumic.Managed.Commands.{
  ServiceAction, start, stop, restart, reload, enable, disable, daemon_reload, Host,
  ManagedServiceMutation, find_service, upsert_service,
}

-- the derived equality of dependencies
abbrev pub is_same_dependency : ServiceDependency → ServiceDependency → Bool
is_same_dependency a b =
    (a.service_id == b.service_id)
    && (if a.required then b.required else not b.required)
    && (a.purpose == b.purpose)

abbrev pub with_dependency : ManagedService → ServiceDependency → ℕ → ManagedService
with_dependency service dependency now = record service {
  dependencies =
      keep (λ item. not (item.service_id == dependency.service_id)) service.dependencies
      ++ dependency ∷ [];
  updated_at_unix_ms = now;
}

abbrev pub dependency_message : Bool → Bool → String
dependency_message dry_run changed =
    if dry_run
    then "dry run: dependency would be declared"
    else if changed
    then "dependency declared"
    else "dependency already declared"

-- the actions that `lifecycle` takes, and their names
abbrev pub lifecycle_name : ServiceAction → Option String
lifecycle_name start = some "start"
lifecycle_name stop = some "stop"
lifecycle_name restart = some "restart"
lifecycle_name _ = none

-- the derived `Debug` of those
abbrev pub action_debug : ServiceAction → String
action_debug start = "Start"
action_debug stop = "Stop"
action_debug restart = "Restart"
action_debug reload = "Reload"
action_debug enable = "Enable"
action_debug disable = "Disable"
action_debug daemon_reload = "DaemonReload"

abbrev pub is_stop : ServiceAction → Bool
is_stop stop = true
is_stop _ = false

abbrev pub lifecycle_message : ManagedService → String → Bool × String → Result String
lifecycle_message service name (healthy, message) =
    if healthy
    then ok ("healthy: " <> message)
    else err (
        process service.systemd_unit
          ("service failed post-" <> (name <> (" health validation: " <> message))))

-- `attributes.get("provider_service_id").and_then(Value::as_str) == Some(id)`
abbrev pub is_text : String → Option String → Bool
is_text id none = false
is_text id (some text) = text == id

abbrev pub assert_removable_as : BindingGraph → Result ResourceRef → Check
assert_removable_as graph (err e) = err e
assert_removable_as graph (ok r) = assert_removable graph r

abbrev pub without_service : String → ManagedServiceState → ManagedServiceState
without_service id state = record state {
  services = keep (λ item. not (item.id == id)) state.services;
  databases = keep (λ item. not (item.service_id == id)) state.databases;
  users = keep (λ item. not (item.service_id == id)) state.users;
}

abbrev pub validate_owner : Option String → Check
validate_owner none = ok tt
validate_owner (some owner) = validate_database_identifier "owner" owner

abbrev pub is_database_of : String → String → Database → Bool
is_database_of service_id name d = (d.service_id == service_id) && (d.name == name)

abbrev pub new_database : Context → String → String → Option String → Database
new_database context service_id name owner = record {
  id = service_id <> ("-" <> name);
  service_id = service_id;
  name = name;
  owner = owner;
  created_at_unix_ms = context.now;
}

module _ {V : Type 0} ⦃wire : Wire V⦄ where
  unfoldable pub declare :
      Context → ManagedService → ServiceDependency → Bool → Session V ManagedService
  declare context service dependency false = lift (ok service)
  declare context service dependency true = do
    let updated = with_dependency service dependency context.now
    upsert_service context updated
    lift (ok updated)

  unfoldable pub declare_dependency :
      Host → Context → String → String → String → Bool → Session V ManagedServiceMutation
  declare_dependency host context id dependency_id purpose required = do
    lift
        (reject_if (id == dependency_id) (invalid "dependency" "a service cannot depend on itself"))
    lift (
        reject_if (empty purpose || ltb 120 (len purpose) || has_control purpose)
          (invalid "purpose" "must be bounded single-line text"))
    service ← find_service context id
    _ ← find_service context dependency_id
    let dependency : ServiceDependency = record {
      service_id = dependency_id;
      required = required;
      purpose = purpose;
    }
    let changed = not (any (is_same_dependency dependency) service.dependencies)
    final ← declare context service dependency (changed && not context.dry_run)
    lift (host.record_event "declare_dependency" final context changed)
    lift (
        ok record {
          service = final;
          action = "declare_dependency";
          changed = changed;
          message = dependency_message context.dry_run changed;
        })

  abbrev pub set_desired : Context → ManagedService → Bool → Session V ManagedService
  set_desired context service stops =
      if context.dry_run
      then lift (ok service)
      else let updated : ManagedService = record service {
        desired_state = if stops then stopped else running;
        updated_at_unix_ms = context.now;
      } in
        (upsert_service context updated >> lift (ok updated))

  abbrev pub run_lifecycle :
      Host → Context → String → ServiceAction → Option String → Session V ManagedServiceMutation
  run_lifecycle host context id action none =
      lift (err (invalid "action" "managed services support start, stop, and restart"))
  run_lifecycle host context id action (some name) = do
    service ← find_service context id
    changed ← lift (host.apply service.systemd_unit action context)
    message ← lift (
        if is_stop action
        then ok "service stopped"
        else if context.dry_run
        then ok "dry run: lifecycle action would be applied and health-checked"
        else lifecycle_message service (action_debug action) (host.health service))
    final ← set_desired context service (is_stop action)
    lift (host.record_event name final context changed)
    lift (ok record { service = final; action = name; changed = changed; message = message })

  unfoldable pub lifecycle :
      Host → Context → String → ServiceAction → Session V ManagedServiceMutation
  lifecycle host context id action = run_lifecycle host context id action (lifecycle_name action)

  unfoldable pub assert_service_removable : FrameworkState V → String → Check
  assert_service_removable framework id = each (assert_removable_as framework.bindings) (
      new_ref managed_service id
      ∷ map (λ r. ok r.resource)
          (keep (λ r. is_text id (text_of (get "provider_service_id" r.attributes)))
            framework.resources))

  abbrev pub stop_unit : Host → Context → ManagedService → Session V (Unit {0})
  stop_unit host context service =
      if context.dry_run
      then lift (ok tt)
      else (lift (host.apply service.systemd_unit stop context) >>= λ _.
          lift (host.apply service.systemd_unit disable context) >>= λ _. lift (ok tt))

  -- `remove` on the stored state: backups stay
  abbrev pub forget : Context → String → Session V (Unit {0})
  forget context id =
      if context.dry_run
      then lift (ok tt)
      else (load context.now >>= λ state. store (without_service id state) context.now)

  unfoldable pub remove : Host → Context → String → Bool → Session V ManagedServiceMutation
  remove host context id purge_data = do
    lift (
        reject_if purge_data (
          invalid "purge_data"
            "data purge is intentionally separate; take a backup and remove native data explicitly"))
    service ← find_service context id
    framework ← (λ d. load_or_migrate d (state_time context.now))
    lift (assert_service_removable framework id)
    stop_unit host context service
    changed ← lift (host.remove_package service context)
    forget context id
    lift (host.record_event "remove" service context changed)
    lift (
        ok record {
          service = service;
          action = "remove";
          changed = changed;
          message = "native data retained for explicit recovery or removal";
        })

  -- by what `iter().find` gave
  abbrev pub add_database :
      Host
      → Context
      → ManagedService
      → ManagedServiceState
      → Database
      → Option Database
      → Session V Database
  add_database host context service state database (some existing) = lift (ok existing)
  add_database host context service state database none =
      if context.dry_run
      then lift (ok database)
      else (lift (host.create_database service.kind database.name database.owner)
          >> (store (record state { databases = state.databases ++ database ∷ [] }) context.now
              >> (lift (host.record_event "create_database" service context true)
                  >> lift (ok database))))

  unfoldable pub create_database :
      Host → Context → String → String → Option String → Session V Database
  create_database host context service_id name owner = do
    lift (validate_database_identifier "database" name)
    lift (validate_owner owner)
    service ← find_service context service_id
    state ← load context.now
    add_database host context service state (new_database context service_id name owner)
        (find (is_database_of service_id name) state.databases)
