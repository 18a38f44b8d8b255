-- ===== src/Managed/Attach.antt =====
-- crates/lumic-platform/src/managed_service.rs: attaching a service to an application. The application
-- service and its type of applications are parameters.
use lumic.Prelude.{
  String, ◌&&◌, ◌||◌, Option, none, some, string_eq, any, find, contains, is_some, if◌then◌else◌,
}
use lumic.Error.{Result, Check, ok, err, invalid, reject_if, ensure}
use lumic.Application.{ApplicationServiceReference}
use lumic.Framework.{FrameworkState}
use lumic.Framework.Store.{save}
use lumic.Managed.{kind_id, ManagedService, DatabaseUser, ManagedServiceState}
use lumic.Managed.Wire.{Wire, wire_json}
use lumic.Managed.Services.{search_secret_name}
use lumic.Managed.Legacy.{load_or_migrate, stored_result}
use lumic.Managed.Session.{Context, Session, lift, state_time, load, store, ◌>>=◌, ◌>>◌}
use lumic.Managed.Commands.{has_id, or_not_found}
use lumic.Managed.Operations.{is_database_of}
use lumic.Managed.Users.{is_user_of, service_secret_reference}
use lumic.Managed.Publish.{persist_application_service_bindings}

-- the application service: its applications, with what this command reads of them
pub record Applications (A : Type 0) : Type 0 where
  pub id : A → String
  pub domain : A → String
  pub inspect : String → Result A
  pub attach_service : String → ApplicationServiceReference → Result A

abbrev pub check_database :
    ManagedServiceState → ApplicationServiceReference → Option String → Check
check_database state reference none = ok tt
check_database state reference (some database) =
    ensure (any (is_database_of reference.service_id database) state.databases)
      (invalid "database" "database is not managed by this service")

abbrev pub check_grant : DatabaseUser → Option String → Result (Option DatabaseUser)
check_grant user none = ok (some user)
check_grant user (some database) =
    if contains user.databases database
    then ok (some user)
    else err (invalid "user" "database user has not been granted access to the selected database")

abbrev pub checked_user :
    ManagedServiceState → ApplicationServiceReference → Option String → Result (Option DatabaseUser)
checked_user state reference none = ok none
checked_user state reference (some name) =
    found (find (is_user_of reference.service_id name) state.users)
  where
    found : Option DatabaseUser → Result (Option DatabaseUser)
    found none = err (invalid "user" "user is not managed by this service")
    found (some user) = check_grant user reference.database

abbrev pub secret_of : Option DatabaseUser → Option String
secret_of none = none
secret_of (some user) = some user.secret_reference

-- by what `search_secret_name` gives for the kind
abbrev pub resolve_secret :
    ManagedService → Option DatabaseUser → Option String → Result (Option String)
resolve_secret service user none = ok (secret_of user)
resolve_secret service user (some secret_name) =
    let secret_reference = service_secret_reference service.id secret_name in
    if contains service.secret_references secret_reference
    then ok (some secret_reference)
    else err (invalid "secret_reference" "search service is missing its managed credential")

-- `framework_store.save`
abbrev pub save_framework : {V : Type 0} ⦃wire : Wire V⦄ → FrameworkState V → Session V (Unit {0})
save_framework state d = stored_result d (save d.directory state)

module _ {V A : Type 0} ⦃wire : Wire V⦄ where
  -- `Err(error)`, once the state of before is saved again
  abbrev pub attached : FrameworkState V → Result A → Session V A
  attached previous (ok application) = lift (ok application)
  attached previous (err error) = do save_framework previous; lift (err error)

  -- what follows where the call is not a dry run
  abbrev pub publish :
      (String → String)
      → Applications A
      → Context
      → String
      → ManagedServiceState
      → ManagedService
      → ApplicationServiceReference
      → A
      → Session V A
  publish sha256 applications context name state service reference current = do
    store state context.now
    previous ← (λ d. load_or_migrate d (state_time context.now))
    next ← lift (
        persist_application_service_bindings sha256 previous (applications.id current)
          (applications.domain current) service reference (state_time context.now))
    save_framework next
    attached previous (applications.attach_service name reference)

  unfoldable pub attach_to_application :
      (String → String)
      → Applications A
      → Context
      → String
      → ApplicationServiceReference
      → Session V A
  attach_to_application sha256 applications context name request = do
    state ← load context.now
    service ← or_not_found request.service_id (find (has_id request.service_id) state.services)
    let secret_name = search_secret_name service.kind
    lift (
        reject_if (is_some secret_name && (is_some request.database || is_some request.user)) (
          invalid "service_reference"
            "search services expose an endpoint and credential, not a database or user"))
    lift (check_database state request request.database)
    user ← lift (checked_user state request request.user)
    secret ← lift (resolve_secret service user secret_name)
    let reference : ApplicationServiceReference = record request {
      service_type = some (kind_id service.kind);
      secret_reference = secret;
    }
    current ← lift (applications.inspect name)
    if context.dry_run
        then lift (ok current)
        else publish sha256 applications context name state service reference current
