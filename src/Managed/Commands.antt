-- ===== src/Managed/Commands.antt =====
-- crates/lumic-platform/src/managed_service.rs: the service commands on the stored state. What they
-- ask of the host (systemd, the package manager, the database clients, secrets, events and audit) is
-- a parameter, with the result of each call.
use lumic.Prelude.{
  String, Bool, Option, none, some, List, [], ◌∷◌, ◌<>◌, ◌==◌, string_eq, any, keep, find,
  if◌then◌else◌,
}
use lumic.Error.{Result, Check, ok, err, invalid}
use lumic.Lifecycle.Plan.{Plan}
use lumic.Managed.{
  ManagedServiceKind, ManagedService, Database, DatabaseUser, ServiceBackup, validate_service_id,
  install_plan,
}
use lumic.Managed.Wire.{Wire, wire_json}
use lumic.Managed.Session.{Context, Session, lift, load, store, ◌>>=◌, ◌>>◌}

pub data ServiceAction : Type 0 where
  start stop restart reload enable disable daemon_reload : ServiceAction

-- the results of what a command asks of the host
pub record Host : Type 0 where
  pub record_event : String → ManagedService → Context → Bool → Check
  pub apply : String → ServiceAction → Context → Result Bool  -- whether the unit changed
  pub health : ManagedService → Bool × String
  pub remove_package : ManagedService → Context → Result Bool
  pub create_secret : String → Check
  pub read_secret : String → Result String
  pub delete_secret : String → Check
  pub create_database : ManagedServiceKind → String → Option String → Check
  pub create_user : ManagedServiceKind → String → String → Check
  pub grant : ManagedServiceKind → String → String → Check

pub record ManagedServiceMutation : Type 0 where
  pub service : ManagedService
  pub action : String
  pub changed : Bool
  pub message : String

-- `ok_or_else(|| not_found(id))`
abbrev pub or_not_found : {V A : Type 0} → String → Option A → Session V A
or_not_found id (some a) = lift (ok a)
or_not_found id none =
    lift (err (invalid "service" ("managed service '" <> (id <> "' was not found"))))

-- replacing the first service of the id, or pushing
abbrev pub upsert : ManagedService → List ManagedService → List ManagedService
upsert service [] = service ∷ []
upsert service (s ∷ services) =
    let rest = upsert service services in
    if s.id == service.id then service ∷ services else s ∷ rest

abbrev pub has_id : String → ManagedService → Bool
has_id id s = s.id == id

module _ {V : Type 0} ⦃wire : Wire V⦄ where
  abbrev pub list : Context → Session V (List ManagedService)
  list context = do state ← load context.now; lift (ok state.services)

  unfoldable pub find_service : Context → String → Session V ManagedService
  find_service context id = do
    lift (validate_service_id "service" id)
    state ← load context.now
    or_not_found id (find (has_id id) state.services)

  unfoldable pub databases : Context → String → Session V (List Database)
  databases context id = do
    _ ← find_service context id
    state ← load context.now
    lift (ok (keep (λ item. item.service_id == id) state.databases))

  unfoldable pub users : Context → String → Session V (List DatabaseUser)
  users context id = do
    _ ← find_service context id
    state ← load context.now
    lift (ok (keep (λ item. item.service_id == id) state.users))

  unfoldable pub backups : Context → String → Session V (List ServiceBackup)
  backups context id = do
    _ ← find_service context id
    state ← load context.now
    lift (ok (keep (λ item. item.service_id == id) state.backups))

  unfoldable pub plan_install : Context → String → ManagedServiceKind → Session V Plan
  plan_install context id kind = do
    lift (validate_service_id "service" id)
    state ← load context.now
    lift (ok (install_plan id kind (any (has_id id) state.services)))

  unfoldable pub upsert_service : Context → ManagedService → Session V (Unit {0})
  upsert_service context service = do
    state ← load context.now
    store (record state { services = upsert service state.services }) context.now
