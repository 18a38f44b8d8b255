-- ===== src/Managed/Users.antt =====
-- crates/lumic-platform/src/managed_service.rs: the users of databases, what they are granted, and
-- what a service's secrets are called.
use lumic.Prelude.{
  ℕ, String, Bool, true, not, ◌&&◌, ◌||◌, Option, none, some, List, [], ◌∷◌, ◌++◌, ◌<>◌, leb,
  nat_beq, ◌==◌, string_eq, any, all, find, contains, codes, len, empty, dashes, is_ascii_lowercase,
  is_ascii_digit, if◌then◌else◌,
}
use lumic.Error.{Check, ok, err, invalid, ensure}
use lumic.Managed.{ManagedService, DatabaseUser, ManagedServiceState, validate_database_identifier}
use lumic.Managed.Wire.{Wire}
use lumic.Managed.Session.{Context, Session, lift, load, store, ◌>>=◌, ◌>>◌}
use lumic.Managed.Commands.{Host, find_service}
use lumic.Managed.Operations.{is_database_of}

abbrev pub is_backup_char : ℕ → Bool
is_backup_char c = is_ascii_lowercase c || is_ascii_digit c || nat_beq c b'-' || nat_beq c b'_'

unfoldable pub validate_backup_id : String → Check
validate_backup_id value =
    ensure (not (empty value) && leb (len value) 192 && all is_backup_char (codes value))
      (invalid "backup" "backup id contains unsupported characters")

abbrev pub service_secret_reference : String → String → String
service_secret_reference service_id secret_name = service_id <> ("-" <> dashes secret_name)

abbrev pub database_user_secret_reference : String → String → String
database_user_secret_reference service_id user = service_id <> ("-" <> (dashes user <> "-password"))

abbrev pub is_user_of : String → String → DatabaseUser → Bool
is_user_of service_id name u = (u.service_id == service_id) && (u.name == name)

-- pushing onto the secrets of the first service of the id
abbrev pub add_reference : String → String → List ManagedService → List ManagedService
add_reference id reference [] = []
add_reference id reference (s ∷ services) =
    let rest = add_reference id reference services in
    if s.id == id
    then record s { secret_references = s.secret_references ++ reference ∷ [] } ∷ services
    else s ∷ rest

-- writing back through what `iter_mut().find` gave
abbrev pub put_user : (DatabaseUser → Bool) → DatabaseUser → List DatabaseUser → List DatabaseUser
put_user chosen u [] = []
put_user chosen u (v ∷ rest) =
    let later = put_user chosen u rest in if chosen v then u ∷ rest else v ∷ later

-- `if let Err(error) = ... { self.secrets.delete(&secret_reference)?; return Err(error); }`
abbrev pub or_delete_secret : Host → String → Check → Check
or_delete_secret host reference (ok tt) = ok tt
or_delete_secret host reference (err e) = kept (host.delete_secret reference)
  where
    kept : Check → Check
    kept (ok tt) = err e
    kept (err e') = err e'

module _ {V : Type 0} ⦃wire : Wire V⦄ where
  abbrev pub add_user :
      Host
      → Context
      → ManagedService
      → ManagedServiceState
      → DatabaseUser
      → Option DatabaseUser
      → Session V DatabaseUser
  add_user host context service state user (some existing) = lift (ok existing)
  add_user host context service state user none =
      if context.dry_run
      then lift (ok user)
      else (lift (host.create_secret user.secret_reference)
          >> (lift (host.read_secret user.secret_reference) >>= λ password.
              lift (
                or_delete_secret host user.secret_reference
                  (host.create_user service.kind user.name password))
              >> (store
                    (record state {
                      users = state.users ++ user ∷ [];
                      services = add_reference user.service_id user.secret_reference state.services;
                    })
                    context.now
                  >> (lift (host.record_event "create_user" service context true)
                      >> lift (ok user)))))

  unfoldable pub create_database_user : Host → Context → String → String → Session V DatabaseUser
  create_database_user host context service_id name = do
    lift (validate_database_identifier "user" name)
    service ← find_service context service_id
    state ← load context.now
    let user : DatabaseUser = record {
      id = service_id <> ("-" <> name);
      service_id = service_id;
      name = name;
      secret_reference = database_user_secret_reference service_id name;
      databases = [];
      created_at_unix_ms = context.now;
      updated_at_unix_ms = context.now;
    }
    add_user host context service state user (find (is_user_of service_id name) state.users)

  abbrev pub grant_user :
      Host
      → Context
      → ManagedService
      → ManagedServiceState
      → String
      → String
      → Option DatabaseUser
      → Session V DatabaseUser
  grant_user host context service state database user none =
      lift (err (invalid "user" "database user is not managed by this service"))
  grant_user host context service state database user (some item) =
      if contains item.databases database || context.dry_run
      then lift (ok item)
      else (let granted : DatabaseUser = record item {
        databases = item.databases ++ database ∷ [];
        updated_at_unix_ms = context.now;
      } in
          lift (host.grant service.kind database user)
          >> (store
                (record state { users = put_user (is_user_of service.id user) granted state.users })
                context.now
              >> (lift (host.record_event "grant" service context true) >> lift (ok granted))))

  unfoldable pub grant_database : Host → Context → String → String → String → Session V DatabaseUser
  grant_database host context service_id database user = do
    lift (validate_database_identifier "database" database)
    lift (validate_database_identifier "user" user)
    service ← find_service context service_id
    state ← load context.now
    lift (
        ensure (any (is_database_of service_id database) state.databases)
          (invalid "database" "database is not managed by this service"))
    grant_user host context service state database user
        (find (is_user_of service_id user) state.users)
