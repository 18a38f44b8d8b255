-- ===== src/Managed/Publish.antt =====
-- crates/lumic-platform/src/managed_service.rs: the bindings that lead the outputs of a service to an
-- application. SHA-256 is a parameter, and of the application its id and its domain.
use lumic.Prelude.{
  ℕ, String, Bool, not, ◌&&◌, ◌||◌, Option, none, some, List, [], ◌∷◌, ◌++◌, ◌<>◌, ◌==◌, string_eq,
  keep, if◌then◌else◌,
}
use lumic.Error.{Result, ok, ◌>>=◌, ◌>>◌}
use lumic.Resource.{
  ResourceRef, ref_eq, ResourceRecord, application, managed_service, service_resource, new_ref,
}
use lumic.Binding.{Binding}
use lumic.Application.{ApplicationServiceReference}
use lumic.Framework.{FrameworkState, validate_state}
use lumic.Managed.{ManagedService}
use lumic.Managed.Wire.{Wire, wire_json}
use lumic.Managed.Conversion.{string_value}
use lumic.Managed.Services.{search_secret_name}

-- `binding_id`, with the digest in hexadecimal
abbrev pub binding_id : (String → String) → String → String → String → String
binding_id sha256 kind application_id role =
    "application-"
    <> (kind <> ("-" <> sha256 (application_id <> ("\0" <> (role <> ("\0" <> kind))))))

abbrev pub replace_binding : List Binding → Binding → List Binding
replace_binding bindings b =
    keep
      (λ existing.
        not (existing.id == b.id)
        && not ((existing.consumer == b.consumer) && (existing.input == b.input)))
      bindings
    ++ b ∷ []

-- a binding to one of the three inputs of a role
abbrev pub is_role_input : String → String → Bool
is_role_input role input =
    (input == (role <> "_database"))
    || (input == (role <> "_endpoint"))
    || (input == (role <> "_credential"))

module _ {V : Type 0} ⦃wire : Wire V⦄ where
  abbrev pub touch_application :
      ResourceRef → String → ℕ → List (ResourceRecord V) → List (ResourceRecord V)
  touch_application reference domain now [] =
      record {
        resource = reference;
        attributes =
            ("domain", string_value domain) ∷ ("resource_type", string_value "application") ∷ [];
        outputs = [];
        created_at_unix_ms = now;
        updated_at_unix_ms = now;
      }
      ∷ []
  touch_application reference domain now (r ∷ resources) =
      let rest = touch_application reference domain now resources in
      if r.resource == reference
      then record r { updated_at_unix_ms = now } ∷ resources
      else r ∷ rest

-- the three bindings that a reference may lead to
abbrev pub binding_to :
    (String → String)
    → String
    → String
    → ℕ
    → ResourceRef
    → String
    → String
    → (producer : ResourceRef) → String
    → Binding
binding_to sha256 application_id role now consumer kind input producer output = record {
  id = binding_id sha256 kind application_id role;
  producer = producer;
  output = output;
  consumer = consumer;
  input = input;
  created_at_unix_ms = now;
}

module _ (sha256 : String → String) (application_id : String)
    (reference : ApplicationServiceReference) (now : ℕ) (consumer : ResourceRef) where
  abbrev bound : String → ResourceRef → String → Binding
  bound kind producer output =
      binding_to sha256 application_id reference.role now consumer kind
        (reference.role <> ("_" <> kind)) producer output

  -- the two bindings of a search service
  abbrev pub search_bindings : String → ResourceRef → List Binding → List Binding
  search_bindings secret_name provider bindings =
      replace_binding (replace_binding bindings (bound "endpoint" provider "http"))
        (bound "credential" provider secret_name)

  abbrev pub bind_database : Option String → List Binding → Result (List Binding)
  bind_database none bindings = ok bindings
  bind_database (some database) bindings = do
    producer ← new_ref service_resource ("database." <> (reference.service_id <> ("-" <> database)))
    ok (replace_binding bindings (bound "database" producer "database"))

  abbrev pub bind_user : Option String → List Binding → Result (List Binding)
  bind_user none bindings = ok bindings
  bind_user (some user) bindings = do
    producer ←
        new_ref service_resource ("database-user." <> (reference.service_id <> ("-" <> user)))
    ok (replace_binding bindings (bound "credential" producer "credential"))

  -- by what `search_secret_name` gives for the kind
  abbrev pub bind_reference : Option String → List Binding → Result (List Binding)
  bind_reference (some secret_name) bindings = do
    provider ← new_ref managed_service reference.service_id
    ok (search_bindings secret_name provider bindings)
  bind_reference none bindings = do
    with_database ← bind_database reference.database bindings
    bind_user reference.user with_database

  -- the `retain` before
  abbrev pub other_bindings : List Binding → List Binding
  other_bindings bindings =
      keep (λ b. not (b.consumer == consumer) || not (is_role_input reference.role b.input))
        bindings

module _ {V : Type 0} ⦃wire : Wire V⦄ where
  unfoldable pub persist_application_service_bindings :
      (String → String)
      → FrameworkState V
      → (application_id domain : String) → ManagedService
      → ApplicationServiceReference
      → ℕ
      → Result (FrameworkState V)
  persist_application_service_bindings sha256 state application_id domain service reference now = do
    application_ref ← new_ref application application_id
    bindings ←
        bind_reference sha256 application_id reference now application_ref
          (search_secret_name service.kind)
          (other_bindings sha256 application_id reference now application_ref state.bindings)
    let next : FrameworkState V = record state {
      resources = touch_application application_ref domain now state.resources;
      bindings = bindings;
    }
    validate_state next
    ok next
