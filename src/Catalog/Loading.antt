-- ===== src/Catalog/Loading.antt =====
-- crates/lumic-core/src/catalog.rs: `Catalog::from_documents` and the look-ups of the catalog.
use lumic.Prelude.{
  String, Bool, ◌⊎◌, inl, inr, map, Option, none, some, List, [], ◌∷◌, ◌==◌, string_eq, ◌<>◌, any,
  keep, is_some,
}
use lumic.Error.{Result, Check, ok, err, invalid, reject_if, ◌>>=◌, ◌>>◌}
use lumic.Json.{Values}
use lumic.Resource.{Entries}
use lumic.Configuration.{get, insert}
use lumic.Catalog.{
  ServiceDefinition, RuntimeDefinition, ApplicationDefinition, validate_service_definition,
  validate_runtime_definition, validate_application_definition, validate_capability,
}

-- `toml::from_str` at the three types of documents, with the text of its error
pub record Toml (V : Type 0) : Type 0 where
  pub service : String → String ⊎ ServiceDefinition V
  pub runtime : String → String ⊎ RuntimeDefinition V
  pub application : String → String ⊎ ApplicationDefinition V

pub record Catalog (V : Type 0) : Type 0 where
  pub services : Entries (ServiceDefinition V)
  pub runtimes : Entries (RuntimeDefinition V)
  pub applications : Entries (ApplicationDefinition V)

abbrev pub parse_toml : {D : Type 0} → String → String ⊎ D → Result D
parse_toml kind (inl error) = err (invalid kind ("invalid TOML: " <> error))
parse_toml kind (inr definition) = ok definition

unfoldable pub insert_unique : {D : Type 0} → Entries D → String → D → Result (Entries D)
insert_unique m id value = do
  reject_if (is_some (get id m)) (invalid "catalog.id" ("duplicate ID '" <> (id <> "'")))
  ok (insert id value m)

-- one of the three loops, over what it parses, validates and inserts by
unfoldable pub load :
    {D : Type 0}
    → (String → Result D)
    → (D → Check)
    → (D → String)
    → Entries D
    → List String
    → Result (Entries D)
load parse validate id_of m [] = ok m
load parse validate id_of m (document ∷ documents) = do
  definition ← parse document
  validate definition
  next ← insert_unique m (id_of definition) definition
  load parse validate id_of next documents

module _ {V : Type 0} ⦃values : Values V⦄ where
  unfoldable pub from_documents :
      Toml V → (services runtimes applications : List String) → Result (Catalog V)
  from_documents toml services runtimes applications = do
    loaded_services ←
        load (λ document. parse_toml "service" (toml.service document)) validate_service_definition
          (λ d. d.id) [] services
    loaded_runtimes ←
        load (λ document. parse_toml "runtime" (toml.runtime document)) validate_runtime_definition
          (λ d. d.id) [] runtimes
    loaded_applications ←
        load (λ document. parse_toml "application" (toml.application document))
          validate_application_definition (λ d. d.id) [] applications
    ok record {
      services = loaded_services;
      runtimes = loaded_runtimes;
      applications = loaded_applications;
    }

  abbrev pub provides : String → ServiceDefinition V → Bool
  provides capability service = any (λ output. output.capability == capability) service.outputs

  abbrev pub values_of : Entries (ServiceDefinition V) → List (ServiceDefinition V)
  values_of entries = map (λ entry. entry.1) entries

  -- the first provider, unless there is a second
  abbrev pub one_provider :
      String → List (ServiceDefinition V) → Result (Option (ServiceDefinition V))
  one_provider capability [] = ok none
  one_provider capability (service ∷ []) = ok (some service)
  one_provider capability (_ ∷ _ ∷ _) = err (
      invalid "requirements.capability"
        ("capability '" <> (capability <> "' has multiple providers; select one explicitly")))

  unfoldable pub service_for_capability : Catalog V → String → Result (Option (ServiceDefinition V))
  service_for_capability catalog capability = do
    validate_capability "requirements.capability" capability
    one_provider capability (keep (provides capability) (values_of catalog.services))
