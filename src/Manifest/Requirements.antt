-- ===== src/Manifest/Requirements.antt =====
-- crates/lumic-core/src/application_manifest.rs: the services that a manifest asks for, in
-- `ApplicationManifest::resolve`, and the whole of it.
pub mod Satisfied
pub mod Resolved
use lumic.Prelude.{
  String, Bool, true, false, not, ◌||◌, Option, none, some, List, [], ◌∷◌, ◌++◌, PartialEq, ◌==◌,
  string_eq, ◌<>◌, find, map, starts_with, if◌then◌else◌,
}
use lumic.Error.{
  LumicError, invalid_input, Result, Check, ok, err, invalid, ensure, traverse, ◌>>=◌, ◌>>◌,
}
use lumic.Json.{Values}
use lumic.Resource.{Entries}
use lumic.Configuration.{get, insert, resolve}
use lumic.Catalog.{ServiceDefinition, ServiceResourceDefinition, ServiceCategory}
use lumic.Catalog.Loading.{Catalog, provides, service_for_capability}
use lumic.Application.{
  NodeHandoff, ApplicationProcess, DeploymentWorkflow, HealthCheck, validate_branch, validate_slug,
  validate_workflow,
}
use lumic.Manifest.{
  ManifestService, ManifestServiceDetail, simple, detailed, service_type_of, ManifestRequirement,
  ApplicationManifest, validate_manifest,
}
use lumic.Manifest.Resolve.{
  ApplicationRuntime, NodePackageManager, resolve_runtime, manager_of, node_handoff_of,
  processes_of, health_of,
}

pub record ManifestServiceRequirement (V : Type 0) : Type 0 where
  pub role : String
  pub capability : String
  pub service_type : String
  pub instance_name : Option String
  pub database : Option String
  pub user : Option String
  pub optional : Bool
  pub configuration : Entries V
  pub resources : Entries (Entries V)

pub record ResolvedApplicationManifest (V : Type 0) : Type 0 where
  pub manifest : ApplicationManifest V
  pub runtime : ApplicationRuntime
  pub runtime_version : Option String
  pub runtime_components : List String
  pub package_manager : Option NodePackageManager
  pub branch : String
  pub source_subdirectory : Option String
  pub public_directory : Option String
  pub workflow : DeploymentWorkflow
  pub health : HealthCheck
  pub processes : List ApplicationProcess
  pub service_requirements : List (ManifestServiceRequirement V)
  pub shared_directories : List String
  pub shared_files : List String

abbrev pub requirement_error : String → LumicError → LumicError
requirement_error role (invalid_input field message) =
    invalid ("requirements." <> (role <> ("." <> field))) message
requirement_error role error = error

abbrev pub map_error : {A : Type 0} → String → Result A → Result A
map_error role (ok a) = ok a
map_error role (err error) = err (requirement_error role error)

abbrev pub or_error : {A : Type 0} → LumicError → Option A → Result A
or_error error none = err error
or_error error (some a) = ok a

abbrev pub is_web : ServiceCategory → Bool
is_web ServiceCategory.web = true
is_web _ = false

abbrev pub first_or : Option String → Option String → Option String
first_or none second = second
first_or (some a) second = some a

abbrev pub branch_or : String → Option String → String
branch_or default_branch none = default_branch
branch_or default_branch (some name) = name

abbrev pub head_of : {A : Type 0} → List A → Option A
head_of [] = none
head_of (a ∷ _) = some a

module _ {V : Type 0} where
  abbrev pub detail_requirement :
      String
      → ManifestService
      → (instance_name database user : Option String) → ManifestServiceRequirement V
  detail_requirement role service instance_name database user = record {
    role = role;
    capability = "service." <> service_type_of service;
    service_type = service_type_of service;
    instance_name = instance_name;
    database = database;
    user = user;
    optional = false;
    configuration = [];
    resources = [];
  }

  abbrev pub service_requirement : String × ManifestService → ManifestServiceRequirement V
  service_requirement (role, simple value) = detail_requirement role (simple value) none none none
  service_requirement (role, detailed detail) =
      detail_requirement role (detailed detail) detail.instance_name detail.database detail.user

  abbrev pub workflow_of : ApplicationManifest V → Option NodeHandoff → DeploymentWorkflow
  workflow_of m handoff = record {
    pre_deploy = m.deployment.before;
    build = head_of m.build;
    migrate = head_of m.migrations;
    post_deploy = m.deployment.after;
    node_handoff = handoff;
  }

module _ {V : Type 0} ⦃values : Values V⦄ where
  abbrev pub checked_name : String → Option V → Result (Option String)
  checked_name kind none = ok none
  checked_name kind (some value) = do
    name ←
        or_error (invalid ("requirements.resources." <> (kind <> ".name")) "must be a string")
          (values.json.as_str value)
    validate_slug ("requirements.resources." <> (kind <> ".name")) name
    ok (some name)

  abbrev pub name_in : Option (Entries V) → Option V
  name_in none = none
  name_in (some configuration) = get "name" configuration

  unfoldable pub resource_name : Entries (Entries V) → String → Result (Option String)
  resource_name resources kind = checked_name kind (name_in (get kind resources))

  unfoldable pub resolve_resources :
      String
      → ServiceDefinition V
      → Entries (Entries V)
      → Entries (Entries V)
      → Result (Entries (Entries V))
  resolve_resources role provider resolved [] = ok resolved
  resolve_resources role provider resolved ((kind, supplied) ∷ resources) = do
    definition ←
        or_error
          (invalid "requirements.resources" (
            "provider '"
            <> (provider.id <> ("' does not expose resource type '" <> (kind <> "'")))))
          (find (λ resource. resource.kind == kind) provider.resources)
    configuration ← map_error role (resolve definition.configuration supplied)
    resolve_resources role provider (insert kind configuration resolved) resources

  unfoldable pub provider_of :
      Catalog V → Option String → String → Result (Option (ServiceDefinition V))
  provider_of catalog none capability = service_for_capability catalog capability
  provider_of catalog (some provider) capability = do
    definition ←
        or_error
          (invalid "requirements.provider" ("unknown service provider '" <> (provider <> "'")))
          (get provider catalog.services)
    ensure (provides capability definition) (
        invalid "requirements.provider"
          ("provider '" <> (provider <> ("' does not expose '" <> (capability <> "'")))))
    ok (some definition)

  unfoldable pub from_provider :
      ManifestRequirement V
      → Option (ServiceDefinition V)
      → Result (List (ManifestServiceRequirement V))
  from_provider requirement none =
      if requirement.optional || starts_with requirement.capability "runtime."
      then ok []
      else err (
          invalid "requirements.capability"
            ("no trusted service provides '" <> (requirement.capability <> "'")))
  from_provider requirement (some provider) = do
    configuration ←
        map_error requirement.role (resolve provider.configuration requirement.configuration)
    resources ← resolve_resources requirement.role provider [] requirement.resources
    if is_web provider.category then ok [] else do
      database ← resource_name resources "database"
      user ← resource_name resources "user"
      ok (
          record {
            role = requirement.role;
            capability = requirement.capability;
            service_type = provider.id;
            instance_name = requirement.instance_name;
            database = database;
            user = user;
            optional = requirement.optional;
            configuration = configuration;
            resources = resources;
          }
          ∷ [])

  unfoldable pub requirements_of :
      Catalog V → List (ManifestRequirement V) → Result (List (ManifestServiceRequirement V))
  requirements_of catalog [] = ok []
  requirements_of catalog (requirement ∷ requirements) = do
    provider ← provider_of catalog requirement.provider requirement.capability
    here ← from_provider requirement provider
    rest ← requirements_of catalog requirements
    ok (here ++ rest)

  -- `resolve`, with the built-in catalog as an argument
  unfoldable pub resolve_manifest :
      Result (Catalog V) → ApplicationManifest V → String → Result (ResolvedApplicationManifest V)
  resolve_manifest built_in m default_branch = do
    validate_manifest m
    chosen ← resolve_runtime m.runtime
    package_manager ← manager_of m.runtime.package_manager
    let branch = branch_or default_branch m.source.branch
    validate_branch branch
    handoff ← node_handoff_of chosen.0 m.deployment.drain_seconds m.web
    let workflow = workflow_of m handoff
    validate_workflow workflow
    processes ← processes_of m.workers m.cron
    catalog ← built_in
    requirements ← requirements_of catalog m.requirements
    ok record {
      manifest = m;
      runtime = chosen.0;
      runtime_version = chosen.1;
      runtime_components = chosen.2;
      package_manager = package_manager;
      branch = branch;
      source_subdirectory = m.source.subdirectory;
      public_directory = first_or m.public m.output;
      workflow = workflow;
      health = health_of m.health m.web;
      processes = processes;
      service_requirements = map service_requirement m.services ++ requirements;
      shared_directories = m.shared.directories;
      shared_files = m.shared.files;
    }
