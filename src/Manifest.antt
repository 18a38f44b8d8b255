-- ===== src/Manifest.antt =====
-- crates/lumic-core/src/application_manifest.rs: the manifest that a repository keeps of its
-- application, and its validation. A path is its text,
-- and the field `instance` is `instance_name`, since the word is taken.
pub mod Cron
pub mod Normalize
pub mod Resolve
pub mod Requirements
use lumic.Prelude.{
  ℕ, ◌+◌, String, Bool, true, false, not, ◌&&◌, ◌||◌, Option, none, some, List, [], ◌∷◌, leb, ltb,
  nat_beq, PartialEq, ◌==◌, string_eq, codes, codes_beq, len, ◌<>◌, empty, is_empty, is_some, all,
  any, contains, keep, split, starts_with, length, decimal, if◌then◌else◌,
}
use lumic.Error.{LumicError, Result, Check, ok, err, invalid, ensure, reject_if, each, ◌>>=◌, ◌>>◌}
use lumic.Resource.{Entries}
use lumic.Configuration.{get}
use lumic.Catalog.{validate_capability}
use lumic.Application.{
  ProcessRestartPolicy, ProcessHealthCheck, validate_slug, validate_branch, validate_command,
  has_break, option_list,
}
use lumic.Manifest.Cron.{cron_to_calendar}

-- `APPLICATION_MANIFEST_SCHEMA_VERSION`
abbrev pub manifest_schema_version : ℕ
manifest_schema_version = 2

pub data ManifestVersion : Type 0 where
  number : ℕ → ManifestVersion
  text : String → ManifestVersion

abbrev pub as_text : ManifestVersion → String
as_text (number value) = decimal value
as_text (text value) = value

pub record ManifestSource : Type 0 where
  pub branch : Option String
  pub subdirectory : Option String

pub record ManifestRuntime : Type 0 where
  pub static_site : Option Bool
  pub node : Option ManifestVersion
  pub php : Option ManifestVersion
  pub extensions : List String
  pub package_manager : Option String

pub record ManifestWeb : Type 0 where
  pub command : Option (List String)
  pub port : Option ℕ

pub record ManifestWorker : Type 0 where
  pub command : List String
  pub instances : ℕ
  pub environment : List (String × String)
  pub working_directory : Option String
  pub restart : ProcessRestartPolicy
  pub health : Option ProcessHealthCheck

pub record ManifestCron : Type 0 where
  pub command : List String
  pub schedule : String

pub record ManifestServiceDetail : Type 0 where
  pub service_type : String
  pub instance_name : Option String
  pub database : Option String
  pub user : Option String

pub data ManifestService : Type 0 where
  simple : String → ManifestService
  detailed : ManifestServiceDetail → ManifestService

abbrev pub service_type_of : ManifestService → String
service_type_of (simple value) = value
service_type_of (detailed detail) = detail.service_type

pub record ManifestRequirement (V : Type 0) : Type 0 where
  pub role : String
  pub capability : String
  pub provider : Option String
  pub instance_name : Option String
  pub optional : Bool
  pub configuration : Entries V
  pub resources : Entries (Entries V)

pub record ManifestDeployment : Type 0 where
  pub before : List (List String)
  pub after : List (List String)
  pub deploy_on_push : Bool
  pub retain_releases : ℕ
  pub drain_seconds : ℕ

pub record ManifestSharedPaths : Type 0 where
  pub directories : List String
  pub files : List String

pub record ManifestHealth : Type 0 where
  pub path : String
  pub port : Option ℕ
  pub expect : ℕ
  pub timeout_seconds : ℕ

pub record ApplicationManifest (V : Type 0) : Type 0 where
  pub schema_version : ℕ
  pub name : String
  pub source : ManifestSource
  pub runtime : ManifestRuntime
  pub build : List (List String)
  pub output : Option String
  pub public : Option String
  pub web : Option ManifestWeb
  pub workers : Entries ManifestWorker
  pub cron : Entries ManifestCron
  pub services : Entries ManifestService
  pub requirements : List (ManifestRequirement V)
  pub migrations : List (List String)
  pub deployment : ManifestDeployment
  pub shared : ManifestSharedPaths
  pub health : Option ManifestHealth

-- with the message of the manifest in place of the command's own
abbrev pub with_error : LumicError → Check → Check
with_error error (ok done) = ok done
with_error error (err _) = err error

unfoldable pub validate_commands : String → List (List String) → Check
validate_commands field commands =
    each
      (λ command.
        with_error (invalid field "must contain argv command arrays") (validate_command command))
      commands

abbrev pub is_dot : List ℕ → Bool
is_dot part = codes_beq part (b'.' ∷ [])

abbrev pub is_dots : List ℕ → Bool
is_dots part = codes_beq part (b'.' ∷ b'.' ∷ [])

-- the parts of a relative path that `Path::components` keeps after the first
abbrev pub is_part : List ℕ → Bool
is_part part = not (is_empty part) && not (is_dot part)

abbrev pub parts_of : List (List ℕ) → List (List ℕ)
parts_of [] = []
parts_of ([] ∷ parts) = keep is_part parts
parts_of ((c ∷ cs) ∷ parts) = (c ∷ cs) ∷ keep is_part parts

-- `Path::components` of a relative path
abbrev pub components : String → List (List ℕ)
components path = parts_of (split b'/' (codes path))

abbrev pub is_bad_path : String → Bool
is_bad_path path =
    empty path
    || starts_with path "/"
    || any (λ part. is_dot part || is_dots part) (components path)

unfoldable pub validate_optional_relative : String → Option String → Check
validate_optional_relative field path =
    reject_if (any is_bad_path (option_list path))
      (invalid field "must be a normalized relative path")

-- `Path::starts_with`, by components
abbrev pub is_within : (parts of : List (List ℕ)) → Bool
is_within parts [] = true
is_within [] (_ ∷ _) = false
is_within (part ∷ parts) (base ∷ bases) = codes_beq part base && is_within parts bases

abbrev pub overlaps : String → String → Bool
overlaps directory path =
    is_within (components path) (components directory)
    || is_within (components directory) (components path)

abbrev pub option_is : {A : Type 0} → Option A → (A → Bool) → Bool
option_is none p = false
option_is (some a) p = p a

abbrev pub is_zero : Option ℕ → Bool
is_zero port = option_is port (λ n. nat_beq n 0)

abbrev pub is_manager : String → Bool
is_manager manager = (manager == "npm") || (manager == "pnpm") || (manager == "yarn")

abbrev pub count : Bool → ℕ
count true = 1
count false = 0

abbrev pub is_true : Bool → Bool
is_true flag = flag

unfoldable pub validate_manifest_runtime : ManifestRuntime → Check
validate_manifest_runtime runtime = do
  reject_if
      (not (
        nat_beq
          (count (option_is runtime.static_site is_true)
            + (count (is_some runtime.node) + count (is_some runtime.php)))
          1))
      (invalid "runtime" "select exactly one of static_site, node, or php")
  reject_if (option_is runtime.static_site not)
      (invalid "runtime.static_site" "must be true when selected")
  reject_if (not (is_some runtime.php) && not (is_empty runtime.extensions))
      (invalid "runtime.extensions" "extensions are only valid for PHP")
  each (validate_slug "runtime.extensions") runtime.extensions
  reject_if
      (option_is runtime.package_manager
        (λ manager. not (is_manager manager) || not (is_some runtime.node)))
      (invalid "runtime.package_manager" "must be npm, pnpm, or yarn for Node")

unfoldable pub validate_manifest_health : ManifestHealth → Check
validate_manifest_health health =
    reject_if
      (not (starts_with health.path "/")
        || has_break health.path
        || is_zero health.port
        || not (leb 100 health.expect && leb health.expect 599)
        || nat_beq health.timeout_seconds 0
        || ltb 300 health.timeout_seconds)
      (invalid "health" "requires a safe path, valid port/status, and 1-300 second timeout")

unfoldable pub validate_worker : String × ManifestWorker → Check
validate_worker (name, worker) = do
  validate_slug "workers.name" name
  validate_command worker.command
  ensure (leb 1 worker.instances && leb worker.instances 64)
      (invalid "workers.instances" "must be between 1 and 64")

unfoldable pub validate_cron : String × ManifestCron → Check
validate_cron (name, job) = do
  validate_slug "cron.name" name
  validate_command job.command
  calendar ← cron_to_calendar job.schedule
  ok tt

abbrev pub instance_of : ManifestService → Option String
instance_of (simple _) = none
instance_of (detailed detail) = detail.instance_name

unfoldable pub validate_manifest_service : String × ManifestService → Check
validate_manifest_service (role, service) = do
  validate_slug "services.role" role
  validate_slug "services.type" (service_type_of service)
  each (validate_slug "services.instance") (option_list (instance_of service))

unfoldable pub validate_web : ManifestWeb → Check
validate_web web = do
  each validate_command (option_list web.command)
  reject_if (is_zero web.port) (invalid "web.port" "must be non-zero")

unfoldable pub validate_shared : ManifestSharedPaths → Check
validate_shared shared = do
  each (λ path. validate_optional_relative "shared.directories" (some path)) shared.directories
  each (λ path. validate_optional_relative "shared.files" (some path)) shared.files
  reject_if (any (λ directory. any (overlaps directory) shared.files) shared.directories)
      (invalid "shared" "file and directory declarations must be distinct and non-overlapping")

unfoldable pub validate_deployment : ManifestDeployment → Check
validate_deployment deployment = do
  ensure (leb 1 deployment.retain_releases && leb deployment.retain_releases 100)
      (invalid "deployment.retain_releases" "must be between 1 and 100")
  reject_if (ltb 300 deployment.drain_seconds)
      (invalid "deployment.drain_seconds" "must not exceed 300 seconds")

module _ {V : Type 0} where
  -- the loop over the requirements, with the roles that it has met
  unfoldable pub validate_manifest_requirements :
      Entries ManifestService → List String → List (ManifestRequirement V) → Check
  validate_manifest_requirements services roles [] = ok tt
  validate_manifest_requirements services roles (requirement ∷ requirements) = do
    validate_slug "requirements.role" requirement.role
    validate_capability "requirements.capability" requirement.capability
    each (validate_slug "requirements.provider") (option_list requirement.provider)
    each (validate_slug "requirements.instance") (option_list requirement.instance_name)
    reject_if (contains roles requirement.role || is_some (get requirement.role services))
        (invalid "requirements.role" "roles must be unique")
    each (λ entry. validate_slug "requirements.resources" entry.0) requirement.resources
    validate_manifest_requirements services (requirement.role ∷ roles) requirements

  unfoldable pub validate_manifest_header : ApplicationManifest V → Check
  validate_manifest_header m = do
    ensure (nat_beq m.schema_version 1 || nat_beq m.schema_version manifest_schema_version) (
        invalid "schema_version"
          "only lumic.toml schema_version 2 and legacy lumic.yaml schema_version 1 are supported")
    validate_slug "name" m.name
    each validate_branch (option_list m.source.branch)
    validate_optional_relative "source.subdirectory" m.source.subdirectory
    validate_optional_relative "output" m.output
    validate_optional_relative "public" m.public
    reject_if (is_some m.output && is_some m.public)
        (invalid "output" "output and public are mutually exclusive")

  unfoldable pub validate_manifest : ApplicationManifest V → Check
  validate_manifest m = do
    validate_manifest_header m
    validate_manifest_runtime m.runtime
    validate_commands "build" m.build
    validate_commands "migrations" m.migrations
    validate_commands "deployment.before" m.deployment.before
    validate_commands "deployment.after" m.deployment.after
    validate_deployment m.deployment
    reject_if (ltb 1 (length m.build)) (invalid "build" "only one argv build command is supported")
    reject_if (ltb 1 (length m.migrations))
        (invalid "migrations" "only one argv migration command is supported")
    each validate_worker m.workers
    each validate_cron m.cron
    each validate_manifest_service m.services
    validate_manifest_requirements m.services [] m.requirements
    each validate_web (option_list m.web)
    each validate_manifest_health (option_list m.health)
    validate_shared m.shared
