-- ===== src/Lifecycle.antt =====
-- crates/lumic-core/src/application_lifecycle.rs: the desired state of a generic PHP application and
-- the checks of it. The plans are in the child `Plan`, the pipelines in `Steps`.
pub mod Plan
pub mod Steps
pub mod Laws
pub mod Health
pub mod Contents
use lumic.Prelude.{
  ℕ, String, Bool, true, false, not, ◌&&◌, ◌||◌, Option, none, some, List, [], ◌∷◌, leb, ltb,
  nat_beq, ◌==◌, string_eq, codes, len, any, contains, is_some, split, codes_beq, starts_with,
  is_ascii_control,
}
use lumic.Error.{Result, Check, ok, invalid, ensure, reject_if, each, ◌>>=◌, ◌>>◌}
use lumic.Resource.{ResourceRef, ResourceKind, new_ref}
use lumic.Application.{
  ApplicationServiceReference, ApplicationProcess, HealthCheck, RepositoryConfig, has_break,
  option_list, validate_slug, validate_domain, validate_branch, validate_repository_url,
  validate_process,
}
use lumic.Package.{ReviewedPackageRequirement, default_catalog, review_names}

abbrev pub php_versions : List String
php_versions = "8.1" ∷ "8.2" ∷ "8.3" ∷ "8.4" ∷ []

abbrev pub php_components : List String
php_components = "curl" ∷ "intl" ∷ "mbstring" ∷ "mysql" ∷ "xml" ∷ "zip" ∷ []

pub data ApplicationLifecycleOperation : Type 0 where
  install reconcile update remove : ApplicationLifecycleOperation

-- `as_str`
abbrev pub operation_name : ApplicationLifecycleOperation → String
operation_name install = "install"
operation_name reconcile = "reconcile"
operation_name update = "update"
operation_name remove = "remove"

abbrev pub is_update : ApplicationLifecycleOperation → Bool
is_update update = true
is_update _ = false

abbrev pub is_remove : ApplicationLifecycleOperation → Bool
is_remove remove = true
is_remove _ = false

pub record GenericPhpApplicationSpec : Type 0 where
  pub id : String
  pub domain : String
  pub www_alias : Bool
  pub root : String
  pub php_version : String
  pub repository : Option RepositoryConfig
  pub components : List String
  pub databases : List ApplicationServiceReference
  pub packages : List String
  pub tls : Bool
  pub processes : List ApplicationProcess
  pub health : HealthCheck

-- a secret reference that is no `secret://` text
abbrev pub is_bad_reference : Option String → Bool
is_bad_reference reference = any (λ r. not (starts_with r "secret://")) (option_list reference)

-- `components` gives a `ParentDir` for each part `..`
unfoldable pub validate_root : String → Check
validate_root value =
    reject_if
      (not (starts_with value "/")
        || ltb 4096 (len value)
        || any is_ascii_control (codes value)
        || any (λ part. codes_beq part (codes "..")) (split b'/' (codes value)))
      (invalid "root" "must be a safe absolute path without parent traversal")

unfoldable pub unique_tokens : String → List String → List String → List String → Check
unique_tokens field allowed seen [] = ok tt
unique_tokens field allowed seen (value ∷ values) = do
  ensure (contains allowed value) (invalid field "is not a supported PHP component")
  reject_if (contains seen value) (invalid field "must not contain duplicates")
  unique_tokens field allowed (value ∷ seen) values

unfoldable pub validate_unique_tokens : String → List String → List String → Check
validate_unique_tokens field values allowed = unique_tokens field allowed [] values

unfoldable pub unique_packages : List String → List ReviewedPackageRequirement → Check
unique_packages seen [] = ok tt
unique_packages seen (item ∷ packages) = do
  reject_if (contains seen item.requirement.name.text)
      (invalid "package" "must not contain duplicates")
  unique_packages (item.requirement.name.text ∷ seen) packages

abbrev pub package_reason : String
package_reason = "generic PHP application requirement"

unfoldable pub validate_packages : List String → Check
validate_packages packages = do
  reviewed ← review_names default_catalog packages package_reason
  unique_packages [] reviewed

unfoldable pub unique_databases : List String → List ApplicationServiceReference → Check
unique_databases roles [] = ok tt
unique_databases roles (database ∷ databases) = do
  _ ← new_ref ResourceKind.managed_service database.service_id
  validate_slug "database.role" database.role
  reject_if (contains roles database.role) (invalid "database.role" "must be unique")
  reject_if (not (is_some database.database) && not (is_some database.user))
      (invalid "database" "must reference a database, a user, or both")
  reject_if (is_bad_reference database.secret_reference)
      (invalid "database.secret_reference" "must use a secret:// reference")
  unique_databases (database.role ∷ roles) databases

unfoldable pub validate_databases : List ApplicationServiceReference → Check
validate_databases databases = unique_databases [] databases

unfoldable pub unique_processes : List String → List ApplicationProcess → Check
unique_processes names [] = ok tt
unique_processes names (process ∷ processes) = do
  validate_process process
  reject_if (contains names process.name) (invalid "process" "names must be unique")
  unique_processes (process.name ∷ names) processes

unfoldable pub validate_processes : List ApplicationProcess → Check
validate_processes processes = unique_processes [] processes

abbrev pub is_between : ℕ → ℕ → ℕ → Bool
is_between low high n = leb low n && leb n high

unfoldable pub validate_health : HealthCheck → Check
validate_health health =
    reject_if
      (health.enabled
        && (not (starts_with health.path "/")
            || has_break health.path
            || nat_beq health.port 0
            || not (is_between 100 599 health.expected_status_min)
            || not (is_between health.expected_status_min 599 health.expected_status_max)
            || nat_beq health.timeout_seconds 0))
      (invalid "health" "contains an invalid HTTP health check")

unfoldable pub validate_repository : RepositoryConfig → Check
validate_repository repository = do
  validate_repository_url repository.url
  validate_branch repository.branch
  reject_if (is_bad_reference repository.credential_reference)
      (invalid "repository.credential_reference" "must use a secret:// reference")

-- `GenericPhpApplicationSpec::validate`
unfoldable pub validate_spec : GenericPhpApplicationSpec → Check
validate_spec spec = do
  validate_slug "application" spec.id
  validate_domain spec.domain
  validate_root spec.root
  each validate_repository (option_list spec.repository)
  ensure (contains php_versions spec.php_version)
      (invalid "php_version" "must be one of 8.1, 8.2, 8.3, or 8.4")
  validate_unique_tokens "component" spec.components php_components
  validate_packages spec.packages
  validate_databases spec.databases
  validate_processes spec.processes
  validate_health spec.health

-- `GenericPhpApplicationSpec::resource_ref`
unfoldable pub spec_ref : GenericPhpApplicationSpec → Result ResourceRef
spec_ref spec = new_ref ResourceKind.application spec.id
