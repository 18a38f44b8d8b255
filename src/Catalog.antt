-- ===== src/Catalog.antt =====
-- crates/lumic-core/src/catalog.rs: the definitions of services, runtimes and applications, and the
-- catalog that is built from reviewed documents.
pub mod Render
pub mod Loading
pub mod Providers
use lumic.Prelude.{
  ℕ, String, Bool, true, false, not, ◌&&◌, ◌||◌, Option, none, some, List, [], ◌∷◌, leb, nat_beq,
  PartialEq, ◌==◌, string_eq, codes, len, ◌<>◌, empty, is_empty, is_blank, is_some, all, any, first,
  final, keep, contains, split, is_ascii_lowercase, is_ascii_digit, is_ascii_control,
  is_ascii_alphanumeric, starts_with, if◌then◌else◌, decimal,
}
use lumic.Error.{Result, Check, ok, err, invalid, ensure, reject_if, each, ◌>>=◌, ◌>>◌}
use lumic.Json.{Values}
use lumic.Resource.{Entries}
use lumic.Configuration.{
  ConfigurationSchema, ConfigurationField, ConfigurationTarget, file, command, validate_catalog_key,
  validate_schema, valid_version, has_control, is_key_char, get, insert,
}

-- `CATALOG_SCHEMA_VERSION`
abbrev pub catalog_schema_version : ℕ
catalog_schema_version = 1

pub data ServiceCategory : Type 0 where
  web database cache search_engine runtime other : ServiceCategory

pub data InstancePolicy : Type 0 where
  singleton named versioned : InstancePolicy

pub data ConfigurationFileFormat : Type 0 where
  ini directives : ConfigurationFileFormat

pub record ConfigurationFileDefinition : Type 0 where
  pub id : String
  pub path : String
  pub format : ConfigurationFileFormat
  pub section : Option String

pub record ServiceCapabilities : Type 0 where
  pub configure : Bool
  pub start : Bool
  pub stop : Bool
  pub restart : Bool
  pub reload : Bool
  pub enable : Bool
  pub disable : Bool
  pub health : Bool
  pub logs : Bool
  pub upgrade : Bool
  pub backup : Bool
  pub restore : Bool
  pub remove : Bool
  pub resources : Bool

pub record OutputDefinition : Type 0 where
  pub key : String
  pub output_type : String
  pub capability : String
  pub sensitive : Bool

pub record PlatformMapping : Type 0 where
  pub distribution : String
  pub «package» : String
  pub unit : String
  pub data_path : Option String

pub record ServiceResourceDefinition (V : Type 0) : Type 0 where
  pub kind : String
  pub capability : String
  pub configuration : ConfigurationSchema V
  pub outputs : List OutputDefinition

pub record ServiceDefinition (V : Type 0) : Type 0 where
  pub schema_version : ℕ
  pub definition_version : ℕ
  pub id : String
  pub name : String
  pub category : ServiceCategory
  pub description : String
  pub driver : String
  pub instance_policy : InstancePolicy
  pub capabilities : ServiceCapabilities
  pub configuration : ConfigurationSchema V
  pub config_files : List ConfigurationFileDefinition
  pub resources : List (ServiceResourceDefinition V)
  pub outputs : List OutputDefinition
  pub platforms : List PlatformMapping

pub record RuntimeDefinition (V : Type 0) : Type 0 where
  pub schema_version : ℕ
  pub definition_version : ℕ
  pub id : String
  pub name : String
  pub description : String
  pub driver : String
  pub instance_policy : InstancePolicy
  pub configuration : ConfigurationSchema V
  pub outputs : List OutputDefinition

pub record ApplicationRequirement (V : Type 0) : Type 0 where
  pub capability : String
  pub role : String
  pub optional : Bool
  pub configuration : Entries V
  pub resources : List (String × Entries V)

pub record RuntimeRequirement : Type 0 where
  pub role : String
  pub runtime : String
  pub version : Option String
  pub extensions : List String

pub record ApplicationDefinition (V : Type 0) : Type 0 where
  pub schema_version : ℕ
  pub definition_version : ℕ
  pub id : String
  pub name : String
  pub description : String
  pub driver : String
  pub configuration : ConfigurationSchema V
  pub requirements : List (ApplicationRequirement V)
  pub runtime_requirements : List RuntimeRequirement

abbrev pub is_id_byte : ℕ → Bool
is_id_byte c = is_ascii_lowercase c || is_ascii_digit c || nat_beq c b'-'

unfoldable pub validate_catalog_id : String → String → Check
validate_catalog_id field value =
    ensure
      (not (empty value)
        && leb (len value) 63
        && first is_ascii_lowercase (codes value)
        && final is_ascii_alphanumeric (codes value)
        && all is_id_byte (codes value))
      (invalid field "must be a lowercase catalog ID containing letters, digits, or hyphens")

abbrev pub is_segment : List ℕ → Bool
is_segment segment = not (is_empty segment) && all is_key_char segment

unfoldable pub validate_capability : String → String → Check
validate_capability field value =
    ensure (not (empty value) && leb (len value) 128 && all is_segment (split b'.' (codes value)))
      (invalid field "must be a dot-separated capability")

unfoldable pub validate_definition_header : ℕ → ℕ → String → String → String → Check
validate_definition_header schema_version definition_version id name driver = do
  reject_if (not (nat_beq schema_version catalog_schema_version))
      (invalid "schema_version" ("unsupported catalog schema version " <> decimal schema_version))
  reject_if (nat_beq definition_version 0) (invalid "definition_version" "must be at least one")
  validate_catalog_id "id" id
  validate_catalog_id "driver" driver
  reject_if (is_blank name) (invalid "name" "must not be empty")

-- The loops go over what is left, with the set of what was met.
unfoldable pub validate_outputs : List String → List OutputDefinition → Check
validate_outputs keys [] = ok tt
validate_outputs keys (output ∷ outputs) = do
  validate_catalog_key "outputs.key" output.key
  validate_capability "outputs.capability" output.capability
  reject_if (is_blank output.output_type || contains keys output.key)
      (invalid "outputs" "output keys must be unique and output types must not be empty")
  validate_outputs (output.key ∷ keys) outputs

abbrev pub is_ini : ConfigurationFileFormat → Bool
is_ini ini = true
is_ini directives = false

unfoldable pub validate_config_files : List String → List ConfigurationFileDefinition → Check
validate_config_files ids [] = ok tt
validate_config_files ids (config_file ∷ files) = do
  validate_catalog_key "config_files.id" config_file.id
  reject_if
      (not (starts_with config_file.path "/")
        || has_control config_file.path
        || contains ids config_file.id)
      (invalid "config_files" "IDs must be unique and paths must be safe absolute paths")
  reject_if (not (is_ini config_file.format) && is_some config_file.section)
      (invalid "config_files.section" "sections are supported only for ini files")
  validate_config_files (config_file.id ∷ ids) files

abbrev pub is_versioned : InstancePolicy → Bool
is_versioned versioned = true
is_versioned _ = false

abbrev pub is_supported : String → Bool
is_supported distribution = (distribution == "debian") || (distribution == "ubuntu")

unfoldable pub validate_platforms : List String → List PlatformMapping → Check
validate_platforms met [] = ok tt
validate_platforms met (platform ∷ platforms) = do
  reject_if
      (not (is_supported platform.distribution)
        || is_blank platform.«package»
        || is_blank platform.unit
        || contains met platform.distribution)
      (invalid "platforms" "platform mappings must be unique, supported, and complete")
  validate_platforms (platform.distribution ∷ met) platforms

abbrev pub check_target_file : List ConfigurationFileDefinition → Option ConfigurationTarget → Check
check_target_file files (some (file id _)) =
    ensure (any (λ f. f.id == id) files)
      (invalid "configuration.target.file" ("references unknown config file '" <> (id <> "'")))
check_target_file files _ = ok tt

unfoldable pub validate_extensions : List String → List String → Check
validate_extensions met [] = ok tt
validate_extensions met (extension ∷ extensions) = do
  validate_catalog_key "runtime_requirements.extensions" extension
  reject_if (contains met extension)
      (invalid "runtime_requirements.extensions" ("duplicate extension '" <> (extension <> "'")))
  validate_extensions (extension ∷ met) extensions

abbrev pub check_version : Option String → Check
check_version none = ok tt
check_version (some version) =
    ensure (valid_version version)
      (invalid "runtime_requirements.version" "must be a valid runtime version")

unfoldable pub validate_runtime_requirement : RuntimeRequirement → Check
validate_runtime_requirement requirement = do
  validate_catalog_key "runtime_requirements.role" requirement.role
  validate_catalog_id "runtime_requirements.runtime" requirement.runtime
  check_version requirement.version
  validate_extensions [] requirement.extensions

module _ {V : Type 0} where
  unfoldable pub validate_requirements : List String → List (ApplicationRequirement V) → Check
  validate_requirements roles [] = ok tt
  validate_requirements roles (requirement ∷ requirements) = do
    validate_capability "requirements.capability" requirement.capability
    validate_catalog_key "requirements.role" requirement.role
    reject_if (contains roles requirement.role)
        (invalid "requirements.role" ("duplicate role '" <> (requirement.role <> "'")))
    each (λ entry. validate_catalog_key "requirements.resources" entry.0) requirement.resources
    validate_requirements (requirement.role ∷ roles) requirements

module _ {V : Type 0} ⦃values : Values V⦄ where
  unfoldable pub validate_service_resource : ServiceResourceDefinition V → Check
  validate_service_resource resource = do
    validate_catalog_key "resources.type" resource.kind
    validate_capability "resources.capability" resource.capability
    validate_schema resource.configuration
    validate_outputs [] resource.outputs

  unfoldable pub validate_resources : List String → List (ServiceResourceDefinition V) → Check
  validate_resources kinds [] = ok tt
  validate_resources kinds (resource ∷ resources) = do
    validate_service_resource resource
    reject_if (contains kinds resource.kind)
        (invalid "resources.kind" ("duplicate resource kind '" <> (resource.kind <> "'")))
    validate_resources (resource.kind ∷ kinds) resources

  unfoldable pub validate_service_definition : ServiceDefinition V → Check
  validate_service_definition d = do
    validate_definition_header d.schema_version d.definition_version d.id d.name d.driver
    validate_schema d.configuration
    validate_config_files [] d.config_files
    each (λ field. check_target_file d.config_files field.target) d.configuration
    validate_resources [] d.resources
    validate_outputs [] d.outputs
    validate_platforms [] d.platforms
    reject_if (is_empty d.platforms) (invalid "platforms" "at least one mapping is required")

  unfoldable pub validate_runtime_definition : RuntimeDefinition V → Check
  validate_runtime_definition d = do
    validate_definition_header d.schema_version d.definition_version d.id d.name d.driver
    reject_if (not (is_versioned d.instance_policy))
        (invalid "instance_policy" "runtime definitions must use versioned instances")
    validate_schema d.configuration
    validate_outputs [] d.outputs

  unfoldable pub validate_application_definition : ApplicationDefinition V → Check
  validate_application_definition d = do
    validate_definition_header d.schema_version d.definition_version d.id d.name d.driver
    validate_schema d.configuration
    validate_requirements [] d.requirements
    each validate_runtime_requirement d.runtime_requirements
