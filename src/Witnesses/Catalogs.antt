-- ===== src/Witnesses/Catalogs.antt =====
-- Definitions and catalogs at concrete inputs.
use lumic.Prelude.{
  String, true, false, ◌≡◌, refl, ◌⊎◌, inl, inr, none, some, List, [], ◌∷◌, All, ◌==◌, string_eq,
  if◌then◌else◌,
}
use lumic.Error.{ok}
use lumic.Json.{Sample, amount, sample_json, sample_values}
use lumic.Resource.{Entries}
use lumic.Configuration.{
  ConfigurationField, ConfigurationSchema, port, integer, restart, file, command, resolve,
}
use lumic.Catalog.{
  ServiceDefinition, RuntimeDefinition, ApplicationDefinition, ServiceCategory, other, singleton,
  directives,
}
use lumic.Catalog.Loading.{Toml, Catalog, from_documents, values_of, service_for_capability}
use lumic.Catalog.Providers.{
  Answers, service_for_capability-Answers, HoldsDocuments, from_documents-HoldsDocuments,
}
use lumic.Catalog.Render.{
  RenderedConfigurationFile, RenderedConfigurationCommand, render_configuration_files,
  render_configuration_commands,
}
use lumic.Catalog.Render.Collected.{collected_files, render_configuration_files_lem}
use lumic.Catalog.Render.Commands.{IsReviewed, render_configuration_commands-IsReviewed}

abbrev pub listen_field : ConfigurationField Sample
listen_field = record {
  key = "port";
  label = "Port";
  description = "";
  field_type = port;
  required = false;
  default = some (amount 1);
  values = [];
  minimum = none;
  maximum = none;
  advanced = false;
  sensitive = false;
  apply = restart;
  target = some (file "main" "listen");
}

abbrev pub limit_field : ConfigurationField Sample
limit_field = record {
  key = "limit";
  label = "Limit";
  description = "";
  field_type = integer;
  required = false;
  default = some (amount 1);
  values = [];
  minimum = none;
  maximum = none;
  advanced = false;
  sensitive = false;
  apply = restart;
  target = some (command ("examplectl" ∷ "{{ value }}" ∷ []));
}

abbrev pub example_service : ServiceDefinition Sample
example_service = record {
  schema_version = 1;
  definition_version = 1;
  id = "example";
  name = "Example";
  category = other;
  description = "Example";
  driver = "example";
  instance_policy = singleton;
  capabilities = record {
    configure = true;
    start = true;
    stop = true;
    restart = true;
    reload = false;
    enable = true;
    disable = true;
    health = true;
    logs = true;
    upgrade = false;
    backup = false;
    restore = false;
    remove = true;
    resources = false;
  };
  configuration = listen_field ∷ limit_field ∷ [];
  config_files =
      record { id = "main"; path = "/etc/example.conf"; format = directives; section = none } ∷ [];
  resources = [];
  outputs =
      record { key = "url"; output_type = "string"; capability = "example.url"; sensitive = false }
      ∷ [];
  platforms =
      record {
        distribution = "debian";
        «package» = "example";
        unit = "example.service";
        data_path = none;
      }
      ∷ [];
}

abbrev pub both_defaults : Entries Sample
both_defaults = ("limit", amount 1) ∷ ("port", amount 1) ∷ []

resolved_example : resolve (listen_field ∷ limit_field ∷ []) [] ≡ ok both_defaults
unfolding resolve lumic.Configuration.validate_schema lumic.Configuration.validate_fields
    lumic.Configuration.validate_definition lumic.Configuration.validate_catalog_key
    lumic.Configuration.validate_value lumic.Configuration.matches
    lumic.Configuration.validate_target lumic.Configuration.integer_in_range
    lumic.Configuration.is_direct lumic.Configuration.resolve_fields
    lumic.Configuration.resolve_field lumic.Configuration.get lumic.Configuration.insert
resolved_example = refl

abbrev example_files : List RenderedConfigurationFile
example_files =
    record { path = "/etc/example.conf"; content = "# Managed by Lumic\nlisten 1\n" } ∷ []

rendered_files : render_configuration_files example_service [] ≡ ok example_files
unfolding render_configuration_files resolve lumic.Configuration.validate_schema
    lumic.Configuration.validate_fields lumic.Configuration.validate_definition
    lumic.Configuration.validate_catalog_key lumic.Configuration.validate_value
    lumic.Configuration.matches lumic.Configuration.validate_target
    lumic.Configuration.integer_in_range lumic.Configuration.is_direct
    lumic.Configuration.resolve_fields lumic.Configuration.resolve_field lumic.Configuration.get
    lumic.Catalog.Render.render_lines lumic.Configuration.insert
    lumic.Catalog.Render.render_configuration_value lumic.Catalog.Render.file_of
    lumic.Catalog.Render.section_text lumic.Catalog.Render.lines_text lumic.Catalog.Render.line_text
rendered_files = refl

render_configuration_files_lem_example :
    example_files ≡ collected_files example_service both_defaults
render_configuration_files_lem_example =
    render_configuration_files_lem example_service [] both_defaults example_files resolved_example
      rendered_files

abbrev example_commands : List RenderedConfigurationCommand
example_commands = record { field = "limit"; command = "examplectl" ∷ "1" ∷ [] } ∷ []

rendered_commands : render_configuration_commands example_service [] ≡ ok example_commands
unfolding render_configuration_commands resolve lumic.Configuration.validate_schema
    lumic.Configuration.validate_fields lumic.Configuration.validate_definition
    lumic.Configuration.validate_catalog_key lumic.Configuration.validate_value
    lumic.Configuration.matches lumic.Configuration.validate_target
    lumic.Configuration.integer_in_range lumic.Configuration.is_direct
    lumic.Configuration.resolve_fields lumic.Configuration.resolve_field lumic.Configuration.get
    lumic.Catalog.Render.render_commands lumic.Configuration.insert
    lumic.Catalog.Render.render_configuration_value
rendered_commands = refl

render_configuration_commands-IsReviewed_example :
    All (IsReviewed (listen_field ∷ limit_field ∷ [])) example_commands
render_configuration_commands-IsReviewed_example =
    render_configuration_commands-IsReviewed example_service [] example_commands rendered_commands

abbrev example_service_text : String → String ⊎ ServiceDefinition Sample
example_service_text document =
    if document == "example.toml" then inr example_service else inl "no such document"

abbrev example_toml : Toml Sample
example_toml = record {
  service = example_service_text;
  runtime = λ document. inl "no such document";
  application = λ document. inl "no such document";
}

abbrev pub example_catalog : Catalog Sample
example_catalog = record {
  services = ("example", example_service) ∷ [];
  runtimes = [];
  applications = [];
}

loading : from_documents example_toml ("example.toml" ∷ []) [] [] ≡ ok example_catalog
unfolding from_documents lumic.Catalog.Loading.load lumic.Catalog.validate_service_definition
    lumic.Catalog.validate_definition_header lumic.Catalog.validate_catalog_id
    lumic.Configuration.validate_schema lumic.Configuration.validate_fields
    lumic.Configuration.validate_definition lumic.Configuration.validate_catalog_key
    lumic.Configuration.validate_value lumic.Configuration.matches
    lumic.Configuration.validate_target lumic.Configuration.integer_in_range
    lumic.Configuration.is_direct lumic.Catalog.validate_config_files
    lumic.Catalog.validate_resources lumic.Catalog.validate_outputs
    lumic.Catalog.validate_capability lumic.Catalog.validate_platforms
    lumic.Catalog.Loading.insert_unique lumic.Configuration.get lumic.Configuration.insert
loading = refl

from_documents-HoldsDocuments_example :
    HoldsDocuments example_toml ("example.toml" ∷ []) [] [] example_catalog
from_documents-HoldsDocuments_example =
    from_documents-HoldsDocuments example_toml ("example.toml" ∷ []) [] [] example_catalog loading

providing : service_for_capability example_catalog "example.url" ≡ ok (some example_service)
unfolding service_for_capability lumic.Catalog.validate_capability
providing = refl

service_for_capability-Answers_example :
    Answers "example.url" (values_of example_catalog.services) (some example_service)
service_for_capability-Answers_example =
    service_for_capability-Answers example_catalog "example.url" (some example_service) providing
