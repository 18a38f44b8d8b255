-- ===== src/Catalog/Render.antt =====
-- crates/lumic-core/src/catalog.rs: the files and commands that a configuration is rendered to.
pub mod Collected
pub mod Commands
use lumic.Prelude.{
  ℕ, String, Bool, true, false, not, ◌&&◌, ◌||◌, Option, none, some, List, [], ◌∷◌, ◌++◌, PartialEq,
  ◌==◌, string_eq, codes, ◌<>◌, empty, is_some, all, keep, map, nat_beq, is_ascii_alphanumeric,
  if◌then◌else◌,
}
use lumic.Error.{Result, Check, ok, err, invalid, reject_if, traverse, ◌>>=◌, ◌>>◌}
use lumic.Json.{Values, View}
use lumic.Resource.{Entries}
use lumic.Configuration.{
  ConfigurationSchema, ConfigurationField, ConfigurationTarget, file, command, get, insert, resolve,
  placeholder,
}
use lumic.Catalog.{
  ConfigurationFileDefinition, ConfigurationFileFormat, ini, directives, ServiceDefinition,
}

pub record RenderedConfigurationFile : Type 0 where
  pub path : String
  pub content : String

pub record RenderedConfigurationCommand : Type 0 where
  pub field : String
  pub command : List String

abbrev pub is_safe_byte : ℕ → Bool
is_safe_byte c =
    is_ascii_alphanumeric c
    || (nat_beq c b'_' || nat_beq c b'-' || nat_beq c b'.' || nat_beq c b'/' || nat_beq c b':')

abbrev pub scalar_text : View → Result String
scalar_text (View.string text) = ok text
scalar_text (View.number text) = ok text
scalar_text (View.boolean flag) = ok (if flag then "true" else "false")
scalar_text View.compound = err (invalid "configuration" "file targets support only scalar values")

-- the lines of each file, by its id, in the order of the fields
abbrev pub Lines : Type 0
Lines = Entries (List (String × String))

abbrev pub lines_of : Option (List (String × String)) → List (String × String)
lines_of none = []
lines_of (some lines) = lines

-- `entries.entry(file).or_default().push(line)`
abbrev pub push_line : String → String × String → Lines → Lines
push_line id line lines = insert id (lines_of (get id lines) ++ line ∷ []) lines

unfoldable pub section_text : Option String → String
section_text none = ""
section_text (some section) = "[" <> (section <> "]\n")

unfoldable pub line_text : ConfigurationFileFormat → String × String → String
line_text ini (key, value) = key <> (" = " <> (value <> "\n"))
line_text directives (key, value) = key <> (" " <> (value <> "\n"))

unfoldable pub lines_text : ConfigurationFileFormat → List (String × String) → String
lines_text format [] = ""
lines_text format (line ∷ lines) = line_text format line <> lines_text format lines

unfoldable pub file_of : Lines → ConfigurationFileDefinition → RenderedConfigurationFile
file_of lines config_file = record {
  path = config_file.path;
  content =
      "# Managed by Lumic\n"
      <> (section_text config_file.section
          <> lines_text config_file.format (lines_of (get config_file.id lines)));
}

abbrev pub substitute : String → List String → List String
substitute value parts = map (λ part. if part == placeholder then value else part) parts

module _ {V : Type 0} ⦃values : Values V⦄ where
  unfoldable pub render_configuration_value : V → Result String
  render_configuration_value value = do
    rendered ← scalar_text (values.view value)
    reject_if (empty rendered || not (all is_safe_byte (codes rendered)))
        (invalid "configuration" "rendered target values must be safe single-token scalars")
    ok rendered

  abbrev pub render_line : Option ConfigurationTarget → Option V → Lines → Result Lines
  render_line (some (file id key)) (some value) lines = do
    rendered ← render_configuration_value value
    ok (push_line id (key, rendered) lines)
  render_line _ _ lines = ok lines

  unfoldable pub render_lines : Entries V → Lines → ConfigurationSchema V → Result Lines
  render_lines configuration lines [] = ok lines
  render_lines configuration lines (field ∷ fields) = do
    next ← render_line field.target (get field.key configuration) lines
    render_lines configuration next fields

  unfoldable pub render_configuration_files :
      ServiceDefinition V → Entries V → Result (List RenderedConfigurationFile)
  render_configuration_files definition supplied = do
    configuration ← resolve definition.configuration supplied
    lines ← render_lines configuration [] definition.configuration
    ok (map (file_of lines) (keep (λ f. is_some (get f.id lines)) definition.config_files))

  abbrev pub render_command :
      String → Option ConfigurationTarget → Option V → Result (List RenderedConfigurationCommand)
  render_command key (some (command parts)) (some value) = do
    rendered ← render_configuration_value value
    ok (record { field = key; command = substitute rendered parts } ∷ [])
  render_command key _ _ = ok []

  unfoldable pub render_commands :
      Entries V → ConfigurationSchema V → Result (List RenderedConfigurationCommand)
  render_commands configuration [] = ok []
  render_commands configuration (field ∷ fields) = do
    here ← render_command field.key field.target (get field.key configuration)
    rest ← render_commands configuration fields
    ok (here ++ rest)

  unfoldable pub render_configuration_commands :
      ServiceDefinition V → Entries V → Result (List RenderedConfigurationCommand)
  render_configuration_commands definition supplied = do
    configuration ← resolve definition.configuration supplied
    render_commands configuration definition.configuration
