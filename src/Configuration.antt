-- ===== src/Configuration.antt =====
-- crates/lumic-core/src/catalog.rs: the fields of a configuration form, which of them are accepted,
-- and how submitted values are resolved against them.
pub mod Lookup
pub mod Resolve
pub mod Resubmit
pub mod Redact
pub mod Apply
use Prim.Native.Nat.{Ordering}
use Prim.Native.String
use lumic.Prelude.{
  ℕ, ℤ, pos, int_leb, String, Bool, true, false, not, ◌&&◌, ◌||◌, Option, none, some, List, [], ◌∷◌,
  leb, ltb, nat_beq, PartialEq, ◌==◌, string_eq, codes, len, ◌<>◌, empty, is_empty, is_blank,
  is_some, all, any, first, keep, map, length, contains, find, starts_with, is_ascii_lowercase,
  is_ascii_digit, is_ascii_control, if◌then◌else◌,
}
use lumic.Error.{Result, Check, ok, err, invalid, ensure, reject_if, each, ◌>>=◌, ◌>>◌}
use lumic.Json.{Values, View}
use lumic.Net.{parse_ip}
use lumic.Resource.{Entries}

pub data ConfigurationFieldType : Type 0 where
  string integer boolean enum bytes address port path secret version : ConfigurationFieldType

pub data ApplyBehavior : Type 0 where
  no_action reload restart recreate : ApplyBehavior

-- the derived `Ord`, in which `None` is the least
abbrev pub strength : ApplyBehavior → ℕ
strength no_action = 0
strength reload = 1
strength restart = 2
strength recreate = 3

pub data ConfigurationTarget : Type 0 where
  file : (id key : String) → ConfigurationTarget
  command : (parts : List String) → ConfigurationTarget

pub record ConfigurationField (V : Type 0) : Type 0 where
  pub key : String
  pub label : String
  pub description : String
  pub field_type : ConfigurationFieldType
  pub required : Bool
  pub default : Option V
  pub values : List V
  pub minimum : Option ℤ
  pub maximum : Option ℤ
  pub advanced : Bool
  pub sensitive : Bool
  pub apply : ApplyBehavior
  pub target : Option ConfigurationTarget

-- `ConfigurationSchema`
abbrev pub ConfigurationSchema : Type 0 → Type 0
ConfigurationSchema V = List (ConfigurationField V)

abbrev pub is_enum : ConfigurationFieldType → Bool
is_enum enum = true
is_enum _ = false

abbrev pub is_secret_type : ConfigurationFieldType → Bool
is_secret_type secret = true
is_secret_type _ = false

abbrev pub is_key_char : ℕ → Bool
is_key_char c = is_ascii_lowercase c || is_ascii_digit c || nat_beq c b'_'

unfoldable pub validate_catalog_key : String → String → Check
validate_catalog_key field value =
    ensure
      (not (empty value)
        && leb (len value) 64
        && first is_ascii_lowercase (codes value)
        && all is_key_char (codes value))
      (invalid field ("'" <> (value <> "' must be a lowercase data key")))

abbrev pub has_control : String → Bool
has_control text = any is_ascii_control (codes text)

abbrev pub is_version_char : ℕ → Bool
is_version_char c = is_ascii_digit c || (nat_beq c b'.' || nat_beq c b'-' || nat_beq c b'+')

unfoldable pub valid_version : String → Bool
valid_version value =
    not (empty value)
    && leb (len value) 32
    && first is_ascii_digit (codes value)
    && all is_version_char (codes value)

-- `is_some_and`
abbrev pub is_some_and : {A : Type 0} → Option A → (A → Bool) → Bool
is_some_and none p = false
is_some_and (some a) p = p a

-- `is_none_or`
abbrev pub is_none_or : {A : Type 0} → Option A → (A → Bool) → Bool
is_none_or none p = true
is_none_or (some a) p = p a

abbrev pub exceeds : Option ℤ → Option ℤ → Bool
exceeds (some low) (some high) = not (int_leb low high)
exceeds _ _ = false

abbrev pub is_directive_char : ℕ → Bool
is_directive_char c =
    is_ascii_lowercase c || is_ascii_digit c || (nat_beq c b'_' || nat_beq c b'-' || nat_beq c b'.')

abbrev pub placeholder : String
placeholder = "{{ value }}"

abbrev pub is_shell : List String → Bool
is_shell [] = false
is_shell (program ∷ _) = (program == "sh") || (program == "bash")

-- the test of a command target, as it is accepted
unfoldable pub is_direct : List String → Bool
is_direct parts = not (
    is_empty parts
    || any (λ part. empty part || has_control part) parts
    || is_shell parts
    || any (λ part. part == "-c") parts
    || not (nat_beq (length (keep (λ part. part == placeholder) parts)) 1))

unfoldable pub validate_target : ConfigurationTarget → Check
validate_target (file id key) = do
  validate_catalog_key "configuration.target.file" id
  ensure (not (empty key) && leb (len key) 128 && all is_directive_char (codes key))
      (invalid "configuration.target.key" "must be a bounded directive key")
validate_target (command parts) = ensure (is_direct parts) (
    invalid "configuration.target.command"
      "must be direct argv without a shell and contain one '{{ value }}' argument")

abbrev pub check_target : Option ConfigurationTarget → Check
check_target none = ok tt
check_target (some target) = validate_target target

module _ {V : Type 0} ⦃values : Values V⦄ where
  abbrev pub text_is : V → (String → Bool) → Bool
  text_is value p = is_some_and (values.json.as_str value) p

  unfoldable pub bounded_string : V → Bool → Bool
  bounded_string value allow_empty =
      text_is value
        (λ text. (allow_empty || not (empty text)) && leb (len text) 4096 && not (has_control text))

  unfoldable pub integer_in_range : V → Option ℤ → Option ℤ → Bool
  integer_in_range value minimum maximum = is_some_and (values.as_i64 value) (λ number.
      is_none_or minimum (λ low. int_leb low number)
      && is_none_or maximum (λ high. int_leb number high))

  -- `is_boolean`
  abbrev pub is_boolean : V → Bool
  is_boolean value = elim (values.view value) [ View.boolean _ ↦ true | _ ↦ false ]

  -- the test `valid` of `validate_value`, by the type of the field
  unfoldable pub matches : ConfigurationField V → ConfigurationFieldType → V → Bool
  matches field string value = bounded_string value false
  matches field integer value = integer_in_range value field.minimum field.maximum
  matches field boolean value = is_boolean value
  matches field enum value = any (λ allowed. values.equal.test allowed value) field.values
  matches field bytes value = integer_in_range value (some (pos 0)) field.maximum
  matches field address value = text_is value (λ text. is_some (parse_ip text))
  matches field port value =
      is_some_and (values.as_u64 value) (λ port. leb 1 port && leb port 65535)
  matches field path value =
      text_is value (λ text. leb (len text) 4096 && starts_with text "/" && not (has_control text))
  matches field secret value =
      text_is value
        (λ text. starts_with text "secret://" && leb (len text) 512 && not (has_control text))
  matches field version value = text_is value valid_version

  unfoldable pub validate_value : ConfigurationField V → V → Check
  validate_value field value =
      ensure (matches field field.field_type value)
        (invalid ("configuration." <> field.key) "does not match the catalog field schema")

  abbrev pub check_default : ConfigurationField V → Option V → Check
  check_default field none = ok tt
  check_default field (some value) = validate_value field value

  unfoldable pub validate_definition : ConfigurationField V → Check
  validate_definition field = do
    validate_catalog_key "configuration.key" field.key
    reject_if (is_blank field.label) (invalid "configuration.label" "must not be empty")
    reject_if (is_enum field.field_type && is_empty field.values)
        (invalid "configuration.values" "enum fields require at least one allowed value")
    reject_if (not (is_enum field.field_type) && not (is_empty field.values))
        (invalid "configuration.values" "allowed values are supported only for enum fields")
    reject_if (exceeds field.minimum field.maximum)
        (invalid "configuration.minimum" "must not exceed maximum")
    reject_if (field.sensitive && not (is_secret_type field.field_type))
        (invalid "configuration.sensitive" "only secret fields may be marked sensitive")
    check_default field field.default
    check_target field.target

  -- the loop of `ConfigurationSchema::validate`, over the keys that it has met
  unfoldable pub validate_fields : List String → ConfigurationSchema V → Check
  validate_fields keys [] = ok tt
  validate_fields keys (field ∷ fields) = do
    validate_definition field
    reject_if (contains keys field.key)
        (invalid "configuration.key" ("duplicate field '" <> (field.key <> "'")))
    validate_fields (field.key ∷ keys) fields

  unfoldable pub validate_schema : ConfigurationSchema V → Check
  validate_schema schema = validate_fields [] schema

-- the order of strings
abbrev pub before : String → String → Bool
before k j = elim (Prim.Native.String.compare k j) [ Ordering.lt ↦ true | _ ↦ false ]

-- `BTreeMap::get` and `insert`
module _ {V : Type 0} where
  unfoldable pub get : String → Entries V → Option V
  get k [] = none
  get k ((j, v) ∷ entries) = if j == k then some v else get k entries

  unfoldable pub insert : String → V → Entries V → Entries V
  insert k v [] = (k, v) ∷ []
  insert k v ((j, w) ∷ entries) =
      if j == k
      then (k, v) ∷ entries
      else if before k j
      then (k, v) ∷ (j, w) ∷ entries
      else (j, w) ∷ insert k v entries

  -- `or`
  abbrev pub or_default : Option V → Option V → Option V
  or_default none default = default
  or_default (some v) default = some v

  abbrev pub is_field : ConfigurationSchema V → String → Bool
  is_field schema k = any (λ field. field.key == k) schema

  abbrev pub is_sensitive : ConfigurationSchema V → String → Bool
  is_sensitive schema k = any (λ field. field.sensitive && (field.key == k)) schema

  -- `supplied.keys().find(...)`
  abbrev pub unknown_key : ConfigurationSchema V → Entries V → Option (String × V)
  unknown_key schema supplied = find (λ entry. not (is_field schema entry.0)) supplied

  abbrev pub reject_unknown : Option (String × V) → Check
  reject_unknown none = ok tt
  reject_unknown (some (k, _)) = err (invalid "configuration" ("unknown field '" <> (k <> "'")))

abbrev pub stronger : ApplyBehavior → ApplyBehavior → ApplyBehavior
stronger a b = if leb (strength b) (strength a) then a else b

module _ {V : Type 0} ⦃values : Values V⦄ where
  unfoldable pub resolve_field : ConfigurationField V → Option V → Entries V → Result (Entries V)
  resolve_field field (some value) resolved = do
    validate_value field value
    ok (insert field.key value resolved)
  resolve_field field none resolved = do
    reject_if field.required (invalid ("configuration." <> field.key) "is required")
    ok resolved

  unfoldable pub resolve_fields : Entries V → Entries V → ConfigurationSchema V → Result (Entries V)
  resolve_fields supplied resolved [] = ok resolved
  resolve_fields supplied resolved (field ∷ fields) = do
    next ← resolve_field field (or_default (get field.key supplied) field.default) resolved
    resolve_fields supplied next fields

  unfoldable pub resolve : ConfigurationSchema V → Entries V → Result (Entries V)
  resolve schema supplied = do
    validate_schema schema
    reject_unknown (unknown_key schema supplied)
    resolve_fields supplied [] schema

  -- `before.get(key) != after.get(key)`
  abbrev pub is_same_value : Option V → Option V → Bool
  is_same_value none none = true
  is_same_value (some a) (some b) = values.equal.test a b
  is_same_value _ _ = false

  abbrev pub is_changed : Entries V → Entries V → ConfigurationField V → Bool
  is_changed old new field = not (is_same_value (get field.key old) (get field.key new))

  -- `max` of the changed fields, `ApplyBehavior::None` where there is none
  unfoldable pub apply_behavior : ConfigurationSchema V → Entries V → Entries V → ApplyBehavior
  apply_behavior [] old new = no_action
  apply_behavior (field ∷ fields) old new =
      let rest = apply_behavior fields old new in
      if is_changed old new field then stronger field.apply rest else rest

  abbrev pub mask : ConfigurationSchema V → String × V → String × V
  mask schema (k, v) = (k, if is_sensitive schema k then values.json.from_str "[redacted]" else v)

  unfoldable pub redacted : ConfigurationSchema V → Entries V → Entries V
  redacted schema configuration = map (mask schema) configuration
