-- ===== src/Catalog/Render/Commands.antt =====
-- What the commands of a configuration are made of.
use lumic.Prelude.{
  String, true, false, not, ◌&&◌, ◌||◌, ◌≡◌, refl, subst, Option, none, some, List, [], ◌∷◌, In,
  All, All-imp, All-append, all, empty, codes, inl, inr, contains, string_eq, is_blank, is_empty,
  or-eq-false, not-eq-false,
}
use lumic.Error.{ok, >>=-eq-ok, ok-injective, reject_if, reject_if-eq-ok, ensure-eq-ok}
use lumic.Json.{Values}
use lumic.Resource.{Entries}
use lumic.Configuration.{
  ConfigurationSchema, ConfigurationField, ConfigurationTarget, file, command, get, resolve,
  validate_schema, validate_fields, validate_definition, validate_catalog_key, validate_target,
  check_target, check_default, is_direct, is_enum, is_secret_type, exceeds,
}
use lumic.Catalog.{ServiceDefinition}
use lumic.Catalog.Render.{
  RenderedConfigurationCommand, is_safe_byte, scalar_text, substitute, render_configuration_value,
  render_command, render_commands, render_configuration_commands,
}

-- a text that stands as one token wherever it is put
abbrev pub IsToken : String → Type 0
IsToken text = (empty text ≡ false) × (all is_safe_byte (codes text) ≡ true)

target_direct :
    (parts : List String) → check_target (some (command parts)) ≡ ok tt → is_direct parts ≡ true
unfolding validate_target
target_direct parts h = ensure-eq-ok (is_direct parts) _ h

module _ {V : Type 0} ⦃values : Values V⦄ where
  -- a command comes from a reviewed template of the field, by one token in place of the placeholder
  abbrev pub IsReviewed : ConfigurationSchema V → RenderedConfigurationCommand → Type 0
  IsReviewed schema rendered =
      (field : ConfigurationField V) × (parts : List String) × (value : String) × In field schema
      × (field.target ≡ some (command parts))
      × (is_direct parts ≡ true)
      × IsToken value
      × (rendered.field ≡ field.key)
      × (rendered.command ≡ substitute value parts)

  render_configuration_value-IsToken :
      (value : V) (text : String) → render_configuration_value value ≡ ok text → IsToken text
  unfolding render_configuration_value
  render_configuration_value-IsToken value text h =
      let (shown, _, h') = >>=-eq-ok (scalar_text (values.view value)) _ h in
      let (_, safe, h'') =
        >>=-eq-ok (reject_if (empty shown || not (all is_safe_byte (codes shown))) _) _ h' in
      let (full, bytes) =
        or-eq-false (empty shown) (not (all is_safe_byte (codes shown)))
          (reject_if-eq-ok _ _ safe) in
      subst IsToken (ok-injective h'') (full, not-eq-false _ bytes)

  definition_target :
      (field : ConfigurationField V)
      → validate_definition field ≡ ok tt
      → check_target field.target ≡ ok tt
  unfolding validate_definition
  definition_target field h =
      let (_, _, h1) = >>=-eq-ok (validate_catalog_key "configuration.key" field.key) _ h in
      let (_, _, h2) = >>=-eq-ok (reject_if (is_blank field.label) _) _ h1 in
      let (_, _, h3) =
        >>=-eq-ok (reject_if (is_enum field.field_type && is_empty field.values) _) _ h2 in
      let (_, _, h4) =
        >>=-eq-ok (reject_if (not (is_enum field.field_type) && not (is_empty field.values)) _) _
          h3 in
      let (_, _, h5) = >>=-eq-ok (reject_if (exceeds field.minimum field.maximum) _) _ h4 in
      let (_, _, h6) =
        >>=-eq-ok (reject_if (field.sensitive && not (is_secret_type field.field_type)) _) _ h5 in
      let (_, _, h7) = >>=-eq-ok (check_default field field.default) _ h6 in h7

  fields_direct :
      (keys : List String) (fields : ConfigurationSchema V)
      → validate_fields keys fields ≡ ok tt
      → All (λ field. check_target field.target ≡ ok tt) fields
  unfolding validate_fields
  fields_direct keys [] h = tt
  fields_direct keys (field ∷ fields) h =
      let (_, here, h') = >>=-eq-ok (validate_definition field) _ h in
      let (_, _, h'') = >>=-eq-ok (reject_if (contains keys field.key) _) _ h' in
      (definition_target field here, fields_direct (field.key ∷ keys) fields h'')

  All-IsReviewed :
      (field : ConfigurationField V) (fields : ConfigurationSchema V)
      (rendered : List RenderedConfigurationCommand)
      → All (IsReviewed fields) rendered
      → All (IsReviewed (field ∷ fields)) rendered
  All-IsReviewed field fields = All-imp (IsReviewed fields) (IsReviewed (field ∷ fields)) (λ c r.
      let (f, parts, value, place, a, b, t, d, e) = r in
      (f, parts, value, inr place, a, b, t, d, e))

  render_command-IsReviewed :
      (schema : ConfigurationSchema V) (field : ConfigurationField V)
      (target : Option ConfigurationTarget) (value : Option V)
      (here : List RenderedConfigurationCommand)
      → In field schema
      → field.target ≡ target
      → check_target target ≡ ok tt
      → render_command field.key target value ≡ ok here
      → All (IsReviewed schema) here
  render_command-IsReviewed schema field (some (command parts)) (some value) here place is valid h =
      let (text, shown, h') = >>=-eq-ok (render_configuration_value value) _ h in
      subst (All (IsReviewed schema)) (ok-injective h') (
        (
          field,
          parts,
          text,
          place,
          is,
          target_direct parts valid,
          render_configuration_value-IsToken value text shown,
          refl,
          refl,
        ),
        tt,
      )
  render_command-IsReviewed schema field none value here place is valid h =
      subst (All (IsReviewed schema)) (ok-injective h) tt
  render_command-IsReviewed schema field (some (file id key)) value here place is valid h =
      subst (All (IsReviewed schema)) (ok-injective h) tt
  render_command-IsReviewed schema field (some (command parts)) none here place is valid h =
      subst (All (IsReviewed schema)) (ok-injective h) tt

  render_commands-IsReviewed :
      (configuration : Entries V) (fields : ConfigurationSchema V)
      (out : List RenderedConfigurationCommand)
      → All (λ field. check_target field.target ≡ ok tt) fields
      → render_commands configuration fields ≡ ok out
      → All (IsReviewed fields) out
  unfolding render_commands
  render_commands-IsReviewed configuration [] out valid h =
      subst (All (IsReviewed [])) (ok-injective h) tt
  render_commands-IsReviewed configuration (field ∷ fields) out valid h =
      let value = get field.key configuration in
      let (here, step, h') = >>=-eq-ok (render_command field.key field.target value) _ h in
      let (rest, more, h'') = >>=-eq-ok (render_commands configuration fields) _ h' in
      let first =
        render_command-IsReviewed (field ∷ fields) field field.target value here (inl refl) refl
          valid.0 step in
      let later =
        All-IsReviewed field fields rest
          (render_commands-IsReviewed configuration fields rest valid.1 more) in
      subst (All (IsReviewed (field ∷ fields))) (ok-injective h'')
        (All-append (IsReviewed (field ∷ fields)) here rest first later)

  -- Every command that is rendered is the template of a field that passed the test for direct
  -- commands, with one token of safe characters, which is not empty, in place of the placeholder.
  pub render_configuration_commands-IsReviewed :
      (d : ServiceDefinition V) (supplied : Entries V) (out : List RenderedConfigurationCommand)
      → render_configuration_commands d supplied ≡ ok out
      → All (IsReviewed d.configuration) out
  unfolding render_configuration_commands resolve validate_schema
  render_configuration_commands-IsReviewed d supplied out h =
      let (configuration, resolved, h') = >>=-eq-ok (resolve d.configuration supplied) _ h in
      let (_, valid, _) = >>=-eq-ok (validate_schema d.configuration) _ resolved in
      render_commands-IsReviewed configuration d.configuration out
        (fields_direct [] d.configuration valid) h'
