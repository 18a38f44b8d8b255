-- ===== src/Catalog/Render/Collected.antt =====
-- The lines that each rendered file gets.
use mathlib.Core.List.{append-nil, append_assoc}
use lumic.Prelude.{
  String, true, not, ◌≡◌, refl, ap, sym, ◌∙◌, Option, none, some, List, [], ◌∷◌, ◌++◌, ◌<>◌, ◌==◌,
  string_eq, eq_iff, subst, ap₂, is_some, is_empty, keep, map, Bool-cases, inl, inr, if◌then◌else◌,
}
use lumic.Error.{Result, ok, err, >>=-eq-ok, ok-injective}
use lumic.Json.{Values}
use lumic.Resource.{Entries}
use lumic.Configuration.{ConfigurationSchema, ConfigurationTarget, file, command, get, resolve}
use lumic.Configuration.Lookup.{get-insert}
use lumic.Catalog.{ConfigurationFileDefinition, ServiceDefinition}
use lumic.Catalog.Render.{
  RenderedConfigurationFile, Lines, lines_of, push_line, section_text, lines_text, file_of,
  render_configuration_value, render_line, render_lines, render_configuration_files,
}

lines_of-push_line :
    (id j : String) (line : String × String) (lines : Lines)
    → lines_of (get j (push_line id line lines))
      ≡ (lines_of (get j lines) ++ (if id == j then line ∷ [] else []))
lines_of-push_line id j line lines = elim (Bool-cases (id == j)) [
  | inl e ↦
      ap lines_of (get-insert j id _ lines)
      ∙ rw e (ap (λ k. lines_of (get k lines) ++ line ∷ []) ((eq_iff id j).0 e))
  | inr n ↦ ap lines_of (get-insert j id _ lines) ∙ rw n (sym (append-nil (lines_of (get j lines))))
]

-- no file is there without a line
abbrev IsFilled : Lines → Type 0
IsFilled lines = (id : String) → is_some (get id lines) ≡ not (is_empty (lines_of (get id lines)))

not_empty-snoc : {A : Type 0} (xs : List A) (x : A) → not (is_empty (xs ++ x ∷ [])) ≡ true
not_empty-snoc [] x = refl
not_empty-snoc (_ ∷ _) x = refl

push_line-IsFilled :
    (id : String) (line : String × String) (lines : Lines)
    → IsFilled lines
    → IsFilled (push_line id line lines)
push_line-IsFilled id line lines filled j =
    let here = get-insert j id (lines_of (get id lines) ++ line ∷ []) lines in
    elim (Bool-cases (id == j)) [
      | inl e ↦ let e' = rw e at here in rw e' (sym (not_empty-snoc (lines_of (get id lines)) line))
      | inr n ↦ let n' = rw n at here in rw n' (filled j)
    ]

abbrev pub shown : String → Result String → List (String × String)
shown key (ok text) = (key, text) ∷ []
shown key (err _) = []

module _ {V : Type 0} ⦃values : Values V⦄ where
  -- the line that a field gives to the file of an id
  abbrev pub line_for : String → Option ConfigurationTarget → Option V → List (String × String)
  line_for id (some (file i key)) (some value) =
      if i == id then shown key (render_configuration_value value) else []
  line_for id _ _ = []

  abbrev pub lines_for : Entries V → String → ConfigurationSchema V → List (String × String)
  lines_for configuration id [] = []
  lines_for configuration id (field ∷ fields) =
      line_for id field.target (get field.key configuration) ++ lines_for configuration id fields

  render_line_lem :
      (target : Option ConfigurationTarget) (value : Option V) (lines next : Lines) (id : String)
      → render_line target value lines ≡ ok next
      → lines_of (get id next) ≡ lines_of (get id lines) ++ line_for id target value
  render_line_lem (some (file i key)) (some value) lines next id h =
      let (text, shows, h') = >>=-eq-ok (render_configuration_value value) _ h in
      sym (ap (λ m. lines_of (get id m)) (ok-injective h'))
      ∙ lines_of-push_line i id (key, text) lines
      ∙ ap (λ r. lines_of (get id lines) ++ (if i == id then shown key r else [])) (sym shows)
  render_line_lem none value lines next id h =
      sym (ap (λ m. lines_of (get id m)) (ok-injective h))
      ∙ sym (append-nil (lines_of (get id lines)))
  render_line_lem (some (command parts)) value lines next id h =
      sym (ap (λ m. lines_of (get id m)) (ok-injective h))
      ∙ sym (append-nil (lines_of (get id lines)))
  render_line_lem (some (file i key)) none lines next id h =
      sym (ap (λ m. lines_of (get id m)) (ok-injective h))
      ∙ sym (append-nil (lines_of (get id lines)))

  render_line-IsFilled :
      (target : Option ConfigurationTarget) (value : Option V) (lines next : Lines)
      → render_line target value lines ≡ ok next
      → IsFilled lines
      → IsFilled next
  render_line-IsFilled (some (file i key)) (some value) lines next h filled =
      let (text, shows, h') = >>=-eq-ok (render_configuration_value value) _ h in
      subst IsFilled (ok-injective h') (push_line-IsFilled i (key, text) lines filled)
  render_line-IsFilled none value lines next h filled = subst IsFilled (ok-injective h) filled
  render_line-IsFilled (some (command parts)) value lines next h filled =
      subst IsFilled (ok-injective h) filled
  render_line-IsFilled (some (file i key)) none lines next h filled =
      subst IsFilled (ok-injective h) filled

  render_lines_lem :
      (configuration : Entries V) (fields : ConfigurationSchema V) (lines out : Lines)
      → render_lines configuration lines fields ≡ ok out
      → IsFilled lines
      → IsFilled out
        × ((id : String)
            → lines_of (get id out) ≡ lines_of (get id lines) ++ lines_for configuration id fields)
  unfolding render_lines
  render_lines_lem configuration [] lines out h filled = (
    subst IsFilled (ok-injective h) filled,
    λ id.
        sym (ap (λ m. lines_of (get id m)) (ok-injective h))
        ∙ sym (append-nil (lines_of (get id lines))),
  )
  render_lines_lem configuration (field ∷ fields) lines out h filled =
      let value = get field.key configuration in
      let (next, step, h') = >>=-eq-ok (render_line field.target value lines) _ h in
      let (filled', rest) =
        render_lines_lem configuration fields next out h'
          (render_line-IsFilled field.target value lines next step filled) in
      (
        filled',
        λ id.
            rest id
            ∙ ap (λ l. l ++ lines_for configuration id fields)
                (render_line_lem field.target value lines next id step)
            ∙ append_assoc (lines_of (get id lines)) (line_for id field.target value)
                (lines_for configuration id fields),
      )

  -- the file as the fields in their order give it
  abbrev pub collected_file :
      Entries V → ConfigurationSchema V → ConfigurationFileDefinition → RenderedConfigurationFile
  collected_file configuration schema f = record {
    path = f.path;
    content =
        "# Managed by Lumic\n"
        <> (section_text f.section <> lines_text f.format (lines_for configuration f.id schema));
  }

  abbrev pub collected_files : ServiceDefinition V → Entries V → List RenderedConfigurationFile
  collected_files d configuration =
      map (collected_file configuration d.configuration)
        (keep (λ f. not (is_empty (lines_for configuration f.id d.configuration))) d.config_files)

  files_agree :
      (configuration : Entries V) (schema : ConfigurationSchema V) (out : Lines)
      → IsFilled out
      → ((id : String) → lines_of (get id out) ≡ lines_for configuration id schema)
      → (files : List ConfigurationFileDefinition)
      → map (file_of out) (keep (λ f. is_some (get f.id out)) files)
        ≡ map
            (collected_file configuration schema)
            (keep (λ f. not (is_empty (lines_for configuration f.id schema))) files)
  unfolding file_of
  files_agree configuration schema out filled same [] = refl
  files_agree configuration schema out filled same (f ∷ files) =
      let rest = files_agree configuration schema out filled same files in
      let present = filled f.id ∙ ap (λ l. not (is_empty l)) (same f.id) in
      elim (Bool-cases (not (is_empty (lines_for configuration f.id schema)))) [
        | inl e ↦ rw (present, e) (ap₂ (λ x xs. x ∷ xs) (rw (same f.id) refl) rest)
        | inr n ↦ rw (present, n) rest
      ]

  -- Where a resolved configuration is rendered to files, these are the files of the definition, in
  -- its order, that some field with a value targets, each with the lines of the fields that target
  -- it, in the order of the fields.
  pub render_configuration_files_lem :
      (d : ServiceDefinition V) (supplied configuration : Entries V)
      (files : List RenderedConfigurationFile)
      → resolve d.configuration supplied ≡ ok configuration
      → render_configuration_files d supplied ≡ ok files
      → files ≡ collected_files d configuration
  unfolding render_configuration_files get
  render_configuration_files_lem d supplied configuration files resolved h =
      let h' = rw resolved at h in
      let (lines, step, h'') = >>=-eq-ok (render_lines configuration [] d.configuration) _ h' in
      let (filled, same) =
        render_lines_lem configuration d.configuration [] lines step (λ id. refl) in
      sym (ok-injective h'')
      ∙ files_agree configuration d.configuration lines filled same d.config_files
