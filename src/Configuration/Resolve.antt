-- ===== src/Configuration/Resolve.antt =====
-- What `ConfigurationSchema::resolve` returns.
use lumic.Prelude.{
  String, ◌≡◌, refl, ◌∙◌, sym, ap, Bool, true, false, Option, none, some, List, [], ◌∷◌, ◌==◌,
  string_eq, eq_iff, if◌then◌else◌, arith, contains, find, Bool-cases, All, inl, inr, ◌↔◌,
}
use lumic.Error.{ok, reject_if, >>=-eq-ok, reject_if-eq-ok, ok-injective}
use lumic.Json.{Values}
use lumic.Resource.{Entries}
use lumic.Configuration.{
  ConfigurationSchema, ConfigurationField, get, insert, or_default, unknown_key, reject_unknown,
  resolve_field, resolve_fields, resolve, validate_definition, validate_value, validate_fields,
  validate_schema,
}
use lumic.Configuration.Lookup.{get-insert}

module _ {V : Type 0} where
  abbrev pub is_keyed : String → ConfigurationField V → Bool
  is_keyed k field = field.key == k

  -- the value that a schema gives to a key: the supplied one, or the default of the field
  abbrev pub value_of : Entries V → String → Option (ConfigurationField V) → Option V
  value_of supplied k none = none
  value_of supplied k (some field) = or_default (get k supplied) field.default

  abbrev pub expected : ConfigurationSchema V → Entries V → String → Option V
  expected schema supplied k = value_of supplied k (find (is_keyed k) schema)

  pub or_default-none : (value : Option V) → or_default value none ≡ value
  or_default-none none = refl
  or_default-none (some v) = refl

module _ {V : Type 0} ⦃values : Values V⦄ where
  fields-unseen :
      (keys : List String) (fields : ConfigurationSchema V) (k : String)
      → validate_fields keys fields ≡ ok tt
      → contains keys k ≡ true
      → find (is_keyed k) fields ≡ none
  unfolding validate_fields
  fields-unseen keys [] k h c = refl
  fields-unseen keys (field ∷ fields) k h c =
      let (_, _, h') = >>=-eq-ok (validate_definition field) _ h in
      let (_, u, h'') = >>=-eq-ok (reject_if (contains keys field.key) _) _ h' in
      let fresh = reject_if-eq-ok _ _ u in
      let rest =
        fields-unseen (field.key ∷ keys) fields k h'' (ground (arith, eq_iff field.key k)) in
      elim (Bool-cases (field.key == k)) [
        | inl e ↦ absurd (cc (fresh, c, ap (contains keys) ((eq_iff field.key k).0 e)))
        | inr e ↦ rw e rest
      ]

  -- what a field adds to the values resolved so far
  pub resolve_field_lem :
      (field : ConfigurationField V) (value : Option V) (resolved next : Entries V) (k : String)
      → resolve_field field value resolved ≡ ok next
      → get k next ≡ (if field.key == k then or_default value (get k resolved) else get k resolved)
  unfolding resolve_field
  resolve_field_lem field (some v) resolved next k h =
      let (_, _, h') = >>=-eq-ok (validate_value field v) _ h in
      let same = ok-injective h' in sym (ap (get k) same) ∙ get-insert k field.key v resolved
  resolve_field_lem field none resolved next k h =
      let (_, _, h') = >>=-eq-ok (reject_if field.required _) _ h in
      let same = ok-injective h' in grind (arith, ap (get k) same)

  pub resolve_fields_lem :
      (supplied resolved out : Entries V) (keys : List String) (fields : ConfigurationSchema V)
      (k : String)
      → validate_fields keys fields ≡ ok tt
      → resolve_fields supplied resolved fields ≡ ok out
      → get k out ≡ or_default (expected fields supplied k) (get k resolved)
  unfolding resolve_fields validate_fields
  resolve_fields_lem supplied resolved out keys [] k valid h = sym (ap (get k) (ok-injective h))
  resolve_fields_lem supplied resolved out keys (field ∷ fields) k valid h =
      let value = or_default (get field.key supplied) field.default in
      let (_, _, v') = >>=-eq-ok (validate_definition field) _ valid in
      let (_, u, v'') = >>=-eq-ok (reject_if (contains keys field.key) _) _ v' in
      let (next, step, h') = >>=-eq-ok (resolve_field field value resolved) _ h in
      let rest = resolve_fields_lem supplied next out (field.key ∷ keys) fields k v'' h' in
      let here = resolve_field_lem field value resolved next k step in
      elim (Bool-cases (field.key == k)) [
        | inl e ↦
            let absent =
              fields-unseen (field.key ∷ keys) fields k v'' (ground (arith, eq_iff field.key k)) in
            rw e (
              rest
              ∙ ap (λ found. or_default (value_of supplied k found) (get k next)) absent
              ∙ (rw e at here)
              ∙ ap (λ j. or_default (or_default (get j supplied) field.default) (get k resolved))
                  ((eq_iff field.key k).0 e))
        | inr e ↦ rw e (rest ∙ ap (or_default (expected fields supplied k)) (rw e at here))
      ]

  -- What `resolve` returns under a key is the supplied value, or else the default of the field with
  -- that key; under a key that no field has, nothing.
  pub resolve_lem :
      (schema : ConfigurationSchema V) (supplied out : Entries V) (k : String)
      → resolve schema supplied ≡ ok out
      → get k out ≡ expected schema supplied k
  unfolding resolve validate_schema get
  resolve_lem schema supplied out k h =
      let (_, valid, h') = >>=-eq-ok (validate_schema schema) _ h in
      let (_, _, h'') = >>=-eq-ok (reject_unknown (unknown_key schema supplied)) _ h' in
      resolve_fields_lem supplied [] out [] schema k valid h''
      ∙ or_default-none (expected schema supplied k)

  -- what a field says of the value that it is resolved to
  abbrev pub Accepts : ConfigurationField V → Option V → Type 0
  Accepts field none = field.required ≡ false
  Accepts field (some value) = validate_value field value ≡ ok tt

  abbrev pub AcceptsFrom : Entries V → ConfigurationField V → Type 0
  AcceptsFrom supplied field = Accepts field (or_default (get field.key supplied) field.default)

  resolve_field-Accepts :
      (field : ConfigurationField V) (value : Option V) (resolved : Entries V)
      → ((next : Entries V) × (resolve_field field value resolved ≡ ok next)) ↔ Accepts field value
  unfolding resolve_field
  resolve_field-Accepts field none resolved = (
    λ h. reject_if-eq-ok field.required _ (>>=-eq-ok (reject_if field.required _) _ h.1).1,
    λ r. rw r (resolved, refl),
  )
  resolve_field-Accepts field (some value) resolved = (
    λ h. (>>=-eq-ok (validate_value field value) _ h.1).1,
    λ r. rw r (insert field.key value resolved, refl),
  )

  resolve_fields-Accepts :
      (supplied resolved : Entries V) (fields : ConfigurationSchema V)
      → ((out : Entries V) × (resolve_fields supplied resolved fields ≡ ok out))
        ↔ All (AcceptsFrom supplied) fields
  unfolding resolve_fields
  resolve_fields-Accepts supplied resolved [] = (λ h. tt, λ r. (resolved, refl))
  resolve_fields-Accepts supplied resolved (field ∷ fields) =
      let value = or_default (get field.key supplied) field.default in
      let here = resolve_field-Accepts field value resolved in
      (
        λ h.
            let (next, step, rest) = >>=-eq-ok (resolve_field field value resolved) _ h.1 in
            (here.0 (next, step), (resolve_fields-Accepts supplied next fields).0 (h.0, rest)),
        λ r.
            let (next, step) = here.1 r.0 in
            let (out, rest) = (resolve_fields-Accepts supplied next fields).1 r.1 in
            (out, rw step rest),
      )

  abbrev pub IsResolvable : ConfigurationSchema V → Entries V → Type 0
  IsResolvable schema supplied =
      (validate_schema schema ≡ ok tt)
      × (unknown_key schema supplied ≡ none)
      × All (AcceptsFrom supplied) schema

  pub no_unknown : (found : Option (String × V)) → (reject_unknown found ≡ ok tt) ↔ (found ≡ none)
  no_unknown none = (λ h. refl, λ h. refl)
  no_unknown (some entry) = (λ h. cc, λ h. cc)

  -- `resolve` succeeds exactly when the schema is valid, no supplied key is unknown, and for every
  -- field the supplied value or else the default is valid for the field, or both are missing and
  -- the field is not required.
  pub resolve_iff :
      (schema : ConfigurationSchema V) (supplied : Entries V)
      → ((out : Entries V) × (resolve schema supplied ≡ ok out)) ↔ IsResolvable schema supplied
  unfolding resolve
  resolve_iff schema supplied =
      let fields = resolve_fields-Accepts supplied [] schema in
      let unknown = no_unknown (unknown_key schema supplied) in
      (
        λ h.
            let (_, valid, h') = >>=-eq-ok (validate_schema schema) _ h.1 in
            let (_, known, h'') = >>=-eq-ok (reject_unknown (unknown_key schema supplied)) _ h' in
            (valid, unknown.0 known, fields.0 (h.0, h'')),
        λ r. let (out, rest) = fields.1 r.2 in (out, rw (r.0, r.1) rest),
      )
