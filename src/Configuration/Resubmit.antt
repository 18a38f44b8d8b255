-- ===== src/Configuration/Resubmit.antt =====
-- What happens when a resolved configuration is submitted again, as an update does that changes
-- nothing.
use lumic.Prelude.{
  String, ◌≡◌, refl, ◌∙◌, ap, true, false, Option, none, some, List, [], ◌∷◌, ◌==◌, string_eq,
  arith, contains, Bool-cases, All, inl, inr, ==_refl, subst, All-imp, or-eq-false,
}
use lumic.Error.{Result, ok, err, reject_if, ◌>>=◌, >>=-eq-ok, reject_if-eq-ok, ok-injective}
use lumic.Json.{Values}
use lumic.Resource.{Entries}
use lumic.Configuration.{
  ConfigurationSchema, ConfigurationField, get, insert, before, or_default, is_field, unknown_key,
  reject_unknown, resolve_field, resolve_fields, resolve, validate_definition, validate_value,
  validate_fields, validate_schema,
}
use lumic.Configuration.Resolve.{resolve_field_lem, resolve_fields_lem, or_default-none}

module _ {V : Type 0} where
  or_default-twice : (a d : Option V) → or_default (or_default a d) d ≡ or_default a d
  or_default-twice none none = refl
  or_default-twice none (some v) = refl
  or_default-twice (some v) d = refl

  abbrev IsKnown : ConfigurationSchema V → String × V → Type 0
  IsKnown schema entry = is_field schema entry.0 ≡ true

  insert-IsKnown :
      (schema : ConfigurationSchema V) (k : String) (v : V) (m : Entries V)
      → is_field schema k ≡ true
      → All (IsKnown schema) m
      → All (IsKnown schema) (insert k v m)
  unfolding insert
  insert-IsKnown schema k v [] known all = (known, tt)
  insert-IsKnown schema k v ((j, w) ∷ m) known all = elim (Bool-cases (j == k)) [
    | inl e ↦ rw e (known, all.1)
    | inr n ↦ elim (Bool-cases (before k j)) [
      | inl b ↦ rw (n, b) (known, all)
      | inr b ↦ rw (n, b) (all.0, insert-IsKnown schema k v m known all.1)
    ]
  ]

  known-none :
      (schema : ConfigurationSchema V) (m : Entries V)
      → All (IsKnown schema) m
      → unknown_key schema m ≡ none
  known-none schema [] all = refl
  known-none schema (entry ∷ m) all = rw all.0 (known-none schema m all.1)

  field-itself :
      (field : ConfigurationField V) (fields : ConfigurationSchema V) (k : String)
      → is_field fields k ≡ true
      → is_field (field ∷ fields) k ≡ true
  field-itself field fields k h = ground arith

module _ {V : Type 0} ⦃values : Values V⦄ where
  resolve_field-IsKnown :
      (schema : ConfigurationSchema V) (field : ConfigurationField V) (value : Option V)
      (resolved next : Entries V)
      → is_field schema field.key ≡ true
      → All (IsKnown schema) resolved
      → resolve_field field value resolved ≡ ok next
      → All (IsKnown schema) next
  unfolding resolve_field
  resolve_field-IsKnown schema field none resolved next known all h =
      let (_, _, h') = >>=-eq-ok (reject_if field.required _) _ h in
      subst (All (IsKnown schema)) (ok-injective h') all
  resolve_field-IsKnown schema field (some v) resolved next known all h =
      let (_, _, h') = >>=-eq-ok (validate_value field v) _ h in
      subst (All (IsKnown schema)) (ok-injective h')
        (insert-IsKnown schema field.key v resolved known all)

  resolve_fields-IsKnown :
      (schema : ConfigurationSchema V) (supplied resolved out : Entries V)
      (fields : ConfigurationSchema V)
      → ((k : String) → is_field fields k ≡ true → is_field schema k ≡ true)
      → All (IsKnown schema) resolved
      → resolve_fields supplied resolved fields ≡ ok out
      → All (IsKnown schema) out
  unfolding resolve_fields
  resolve_fields-IsKnown schema supplied resolved out [] sub all h =
      subst (All (IsKnown schema)) (ok-injective h) all
  resolve_fields-IsKnown schema supplied resolved out (field ∷ fields) sub all h =
      let value = or_default (get field.key supplied) field.default in
      let (next, step, h') = >>=-eq-ok (resolve_field field value resolved) _ h in
      let here = sub field.key (rw (==_refl field.key) refl) in
      let all' = resolve_field-IsKnown schema field value resolved next here all step in
      resolve_fields-IsKnown schema supplied next out fields
        (λ k known. sub k (field-itself field fields k known)) all' h'

  -- a field of the list gets the value that its key resolves to
  abbrev IsSettled : (supplied out : Entries V) → ConfigurationField V → Type 0
  IsSettled supplied out field =
      get field.key out ≡ or_default (get field.key supplied) field.default

  resolve_fields-IsSettled :
      (supplied resolved out : Entries V) (keys : List String) (fields : ConfigurationSchema V)
      → ((k : String) → contains keys k ≡ false → get k resolved ≡ none)
      → validate_fields keys fields ≡ ok tt
      → resolve_fields supplied resolved fields ≡ ok out
      → All (IsSettled supplied out) fields
  unfolding resolve_fields validate_fields
  resolve_fields-IsSettled supplied resolved out keys [] only valid h = tt
  resolve_fields-IsSettled supplied resolved out keys (field ∷ fields) only valid h =
      let value = or_default (get field.key supplied) field.default in
      let (_, _, v') = >>=-eq-ok (validate_definition field) _ valid in
      let (_, u, v'') = >>=-eq-ok (reject_if (contains keys field.key) _) _ v' in
      let (next, step, h') = >>=-eq-ok (resolve_field field value resolved) _ h in
      let here = resolve_fields_lem supplied resolved out keys (field ∷ fields) field.key valid h in
      let fresh = only field.key (reject_if-eq-ok _ _ u) in
      (
        here ∙ rw (==_refl field.key) (ap (or_default value) fresh ∙ or_default-none value),
        resolve_fields-IsSettled supplied next out (field.key ∷ keys) fields
            (λ k apart.
              let (other, before_it) = or-eq-false (field.key == k) (contains keys k) apart in
              resolve_field_lem field value resolved next k step ∙ rw other (only k before_it))
            v'' h',
      )

  abbrev SameChoice : (first second : Entries V) → ConfigurationField V → Type 0
  SameChoice first second field =
      or_default (get field.key first) field.default
      ≡ or_default (get field.key second) field.default

  bind-agree :
      (r : Result (Entries V)) (f g : Entries V → Result (Entries V))
      → ((m : Entries V) → f m ≡ g m)
      → (r >>= f) ≡ (r >>= g)
  bind-agree (err e) f g same = refl
  bind-agree (ok m) f g same = same m

  resolve_fields-agree :
      (first second resolved : Entries V) (fields : ConfigurationSchema V)
      → All (SameChoice first second) fields
      → resolve_fields first resolved fields ≡ resolve_fields second resolved fields
  unfolding resolve_fields
  resolve_fields-agree first second resolved [] same = refl
  resolve_fields-agree first second resolved (field ∷ fields) same = rw same.0 (
      bind-agree (resolve_field field _ resolved) _ _
        (λ next. resolve_fields-agree first second next fields same.1))

  -- Resolving what was resolved changes nothing: the result is accepted, and is its own resolution.
  pub resolve_again :
      (schema : ConfigurationSchema V) (supplied out : Entries V)
      → resolve schema supplied ≡ ok out
      → resolve schema out ≡ ok out
  unfolding resolve validate_schema get
  resolve_again schema supplied out h =
      let (_, valid, h') = >>=-eq-ok (validate_schema schema) _ h in
      let (_, _, h'') = >>=-eq-ok (reject_unknown (unknown_key schema supplied)) _ h' in
      let known = resolve_fields-IsKnown schema supplied [] out schema (λ k m. m) tt h'' in
      let settled =
        resolve_fields-IsSettled supplied [] out [] schema (λ k apart. refl) valid h'' in
      let same =
        All-imp (IsSettled supplied out) (SameChoice out supplied)
          (λ field s.
            ap (λ v. or_default v field.default) s
            ∙ or_default-twice (get field.key supplied) field.default)
          schema settled in
      rw (valid, known-none schema out known)
        (resolve_fields-agree out supplied [] schema same ∙ h'')
