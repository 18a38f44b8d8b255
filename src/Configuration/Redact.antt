-- ===== src/Configuration/Redact.antt =====
-- What a redacted configuration shows.
use lumic.Prelude.{
  String, ◌≡◌, refl, ap, ap₂, subst, true, ◌&&◌, [], ◌∷◌, ◌==◌, string_eq, eq_iff, Bool-cases,
  and-eq-true, ◌⊎◌, inl, inr, In,
}
use lumic.Json.{Values}
use lumic.Resource.{Entries}
use lumic.Configuration.{ConfigurationSchema, ConfigurationField, is_sensitive, redacted, mask}

module _ {V : Type 0} where
  -- some field with the key is declared sensitive
  abbrev pub IsSecret : ConfigurationSchema V → String → Type 0
  IsSecret schema k =
      (field : ConfigurationField V) × In field schema × (field.sensitive ≡ true) × (field.key ≡ k)

  -- two configurations with the same keys, whose values agree wherever no field is secret
  abbrev pub SamePublic : ConfigurationSchema V → (left right : Entries V) → Type 0
  SamePublic schema [] [] = Unit
  SamePublic schema [] (_ ∷ _) = ⊥
  SamePublic schema (_ ∷ _) [] = ⊥
  SamePublic schema ((j, v) ∷ left) ((k, w) ∷ right) =
      (j ≡ k) × (¬ IsSecret schema j → v ≡ w) × SamePublic schema left right

  IsSecret-is_sensitive :
      (schema : ConfigurationSchema V) (k : String)
      → IsSecret schema k
      → is_sensitive schema k ≡ true
  IsSecret-is_sensitive [] k (field, i, _, _) = absurd i
  IsSecret-is_sensitive (f ∷ schema) k (field, inl e, secret, key) =
      let on : f.sensitive ≡ true =
        subst (λ (g : ConfigurationField V). g.sensitive ≡ true) e secret in
      let named : f.key ≡ k = subst (λ (g : ConfigurationField V). g.key ≡ k) e key in
      rw on (rw ((eq_iff f.key k).1 named) refl)
  IsSecret-is_sensitive (f ∷ schema) k (field, inr i, secret, key) =
      elim (Bool-cases (f.sensitive && (f.key == k))) [
        | inl e ↦ rw e refl
        | inr n ↦ rw n (IsSecret-is_sensitive schema k (field, i, secret, key))
      ]

  is_sensitive-IsSecret :
      (schema : ConfigurationSchema V) (k : String)
      → is_sensitive schema k ≡ true
      → IsSecret schema k
  is_sensitive-IsSecret [] k h = absurd (cc)
  is_sensitive-IsSecret (f ∷ schema) k h = elim (Bool-cases (f.sensitive && (f.key == k))) [
    | inl e ↦
        let (on, key) = and-eq-true f.sensitive (f.key == k) e in
        (f, inl refl, on, (eq_iff f.key k).0 key)
    | inr n ↦
        let (field, i, on, key) = is_sensitive-IsSecret schema k (rw n at h) in
        (field, inr i, on, key)
  ]

module _ {V : Type 0} ⦃values : Values V⦄ where
  -- the entries of a configuration and what is shown of them, one by one
  abbrev pub Shows : ConfigurationSchema V → (configuration shown : Entries V) → Type 0
  Shows schema [] [] = Unit
  Shows schema [] (_ ∷ _) = ⊥
  Shows schema (_ ∷ _) [] = ⊥
  Shows schema ((j, v) ∷ configuration) ((k, w) ∷ shown) =
      (j ≡ k)
      × ((IsSecret schema j × (w ≡ values.json.from_str "[redacted]"))
          ⊎ (¬ IsSecret schema j × (w ≡ v)))
      × Shows schema configuration shown

  mask-agree :
      (schema : ConfigurationSchema V) (j k : String) (v w : V)
      → j ≡ k
      → (¬ IsSecret schema j → v ≡ w)
      → mask schema (j, v) ≡ mask schema (k, w)
  mask-agree schema j k v w key same = elim (Bool-cases (is_sensitive schema j)) [
    | inl e ↦
        let e' = rw key at e in rw (e, e') (ap (λ l. (l, values.json.from_str "[redacted]")) key)
    | inr n ↦
        let n' = rw key at n in
        rw (n, n')
          (ap₂ (λ l u. (l, u)) key (same (λ secret. cc (IsSecret-is_sensitive schema j secret, n))))
  ]

  redacted-same :
      (schema : ConfigurationSchema V) (left right : Entries V)
      → SamePublic schema left right
      → redacted schema left ≡ redacted schema right
  unfolding redacted
  redacted-same schema [] [] same = refl
  redacted-same schema [] (_ ∷ _) same = absurd same
  redacted-same schema (_ ∷ _) [] same = absurd same
  redacted-same schema ((j, v) ∷ left) ((k, w) ∷ right) (key, value, same) =
      ap₂ (λ e m. e ∷ m) (mask-agree schema j k v w key value)
        (redacted-same schema left right same)

  redacted-Shows :
      (schema : ConfigurationSchema V) (configuration : Entries V)
      → Shows schema configuration (redacted schema configuration)
  unfolding redacted
  redacted-Shows schema [] = tt
  redacted-Shows schema ((j, v) ∷ configuration) = (
    refl,
    elim (Bool-cases (is_sensitive schema j)) [
      | inl e ↦ inl (is_sensitive-IsSecret schema j e, rw e refl)
      | inr n ↦ inr ((λ secret. cc (IsSecret-is_sensitive schema j secret, n)), rw n refl)
    ],
    redacted-Shows schema configuration,
  )

  -- A redacted configuration has the keys of the configuration in their order; the value under a
  -- key is masked where a field of the schema with that key is declared sensitive, and is shown as
  -- it is elsewhere. So two configurations with the same keys, whose values agree under every key
  -- that no sensitive field has, look the same when they are redacted.
  pub redacted-agree :
      (schema : ConfigurationSchema V) (left right : Entries V)
      → SamePublic schema left right
      → (redacted schema left ≡ redacted schema right) × Shows schema left (redacted schema left)
  redacted-agree schema left right same =
      (redacted-same schema left right same, redacted-Shows schema left)
