-- ===== src/Configuration/Apply.antt =====
-- How strong an action `ConfigurationSchema::apply_behavior` asks for.
use lumic.Prelude.{
  ◌≤◌, ◌≡◌, refl, true, [], ◌∷◌, In, All, All-imp, ◌⊎◌, if◌then◌else◌, arith, subst, Bool-cases,
  inl, inr, leb, leb-eq-true,
}
use lumic.Json.{Values}
use lumic.Resource.{Entries}
use lumic.Configuration.{
  ConfigurationSchema, ConfigurationField, ApplyBehavior, no_action, strength, stronger, is_changed,
  apply_behavior,
}

module _ {V : Type 0} ⦃values : Values V⦄ where
  abbrev IsBelow : (old new : Entries V) → ApplyBehavior → ConfigurationField V → Type 0
  IsBelow old new act field = is_changed old new field ≡ true → strength field.apply ≤ strength act

  abbrev IsReached : ConfigurationSchema V → (old new : Entries V) → ApplyBehavior → Type 0
  IsReached schema old new act =
      (act ≡ no_action)
      ⊎ ((field : ConfigurationField V) × In field schema
          × (is_changed old new field ≡ true)
          × (field.apply ≡ act))

  -- `act` is the strongest of the changed fields
  abbrev pub IsStrongest : ConfigurationSchema V → (old new : Entries V) → ApplyBehavior → Type 0
  IsStrongest schema old new act = All (IsBelow old new act) schema × IsReached schema old new act

  later :
      (field : ConfigurationField V) (fields : ConfigurationSchema V) (old new : Entries V)
      (act : ApplyBehavior)
      → IsReached fields old new act
      → IsReached (field ∷ fields) old new act
  later field fields old new act (inl p) = inl p
  later field fields old new act (inr (found, place, changed, same)) =
      inr (found, inr place, changed, same)

  raise :
      (schema : ConfigurationSchema V) (old new : Entries V) (a b : ApplyBehavior)
      → strength a ≤ strength b
      → All (IsBelow old new a) schema
      → All (IsBelow old new b) schema
  raise schema old new a b le =
      All-imp (IsBelow old new a) (IsBelow old new b)
        (λ field below changed. let low = below changed in omega arith) schema

  step-IsStrongest :
      (field : ConfigurationField V) (fields : ConfigurationSchema V) (old new : Entries V)
      (rest : ApplyBehavior)
      → IsStrongest fields old new rest
      → IsStrongest
          (field ∷ fields)
          old
          new
          (if is_changed old new field then stronger field.apply rest else rest)
  step-IsStrongest field fields old new rest (above, reached) =
      let whole = IsStrongest (field ∷ fields) old new in
      let same =
        (λ (a : ApplyBehavior)
            (p : a ≡ (if is_changed old new field then stronger field.apply rest else rest)).
          p) in
      let kept = later field fields old new rest reached in
      elim (Bool-cases (is_changed old new field)) [
        | inr n ↦ subst whole (same rest (rw n refl)) ((λ t. cc, above), kept)
        | inl c ↦ elim (Bool-cases (leb (strength rest) (strength field.apply))) [
          | inl e ↦ subst whole (same field.apply (rw (c, e) refl)) (
            (λ t. omega arith, raise fields old new rest field.apply ((leb-eq-true _ _).0 e) above),
            inr (field, inl refl, c, refl),
          )
          | inr e ↦ subst whole (same rest (rw (c, e) refl)) ((λ t. ground arith, above), kept)
        ]
      ]

  -- The action asked for is at least as strong as that of every changed field, and it is either no
  -- action or that of a changed field.
  pub apply_behavior-IsStrongest :
      (schema : ConfigurationSchema V) (old new : Entries V)
      → IsStrongest schema old new (apply_behavior schema old new)
  unfolding apply_behavior
  apply_behavior-IsStrongest [] old new = (tt, inl refl)
  apply_behavior-IsStrongest (field ∷ fields) old new =
      step-IsStrongest field fields old new (apply_behavior fields old new)
        (apply_behavior-IsStrongest fields old new)
