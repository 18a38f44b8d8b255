-- ===== src/Framework/Loops.antt =====
-- The loops of `FrameworkState::validate`, each by what it accepts.
use lumic.Prelude.{
  ◌≡◌, refl, ◌↔◌, ◌⊎◌, inl, inr, String, true, not, List, [], ◌∷◌, In, All, Unseen, contains,
  contains_iff, not-contains_iff, not-eq-false, map, string_eq,
}
use lumic.Error.{ok, reject_if, >>=-eq-ok, reject_if-eq-ok, ok-injective}
use lumic.Json.{Json}
use lumic.Resource.{ResourceRef, ref_eq, ResourceRecord, validate_record}
use lumic.Binding.{Binding}
use lumic.Pipeline.Execution.{PipelineExecution}
use lumic.Service.{ServiceInstance, validate_service, service_ref}
use lumic.Framework.{
  has_output, check_services, check_resources, check_binding, check_bindings, check_executions,
}

abbrev pub record_ref : {V : Type 0} → ResourceRecord V → ResourceRef
record_ref r = r.resource

abbrev pub execution_id : PipelineExecution → String
execution_id e = e.id

-- what the set of references holds after a loop over `names`
abbrev pub Gathers : List ResourceRef → List ResourceRef → List ResourceRef → Type 0
Gathers before names after = (r : ResourceRef) → In r after ↔ (In r before ⊎ In r names)

Gathers-cons :
    (x : ResourceRef) (before names after : List ResourceRef)
    → Gathers (x ∷ before) names after
    → Gathers before (x ∷ names) after
Gathers-cons x before names after g r =
    let (to, from) = g r in
    (
      λ i. elim (to i) [
        | inl j ↦ elim j [ inl p ↦ inr (inl p) | inr k ↦ inl k ]
        | inr j ↦ inr (inr j)
      ],
      λ i. elim i [
        | inl j ↦ from (inl (inr j))
        | inr j ↦ elim j [ inl p ↦ from (inl (inl p)) | inr k ↦ from (inr k) ]
      ],
    )

module _ {V : Type 0} ⦃json : Json V⦄ where
  abbrev pub ServicesPass : List ResourceRef → List (ServiceInstance V) → List ResourceRef → Type 0
  ServicesPass before ss after =
      All (λ s. validate_service s ≡ ok tt) ss
      × Unseen before (map service_ref ss)
      × Gathers before (map service_ref ss) after

  pub check_services-Pass :
      (before after : List ResourceRef) (ss : List (ServiceInstance V))
      → check_services before ss ≡ ok after
      → ServicesPass before ss after
  unfolding check_services
  check_services-Pass before after [] h =
      (tt, tt, λ r. rw (ok-injective h) (inl, λ i. elim i [ inl j ↦ j | inr j ↦ absurd j ]))
  check_services-Pass before after (s ∷ ss) h =
      let (_, sound, h₁) = >>=-eq-ok (validate_service s) _ h in
      let (_, fresh, h₂) = >>=-eq-ok (reject_if (contains before (service_ref s)) _) _ h₁ in
      let (a, u, g) = check_services-Pass (service_ref s ∷ before) after ss h₂ in
      (
        (sound, a),
        ((not-contains_iff before (service_ref s)).0 (reject_if-eq-ok _ _ fresh), u),
        Gathers-cons (service_ref s) before (map service_ref ss) after g,
      )

  pub Pass-check_services :
      (before : List ResourceRef) (ss : List (ServiceInstance V))
      → All (λ s. validate_service s ≡ ok tt) ss
      → Unseen before (map service_ref ss)
      → (after : List ResourceRef) × (check_services before ss ≡ ok after)
  unfolding check_services
  Pass-check_services before [] a u = (before, refl)
  Pass-check_services before (s ∷ ss) (sound, a) (fresh, u) =
      let (after, h) = Pass-check_services (service_ref s ∷ before) ss a u in
      (after, rw sound (rw ((not-contains_iff before (service_ref s)).1 fresh) h))

  abbrev pub ResourcesPass : List ResourceRef → List (ResourceRecord V) → List ResourceRef → Type 0
  ResourcesPass before rs after =
      All (λ r. validate_record r ≡ ok tt) rs
      × Unseen before (map record_ref rs)
      × Gathers before (map record_ref rs) after

  pub check_resources-Pass :
      (before after : List ResourceRef) (rs : List (ResourceRecord V))
      → check_resources before rs ≡ ok after
      → ResourcesPass before rs after
  unfolding check_resources
  check_resources-Pass before after [] h =
      (tt, tt, λ r. rw (ok-injective h) (inl, λ i. elim i [ inl j ↦ j | inr j ↦ absurd j ]))
  check_resources-Pass before after (r ∷ rs) h =
      let (_, sound, h₁) = >>=-eq-ok (validate_record r) _ h in
      let (_, fresh, h₂) = >>=-eq-ok (reject_if (contains before r.resource) _) _ h₁ in
      let (a, u, g) = check_resources-Pass (r.resource ∷ before) after rs h₂ in
      (
        (sound, a),
        ((not-contains_iff before r.resource).0 (reject_if-eq-ok _ _ fresh), u),
        Gathers-cons r.resource before (map record_ref rs) after g,
      )

  pub Pass-check_resources :
      (before : List ResourceRef) (rs : List (ResourceRecord V))
      → All (λ r. validate_record r ≡ ok tt) rs
      → Unseen before (map record_ref rs)
      → (after : List ResourceRef) × (check_resources before rs ≡ ok after)
  unfolding check_resources
  Pass-check_resources before [] a u = (before, refl)
  Pass-check_resources before (r ∷ rs) (sound, a) (fresh, u) =
      let (after, h) = Pass-check_resources (r.resource ∷ before) rs a u in
      (after, rw sound (rw ((not-contains_iff before r.resource).1 fresh) h))

module _ {V : Type 0} (services : List (ServiceInstance V))
    (resources : List (ResourceRecord V)) where
  abbrev pub Joins : List ResourceRef → Binding → Type 0
  Joins refs b = In b.producer refs × In b.consumer refs × (has_output services resources b ≡ true)

  check_binding_iff :
      (refs : List ResourceRef) (b : Binding)
      → (check_binding services resources refs b ≡ ok tt) ↔ Joins refs b
  unfolding check_binding
  check_binding_iff refs b = (
    λ h.
        let (_, p, h₁) = >>=-eq-ok (reject_if (not (contains refs b.producer)) _) _ h in
        let (_, c, h₂) = >>=-eq-ok (reject_if (not (contains refs b.consumer)) _) _ h₁ in
        (
          (contains_iff refs b.producer).0 (not-eq-false _ (reject_if-eq-ok _ _ p)),
          (contains_iff refs b.consumer).0 (not-eq-false _ (reject_if-eq-ok _ _ c)),
          not-eq-false _ (reject_if-eq-ok _ _ h₂),
        ),
    λ (p, c, o).
        rw ((contains_iff refs b.producer).1 p) (rw ((contains_iff refs b.consumer).1 c) (rw o)),
  )

  pub check_bindings_iff :
      (refs : List ResourceRef) (bs : List Binding)
      → (check_bindings services resources refs bs ≡ ok tt) ↔ All (Joins refs) bs
  unfolding check_bindings
  check_bindings_iff refs [] = (λ _. tt, λ _. refl)
  check_bindings_iff refs (b ∷ bs) =
      let (to, from) = check_bindings_iff refs bs in
      let (to_one, from_one) = check_binding_iff refs b in
      (
        λ h.
            let (_, one, rest) = >>=-eq-ok (check_binding services resources refs b) _ h in
            (to_one one, to rest),
        λ (one, rest). rw (from_one one) (from rest),
      )

pub check_executions_iff :
    (ids : List String) (es : List PipelineExecution)
    → (check_executions ids es ≡ ok tt) ↔ Unseen ids (map execution_id es)
unfolding check_executions
check_executions_iff ids [] = (λ _. tt, λ _. refl)
check_executions_iff ids (e ∷ es) =
    let (to, from) = check_executions_iff (e.id ∷ ids) es in
    (
      λ h.
          let (_, fresh, rest) = >>=-eq-ok (reject_if (contains ids e.id) _) _ h in
          ((not-contains_iff ids e.id).0 (reject_if-eq-ok _ _ fresh), to rest),
      λ (fresh, rest). rw ((not-contains_iff ids e.id).1 fresh) (from rest),
    )
