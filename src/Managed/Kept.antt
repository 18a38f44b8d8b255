-- ===== src/Managed/Kept.antt =====
-- The bindings of others where a service is attached to an application.
use lumic.Prelude.{
  ◌≡◌, refl, subst, ℕ, String, false, inl, Option, none, some, List, [], ◌∷◌, ◌<>◌, ◌==◌, string_eq,
  In, In-append, In-keep,
}
use lumic.Error.{ok, >>=-eq-ok, ok-injective}
use lumic.Resource.{ResourceRef, ref_eq, application, managed_service, service_resource, new_ref}
use lumic.Binding.{Binding}
use lumic.Application.{ApplicationServiceReference}
use lumic.Framework.{FrameworkState, validate_state}
use lumic.Managed.{ManagedService}
use lumic.Managed.Wire.{Wire, wire_json}
use lumic.Managed.Services.{search_secret_name}
use lumic.Managed.RoundTrip.{new_ref_lem}
use lumic.Managed.Publish.{
  binding_id, replace_binding, bind_database, bind_user, bind_reference, other_bindings,
  persist_application_service_bindings,
}

module _ (sha256 : String → String) (application_id : String)
    (reference : ApplicationServiceReference) (now : ℕ) (consumer : ResourceRef) where
  -- a binding that is not of the application, and has none of the ids that are written
  pub record IsApart (b : Binding) : Type 0 where
    pub other : (b.consumer == consumer) ≡ false
    pub endpoint : (b.id == binding_id sha256 "endpoint" application_id reference.role) ≡ false
    pub credential : (b.id == binding_id sha256 "credential" application_id reference.role) ≡ false
    pub database : (b.id == binding_id sha256 "database" application_id reference.role) ≡ false

  replace_keeps :
      (b made : Binding) (bindings : List Binding)
      → (b.id == made.id) ≡ false
      → (b.consumer == made.consumer) ≡ false
      → In b bindings
      → In b (replace_binding bindings made)
  replace_keeps b made bindings apart other h =
      (In-append b _ (made ∷ [])).1 (inl ((In-keep _ b bindings).1 (h, rw apart (rw other refl))))

  reference_keeps :
      (b : Binding) (o : Option String) (bindings made : List Binding)
      → IsApart b
      → In b bindings
      → bind_reference sha256 application_id reference now consumer o bindings ≡ ok made
      → In b made
  reference_keeps b (some secret_name) bindings made apart h e =
      let (provider, _, e') = >>=-eq-ok (new_ref managed_service reference.service_id) _ e in
      subst (In b) (ok-injective e') (
        replace_keeps b _ _ apart.credential apart.other
          (replace_keeps b _ bindings apart.endpoint apart.other h))
  reference_keeps b none bindings made apart h e =
      let (first, e1, e2) =
        >>=-eq-ok
          (bind_database sha256 application_id reference now consumer reference.database bindings) _
          e in
      user_keeps reference.user first (database_keeps reference.database first e1) e2
    where
      database_keeps :
          (o : Option String) (first : List Binding)
          → bind_database sha256 application_id reference now consumer o bindings ≡ ok first
          → In b first
      database_keeps none first e = subst (In b) (ok-injective e) h
      database_keeps (some database) first e =
          let (producer, _, e') =
            >>=-eq-ok
              (new_ref service_resource
                ("database." <> (reference.service_id <> ("-" <> database))))
              _ e in
          subst (In b) (ok-injective e') (replace_keeps b _ bindings apart.database apart.other h)

      user_keeps :
          (o : Option String) (first : List Binding)
          → In b first
          → bind_user sha256 application_id reference now consumer o first ≡ ok made
          → In b made
      user_keeps none first i e = subst (In b) (ok-injective e) i
      user_keeps (some user) first i e =
          let (producer, _, e') =
            >>=-eq-ok
              (new_ref service_resource
                ("database-user." <> (reference.service_id <> ("-" <> user))))
              _ e in
          subst (In b) (ok-injective e') (replace_keeps b _ first apart.credential apart.other i)

  others_stay :
      (b : Binding) (bindings : List Binding)
      → (b.consumer == consumer) ≡ false
      → In b bindings
      → In b (other_bindings sha256 application_id reference now consumer bindings)
  others_stay b bindings other h = (In-keep _ b bindings).1 (h, rw other refl)

-- Where the bindings of a service are published to an application, every binding that is of another
-- consumer and has none of the ids that are written stays, and the resulting state is valid.
pub persist_keeps :
    (V : Type 0) ⦃wire : Wire V⦄ (sha256 : String → String) (state next : FrameworkState V)
    (application_id domain : String) (service : ManagedService)
    (reference : ApplicationServiceReference) (now : ℕ) (b : Binding)
    → IsApart sha256 application_id reference now
        (record { kind = application; id = application_id })
        b
    → In b state.bindings
    → persist_application_service_bindings sha256 state application_id domain service reference now
      ≡ ok next
    → In b next.bindings × (validate_state next ≡ ok tt)
unfolding persist_application_service_bindings
persist_keeps V sha256 state next application_id domain service reference now b apart h e =
    let (consumer, e0, e1) = >>=-eq-ok (new_ref application application_id) _ e in
    let named = new_ref_lem application application_id consumer e0 in
    let apart' = subst (λ c. IsApart sha256 application_id reference now c b) named apart in
    let (made, e2, e3) =
      >>=-eq-ok
        (bind_reference sha256 application_id reference now consumer
          (search_secret_name service.kind)
          (other_bindings sha256 application_id reference now consumer state.bindings))
        _ e1 in
    let (_, valid, e4) = >>=-eq-ok (validate_state _) _ e3 in
    let kept =
      reference_keeps sha256 application_id reference now consumer b
        (search_secret_name service.kind)
        (other_bindings sha256 application_id reference now consumer state.bindings) made apart'
        (others_stay sha256 application_id reference now consumer b state.bindings apart'.other h)
        e2 in
    subst (λ x. In b x.bindings × (validate_state x ≡ ok tt)) (ok-injective e4) (kept, valid)
