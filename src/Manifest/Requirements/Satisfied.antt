-- ===== src/Manifest/Requirements/Satisfied.antt =====
-- Which services the requirements of a manifest come to.
use lumic.Prelude.{
  ◌≡◌, refl, ap, ◌∙◌, subst, String, true, ◌||◌, Option, none, some, List, [], ◌∷◌, In, All,
  All-append, All-imp, Bool-cases, inl, inr, ◌==◌, string_eq, starts_with,
}
use lumic.Error.{LumicError, Result, ok, err, ensure, >>=-eq-ok, ok-injective, ensure-eq-ok}
use lumic.Json.{Values}
use lumic.Resource.{Entries}
use lumic.Configuration.{get, resolve}
use lumic.Configuration.Resubmit.{resolve_again}
use lumic.Catalog.{ServiceDefinition}
use lumic.Catalog.Loading.{Catalog, provides, values_of}
use lumic.Catalog.Providers.{service_for_capability-Answers}
use lumic.Manifest.{ManifestRequirement}
use lumic.Manifest.Requirements.{
  ManifestServiceRequirement, map_error, or_error, is_web, resource_name, resolve_resources,
  provider_of, from_provider, requirements_of,
}

or_error-eq-ok :
    {A : Type 0} (e : LumicError) (o : Option A) (a : A) → or_error e o ≡ ok a → o ≡ some a
or_error-eq-ok e none a h = cc
or_error-eq-ok e (some b) a h = cc

map_error-eq-ok :
    {A : Type 0} (role : String) (r : Result A) (a : A) → map_error role r ≡ ok a → r ≡ ok a
map_error-eq-ok role (ok b) a h = h
map_error-eq-ok role (err e) a h = cc

module _ {V : Type 0} ⦃values : Values V⦄ where
  -- the requirement is met by a service of the catalog that provides the capability, and its
  -- configuration is one that the service's schema resolves to itself
  abbrev pub IsSatisfied :
      Catalog V → List (ManifestRequirement V) → ManifestServiceRequirement V → Type 0
  IsSatisfied catalog asked r =
      (requirement : ManifestRequirement V) × (provider : ServiceDefinition V) × In requirement
        asked
      × In provider (values_of catalog.services)
      × (provides requirement.capability provider ≡ true)
      × (r.role ≡ requirement.role)
      × (r.service_type ≡ provider.id)
      × (resolve provider.configuration r.configuration ≡ ok r.configuration)

  get-In :
      (k : String) (entries : Entries (ServiceDefinition V)) (d : ServiceDefinition V)
      → get k entries ≡ some d
      → In d (values_of entries)
  unfolding get
  get-In k [] d h = cc
  get-In k ((j, e) ∷ entries) d h = elim (Bool-cases (j == k)) [
    | inl is ↦ let h' = rw is at h in inl cc
    | inr not_it ↦ let h' = rw not_it at h in inr (get-In k entries d h')
  ]

  IsProvider : Catalog V → String → ServiceDefinition V → Type 0
  IsProvider catalog capability d =
      In d (values_of catalog.services) × (provides capability d ≡ true)

  provider_of-IsProvider :
      (catalog : Catalog V) (named : Option String) (capability : String) (d : ServiceDefinition V)
      → provider_of catalog named capability ≡ ok (some d)
      → IsProvider catalog capability d
  unfolding provider_of IsProvider
  provider_of-IsProvider catalog none capability d h =
      let (place, does, _) = service_for_capability-Answers catalog capability (some d) h in
      (place, does)
  provider_of-IsProvider catalog (some name) capability d h =
      let (found, got, h1) = >>=-eq-ok (or_error _ (get name catalog.services)) _ h in
      let (_, does, h2) = >>=-eq-ok (ensure (provides capability found) _) _ h1 in
      let same : found ≡ d = cc in
      subst (IsProvider catalog capability) same
        (get-In name catalog.services found (or_error-eq-ok _ _ found got), ensure-eq-ok _ _ does)

  from_provider-IsSatisfied :
      (catalog : Catalog V) (asked : List (ManifestRequirement V))
      (requirement : ManifestRequirement V) (o : Option (ServiceDefinition V))
      (here : List (ManifestServiceRequirement V))
      → In requirement asked
      → ((d : ServiceDefinition V) → o ≡ some d → IsProvider catalog requirement.capability d)
      → from_provider requirement o ≡ ok here
      → All (IsSatisfied catalog asked) here
  unfolding from_provider IsProvider
  from_provider-IsSatisfied catalog asked requirement none here place provided h =
      elim (Bool-cases (requirement.optional || starts_with requirement.capability "runtime.")) [
        | inl e ↦ let h' = rw e at h in subst (All (IsSatisfied catalog asked)) (ok-injective h') tt
        | inr e ↦ let h' = rw e at h in absurd cc
      ]
  from_provider-IsSatisfied catalog asked requirement (some d) here place provided h =
      let (configuration, resolved, h1) =
        >>=-eq-ok (map_error requirement.role (resolve d.configuration requirement.configuration)) _
          h in
      let (resources, _, h2) =
        >>=-eq-ok (resolve_resources requirement.role d [] requirement.resources) _ h1 in
      let (member, does) = provided d refl in
      elim (Bool-cases (is_web d.category)) [
        | inl e ↦
            let h3 = rw e at h2 in subst (All (IsSatisfied catalog asked)) (ok-injective h3) tt
        | inr e ↦
            let h3 = rw e at h2 in
            let (database, _, h4) = >>=-eq-ok (resource_name resources "database") _ h3 in
            let (user, _, h5) = >>=-eq-ok (resource_name resources "user") _ h4 in
            subst (All (IsSatisfied catalog asked)) (ok-injective h5) (
              (
                requirement,
                d,
                place,
                member,
                does,
                refl,
                refl,
                resolve_again d.configuration requirement.configuration configuration
                    (map_error-eq-ok requirement.role _ configuration resolved),
              ),
              tt,
            )
      ]

  All-IsSatisfied :
      (catalog : Catalog V) (requirement : ManifestRequirement V)
      (asked : List (ManifestRequirement V)) (rs : List (ManifestServiceRequirement V))
      → All (IsSatisfied catalog asked) rs
      → All (IsSatisfied catalog (requirement ∷ asked)) rs
  All-IsSatisfied catalog requirement asked =
      All-imp (IsSatisfied catalog asked) (IsSatisfied catalog (requirement ∷ asked))
        (λ r s. let (q, d, place, a, b, c, e, f) = s in (q, d, inr place, a, b, c, e, f))

  pub requirements_of-IsSatisfied :
      (catalog : Catalog V) (asked : List (ManifestRequirement V))
      (out : List (ManifestServiceRequirement V))
      → requirements_of catalog asked ≡ ok out
      → All (IsSatisfied catalog asked) out
  unfolding requirements_of
  requirements_of-IsSatisfied catalog [] out h =
      subst (All (IsSatisfied catalog [])) (ok-injective h) tt
  requirements_of-IsSatisfied catalog (requirement ∷ asked) out h =
      let whole = requirement ∷ asked in
      let (o, found, h1) =
        >>=-eq-ok (provider_of catalog requirement.provider requirement.capability) _ h in
      let (here, made, h2) = >>=-eq-ok (from_provider requirement o) _ h1 in
      let (rest, more, h3) = >>=-eq-ok (requirements_of catalog asked) _ h2 in
      let first =
        from_provider-IsSatisfied catalog whole requirement o here (inl refl)
          (λ d is.
            provider_of-IsProvider catalog requirement.provider requirement.capability d
              (found ∙ ap ok is))
          made in
      let later =
        All-IsSatisfied catalog requirement asked rest
          (requirements_of-IsSatisfied catalog asked rest more) in
      subst (All (IsSatisfied catalog whole)) (ok-injective h3)
        (All-append (IsSatisfied catalog whole) here rest first later)
