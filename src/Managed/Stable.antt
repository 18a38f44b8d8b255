-- ===== src/Managed/Stable.antt =====
-- Loading after a load, and loading what a save leaves alone.
use lumic.Prelude.{
  ℕ, ◌≡◌, ◌⊎◌, refl, ap, ◌∙◌, subst, String, Bool, true, false, not, inl, inr, Bool-cases, ◌==◌,
  string_eq, Option, none, some, List, [], ◌∷◌, ◌++◌, keep, if◌then◌else◌,
}
use lumic.Error.{Result, ok, err, traverse, ◌>>=◌, >>=-eq-ok}
use lumic.Resource.{ResourceRecord}
use lumic.Configuration.{get}
use lumic.Framework.{FrameworkState, validate_state}
use lumic.Framework.Store.{stored, load_file}
use lumic.Managed.{ManagedServiceState, no_services}
use lumic.Managed.Wire.{Wire, wire_json}
use lumic.Managed.Conversion.{
  text_of, database_from_resource, database_user_from_resource, backup_from_resource,
}
use lumic.Managed.Services.{service_from_instance}
use lumic.Managed.Saves.{load_stored, finish_lem}
use lumic.Managed.Legacy.{
  LegacyFile, StateDir, Copying, copied, not_begun, cut_short, is_compatible, is_missing,
  is_replaced, compatible_ids, add_typed, collect, framework_to_managed_state, without_legacy,
  migrate_legacy, read_legacy, copy_legacy, migrate_read, migrate_file, load_or_migrate,
  load_managed_service_state,
}

none_left : {A : Type 0} (p : A → Bool) (xs : List A) → keep p (keep (λ x. not (p x)) xs) ≡ []
none_left p [] = refl
none_left p (x ∷ xs) = elim (Bool-cases (p x)) [
  | inl y ↦ rw y (none_left p xs)
  | inr n ↦ rw n (rw n (none_left p xs))
]

put_any :
    {T : Type 0} (first : Result T) (put : ManagedServiceState → T → ManagedServiceState)
    (l l' m : ManagedServiceState)
    → ((m : ManagedServiceState) (t : T) → (put m t).services ≡ m.services)
    → (first >>= λ t. ok (put l t)) ≡ ok l'
    → (m' : ManagedServiceState) × ((first >>= λ t. ok (put m t)) ≡ ok m')
      × (m'.services ≡ m.services)
put_any (err e) put l l' m same h = absurd (cc)
put_any (ok t) put l l' m same h = (put m t, refl, same m t)

module _ {V : Type 0} ⦃wire : Wire V⦄ where
  -- a directory that is left as it was, or holds the state
  abbrev Stays : StateDir V → StateDir V → FrameworkState V → Type 0
  Stays d d' state =
      (d ≡ d') ⊎ ((d'.directory.file ≡ stored state) × (validate_state state ≡ ok tt))

  if_Stays :
      (b : Bool) (first second : Result (FrameworkState V) × StateDir V) (d d' : StateDir V)
      (state : FrameworkState V)
      → (first ≡ (ok state, d') → Stays d d' state)
      → (second ≡ (ok state, d') → Stays d d' state)
      → (if b then first else second) ≡ (ok state, d')
      → Stays d d' state
  if_Stays true first second d d' state f g h = f h
  if_Stays false first second d d' state f g h = g h

  copy_Stays :
      (d d' : StateDir V) (legacy : ManagedServiceState) (now : ℕ) (copying : Copying)
      (state : FrameworkState V)
      → copy_legacy d legacy now copying ≡ (ok state, d')
      → Stays d d' state
  copy_Stays d d' legacy now not_begun state h = absurd (cc (ap (λ x. x.0) h))
  copy_Stays d d' legacy now cut_short state h = absurd (cc (ap (λ x. x.0) h))
  copy_Stays d d' legacy now copied state h =
      let (_, file, valid, _) =
        finish_lem (record d { has_backup = true }) d' state
          (migrate_legacy legacy d.legacy_path d.backup_path now) h in
      inr (file, valid)

  read_Stays :
      (d d' : StateDir V) (now : ℕ) (r : Result ManagedServiceState) (state : FrameworkState V)
      → migrate_read d now r ≡ (ok state, d')
      → Stays d d' state
  read_Stays d d' now (err e) state h = absurd (cc (ap (λ x. x.0) h))
  read_Stays d d' now (ok legacy) state h =
      if_Stays d.has_backup _ (copy_legacy d legacy now d.copying) d d' state
        (λ h. absurd (cc (ap (λ x. x.0) h))) (copy_Stays d d' legacy now d.copying state) h

  file_Stays :
      (d d' : StateDir V) (now : ℕ) (o : Option LegacyFile) (state : FrameworkState V)
      → migrate_file d now o ≡ (ok state, d')
      → Stays d d' state
  file_Stays d d' now none state h = inl (ap (λ x. x.1) h)
  file_Stays d d' now (some file) state h = read_Stays d d' now (read_legacy file) state h

  load_Stays :
      (d d' : StateDir V) (now : ℕ) (state : FrameworkState V)
      → load_or_migrate d now ≡ (ok state, d')
      → Stays d d' state
  unfolding load_or_migrate
  load_Stays d d' now state h =
      if_Stays (not (is_missing d.directory.file)) (load_file d.directory.file, d)
        (migrate_file d now d.legacy) d d' state (λ h. inl (ap (λ x. x.1) h))
        (file_Stays d d' now d.legacy state) h

  -- The state that was loaded, after a migration too, is loaded again, and nothing changes then.
  pub load_or_migrate-stable :
      (d d' : StateDir V) (now : ℕ) (state : FrameworkState V)
      → load_or_migrate d now ≡ (ok state, d')
      → load_or_migrate d' now ≡ (ok state, d')
  load_or_migrate-stable d d' now state h = elim (load_Stays d d' now state h) [
    | inl same ↦ subst (λ x. load_or_migrate x now ≡ (ok state, d')) same h
    | inr held ↦ load_stored d' state now held.0 held.1
  ]

  pub load_managed-parts :
      (d d' : StateDir V) (now : ℕ) (legacy : ManagedServiceState)
      → load_managed_service_state d now ≡ (ok legacy, d')
      → (state : FrameworkState V) × (load_or_migrate d now ≡ (ok state, d'))
        × (framework_to_managed_state state ≡ ok legacy)
  unfolding load_managed_service_state
  load_managed-parts d d' now legacy h =
      let (state, e, seen) = >>=-eq-ok (load_or_migrate d now).0 _ (ap (λ x. x.0) h) in
      (state, (λ i. (e i, ap {A = Result ManagedServiceState × StateDir V} (λ x. x.1) h i)), seen)

  add_typed-any :
      (l l' m : ManagedServiceState) (r : ResourceRecord V) (o : Option String)
      → add_typed l r o ≡ ok l'
      → (m' : ManagedServiceState) × (add_typed m r o ≡ ok m') × (m'.services ≡ m.services)
  add_typed-any l l' m r none h = (m, refl, refl)
  add_typed-any l l' m r (some kind) h = elim (Bool-cases (kind == "database")) [
    | inl p ↦ rw p (
        put_any (database_from_resource r) (λ m d. record m { databases = m.databases ++ d ∷ [] }) l
          l' m (λ m t. refl) (rw p at h))
    | inr n ↦ elim (Bool-cases (kind == "database_user")) [
      | inl p ↦ rw n (
          rw p (
            put_any (database_user_from_resource r) (λ m u. record m { users = m.users ++ u ∷ [] })
              l l' m (λ m t. refl) (rw p at (rw n at h))))
      | inr q ↦ elim (Bool-cases (kind == "backup")) [
        | inl p ↦ rw n (
            rw q (
              rw p (
                put_any (backup_from_resource r) (λ m b. record m { backups = m.backups ++ b ∷ [] })
                  l l' m (λ m t. refl) (rw p at (rw q at (rw n at h))))))
        | inr k ↦ rw n (rw q (rw k (m, refl, refl)))
      ]
    ]
  ]

  collect-keep :
      (p : ResourceRecord V → Bool) (l l' m : ManagedServiceState) (rs : List (ResourceRecord V))
      → collect l rs ≡ ok l'
      → (m' : ManagedServiceState) × (collect m (keep p rs) ≡ ok m') × (m'.services ≡ m.services)
  unfolding collect
  collect-keep p l l' m [] h = (m, refl, refl)
  collect-keep p l l' m (r ∷ rs) h =
      let kind = text_of (get "resource_type" r.attributes) in
      let (next, e, rest) = >>=-eq-ok (add_typed l r kind) _ h in
      elim (Bool-cases (p r)) [
        | inl yes' ↦
            let (m1, e1, same) = add_typed-any l next m r kind e in
            let (m2, e2, same') = collect-keep p next l' m1 rs rest in
            rw yes' (rw e1 (m2, e2, same' ∙ same))
        | inr no' ↦ rw no' (collect-keep p next l' m rs rest)
      ]

  -- What a save leaves alone can be loaded where everything could, and shows no service.
  pub without_legacy_lem :
      (state : FrameworkState V) (legacy : ManagedServiceState)
      → framework_to_managed_state state ≡ ok legacy
      → (base : ManagedServiceState) × (framework_to_managed_state (without_legacy state) ≡ ok base)
        × (base.services ≡ [])
  unfolding framework_to_managed_state without_legacy
  without_legacy_lem state legacy h =
      let (services, _, rest) =
        >>=-eq-ok (traverse service_from_instance (keep is_compatible state.services)) _ h in
      rw (none_left is_compatible state.services) (
        collect-keep (λ r. not (is_replaced (compatible_ids state) r))
          (record no_services { services = services }) legacy no_services state.resources rest)

  -- The service state that was loaded, after a migration too, is loaded again, and nothing changes then.
  pub load_managed-stable :
      (d d' : StateDir V) (now : ℕ) (legacy : ManagedServiceState)
      → load_managed_service_state d now ≡ (ok legacy, d')
      → load_managed_service_state d' now ≡ (ok legacy, d')
  unfolding load_managed_service_state
  load_managed-stable d d' now legacy h =
      let (state, loaded, seen) = load_managed-parts d d' now legacy h in
      rw (load_or_migrate-stable d d' now state loaded) (ap (λ r. (r, d')) seen)
