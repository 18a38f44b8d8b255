-- ===== src/Managed/Views.antt =====
-- The older service state as a view of the framework state: what is loaded after a migration and
-- after a save.
use lumic.Prelude.{
  ◌<◌, ◌≤◌, ◌^◌, ◌≡◌, refl, sym, ap, ◌∙◌, subst, String, Bool, inl, inr, Bool-cases, ◌==◌,
  string_eq, Option, none, some, List, [], ◌∷◌, ◌++◌, keep, keep-append, All,
}
use mathlib.Core.List.{append-nil, append_assoc}
use lumic.Error.{Result, ok, err, traverse, ◌>>=◌, >>=-eq-ok, ok-injective}
use lumic.Resource.{ResourceRecord}
use lumic.Configuration.{get}
use lumic.Service.{ServiceInstance}
use lumic.Framework.{FrameworkState}
use lumic.Managed.{
  kind_id, ManagedService, Database, DatabaseUser, ServiceBackup, ManagedServiceState, no_services,
}
use lumic.Managed.Pairs.{Pairs, traverse-Pairs, traverse-append}
use lumic.Managed.Wire.{Wire, wire_json}
use lumic.Managed.Conversion.{
  text_of, database_resource, database_user_resource, backup_resource, database_from_resource,
  database_user_from_resource, backup_from_resource,
}
use lumic.Managed.Services.{service_from_instance, migrate_service}
use lumic.Managed.RoundTrip.{database_resource_lem, database_user_resource_lem, backup_resource_lem}
use lumic.Managed.Instances.{migrate_service_lem}
use lumic.Managed.Legacy.{
  is_compatible_id, is_compatible, add_typed, push_records, collect, framework_to_managed_state,
}

-- the ranges of the source's `u16` and `u64`
abbrev pub Fits : ManagedServiceState → Type 0
Fits legacy =
    All (λ s. s.configuration.port ≤ 65535) legacy.services
    × All (λ b. b.size_bytes < 2 ^ 64) legacy.backups

abbrev pub is_compatible_kind : ManagedService → Bool
is_compatible_kind s = is_compatible_id (kind_id s.kind)

-- two states together, without the second's services of the other kinds
abbrev pub joined : ManagedServiceState → ManagedServiceState → ManagedServiceState
joined base legacy = record {
  services = base.services ++ keep is_compatible_kind legacy.services;
  databases = base.databases ++ legacy.databases;
  users = base.users ++ legacy.users;
  backups = base.backups ++ legacy.backups;
}

module _ (V : Type 0) ⦃wire : Wire V⦄ where
  compatible_lem :
      (ss : List ManagedService) (is : List (ServiceInstance V))
      → All (λ s. s.configuration.port ≤ 65535) ss
      → Pairs migrate_service ss is
      → traverse service_from_instance (keep is_compatible is) ≡ ok (keep is_compatible_kind ss)
  compatible_lem [] [] fits h = refl
  compatible_lem [] (i ∷ is) fits h = absurd h
  compatible_lem (s ∷ ss) [] fits h = absurd h
  compatible_lem (s ∷ ss) (i ∷ is) fits h =
      let (back, _, kind) = migrate_service_lem V s i fits.0 h.0 in
      let later = compatible_lem ss is fits.1 h.1 in
      let same : is_compatible i ≡ is_compatible_kind s = ap is_compatible_id kind in
      elim (Bool-cases (is_compatible_kind s)) [
        | inl y ↦ rw (same ∙ y) (rw y (rw back (rw later refl)))
        | inr n ↦ rw (same ∙ n) (rw n later)
      ]

  bind_collect :
      (first : Result ManagedServiceState) (xs ys : List (ResourceRecord V))
      → ((l : ManagedServiceState) → collect l (xs ++ ys) ≡ (collect l xs >>= λ l'. collect l' ys))
      → (first >>= λ next. collect next (xs ++ ys))
        ≡ ((first >>= λ next. collect next xs) >>= λ l'. collect l' ys)
  bind_collect (err e) xs ys h = refl
  bind_collect (ok next) xs ys h = h next

  collect-append :
      (l : ManagedServiceState) (xs ys : List (ResourceRecord V))
      → collect l (xs ++ ys) ≡ (collect l xs >>= λ l'. collect l' ys)
  unfolding collect
  collect-append l [] ys = refl
  collect-append l (x ∷ xs) ys =
      bind_collect (add_typed l x (text_of (get "resource_type" x.attributes))) xs ys
        (λ next. collect-append next xs ys)

  databases_lem :
      (l : ManagedServiceState) (ds : List Database) (rs : List (ResourceRecord V))
      → Pairs database_resource ds rs
      → collect l rs ≡ ok (record l { databases = l.databases ++ ds })
  unfolding collect
  databases_lem l [] [] h =
      ap (λ ds. ok (record l { databases = ds })) (sym (append-nil l.databases))
  databases_lem l [] (r ∷ rs) h = absurd h
  databases_lem l (d ∷ ds) [] h = absurd h
  databases_lem l (d ∷ ds) (r ∷ rs) h =
      let (back, shows) = database_resource_lem V d r h.0 in
      rw shows.0 (
        rw back (
          databases_lem (record l { databases = l.databases ++ d ∷ [] }) ds rs h.1
          ∙ ap (λ ds. ok (record l { databases = ds })) (append_assoc l.databases (d ∷ []) ds)))

  users_lem :
      (l : ManagedServiceState) (us : List DatabaseUser) (rs : List (ResourceRecord V))
      → Pairs database_user_resource us rs
      → collect l rs ≡ ok (record l { users = l.users ++ us })
  unfolding collect
  users_lem l [] [] h = ap (λ us. ok (record l { users = us })) (sym (append-nil l.users))
  users_lem l [] (r ∷ rs) h = absurd h
  users_lem l (u ∷ us) [] h = absurd h
  users_lem l (u ∷ us) (r ∷ rs) h =
      let (back, shows) = database_user_resource_lem V u r h.0 in
      rw shows.0 (
        rw back (
          users_lem (record l { users = l.users ++ u ∷ [] }) us rs h.1
          ∙ ap (λ us. ok (record l { users = us })) (append_assoc l.users (u ∷ []) us)))

  backups_lem :
      (l : ManagedServiceState) (bs : List ServiceBackup) (rs : List (ResourceRecord V))
      → All (λ b. b.size_bytes < 2 ^ 64) bs
      → Pairs backup_resource bs rs
      → collect l rs ≡ ok (record l { backups = l.backups ++ bs })
  unfolding collect
  backups_lem l [] [] fits h =
      ap (λ bs. ok (record l { backups = bs })) (sym (append-nil l.backups))
  backups_lem l [] (r ∷ rs) fits h = absurd h
  backups_lem l (b ∷ bs) [] fits h = absurd h
  backups_lem l (b ∷ bs) (r ∷ rs) fits h =
      let (back, shows) = backup_resource_lem V b r fits.0 h.0 in
      rw shows.0 (
        rw back (
          backups_lem (record l { backups = l.backups ++ b ∷ [] }) bs rs fits.1 h.1
          ∙ ap (λ bs. ok (record l { backups = bs })) (append_assoc l.backups (b ∷ []) bs)))

  -- the three kinds of records one after the other
  records_lem :
      (l legacy : ManagedServiceState) (ds us bs : List (ResourceRecord V))
      → All (λ b. b.size_bytes < 2 ^ 64) legacy.backups
      → Pairs database_resource legacy.databases ds
      → Pairs database_user_resource legacy.users us
      → Pairs backup_resource legacy.backups bs
      → collect l (ds ++ (us ++ bs))
        ≡ ok (record l {
          databases = l.databases ++ legacy.databases;
          users = l.users ++ legacy.users;
          backups = l.backups ++ legacy.backups;
        })
  records_lem l legacy ds us bs fits hd hu hb =
      let l1 = record l { databases = l.databases ++ legacy.databases } in
      let l2 = record l1 { users = l.users ++ legacy.users } in
      rw (collect-append l ds (us ++ bs)) (
        rw (databases_lem l legacy.databases ds hd) (
          rw (collect-append l1 us bs)
            (rw (users_lem l1 legacy.users us hu) (backups_lem l2 legacy.backups bs fits hb))))

  carry :
      {T : Type 0} (first : Result T) (put : ManagedServiceState → T → ManagedServiceState)
      (l l' : ManagedServiceState) (services : List ManagedService)
      → ((m : ManagedServiceState) (xs : List ManagedService) (t : T)
          → put (record m { services = xs }) t ≡ record (put m t) { services = xs })
      → (first >>= λ t. ok (put l t)) ≡ ok l'
      → (first >>= λ t. ok (put (record l { services = services }) t))
        ≡ ok (record l' { services = services })
  carry (err e) put l l' services same h = absurd (cc)
  carry (ok t) put l l' services same h = ap ok (
      same l services t
      ∙ ap {A = ManagedServiceState} (λ m. record m { services = services }) (ok-injective h))

  add_typed_carries :
      (l l' : ManagedServiceState) (services : List ManagedService) (r : ResourceRecord V)
      (o : Option String)
      → add_typed l r o ≡ ok l'
      → add_typed (record l { services = services }) r o ≡ ok (record l' { services = services })
  add_typed_carries l l' services r none h = rw (← ok-injective h) refl
  add_typed_carries l l' services r (some kind) h = elim (Bool-cases (kind == "database")) [
    | inl p ↦ rw p (
        carry (database_from_resource r) (λ m d. record m { databases = m.databases ++ d ∷ [] }) l
          l' services (λ m xs t. refl) (rw p at h))
    | inr n ↦ elim (Bool-cases (kind == "database_user")) [
      | inl p ↦ rw n (
          rw p (
            carry (database_user_from_resource r) (λ m u. record m { users = m.users ++ u ∷ [] }) l
              l' services (λ m xs t. refl) (rw p at (rw n at h))))
      | inr q ↦ elim (Bool-cases (kind == "backup")) [
        | inl p ↦ rw n (
            rw q (
              rw p (
                carry (backup_from_resource r) (λ m b. record m { backups = m.backups ++ b ∷ [] }) l
                  l' services (λ m xs t. refl) (rw p at (rw q at (rw n at h))))))
        | inr k ↦ rw n (
            rw q (
              rw k (
                ap {A = ManagedServiceState} (λ m. ok (record m { services = services }))
                  (ok-injective (rw k at (rw q at (rw n at h)))))))
      ]
    ]
  ]

  collect_carries :
      (l l' : ManagedServiceState) (services : List ManagedService) (rs : List (ResourceRecord V))
      → collect l rs ≡ ok l'
      → collect (record l { services = services }) rs ≡ ok (record l' { services = services })
  unfolding collect
  collect_carries l l' services [] h =
      ap {A = ManagedServiceState} (λ m. ok (record m { services = services })) (ok-injective h)
  collect_carries l l' services (r ∷ rs) h =
      let kind = text_of (get "resource_type" r.attributes) in
      let (next, e, h1) = >>=-eq-ok (add_typed l r kind) _ h in
      rw (add_typed_carries l next services r kind e) (collect_carries next l' services rs h1)

  -- collecting from a state with its own services gives them back
  collect_services :
      (l l' : ManagedServiceState) (rs : List (ResourceRecord V))
      → collect l rs ≡ ok l'
      → l'.services ≡ l.services
  collect_services l l' rs h =
      ap {A = ManagedServiceState} (λ m. m.services)
        (ok-injective (sym h ∙ collect_carries l l' l.services rs h))

  joined_lem :
      (base legacy : ManagedServiceState) (state : FrameworkState V) (is : List (ServiceInstance V))
      (ds us bs : List (ResourceRecord V)) (services : List ManagedService)
      → Fits legacy
      → Pairs migrate_service legacy.services is
      → Pairs database_resource legacy.databases ds
      → Pairs database_user_resource legacy.users us
      → Pairs backup_resource legacy.backups bs
      → traverse service_from_instance (keep is_compatible state.services) ≡ ok services
      → collect (record no_services { services = services }) state.resources ≡ ok base
      → framework_to_managed_state (record state {
        services = state.services ++ is;
        resources = state.resources ++ (ds ++ (us ++ bs));
      })
        ≡ ok (joined base legacy)
  unfolding framework_to_managed_state
  joined_lem base legacy state is ds us bs services fits hs hd hu hb f seen =
      let all = services ++ keep is_compatible_kind legacy.services in
      let start = record no_services { services = all } in
      rw (keep-append is_compatible state.services is) (
        rw
          (traverse-append service_from_instance (keep is_compatible state.services)
            (keep is_compatible is) services (keep is_compatible_kind legacy.services) f
            (compatible_lem legacy.services is fits.0 hs))
          (rw (collect-append start state.resources (ds ++ (us ++ bs))) (
            rw
              (collect_carries (record no_services { services = services }) base all state.resources
                seen)
              (records_lem (record base { services = all }) legacy ds us bs fits.1 hd hu hb
                ∙ ap (λ ss. ok (joined (record base { services = ss }) legacy))
                    (sym (
                      collect_services (record no_services { services = services }) base
                        state.resources seen))))))

  -- What is pushed onto a framework state is seen behind what was seen there before.
  pub push_records_lem :
      (base legacy : ManagedServiceState) (state next : FrameworkState V)
      → Fits legacy
      → framework_to_managed_state state ≡ ok base
      → push_records legacy state ≡ ok next
      → framework_to_managed_state next ≡ ok (joined base legacy)
  unfolding push_records framework_to_managed_state
  push_records_lem base legacy state next fits seen h =
      let (is, e1, h1) = >>=-eq-ok (traverse migrate_service legacy.services) _ h in
      let (ds, e2, h2) = >>=-eq-ok (traverse database_resource legacy.databases) _ h1 in
      let (us, e3, h3) = >>=-eq-ok (traverse database_user_resource legacy.users) _ h2 in
      let (bs, e4, h4) = >>=-eq-ok (traverse backup_resource legacy.backups) _ h3 in
      let (services, f, seen') =
        >>=-eq-ok (traverse service_from_instance (keep is_compatible state.services)) _ seen in
      subst (λ next. framework_to_managed_state next ≡ ok (joined base legacy)) (ok-injective h4)
        (joined_lem base legacy state is ds us bs services fits
          (traverse-Pairs migrate_service legacy.services is e1)
          (traverse-Pairs database_resource legacy.databases ds e2)
          (traverse-Pairs database_user_resource legacy.users us e3)
          (traverse-Pairs backup_resource legacy.backups bs e4) f seen')
