-- ===== src/Managed/Lost.antt =====
-- Saves that follow on a save of services of the newer kinds, and of backups of a service that is gone.
use lumic.Prelude.{
  All-In, ℕ, ◌≡◌, ◌≢◌, sym, ap, ◌∙◌, subst, String, ◌<>◌, false, not, inl, inr, string_eq, List, [],
  ◌++◌, map, keep, In, In-append, In-map, map-In, In-keep, Distinct, contains, not-contains_iff,
}
use lumic.Error.{ok, traverse, >>=-eq-ok, ok-injective}
use lumic.Resource.{ResourceRecord, managed_service, artifact, new_ref}
use lumic.Service.{ServiceInstance, service_ref}
use lumic.Framework.{FrameworkState}
use lumic.Framework.Loops.{record_ref}
use lumic.Framework.Valid.{IsValid, validate_state_iff}
use lumic.Managed.{ManagedService, ServiceBackup, ManagedServiceState}
use lumic.Managed.Wire.{Wire, wire_json}
use lumic.Managed.Conversion.{
  narrow_timestamp, backup_resource, database_resource, database_user_resource,
}
use lumic.Managed.Services.{migrate_service}
use lumic.Managed.RoundTrip.{backup_resource_lem, new_ref_lem}
use lumic.Managed.Instances.{migrate_service_lem}
use lumic.Managed.Views.{Fits, is_compatible_kind}
use lumic.Managed.Pairs.{
  Pairs, traverse-Pairs, Pairs-In, In-Pairs, In-last, Distinct-apart, map-append,
}
use lumic.Managed.Saves.{save-Replaced}
use lumic.Managed.Legacy.{
  is_compatible, is_compatible_id, is_replaced, compatible_ids, StateDir,
  save_managed_service_state, replace_legacy, without_legacy, push_records,
}

module _ (V : Type 0) ⦃wire : Wire V⦄ where
  -- what pushing the records adds
  record Pushed (legacy : ManagedServiceState) (state next : FrameworkState V) : Type 0 where
    services : List (ServiceInstance V)
    databases : List (ResourceRecord V)
    users : List (ResourceRecord V)
    backups : List (ResourceRecord V)
    service_pairs : Pairs migrate_service legacy.services services
    backup_pairs : Pairs backup_resource legacy.backups backups
    next_services : next.services ≡ state.services ++ services
    next_resources : next.resources ≡ state.resources ++ (databases ++ (users ++ backups))

  push_records-Pushed :
      (legacy : ManagedServiceState) (state next : FrameworkState V)
      → push_records legacy state ≡ ok next
      → Pushed legacy state next
  unfolding push_records
  push_records-Pushed legacy state next h =
      let (is, e1, h1) = >>=-eq-ok (traverse migrate_service legacy.services) _ h in
      let (ds, e2, h2) = >>=-eq-ok (traverse database_resource legacy.databases) _ h1 in
      let (us, e3, h3) = >>=-eq-ok (traverse database_user_resource legacy.users) _ h2 in
      let (bs, e4, h4) = >>=-eq-ok (traverse backup_resource legacy.backups) _ h3 in
      record {
        services = is;
        databases = ds;
        users = us;
        backups = bs;
        service_pairs = traverse-Pairs migrate_service legacy.services is e1;
        backup_pairs = traverse-Pairs backup_resource legacy.backups bs e4;
        next_services = ap (λ x. x.services) (sym (ok-injective h4));
        next_resources = ap (λ x. x.resources) (sym (ok-injective h4));
      }

  -- a save that followed on what another had left
  record Twice (d : StateDir V) (before after : ManagedServiceState) : Type 0 where
    first : FrameworkState V
    second : FrameworkState V
    third : FrameworkState V
    pushed_first : Pushed before (without_legacy first) second
    pushed_second : Pushed after (without_legacy second) third
    valid : IsValid third

  saves-Twice :
      (d d' : StateDir V) (before after : ManagedServiceState) (now later : ℕ)
      → save_managed_service_state d before now ≡ (ok tt, d')
      → (save_managed_service_state d' after later).0 ≡ ok tt
      → Twice d before after
  saves-Twice d d' before after now later h h' =
      let d'' = (save_managed_service_state d' after later).1 in
      let one = save-Replaced d d' before now h in
      let two = save-Replaced d' d'' after later (ap (λ r. (r, d'')) h') in
      let same : two.state ≡ one.next =
        ok-injective (sym two.loaded ∙ ap (λ x. x.0) (one.again later)) in
      record {
        first = one.state;
        second = one.next;
        third = two.next;
        pushed_first = push_records-Pushed before (without_legacy one.state) one.next one.pushed;
        pushed_second =
            push_records-Pushed after (without_legacy one.next) two.next
              (subst (λ x. replace_legacy after x ≡ ok two.next) same two.pushed);
        valid = (validate_state_iff two.next).0 two.valid;
      }

  -- no two services of the third state have one name
  services_apart :
      (d : StateDir V) (before after : ManagedServiceState) (t : Twice d before after)
      (i j : ServiceInstance V)
      → In i t.pushed_first.services
      → is_compatible i ≡ false
      → In j t.pushed_second.services
      → ¬ (j.id ≡ i.id)
  unfolding without_legacy service_ref
  services_apart d before after t i j hi other hj same =
      let kept = (without_legacy t.second).services in
      let in_second : In i t.second.services =
        subst (In i) (sym t.pushed_first.next_services)
          ((In-append i (without_legacy t.first).services t.pushed_first.services).1 (inr hi)) in
      let in_kept : In i kept =
        (In-keep (λ s. not (is_compatible s)) i t.second.services).1 (in_second, ap not other) in
      let distinct : Distinct (map service_ref kept ++ map service_ref t.pushed_second.services) =
        subst Distinct
          (ap (map service_ref) t.pushed_second.next_services
            ∙ map-append service_ref kept t.pushed_second.services)
          t.valid.service_names in
      Distinct-apart (service_ref i) (map service_ref kept)
        (map service_ref t.pushed_second.services) distinct (map-In service_ref i kept in_kept)
        (subst (λ r. In r (map service_ref t.pushed_second.services))
          (ap {A = String} (λ id. record { kind = managed_service; id = id }) same)
          (map-In service_ref j t.pushed_second.services hj))

  -- When a state with a service that is not of the five compatible kinds has been saved, no save of
  -- a state with a service of the same id succeeds after it. The ports and sizes are in the ranges
  -- of their types.
  pub newer_kind_once :
      (d d' : StateDir V) (before after : ManagedServiceState) (s again : ManagedService)
      (now later : ℕ)
      → Fits before
      → Fits after
      → In s before.services
      → is_compatible_kind s ≡ false
      → save_managed_service_state d before now ≡ (ok tt, d')
      → In again after.services
      → again.id ≡ s.id
      → (save_managed_service_state d' after later).0 ≢ ok tt
  newer_kind_once d d' before after s again now later fits fits' hs other h hs' same h' =
      let t = saves-Twice d d' before after now later h h' in
      let (i, hi, e) =
        Pairs-In migrate_service before.services t.pushed_first.services s
          t.pushed_first.service_pairs hs in
      let (j, hj, e') =
        Pairs-In migrate_service after.services t.pushed_second.services again
          t.pushed_second.service_pairs hs' in
      let (_, id, definition) =
        migrate_service_lem V s i (All-In _ s before.services fits.0 hs) e in
      let (_, id', _) =
        migrate_service_lem V again j (All-In _ again after.services fits'.0 hs') e' in
      services_apart d before after t i j hi (ap is_compatible_id definition ∙ other) hj
        (id' ∙ same ∙ sym id)

  backup_resource_name :
      (b : ServiceBackup) (r : ResourceRecord V)
      → backup_resource b ≡ ok r
      → record_ref r ≡ record { kind = artifact; id = "backup." <> b.id }
  unfolding backup_resource
  backup_resource_name b r h =
      let (created, _, h1) = >>=-eq-ok (narrow_timestamp b.created_at_unix_ms) _ h in
      let (reference, e, h2) = >>=-eq-ok (new_ref artifact ("backup." <> b.id)) _ h1 in
      ap (λ x. x.resource) (sym (ok-injective h2)) ∙ sym (new_ref_lem artifact _ reference e)

  -- the services of the second state that are replaced are those that were pushed
  no_provider :
      (d : StateDir V) (before after : ManagedServiceState) (t : Twice d before after) (id : String)
      → Fits before
      → ((s : ManagedService) → In s before.services → s.id ≢ id)
      → contains (compatible_ids t.second) id ≡ false
  unfolding without_legacy
  no_provider d before after t id fits absent =
      (not-contains_iff (compatible_ids t.second) id).1 (λ h.
        let (i, hi, e) = In-map (λ s. s.id) id (keep is_compatible t.second.services) h in
        let (in_second, compatible) = (In-keep is_compatible i t.second.services).0 hi in
        elim ((In-append i (without_legacy t.first).services t.pushed_first.services).0
          (subst (In i) t.pushed_first.next_services in_second)) [
            | inl kept ↦
                let (_, not_compatible) =
                  (In-keep (λ s. not (is_compatible s)) i t.first.services).0 kept in
                absurd (cc)
            | inr pushed ↦
                let (s, hs, m) =
                  In-Pairs migrate_service before.services t.pushed_first.services i
                    t.pushed_first.service_pairs pushed in
                let (_, same, _) =
                  migrate_service_lem V s i (All-In _ s before.services fits.0 hs) m in
                absent s hs (sym same ∙ sym e)
          ])

  -- A backup that is saved without its service is saved once: no save after that of a state with a
  -- backup of its id succeeds.
  pub orphan_once :
      (d d' : StateDir V) (before after : ManagedServiceState) (b again : ServiceBackup)
      (now later : ℕ)
      → Fits before
      → In b before.backups
      → ((s : ManagedService) → In s before.services → s.id ≢ b.service_id)
      → save_managed_service_state d before now ≡ (ok tt, d')
      → In again after.backups
      → again.id ≡ b.id
      → (save_managed_service_state d' after later).0 ≢ ok tt
  unfolding without_legacy
  orphan_once d d' before after b again now later fits hb absent h ha same h' =
      let t = saves-Twice d d' before after now later h h' in
      let (r, hr, e) =
        Pairs-In backup_resource before.backups t.pushed_first.backups b t.pushed_first.backup_pairs
          hb in
      let (q, hq, e') =
        Pairs-In backup_resource after.backups t.pushed_second.backups again
          t.pushed_second.backup_pairs ha in
      let (_, shows) = backup_resource_lem V b r (All-In _ b before.backups fits.1 hb) e in
      let kept = (without_legacy t.second).resources in
      let mine = t.pushed_second.backups in
      let added = t.pushed_second.databases ++ (t.pushed_second.users ++ mine) in
      let in_second : In r t.second.resources = subst (In r) (sym t.pushed_first.next_resources) (
        In-last r (without_legacy t.first).resources t.pushed_first.databases t.pushed_first.users
          t.pushed_first.backups hr) in
      let stays : is_replaced (compatible_ids t.second) r ≡ false =
        rw shows.0 (rw shows.1 (no_provider d before after t b.service_id fits absent)) in
      let in_kept : In r kept =
        (In-keep (λ r. not (is_replaced (compatible_ids t.second) r)) r t.second.resources).1
          (in_second, ap not stays) in
      let distinct : Distinct (map record_ref kept ++ map record_ref added) =
        subst Distinct
          (ap (map record_ref) t.pushed_second.next_resources ∙ map-append record_ref kept added)
          t.valid.resource_names in
      let named : record_ref q ≡ record_ref r =
        backup_resource_name again q e'
        ∙ ap {A = String} (λ id. record { kind = artifact; id = "backup." <> id }) same
        ∙ sym (backup_resource_name b r e) in
      Distinct-apart (record_ref r) (map record_ref kept) (map record_ref added) distinct
        (map-In record_ref r kept in_kept)
        (subst (λ x. In x (map record_ref added)) named
          (map-In record_ref q added
            (In-last q [] t.pushed_second.databases t.pushed_second.users mine hq)))
