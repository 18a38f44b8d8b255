-- ===== src/Managed/Effects.antt =====
-- What the service commands do to the service state that later commands load.
use lumic.Prelude.{
  ℕ, ◌≡◌, ◌≢◌, refl, sym, ap, ◌∙◌, subst, String, Bool, true, false, not, inl, inr, Bool-cases,
  ◌==◌, string_eq, ==_refl, Option, none, some, List, [], ◌∷◌, ◌++◌, keep, find, In, In-append,
  In-keep, if◌then◌else◌,
}
use lumic.Error.{Result, ok, ok-injective}
use lumic.Managed.{ManagedService, ServiceBackup, ManagedServiceState, validate_service_id}
use lumic.Managed.Wire.{Wire, wire_json}
use lumic.Managed.Views.{Fits, joined, is_compatible_kind}
use lumic.Managed.Saves.{load-save}
use lumic.Managed.Lost.{orphan_once}
use lumic.Managed.Stable.{
  load_or_migrate-stable, load_managed-stable, load_managed-parts, without_legacy_lem,
}
use lumic.Managed.Legacy.{StateDir, load_or_migrate}
use lumic.Managed.Session.{follow-ok, lift-ok, Context, Session, follow, state_time, load, store}
use lumic.Managed.Commands.{
  stop, disable, Host, ManagedServiceMutation, upsert, has_id, or_not_found, find_service,
  upsert_service,
}
use lumic.Managed.Operations.{without_service, remove, assert_service_removable, stop_unit, forget}

module _ (V : Type 0) ⦃wire : Wire V⦄ where
  -- a load, a change of what was loaded, a save, and a load
  change-load :
      (change : ManagedServiceState → ManagedServiceState) (now : ℕ) (d d1 d' : StateDir V)
      (legacy : ManagedServiceState) (later : ℕ)
      → load now d ≡ (ok legacy, d1)
      → Fits (change legacy)
      → store (change legacy) now d1 ≡ (ok tt, d')
      → (base : ManagedServiceState) × (base.services ≡ [])
        × (load later d' ≡ (ok (joined base (change legacy)), d'))
  change-load change now d d1 d' legacy later h fits saved =
      let (state, loaded, seen) = load_managed-parts d d1 (state_time now) legacy h in
      let (base, left, none') = without_legacy_lem state legacy seen in
      let again = load_or_migrate-stable d d1 (state_time now) state loaded in
      (
        base,
        none',
        load-save d1 d' state base (change legacy) (state_time now) (state_time later) fits
            (ap (λ x. x.0) again) left saved,
      )

find_upserted :
    (p : ManagedService → Bool) (s : ManagedService) (services : List ManagedService)
    → p s ≡ true
    → find (has_id s.id) (keep p (upsert s services)) ≡ some s
find_upserted p s [] h = rw h (rw (==_refl s.id) refl)
find_upserted p s (x ∷ services) h = elim (Bool-cases (x.id == s.id)) [
  | inl same ↦ rw same (rw h (rw (==_refl s.id) refl))
  | inr other ↦ rw other (elim (Bool-cases (p x)) [
    | inl y ↦ rw y (rw other (find_upserted p s services h))
    | inr n ↦ rw n (find_upserted p s services h)
  ])
]

module _ (V : Type 0) ⦃wire : Wire V⦄ where
  -- A service of one of the five compatible kinds, with a valid id, that was saved by
  -- `upsert_service` is found by its id as it was saved, and finding it changes nothing. The ports
  -- and sizes that are saved are in the ranges of their types.
  pub find_service-upsert_service :
      (context later : Context) (s : ManagedService) (legacy : ManagedServiceState)
      (d d1 d' : StateDir V)
      → load context.now d ≡ (ok legacy, d1)
      → Fits (record legacy { services = upsert s legacy.services })
      → is_compatible_kind s ≡ true
      → validate_service_id "service" s.id ≡ ok tt
      → upsert_service context s d ≡ (ok tt, d')
      → find_service later s.id d' ≡ (ok s, d')
  unfolding upsert_service find_service
  find_service-upsert_service context later s legacy d d1 d' loaded fits kind valid h =
      let saved : store (record legacy { services = upsert s legacy.services }) context.now d1
          ≡ (ok tt, d') =
        ap
          (λ x.
            follow x
              (λ state. store (record state { services = upsert s state.services }) context.now))
          (sym loaded)
        ∙ h in
      let (base, empty_base, again) =
        change-load V (λ l. record l { services = upsert s l.services }) context.now d d1 d' legacy
          later.now loaded fits saved in
      let found = find_upserted is_compatible_kind s legacy.services kind in
      rw valid (
        rw again (
          ap
            (λ ss.
              or_not_found s.id
                (find (has_id s.id) (ss ++ keep is_compatible_kind (upsert s legacy.services))) d')
            empty_base
          ∙ ap (λ o. or_not_found s.id o d') found))

  if_false :
      {A : Type 0} (b : Bool) (first second : Session V A) (d : StateDir V)
      (r : Result A × StateDir V)
      → b ≡ false
      → (if b then first else second) d ≡ r
      → second d ≡ r
  if_false true first second d r e h = absurd (cc e)
  if_false false first second d r e h = h

  or_not_found-same :
      (id : String) (o : Option ManagedService) (s : ManagedService) (d d' : StateDir V)
      → or_not_found id o d ≡ (ok s, d')
      → d ≡ d'
  or_not_found-same id none s d d' h = absurd (cc (ap (λ x. x.0) h))
  or_not_found-same id (some a) s d d' h = ap (λ x. x.1) h

  find_service-same :
      (context : Context) (id : String) (s : ManagedService) (legacy : ManagedServiceState)
      (d d1 d' : StateDir V)
      → load context.now d ≡ (ok legacy, d1)
      → find_service context id d ≡ (ok s, d')
      → d1 ≡ d'
  unfolding find_service
  find_service-same context id s legacy d d1 d' loaded h =
      let (_, _, h1) = lift-ok (validate_service_id "service" id) d _ s d' h in
      let (state, d2, e, h2) = follow-ok V (load context.now d) _ s d' h1 in
      ap (λ x. x.1) (sym loaded ∙ e)
      ∙ or_not_found-same id (find (has_id id) state.services) s d2 d' h2

  stop_unit-same :
      (host : Host) (context : Context) (s : ManagedService) (d d' : StateDir V)
      → context.dry_run ≡ false
      → stop_unit host context s d ≡ (ok tt, d')
      → d ≡ d'
  stop_unit-same host context s d d' runs h =
      let (_, _, h1) =
        lift-ok (host.apply s.systemd_unit stop context) d _ tt d'
          (if_false context.dry_run _ _ d (ok tt, d') runs h) in
      let (_, _, h2) = lift-ok (host.apply s.systemd_unit disable context) d _ tt d' h1 in
      ap (λ x. x.1) h2

  -- what a removal that was carried out did to the stored state
  remove-forgets :
      (host : Host) (context : Context) (id : String) (m : ManagedServiceMutation)
      (legacy : ManagedServiceState) (d d1 d' : StateDir V)
      → context.dry_run ≡ false
      → load context.now d ≡ (ok legacy, d1)
      → remove host context id false d ≡ (ok m, d')
      → store (without_service id legacy) context.now d1 ≡ (ok tt, d')
  unfolding remove
  remove-forgets host context id m legacy d d1 d' runs loaded h =
      let (service, da, e1, h1) = follow-ok V (find_service context id d) _ m d' h in
      let at1 = find_service-same context id service legacy d d1 da loaded e1 in
      let (framework, db, e2, h2) =
        follow-ok V (load_or_migrate da (state_time context.now)) _ m d' h1 in
      let (state, was, seen) = load_managed-parts d d1 (state_time context.now) legacy loaded in
      let again = load_or_migrate-stable d d1 (state_time context.now) state was in
      let at2 =
        ap (λ x. x.1) (sym again ∙ ap (λ x. load_or_migrate x (state_time context.now)) at1 ∙ e2) in
      let (_, _, h3) = lift-ok (assert_service_removable framework id) db _ m d' h2 in
      let (_, dc, e4, h4) = follow-ok V (stop_unit host context service db) _ m d' h3 in
      let at3 = at2 ∙ stop_unit-same host context service db dc runs e4 in
      let (changed, _, h5) = lift-ok (host.remove_package service context) dc _ m d' h4 in
      let (_, de, e6, h6) = follow-ok V (forget context id dc) _ m d' h5 in
      let (_, _, h7) = lift-ok (host.record_event "remove" service context changed) de _ m d' h6 in
      let (left, df, e8, h8) =
        follow-ok V (load context.now dc) _ tt de
          (if_false context.dry_run _ _ dc (ok tt, de) runs e6) in
      let reloaded : (ok legacy, d1) ≡ (ok left, df) =
        sym (load_managed-stable d d1 (state_time context.now) legacy loaded)
        ∙ ap (load context.now) at3
        ∙ e8 in
      ap (λ l. store (without_service id l) context.now d1) (ok-injective (ap (λ x. x.0) reloaded))
      ∙ ap (store (without_service id left) context.now) (ap (λ x. x.1) reloaded)
      ∙ h8
      ∙ ap (λ x. (ok tt, x)) (ap (λ x. x.1) h7)

  -- After a service of which a backup is recorded has been removed, and not by a dry run, saving a
  -- service never succeeds, whatever its id: the record of the backup stays and every save writes
  -- it again. The ports and sizes are in the ranges of their types.
  pub remove_blocks_saves :
      (host : Host) (context later : Context) (id : String) (m : ManagedServiceMutation)
      (b : ServiceBackup) (s : ManagedService) (legacy : ManagedServiceState) (d d1 d' : StateDir V)
      → context.dry_run ≡ false
      → load context.now d ≡ (ok legacy, d1)
      → Fits (without_service id legacy)
      → In b legacy.backups
      → b.service_id ≡ id
      → remove host context id false d ≡ (ok m, d')
      → (upsert_service later s d').0 ≢ ok tt
  unfolding upsert_service
  remove_blocks_saves host context later id m b s legacy d d1 d' runs loaded fits hb provider h h' =
      let saved = remove-forgets host context id m legacy d d1 d' runs loaded h in
      let (base, empty_base, again) =
        change-load V (without_service id) context.now d d1 d' legacy later.now loaded fits saved in
      let after = joined base (without_service id legacy) in
      orphan_once V d1 d' (without_service id legacy)
        (record after { services = upsert s after.services }) b b (state_time context.now)
        (state_time later.now) fits hb
        (λ item i same. absurd (
          cc (
            rw (==_refl id) at (
              subst (λ x. not (x == id) ≡ true) (same ∙ provider)
                ((In-keep (λ item. not (item.id == id)) item legacy.services).0 i).1))))
        saved ((In-append b base.backups legacy.backups).1 (inr hb)) refl
        (ap
            (λ x.
              (follow x
                (λ state. store (record state { services = upsert s state.services }) later.now)).0)
            (sym again)
          ∙ h')
