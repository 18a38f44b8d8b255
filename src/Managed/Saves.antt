-- ===== src/Managed/Saves.antt =====
-- Loading and saving the older service state through the file of the framework state.
use lumic.Prelude.{
  ℕ, ◌≡◌, refl, sym, ap, ◌∙◌, subst, String, ◌<>◌, true, false, not, string_eq, some, if◌then◌else◌,
}
use lumic.Error.{LumicError, Result, ok, err, internal, >>=-eq-ok, ok-injective}
use lumic.Framework.{FrameworkState, initial, validate_state}
use lumic.Framework.Store.{missing, stored, Directory, load_file, save}
use lumic.Framework.Store.Effects.{load_file-stored, save-Saved}
use lumic.Managed.{ManagedServiceState, no_services}
use lumic.Managed.Wire.{Wire, wire_json}
use lumic.Managed.Views.{Fits, joined, push_records_lem}
use lumic.Managed.Legacy.{
  is_missing, migrate_file, migrate_read, copy_legacy, legacy_stored, StateDir, copied,
  stored_result, load_or_migrate, load_managed_service_state, save_managed_service_state,
  replace_legacy, framework_to_managed_state, without_legacy, migrate_legacy, push_records,
  finish_migration, store_migrated, read_legacy, collect,
}

empty_view :
    (V : Type 0) ⦃wire : Wire V⦄ → framework_to_managed_state (initial {V = V}) ≡ ok no_services
unfolding framework_to_managed_state collect
empty_view V = refl

module _ {V : Type 0} ⦃wire : Wire V⦄ where
  pub load_stored :
      (d : StateDir V) (state : FrameworkState V) (now : ℕ)
      → d.directory.file ≡ stored state
      → validate_state state ≡ ok tt
      → load_or_migrate d now ≡ (ok state, d)
  unfolding load_or_migrate
  load_stored d state now e valid = rw e (rw (load_file-stored state valid) refl)

  stored_result_lem :
      (d d' : StateDir V) (r : Result (Directory V))
      → stored_result d r ≡ (ok tt, d')
      → (directory : Directory V) × (r ≡ ok directory) × (record d { directory = directory } ≡ d')
  stored_result_lem d d' (err e) h = absurd (cc (ap (λ x. x.0) h))
  stored_result_lem d d' (ok directory) h = (directory, refl, ap (λ x. x.1) h)

  -- what a successful save came from and what it left
  pub record Replaced (d d' : StateDir V) (legacy : ManagedServiceState) (now : ℕ) : Type 0 where
    pub state : FrameworkState V
    pub next : FrameworkState V
    pub loaded : (load_or_migrate d now).0 ≡ ok state
    pub pushed : replace_legacy legacy state ≡ ok next
    pub valid : validate_state next ≡ ok tt
    pub again : (later : ℕ) → load_or_migrate d' later ≡ (ok next, d')

  pub save-Replaced :
      (d d' : StateDir V) (legacy : ManagedServiceState) (now : ℕ)
      → save_managed_service_state d legacy now ≡ (ok tt, d')
      → Replaced d d' legacy now
  unfolding save_managed_service_state
  save-Replaced d d' legacy now h =
      let d1 = (load_or_migrate d now).1 in
      let (directory, e, same) = stored_result_lem d1 d' _ h in
      let (state, loaded, e1) = >>=-eq-ok (load_or_migrate d now).0 _ e in
      let (next, pushed, e2) = >>=-eq-ok (replace_legacy legacy state) _ e1 in
      let s = save-Saved d1.directory directory next e2 in
      record {
        state = state;
        next = next;
        loaded = loaded;
        pushed = pushed;
        valid = s.valid;
        again = λ later.
            load_stored d' next later
              (ap (λ x. x.directory.file) (sym same) ∙ ap (λ x. x.file) (sym s.result)) s.valid;
      }

  -- What is loaded after a successful save is what the records that the save leaves alone show,
  -- followed by what was saved, of the services those of the five compatible kinds; loading changes
  -- nothing. The ports and sizes that are saved are in the ranges of their types.
  pub load-save :
      (d d' : StateDir V) (state : FrameworkState V) (base legacy : ManagedServiceState)
      (now later : ℕ)
      → Fits legacy
      → (load_or_migrate d now).0 ≡ ok state
      → framework_to_managed_state (without_legacy state) ≡ ok base
      → save_managed_service_state d legacy now ≡ (ok tt, d')
      → load_managed_service_state d' later ≡ (ok (joined base legacy), d')
  unfolding load_managed_service_state
  load-save d d' state base legacy now later fits loaded left h =
      let s = save-Replaced d d' legacy now h in
      let same : s.state ≡ state = ok-injective (sym s.loaded ∙ loaded) in
      rw (s.again later) (
        rw
          (push_records_lem V base legacy (without_legacy state) s.next fits left
            (subst (λ x. replace_legacy legacy x ≡ ok s.next) same s.pushed))
          refl)

  migrated_lem :
      (legacy : ManagedServiceState) (state : FrameworkState V) (source backup : String) (now : ℕ)
      → Fits legacy
      → migrate_legacy legacy source backup now ≡ ok state
      → framework_to_managed_state state ≡ ok (joined no_services legacy)
  unfolding migrate_legacy framework_to_managed_state
  migrated_lem legacy state source backup now fits h =
      let (pushed, e, h1) = >>=-eq-ok (push_records legacy initial) _ h in
      let (_, _, h2) = >>=-eq-ok (validate_state _) _ h1 in
      subst (λ x. framework_to_managed_state x ≡ ok (joined no_services legacy)) (ok-injective h2)
        (push_records_lem V no_services legacy initial pushed fits (empty_view V) e)

  pub finish_lem :
      (d d' : StateDir V) (state : FrameworkState V) (r : Result (FrameworkState V))
      → finish_migration d r ≡ (ok state, d')
      → (r ≡ ok state)
        × (d'.directory.file ≡ stored state)
        × (validate_state state ≡ ok tt)
        × (d'.has_backup ≡ d.has_backup)
  finish_lem d d' state (err e) h = absurd (cc (ap (λ x. x.0) h))
  finish_lem d d' state (ok s) h = store_lem (save d.directory s) refl h
    where
      store_lem :
          (r : Result (Directory V))
          → save d.directory s ≡ r
          → store_migrated d s r ≡ (ok state, d')
          → (ok s ≡ ok state)
            × (d'.directory.file ≡ stored state)
            × (validate_state state ≡ ok tt)
            × (d'.has_backup ≡ d.has_backup)
      store_lem (err e) eq h = absurd (cc (ap (λ x. x.0) h))
      store_lem (ok directory) eq h =
          let saved = save-Saved d.directory directory s eq in
          let same = ok-injective (ap (λ x. x.0) h) in
          let left = ap (λ x. x.1) h in
          (
            ap ok same,
            ap (λ x. x.directory.file) (sym left)
                ∙ ap (λ x. x.file) (sym saved.result)
                ∙ ap stored same,
            subst (λ s. validate_state s ≡ ok tt) same saved.valid,
            ap (λ x. x.has_backup) (sym left),
          )

  reads :
      (d : StateDir V) (legacy : ManagedServiceState) (now : ℕ)
      → d.directory.file ≡ missing
      → d.legacy ≡ some (legacy_stored legacy)
      → load_or_migrate d now ≡ migrate_read d now (ok legacy)
  unfolding load_or_migrate read_legacy
  reads d legacy now absent present =
      ap
        (λ f.
          if not (is_missing f)
          then (load_file d.directory.file, d)
          else migrate_file d now d.legacy)
        absent
      ∙ ap (migrate_file d now) present

  copies_lem :
      (d : StateDir V) (legacy : ManagedServiceState) (now : ℕ)
      → d.has_backup ≡ false
      → d.copying ≡ copied
      → migrate_read d now (ok legacy)
        ≡ finish_migration
            (record d { has_backup = true })
            (migrate_legacy legacy d.legacy_path d.backup_path now)
  copies_lem d legacy now fresh copies =
      ap
        (λ b.
          if b
          then (
            err (
                internal
                  ("legacy state backup already exists without migrated state: " <> d.backup_path)),
            d,
          )
          else copy_legacy d legacy now d.copying)
        fresh
      ∙ ap (copy_legacy d legacy now) copies

  -- After a migration that succeeds, of a readable legacy file with no backup yet, the databases,
  -- users and backups that are loaded are those of the file, the services are those of its services
  -- that are of the five compatible kinds, in their order, and loading changes nothing; the backup
  -- of the file exists. The ports and sizes of the file are in the ranges of their types.
  pub load-migrate :
      (d d' : StateDir V) (state : FrameworkState V) (legacy : ManagedServiceState) (now later : ℕ)
      → Fits legacy
      → d.directory.file ≡ missing
      → d.legacy ≡ some (legacy_stored legacy)
      → d.has_backup ≡ false
      → d.copying ≡ copied
      → load_or_migrate d now ≡ (ok state, d')
      → (load_managed_service_state d' later ≡ (ok (joined no_services legacy), d'))
        × (d'.has_backup ≡ true)
  unfolding load_managed_service_state
  load-migrate d d' state legacy now later fits absent present fresh copies h =
      let runs = reads d legacy now absent present ∙ copies_lem d legacy now fresh copies in
      let (done, file, valid, backup) =
        finish_lem (record d { has_backup = true }) d' state
          (migrate_legacy legacy d.legacy_path d.backup_path now) (sym runs ∙ h) in
      (
        rw (load_stored d' state later file valid)
            (rw (migrated_lem legacy state _ _ now fits done) refl),
        backup,
      )

  -- When the migration of a legacy file fails after its backup was made, the error is that of the
  -- migration and the backup stays; when another readable state is then put in the place of the
  -- file, loading fails because of the backup, and changes nothing.
  pub migrate_stuck :
      (d : StateDir V) (legacy repaired : ManagedServiceState) (e : LumicError) (now later : ℕ)
      → d.directory.file ≡ missing
      → d.legacy ≡ some (legacy_stored legacy)
      → d.has_backup ≡ false
      → d.copying ≡ copied
      → migrate_legacy {V = V} legacy d.legacy_path d.backup_path now ≡ err e
      → (load_or_migrate d now ≡ (err e, record d { has_backup = true }))
        × (load_or_migrate
              (record (load_or_migrate d now).1 { legacy = some (legacy_stored repaired) })
              later
            ≡ (
              err (
                  internal (
                    "legacy state backup already exists without migrated state: "
                    <> d.backup_path)),
              record d { has_backup = true; legacy = some (legacy_stored repaired) },
            ))
  migrate_stuck d legacy repaired e now later absent present fresh copies fails =
      let d' : StateDir V = record d { has_backup = true } in
      let runs : load_or_migrate d now ≡ (err e, d') =
        reads d legacy now absent present
        ∙ copies_lem d legacy now fresh copies
        ∙ ap (finish_migration d') fails in
      (
        runs,
        ap (λ x. load_or_migrate (record x.1 { legacy = some (legacy_stored repaired) }) later) runs
            ∙ reads (record d' { legacy = some (legacy_stored repaired) }) repaired later absent
                refl,
      )
