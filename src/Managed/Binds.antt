-- ===== src/Managed/Binds.antt =====
-- crates/lumic-platform/src/resource_framework.rs: binding and unbinding in a directory that may have a
-- legacy file. `load_or_migrate` then migrates it, in a dry run too.
use lumic.Prelude.{ℕ, String, Bool, not, ◌&&◌, ◌==◌, string_eq, find, keep, length, nat_beq}
use lumic.Error.{Result, ok, err}
use lumic.Binding.{Binding, validate_binding}
use lumic.Framework.Store.{
  Directory, BindingMutation, BindingRemoval, save_unless, lock_bindings, merge_binding,
}
use lumic.Managed.Wire.{Wire, wire_json}
use lumic.Managed.Legacy.{StateDir, load_or_migrate}
use lumic.Managed.Session.{Session, lift, ◌>>=◌, ◌>>◌}

module _ {V : Type 0} ⦃wire : Wire V⦄ where
  -- what was done to the directory, in the directory with its legacy file
  abbrev pub in_place : {M : Type 0} → StateDir V → Result (M × Directory V) → Result M × StateDir V
  in_place d (err error) = (err error, d)
  in_place d (ok (m, directory)) = (ok m, record d { directory = directory })

  unfoldable pub bind_migrating : ℕ → Binding → Bool → Session V BindingMutation
  bind_migrating now b dry_run = do
    lift (validate_binding b)
    (λ d. (lock_bindings d.directory, d))
    state ← (λ d. load_or_migrate d now)
    (λ d.
        in_place d (
          merge_binding d.directory state b dry_run
            (find (λ item. item.id == b.id) state.bindings)))

  abbrev pub removal : String → Bool → Bool → Directory V → BindingRemoval × Directory V
  removal binding_id changed dry_run directory =
      (record { binding_id = binding_id; changed = changed; dry_run = dry_run }, directory)

  abbrev pub removed :
      String → Bool → Bool → Result (Directory V) → Result (BindingRemoval × Directory V)
  removed binding_id changed dry_run (err error) = err error
  removed binding_id changed dry_run (ok directory) =
      ok (removal binding_id changed dry_run directory)

  unfoldable pub unbind_migrating : ℕ → String → Bool → Session V BindingRemoval
  unbind_migrating now binding_id dry_run = do
    (λ d. (lock_bindings d.directory, d))
    state ← (λ d. load_or_migrate d now)
    let rest = keep (λ b. not (b.id == binding_id)) state.bindings
    let changed = not (nat_beq (length state.bindings) (length rest))
    (λ d. in_place d (
        removed binding_id changed dry_run (
          save_unless (not (changed && not dry_run)) d.directory
            (record state { bindings = rest }))))
