-- ===== src/Framework/Store.antt =====
-- crates/lumic-platform/src/framework_state.rs and resource_framework.rs: the file that the state is
-- kept in, and binding and unbinding. The directory is one with no legacy managed-services.json, so
-- `load_or_migrate` is `load`; a call's locks are let go when it returns, so what others hold is
-- what is left.
pub mod Effects
pub mod Laws
pub mod Binds
use lumic.Prelude.{
  ℕ, String, Bool, true, false, not, ◌&&◌, Option, none, some, List, [], ◌∷◌, ◌++◌, nat_beq, ◌==◌,
  string_eq, find, keep, length, if◌then◌else◌,
}
use lumic.Error.{LumicError, Result, Check, ok, err, invalid, internal, reject_if, ◌>>=◌, ◌>>◌}
use lumic.Json.{Json}
use lumic.Resource.{ResourceRef, ref_eq, new_ref, pipeline}
use lumic.Binding.{Binding, validate_binding}
use lumic.Framework.{FrameworkState, initial, validate_state}
use lumic.Lock.{Held, Locks, Outcome, taken, refused, blocked, try_acquire}

-- resources.json: absent, a symbolic link to a file, a text that is no state, or a state
pub data StateFile (V : Type 0) : Type 0 where
  missing link corrupt : StateFile V
  stored : FrameworkState V → StateFile V

pub record Directory (V : Type 0) : Type 0 where
  pub file : StateFile V
  pub is_absolute : Bool
  pub is_writable : Bool  -- whether the file system takes a write of new contents
  pub held : Held
  pub locks : Locks  -- what the file system makes of each lock file

pub record BindingMutation : Type 0 where
  pub binding : Binding
  pub changed : Bool
  pub dry_run : Bool

pub record BindingRemoval : Type 0 where
  pub binding_id : String
  pub changed : Bool
  pub dry_run : Bool

module _ {V : Type 0} ⦃json : Json V⦄ where
  unfoldable pub load_file : StateFile V → Result (FrameworkState V)
  load_file missing = ok initial
  load_file link = err (invalid "state.path" "refusing to load state through a symbolic link")
  load_file corrupt = err (internal "resource framework state is invalid")
  load_file (stored state) = do validate_state state; ok state

  abbrev pub is_link : StateFile V → Bool
  is_link link = true
  is_link _ = false

  -- `save`, with the checks of `write_atomic`
  unfoldable pub save : Directory V → FrameworkState V → Result (Directory V)
  save d state = do
    validate_state state
    reject_if (not d.is_absolute) (invalid "state_dir" "must be an absolute path")
    reject_if (is_link d.file) (invalid "path" "refusing to replace a symbolic link")
    reject_if (not d.is_writable) (internal "resource framework state operation failed")
    ok (record d { file = stored state })

  -- `if !dry_run { self.store.save(&state)?; }`
  unfoldable pub save_unless : Bool → Directory V → FrameworkState V → Result (Directory V)
  save_unless true d state = ok d
  save_unless false d state = save d state

  -- the lock that binding and unbinding take
  unfoldable pub lock_bindings : Directory V → Check
  lock_bindings d = do
    lock_resource ← new_ref pipeline "resource-bindings"
    elim (try_acquire d.locks d.held lock_resource) [
      | taken _ ↦ ok tt
      | refused e ↦ err e
      | blocked ↦ err (internal "resource lock is already held")
    ]

abbrev pub is_same_relationship : Binding → Binding → Bool
is_same_relationship a b =
    (a.producer == b.producer)
    && (a.output == b.output)
    && (a.consumer == b.consumer)
    && (a.input == b.input)

-- with the binding of that id that the state has already
abbrev pub keep_existing :
    {D : Type 0} → D → Binding → Bool → Binding → Result (BindingMutation × D)
keep_existing d b dry_run existing =
    if is_same_relationship existing b
    then ok (record { binding = existing; changed = false; dry_run = dry_run }, d)
    else err (invalid "binding.id" "binding id already describes another relationship")

module _ {V : Type 0} ⦃json : Json V⦄ where
  unfoldable pub add_binding :
      Directory V → FrameworkState V → Binding → Bool → Result (BindingMutation × Directory V)
  add_binding d state b dry_run = do
    let extended : FrameworkState V = record state { bindings = state.bindings ++ b ∷ [] }
    validate_state extended
    saved ← save_unless dry_run d extended
    ok (record { binding = b; changed = true; dry_run = dry_run }, saved)

  -- by what `iter().find` gave
  abbrev pub merge_binding :
      Directory V
      → FrameworkState V
      → Binding
      → Bool
      → Option Binding
      → Result (BindingMutation × Directory V)
  merge_binding d state b dry_run none = add_binding d state b dry_run
  merge_binding d state b dry_run (some existing) = keep_existing d b dry_run existing

  unfoldable pub bind : Directory V → Binding → Bool → Result (BindingMutation × Directory V)
  bind d b dry_run = do
    validate_binding b
    lock_bindings d
    state ← load_file d.file
    merge_binding d state b dry_run (find (λ item. item.id == b.id) state.bindings)

  unfoldable pub unbind : Directory V → String → Bool → Result (BindingRemoval × Directory V)
  unbind d binding_id dry_run = do
    lock_bindings d
    state ← load_file d.file
    let rest = keep (λ b. not (b.id == binding_id)) state.bindings
    let changed = not (nat_beq (length state.bindings) (length rest))
    saved ← save_unless (not (changed && not dry_run)) d (record state { bindings = rest })
    ok (record { binding_id = binding_id; changed = changed; dry_run = dry_run }, saved)
