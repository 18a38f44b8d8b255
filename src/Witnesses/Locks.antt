-- ===== src/Witnesses/Locks.antt =====
-- Locks at concrete inputs.
use lumic.Prelude.{◌≡◌, refl, ◌↔◌, [], ◌∷◌}
use lumic.Error.{ok}
use lumic.Resource.{ResourceRef, application, validate_ref}
use lumic.Lock.{
  regular, Locks, lock_key, is_held, taken, refused, blocked, held_error, try_acquire,
  acquire_application_state,
}
use lumic.Lock.Held.{Answers, try_acquire_lem, self_deadlock_iff}
use lumic.Witnesses.{shop, mysql}

shop_valid : validate_ref shop ≡ ok tt
unfolding validate_ref lumic.Resource.validate_resource_id
shop_valid = refl

-- every lock file is as it should be
abbrev usable : Locks
usable value = regular

try_acquire_lem_example :
    Answers
      (usable (lock_key shop))
      (lock_key mysql ∷ [])
      (lock_key shop)
      (try_acquire usable (lock_key mysql ∷ []) shop)
try_acquire_lem_example = try_acquire_lem usable (lock_key mysql ∷ []) shop shop_valid

abbrev state_application : ResourceRef
state_application = record { kind = application; id = "state" }

state_valid : validate_ref state_application ≡ ok tt
unfolding validate_ref lumic.Resource.validate_resource_id
state_valid = refl

state_taken : try_acquire usable [] state_application ≡ taken (lock_key state_application ∷ [])
unfolding try_acquire lumic.Resource.validate_resource_id lumic.Lock.acquire_key lock_key
state_taken = refl

self_deadlock_iff_example :
    (acquire_application_state usable (lock_key state_application ∷ []) ≡ blocked)
    ↔ (state_application ≡ record { kind = application; id = "state" })
self_deadlock_iff_example =
    self_deadlock_iff usable state_application (lock_key state_application ∷ []) state_valid
      state_taken
