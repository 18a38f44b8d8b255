-- ===== src/Managed/Session.antt =====
-- crates/lumic-platform/src/managed_service.rs: the store of a service command, and how its steps
-- follow one another: each sees the directory as the one before left it, and the first error ends
-- the command with the directory as it is then. A command reads the clock once.
use lumic.Prelude.{◌≡◌, refl, ap, ℕ, ◌-◌, ◌^◌, Bool, ltb, if◌then◌else◌}
use lumic.Error.{Result, ok, err}
use lumic.Managed.{ManagedServiceState}
use lumic.Managed.Wire.{Wire}
use lumic.Managed.Legacy.{StateDir, load_managed_service_state, save_managed_service_state}

pub record Context : Type 0 where
  pub dry_run : Bool
  pub now : ℕ

abbrev pub Session : Type 0 → Type 0 → Type 0
Session V A = StateDir V → Result A × StateDir V

-- the rest of a command behind a step
abbrev pub follow :
    {V A B : Type 0} → Result A × StateDir V → (A → Session V B) → Result B × StateDir V
follow (ok a, d) next = next a d
follow (err e, d) next = (err e, d)

abbrev pub ◌>>=◌ : {V A B : Type 0} → Session V A → (A → Session V B) → Session V B
(step >>= next) d = follow (step d) next

abbrev pub ◌>>◌ : {V B : Type 0} → Session V (Unit {0}) → Session V B → Session V B
step >> rest = step >>= λ _. rest

infixl 5 ◌>>=◌ ◌>>◌
-- a step that leaves the directory alone
abbrev pub lift : {V A : Type 0} → Result A → Session V A
lift r d = (r, d)

-- `current_state_time`
unfoldable pub state_time : ℕ → ℕ
state_time now = if ltb now (2 ^ 64) then now else 2 ^ 64 - 1

module _ {V : Type 0} ⦃wire : Wire V⦄ where
  abbrev pub load : ℕ → Session V ManagedServiceState
  load now d = load_managed_service_state d (state_time now)

  abbrev pub store : ManagedServiceState → ℕ → Session V (Unit {0})
  store state now d = save_managed_service_state d state (state_time now)

-- inversion of a step that was followed by a success
pub follow-ok :
    (V : Type 0) {A B : Type 0} (r : Result A × StateDir V) (next : A → Session V B) (b : B)
    (d' : StateDir V)
    → follow r next ≡ (ok b, d')
    → (a : A) × (d1 : StateDir V) × (r ≡ (ok a, d1)) × (next a d1 ≡ (ok b, d'))
follow-ok V (ok a, d1) next b d' h = (a, d1, refl, h)
follow-ok V (err e, d1) next b d' h = absurd (cc (ap (λ x. x.0) h))

pub lift-ok :
    {V A B : Type 0} (r : Result A) (d : StateDir V) (next : A → Session V B) (b : B)
    (d' : StateDir V)
    → follow (lift r d) next ≡ (ok b, d')
    → (a : A) × (r ≡ ok a) × (next a d ≡ (ok b, d'))
lift-ok (ok a) d next b d' h = (a, refl, h)
lift-ok (err e) d next b d' h = absurd (cc (ap (λ x. x.0) h))
