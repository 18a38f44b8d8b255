-- ===== src/Lock/Held.antt =====
-- What holding one lock does to the others.
use lumic.Prelude.{
  String, not, ◌≢◌, ℕ, ◌≡◌, refl, sym, ap, ◌∙◌, ◌↔◌, inl, inr, Bool, true, false, ◌||◌, List, [],
  ◌∷◌, arith, codes_beq, nat_beq_iff, Bool-cases, if◌then◌else◌,
}
use lumic.Error.{LumicError, internal, ok}
use lumic.Resource.{ResourceRef, validate_ref, validate_resource_id, application}
use lumic.Lock.{
  LockFile, regular, irregular, unusable, Locks, lock_io, not_regular, lock_file, Outcome, Held,
  taken, refused, blocked, is_valid_key, is_held, lock_key, acquire_key, try_acquire, held_error,
  application_state_key, acquire_application_state,
}
use lumic.Lock.Keys.{lock_key-is_valid_key, lock_key-injective}

codes_beq_iff : (a b : List ℕ) → (codes_beq a b ≡ true) ↔ (a ≡ b)
codes_beq_iff [] [] = (λ _. refl, λ _. refl)
codes_beq_iff [] (d ∷ ds) = ground arith
codes_beq_iff (c ∷ cs) [] = ground arith
codes_beq_iff (c ∷ cs) (d ∷ ds) = ground (arith, nat_beq_iff c d, codes_beq_iff cs ds)

abbrev state_ref : ResourceRef
state_ref = record { kind = application; id = "state" }

state_ref-valid : validate_ref state_ref ≡ ok tt
unfolding validate_ref validate_resource_id
state_ref-valid = refl

state_key : lock_key state_ref ≡ application_state_key
unfolding lock_key
state_key = refl

-- by what the lock file is and whether its lock is held
pub record Answers (file : LockFile) (held : Held) (value : List ℕ) (answer : Outcome)
    : Type 0 where
  pub taking : (answer ≡ taken (value ∷ held)) ↔ ((file ≡ regular) × (is_held held value ≡ false))
  pub refusing : (answer ≡ refused held_error) ↔ ((file ≡ regular) × (is_held held value ≡ true))
  pub not_a_file : (answer ≡ refused not_regular) ↔ (file ≡ irregular)
  pub failing : (answer ≡ refused lock_io) ↔ (file ≡ unusable)

taken-refused : (held : Held) (e : LumicError) → taken held ≢ refused e
taken-refused held e h = cc

refused-injective : (a b : LumicError) → refused a ≡ refused b → a ≡ b
refused-injective a b h = cc

-- an error other than `internal` is none, and the two texts differ
internal-not_regular : (message : String) → refused (internal message) ≢ refused not_regular
internal-not_regular message h = cc (refused-injective _ _ h)

message_of : LumicError → String
message_of (internal message) = message
message_of _ = ""

held_error-lock_io : refused held_error ≢ refused lock_io
unfolding message_of
held_error-lock_io h =
    let same : "resource lock is already held" ≡ "resource lock failed" =
      ap message_of (refused-injective held_error lock_io h) in
    cc (same)

regular-irregular : regular ≢ irregular
regular-irregular h = cc

regular-unusable : regular ≢ unusable
regular-unusable h = cc

irregular-unusable : irregular ≢ unusable
irregular-unusable h = cc

apart : (b : Bool) → b ≡ true → b ≢ false
apart b h h' = cc

regular-Answers :
    (b : Bool) (held : Held) (value : List ℕ)
    → is_held held value ≡ b
    → Answers regular held value
        (if not b then taken (value ∷ held) else if true then refused held_error else blocked)
regular-Answers true held value is = record {
  taking = (
    λ h. absurd (taken-refused (value ∷ held) held_error (sym h)),
    λ h. absurd (apart (is_held held value) is h.1),
  );
  refusing = (λ h. (refl, is), λ h. refl);
  not_a_file = (λ h. absurd (internal-not_regular _ h), λ h. absurd (regular-irregular h));
  failing = (λ h. absurd (held_error-lock_io h), λ h. absurd (regular-unusable h));
}
regular-Answers false held value is = record {
  taking = (λ h. (refl, is), λ h. refl);
  refusing = (
    λ h. absurd (taken-refused (value ∷ held) held_error h),
    λ h. absurd (apart (is_held held value) h.1 is),
  );
  not_a_file =
      (λ h. absurd (taken-refused (value ∷ held) not_regular h), λ h. absurd (regular-irregular h));
  failing =
      (λ h. absurd (taken-refused (value ∷ held) lock_io h), λ h. absurd (regular-unusable h));
}

lock_file-Answers :
    (file : LockFile) (held : Held) (value : List ℕ)
    → Answers file held value (lock_file file held value true)
lock_file-Answers unusable held value = record {
  taking = (
    λ h. absurd (taken-refused (value ∷ held) lock_io (sym h)),
    λ h. absurd (regular-unusable (sym h.0)),
  );
  refusing = (λ h. absurd (held_error-lock_io (sym h)), λ h. absurd (regular-unusable (sym h.0)));
  not_a_file = (λ h. absurd (internal-not_regular _ h), λ h. absurd (irregular-unusable (sym h)));
  failing = (λ h. refl, λ h. refl);
}
lock_file-Answers irregular held value = record {
  taking = (
    λ h. absurd (taken-refused (value ∷ held) not_regular (sym h)),
    λ h. absurd (regular-irregular (sym h.0)),
  );
  refusing =
      (λ h. absurd (internal-not_regular _ (sym h)), λ h. absurd (regular-irregular (sym h.0)));
  not_a_file = (λ h. refl, λ h. refl);
  failing = (λ h. absurd (internal-not_regular _ (sym h)), λ h. absurd (irregular-unusable h));
}
lock_file-Answers regular held value = regular-Answers (is_held held value) held value refl

acquire_key_lem :
    (locks : Locks) (held : Held) (value : List ℕ)
    → is_valid_key value ≡ true
    → acquire_key locks held value true ≡ lock_file (locks value) held value true
unfolding acquire_key
acquire_key_lem locks held value valid = rw valid refl

behind_check :
    (locks : Locks) (held : Held) (r : ResourceRef)
    → validate_ref r ≡ ok tt
    → try_acquire locks held r ≡ acquire_key locks held (lock_key r) true
unfolding try_acquire
behind_check locks held r h = rw (h, try_acquire) refl

-- Where a resource is valid, trying to take its lock takes it exactly where its lock file can be
-- used, is a regular file and is not held; says that the lock is held exactly where it is such a
-- file and held; says that the path is no regular file exactly where it is none; and otherwise
-- gives the failure of the file system. It never waits, and never fails on the name of the lock.
pub try_acquire_lem :
    (locks : Locks) (held : Held) (r : ResourceRef)
    → validate_ref r ≡ ok tt
    → Answers (locks (lock_key r)) held (lock_key r) (try_acquire locks held r)
try_acquire_lem locks held r h = rw (behind_check locks held r h) (
    rw (acquire_key_lem locks held (lock_key r) (lock_key-is_valid_key r h))
      (lock_file-Answers (locks (lock_key r)) held (lock_key r)))

lock_file-waits :
    (file : LockFile) (held : Held) (value : List ℕ)
    → (lock_file file held value false ≡ blocked) ↔ ((file ≡ regular) × (is_held held value ≡ true))
lock_file-waits unusable held value = (λ h. absurd (cc h), λ h. absurd (cc (h.0)))
lock_file-waits irregular held value = (λ h. absurd (cc h), λ h. absurd (cc (h.0)))
lock_file-waits regular held value = elim (Bool-cases (is_held held value)) [
  | inl e ↦ rw e (λ h. (refl, refl), λ h. refl)
  | inr n ↦ rw n (λ h. absurd (cc h), λ h. absurd (cc (h.1)))
]

-- what the first lock left
first_lock :
    (file : LockFile) (value : List ℕ) (held : Held)
    → lock_file file [] value true ≡ taken held
    → (file ≡ regular) × (held ≡ value ∷ [])
first_lock unusable value held h = absurd (cc h)
first_lock irregular value held h = absurd (cc h)
first_lock regular value held h = (refl, cc (h))

waits_iff :
    (locks : Locks) (held : Held)
    → (acquire_application_state locks held ≡ blocked)
      ↔ ((locks application_state_key ≡ regular) × (is_held held application_state_key ≡ true))
unfolding acquire_application_state acquire_key is_valid_key
waits_iff locks held = lock_file-waits (locks application_state_key) held application_state_key

-- Who took the lock of a valid resource while no lock was held, and then asks for the lock on the
-- application state, waits for a lock of his own exactly where the resource is the application with
-- the id "state".
pub self_deadlock_iff :
    (locks : Locks) (r : ResourceRef) (held : Held)
    → validate_ref r ≡ ok tt
    → try_acquire locks [] r ≡ taken held
    → (acquire_application_state locks held ≡ blocked)
      ↔ (r ≡ record { kind = application; id = "state" })
self_deadlock_iff locks r held h t =
    let reached =
      sym (acquire_key_lem locks [] (lock_key r) (lock_key-is_valid_key r h))
      ∙ sym (behind_check locks [] r h)
      ∙ t in
    let (usable, free) = first_lock (locks (lock_key r)) (lock_key r) held reached in
    rw free (
      λ waits.
          let same =
            (codes_beq_iff application_state_key (lock_key r)).0
              (or-false-right _ ((waits_iff locks _).0 waits).1) in
          lock_key-injective r state_ref h state_ref-valid (sym same ∙ sym state_key),
      λ e.
          let named = ap lock_key e ∙ state_key in
          (waits_iff locks _).1 (ap locks (sym named) ∙ usable, rw named refl),
    )
  where
    or-false-right : (b : Bool) → b || false ≡ true → b ≡ true
    or-false-right true p = refl
    or-false-right false p = p
