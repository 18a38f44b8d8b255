-- ===== src/Error.antt =====
-- crates/lumic-core/src/lib.rs: the error type of every fallible operation, its stable codes and
-- structured details, and the `Result` that `?` chains.
use lumic.Prelude.{◌⊎◌, inl, inr, ◌≢◌, ℕ, String, ◌≡◌, refl, Bool, true, false, List, [], ◌∷◌}

pub data LumicError : Type 0 where
  invalid_input : (field message : String) → LumicError
  unsupported_platform : (platform : String) → LumicError
  inspection : (fact message : String) → LumicError
  process : (executable message : String) → LumicError
  timeout : (executable : String) → (timeout_ms : ℕ) → LumicError
  policy_denied : (capability : String) → LumicError
  committed : (operation message : String) → LumicError
  internal : (message : String) → LumicError

pub data ErrorCode : Type 0 where
  invalid_input unsupported_platform inspection_failed process_failed timeout : ErrorCode
  policy_denied committed internal : ErrorCode

unfoldable pub error_code : LumicError → ErrorCode
error_code (invalid_input _ _) = ErrorCode.invalid_input
error_code (unsupported_platform _) = ErrorCode.unsupported_platform
error_code (inspection _ _) = ErrorCode.inspection_failed
error_code (process _ _) = ErrorCode.process_failed
error_code (timeout _ _) = ErrorCode.timeout
error_code (policy_denied _) = ErrorCode.policy_denied
error_code (committed _ _) = ErrorCode.committed
error_code (internal _) = ErrorCode.internal

-- the map of `details`, which has one key at most
unfoldable pub details : LumicError → List (String × String)
details (invalid_input field _) = ("field", field) ∷ []
details (unsupported_platform platform) = ("platform", platform) ∷ []
details (inspection fact _) = ("fact", fact) ∷ []
details (process executable _) = ("executable", executable) ∷ []
details (timeout executable _) = ("executable", executable) ∷ []
details (policy_denied capability) = ("capability", capability) ∷ []
details (committed operation _) = ("operation", operation) ∷ []
details (internal _) = []

pub data Result {ℓ} (A : Type ℓ) : Type ℓ where
  ok : A → Result A
  err : LumicError → Result A

-- `Result<()>`, of an operation that only checks
abbrev pub Check : Type 0
Check = Result (Unit {0})

-- `first?` with the rest of the body behind it
abbrev pub ◌>>=◌ {ℓ κ} : {S : Type ℓ} {T : Type κ} → Result S → (next : S → Result T) → Result T
err failure >>= _ = err failure
ok s >>= next = next s

abbrev pub ◌>>◌ {ℓ} : {T : Type ℓ} → Check → Result T → Result T
check >> rest = check >>= λ _. rest

infixl 5 ◌>>=◌ ◌>>◌
-- the `invalid` of each module of the crates
abbrev pub invalid : String → String → LumicError
invalid field message = LumicError.invalid_input field message

-- `if wrong { return Err(e); }`
abbrev pub reject_if : Bool → LumicError → Check
reject_if true e = err e
reject_if false e = ok tt

-- `if valid { Ok(()) } else { Err(e) }`
abbrev pub ensure : Bool → LumicError → Check
ensure true e = ok tt
ensure false e = err e

-- `for x in xs { f(x)?; }`
abbrev pub each {ℓ} : {A : Type ℓ} → (A → Check) → List A → Check
each f [] = ok tt
each f (x ∷ xs) = f x >>= λ _. each f xs

-- `xs.iter().map(f).collect::<Result<Vec<_>>>()`
abbrev pub traverse {ℓ κ} : {A : Type ℓ} {B : Type κ} → (A → Result B) → List A → Result (List B)
traverse f [] = ok []
traverse f (x ∷ xs) = f x >>= λ y. traverse f xs >>= λ ys. ok (y ∷ ys)

-- Inversion of a successful chain, for proofs where the parts stay shut.
pub >>=-eq-ok {ℓ κ} :
    {S : Type ℓ} {T : Type κ} (first : Result S) (next : S → Result T) {final : T}
    → (first >>= next) ≡ ok final
    → (s : S) × (first ≡ ok s) × (next s ≡ ok final)
>>=-eq-ok (err failure) next h = cc
>>=-eq-ok (ok s) next h = (s, refl, h)

pub reject_if-eq-ok : (b : Bool) (e : LumicError) → reject_if b e ≡ ok tt → b ≡ false
reject_if-eq-ok true e h = cc
reject_if-eq-ok false e h = refl

pub ensure-eq-ok : (b : Bool) (e : LumicError) → ensure b e ≡ ok tt → b ≡ true
ensure-eq-ok true e h = refl
ensure-eq-ok false e h = cc

pub Check-cases : (c : Check) → (c ≡ ok tt) ⊎ (c ≢ ok tt)
Check-cases (ok tt) = inl refl
Check-cases (err e) = inr (λ h. cc)

pub ok-injective {ℓ} : {A : Type ℓ} {a b : A} → ok a ≡ ok b → a ≡ b
ok-injective h = cc
