-- ===== src/Lock.antt =====
-- crates/lumic-platform/src/resource_lock.rs: the names of the lock files, and which of them may be
-- taken. The locks that are held are the set of their names; what the file system makes of a lock file
-- is a parameter. A lock file has no contents, and that a call makes one is not seen by any other.
pub mod Keys
pub mod Held
use lumic.Prelude.{
  ℕ, String, Bool, true, false, not, ◌&&◌, ◌||◌, List, [], ◌∷◌, leb, nat_beq, codes, ◌<>◌, all,
  is_empty, length, is_ascii_lowercase, is_ascii_digit, map, codes_beq, any, if◌then◌else◌,
}
use lumic.Error.{LumicError, Result, ok, err, invalid, internal, reject_if, ◌>>=◌, ◌>>◌}
use lumic.Resource.{ResourceRef, validate_ref, key, is_id_char}

-- A key that passes the test of its characters is ASCII, so its bytes are its characters.
unfoldable pub is_valid_key : List ℕ → Bool
is_valid_key value = not (is_empty value) && leb (length value) 255 && all is_id_char value

-- `replace(':', "-")`
abbrev pub dash : ℕ → ℕ
dash c = if nat_beq c b':' then b'-' else c

unfoldable pub lock_key : ResourceRef → List ℕ
unfolding key
lock_key resource = map dash (key resource)

abbrev pub packages_key : List ℕ
packages_key = codes "global-packages"

abbrev pub nginx_key : List ℕ
nginx_key = codes "global-nginx"

abbrev pub repository_state_key : List ℕ
repository_state_key = codes "repository-state"

abbrev pub application_state_key : List ℕ
application_state_key = codes "application-state"

-- the lock files on which some descriptor holds the lock
abbrev pub Held : Type 0
Held = List (List ℕ)

abbrev pub is_held : Held → List ℕ → Bool
is_held held value = any (codes_beq value) held

pub data Outcome : Type 0 where
  taken : Held → Outcome
  refused : LumicError → Outcome
  blocked : Outcome  -- the call waits until the holder lets go

-- the message without the path of the file
abbrev pub held_error : LumicError
held_error = internal "resource lock is already held"

-- What `create_dir_all`, the opening without following links, `metadata` and `flock` come to for a lock
-- file, other than that another holds it: they succeed on a regular file, or on something else, or one
-- of them fails.
pub data LockFile : Type 0 where
  regular irregular unusable : LockFile

-- the lock file of each key
abbrev pub Locks : Type 0
Locks = List ℕ → LockFile

-- the message without that of the system
abbrev pub lock_io : LumicError
lock_io = internal "resource lock failed"

abbrev pub not_regular : LumicError
not_regular = invalid "lock.path" "lock path must be a regular file"

-- the part of `acquire_key` behind the test of the key
abbrev pub lock_file : LockFile → Held → List ℕ → Bool → Outcome
lock_file unusable held value nonblocking = refused lock_io
lock_file irregular held value nonblocking = refused not_regular
lock_file regular held value nonblocking =
    if not (is_held held value)
    then taken (value ∷ held)
    else if nonblocking
    then refused held_error
    else blocked

-- `acquire_key`
unfoldable pub acquire_key : Locks → Held → List ℕ → Bool → Outcome
unfolding is_valid_key
acquire_key locks held value nonblocking =
    if not (is_valid_key value)
    then refused (invalid "lock.key" "lock key contains unsupported characters")
    else lock_file (locks value) held value nonblocking

-- `try_acquire`
unfoldable pub try_acquire : Locks → Held → ResourceRef → Outcome
unfolding validate_ref
try_acquire locks held resource = elim (validate_ref resource) [
  | err e ↦ refused e
  | ok _ ↦ acquire_key locks held (lock_key resource) true
]

-- `acquire_application_state`
unfoldable pub acquire_application_state : Locks → Held → Outcome
acquire_application_state locks held = acquire_key locks held application_state_key false

-- `drop`: the descriptor lets go of its own lock
abbrev pub release : List ℕ → Held → Held
release value [] = []
release value (v ∷ held) = if codes_beq value v then held else v ∷ release value held
