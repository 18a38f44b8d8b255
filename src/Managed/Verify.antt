-- ===== src/Managed/Verify.antt =====
-- crates/lumic-platform/src/managed_service.rs: the verification of a recorded backup against the file
-- at its path, of which the facts are a parameter.
use lumic.Prelude.{
  ℕ, String, Bool, true, false, ◌&&◌, ◌||◌, Option, none, some, List, leb, nat_beq, ◌==◌, string_eq,
  find, length, codes, strip, is_some, if◌then◌else◌,
}
use lumic.Error.{ok, invalid}
use lumic.Managed.{ServiceBackup}
use lumic.Managed.Wire.{Wire}
use lumic.Managed.Conversion.{or_err}
use lumic.Managed.Session.{Context, Session, lift, load, ◌>>=◌, ◌>>◌}
use lumic.Managed.Users.{validate_backup_id}

pub record BackupVerification : Type 0 where
  pub backup_id : String
  pub verified_at_unix_ms : ℕ
  pub exists : Bool
  pub size_matches : Bool
  pub checksum_matches : Option Bool
  pub format_valid : Bool
  pub checksum_sha256 : Option String
  pub message : String

-- a regular file: its length, its digest, the first 16 bytes at most, and the extension of its path
pub record FileFacts : Type 0 where
  pub size : ℕ
  pub sha256 : String
  pub header : List ℕ
  pub extension : Option String

abbrev pub starts : List ℕ → String → Bool
starts header magic = is_some (strip (codes magic) header)

abbrev pub is_native_format : Option String → List ℕ → Bool
is_native_format none header = false
is_native_format (some extension) header =
    if extension == "dump"
    then leb 5 (length header) && starts header "PGDMP"
    else if extension == "rdb"
    then leb 5 (length header) && starts header "REDIS"
    else if extension == "sql"
    then leb 12 (length header) && (starts header "-- MySQL dump" || starts header "/*M!999999")
    else false

-- `checksum_sha256.as_ref().map(|expected| expected == &checksum)`
abbrev pub agrees_with : String → Option String → Option Bool
agrees_with checksum none = none
agrees_with checksum (some expected) = some (expected == checksum)

abbrev pub or_true : Option Bool → Bool
or_true none = true
or_true (some b) = b

abbrev pub never : Option String → Option Bool
never none = none
never (some _) = some false

unfoldable pub verify_file : ℕ → ServiceBackup → Option FileFacts → BackupVerification
verify_file now backup none = record {
  backup_id = backup.id;
  verified_at_unix_ms = now;
  exists = false;
  size_matches = false;
  checksum_matches = never backup.checksum_sha256;
  format_valid = false;
  checksum_sha256 = none;
  message = "backup file is missing";
}
verify_file now backup (some file) =
    let size_matches = nat_beq file.size backup.size_bytes in
    let checksum_matches = agrees_with file.sha256 backup.checksum_sha256 in
    let format_valid = is_native_format file.extension file.header in
    record {
      backup_id = backup.id;
      verified_at_unix_ms = now;
      exists = true;
      size_matches = size_matches;
      checksum_matches = checksum_matches;
      format_valid = format_valid;
      checksum_sha256 = some file.sha256;
      message =
          if size_matches && or_true checksum_matches && format_valid
          then "backup size, checksum, and native format header verified"
          else "backup verification failed; do not restore this artifact";
    }

module _ {V : Type 0} ⦃wire : Wire V⦄ where
  unfoldable pub verify_backup :
      (String → Option FileFacts) → Context → String → Session V BackupVerification
  verify_backup files context backup_id = do
    lift (validate_backup_id backup_id)
    state ← load context.now
    backup ← lift (
        or_err (invalid "backup" "backup is not managed by Lumic")
          (find (λ item. item.id == backup_id) state.backups))
    lift (ok (verify_file context.now backup (files backup.path)))
