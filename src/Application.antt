-- ===== src/Application.antt =====
-- crates/lumic-core/src/application.rs: the parts of an application, and the checks of its fields.
-- A text that passes a test of its characters by ASCII classes is ASCII, so where such a test
-- follows a test of the length, the length is counted in characters.
pub mod Slug
use lumic.Prelude.{
  ℕ, String, Bool, false, not, ◌&&◌, ◌||◌, Option, none, some, List, [], ◌∷◌, ◌++◌, ◌*◌, leb, ltb,
  nat_beq, codes, len, empty, is_empty, all, any, first, final, length, split, strip, occurs,
  codes_beq, starts_with, ends_with, is_ascii_lowercase, is_ascii_uppercase, is_ascii_digit,
  is_ascii_alphanumeric, is_ascii_control,
}
use lumic.Error.{Check, ok, err, invalid, ensure, reject_if, each, ◌>>◌}

pub record ApplicationServiceReference : Type 0 where
  pub service_id : String
  pub role : String
  pub service_type : Option String
  pub database : Option String
  pub user : Option String
  pub secret_reference : Option String

pub record NodeHandoff : Type 0 where
  pub command : List String
  pub primary_port : ℕ
  pub secondary_port : ℕ
  pub drain_seconds : ℕ

pub record DeploymentWorkflow : Type 0 where
  pub pre_deploy : List (List String)
  pub build : Option (List String)
  pub migrate : Option (List String)
  pub post_deploy : List (List String)
  pub node_handoff : Option NodeHandoff

-- without the `contract`, which nothing here reads
pub record RepositoryConfig : Type 0 where
  pub url : String
  pub branch : String
  pub credential_reference : Option String
  pub deployment : DeploymentWorkflow

pub record HealthCheck : Type 0 where
  pub enabled : Bool
  pub path : String
  pub port : ℕ
  pub expected_status_min : ℕ
  pub expected_status_max : ℕ
  pub timeout_seconds : ℕ

-- `HealthCheck::default`
abbrev pub default_health : HealthCheck
default_health = record {
  enabled = false;
  path = "/";
  port = 80;
  expected_status_min = 200;
  expected_status_max = 399;
  timeout_seconds = 10;
}

pub data ApplicationProcessKind : Type 0 where
  worker schedule : ApplicationProcessKind

pub data ProcessRestartPolicy : Type 0 where
  never on_failure always : ProcessRestartPolicy

pub record ProcessHealthCheck : Type 0 where
  pub command : List String
  pub interval_seconds : ℕ
  pub timeout_seconds : ℕ

pub data ScheduleTiming : Type 0 where
  calendar : (expression : String) → ScheduleTiming
  interval : (seconds : ℕ) → ScheduleTiming

pub data MissedRunPolicy : Type 0 where
  run_immediately skip : MissedRunPolicy

pub record ApplicationSchedule : Type 0 where
  pub timing : ScheduleTiming
  pub missed_run_policy : MissedRunPolicy
  pub jitter_seconds : ℕ

pub record ApplicationProcess : Type 0 where
  pub name : String
  pub kind : ApplicationProcessKind
  pub command : List String
  pub schedule : Option ApplicationSchedule
  pub enabled : Bool
  pub environment : List (String × String)
  pub working_directory : Option String
  pub restart_policy : ProcessRestartPolicy
  pub health_check : Option ProcessHealthCheck

abbrev pub is_slug_char : ℕ → Bool
is_slug_char c = is_ascii_lowercase c || is_ascii_digit c || nat_beq c b'-'

-- the test `valid` of `validate_slug`
unfoldable pub is_slug : List ℕ → Bool
is_slug cs =
    not (is_empty cs)
    && leb (length cs) 63
    && first is_ascii_lowercase cs
    && final is_ascii_alphanumeric cs
    && all is_slug_char cs

unfoldable pub validate_slug : String → String → Check
validate_slug field value =
    ensure (is_slug (codes value)) (invalid field "must be a lowercase DNS-style slug")

unfoldable pub validate_domain : String → Check
validate_domain value =
    reject_if
      (ltb 253 (len value)
        || not (any (λ c. nat_beq c b'.') (codes value))
        || any (λ label. not (is_slug label)) (split b'.' (codes value)))
      (invalid "domain" "must be a valid lowercase fully-qualified domain name")

-- `contains(['\n', '\r', '\0'])`
abbrev pub has_break : String → Bool
has_break value = any (λ c. nat_beq c 10 || nat_beq c 13 || nat_beq c 0) (codes value)

-- `u8::is_ascii_whitespace`
abbrev pub is_ascii_whitespace : ℕ → Bool
is_ascii_whitespace c = nat_beq c 32 || nat_beq c 9 || nat_beq c 10 || nat_beq c 12 || nat_beq c 13

abbrev pub is_git_special : ℕ → Bool
is_git_special c =
    nat_beq c b'~'
    || nat_beq c b'^'
    || nat_beq c b':'
    || nat_beq c b'?'
    || nat_beq c b'*'
    || nat_beq c b'['
    || nat_beq c 92

unfoldable pub validate_branch : String → Check
validate_branch value =
    reject_if
      (empty value
        || ltb 255 (len value)
        || starts_with value "-"
        || starts_with value "/"
        || ends_with value "/"
        || occurs (codes "..") (codes value)
        || occurs (codes "@{") (codes value)
        || any (λ c. is_ascii_control c || is_ascii_whitespace c || is_git_special c) (codes value))
      (invalid "branch" "is not a safe Git branch name")

-- the first part of a split
abbrev pub head_part : List (List ℕ) → List ℕ
head_part [] = []
head_part (part ∷ _) = part

-- the authority of an https address holds an `@`
abbrev pub has_secret : Option (List ℕ) → Bool
has_secret none = false
has_secret (some rest) = any (λ c. nat_beq c b'@') (head_part (split b'/' rest))

unfoldable pub validate_repository_url : String → Check
validate_repository_url value =
    reject_if
      (not (
          starts_with value "https://"
          || starts_with value "ssh://"
          || starts_with value "git@"
          || starts_with value "file://")
        || any (λ c. nat_beq c 10) (codes value)
        || has_secret (strip (codes "https://") (codes value)))
      (invalid "repository"
        "must use HTTPS, SSH, Git scp syntax, or file URL without embedded credentials")

abbrev pub is_bad_part : String → Bool
is_bad_part part = empty part || has_break part || ltb 4096 (len part)

unfoldable pub validate_command : List String → Check
validate_command command =
    reject_if (is_empty command || any is_bad_part command)
      (invalid "command" "must be a non-empty argv vector without control characters")

unfoldable pub validate_handoff : NodeHandoff → Check
validate_handoff h = do
  validate_command h.command
  reject_if
      (nat_beq h.primary_port 0
        || nat_beq h.secondary_port 0
        || nat_beq h.primary_port h.secondary_port
        || ltb 300 h.drain_seconds)
      (invalid "node_handoff"
        "requires two distinct non-zero ports and a drain time of at most 300 seconds")

-- an `Option` as an iterator
abbrev pub option_list : {A : Type 0} → Option A → List A
option_list none = []
option_list (some a) = a ∷ []

unfoldable pub validate_workflow : DeploymentWorkflow → Check
validate_workflow w = do
  each validate_command
      (w.pre_deploy ++ (option_list w.build ++ (option_list w.migrate ++ w.post_deploy)))
  each validate_handoff (option_list w.node_handoff)

unfoldable pub validate_process_health : ProcessHealthCheck → Check
validate_process_health h = do
  validate_command h.command
  reject_if
      (nat_beq h.interval_seconds 0
        || ltb 86400 h.interval_seconds
        || nat_beq h.timeout_seconds 0
        || ltb h.interval_seconds h.timeout_seconds)
      (invalid "process.health"
        "requires a 1-86400 second interval and a non-zero timeout no longer than the interval")

abbrev pub check_jitter : ℕ → Check
check_jitter jitter =
    reject_if (ltb 86400 jitter) (invalid "schedule" "jitter must not exceed one day")

abbrev pub check_timing : ScheduleTiming → ℕ → Check
check_timing (calendar expression) jitter = do
  reject_if (empty expression || ltb 128 (len expression) || has_break expression)
      (invalid "schedule" "calendar expression is invalid")
  check_jitter jitter
check_timing (interval seconds) jitter = do
  reject_if (nat_beq seconds 0) (invalid "schedule" "interval must be greater than zero")
  check_jitter jitter

unfoldable pub validate_schedule : ApplicationSchedule → Check
validate_schedule s = check_timing s.timing s.jitter_seconds

abbrev pub is_environment_char : ℕ → Bool
is_environment_char c = is_ascii_uppercase c || is_ascii_digit c || nat_beq c b'_'

abbrev pub is_bad_variable : String × String → Bool
is_bad_variable (key, value) =
    empty key
    || ltb 128 (len key)
    || not (all is_environment_char (codes key))
    || first is_ascii_digit (codes key)
    || ltb (16 * 1024) (len value)
    || has_break value

unfoldable pub validate_process_environment : List (String × String) → Check
validate_process_environment environment = reject_if (any is_bad_variable environment) (
    invalid "process.environment"
      "keys must be uppercase environment names and values must be bounded single-line text")

abbrev pub is_bad_directory : String → Bool
is_bad_directory directory =
    empty directory
    || ltb 4096 (len directory)
    || has_break directory
    || any (λ part. codes_beq part (codes "..")) (split b'/' (codes directory))

abbrev pub check_kind : ApplicationProcessKind → Option ApplicationSchedule → Check
check_kind worker none = ok tt
check_kind worker (some _) = err (invalid "schedule" "worker processes cannot have a schedule")
check_kind schedule none = err (invalid "schedule" "scheduled processes require timing")
check_kind schedule (some s) = validate_schedule s

unfoldable pub validate_process : ApplicationProcess → Check
validate_process p = do
  validate_slug "process" p.name
  validate_command p.command
  validate_process_environment p.environment
  reject_if (any is_bad_directory (option_list p.working_directory)) (
      invalid "process.working_directory"
        "must be a bounded normalized path without parent traversal")
  each validate_process_health (option_list p.health_check)
  check_kind p.kind p.schedule
