-- ===== src/Pipeline.antt =====
-- crates/lumic-core/src/pipeline.rs: the actions of a reconciliation pipeline, and which pipelines
-- are accepted. The journal of an execution is in the child `Execution`.
pub mod Execution
pub mod Valid
use lumic.Prelude.{
  ℕ, ◌+◌, String, Bool, true, false, not, ◌&&◌, ◌||◌, Option, none, some, List, [], ◌∷◌, leb, ltb,
  nat_beq, ◌==◌, string_eq, codes, len, all, any, empty, is_blank, is_some, is_empty, contains,
  last, map, is_ascii_hexdigit, is_ascii_alphanumeric, is_ascii_control, starts_with, ends_with,
}
use lumic.Error.{Check, ok, err, invalid, ensure, reject_if, ◌>>=◌, ◌>>◌}
use lumic.Json.{Json, is_secret}
use lumic.Net.{parse_ip}
use lumic.Resource.{ResourceRef, Entries, validate_resource_id, validate_output_name, validate_ref}

pub data RecoveryClassification : Type 0 where
  retryable reversible manual : RecoveryClassification

pub data ServiceAction : Type 0 where
  enable disable start stop restart reload : ServiceAction

pub data HealthCheck : Type 0 where
  tcp : (address : String) → (port : ℕ) → HealthCheck
  http : (url : String) → (expected_status : ℕ) → HealthCheck
  systemd : (unit : String) → HealthCheck
  provider : (provider operation : String) → HealthCheck

pub data PipelineAction (V : Type 0) : Type 0 where
  ensure_package : (name : String) → PipelineAction V
  ensure_repository : (repository_id : String) → PipelineAction V
  ensure_artifact : (artifact_id : String) → PipelineAction V
  ensure_user : (user : String) → (system : Bool) → PipelineAction V
  ensure_group : (group : String) → (system : Bool) → PipelineAction V
  ensure_directory : (path : String) → (mode : ℕ) → PipelineAction V
  write_managed_file : (path content_sha256 : String) → (mode : ℕ) → PipelineAction V
  ensure_symlink : (path target : String) → PipelineAction V
  service_action : (unit : String) → (action : ServiceAction) → PipelineAction V
  provider_action : (provider operation : String) → (parameters : Entries V) → PipelineAction V
  health_check : (check : HealthCheck) → PipelineAction V
  record_output :
      (resource : ResourceRef)
      → (name : String) → (value : V) → (sensitive : Bool) → PipelineAction V
  commit_state : PipelineAction V

unfoldable pub recovery_classification : {V : Type 0} → PipelineAction V → RecoveryClassification
recovery_classification (ensure_package _) = retryable
recovery_classification (ensure_repository _) = retryable
recovery_classification (ensure_artifact _) = retryable
recovery_classification (health_check _) = retryable
recovery_classification (ensure_user _ _) = reversible
recovery_classification (ensure_group _ _) = reversible
recovery_classification (ensure_directory _ _) = reversible
recovery_classification (write_managed_file _ _ _) = reversible
recovery_classification (ensure_symlink _ _) = reversible
recovery_classification (service_action _ _) = reversible
recovery_classification (record_output _ _ _ _) = reversible
recovery_classification commit_state = reversible
recovery_classification (provider_action _ _ _) = manual

-- `Path::is_absolute` on Unix
abbrev pub is_absolute : String → Bool
is_absolute path = starts_with path "/"

unfoldable pub validate_absolute_path : String → String → Check
validate_absolute_path field value =
    ensure (is_absolute value && leb (len value) 4096 && not (any is_ascii_control (codes value)))
      (invalid field "must be a safe absolute path")

-- at most 0o7777
unfoldable pub validate_mode : ℕ → Check
validate_mode mode = ensure (leb mode 0o7777) (invalid "step.mode" "must be a valid Unix mode")

abbrev pub is_token_char : ℕ → Bool
is_token_char c =
    is_ascii_alphanumeric c
    || (nat_beq c b'+' || nat_beq c b'-' || nat_beq c b'.' || nat_beq c b'_' || nat_beq c b':')

unfoldable pub validate_token : String → String → ℕ → Check
validate_token field value max =
    ensure (not (empty value) && leb (len value) max && all is_token_char (codes value))
      (invalid field "contains unsupported characters")

unfoldable pub validate_account : String → String → Check
validate_account field value = validate_token field value 32

unfoldable pub validate_unit : String → Check
validate_unit value = do
  validate_token "step.unit" value 255
  ensure (ends_with value ".service") (invalid "step.unit" "must name a systemd service unit")

unfoldable pub validate_health_check : HealthCheck → Check
validate_health_check (tcp address port) =
    reject_if (not (is_some (parse_ip address)) || nat_beq port 0)
      (invalid "step.health_check" "invalid TCP endpoint")
validate_health_check (http url expected_status) =
    reject_if
      (not (starts_with url "http://" || starts_with url "https://")
        || not (leb 100 expected_status && leb expected_status 599))
      (invalid "step.health_check" "invalid HTTP check")
validate_health_check (systemd unit) = validate_unit unit
validate_health_check (provider name operation) = do
  validate_resource_id "step.health_check.provider" name
  validate_resource_id "step.health_check.operation" operation

pub record PipelineStep (V : Type 0) : Type 0 where
  pub id : String
  pub summary : String
  pub action : PipelineAction V

pub record Pipeline (V : Type 0) : Type 0 where
  pub id : String
  pub target : ResourceRef
  pub summary : String
  pub steps : List (PipelineStep V)

abbrev pub is_commit : {V : Type 0} → PipelineAction V → Bool
is_commit commit_state = true
is_commit _ = false

-- `matches!(steps.last().map(|step| &step.action), Some(CommitState))`
abbrev pub ends_in_commit : {V : Type 0} → List (PipelineStep V) → Bool
ends_in_commit [] = false
ends_in_commit (s ∷ []) = is_commit s.action
ends_in_commit (_ ∷ s ∷ steps) = ends_in_commit (s ∷ steps)

module _ {V : Type 0} ⦃json : Json V⦄ where
  unfoldable pub validate_action : PipelineAction V → Check
  validate_action (ensure_package name) = validate_token "step.package" name 128
  validate_action (ensure_repository repository_id) =
      validate_resource_id "step.repository_id" repository_id
  validate_action (ensure_artifact artifact_id) =
      validate_resource_id "step.artifact_id" artifact_id
  validate_action (ensure_user user _) = validate_account "step.user" user
  validate_action (ensure_group group _) = validate_account "step.group" group
  validate_action (ensure_directory path mode) = do
    validate_absolute_path "step.path" path
    validate_mode mode
  validate_action (write_managed_file path content_sha256 mode) = do
    validate_absolute_path "step.path" path
    reject_if
        (not (nat_beq (len content_sha256) 64)
          || not (all is_ascii_hexdigit (codes content_sha256)))
        (invalid "step.content_sha256" "must be a SHA-256 hex digest")
    validate_mode mode
  validate_action (ensure_symlink path target) = do
    validate_absolute_path "step.path" path
    validate_absolute_path "step.target" target
  validate_action (service_action unit _) = validate_unit unit
  validate_action (provider_action name operation _) = do
    validate_resource_id "step.provider" name
    validate_resource_id "step.operation" operation
  validate_action (health_check check) = validate_health_check check
  validate_action (record_output resource name value sensitive) = do
    validate_ref resource
    validate_output_name "step.output" name
    reject_if (sensitive && not (is_secret value))
        (invalid "step.value" "sensitive outputs must contain a secret reference")
  validate_action commit_state = ok tt

  -- the loop of `validate`; `index + 1 != len` says that steps are left
  unfoldable pub validate_steps : List String → List (PipelineStep V) → Check
  validate_steps ids [] = ok tt
  validate_steps ids (s ∷ steps) = do
    validate_resource_id "pipeline.step.id" s.id
    reject_if (contains ids s.id) (invalid "pipeline.step.id" "duplicate step id")
    reject_if (is_blank s.summary) (invalid "pipeline.step.summary" "must not be empty")
    validate_action s.action
    reject_if (is_commit s.action && not (is_empty steps))
        (invalid "pipeline.steps" "CommitState must be the final step")
    validate_steps (s.id ∷ ids) steps

  unfoldable pub validate_pipeline : Pipeline V → Check
  validate_pipeline p = do
    validate_resource_id "pipeline.id" p.id
    validate_ref p.target
    reject_if (is_blank p.summary) (invalid "pipeline.summary" "must not be empty")
    reject_if (is_empty p.steps) (invalid "pipeline.steps" "must not be empty")
    validate_steps [] p.steps
    reject_if (not (ends_in_commit p.steps))
        (invalid "pipeline.steps" "the final step must commit state")
