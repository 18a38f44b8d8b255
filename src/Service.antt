-- ===== src/Service.antt =====
-- crates/lumic-core/src/service.rs: catalog-backed service instances.
use lumic.Prelude.{ℕ, String, Bool, true, false, ◌||◌, Option, ltb, nat_beq, len, is_blank}
use lumic.Error.{Check, invalid, reject_if, each, ◌>>◌}
use lumic.Json.{Json}
use lumic.Resource.{
  ResourceRef, managed_service, Entries, ResourceOutput, validate_resource_id, validate_output,
}

pub data ResourceOwnership : Type 0 where
  external lumic_owned : ResourceOwnership

pub data ManagementStatus : Type 0 where
  discovered managed drifted conflicted : ManagementStatus

pub data DesiredServiceState : Type 0 where
  running stopped : DesiredServiceState

pub record ServiceInstance (V : Type 0) : Type 0 where
  pub id : String
  pub definition_id : String
  pub definition_version : ℕ
  pub display_name : String
  pub ownership : ResourceOwnership
  pub management_status : ManagementStatus
  pub desired_state : DesiredServiceState
  pub configuration : Entries V
  pub outputs : Entries (ResourceOutput V)
  pub platform_metadata : Entries V
  pub installed_version : Option String
  pub created_at_unix_ms : ℕ
  pub updated_at_unix_ms : ℕ

-- an external service that is marked as managed
abbrev pub is_claimed : ResourceOwnership → ManagementStatus → Bool
is_claimed external managed = true
is_claimed _ _ = false

unfoldable pub validate_service : {V : Type 0} ⦃json : Json V⦄ → ServiceInstance V → Check
validate_service s = do
  validate_resource_id "service.id" s.id
  validate_resource_id "service.definition_id" s.definition_id
  reject_if (nat_beq s.definition_version 0)
      (invalid "service.definition_version" "must be positive")
  reject_if (is_blank s.display_name || ltb 128 (len s.display_name))
      (invalid "service.display_name" "must contain between 1 and 128 characters")
  reject_if (is_claimed s.ownership s.management_status)
      (invalid "service.management_status" "an external service cannot be marked managed")
  reject_if (ltb s.updated_at_unix_ms s.created_at_unix_ms)
      (invalid "service.updated_at_unix_ms" "must not precede creation")
  each (λ entry. validate_output entry.0 entry.1) s.outputs

unfoldable pub service_ref : {V : Type 0} → ServiceInstance V → ResourceRef
service_ref s = record { kind = managed_service; id = s.id }
