-- ===== src/Framework.antt =====
-- crates/lumic-platform/src/framework_state.rs: the persisted state of the resource framework, and
-- when it is accepted. `Store` is the file that it is kept in and the operations on bindings.
pub mod Loops
pub mod Valid
pub mod Store
use lumic.Prelude.{
  ℕ, String, Bool, true, false, not, ◌||◌, Option, none, some, List, [], ◌∷◌, nat_beq, ◌==◌,
  string_eq, contains, any, find, ◌<>◌, decimal,
}
use lumic.Error.{Result, Check, ok, err, invalid, reject_if, ◌>>=◌, ◌>>◌}
use lumic.Json.{Json}
use lumic.Resource.{ResourceRef, ref_eq, Entries, ResourceOutput, ResourceRecord, validate_record}
use lumic.Binding.{Binding, BindingGraph, validate_graph}
use lumic.Pipeline.Execution.{PipelineExecution}
use lumic.Service.{ServiceInstance, validate_service, service_ref}

abbrev pub schema_version : ℕ
schema_version = 2

pub record StateMigration : Type 0 where
  pub from_schema_version : ℕ
  pub to_schema_version : ℕ
  pub source : String
  pub backup : String
  pub migrated_at_unix_ms : ℕ

pub record FrameworkState (V : Type 0) : Type 0 where
  pub version : ℕ
  pub services : List (ServiceInstance V)
  pub resources : List (ResourceRecord V)
  pub bindings : BindingGraph
  pub pipeline_executions : List PipelineExecution
  pub migrations : List StateMigration

-- `FrameworkState::default`
abbrev pub initial : {V : Type 0} → FrameworkState V
initial = record {
  version = schema_version;
  services = [];
  resources = [];
  bindings = [];
  pipeline_executions = [];
  migrations = [];
}

-- `outputs.contains_key(name)`
abbrev pub has_entry : {V : Type 0} → String → Entries V → Bool
has_entry name entries = any (λ entry. entry.0 == name) entries

abbrev pub found_output :
    {A V : Type 0} → (A → Entries (ResourceOutput V)) → String → Option A → Bool
found_output outputs name none = false
found_output outputs name (some a) = has_entry name (outputs a)

-- the first service or the first record that the producer names has the output
unfoldable pub has_output :
    {V : Type 0} → List (ServiceInstance V) → List (ResourceRecord V) → Binding → Bool
has_output services resources b =
    found_output (λ s. s.outputs) b.output (find (λ s. service_ref s == b.producer) services)
    || found_output (λ r. r.outputs) b.output (find (λ r. r.resource == b.producer) resources)

module _ {V : Type 0} ⦃json : Json V⦄ where
  -- the loops over services and records share the set of references, and give it back
  unfoldable pub check_services :
      List ResourceRef → List (ServiceInstance V) → Result (List ResourceRef)
  check_services references [] = ok references
  check_services references (s ∷ services) = do
    validate_service s
    reject_if (contains references (service_ref s))
        (invalid "state.services" "duplicate service resource")
    check_services (service_ref s ∷ references) services

  unfoldable pub check_resources :
      List ResourceRef → List (ResourceRecord V) → Result (List ResourceRef)
  check_resources references [] = ok references
  check_resources references (r ∷ resources) = do
    validate_record r
    reject_if (contains references r.resource) (invalid "state.resources" "duplicate resource")
    check_resources (r.resource ∷ references) resources

module _ {V : Type 0} (services : List (ServiceInstance V))
    (resources : List (ResourceRecord V)) where
  unfoldable pub check_binding : List ResourceRef → Binding → Check
  check_binding references b = do
    reject_if (not (contains references b.producer))
        (invalid "state.bindings.producer" "binding references an unknown producer")
    reject_if (not (contains references b.consumer))
        (invalid "state.bindings.consumer" "binding references an unknown consumer")
    reject_if (not (has_output services resources b))
        (invalid "state.bindings.output" "binding references an unknown producer output")

  unfoldable pub check_bindings : List ResourceRef → List Binding → Check
  check_bindings references [] = ok tt
  check_bindings references (b ∷ bindings) = do
    check_binding references b
    check_bindings references bindings

unfoldable pub check_executions : List String → List PipelineExecution → Check
check_executions ids [] = ok tt
check_executions ids (e ∷ executions) = do
  reject_if (contains ids e.id) (invalid "state.pipeline_executions" "duplicate execution id")
  check_executions (e.id ∷ ids) executions

-- `FrameworkState::validate`
unfoldable pub validate_state : {V : Type 0} ⦃json : Json V⦄ → FrameworkState V → Check
validate_state state = do
  reject_if (not (nat_beq state.version schema_version)) (
      invalid "state.schema_version"
        ("expected " <> (decimal schema_version <> (", got " <> decimal state.version))))
  services ← check_services [] state.services
  references ← check_resources services state.resources
  validate_graph state.bindings
  check_bindings state.services state.resources references state.bindings
  check_executions [] state.pipeline_executions
