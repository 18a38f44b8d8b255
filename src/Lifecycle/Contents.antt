-- ===== src/Lifecycle/Contents.antt =====
-- crates/lumic-core/src/application_lifecycle.rs: what an accepted lifecycle plan does to the host.
use lumic.Prelude.{
  String, ◌≡◌, Bool, true, false, not, ◌&&◌, List, [], ◌∷◌, ◌++◌, map, is_some, All, ◌==◌,
  string_eq, ◌<>◌, if◌then◌else◌,
}
use lumic.Json.{Json}
use lumic.Package.{default_catalog}
use lumic.Package.Trust.{name_of, IsTrusted}
use lumic.Pipeline.{
  Pipeline, PipelineStep, PipelineAction, HealthCheck, ensure_package, provider_action,
  health_check,
}
use lumic.Pipeline.HealthCheck.{http}
use lumic.Pipeline.Valid.{IsValid}
use lumic.Lifecycle.{ApplicationLifecycleOperation, is_update, remove, GenericPhpApplicationSpec}
use lumic.Lifecycle.Health.{IsProbe}
use lumic.Lifecycle.Steps.{ApplicationLifecyclePlan, pipeline}

-- what a step does to the host, as far as it is told apart here
pub data Effect : Type 0 where
  installs : (name : String) → Effect
  secures deploys trashes : Effect
  probes : (check : HealthCheck) → Effect

abbrev pub effect_of_call : String → List Effect
effect_of_call operation =
    if operation == "tls"
    then secures ∷ []
    else if operation == "deploy"
    then deploys ∷ []
    else if operation == "root_trash"
    then trashes ∷ []
    else []

abbrev pub effect_of : {V : Type 0} → PipelineAction V → List Effect
effect_of (ensure_package name) = installs name ∷ []
effect_of (health_check check) = probes check ∷ []
effect_of (provider_action _ operation _) = effect_of_call operation
effect_of _ = []

abbrev pub effects : {V : Type 0} → List (PipelineStep V) → List Effect
effects [] = []
effects (step ∷ steps) = effect_of step.action ++ effects steps

abbrev pub when : {A : Type 0} → Bool → A → List A
when true a = a ∷ []
when false a = []

-- what an operation on an application is for: a removal moves its root to the trash and installs
-- nothing; the others install its packages, secure it where it is served by TLS, deploy a release in
-- an update, and at last ask for its health page where that is checked
abbrev pub intended : GenericPhpApplicationSpec → ApplicationLifecycleOperation → List Effect
intended spec remove = trashes ∷ []
intended spec operation =
    map installs spec.packages
    ++ (when spec.tls secures
        ++ (when (is_update operation) deploys
            ++ when spec.health.enabled (
                probes (
                  http
                    ((if spec.tls then "https" else "http")
                      <> ("://" <> (spec.domain <> spec.health.path)))
                    spec.health.expected_status_min))))

module _ {V : Type 0} ⦃json : Json V⦄ where
  -- what an accepted plan is for
  abbrev pub Fulfils :
      GenericPhpApplicationSpec
      → ApplicationLifecycleOperation
      → ApplicationLifecyclePlan V
      → Type 0
  Fulfils spec operation plan =
      IsValid plan.pipeline
      × (effects plan.pipeline.steps ≡ intended spec operation)
      × ((is_update operation && not (is_some spec.repository)) ≡ false)
      × IsProbe spec.health
      × (map name_of plan.package_requirements ≡ spec.packages)
      × All (IsTrusted default_catalog) spec.packages
