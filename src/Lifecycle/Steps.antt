-- ===== src/Lifecycle/Steps.antt =====
-- crates/lumic-core/src/application_lifecycle.rs: the pipeline of an operation, and the whole
-- lifecycle plan. A `Configuration` is listed in the order of its keys.
use lumic.Prelude.{
  String, not, ◌&&◌, Option, List, [], ◌∷◌, ◌++◌, map, is_some, ◌<>◌, if◌then◌else◌,
}
use mathlib.Core.List.{reverse}
use lumic.Error.{Result, ok, invalid, reject_if, ◌>>=◌, ◌>>◌}
use lumic.Json.{Json}
use lumic.Resource.{Entries}
use lumic.Application.{
  ApplicationServiceReference, ApplicationProcess, ApplicationProcessKind, RepositoryConfig,
  option_list,
}
use lumic.Package.{ReviewedPackageRequirement, default_catalog, review_names}
use lumic.Pipeline.{
  Pipeline, PipelineStep, ensure_directory, ensure_package, provider_action, health_check,
  commit_state, validate_pipeline,
}
use lumic.Pipeline.HealthCheck.{http}
use lumic.Lifecycle.{
  ApplicationLifecycleOperation, operation_name, is_update, is_remove, GenericPhpApplicationSpec,
  validate_spec, spec_ref, package_reason,
}
use lumic.Lifecycle.Plan.{Plan, human_plan, title_of}

abbrev pub process_operation : ApplicationProcessKind → String
process_operation ApplicationProcessKind.worker = "process"
process_operation ApplicationProcessKind.schedule = "schedule"

abbrev pub process_removal : ApplicationProcessKind → String
process_removal ApplicationProcessKind.worker = "process_remove"
process_removal ApplicationProcessKind.schedule = "schedule_remove"

module _ {V : Type 0} ⦃json : Json V⦄ where
  unfoldable pub provider_step : String → String → String → Entries V → PipelineStep V
  provider_step id summary operation parameters = record {
    id = id;
    summary = summary;
    action = provider_action "generic_php_application" operation parameters;
  }

  abbrev pub entry : String → String → String × V
  entry name value = (name, json.from_str value)

  abbrev pub optional_entry : String → Option String → Entries V
  optional_entry name value = map (entry name) (option_list value)

  unfoldable pub database_parameters : ApplicationServiceReference → Entries V
  database_parameters reference =
      optional_entry "database" reference.database
      ++ (entry "role" reference.role
          ∷ (optional_entry "secret_reference" reference.secret_reference
              ++ (entry "service_id" reference.service_id ∷ optional_entry "user" reference.user)))

  unfoldable pub package_step : String → PipelineStep V
  package_step name = record {
    id = "package-" <> name;
    summary = "Ensure trusted package " <> name;
    action = ensure_package name;
  }

  unfoldable pub repository_step : RepositoryConfig → PipelineStep V
  repository_step repository =
      provider_step "repository" ("Configure repository branch " <> repository.branch) "repository"
        (entry "branch" repository.branch ∷ entry "url" repository.url ∷ [])

  unfoldable pub component_step : String → String → PipelineStep V
  component_step version component =
      provider_step ("component-" <> component) ("Ensure PHP component " <> component) "component"
        (entry "name" component ∷ entry "version" version ∷ [])

  unfoldable pub database_step : ApplicationServiceReference → PipelineStep V
  database_step database =
      provider_step ("database-" <> database.role) ("Bind database role " <> database.role)
        "database_binding" (database_parameters database)

  unfoldable pub process_step : ApplicationProcess → PipelineStep V
  process_step process =
      let operation = process_operation process.kind in
      provider_step (operation <> ("-" <> process.name))
        ("Configure " <> (operation <> (" " <> process.name))) operation
        (entry "name" process.name ∷ [])

  unfoldable pub health_step : GenericPhpApplicationSpec → PipelineStep V
  health_step spec = record {
    id = "health";
    summary = "Verify application health";
    action = health_check (
        http
          ((if spec.tls then "https" else "http") <> ("://" <> (spec.domain <> spec.health.path)))
          spec.health.expected_status_min);
  }

  unfoldable pub root_step : GenericPhpApplicationSpec → PipelineStep V
  root_step spec = record {
    id = "root";
    summary = "Ensure the managed application root";
    action = ensure_directory spec.root 0o755;
  }

  unfoldable pub web_step : GenericPhpApplicationSpec → PipelineStep V
  web_step spec = provider_step "web" ("Configure owned web host for " <> spec.domain) "web_host" (
      entry "domain" spec.domain
      ∷ entry "root" spec.root
      ∷ ("www_alias", json.from_bool spec.www_alias)
      ∷ [])

  unfoldable pub reconciliation_steps :
      GenericPhpApplicationSpec → ApplicationLifecycleOperation → List (PipelineStep V)
  reconciliation_steps spec operation =
      (root_step spec ∷ map package_step spec.packages)
      ++ (map repository_step (option_list spec.repository)
          ++ (provider_step "runtime" ("Ensure PHP " <> (spec.php_version <> " runtime")) "runtime"
                (entry "version" spec.php_version ∷ [])
              ∷ (map (component_step spec.php_version) spec.components
                  ++ (map database_step spec.databases
                      ++ (web_step spec
                          ∷ (map process_step spec.processes
                              ++ ((if spec.tls
                                    then provider_step "tls" ("Ensure TLS for " <> spec.domain)
                                        "tls" (entry "domain" spec.domain ∷ [])
                                      ∷ []
                                    else [])
                                  ++ ((if is_update operation
                                        then provider_step "release"
                                            "Deploy the latest configured repository release"
                                            "deploy" []
                                          ∷ []
                                        else [])
                                      ++ (if spec.health.enabled
                                          then health_step spec ∷ []
                                          else [])))))))))

  unfoldable pub process_removal_step : ApplicationProcess → PipelineStep V
  process_removal_step process =
      provider_step ("remove-" <> process.name) ("Remove owned units for " <> process.name)
        (process_removal process.kind) (entry "name" process.name ∷ [])

  unfoldable pub unbind_step : ApplicationServiceReference → PipelineStep V
  unbind_step database =
      provider_step ("unbind-" <> database.role) ("Detach database role " <> database.role)
        "database_unbind" (entry "role" database.role ∷ [])

  unfoldable pub removal_steps : GenericPhpApplicationSpec → List (PipelineStep V)
  removal_steps spec =
      (if spec.tls
        then provider_step "tls-detach" "Detach the owned certificate" "tls_detach" [] ∷ []
        else [])
      ++ (map process_removal_step (reverse spec.processes)
          ++ (map unbind_step (reverse spec.databases)
              ++ (provider_step "web-remove" "Remove the owned web host" "web_host_remove" []
                  ∷ provider_step "root-trash" "Move the application root to recoverable trash"
                      "root_trash" (entry "root" spec.root ∷ [])
                  ∷ [])))

  abbrev pub commit_step : PipelineStep V
  commit_step = record {
    id = "commit";
    summary = "Commit application resource state";
    action = commit_state;
  }

  -- the steps before the commit
  unfoldable pub body_steps :
      GenericPhpApplicationSpec → ApplicationLifecycleOperation → List (PipelineStep V)
  body_steps spec operation =
      if is_remove operation then removal_steps spec else reconciliation_steps spec operation

  unfoldable pub pipeline :
      GenericPhpApplicationSpec → ApplicationLifecycleOperation → Result (Pipeline V)
  pipeline spec operation = do
    target ← spec_ref spec
    ok (record {
      id = "application-" <> (spec.id <> ("-" <> operation_name operation));
      target = target;
      summary = title_of operation <> (" generic PHP application " <> spec.id);
      steps = body_steps spec operation ++ commit_step ∷ [];
    })

pub record ApplicationLifecyclePlan (V : Type 0) : Type 0 where
  pub operation : ApplicationLifecycleOperation
  pub plan : Plan
  pub pipeline : Pipeline V
  pub package_requirements : List ReviewedPackageRequirement

module _ {V : Type 0} ⦃json : Json V⦄ where
  unfoldable pub lifecycle_plan :
      GenericPhpApplicationSpec
      → ApplicationLifecycleOperation
      → Result (ApplicationLifecyclePlan V)
  lifecycle_plan spec operation = do
    validate_spec spec
    reject_if (is_update operation && not (is_some spec.repository))
        (invalid "repository" "an update plan requires a configured repository")
    p ← pipeline spec operation
    validate_pipeline p
    requirements ← review_names default_catalog spec.packages package_reason
    ok (record {
      operation = operation;
      plan = human_plan spec operation;
      pipeline = p;
      package_requirements = requirements;
    })
