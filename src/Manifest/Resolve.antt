-- ===== src/Manifest/Resolve.antt =====
-- crates/lumic-core/src/application_manifest.rs: `ApplicationManifest::resolve`, by its parts.
pub mod Processes
use lumic.Prelude.{
  ℕ, zero, suc, ◌+◌, String, Bool, true, false, not, ◌&&◌, ◌||◌, Option, none, some, List, [], ◌∷◌,
  ◌++◌, leb, nat_beq, PartialEq, ◌==◌, string_eq, ◌<>◌, is_some, any, find, map, starts_with,
  decimal, if◌then◌else◌,
}
use lumic.Error.{
  LumicError, Result, Check, ok, err, invalid, ensure, reject_if, each, traverse, ◌>>=◌, ◌>>◌,
}
use lumic.Json.{Values}
use lumic.Resource.{Entries}
use lumic.Configuration.{get, insert, ConfigurationSchema}
use lumic.Catalog.{ServiceDefinition, ServiceResourceDefinition, ServiceCategory}
use lumic.Catalog.Loading.{Catalog, service_for_capability}
use lumic.Application.{
  ProcessRestartPolicy, ProcessHealthCheck, ApplicationProcess, ApplicationProcessKind,
  ApplicationSchedule, ScheduleTiming, MissedRunPolicy, worker, schedule, calendar, run_immediately,
  on_failure, NodeHandoff, DeploymentWorkflow, HealthCheck, default_health, validate_process,
  validate_workflow, validate_branch, validate_slug,
}
use lumic.Manifest.{
  ManifestVersion, as_text, ManifestRuntime, ManifestWeb, ManifestWorker, ManifestCron,
  ManifestService, ManifestHealth, ManifestRequirement, ManifestDeployment, ApplicationManifest,
  simple, detailed, service_type_of, option_is, is_true, validate_manifest,
  validate_manifest_runtime,
}
use lumic.Manifest.Cron.{cron_to_calendar}

pub data ApplicationRuntime : Type 0 where
  static_site php node : ApplicationRuntime

pub data NodePackageManager : Type 0 where
  npm pnpm yarn : NodePackageManager

abbrev pub manager_of : Option String → Result (Option NodePackageManager)
manager_of none = ok none
manager_of (some manager) =
    if manager == "npm"
    then ok (some npm)
    else if manager == "pnpm"
    then ok (some pnpm)
    else if manager == "yarn"
    then ok (some yarn)
    else err (invalid "runtime.package_manager" "must be npm, pnpm, or yarn for Node")

abbrev pub chosen_runtime :
    Bool
    → Option ManifestVersion
    → Option ManifestVersion
    → List String
    → Result (ApplicationRuntime × Option String × List String)
chosen_runtime true node_version php_version extensions = ok (static_site, none, [])
chosen_runtime false (some version) php_version extensions = ok (node, some (as_text version), [])
chosen_runtime false none (some version) extensions = ok (php, some (as_text version), extensions)
chosen_runtime false none none extensions =
    err (invalid "runtime" "a supported runtime is required")

unfoldable pub resolve_runtime :
    ManifestRuntime → Result (ApplicationRuntime × Option String × List String)
resolve_runtime runtime = do
  validate_manifest_runtime runtime
  chosen_runtime (option_is runtime.static_site is_true) runtime.node runtime.php runtime.extensions

-- `port.checked_add(1)` of a `u16`
abbrev pub checked_next : ℕ → Option ℕ
checked_next port = if leb (port + 1) 65535 then some (port + 1) else none

abbrev pub handoff_on : List String → ℕ → ℕ → Option ℕ → Result (Option NodeHandoff)
handoff_on command port drain none =
    err (invalid "web.port" "must leave room for the secondary blue/green port")
handoff_on command port drain (some secondary) = ok (
    some (record {
      command = command;
      primary_port = port;
      secondary_port = secondary;
      drain_seconds = drain;
    }))

abbrev pub node_web : ℕ → Option (List String) → Option ℕ → Result (Option NodeHandoff)
node_web drain (some command) (some port) = handoff_on command port drain (checked_next port)
node_web drain none none = ok none
node_web drain _ _ = err (invalid "web" "Node web requires both command and port")

abbrev pub other_web : Option (List String) → Option ℕ → Result (Option NodeHandoff)
other_web none none = ok none
other_web _ _ = err (invalid "web" "command and port are only valid for Node runtime")

unfoldable pub node_handoff_of :
    ApplicationRuntime → ℕ → Option ManifestWeb → Result (Option NodeHandoff)
node_handoff_of runtime drain none = ok none
node_handoff_of node drain (some web) = node_web drain web.command web.port
node_handoff_of static_site drain (some web) = other_web web.command web.port
node_handoff_of php drain (some web) = other_web web.command web.port

abbrev pub worker_process : ManifestWorker → String → ApplicationProcess
worker_process w name = record {
  name = name;
  kind = worker;
  command = w.command;
  schedule = none;
  enabled = true;
  environment = w.environment;
  working_directory = w.working_directory;
  restart_policy = w.restart;
  health_check = w.health;
}

-- the instances from the first on, of which so many are left
unfoldable pub instances_from : ManifestWorker → String → ℕ → ℕ → List ApplicationProcess
instances_from w name instance_number zero = []
instances_from w name instance_number (suc left) =
    worker_process w
      (if nat_beq w.instances 1 then name else name <> ("-" <> decimal instance_number))
    ∷ instances_from w name (instance_number + 1) left

unfoldable pub worker_processes : Entries ManifestWorker → List ApplicationProcess
worker_processes [] = []
worker_processes ((name, w) ∷ workers) =
    instances_from w name 1 w.instances ++ worker_processes workers

unfoldable pub cron_process : String × ManifestCron → Result ApplicationProcess
cron_process (name, job) = do
  expression ← cron_to_calendar job.schedule
  ok record {
    name = name;
    kind = schedule;
    command = job.command;
    schedule = some (record {
      timing = calendar expression;
      missed_run_policy = run_immediately;
      jitter_seconds = 0;
    });
    enabled = true;
    environment = [];
    working_directory = none;
    restart_policy = on_failure;
    health_check = none;
  }

unfoldable pub processes_of :
    Entries ManifestWorker → Entries ManifestCron → Result (List ApplicationProcess)
processes_of workers cron = do
  scheduled ← traverse cron_process cron
  let processes = worker_processes workers ++ scheduled
  each validate_process processes
  ok processes

abbrev pub port_or : Option ℕ → Option ManifestWeb → ℕ
port_or (some port) web = port
port_or none none = 80
port_or none (some web) = elim web.port [ none ↦ 80 | some port ↦ port ]

abbrev pub health_of : Option ManifestHealth → Option ManifestWeb → HealthCheck
health_of none web = default_health
health_of (some health) web = record {
  enabled = true;
  path = health.path;
  port = port_or health.port web;
  expected_status_min = health.expect;
  expected_status_max = health.expect;
  timeout_seconds = health.timeout_seconds;
}
