-- ===== src/Manifest/Normalize.antt =====
-- crates/lumic-core/src/application_manifest.rs: the second version of the document, and what it is
-- normalised to. `application`, which holds only the name, is the name itself.
pub mod Kept
use lumic.Prelude.{
  ◌⊎◌, inl, inr, ◌<>◌, ℕ, String, Bool, true, not, ◌||◌, Option, none, some, List, [], ◌∷◌, nat_beq,
  ◌==◌, string_eq, is_some, if◌then◌else◌,
}
use lumic.Error.{LumicError, Result, ok, err, invalid, reject_if, ◌>>=◌, ◌>>◌}
use lumic.Resource.{Entries}
use lumic.Configuration.{get, insert}
use lumic.Application.{ProcessRestartPolicy, ProcessHealthCheck, option_list}
use lumic.Manifest.{
  validate_manifest, manifest_schema_version, ManifestVersion, ManifestSource, ManifestRuntime,
  ManifestWeb, ManifestWorker, ManifestCron, ManifestRequirement, ManifestSharedPaths,
  ManifestHealth, ApplicationManifest,
}

pub record ManifestRuntimeV2 : Type 0 where
  pub runtime_type : String
  pub version : Option ManifestVersion
  pub extensions : List String
  pub package_manager : Option String

pub data ManifestProcessTypeV2 : Type 0 where
  web worker : ManifestProcessTypeV2

pub record ManifestProcessV2 : Type 0 where
  pub process_type : ManifestProcessTypeV2
  pub command : List String
  pub instances : ℕ
  pub environment : List (String × String)
  pub working_directory : Option String
  pub restart : ProcessRestartPolicy
  pub health : Option ProcessHealthCheck
  pub port : Option ℕ

pub record ManifestScheduleV2 : Type 0 where
  pub name : String
  pub schedule : String
  pub command : List String

pub record ManifestDeploymentV2 : Type 0 where
  pub build : Option (List String)
  pub migrate : Option (List String)
  pub before : List (List String)
  pub after : List (List String)
  pub deploy_on_push : Bool
  pub retain_releases : ℕ
  pub drain_seconds : ℕ

pub record ApplicationManifestV2 (V : Type 0) : Type 0 where
  pub schema_version : ℕ
  pub name : String
  pub source : ManifestSource
  pub runtime : ManifestRuntimeV2
  pub requirements : List (ManifestRequirement V)
  pub processes : Entries ManifestProcessV2
  pub schedules : List ManifestScheduleV2
  pub deployment : ManifestDeploymentV2
  pub output : Option String
  pub public : Option String
  pub shared : ManifestSharedPaths
  pub health : Option ManifestHealth

abbrev pub required : LumicError → Option ManifestVersion → Result (Option ManifestVersion)
required error none = err error
required error (some version) = ok (some version)

unfoldable pub normalize_runtime : ManifestRuntimeV2 → Result ManifestRuntime
normalize_runtime runtime =
    if runtime.runtime_type == "static"
    then ok record {
      static_site = some true;
      node = none;
      php = none;
      extensions = runtime.extensions;
      package_manager = runtime.package_manager;
    }
    else if runtime.runtime_type == "node"
    then (required (invalid "runtime.version" "Node requires an explicit version") runtime.version
        >>= λ version. ok record {
          static_site = none;
          node = version;
          php = none;
          extensions = runtime.extensions;
          package_manager = runtime.package_manager;
        })
    else if runtime.runtime_type == "php"
    then (required (invalid "runtime.version" "PHP requires an explicit version") runtime.version
        >>= λ version. ok record {
          static_site = none;
          node = none;
          php = version;
          extensions = runtime.extensions;
          package_manager = runtime.package_manager;
        })
    else err (invalid "runtime.type" "must be static, node, or php")

-- what the loop over the processes gathers
pub record Sorted : Type 0 where
  pub web : Option ManifestWeb
  pub workers : Entries ManifestWorker

abbrev pub web_of : ManifestProcessV2 → ManifestWeb
web_of process = record { command = some process.command; port = process.port }

abbrev pub worker_of : ManifestProcessV2 → ManifestWorker
worker_of process = record {
  command = process.command;
  instances = process.instances;
  environment = process.environment;
  working_directory = process.working_directory;
  restart = process.restart;
  health = process.health;
}

abbrev pub cron_of : ManifestScheduleV2 → ManifestCron
cron_of schedule = record { command = schedule.command; schedule = schedule.schedule }

abbrev pub add_process : Sorted → String → ManifestProcessV2 → ManifestProcessTypeV2 → Result Sorted
add_process sorted name process web = do
  reject_if (is_some sorted.web || not (nat_beq process.instances 1))
      (invalid "processes" "exactly one single-instance web process is supported")
  ok record { web = some (web_of process); workers = sorted.workers }
add_process sorted name process worker = do
  reject_if (is_some process.port)
      (invalid "processes.port" "ports are valid only for web processes")
  ok record { web = sorted.web; workers = insert name (worker_of process) sorted.workers }

unfoldable pub sort_processes : Sorted → Entries ManifestProcessV2 → Result Sorted
sort_processes sorted [] = ok sorted
sort_processes sorted ((name, process) ∷ processes) = do
  next ← add_process sorted name process process.process_type
  sort_processes next processes

unfoldable pub gather_schedules :
    Entries ManifestCron → List ManifestScheduleV2 → Result (Entries ManifestCron)
gather_schedules cron [] = ok cron
gather_schedules cron (schedule ∷ schedules) = do
  reject_if (is_some (get schedule.name cron)) (invalid "schedules.name" "names must be unique")
  gather_schedules (insert schedule.name (cron_of schedule) cron) schedules

-- a document, or the text of the reader's error
abbrev pub read_document : {D : Type 0} → String → String ⊎ D → Result D
read_document name (inl error) = err (invalid name ("could not parse schema: " <> error))
read_document name (inr document) = ok document

module _ {V : Type 0} where
  unfoldable pub normalize : ApplicationManifestV2 V → Result (ApplicationManifest V)
  normalize document = do
    reject_if (not (nat_beq document.schema_version manifest_schema_version))
        (invalid "schema_version" "lumic.toml requires schema_version 2")
    runtime ← normalize_runtime document.runtime
    sorted ← sort_processes (record { web = none; workers = [] }) document.processes
    cron ← gather_schedules [] document.schedules
    ok record {
      schema_version = document.schema_version;
      name = document.name;
      source = document.source;
      runtime = runtime;
      build = option_list document.deployment.build;
      output = document.output;
      public = document.public;
      web = sorted.web;
      workers = sorted.workers;
      cron = cron;
      services = [];
      requirements = document.requirements;
      migrations = option_list document.deployment.migrate;
      deployment = record {
        before = document.deployment.before;
        after = document.deployment.after;
        deploy_on_push = document.deployment.deploy_on_push;
        retain_releases = document.deployment.retain_releases;
        drain_seconds = document.deployment.drain_seconds;
      };
      shared = document.shared;
      health = document.health;
    }

  -- `ApplicationManifest::parse`, over `toml::from_str`
  unfoldable pub parse_manifest :
      (String → String ⊎ ApplicationManifestV2 V) → String → Result (ApplicationManifest V)
  parse_manifest from_toml source = do
    document ← read_document "lumic.toml" (from_toml source)
    manifest ← normalize document
    validate_manifest manifest
    ok manifest

  -- `parse_legacy_yaml`, over `serde_yaml::from_str`
  unfoldable pub parse_legacy_yaml :
      (String → String ⊎ ApplicationManifest V) → String → Result (ApplicationManifest V)
  parse_legacy_yaml from_yaml source = do
    manifest ← read_document "lumic.yaml" (from_yaml source)
    validate_manifest manifest
    ok manifest
