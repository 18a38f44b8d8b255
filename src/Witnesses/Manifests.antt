-- ===== src/Witnesses/Manifests.antt =====
-- Manifests at concrete inputs.
use lumic.Prelude.{
  List, String, map, ◌≢◌, inl, inr, Distinct, eq_iff, true, false, ◌≡◌, refl, none, some, [], ◌∷◌,
}
use lumic.Error.{ok, err, invalid}
use lumic.Json.{Sample, sample_json, sample_values}
use lumic.Application.{
  on_failure, never, default_health, ApplicationProcess, worker, schedule, calendar,
  run_immediately,
}
use lumic.Manifest.{ApplicationManifest, ManifestRequirement, ManifestVersion, ManifestWorker}
use lumic.Manifest.Cron.{cron_to_calendar}
use lumic.Manifest.Cron.Errors.{IsScheduleError, cron_to_calendar-FailsOnSchedule}
use lumic.Manifest.Resolve.{node}
use lumic.Manifest.Normalize.{ApplicationManifestV2, ManifestProcessTypeV2, normalize}
use lumic.Manifest.Normalize.Kept.{IsNormal, bare, normalize-IsNormal}
use lumic.Manifest.Requirements.{
  ResolvedApplicationManifest, ManifestServiceRequirement, resolve_manifest,
}
use lumic.Manifest.Requirements.Resolved.{IsResolved, resolve_manifest-IsResolved}
use lumic.Witnesses.Catalogs.{example_catalog, both_defaults}

reading :
    cron_to_calendar "x * * * *"
    ≡ err (
        invalid "cron.schedule"
          "schema version 1 supports only wildcard or single numeric cron fields")
unfolding cron_to_calendar lumic.Manifest.Cron.words_from lumic.Manifest.Cron.cron_field
    lumic.Manifest.Cron.digits_value
reading = refl

cron_to_calendar-FailsOnSchedule_example : IsScheduleError (
    invalid "cron.schedule" "schema version 1 supports only wildcard or single numeric cron fields")
cron_to_calendar-FailsOnSchedule_example =
    cron_to_calendar-FailsOnSchedule "x * * * *"
      (invalid "cron.schedule"
        "schema version 1 supports only wildcard or single numeric cron fields")
      reading

abbrev blog_manifest : ApplicationManifest Sample
blog_manifest = record {
  schema_version = 2;
  name = "blog";
  source = record { branch = none; subdirectory = none };
  runtime = record {
    static_site = none;
    node = some (ManifestVersion.text "22");
    php = none;
    extensions = [];
    package_manager = some "npm";
  };
  build = ("npm" ∷ "ci" ∷ []) ∷ [];
  output = none;
  public = none;
  web = some (record { command = some ("node" ∷ "server.js" ∷ []); port = some 3000 });
  workers =
      (
        "queue",
        record {
          command = "node" ∷ "queue.js" ∷ [];
          instances = 1;
          environment = [];
          working_directory = none;
          restart = on_failure;
          health = none;
        },
      )
      ∷ [];
  cron = ("sweep", record { command = "node" ∷ "sweep.js" ∷ []; schedule = "* * * * *" }) ∷ [];
  services = [];
  requirements =
      record {
        role = "search";
        capability = "example.url";
        provider = some "example";
        instance_name = none;
        optional = false;
        configuration = [];
        resources = [];
      }
      ∷ [];
  migrations = [];
  deployment = record {
    before = [];
    after = [];
    deploy_on_push = true;
    retain_releases = 5;
    drain_seconds = 10;
  };
  shared = record { directories = "storage" ∷ []; files = ".env" ∷ [] };
  health = none;
}

abbrev blog_resolved : ResolvedApplicationManifest Sample
blog_resolved = record {
  manifest = blog_manifest;
  runtime = node;
  runtime_version = some "22";
  runtime_components = [];
  package_manager = some lumic.Manifest.Resolve.npm;
  branch = "main";
  source_subdirectory = none;
  public_directory = none;
  workflow = record {
    pre_deploy = [];
    build = some ("npm" ∷ "ci" ∷ []);
    migrate = none;
    post_deploy = [];
    node_handoff = some (record {
      command = "node" ∷ "server.js" ∷ [];
      primary_port = 3000;
      secondary_port = 3001;
      drain_seconds = 10;
    });
  };
  health = default_health;
  processes =
      record {
        name = "queue";
        kind = worker;
        command = "node" ∷ "queue.js" ∷ [];
        schedule = none;
        enabled = true;
        environment = [];
        working_directory = none;
        restart_policy = on_failure;
        health_check = none;
      }
      ∷ record {
        name = "sweep";
        kind = schedule;
        command = "node" ∷ "sweep.js" ∷ [];
        schedule = some (record {
          timing = calendar "*-*-* *:*:00";
          missed_run_policy = run_immediately;
          jitter_seconds = 0;
        });
        enabled = true;
        environment = [];
        working_directory = none;
        restart_policy = on_failure;
        health_check = none;
      }
      ∷ [];
  service_requirements =
      record {
        role = "search";
        capability = "example.url";
        service_type = "example";
        instance_name = none;
        database = none;
        user = none;
        optional = false;
        configuration = both_defaults;
        resources = [];
      }
      ∷ [];
  shared_directories = "storage" ∷ [];
  shared_files = ".env" ∷ [];
}

resolving_blog : resolve_manifest (ok example_catalog) blog_manifest "main" ≡ ok blog_resolved
unfolding lumic.Manifest.validate_commands lumic.Manifest.validate_optional_relative
    lumic.Manifest.validate_manifest_runtime lumic.Manifest.validate_manifest_health
    lumic.Manifest.validate_worker lumic.Manifest.validate_cron
    lumic.Manifest.validate_manifest_service lumic.Manifest.validate_web
    lumic.Manifest.validate_shared lumic.Manifest.validate_deployment
    lumic.Manifest.validate_manifest_requirements lumic.Manifest.validate_manifest_header
    lumic.Manifest.validate_manifest lumic.Manifest.Cron.words_from lumic.Manifest.Cron.digits_value
    lumic.Manifest.Cron.cron_field lumic.Manifest.Cron.cron_to_calendar
    lumic.Manifest.Resolve.resolve_runtime lumic.Manifest.Resolve.node_handoff_of
    lumic.Manifest.Resolve.instances_from lumic.Manifest.Resolve.worker_processes
    lumic.Manifest.Resolve.cron_process lumic.Manifest.Resolve.processes_of
    lumic.Manifest.Requirements.resource_name lumic.Manifest.Requirements.resolve_resources
    lumic.Manifest.Requirements.provider_of lumic.Manifest.Requirements.from_provider
    lumic.Manifest.Requirements.requirements_of lumic.Manifest.Requirements.resolve_manifest
    lumic.Catalog.validate_catalog_id lumic.Catalog.validate_capability
    lumic.Catalog.validate_definition_header lumic.Catalog.validate_outputs
    lumic.Catalog.validate_config_files lumic.Catalog.validate_platforms
    lumic.Catalog.validate_extensions lumic.Catalog.validate_runtime_requirement
    lumic.Catalog.validate_requirements lumic.Catalog.validate_service_resource
    lumic.Catalog.validate_resources lumic.Catalog.validate_service_definition
    lumic.Catalog.validate_runtime_definition lumic.Catalog.validate_application_definition
    lumic.Catalog.Loading.insert_unique lumic.Catalog.Loading.load
    lumic.Catalog.Loading.from_documents lumic.Catalog.Loading.service_for_capability
    lumic.Configuration.validate_catalog_key lumic.Configuration.valid_version
    lumic.Configuration.is_direct lumic.Configuration.validate_target
    lumic.Configuration.bounded_string lumic.Configuration.integer_in_range
    lumic.Configuration.matches lumic.Configuration.validate_value
    lumic.Configuration.validate_definition lumic.Configuration.validate_fields
    lumic.Configuration.validate_schema lumic.Configuration.get lumic.Configuration.insert
    lumic.Configuration.resolve_field lumic.Configuration.resolve_fields lumic.Configuration.resolve
    lumic.Configuration.apply_behavior lumic.Configuration.redacted lumic.Application.is_slug
    lumic.Application.validate_slug lumic.Application.validate_domain
    lumic.Application.validate_branch lumic.Application.validate_repository_url
    lumic.Application.validate_command lumic.Application.validate_handoff
    lumic.Application.validate_workflow lumic.Application.validate_process_health
    lumic.Application.validate_schedule lumic.Application.validate_process_environment
    lumic.Application.validate_process
resolving_blog = refl

resolve_manifest-IsResolved_example : IsResolved example_catalog blog_manifest blog_resolved
resolve_manifest-IsResolved_example =
    resolve_manifest-IsResolved example_catalog blog_manifest "main" blog_resolved resolving_blog

abbrev blog_document : ApplicationManifestV2 Sample
blog_document = record {
  schema_version = 2;
  name = "blog";
  source = record { branch = none; subdirectory = none };
  runtime = record {
    runtime_type = "node";
    version = some (ManifestVersion.text "22");
    extensions = [];
    package_manager = some "npm";
  };
  requirements = blog_manifest.requirements;
  processes =
      (
        "queue",
        record {
          process_type = ManifestProcessTypeV2.worker;
          command = "node" ∷ "queue.js" ∷ [];
          instances = 1;
          environment = [];
          working_directory = none;
          restart = on_failure;
          health = none;
          port = none;
        },
      )
      ∷ (
        "site",
        record {
          process_type = ManifestProcessTypeV2.web;
          command = "node" ∷ "server.js" ∷ [];
          instances = 1;
          environment = ("MODE", "live") ∷ [];
          working_directory = some "site";
          restart = on_failure;
          health = none;
          port = some 3000;
        },
      )
      ∷ [];
  schedules =
      record { name = "sweep"; schedule = "* * * * *"; command = "node" ∷ "sweep.js" ∷ [] } ∷ [];
  deployment = record {
    build = some ("npm" ∷ "ci" ∷ []);
    migrate = none;
    before = [];
    after = [];
    deploy_on_push = true;
    retain_releases = 5;
    drain_seconds = 10;
  };
  output = none;
  public = none;
  shared = blog_manifest.shared;
  health = none;
}

normalizing : normalize blog_document ≡ ok blog_manifest
unfolding lumic.Manifest.Normalize.normalize_runtime lumic.Manifest.Normalize.sort_processes
    lumic.Manifest.Normalize.gather_schedules lumic.Manifest.Normalize.normalize
    lumic.Manifest.Normalize.parse_manifest lumic.Manifest.Normalize.parse_legacy_yaml
    lumic.Configuration.validate_catalog_key lumic.Configuration.valid_version
    lumic.Configuration.is_direct lumic.Configuration.validate_target
    lumic.Configuration.bounded_string lumic.Configuration.integer_in_range
    lumic.Configuration.matches lumic.Configuration.validate_value
    lumic.Configuration.validate_definition lumic.Configuration.validate_fields
    lumic.Configuration.validate_schema lumic.Configuration.get lumic.Configuration.insert
    lumic.Configuration.resolve_field lumic.Configuration.resolve_fields lumic.Configuration.resolve
    lumic.Configuration.apply_behavior lumic.Configuration.redacted
normalizing = refl

abbrev process_names : List String
process_names = "queue" ∷ "site" ∷ []

abbrev queue_name : String
queue_name = "queue"

abbrev site_name : String
site_name = "site"

queue_is_no_site : queue_name ≢ site_name
queue_is_no_site p = let same = (eq_iff queue_name site_name).1 p in cc

two_names : Distinct process_names
two_names = (λ i. elim i [ inl p ↦ queue_is_no_site p | inr e ↦ e ], (λ i. i, tt))

normalize-IsNormal_example :
    IsNormal blog_document blog_manifest
    × (normalize (record blog_document { processes = map (bare never) blog_document.processes })
        ≡ ok blog_manifest)
normalize-IsNormal_example =
    normalize-IsNormal never blog_document blog_manifest two_names normalizing
