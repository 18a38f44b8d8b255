-- ===== src/Lib.antt =====
-- A verification library for Lumic, which manages the services and applications of one host.
--
-- Lumic names everything that it manages by a resource reference. Services and records carry the
-- outputs of resources, bindings lead outputs to the inputs of consumers, pipelines are the accepted
-- forms of change, and one file keeps the state. The command line, the daemon and the MCP server call
-- the platform crate, which takes a lock, loads the state, changes it and saves it. The library
-- follows the core of this:
--
-- - Prelude and its children: Booleans, lists and the `str` of Rust over native text.
-- - Error: crates/lumic-core/src/lib.rs, `LumicError` with `code` (`error_code`) and `details`, and the
--   `Result` that `?` chains (`>>=`, in do blocks).
-- - Json: `serde_json::Value`, an interface that the definitions take as an instance; Net: the part of
--   `std::net` that a health check parses addresses with.
-- - Resource: crates/lumic-core/src/resource.rs; `ResourceRef::new` is `new_ref`, the methods
--   `validate` are `validate_ref`, `validate_output` and `validate_record`.
-- - Binding: crates/lumic-core/src/binding.rs; `BindingGraph::validate` is `validate_graph`, with its
--   loop in `validate_from`; `reject_cycles` and `has_cycle` pass the two mutable sets along as `Marks`.
--   Binding/Search, Cycles, Fuel and Acyclic carry the search from its marks to the absence of cycles.
-- - Pipeline: crates/lumic-core/src/pipeline.rs up to `Pipeline::validate`; Pipeline/Execution: the
--   journal, where `planned` is `plan_execution` and a method that mutates gives back the new execution.
-- - Service: crates/lumic-core/src/service.rs.
-- - Lock: crates/lumic-platform/src/resource_lock.rs; the locks are the list of the keys that are held,
--   what the file system makes of each lock file is the parameter `Locks`, and a call is `taken`,
--   `refused` or `blocked`.
-- - Framework: crates/lumic-platform/src/framework_state.rs, the state and `validate_state`;
--   Framework/Store: `load` and `save` of that file, and `bind` and `unbind` of
--   crates/lumic-platform/src/resource_framework.rs, on a `Directory` that holds the file and the locks
--   and has no legacy file; Managed/Binds has them where there may be one.
-- - Application: the validators of crates/lumic-core/src/application.rs; Package:
--   crates/lumic-core/src/package.rs, with `PackageName::parse` as `parse_package`.
-- - Lifecycle: crates/lumic-core/src/application_lifecycle.rs, with the human plan in Lifecycle/Plan and
--   the pipelines and `lifecycle_plan` in Lifecycle/Steps.
-- - Log: crates/lumic-platform/src/jsonl_store.rs, `append` and `latest` over the bytes of a file, which
--   the event store and the audit store call. The lock on the file makes each call one step. Log/Refines
--   sees the file as the list of its records.
-- - Configuration: crates/lumic-core/src/catalog.rs, the fields of a configuration form;
--   `ConfigurationSchema::validate` is `validate_schema`, and the test in `validate_value` is `matches`.
-- - Catalog: the same file, the definitions and their validation; Catalog/Loading:
--   `Catalog::from_documents` and `service_for_capability`; Catalog/Render: the files and commands that a
--   configuration is rendered to.
-- - Manifest: crates/lumic-core/src/application_manifest.rs; `validate` is `validate_manifest`. `normalize`
--   and the readers `parse` and `parse_legacy_yaml` are in Manifest/Normalize, the cron expressions in
--   Manifest/Cron, and `resolve` is `resolve_manifest` in Manifest/Requirements, over the parts in
--   Manifest/Resolve, with the built-in catalog as an argument. It joins the manifest to the catalog: the
--   configuration of a requirement is resolved by the schema of the service that meets it.
-- - Managed: crates/lumic-core/src/managed_service.rs, the older state of services, databases, users and
--   backups, with its validators. Managed/Conversion and Managed/Services turn its records into those of
--   the framework state and back, over the values of Managed/Wire; Managed/Legacy has `load_or_migrate`,
--   `load_managed_service_state` and `save_managed_service_state` of
--   crates/lumic-platform/src/framework_state.rs on a `StateDir`, the directory with the legacy file and
--   its backup. Managed/Session, Commands, Operations, Users, Verify, Publish and Attach are the
--   commands of crates/lumic-platform/src/managed_service.rs; what these ask of the host is the record
--   `Host`.
-- - Witnesses: concrete data, tests, and the theorems at concrete inputs.
--
-- Conventions. A fallible function returns `Result` with the error of the source; a `BTreeMap` is a list
-- of entries in the order of the keys, and a `BTreeSet` that is only asked for membership is a list.
-- Unsigned integers are natural numbers: the modelled code compares them, and computes with them only
-- where it adds one to a port, with the bound of a `u16` written out. The one function of the program
-- on fuel is `has_cycle`: each nested call marks one more key of the map of edges, so one more than the
-- number of keys is enough.
--
-- A command on managed services reads the clock once, and the removal of a backup after a failed save
-- succeeds.
--
-- What is not modelled. The drivers of the platform crate run programs of the host (apt, systemd,
-- nginx, git, database servers), and the command line, the MCP server, the daemon and the user
-- interface parse and render; recipes, repositories and certificates of the core crate are not
-- covered yet, and of the commands on managed services not the installation, configuration, update,
-- backup and restore. `Directory` of Framework/Store, on which `bind` and `unbind` are, is a
-- directory without the legacy file; `StateDir` of Managed/Legacy has it, and `bind_migrating` and
-- `unbind_migrating` of Managed/Binds are the same calls there. The empty lock file that a first
-- call makes is not seen. The bytes of the JSON text of the state are not modelled: a file holds a
-- state, or is missing, corrupt or a link. The readers of JSON, TOML and YAML are parameters, and
-- the documents of the built-in catalog are data.
pub mod Prelude
pub mod Error
pub mod Json
pub mod Net
pub mod Resource
pub mod Binding
pub mod Pipeline
pub mod Lock
pub mod Service
pub mod Framework
pub mod Application
pub mod Package
pub mod Lifecycle
pub mod Log
pub mod Configuration
pub mod Catalog
pub mod Manifest
pub mod Managed
pub mod Witnesses
