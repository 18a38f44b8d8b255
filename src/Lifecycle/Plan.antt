-- ===== src/Lifecycle/Plan.antt =====
-- crates/lumic-core/src/application_lifecycle.rs: the human plan of an operation.
use lumic.Prelude.{
  String, Bool, true, false, Option, none, some, List, [], ◌∷◌, ◌++◌, map, is_empty, ◌<>◌, length,
  decimal, if◌then◌else◌,
}
use lumic.Lifecycle.{
  ApplicationLifecycleOperation, operation_name, is_remove, install, reconcile, update, remove,
  GenericPhpApplicationSpec,
}

pub data RiskLevel : Type 0 where
  low medium high critical : RiskLevel

pub record Risk : Type 0 where
  pub level : RiskLevel
  pub summary : String
  pub mitigation : Option String

pub record Change : Type 0 where
  pub capability : String
  pub summary : String
  pub before : Option String
  pub after : Option String
  pub reversible : Bool

pub record Plan : Type 0 where
  pub id : String
  pub summary : String
  pub changes : List Change
  pub risks : List Risk
  pub preconditions : List String
  pub validation : List String
  pub recovery : List String

-- `title(operation.as_str())`
abbrev pub title_of : ApplicationLifecycleOperation → String
title_of install = "Install"
title_of reconcile = "Reconcile"
title_of update = "Update"
title_of remove = "Remove"

abbrev pub join : List String → String
join [] = ""
join (value ∷ []) = value
join (value ∷ next ∷ values) = value <> (", " <> join (next ∷ values))

abbrev pub display_list : List String → String
display_list [] = "none"
display_list (value ∷ values) = join (value ∷ values)

abbrev pub change : String → String → Option String → Option String → Bool → Change
change capability summary before after reversible = record {
  capability = capability;
  summary = summary;
  before = before;
  after = after;
  reversible = reversible;
}

abbrev pub database_roles : GenericPhpApplicationSpec → String
database_roles spec = display_list (map (λ d. d.role) spec.databases)

-- the changes that only an operation other than `remove` has
unfoldable pub further_changes : GenericPhpApplicationSpec → List Change
further_changes spec =
    (change "application.web.configure" ("route " <> (spec.domain <> (" to " <> spec.root))) none
        (some "owned nginx web host configured") true
      ∷ change "application.runtime.provision"
          ("ensure PHP "
            <> (spec.php_version <> (" with components " <> display_list spec.components)))
          none (some "versioned PHP runtime bound to web host") false
      ∷ [])
    ++ ((if is_empty spec.databases
          then []
          else change "application.service.attach" ("bind database roles " <> database_roles spec)
              none (some "typed database and credential references attached") true
            ∷ [])
        ++ (if is_empty spec.processes
            then []
            else change "application.process.configure"
                ("reconcile "
                  <> (decimal (length spec.processes) <> " process or schedule definition(s)"))
                none (some "owned systemd units configured") true
              ∷ []))

unfoldable pub human_plan : GenericPhpApplicationSpec → ApplicationLifecycleOperation → Plan
human_plan spec operation =
    let removal = is_remove operation in
    record {
      id = "application-" <> (spec.id <> ("-" <> operation_name operation));
      summary = title_of operation <> (" generic PHP application " <> spec.id);
      changes =
          change "application.lifecycle"
            (operation_name operation <> (" generic PHP application " <> spec.id))
            (if removal then some "managed application present" else none)
            (if removal then none else some "desired application state reconciled") true
          ∷ (if removal then [] else further_changes spec);
      risks =
          record {
            level = if removal then high else medium;
            summary =
                if removal
                then "The application will stop serving traffic and its root will move to recoverable trash"
                else "Package, nginx, PHP-FPM, process, and TLS configuration may change";
            mitigation = some (
                if removal
                then "Shared runtimes, packages, databases, and managed services are retained"
                else "The pipeline validates native configuration before committing framework state");
          }
          ∷ [];
      preconditions =
          "the application resource lock is available" ∷ "requested packages are allowed by policy"
          ∷ "referenced database resources and grants exist"
          ∷ "material changes are explicitly approved" ∷ [];
      validation =
          if removal
          then "owned web, certificate, process, and schedule bindings are absent"
            ∷ "shared providers remain installed" ∷ []
          else "nginx configuration validates and reloads"
            ∷ "the selected PHP-FPM runtime is healthy"
            ∷ "the configured application health check succeeds" ∷ [];
      recovery =
          if removal
          then "restore the application root from Lumic trash and reconcile it again" ∷ []
          else "restore the last known-good nginx configuration"
            ∷ "keep shared packages, runtimes, and managed services for a safe retry"
            ∷ "inspect the persisted pipeline journal before retrying" ∷ [];
    }
