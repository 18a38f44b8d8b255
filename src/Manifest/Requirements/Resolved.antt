-- ===== src/Manifest/Requirements/Resolved.antt =====
-- What `ApplicationManifest::resolve` returns.
use lumic.Prelude.{◌+◌, ◌≡◌, refl, subst, String, List, ◌++◌, All, length, map}
use lumic.Error.{ok, >>=-eq-ok, ok-injective}
use lumic.Json.{Values}
use lumic.Catalog.Loading.{Catalog}
use lumic.Application.{validate_process, validate_workflow, validate_branch}
use lumic.Manifest.{ApplicationManifest, validate_manifest}
use lumic.Manifest.Resolve.{resolve_runtime, manager_of, node_handoff_of, processes_of}
use lumic.Manifest.Resolve.Processes.{
  HandsOff, node_handoff_of-HandsOff, instance_count, processes_of_lem,
}
use lumic.Manifest.Requirements.{
  ManifestServiceRequirement, ResolvedApplicationManifest, service_requirement, branch_or,
  workflow_of, requirements_of, resolve_manifest,
}
use lumic.Manifest.Requirements.Satisfied.{IsSatisfied, requirements_of-IsSatisfied}

module _ {V : Type 0} ⦃values : Values V⦄ where
  -- the manifest is valid, its processes are, and there are as many as it asks for; a hand-off is one
  -- of a Node runtime between a port and the next; and the requirements behind the listed services are
  -- satisfied from the catalog
  pub record IsResolved (catalog : Catalog V) (m : ApplicationManifest V)
      (r : ResolvedApplicationManifest V) : Type 0 where
    pub valid : validate_manifest m ≡ ok tt
    pub runs : validate_workflow r.workflow ≡ ok tt
    pub counted : length r.processes ≡ instance_count m.workers + length m.cron
    pub processes : All (λ p. validate_process p ≡ ok tt) r.processes
    pub handoff : HandsOff r.runtime r.workflow.node_handoff
    pub required : List (ManifestServiceRequirement V)
    pub listed : r.service_requirements ≡ map service_requirement m.services ++ required
    pub satisfied : All (IsSatisfied catalog m.requirements) required

  -- Where a manifest is resolved with a catalog, it is valid and so are its workflow and its
  -- processes, of which there is one for each instance of a worker and one for each cron job; a
  -- hand-off is one of a Node runtime, from a port to the next, which is at most 65535; and behind
  -- the listed services come requirements each of which is met by a service of the catalog that
  -- provides its capability, with a configuration that the service resolves to itself.
  pub resolve_manifest-IsResolved :
      (catalog : Catalog V) (m : ApplicationManifest V) (default_branch : String)
      (r : ResolvedApplicationManifest V)
      → resolve_manifest (ok catalog) m default_branch ≡ ok r
      → IsResolved catalog m r
  unfolding resolve_manifest
  resolve_manifest-IsResolved catalog m default_branch r h =
      let (_, valid, h1) = >>=-eq-ok (validate_manifest m) _ h in
      let (chosen, _, h2) = >>=-eq-ok (resolve_runtime m.runtime) _ h1 in
      let (_, _, h3) = >>=-eq-ok (manager_of m.runtime.package_manager) _ h2 in
      let (_, _, h4) =
        >>=-eq-ok (validate_branch (branch_or default_branch m.source.branch)) _ h3 in
      let (over, handed, h5) =
        >>=-eq-ok (node_handoff_of chosen.0 m.deployment.drain_seconds m.web) _ h4 in
      let (_, runs, h6) = >>=-eq-ok (validate_workflow (workflow_of m over)) _ h5 in
      let (processes, made, h7) = >>=-eq-ok (processes_of m.workers m.cron) _ h6 in
      let (required, met, h8) = >>=-eq-ok (requirements_of catalog m.requirements) _ h7 in
      let (counted, all) = processes_of_lem m.workers m.cron processes made in
      subst (IsResolved catalog m) (ok-injective h8) (record {
        valid = valid;
        runs = runs;
        counted = counted;
        processes = all;
        handoff = node_handoff_of-HandsOff chosen.0 m.deployment.drain_seconds m.web over handed;
        required = required;
        listed = refl;
        satisfied = requirements_of-IsSatisfied catalog m.requirements required met;
      })
