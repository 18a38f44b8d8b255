-- ===== src/Lifecycle/Health.antt =====
-- crates/lumic-core/src/application_lifecycle.rs: the health check of a specification that is valid.
use lumic.Prelude.{
  ◌≡◌, refl, Bool, true, false, not, ◌&&◌, ◌||◌, ◌⊎◌, inl, inr, starts_with, contains, nat_beq,
  string_eq,
}
use lumic.Error.{ok, ensure, each, >>=-eq-ok, reject_if-eq-ok}
use lumic.Application.{HealthCheck, has_break, option_list, validate_slug, validate_domain}
use lumic.Lifecycle.{
  GenericPhpApplicationSpec, is_between, php_versions, php_components, validate_root,
  validate_repository, validate_unique_tokens, validate_packages, validate_databases,
  validate_processes, validate_health, validate_spec,
}

-- the health check of the application, where there is one, asks for a path of one line with a status
-- between 100 and 599
abbrev pub IsProbe : HealthCheck → Type 0
IsProbe health =
    (health.enabled ≡ false)
    ⊎ ((starts_with health.path "/" ≡ true)
        × (has_break health.path ≡ false)
        × (is_between 100 599 health.expected_status_min ≡ true)
        × (is_between health.expected_status_min 599 health.expected_status_max ≡ true))

probe_of :
    (on slash broken zero low high never : Bool)
    → (on && (not slash || broken || zero || not low || not high || never)) ≡ false
    → (on ≡ false) ⊎ ((slash ≡ true) × (broken ≡ false) × (low ≡ true) × (high ≡ true))
probe_of false slash broken zero low high never h = inl refl
probe_of true true false false true true never h = inr (refl, refl, refl, refl)
probe_of true false broken zero low high never h = absurd cc
probe_of true true true zero low high never h = absurd cc
probe_of true true false true low high never h = absurd cc
probe_of true true false false false high never h = absurd cc
probe_of true true false false true false never h = absurd cc

validate_health-IsProbe : (health : HealthCheck) → validate_health health ≡ ok tt → IsProbe health
unfolding validate_health
validate_health-IsProbe health h =
    probe_of health.enabled (starts_with health.path "/") (has_break health.path)
      (nat_beq health.port 0) (is_between 100 599 health.expected_status_min)
      (is_between health.expected_status_min 599 health.expected_status_max)
      (nat_beq health.timeout_seconds 0) (reject_if-eq-ok _ _ h)

pub validate_spec-IsProbe :
    (spec : GenericPhpApplicationSpec) → validate_spec spec ≡ ok tt → IsProbe spec.health
unfolding validate_spec
validate_spec-IsProbe spec h =
    let (_, _, h1) = >>=-eq-ok (validate_slug "application" spec.id) _ h in
    let (_, _, h2) = >>=-eq-ok (validate_domain spec.domain) _ h1 in
    let (_, _, h3) = >>=-eq-ok (validate_root spec.root) _ h2 in
    let (_, _, h4) = >>=-eq-ok (each validate_repository (option_list spec.repository)) _ h3 in
    let (_, _, h5) = >>=-eq-ok (ensure (contains php_versions spec.php_version) _) _ h4 in
    let (_, _, h6) =
      >>=-eq-ok (validate_unique_tokens "component" spec.components php_components) _ h5 in
    let (_, _, h7) = >>=-eq-ok (validate_packages spec.packages) _ h6 in
    let (_, _, h8) = >>=-eq-ok (validate_databases spec.databases) _ h7 in
    let (_, _, h9) = >>=-eq-ok (validate_processes spec.processes) _ h8 in
    validate_health-IsProbe spec.health h9
