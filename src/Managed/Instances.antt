-- ===== src/Managed/Instances.antt =====
-- Reading a managed service back from the instance that it is kept as.
use lumic.Prelude.{arith, leb-eq-true, ◌≤◌, ◌≡◌, refl, ap, ◌∙◌, subst}
use lumic.Error.{ok, >>=-eq-ok, ok-injective}
use lumic.Resource.{Entries, ResourceOutput}
use lumic.Configuration.{get}
use lumic.Service.{ServiceInstance}
use lumic.Managed.{
  ManagedServiceKind, mysql, postgresql, redis, typesense, meilisearch, valkey, rabbitmq, minio,
  opensearch, memcached, mongodb, clickhouse, prometheus, grafana, loki, gitea, gogs, kind_id,
  DesiredServiceState, ManagedService,
}
use lumic.Managed.Wire.{Wire}
use lumic.Managed.Conversion.{narrow_timestamp}
use lumic.Managed.Services.{
  to_instance_state, to_managed_state, kind_of, service_from_instance, instance_of, migrate_service,
  search_outputs, search_secret_name,
}
use lumic.Managed.RoundTrip.{narrow_timestamp_lem, required_lem, decoded_lem}

kind_of-kind_id : (kind : ManagedServiceKind) → kind_of (kind_id kind) ≡ ok kind
unfolding kind_of
kind_of-kind_id mysql = refl
kind_of-kind_id postgresql = refl
kind_of-kind_id redis = refl
kind_of-kind_id typesense = refl
kind_of-kind_id meilisearch = refl
kind_of-kind_id valkey = refl
kind_of-kind_id rabbitmq = refl
kind_of-kind_id minio = refl
kind_of-kind_id opensearch = refl
kind_of-kind_id memcached = refl
kind_of-kind_id mongodb = refl
kind_of-kind_id clickhouse = refl
kind_of-kind_id prometheus = refl
kind_of-kind_id grafana = refl
kind_of-kind_id loki = refl
kind_of-kind_id gitea = refl
kind_of-kind_id gogs = refl

state_lem : (s : DesiredServiceState) → to_managed_state (to_instance_state s) ≡ s
state_lem DesiredServiceState.running = refl
state_lem DesiredServiceState.stopped = refl

module _ (V : Type 0) ⦃wire : Wire V⦄ where
  instance_of_lem :
      (s : ManagedService) (outputs : Entries (ResourceOutput V))
      → s.configuration.port ≤ 65535
      → service_from_instance (instance_of s s.created_at_unix_ms s.updated_at_unix_ms outputs)
        ≡ ok s
  unfolding service_from_instance get
  instance_of_lem s outputs fits =
      let i : ServiceInstance V = instance_of s s.created_at_unix_ms s.updated_at_unix_ms outputs in
      let metadata = i.platform_metadata in
      rw (kind_of-kind_id s.kind) (
        rw (required_lem i.configuration "bind_address" s.configuration.bind_address refl) (
          rw (wire.as_u64-from_u64 s.configuration.port (omega arith)) (
            rw ((leb-eq-true s.configuration.port 65535).1 fits) (
              rw
                (decoded_lem wire.settings i.configuration "settings" s.configuration.settings refl)
                (rw (required_lem metadata "package" s.«package» refl) (
                  rw (required_lem metadata "systemd_unit" s.systemd_unit refl) (
                    rw
                      (decoded_lem wire.texts metadata "secret_references" s.secret_references refl)
                      (rw
                        (decoded_lem wire.dependencies metadata "legacy_dependencies" s.dependencies
                          refl)
                        (rw (state_lem s.desired_state) refl)))))))))

  -- The instance that a managed service with a 16-bit port is kept as gives that service back, and
  -- its definition is the service's kind.
  pub migrate_service_lem :
      (s : ManagedService) (i : ServiceInstance V)
      → s.configuration.port ≤ 65535
      → migrate_service s ≡ ok i
      → (service_from_instance i ≡ ok s) × (i.id ≡ s.id) × (i.definition_id ≡ kind_id s.kind)
  unfolding migrate_service
  migrate_service_lem s i fits h =
      let (updated, e, h1) = >>=-eq-ok (narrow_timestamp s.updated_at_unix_ms) _ h in
      let (outputs, _, h2) =
        >>=-eq-ok (search_outputs s updated (search_secret_name s.kind)) _ h1 in
      let (created, e', h3) = >>=-eq-ok (narrow_timestamp s.created_at_unix_ms) _ h2 in
      let p =
        ap (λ c. instance_of s c s.updated_at_unix_ms outputs) (narrow_timestamp_lem _ created e')
        ∙ ap (λ u. instance_of s created u outputs) (narrow_timestamp_lem _ updated e)
        ∙ ok-injective h3 in
      subst
        (λ i. (service_from_instance i ≡ ok s) × (i.id ≡ s.id) × (i.definition_id ≡ kind_id s.kind))
        p (instance_of_lem s outputs fits, refl, refl)
