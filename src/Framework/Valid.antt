-- ===== src/Framework/Valid.antt =====
-- Which states `FrameworkState::validate` accepts.
use lumic.Prelude.{
  ◌≡◌, ◌↔◌, ◌⊎◌, inl, inr, true, not, List, [], In, All, All-imp, Unseen-iff, Unseen-avoids,
  Unseen-Distinct, Distinct-Unseen, Distinct, not-eq-false, map, nat_beq,
}
use lumic.Error.{ok, reject_if, >>=-eq-ok, reject_if-eq-ok}
use lumic.Json.{Json}
use lumic.Resource.{ResourceRef, validate_record}
use lumic.Binding.{Binding, validate_graph}
use lumic.Binding.Valid
use lumic.Binding.Valid.{validate_graph_iff}
use lumic.Service.{validate_service, service_ref}
use lumic.Framework.{
  FrameworkState, schema_version, has_output, check_services, check_resources, check_bindings,
  validate_state,
}
use lumic.Framework.Loops.{
  record_ref, execution_id, Joins, check_services-Pass, Pass-check_services, check_resources-Pass,
  Pass-check_resources, check_bindings_iff, check_executions_iff,
}

-- a binding joins resources of the state, and its producer has the output
pub record IsBound {V : Type 0} (state : FrameworkState V) (b : Binding) : Type 0 where
  pub producer :
      In b.producer (map service_ref state.services)
      ⊎ In b.producer (map record_ref state.resources)
  pub consumer :
      In b.consumer (map service_ref state.services)
      ⊎ In b.consumer (map record_ref state.resources)
  pub output : has_output state.services state.resources b ≡ true

pub record IsValid {V : Type 0} ⦃json : Json V⦄ (state : FrameworkState V) : Type 0 where
  pub version : nat_beq state.version schema_version ≡ true
  pub services : All (λ s. validate_service s ≡ ok tt) state.services
  pub resources : All (λ r. validate_record r ≡ ok tt) state.resources
  pub service_names : Distinct (map service_ref state.services)
  pub resource_names : Distinct (map record_ref state.resources)
  pub apart :
      (r : ResourceRef)
      → In r (map service_ref state.services)
      → ¬ In r (map record_ref state.resources)
  pub bindings : Valid.IsValid state.bindings
  pub bound : All (IsBound state) state.bindings
  pub executions : Distinct (map execution_id state.pipeline_executions)

module _ {V : Type 0} ⦃json : Json V⦄ (state : FrameworkState V) where
  abbrev service_names : List ResourceRef
  service_names = map service_ref state.services

  abbrev resource_names : List ResourceRef
  resource_names = map record_ref state.resources

  -- what both loops have gathered
  abbrev Known : List ResourceRef → Type 0
  Known refs = (r : ResourceRef) → In r refs ↔ (In r service_names ⊎ In r resource_names)

  Known-loops :
      (ss refs : List ResourceRef)
      → check_services [] state.services ≡ ok ss
      → check_resources ss state.resources ≡ ok refs
      → Known refs
  Known-loops ss refs hs hr r =
      let (_, _, first) = check_services-Pass [] ss state.services hs in
      let (_, _, second) = check_resources-Pass ss refs state.resources hr in
      (
        λ i. elim ((second r).0 i) [
          | inl j ↦ elim ((first r).0 j) [ inl k ↦ absurd k | inr k ↦ inl k ]
          | inr j ↦ inr j
        ],
        λ i. elim i [
          | inl j ↦ (second r).1 (inl ((first r).1 (inr j)))
          | inr j ↦ (second r).1 (inr j)
        ],
      )

  validate_state-IsValid : validate_state state ≡ ok tt → IsValid state
  unfolding validate_state
  validate_state-IsValid h =
      let (_, version, h₁) =
        >>=-eq-ok (reject_if (not (nat_beq state.version schema_version)) _) _ h in
      let (ss, hs, h₂) = >>=-eq-ok (check_services [] state.services) _ h₁ in
      let (refs, hr, h₃) = >>=-eq-ok (check_resources ss state.resources) _ h₂ in
      let (_, graph, h₄) = >>=-eq-ok (validate_graph state.bindings) _ h₃ in
      let (_, bound, executions) =
        >>=-eq-ok (check_bindings state.services state.resources refs state.bindings) _ h₄ in
      let (sound, unseen, first) = check_services-Pass [] ss state.services hs in
      let (sound_resources, unseen_resources, _) =
        check_resources-Pass ss refs state.resources hr in
      let known = Known-loops ss refs hs hr in
      record {
        version = not-eq-false _ (reject_if-eq-ok _ _ version);
        services = sound;
        resources = sound_resources;
        service_names = (Unseen-iff _).0 unseen;
        resource_names = Unseen-Distinct ss _ unseen_resources;
        apart = λ r i. Unseen-avoids ss _ r unseen_resources ((first r).1 (inr i));
        bindings = (validate_graph_iff _).0 graph;
        bound =
            All-imp (Joins state.services state.resources refs) (IsBound state)
              (λ b j. record {
                producer = (known b.producer).0 j.0;
                consumer = (known b.consumer).0 j.1;
                output = j.2;
              })
              state.bindings
              ((check_bindings_iff state.services state.resources refs state.bindings).0 bound);
        executions =
            (Unseen-iff _).0 ((check_executions_iff [] state.pipeline_executions).0 executions);
      }

  IsValid-validate_state : IsValid state → validate_state state ≡ ok tt
  unfolding validate_state
  IsValid-validate_state v =
      let (ss, hs) =
        Pass-check_services [] state.services v.services ((Unseen-iff _).1 v.service_names) in
      let (_, _, first) = check_services-Pass [] ss state.services hs in
      let apart : (r : ResourceRef) → In r ss → ¬ In r resource_names =
        λ r i. elim ((first r).0 i) [ inl j ↦ absurd j | inr j ↦ v.apart r j ] in
      let (refs, hr) =
        Pass-check_resources ss state.resources v.resources
          (Distinct-Unseen ss resource_names v.resource_names apart) in
      let known = Known-loops ss refs hs hr in
      let bound = (check_bindings_iff state.services state.resources refs state.bindings).1 (
        All-imp (IsBound state) (Joins state.services state.resources refs)
          (λ b j. ((known b.producer).1 j.producer, (known b.consumer).1 j.consumer, j.output))
          state.bindings v.bound) in
      rw (v.version) (
        rw hs (
          rw hr (
            rw ((validate_graph_iff state.bindings).1 v.bindings) (
              rw bound (
                (check_executions_iff [] state.pipeline_executions).1
                  ((Unseen-iff _).1 v.executions))))))

-- `FrameworkState::validate` accepts exactly the states of the current schema version in which
-- every service and every record is valid, no two of them have one reference, the graph of the
-- bindings is valid, every binding joins resources of the state and names an output of its
-- producer, and no execution id occurs twice.
pub validate_state_iff :
    {V : Type 0} ⦃json : Json V⦄ (state : FrameworkState V)
    → (validate_state state ≡ ok tt) ↔ IsValid state
validate_state_iff state = (validate_state-IsValid state, IsValid-validate_state state)
