-- ===== src/Witnesses/Bindings.antt =====
-- Bindings and the stored state at concrete inputs.
use lumic.Prelude.{◌≡◌, refl, ◌↔◌, ◌≢◌, true, false, [], string_eq, if◌then◌else◌}
use lumic.Error.{ok, err, invalid}
use lumic.Json.{Sample, sample_json}
use lumic.Resource.{
  ResourceRef, validate_resource_id, is_resource_id, validate_output, validate_output_name,
  validate_record, validate_ref, ref_beq, kind_beq, ref_lt,
}
use lumic.Service.{validate_service, service_ref}
use lumic.Binding.{
  BindingGraph, validate_graph, reject_cycles, validate_from, validate_binding, search_all,
  edges_from, push_edge, any_cycle, has_cycle, next_of,
}
use lumic.Binding.Edges.{Chain}
use lumic.Binding.Acyclic.{IsAcyclic, reject_cycles_iff, reject_cycles_refuses}
use lumic.Binding.Valid
use lumic.Binding.Valid.{validate_graph_iff, assert_removable_iff}
use lumic.Framework.{
  FrameworkState, validate_state, check_services, check_resources, check_bindings, check_binding,
  has_output, check_executions,
}
use lumic.Framework.Valid as StateValid
use lumic.Framework.Valid.{validate_state_iff}
use lumic.Framework.Store.{
  stored, BindingMutation, load_file, lock_bindings, save_unless, bind, unbind,
}
use lumic.Framework.Store.Effects.{load_file-stored, save-ok, bind-added}
use lumic.Framework.Store.Laws.{without, removes, unbind_total, bind-unbind}
use lumic.Framework.Store.Binds.{bind_idempotent, bind-IsValid}
use lumic.Witnesses.{to_shop, one_way, both_ways, with_bindings, holding}

both_ways_refused : reject_cycles both_ways ≡ err (invalid "bindings" "dependency cycle detected")
unfolding reject_cycles search_all edges_from push_edge ref_beq kind_beq ref_lt any_cycle has_cycle
    next_of
both_ways_refused = refl

one_way_accepted : reject_cycles one_way ≡ ok tt
unfolding reject_cycles search_all edges_from push_edge ref_beq kind_beq ref_lt any_cycle has_cycle
    next_of
one_way_accepted = refl

reject_cycles_iff_example : (reject_cycles both_ways ≡ ok tt) ↔ IsAcyclic both_ways
reject_cycles_iff_example = reject_cycles_iff both_ways

both_ways_not_accepted : reject_cycles both_ways ≢ ok tt
both_ways_not_accepted h = cc (both_ways_refused, h)

reject_cycles_refuses_example :
    (reject_cycles both_ways ≡ err (invalid "bindings" "dependency cycle detected"))
    × ((n : ResourceRef) × Chain both_ways n n)
reject_cycles_refuses_example = reject_cycles_refuses both_ways both_ways_not_accepted

validate_graph_iff_example : (validate_graph one_way ≡ ok tt) ↔ Valid.IsValid one_way
validate_graph_iff_example = validate_graph_iff one_way

one_way_valid : validate_state (with_bindings one_way) ≡ ok tt
unfolding validate_state check_services validate_service validate_resource_id is_resource_id
    validate_output validate_output_name service_ref check_resources validate_record validate_ref
    validate_graph validate_from validate_binding ref_beq kind_beq reject_cycles search_all
    edges_from push_edge ref_lt any_cycle has_cycle next_of check_bindings check_binding has_output
    check_executions
one_way_valid = refl

none_valid : validate_state (with_bindings []) ≡ ok tt
unfolding validate_state check_services validate_service validate_resource_id is_resource_id
    validate_output validate_output_name service_ref check_resources validate_record validate_ref
    validate_graph validate_from validate_binding ref_beq kind_beq reject_cycles search_all
    edges_from push_edge ref_lt any_cycle has_cycle next_of check_bindings check_binding has_output
    check_executions
none_valid = refl

validate_state_iff_example :
    (validate_state (with_bindings one_way) ≡ ok tt) ↔ StateValid.IsValid (with_bindings one_way)
validate_state_iff_example = validate_state_iff (with_bindings one_way)

one_way_loaded : load_file (stored (with_bindings one_way)) ≡ ok (with_bindings one_way)
one_way_loaded = load_file-stored (with_bindings one_way) one_way_valid

none_loaded : load_file (stored (with_bindings [])) ≡ ok (with_bindings [])
none_loaded = load_file-stored (with_bindings []) none_valid

locked : (bindings : BindingGraph) → lock_bindings (holding bindings) ≡ ok tt
unfolding lock_bindings lumic.Resource.new_ref validate_ref validate_resource_id
    lumic.Lock.try_acquire lumic.Lock.acquire_key lumic.Lock.lock_key
locked bindings = refl

to_shop_sound : validate_binding to_shop ≡ ok tt
unfolding validate_binding validate_resource_id validate_ref validate_output_name ref_beq
to_shop_sound = refl

abbrev bound_once : BindingMutation
bound_once = record { binding = to_shop; changed = true; dry_run = false }

once : bind (holding []) to_shop false ≡ ok (bound_once, holding one_way)
unfolding save_unless
once =
    bind-added (holding []) (holding one_way) to_shop false (with_bindings []) to_shop_sound
      (locked []) none_loaded refl one_way_valid
      (save-ok (holding []) (with_bindings one_way) one_way_valid refl refl refl)

unbind_total_example :
    (unbind (holding one_way) "db" false
      ≡ ok (
        record {
          binding_id = "db";
          changed = removes (with_bindings one_way) "db";
          dry_run = false;
        },
        if removes (with_bindings one_way) "db"
            then record (holding one_way) { file = stored (without (with_bindings one_way) "db") }
            else holding one_way,
      ))
    × (validate_state (without (with_bindings one_way) "db") ≡ ok tt)
unbind_total_example =
    unbind_total (holding one_way) (with_bindings one_way) "db" one_way_loaded (locked one_way) refl
      refl refl

bind-unbind_example :
    unbind (holding one_way) "db" false
    ≡ ok (
      record { binding_id = "db"; changed = true; dry_run = false },
      record (holding []) { file = stored (with_bindings []) },
    )
bind-unbind_example =
    bind-unbind (holding []) (holding one_way) to_shop bound_once (with_bindings []) none_loaded
      once refl

bind_idempotent_example :
    bind (holding one_way) to_shop false
    ≡ ok (record { binding = to_shop; changed = false; dry_run = false }, holding one_way)
bind_idempotent_example =
    bind_idempotent (holding []) (holding one_way) to_shop bound_once once refl

bind-IsValid_example :
    (state : FrameworkState Sample) × (load_file (stored (with_bindings one_way)) ≡ ok state)
    × StateValid.IsValid state
bind-IsValid_example = bind-IsValid (holding []) (holding one_way) to_shop bound_once once
