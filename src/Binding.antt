-- ===== src/Binding.antt =====
-- crates/lumic-core/src/binding.rs: bindings from resource outputs to consumer inputs, and the
-- depth-first search that refuses dependency cycles.
pub mod Edges
pub mod Search
pub mod Cycles
pub mod Fuel
pub mod Acyclic
pub mod Valid
use lumic.Prelude.{
  ℕ, zero, suc, String, Bool, true, false, not, ◌&&◌, ◌||◌, Option, none, some, List, [], ◌∷◌, ◌++◌,
  PartialEq, ◌==◌, string_eq, pair_eq, keep, map, is_empty, any, contains, remove, length, ◌<>◌,
  decimal, if◌then◌else◌,
}
use lumic.Error.{Check, ok, err, internal, invalid, ensure, reject_if, ◌>>=◌, ◌>>◌}
use lumic.Resource.{
  ResourceRef, ref_eq, ref_lt, validate_resource_id, validate_output_name, validate_ref,
}

pub record Binding : Type 0 where
  pub id : String
  pub producer : ResourceRef
  pub output : String
  pub consumer : ResourceRef
  pub input : String
  pub created_at_unix_ms : ℕ

unfoldable pub validate_binding : Binding → Check
validate_binding b = do
  validate_resource_id "binding.id" b.id
  validate_ref b.producer
  validate_ref b.consumer
  validate_output_name "binding.output" b.output
  validate_output_name "binding.input" b.input
  reject_if (b.producer == b.consumer)
      (invalid "binding.consumer" "cannot bind a resource to itself")

abbrev pub BindingGraph : Type 0
BindingGraph = List Binding

unfoldable pub consumers_of : BindingGraph → ResourceRef → List ResourceRef
consumers_of graph resource = map (λ b. b.consumer) (keep (λ b. b.producer == resource) graph)

unfoldable pub assert_removable : BindingGraph → ResourceRef → Check
unfolding consumers_of
assert_removable graph resource = ensure (is_empty (consumers_of graph resource)) (
    invalid "resource.id" (
      "resource has "
      <> (decimal (length (consumers_of graph resource)) <> " dependent binding(s)")))

-- `BTreeMap<K, Vec<K>>`: its entries in the order of the keys
abbrev pub Edges : Type 0 → Type 0
Edges K = List (K × List K)

abbrev pub keys_of : {K : Type 0} → Edges K → List K
keys_of edges = map (λ entry. entry.0) edges

-- The map and the search are written over any type of nodes with a test of equality; the program
-- has them at `&ResourceRef`.
module _ {K : Type 0} ⦃e : PartialEq K⦄ where
  abbrev pub has_key : K → Edges K → Bool
  has_key k edges = any (λ entry. entry.0 == k) edges

  abbrev pub push_at : K → K → Edges K → Edges K
  push_at k v [] = []
  push_at k v ((j, vs) ∷ edges) =
      if j == k then (j, vs ++ v ∷ []) ∷ edges else (j, vs) ∷ push_at k v edges

  -- `edges.get(node)`, where a missing key has nothing to visit
  unfoldable pub next_of : Edges K → K → List K
  next_of [] node = []
  next_of ((j, vs) ∷ edges) node = if j == node then vs else next_of edges node

module _ {K : Type 0} (lt : K → K → Bool) where
  abbrev pub insert_key : K → List K → Edges K → Edges K
  insert_key k vs [] = (k, vs) ∷ []
  insert_key k vs ((j, ws) ∷ edges) =
      if lt k j then (k, vs) ∷ (j, ws) ∷ edges else (j, ws) ∷ insert_key k vs edges

  -- `edges.entry(k).or_default().push(v)`
  unfoldable pub push_edge : ⦃e : PartialEq K⦄ → K → K → Edges K → Edges K
  push_edge ⦃e⦄ k v edges =
      if has_key k edges then push_at k v edges else insert_key k (v ∷ []) edges

unfoldable pub edges_from : Edges ResourceRef → BindingGraph → Edges ResourceRef
edges_from edges [] = edges
edges_from edges (b ∷ graph) = edges_from (push_edge ref_lt b.producer b.consumer edges) graph

-- the two mutable sets
pub record Marks (K : Type 0) : Type 0 where
  pub visiting : List K
  pub visited : List K

-- `none` means that the fuel ran out
abbrev pub Visit : Type 0 → Type 0
Visit K = Marks K → Option (Bool × Marks K)

-- `iter().any(...)` with the sets passed along; also the loop of `reject_cycles`
unfoldable pub any_cycle : {K : Type 0} → (K → Visit K) → List K → Visit K
any_cycle visit [] m = some (false, m)
any_cycle visit (node ∷ nodes) m = elim (visit node m) [
  | none ↦ none
  | some (true, m') ↦ some (true, m')
  | some (false, m') ↦ any_cycle visit nodes m'
]

module _ {K : Type 0} ⦃e : PartialEq K⦄ where
  -- what `has_cycle` does after its children
  abbrev pub leave : K → Option (Bool × Marks K) → Option (Bool × Marks K)
  leave node none = none
  leave node (some (true, m)) = some (true, m)
  leave node (some (false, m)) =
      some (false, record { visiting = remove node m.visiting; visited = node ∷ m.visited })

  unfoldable pub has_cycle : ℕ → Edges K → K → Visit K
  has_cycle zero edges node m = none
  has_cycle (suc fuel) edges node m =
      if contains m.visited node
      then some (false, m)
      else if contains m.visiting node
      then some (true, m)
      else leave node (
          any_cycle (has_cycle fuel edges) (next_of edges node)
            (record m { visiting = node ∷ m.visiting }))

abbrev pub verdict : Option (Bool × Marks ResourceRef) → Check
verdict none = err (internal "out of fuel")
verdict (some (true, _)) = err (invalid "bindings" "dependency cycle detected")
verdict (some (false, _)) = ok tt

-- Each nested call marks one more key, so one more than the keys is enough.
unfoldable pub search_all : Edges ResourceRef → Option (Bool × Marks ResourceRef)
search_all edges =
    any_cycle (has_cycle (suc (length (keys_of edges))) edges) (keys_of edges)
      (record { visiting = []; visited = [] })

unfoldable pub reject_cycles : BindingGraph → Check
unfolding search_all
reject_cycles graph = verdict (search_all (edges_from [] graph))

-- the loop of `validate`, over the two sets `ids` and `inputs`
unfoldable pub validate_from : List String → List (ResourceRef × String) → BindingGraph → Check
validate_from ids inputs [] = ok tt
validate_from ids inputs (b ∷ graph) = do
  validate_binding b
  reject_if (contains ids b.id) (invalid "binding.id" "duplicate binding id")
  reject_if (contains inputs (b.consumer, b.input))
      (invalid "binding.input" "a consumer input may have only one producer")
  validate_from (b.id ∷ ids) ((b.consumer, b.input) ∷ inputs) graph

unfoldable pub validate_graph : BindingGraph → Check
validate_graph graph = do validate_from [] [] graph; reject_cycles graph
