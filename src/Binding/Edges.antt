-- ===== src/Binding/Edges.antt =====
-- The adjacency map of `reject_cycles` holds exactly the bindings' edges.
use lumic.Prelude.{
  ◌≡◌, refl, ◌↔◌, ◌⊎◌, inl, inr, Bool, true, false, List, [], ◌∷◌, ◌++◌, arith, ◌==◌, In, In-append,
  if◌then◌else◌, Bool-cases, PartialEq,
}
use lumic.Resource.{ResourceRef, ref_eq}
use lumic.Binding.{Binding, BindingGraph, Edges, has_key, push_at, insert_key, push_edge, next_of}

-- `a` produces something that `b` consumes
pub record Feeds (graph : BindingGraph) (a b : ResourceRef) : Type 0 where
  pub binding : Binding
  pub listed : In binding graph
  pub from : binding.producer ≡ a
  pub to : binding.consumer ≡ b

-- A chain of bindings, of one or more.
pub data Chain (graph : BindingGraph) (a : ResourceRef) : ResourceRef → Type 0 where
  one : {b : ResourceRef} → Feeds graph a b → Chain graph a b
  more : {b c : ResourceRef} → Chain graph a b → Feeds graph b c → Chain graph a c

module _ {K : Type 0} ⦃e : PartialEq K⦄ where
  next_of-push_at :
      (k v n : K) (edges : Edges K)
      → has_key k edges ≡ true
      → next_of (push_at k v edges) n
        ≡ (if k == n then next_of edges n ++ v ∷ [] else next_of edges n)
  unfolding next_of
  next_of-push_at k v n [] h = cc
  next_of-push_at k v n ((j, vs) ∷ edges) h =
      ground (arith, e.agrees j k, e.agrees j n, e.agrees k n, next_of-push_at k v n edges)

  next_of_of_missing : (k : K) (edges : Edges K) → has_key k edges ≡ false → next_of edges k ≡ []
  unfolding next_of
  next_of_of_missing k [] h = refl
  next_of_of_missing k ((j, vs) ∷ edges) h = ground (arith, next_of_of_missing k edges)

  module _ (lt : K → K → Bool) where
    next_of-insert_key :
        (k n : K) (vs : List K) (edges : Edges K)
        → has_key k edges ≡ false
        → next_of (insert_key lt k vs edges) n ≡ (if k == n then vs else next_of edges n)
    unfolding next_of
    next_of-insert_key k n vs [] h = refl
    next_of-insert_key k n vs ((j, ws) ∷ edges) h =
        ground (arith, e.agrees j k, e.agrees j n, e.agrees k n, next_of-insert_key k n vs edges)

    next_of-push_edge :
        (k v n : K) (edges : Edges K)
        → next_of (push_edge lt k v edges) n
          ≡ (if k == n then next_of edges n ++ v ∷ [] else next_of edges n)
    unfolding push_edge
    next_of-push_edge k v n edges = elim (Bool-cases (has_key k edges)) [
      | inl old ↦ rw old (next_of-push_at k v n edges old)
      | inr new ↦
          let missing = next_of_of_missing k edges new in
          rw new (ground (arith, e.agrees k n, next_of-insert_key k n (v ∷ []) edges new))
    ]

    -- membership of a target after one more edge
    pub In-push_edge :
        (k v n c : K) (edges : Edges K)
        → In c (next_of (push_edge lt k v edges) n) ↔ (In c (next_of edges n) ⊎ ((k ≡ n) × (c ≡ v)))
    In-push_edge k v n c edges =
        rw (next_of-push_edge k v n edges)
          (ground (arith, e.agrees k n, In-append c (next_of edges n) (v ∷ [])))
