-- ===== src/Binding/Valid.antt =====
-- What `BindingGraph::validate` accepts, and what it keeps when bindings are removed.
use mathlib.Core.WellFounded.{Acc}
use lumic.Prelude.{
  ◌≡◌, refl, ap, ◌↔◌, inl, inr, Bool, true, List, [], ◌∷◌, String, ◌==◌, string_eq, pair_eq, In,
  All, Unseen, Unseen-iff, Distinct, contains, not-contains_iff, keep, map, In-keep, Bool-cases,
  is_empty,
}
use lumic.Error.{ok, reject_if, >>=-eq-ok, reject_if-eq-ok, ensure-eq-ok}
use lumic.Resource.{ResourceRef, ref_eq, ref_beq_iff}
use lumic.Binding.{
  Binding, BindingGraph, validate_binding, validate_from, validate_graph, consumers_of,
  assert_removable,
}
use lumic.Binding.Edges.{Feeds}
use lumic.Binding.Acyclic.{IsAcyclic, reject_cycles_iff}

abbrev input_of : Binding → ResourceRef × String
input_of b = (b.consumer, b.input)

abbrev id_of : Binding → String
id_of b = b.id

abbrev pub IsSound : Binding → Type 0
IsSound b = validate_binding b ≡ ok tt

-- a graph in which every binding is valid, no id and no consumer's input occurs twice, and nothing
-- depends on itself
pub record IsValid (graph : BindingGraph) : Type 0 where
  pub sound : All IsSound graph
  pub ids : Distinct (map id_of graph)
  pub inputs : Distinct (map input_of graph)
  pub acyclic : IsAcyclic graph

abbrev Accepts : List String → List (ResourceRef × String) → BindingGraph → Type 0
Accepts ids inputs graph =
    All IsSound graph × Unseen ids (map id_of graph) × Unseen inputs (map input_of graph)

validate_from-Accepts :
    (ids : List String) (inputs : List (ResourceRef × String)) (graph : BindingGraph)
    → validate_from ids inputs graph ≡ ok tt
    → Accepts ids inputs graph
unfolding validate_from
validate_from-Accepts ids inputs [] h = (tt, tt, tt)
validate_from-Accepts ids inputs (b ∷ graph) h =
    let (_, sound, h₁) = >>=-eq-ok (validate_binding b) _ h in
    let (_, new_id, h₂) = >>=-eq-ok (reject_if (contains ids b.id) _) _ h₁ in
    let (_, new_input, h₃) = >>=-eq-ok (reject_if (contains inputs (input_of b)) _) _ h₂ in
    let (s, u, v) = validate_from-Accepts (b.id ∷ ids) (input_of b ∷ inputs) graph h₃ in
    (
      (sound, s),
      ((not-contains_iff ids b.id).0 (reject_if-eq-ok _ _ new_id), u),
      ((not-contains_iff inputs (input_of b)).0 (reject_if-eq-ok _ _ new_input), v),
    )

Accepts-validate_from :
    (ids : List String) (inputs : List (ResourceRef × String)) (graph : BindingGraph)
    → Accepts ids inputs graph
    → validate_from ids inputs graph ≡ ok tt
unfolding validate_from
Accepts-validate_from ids inputs [] a = refl
Accepts-validate_from ids inputs (b ∷ graph) ((sound, s), (new_id, u), (new_input, v)) = rw sound (
    rw ((not-contains_iff ids b.id).1 new_id) (
      rw ((not-contains_iff inputs (input_of b)).1 new_input)
        (Accepts-validate_from (b.id ∷ ids) (input_of b ∷ inputs) graph (s, u, v))))

-- `BindingGraph::validate` accepts exactly the graphs in which every binding is valid, no id and no
-- input of a consumer occurs twice, and no chain of bindings goes on for ever.
pub validate_graph_iff : (graph : BindingGraph) → (validate_graph graph ≡ ok tt) ↔ IsValid graph
unfolding validate_graph
validate_graph_iff graph = (
  λ h.
      let (_, listed, cycles) = >>=-eq-ok (validate_from [] [] graph) _ h in
      let (s, u, v) = validate_from-Accepts [] [] graph listed in
      record {
        sound = s;
        ids = (Unseen-iff _).0 u;
        inputs = (Unseen-iff _).0 v;
        acyclic = (reject_cycles_iff graph).0 cycles;
      },
  λ v.
      rw
        (Accepts-validate_from [] [] graph
          (v.sound, (Unseen-iff _).1 v.ids, (Unseen-iff _).1 v.inputs))
        ((reject_cycles_iff graph).1 v.acyclic),
)

module _ (p : Binding → Bool) where
  pub All-keep : (P : Binding → Type 0) (graph : BindingGraph) → All P graph → All P (keep p graph)
  All-keep P [] a = tt
  All-keep P (b ∷ graph) (x, a) = elim (Bool-cases (p b)) [
    | inl e ↦ rw e (x, All-keep P graph a)
    | inr e ↦ rw e (All-keep P graph a)
  ]

  In-map-keep :
      {B : Type 0} (f : Binding → B) (y : B) (graph : BindingGraph)
      → In y (map f (keep p graph))
      → In y (map f graph)
  In-map-keep f y [] i = i
  In-map-keep f y (b ∷ graph) i = elim (Bool-cases (p b)) [
    | inl e ↦ elim (rw e at i) [ inl q ↦ inl q | inr j ↦ inr (In-map-keep f y graph j) ]
    | inr e ↦ inr (In-map-keep f y graph (rw e at i))
  ]

  Distinct-keep :
      {B : Type 0} (f : Binding → B) (graph : BindingGraph)
      → Distinct (map f graph)
      → Distinct (map f (keep p graph))
  Distinct-keep f [] d = tt
  Distinct-keep f (b ∷ graph) (fresh, d) = elim (Bool-cases (p b)) [
    | inl e ↦ rw e (λ i. fresh (In-map-keep f (f b) graph i), Distinct-keep f graph d)
    | inr e ↦ rw e (Distinct-keep f graph d)
  ]

  Acc-keep :
      (graph : BindingGraph) (n : ResourceRef)
      → Acc (λ b a. Feeds graph a b) n
      → Acc (λ b a. Feeds (keep p graph) a b) n
  Acc-keep graph n (Acc.intro _ f) = Acc.intro n (λ b h. Acc-keep graph b (
      f b (record {
        binding = h.binding;
        listed = ((In-keep p h.binding graph).0 h.listed).0;
        from = h.from;
        to = h.to;
      })))

  -- Whatever bindings are removed from a valid graph, the rest is valid.
  pub keep-IsValid : (graph : BindingGraph) → IsValid graph → IsValid (keep p graph)
  keep-IsValid graph v = record {
    sound = All-keep IsSound graph v.sound;
    ids = Distinct-keep id_of graph v.ids;
    inputs = Distinct-keep input_of graph v.inputs;
    acyclic = λ n. Acc-keep graph n (v.acyclic n);
  }

is_empty-map {ℓ κ} :
    {A : Type ℓ} {B : Type κ} (f : A → B) (xs : List A) → is_empty (map f xs) ≡ is_empty xs
is_empty-map f [] = refl
is_empty-map f (x ∷ xs) = refl

is_empty-keep :
    (r : ResourceRef) (graph : BindingGraph)
    → (is_empty (keep (λ b. b.producer == r) graph) ≡ true)
      ↔ ((c : ResourceRef) → ¬ Feeds graph r c)
is_empty-keep r [] = (λ h c f. f.listed, λ h. refl)
is_empty-keep r (b ∷ graph) = elim (Bool-cases (b.producer == r)) [
  | inl e ↦ rw e (
    λ h. absurd (cc),
    λ h. absurd (
        h b.consumer
          (record { binding = b; listed = inl refl; from = (ref_beq_iff _ _).0 e; to = refl })),
  )
  | inr e ↦
      let (to, from) = is_empty-keep r graph in
      rw e (
        λ h c f. elim f.listed [
          | inl q ↦
              cc (e, (ref_beq_iff b.producer r).1 (cc (ap (λ (x : Binding). x.producer) q, f.from)))
          | inr i ↦ to h c (record { binding = f.binding; listed = i; from = f.from; to = f.to })
        ],
        λ h. from (λ c f.
            h c (record { binding = f.binding; listed = inr f.listed; from = f.from; to = f.to })),
      )
]

-- A resource may be removed exactly when no binding of the graph leads from its outputs to a
-- consumer.
pub assert_removable_iff :
    (graph : BindingGraph) (r : ResourceRef)
    → (assert_removable graph r ≡ ok tt) ↔ ((c : ResourceRef) → ¬ Feeds graph r c)
unfolding assert_removable consumers_of
assert_removable_iff graph r =
    let (to, from) = is_empty-keep r graph in
    let same = is_empty-map (λ (b : Binding). b.consumer) (keep (λ b. b.producer == r) graph) in
    (λ h. to (rw same at (ensure-eq-ok _ _ h)), λ h. rw (same, from h))
