-- ===== src/Binding/Acyclic.antt =====
-- `reject_cycles` decides whether the bindings hold a cycle.
use mathlib.Core.WellFounded.{Acc}
use lumic.Prelude.{
  ◌≡◌, refl, sym, ap, subst, ◌↔◌, ◌⊎◌, inl, inr, Bool, true, false, Option, none, some, [], ◌∷◌,
  ◌≢◌, In,
}
use lumic.Error.{Check-cases, ok, err, invalid}
use lumic.Resource.{ResourceRef, ref_eq, ref_lt}
use lumic.Binding.{
  Binding, BindingGraph, Edges, keys_of, next_of, push_edge, edges_from, Marks, has_cycle, verdict,
  search_all, reject_cycles,
}
use lumic.Binding.Edges.{Feeds, Chain, one, more, In-push_edge}
use lumic.Binding.Search
use lumic.Binding.Search.{Visit-cases, Walk, Grounded, has_cycle-Clean, any_cycle-Clean}
use lumic.Binding.Cycles.{any_cycle-Cyclic, has_cycle-Cyclic}
use lumic.Binding.Fuel.{no_edges, top-Ends}

-- No chain of bindings goes on for ever, so none comes back to where it began.
abbrev pub IsAcyclic : BindingGraph → Type 0
IsAcyclic graph = (n : ResourceRef) → Acc (λ b a. Feeds graph a b) n

Feeds-tail :
    {b : Binding} {graph : BindingGraph} {n c : ResourceRef}
    → Feeds graph n c
    → Feeds (b ∷ graph) n c
Feeds-tail f = record { binding = f.binding; listed = inr f.listed; from = f.from; to = f.to }

Feeds-cases :
    (b : Binding) (graph : BindingGraph) (n c : ResourceRef)
    → Feeds (b ∷ graph) n c
    → ((b.producer ≡ n) × (c ≡ b.consumer)) ⊎ Feeds graph n c
Feeds-cases b graph n c f = elim (f.listed) [
  | inl p ↦ inl (
    cc (ap (λ (x : Binding). x.producer) p, f.from),
    cc (ap (λ (x : Binding). x.consumer) p, f.to),
  )
  | inr i ↦ inr (record { binding = f.binding; listed = i; from = f.from; to = f.to })
]

In-edges_from :
    (edges : Edges ResourceRef) (graph : BindingGraph) (n c : ResourceRef)
    → In c (next_of (edges_from edges graph) n) ↔ (In c (next_of edges n) ⊎ Feeds graph n c)
unfolding edges_from
In-edges_from edges [] n c = (inl, λ h. elim h [ inl i ↦ i | inr f ↦ absurd f.listed ])
In-edges_from edges (b ∷ graph) n c =
    let rest = In-edges_from (push_edge ref_lt b.producer b.consumer edges) graph n c in
    let pushed = In-push_edge ref_lt b.producer b.consumer n c edges in
    (
      λ i. elim (rest.0 i) [
        | inl j ↦ elim (pushed.0 j) [
          | inl k ↦ inl k
          | inr p ↦ inr (record { binding = b; listed = inl refl; from = p.0; to = sym p.1 })
        ]
        | inr f ↦ inr (Feeds-tail f)
      ],
      λ h. elim h [
        | inl k ↦ rest.1 (inl (pushed.1 (inl k)))
        | inr f ↦ elim (Feeds-cases b graph n c f) [
          | inl p ↦ rest.1 (inl (pushed.1 (inr p)))
          | inr g ↦ rest.1 (inr g)
        ]
      ],
    )

In-edges :
    (graph : BindingGraph) (n c : ResourceRef)
    → In c (next_of (edges_from [] graph) n) ↔ Feeds graph n c
unfolding next_of
In-edges graph n c =
    let both = In-edges_from [] graph n c in
    (λ i. elim (both.0 i) [ inl j ↦ absurd j | inr f ↦ f ], λ f. both.1 (inr f))

Walk-Chain :
    (graph : BindingGraph) {a b : ResourceRef} → Walk (edges_from [] graph) a b → Chain graph a b
Walk-Chain graph (Search.Walk.one i) = one ((In-edges graph _ _).0 i)
Walk-Chain graph (Search.Walk.more w i) = more (Walk-Chain graph w) ((In-edges graph _ _).0 i)

Acc_of_Grounded :
    (graph : BindingGraph) (n : ResourceRef)
    → Grounded (edges_from [] graph) n
    → Acc (λ b a. Feeds graph a b) n
Acc_of_Grounded graph n (Acc.intro _ f) =
    Acc.intro n (λ b h. Acc_of_Grounded graph b (f b ((In-edges graph n b).1 h)))

-- a chain taken apart at its first binding
Chain-first :
    {graph : BindingGraph} {a c : ResourceRef}
    → Chain graph a c
    → (b : ResourceRef) × Feeds graph a b × ((b ≡ c) ⊎ Chain graph b c)
Chain-first {graph} (one {b} f) = (b, f, inl refl)
Chain-first {graph} (more {b = m} {c} w f) =
    let (b, g, rest) = Chain-first w in
    (
      b,
      g,
      inr (elim rest [ inl p ↦ one (subst (λ x. Feeds graph x c) (sym p) f) | inr v ↦ more v f ]),
    )

pub no_cycle_of_Acc :
    (graph : BindingGraph) (n : ResourceRef) → Acc (λ b a. Feeds graph a b) n → ¬ Chain graph n n
no_cycle_of_Acc graph n (Acc.intro _ f) w =
    let (b, g, rest) = Chain-first w in
    elim rest [
      | inl p ↦ no_cycle_of_Acc graph b (f b g) (subst (λ x. Chain graph x x) (sym p) w)
      | inr v ↦ no_cycle_of_Acc graph b (f b g) (more v g)
    ]

verdict-ok :
    (o : Option (Bool × Marks ResourceRef))
    → verdict o ≡ ok tt
    → (m : Marks ResourceRef) × (o ≡ some (false, m))
verdict-ok none h = absurd (cc)
verdict-ok (some (true, m)) h = absurd (cc)
verdict-ok (some (false, m)) h = (m, refl)

-- Where `reject_cycles` accepts, no chain of bindings goes on for ever.
pub reject_cycles-IsAcyclic : (graph : BindingGraph) → reject_cycles graph ≡ ok tt → IsAcyclic graph
unfolding reject_cycles
reject_cycles-IsAcyclic graph h n =
    let edges = edges_from [] graph in
    let (m, found) = verdict-ok _ h in
    let (clean, marked) =
      any_cycle-Clean edges (has_cycle _ edges) (has_cycle-Clean edges _) (keys_of edges) _ m
        found in
    let grounded = clean.sound (λ k i. absurd i) in
    Acc_of_Grounded graph n (elim (no_edges n edges) [
      | inl leaf ↦ Acc.intro n (λ b j. absurd (rw leaf at j))
      | inr key ↦ grounded n (marked n key)
    ])

search_all-Cyclic :
    (graph : BindingGraph) (m : Marks ResourceRef)
    → search_all (edges_from [] graph) ≡ some (true, m)
    → (n : ResourceRef) × Chain graph n n
unfolding search_all
search_all-Cyclic graph m h =
    let edges = edges_from [] graph in
    let (n, w) =
      any_cycle-Cyclic edges (has_cycle _ edges) (has_cycle-Clean edges _)
        (has_cycle-Cyclic edges _) (keys_of edges) _ m (λ n i v j. absurd j) h in
    (n, Walk-Chain graph w)

search_all-ends : (edges : Edges ResourceRef) → search_all edges ≢ none
unfolding search_all
search_all-ends edges h = cc (h, (top-Ends edges (keys_of edges)).1)

-- Where `reject_cycles` does not accept a graph, its answer is the error for a dependency cycle,
-- never that of spent fuel, and some chain of bindings leads from a resource back to itself.
pub reject_cycles_refuses :
    (graph : BindingGraph)
    → reject_cycles graph ≢ ok tt
    → (reject_cycles graph ≡ err (invalid "bindings" "dependency cycle detected"))
      × ((n : ResourceRef) × Chain graph n n)
unfolding reject_cycles
reject_cycles_refuses graph h = elim (Visit-cases (search_all (edges_from [] graph))) [
  | inl out ↦ absurd (search_all-ends _ out)
  | inr (inl (m, found)) ↦ (ap verdict found, search_all-Cyclic graph m found)
  | inr (inr (m, clear)) ↦ absurd (h (ap verdict clear))
]

-- `reject_cycles` accepts exactly the graphs in which no chain of bindings from producers to
-- consumers goes on for ever, so that none comes back to where it began.
pub reject_cycles_iff : (graph : BindingGraph) → (reject_cycles graph ≡ ok tt) ↔ IsAcyclic graph
reject_cycles_iff graph = (
  reject_cycles-IsAcyclic graph,
  λ acyclic. elim (Check-cases (reject_cycles graph)) [
    | inl e ↦ e
    | inr refused ↦
        let (_, (n, w)) = reject_cycles_refuses graph refused in
        absurd (no_cycle_of_Acc graph n (acyclic n) w)
  ],
)
