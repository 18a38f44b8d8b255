-- ===== src/Binding/Cycles.antt =====
-- Where the search answers true, there is a cycle: the nodes being visited are the walk so far.
use lumic.Prelude.{
  ℕ, zero, suc, ◌≡◌, refl, inl, inr, Bool, true, false, Option, none, some, List, [], ◌∷◌,
  PartialEq, In, contains, contains_iff, Bool-cases,
}
use lumic.Binding.{Edges, Marks, Visit, next_of, any_cycle, leave, has_cycle}
use lumic.Binding.Search.{Visit-cases, Walk, one, more, VisitsWell, has_cycle-Clean}

module _ {K : Type 0} ⦃e : PartialEq K⦄ (edges : Edges K) where
  abbrev pub Cyclic : Type 0
  Cyclic = (c : K) × Walk edges c c

  -- all that is being visited leads to the node
  abbrev pub LeadsTo : K → Marks K → Type 0
  LeadsTo n m = (v : K) → In v m.visiting → Walk edges v n

  abbrev VisitsFind : (K → Visit K) → Type 0
  VisitsFind visit = (n : K) (m m' : Marks K) → LeadsTo n m → visit n m ≡ some (true, m') → Cyclic

  pub any_cycle-Cyclic :
      (visit : K → Visit K)
      → VisitsWell edges visit
      → VisitsFind visit
      → (ns : List K) (m m' : Marks K) → ((n : K) → In n ns → LeadsTo n m)
      → any_cycle visit ns m ≡ some (true, m')
      → Cyclic
  unfolding any_cycle
  any_cycle-Cyclic visit well finds [] m m' leads h = absurd (cc)
  any_cycle-Cyclic visit well finds (node ∷ ns) m m' leads h = elim (Visit-cases (visit node m)) [
    | inl out ↦ absurd (cc (rw (out, any_cycle) at h))
    | inr (inl (m₁, found)) ↦ finds node m m₁ (leads node (inl refl)) found
    | inr (inr (m₁, clear)) ↦
        let (clean, _) = well node m m₁ clear in
        any_cycle-Cyclic visit well finds ns m₁ m'
          (λ n i v j. leads n (inr i) v (rw clean.same at j)) (rw (clear, any_cycle) at h)
  ]

  leave-true :
      (node : K) (m : Marks K) (o : Option (Bool × Marks K))
      → leave node o ≡ some (true, m)
      → o ≡ some (true, m)
  leave-true node m none h = cc
  leave-true node m (some (true, m₁)) h = h
  leave-true node m (some (false, m₁)) h = absurd (cc)

  pub has_cycle-Cyclic : (fuel : ℕ) → VisitsFind (has_cycle fuel edges)
  unfolding has_cycle
  has_cycle-Cyclic zero n m m' leads h = absurd (cc)
  has_cycle-Cyclic (suc fuel) n m m' leads h = elim (Bool-cases (contains m.visited n)) [
    | inl seen ↦ absurd (cc (rw (seen, has_cycle) at h))
    | inr unseen ↦ elim (Bool-cases (contains m.visiting n)) [
      | inl open_node ↦ (n, leads n ((contains_iff m.visiting n).0 open_node))
      | inr fresh ↦
          any_cycle-Cyclic (has_cycle fuel edges) (has_cycle-Clean edges fuel)
            (has_cycle-Cyclic fuel) (next_of edges n) _ m'
            (λ c i v j. elim j [ inl p ↦ rw p (one i) | inr k ↦ more (leads v k) i ])
            (leave-true n m' _ (rw (unseen, fresh, has_cycle) at h))
    ]
  ]
