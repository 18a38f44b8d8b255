-- ===== src/Binding/Fuel.antt =====
-- The search ends: a nested visit has one key fewer that is not being visited.
use lumic.Prelude.{
  ℕ, zero, suc, ◌≤◌, ◌<◌, ◌≡◌, refl, ◌⊎◌, inl, inr, Bool, true, false, not, Option, none, some,
  List, [], ◌∷◌, PartialEq, In, contains, Bool-cases, keep, length, arith,
}
use lumic.Binding.{keys_of, Edges, Marks, Visit, next_of, any_cycle, leave, has_cycle}
use lumic.Binding.Search.{Visit-cases, VisitsWell, has_cycle-Clean}

module _ {K : Type 0} ⦃e : PartialEq K⦄ where
  abbrev pub free : List K → List K → ℕ
  free visiting keys = length (keep (λ k. not (contains visiting k)) keys)

  free-le : (node : K) (visiting keys : List K) → free (node ∷ visiting) keys ≤ free visiting keys
  free-le node visiting [] = omega arith
  free-le node visiting (k ∷ keys) = ground (arith, free-le node visiting keys)

  free-lt :
      (node : K) (visiting keys : List K)
      → contains visiting node ≡ false
      → In node keys
      → free (node ∷ visiting) keys < free visiting keys
  free-lt node visiting [] fresh i = absurd i
  free-lt node visiting (k ∷ keys) fresh (inl p) =
      ground (arith, e.agrees node k, free-le node visiting keys)
  free-lt node visiting (k ∷ keys) fresh (inr i) =
      ground (arith, free-lt node visiting keys fresh i)

  free-le_length : (visiting keys : List K) → free visiting keys ≤ length keys
  free-le_length visiting [] = omega arith
  free-le_length visiting (k ∷ keys) = ground (arith, free-le_length visiting keys)

  pub no_edges : (n : K) (edges : Edges K) → (next_of edges n ≡ []) ⊎ In n (keys_of edges)
  unfolding next_of
  no_edges n [] = inl refl
  no_edges n ((j, vs) ∷ edges) = ground (arith, e.agrees j n, no_edges n edges)

module _ {K : Type 0} ⦃e : PartialEq K⦄ (edges : Edges K) where
  abbrev Ends : Option (Bool × Marks K) → Type 0
  Ends o = (r : Bool × Marks K) × (o ≡ some r)

  any_cycle-Ends :
      (visit : K → Visit K)
      → VisitsWell edges visit
      → (visiting : List K) → ((n : K) (m : Marks K) → m.visiting ≡ visiting → Ends (visit n m))
      → (ns : List K) (m : Marks K) → m.visiting ≡ visiting
      → Ends (any_cycle visit ns m)
  unfolding any_cycle
  any_cycle-Ends visit well visiting ends [] m same = ((false, m), refl)
  any_cycle-Ends visit well visiting ends (n ∷ ns) m same = elim (Visit-cases (visit n m)) [
    | inl out ↦ absurd (cc (ends n m same).1)
    | inr (inl (m₁, found)) ↦ ((true, m₁), rw (found, any_cycle))
    | inr (inr (m₁, clear)) ↦
        let (clean, _) = well n m m₁ clear in
        rw (clear, any_cycle) (any_cycle-Ends visit well visiting ends ns m₁ (cc clean.same))
  ]

  leave-Ends : (n : K) (o : Option (Bool × Marks K)) → Ends o → Ends (leave n o)
  leave-Ends n none h = absurd (cc h.1)
  leave-Ends n (some (true, m)) h = (_, refl)
  leave-Ends n (some (false, m)) h = (_, refl)

  pub has_cycle-Ends :
      (fuel : ℕ) (n : K) (m : Marks K)
      → free m.visiting (keys_of edges) < fuel
      → Ends (has_cycle fuel edges n m)
  unfolding has_cycle
  has_cycle-Ends zero n m h = absurd (omega arith)
  has_cycle-Ends (suc fuel) n m h = elim (Bool-cases (contains m.visited n)) [
    | inl seen ↦ rw (seen, has_cycle) (_, refl)
    | inr unseen ↦ elim (Bool-cases (contains m.visiting n)) [
      | inl open_node ↦ rw (unseen, open_node, has_cycle) (_, refl)
      | inr fresh ↦
          rw (unseen, fresh, has_cycle)
            (leave-Ends n _ (elim (no_edges n edges) [
              | inl leaf ↦ rw leaf (unfold any_cycle in (_, refl))
              | inr key ↦
                  any_cycle-Ends (has_cycle fuel edges) (has_cycle-Clean edges fuel)
                    (n ∷ m.visiting)
                    (λ c m₁ same.
                      has_cycle-Ends fuel c m₁
                        (rw same (omega (arith, free-lt n m.visiting (keys_of edges) fresh key))))
                    (next_of edges n) _ refl
            ]))
    ]
  ]

  -- what `reject_cycles` starts with is enough
  pub top-Ends :
      (ns : List K)
      → Ends (
          any_cycle
            (has_cycle (suc (length (keys_of edges))) edges)
            ns
            (record { visiting = []; visited = [] }))
  top-Ends ns =
      any_cycle-Ends (has_cycle (suc (length (keys_of edges))) edges) (has_cycle-Clean edges _) []
        (λ n m same.
          has_cycle-Ends _ n m (rw same (omega (arith, free-le_length [] (keys_of edges)))))
        ns _ refl
