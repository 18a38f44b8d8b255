-- ===== src/Binding/Search.antt =====
-- What the depth-first search of `has_cycle` finds, over any adjacency map.
use mathlib.Core.WellFounded.{Acc}
use lumic.Prelude.{
  ℕ, zero, suc, ◌≡◌, refl, ◌⊎◌, inl, inr, Bool, true, false, Option, none, some, List, [], ◌∷◌,
  arith, PartialEq, In, contains, contains_iff, remove, Bool-cases, subst, ◌∙◌,
}
use lumic.Binding.{Edges, Marks, Visit, next_of, any_cycle, leave, has_cycle}

pub Visit-cases :
    {K : Type 0} (o : Option (Bool × Marks K))
    → (o ≡ none) ⊎ ((m : Marks K) × (o ≡ some (true, m))) ⊎ ((m : Marks K) × (o ≡ some (false, m)))
Visit-cases none = inl refl
Visit-cases (some (true, m)) = inr (inl (m, refl))
Visit-cases (some (false, m)) = inr (inr (m, refl))

module _ {K : Type 0} ⦃e : PartialEq K⦄ where
  keep_of_absent : (k : K) (xs : List K) → contains xs k ≡ false → remove k xs ≡ xs
  keep_of_absent k [] h = refl
  keep_of_absent k (x ∷ xs) h = ground (arith, keep_of_absent k xs)

  pub remove-cons : (k : K) (xs : List K) → contains xs k ≡ false → remove k (k ∷ xs) ≡ xs
  remove-cons k xs h = ground (arith, e.agrees k k, keep_of_absent k xs)

module _ {K : Type 0} ⦃e : PartialEq K⦄ (edges : Edges K) where
  -- walks along the edges, of one step or more
  pub data Walk (a : K) : K → Type 0 where
    one : {b : K} → In b (next_of edges a) → Walk a b
    more : {b c : K} → Walk a b → In c (next_of edges b) → Walk a c

  -- every walk from the node ends
  abbrev pub Grounded : K → Type 0
  Grounded = Acc (λ b a. In b (next_of edges a))

  pub record Clean (m m' : Marks K) : Type 0 where
    pub same : m'.visiting ≡ m.visiting
    pub grows : (n : K) → In n m.visited → In n m'.visited
    pub sound : ((n : K) → In n m.visited → Grounded n) → (n : K) → In n m'.visited → Grounded n

  pub Clean-refl : (m : Marks K) → Clean m m
  Clean-refl m = record { same = refl; grows = λ n h. h; sound = λ h. h }

  Clean-trans : (a b c : Marks K) → Clean a b → Clean b c → Clean a c
  Clean-trans a b c p q = record {
    same = q.same ∙ p.same;
    grows = λ n h. q.grows n (p.grows n h);
    sound = λ h. q.sound (p.sound h);
  }

  -- a visit that finds no cycle marks its node
  abbrev pub VisitsWell : (K → Visit K) → Type 0
  VisitsWell visit =
      (n : K) (m m' : Marks K) → visit n m ≡ some (false, m') → Clean m m' × In n m'.visited

  pub any_cycle-Clean :
      (visit : K → Visit K)
      → VisitsWell visit
      → (ns : List K) (m m' : Marks K) → any_cycle visit ns m ≡ some (false, m')
      → Clean m m' × ((n : K) → In n ns → In n m'.visited)
  unfolding any_cycle
  any_cycle-Clean visit well [] m m' h =
      let e : m ≡ m' = cc in (subst (Clean m) e (Clean-refl m), λ n i. absurd i)
  any_cycle-Clean visit well (node ∷ ns) m m' h = elim (Visit-cases (visit node m)) [
    | inl out ↦ absurd (cc (rw (out, any_cycle) at h))
    | inr (inl (m₁, found)) ↦ absurd (cc (rw (found, any_cycle) at h))
    | inr (inr (m₁, clear)) ↦
        let (first, marked) = well node m m₁ clear in
        let (rest, others) = any_cycle-Clean visit well ns m₁ m' (rw (clear, any_cycle) at h) in
        (
          Clean-trans m m₁ m' first rest,
          λ n i. elim i [ inl p ↦ rw p (rest.grows node marked) | inr j ↦ others n j ],
        )
  ]

  leave-Clean :
      (node : K) (m m' : Marks K) (o : Option (Bool × Marks K))
      → contains m.visiting node ≡ false
      → ((m₁ : Marks K)
          → o ≡ some (false, m₁)
          → Clean (record m { visiting = node ∷ m.visiting }) m₁
            × ((n : K) → In n (next_of edges node) → In n m₁.visited))
      → leave node o ≡ some (false, m')
      → Clean m m' × In node m'.visited
  leave-Clean node m m' none fresh children h = cc
  leave-Clean node m m' (some (true, m₁)) fresh children h = cc
  leave-Clean node m m' (some (false, m₁)) fresh children h =
      let (clean, all_marked) = children m₁ refl in
      let left : record { visiting = remove node m₁.visiting; visited = node ∷ m₁.visited } ≡ m' =
        cc in
      rw (← left) (
        record {
          same = rw (clean.same) (remove-cons node m.visiting fresh);
          grows = λ n i. inr (clean.grows n i);
          sound = λ h n i. elim i [
            | inl p ↦ rw p (Acc.intro node (λ b j. clean.sound h b (all_marked b j)))
            | inr j ↦ clean.sound h n j
          ];
        },
        inl refl,
      )

  pub has_cycle-Clean : (fuel : ℕ) → VisitsWell (has_cycle fuel edges)
  unfolding has_cycle
  has_cycle-Clean zero n m m' h = cc
  has_cycle-Clean (suc fuel) n m m' h = elim (Bool-cases (contains m.visited n)) [
    | inl seen ↦
        let e : m ≡ m' = cc (rw (seen, has_cycle) at h) in
        (
          subst (Clean m) e (Clean-refl m),
          subst (λ k. In n k.visited) e ((contains_iff m.visited n).0 seen),
        )
    | inr unseen ↦ elim (Bool-cases (contains m.visiting n)) [
      | inl open_node ↦ absurd (cc (rw (unseen, open_node, has_cycle) at h))
      | inr fresh ↦
          leave-Clean n m m' _ fresh
            (λ m₁ found.
              any_cycle-Clean (has_cycle fuel edges) (has_cycle-Clean fuel) (next_of edges n) _ m₁
                found)
            (rw (unseen, fresh, has_cycle) at h)
    ]
  ]
