-- ===== src/Configuration/Lookup.antt =====
-- What a read of a configuration finds after a write.
use lumic.Prelude.{
  none, ap, sym, ◌∙◌, Bool-cases, inl, inr, String, ◌≡◌, refl, true, false, some, [], ◌∷◌, ◌==◌,
  string_eq, eq_iff, if◌then◌else◌, arith,
}
use lumic.Resource.{Entries}
use lumic.Configuration.{get, insert}

module _ {V : Type 0} where
  get-insert-here :
      (j k i : String) (v w : V) (m : Entries V)
      → (i == k) ≡ true
      → (if k == j then some v else get j m)
        ≡ (if k == j then some v else if i == j then some w else get j m)
  get-insert-here j k i v w m e = ground (arith, eq_iff i k, eq_iff k j, eq_iff i j)

  get-insert-apart :
      (j k i : String) (v w : V) (m : Entries V)
      → (i == k) ≡ false
      → (if i == j then some w else if k == j then some v else get j m)
        ≡ (if k == j then some v else if i == j then some w else get j m)
  get-insert-apart j k i v w m e = ground (arith, eq_iff i k, eq_iff k j, eq_iff i j)

  pub get-insert :
      (j k : String) (v : V) (m : Entries V)
      → get j (insert k v m) ≡ (if k == j then some v else get j m)
  unfolding get insert
  get-insert j k v [] = refl
  get-insert j k v ((i, w) ∷ m) =
      let ih = get-insert j k v m in
      grind (arith, get-insert-here j k i v w m, get-insert-apart j k i v w m)

  pub insert-kept :
      (m : Entries V) (id k : String) (d e : V)
      → get id m ≡ none
      → get k m ≡ some e
      → get k (insert id d m) ≡ some e
  insert-kept m id k d e fresh p = elim (Bool-cases (id == k)) [
    | inl q ↦ absurd (cc (fresh, p, ap (λ j. get j m) ((eq_iff id k).0 q)))
    | inr n ↦ get-insert k id d m ∙ rw n p
  ]

  pub insert-absent :
      (m : Entries V) (id k : String) (d : V) → get k (insert id d m) ≡ none → get k m ≡ none
  insert-absent m id k d p = elim (Bool-cases (id == k)) [
    | inl q ↦ let here = get-insert k id d m in let here' = rw q at here in absurd (cc (here', p))
    | inr n ↦ let here = get-insert k id d m in let here' = rw n at here in sym here' ∙ p
  ]
