-- ===== src/Prelude/Lists.antt =====
-- Slices, iterators and sets of Rust over lists.
use Prim.Native.Nat.{ℕ, suc, ◌+◌}
use mathlib.Core.Path.{◌≡◌, refl, subst, ap}
use mathlib.Core.Logic.{◌⊎◌, inl, inr, ◌↔◌}
use mathlib.Core.Bool.{Bool, true, false, not, ◌&&◌, ◌||◌}
use mathlib.Core.Option.{Option, none, some}
use mathlib.Core.List.{List, [], ◌∷◌, ◌++◌, map}
use native.Mathlib.Omega.{arith}
use lumic.Prelude.Tests.{PartialEq, ◌==◌, Bool-cases, if◌then◌else◌}

module _ {ℓ} {A : Type ℓ} where
  abbrev pub length : List A → ℕ
  length [] = 0
  length (x ∷ xs) = suc (length xs)

  abbrev pub any : (A → Bool) → List A → Bool
  any p [] = false
  any p (x ∷ xs) = p x || any p xs

  abbrev pub all : (A → Bool) → List A → Bool
  all p [] = true
  all p (x ∷ xs) = p x && all p xs

  abbrev pub is_empty : List A → Bool
  is_empty [] = true
  is_empty (_ ∷ _) = false

  -- `iter().filter(p)`, `Vec::retain(p)`
  abbrev pub keep : (A → Bool) → List A → List A
  keep p [] = []
  keep p (x ∷ xs) = if p x then x ∷ keep p xs else keep p xs

  -- `iter().find(p)`
  abbrev pub find : (A → Bool) → List A → Option A
  find p [] = none
  find p (x ∷ xs) = if p x then some x else find p xs

  abbrev pub last : List A → Option A
  last [] = none
  last (x ∷ []) = some x
  last (_ ∷ y ∷ xs) = last (y ∷ xs)

  pub length-append : (xs ys : List A) → length (xs ++ ys) ≡ length xs + length ys
  length-append [] ys = omega arith
  length-append (x ∷ xs) ys = omega (arith, length-append xs ys)

module _ {A : Type 0} where
  -- Membership as a family that computes, with the position kept.
  abbrev pub In : A → List A → Type 0
  In a [] = ⊥
  In a (x ∷ xs) = (a ≡ x) ⊎ In a xs

  -- what a set that refuses duplicates accepts, element by element
  abbrev pub Distinct : List A → Type 0
  Distinct [] = Unit
  Distinct (x ∷ xs) = ¬ (In x xs) × Distinct xs

  -- the same by the loop that inserts each element into the set of those before it
  abbrev pub Unseen : List A → List A → Type 0
  Unseen seen [] = Unit
  Unseen seen (x ∷ xs) = ¬ (In x seen) × Unseen (x ∷ seen) xs

  pub Unseen-smaller :
      (seen less xs : List A) → ((x : A) → In x less → In x seen) → Unseen seen xs → Unseen less xs
  Unseen-smaller seen less [] sub u = tt
  Unseen-smaller seen less (x ∷ xs) sub (fresh, u) = (
    λ i. fresh (sub x i),
    Unseen-smaller (x ∷ seen) (x ∷ less) xs
        (λ y i. elim i [ inl p ↦ inl p | inr j ↦ inr (sub y j) ]) u,
  )

  pub Unseen-avoids : (seen xs : List A) (a : A) → Unseen seen xs → In a seen → ¬ (In a xs)
  Unseen-avoids seen [] a u i j = j
  Unseen-avoids seen (x ∷ xs) a (fresh, u) i (inl p) = fresh (subst (λ y. In y seen) p i)
  Unseen-avoids seen (x ∷ xs) a (fresh, u) i (inr j) = Unseen-avoids (x ∷ seen) xs a u (inr i) j

  pub Unseen-Distinct : (seen xs : List A) → Unseen seen xs → Distinct xs
  Unseen-Distinct seen [] u = tt
  Unseen-Distinct seen (x ∷ xs) (fresh, u) =
      (Unseen-avoids (x ∷ seen) xs x u (inl refl), Unseen-Distinct (x ∷ seen) xs u)

  pub Distinct-Unseen :
      (seen xs : List A) → Distinct xs → ((a : A) → In a seen → ¬ (In a xs)) → Unseen seen xs
  Distinct-Unseen seen [] d apart = tt
  Distinct-Unseen seen (x ∷ xs) (fresh, d) apart = (
    λ i. apart x i (inl refl),
    Distinct-Unseen (x ∷ seen) xs d
        (λ a i j. elim i [ inl p ↦ fresh (subst (λ y. In y xs) p j) | inr k ↦ apart a k (inr j) ]),
  )

  -- A loop that starts with the empty set accepts exactly the lists with no repetition.
  pub Unseen-iff : (xs : List A) → Unseen [] xs ↔ Distinct xs
  Unseen-iff xs = (Unseen-Distinct [] xs, λ d. Distinct-Unseen [] xs d (λ a i. absurd i))

  pub In-append : (a : A) (xs ys : List A) → In a (xs ++ ys) ↔ (In a xs ⊎ In a ys)
  In-append a [] ys = (inr, λ h. elim h [ inl x ↦ absurd x | inr y ↦ y ])
  In-append a (x ∷ xs) ys = ground (arith, In-append a xs ys)

module _ {ℓ κ} {A : Type ℓ} where
  abbrev pub All : (A → Type κ) → List A → Type κ
  All P [] = Unit
  All P (x ∷ xs) = P x × All P xs

module _ {A : Type 0} (P Q : A → Type 0) (f : (a : A) → P a → Q a) where
  pub All-imp : (xs : List A) → All P xs → All Q xs
  All-imp [] h = tt
  All-imp (x ∷ xs) (p, h) = (f x p, All-imp xs h)

module _ {A : Type 0} (P : A → Type 0) where
  pub All-append : (xs ys : List A) → All P xs → All P ys → All P (xs ++ ys)
  All-append [] ys h k = k
  All-append (x ∷ xs) ys (p, h) k = (p, All-append xs ys h k)

  pub All-In : (a : A) (xs : List A) → All P xs → In a xs → P a
  All-In a [] h m = absurd m
  All-In a (x ∷ xs) h (inl e) = rw e h.0
  All-In a (x ∷ xs) h (inr m) = All-In a xs h.1 m

module _ {ℓ} {A : Type ℓ} ⦃e : PartialEq A⦄ where
  -- membership in a `BTreeSet`, whose order no caller observes
  abbrev pub contains : List A → A → Bool
  contains [] a = false
  contains (x ∷ xs) a = (x == a) || contains xs a

  -- `BTreeSet::remove`
  abbrev pub remove : A → List A → List A
  remove a xs = keep (λ x. not (x == a)) xs

module _ {A : Type 0} ⦃e : PartialEq A⦄ where
  pub contains_iff : (xs : List A) (a : A) → (contains xs a ≡ true) ↔ In a xs
  contains_iff [] a = ground arith
  contains_iff (x ∷ xs) a = ground (arith, e.agrees x a, contains_iff xs a)

  pub not-contains_iff : (xs : List A) (a : A) → (contains xs a ≡ false) ↔ ¬ (In a xs)
  not-contains_iff xs a = (
    λ h i. cc ((contains_iff xs a).1 i),
    λ h. elim (Bool-cases (contains xs a)) [
      | inl e ↦ absurd (h ((contains_iff xs a).0 e))
      | inr e ↦ e
    ],
  )

module _ {A B : Type 0} (f : A → B) where
  pub In-map : (b : B) (xs : List A) → In b (map f xs) → (a : A) × In a xs × (b ≡ f a)
  In-map b [] i = absurd i
  In-map b (x ∷ xs) (inl p) = (x, inl refl, p)
  In-map b (x ∷ xs) (inr i) = let (a, j, p) = In-map b xs i in (a, inr j, p)

  pub map-In : (a : A) (xs : List A) → In a xs → In (f a) (map f xs)
  map-In a [] i = absurd i
  map-In a (x ∷ xs) (inl p) = inl (ap f p)
  map-In a (x ∷ xs) (inr i) = inr (map-In a xs i)

module _ {A : Type 0} (p : A → Bool) where
  pub In-keep : (a : A) (xs : List A) → In a (keep p xs) ↔ (In a xs × (p a ≡ true))
  In-keep a [] = (λ i. absurd i, λ h. absurd h.0)
  In-keep a (x ∷ xs) = elim (Bool-cases (p x)) [
    | inl e ↦ rw e (
      λ i. elim i [
        | inl q ↦ (inl q, rw q e)
        | inr j ↦ let (k, t) = (In-keep a xs).0 j in (inr k, t)
      ],
      λ h. elim h.0 [ inl q ↦ inl q | inr j ↦ inr ((In-keep a xs).1 (j, h.1)) ],
    )
    | inr e ↦ rw e (
      λ i. let (k, t) = (In-keep a xs).0 i in (inr k, t),
      λ h. elim h.0 [ inl q ↦ absurd (cc (ap p q)) | inr j ↦ (In-keep a xs).1 (j, h.1) ],
    )
  ]

pub find-append :
    {A : Type 0} (p : A → Bool) (xs ys : List A) → find p xs ≡ none → find p (xs ++ ys) ≡ find p ys
find-append p [] ys h = refl
find-append p (x ∷ xs) ys h = ground (arith, find-append p xs ys)

pub keep-append :
    {A : Type 0} (p : A → Bool) (xs ys : List A) → keep p (xs ++ ys) ≡ keep p xs ++ keep p ys
keep-append p [] ys = refl
keep-append p (x ∷ xs) ys = ground (arith, keep-append p xs ys)
