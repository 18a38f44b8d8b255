-- ===== src/Managed/Pairs.antt =====
-- What a `traverse` that succeeds gives for each element, and lemmas on membership in lists that were
-- joined, which the proofs on saved records share.
use lumic.Prelude.{
  ◌≡◌, refl, sym, ap, ◌∙◌, subst, inl, inr, List, [], ◌∷◌, ◌++◌, map, In, In-append, Distinct,
}
use lumic.Error.{Result, ok, traverse, >>=-eq-ok, ok-injective}

-- results that a `traverse` gave, one by one
abbrev pub Pairs : {A B : Type 0} → (A → Result B) → List A → List B → Type 0
Pairs f [] [] = Unit
Pairs f [] (y ∷ ys) = ⊥
Pairs f (x ∷ xs) [] = ⊥
Pairs f (x ∷ xs) (y ∷ ys) = (f x ≡ ok y) × Pairs f xs ys

pub traverse-Pairs :
    {A B : Type 0} (f : A → Result B) (xs : List A) (ys : List B)
    → traverse f xs ≡ ok ys
    → Pairs f xs ys
traverse-Pairs f [] [] h = tt
traverse-Pairs f [] (y ∷ ys) h = absurd (cc (ok-injective h))
traverse-Pairs f (x ∷ xs) ys h =
    let (y, e, h1) = >>=-eq-ok (f x) _ h in
    let (rest, e', h2) = >>=-eq-ok (traverse f xs) _ h1 in
    subst (Pairs f (x ∷ xs)) (ok-injective h2) (e, traverse-Pairs f xs rest e')

pub traverse-append :
    {A B : Type 0} (f : A → Result B) (xs ys : List A) (vs ws : List B)
    → traverse f xs ≡ ok vs
    → traverse f ys ≡ ok ws
    → traverse f (xs ++ ys) ≡ ok (vs ++ ws)
traverse-append f [] ys vs ws h h' = subst (λ vs. traverse f ys ≡ ok (vs ++ ws)) (ok-injective h) h'
traverse-append f (x ∷ xs) ys vs ws h h' =
    let (a, e, h1) = >>=-eq-ok (f x) _ h in
    let (rest, e', h2) = >>=-eq-ok (traverse f xs) _ h1 in
    subst (λ vs. traverse f (x ∷ xs ++ ys) ≡ ok (vs ++ ws)) (ok-injective h2)
      (rw e (rw (traverse-append f xs ys rest ws e' h') refl))

pub Distinct-apart :
    {A : Type 0} (a : A) (xs ys : List A) → Distinct (xs ++ ys) → In a xs → ¬ (In a ys)
Distinct-apart a [] ys h i j = absurd i
Distinct-apart a (x ∷ xs) ys h (inl e) j =
    h.0 ((In-append x xs ys).1 (inr (subst (λ z. In z ys) e j)))
Distinct-apart a (x ∷ xs) ys h (inr i) j = Distinct-apart a xs ys h.1 i j

pub map-append :
    {A B : Type 0} (f : A → B) (xs ys : List A) → map f (xs ++ ys) ≡ map f xs ++ map f ys
map-append f [] ys = refl
map-append f (x ∷ xs) ys = rw (map-append f xs ys) refl

pub In-last :
    {A : Type 0} (x : A) (first second third last : List A)
    → In x last
    → In x (first ++ (second ++ (third ++ last)))
In-last x first second third last h =
    (In-append x first _).1
      (inr ((In-append x second _).1 (inr ((In-append x third last).1 (inr h)))))

pub Pairs-In :
    {A B : Type 0} (f : A → Result B) (xs : List A) (ys : List B) (x : A)
    → Pairs f xs ys
    → In x xs
    → (y : B) × In y ys × (f x ≡ ok y)
Pairs-In f [] [] x h i = absurd i
Pairs-In f [] (y ∷ ys) x h i = absurd h
Pairs-In f (a ∷ xs) [] x h i = absurd h
Pairs-In f (a ∷ xs) (y ∷ ys) x h (inl e) = (y, inl refl, ap f e ∙ h.0)
Pairs-In f (a ∷ xs) (y ∷ ys) x h (inr i) = let (z, j, e) = Pairs-In f xs ys x h.1 i in (z, inr j, e)

pub In-Pairs :
    {A B : Type 0} (f : A → Result B) (xs : List A) (ys : List B) (y : B)
    → Pairs f xs ys
    → In y ys
    → (x : A) × In x xs × (f x ≡ ok y)
In-Pairs f [] [] y h i = absurd i
In-Pairs f [] (b ∷ ys) y h i = absurd h
In-Pairs f (x ∷ xs) [] y h i = absurd i
In-Pairs f (x ∷ xs) (b ∷ ys) y h (inl e) = (x, inl refl, h.0 ∙ ap ok (sym e))
In-Pairs f (x ∷ xs) (b ∷ ys) y h (inr i) = let (z, j, e) = In-Pairs f xs ys y h.1 i in (z, inr j, e)
