-- ===== src/Log/Deque.antt =====
-- The bounded queue of `latest` holds the newest records.
use mathlib.Core.List.{reverse, reverse-append, reverse-cons}
use lumic.Prelude.{
  ℕ, zero, suc, ◌≤◌, ◌<◌, ◌≡◌, refl, ap, ◌∙◌, sym, List, [], ◌∷◌, ◌++◌, length, length-append,
  arith, nat_beq, nat_beq_iff, Bool-cases, inl, inr, String, false,
}
use lumic.Log.{Codec, pop_front, push_back}

module _ {A : Type 0} where
  abbrev pub take : ℕ → List A → List A
  take zero xs = []
  take (suc n) [] = []
  take (suc n) (x ∷ xs) = x ∷ take n xs

  pub take-take : (n : ℕ) (xs : List A) → take n (take n xs) ≡ take n xs
  take-take zero xs = refl
  take-take (suc n) [] = refl
  take-take (suc n) (x ∷ xs) = ap (λ r. x ∷ r) (take-take n xs)

  -- behind a new first element only one less counts
  pub take-cons : (n : ℕ) (x : A) (xs : List A) → take n (x ∷ take n xs) ≡ take n (x ∷ xs)
  take-cons zero x xs = refl
  take-cons (suc n) x xs = ap (λ r. x ∷ r) (take_less n xs)
    where
      take_less : (n : ℕ) (xs : List A) → take n (take (suc n) xs) ≡ take n xs
      take_less zero xs = refl
      take_less (suc n) [] = refl
      take_less (suc n) (y ∷ ys) = ap (λ r. y ∷ r) (take_less n ys)

  pub take_all : (n : ℕ) (xs : List A) → length xs ≤ n → take n xs ≡ xs
  take_all zero [] h = refl
  take_all zero (x ∷ xs) h = absurd (omega arith)
  take_all (suc n) [] h = refl
  take_all (suc n) (x ∷ xs) h = ap (λ r. x ∷ r) (take_all n xs (omega arith))

  pub take_front : (n : ℕ) (xs ys : List A) → length xs ≡ n → take n (xs ++ ys) ≡ xs
  take_front zero [] ys h = refl
  take_front zero (x ∷ xs) ys h = absurd (omega arith)
  take_front (suc n) [] ys h = absurd (omega arith)
  take_front (suc n) (x ∷ xs) ys h = ap (λ r. x ∷ r) (take_front n xs ys (omega arith))

  pub length-take-le : (n : ℕ) (xs : List A) → length (take n xs) ≤ n
  length-take-le zero xs = omega arith
  length-take-le (suc n) [] = omega arith
  length-take-le (suc n) (x ∷ xs) = omega (arith, length-take-le n xs)

  pub length-reverse : (xs : List A) → length (reverse xs) ≡ length xs
  length-reverse [] = refl
  length-reverse (x ∷ xs) =
      ap length (reverse-cons x xs)
      ∙ omega (arith, length-append (reverse xs) (x ∷ []), length-reverse xs)

  pub reverse_snoc : (xs : List A) (x : A) → reverse (xs ++ x ∷ []) ≡ x ∷ reverse xs
  reverse_snoc xs x = reverse-append xs (x ∷ [])

module _ {T : Type 0} (codec : Codec T) (name : String) (limit : ℕ) where
  reverse-push_back :
      (values : List T) (v : T)
      → 0 < limit
      → length values ≤ limit
      → reverse (push_back codec name limit values v) ≡ take limit (v ∷ reverse values)
  unfolding push_back
  reverse-push_back values v pos h = elim (Bool-cases (nat_beq (length values) limit)) [
    | inl full ↦ rw full (dropped values ((nat_beq_iff _ _).0 full))
    | inr room ↦
        rw room (reverse_snoc values v ∙ sym (take_all limit (v ∷ reverse values) (fits room)))
  ]
    where
      fits : nat_beq (length values) limit ≡ false → length (v ∷ reverse values) ≤ limit
      fits room = ground (arith, length-reverse values)

      dropped :
          (values : List T)
          → length values ≡ limit
          → reverse (pop_front codec name values ++ v ∷ []) ≡ take limit (v ∷ reverse values)
      dropped [] e = absurd (omega arith)
      dropped (x ∷ xs) e =
          reverse_snoc xs v
          ∙ rw (← e) (
              ap (λ r. v ∷ r)
                (sym (take_front (length xs) (reverse xs) (x ∷ []) (length-reverse xs))
                  ∙ ap (take (length xs)) (sym (reverse-cons x xs))))

  -- the queue holds the newest records of a history
  abbrev pub Holds : List T → List T → Type 0
  Holds values history = reverse values ≡ take limit (reverse history)

  pub push_back-Holds :
      (values history : List T) (v : T)
      → 0 < limit
      → Holds values history
      → Holds (push_back codec name limit values v) (history ++ v ∷ [])
  push_back-Holds values history v pos h =
      reverse-push_back values v pos short
      ∙ rw h (take-cons limit v (reverse history) ∙ ap (take limit) (sym (reverse_snoc history v)))
    where
      short : length values ≤ limit
      short =
          omega (arith, length-reverse values, length-take-le limit (reverse history), ap length h)
