-- ===== src/Application/Slug.antt =====
-- A slug is a resource id.
use Prim.Native.Nat.{compare, Ordering}
use Prim.Native.Char.{Char, code, len_utf8, len_utf8_def, width}
use Prim.Native.String.len
use lumic.Prelude.{
  ℕ, ◌+◌, ◌≡◌, refl, ap, ◌∙◌, String, true, false, not, List, [], ◌∷◌, leb, ltb, arith, codes, len,
  all, first, final, length, empty, is_empty, is_ascii_lowercase, is_ascii_alphanumeric,
  and-eq-true, leb-eq-true,
}
use lumic.Error.{ok, ensure-eq-ok}
use lumic.Resource.{
  ResourceKind, is_id_char, is_resource_id, validate_resource_id, validate_ref, new_ref,
}
use lumic.Application.{is_slug_char, is_slug, validate_slug}

compare-lt : (a b : ℕ) → ltb a b ≡ true → compare a b ≡ Ordering.lt
compare-lt a b h = go (compare a b) h
  where
    go : (o : Ordering) → (elim o [ Ordering.lt ↦ true | _ ↦ false ]) ≡ true → o ≡ Ordering.lt
    go Ordering.lt h = refl
    go Ordering.eq h = cc
    go Ordering.gt h = cc

-- an ASCII character takes one byte
narrow : (c : Char) → ltb (code c) 128 ≡ true → len_utf8 c ≡ 1
narrow c h =
    len_utf8_def c
    ∙ ap (λ o. width o (compare (code c) 2048) (compare (code c) 65536)) (compare-lt (code c) 128 h)

slug_char-ascii : (c : ℕ) → is_slug_char c ≡ true → ltb c 128 ≡ true
slug_char-ascii c h = ground arith

slug_char-is_id_char : (c : ℕ) → is_slug_char c ≡ true → is_id_char c ≡ true
slug_char-is_id_char c h = ground arith

slug_chars-len : (s : String) → all is_slug_char (codes s) ≡ true → len s ≡ length (codes s)
slug_chars-len String.[] h = refl
slug_chars-len (String.◌∷◌ c s) h =
    let (here, rest) = and-eq-true (is_slug_char (code c)) _ h in
    let one = narrow c (slug_char-ascii (code c) here) in
    let whole : len (String.◌∷◌ c s) ≡ len_utf8 c + len s = len.cons c s in
    omega (arith, whole, one, slug_chars-len s rest)

id_chars : (cs : List ℕ) → all is_slug_char cs ≡ true → all is_id_char cs ≡ true
id_chars [] h = refl
id_chars (c ∷ cs) h =
    let (here, rest) = and-eq-true (is_slug_char c) _ h in
    rw (slug_char-is_id_char c here) (id_chars cs rest)

empty-codes : (s : String) → empty s ≡ is_empty (codes s)
empty-codes String.[] = refl
empty-codes (String.◌∷◌ c s) = refl

slug-is_resource_id : (s : String) → is_slug (codes s) ≡ true → is_resource_id s ≡ true
unfolding is_slug is_resource_id
slug-is_resource_id s h =
    let (h₁, chars) = and-eq-true _ (all is_slug_char (codes s)) h in
    let (h₂, _) = and-eq-true _ (final is_ascii_alphanumeric (codes s)) h₁ in
    let (h₃, letter) = and-eq-true _ (first is_ascii_lowercase (codes s)) h₂ in
    let (some_char, short) =
      and-eq-true (not (is_empty (codes s))) (leb (length (codes s)) 63) h₃ in
    let bound : leb (len s) 128 ≡ true =
      (leb-eq-true _ _).1
        (omega (arith, slug_chars-len s chars, (leb-eq-true (length (codes s)) 63).0 short)) in
    rw (empty-codes s) (rw some_char (rw bound (rw letter (id_chars (codes s) chars))))

-- Every text that is accepted as a slug makes a resource reference of any kind.
pub validate_slug-new_ref :
    (field value : String) (kind : ResourceKind)
    → validate_slug field value ≡ ok tt
    → new_ref kind value ≡ ok (record { kind = kind; id = value })
unfolding validate_slug new_ref validate_ref validate_resource_id
validate_slug-new_ref field value kind h = rw (slug-is_resource_id value (ensure-eq-ok _ _ h))
