-- ===== src/Lock/Keys.antt =====
-- The lock file of every valid resource has a valid name, and no other resource has it.
use Prim.Native.Char.{len_utf8}
use Prim.Native.String.len
use text.Mathlib.TextEquality.{Char-path}
use text.Mathlib.TextPositions.{len_utf8-pos}
use mathlib.Core.List
use mathlib.Core.List.{append_assoc}
use lumic.Prelude.{
  ℕ, ◌+◌, ◌*◌, ◌≤◌, ◌≡◌, refl, ap, ap₂, sym, ◌∙◌, String, true, false, List, [], ◌∷◌, ◌++◌, leb,
  nat_beq, arith, codes, len, codes-append, all, all-append, length, length-append, map,
  if◌then◌else◌, is_empty,
}
use lumic.Error.{ok, ensure-eq-ok}
use lumic.Resource.{
  ResourceKind, ResourceRef, debug_name, lower, is_id_char, is_resource_id, validate_resource_id,
  validate_ref, «package», component, runtime, managed_service, service_resource, endpoint,
  application, process, schedule, artifact, certificate, pipeline,
}
use lumic.Lock.{is_valid_key, dash, lock_key}

-- the letters of a kind, as they stand in a lock's name
abbrev kind_codes : ResourceKind → List ℕ
kind_codes k = map dash (map lower (codes (debug_name k)))

same_char : (c : ℕ) → is_id_char c ≡ true → dash (lower c) ≡ c
same_char c h = ground arith

same_chars : (cs : List ℕ) → all is_id_char cs ≡ true → map dash (map lower cs) ≡ cs
same_chars [] h = refl
same_chars (c ∷ cs) h =
    ap₂ (λ x xs. x ∷ xs) (same_char c (ground arith)) (same_chars cs (ground arith))

valid_chars : (r : ResourceRef) → validate_ref r ≡ ok tt → is_resource_id r.id ≡ true
unfolding validate_ref validate_resource_id
valid_chars r h = ensure-eq-ok _ _ h

id_chars : (s : String) → is_resource_id s ≡ true → all is_id_char (codes s) ≡ true
unfolding is_resource_id
id_chars s h = ground arith

length-codes-le : (s : String) → length (codes s) ≤ len s
length-codes-le String.[] = omega arith
length-codes-le (String.◌∷◌ c s) =
    let (k, width) = len_utf8-pos c in
    let whole : len (String.◌∷◌ c s) ≡ len_utf8 c + len s = len.cons c s in
    omega (arith, length-codes-le s)

id_length : (s : String) → is_resource_id s ≡ true → length (codes s) ≤ 128
unfolding is_resource_id
id_length s h = ground (arith, length-codes-le s)

-- The name is the kind's letters, a dash, and the id.
lock_key-parts :
    (r : ResourceRef) → validate_ref r ≡ ok tt → lock_key r ≡ kind_codes r.kind ++ b'-' ∷ codes r.id
unfolding lock_key
lock_key-parts r h =
    let same = same_chars (codes r.id) (id_chars r.id (valid_chars r h)) in
    simp (codes-append, List.map-append, same)

abbrev second : List ℕ → ℕ
second (_ ∷ c ∷ _) = c
second _ = 0

-- a number that tells the names of the kinds apart
abbrev mark : List ℕ → ℕ
mark cs = second cs * 100 + length cs

marks : ResourceKind → ℕ
marks «package» = 9707
marks component = 11109
marks runtime = 11707
marks managed_service = 9714
marks service_resource = 10115
marks endpoint = 11008
marks application = 11211
marks process = 11407
marks schedule = 9908
marks artifact = 11408
marks certificate = 10111
marks pipeline = 10508

mark-kind : (k : ResourceKind) → mark (kind_codes k) ≡ marks k
unfolding marks
mark-kind «package» = refl
mark-kind _ = refl

marks-injective : (a b : ResourceKind) → marks a ≡ marks b → a ≡ b
unfolding marks
marks-injective a b h = ground arith

kind_codes-injective : (a b : ResourceKind) → kind_codes a ≡ kind_codes b → a ≡ b
kind_codes-injective a b h = marks-injective a b (sym (mark-kind a) ∙ ap mark h ∙ mark-kind b)

-- what stands before the first dash, and behind it
abbrev upto_dash : List ℕ → List ℕ
upto_dash [] = []
upto_dash (c ∷ cs) = if nat_beq c b'-' then [] else c ∷ upto_dash cs

abbrev past_dash : List ℕ → List ℕ
past_dash [] = []
past_dash (c ∷ cs) = if nat_beq c b'-' then cs else past_dash cs

upto_dash-kind :
    (k : ResourceKind) (rest : List ℕ) → upto_dash (kind_codes k ++ b'-' ∷ rest) ≡ kind_codes k
upto_dash-kind «package» rest = refl
upto_dash-kind _ rest = refl

past_dash-kind : (k : ResourceKind) (rest : List ℕ) → past_dash (kind_codes k ++ b'-' ∷ rest) ≡ rest
past_dash-kind «package» rest = refl
past_dash-kind _ rest = refl

kind_name :
    (k : ResourceKind) → (all is_id_char (kind_codes k) ≡ true) × (length (kind_codes k) ≤ 15)
kind_name «package» = (refl, omega arith)
kind_name _ = (refl, omega arith)

pub codes-injective : (s t : String) → codes s ≡ codes t → s ≡ t
codes-injective String.[] String.[] h = refl
codes-injective String.[] (String.◌∷◌ d t) h = absurd (cc)
codes-injective (String.◌∷◌ c s) String.[] h = absurd (cc)
codes-injective (String.◌∷◌ c s) (String.◌∷◌ d t) h =
    ap₂ String.◌∷◌ (Char-path c d (cc)) (codes-injective s t (cc))

not_empty : (before after : List ℕ) (c : ℕ) → is_empty (before ++ c ∷ after) ≡ false
not_empty [] after c = refl
not_empty (_ ∷ _) after c = refl

leb_of_le : (a b : ℕ) → a ≤ b → leb a b ≡ true
leb_of_le a b h = ground arith

joined :
    (kind id : List ℕ)
    → all is_id_char kind ≡ true
    → all is_id_char id ≡ true
    → length kind ≤ 15
    → length id ≤ 128
    → is_valid_key (kind ++ b'-' ∷ id) ≡ true
unfolding is_valid_key
joined kind id p q m n =
    let size = length-append kind (b'-' ∷ id) in
    rw (not_empty kind id b'-') (
      rw (leb_of_le (length (kind ++ b'-' ∷ id)) 255 (omega (arith, size)))
        (rw (all-append is_id_char kind (b'-' ∷ id)) (rw (p, q))))

-- The lock of a valid resource never fails on its name.
pub lock_key-is_valid_key :
    (r : ResourceRef) → validate_ref r ≡ ok tt → is_valid_key (lock_key r) ≡ true
lock_key-is_valid_key r h =
    let (letters, short) = kind_name r.kind in
    rw (lock_key-parts r h) (
      joined (kind_codes r.kind) (codes r.id) letters (id_chars r.id (valid_chars r h)) short
        (id_length r.id (valid_chars r h)))

-- Two valid resources that have one lock key are the same resource.
pub lock_key-injective :
    (r s : ResourceRef)
    → validate_ref r ≡ ok tt
    → validate_ref s ≡ ok tt
    → lock_key r ≡ lock_key s
    → r ≡ s
lock_key-injective r s h k e =
    let parts = sym (lock_key-parts r h) ∙ e ∙ lock_key-parts s k in
    let kinds =
      sym (upto_dash-kind r.kind (codes r.id))
      ∙ ap upto_dash parts
      ∙ upto_dash-kind s.kind (codes s.id) in
    let ids =
      sym (past_dash-kind r.kind (codes r.id))
      ∙ ap past_dash parts
      ∙ past_dash-kind s.kind (codes s.id) in
    λ i. record {
      kind = kind_codes-injective r.kind s.kind kinds i;
      id = codes-injective r.id s.id ids i;
    }
