-- ===== src/Prelude/Text.antt =====
-- Rust's `str` over the native `String`, and the tests of `char` and `u8` by code point. A byte of
-- a character outside ASCII passes no ASCII test and neither does its code point, so a test of every
-- byte by ASCII classes is a test of every code point.
use Prim.Native.Nat.{ℕ, zero, suc, ◌+◌, ◌/◌, ◌%◌}
use Prim.Native.Char.{code}
use Prim.Native.String
use Prim.Native.String.{String}
use mathlib.Core.Path.{◌≡◌, refl}
use mathlib.Core.Bool.{Bool, true, false, ◌&&◌, ◌||◌}
use mathlib.Core.Option.{Option, none, some}
use mathlib.Core.List.{List, [], ◌∷◌, ◌++◌}
use native.Mathlib.Omega.{arith}
use text.Mathlib.TextLemmas.{nil-append, cons-append}
use text.Mathlib.TextPositions.{len-append}
use lumic.Prelude.Tests.{leb, nat_beq, nat_beq_iff, if◌then◌else◌}
use lumic.Prelude.Lists.{all}

abbrev pub codes : String → List ℕ
codes String.[] = []
codes (String.◌∷◌ c s) = code c ∷ codes s

-- the text that `format!` puts together
infixr 65 ◌<>◌
abbrev pub ◌<>◌ : String → String → String
s <> t = Prim.Native.String.◌++◌ s t

-- the length in bytes
abbrev pub len : String → ℕ
len s = Prim.Native.String.len s

pub codes-append : (s t : String) → codes (s <> t) ≡ codes s ++ codes t
codes-append String.[] t = rw nil-append
codes-append (String.◌∷◌ c s) t = rw cons-append (rw (codes-append s t))

pub len-<> : (s t : String) → len (s <> t) ≡ len s + len t
len-<> s t = len-append s t

-- `u8::is_ascii_lowercase` and its siblings
abbrev pub is_ascii_lowercase : ℕ → Bool
is_ascii_lowercase c = leb b'a' c && leb c b'z'

abbrev pub is_ascii_uppercase : ℕ → Bool
is_ascii_uppercase c = leb b'A' c && leb c b'Z'

abbrev pub is_ascii_digit : ℕ → Bool
is_ascii_digit c = leb b'0' c && leb c b'9'

abbrev pub is_ascii_alphabetic : ℕ → Bool
is_ascii_alphabetic c = is_ascii_lowercase c || is_ascii_uppercase c

abbrev pub is_ascii_alphanumeric : ℕ → Bool
is_ascii_alphanumeric c = is_ascii_alphabetic c || is_ascii_digit c

abbrev pub is_ascii_hexdigit : ℕ → Bool
is_ascii_hexdigit c = is_ascii_digit c || (leb b'a' c && leb c b'f') || (leb b'A' c && leb c b'F')

abbrev pub is_ascii_control : ℕ → Bool
is_ascii_control c = leb c 31 || nat_beq c 127

-- `char::is_whitespace`: the code points of the Unicode property White_Space
abbrev pub is_whitespace : ℕ → Bool
is_whitespace c =
    (leb 9 c && leb c 13)
    || nat_beq c 32
    || nat_beq c 0x85
    || nat_beq c 0xa0
    || nat_beq c 0x1680
    || (leb 0x2000 c && leb c 0x200a)
    || nat_beq c 0x2028
    || nat_beq c 0x2029
    || nat_beq c 0x202f
    || nat_beq c 0x205f
    || nat_beq c 0x3000

-- `str::is_empty`
abbrev pub empty : String → Bool
empty String.[] = true
empty (String.◌∷◌ _ _) = false

-- `s.trim().is_empty()`
abbrev pub is_blank : String → Bool
is_blank s = all is_whitespace (codes s)

-- a test of the first byte, false on the empty text
abbrev pub first : (ℕ → Bool) → List ℕ → Bool
first p [] = false
first p (c ∷ _) = p c

-- a test of the last byte, false on the empty text
abbrev pub final : (ℕ → Bool) → List ℕ → Bool
final p [] = false
final p (c ∷ []) = p c
final p (_ ∷ d ∷ cs) = final p (d ∷ cs)

-- `strip_prefix`, on code points
abbrev pub strip : List ℕ → List ℕ → Option (List ℕ)
strip [] cs = some cs
strip (p ∷ ps) [] = none
strip (p ∷ ps) (c ∷ cs) = if nat_beq p c then strip ps cs else none

abbrev pub is_some {ℓ} : {A : Type ℓ} → Option A → Bool
is_some none = false
is_some (some _) = true

abbrev pub starts_with : String → String → Bool
starts_with s prefix = is_some (strip (codes prefix) (codes s))

-- `contains` of a text: at some position the text begins with it
abbrev pub occurs : List ℕ → List ℕ → Bool
occurs part [] = is_some (strip part [])
occurs part (c ∷ cs) = is_some (strip part (c ∷ cs)) || occurs part cs

abbrev pub codes_beq : List ℕ → List ℕ → Bool
codes_beq [] [] = true
codes_beq (c ∷ cs) (d ∷ ds) = nat_beq c d && codes_beq cs ds
codes_beq _ _ = false

-- `ends_with`: some tail is the suffix
abbrev pub ends_in : List ℕ → List ℕ → Bool
ends_in suffix [] = codes_beq suffix []
ends_in suffix (c ∷ cs) = codes_beq suffix (c ∷ cs) || ends_in suffix cs

abbrev pub ends_with : String → String → Bool
ends_with s suffix = ends_in (codes suffix) (codes s)

-- `split(sep)`: the parts between separators, at least one
abbrev pub put_front : ℕ → List (List ℕ) → List (List ℕ)
put_front c [] = (c ∷ []) ∷ []
put_front c (part ∷ parts) = (c ∷ part) ∷ parts

abbrev pub split : ℕ → List ℕ → List (List ℕ)
split sep [] = [] ∷ []
split sep (c ∷ cs) =
    let rest = split sep cs in if nat_beq c sep then [] ∷ rest else put_front c rest

pub strip-append : (p s : List ℕ) → strip p (p ++ s) ≡ some s
strip-append [] s = refl
strip-append (c ∷ p) s = ground (arith, strip-append p s)

pub starts_with-<> : (p s : String) → starts_with (p <> s) p ≡ true
starts_with-<> p s = rw (codes-append p s, strip-append (codes p) (codes s))

module _ (p : ℕ → Bool) where
  pub all-append : (xs ys : List ℕ) → all p (xs ++ ys) ≡ (all p xs && all p ys)
  all-append [] ys = refl
  all-append (x ∷ xs) ys = ground (arith, all-append xs ys)

-- one decimal digit
abbrev pub digit : ℕ → String
digit n =
    if nat_beq n 0
    then "0"
    else if nat_beq n 1
    then "1"
    else if nat_beq n 2
    then "2"
    else if nat_beq n 3
    then "3"
    else if nat_beq n 4
    then "4"
    else if nat_beq n 5
    then "5"
    else if nat_beq n 6
    then "6"
    else if nat_beq n 7
    then "7"
    else if nat_beq n 8
    then "8"
    else "9"

decimal_from : ℕ → ℕ → String
decimal_from zero n = ""
decimal_from (suc fuel) n =
    let high = decimal_from fuel (n / 10) in if leb n 9 then digit n else high <> digit (n % 10)

-- `{}` of an unsigned number; a number has fewer digits than its successor counts
unfoldable pub decimal : ℕ → String
unfolding decimal_from
decimal n = decimal_from (suc n) n

pub decimal-digit : (n : ℕ) → leb n 9 ≡ true → decimal n ≡ digit n
unfolding decimal decimal_from
decimal-digit n h = rw h refl

-- `strip_prefix`, on texts
abbrev pub strip_prefix : (prefix s : String) → Option String
strip_prefix String.[] s = some s
strip_prefix (String.◌∷◌ c p) String.[] = none
strip_prefix (String.◌∷◌ c p) (String.◌∷◌ d s) =
    if nat_beq (code c) (code d) then strip_prefix p s else none

pub strip_prefix-<> : (p s : String) → strip_prefix p (p <> s) ≡ some s
strip_prefix-<> String.[] s = rw nil-append refl
strip_prefix-<> (String.◌∷◌ c p) s =
    let here = (nat_beq_iff (code c) (code c)).1 refl in
    rw cons-append (rw here (strip_prefix-<> p s))

-- `replace('_', "-")`
abbrev pub dashes : String → String
dashes String.[] = ""
dashes (String.◌∷◌ c s) = (if nat_beq (code c) b'_' then "-" else String.◌∷◌ c "") <> dashes s
