-- ===== src/Witnesses/Logs.antt =====
-- Logs at concrete inputs: a record is a truth value, written as one letter.
use lumic.Prelude.{
  ℕ, ◌≡◌, refl, Bool, true, false, Option, none, some, List, [], ◌∷◌, ◌++◌, nat_beq, if◌then◌else◌,
  arith,
}
use lumic.Error.{ok}
use lumic.Log.{Codec, LogFile, regular, newline, is_plain, json_error, append, latest}
use lumic.Log.Scan.{Encodes, nothing, line_of}
use lumic.Log.Refines.{
  Represents, present, append-Represents, latest-Represents, latest_torn, torn_append_breaks,
}

abbrev letter : Bool → List ℕ
letter true = b't' ∷ []
letter false = b'f' ∷ []

abbrev of_letter : List ℕ → Option Bool
of_letter (c ∷ []) =
    if nat_beq c b't' then some true else if nat_beq c b'f' then some false else none
of_letter _ = none

letter-of_letter :
    (v : Bool) (bytes : List ℕ) → some (letter v) ≡ some bytes → of_letter bytes ≡ some v
letter-of_letter true bytes h = cc
letter-of_letter false bytes h = cc

letter-is_plain : (v : Bool) (bytes : List ℕ) → some (letter v) ≡ some bytes → is_plain bytes ≡ true
letter-is_plain true bytes h = cc
letter-is_plain false bytes h = cc

abbrev letters : Codec Bool
letters = record {
  encode = λ v. some (letter v);
  decode = of_letter;
  decode-encode = letter-of_letter;
  plain = letter-is_plain;
}

abbrev two_lines : List ℕ
two_lines = b't' ∷ newline ∷ b'f' ∷ newline ∷ []

two_records : Encodes letters (true ∷ false ∷ []) two_lines
two_records = line_of true (b't' ∷ []) refl (line_of false (b'f' ∷ []) refl nothing)

append-Represents_example :
    (file : LogFile) × (append letters "event" (regular two_lines) true ≡ ok file)
    × Represents letters file (true ∷ false ∷ true ∷ [])
append-Represents_example =
    append-Represents letters "event" (regular two_lines) (true ∷ false ∷ []) true (b't' ∷ []) refl
      (present two_records)

latest-Represents_example : latest letters "event" (regular two_lines) 1 ≡ ok (false ∷ [])
latest-Represents_example =
    latest-Represents letters "event" (regular two_lines) (true ∷ false ∷ []) 1
      (present two_records)

latest_torn_example :
    latest letters "event" (regular (two_lines ++ b'x' ∷ [])) 5 ≡ ok (false ∷ true ∷ [])
latest_torn_example =
    latest_torn letters "event" (true ∷ false ∷ []) two_lines (b'x' ∷ []) 5 two_records refl refl

abbrev joined : List ℕ
joined = two_lines ++ (b'x' ∷ b't' ∷ newline ∷ [])

appended : append letters "event" (regular (two_lines ++ b'x' ∷ [])) true ≡ ok (regular joined)
unfolding append
appended = refl

torn_append_breaks_example :
    (regular joined ≡ regular joined)
    × (latest letters "event" (regular (two_lines ++ b'x' ∷ b't' ∷ newline ∷ b'f' ∷ newline ∷ [])) 5
        ≡ json_error "event")
torn_append_breaks_example =
    torn_append_breaks letters "event" (true ∷ false ∷ []) two_lines (b'x' ∷ []) (b't' ∷ []) true
      (regular joined) (b'f' ∷ newline ∷ []) 5 two_records refl refl refl (omega arith) appended
