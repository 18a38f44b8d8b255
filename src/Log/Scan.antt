-- ===== src/Log/Scan.antt =====
-- What the loop of `latest` makes of whole lines, of a broken line and of a torn one.
use mathlib.Core.List.{append-nil, append_assoc}
use lumic.Prelude.{
  ℕ, ◌<◌, ◌≡◌, refl, ap, ◌∙◌, sym, subst, Bool, true, false, not, none, some, List, [], ◌∷◌, ◌++◌,
  arith, String, is_empty, nat_beq, and-eq-true, if◌then◌else◌,
}
use lumic.Error.{ok}
use lumic.Log.{Codec, newline, is_plain, json_error, push_back, last_line, scan}
use lumic.Log.Deque.{Holds, push_back-Holds}

not-true : (b : Bool) → not b ≡ true → b ≡ false
not-true b h = ground arith

-- one byte moved to the line that is read
append_byte : (line rest : List ℕ) (c : ℕ) → (line ++ c ∷ []) ++ rest ≡ line ++ c ∷ rest
append_byte line rest c = append_assoc line (c ∷ []) rest

module _ {T : Type 0} (codec : Codec T) (name : String) (limit : ℕ) where
  pub scan-record :
      (values : List T) (line rest cs : List ℕ) (v : T)
      → is_plain rest ≡ true
      → codec.decode (line ++ rest) ≡ some v
      → scan codec name limit values line (rest ++ newline ∷ cs)
        ≡ scan codec name limit (push_back codec name limit values v) [] cs
  unfolding scan
  scan-record values line [] cs v p d = let here = rw (append-nil line) at d in rw here
  scan-record values line (c ∷ rest) cs v p d =
      let (here, more) = and-eq-true (not (nat_beq c newline)) (is_plain rest) p in
      rw (not-true _ here, scan)
        (scan-record values (line ++ c ∷ []) rest cs v more (rw (append_byte line rest c) d))

  pub scan-broken :
      (values : List T) (line rest cs : List ℕ)
      → is_plain rest ≡ true
      → codec.decode (line ++ rest) ≡ none
      → scan codec name limit values line (rest ++ newline ∷ cs) ≡ json_error name
  unfolding scan
  scan-broken values line [] cs p d = let here = rw (append-nil line) at d in rw here
  scan-broken values line (c ∷ rest) cs p d =
      let (here, more) = and-eq-true (not (nat_beq c newline)) (is_plain rest) p in
      rw (not-true _ here, scan)
        (scan-broken values (line ++ c ∷ []) rest cs more (rw (append_byte line rest c) d))

  pub scan-tail :
      (values : List T) (line rest : List ℕ)
      → is_plain rest ≡ true
      → codec.decode (line ++ rest) ≡ none
      → scan codec name limit values line rest ≡ ok values
  unfolding scan
  scan-tail values line [] p d = at_end line (rw (append-nil line) at d)
    where
      at_end :
          (line : List ℕ)
          → codec.decode line ≡ none
          → ok (if is_empty line then values else last_line codec name limit values line)
            ≡ ok values
      at_end [] d = refl
      at_end (c ∷ cs) d = rw (d, last_line)
  scan-tail values line (c ∷ rest) p d =
      let (here, more) = and-eq-true (not (nat_beq c newline)) (is_plain rest) p in
      rw (not-true _ here, scan)
        (scan-tail values (line ++ c ∷ []) rest more (rw (append_byte line rest c) d))

-- the bytes of the records, each on a line of its own
pub data Encodes {T : Type 0} (codec : Codec T) : List T → List ℕ → Type 0 where
  nothing : Encodes codec [] []
  line_of :
      {history : List T} {bytes : List ℕ} (v : T) (line : List ℕ)
      → codec.encode v ≡ some line
      → Encodes codec history bytes
      → Encodes codec (v ∷ history) (line ++ newline ∷ bytes)

module _ {T : Type 0} (codec : Codec T) (name : String) (limit : ℕ) where
  -- the queue and the loop behind the records
  pub record Scanned (values past history : List T) (bytes cs : List ℕ) : Type 0 where
    pub queue : List T
    pub moved : scan codec name limit values [] (bytes ++ cs) ≡ scan codec name limit queue [] cs
    pub holds : Holds codec name limit queue (past ++ history)

  pub scan-Encodes :
      (values past : List T) {history : List T} {bytes : List ℕ} (cs : List ℕ)
      → 0 < limit
      → Holds codec name limit values past
      → Encodes codec history bytes
      → Scanned values past history bytes cs
  scan-Encodes values past cs pos h nothing = record {
    queue = values;
    moved = refl;
    holds = subst (Holds codec name limit values) (sym (append-nil past)) h;
  }
  scan-Encodes values past cs pos h (line_of {history} {bytes} v line e rest) =
      let next =
        scan-Encodes (push_back codec name limit values v) (past ++ v ∷ []) cs pos
          (push_back-Holds codec name limit values past v pos h) rest in
      record {
        queue = next.queue;
        moved =
            ap (scan codec name limit values []) (append_assoc line (newline ∷ bytes) cs)
            ∙ scan-record codec name limit values [] line (bytes ++ cs) v (codec.plain v line e)
                (codec.decode-encode v line e)
            ∙ next.moved;
        holds =
            subst (Holds codec name limit next.queue) (append_assoc past (v ∷ []) history)
              next.holds;
      }
