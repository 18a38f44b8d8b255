-- ===== src/Log/Refines.antt =====
-- The log is the list of its records: what `append` and `latest` do to the file is what a list does.
use mathlib.Core.List.{reverse, append-nil, append_assoc}
use lumic.Prelude.{
  ℕ, zero, suc, ◌<◌, ◌≡◌, refl, ap, ◌∙◌, sym, subst, true, false, not, none, some, List, [], ◌∷◌,
  ◌++◌, arith, String, Bool-cases, nat_beq, inl, inr, all-append, if◌then◌else◌,
}
use lumic.Error.{ok, ok-injective}
use lumic.Log.{
  Codec, LogFile, missing, other, regular, newline, is_plain, json_error, append, scan, latest,
  latest_in,
}
use lumic.Log.Deque.{take}
use lumic.Log.Scan.{Encodes, nothing, line_of, scan-broken, scan-tail, scan-Encodes}

module _ {T : Type 0} (codec : Codec T) where
  -- the file holds the records of a history, the oldest first, and nothing more
  pub data Represents : LogFile → List T → Type 0 where
    absent : Represents missing []
    present :
        {history : List T} {bytes : List ℕ}
        → Encodes codec history bytes
        → Represents (regular bytes) history

  Encodes-snoc :
      {history : List T} {bytes : List ℕ} (v : T) (line : List ℕ)
      → codec.encode v ≡ some line
      → Encodes codec history bytes
      → Encodes codec (history ++ v ∷ []) (bytes ++ (line ++ newline ∷ []))
  Encodes-snoc v line e nothing = line_of v line e nothing
  Encodes-snoc v line e (line_of {history} {bytes} w first f rest) =
      subst (Encodes codec (w ∷ history ++ v ∷ []))
        (sym (append_assoc first (newline ∷ bytes) (line ++ newline ∷ [])))
        (line_of w first f (Encodes-snoc v line e rest))

not_zero : (n : ℕ) → 0 < n → nat_beq n 0 ≡ false
not_zero n h = ground arith

module _ {T : Type 0} (codec : Codec T) (name : String) where
  -- Where the file holds the records of a history and a record can be encoded, appending it
  -- succeeds, and the file then holds the history with the record at its end.
  pub append-Represents :
      (file : LogFile) (history : List T) (v : T) (line : List ℕ)
      → codec.encode v ≡ some line
      → Represents codec file history
      → (file' : LogFile) × (append codec name file v ≡ ok file')
        × Represents codec file' (history ++ v ∷ [])
  unfolding append
  append-Represents missing history v line e absent =
      (regular (line ++ newline ∷ []), rw e, present (line_of v line e nothing))
  append-Represents other history v line e r = elim r [ ]
  append-Represents (regular bytes) history v line e (present written) = (
    regular (bytes ++ (line ++ newline ∷ [])),
    rw e,
    present (Encodes-snoc codec v line e written),
  )

  take_nil : (n : ℕ) → take n (reverse {A = T} []) ≡ []
  take_nil zero = refl
  take_nil (suc n) = refl

  latest_in-tail :
      (history : List T) (bytes tail : List ℕ) (limit : ℕ)
      → 0 < limit
      → Encodes codec history bytes
      → is_plain tail ≡ true
      → codec.decode tail ≡ none
      → latest_in codec name limit (regular (bytes ++ tail)) ≡ ok (take limit (reverse history))
  latest_in-tail history bytes tail limit pos written p d =
      let s = scan-Encodes codec name limit [] [] tail pos (sym (take_nil limit)) written in
      rw (s.moved ∙ scan-tail codec name limit s.queue [] tail p d) (ap ok s.holds)

  latest_in-present :
      (history : List T) (bytes : List ℕ) (limit : ℕ)
      → 0 < limit
      → Encodes codec history bytes
      → latest_in codec name limit (regular bytes) ≡ ok (take limit (reverse history))
  unfolding scan
  latest_in-present history bytes limit pos written =
      let s = scan-Encodes codec name limit [] [] [] pos (sym (take_nil limit)) written in
      rw (ap (scan codec name limit [] []) (sym (append-nil bytes)) ∙ s.moved) (ap ok s.holds)

  -- of a limit that is zero nothing is read
  latest_pos :
      (file : LogFile) (limit : ℕ) (records : List T)
      → (0 < limit → latest_in codec name limit file ≡ ok records)
      → latest codec name file limit ≡ ok (if nat_beq limit 0 then [] else records)
  unfolding latest
  latest_pos file limit records h = elim (Bool-cases (nat_beq limit 0)) [
    | inl e ↦ rw e refl
    | inr e ↦ rw e (h (ground arith))
  ]

  take_zero :
      (limit : ℕ) (xs : List T) → (if nat_beq limit 0 then [] else take limit xs) ≡ take limit xs
  take_zero zero xs = refl
  take_zero (suc n) xs = rw (not_zero (suc n) (omega arith)) refl

  -- Where the file holds the records of a history, `latest` gives the newest of them, the newest
  -- first, up to the limit.
  pub latest-Represents :
      (file : LogFile) (history : List T) (limit : ℕ)
      → Represents codec file history
      → latest codec name file limit ≡ ok (take limit (reverse history))
  latest-Represents missing history limit absent =
      latest_pos missing limit (take limit []) (λ pos. ap ok (sym (take_nil limit)))
      ∙ ap ok (take_zero limit [])
  latest-Represents other history limit r = elim r [ ]
  latest-Represents (regular bytes) history limit (present written) =
      latest_pos (regular bytes) limit (take limit (reverse history))
        (λ pos. latest_in-present history bytes limit pos written)
      ∙ ap ok (take_zero limit (reverse history))

  -- Where the records of a history are followed by a line that has no newline and is no record,
  -- `latest` passes over it and gives the newest of the records.
  pub latest_torn :
      (history : List T) (bytes tail : List ℕ) (limit : ℕ)
      → Encodes codec history bytes
      → is_plain tail ≡ true
      → codec.decode tail ≡ none
      → latest codec name (regular (bytes ++ tail)) limit ≡ ok (take limit (reverse history))
  latest_torn history bytes tail limit written p d =
      latest_pos (regular (bytes ++ tail)) limit (take limit (reverse history))
        (λ pos. latest_in-tail history bytes tail limit pos written p d)
      ∙ ap ok (take_zero limit (reverse history))

  broken_in :
      (history : List T) (bytes line more : List ℕ) (limit : ℕ)
      → 0 < limit
      → Encodes codec history bytes
      → is_plain line ≡ true
      → codec.decode line ≡ none
      → latest_in codec name limit (regular (bytes ++ (line ++ newline ∷ more))) ≡ json_error name
  broken_in history bytes line more limit pos written p d =
      let s =
        scan-Encodes codec name limit [] [] (line ++ newline ∷ more) pos (sym (take_nil limit))
          written in
      rw (s.moved ∙ scan-broken codec name limit s.queue [] line more p d) refl

  -- An append behind a line that has no newline joins its record to that line; if the two are no
  -- record, `latest` with a limit above zero fails, whatever bytes follow.
  pub torn_append_breaks :
      (history : List T) (bytes tail line : List ℕ) (v : T) (file : LogFile) (more : List ℕ)
      (limit : ℕ)
      → Encodes codec history bytes
      → is_plain tail ≡ true
      → codec.encode v ≡ some line
      → codec.decode (tail ++ line) ≡ none
      → 0 < limit
      → append codec name (regular (bytes ++ tail)) v ≡ ok file
      → (file ≡ regular (bytes ++ ((tail ++ line) ++ newline ∷ [])))
        × (latest codec name (regular (bytes ++ ((tail ++ line) ++ newline ∷ more))) limit
            ≡ json_error name)
  unfolding append latest
  torn_append_breaks history bytes tail line v file more limit written p e d pos h = (
    sym (ok-injective (rw e at h)) ∙ ap regular (regroup bytes tail line (newline ∷ [])),
    rw (not_zero limit pos) (
        broken_in history bytes (tail ++ line) more limit pos written
          (all-append (λ c. not (nat_beq c newline)) tail line
            ∙ rw p (rw (codec.plain v line e) refl))
          d),
  )
    where
      regroup : (a b c d : List ℕ) → (a ++ b) ++ (c ++ d) ≡ a ++ ((b ++ c) ++ d)
      regroup a b c d = simp (append_assoc)
