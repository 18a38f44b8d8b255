-- ===== src/Log.antt =====
-- crates/lumic-platform/src/jsonl_store.rs: a log of records, one to a line of a file, that the event
-- store (event_store.rs) and the audit store (audit_store.rs) keep. A byte is its number.
pub mod Deque
pub mod Scan
pub mod Refines
use mathlib.Core.List.{reverse}
use lumic.Prelude.{
  ℕ, Bool, true, false, not, ◌≡◌, Option, none, some, List, [], ◌∷◌, ◌++◌, all, is_empty, length,
  nat_beq, if◌then◌else◌, String, ◌<>◌,
}
use lumic.Error.{Result, ok, err, internal, ◌>>=◌}

abbrev pub newline : ℕ
newline = 10

-- no byte of a record is a newline
abbrev pub is_plain : List ℕ → Bool
is_plain bytes = all (λ c. not (nat_beq c newline)) bytes

-- `serde_json::to_vec` and `from_slice` at the type of the records. What is written is read back,
-- and the compact form holds no line feed, since a control character in a text is escaped.
pub record Codec (T : Type 0) : Type 0 where
  pub encode : T → Option (List ℕ)
  pub decode : List ℕ → Option T
  pub decode-encode : (v : T) (bytes : List ℕ) → encode v ≡ some bytes → decode bytes ≡ some v
  pub plain : (v : T) (bytes : List ℕ) → encode v ≡ some bytes → is_plain bytes ≡ true

-- What stands at the path: nothing, a link or something else that is no regular file, or a file.
pub data LogFile : Type 0 where
  missing other : LogFile
  regular : (bytes : List ℕ) → LogFile

-- without the text of the library's error
abbrev pub io_error : {A : Type 0} → String → Result A
io_error name = err (internal (name <> " store I/O failed"))

abbrev pub json_error : {A : Type 0} → String → Result A
json_error name = err (internal (name <> " store data is invalid"))

-- what is in the file before the write, created where it is missing
abbrev pub open_append : String → LogFile → Result (List ℕ)
open_append name missing = ok []
open_append name other = io_error name
open_append name (regular bytes) = ok bytes

abbrev pub or_json_error : {A : Type 0} → String → Option A → Result A
or_json_error name none = json_error name
or_json_error name (some a) = ok a

module _ {T : Type 0} (codec : Codec T) (name : String) where
  -- `append`, whose one write goes through
  unfoldable pub append : LogFile → T → Result LogFile
  append file value = do
    line ← or_json_error name (codec.encode value)
    bytes ← open_append name file
    ok (regular (bytes ++ (line ++ newline ∷ [])))

  -- `values.pop_front()`
  abbrev pub pop_front : List T → List T
  pop_front [] = []
  pop_front (_ ∷ values) = values

  unfoldable pub push_back : ℕ → List T → T → List T
  push_back limit values value =
      (if nat_beq (length values) limit then pop_front values else values) ++ value ∷ []

  -- at the end of the file: a last line that has no newline counts only if it is a record
  abbrev pub last_line : ℕ → List T → List ℕ → List T
  last_line limit values line = elim (codec.decode line) [
    | none ↦ values
    | some value ↦ push_back limit values value
  ]

  -- The loop of `latest`, byte by byte: `line` is what `read_until` has gathered.
  unfoldable pub scan : ℕ → List T → List ℕ → List ℕ → Result (List T)
  scan limit values line [] = ok (if is_empty line then values else last_line limit values line)
  scan limit values line (c ∷ cs) = elim (nat_beq c newline) [
    | true ↦ elim (codec.decode line) [
      | none ↦ json_error name
      | some value ↦ scan limit (push_back limit values value) [] cs
    ]
    | false ↦ scan limit values (line ++ c ∷ []) cs
  ]

  -- the file of a limit that is not zero
  abbrev pub latest_in : ℕ → LogFile → Result (List T)
  latest_in limit missing = ok []
  latest_in limit other = io_error name
  latest_in limit (regular bytes) = do values ← scan limit [] [] bytes; ok (reverse values)

  unfoldable pub latest : LogFile → ℕ → Result (List T)
  latest file limit = if nat_beq limit 0 then ok [] else latest_in limit file
