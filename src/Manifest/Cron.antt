-- ===== src/Manifest/Cron.antt =====
-- crates/lumic-core/src/application_manifest.rs: `cron_to_calendar` and `cron_field`.
pub mod Errors
use lumic.Prelude.{
  ℕ, ◌+◌, ◌-◌, ◌*◌, ◌≤◌, ◌≡◌, refl, ap, sym, ◌∙◌, subst, String, Bool, true, false, not, ◌&&◌,
  Option, none, some, List, [], ◌∷◌, ◌++◌, leb, nat_beq, codes, codes_beq, ◌<>◌, ◌==◌, string_eq,
  decimal, is_ascii_digit, is_whitespace, is_empty, Bool-cases, inl, inr, ◌⊎◌, arith, and-eq-true,
  not-eq-false, leb-eq-true, if◌then◌else◌, put_front,
}
use lumic.Error.{LumicError, Result, ok, err, invalid, internal, ensure, reject_if, ◌>>=◌, ◌>>◌}

-- `split_whitespace`: the parts between runs of whitespace, none of them empty
abbrev pub put_word : List ℕ → List (List ℕ) → List (List ℕ)
put_word [] words = words
put_word (c ∷ cs) words = (c ∷ cs) ∷ words

unfoldable pub words_from : List ℕ → List ℕ → List (List ℕ)
words_from word [] = put_word word []
words_from word (c ∷ cs) = elim (is_whitespace c) [
  | true ↦ put_word word (words_from [] cs)
  | false ↦ words_from (word ++ c ∷ []) cs
]

unfoldable pub digits_value : ℕ → List ℕ → Option ℕ
digits_value value [] = some value
digits_value value (c ∷ cs) = elim (is_ascii_digit c) [
  | true ↦ digits_value (value * 10 + (c - b'0')) cs
  | false ↦ none
]

abbrev pub bounded : ℕ → Option ℕ → Option ℕ
bounded most none = none
bounded most (some n) = if leb n most then some n else none

-- `str::parse::<u8>`: digits behind at most one plus sign
abbrev pub parse_u8 : List ℕ → Option ℕ
parse_u8 [] = none
parse_u8 (c ∷ []) = bounded 255 (digits_value 0 (c ∷ []))
parse_u8 (c ∷ d ∷ cs) = bounded 255 (digits_value 0 (if nat_beq c b'+' then d ∷ cs else c ∷ d ∷ cs))

abbrev pub ranged : ℕ → ℕ → Option ℕ → Result String
ranged minimum maximum none = err (
    invalid "cron.schedule" "schema version 1 supports only wildcard or single numeric cron fields")
ranged minimum maximum (some number) = do
  ensure (leb minimum number && leb number maximum)
      (invalid "cron.schedule" "contains an out-of-range field")
  ok (decimal number)

unfoldable pub cron_field : List ℕ → ℕ → ℕ → Result String
cron_field value minimum maximum =
    if codes_beq value (b'*' ∷ []) then ok "*" else ranged minimum maximum (parse_u8 value)

-- the arm that the source takes to be unreachable is `none`
abbrev pub weekday_name : String → Option String
weekday_name day =
    if (day == "0")
    then some "Sun"
    else if (day == "7")
    then some "Sun"
    else if (day == "1")
    then some "Mon"
    else if (day == "2")
    then some "Tue"
    else if (day == "3")
    then some "Wed"
    else if (day == "4")
    then some "Thu"
    else if (day == "5")
    then some "Fri"
    else if (day == "6")
    then some "Sat"
    else none

-- A panic is an internal error here, which no other path of the function gives.
abbrev pub named : String → Option String → Result String
named date none = err (internal "entered unreachable code: validated weekday")
named date (some name) = ok (name <> (" " <> date))

abbrev pub on_weekday : String → String → Result String
on_weekday date weekday = if weekday == "*" then ok date else named date (weekday_name weekday)

abbrev pub calendar_of : List (List ℕ) → Result String
calendar_of (minute_field ∷ hour_field ∷ day_field ∷ month_field ∷ weekday_field ∷ []) = do
  minute ← cron_field minute_field 0 59
  hour ← cron_field hour_field 0 23
  day ← cron_field day_field 1 31
  month ← cron_field month_field 1 12
  weekday ← cron_field weekday_field 0 7
  reject_if (not (day == "*") && not (weekday == "*")) (
      invalid "cron.schedule"
        "schema version 1 cannot combine day-of-month and day-of-week constraints")
  on_weekday ("*-" <> (month <> ("-" <> (day <> (" " <> (hour <> (":" <> (minute <> ":00"))))))))
      weekday
calendar_of _ = err (invalid "cron.schedule" "must be a five-field cron expression")

unfoldable pub cron_to_calendar : String → Result String
cron_to_calendar expression = calendar_of (words_from [] (codes expression))
