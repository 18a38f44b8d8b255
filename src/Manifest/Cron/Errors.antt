-- ===== src/Manifest/Cron/Errors.antt =====
-- Which errors the reading of a schedule gives.
use lumic.Prelude.{
  ℕ, zero, suc, ◌≤◌, ◌≡◌, refl, subst, String, Bool, true, false, not, ◌&&◌, Option, none, some,
  List, [], ◌∷◌, leb, codes, codes_beq, ◌==◌, string_eq, decimal, digit, decimal-digit, Bool-cases,
  inl, inr, ◌⊎◌, arith, and-eq-true, leb-eq-true,
}
use lumic.Error.{
  LumicError, Result, ok, err, invalid, ensure, reject_if, ◌>>=◌, >>=-eq-ok, ok-injective,
  ensure-eq-ok,
}
use lumic.Manifest.Cron.{
  words_from, parse_u8, ranged, cron_field, weekday_name, on_weekday, calendar_of, cron_to_calendar,
}

-- every error is one of the input, about the schedule
abbrev pub IsScheduleError : LumicError → Type 0
IsScheduleError e = (message : String) × (e ≡ invalid "cron.schedule" message)

abbrev FailsOnSchedule : {A : Type 0} → Result A → Type 0
FailsOnSchedule r = (e : LumicError) → r ≡ err e → IsScheduleError e

>>=-FailsOnSchedule :
    {A B : Type 0} (first : Result A) (next : A → Result B)
    → FailsOnSchedule first
    → ((a : A) → first ≡ ok a → FailsOnSchedule (next a))
    → FailsOnSchedule (first >>= next)
>>=-FailsOnSchedule (err f) next here later e h = here e cc
>>=-FailsOnSchedule (ok a) next here later e h = later a refl e h

ensure-FailsOnSchedule :
    (b : Bool) (message : String) → FailsOnSchedule (ensure b (invalid "cron.schedule" message))
ensure-FailsOnSchedule true message e h = cc
ensure-FailsOnSchedule false message e h = (message, cc)

ranged-FailsOnSchedule :
    (minimum maximum : ℕ) (o : Option ℕ) → FailsOnSchedule (ranged minimum maximum o)
ranged-FailsOnSchedule minimum maximum none e h =
    ("schema version 1 supports only wildcard or single numeric cron fields", cc)
ranged-FailsOnSchedule minimum maximum (some n) e h =
    >>=-FailsOnSchedule (ensure (leb minimum n && leb n maximum) _) _ (ensure-FailsOnSchedule _ _)
      (λ a p f g. cc) e h

cron_field-FailsOnSchedule :
    (value : List ℕ) (minimum maximum : ℕ) → FailsOnSchedule (cron_field value minimum maximum)
unfolding cron_field
cron_field-FailsOnSchedule value minimum maximum e h =
    elim (Bool-cases (codes_beq value (b'*' ∷ []))) [
      | inl star ↦ let h' = rw star at h in cc
      | inr other ↦
          let h' = rw other at h in ranged-FailsOnSchedule minimum maximum (parse_u8 value) e h'
    ]

reject_if-FailsOnSchedule :
    (b : Bool) (message : String) → FailsOnSchedule (reject_if b (invalid "cron.schedule" message))
reject_if-FailsOnSchedule true message e h = (message, cc)
reject_if-FailsOnSchedule false message e h = cc

abbrev IsNamed : String → Type 0
IsNamed day = (day == "*" ≡ true) ⊎ ((name : String) × (weekday_name day ≡ some name))

digit-IsNamed : (n : ℕ) → n ≤ 7 → IsNamed (digit n)
digit-IsNamed zero h = inr ("Sun", refl)
digit-IsNamed (suc zero) h = inr ("Mon", refl)
digit-IsNamed (suc (suc zero)) h = inr ("Tue", refl)
digit-IsNamed (suc (suc (suc zero))) h = inr ("Wed", refl)
digit-IsNamed (suc (suc (suc (suc zero)))) h = inr ("Thu", refl)
digit-IsNamed (suc (suc (suc (suc (suc zero))))) h = inr ("Fri", refl)
digit-IsNamed (suc (suc (suc (suc (suc (suc zero)))))) h = inr ("Sat", refl)
digit-IsNamed (suc (suc (suc (suc (suc (suc (suc zero))))))) h = inr ("Sun", refl)
digit-IsNamed (suc (suc (suc (suc (suc (suc (suc (suc n)))))))) h = absurd (omega arith)

decimal-IsNamed : (n : ℕ) → n ≤ 7 → IsNamed (decimal n)
decimal-IsNamed n h = rw (decimal-digit n ((leb-eq-true n 9).1 (omega arith))) (digit-IsNamed n h)

ranged-IsNamed : (o : Option ℕ) (day : String) → ranged 0 7 o ≡ ok day → IsNamed day
ranged-IsNamed none day h = cc
ranged-IsNamed (some n) day h =
    let (_, within, h') = >>=-eq-ok (ensure (leb 0 n && leb n 7) _) _ h in
    let (_, most) = and-eq-true (leb 0 n) (leb n 7) (ensure-eq-ok _ _ within) in
    subst IsNamed (ok-injective h') (decimal-IsNamed n ((leb-eq-true n 7).0 most))

cron_field-IsNamed : (value : List ℕ) (day : String) → cron_field value 0 7 ≡ ok day → IsNamed day
unfolding cron_field
cron_field-IsNamed value day h = elim (Bool-cases (codes_beq value (b'*' ∷ []))) [
  | inl star ↦ let h' = rw star at h in subst IsNamed (ok-injective h') (inl refl)
  | inr other ↦ let h' = rw other at h in ranged-IsNamed (parse_u8 value) day h'
]

on_weekday-FailsOnSchedule :
    (date day : String) → IsNamed day → FailsOnSchedule (on_weekday date day)
on_weekday-FailsOnSchedule date day (inl star) e h = let h' = rw star at h in cc
on_weekday-FailsOnSchedule date day (inr (name, is)) e h = elim (Bool-cases (day == "*")) [
  | inl star ↦ let h' = rw star at h in cc
  | inr other ↦ let h' = rw (other, is) at h in cc
]

five-FailsOnSchedule : (a b c d f : List ℕ) → FailsOnSchedule (calendar_of (a ∷ b ∷ c ∷ d ∷ f ∷ []))
five-FailsOnSchedule a b c d f =
    >>=-FailsOnSchedule (cron_field a 0 59) _ (cron_field-FailsOnSchedule a 0 59) (λ minute _.
      >>=-FailsOnSchedule (cron_field b 0 23) _ (cron_field-FailsOnSchedule b 0 23) (λ hour _.
        >>=-FailsOnSchedule (cron_field c 1 31) _ (cron_field-FailsOnSchedule c 1 31) (λ day _.
          >>=-FailsOnSchedule (cron_field d 1 12) _ (cron_field-FailsOnSchedule d 1 12) (λ month _.
            >>=-FailsOnSchedule (cron_field f 0 7) _ (cron_field-FailsOnSchedule f 0 7)
              (λ weekday found.
                >>=-FailsOnSchedule (reject_if (not (day == "*") && not (weekday == "*")) _) _
                  (reject_if-FailsOnSchedule _ _)
                  (λ u _.
                    on_weekday-FailsOnSchedule _ weekday (cron_field-IsNamed f weekday found)))))))

calendar_of-FailsOnSchedule : (fields : List (List ℕ)) → FailsOnSchedule (calendar_of fields)
calendar_of-FailsOnSchedule [] e h = ("must be a five-field cron expression", cc)
calendar_of-FailsOnSchedule (_ ∷ []) e h = ("must be a five-field cron expression", cc)
calendar_of-FailsOnSchedule (_ ∷ _ ∷ []) e h = ("must be a five-field cron expression", cc)
calendar_of-FailsOnSchedule (_ ∷ _ ∷ _ ∷ []) e h = ("must be a five-field cron expression", cc)
calendar_of-FailsOnSchedule (_ ∷ _ ∷ _ ∷ _ ∷ []) e h = ("must be a five-field cron expression", cc)
calendar_of-FailsOnSchedule (a ∷ b ∷ c ∷ d ∷ f ∷ []) e h = five-FailsOnSchedule a b c d f e h
calendar_of-FailsOnSchedule (_ ∷ _ ∷ _ ∷ _ ∷ _ ∷ _ ∷ _) e h =
    ("must be a five-field cron expression", cc)

-- Every failure of the reading of a cron expression is an invalid input about the schedule; so the
-- arm for weekdays that the source takes to be unreachable, which is an internal error here, is
-- never reached.
pub cron_to_calendar-FailsOnSchedule :
    (expression : String) (e : LumicError) → cron_to_calendar expression ≡ err e → IsScheduleError e
unfolding cron_to_calendar
cron_to_calendar-FailsOnSchedule expression e h =
    calendar_of-FailsOnSchedule (words_from [] (codes expression)) e h
