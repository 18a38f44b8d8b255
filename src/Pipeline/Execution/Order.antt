-- ===== src/Pipeline/Execution/Order.antt =====
-- The steps of an execution run in the declared order, one at a time.
use mathlib.Core.List
use mathlib.Core.List.{reverse, reverse-append, reverse-cons}
use lumic.Prelude.{
  keep-append, String, ◌≡◌, refl, ◌⊎◌, inl, inr, Bool, true, false, not, Option, none, some, List,
  [], ◌∷◌, ◌++◌, arith, ◌==◌, string_eq, map, any, keep, Bool-cases, if◌then◌else◌, ap,
}
use lumic.Pipeline.{PipelineStep}
use lumic.Pipeline.Execution.{
  StepStatus, StepJournalEntry, PipelineExecution, is_step, pending_entry, Located, locate,
  push_before, put_back, recovery_order,
}

abbrev pub AllPending : List StepJournalEntry → Type 0
AllPending [] = Unit
AllPending (s ∷ steps) = (s.status ≡ StepStatus.pending) × AllPending steps

-- what may stand behind a step with a status
abbrev pub Behind : StepStatus → Type 0 → Type 0 → Type 0
Behind StepStatus.succeeded ordered waiting = ordered
Behind StepStatus.running ordered waiting = waiting
Behind StepStatus.failed ordered waiting = waiting
Behind StepStatus.pending ordered waiting = waiting
Behind StepStatus.recovered ordered waiting = ⊥
Behind StepStatus.recovery_failed ordered waiting = ⊥

-- Steps that succeeded, then one at most that runs or has failed, then steps that wait.
abbrev pub InOrder : List StepJournalEntry → Type 0
InOrder [] = Unit
InOrder (s ∷ steps) = Behind s.status (InOrder steps) (AllPending steps)

pub AllPending-InOrder : (steps : List StepJournalEntry) → AllPending steps → InOrder steps
AllPending-InOrder [] p = tt
AllPending-InOrder (s ∷ steps) (e, p) = rw e p

pub AllPending-map :
    {V : Type 0} (steps : List (PipelineStep V)) → AllPending (map pending_entry steps)
AllPending-map [] = tt
AllPending-map (s ∷ steps) = (refl, AllPending-map steps)

-- the located step stands between the two parts
pub locate-parts :
    (step_id : String) (steps : List StepJournalEntry) (l : Located)
    → locate step_id steps ≡ some l
    → steps ≡ put_back l l.step
unfolding locate
locate-parts step_id [] l h = cc
locate-parts step_id (s ∷ steps) l h = elim (Bool-cases (s.step_id == step_id)) [
  | inl e ↦ let q : record { before = []; step = s; after = steps } ≡ l = cc (rw e at h) in rw (← q)
  | inr e ↦ push (locate step_id steps) (locate-parts step_id steps) (rw e at h)
]
  where
    push :
        (o : Option Located)
        → ((k : Located) → o ≡ some k → steps ≡ put_back k k.step)
        → push_before s o ≡ some l
        → s ∷ steps ≡ put_back l l.step
    push none ih q = cc
    push (some k) ih q =
        let r : record k { before = s ∷ k.before } ≡ l = cc in
        rw (← r) (ap (λ xs. s ∷ xs) (ih k refl))

abbrev pub AllSucceeded : List StepJournalEntry → Type 0
AllSucceeded steps = any (λ s. not (is_step s.status StepStatus.succeeded)) steps ≡ false

pub status-eq : (a b : StepStatus) → is_step a b ≡ true → a ≡ b
status-eq a b h = ground arith

-- a running or pending step has only steps that succeeded before it
AllPending-middle :
    (before : List StepJournalEntry) (s : StepJournalEntry) (after : List StepJournalEntry)
    → AllPending (before ++ (s ∷ after))
    → s.status ≡ StepStatus.pending
AllPending-middle [] s after p = p.0
AllPending-middle (b ∷ before) s after p = AllPending-middle before s after p.1

abbrev status-cases : StepStatus → Type 0
status-cases a = (a ≡ StepStatus.succeeded) ⊎ (is_step a StepStatus.succeeded ≡ false)

succeeded_or_not : (a : StepStatus) → status-cases a
succeeded_or_not a = ground arith

InOrder-stuck :
    (b : StepJournalEntry) (steps : List StepJournalEntry)
    → is_step b.status StepStatus.succeeded ≡ false
    → InOrder (b ∷ steps)
    → AllPending steps
InOrder-stuck b steps h o = ground arith

pub InOrder-running :
    (before : List StepJournalEntry) (s : StepJournalEntry) (after : List StepJournalEntry)
    → s.status ≡ StepStatus.running
    → InOrder (before ++ (s ∷ after))
    → AllSucceeded before × AllPending after
InOrder-running [] s after r o = (refl, rw r at o)
InOrder-running (b ∷ before) s after r o = elim (succeeded_or_not b.status) [
  | inl e ↦
      let (done, waiting) = InOrder-running before s after r (rw e at o) in (rw e done, waiting)
  | inr n ↦
      absurd
        (cc (r, AllPending-middle before s after (InOrder-stuck b (before ++ (s ∷ after)) n o)))
]

pub InOrder-pending :
    (before : List StepJournalEntry) (s : StepJournalEntry) (after : List StepJournalEntry)
    → s.status ≡ StepStatus.pending
    → AllSucceeded before
    → InOrder (before ++ (s ∷ after))
    → AllPending after
InOrder-pending [] s after r done o = rw r at o
InOrder-pending (b ∷ before) s after r done o =
    let e : b.status ≡ StepStatus.succeeded = ground arith in
    InOrder-pending before s after r (rw e at done) (rw e at o)

pub InOrder-build :
    (before : List StepJournalEntry) (s : StepJournalEntry) (after : List StepJournalEntry)
    → AllSucceeded before
    → InOrder (s ∷ after)
    → InOrder (before ++ (s ∷ after))
InOrder-build [] s after done o = o
InOrder-build (b ∷ before) s after done o =
    let e : b.status ≡ StepStatus.succeeded = ground arith in
    rw e (InOrder-build before s after (rw e at done) o)

-- the ids of the steps that succeeded, up to the first that did not
abbrev pub done_ids : List StepJournalEntry → List String
done_ids [] = []
done_ids (s ∷ steps) =
    let rest = done_ids steps in
    if is_step s.status StepStatus.succeeded then s.step_id ∷ rest else []

keep_of_AllPending :
    (steps : List StepJournalEntry)
    → AllPending steps
    → keep (λ s. is_step s.status StepStatus.succeeded) steps ≡ []
keep_of_AllPending [] p = refl
keep_of_AllPending (s ∷ steps) (e, p) = rw e (keep_of_AllPending steps p)

keep-reverse : {A : Type 0} (p : A → Bool) (xs : List A) → keep p (reverse xs) ≡ reverse (keep p xs)
keep-reverse p [] = refl
keep-reverse p (x ∷ xs) = elim (Bool-cases (p x)) [
  | inl e ↦ simp (reverse-cons, keep-append, keep-reverse p xs, e)
  | inr e ↦ simp (reverse-cons, keep-append, keep-reverse p xs, e, List.append-nil)
]

done_ids_of_InOrder :
    (steps : List StepJournalEntry)
    → InOrder steps
    → map (λ s. s.step_id) (keep (λ s. is_step s.status StepStatus.succeeded) steps)
      ≡ done_ids steps
done_ids_of_InOrder [] o = refl
done_ids_of_InOrder (s ∷ steps) o = elim (succeeded_or_not s.status) [
  | inl e ↦ rw e (ap (λ r. s.step_id ∷ r) (done_ids_of_InOrder steps (rw e at o)))
  | inr n ↦ rw n (rw (keep_of_AllPending steps (InOrder-stuck s steps n o)))
]

map-reverse : {A B : Type 0} (f : A → B) (xs : List A) → map f (reverse xs) ≡ reverse (map f xs)
map-reverse f [] = refl
map-reverse f (x ∷ xs) = simp (reverse-cons, List.map-append, map-reverse f xs)

-- Where the steps of an execution are in order, recovery goes over exactly the steps that succeeded
-- before the first that did not, the last of them first.
pub recovery_order-reverse :
    (e : PipelineExecution) → InOrder e.steps → recovery_order e ≡ reverse (done_ids e.steps)
unfolding recovery_order
recovery_order-reverse e o =
    rw (keep-reverse _ e.steps) (rw map-reverse (ap reverse (done_ids_of_InOrder e.steps o)))
