-- ===== src/Pipeline/Execution/Journal.antt =====
-- What holds of every execution that `planned`, `transition`, `start_step` and `finish_step` lead to.
use lumic.Prelude.{
  ℕ, ◌≤◌, String, ◌≡◌, refl, ap, Bool, false, Option, none, some, List, [], ◌∷◌, ◌++◌, arith, map,
  All, if◌then◌else◌, subst,
}
use lumic.Error.{ok, >>=-eq-ok, ok-injective}
use lumic.Json.{Json}
use lumic.Resource.{validate_resource_id}
use lumic.Pipeline.{Pipeline, PipelineStep, validate_pipeline}
use lumic.Pipeline.Execution.{
  StepStatus, StepJournalEntry, PipelineStatus, PipelineExecution, is_later, pending_entry,
  plan_execution, Located, or_unknown,
}
use lumic.Pipeline.Execution.Order.{InOrder, AllPending-InOrder, AllPending-map}

-- the times that a step with a status has, none of them behind `now`
abbrev pub Times : StepStatus → ℕ → Option ℕ → Option ℕ → Type 0
Times StepStatus.pending now none none = Unit
Times StepStatus.running now (some t) none = t ≤ now
Times StepStatus.succeeded now (some t) (some u) = (t ≤ u) × (u ≤ now)
Times StepStatus.failed now (some t) (some u) = (t ≤ u) × (u ≤ now)
Times _ now _ _ = ⊥

abbrev pub IsTimed : ℕ → StepJournalEntry → Type 0
IsTimed now s = Times s.status now s.started_at_unix_ms s.finished_at_unix_ms

abbrev pub ids_of : PipelineExecution → List String
ids_of e = map (λ s. s.step_id) e.steps

-- The journal is in order, the clock has not moved backwards, and each step has the times that its
-- status calls for: started before finished, neither later than the last update.
pub record IsWellFormed (e : PipelineExecution) : Type 0 where
  pub ordered : InOrder e.steps
  pub timed : All (IsTimed e.updated_at_unix_ms) e.steps
  pub created : e.created_at_unix_ms ≤ e.updated_at_unix_ms

Times-mono :
    (a : StepStatus) (now later : ℕ) (t u : Option ℕ)
    → now ≤ later
    → Times a now t u
    → Times a later t u
Times-mono StepStatus.pending now later none none le h = tt
Times-mono StepStatus.running now later (some t) none le h = omega arith
Times-mono StepStatus.succeeded now later (some t) (some u) le h = omega arith
Times-mono StepStatus.failed now later (some t) (some u) le h = omega arith
Times-mono _ now later t u le h = absurd h

pub IsTimed-mono :
    (now later : ℕ) (steps : List StepJournalEntry)
    → now ≤ later
    → All (IsTimed now) steps
    → All (IsTimed later) steps
IsTimed-mono now later [] le h = tt
IsTimed-mono now later (s ∷ steps) le h = (
  Times-mono s.status now later s.started_at_unix_ms s.finished_at_unix_ms le h.0,
  IsTimed-mono now later steps le h.1,
)

pub All-middle :
    (P : StepJournalEntry → Type 0) (before : List StepJournalEntry) (s : StepJournalEntry)
    (after : List StepJournalEntry)
    → All P (before ++ (s ∷ after))
    → All P before × P s × All P after
All-middle P [] s after h = (tt, h.0, h.1)
All-middle P (b ∷ before) s after h =
    let (p, q, r) = All-middle P before s after h.1 in ((h.0, p), q, r)

pub All-replace :
    (P : StepJournalEntry → Type 0) (before : List StepJournalEntry) (s : StepJournalEntry)
    (after : List StepJournalEntry)
    → All P before
    → P s
    → All P after
    → All P (before ++ (s ∷ after))
All-replace P [] s after p q r = (q, r)
All-replace P (b ∷ before) s after p q r = (p.0, All-replace P before s after p.1 q r)

pub or_unknown-ok : (o : Option Located) (l : Located) → or_unknown o ≡ ok l → o ≡ some l
or_unknown-ok none l h = absurd (cc)
or_unknown-ok (some k) l h = ap some (cc)

pending-IsTimed :
    {V : Type 0} (now : ℕ) (steps : List (PipelineStep V))
    → All (IsTimed now) (map pending_entry steps)
pending-IsTimed now [] = tt
pending-IsTimed now (s ∷ steps) = (tt, pending-IsTimed now steps)

-- a planned execution is well-formed: nothing has run
pub plan_execution-IsWellFormed :
    {V : Type 0} ⦃json : Json V⦄ (id : String) (pipeline : Pipeline V) (now : ℕ)
    (e : PipelineExecution)
    → plan_execution id pipeline now ≡ ok e
    → IsWellFormed e × (e.status ≡ PipelineStatus.planned)
unfolding plan_execution
plan_execution-IsWellFormed id pipeline now e h =
    let (_, _, h₁) = >>=-eq-ok (validate_pipeline pipeline) _ h in
    let (_, _, h₂) = >>=-eq-ok (validate_resource_id "execution.id" id) _ h₁ in
    subst (λ x. IsWellFormed x × (x.status ≡ PipelineStatus.planned)) (ok-injective h₂)
      (
        record {
          ordered = AllPending-InOrder _ (AllPending-map pipeline.steps);
          timed = pending-IsTimed now pipeline.steps;
          created = omega arith;
        },
        refl,
      )

unfinished :
    (a : StepStatus) (now : ℕ) (t u : Option ℕ)
    → a ≡ StepStatus.pending
    → Times a now t u
    → u ≡ none
unfinished a now t u p h = ground arith

pub running-Times :
    (s : StepJournalEntry) (now : ℕ)
    → s.status ≡ StepStatus.pending
    → IsTimed now s
    → Times StepStatus.running now (some now) s.finished_at_unix_ms
running-Times s now p h =
    rw (unfinished s.status now s.started_at_unix_ms s.finished_at_unix_ms p h) (omega arith)

abbrev pub outcome : Bool → StepStatus
outcome done = if done then StepStatus.succeeded else StepStatus.failed

pub finished-Times :
    (done : Bool) (a : StepStatus) (now : ℕ) (t u : Option ℕ)
    → a ≡ StepStatus.running
    → Times a now t u
    → is_later t now ≡ false
    → Times (outcome done) now t (some now)
finished-Times done a now t u p h k = ground arith
