-- ===== src/Pipeline/Execution.antt =====
-- crates/lumic-core/src/pipeline.rs: the journal of one run of a pipeline. A method that mutates the
-- execution gives back the new one; each makes all its checks before its first write, so an error
-- leaves the execution as it was.
pub mod Order
pub mod Journal
pub mod Calls
pub mod Reach
use lumic.Prelude.{
  ℕ, String, Bool, true, false, not, ◌&&◌, ◌||◌, Option, none, some, List, [], ◌∷◌, ◌++◌, leb, ltb,
  nat_beq, PartialEq, ◌==◌, string_eq, map, any, keep, ◌≡◌, ◌↔◌, arith, if◌then◌else◌,
}
use mathlib.Core.List.{reverse}
use lumic.Error.{Result, Check, ok, err, invalid, reject_if, ◌>>=◌, ◌>>◌}
use lumic.Json.{Json}
use lumic.Resource.{ResourceRef, validate_resource_id}
use lumic.Pipeline.{Pipeline, PipelineStep, validate_pipeline}

pub data PipelineStatus : Type 0 where
  planned running succeeded failed recovering recovered recovery_failed : PipelineStatus

pub data StepStatus : Type 0 where
  pending running succeeded failed recovered recovery_failed : StepStatus

abbrev pub step_number : StepStatus → ℕ
step_number StepStatus.pending = 0
step_number StepStatus.running = 1
step_number StepStatus.succeeded = 2
step_number StepStatus.failed = 3
step_number StepStatus.recovered = 4
step_number StepStatus.recovery_failed = 5

-- the derived `PartialEq` of `StepStatus`
abbrev pub is_step : StepStatus → StepStatus → Bool
is_step a b = nat_beq (step_number a) (step_number b)

abbrev pub is_running : PipelineStatus → Bool
is_running PipelineStatus.running = true
is_running _ = false

pub record StepJournalEntry : Type 0 where
  pub step_id : String
  pub status : StepStatus
  pub started_at_unix_ms : Option ℕ
  pub finished_at_unix_ms : Option ℕ
  pub message : Option String

pub record PipelineExecution : Type 0 where
  pub id : String
  pub pipeline_id : String
  pub target : ResourceRef
  pub status : PipelineStatus
  pub created_at_unix_ms : ℕ
  pub updated_at_unix_ms : ℕ
  pub steps : List StepJournalEntry

abbrev pub pending_entry : {V : Type 0} → PipelineStep V → StepJournalEntry
pending_entry s = record {
  step_id = s.id;
  status = StepStatus.pending;
  started_at_unix_ms = none;
  finished_at_unix_ms = none;
  message = none;
}

-- the constructor `planned`
unfoldable pub plan_execution :
    {V : Type 0} ⦃json : Json V⦄ → String → Pipeline V → ℕ → Result PipelineExecution
plan_execution id pipeline now = do
  validate_pipeline pipeline
  let execution : PipelineExecution = record {
    id = id;
    pipeline_id = pipeline.id;
    target = pipeline.target;
    status = PipelineStatus.planned;
    created_at_unix_ms = now;
    updated_at_unix_ms = now;
    steps = map pending_entry pipeline.steps;
  }
  validate_resource_id "execution.id" id
  ok execution

abbrev pub may_follow : PipelineStatus → PipelineStatus → Bool
may_follow PipelineStatus.planned PipelineStatus.running = true
may_follow PipelineStatus.running PipelineStatus.succeeded = true
may_follow PipelineStatus.running PipelineStatus.failed = true
may_follow PipelineStatus.failed PipelineStatus.recovering = true
may_follow PipelineStatus.recovering PipelineStatus.recovered = true
may_follow PipelineStatus.recovering PipelineStatus.recovery_failed = true
may_follow _ _ = false

unfoldable pub transition : PipelineExecution → PipelineStatus → ℕ → Result PipelineExecution
transition e next now = do
  reject_if (not (may_follow e.status next))
      (invalid "execution.status" "invalid pipeline transition")
  reject_if (ltb now e.updated_at_unix_ms)
      (invalid "execution.updated_at_unix_ms" "time moved backwards")
  ok (record e { status = next; updated_at_unix_ms = now })

-- The first step with an id, between those before it and those behind it: `position` with the
-- slices that the code reads, and `iter_mut().find`.
pub record Located : Type 0 where
  pub before : List StepJournalEntry
  pub step : StepJournalEntry
  pub after : List StepJournalEntry

abbrev pub push_before : StepJournalEntry → Option Located → Option Located
push_before s none = none
push_before s (some l) = some (record l { before = s ∷ l.before })

unfoldable pub locate : String → List StepJournalEntry → Option Located
locate step_id [] = none
locate step_id (s ∷ steps) =
    if s.step_id == step_id
    then some (record { before = []; step = s; after = steps })
    else push_before s (locate step_id steps)

-- the steps with the located one replaced
abbrev pub put_back : Located → StepJournalEntry → List StepJournalEntry
put_back l s = l.before ++ (s ∷ l.after)

abbrev pub or_unknown : Option Located → Result Located
or_unknown none = err (invalid "execution.step_id" "unknown pipeline step")
or_unknown (some l) = ok l

unfoldable pub start_step : PipelineExecution → String → ℕ → Result PipelineExecution
start_step e step_id now = do
  reject_if (not (is_running e.status) || ltb now e.updated_at_unix_ms) (
      invalid "execution.status"
        "steps may start only while the pipeline is running and time is monotonic")
  l ← or_unknown (locate step_id e.steps)
  reject_if
      (not (is_step l.step.status StepStatus.pending)
        || any (λ s. not (is_step s.status StepStatus.succeeded)) l.before)
      (invalid "execution.step_id" "step is not the next pending step")
  let started : StepJournalEntry = record (l.step) {
    status = StepStatus.running;
    started_at_unix_ms = some now;
  }
  ok (record e { steps = put_back l started; updated_at_unix_ms = now })

-- `time.is_some_and(|t| t > now)`
abbrev pub is_later : Option ℕ → ℕ → Bool
is_later none now = false
is_later (some t) now = ltb now t

unfoldable pub finish_step :
    PipelineExecution → String → Bool → Option String → ℕ → Result PipelineExecution
finish_step e step_id done message now = do
  l ← or_unknown (locate step_id e.steps)
  reject_if
      (not (is_step l.step.status StepStatus.running)
        || is_later l.step.started_at_unix_ms now
        || ltb now e.updated_at_unix_ms)
      (invalid "execution.step_id" "step is not running or completion time is invalid")
  let finished : StepJournalEntry = record (l.step) {
    status = if done then StepStatus.succeeded else StepStatus.failed;
    finished_at_unix_ms = some now;
    message = message;
  }
  ok (record e { steps = put_back l finished; updated_at_unix_ms = now })

unfoldable pub recovery_order : PipelineExecution → List String
recovery_order e =
    map (λ s. s.step_id) (keep (λ s. is_step s.status StepStatus.succeeded) (reverse e.steps))
