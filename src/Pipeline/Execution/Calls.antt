-- ===== src/Pipeline/Execution/Calls.antt =====
-- What the calls on an execution find and write, and that each keeps the journal well-formed.
use lumic.Prelude.{
  ℕ, ◌≤◌, String, ◌≡◌, refl, Bool, true, false, not, ◌||◌, Option, some, List, ◌∷◌, arith, All, ltb,
  any, subst, not-eq-false, or-eq-false, ltb-eq-false,
}
use lumic.Error.{ok, reject_if, >>=-eq-ok, reject_if-eq-ok, ok-injective}
use lumic.Pipeline.Execution.{
  StepStatus, StepJournalEntry, PipelineStatus, PipelineExecution, is_step, is_running, is_later,
  transition, may_follow, Located, locate, put_back, or_unknown, start_step, finish_step,
}
use lumic.Pipeline.Execution.Order.{
  InOrder, AllPending, AllPending-InOrder, AllSucceeded, locate-parts, status-eq, InOrder-running,
  InOrder-pending, InOrder-build,
}
use lumic.Pipeline.Execution.Journal.{
  IsTimed, IsWellFormed, IsTimed-mono, All-middle, All-replace, or_unknown-ok, running-Times,
  outcome, finished-Times,
}

-- what a successful `start_step` found, and what it wrote
pub record Started (e e' : PipelineExecution) (step_id : String) (now : ℕ) : Type 0 where
  pub at : Located
  pub found : e.steps ≡ put_back at at.step
  pub pending : at.step.status ≡ StepStatus.pending
  pub done : AllSucceeded at.before
  pub running : is_running e.status ≡ true
  pub clock : e.updated_at_unix_ms ≤ now
  pub result :
      record e {
        steps =
            put_back at
              (record (at.step) { status = StepStatus.running; started_at_unix_ms = some now });
        updated_at_unix_ms = now;
      }
      ≡ e'

pub start_step-Started :
    (e e' : PipelineExecution) (step_id : String) (now : ℕ)
    → start_step e step_id now ≡ ok e'
    → Started e e' step_id now
unfolding start_step
start_step-Started e e' step_id now h =
    let (_, ready, h₁) =
      >>=-eq-ok (reject_if (not (is_running e.status) || ltb now e.updated_at_unix_ms) _) _ h in
    let (l, found, h₂) = >>=-eq-ok (or_unknown (locate step_id e.steps)) _ h₁ in
    let (_, next, h₃) =
      >>=-eq-ok
        (reject_if
          (not (is_step l.step.status StepStatus.pending)
            || any (λ s. not (is_step s.status StepStatus.succeeded)) l.before)
          _)
        _ h₂ in
    let (run, clock) = or-eq-false _ _ (reject_if-eq-ok _ _ ready) in
    let (wait, done) = or-eq-false _ _ (reject_if-eq-ok _ _ next) in
    record {
      at = l;
      found = locate-parts step_id e.steps l (or_unknown-ok _ l found);
      pending = status-eq _ _ (not-eq-false _ wait);
      done = done;
      running = not-eq-false _ run;
      clock = ltb-eq-false _ _ clock;
      result = ok-injective h₃;
    }

-- Starting a step keeps the journal well-formed.
pub start_step-IsWellFormed :
    (e e' : PipelineExecution) (step_id : String) (now : ℕ)
    → IsWellFormed e
    → start_step e step_id now ≡ ok e'
    → IsWellFormed e'
start_step-IsWellFormed e e' step_id now w h =
    let s = start_step-Started e e' step_id now h in
    let later = IsTimed-mono _ now e.steps s.clock w.timed in
    let (before, here, after) =
      All-middle (IsTimed now) s.at.before s.at.step s.at.after
        (subst (All (IsTimed now)) s.found later) in
    let waiting =
      InOrder-pending s.at.before s.at.step s.at.after s.pending s.done
        (subst InOrder s.found w.ordered) in
    subst IsWellFormed s.result (record {
      ordered = InOrder-build s.at.before _ s.at.after s.done waiting;
      timed =
          All-replace (IsTimed now) s.at.before _ s.at.after before
            (running-Times s.at.step now s.pending here) after;
      created = omega (arith, s.clock, w.created);
    })

-- what a successful `finish_step` found, and what it wrote
pub record Finished (e e' : PipelineExecution) (step_id : String) (done : Bool)
    (message : Option String) (now : ℕ) : Type 0 where
  pub at : Located
  pub found : e.steps ≡ put_back at at.step
  pub running : at.step.status ≡ StepStatus.running
  pub started : is_later at.step.started_at_unix_ms now ≡ false
  pub clock : e.updated_at_unix_ms ≤ now
  pub result :
      record e {
        steps = put_back at (record (at.step) {
          status = outcome done;
          finished_at_unix_ms = some now;
          message = message;
        });
        updated_at_unix_ms = now;
      }
      ≡ e'

pub finish_step-Finished :
    (e e' : PipelineExecution) (step_id : String) (done : Bool) (message : Option String) (now : ℕ)
    → finish_step e step_id done message now ≡ ok e'
    → Finished e e' step_id done message now
unfolding finish_step
finish_step-Finished e e' step_id done message now h =
    let (l, found, h₁) = >>=-eq-ok (or_unknown (locate step_id e.steps)) _ h in
    let (_, checked, h₂) =
      >>=-eq-ok
        (reject_if
          (not (is_step l.step.status StepStatus.running)
            || is_later l.step.started_at_unix_ms now
            || ltb now e.updated_at_unix_ms)
          _)
        _ h₁ in
    let (either, clock) = or-eq-false _ _ (reject_if-eq-ok _ _ checked) in
    let (run, start) = or-eq-false _ _ either in
    record {
      at = l;
      found = locate-parts step_id e.steps l (or_unknown-ok _ l found);
      running = status-eq _ _ (not-eq-false _ run);
      started = start;
      clock = ltb-eq-false _ _ clock;
      result = ok-injective h₂;
    }

outcome-ordered :
    (done : Bool) (s : StepJournalEntry) (after : List StepJournalEntry)
    → s.status ≡ outcome done
    → AllPending after
    → InOrder (s ∷ after)
outcome-ordered true s after p w = rw p (AllPending-InOrder after w)
outcome-ordered false s after p w = rw p w

-- Finishing the running step keeps the journal well-formed.
pub finish_step-IsWellFormed :
    (e e' : PipelineExecution) (step_id : String) (done : Bool) (message : Option String) (now : ℕ)
    → IsWellFormed e
    → finish_step e step_id done message now ≡ ok e'
    → IsWellFormed e'
finish_step-IsWellFormed e e' step_id done message now w h =
    let f = finish_step-Finished e e' step_id done message now h in
    let later = IsTimed-mono _ now e.steps f.clock w.timed in
    let (before, here, after) =
      All-middle (IsTimed now) f.at.before f.at.step f.at.after
        (subst (All (IsTimed now)) f.found later) in
    let written : StepJournalEntry = record (f.at.step) {
      status = outcome done;
      finished_at_unix_ms = some now;
      message = message;
    } in
    let (succeeded, waiting) =
      InOrder-running f.at.before f.at.step f.at.after f.running
        (subst InOrder f.found w.ordered) in
    subst IsWellFormed f.result (record {
      ordered =
          InOrder-build f.at.before written f.at.after succeeded
            (outcome-ordered done written f.at.after refl waiting);
      timed =
          All-replace (IsTimed now) f.at.before _ f.at.after before
            (finished-Times done f.at.step.status now f.at.step.started_at_unix_ms
              f.at.step.finished_at_unix_ms f.running here f.started)
            after;
      created = omega (arith, f.clock, w.created);
    })

-- Changing the status keeps it well-formed.
pub transition-IsWellFormed :
    (e e' : PipelineExecution) (next : PipelineStatus) (now : ℕ)
    → IsWellFormed e
    → transition e next now ≡ ok e'
    → IsWellFormed e' × (e'.status ≡ next) × (may_follow e.status next ≡ true)
unfolding transition
transition-IsWellFormed e e' next now w h =
    let (_, allowed, h₁) = >>=-eq-ok (reject_if (not (may_follow e.status next)) _) _ h in
    let (_, clock, h₂) = >>=-eq-ok (reject_if (ltb now e.updated_at_unix_ms) _) _ h₁ in
    let le = ltb-eq-false _ _ (reject_if-eq-ok _ _ clock) in
    subst (λ x. IsWellFormed x × (x.status ≡ next) × (may_follow e.status next ≡ true))
      (ok-injective h₂)
      (
        record {
          ordered = w.ordered;
          timed = IsTimed-mono _ now e.steps le w.timed;
          created = omega (arith, le, w.created);
        },
        refl,
        not-eq-false _ (reject_if-eq-ok _ _ allowed),
      )
