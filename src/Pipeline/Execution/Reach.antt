-- ===== src/Pipeline/Execution/Reach.antt =====
-- Executions as the calls on them lead from one to the next.
use lumic.Prelude.{
  ℕ, String, ◌≡◌, refl, sym, ap, ◌∙◌, ◌⊎◌, Bool, true, not, Option, List, [], ◌∷◌, ◌++◌, arith, ltb,
  map, subst, not-eq-false,
}
use lumic.Error.{ok, reject_if, reject_if-eq-ok, >>=-eq-ok, ok-injective}
use lumic.Json.{Json}
use lumic.Resource.{validate_resource_id}
use lumic.Pipeline.{Pipeline, PipelineStep, validate_pipeline}
use lumic.Pipeline.Execution.{
  StepJournalEntry, PipelineStatus, PipelineExecution, plan_execution, pending_entry, transition,
  may_follow, Located, put_back, start_step, finish_step,
}
use lumic.Pipeline.Execution.Journal.{IsWellFormed, ids_of, plan_execution-IsWellFormed}
use lumic.Pipeline.Execution.Calls.{
  start_step-Started, finish_step-Finished, transition-IsWellFormed, start_step-IsWellFormed,
  finish_step-IsWellFormed,
}

-- One successful call on an execution.
pub data Step (e e' : PipelineExecution) : Type 0 where
  moved : (next : PipelineStatus) (now : ℕ) → transition e next now ≡ ok e' → Step e e'
  started : (step_id : String) (now : ℕ) → start_step e step_id now ≡ ok e' → Step e e'
  finished :
      (step_id : String) (done : Bool) (message : Option String) (now : ℕ)
      → finish_step e step_id done message now ≡ ok e'
      → Step e e'

-- the executions of a pipeline, from its plan by any calls in any order
pub data Reach {V : Type 0} ⦃json : Json V⦄ (pipeline : Pipeline V)
    : PipelineExecution → Type 0 where
  fresh :
      (id : String) (now : ℕ) {e : PipelineExecution}
      → plan_execution id pipeline now ≡ ok e
      → Reach pipeline e
  further : {e e' : PipelineExecution} → Reach pipeline e → Step e e' → Reach pipeline e'

-- the execution is of the pipeline, and its journal lists the pipeline's steps in their order
pub record IsOf {V : Type 0} (pipeline : Pipeline V) (e : PipelineExecution) : Type 0 where
  pub pipeline_id : e.pipeline_id ≡ pipeline.id
  pub target : e.target ≡ pipeline.target
  pub ids : ids_of e ≡ map (λ s. s.id) pipeline.steps

ids-put_back :
    (l : Located) (s : StepJournalEntry)
    → s.step_id ≡ l.step.step_id
    → map (λ x. x.step_id) (put_back l s) ≡ map (λ x. x.step_id) (put_back l l.step)
ids-put_back l s p = go l.before
  where
    go :
        (before : List StepJournalEntry)
        → map (λ x. x.step_id) (before ++ (s ∷ l.after))
          ≡ map (λ x. x.step_id) (before ++ (l.step ∷ l.after))
    go [] = rw p
    go (b ∷ before) = ap (λ xs. b.step_id ∷ xs) (go before)

ids-pending :
    {V : Type 0} (steps : List (PipelineStep V))
    → map (λ s. s.step_id) (map pending_entry steps) ≡ map (λ s. s.id) steps
ids-pending [] = refl
ids-pending (s ∷ steps) = ap (λ xs. s.id ∷ xs) (ids-pending steps)

module _ {V : Type 0} (pipeline : Pipeline V) where
  plan_execution-IsOf :
      ⦃json : Json V⦄ (id : String) (now : ℕ) (e : PipelineExecution)
      → plan_execution id pipeline now ≡ ok e
      → IsOf pipeline e
  unfolding plan_execution
  plan_execution-IsOf id now e h =
      let (_, _, h₁) = >>=-eq-ok (validate_pipeline pipeline) _ h in
      let (_, _, h₂) = >>=-eq-ok (validate_resource_id "execution.id" id) _ h₁ in
      subst (IsOf pipeline) (ok-injective h₂)
        (record { pipeline_id = refl; target = refl; ids = ids-pending pipeline.steps })

  transition-IsOf :
      (e e' : PipelineExecution) (next : PipelineStatus) (now : ℕ)
      → transition e next now ≡ ok e'
      → IsOf pipeline e
      → IsOf pipeline e'
  unfolding transition
  transition-IsOf e e' next now h o =
      let (_, _, h₁) = >>=-eq-ok (reject_if (not (may_follow e.status next)) _) _ h in
      let (_, _, h₂) = >>=-eq-ok (reject_if (ltb now e.updated_at_unix_ms) _) _ h₁ in
      subst (IsOf pipeline) (ok-injective h₂)
        (record { pipeline_id = o.pipeline_id; target = o.target; ids = o.ids })

  put_back-IsOf :
      (e e' : PipelineExecution) (l : Located) (s : StepJournalEntry) (now : ℕ)
      → e.steps ≡ put_back l l.step
      → s.step_id ≡ l.step.step_id
      → record e { steps = put_back l s; updated_at_unix_ms = now } ≡ e'
      → IsOf pipeline e
      → IsOf pipeline e'
  put_back-IsOf e e' l s now found same result o = subst (IsOf pipeline) result (record {
    pipeline_id = o.pipeline_id;
    target = o.target;
    ids = ids-put_back l s same ∙ ap (map (λ x. x.step_id)) (sym found) ∙ o.ids;
  })

  Step-IsOf : {e e' : PipelineExecution} → Step e e' → IsOf pipeline e → IsOf pipeline e'
  Step-IsOf {e} {e'} (moved next now h) o = transition-IsOf e e' next now h o
  Step-IsOf {e} {e'} (started step_id now h) o =
      let s = start_step-Started e e' step_id now h in
      put_back-IsOf e e' s.at _ now s.found refl s.result o
  Step-IsOf {e} {e'} (finished step_id done message now h) o =
      let f = finish_step-Finished e e' step_id done message now h in
      put_back-IsOf e e' f.at _ now f.found refl f.result o

Step-IsWellFormed : {e e' : PipelineExecution} → Step e e' → IsWellFormed e → IsWellFormed e'
Step-IsWellFormed {e} {e'} (moved next now h) w = (transition-IsWellFormed e e' next now w h).0
Step-IsWellFormed {e} {e'} (started step_id now h) w = start_step-IsWellFormed e e' step_id now w h
Step-IsWellFormed {e} {e'} (finished step_id done message now h) w =
    finish_step-IsWellFormed e e' step_id done message now w h

-- Whatever sequence of successful calls of `transition`, `start_step` and `finish_step` follows the
-- plan of an execution, its steps are those of the pipeline in the declared order: first steps that
-- succeeded, then one at most that runs or has failed, then steps that wait; and the times of each
-- agree with its status and never run backwards.
pub Reach-IsWellFormed :
    {V : Type 0} ⦃json : Json V⦄ {pipeline : Pipeline V} {e : PipelineExecution}
    → Reach pipeline e
    → IsWellFormed e × IsOf pipeline e
Reach-IsWellFormed {pipeline} (fresh id now {e} h) =
    ((plan_execution-IsWellFormed id pipeline now e h).0, plan_execution-IsOf pipeline id now e h)
Reach-IsWellFormed {pipeline} (further r s) =
    let (w, o) = Reach-IsWellFormed r in (Step-IsWellFormed s w, Step-IsOf pipeline s o)

transition_allowed :
    (e e' : PipelineExecution) (next : PipelineStatus) (now : ℕ)
    → transition e next now ≡ ok e'
    → may_follow e.status next ≡ true
unfolding transition
transition_allowed e e' next now h =
    let (_, allowed, _) = >>=-eq-ok (reject_if (not (may_follow e.status next)) _) _ h in
    not-eq-false _ (reject_if-eq-ok _ _ allowed)

abbrev pub IsTerminal : PipelineStatus → Type 0
IsTerminal s =
    (s ≡ PipelineStatus.succeeded)
    ⊎ (s ≡ PipelineStatus.recovered)
    ⊎ (s ≡ PipelineStatus.recovery_failed)

-- Once an execution has succeeded, or its recovery has ended in either way, no successful call on
-- it changes its status.
pub terminal_absorbs :
    (e e' : PipelineExecution) → IsTerminal e.status → Step e e' → e'.status ≡ e.status
terminal_absorbs e e' t (moved next now h) =
    let allowed = transition_allowed e e' next now h in absurd (ground arith)
terminal_absorbs e e' t (started step_id now h) =
    let s = start_step-Started e e' step_id now h in
    let running = s.running in absurd (ground arith)
terminal_absorbs e e' t (finished step_id done message now h) =
    let f = finish_step-Finished e e' step_id done message now h in
    ap (λ (x : PipelineExecution). x.status) (sym f.result)
