-- ===== src/Witnesses/Pipelines.antt =====
-- Pipelines and their executions at concrete inputs.
use mathlib.Core.List.{reverse}
use lumic.Prelude.{◌≡◌, refl, ◌↔◌, inl, [], ◌∷◌, none, some, true}
use lumic.Error.{ok}
use lumic.Json.{Sample, sample_json}
use lumic.Pipeline.{Pipeline, PipelineStep, ensure_package, commit_state, validate_pipeline}
use lumic.Pipeline.Valid.{IsValid, validate_pipeline_iff}
use lumic.Pipeline.Execution.{
  PipelineExecution, PipelineStatus, StepStatus, plan_execution, transition, start_step,
  finish_step, recovery_order,
}
use lumic.Pipeline.Execution.Order.{done_ids, recovery_order-reverse}
use lumic.Pipeline.Execution.Journal.{IsWellFormed}
use lumic.Pipeline.Execution.Reach.{
  Reach, fresh, further, moved, started, finished, IsOf, Reach-IsWellFormed, terminal_absorbs,
}
use lumic.Witnesses.{shop}

abbrev install_git : Pipeline Sample
install_git = record {
  id = "install";
  target = shop;
  summary = "Install git";
  steps =
      record { id = "git"; summary = "Ensure git"; action = ensure_package "git" }
      ∷ record { id = "commit"; summary = "Commit"; action = commit_state }
      ∷ [];
}

validate_pipeline_iff_example : (validate_pipeline install_git ≡ ok tt) ↔ IsValid install_git
validate_pipeline_iff_example = validate_pipeline_iff install_git

abbrev planned_run : PipelineExecution
planned_run = record {
  id = "run";
  pipeline_id = "install";
  target = shop;
  status = PipelineStatus.planned;
  created_at_unix_ms = 10;
  updated_at_unix_ms = 10;
  steps =
      record {
        step_id = "git";
        status = StepStatus.pending;
        started_at_unix_ms = none;
        finished_at_unix_ms = none;
        message = none;
      }
      ∷ record {
        step_id = "commit";
        status = StepStatus.pending;
        started_at_unix_ms = none;
        finished_at_unix_ms = none;
        message = none;
      }
      ∷ [];
}

abbrev running_run : PipelineExecution
running_run = record planned_run { status = PipelineStatus.running; updated_at_unix_ms = 11 }

abbrev started_run : PipelineExecution
started_run = record running_run {
  updated_at_unix_ms = 12;
  steps =
      record {
        step_id = "git";
        status = StepStatus.running;
        started_at_unix_ms = some 12;
        finished_at_unix_ms = none;
        message = none;
      }
      ∷ record {
        step_id = "commit";
        status = StepStatus.pending;
        started_at_unix_ms = none;
        finished_at_unix_ms = none;
        message = none;
      }
      ∷ [];
}

abbrev half_run : PipelineExecution
half_run = record running_run {
  updated_at_unix_ms = 15;
  steps =
      record {
        step_id = "git";
        status = StepStatus.succeeded;
        started_at_unix_ms = some 12;
        finished_at_unix_ms = some 15;
        message = none;
      }
      ∷ record {
        step_id = "commit";
        status = StepStatus.pending;
        started_at_unix_ms = none;
        finished_at_unix_ms = none;
        message = none;
      }
      ∷ [];
}

planning : plan_execution "run" install_git 10 ≡ ok planned_run
unfolding plan_execution validate_pipeline lumic.Resource.validate_resource_id
    lumic.Resource.validate_ref lumic.Pipeline.validate_steps lumic.Pipeline.validate_action
    lumic.Pipeline.validate_token
planning = refl

running_now : transition planned_run PipelineStatus.running 11 ≡ ok running_run
unfolding transition
running_now = refl

starting : start_step running_run "git" 12 ≡ ok started_run
unfolding start_step lumic.Pipeline.Execution.locate
starting = refl

finishing : finish_step started_run "git" true none 15 ≡ ok half_run
unfolding finish_step lumic.Pipeline.Execution.locate
finishing = refl

half_way : Reach install_git half_run
half_way =
    further
      (further (further (fresh "run" 10 planning) (moved PipelineStatus.running 11 running_now))
        (started "git" 12 starting))
      (finished "git" true none 15 finishing)

Reach-IsWellFormed_example : IsWellFormed half_run × IsOf install_git half_run
Reach-IsWellFormed_example = Reach-IsWellFormed half_way

recovery_order-reverse_example : recovery_order half_run ≡ reverse (done_ids half_run.steps)
recovery_order-reverse_example = recovery_order-reverse half_run tt

-- the pipeline has succeeded while a step still runs, which `transition` permits
abbrev closed_run : PipelineExecution
closed_run = record started_run { status = PipelineStatus.succeeded; updated_at_unix_ms = 13 }

abbrev closed_later : PipelineExecution
closed_later = record half_run { status = PipelineStatus.succeeded }

late : finish_step closed_run "git" true none 15 ≡ ok closed_later
unfolding finish_step lumic.Pipeline.Execution.locate
late = refl

terminal_absorbs_example : closed_later.status ≡ closed_run.status
terminal_absorbs_example =
    terminal_absorbs closed_run closed_later (inl refl) (finished "git" true none 15 late)
