-- ===== src/Work/Run.antt =====
-- `run_work_phases` of crates/cao-core/src/run/executor/work_phases.rs, and the work of a run as the
-- Run Executor calls it.
use cao.Shared.{ℕ, []}
use cao.Request.Choices.{WorkChoices}
use cao.Run.Results.{RunPreparation}
use cao.Evidence.Sinks.{Evidence}
use cao.Evidence.Messages.{evidence_invariant}
use cao.Selection.Overlap.{Token}
use cao.Executor.Services.{Result, ok, err, returned, Flow, go_on, break, WorkRun}
use cao.Work.Flow.{Outcome, value, stops, ◌>>=◌, ◌>>◌}
use cao.Work.Toolset.{Toolset}
use cao.Work.Worker.{Worker, Exit, breaks, refused, Phase}
use cao.Work.Discover.{discover_archives}
use cao.Work.Extract.{extract_archives}
use cao.Work.Tree.{build_effective_asset_tree}
use cao.Work.Process.{process_assets}
use cao.Work.Finalize.{finalize_archives}

abbrev pub result_of : Outcome Exit (Unit {0}) → Result Flow
result_of (value u) = ok go_on
result_of (stops (breaks s)) = ok (break s)
result_of (stops (refused v)) = err (evidence_invariant v)

module _ {A W : Type 0} (stop : Token) (preparation : RunPreparation) (choices : WorkChoices)
    (tools : Toolset A W) where
  -- `run_work_phases`
  unfoldable pub run_work_phases : Phase A W (Unit {0})
  unfolding discover_archives extract_archives build_effective_asset_tree process_assets
      finalize_archives
  run_work_phases =
      let mode = preparation.policy.execution_mode in
      do
        archives ← discover_archives tools stop preparation
        extract_archives tools stop choices.archive_extraction mode archives.plans
        ledger ← build_effective_asset_tree tools stop preparation archives.recognized
        process_assets tools stop preparation ledger
        finalize_archives tools stop choices.archive_finalization preparation mode

  abbrev pub hired : W → Evidence → A → ℕ → Worker A W
  hired world e artifacts clock = record {
    evidence = e;
    operations = [];
    artifacts = artifacts;
    world = world;
    clock = clock;
    diagnosed = [];
  }

  -- The work that `RunServices` hands to the Run Executor: a panic never leaves it.
  unfoldable pub work_run : W → Evidence → A → ℕ → WorkRun A
  unfolding run_work_phases
  work_run world e artifacts clock =
      let (outcome, w) = run_work_phases (hired world e artifacts clock) in
      record {
        operations = w.operations;
        end = returned (result_of outcome);
        artifacts = w.artifacts;
        clock = w.clock;
      }
