-- ===== src/Work/Unrefused/Whole.antt =====
-- The recording steps of `run_work_phases` of crates/cao-core/src/run/executor/work_phases.rs.
use cao.Shared.{ℕ, ◌≡◌, refl}
use cao.Request.Choices.{WorkChoices}
use cao.Run.Results.{RunPreparation}
use cao.Evidence.Sinks.{Evidence}
use cao.Selection.Overlap.{Token}
use cao.Executor.Services.{Result, ok, Caught, returned, Flow, go_on, break}
use cao.Evidence.Operations.{perform_all}
use cao.Evidence.Uncleaned.{IsUncleaned}
use cao.Work.Flow.{Outcome, value, stops}
use cao.Work.Toolset.{Toolset}
use cao.Work.Worker.{Worker, Exit, breaks, refused}
use cao.Work.Ends.{Ends, Runs, Runs-bind}
use cao.Work.Run.{result_of, run_work_phases, hired, work_run}
use cao.Work.Unrefused.Discovery.{IsPrepared, discover_archives-Runs}
use cao.Work.Unrefused.Extraction.{extract_archives-Runs, build_effective_asset_tree-Runs}
use cao.Work.Unrefused.Processing.{process_assets-Runs}
use cao.Work.Unrefused.Finalizing.{finalize_archives-Unrefused}

-- The work returned, and no fact was refused.
abbrev pub EndsWithoutRefusal : Caught (Result Flow) → Type 0
EndsWithoutRefusal end = (f : Flow) × (end ≡ returned (ok f))

module _ {A W : Type 0} (tools : Toolset A W) (stop : Token) (preparation : RunPreparation)
    (choices : WorkChoices) where
  run_work_phases-Runs :
      Runs IsPrepared (run_work_phases stop preparation choices tools) (λ u. IsUncleaned)
  unfolding run_work_phases
  run_work_phases-Runs =
      let mode = preparation.policy.execution_mode in
      Runs-bind (discover_archives-Runs tools stop preparation) (λ archives.
        Runs-bind (extract_archives-Runs tools stop choices.archive_extraction mode archives.plans)
          (λ u.
            Runs-bind (build_effective_asset_tree-Runs tools stop preparation archives.recognized)
              (λ ledger. Runs-bind (process_assets-Runs tools stop preparation ledger) (λ v.
                finalize_archives-Unrefused tools stop choices.archive_finalization preparation
                  mode))))

-- What the Run Executor receives of phases that end unrefused.
returned_flow :
    {A W : Type 0} (o : Outcome Exit (Unit {0}) × Worker A W)
    → Ends (λ u. IsUncleaned) o
    → EndsWithoutRefusal (returned (result_of o.0)) × IsUncleaned o.1.evidence.storage
returned_flow (value u, w) h = ((go_on, refl), h)
returned_flow (stops (breaks s), w) h = ((break s, refl), h)
returned_flow (stops (refused v), w) h = absurd h

-- From a storage where only Preparing is executed, the work phases return without a refused fact,
-- and the evidence on which their steps are performed has not entered Safety Cleanup.
pub work_run-EndsWithoutRefusal :
    {A W : Type 0} (tools : Toolset A W) (stop : Token) (preparation : RunPreparation)
    (choices : WorkChoices) (world : W) (e : Evidence) (artifacts : A) (clock : ℕ)
    → IsPrepared e.storage
    → let w = work_run stop preparation choices tools world e artifacts clock in
      EndsWithoutRefusal w.end × IsUncleaned (perform_all w.operations e).storage
unfolding work_run
work_run-EndsWithoutRefusal tools stop preparation choices world e artifacts clock h =
    let hire = hired stop preparation choices tools world e artifacts clock in
    let runs = run_work_phases-Runs tools stop preparation choices in
    let (ends, uncleaned) =
      returned_flow (run_work_phases stop preparation choices tools hire) (runs.at hire h) in
    (ends, rw (runs.traces e hire (unfold perform_all in refl)) uncleaned)
