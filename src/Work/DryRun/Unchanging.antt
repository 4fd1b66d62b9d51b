-- ===== src/Work/DryRun/Unchanging.antt =====
-- The phases of crates/cao-core/src/run/executor/work_phases.rs in a Dry Run.
use cao.Shared.{List, [], ◌∷◌, All, Option, none, some, ◌≡◌, refl, ◌∙◌, length}
use cao.Shared.Paths.{FilePath}
use cao.Routing.Kinds.{ExecutionMode}
use cao.Routing.Route.{RoutedAsset, RoutingLedger, route_all}
use cao.Request.Choices.{WorkChoices, ArchiveFinalizationChoices, SourceCleanup}
use cao.Run.Attempt.{safe_to_continue}
use cao.Run.Lifecycle.{discovering_archives, building_effective_asset_tree, archive_finalization}
use cao.Run.Results.{RunPreparation}
use cao.Evidence.Operations.{
  executed_phase, planned_phase, skipped_counts, publish_pending, nested_count, open_processing,
  asset,
}
use cao.Selection.Overlap.{Token}
use cao.Work.Flow.{Outcome, value, stops, Leaves}
use cao.Work.Toolset.{Toolset, ArchiveExtractionPlan}
use cao.Work.Worker.{Worker, Exit}
use cao.Work.Discover.{empty_pass, run_archive_pass, preflight_of, discover_archives}
use cao.Work.Extract.{extract_archives}
use cao.Work.Tree.{run_definitive_pass, build_effective_asset_tree}
use cao.Work.Process.{
  offered, result_of, call_attempt, attempt_in, attempt_asset, attributed_mod_root, process_each,
  process_assets,
}
use cao.Work.Finalize.{plan_creation, plan_archive_finalization, finalize_archives}
use cao.Work.Run.{run_work_phases}
use cao.Work.Unrefused.Walks.{archive_pass_keeps, definitive_pass_keeps}
use cao.Work.DryRun.Frames.{
  IsAsBefore, Frames, Any, Frames-bind, Frames-step, Frames-unless_cancelled, Frames-halt,
  Frames-pure, Frames-if,
}
use cao.Work.DryRun.Assets.{IsDry, ledger-IsDry, offered-IsDry, SparesDryAssets}
use cao.Work.DryRun.Recording.{
  after_preflight_frames, plan_extractions_frames, retain_all_frames, or_cancelled_frames,
  after_creation_frames,
}

module _ {A W : Type 0} (tools : Toolset A W) (stop : Token) {artifacts : A} {world : W} where
  discover_frames :
      (preparation : RunPreparation)
      → Frames artifacts world (discover_archives tools stop preparation) Any
  unfolding discover_archives run_archive_pass preflight_of
  discover_frames preparation =
      Frames-bind (Frames-step (executed_phase discovering_archives none)) (λ u q.
        Frames-bind {Q = Any} {m = run_archive_pass tools stop preparation}
          (record {
            at = λ w h. (
              tt,
              archive_pass_keeps (λ e os a v. (a ≡ artifacts) × (v ≡ world)) (λ d e os a v k. k)
                  stop tools preparation.policy preparation.mod_roots empty_pass [] w h,
            );
          })
          (λ passed r. Frames-bind (Frames-step (skipped_counts passed.1.skipped)) (λ v s.
            Frames-if passed.0
              (Frames-bind {Q = Any} {m = preflight_of tools preparation passed.2}
                (record { at = λ w h. (tt, h) })
                (λ decided t. after_preflight_frames passed.1.recognized decided))
              Frames-halt)))

  -- The ledger routes in Dry Run under a Dry Run's policy.
  tree_frames :
      (preparation : RunPreparation) (recognized : List FilePath)
      → preparation.policy.execution_mode ≡ ExecutionMode.dry_run
      → Frames artifacts world
          (build_effective_asset_tree tools stop preparation recognized)
          (λ ledger. All IsDry ledger.routed_assets)
  unfolding build_effective_asset_tree run_definitive_pass
  tree_frames preparation recognized dry =
      Frames-bind (Frames-step (executed_phase building_effective_asset_tree none)) (λ u q.
        Frames-bind (Frames-unless_cancelled stop) (λ v r.
          Frames-bind {Q = Any} {m = run_definitive_pass tools stop preparation recognized}
            (record {
              at = λ w h. (
                tt,
                definitive_pass_keeps (λ e os a v. (a ≡ artifacts) × (v ≡ world))
                    (λ d e os a v k. k) stop tools preparation.policy recognized
                    preparation.mod_roots (record { effective_paths = []; nested = [] }) w h,
              );
            })
            (λ passed s.
              Frames-if passed.0
                (Frames-bind (Frames-step (nested_count (length passed.1.nested))) (λ x t.
                  Frames-pure (route_all preparation.policy passed.1.effective_paths)
                    (ledger-IsDry preparation.policy passed.1.effective_paths dry)))
                Frames-halt)))

  plan_finalization_frames :
      (choices : ArchiveFinalizationChoices) (preparation : RunPreparation)
      → Frames artifacts world (plan_archive_finalization tools stop choices preparation) Any
  unfolding plan_archive_finalization plan_creation
  plan_finalization_frames choices preparation =
      Frames-bind (Frames-step (planned_phase archive_finalization)) (λ u q.
        Frames-bind (Frames-unless_cancelled stop) (λ v r.
          Frames-bind {Q = Any} {m = plan_creation tools stop choices preparation}
            (record { at = λ w h. (tt, h) }) (λ decided s. after_creation_frames decided)))

  extract_frames :
      (cleanup : SourceCleanup) (mode : ExecutionMode) (plans : List ArchiveExtractionPlan)
      → mode ≡ ExecutionMode.dry_run
      → Frames artifacts world (extract_archives tools stop cleanup mode plans) Any
  unfolding extract_archives
  extract_frames cleanup mode plans dry = rw dry (
      Frames-bind (Frames-unless_cancelled stop)
        (λ u q. plan_extractions_frames stop cleanup plans))

  finalize_frames :
      (choices : ArchiveFinalizationChoices) (preparation : RunPreparation) (mode : ExecutionMode)
      → mode ≡ ExecutionMode.dry_run
      → Frames artifacts world (finalize_archives tools stop choices preparation mode) Any
  unfolding finalize_archives
  finalize_frames choices preparation mode dry = rw dry (
      Frames-bind (Frames-step publish_pending) (λ u q.
        Frames-bind (Frames-unless_cancelled stop)
          (λ v r. plan_finalization_frames choices preparation)))

module _ {A W : Type 0} (tools : Toolset A W) (stop : Token) (spares : SparesDryAssets tools)
    {artifacts : A} {world : W} where
  call_frames :
      (root : FilePath) (a : RoutedAsset)
      → IsDry a
      → Frames artifacts world (call_attempt tools root a) Any
  unfolding call_attempt
  call_frames root a dry = record {
    at = λ w h.
        let (same_artifacts, same_world) = spares a root w.artifacts w.world w.clock dry in
        (tt, (same_artifacts ∙ h.0, same_world ∙ h.1));
  }

  attempt_in_frames :
      (a : RoutedAsset) (root : Option FilePath)
      → IsDry a
      → Frames artifacts world (attempt_in tools a root) Any
  unfolding attempt_in
  attempt_in_frames a none dry = Frames-pure _ tt
  attempt_in_frames a (some root) dry = Frames-bind (call_frames root a dry) (λ called q.
      Frames-bind (retain_all_frames called.diagnostics)
        (λ u r. or_cancelled_frames (result_of a.execution_path root a called.end_of_attempt)))

  process_each_frames :
      (roots : List FilePath) (rest : List RoutedAsset)
      → All IsDry rest
      → Frames artifacts world (process_each tools stop roots rest) Any
  unfolding process_each attempt_asset
  process_each_frames roots [] h = Frames-pure tt tt
  process_each_frames roots (a ∷ rest) (dry, h) = Frames-bind (Frames-unless_cancelled stop) (λ u q.
      Frames-bind {Q = Any} {m = attempt_asset tools roots a}
        (record {
          at = λ w k.
              (attempt_in_frames a (attributed_mod_root tools w.world a.execution_path roots)
                  dry).at
                w k;
        })
        (λ x r. Frames-bind (Frames-step (asset x)) (λ v s.
          Frames-if (safe_to_continue x.result.outcome) (process_each_frames roots rest h)
            Frames-halt)))

  process_frames :
      (preparation : RunPreparation) (ledger : RoutingLedger)
      → All IsDry ledger.routed_assets
      → Frames artifacts world (process_assets tools stop preparation ledger) Any
  unfolding process_assets
  process_frames preparation ledger dry = Frames-bind (Frames-step (open_processing ledger)) (λ u q.
      Frames-bind
        (process_each_frames preparation.mod_roots (offered ledger) (offered-IsDry ledger dry))
        (λ v r. Frames-unless_cancelled stop))

  work_frames :
      (preparation : RunPreparation) (choices : WorkChoices)
      → preparation.policy.execution_mode ≡ ExecutionMode.dry_run
      → Frames artifacts world (run_work_phases stop preparation choices tools) Any
  unfolding run_work_phases
  work_frames preparation choices dry =
      let mode = preparation.policy.execution_mode in
      Frames-bind (discover_frames tools stop preparation) (λ archives q.
        Frames-bind (extract_frames tools stop choices.archive_extraction mode archives.plans dry)
          (λ u r.
            Frames-bind (tree_frames tools stop preparation archives.recognized dry)
              (λ ledger ledger_is_dry.
                Frames-bind (process_frames preparation ledger ledger_is_dry) (λ v s.
                  finalize_frames tools stop choices.archive_finalization preparation mode dry))))

-- How the work phases end leaves what the end says.
both_ends :
    {A W : Type 0} (artifacts : A) (world : W) (o : Outcome Exit (Unit {0}) × Worker A W)
    → Leaves
        (λ u t. Unit {0} × IsAsBefore artifacts world t)
        (λ x t. IsAsBefore artifacts world t)
        o
    → IsAsBefore artifacts world o.1
both_ends artifacts world (value u, t) h = h.1
both_ends artifacts world (stops x, t) h = h

-- In a Dry Run, if the toolset's attempts on Assets in Dry Run change neither the Temporary Ownership
-- registry nor the disk, the work phases change neither, however they end: no Archive is extracted,
-- and nothing is finalized, pruned or deleted.
pub run_work_phases-IsAsBefore :
    {A W : Type 0} (tools : Toolset A W) (stop : Token) (preparation : RunPreparation)
    (choices : WorkChoices) (w : Worker A W)
    → SparesDryAssets tools
    → preparation.policy.execution_mode ≡ ExecutionMode.dry_run
    → IsAsBefore w.artifacts w.world (run_work_phases stop preparation choices tools w).1
run_work_phases-IsAsBefore tools stop preparation choices w spares dry =
    both_ends w.artifacts w.world (run_work_phases stop preparation choices tools w)
      ((work_frames tools stop spares preparation choices dry).at w (refl, refl))
