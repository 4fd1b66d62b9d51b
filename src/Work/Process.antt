-- ===== src/Work/Process.antt =====
-- `process_assets` and `attributed_mod_root` of crates/cao-core/src/run/executor/work_phases.rs.
use cao.Shared.{
  ℕ, false, List, [], ◌∷◌, ◌++◌, Option, none, some, if◌then◌else◌, Text, codes, leb, ◌==◌, filter,
}
use cao.Shared.Paths.{FilePath}
use cao.Shared.Prefixes.{starts_with}
use cao.Routing.Kinds.{OptimizerTarget}
use cao.Routing.Route.{RoutedAsset, RoutingLedger}
use cao.Run.Attempt.{failed, partial_or_unknown, safe_to_continue}
use cao.Run.Lifecycle.{RunDiagnostic}
use cao.Run.Results.{RunPreparation, RoutedAssetAttempt, AssetExecutionResult, backend_exception}
use cao.Evidence.Operations.{open_processing, asset, keep_diagnostic}
use cao.Selection.Overlap.{Token}
use cao.Executor.Services.{Caught, returned, panicked, backend_cancelled}
use cao.Work.Flow.{value, pure, exit, ◌>>=◌, ◌>>◌}
use cao.Work.Toolset.{Toolset, AttemptEnd, attempted, initialization_cancelled, AttemptCall}
use cao.Work.Worker.{Phase, breaks, step, halt, unless_cancelled}

abbrev or_itself : FilePath → Option FilePath → FilePath
or_itself path none = path
or_itself path (some resolved) = resolved

module _ (os_length : FilePath → ℕ) where
  -- `max_by_key` over the roots that hold the path: of equal keys the last one.
  unfoldable pub longest_root : FilePath → List FilePath → Option FilePath → Option FilePath
  unfolding starts_with
  longest_root path [] best = best
  longest_root path (root ∷ roots) best = longest_root path roots (
      if starts_with path root
      then elim best [
        | none ↦ some root
        | some b ↦ if leb (os_length b) (os_length root) then some root else some b
      ]
      else best)

abbrev target_index : OptimizerTarget → ℕ
target_index OptimizerTarget.texture = 0
target_index OptimizerTarget.mesh = 1
target_index OptimizerTarget.animation = 2
target_index OptimizerTarget.archive = 3

-- `RoutingLedger::routed_assets_for`
abbrev pub routed_assets_for : OptimizerTarget → RoutingLedger → List RoutedAsset
routed_assets_for target ledger =
    filter (λ a. target_index a.target == target_index target) ledger.routed_assets

-- The order in which Assets are offered.
abbrev pub offered : RoutingLedger → List RoutedAsset
offered ledger =
    routed_assets_for OptimizerTarget.texture ledger
    ++ (routed_assets_for OptimizerTarget.mesh ledger
        ++ routed_assets_for OptimizerTarget.animation ledger)

-- An attempt that cannot tell what it left behind.
abbrev pub backend_failed : FilePath → Text → AssetExecutionResult
backend_failed path detail = record {
  outcome =
      failed (record { category = backend_exception; detail = detail; capacity_shortage = none })
        partial_or_unknown false;
  path = path;
  operation = codes "execute_asset";
  service_detail = [];
  cleanup_failures = [];
}

-- What one Asset's attempt makes, or the report of a backend that it was cancelled.
abbrev pub result_of :
    FilePath → FilePath → RoutedAsset → Caught AttemptEnd → Option RoutedAssetAttempt
result_of path root a (returned (attempted r)) =
    some (record { mod_root = root; asset = a; result = r })
result_of path root a (returned initialization_cancelled) = none
result_of path root a (panicked m) =
    some (record { mod_root = root; asset = a; result = backend_failed path m })

abbrev pub outside_attempt : RoutedAsset → RoutedAssetAttempt
outside_attempt a = record {
  mod_root = [];
  asset = a;
  result = backend_failed a.execution_path (codes "Routed Asset is outside prepared Mod Roots");
}

module _ {A W : Type 0} where
  -- The diagnostics of an attempt, retained through the open phase's handle.
  unfoldable pub retain_all : List RunDiagnostic → Phase A W (Unit {0})
  unfolding step
  retain_all [] = pure tt
  retain_all (d ∷ ds) = do step (keep_diagnostic d); retain_all ds

  abbrev pub or_cancelled : Option RoutedAssetAttempt → Phase A W RoutedAssetAttempt
  or_cancelled none = exit (breaks backend_cancelled)
  or_cancelled (some attempt) = pure attempt

module _ {A W : Type 0} (tools : Toolset A W) where
  -- `attributed_mod_root`
  unfoldable pub attributed_mod_root : W → FilePath → List FilePath → Option FilePath
  unfolding longest_root
  attributed_mod_root world path roots =
      longest_root tools.os_length (or_itself path (tools.weakly_canonical world path)) roots none

  unfoldable pub call_attempt : FilePath → RoutedAsset → Phase A W (AttemptCall A W)
  call_attempt root a w =
      let called = tools.attempt a root w.artifacts w.world w.clock in
      (
        value called,
        record w { artifacts = called.artifacts; world = called.world; clock = called.clock },
      )

  unfoldable pub attempt_in : RoutedAsset → Option FilePath → Phase A W RoutedAssetAttempt
  unfolding call_attempt retain_all
  attempt_in a none = pure (outside_attempt a)
  attempt_in a (some root) = do
    called ← call_attempt root a
    retain_all called.diagnostics
    or_cancelled (result_of a.execution_path root a called.end_of_attempt)

  unfoldable pub attempt_asset : List FilePath → RoutedAsset → Phase A W RoutedAssetAttempt
  unfolding attempt_in attributed_mod_root
  attempt_asset roots a w = attempt_in a (attributed_mod_root w.world a.execution_path roots) w

module _ {A W : Type 0} (tools : Toolset A W) (stop : Token) where
  -- The loop over the offered Assets.
  unfoldable pub process_each : List FilePath → List RoutedAsset → Phase A W (Unit {0})
  unfolding unless_cancelled attempt_asset step safe_to_continue
  process_each roots [] = pure tt
  process_each roots (a ∷ rest) = do
    unless_cancelled stop
    attempt ← attempt_asset tools roots a
    step (asset attempt)
    if safe_to_continue attempt.result.outcome then process_each roots rest else halt

  -- `process_assets`
  unfoldable pub process_assets : RunPreparation → RoutingLedger → Phase A W (Unit {0})
  unfolding step process_each unless_cancelled
  process_assets preparation ledger = do
    step (open_processing ledger)
    process_each preparation.mod_roots (offered ledger)
    unless_cancelled stop
