-- ===== src/Work/Tree.antt =====
-- `build_effective_asset_tree` of crates/cao-core/src/run/executor/work_phases.rs.
use cao.Shared.{Bool, true, false, List, [], ◌∷◌, ◌++◌, none, if◌then◌else◌, length}
use cao.Shared.Paths.{FilePath}
use cao.Shared.Prefixes.{contains}
use cao.Routing.Policy.{RoutingPolicy}
use cao.Routing.Route.{RoutingLedger, route_all}
use cao.Run.Lifecycle.{building_effective_asset_tree}
use cao.Run.Results.{RunPreparation}
use cao.Evidence.Operations.{executed_phase, nested_count}
use cao.Selection.Overlap.{Token}
use cao.Work.Flow.{value, pure, ◌>>=◌, ◌>>◌}
use cao.Work.Toolset.{Toolset}
use cao.Work.Worker.{Worker, Phase, step, halt, unless_cancelled}
use cao.Work.Visit.{visit}
use cao.Work.Discover.{names_an_archive}

-- What the definitive pass collects; `nested` is a set of paths.
pub record TreePass : Type 0 where
  pub effective_paths : List FilePath
  pub nested : List FilePath

-- `HashSet::insert`
abbrev insert_path : FilePath → List FilePath → List FilePath
unfolding contains
insert_path path paths = if contains paths path then paths else path ∷ paths

-- The visitor of the definitive pass.
unfoldable pub visit_effective : RoutingPolicy → List FilePath → TreePass → FilePath → TreePass
unfolding names_an_archive contains
visit_effective policy recognized pass path =
    if names_an_archive policy path
    then if contains recognized path
      then pass
      else record pass { nested = insert_path path pass.nested }
    else record pass { effective_paths = pass.effective_paths ++ path ∷ [] }

module _ {A W : Type 0} (tools : Toolset A W) (stop : Token) where
  -- The loop over the Mod Roots.
  unfoldable pub definitive_pass :
      RoutingPolicy
      → List FilePath
      → List FilePath
      → TreePass
      → Worker A W
      → (Bool × TreePass) × Worker A W
  unfolding visit visit_effective
  definitive_pass policy recognized [] pass w = ((true, pass), w)
  definitive_pass policy recognized (root ∷ roots) pass w =
      let walked =
        visit stop building_effective_asset_tree (visit_effective policy recognized) root
          (tools.tree w.world root) pass w in
      let others = definitive_pass policy recognized roots walked.1 walked.2 in
      if walked.0 then others else ((false, walked.1), walked.2)

  unfoldable pub run_definitive_pass : RunPreparation → List FilePath → Phase A W (Bool × TreePass)
  unfolding definitive_pass
  run_definitive_pass preparation recognized w =
      let (passed, after) =
        definitive_pass preparation.policy recognized preparation.mod_roots
          (record { effective_paths = []; nested = [] }) w in
      (value passed, after)

  -- `build_effective_asset_tree`
  unfoldable pub build_effective_asset_tree :
      RunPreparation → List FilePath → Phase A W RoutingLedger
  unfolding step unless_cancelled run_definitive_pass route_all
  build_effective_asset_tree preparation recognized = do
    step (executed_phase building_effective_asset_tree none)
    unless_cancelled stop
    passed ← run_definitive_pass preparation recognized
    if passed.0
        then (do
          step (nested_count (length passed.1.nested))
          pure (route_all preparation.policy passed.1.effective_paths))
        else halt
