-- ===== src/Work/Discover.antt =====
-- `discover_archives` of crates/cao-core/src/run/executor/work_phases.rs.
use cao.Shared.{
  ℕ, ◌+◌, Bool, true, false, List, [], ◌∷◌, ◌++◌, none, some, ◌==◌, if◌then◌else◌, Text,
}
use cao.Shared.Paths.{FilePath}
use cao.Shared.Prefixes.{contains}
use cao.Routing.Kinds.{SkipReason}
use cao.Routing.Policy.{RoutingPolicy}
use cao.Routing.Route.{
  AssetIdentity, RoutingDecision, routed, skipped, unsupported, route, reason_index,
}
use cao.Run.Lifecycle.{discovering_archives}
use cao.Run.Results.{RunPreparation}
use cao.Evidence.Operations.{executed_phase, skipped_counts, collisions, publish_failure}
use cao.Selection.Overlap.{Token}
use cao.Work.Flow.{value, pure, ◌>>=◌, ◌>>◌}
use cao.Work.Toolset.{
  ArchiveExtractionPlan, RootArchives, Preflight, planned, failed, cancelled, Toolset,
}
use cao.Work.Worker.{Worker, Phase, step, halt, diagnose}
use cao.Work.Visit.{visit}
use cao.Work.GamePaths.{relative_game_path, archive_order_key, sort_archives}

abbrev is_archive : AssetIdentity → Bool
is_archive AssetIdentity.archive = true
is_archive _ = false

abbrev names_archive : RoutingDecision → Bool
names_archive (routed a) = is_archive a.identity
names_archive (skipped a) = is_archive a.identity
names_archive unsupported = false

-- `names_an_archive`
unfoldable pub names_an_archive : RoutingPolicy → FilePath → Bool
unfolding route
names_an_archive policy path = names_archive (route policy path)

-- What the Archive pass collects: over all roots, and the current root's Archives and Loose Assets.
pub record ArchivePass : Type 0 where
  pub skipped : SkipReason → ℕ
  pub recognized : List FilePath
  pub selected : List FilePath
  pub loose : List Text

abbrev pub empty_pass : ArchivePass
empty_pass = record { skipped = λ r. 0; recognized = []; selected = []; loose = [] }

abbrev count_skip : SkipReason → (SkipReason → ℕ) → SkipReason → ℕ
count_skip reason counts r =
    if reason_index r == reason_index reason then counts r + 1 else counts r

abbrev pub enter_archive : RoutingDecision → FilePath → ArchivePass → ArchivePass
enter_archive (routed _) path pass = record pass { selected = pass.selected ++ path ∷ [] }
enter_archive (skipped a) path pass = record pass { skipped = count_skip a.reason pass.skipped }
enter_archive unsupported path pass = pass

-- What `discover_archives` hands on.
pub record DiscoveredArchives : Type 0 where
  pub recognized : List FilePath
  pub plans : List ArchiveExtractionPlan

-- Whether the Archive pass is complete, what it counted, and its roots.
abbrev pub Passed : Type 0
Passed = Bool × ArchivePass × List RootArchives

abbrev pub next_root : ArchivePass → ArchivePass
next_root pass = record pass { selected = []; loose = [] }

module _ {A W : Type 0} where
  -- What the preflight decides for the phase.
  unfoldable pub after_preflight : List FilePath → Preflight → Phase A W DiscoveredArchives
  unfolding diagnose step
  after_preflight recognized (failed f) = do step (publish_failure f); halt
  after_preflight recognized cancelled = halt
  after_preflight recognized (planned plans cs none) = do
    step (collisions cs)
    pure (record { recognized = recognized; plans = plans })
  after_preflight recognized (planned plans cs (some warning)) = do
    step (collisions cs)
    diagnose warning
    pure (record { recognized = recognized; plans = plans })

module _ {A W : Type 0} (tools : Toolset A W) where
  -- The visitor of the Archive pass.
  unfoldable pub visit_archive : RoutingPolicy → FilePath → ArchivePass → FilePath → ArchivePass
  unfolding names_an_archive relative_game_path contains route
  visit_archive policy root pass path =
      if names_an_archive policy path
      then if contains pass.recognized path
        then pass
        else enter_archive (route policy path) path
            (record pass { recognized = path ∷ pass.recognized })
      else record pass {
        loose = pass.loose ++ relative_game_path tools.to_string_lossy root path ∷ [];
      }

  abbrev pub root_archives : FilePath → ArchivePass → RootArchives
  unfolding sort_archives archive_order_key relative_game_path
  root_archives root pass = record {
    root = root;
    archives =
        sort_archives
          (λ p.
            archive_order_key tools.to_lowercase (relative_game_path tools.to_string_lossy root p))
          pass.selected;
    loose = pass.loose;
  }

  unfoldable pub preflight_of : RunPreparation → List RootArchives → Phase A W Preflight
  preflight_of preparation roots w =
      let (decided, clock) =
        tools.preflight_archives roots preparation.archive_precedence w.world w.clock in
      (value decided, record w { clock = clock })

module _ {A W : Type 0} (tools : Toolset A W) (stop : Token) where
  -- The loop over the Mod Roots.
  unfoldable pub archive_pass :
      RoutingPolicy
      → List FilePath
      → ArchivePass
      → List RootArchives
      → Worker A W
      → Passed × Worker A W
  unfolding visit visit_archive sort_archives
  archive_pass policy [] pass roots w = ((true, pass, roots), w)
  archive_pass policy (root ∷ rest) pass roots w =
      let walked =
        visit stop discovering_archives (visit_archive tools policy root) root
          (tools.tree w.world root) (next_root pass) w in
      let others =
        archive_pass policy rest walked.1 (roots ++ root_archives tools root walked.1 ∷ [])
          walked.2 in
      if walked.0 then others else ((false, walked.1, roots), walked.2)

  unfoldable pub run_archive_pass : RunPreparation → Phase A W Passed
  unfolding archive_pass
  run_archive_pass preparation w =
      let (passed, after) = archive_pass preparation.policy preparation.mod_roots empty_pass [] w in
      (value passed, after)

  -- `discover_archives`
  unfoldable pub discover_archives : RunPreparation → Phase A W DiscoveredArchives
  unfolding step run_archive_pass preflight_of after_preflight
  discover_archives preparation = do
    step (executed_phase discovering_archives none)
    passed ← run_archive_pass preparation
    step (skipped_counts passed.1.skipped)
    if passed.0
        then (do
          decided ← preflight_of tools preparation passed.2
          after_preflight passed.1.recognized decided)
        else halt
