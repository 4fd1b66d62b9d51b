-- ===== src/Work/Toolset.antt =====
-- What the work phases take from the Run Toolset (crates/cao-core/src/run/toolset.rs) and from the
-- filesystem, with `ArchiveExtractionPlan`, `RootArchives` and `Preflight` of run/archives.rs and
-- `CreationPlanning` of run/finalization/mod.rs.
use cao.Shared.{ℕ, Bool, List, Option, Text}
use cao.Shared.Paths.{FilePath}
use cao.Routing.Route.{RoutedAsset}
use cao.Request.Choices.{SourceCleanup, ArchiveFinalizationChoices}
use cao.Request.RunRequest.{ArchivePrecedence}
use cao.Run.Lifecycle.{RunDiagnostic, RunFailure}
use cao.Run.Results.{
  ArchiveCollision, ArchiveExtractionResult, AssetExecutionResult, PlannedOutputArchive,
  RunPreparation,
}
use cao.Executor.Services.{Caught}
use cao.Finalization.Plan.{Seams}

-- How one directory entry is linked: its metadata cannot be read, it is no link, or it is a link or
-- reparse point, to a directory or not, with the path that it resolves to, if any.
pub data Link : Type 0 where
  vanished direct : Link
  linked : Bool → Option FilePath → Link

-- What a walk reads of a directory tree: entries that cannot be read are `broken`.
mutual
  pub data Directory : Type 0 where
    unreadable : Directory
    listed : Entries → Directory

  pub data Entries : Type 0 where
    end : Entries
    broken : Entries → Entries
    entry : Text → Link → Content → Entries → Entries

  pub data Content : Type 0 where
    file other : Content
    folder : Directory → Content

pub record ArchiveExtractionPlan : Type 0 where
  pub archive_path : FilePath
  pub mod_root : FilePath
  pub entries : List Text
  pub merge_entries : List Text
  pub estimated_capacity_bytes : ℕ

-- `loose` is a set of game paths; the order of insertion is kept.
pub record RootArchives : Type 0 where
  pub root : FilePath
  pub archives : List FilePath
  pub loose : List Text

pub data Preflight : Type 0 where
  planned : List ArchiveExtractionPlan → List ArchiveCollision → Option RunDiagnostic → Preflight
  failed : RunFailure → Preflight
  cancelled : Preflight

pub data CreationPlanning : Type 0 where
  not_requested : CreationPlanning
  planned : List PlannedOutputArchive → Option RunDiagnostic → CreationPlanning
  cancelled : CreationPlanning
  failed : Text → CreationPlanning

-- How an Asset attempt ends, if it returns: `Err(AssetInitializationCancelled)` is `initialization_cancelled`.
pub data AttemptEnd : Type 0 where
  attempted : AssetExecutionResult → AttemptEnd
  initialization_cancelled : AttemptEnd

-- An Asset attempt: the diagnostics that it retained, how it ended, and what it changed.
pub record AttemptCall (A W : Type 0) : Type 0 where
  pub diagnostics : List RunDiagnostic
  pub end_of_attempt : Caught AttemptEnd
  pub artifacts : A
  pub world : W
  pub clock : ℕ

-- `RunToolset` over the Temporary Ownership registry `A` and the state `W` of the toolset and of
-- the disk. A call that may sample the token takes the number of the next sample.
pub record Toolset (A W : Type 0) : Type 0 where
  pub tree : W → FilePath → Directory
  pub to_string_lossy : Text → Text
  pub os_length : FilePath → ℕ
  pub to_lowercase : ℕ → Text
  pub weakly_canonical : W → FilePath → Option FilePath
  pub preflight_archives : List RootArchives → ArchivePrecedence → W → ℕ → Preflight × ℕ
  pub extract_archive :
      ArchiveExtractionPlan → SourceCleanup → A → W → ArchiveExtractionResult × A × W
  pub attempt : RoutedAsset → FilePath → A → W → ℕ → AttemptCall A W
  pub seams : Seams A W
  pub plan_archive_creation :
      RunPreparation → ArchiveFinalizationChoices → W → ℕ → CreationPlanning × ℕ
