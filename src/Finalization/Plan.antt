-- ===== src/Finalization/Plan.antt =====
-- The output plan of Archive Finalization (crates/cao-core/src/run/finalization/planning.rs), and
-- what the phase of finalization/mod.rs calls: planning, the attempts, the Capacity Check of
-- run/capacity.rs, the Loading Plugins and the deletion of empty directories.
use cao.Shared.{ℕ, Bool, List, Option, Text}
use cao.Shared.Paths.{FilePath}
use cao.Request.Choices.{ArchiveFinalizationChoices}
use cao.Run.Attempt.{CapacityShortage}
use cao.Run.Results.{
  PackedArchiveKind, ArchiveFinalizationAttempt, ArchiveFinalizationAccount,
  ArchiveFinalizationMutation,
}
use cao.Executor.Services.{Caught}

pub record PackedFile : Type 0 where
  pub path : FilePath
  pub size : ℕ

pub record PlannedArchive : Type 0 where
  pub kind : PackedArchiveKind
  pub files : List PackedFile

pub record FinalizationOutput : Type 0 where
  pub mod_root : FilePath
  pub archive_path : FilePath
  pub archive : PlannedArchive
  pub plugin_path : Option FilePath
  pub estimated_capacity_bytes : ℕ
  pub loading_plugin_paths : List FilePath

-- The naming rules of the packer are left to the calls that read them.
pub record FinalizationPlan : Type 0 where
  pub outputs : List FinalizationOutput
  pub roots : List FilePath
  pub compress : Bool
  pub delete_sources : Bool
  pub create_dummies : Bool
  pub dummy_capacity_by_root : FilePath → ℕ

-- How planning ends: with a plan, a `PlanningStop`, or a panic.
pub data Planning : Type 0 where
  plan_made : FinalizationPlan → Planning
  planning_cancelled : Planning
  planning_failed : Text → Planning

-- Bytes for each Mod Root, in the order in which they were added.
abbrev pub Demand : Type 0
Demand = List (FilePath × ℕ)

-- The verdict before creation; one that the phase calls unreachable unwinds with a message.
pub data CreationVerdict : Type 0 where
  fits : CreationVerdict
  fail_work : CapacityShortage → CreationVerdict
  unreachable : Text → CreationVerdict

-- An output's attempt with the mutations that it appended.
pub record OutputCall (A W : Type 0) : Type 0 where
  pub attempt : Caught ArchiveFinalizationAttempt
  pub mutations : List ArchiveFinalizationMutation
  pub artifacts : A
  pub world : W
  pub clock : ℕ

-- How the maintenance of one Mod Root's Loading Plugins ends: whether the phase goes on, or the
-- text of an error or panic.
pub data Maintenance : Type 0 where
  maintained : Bool → Maintenance
  maintenance_failed : Text → Maintenance

pub record MaintenanceCall (A W : Type 0) : Type 0 where
  pub maintenance : Maintenance
  pub account : ArchiveFinalizationAccount
  pub artifacts : A
  pub world : W
  pub clock : ℕ

pub record Seams (A W : Type 0) : Type 0 where
  pub str_to_lowercase : Text → Text
  pub shortage_text : CapacityShortage → Text
  pub plan_finalization :
      List FilePath → ArchiveFinalizationChoices → List Text → W → ℕ → Planning × ℕ
  pub check_before_creation : Demand → W → CreationVerdict
  pub attempt_output : FinalizationPlan → ℕ → Demand → A → W → ℕ → OutputCall A W
  pub recheck_at : Demand → FilePath → W → Option CapacityShortage
  pub maintain_existing_loading_plugins :
      FinalizationPlan → FilePath → ArchiveFinalizationAccount → A → W → ℕ → MaintenanceCall A W
  pub delete_empty_directories : FilePath → W → ℕ × W
