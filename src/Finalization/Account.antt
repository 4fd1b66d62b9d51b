-- ===== src/Finalization/Account.antt =====
-- The state of Archive Finalization's phase, its failures and its demands, of
-- crates/cao-core/src/run/finalization/mod.rs.
use cao.Shared.{
  ℕ, Bool, true, false, List, [], ◌∷◌, ◌++◌, map, Option, none, some, ◌==◌, if◌then◌else◌, Text,
}
use cao.Shared.Paths.{FilePath}
use cao.Shared.Prefixes.{same_path}
use cao.Run.Attempt.{CapacityShortage, OperationFailure, failed, MutationState, failure}
use cao.Run.Results.{
  RunPreparation, ArchiveFinalizationFailure, insufficient_capacity, unexpected_exception,
  ArchiveFinalizationAttempt, ArchiveFinalizationAccount,
}
use cao.Evidence.Phases.{Violation}
use cao.Finalization.Plan.{FinalizationOutput, FinalizationPlan, Demand}
use cao.Work.Flow.{Outcome, value, stops, Action}
use cao.Work.Worker.{Worker}

-- The phase's own state: the account is kept across a panic.
pub record Finalizer (A W : Type 0) : Type 0 where
  pub worker : Worker A W
  pub account : ArchiveFinalizationAccount

-- `Escape`; a panic of the work is contained just as `Escape::Work` is.
pub data Escape : Type 0 where
  evidence_escape : Violation → Escape
  work_escape : Text → Escape

abbrev pub Finalizing : Type 0 → Type 0 → Type 0 → Type 0
Finalizing A W B = Action (Finalizer A W) Escape B

abbrev pub escape_of : Option Violation → Outcome Escape (Unit {0})
escape_of none = value tt
escape_of (some v) = stops (evidence_escape v)

-- `OperationFailure::new`
abbrev pub exception : Text → OperationFailure ArchiveFinalizationFailure
exception detail = record {
  category = unexpected_exception;
  detail = detail;
  capacity_shortage = none;
}

-- `from_capacity_shortage`, with the text of the shortage.
abbrev pub shortage_failure :
    (CapacityShortage → Text) → CapacityShortage → OperationFailure ArchiveFinalizationFailure
shortage_failure to_text s = record {
  category = insufficient_capacity;
  detail = to_text s;
  capacity_shortage = some s;
}

-- The account of a phase that an exception ended.
abbrev pub unsafe_account : Text → ArchiveFinalizationAccount → ArchiveFinalizationAccount
unsafe_account detail a = record a { failure = some (exception detail); safe_to_continue = false }

abbrev is_shortage : ArchiveFinalizationFailure → Bool
is_shortage insufficient_capacity = true
is_shortage _ = false

abbrev is_rejected : Option (OperationFailure ArchiveFinalizationFailure) → Bool
is_rejected none = false
is_rejected (some f) = is_shortage f.category

-- Whether the attempt's own recheck of the capacity rejected it.
unfoldable pub capacity_rejected : ArchiveFinalizationAttempt → Bool
unfolding failure
capacity_rejected a = is_rejected (failure a.outcome)

-- The attempt that a shortage before creation leaves.
abbrev pub shortage_attempt :
    (CapacityShortage → Text) → CapacityShortage → FilePath → ArchiveFinalizationAttempt
shortage_attempt to_text s archive = record {
  archive_path = archive;
  mod_root = s.root;
  outcome = failed (shortage_failure to_text s) MutationState.unchanged true;
}

abbrev pub find_output : FilePath → List FinalizationOutput → Option FilePath
unfolding same_path
find_output root [] = none
find_output root (o ∷ os) =
    let rest = find_output root os in
    if same_path o.mod_root root then some o.archive_path else rest

-- The demands of `creation_demand`, one addition after the other.
abbrev pub dummy_demand : (FilePath → ℕ) → List FilePath → Demand
dummy_demand dummies = map (λ r. (r, dummies r))

abbrev pub phase_demand : FinalizationPlan → Demand
phase_demand p =
    dummy_demand p.dummy_capacity_by_root p.roots
    ++ map (λ o. (o.mod_root, o.estimated_capacity_bytes)) p.outputs

-- `packing_exclusions`
abbrev pub packing_exclusions : (Text → Text) → RunPreparation → List Text
packing_exclusions to_lowercase p =
    map (λ rule. to_lowercase (map (λ c. if c == 0x5c then b'/' else c) rule))
      p.selected_profile.packing_exclusions
