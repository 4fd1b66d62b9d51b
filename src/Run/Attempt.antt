-- ===== src/Run/Attempt.antt =====
-- The Attempt Outcome of crates/cao-core/src/attempt.rs, with the mutation state of
-- crates/cao-core/src/execution.rs and the shortage of crates/cao-core/src/run/capacity.rs.
use cao.Shared.{ℕ, Bool, true, false, not, ◌&&◌, Option, none, some, Text}
use cao.Shared.Paths.{FilePath}

pub data MutationState : Type 0 where
  unchanged committed partial_or_unknown : MutationState

pub data CompletedMutation : Type 0 where
  unchanged committed : CompletedMutation

abbrev pub mutation_state : CompletedMutation → MutationState
mutation_state CompletedMutation.unchanged = MutationState.unchanged
mutation_state CompletedMutation.committed = MutationState.committed

pub record CapacityShortage : Type 0 where
  pub root : FilePath
  pub required : ℕ
  pub available : ℕ

pub record OperationFailure (F : Type 0) : Type 0 where
  pub category : F
  pub detail : Text
  pub capacity_shortage : Option CapacityShortage

pub data AttemptOutcome (F : Type 0) : Type 0 where
  success : CompletedMutation → AttemptOutcome F
  failed : OperationFailure F → MutationState → Bool → AttemptOutcome F

abbrev pub is_partial : MutationState → Bool
is_partial partial_or_unknown = true
is_partial _ = false

pub record AttemptFacts : Type 0 where
  pub mutation : MutationState
  pub succeeded : Bool
  pub safe_to_continue : Bool

module _ {F : Type 0} where
  unfoldable pub succeeded : AttemptOutcome F → Bool
  succeeded (success _) = true
  succeeded (failed _ _ _) = false

  -- A success is always safe; a failure only where its producer claimed so and its mutation is
  -- neither partial nor unknown.
  unfoldable pub safe_to_continue : AttemptOutcome F → Bool
  safe_to_continue (success _) = true
  safe_to_continue (failed _ mutation claimed) = claimed && not (is_partial mutation)

  unfoldable pub mutation : AttemptOutcome F → MutationState
  mutation (success m) = mutation_state m
  mutation (failed _ m _) = m

  unfoldable pub failure : AttemptOutcome F → Option (OperationFailure F)
  failure (success _) = none
  failure (failed f _ _) = some f

  unfoldable pub facts : AttemptOutcome F → AttemptFacts
  unfolding succeeded safe_to_continue mutation
  facts o = record {
    mutation = mutation o;
    succeeded = succeeded o;
    safe_to_continue = safe_to_continue o;
  }
