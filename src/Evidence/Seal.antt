-- ===== src/Evidence/Seal.antt =====
-- `completed_attempts`, `derive_mutation_summaries` and `consume` of
-- crates/cao-core/src/run/evidence.rs, with the accessors of the sealed record.
use Prim.Native.Nat.{compare, Ordering}
use cao.Shared.{
  ℕ, ◌+◌, Bool, true, false, not, List, [], ◌∷◌, ◌++◌, map, Option, none, some, if◌then◌else◌,
}
use cao.Shared.Paths.{FilePath, compare_path, then_compare}
use cao.Routing.Kinds.{SkipReason}
use cao.Routing.Route.{RoutingLedger}
use cao.Run.Attempt.{MutationState, unchanged, committed, partial_or_unknown, AttemptFacts, facts}
use cao.Run.Lifecycle.{RunFailure, safety_cleanup}
use cao.Run.Results.{
  MutationKind, MutationSummary, ArchiveExtractionResult, RoutedAssetAttempt,
  ArchiveFinalizationAttempt, ArchiveFinalizationResult, ArchiveFinalizationMutation,
  ArchiveDiscoveryEvidence,
}
use cao.Evidence.Storage.{Storage, is_current}
use cao.Evidence.Sinks.{Evidence}
use cao.Evidence.Phases.{Violation, consumed_before_cleanup}
use cao.Evidence.Attempts.{streamed}

-- One recorded attempt of any kind, as classification and mutation summaries read it.
pub record CompletedAttempt : Type 0 where
  pub kind : MutationKind
  pub mod_root : FilePath
  pub facts : AttemptFacts

abbrev pub of_extraction : ArchiveExtractionResult → CompletedAttempt
of_extraction a = record {
  kind = MutationKind.archive_extraction;
  mod_root = a.mod_root;
  facts = facts a.outcome;
}

abbrev pub of_asset : RoutedAssetAttempt → CompletedAttempt
of_asset a = record {
  kind = MutationKind.asset_processing;
  mod_root = a.mod_root;
  facts = facts a.result.outcome;
}

abbrev pub of_finalization : ArchiveFinalizationAttempt → CompletedAttempt
of_finalization a = record {
  kind = MutationKind.archive_finalization;
  mod_root = a.mod_root;
  facts = facts a.outcome;
}

-- `Storage::completed_attempts`: extractions, Assets, finalization outputs.
unfoldable pub completed_attempts : Storage → List CompletedAttempt
completed_attempts s =
    map of_extraction s.archive_extraction_attempts
    ++ (map of_asset s.asset_attempts ++ map of_finalization (streamed s.archive_finalization))

-- One durable effect, with how many it stands for.
pub record Effect : Type 0 where
  pub mod_root : FilePath
  pub kind : MutationKind
  pub mutation : MutationState
  pub count : ℕ

abbrev pub effect_of_attempt : CompletedAttempt → Effect
effect_of_attempt a = record {
  mod_root = a.mod_root;
  kind = a.kind;
  mutation = a.facts.mutation;
  count = 1;
}

abbrev pub effect_of_mutation : ArchiveFinalizationMutation → Effect
effect_of_mutation m = record {
  mod_root = m.mod_root;
  kind = MutationKind.archive_finalization;
  mutation = m.mutation;
  count = m.count;
}

abbrev pub finalization_mutations :
    Option ArchiveFinalizationResult → List ArchiveFinalizationMutation
finalization_mutations none = []
finalization_mutations (some r) = r.mutations

unfoldable pub effects : Storage → List Effect
effects s =
    map effect_of_attempt (completed_attempts s)
    ++ map effect_of_mutation (finalization_mutations s.archive_finalization)

abbrev pub mutation_kind_index : MutationKind → ℕ
mutation_kind_index MutationKind.archive_extraction = 0
mutation_kind_index MutationKind.asset_processing = 1
mutation_kind_index MutationKind.archive_finalization = 2

-- The order of the map's keys `(PathBuf, MutationKind)`.
unfoldable pub compare_key : FilePath → MutationKind → MutationSummary → Ordering
compare_key root kind m =
    then_compare (compare_path root m.mod_root)
      (compare (mutation_kind_index kind) (mutation_kind_index m.kind))

-- What one effect adds to its entry.
abbrev pub add_to : Effect → MutationSummary → MutationSummary
add_to x m = elim x.mutation [
  | unchanged ↦ m
  | committed ↦ record m { committed = m.committed + x.count }
  | partial_or_unknown ↦ record m { partial_or_unknown = m.partial_or_unknown + x.count }
]

abbrev pub fresh_summary : Effect → MutationSummary
fresh_summary x = record {
  mod_root = x.mod_root;
  kind = x.kind;
  committed = 0;
  partial_or_unknown = 0;
}

unfoldable pub place_summary :
    Ordering
    → Effect
    → MutationSummary
    → List MutationSummary
    → List MutationSummary
    → List MutationSummary
place_summary Ordering.lt x m ms rest = add_to x (fresh_summary x) ∷ m ∷ ms
place_summary Ordering.eq x m ms rest = add_to x m ∷ ms
place_summary Ordering.gt x m ms rest = m ∷ rest

-- `entry(key).or_insert_with(…)` on the ordered map, then the addition.
unfoldable pub upsert : Effect → List MutationSummary → List MutationSummary
unfolding place_summary
upsert x [] = add_to x (fresh_summary x) ∷ []
upsert x (m ∷ ms) = place_summary (compare_key x.mod_root x.kind m) x m ms (upsert x ms)

abbrev pub is_unchanged : MutationState → Bool
is_unchanged unchanged = true
is_unchanged _ = false

-- The loop over the effects; one that changed nothing makes no entry.
unfoldable pub group : List Effect → List MutationSummary → List MutationSummary
group [] ms = ms
group (x ∷ xs) ms = group xs (if is_unchanged x.mutation then ms else upsert x ms)

unfoldable pub derive_mutation_summaries : Storage → List MutationSummary
derive_mutation_summaries s = group (effects s) []

abbrev attempt_cleanups : List RoutedAssetAttempt → List RunFailure
attempt_cleanups [] = []
attempt_cleanups (a ∷ r) = a.result.cleanup_failures ++ attempt_cleanups r

abbrev pub discovery_skips : SkipReason → Option ArchiveDiscoveryEvidence → ℕ
discovery_skips r none = 0
discovery_skips r (some d) = d.skipped_archive_counts r

abbrev pub ledger_skips : SkipReason → Option RoutingLedger → ℕ
ledger_skips r none = 0
ledger_skips r (some l) = l.skipped_asset_counts r

-- The immutable record of a finished run.
pub record RunEvidence : Type 0 where
  pub storage : Storage

pub data SealResult : Type 0 where
  sealed : RunEvidence → SealResult
  refused : Violation → SealResult

-- What `consume` derives.
unfoldable pub derive : Storage → Storage
derive s = record s {
  mutation_summaries = derive_mutation_summaries s;
  cleanup_failures = attempt_cleanups s.asset_attempts ++ s.safety_cleanup_failures;
  skipped_asset_counts =
      λ r. discovery_skips r s.archive_discovery + ledger_skips r s.routing_ledger;
}

-- `consume`
unfoldable pub consume : Evidence → SealResult
unfolding derive
consume e =
    if not (is_current e.storage safety_cleanup)
    then refused consumed_before_cleanup
    else sealed (record { storage = derive e.storage })
