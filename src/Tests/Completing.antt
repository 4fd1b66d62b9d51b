-- ===== src/Tests/Completing.antt =====
-- A run that has built its tree and whose attempts are all safe.
use cao.Shared.{ℕ, [], ◌∷◌, All, none, ◌≡◌, refl, arith}
use cao.Shared.Paths.{compare_text}
use cao.Shared.Prefixes.{starts_with}
use cao.Run.Attempt.{safe_to_continue}
use cao.Run.Lifecycle.{preparing, discovering_archives, building_effective_asset_tree}
use cao.Evidence.Sinks.{Evidence, new_evidence, publish}
use cao.Evidence.Phases.{record_phase, accept_phase}
use cao.Evidence.Facts.{
  record_skipped_archive_counts, record_archive_collisions, record_nested_archive_count,
}
use cao.Evidence.Operations.{
  executed_phase, skipped_counts, collisions, nested_count, perform, perform_all,
}
use cao.Work.Flow.{value}
use cao.Work.Worker.{Worker}
use cao.Work.Process.{offered, process_assets, attributed_mod_root, longest_root}
use cao.Work.Run.{hired}
use cao.Request.Choices.{default_choices}
use cao.Work.Followed.{asset_attempts, Completed}
use cao.Work.Unrefused.Extraction.{HasTree}
use cao.Work.Completing.{AttemptsSafely, IsAttributed, process_assets_completes}
use cao.Tests.Working.{tools, never, preparation, ledger, mod_root}

abbrev built : Evidence
built =
    perform_all
      (executed_phase preparing none
        ∷ executed_phase discovering_archives none
        ∷ skipped_counts (λ r. 0)
        ∷ collisions []
        ∷ executed_phase building_effective_asset_tree none
        ∷ nested_count 0
        ∷ [])
      (new_evidence none)

built-HasTree : HasTree built.storage
unfolding perform_all perform record_phase accept_phase publish record_skipped_archive_counts
    record_archive_collisions record_nested_archive_count
built-HasTree = record {
  rest = _;
  shape = refl;
  below = (omega arith, (omega arith, tt));
  once = refl;
}

abbrev tree_built : Worker ℕ ℕ
tree_built = hired never preparation default_choices tools 0 built 0 0

tools-AttemptsSafely : AttemptsSafely tools
unfolding safe_to_continue
tools-AttemptsSafely a root artifacts world clock = (_, refl, refl)

offered-IsAttributed : All (IsAttributed tools preparation.mod_roots) (offered ledger)
unfolding attributed_mod_root longest_root starts_with compare_text
offered-IsAttributed = ((λ world. (mod_root, refl)), tt)

process_assets_completes_example :
    let o = process_assets tools never preparation ledger tree_built in
    (o.0 ≡ value tt) × Completed (offered ledger) (asset_attempts tree_built.operations) o.1
process_assets_completes_example =
    process_assets_completes tools never preparation (λ n. refl) tools-AttemptsSafely ledger
      tree_built offered-IsAttributed built-HasTree
