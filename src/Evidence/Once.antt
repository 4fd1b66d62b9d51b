-- ===== src/Evidence/Once.antt =====
-- The facts of crates/cao-core/src/run/evidence.rs that are recorded once, accepted where a run stands.
use cao.Shared.{ℕ, true, false, List, Option, none, some, ◌≡◌, refl, ap, ◌∙◌, arith}
use cao.Routing.Kinds.{SkipReason}
use cao.Run.Lifecycle.{
  discovering_archives, building_effective_asset_tree, RunPhaseStatus, RunProgress,
}
use cao.Run.Results.{ArchiveCollision}
use cao.Evidence.Storage.{archive_discovery_current, is_current}
use cao.Evidence.Sinks.{Evidence}
use cao.Evidence.Facts.{
  record_archive_collisions, record_skipped_archive_counts, record_nested_archive_count,
  discovery_or_default,
}
use cao.Evidence.Operations.{collisions, skipped_counts, nested_count, perform}
use cao.Evidence.Standing.{OnceFacts, Standing}
use cao.Evidence.Accepted.{Accepts}

module _ {status : RunPhaseStatus} {progress : Option RunProgress} {facts : OnceFacts}
    (e : Evidence) where
  pub collisions-Accepts :
      Standing discovering_archives status progress facts e.storage
      → facts.collisions ≡ false
      → (cs : List ArchiveCollision)
      → Accepts
          (collisions cs)
          e
          (Standing discovering_archives status progress (record facts { collisions = true }))
  unfolding perform record_archive_collisions
  collisions-Accepts h fresh cs =
      let there : is_current e.storage discovering_archives ≡ true = rw h.shape refl in
      let s = e.storage in
      let unrecorded : s.archive_collisions_recorded ≡ false =
        ap (λ (f : OnceFacts). f.collisions) h.once ∙ fresh in
      let noted = record e {
        storage = record s { archive_collisions = cs; archive_collisions_recorded = true };
      } in
      let same : record_archive_collisions cs e ≡ (noted, none) = ground arith in
      rw same (
        refl,
        record {
          rest = h.rest;
          shape = h.shape;
          below = h.below;
          once = ap (λ (f : OnceFacts). record f { collisions = true }) h.once;
        },
      )

  pub skipped_counts-Accepts :
      Standing discovering_archives status progress facts e.storage
      → facts.skipped_counts ≡ false
      → (f : SkipReason → ℕ)
      → Accepts
          (skipped_counts f)
          e
          (Standing discovering_archives status progress (record facts { skipped_counts = true }))
  unfolding perform record_skipped_archive_counts
  skipped_counts-Accepts h fresh counts =
      let s = e.storage in
      let there : archive_discovery_current s ≡ true = rw h.shape refl in
      let unrecorded : s.skipped_archive_counts_recorded ≡ false =
        ap (λ (f : OnceFacts). f.skipped_counts) h.once ∙ fresh in
      let d = discovery_or_default s.archive_discovery in
      let noted = record e {
        storage = record s {
          skipped_archive_counts_recorded = true;
          archive_discovery = some (record d { skipped_archive_counts = counts });
        };
      } in
      let same : record_skipped_archive_counts counts e ≡ (noted, none) = ground arith in
      rw same (
        refl,
        record {
          rest = h.rest;
          shape = h.shape;
          below = h.below;
          once = ap (λ (f : OnceFacts). record f { skipped_counts = true }) h.once;
        },
      )

  pub nested_count-Accepts :
      Standing building_effective_asset_tree status progress facts e.storage
      → facts.nested_count ≡ false
      → (n : ℕ)
      → Accepts (nested_count n) e (
          Standing building_effective_asset_tree status progress
            (record facts { nested_count = true }))
  unfolding perform record_nested_archive_count
  nested_count-Accepts h fresh n =
      let s = e.storage in
      let there : archive_discovery_current s ≡ true = rw h.shape refl in
      let unrecorded : s.nested_archive_count_recorded ≡ false =
        ap (λ (f : OnceFacts). f.nested_count) h.once ∙ fresh in
      let d = discovery_or_default s.archive_discovery in
      let noted = record e {
        storage = record s {
          nested_archive_count_recorded = true;
          archive_discovery = some (record d { nested_archive_count = n });
        };
      } in
      let same : record_nested_archive_count n e ≡ (noted, none) = ground arith in
      rw same (
        refl,
        record {
          rest = h.rest;
          shape = h.shape;
          below = h.below;
          once = ap (λ (f : OnceFacts). record f { nested_count = true }) h.once;
        },
      )
