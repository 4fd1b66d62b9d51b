-- ===== src/Evidence/Total.antt =====
-- The publication queue of crates/cao-core/src/run/evidence.rs under each recording step.
use cao.Shared.{
  ◌<◌, [], ◌∷◌, ◌++◌, Option, none, some, ◌≡◌, refl, arith, length, length-append, All-append,
}
use cao.Run.Lifecycle.{
  RunDiagnostic, executed_record, skipped_record, planned_record, extracting_archives,
  archive_finalization, determinate,
}
use cao.Evidence.Sinks.{Evidence, Sink, retain_diagnostic, publish_diagnostics, retain_failure}
use cao.Evidence.Phases.{open_archive_extraction, open_archive_finalization}
use cao.Evidence.Facts.{
  record_preparation, record_archive_collisions, record_skipped_archive_counts,
  record_nested_archive_count, record_planned_extraction, record_output_plan_basis,
  record_planned_output, record_safety_cleanup_failure, record_cancellation_observation,
}
use cao.Evidence.Attempts.{
  extraction_attempt, asset_attempt, finalization_attempt, finish_archive_finalization,
}
use cao.Evidence.Operations.{
  Operation, executed_phase, skipped_phase, planned_phase, open_extraction, open_finalization,
  open_processing, extraction, asset, output, plan, finish, preparation, collisions, skipped_counts,
  nested_count, planned_extraction, output_basis, planned_output, cleanup_failure, publish_failure,
  keep_failure, keep_diagnostic, publish_pending, cancellation, perform, Reached, start, step,
}
use cao.Evidence.Publishing.{IsPublishable, All-grows, Quiet-IsPublishable, publish_total}
use cao.Evidence.Unmoved.{
  record_preparation-Unmoved, record_archive_collisions-Unmoved,
  record_skipped_archive_counts-Unmoved, record_nested_archive_count-Unmoved,
  record_planned_extraction-Unmoved, record_output_plan_basis-Unmoved,
  record_planned_output-Unmoved, record_safety_cleanup_failure-Unmoved,
  finish_archive_finalization-Unmoved,
}
use cao.Evidence.Quiet.{
  record_phase-Quiet, open-Quiet, Unmoved-Quiet, open_processing-Quiet, plan-Quiet, attempt-Quiet,
  record_failure-Quiet,
}

retain_diagnostic-IsPublishable :
    (d : RunDiagnostic) (e : Evidence) → IsPublishable e → IsPublishable (retain_diagnostic d e)
unfolding retain_diagnostic
retain_diagnostic-IsPublishable d e (h, a) =
    let n = length e.storage.diagnostics in
    let m = length-append e.storage.diagnostics (d ∷ []) in
    let k = length-append e.diagnostic_publications (n ∷ []) in
    (
      omega arith,
      All-append (λ i. i < length (e.storage.diagnostics ++ d ∷ [])) e.diagnostic_publications
          (n ∷ [])
          (All-grows n (length (e.storage.diagnostics ++ d ∷ [])) e.diagnostic_publications
            (omega arith) a)
          (omega arith, tt),
    )

perform-IsPublishable :
    (o : Operation) (e : Evidence) → IsPublishable e → IsPublishable (perform o e).0
unfolding perform open_archive_extraction open_archive_finalization retain_failure
    record_cancellation_observation
perform-IsPublishable (executed_phase p x) e h =
    Quiet-IsPublishable e _ (record_phase-Quiet (executed_record p x) e) h
perform-IsPublishable (skipped_phase p r) e h =
    Quiet-IsPublishable e _ (record_phase-Quiet (skipped_record p r) e) h
perform-IsPublishable (planned_phase p) e h =
    Quiet-IsPublishable e _ (record_phase-Quiet (planned_record p) e) h
perform-IsPublishable (open_extraction n) e h =
    Quiet-IsPublishable e _
      (open-Quiet (executed_record extracting_archives (some (determinate n 0 0))) e) h
perform-IsPublishable open_finalization e h =
    Quiet-IsPublishable e _ (open-Quiet (executed_record archive_finalization none) e) h
perform-IsPublishable (open_processing l) e h =
    Quiet-IsPublishable e _ (open_processing-Quiet l e) h
perform-IsPublishable (extraction a) e h =
    Quiet-IsPublishable e _ (attempt-Quiet extraction_attempt (λ a s. refl) a e) h
perform-IsPublishable (asset a) e h =
    Quiet-IsPublishable e _ (attempt-Quiet asset_attempt (λ a s. refl) a e) h
perform-IsPublishable (output a) e h =
    Quiet-IsPublishable e _ (attempt-Quiet finalization_attempt (λ a s. refl) a e) h
perform-IsPublishable (plan n) e h = Quiet-IsPublishable e _ (plan-Quiet n e) h
perform-IsPublishable (finish a) e h =
    Quiet-IsPublishable e (finish_archive_finalization a e).0
      (Unmoved-Quiet e (finish_archive_finalization a e).0
        (finish_archive_finalization-Unmoved a e))
      h
perform-IsPublishable (preparation p) e h =
    Quiet-IsPublishable e (record_preparation p e).0
      (Unmoved-Quiet e (record_preparation p e).0 (record_preparation-Unmoved p e)) h
perform-IsPublishable (collisions cs) e h =
    Quiet-IsPublishable e (record_archive_collisions cs e).0
      (Unmoved-Quiet e (record_archive_collisions cs e).0 (record_archive_collisions-Unmoved cs e))
      h
perform-IsPublishable (skipped_counts f) e h =
    Quiet-IsPublishable e (record_skipped_archive_counts f e).0
      (Unmoved-Quiet e (record_skipped_archive_counts f e).0
        (record_skipped_archive_counts-Unmoved f e))
      h
perform-IsPublishable (nested_count n) e h =
    Quiet-IsPublishable e (record_nested_archive_count n e).0
      (Unmoved-Quiet e (record_nested_archive_count n e).0
        (record_nested_archive_count-Unmoved n e))
      h
perform-IsPublishable (planned_extraction x) e h =
    Quiet-IsPublishable e (record_planned_extraction x e).0
      (Unmoved-Quiet e (record_planned_extraction x e).0 (record_planned_extraction-Unmoved x e)) h
perform-IsPublishable (output_basis b) e h =
    Quiet-IsPublishable e (record_output_plan_basis b e).0
      (Unmoved-Quiet e (record_output_plan_basis b e).0 (record_output_plan_basis-Unmoved b e)) h
perform-IsPublishable (planned_output o) e h =
    Quiet-IsPublishable e (record_planned_output o e).0
      (Unmoved-Quiet e (record_planned_output o e).0 (record_planned_output-Unmoved o e)) h
perform-IsPublishable (cleanup_failure f) e h =
    Quiet-IsPublishable e (record_safety_cleanup_failure f e).0
      (Unmoved-Quiet e (record_safety_cleanup_failure f e).0
        (record_safety_cleanup_failure-Unmoved f e))
      h
perform-IsPublishable (publish_failure f) e h = Quiet-IsPublishable e _ (record_failure-Quiet f e) h
perform-IsPublishable (keep_failure f) e h = h
perform-IsPublishable (keep_diagnostic d) e h = retain_diagnostic-IsPublishable d e h
perform-IsPublishable publish_pending e h = let (f, same, ok, all) = publish_total e h in rw same ok
perform-IsPublishable cancellation e h = h

Reached-IsPublishable : (sink : Option Sink) (e : Evidence) → Reached sink e → IsPublishable e
Reached-IsPublishable sink e start = (omega arith, tt)
Reached-IsPublishable sink e (step {e = d} o r) =
    perform-IsPublishable o d (Reached-IsPublishable sink d r)

-- On all evidence that a run can reach, publishing the waiting diagnostics ends without a panic on
-- an index out of range, and leaves none waiting.
pub publish_diagnostics_total :
    (sink : Option Sink) (e : Evidence)
    → Reached sink e
    → (e' : Evidence) × (publish_diagnostics e ≡ some e')
      × (e'.published_diagnostics ≡ length e'.diagnostic_publications)
publish_diagnostics_total sink e r =
    let (f, same, ok, all) = publish_total e (Reached-IsPublishable sink e r) in (f, same, all)
