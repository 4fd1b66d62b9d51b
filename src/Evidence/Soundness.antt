-- ===== src/Evidence/Soundness.antt =====
-- The invariant of Run Evidence against each recording step.
use cao.Shared.{Option, none, some, inl, inr, refl, arith}
use cao.Run.Lifecycle.{
  extracting_archives, archive_finalization, executed_record, skipped_record, planned_record,
  determinate,
}
use cao.Evidence.Sinks.{
  Evidence, Sink, new_evidence, retain_diagnostic, record_failure, retain_failure,
}
use cao.Evidence.Phases.{open_archive_extraction, open_archive_finalization}
use cao.Evidence.Facts.{
  record_preparation, record_archive_collisions, record_skipped_archive_counts,
  record_nested_archive_count, record_planned_extraction, record_output_plan_basis,
  record_planned_output, record_safety_cleanup_failure, record_cancellation_observation,
}
use cao.Evidence.Attempts.{
  extraction_attempt, asset_attempt, finalization_attempt, finish_archive_finalization,
}
use cao.Evidence.Account.{done, lost}
use cao.Evidence.Preserved.{
  IsSound, record_phase-IsSound, open_attempt_phase-IsSound, open_processing-IsSound,
}
use cao.Evidence.Progress.{record_attempt_progress-IsSound}
use cao.Evidence.Lawful.{
  extraction_attempt-Lawful, asset_attempt-Lawful, finalization_attempt-Lawful,
}
use cao.Evidence.Operations.{
  Operation, executed_phase, skipped_phase, planned_phase, open_extraction, open_finalization,
  open_processing, extraction, asset, output, plan, finish, preparation, collisions, skipped_counts,
  nested_count, planned_extraction, output_basis, planned_output, cleanup_failure, publish_failure,
  keep_failure, keep_diagnostic, publish_pending, cancellation, perform, Reached, start, step,
}
use cao.Evidence.Unmoved.{
  Alike, Alike-IsSound, Unmoved-Alike, pending-Alike, record_failure-Alike, retain_diagnostic-Alike,
  record_preparation-Unmoved, record_archive_collisions-Unmoved,
  record_skipped_archive_counts-Unmoved, record_nested_archive_count-Unmoved,
  record_planned_extraction-Unmoved, record_output_plan_basis-Unmoved,
  record_planned_output-Unmoved, record_safety_cleanup_failure-Unmoved,
  finish_archive_finalization-Unmoved,
}
use cao.Evidence.Planning.{plan-IsSound}

abbrev alike_keeps :
    (e e' : Evidence) → Alike e.storage e'.storage → IsSound e.storage → IsSound e'.storage
alike_keeps e e' a i = Alike-IsSound e.storage e'.storage a i

-- Every recording step, whatever its arguments, accepted or refused, keeps the invariant.
pub perform-IsSound :
    (o : Operation) (e : Evidence) → IsSound e.storage → IsSound (perform o e).0.storage
unfolding perform open_archive_extraction open_archive_finalization
perform-IsSound (executed_phase p q) e i =
    record_phase-IsSound (executed_record p q) e (λ h. refl) (inl refl) i
perform-IsSound (skipped_phase p r) e i =
    record_phase-IsSound (skipped_record p r) e (λ h. absurd (ground arith)) (inr refl) i
perform-IsSound (planned_phase p) e i =
    record_phase-IsSound (planned_record p) e (λ h. refl) (inr refl) i
perform-IsSound (open_extraction n) e i =
    open_attempt_phase-IsSound (executed_record extracting_archives (some (determinate n 0 0))) e
      (λ h. refl) refl i
perform-IsSound open_finalization e i =
    open_attempt_phase-IsSound (executed_record archive_finalization none) e (λ h. refl) refl i
perform-IsSound (open_processing l) e i = open_processing-IsSound l e i
perform-IsSound (extraction a) e i =
    record_attempt_progress-IsSound extraction_attempt extraction_attempt-Lawful a e i
perform-IsSound (asset a) e i =
    record_attempt_progress-IsSound asset_attempt asset_attempt-Lawful a e i
perform-IsSound (output a) e i =
    record_attempt_progress-IsSound finalization_attempt finalization_attempt-Lawful a e i
perform-IsSound (plan n) e i = plan-IsSound n e i
perform-IsSound (finish a) e i =
    alike_keeps e (finish_archive_finalization a e).0
      (Unmoved-Alike e (finish_archive_finalization a e).0
        (finish_archive_finalization-Unmoved a e))
      i
perform-IsSound (preparation p) e i =
    alike_keeps e (record_preparation p e).0
      (Unmoved-Alike e (record_preparation p e).0 (record_preparation-Unmoved p e)) i
perform-IsSound (collisions cs) e i =
    alike_keeps e (record_archive_collisions cs e).0
      (Unmoved-Alike e (record_archive_collisions cs e).0 (record_archive_collisions-Unmoved cs e))
      i
perform-IsSound (skipped_counts f) e i =
    alike_keeps e (record_skipped_archive_counts f e).0
      (Unmoved-Alike e (record_skipped_archive_counts f e).0
        (record_skipped_archive_counts-Unmoved f e))
      i
perform-IsSound (nested_count n) e i =
    alike_keeps e (record_nested_archive_count n e).0
      (Unmoved-Alike e (record_nested_archive_count n e).0
        (record_nested_archive_count-Unmoved n e))
      i
perform-IsSound (planned_extraction x) e i =
    alike_keeps e (record_planned_extraction x e).0
      (Unmoved-Alike e (record_planned_extraction x e).0 (record_planned_extraction-Unmoved x e)) i
perform-IsSound (output_basis b) e i =
    alike_keeps e (record_output_plan_basis b e).0
      (Unmoved-Alike e (record_output_plan_basis b e).0 (record_output_plan_basis-Unmoved b e)) i
perform-IsSound (planned_output o) e i =
    alike_keeps e (record_planned_output o e).0
      (Unmoved-Alike e (record_planned_output o e).0 (record_planned_output-Unmoved o e)) i
perform-IsSound (cleanup_failure f) e i =
    alike_keeps e (record_safety_cleanup_failure f e).0
      (Unmoved-Alike e (record_safety_cleanup_failure f e).0
        (record_safety_cleanup_failure-Unmoved f e))
      i
perform-IsSound (publish_failure f) e i =
    alike_keeps e (record_failure f e) (record_failure-Alike f e) i
perform-IsSound (keep_failure f) e i =
    unfold retain_failure in
    alike_keeps e (retain_failure f e)
      (record {
        same_phases = refl;
        same_extractions = refl;
        same_assets = refl;
        same_outputs = refl;
      })
      i
perform-IsSound (keep_diagnostic d) e i =
    alike_keeps e (retain_diagnostic d e) (retain_diagnostic-Alike d e) i
perform-IsSound publish_pending e i =
    alike_keeps e (perform publish_pending e).0 (pending-Alike e) i
perform-IsSound cancellation e i =
    unfold record_cancellation_observation in
    alike_keeps e (record_cancellation_observation e)
      (record {
        same_phases = refl;
        same_extractions = refl;
        same_assets = refl;
        same_outputs = refl;
      })
      i

new-IsSound : (sink : Option Sink) → IsSound (new_evidence sink).storage
unfolding done lost
new-IsSound sink = record {
  ordered = tt;
  bounded = tt;
  shaped = tt;
  extracting = (refl, refl);
  processing = (refl, refl);
  finalizing = (refl, refl);
}

-- In all evidence that a run can reach, by any sequence of recording steps and with any observer,
-- the Run Phases are in strictly canonical order from Preparing or Safety Cleanup on, no progress
-- passes its total, no executed phase has a reason to skip, and the succeeded and failed counts of
-- each attempt-bearing phase are those of the attempts retained for it.
pub Reached-IsSound : (sink : Option Sink) (e : Evidence) → Reached sink e → IsSound e.storage
Reached-IsSound sink e start = new-IsSound sink
Reached-IsSound sink e (step {e = d} o r) = perform-IsSound o d (Reached-IsSound sink d r)
