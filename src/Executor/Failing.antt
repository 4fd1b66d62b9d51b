-- ===== src/Executor/Failing.antt =====
-- The Run Failures of the evidence under each recording step.
use cao.Shared.{List, [], ◌∷◌, ◌++◌, none, some, ◌≡◌, inl, refl, ◌∙◌, arith, ◌≢◌, sym}
use cao.Run.Lifecycle.{
  RunFailure, executed_record, skipped_record, planned_record, extracting_archives,
  archive_finalization, determinate, RunOutcome,
}
use cao.Evidence.Sinks.{Evidence, Publication, retain_diagnostic, record_failure, retain_failure}
use cao.Evidence.Phases.{open_archive_extraction, open_archive_finalization}
use cao.Evidence.Facts.{record_cancellation_observation}
use cao.Evidence.Attempts.{extraction_attempt, asset_attempt, finalization_attempt}
use cao.Evidence.Operations.{
  Operation, executed_phase, skipped_phase, planned_phase, open_extraction, open_finalization,
  open_processing, extraction, asset, output, plan, finish, preparation, collisions, skipped_counts,
  nested_count, planned_extraction, output_basis, planned_output, cleanup_failure, publish_failure,
  keep_failure, keep_diagnostic, publish_pending, cancellation, perform, perform_all,
}
use cao.Evidence.Seal.{RunEvidence, sealed, consume, derive}
use cao.Executor.Classification.{classify_terminal_outcome, classify_iff}
use cao.Executor.Retaining.{
  Keeps, record_phase-Keeps, open-Keeps, open_processing-Keeps, plan-Keeps, attempt-Keeps,
  publish-Keeps, pending-Keeps, record_preparation-Keeps, record_archive_collisions-Keeps,
  record_skipped_archive_counts-Keeps, record_nested_archive_count-Keeps,
  record_planned_extraction-Keeps, record_output_plan_basis-Keeps, record_planned_output-Keeps,
  record_safety_cleanup_failure-Keeps, finish_archive_finalization-Keeps,
}

append_nonempty : (fs : List RunFailure) (f : RunFailure) → (fs ++ f ∷ []) ≢ []
append_nonempty [] f h = cc
append_nonempty (x ∷ fs) f h = cc

abbrev Failing : Evidence → Type 0
Failing e = e.storage.failures ≢ []

kept : (e f : Evidence) → Keeps e f → Failing e → Failing f
kept e f k h q = h (sym k ∙ q)

perform-Failing : (o : Operation) (e : Evidence) → Failing e → Failing (perform o e).0
unfolding perform open_archive_extraction open_archive_finalization record_failure retain_failure
    retain_diagnostic record_cancellation_observation
perform-Failing (executed_phase p x) e h =
    kept e (perform (executed_phase p x) e).0 (record_phase-Keeps (executed_record p x) e) h
perform-Failing (skipped_phase p r) e h =
    kept e (perform (skipped_phase p r) e).0 (record_phase-Keeps (skipped_record p r) e) h
perform-Failing (planned_phase p) e h =
    kept e (perform (planned_phase p) e).0 (record_phase-Keeps (planned_record p) e) h
perform-Failing (open_extraction n) e h =
    kept e (perform (open_extraction n) e).0
      (open-Keeps (executed_record extracting_archives (some (determinate n 0 0))) e) h
perform-Failing open_finalization e h =
    kept e (perform open_finalization e).0
      (open-Keeps (executed_record archive_finalization none) e) h
perform-Failing (open_processing l) e h =
    kept e (perform (open_processing l) e).0 (open_processing-Keeps l e) h
perform-Failing (extraction a) e h =
    kept e (perform (extraction a) e).0 (attempt-Keeps extraction_attempt (λ a s. refl) a e) h
perform-Failing (asset a) e h =
    kept e (perform (asset a) e).0 (attempt-Keeps asset_attempt (λ a s. refl) a e) h
perform-Failing (output a) e h =
    kept e (perform (output a) e).0 (attempt-Keeps finalization_attempt (λ a s. refl) a e) h
perform-Failing (plan n) e h = kept e (perform (plan n) e).0 (plan-Keeps n e) h
perform-Failing (preparation p) e h =
    kept e (perform (preparation p) e).0 (record_preparation-Keeps p e) h
perform-Failing (collisions cs) e h =
    kept e (perform (collisions cs) e).0 (record_archive_collisions-Keeps cs e) h
perform-Failing (skipped_counts f) e h =
    kept e (perform (skipped_counts f) e).0 (record_skipped_archive_counts-Keeps f e) h
perform-Failing (nested_count n) e h =
    kept e (perform (nested_count n) e).0 (record_nested_archive_count-Keeps n e) h
perform-Failing (planned_extraction x) e h =
    kept e (perform (planned_extraction x) e).0 (record_planned_extraction-Keeps x e) h
perform-Failing (output_basis b) e h =
    kept e (perform (output_basis b) e).0 (record_output_plan_basis-Keeps b e) h
perform-Failing (planned_output o) e h =
    kept e (perform (planned_output o) e).0 (record_planned_output-Keeps o e) h
perform-Failing (cleanup_failure f) e h =
    kept e (perform (cleanup_failure f) e).0 (record_safety_cleanup_failure-Keeps f e) h
perform-Failing (finish a) e h =
    kept e (perform (finish a) e).0 (finish_archive_finalization-Keeps a e) h
perform-Failing (publish_failure f) e h =
    let kept_now = publish-Keeps f.phase (Publication.failure f) (retain_failure f e) in
    λ q. append_nonempty e.storage.failures f (sym kept_now ∙ q)
perform-Failing (keep_failure f) e h = append_nonempty e.storage.failures f
perform-Failing (keep_diagnostic d) e h = h
perform-Failing publish_pending e h = kept e (perform publish_pending e).0 (pending-Keeps e) h
perform-Failing cancellation e h = h

perform_all-Failing : (os : List Operation) (e : Evidence) → Failing e → Failing (perform_all os e)
unfolding perform_all
perform_all-Failing [] e h = h
perform_all-Failing (o ∷ os) e h = perform_all-Failing os (perform o e).0 (perform-Failing o e h)

-- Once evidence holds a Run Failure, whatever is recorded after it, cancellation and cleanup
-- included, the run seals as Failed.
pub perform_all-failed :
    (os : List Operation) (e : Evidence) (r : RunEvidence)
    → e.storage.failures ≢ []
    → consume (perform_all os e) ≡ sealed r
    → classify_terminal_outcome r ≡ RunOutcome.failed
unfolding consume derive
perform_all-failed os e r h s =
    let same : r.storage.failures ≡ (perform_all os e).storage.failures = ground arith in
    (classify_iff r).0.1 (inl (inl (inl (λ q. perform_all-Failing os e h (sym same ∙ q)))))
