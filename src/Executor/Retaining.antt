-- ===== src/Executor/Retaining.antt =====
-- The recording steps that retain the Run Failures there are.
use cao.Shared.{
  ℕ, List, some, ◌≡◌, inl, inr, refl, ◌∙◌, arith, Bool-cases, is_some, length, leb, ap, sym,
  Option-cases, ◌-◌, suc, zero, ◌+◌,
}
use cao.Routing.Kinds.{SkipReason}
use cao.Routing.Route.{RoutingLedger}
use cao.Run.Lifecycle.{RunPhaseRecord, RunFailure, executed_record, completed, RunPhase}
use cao.Run.Results.{
  RunPreparation, ArchiveCollision, PlannedArchiveExtraction, OutputPlanBasis, PlannedOutputArchive,
  ArchiveFinalizationAccount,
}
use cao.Evidence.Storage.{Storage, find_phase, latest}
use cao.Evidence.Sinks.{
  Evidence, Publication, publish_diagnostics, publish, publish_next-cases, publish_rounds,
}
use cao.Evidence.Phases.{accept_phase, open_attempt_phase, record_phase, open_processing_assets}
use cao.Evidence.Facts.{
  record_preparation, record_archive_collisions, record_skipped_archive_counts,
  record_nested_archive_count, record_planned_extraction, record_output_plan_basis,
  record_planned_output, record_safety_cleanup_failure,
}
use cao.Evidence.Attempts.{
  PhaseAttempt, Current, elsewhere, unplanned, at, current_of, retain_in, advance, record_in,
  record_attempt_progress, plan_archive_finalization, finish_archive_finalization,
}
use cao.Evidence.Operations.{publish_pending, perform}
use cao.Evidence.Preserved.{
  record_phase-cases, open_processing-cases, with_ledger, processing_record,
}
use cao.Evidence.Planning.{plan-cases, planned_finalization, with_default_result}
use cao.Evidence.Transition.{accept_phase_lem, publish-storage}

-- A step that retains the failures there are.
abbrev pub Keeps : Evidence → Evidence → Type 0
Keeps e f = f.storage.failures ≡ e.storage.failures

accept-Keeps : (r : RunPhaseRecord) (e : Evidence) → Keeps e (accept_phase r e).0
accept-Keeps r e = elim (accept_phase_lem r e) [
  | inl (_, _, same) ↦ ap (λ (s : Storage). s.failures) same
  | inr (_, same) ↦ ap (λ (f : Evidence). f.storage.failures) same
]

pub record_phase-Keeps : (r : RunPhaseRecord) (e : Evidence) → Keeps e (record_phase r e).0
record_phase-Keeps r e = elim (record_phase-cases r e) [
  | inl (same, _) ↦ rw same (accept-Keeps r e)
  | inr same ↦ rw same refl
]

pub open-Keeps : (r : RunPhaseRecord) (e : Evidence) → Keeps e (open_attempt_phase r e).0
unfolding open_attempt_phase
open-Keeps r e = elim (Bool-cases (is_some (find_phase r.phase e.storage.phases))) [
  | inl q ↦ rw q refl
  | inr q ↦ rw q (accept-Keeps r e)
]

pub open_processing-Keeps :
    (l : RoutingLedger) (e : Evidence) → Keeps e (open_processing_assets l e).0
open_processing-Keeps l e = elim (open_processing-cases l e) [
  | inl same ↦ rw same refl
  | inr same ↦ rw same (open-Keeps (processing_record l) (with_ledger l e))
]

pub plan-Keeps : (n : ℕ) (e : Evidence) → Keeps e (plan_archive_finalization n e).0
plan-Keeps n e = elim (plan-cases n e) [
  | inl same ↦ rw same refl
  | inr (_, same) ↦ rw same (accept-Keeps (planned_finalization n) (with_default_result e))
]

module _ {T : Type 0} (k : PhaseAttempt T)
    (keeps : (a : T) (s : Storage) → (k.retain a s).failures ≡ s.failures) where
  record_in-Keeps : (c : Current) (a : T) (e : Evidence) → Keeps e (record_in k c a e).0
  unfolding record_in
  record_in-Keeps elsewhere a e = refl
  record_in-Keeps unplanned a e = refl
  record_in-Keeps (at p) a e = elim (Bool-cases (leb p.total (completed p))) [
    | inl q ↦ rw q refl
    | inr q ↦
        let r = executed_record k.phase (some (advance p (k.succeeded a))) in
        rw q (accept-Keeps r (retain_in k a e) ∙ keeps a e.storage)
  ]

  pub attempt-Keeps : (a : T) (e : Evidence) → Keeps e (record_attempt_progress k a e).0
  unfolding record_attempt_progress
  attempt-Keeps a e = record_in-Keeps (current_of k.phase (latest e.storage.phases)) a e

pub publish-Keeps : (p : RunPhase) (x : Publication) (e : Evidence) → Keeps e (publish p x e)
publish-Keeps p x e = ap (λ (s : Storage). s.failures) (publish-storage p x e)

rounds-Keeps : (n : ℕ) (e f : Evidence) → publish_rounds n e ≡ some f → Keeps e f
unfolding publish_rounds
rounds-Keeps zero e f h = let same : e ≡ f = ground arith in rw (sym same) refl
rounds-Keeps (suc n) e f h = elim (publish_next-cases e) [
  | inl stops ↦ absurd (ground arith)
  | inr (d, goes) ↦
      let claimed = record e { published_diagnostics = e.published_diagnostics + 1 } in
      rounds-Keeps n (publish d.phase (Publication.diagnostic d) claimed) f (ground arith)
      ∙ publish-Keeps d.phase (Publication.diagnostic d) claimed
]

pub pending-Keeps : (e : Evidence) → Keeps e (perform publish_pending e).0
unfolding perform publish_diagnostics
pending-Keeps e = elim (Option-cases (publish_diagnostics e)) [
  | inl h ↦ rw h refl
  | inr (f, h) ↦
      rw h (rounds-Keeps (length e.diagnostic_publications - e.published_diagnostics) e f h)
]

pub record_preparation-Keeps :
    (p : RunPreparation) (e : Evidence) → Keeps e (record_preparation p e).0
unfolding record_preparation
record_preparation-Keeps p e = ground arith

pub record_archive_collisions-Keeps :
    (cs : List ArchiveCollision) (e : Evidence) → Keeps e (record_archive_collisions cs e).0
unfolding record_archive_collisions
record_archive_collisions-Keeps cs e = ground arith

pub record_skipped_archive_counts-Keeps :
    (f : SkipReason → ℕ) (e : Evidence) → Keeps e (record_skipped_archive_counts f e).0
unfolding record_skipped_archive_counts
record_skipped_archive_counts-Keeps f e = ground arith

pub record_nested_archive_count-Keeps :
    (n : ℕ) (e : Evidence) → Keeps e (record_nested_archive_count n e).0
unfolding record_nested_archive_count
record_nested_archive_count-Keeps n e = ground arith

pub record_planned_extraction-Keeps :
    (x : PlannedArchiveExtraction) (e : Evidence) → Keeps e (record_planned_extraction x e).0
unfolding record_planned_extraction
record_planned_extraction-Keeps x e = ground arith

pub record_output_plan_basis-Keeps :
    (b : OutputPlanBasis) (e : Evidence) → Keeps e (record_output_plan_basis b e).0
unfolding record_output_plan_basis
record_output_plan_basis-Keeps b e = ground arith

pub record_planned_output-Keeps :
    (o : PlannedOutputArchive) (e : Evidence) → Keeps e (record_planned_output o e).0
unfolding record_planned_output
record_planned_output-Keeps o e = ground arith

pub record_safety_cleanup_failure-Keeps :
    (f : RunFailure) (e : Evidence) → Keeps e (record_safety_cleanup_failure f e).0
unfolding record_safety_cleanup_failure
record_safety_cleanup_failure-Keeps f e = ground arith

pub finish_archive_finalization-Keeps :
    (a : ArchiveFinalizationAccount) (e : Evidence) → Keeps e (finish_archive_finalization a e).0
unfolding finish_archive_finalization
finish_archive_finalization-Keeps a e = ground arith
