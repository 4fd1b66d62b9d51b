-- ===== src/Executor/Scheduling.antt =====
-- The results of a run whose worker could not be scheduled or whose executor panicked
-- (`terminal_failure` of crates/cao-core/src/run/executor.rs).
use cao.Shared.{
  Bool, true, false, List, [], ◌∷◌, Option, none, ◌≡◌, inl, inr, refl, ap, ◌∙◌, arith, Text,
}
use cao.Run.Lifecycle.{
  RunPhase, safety_cleanup, RunOutcome, RunPhaseRecord, executed_record, RunFailure,
}
use cao.Evidence.Storage.{Storage}
use cao.Evidence.Sinks.{Evidence, Sink, Publication, new_evidence, record_failure, retain_failure}
use cao.Evidence.Phases.{accept_violation, accept_phase, put_phase, record_phase}
use cao.Evidence.Facts.{record_safety_cleanup_failure, record_cancellation_observation}
use cao.Evidence.Seal.{RunEvidence, derive, consume}
use cao.Evidence.Transition.{publish-storage, accept_phase_lem}
use cao.Executor.Services.{Result, Caught}
use cao.Executor.Classification.{classify_terminal_outcome, classify_iff}
use cao.Executor.Execute.{
  OptimizationRunResult, result, terminal, seal, record_failures, cleanup_of, terminal_evidence,
  terminal_failure,
}

abbrev cleanup_record : RunPhaseRecord
cleanup_record = executed_record safety_cleanup none

-- Evidence of one failure, with Safety Cleanup as its only phase.
abbrev Only : RunFailure → Evidence → Type 0
Only f e = (e.storage.phases ≡ cleanup_record ∷ []) × (e.storage.failures ≡ f ∷ [])

failed_start :
    (f : RunFailure) (sink : Option Sink)
    → let e = record_failure f (new_evidence sink) in
      (e.storage.phases ≡ []) × (e.storage.failures ≡ f ∷ [])
unfolding record_failure retain_failure
failed_start f sink =
    let s =
      publish-storage f.phase (Publication.failure f) (retain_failure f (new_evidence sink)) in
    (ap (λ (t : Storage). t.phases) s, ap (λ (t : Storage). t.failures) s)

enter-Only :
    (f : RunFailure) (e : Evidence)
    → (e.storage.phases ≡ []) × (e.storage.failures ≡ f ∷ [])
    → Only f (record_phase cleanup_record e).0
unfolding record_phase
enter-Only f e (p, q) = elim (accept_phase_lem cleanup_record e) [
  | inl (ok, fine, same) ↦ (
    ap (λ (t : Storage). t.phases) same ∙ (rw p (unfold put_phase in refl)),
    ap (λ (t : Storage). t.failures) same ∙ q,
  )
  | inr (bad, same) ↦ absurd (unfold accept_phase accept_violation in ground arith)
]

cleanup_failure-Only :
    (f g : RunFailure) (e : Evidence) → Only f e → Only f (record_safety_cleanup_failure g e).0
unfolding record_safety_cleanup_failure
cleanup_failure-Only f g e (p, q) = (ground arith, ground arith)

record_failures-Only :
    (f : RunFailure) (fs : List RunFailure) (e : Evidence)
    → Only f e
    → Only f (record_failures fs e)
unfolding record_failures
record_failures-Only f [] e o = o
record_failures-Only f (g ∷ fs) e o =
    record_failures-Only f fs (record_safety_cleanup_failure g e).0 (cleanup_failure-Only f g e o)

module _ (f : RunFailure) (cleanup : Option (Caught (Result (List RunFailure))))
    (sink : Option Sink) where
  terminal_evidence-Only : (cancelled : Bool) → Only f (terminal_evidence f cleanup sink cancelled)
  unfolding terminal_evidence record_cancellation_observation
  terminal_evidence-Only true =
      record_failures-Only f (cleanup_of cleanup)
        (record_phase cleanup_record (record_failure f (new_evidence sink))).0
        (enter-Only f (record_failure f (new_evidence sink)) (failed_start f sink))
  terminal_evidence-Only false =
      record_failures-Only f (cleanup_of cleanup)
        (record_phase cleanup_record (record_failure f (new_evidence sink))).0
        (enter-Only f (record_failure f (new_evidence sink)) (failed_start f sink))

seal-Only :
    (f : RunFailure) (e : Evidence) (final : RunPhase) (run_id : Text)
    → Only f e
    → (r : OptimizationRunResult) × (seal e final run_id ≡ result r)
      × (r.outcome ≡ RunOutcome.failed)
      × (r.final_phase ≡ final)
      × (r.evidence.storage.phases ≡ cleanup_record ∷ [])
      × (r.evidence.storage.failures ≡ f ∷ [])
unfolding seal consume terminal derive
seal-Only f e final run_id (p, q) =
    let sealed_record : RunEvidence = record { storage = derive e.storage } in
    (
      record {
        run_id = run_id;
        outcome = classify_terminal_outcome sealed_record;
        final_phase = final;
        evidence = sealed_record;
      },
      rw p refl,
      (classify_iff sealed_record).0.1 (inl (inl (inl (λ h. ground arith)))),
      refl,
      p,
      q,
    )

-- A run whose worker could not be scheduled, or whose executor panicked, is Failed whatever its
-- cleanup service, observer and token do: its one Run Failure is the given one, its one phase is
-- Safety Cleanup, and its final phase is the given one.
pub terminal_failure-failed :
    (f : RunFailure) (cleanup : Option (Caught (Result (List RunFailure)))) (sink : Option Sink)
    (final : RunPhase) (cancelled : Bool) (run_id : Text)
    → (r : OptimizationRunResult) × (terminal_failure f cleanup sink final cancelled run_id
        ≡ result r)
      × (r.outcome ≡ RunOutcome.failed)
      × (r.final_phase ≡ final)
      × (r.evidence.storage.phases ≡ executed_record safety_cleanup none ∷ [])
      × (r.evidence.storage.failures ≡ f ∷ [])
unfolding terminal_failure
terminal_failure-failed f cleanup sink final cancelled run_id =
    seal-Only f (terminal_evidence f cleanup sink cancelled) final run_id
      (terminal_evidence-Only f cleanup sink cancelled)
