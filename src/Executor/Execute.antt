-- ===== src/Executor/Execute.antt =====
-- `RunExecutor::execute_with_work`, `terminal_failure`, `scheduling_failure` and `seal` of
-- crates/cao-core/src/run/executor.rs.
use cao.Shared.{
  Bool, false, ◌||◌, List, [], ◌∷◌, ◌++◌, Option, none, some, if◌then◌else◌, Text, codes,
}
use cao.Run.Lifecycle.{
  RunPhase, preparing, safety_cleanup, RunOutcome, executed_record, RunFailure, run_failure,
  run_work_escaped, scheduling_failed,
}
use cao.Request.RunRequest.{RunRequest}
use cao.Evidence.Sinks.{
  Evidence, Sink, new_evidence, publish_diagnostics, record_failure, retain_failure,
}
use cao.Evidence.Phases.{Violation, record_phase}
use cao.Evidence.Facts.{record_safety_cleanup_failure, record_cancellation_observation}
use cao.Evidence.Seal.{RunEvidence, SealResult, sealed, refused, consume}
use cao.Evidence.Messages.{evidence_invariant, to_string}
use cao.Evidence.Operations.{or_same}
use cao.Selection.Overlap.{Token}
use cao.Executor.Classification.{classify_terminal_outcome}
use cao.Executor.Services.{
  Services, Result, Caught, returned, panicked, collect_safety_cleanup_failures,
}
use cao.Executor.Traverse.{Machine, note, enter, current_phase, fail_at_current_phase, traverse}

-- `OptimizationRunResult`
pub record OptimizationRunResult : Type 0 where
  pub run_id : Text
  pub outcome : RunOutcome
  pub final_phase : RunPhase
  pub evidence : RunEvidence

-- How a run ends: with a result, by a `RunEvidenceInvariantPanic` with one, or by the panic of
-- `seal` on evidence that `consume` refuses.
pub data RunEnd : Type 0 where
  result : OptimizationRunResult → RunEnd
  invariant_panic : Text → OptimizationRunResult → RunEnd
  unsealed : Violation → RunEnd

unfoldable pub terminal : RunPhase → Text → SealResult → RunEnd
terminal final run_id (refused v) = unsealed v
terminal final run_id (sealed e) = result (record {
  run_id = run_id;
  outcome = classify_terminal_outcome e;
  final_phase = final;
  evidence = e;
})

-- `seal`
unfoldable pub seal : Evidence → RunPhase → Text → RunEnd
unfolding terminal
seal e final run_id = terminal final run_id (consume e)

abbrev pub with_panic : Text → RunEnd → RunEnd
with_panic violation (result r) = invariant_panic violation r
with_panic violation other = other

unfoldable pub end_run : Option Violation → Evidence → RunPhase → Text → RunEnd
unfolding seal to_string
end_run none e final run_id = seal e final run_id
end_run (some v) e final run_id =
    let violation = to_string (evidence_invariant v) in
    with_panic violation
      (seal (retain_failure (run_failure run_work_escaped final violation) e) final run_id)

module _ {A : Type 0} where
  unfoldable pub note_failures : List RunFailure → Machine A → Machine A
  unfolding note
  note_failures [] m = m
  note_failures (f ∷ fs) m = note_failures fs (note (record_safety_cleanup_failure f m.evidence) m)

  abbrev pub observe_cancellation : Bool → Machine A → Machine A
  observe_cancellation b m = record m {
    evidence = if b then record_cancellation_observation m.evidence else m.evidence;
  }

  abbrev pub with_pending : Machine A → Machine A
  with_pending m = record m { evidence = or_same (publish_diagnostics m.evidence) m.evidence }

  -- After the traversal: its panic becomes a Run Failure at the current phase.
  unfoldable pub settle_traversal : Caught Bool × Machine A → Bool × Machine A
  unfolding fail_at_current_phase
  settle_traversal (returned b, m) = (b, m)
  settle_traversal (panicked detail, m) = (
    false,
    record m {
      evidence =
          fail_at_current_phase (codes "The run's work escaped with a Run Worker panic: " ++ detail)
            m.evidence;
    },
  )

module _ {A T : Type 0} (services : Services A T) (stop : Token) where
  -- Safety Cleanup, from the entry of its phase to the sample of the token.
  unfoldable pub clean_up : Bool → Machine A → Machine A
  unfolding note_failures collect_safety_cleanup_failures
  clean_up backend_cancelled m =
      let entered = enter (executed_record safety_cleanup none) m in
      let failures =
        collect_safety_cleanup_failures (services.clean_artifacts entered.artifacts)
        ++ collect_safety_cleanup_failures services.safety_cleanup in
      let cleaned = note_failures failures entered in
      observe_cancellation (stop cleaned.clock || backend_cancelled) cleaned

  abbrev pub initial : Machine A
  initial = record {
    evidence = new_evidence services.observations;
    artifacts = services.registry;
    clock = 0;
    invariant = none;
  }

  -- The run up to Safety Cleanup.
  unfoldable pub before_cleanup : RunRequest → Bool × Machine A
  unfolding settle_traversal
  before_cleanup request =
      let t = settle_traversal (traverse services stop request initial) in (t.0, with_pending t.1)

  abbrev pub final_phase : RunRequest → RunPhase
  unfolding current_phase
  final_phase request = current_phase (before_cleanup request).1.evidence.storage

  -- The machine at the end of Safety Cleanup.
  unfoldable pub cleaned : RunRequest → Machine A
  unfolding clean_up before_cleanup
  cleaned request = let t = before_cleanup request in clean_up t.0 t.1

  -- `execute_with_work`
  unfoldable pub execute_with_work : RunRequest → Text → RunEnd
  unfolding end_run cleaned
  execute_with_work request run_id =
      let m = cleaned request in end_run m.invariant m.evidence (final_phase request) run_id

-- Ignores the violations that `terminal_failure` discards.
unfoldable pub record_failures : List RunFailure → Evidence → Evidence
record_failures [] e = e
record_failures (f ∷ fs) e = record_failures fs (record_safety_cleanup_failure f e).0

abbrev pub cleanup_of : Option (Caught (Result (List RunFailure))) → List RunFailure
unfolding collect_safety_cleanup_failures
cleanup_of none = []
cleanup_of (some c) = collect_safety_cleanup_failures c

-- The evidence that `terminal_failure` seals; `cancelled` is its one sample of the token.
unfoldable pub terminal_evidence :
    RunFailure → Option (Caught (Result (List RunFailure))) → Option Sink → Bool → Evidence
unfolding record_failures
terminal_evidence f cleanup sink cancelled =
    let entered =
      (record_phase (executed_record safety_cleanup none)
        (record_failure f (new_evidence sink))).0 in
    let cleaned = record_failures (cleanup_of cleanup) entered in
    if cancelled then record_cancellation_observation cleaned else cleaned

-- `terminal_failure`
unfoldable pub terminal_failure :
    RunFailure
    → Option (Caught (Result (List RunFailure)))
    → Option Sink
    → RunPhase
    → Bool
    → Text
    → RunEnd
unfolding terminal_evidence seal
terminal_failure f cleanup sink final cancelled run_id =
    seal (terminal_evidence f cleanup sink cancelled) final run_id

-- `scheduling_failure`
unfoldable pub scheduling_failure :
    Text → Caught (Result (List RunFailure)) → Option Sink → Bool → Text → RunEnd
unfolding terminal_failure
scheduling_failure detail cleanup sink cancelled run_id =
    terminal_failure (run_failure scheduling_failed preparing detail) (some cleanup) sink preparing
      cancelled run_id
