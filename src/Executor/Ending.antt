-- ===== src/Executor/Ending.antt =====
-- The end of a run: Safety Cleanup and `seal` of crates/cao-core/src/run/executor.rs.
use cao.Shared.{
  Bool, true, false, List, [], ◌∷◌, ◌++◌, none, some, ◌≡◌, ◌≢◌, ◌⊎◌, inl, inr, refl, sym, ap, ◌∙◌,
  arith, Option-cases, Text, ◌||◌, is_some,
}
use cao.Run.Lifecycle.{
  RunPhase, safety_cleanup, RunOutcome, RunPhaseRecord, executed_record, RunFailure, run_failure,
  run_work_escaped,
}
use cao.Request.RunRequest.{RunRequest}
use cao.Evidence.Storage.{Storage, is_current, is_at, latest}
use cao.Evidence.Sinks.{Evidence, retain_failure}
use cao.Evidence.Phases.{Violation, accept_violation, accept_phase, put_phase, record_phase}
use cao.Evidence.Facts.{record_safety_cleanup_failure, record_cancellation_observation}
use cao.Evidence.Seal.{derive, consume}
use cao.Evidence.Messages.{evidence_invariant, to_string}
use cao.Evidence.Operations.{perform, keep_failure}
use cao.Evidence.Transition.{accept_phase_lem}
use cao.Evidence.Preserved.{IsSound}
use cao.Evidence.Soundness.{Reached-IsSound, perform-IsSound}
use cao.Evidence.Unmoved.{Alike, Alike-IsSound, record_safety_cleanup_failure-Unmoved}
use cao.Selection.Overlap.{Token}
use cao.Executor.Services.{Services, collect_safety_cleanup_failures}
use cao.Executor.Classification.{classify_terminal_outcome, classify_iff}
use cao.Executor.Traverse.{Machine, note, enter}
use cao.Executor.Execute.{
  OptimizationRunResult, result, invariant_panic, with_panic, terminal, seal, end_run,
  note_failures, observe_cancellation, clean_up, before_cleanup, final_phase, cleaned,
  execute_with_work,
}
use cao.Executor.Carried.{cleaned-Reached}

abbrev pub AtCleanup : Evidence → Type 0
AtCleanup e = is_current e.storage safety_cleanup ≡ true

abbrev pub cleanup_record : RunPhaseRecord
cleanup_record = executed_record safety_cleanup none

put_phase_current :
    (phases : List RunPhaseRecord) (r : RunPhaseRecord)
    → is_at r.phase (latest (put_phase phases r)) ≡ true
unfolding put_phase
put_phase_current [] r = ground arith
put_phase_current (l ∷ ls) r = ground arith

-- Safety Cleanup comes after every other phase, so only a record of its own can refuse it.
pub cleanup_refused :
    (phases : List RunPhaseRecord)
    → is_some (accept_violation phases cleanup_record) ≡ true
    → is_at safety_cleanup (latest phases) ≡ true
unfolding accept_violation
cleanup_refused [] h = ground arith
cleanup_refused (l ∷ ls) h = ground arith

accept-AtCleanup : (e : Evidence) → AtCleanup (accept_phase cleanup_record e).0
accept-AtCleanup e = elim (accept_phase_lem cleanup_record e) [
  | inl (ok, fine, same) ↦ rw same (put_phase_current e.storage.phases cleanup_record)
  | inr (bad, same) ↦
      rw same (cleanup_refused e.storage.phases (unfold accept_phase in ground arith))
]

pub enter-AtCleanup : (e : Evidence) → AtCleanup (record_phase cleanup_record e).0
unfolding record_phase
enter-AtCleanup e = accept-AtCleanup e

pub record_failure-AtCleanup :
    (f : RunFailure) (e : Evidence) → AtCleanup e → AtCleanup (record_safety_cleanup_failure f e).0
record_failure-AtCleanup f e h =
    let same = (record_safety_cleanup_failure-Unmoved f e).0 in rw same h

note_failures-AtCleanup :
    {A : Type 0} (fs : List RunFailure) (m : Machine A)
    → AtCleanup m.evidence
    → AtCleanup (note_failures fs m).evidence
unfolding note_failures note
note_failures-AtCleanup [] m h = h
note_failures-AtCleanup (f ∷ fs) m h =
    note_failures-AtCleanup fs (note (record_safety_cleanup_failure f m.evidence) m)
      (record_failure-AtCleanup f m.evidence h)

observe-AtCleanup :
    {A : Type 0} (b : Bool) (m : Machine A)
    → AtCleanup m.evidence
    → AtCleanup (observe_cancellation b m).evidence
unfolding record_cancellation_observation
observe-AtCleanup true m h = h
observe-AtCleanup false m h = h

module _ {A T : Type 0} (services : Services A T) (stop : Token) where
  clean_up-AtCleanup : (b : Bool) (m : Machine A) → AtCleanup (clean_up services stop b m).evidence
  unfolding clean_up note
  clean_up-AtCleanup b m =
      let entered = enter cleanup_record m in
      let failures =
        collect_safety_cleanup_failures (services.clean_artifacts entered.artifacts)
        ++ collect_safety_cleanup_failures services.safety_cleanup in
      let done = note_failures failures entered in
      observe-AtCleanup (stop done.clock || b) done
        (note_failures-AtCleanup failures entered (enter-AtCleanup m.evidence))

  cleaned-AtCleanup : (request : RunRequest) → AtCleanup (cleaned services stop request).evidence
  unfolding cleaned
  cleaned-AtCleanup request =
      let t = before_cleanup services stop request in clean_up-AtCleanup t.0 t.1

-- A result whose record is sealed at Safety Cleanup, is sound, keeps the failures `fs`, and whose
-- outcome is that of its own facts.
pub record IsTerminal (r : OptimizationRunResult) (final : RunPhase) (fs : List RunFailure)
    : Type 0 where
  pub at_cleanup : is_current r.evidence.storage safety_cleanup ≡ true
  pub sound : IsSound r.evidence.storage
  pub ends_at : r.final_phase ≡ final
  pub keeps_failures : r.evidence.storage.failures ≡ fs
  pub classified : r.outcome ≡ classify_terminal_outcome r.evidence

derive-Alike : (s : Storage) → Alike s (derive s)
unfolding derive
derive-Alike s = record {
  same_phases = refl;
  same_extractions = refl;
  same_assets = refl;
  same_outputs = refl;
}

seal_lem :
    (e : Evidence) (final : RunPhase) (run_id : Text)
    → AtCleanup e
    → IsSound e.storage
    → (r : OptimizationRunResult) × (seal e final run_id ≡ result r)
      × IsTerminal r final e.storage.failures
unfolding seal consume terminal
seal_lem e final run_id h i = (
  record {
    run_id = run_id;
    outcome = classify_terminal_outcome (record { storage = derive e.storage });
    final_phase = final;
    evidence = record { storage = derive e.storage };
  },
  rw h refl,
  record {
    at_cleanup = unfold derive in h;
    sound = Alike-IsSound e.storage (derive e.storage) (derive-Alike e.storage) i;
    ends_at = refl;
    keeps_failures = unfold derive in refl;
    classified = refl;
  },
)

retained-IsSound :
    (f : RunFailure) (e : Evidence) → IsSound e.storage → IsSound (retain_failure f e).storage
unfolding perform
retained-IsSound f e i = perform-IsSound (keep_failure f) e i

abbrev escaped_failure : RunPhase → Text → RunFailure
escaped_failure final violation = run_failure run_work_escaped final violation

append_nonempty : (fs : List RunFailure) (f : RunFailure) → (fs ++ f ∷ []) ≢ []
append_nonempty [] f h = cc
append_nonempty (x ∷ fs) f h = cc

nonempty_failed :
    (r : OptimizationRunResult) (final : RunPhase) (fs : List RunFailure) (f : RunFailure)
    → IsTerminal r final (fs ++ f ∷ [])
    → r.outcome ≡ RunOutcome.failed
nonempty_failed r final fs f t =
    t.classified
    ∙ (classify_iff r.evidence).0.1
        (inl (inl (inl (λ h. append_nonempty fs f (sym t.keeps_failures ∙ h)))))

module _ {A T : Type 0} (services : Services A T) (stop : Token) (request : RunRequest)
    (run_id : Text) where
  abbrev failures_kept : List RunFailure
  failures_kept = (cleaned services stop request).evidence.storage.failures

  abbrev final : RunPhase
  final = final_phase services stop request

  abbrev pub EndsWell : Type 0
  EndsWell =
      ((cleaned services stop request).invariant ≡ none)
      × (r : OptimizationRunResult) × (execute_with_work services stop request run_id ≡ result r)
      × IsTerminal r final failures_kept

  abbrev pub EndsInPanic : Type 0
  EndsInPanic =
      (v : Violation) × ((cleaned services stop request).invariant ≡ some v)
      × (r : OptimizationRunResult) × (execute_with_work services stop request run_id
          ≡ invariant_panic (to_string (evidence_invariant v)) r)
      × IsTerminal r final
          (failures_kept ++ escaped_failure final (to_string (evidence_invariant v)) ∷ [])
      × (r.outcome ≡ RunOutcome.failed)

  -- Whatever the provider, the filesystem, the work, the cleanup services, the observer and the
  -- token do, a run seals its evidence with Safety Cleanup as its latest phase, sound, with the
  -- outcome that its facts classify to. If the executor has noted no invariant violation, it returns
  -- the result; if it has, it panics with a Failed result, whose last failure is the noted violation.
  pub execute_ends : EndsWell ⊎ EndsInPanic
  unfolding execute_with_work end_run
  execute_ends =
      let m = cleaned services stop request in
      let at_end = cleaned-AtCleanup services stop request in
      let i =
        Reached-IsSound services.observations m.evidence (cleaned-Reached services stop request) in
      elim (Option-cases m.invariant) [
        | inl q ↦
            let (r, same, t) = seal_lem m.evidence final run_id at_end i in inl (q, r, rw q same, t)
        | inr (v, q) ↦
            let text = to_string (evidence_invariant v) in
            let f = escaped_failure final text in
            let (r, same, t) =
              seal_lem (retain_failure f m.evidence) final run_id (unfold retain_failure in at_end)
                (retained-IsSound f m.evidence i) in
            let kept : IsTerminal r final (failures_kept ++ f ∷ []) = unfold retain_failure in t in
            inr (
              v,
              q,
              r,
              rw q (ap (with_panic text) same),
              kept,
              nonempty_failed r final failures_kept f kept,
            )
      ]
