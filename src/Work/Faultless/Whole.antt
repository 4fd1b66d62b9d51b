-- ===== src/Work/Faultless/Whole.antt =====
-- `execute_with_work` of crates/cao-core/src/run/executor.rs with the work of
-- crates/cao-core/src/run/executor/work_phases.rs.
use cao.Shared.{
  Bool, true, ◌||◌, List, [], ◌∷◌, ◌++◌, none, some, ◌≡◌, refl, sym, ◌∙◌, arith, inl, inr, all,
  Option-cases, Text, codes,
}
use cao.Request.RunRequest.{RunRequest}
use cao.Run.Lifecycle.{RunFailure}
use cao.Evidence.Sinks.{Evidence}
use cao.Evidence.Phases.{Violation, accept_violation, record_phase}
use cao.Evidence.Facts.{record_safety_cleanup_failure, record_cancellation_observation}
use cao.Evidence.Operations.{perform}
use cao.Evidence.Standing.{accepted}
use cao.Evidence.Unmoved.{pending-Alike}
use cao.Evidence.Uncleaned.{IsUncleaned}
use cao.Selection.Overlap.{Token}
use cao.Executor.Services.{Services, Caught, returned, panicked, collect_safety_cleanup_failures}
use cao.Executor.Traverse.{Machine, note, enter, traverse}
use cao.Executor.Execute.{
  initial, note_failures, settle_traversal, observe_cancellation, with_pending, clean_up,
  before_cleanup, cleaned,
}
use cao.Executor.Cleanup.{is_lawful}
use cao.Executor.Ending.{
  AtCleanup, cleanup_record, cleanup_refused, enter-AtCleanup, record_failure-AtCleanup, EndsWell,
  execute_ends,
}
use cao.Work.Toolset.{Toolset}
use cao.Work.Faultless.Entering.{At}
use cao.Work.Faultless.Working.{RunsWorkPhases, Calm, fail_at-Calm}
use cao.Work.Faultless.Traversing.{traverse-Calm}

-- Every failure that Safety Cleanup reports has its phase and one of its codes.
abbrev pub CleansLawfully : {A T : Type 0} → Services A T → Type 0
unfolding collect_safety_cleanup_failures
CleansLawfully {A} services =
    ((artifacts : A)
      → all is_lawful (collect_safety_cleanup_failures (services.clean_artifacts artifacts)) ≡ true)
    × (all is_lawful (collect_safety_cleanup_failures services.safety_cleanup) ≡ true)

all-append :
    (fs gs : List RunFailure)
    → all is_lawful fs ≡ true
    → all is_lawful gs ≡ true
    → all is_lawful (fs ++ gs) ≡ true
all-append [] gs h k = k
all-append (f ∷ fs) gs h k = ground (arith, all-append fs gs)

cleanup_fits :
    (e : Evidence) → IsUncleaned e.storage → accept_violation e.storage.phases cleanup_record ≡ none
cleanup_fits e h = ground (
  arith,
  Option-cases (accept_violation e.storage.phases cleanup_record),
  cleanup_refused e.storage.phases,
)

failure_fine :
    (f : RunFailure) (e : Evidence)
    → AtCleanup e
    → is_lawful f ≡ true
    → (record_safety_cleanup_failure f e).1 ≡ none
unfolding record_safety_cleanup_failure
failure_fine f e h lawful = ground arith

module _ {A : Type 0} where
  enter_fine : (m : Machine A) → At IsUncleaned m → (enter cleanup_record m).invariant ≡ none
  unfolding note record_phase
  enter_fine m (calm, h) =
      rw calm (accepted cleanup_record m.evidence (cleanup_fits m.evidence h)).0

  note_failures_fine :
      (fs : List RunFailure) (m : Machine A)
      → m.invariant ≡ none
      → AtCleanup m.evidence
      → all is_lawful fs ≡ true
      → (note_failures fs m).invariant ≡ none
  unfolding note_failures note
  note_failures_fine [] m calm h lawful = calm
  note_failures_fine (f ∷ fs) m calm h lawful =
      let this : is_lawful f ≡ true = ground arith in
      let others : all is_lawful fs ≡ true = ground arith in
      note_failures_fine fs (note (record_safety_cleanup_failure f m.evidence) m)
        (rw calm (failure_fine f m.evidence h this)) (record_failure-AtCleanup f m.evidence h)
        others

  observe_fine : (b : Bool) (m : Machine A) → (observe_cancellation b m).invariant ≡ m.invariant
  unfolding record_cancellation_observation
  observe_fine b m = refl

some_violation : (v : Violation) → (some v ≡ none) → ⊥
some_violation v h = cc

module _ {A W : Type 0} (services : Services A (Toolset A W)) (stop : Token)
    (runs : RunsWorkPhases services stop) (request : RunRequest) where
  settle-Calm : (x : Caught Bool × Machine A) → Calm x.1 → Calm (settle_traversal x).1
  unfolding settle_traversal
  settle-Calm (returned b, m) h = h
  settle-Calm (panicked detail, m) h =
      fail_at-Calm services stop runs request
        (codes "The run's work escaped with a Run Worker panic: " ++ detail) m h

  pending-Calm : (m : Machine A) → Calm m → Calm (with_pending m)
  unfolding perform
  pending-Calm m (calm, h) = (calm, rw ((pending-Alike m.evidence).same_phases) h)

  before_cleanup-Calm : Calm (before_cleanup services stop request).1
  unfolding before_cleanup
  before_cleanup-Calm =
      let t = traverse services stop request (initial services stop) in
      pending-Calm (settle_traversal t).1 (settle-Calm t (traverse-Calm services stop runs request))

  clean_up_fine :
      CleansLawfully services
      → (b : Bool) (m : Machine A) → Calm m
      → (clean_up services stop b m).invariant ≡ none
  unfolding clean_up
  clean_up_fine (of_registry, of_service) b m h =
      let entered = enter cleanup_record m in
      let first = collect_safety_cleanup_failures (services.clean_artifacts entered.artifacts) in
      let second = collect_safety_cleanup_failures services.safety_cleanup in
      let done = note_failures (first ++ second) entered in
      observe_fine (stop done.clock || b) done
      ∙ note_failures_fine (first ++ second) entered (enter_fine m h) (enter-AtCleanup m.evidence)
          (all-append first second (of_registry entered.artifacts) of_service)

  cleaned_fine : CleansLawfully services → (cleaned services stop request).invariant ≡ none
  unfolding cleaned
  cleaned_fine lawful =
      let t = before_cleanup services stop request in
      clean_up_fine lawful t.0 t.1 before_cleanup-Calm

  -- Whatever the toolset, the provider, the filesystem, the observer and the token do, a run whose
  -- work is that of the work phases, and whose cleanup failures have the phase and the codes of
  -- Safety Cleanup, returns a result: no recording step of it is refused.
  pub execute_with_work-EndsWell :
      CleansLawfully services → (run_id : Text) → EndsWell services stop request run_id
  execute_with_work-EndsWell lawful run_id = elim (execute_ends services stop request run_id) [
    | inl well ↦ well
    | inr panic ↦ absurd (some_violation panic.0 (sym panic.1 ∙ cleaned_fine lawful))
  ]
