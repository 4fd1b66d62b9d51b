-- ===== src/Executor/Carried.antt =====
-- The recording steps that a whole run takes on the evidence.
use cao.Shared.{Bool, List, [], ◌∷◌, ◌++◌, none, inl, inr, Bool-cases, codes, ◌||◌}
use cao.Run.Lifecycle.{safety_cleanup, executed_record, RunFailure}
use cao.Request.RunRequest.{RunRequest}
use cao.Evidence.Facts.{record_safety_cleanup_failure}
use cao.Evidence.Operations.{
  executed_phase, cleanup_failure, publish_pending, cancellation, perform, Reached, start, step,
}
use cao.Selection.Overlap.{Token}
use cao.Executor.Services.{Services, Caught, returned, panicked, collect_safety_cleanup_failures}
use cao.Executor.Traverse.{Machine, note, enter, traverse}
use cao.Executor.Execute.{
  initial, note_failures, settle_traversal, clean_up, before_cleanup, cleaned,
}
use cao.Executor.Traversed.{Carries, fail_at-Carries, traverse-Carries}

module _ {A T : Type 0} (services : Services A T) (stop : Token) (request : RunRequest) where
  abbrev Holds : Machine A → Type 0
  Holds = Carries services stop request

  settle-Carries : (x : Caught Bool × Machine A) → Holds x.1 → Holds (settle_traversal x).1
  unfolding settle_traversal
  settle-Carries (returned b, m) r = r
  settle-Carries (panicked t, m) r =
      fail_at-Carries services stop request
        (codes "The run's work escaped with a Run Worker panic: " ++ t) m.evidence r

  note_failures-Carries :
      (fs : List RunFailure) (m : Machine A) → Holds m → Holds (note_failures fs m)
  unfolding note_failures note perform
  note_failures-Carries [] m r = r
  note_failures-Carries (f ∷ fs) m r =
      note_failures-Carries fs (note (record_safety_cleanup_failure f m.evidence) m)
        (step (cleanup_failure f) r)

  clean_up-Carries : (b : Bool) (m : Machine A) → Holds m → Holds (clean_up services stop b m)
  unfolding clean_up note perform
  clean_up-Carries b m r =
      let entered = enter (executed_record safety_cleanup none) m in
      let failures =
        collect_safety_cleanup_failures (services.clean_artifacts entered.artifacts)
        ++ collect_safety_cleanup_failures services.safety_cleanup in
      let done = note_failures failures entered in
      let done_so_far =
        note_failures-Carries failures entered (step (executed_phase safety_cleanup none) r) in
      elim (Bool-cases (stop done.clock || b)) [
        | inl q ↦ rw q (step cancellation done_so_far)
        | inr q ↦ rw q done_so_far
      ]

  before_cleanup-Carries : Holds (before_cleanup services stop request).1
  unfolding before_cleanup perform
  before_cleanup-Carries = step publish_pending (
      settle-Carries (traverse services stop request (initial services stop))
        (traverse-Carries services stop request (initial services stop) start))

  -- Whatever its services do, a run makes the evidence that it seals by recording steps from fresh
  -- evidence, so every theorem on reached evidence holds for it.
  pub cleaned-Reached : Reached services.observations (cleaned services stop request).evidence
  unfolding cleaned
  cleaned-Reached =
      let t = before_cleanup services stop request in
      clean_up-Carries t.0 t.1 before_cleanup-Carries
