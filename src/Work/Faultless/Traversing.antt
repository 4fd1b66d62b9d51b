-- ===== src/Work/Faultless/Traversing.antt =====
-- `traverse` of crates/cao-core/src/run/executor.rs with the work of
-- crates/cao-core/src/run/executor/work_phases.rs.
use cao.Shared.{
  ◌+◌, true, false, List, [], ◌∷◌, Option, none, some, ◌≡◌, refl, inl, inr, Bool-cases,
}
use cao.Shared.Paths.{FilePath}
use cao.Request.RunRequest.{RunRequest}
use cao.Run.Lifecycle.{preparing, executed_record, RunFailure}
use cao.Run.Results.{RunPreparation}
use cao.Selection.Overlap.{Token, Lent}
use cao.Executor.Services.{Services, Result, ok, err, Caught, returned, panicked}
use cao.Executor.Preparing.{Prepared, prepared, cancelled_early, not_prepared, prepare_run}
use cao.Executor.Reaching.{prepare_run_keeps}
use cao.Executor.Execute.{initial}
use cao.Executor.Traverse.{
  Machine, enter, fail_with, tick, prepare_roots, after_root, staging_failure, RootsEnd, rooted,
  returned_traversal, after_prepared, traverse, is_apply, proceed,
}
use cao.Work.Toolset.{Toolset}
use cao.Work.Faultless.Entering.{
  IsFresh, At, IsFresh-IsUncleaned, record_diagnostic-IsFresh, enter_preparing,
}
use cao.Work.Faultless.Working.{RunsWorkPhases, Calm, fail_with-Calm, finish-Calm, failed-Calm}

module _ {A W : Type 0} (services : Services A (Toolset A W)) (stop : Token)
    (runs : RunsWorkPhases services stop) (request : RunRequest) where
  -- Whether the roots are prepared, a failure is recorded, or a panic is to be.
  abbrev RootsLeave : RootsEnd × Machine A → Type 0
  RootsLeave (returned false, m) = At IsFresh m
  RootsLeave (returned true, m) = Calm m
  RootsLeave (panicked t, m) = Calm m

  after_root_leaves :
      (c : Caught (Result (Option RunFailure))) (m : Machine A) (rest : RootsEnd × Machine A)
      → Calm m
      → RootsLeave rest
      → RootsLeave (after_root services stop c m rest)
  after_root_leaves (panicked t) m rest h k = h
  after_root_leaves (returned (err e)) m rest h k =
      fail_with-Calm services stop runs request (staging_failure e) m h
  after_root_leaves (returned (ok (some f))) m rest h k =
      fail_with-Calm services stop runs request f m h
  after_root_leaves (returned (ok none)) m rest h k = k

  prepare_roots_leaves :
      (rs : List FilePath) (m : Machine A)
      → At IsFresh m
      → RootsLeave (prepare_roots services stop rs m)
  unfolding prepare_roots
  prepare_roots_leaves [] m h = h
  prepare_roots_leaves (r ∷ rs) m h =
      let called = services.prepare_root r m.artifacts (m.clock + 1) in
      let after = rooted services stop called.1 called.2 m in
      elim (Bool-cases (stop m.clock)) [
        | inl q ↦ rw q h
        | inr q ↦ rw q (
            after_root_leaves called.0 after (prepare_roots services stop rs after)
              (h.0, IsFresh-IsUncleaned m.evidence.storage h.1) (prepare_roots_leaves rs after h))
      ]

  proceed-Calm :
      (p : RunPreparation) (t : Toolset A W) (x : RootsEnd × Machine A)
      → RootsLeave x
      → Calm (proceed services stop request p t x).1
  unfolding proceed
  proceed-Calm p t (panicked message, m) h = h
  proceed-Calm p t (returned false, m) h =
      finish-Calm services stop runs request (some p) (some t) m h
  proceed-Calm p t (returned true, m) h =
      failed-Calm services stop runs request (some p) (some t) m h

  after_prepared-Calm :
      (x : Prepared (Toolset A W) × Lent) (m : Machine A)
      → m.invariant ≡ none
      → IsFresh x.1.evidence.storage
      → Calm (after_prepared services stop request x m).1
  unfolding after_prepared returned_traversal
  after_prepared-Calm (cancelled_early, l) m calm h =
      finish-Calm services stop runs request none none
        (record m { evidence = l.evidence; clock = l.clock }) (calm, h)
  after_prepared-Calm (not_prepared f, l) m calm h =
      let here = record m { evidence = l.evidence; clock = l.clock } in
      failed-Calm services stop runs request none none (fail_with f here) (
        fail_with-Calm services stop runs request f here
          (calm, IsFresh-IsUncleaned l.evidence.storage h))
  after_prepared-Calm (prepared p t, l) m calm h =
      let here = record m { evidence = l.evidence; clock = l.clock } in
      elim (Bool-cases (is_apply services stop request.execution_mode)) [
        | inr q ↦ rw q (finish-Calm services stop runs request (some p) (some t) here (calm, h))
        | inl q ↦ rw q (
            proceed-Calm p t (prepare_roots services stop p.mod_roots here)
              (prepare_roots_leaves p.mod_roots here (calm, h)))
      ]

  -- Up to Safety Cleanup no recording step of a run is refused.
  pub traverse-Calm : Calm (traverse services stop request (initial services stop)).1
  unfolding traverse returned_traversal
  traverse-Calm =
      let entered = enter (executed_record preparing none) (initial services stop) in
      let next = tick entered in
      let (calm, h) = enter_preparing services.observations (initial services stop) refl refl in
      elim (Bool-cases (stop entered.clock)) [
        | inl q ↦ rw q (finish-Calm services stop runs request none none next (calm, h))
        | inr q ↦ rw q (
            after_prepared-Calm
              (prepare_run services stop request
                (record { evidence = next.evidence; clock = next.clock }))
              next calm
              (prepare_run_keeps (λ e. IsFresh e.storage) record_diagnostic-IsFresh services stop
                request (record { evidence = next.evidence; clock = next.clock }) h))
      ]
