-- ===== src/Work/Faultless/Working.antt =====
-- The work of `traverse` of crates/cao-core/src/run/executor.rs, with that of
-- crates/cao-core/src/run/executor/work_phases.rs.
use cao.Shared.{ℕ, true, false, Option, none, some, ◌≡◌, refl, arith, inl, inr, Bool-cases, Text}
use cao.Request.Choices.{WorkChoices}
use cao.Request.RunRequest.{RunRequest, has_requested_work}
use cao.Run.Lifecycle.{
  preparing, executed_record, work_phases, RunFailure, run_failure, run_work_escaped,
}
use cao.Run.Results.{RunPreparation}
use cao.Evidence.Storage.{Storage}
use cao.Evidence.Sinks.{Evidence}
use cao.Evidence.Facts.{record_preparation}
use cao.Evidence.Operations.{perform_all}
use cao.Evidence.Uncleaned.{IsUncleaned, Standing-IsUncleaned}
use cao.Selection.Overlap.{Token}
use cao.Executor.Services.{Services, WorkRun, escaped_work_detail}
use cao.Executor.Traverse.{
  Machine, note, fail_with, tick, current_phase, fail_at_current_phase, skip_phases, escape,
  after_work, run_work, run_or_skip, work_phases_of, finish_traversal,
}
use cao.Work.Toolset.{Toolset}
use cao.Work.Run.{work_run}
use cao.Work.Unrefused.Discovery.{IsPrepared}
use cao.Work.Unrefused.Whole.{EndsWithoutRefusal, work_run-EndsWithoutRefusal}
use cao.Work.Faultless.Entering.{
  IsFresh, IsBefore, At, failure-IsUncleaned, skip_phases-IsUncleaned,
}

-- The work of a run is that of the work phases, on some state of the disk and the toolset.
abbrev pub RunsWorkPhases : {A W : Type 0} → Services A (Toolset A W) → Token → Type 0
RunsWorkPhases {A} {W} services stop =
    (preparation : RunPreparation) (choices : WorkChoices) (tools : Toolset A W) (e : Evidence)
    (artifacts : A) (clock : ℕ)
    → (world : W) × (services.run_work preparation choices tools e artifacts clock
        ≡ work_run stop preparation choices tools world e artifacts clock)

Prepared-IsBefore : (s : Storage) → IsPrepared s → IsBefore 1 s
Prepared-IsBefore s h = (executed_record preparing none, h.rest, h.shape, omega arith)

-- No violation has been noted, and Safety Cleanup is yet to come.
abbrev pub Calm : {A : Type 0} → Machine A → Type 0
Calm = At IsUncleaned

module _ {A W : Type 0} (services : Services A (Toolset A W)) (stop : Token)
    (runs : RunsWorkPhases services stop) (request : RunRequest) where
  pub fail_with-Calm : (f : RunFailure) (m : Machine A) → Calm m → Calm (fail_with f m)
  fail_with-Calm f m (calm, h) = (calm, failure-IsUncleaned f m.evidence h)

  pub fail_at-Calm :
      (t : Text) (m : Machine A)
      → Calm m
      → Calm (record m { evidence = fail_at_current_phase t m.evidence })
  unfolding fail_at_current_phase
  fail_at-Calm t m (calm, h) =
      let f = run_failure run_work_escaped (current_phase m.evidence.storage) t in
      (calm, failure-IsUncleaned f m.evidence h)

  work_ends :
      (w : WorkRun A) (m : Machine A)
      → m.invariant ≡ none
      → EndsWithoutRefusal w.end × IsUncleaned (perform_all w.operations m.evidence).storage
      → Calm (escape services stop (escaped_work_detail w.end) (after_work services stop w m))
  unfolding escaped_work_detail fail_at_current_phase
  work_ends w m calm ((f, same), h) = rw same (calm, h)

  run_work-Calm :
      (p : RunPreparation) (t : Toolset A W) (m : Machine A)
      → At IsPrepared m
      → Calm (run_work services stop request p t m).1
  unfolding run_work
  run_work-Calm p t m (calm, h) =
      let (world, same) = runs p request.work_choices t m.evidence m.artifacts m.clock in
      work_ends (services.run_work p request.work_choices t m.evidence m.artifacts m.clock) m calm (
        rw same (
          work_run-EndsWithoutRefusal t stop p request.work_choices world m.evidence m.artifacts
            m.clock h))

  skip-Calm : (m : Machine A) → At IsPrepared m → Calm (skip_phases stop work_phases m)
  skip-Calm m (calm, h) =
      skip_phases-IsUncleaned stop 1 work_phases m
        (
          omega arith,
          omega arith,
          (
            omega arith,
            omega arith,
            (
              omega arith,
              omega arith,
              (omega arith, omega arith, (omega arith, omega arith, omega arith)),
            ),
          ),
        )
        (calm, Prepared-IsBefore m.evidence.storage h)

  run_or_skip-Calm :
      (p : Option RunPreparation) (t : Option (Toolset A W)) (m : Machine A)
      → At IsPrepared m
      → Calm (run_or_skip services stop request p t m).1
  unfolding run_or_skip
  run_or_skip-Calm (some p) (some t) m h = elim (Bool-cases (has_requested_work request)) [
    | inl q ↦ rw q (run_work-Calm p t m h)
    | inr q ↦ rw q (skip-Calm m h)
  ]
  run_or_skip-Calm (some p) none m h = skip-Calm m h
  run_or_skip-Calm none t m h = skip-Calm m h

  work_phases_of-Calm :
      (p : Option RunPreparation) (t : Option (Toolset A W)) (m : Machine A)
      → At IsPrepared m
      → Calm (work_phases_of services stop request p t false m).1
  unfolding work_phases_of
  work_phases_of-Calm p t m (calm, h) = elim (Bool-cases (stop m.clock)) [
    | inl q ↦ rw q (calm, Standing-IsUncleaned refl h)
    | inr q ↦ rw q (run_or_skip-Calm p t (tick m) (calm, h))
  ]

  record_prepared-Prepared :
      (p : RunPreparation) (m : Machine A)
      → At IsFresh m
      → At IsPrepared (note (record_preparation p m.evidence) m)
  unfolding note record_preparation
  record_prepared-Prepared p m (calm, (h, unset)) =
      rw (calm, unset, h.shape)
        (refl, record { rest = h.rest; shape = refl; below = h.below; once = h.once })

  pub finish-Calm :
      (p : Option RunPreparation) (t : Option (Toolset A W)) (m : Machine A)
      → At IsFresh m
      → Calm (finish_traversal services stop request p t false m).1
  unfolding finish_traversal
  finish-Calm none t m (calm, (h, unset)) = work_phases_of-Calm none t m (calm, h)
  finish-Calm (some p) t m (calm, (h, unset)) = elim (Bool-cases (stop m.clock)) [
    | inl q ↦ rw q (work_phases_of-Calm none t (tick m) (calm, h))
    | inr q ↦ rw q (
        work_phases_of-Calm (some p) t (note (record_preparation p m.evidence) (tick m))
          (record_prepared-Prepared p (tick m) (calm, (h, unset))))
  ]

  pub failed-Calm :
      (p : Option RunPreparation) (t : Option (Toolset A W)) (m : Machine A)
      → Calm m
      → Calm (finish_traversal services stop request p t true m).1
  unfolding finish_traversal work_phases_of
  failed-Calm none t m h = h
  failed-Calm (some p) t m h = h
