-- ===== src/Executor/Traversed.antt =====
-- The recording steps of the traversal up to Safety Cleanup.
use cao.Shared.{
  ◌+◌, Bool, true, false, List, [], ◌∷◌, Option, none, some, inl, inr, Bool-cases, Text,
}
use cao.Shared.Paths.{FilePath}
use cao.Run.Lifecycle.{
  RunPhase, preparing, work_phases, executed_record, skipped_record, no_requested_work, RunFailure,
  run_failure, run_work_escaped,
}
use cao.Run.Results.{RunPreparation}
use cao.Request.RunRequest.{RunRequest, has_requested_work}
use cao.Evidence.Sinks.{Evidence, Sink}
use cao.Evidence.Operations.{
  executed_phase, skipped_phase, preparation, publish_failure, perform, Reached, step,
}
use cao.Selection.Overlap.{Token, Lent}
use cao.Executor.Services.{
  Services, Result, ok, err, Caught, returned, panicked, Escape, no_escape, invariant_noted,
  escaped, escaped_work_detail,
}
use cao.Executor.Preparing.{Prepared, prepared, cancelled_early, not_prepared, prepare_run}
use cao.Executor.Traverse.{
  Machine, note, enter, fail_with, tick, current_phase, fail_at_current_phase, skip_phases,
  prepare_roots, after_root, staging_failure, RootsEnd, rooted, escape, after_work, run_work,
  run_or_skip, record_prepared, filter_preparation, work_phases_of, finish_traversal,
  returned_traversal, after_prepared, traverse, is_apply, proceed,
}
use cao.Executor.Reaching.{perform_all-Reached, record_diagnostic-Reached, prepare_run_keeps}

module _ {A T : Type 0} (services : Services A T) (stop : Token) (request : RunRequest) where
  abbrev pub sink : Option Sink
  sink = services.observations

  abbrev pub Carries : Machine A → Type 0
  Carries m = Reached sink m.evidence

  skip_phases-Carries :
      (ps : List RunPhase) (m : Machine A) → Carries m → Carries (skip_phases stop ps m)
  unfolding skip_phases note perform
  skip_phases-Carries [] m r = r
  skip_phases-Carries (p ∷ ps) m r = elim (Bool-cases (stop m.clock)) [
    | inl q ↦ rw q r
    | inr q ↦ rw q (
        skip_phases-Carries ps (enter (skipped_record p no_requested_work) (tick m))
          (step (skipped_phase p no_requested_work) r))
  ]

  fail_with-Carries : (f : RunFailure) (m : Machine A) → Carries m → Carries (fail_with f m)
  unfolding perform
  fail_with-Carries f m r = step (publish_failure f) r

  pub fail_at-Carries :
      (t : Text) (e : Evidence) → Reached sink e → Reached sink (fail_at_current_phase t e)
  unfolding fail_at_current_phase perform
  fail_at-Carries t e r =
      step (publish_failure (run_failure run_work_escaped (current_phase e.storage) t)) r

  after_root-Carries :
      (c : Caught (Result (Option RunFailure))) (m : Machine A) (rest : RootsEnd × Machine A)
      → Carries m
      → Carries rest.1
      → Carries (after_root services stop c m rest).1
  after_root-Carries (panicked t) m rest r h = r
  after_root-Carries (returned (err e)) m rest r h = fail_with-Carries (staging_failure e) m r
  after_root-Carries (returned (ok (some f))) m rest r h = fail_with-Carries f m r
  after_root-Carries (returned (ok none)) m rest r h = h

  prepare_roots-Carries :
      (rs : List FilePath) (m : Machine A)
      → Carries m
      → Carries (prepare_roots services stop rs m).1
  unfolding prepare_roots
  prepare_roots-Carries [] m r = r
  prepare_roots-Carries (p ∷ rs) m r =
      let called = services.prepare_root p m.artifacts (m.clock + 1) in
      let after = rooted services stop called.1 called.2 m in
      elim (Bool-cases (stop m.clock)) [
        | inl q ↦ rw q r
        | inr q ↦ rw q (
            after_root-Carries called.0 after (prepare_roots services stop rs after) r
              (prepare_roots-Carries rs after r))
      ]

  escape-Carries : (x : Escape) (m : Machine A) → Carries m → Carries (escape services stop x m)
  unfolding fail_at_current_phase
  escape-Carries no_escape m r = r
  escape-Carries (invariant_noted v) m r = r
  escape-Carries (escaped t) m r = fail_at-Carries t m.evidence r

  run_work-Carries :
      (p : RunPreparation) (t : T) (m : Machine A)
      → Carries m
      → Carries (run_work services stop request p t m).1
  unfolding run_work
  run_work-Carries p t m r =
      let w = services.run_work p request.work_choices t m.evidence m.artifacts m.clock in
      escape-Carries (escaped_work_detail w.end) (after_work services stop w m)
        (perform_all-Reached sink w.operations m.evidence r)

  run_or_skip-Carries :
      (p : Option RunPreparation) (t : Option T) (m : Machine A)
      → Carries m
      → Carries (run_or_skip services stop request p t m).1
  unfolding run_or_skip
  run_or_skip-Carries (some p) (some t) m r = elim (Bool-cases (has_requested_work request)) [
    | inl q ↦ rw q (run_work-Carries p t m r)
    | inr q ↦ rw q (skip_phases-Carries work_phases m r)
  ]
  run_or_skip-Carries (some p) none m r = skip_phases-Carries work_phases m r
  run_or_skip-Carries none t m r = skip_phases-Carries work_phases m r

  work_phases_of-Carries :
      (p : Option RunPreparation) (t : Option T) (failed : Bool) (m : Machine A)
      → Carries m
      → Carries (work_phases_of services stop request p t failed m).1
  unfolding work_phases_of
  work_phases_of-Carries p t true m r = r
  work_phases_of-Carries p t false m r = elim (Bool-cases (stop m.clock)) [
    | inl q ↦ rw q r
    | inr q ↦ rw q (run_or_skip-Carries p t (tick m) r)
  ]

  record_prepared-Carries :
      (p : Option RunPreparation) (m : Machine A)
      → Carries m
      → Carries (record_prepared services stop p m)
  unfolding note perform
  record_prepared-Carries none m r = r
  record_prepared-Carries (some p) m r = step (preparation p) r

  filter-Carries :
      (p : Option RunPreparation) (failed : Bool) (m : Machine A)
      → Carries m
      → Carries (filter_preparation services stop p failed m).1
  filter-Carries none failed m r = r
  filter-Carries (some p) true m r = r
  filter-Carries (some p) false m r = elim (Bool-cases (stop m.clock)) [
    | inl q ↦ rw q r
    | inr q ↦ rw q r
  ]

  finish-Carries :
      (p : Option RunPreparation) (t : Option T) (failed : Bool) (m : Machine A)
      → Carries m
      → Carries (finish_traversal services stop request p t failed m).1
  unfolding finish_traversal
  finish-Carries p t failed m r =
      let kept = filter_preparation services stop p failed m in
      work_phases_of-Carries kept.0 t failed (record_prepared services stop kept.0 kept.1)
        (record_prepared-Carries kept.0 kept.1 (filter-Carries p failed m r))

  after_roots_of-Carries :
      (p : RunPreparation) (t : T) (x : RootsEnd × Machine A)
      → Carries x.1
      → Carries (proceed services stop request p t x).1
  unfolding proceed
  after_roots_of-Carries p t (panicked m, n) r = r
  after_roots_of-Carries p t (returned failed, n) r = finish-Carries (some p) (some t) failed n r

  after_prepared-Carries :
      (x : Prepared T × Lent) (m : Machine A)
      → Reached sink x.1.evidence
      → Carries (after_prepared services stop request x m).1
  unfolding after_prepared returned_traversal
  after_prepared-Carries (cancelled_early, l) m r =
      finish-Carries none none false (record m { evidence = l.evidence; clock = l.clock }) r
  after_prepared-Carries (not_prepared f, l) m r =
      let here = record m { evidence = l.evidence; clock = l.clock } in
      finish-Carries none none true (fail_with f here) (fail_with-Carries f here r)
  after_prepared-Carries (prepared p t, l) m r =
      elim (Bool-cases (is_apply services stop request.execution_mode)) [
        | inr q ↦ rw q (
            finish-Carries (some p) (some t) false
              (record m { evidence = l.evidence; clock = l.clock }) r)
        | inl q ↦ rw q (
            after_roots_of-Carries p t
              (prepare_roots services stop p.mod_roots
                (record m { evidence = l.evidence; clock = l.clock }))
              (prepare_roots-Carries p.mod_roots
                (record m { evidence = l.evidence; clock = l.clock }) r))
      ]

  pub traverse-Carries : (m : Machine A) → Carries m → Carries (traverse services stop request m).1
  unfolding traverse returned_traversal note perform
  traverse-Carries m r =
      let entered = enter (executed_record preparing none) m in
      let next = tick entered in
      let here : Carries next = step (executed_phase preparing none) r in
      elim (Bool-cases (stop entered.clock)) [
        | inl q ↦ rw q (finish-Carries none none false next here)
        | inr q ↦ rw q (
            after_prepared-Carries
              (prepare_run services stop request
                (record { evidence = next.evidence; clock = next.clock }))
              next
              (prepare_run_keeps (Reached sink) (record_diagnostic-Reached sink) services stop
                request (record { evidence = next.evidence; clock = next.clock }) here))
      ]
