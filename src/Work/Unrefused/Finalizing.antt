-- ===== src/Work/Unrefused/Finalizing.antt =====
-- The recording steps of `finalize_archives` and `plan_archive_finalization` of
-- crates/cao-core/src/run/executor/work_phases.rs.
use cao.Shared.{true, List, [], ◌∷◌, Option, none, some, refl, arith}
use cao.Routing.Kinds.{ExecutionMode}
use cao.Request.Choices.{ArchiveFinalizationChoices}
use cao.Run.Lifecycle.{archive_finalization, RunPhaseStatus, RunDiagnostic}
use cao.Run.Results.{RunPreparation, PlannedOutputArchive, estimate_from_mod_roots_as_they_are}
use cao.Evidence.Storage.{Storage}
use cao.Evidence.Operations.{
  planned_phase, open_finalization, output_basis, planned_output, publish_failure, publish_pending,
}
use cao.Evidence.Standing.{OnceFacts, Standing}
use cao.Evidence.Accepted.{
  planned_phase-Accepts, open_finalization-Accepts, publish_pending-Accepts,
}
use cao.Evidence.Noted.{output_basis-Accepts, planned_output-Accepts}
use cao.Evidence.Uncleaned.{IsUncleaned, Standing-IsUncleaned, publish_failure-Accepts}
use cao.Selection.Overlap.{Token}
use cao.Work.Toolset.{Toolset, CreationPlanning, not_requested, cancelled, failed}
use cao.Work.Ends.{
  Runs, Runs-bind, Runs-step, Runs-unless_cancelled, Runs-halt, Runs-pure, Runs-if, Runs-lift,
  Runs-diagnose,
}
use cao.Work.Extract.{is_dry_run}
use cao.Work.Finalize.{
  planning_failure, record_outputs, record_capacity_warning, after_creation_planning, plan_creation,
  plan_archive_finalization, finalize_archives,
}
use cao.Work.Unrefused.Processing.{routed_facts, HasProcessed}
use cao.Finalization.Concluding.{finalize_archives-Runs}

abbrev Planning : OnceFacts → Storage → Type 0
Planning = Standing archive_finalization RunPhaseStatus.planned none

abbrev based_facts : OnceFacts
based_facts = record routed_facts { based = true }

module _ {A W : Type 0} where
  record_outputs-Runs :
      (os : List PlannedOutputArchive)
      → Runs {A = A} {W = W} (Planning based_facts) (record_outputs os) (λ u. IsUncleaned)
  unfolding record_outputs
  record_outputs-Runs [] = Runs-pure (λ s h. Standing-IsUncleaned refl h)
  record_outputs-Runs (o ∷ os) =
      Runs-bind (Runs-step (planned_output o) (λ e h. planned_output-Accepts e h refl o))
        (λ u. record_outputs-Runs os)

  record_capacity_warning-Runs :
      (warning : Option RunDiagnostic)
      → Runs {A = A} {W = W}
          (Planning routed_facts)
          (record_capacity_warning warning)
          (λ u. Planning routed_facts)
  unfolding record_capacity_warning
  record_capacity_warning-Runs none = Runs-pure (λ s h. h)
  record_capacity_warning-Runs (some warning) = Runs-diagnose warning

  after_creation_planning-Runs :
      (decided : CreationPlanning)
      → Runs {A = A} {W = W}
          (Planning routed_facts)
          (after_creation_planning decided)
          (λ u. IsUncleaned)
  unfolding after_creation_planning
  after_creation_planning-Runs not_requested = Runs-pure (λ s h. Standing-IsUncleaned refl h)
  after_creation_planning-Runs (CreationPlanning.planned outputs warning) =
      Runs-bind (record_capacity_warning-Runs warning) (λ u.
        Runs-bind
          (Runs-step (output_basis estimate_from_mod_roots_as_they_are)
            (λ e h. output_basis-Accepts e h refl estimate_from_mod_roots_as_they_are))
          (λ v. record_outputs-Runs outputs))
  after_creation_planning-Runs cancelled = Runs-halt (λ s h. Standing-IsUncleaned refl h)
  after_creation_planning-Runs (failed detail) =
      Runs-bind
        (Runs-step (publish_failure (planning_failure detail)) (λ e h.
          publish_failure-Accepts (planning_failure detail) e (Standing-IsUncleaned refl h)))
        (λ u. Runs-halt (λ s h. h))

module _ {A W : Type 0} (tools : Toolset A W) (stop : Token) (choices : ArchiveFinalizationChoices)
    (preparation : RunPreparation) where
  plan_creation-Runs :
      Runs
        (Planning routed_facts)
        (plan_creation tools stop choices preparation)
        (λ decided. Planning routed_facts)
  unfolding plan_creation
  plan_creation-Runs = Runs-lift (λ l w t. t) (λ w h. h)

  plan_archive_finalization-Runs :
      Runs HasProcessed
        (plan_archive_finalization tools stop choices preparation)
        (λ u. IsUncleaned)
  unfolding plan_archive_finalization
  plan_archive_finalization-Runs =
      Runs-bind
        (Runs-step (planned_phase archive_finalization)
          (λ e h. planned_phase-Accepts e h.2 archive_finalization (omega arith) refl))
        (λ u.
          Runs-bind (Runs-unless_cancelled stop (λ s h. Standing-IsUncleaned refl h))
            (λ v. Runs-bind plan_creation-Runs (λ decided. after_creation_planning-Runs decided)))

  -- After the Asset attempts, Archive Finalization is recorded without a refusal.
  pub finalize_archives-Unrefused :
      (mode : ExecutionMode)
      → Runs HasProcessed (finalize_archives tools stop choices preparation mode) (λ u. IsUncleaned)
  unfolding finalize_archives
  finalize_archives-Unrefused mode =
      Runs-bind
        (Runs-step {Q = HasProcessed} publish_pending
          (λ e h. let (fine, after) = publish_pending-Accepts e h.2 in (fine, (h.0, h.1, after))))
        (λ u. Runs-bind (Runs-unless_cancelled stop (λ s h. Standing-IsUncleaned refl h.2)) (λ v.
          Runs-if (is_dry_run mode) plan_archive_finalization-Runs (
            Runs-bind
              (Runs-step open_finalization (λ e h. open_finalization-Accepts e h.2 (omega arith)))
              (λ x.
                Runs-bind (Runs-unless_cancelled stop (λ s h. Standing-IsUncleaned refl h)) (λ y.
                  finalize_archives-Runs tools.seams stop routed_facts refl choices preparation)))))
