-- ===== src/Finalization/Finalize.antt =====
-- `finalize_archives`, `run_phase`, `finalize_plan` and `maintain_and_prune` of
-- crates/cao-core/src/run/finalization/mod.rs.
use cao.Shared.{
  Bool, true, false, not, ◌&&◌, ◌||◌, List, [], ◌∷◌, Option, none, some, ◌==◌, if◌then◌else◌,
  length,
}
use cao.Shared.Paths.{FilePath}
use cao.Routing.Kinds.{RequestedWork}
use cao.Routing.Policy.{requests}
use cao.Request.Choices.{ArchiveFinalizationChoices}
use cao.Run.Attempt.{CapacityShortage}
use cao.Run.Results.{RunPreparation, default_account}
use cao.Evidence.Operations.{plan, finish}
use cao.Selection.Overlap.{Token}
use cao.Finalization.Plan.{
  FinalizationPlan, Planning, plan_made, planning_cancelled, planning_failed, CreationVerdict, fits,
  fail_work, unreachable, Maintenance, maintained, maintenance_failed, Seams,
}
use cao.Work.Flow.{Outcome, value, stops, pure, exit, ◌>>=◌, ◌>>◌}
use cao.Work.Worker.{Worker, Exit, refused, Phase, step}
use cao.Finalization.Account.{
  Finalizer, Escape, evidence_escape, work_escape, Finalizing, unsafe_account, find_output,
  dummy_demand, phase_demand, packing_exclusions,
}
use cao.Finalization.Phase.{
  with_account, sample, mark_cancelled, record_fact, record_shortage, prune_empty_directories,
  account, attempt_outputs,
}

module _ {A W : Type 0} (seams : Seams A W) (stop : Token) where
  abbrev pub maintained_to : Maintenance → Outcome Escape Bool
  maintained_to (maintained b) = value b
  maintained_to (maintenance_failed m) = stops (work_escape m)

  unfoldable pub maintain_root : FinalizationPlan → FilePath → Finalizing A W Bool
  maintain_root p root s =
      let w = s.worker in
      let called =
        seams.maintain_existing_loading_plugins p root s.account w.artifacts w.world w.clock in
      (
        maintained_to called.maintenance,
        record {
          worker = record w {
            artifacts = called.artifacts;
            world = called.world;
            clock = called.clock;
          };
          account = called.account;
        },
      )

  -- The recheck of what the roots from this one on may still write.
  unfoldable pub recheck_dummies :
      FinalizationPlan → FilePath → List FilePath → Finalizing A W (Option CapacityShortage)
  recheck_dummies p root later s = (
    value (
        if p.dummy_capacity_by_root root == 0
        then none
        else seams.recheck_at (dummy_demand p.dummy_capacity_by_root (root ∷ later)) root
            s.worker.world),
    s,
  )

  -- The loop over the Mod Roots; whether the pruning follows.
  unfoldable pub maintain_roots : FinalizationPlan → List FilePath → Finalizing A W Bool
  unfolding sample recheck_dummies record_shortage maintain_root
  maintain_roots p [] = pure true
  maintain_roots p (root ∷ later) = do
    c ← sample stop
    if c then (do mark_cancelled; pure true) else (do
      shortage ← recheck_dummies p root later
      elim shortage [
        | some s ↦ (do record_shortage seams s none; pure false)
        | none ↦ (do
          d ← sample stop
          if d then (do mark_cancelled; pure true) else (do
            goes_on ← maintain_root p root
            if goes_on then maintain_roots p later else pure false))
      ])

  -- `maintain_and_prune`
  unfoldable pub maintain_and_prune : FinalizationPlan → Finalizing A W (Unit {0})
  unfolding maintain_roots prune_empty_directories
  maintain_and_prune p = do
    pruning_follows ← maintain_roots p p.roots
    a ← account
    if pruning_follows && not a.cancelled
        then prune_empty_directories seams stop p.roots
        else pure tt

  -- `catch_unwind` around the maintenance.
  unfoldable pub contained :
      Outcome Escape (Unit {0}) × Finalizer A W → Outcome Escape (Unit {0}) × Finalizer A W
  contained (stops (work_escape m), s) =
      (value tt, record s { account = unsafe_account m s.account })
  contained (stops (evidence_escape v), s) = (stops (evidence_escape v), s)
  contained (value u, s) = (value u, s)

  unfoldable pub maintain_contained : FinalizationPlan → Finalizing A W (Unit {0})
  unfolding maintain_and_prune contained
  maintain_contained p s = contained (maintain_and_prune p s)

  -- `account.cancelled || cancelled()`
  unfoldable pub settle_cancelled : Finalizing A W (Unit {0})
  unfolding sample
  settle_cancelled = do
    a ← account
    if a.cancelled
        then pure tt
        else (do c ← sample stop; with_account (λ b. record b { cancelled = c }))

  -- After the attempts, unless a capacity rejection ended the phase.
  unfoldable pub after_outputs : FinalizationPlan → Bool → Finalizing A W (Unit {0})
  unfolding settle_cancelled maintain_contained
  after_outputs p false = pure tt
  after_outputs p true = do
    settle_cancelled
    a ← account
    if a.cancelled || not a.safe_to_continue then pure tt else maintain_contained p

  unfoldable pub check_creation : FinalizationPlan → Finalizing A W CreationVerdict
  check_creation p s = (value (seams.check_before_creation (phase_demand p) s.worker.world), s)

  unfoldable pub after_check : FinalizationPlan → CreationVerdict → Finalizing A W (Unit {0})
  unfolding record_shortage attempt_outputs after_outputs
  after_check p fits = do
    finished ← attempt_outputs seams stop p 0 p.outputs
    after_outputs p finished
  after_check p (fail_work s) = record_shortage seams s (find_output s.root p.outputs)
  after_check p (unreachable m) = exit (work_escape m)

  -- `finalize_plan`
  unfoldable pub finalize_plan : FinalizationPlan → Finalizing A W (Unit {0})
  unfolding sample check_creation after_check
  finalize_plan p = do
    c ← sample stop
    if c then mark_cancelled else (do verdict ← check_creation p; after_check p verdict)

  module _ (choices : ArchiveFinalizationChoices) (preparation : RunPreparation) where
    unfoldable pub make_plan : Finalizing A W Planning
    make_plan s =
        let w = s.worker in
        let (made, clock) =
          seams.plan_finalization preparation.mod_roots choices
            (packing_exclusions seams.str_to_lowercase preparation) w.world w.clock in
        (value made, record s { worker = record w { clock = clock } })

    unfoldable pub after_planning : Planning → Finalizing A W (Unit {0})
    unfolding record_fact finalize_plan
    after_planning (plan_made p) = do record_fact (plan (length p.outputs)); finalize_plan p
    after_planning planning_cancelled = mark_cancelled
    after_planning (planning_failed m) = exit (work_escape m)

    -- `run_phase`
    unfoldable pub run_phase : Finalizing A W (Unit {0})
    unfolding record_fact prune_empty_directories make_plan after_planning
    run_phase =
        if requests preparation.policy RequestedWork.archive_creation
        then (do made ← make_plan; after_planning made)
        else (do record_fact (plan 0); prune_empty_directories seams stop preparation.mod_roots)

    unfoldable pub conclude :
        Outcome Escape (Unit {0}) × Finalizer A W → Outcome Exit (Unit {0}) × Worker A W
    unfolding step
    conclude (value u, s) = step (finish s.account) s.worker
    conclude (stops (evidence_escape v), s) = (stops (refused v), s.worker)
    conclude (stops (work_escape m), s) = step (finish (unsafe_account m s.account)) s.worker

    -- `finalize_archives`
    unfoldable pub finalize_archives : Phase A W (Unit {0})
    unfolding run_phase conclude
    finalize_archives w = conclude (run_phase (record { worker = w; account = default_account }))
