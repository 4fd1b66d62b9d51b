-- ===== src/Finalization/Concluding.antt =====
-- The end of the phase of crates/cao-core/src/run/finalization/mod.rs.
use cao.Shared.{ℕ, Bool, true, false, not, ◌||◌, none, ◌≡◌, arith, length}
use cao.Routing.Kinds.{RequestedWork}
use cao.Routing.Policy.{requests}
use cao.Request.Choices.{ArchiveFinalizationChoices}
use cao.Run.Lifecycle.{archive_finalization, executed, determinate}
use cao.Run.Results.{RunPreparation, ArchiveFinalizationAccount, default_account}
use cao.Evidence.Storage.{Storage}
use cao.Evidence.Sinks.{Evidence}
use cao.Evidence.Operations.{plan, finish}
use cao.Evidence.Standing.{OnceFacts, Standing}
use cao.Evidence.Noted.{plan-Accepts}
use cao.Evidence.Uncleaned.{IsUncleaned, finish-Accepts}
use cao.Selection.Overlap.{Token}
use cao.Finalization.Plan.{
  FinalizationPlan, Planning, plan_made, planning_cancelled, planning_failed, CreationVerdict, fits,
  fail_work, unreachable, Seams,
}
use cao.Finalization.Account.{
  Finalizer, Escape, evidence_escape, work_escape, find_output, unsafe_account,
}
use cao.Finalization.Phase.{record_fact}
use cao.Finalization.Finalize.{
  maintain_and_prune, contained, maintain_contained, settle_cancelled, after_outputs,
  check_creation, after_check, finalize_plan, make_plan, after_planning, run_phase, conclude,
  finalize_archives,
}
use cao.Work.Flow.{Outcome, value, stops, Leaves}
use cao.Work.Traced.{Traced, perform-Traces}
use cao.Work.Worker.{Worker, Exit, step}
use cao.Work.Ends.{Runs, Ends}
use cao.Finalization.Keeps.{
  Open, Contained, Keeps, Keeps-bind, Keeps-fact, Keeps-quiet, Keeps-pure, Keeps-if, Keeps-weaken,
  Keeps-sample, Keeps-account,
}
use cao.Finalization.Lawful.{
  Room, Room-Open, cancels, prune-Keeps, attempt_outputs-Keeps, account-Keeps,
  record_shortage-Keeps, find_output-length, maintain_and_prune-Keeps,
}

module _ {A W : Type 0} (seams : Seams A W) (stop : Token) (facts : OnceFacts) where
  abbrev Ended : Outcome Escape (Unit {0}) × Finalizer A W → Type 0
  Ended = Leaves (λ b t. Open facts t.worker.evidence.storage) (Contained facts)

  contained-Leaves :
      (o : Outcome Escape (Unit {0}) × Finalizer A W) → Ended o → Ended (contained seams stop o)
  unfolding contained
  contained-Leaves (value u, s) h = h
  contained-Leaves (stops (work_escape m), s) h = h
  contained-Leaves (stops (evidence_escape v), s) h = h

  contained_traces :
      (lent : Evidence) (o : Outcome Escape (Unit {0}) × Finalizer A W)
      → Traced lent o.1.worker
      → Traced lent (contained seams stop o).1.worker
  unfolding contained
  contained_traces lent (value u, s) t = t
  contained_traces lent (stops (work_escape m), s) t = t
  contained_traces lent (stops (evidence_escape v), s) t = t

  maintain_contained-Keeps :
      (p : FinalizationPlan)
      → Keeps facts (Open facts) (maintain_contained seams stop p) (λ u. Open facts)
  unfolding maintain_contained
  maintain_contained-Keeps p =
      Keeps-quiet
        (λ lent s t.
          contained_traces lent (maintain_and_prune seams stop p s)
            ((maintain_and_prune-Keeps seams stop facts p).traces lent s t))
        (λ s h.
          contained-Leaves (maintain_and_prune seams stop p s)
            ((maintain_and_prune-Keeps seams stop facts p).at s h))

  settle_cancelled-Keeps : Keeps facts (Open facts) (settle_cancelled seams stop) (λ u. Open facts)
  unfolding settle_cancelled
  settle_cancelled-Keeps = Keeps-bind (account-Keeps seams stop facts (Open facts)) (λ a.
      Keeps-if a.cancelled (Keeps-pure tt (λ s h. h))
        (Keeps-bind (Keeps-sample stop) (λ c. Keeps-account (λ b. record b { cancelled = c }))))

  after_outputs-Keeps :
      (p : FinalizationPlan) (finished : Bool)
      → Keeps facts (Open facts) (after_outputs seams stop p finished) (λ u. Open facts)
  unfolding after_outputs
  after_outputs-Keeps p false = Keeps-pure tt (λ s h. h)
  after_outputs-Keeps p true = Keeps-bind settle_cancelled-Keeps (λ u.
      Keeps-bind (account-Keeps seams stop facts (Open facts)) (λ a.
        Keeps-if (a.cancelled || not a.safe_to_continue) (Keeps-pure tt (λ s h. h))
          (maintain_contained-Keeps p)))

  after_check-Keeps :
      (p : FinalizationPlan) (v : CreationVerdict)
      → Keeps facts (Room facts (length p.outputs)) (after_check seams stop p v) (λ u. Open facts)
  unfolding after_check
  after_check-Keeps p fits =
      Keeps-bind (attempt_outputs-Keeps seams stop facts p 0 p.outputs)
        (λ b. after_outputs-Keeps p b)
  after_check-Keeps p (fail_work sh) =
      record_shortage-Keeps seams stop facts sh (length p.outputs) (find_output sh.root p.outputs)
        (λ a h. find_output-length seams stop facts sh.root a p.outputs h)
  after_check-Keeps p (unreachable m) =
      Keeps-quiet (λ l s t. t)
        (λ s h. Room-Open facts (length p.outputs) s.worker.evidence.storage h)

  check_creation-Keeps :
      (P : Storage → Type 0) (p : FinalizationPlan)
      → Keeps facts P (check_creation seams stop p) (λ v. P)
  unfolding check_creation
  check_creation-Keeps P p = Keeps-quiet (λ l s t. t) (λ s h. h)

  finalize_plan-Keeps :
      (p : FinalizationPlan)
      → Keeps facts (Room facts (length p.outputs)) (finalize_plan seams stop p) (λ u. Open facts)
  unfolding finalize_plan
  finalize_plan-Keeps p =
      let n = length p.outputs in
      Keeps-bind (Keeps-sample stop) (λ c.
        Keeps-if c
          (Keeps-weaken (λ u s h. Room-Open facts n s h) (cancels seams stop facts (Room facts n)))
          (Keeps-bind (check_creation-Keeps (Room facts n) p) (λ v. after_check-Keeps p v)))

  module _ (running : facts.finalized ≡ false) (choices : ArchiveFinalizationChoices)
      (preparation : RunPreparation) where
    abbrev Entered : Storage → Type 0
    Entered = Standing archive_finalization executed none facts

    plan-Keeps :
        (n : ℕ) → Keeps facts Entered (record_fact {A = A} {W = W} (plan n)) (λ u. Room facts n)
    plan-Keeps n = Keeps-fact (plan n) (λ e h.
        let (fine, after) = plan-Accepts e h running n in
        (fine, (determinate n 0 0, omega arith, after)))

    after_planning-Keeps :
        (made : Planning)
        → Keeps facts Entered (after_planning seams stop choices preparation made) (λ u. Open facts)
    unfolding after_planning
    after_planning-Keeps (plan_made p) =
        Keeps-bind (plan-Keeps (length p.outputs)) (λ u. finalize_plan-Keeps p)
    after_planning-Keeps planning_cancelled =
        Keeps-weaken (λ u s h. (none, h)) (cancels seams stop facts Entered)
    after_planning-Keeps (planning_failed m) = Keeps-quiet (λ l s t. t) (λ s h. (none, h))

    make_plan-Keeps : Keeps facts Entered (make_plan seams stop choices preparation) (λ x. Entered)
    unfolding make_plan
    make_plan-Keeps = Keeps-quiet (λ l s t. t) (λ s h. h)

    run_phase-Keeps :
        Keeps facts Entered (run_phase seams stop choices preparation) (λ u. Open facts)
    unfolding run_phase
    run_phase-Keeps =
        Keeps-if (requests preparation.policy RequestedWork.archive_creation)
          (Keeps-bind make_plan-Keeps (λ made. after_planning-Keeps made))
          (Keeps-bind (plan-Keeps 0) (λ u.
            Keeps-weaken (λ v s h. Room-Open facts 0 s h)
              (prune-Keeps seams stop facts (Room facts 0) preparation.mod_roots)))

    abbrev Quietly : Outcome Exit (Unit {0}) × Worker A W → Type 0
    Quietly = Ends (λ u. IsUncleaned)

    finish_ends :
        (a : ArchiveFinalizationAccount) (w : Worker A W)
        → Open facts w.evidence.storage
        → Quietly (step (finish a) w)
    unfolding step
    finish_ends a w (progress, h) =
        let (fine, after) = finish-Accepts w.evidence h running a in rw fine after

    conclude_ends :
        (o : Outcome Escape (Unit {0}) × Finalizer A W)
        → Ended o
        → Quietly (conclude seams stop choices preparation o)
    unfolding conclude
    conclude_ends (value u, s) h = finish_ends s.account s.worker h
    conclude_ends (stops (work_escape m), s) h = finish_ends (unsafe_account m s.account) s.worker h
    conclude_ends (stops (evidence_escape v), s) h = absurd h

    finish_traces :
        (a : ArchiveFinalizationAccount) (lent : Evidence) (w : Worker A W)
        → Traced lent w
        → Traced lent (step (finish a) w).1
    unfolding step
    finish_traces a lent w t = perform-Traces lent (finish a) w.evidence w.operations t

    conclude_traces :
        (lent : Evidence) (o : Outcome Escape (Unit {0}) × Finalizer A W)
        → Traced lent o.1.worker
        → Traced lent (conclude seams stop choices preparation o).1
    unfolding conclude
    conclude_traces lent (value u, s) t = finish_traces s.account lent s.worker t
    conclude_traces lent (stops (work_escape m), s) t =
        finish_traces (unsafe_account m s.account) lent s.worker t
    conclude_traces lent (stops (evidence_escape v), s) t = t

    abbrev begun : Worker A W → Finalizer A W
    begun w = record { worker = w; account = default_account }

    -- Whatever its seams do, an executed Archive Finalization records no fact that is refused.
    pub finalize_archives-Runs :
        Runs Entered (finalize_archives seams stop choices preparation) (λ u. IsUncleaned)
    unfolding finalize_archives
    finalize_archives-Runs = record {
      at = λ w h.
          conclude_ends (run_phase seams stop choices preparation (begun w))
            (run_phase-Keeps.at (begun w) h);
      traces = λ lent w t.
          conclude_traces lent (run_phase seams stop choices preparation (begun w))
            (run_phase-Keeps.traces lent (begun w) t);
    }
