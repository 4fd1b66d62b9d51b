-- ===== src/Finalization/Phase.antt =====
-- `record_shortage`, `prune_empty_directories` and the loop over the outputs of
-- crates/cao-core/src/run/finalization/mod.rs.
use cao.Shared.{
  ℕ, ◌+◌, Bool, true, false, List, [], ◌∷◌, ◌++◌, Option, none, some, ◌==◌, if◌then◌else◌,
}
use cao.Shared.Paths.{FilePath}
use cao.Run.Attempt.{CapacityShortage, MutationState, safe_to_continue}
use cao.Run.Results.{
  ArchiveFinalizationAttempt, ArchiveFinalizationMutation, empty_directory_pruning,
  ArchiveFinalizationAccount,
}
use cao.Evidence.Operations.{Operation, perform, output}
use cao.Selection.Overlap.{Token}
use cao.Executor.Services.{Caught, returned, panicked}
use cao.Finalization.Plan.{FinalizationOutput, FinalizationPlan, Seams}
use cao.Work.Flow.{Outcome, value, stops, pure, ◌>>=◌, ◌>>◌}
use cao.Work.Worker.{tick, performed}
use cao.Finalization.Account.{
  Escape, work_escape, Finalizing, escape_of, shortage_failure, capacity_rejected, shortage_attempt,
  dummy_demand,
}

abbrev pub pruning : FilePath → ℕ → ArchiveFinalizationMutation
pruning root n = record {
  mod_root = root;
  path = root;
  kind = empty_directory_pruning;
  mutation = MutationState.committed;
  count = n;
}

abbrev pub push_pruning : FilePath → ℕ → ArchiveFinalizationAccount → ArchiveFinalizationAccount
push_pruning root n a =
    if n == 0 then a else record a { mutations = a.mutations ++ pruning root n ∷ [] }

-- One output's attempt; a panic that it lets through unwinds to the phase.
abbrev pub caught : Caught ArchiveFinalizationAttempt → Outcome Escape ArchiveFinalizationAttempt
caught (returned a) = value a
caught (panicked m) = stops (work_escape m)

abbrev pub note_safety :
    ArchiveFinalizationAttempt → ArchiveFinalizationAccount → ArchiveFinalizationAccount
unfolding capacity_rejected safe_to_continue
note_safety attempt a =
    if capacity_rejected attempt
    then a
    else record a { safe_to_continue = safe_to_continue attempt.outcome }

module _ {A W : Type 0} where
  abbrev pub with_account :
      (ArchiveFinalizationAccount → ArchiveFinalizationAccount) → Finalizing A W (Unit {0})
  with_account f s = (value tt, record s { account = f s.account })

  abbrev pub mark_cancelled : Finalizing A W (Unit {0})
  mark_cancelled = with_account (λ a. record a { cancelled = true })

  abbrev pub account : Finalizing A W ArchiveFinalizationAccount
  account s = (value s.account, s)

  -- A fact recorded through the phase's handle.
  unfoldable pub record_fact : Operation → Finalizing A W (Unit {0})
  record_fact o s =
      (escape_of (perform o s.worker.evidence).1, record s { worker = performed o s.worker })

module _ {A W : Type 0} (stop : Token) where
  unfoldable pub sample : Finalizing A W Bool
  sample s = (value (stop s.worker.clock), record s { worker = tick s.worker })

module _ {A W : Type 0} (seams : Seams A W) where
  -- `record_shortage`
  unfoldable pub record_shortage : CapacityShortage → Option FilePath → Finalizing A W (Unit {0})
  unfolding record_fact
  record_shortage s none =
      with_account (λ a. record a { failure = some (shortage_failure seams.shortage_text s) })
  record_shortage s (some archive) =
      record_fact (output (shortage_attempt seams.shortage_text s archive))

  unfoldable pub delete_empty : FilePath → Finalizing A W ℕ
  delete_empty root s =
      let w = s.worker in
      let (pruned, world) = seams.delete_empty_directories root w.world in
      (value pruned, record s { worker = record w { world = world } })

  unfoldable pub call_output : FinalizationPlan → ℕ → Finalizing A W ArchiveFinalizationAttempt
  call_output p index s =
      let w = s.worker in
      let a = s.account in
      let called =
        seams.attempt_output p index (dummy_demand p.dummy_capacity_by_root p.roots) w.artifacts
          w.world w.clock in
      (
        caught called.attempt,
        record {
          worker = record w {
            artifacts = called.artifacts;
            world = called.world;
            clock = called.clock;
          };
          account = record a { mutations = a.mutations ++ called.mutations };
        },
      )

module _ {A W : Type 0} (seams : Seams A W) (stop : Token) where
  -- `prune_empty_directories`
  unfoldable pub prune_empty_directories : List FilePath → Finalizing A W (Unit {0})
  unfolding sample delete_empty
  prune_empty_directories [] = pure tt
  prune_empty_directories (root ∷ roots) = do
    c ← sample stop
    if c then mark_cancelled else (do
      n ← delete_empty seams root
      with_account (push_pruning root n)
      prune_empty_directories roots)

  -- The loop over the outputs; `false` if a capacity rejection ends the phase.
  unfoldable pub attempt_outputs :
      FinalizationPlan → ℕ → List FinalizationOutput → Finalizing A W Bool
  unfolding sample call_output record_fact capacity_rejected safe_to_continue
  attempt_outputs p index [] = pure true
  attempt_outputs p index (o ∷ os) = do
    c ← sample stop
    if c then (do mark_cancelled; pure true) else (do
      attempt ← call_output seams p index
      with_account (note_safety attempt)
      record_fact (output attempt)
      a ← account
      if capacity_rejected attempt
          then pure false
          else if a.safe_to_continue
          then attempt_outputs p (index + 1) os
          else pure true)
