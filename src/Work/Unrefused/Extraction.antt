-- ===== src/Work/Unrefused/Extraction.antt =====
-- The recording steps of `extract_archives` and `build_effective_asset_tree` of
-- crates/cao-core/src/run/executor/work_phases.rs.
use cao.Shared.{
  ℕ, ◌≤◌, ◌+◌, true, List, [], ◌∷◌, Option, none, some, ◌≡◌, refl, subst, arith, length,
}
use cao.Shared.Paths.{FilePath}
use cao.Routing.Kinds.{ExecutionMode}
use cao.Routing.Route.{route_all}
use cao.Request.Choices.{SourceCleanup}
use cao.Run.Attempt.{safe_to_continue}
use cao.Run.Lifecycle.{
  RunPhase, extracting_archives, building_effective_asset_tree, RunPhaseStatus, RunProgress,
  determinate, completed, executed, planned,
}
use cao.Run.Results.{RunPreparation, ArchiveExtractionResult}
use cao.Evidence.Storage.{Storage}
use cao.Evidence.Sinks.{Evidence}
use cao.Evidence.Operations.{
  executed_phase, planned_phase, keep_diagnostic, planned_extraction, open_extraction, extraction,
  nested_count, perform,
}
use cao.Evidence.Attempts.{extraction_attempt}
use cao.Evidence.Standing.{OnceFacts, Standing}
use cao.Evidence.Accepted.{
  executed_phase-Accepts, planned_phase-Accepts, open_extraction-Accepts,
  record_attempt_progress-accepted,
}
use cao.Evidence.Noted.{planned_extraction-Accepts}
use cao.Evidence.Once.{nested_count-Accepts}
use cao.Evidence.Uncleaned.{Standing-IsUncleaned}
use cao.Selection.Overlap.{Token}
use cao.Work.Toolset.{Toolset, ArchiveExtractionPlan}
use cao.Work.Traced.{Traces, perform-Traces}
use cao.Work.Ends.{
  Runs, Runs-bind, Runs-step, Runs-unless_cancelled, Runs-halt, Runs-pure, Runs-if, Runs-lift,
  Runs-weaken,
}
use cao.Work.Unrefused.Walks.{definitive_pass_keeps}
use cao.Work.Extract.{
  is_dry_run, planned_of, record_plans, plan_archive_extractions, extract, extract_all,
  extract_plans, extract_archives,
}
use cao.Work.Tree.{run_definitive_pass, build_effective_asset_tree}
use cao.Work.Unrefused.Discovery.{discovered_facts, HasDiscovered, Standing-keeps}
use cao.Evidence.Attempts.{PhaseAttempt, advance, record_attempt_progress}
use cao.Evidence.Standing.{once_facts}
use cao.Evidence.Accepted.{Accepts}

-- A phase that has been entered, with any status and progress.
abbrev pub AtPhase : RunPhase → OnceFacts → Storage → Type 0
AtPhase p facts s =
    (status : RunPhaseStatus) × (progress : Option RunProgress) × Standing p status progress facts s

-- An attempt phase with room for so many attempts.
abbrev pub HasRoom : RunPhase → OnceFacts → ℕ → Storage → Type 0
HasRoom p facts n s =
    (q : RunProgress) × (completed q + n ≤ q.total) × Standing p executed (some q) facts s

module _ {T : Type 0} (k : PhaseAttempt T)
    (keeps_phases : (a : T) (s : Storage) → (k.retain a s).phases ≡ s.phases)
    (keeps_facts : (a : T) (s : Storage) → once_facts (k.retain a s) ≡ once_facts s) where
  -- An attempt takes one place.
  pub record_attempt_progress-HasRoom :
      {facts : OnceFacts} (n : ℕ) (a : T) (e : Evidence)
      → HasRoom k.phase facts (n + 1) e.storage
      → ((record_attempt_progress k a e).1 ≡ none)
        × HasRoom k.phase facts n (record_attempt_progress k a e).0.storage
  record_attempt_progress-HasRoom n a e (q, room, h) =
      let (fine, _, after) =
        record_attempt_progress-accepted k e h keeps_phases keeps_facts (omega arith) a in
      (fine, (advance q (k.succeeded a), ground arith, after))

extraction-Accepts :
    {facts : OnceFacts} (n : ℕ) (a : ArchiveExtractionResult) (e : Evidence)
    → HasRoom extracting_archives facts (n + 1) e.storage
    → Accepts (extraction a) e (HasRoom extracting_archives facts n)
unfolding perform
extraction-Accepts n a e h =
    record_attempt_progress-HasRoom extraction_attempt (λ x s. refl) (λ x s. refl) n a e h

abbrev Extracting : ℕ → Storage → Type 0
Extracting = HasRoom extracting_archives discovered_facts

abbrev pub HasExtracted : Storage → Type 0
HasExtracted = AtPhase extracting_archives discovered_facts

abbrev Planning : Storage → Type 0
Planning = Standing extracting_archives planned none discovered_facts

module _ {A W : Type 0} (stop : Token) (cleanup : SourceCleanup) where
  record_plans-Runs :
      (plans : List ArchiveExtractionPlan)
      → Runs {A = A} {W = W} Planning (record_plans stop cleanup plans) (λ u. Planning)
  unfolding record_plans
  record_plans-Runs [] = Runs-pure (λ s h. h)
  record_plans-Runs (p ∷ ps) =
      Runs-bind
        (Runs-step (planned_extraction (planned_of cleanup p))
          (λ e h. planned_extraction-Accepts e h (planned_of cleanup p)))
        (λ u. record_plans-Runs ps)

  plan_archive_extractions-Runs :
      (plans : List ArchiveExtractionPlan)
      → Runs {A = A} {W = W} HasDiscovered
          (plan_archive_extractions stop cleanup plans)
          (λ u. HasExtracted)
  unfolding plan_archive_extractions
  plan_archive_extractions-Runs plans =
      Runs-bind
        (Runs-step (planned_phase extracting_archives)
          (λ e h. planned_phase-Accepts e h extracting_archives (omega arith) refl))
        (λ u. Runs-bind (Runs-unless_cancelled stop (λ s h. Standing-IsUncleaned refl h)) (λ v.
          Runs-bind (record_plans-Runs plans) (λ x.
            Runs-weaken (λ y s h. (planned, none, h))
              (Runs-unless_cancelled stop (λ s h. Standing-IsUncleaned refl h)))))

module _ {A W : Type 0} (tools : Toolset A W) (stop : Token) (cleanup : SourceCleanup) where
  extract-Runs :
      (n : ℕ) (plan : ArchiveExtractionPlan)
      → Runs (Extracting n) (extract tools stop cleanup plan) (λ a. Extracting n)
  unfolding extract
  extract-Runs n plan = Runs-lift (λ l w t. t) (λ w h. h)

  extract_all-Runs :
      (plans : List ArchiveExtractionPlan)
      → Runs (Extracting (length plans)) (extract_all tools stop cleanup plans) (λ u. Extracting 0)
  unfolding extract_all
  extract_all-Runs [] = Runs-pure (λ s h. h)
  extract_all-Runs (p ∷ ps) =
      Runs-bind (Runs-unless_cancelled stop (λ s h. Standing-IsUncleaned refl h.2)) (λ u.
        Runs-bind (extract-Runs (length (p ∷ ps)) p) (λ a.
          Runs-bind
            (Runs-step (extraction a) (λ e h.
              extraction-Accepts (length ps) a e
                (subst (λ (m : ℕ). Extracting m e.storage) (omega arith) h)))
            (λ v.
              Runs-if (safe_to_continue a.outcome) (extract_all-Runs ps)
                (Runs-halt (λ s h. Standing-IsUncleaned refl h.2)))))

  extract_plans-Runs :
      (plans : List ArchiveExtractionPlan)
      → Runs
          (Extracting (length plans))
          (extract_plans tools stop cleanup plans)
          (λ u. Extracting 0)
  unfolding extract_plans
  extract_plans-Runs [] = Runs-pure (λ s h. h)
  extract_plans-Runs (p ∷ ps) =
      Runs-bind (extract_all-Runs (p ∷ ps))
        (λ u. Runs-unless_cancelled stop (λ s h. Standing-IsUncleaned refl h.2))

  -- After discovery, extraction is recorded without a refusal.
  pub extract_archives-Runs :
      (mode : ExecutionMode) (plans : List ArchiveExtractionPlan)
      → Runs HasDiscovered (extract_archives tools stop cleanup mode plans) (λ u. HasExtracted)
  unfolding extract_archives
  extract_archives-Runs mode plans =
      Runs-bind (Runs-unless_cancelled stop (λ s h. Standing-IsUncleaned refl h)) (λ u.
        Runs-if (is_dry_run mode) (plan_archive_extractions-Runs stop cleanup plans) (
          Runs-weaken (λ x s room. (executed, some room.0, room.2))
            (Runs-bind
              (Runs-step {Q = Extracting (length plans)} (open_extraction (length plans)) (λ e h.
                let (fine, after) = open_extraction-Accepts e h (length plans) (omega arith) in
                (fine, (determinate (length plans) 0 0, omega arith, after))))
              (λ v.
                Runs-bind (Runs-unless_cancelled stop (λ s h. Standing-IsUncleaned refl h.2))
                  (λ x. extract_plans-Runs plans)))))

abbrev Treeing : OnceFacts → Storage → Type 0
Treeing = Standing building_effective_asset_tree executed none

abbrev pub counted_facts : OnceFacts
counted_facts = record discovered_facts { nested_count = true }

abbrev pub HasTree : Storage → Type 0
HasTree = Treeing counted_facts

module _ {A W : Type 0} (tools : Toolset A W) (stop : Token) (preparation : RunPreparation) where
  run_definitive_pass-Runs :
      (recognized : List FilePath)
      → Runs
          (Treeing discovered_facts)
          (run_definitive_pass tools stop preparation recognized)
          (λ a. Treeing discovered_facts)
  unfolding run_definitive_pass
  run_definitive_pass-Runs recognized =
      Runs-lift
        (λ lent.
          definitive_pass_keeps (λ e os a w. Traces lent e os)
            (λ d e os a w k. perform-Traces lent (keep_diagnostic d) e os k) stop tools
            preparation.policy recognized preparation.mod_roots
            (record { effective_paths = []; nested = [] }))
        (definitive_pass_keeps (λ e os a w. Treeing discovered_facts e.storage)
          (λ d e os a w k. Standing-keeps d e k) stop tools preparation.policy recognized
          preparation.mod_roots (record { effective_paths = []; nested = [] }))

  -- After extraction, the Effective Asset Tree is recorded without a refusal.
  pub build_effective_asset_tree-Runs :
      (recognized : List FilePath)
      → Runs HasExtracted
          (build_effective_asset_tree tools stop preparation recognized)
          (λ ledger. HasTree)
  unfolding build_effective_asset_tree
  build_effective_asset_tree-Runs recognized =
      Runs-bind
        (Runs-step (executed_phase building_effective_asset_tree none)
          (λ e h. executed_phase-Accepts e h.2 building_effective_asset_tree (omega arith) refl))
        (λ u. Runs-bind (Runs-unless_cancelled stop (λ s h. Standing-IsUncleaned refl h)) (λ v.
          Runs-bind (run_definitive_pass-Runs recognized) (λ passed.
            Runs-if passed.0
              (Runs-bind
                (Runs-step (nested_count (length passed.1.nested))
                  (λ e h. nested_count-Accepts e h refl (length passed.1.nested)))
                (λ x.
                  Runs-pure {b = route_all preparation.policy passed.1.effective_paths} (λ s h. h)))
              (Runs-halt (λ s h. Standing-IsUncleaned refl h)))))
