-- ===== src/Evidence/Counting.antt =====
-- What each recording step for an attempt (crates/cao-core/src/run/evidence/attempt_phase.rs) does.
use cao.Shared.{
  ◌+◌, ◌<◌, Bool, true, List, [], ◌∷◌, ◌++◌, none, some, ◌≡◌, ◌⊎◌, inl, inr, refl, sym, subst,
  arith, Option-cases, is_some, if◌then◌else◌,
}
use cao.Run.Attempt.{succeeded}
use cao.Run.Lifecycle.{
  RunPhase, extracting_archives, processing_assets, archive_finalization, RunDiagnostic,
  RunPhaseRecord, RunProgress, completed, executed_record,
}
use cao.Run.Results.{ArchiveExtractionResult, RoutedAssetAttempt, ArchiveFinalizationAttempt}
use cao.Evidence.Storage.{Storage, latest}
use cao.Evidence.Sinks.{Evidence}
use cao.Evidence.Phases.{Step, put_phase}
use cao.Evidence.Operations.{extraction, asset, output, perform}
use cao.Evidence.Attempts.{
  PhaseAttempt, extraction_attempt, asset_attempt, finalization_attempt, streamed,
  record_attempt_progress, current_of, at, advance,
}
use cao.Evidence.Preserved.{IsSound}
use cao.Evidence.Lawful.{
  Lawful, extraction_attempt-Lawful, asset_attempt-Lawful, finalization_attempt-Lawful,
}
use cao.Evidence.Progress.{IsAt, Counted, same_phase_refl, counts, record_attempt_progress_lem}

-- The phase is executed now, with a plan whose total is not reached.
abbrev pub HasRoom : RunPhase → List RunPhaseRecord → Type 0
HasRoom p phases = (q : RunProgress) × IsAt p q phases × (completed q < q.total)

-- The attempt stands behind the earlier ones, and the progress of its phase counts it.
pub record Retains {T : Type 0} (p : RunPhase) (attempts : Storage → List T) (a : T) (ok : Bool)
    (s t : Storage) : Type 0 where
  pub before : RunProgress
  pub after : RunProgress
  pub was_at : IsAt p before s.phases
  pub is_at : IsAt p after t.phases
  pub same_rest : is_at.rest ≡ was_at.rest
  pub same_total : after.total ≡ before.total
  pub counts_success : after.succeeded ≡ before.succeeded + (if ok then 1 else 0)
  pub counts_failure : after.failed ≡ before.failed + (if ok then 0 else 1)
  pub retained : attempts t ≡ attempts s ++ a ∷ []

-- The step is accepted and retains the attempt, if there is room; else it reports an invariant and
-- changes nothing.
abbrev pub Recorded :
    {T : Type 0} → RunPhase → (Storage → List T) → T → Bool → Evidence → Step → Type 0
Recorded p attempts a ok e o =
    (HasRoom p e.storage.phases × (o.1 ≡ none) × Retains p attempts a ok e.storage o.0.storage)
    ⊎ (¬ HasRoom p e.storage.phases × (is_some o.1 ≡ true) × (o.0 ≡ e))

IsAt-current :
    (p : RunPhase) (phases : List RunPhaseRecord) (q : RunProgress)
    → IsAt p q phases
    → current_of p (latest phases) ≡ at q
IsAt-current p phases q i = rw i.shape (ground (arith, same_phase_refl p))

advanced-IsAt :
    (p : RunPhase) (q n : RunProgress) (phases kept : List RunPhaseRecord) (i : IsAt p q phases)
    → kept ≡ phases
    → (j : IsAt p n (put_phase kept (executed_record p (some n)))) × (j.rest ≡ i.rest)
unfolding put_phase
advanced-IsAt p q n phases kept i same = (
  record {
    first = executed_record p (some n);
    rest = i.rest;
    shape = rw (same, i.shape) (ground (arith, same_phase_refl p));
    is_phase = refl;
    is_executed = refl;
    has_progress = refl;
  },
  refl,
)

module _ {T : Type 0} (k : PhaseAttempt T) (law : Lawful k) (attempts : Storage → List T)
    (appends : (a : T) (s : Storage) (phases : List RunPhaseRecord) (ds : List RunDiagnostic)
      → attempts (record (k.retain a s) { phases = phases; diagnostics = ds })
        ≡ attempts s ++ a ∷ [])
    (a : T) (e : Evidence) (i : IsSound e.storage) where
  counted-Retains :
      (c : Counted k law a e i)
      → Retains k.phase attempts a
          (k.succeeded a)
          e.storage
          (record_attempt_progress k a e).0.storage
  counted-Retains c =
      let n = advance c.before (k.succeeded a) in
      let s = k.retain a e.storage in
      let ds = (record_attempt_progress k a e).0.storage.diagnostics in
      let phases = put_phase s.phases (executed_record k.phase (some n)) in
      let (j, same) =
        advanced-IsAt k.phase c.before n e.storage.phases s.phases c.was_at
          (law.keeps_phases a e.storage) in
      subst (λ (t : Storage). Retains k.phase attempts a (k.succeeded a) e.storage t)
        (sym c.becomes)
        (record {
          before = c.before;
          after = n;
          was_at = c.was_at;
          is_at = j;
          same_rest = same;
          same_total = refl;
          counts_success = refl;
          counts_failure = refl;
          retained = appends a e.storage phases ds;
        })

  recorded : Recorded k.phase attempts a (k.succeeded a) e (record_attempt_progress k a e)
  recorded = elim (record_attempt_progress_lem k law a e i) [
    | inl c ↦ inl ((c.before, c.was_at, c.had_room), c.accepted, counted-Retains c)
    | inr (same, refused) ↦ inr (
      (λ (q, at_q, room).
          let c = counts k law a e i q (IsAt-current k.phase e.storage.phases q at_q) room in
          cc (c.accepted, refused)),
      refused,
      same,
    )
  ]

finalization-appends :
    (a : ArchiveFinalizationAttempt) (s : Storage) (phases : List RunPhaseRecord)
    (ds : List RunDiagnostic)
    → streamed
        (record (finalization_attempt.retain a s) {
          phases = phases;
          diagnostics = ds;
        }).archive_finalization
      ≡ streamed s.archive_finalization ++ a ∷ []
finalization-appends a s phases ds = elim (Option-cases s.archive_finalization) [
  | inl e ↦ rw e refl
  | inr (r, e) ↦ rw e refl
]

-- On sound evidence, the step for an attempt of any of the three kinds retains it behind the earlier
-- attempts of its kind, and counts it once in the progress of its phase, as a success exactly if its
-- outcome is one, with the total and the earlier phases as they are, if its phase is executed now with
-- a plan whose total is not reached; if not, it reports an invariant and changes nothing.
pub attempts-Recorded :
    (x : ArchiveExtractionResult) (y : RoutedAssetAttempt) (z : ArchiveFinalizationAttempt)
    (e : Evidence)
    → IsSound e.storage
    → Recorded extracting_archives
        (λ s. s.archive_extraction_attempts)
        x
        (succeeded x.outcome)
        e
        (perform (extraction x) e)
      × Recorded processing_assets
          (λ s. s.asset_attempts)
          y
          (succeeded y.result.outcome)
          e
          (perform (asset y) e)
      × Recorded archive_finalization
          (λ s. streamed s.archive_finalization)
          z
          (succeeded z.outcome)
          e
          (perform (output z) e)
unfolding perform
attempts-Recorded x y z e i = (
  recorded extraction_attempt extraction_attempt-Lawful (λ s. s.archive_extraction_attempts)
      (λ a s phases ds. refl) x e i,
  recorded asset_attempt asset_attempt-Lawful (λ s. s.asset_attempts) (λ a s phases ds. refl) y e i,
  recorded finalization_attempt finalization_attempt-Lawful (λ s. streamed s.archive_finalization)
      finalization-appends z e i,
)
