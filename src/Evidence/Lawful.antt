-- ===== src/Evidence/Lawful.antt =====
-- What each kind of attempt retains (crates/cao-core/src/run/evidence/attempt_phase.rs).
use cao.Shared.{false, [], ◌∷◌, ◌++◌, map-append, ◌≡◌, inl, inr, refl, Option-cases}
use cao.Run.Attempt.{succeeded}
use cao.Run.Lifecycle.{RunPhase, extracting_archives, processing_assets, archive_finalization}
use cao.Run.Results.{ArchiveExtractionResult, RoutedAssetAttempt, ArchiveFinalizationAttempt}
use cao.Evidence.Storage.{Storage, same_phase}
use cao.Evidence.Account.{flags}
use cao.Evidence.Attempts.{PhaseAttempt, extraction_attempt, asset_attempt, finalization_attempt}

-- What the retention of one kind of attempt does to the flags of the phases.
pub record Lawful {T : Type 0} (k : PhaseAttempt T) : Type 0 where
  pub keeps_phases : (a : T) (s : Storage) → (k.retain a s).phases ≡ s.phases
  pub own :
      (a : T) (s : Storage) → flags k.phase (k.retain a s) ≡ flags k.phase s ++ k.succeeded a ∷ []
  pub other :
      (p : RunPhase) (a : T) (s : Storage)
      → same_phase k.phase p ≡ false
      → flags p (k.retain a s) ≡ flags p s

pub extraction_attempt-Lawful : Lawful extraction_attempt
extraction_attempt-Lawful = record {
  keeps_phases = λ a s. refl;
  own = λ a s.
      map-append (λ (x : ArchiveExtractionResult). succeeded x.outcome)
        s.archive_extraction_attempts (a ∷ []);
  other = others;
}
  where
    others :
        (p : RunPhase) (a : ArchiveExtractionResult) (s : Storage)
        → same_phase extracting_archives p ≡ false
        → flags p (extraction_attempt.retain a s) ≡ flags p s
    others extracting_archives a s h = cc
    others _ a s h = refl

pub asset_attempt-Lawful : Lawful asset_attempt
asset_attempt-Lawful = record {
  keeps_phases = λ a s. refl;
  own = λ a s.
      map-append (λ (x : RoutedAssetAttempt). succeeded x.result.outcome) s.asset_attempts (a ∷ []);
  other = others;
}
  where
    others :
        (p : RunPhase) (a : RoutedAssetAttempt) (s : Storage)
        → same_phase processing_assets p ≡ false
        → flags p (asset_attempt.retain a s) ≡ flags p s
    others processing_assets a s h = cc
    others _ a s h = refl

pub finalization_attempt-Lawful : Lawful finalization_attempt
finalization_attempt-Lawful = record {
  keeps_phases = λ a s. refl;
  own = λ a s. elim (Option-cases s.archive_finalization) [
    | inl e ↦ rw e
    | inr (r, e) ↦
        rw e
          (map-append (λ (x : ArchiveFinalizationAttempt). succeeded x.outcome) r.attempts (a ∷ []))
  ];
  other = others;
}
  where
    others :
        (p : RunPhase) (a : ArchiveFinalizationAttempt) (s : Storage)
        → same_phase archive_finalization p ≡ false
        → flags p (finalization_attempt.retain a s) ≡ flags p s
    others archive_finalization a s h = cc
    others _ a s h = refl
