-- ===== src/Evidence/Unmoved.antt =====
-- Evidence that two states agree on: the phases and the attempts behind their progress, and the
-- publication queue.
use cao.Shared.{
  ℕ, zero, suc, ◌+◌, ◌-◌, List, some, ◌≡◌, inl, inr, refl, ◌∙◌, arith, Option-cases, length,
}
use cao.Run.Lifecycle.{RunPhase, archive_finalization, RunFailure, RunDiagnostic}
use cao.Routing.Kinds.{SkipReason}
use cao.Run.Results.{
  ArchiveFinalizationAccount, RunPreparation, ArchiveCollision, PlannedArchiveExtraction,
  OutputPlanBasis, PlannedOutputArchive,
}
use cao.Evidence.Storage.{Storage}
use cao.Evidence.Sinks.{
  Evidence, Publication, publish, retain_diagnostic, publish_diagnostics, publish_rounds,
  publish_next, publish_next-cases, record_failure, retain_failure,
}
use cao.Evidence.Facts.{
  record_preparation, record_archive_collisions, record_skipped_archive_counts,
  record_nested_archive_count, record_planned_extraction, record_output_plan_basis,
  record_planned_output, record_safety_cleanup_failure,
}
use cao.Evidence.Attempts.{finish_archive_finalization}
use cao.Evidence.Transition.{publish-storage}
use cao.Evidence.Account.{flags}
use cao.Evidence.Preserved.{IsSound}
use cao.Evidence.Operations.{publish_pending, perform}

-- The parts of the storage that the invariant reads.
pub record Alike (s t : Storage) : Type 0 where
  pub same_phases : t.phases ≡ s.phases
  pub same_extractions : t.archive_extraction_attempts ≡ s.archive_extraction_attempts
  pub same_assets : t.asset_attempts ≡ s.asset_attempts
  pub same_outputs : flags archive_finalization t ≡ flags archive_finalization s

pub Alike-IsSound : (s t : Storage) → Alike s t → IsSound s → IsSound t
Alike-IsSound s t a i = record {
  ordered = rw a.same_phases i.ordered;
  bounded = rw a.same_phases i.bounded;
  shaped = rw a.same_phases i.shaped;
  extracting = rw (a.same_phases, a.same_extractions) i.extracting;
  processing = rw (a.same_phases, a.same_assets) i.processing;
  finalizing = rw (a.same_phases, a.same_outputs) i.finalizing;
}

pub Alike-refl : (s : Storage) → Alike s s
Alike-refl s = record {
  same_phases = refl;
  same_extractions = refl;
  same_assets = refl;
  same_outputs = refl;
}

pub publish-Alike :
    (p : RunPhase) (x : Publication) (e : Evidence) → Alike e.storage (publish p x e).storage
publish-Alike p x e = rw (publish-storage p x e) (record {
  same_phases = refl;
  same_extractions = refl;
  same_assets = refl;
  same_outputs = refl;
})

-- A step that leaves the phases, the attempts and the publication queue alone.
abbrev pub Unmoved : Evidence → Evidence → Type 0
Unmoved e f =
    (f.storage.phases ≡ e.storage.phases)
    × (f.storage.archive_extraction_attempts ≡ e.storage.archive_extraction_attempts)
    × (f.storage.asset_attempts ≡ e.storage.asset_attempts)
    × (flags archive_finalization f.storage ≡ flags archive_finalization e.storage)
    × (f.published_diagnostics ≡ e.published_diagnostics)
    × (f.diagnostic_publications ≡ e.diagnostic_publications)
    × (f.storage.diagnostics ≡ e.storage.diagnostics)

pub Unmoved-Alike : (e f : Evidence) → Unmoved e f → Alike e.storage f.storage
Unmoved-Alike e f (p, x, a, o, _, _, _) = record {
  same_phases = p;
  same_extractions = x;
  same_assets = a;
  same_outputs = o;
}

pub record_preparation-Unmoved :
    (p : RunPreparation) (e : Evidence) → Unmoved e (record_preparation p e).0
unfolding record_preparation
record_preparation-Unmoved p e = ground arith

pub record_archive_collisions-Unmoved :
    (cs : List ArchiveCollision) (e : Evidence) → Unmoved e (record_archive_collisions cs e).0
unfolding record_archive_collisions
record_archive_collisions-Unmoved cs e = ground arith

pub record_skipped_archive_counts-Unmoved :
    (f : SkipReason → ℕ) (e : Evidence) → Unmoved e (record_skipped_archive_counts f e).0
unfolding record_skipped_archive_counts
record_skipped_archive_counts-Unmoved f e = ground arith

pub record_nested_archive_count-Unmoved :
    (n : ℕ) (e : Evidence) → Unmoved e (record_nested_archive_count n e).0
unfolding record_nested_archive_count
record_nested_archive_count-Unmoved n e = ground arith

pub record_planned_extraction-Unmoved :
    (x : PlannedArchiveExtraction) (e : Evidence) → Unmoved e (record_planned_extraction x e).0
unfolding record_planned_extraction
record_planned_extraction-Unmoved x e = ground arith

pub record_output_plan_basis-Unmoved :
    (b : OutputPlanBasis) (e : Evidence) → Unmoved e (record_output_plan_basis b e).0
unfolding record_output_plan_basis
record_output_plan_basis-Unmoved b e = ground arith

pub record_planned_output-Unmoved :
    (o : PlannedOutputArchive) (e : Evidence) → Unmoved e (record_planned_output o e).0
unfolding record_planned_output
record_planned_output-Unmoved o e = ground arith

pub record_safety_cleanup_failure-Unmoved :
    (f : RunFailure) (e : Evidence) → Unmoved e (record_safety_cleanup_failure f e).0
unfolding record_safety_cleanup_failure
record_safety_cleanup_failure-Unmoved f e = ground arith

pub finish_archive_finalization-Unmoved :
    (a : ArchiveFinalizationAccount) (e : Evidence) → Unmoved e (finish_archive_finalization a e).0
unfolding finish_archive_finalization
finish_archive_finalization-Unmoved a e = ground arith

pub retain_diagnostic-Alike :
    (d : RunDiagnostic) (e : Evidence) → Alike e.storage (retain_diagnostic d e).storage
unfolding retain_diagnostic
retain_diagnostic-Alike d e = record {
  same_phases = refl;
  same_extractions = refl;
  same_assets = refl;
  same_outputs = refl;
}

pub Alike-trans : (s t u : Storage) → Alike s t → Alike t u → Alike s u
Alike-trans s t u a b = record {
  same_phases = b.same_phases ∙ a.same_phases;
  same_extractions = b.same_extractions ∙ a.same_extractions;
  same_assets = b.same_assets ∙ a.same_assets;
  same_outputs = b.same_outputs ∙ a.same_outputs;
}

publish_next-Alike : (e e' : Evidence) → publish_next e ≡ some e' → Alike e.storage e'.storage
publish_next-Alike e e' h = elim (publish_next-cases e) [
  | inl stops ↦ absurd (ground arith)
  | inr (d, goes) ↦
      let same : e'
          ≡ publish d.phase (Publication.diagnostic d)
              (record e { published_diagnostics = e.published_diagnostics + 1 }) =
        ground arith in
      rw same (
        publish-Alike d.phase (Publication.diagnostic d)
          (record e { published_diagnostics = e.published_diagnostics + 1 }))
]

publish_rounds-Alike :
    (n : ℕ) (e e' : Evidence) → publish_rounds n e ≡ some e' → Alike e.storage e'.storage
unfolding publish_rounds
publish_rounds-Alike zero e e' h =
    let same : e ≡ e' = ground arith in rw same (Alike-refl e'.storage)
publish_rounds-Alike (suc n) e e' h = elim (Option-cases (publish_next e)) [
  | inl stops ↦ absurd (ground arith)
  | inr (f, goes) ↦
      Alike-trans e.storage f.storage e'.storage (publish_next-Alike e f goes)
        (publish_rounds-Alike n f e' (ground arith))
]

-- The loop over the waiting diagnostics adds diagnostics only.
pub pending-Alike : (e : Evidence) → Alike e.storage (perform publish_pending e).0.storage
unfolding perform publish_diagnostics
pending-Alike e = elim (Option-cases (publish_diagnostics e)) [
  | inl h ↦ rw h (Alike-refl e.storage)
  | inr (f, h) ↦
      rw h (publish_rounds-Alike (length e.diagnostic_publications - e.published_diagnostics) e f h)
]

pub record_failure-Alike :
    (f : RunFailure) (e : Evidence) → Alike e.storage (record_failure f e).storage
unfolding record_failure retain_failure
record_failure-Alike f e =
    Alike-trans e.storage (retain_failure f e).storage (record_failure f e).storage
      (record {
        same_phases = refl;
        same_extractions = refl;
        same_assets = refl;
        same_outputs = refl;
      })
      (publish-Alike f.phase (Publication.failure f) (retain_failure f e))
