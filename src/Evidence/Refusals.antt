-- ===== src/Evidence/Refusals.antt =====
-- Refused recording steps of crates/cao-core/src/run/evidence.rs.
use cao.Shared.{
  ℕ, ◌<◌, true, false, Option, none, List, [], ◌∷◌, ◌≡◌, ◌⊎◌, inl, inr, refl, arith, Bool-cases,
  is_some,
}
use cao.Routing.Route.{RoutingLedger}
use cao.Run.Lifecycle.{
  RunPhase, building_effective_asset_tree, processing_assets, phase_index, RunPhaseRecord,
  executed_record, skipped_record, planned_record,
}
use cao.Evidence.Storage.{is_current, find_phase}
use cao.Evidence.Sinks.{Evidence, Sink}
use cao.Evidence.Phases.{
  Step, accept_violation, accept_phase, record_phase, open_attempt_phase, open_archive_extraction,
  open_archive_finalization, open_processing_assets,
}
use cao.Evidence.Facts.{
  record_preparation, record_archive_collisions, record_skipped_archive_counts,
  record_nested_archive_count, record_planned_extraction, record_output_plan_basis,
  record_planned_output, record_safety_cleanup_failure,
}
use cao.Evidence.Attempts.{
  extraction_attempt, asset_attempt, finalization_attempt, record_attempt_progress, PhaseAttempt,
  plan_archive_finalization, finish_archive_finalization,
}
use cao.Evidence.Transition.{Descends, accept_phase_lem, same_phase_eq}
use cao.Evidence.Preserved.{IsSound, record_phase-cases, with_ledger, processing_record}
use cao.Evidence.Progress.{record_attempt_progress_lem}
use cao.Evidence.Lawful.{
  Lawful, extraction_attempt-Lawful, asset_attempt-Lawful, finalization_attempt-Lawful,
}
use cao.Evidence.Operations.{
  Operation, executed_phase, skipped_phase, planned_phase, open_extraction, open_finalization,
  open_processing, extraction, asset, output, plan, finish, preparation, collisions, skipped_counts,
  nested_count, planned_extraction, output_basis, planned_output, cleanup_failure, perform, Reached,
}
use cao.Evidence.Soundness.{Reached-IsSound}
use cao.Evidence.Planning.{plan-cases, planned_accepted, planned_finalization, with_default_result}

-- A step that either does not report an invariant, or leaves the evidence.
abbrev Careful : Step → Evidence → Type 0
Careful s e = is_some s.1 ≡ true → s.0 ≡ e

accept-Careful : (r : RunPhaseRecord) (e : Evidence) → Careful (accept_phase r e) e
accept-Careful r e h = elim (accept_phase_lem r e) [
  | inl (ok, _, _) ↦ absurd (ground arith)
  | inr (_, same) ↦ same
]

record_phase-Careful : (r : RunPhaseRecord) (e : Evidence) → Careful (record_phase r e) e
record_phase-Careful r e h = elim (record_phase-cases r e) [
  | inl (same, _) ↦ rw same (accept-Careful r e (rw same at h))
  | inr same ↦ same
]

open-Careful : (r : RunPhaseRecord) (e : Evidence) → Careful (open_attempt_phase r e) e
unfolding open_attempt_phase
open-Careful r e h = elim (Bool-cases (is_some (find_phase r.phase e.storage.phases))) [
  | inl old ↦ rw old
  | inr fresh ↦ rw fresh (accept-Careful r e (rw fresh at h))
]

-- No phase behind the latest one is found.
find_later :
    (p : RunPhase) (r : RunPhaseRecord) (rs : List RunPhaseRecord)
    → phase_index r.phase < phase_index p
    → Descends (r ∷ rs)
    → is_some (find_phase p (r ∷ rs)) ≡ false
unfolding find_phase
find_later p r [] h d = ground arith
find_later p r (l ∷ ls) h d = let ih = find_later p l ls (omega arith) d.1 in ground arith

module _ (l : RoutingLedger) where
  -- Processing Assets opens on any phases whose latest is Building Effective Asset Tree.
  processing_accepted :
      (phases : List RunPhaseRecord)
      → (r : RunPhaseRecord) (rs : List RunPhaseRecord) → phases ≡ r ∷ rs
      → r.phase ≡ building_effective_asset_tree
      → accept_violation phases (processing_record l) ≡ none
  unfolding accept_violation
  processing_accepted phases r rs e h = rw (e, h) (ground arith)

  processing-cases :
      (e : Evidence)
      → ((open_processing_assets l e).0 ≡ e)
        ⊎ ((is_current e.storage building_effective_asset_tree ≡ true)
            × (open_processing_assets l e
                ≡ open_attempt_phase (processing_record l) (with_ledger l e)))
  unfolding open_processing_assets
  processing-cases e = ground arith

  opened_at :
      (e : Evidence) (r : RunPhaseRecord) (rs : List RunPhaseRecord)
      → e.storage.phases ≡ r ∷ rs
      → r.phase ≡ building_effective_asset_tree
      → Descends e.storage.phases
      → (open_attempt_phase (processing_record l) (with_ledger l e)).1 ≡ none
  unfolding open_attempt_phase accept_phase
  opened_at e r rs shape h d =
      let fresh = find_later processing_assets r rs (rw h (omega arith)) (rw shape at d) in
      rw shape (rw fresh (rw (processing_accepted (r ∷ rs) r rs refl h) refl))

  open_processing-Careful :
      (e : Evidence) → IsSound e.storage → Careful (open_processing_assets l e) e
  open_processing-Careful e i h = elim (processing-cases e) [
    | inl same ↦ same
    | inr (here, same) ↦ absurd (go e.storage.phases refl here same)
  ]
    where
      go :
          (phases : List RunPhaseRecord)
          → e.storage.phases ≡ phases
          → is_current e.storage building_effective_asset_tree ≡ true
          → open_processing_assets l e ≡ open_attempt_phase (processing_record l) (with_ledger l e)
          → ⊥
      go [] shape here same = ground arith
      go (r ∷ rs) shape here same =
          let p = same_phase_eq r.phase building_effective_asset_tree (rw shape at here) in
          let ok = opened_at e r rs shape p i.ordered in ground arith

plan-Careful :
    (n : ℕ) (e : Evidence) → IsSound e.storage → Careful (plan_archive_finalization n e) e
plan-Careful n e i h = elim (plan-cases n e) [
  | inl same ↦ same
  | inr (free, same) ↦ elim (accept_phase_lem (planned_finalization n) (with_default_result e)) [
    | inl (ok, _, _) ↦ absurd (ground arith)
    | inr (refused, _) ↦
        absurd
          (unfold accept_phase in ground (arith, planned_accepted n e.storage.phases free i.shaped))
  ]
]

attempt-Careful :
    {T : Type 0} (k : PhaseAttempt T) (law : Lawful k) (a : T) (e : Evidence)
    → IsSound e.storage
    → Careful (record_attempt_progress k a e) e
attempt-Careful k law a e i h = elim (record_attempt_progress_lem k law a e i) [
  | inl c ↦ absurd (let ok = c.accepted in ground arith)
  | inr (same, _) ↦ same
]

perform-Careful : (o : Operation) (e : Evidence) → IsSound e.storage → Careful (perform o e) e
unfolding perform open_archive_extraction open_archive_finalization record_preparation
    record_archive_collisions record_skipped_archive_counts record_nested_archive_count
    record_planned_extraction record_output_plan_basis record_planned_output
    record_safety_cleanup_failure finish_archive_finalization
perform-Careful (executed_phase p q) e i h = record_phase-Careful (executed_record p q) e h
perform-Careful (skipped_phase p r) e i h = record_phase-Careful (skipped_record p r) e h
perform-Careful (planned_phase p) e i h = record_phase-Careful (planned_record p) e h
perform-Careful (open_extraction n) e i h = open-Careful _ e h
perform-Careful open_finalization e i h = open-Careful _ e h
perform-Careful (open_processing l) e i h = open_processing-Careful l e i h
perform-Careful (extraction a) e i h =
    attempt-Careful extraction_attempt extraction_attempt-Lawful a e i h
perform-Careful (asset a) e i h = attempt-Careful asset_attempt asset_attempt-Lawful a e i h
perform-Careful (output a) e i h =
    attempt-Careful finalization_attempt finalization_attempt-Lawful a e i h
perform-Careful (plan n) e i h = plan-Careful n e i h
perform-Careful (finish a) e i h = ground arith
perform-Careful (preparation p) e i h = ground arith
perform-Careful (collisions cs) e i h = ground arith
perform-Careful (skipped_counts f) e i h = ground arith
perform-Careful (nested_count n) e i h = ground arith
perform-Careful (planned_extraction x) e i h = ground arith
perform-Careful (output_basis b) e i h = ground arith
perform-Careful (planned_output o) e i h = ground arith
perform-Careful (cleanup_failure f) e i h = ground arith
perform-Careful _ e i h = ground arith

-- In all evidence that a run can reach, a recording step that reports an invariant has changed
-- nothing: no fact is retained, no phase entered and nothing published.
pub perform-refused :
    (sink : Option Sink) (e : Evidence) (o : Operation)
    → Reached sink e
    → is_some (perform o e).1 ≡ true
    → (perform o e).0 ≡ e
perform-refused sink e o r h = perform-Careful o e (Reached-IsSound sink e r) h
