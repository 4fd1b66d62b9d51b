-- ===== src/Evidence/Accepted.antt =====
-- The recording steps of crates/cao-core/src/run/evidence.rs that are accepted where a run stands.
use cao.Shared.{
  ℕ, ◌<◌, Bool, true, false, List, [], ◌∷◌, Option, none, some, ◌≡◌, refl, ap, ◌∙◌, arith, is_some,
  length,
}
use cao.Routing.Route.{RoutingLedger}
use cao.Run.Lifecycle.{
  RunPhase, extracting_archives, building_effective_asset_tree, processing_assets,
  archive_finalization, phase_index, RunPhaseStatus, executed, planned, RunPhaseRecord, RunProgress,
  determinate, completed, RunDiagnostic,
}
use cao.Evidence.Storage.{Storage, latest, is_current, same_phase}
use cao.Evidence.Sinks.{Evidence, retain_diagnostic}
use cao.Evidence.Phases.{
  is_attempt_bearing, is_plannable, accept_violation, validate_replacement, open_attempt_phase,
  accept_phase, put_phase, record_phase, open_archive_extraction, open_archive_finalization,
  open_processing_assets,
}
use cao.Evidence.Attempts.{
  PhaseAttempt, at, current_of, advance, retain_in, record_in, record_attempt_progress,
}
use cao.Evidence.Operations.{
  Operation, executed_phase, planned_phase, open_extraction, open_finalization, open_processing,
  keep_diagnostic, publish_pending, perform,
}
use cao.Evidence.Published.{pending-Undiagnosed}
use cao.Evidence.Standing.{
  OnceFacts, once_facts, entered, Standing, accepted, accept_phase-enters,
  open_attempt_phase-enters,
}

-- A step that is not refused, and what holds of the storage that it leaves.
abbrev pub Accepts : Operation → Evidence → (Storage → Type 0) → Type 0
Accepts o e P = ((perform o e).1 ≡ none) × P (perform o e).0.storage

module _ {p : RunPhase} {status : RunPhaseStatus} {progress : Option RunProgress}
    {facts : OnceFacts} (e : Evidence) (h : Standing p status progress facts e.storage) where
  pub executed_phase-Accepts :
      (q : RunPhase)
      → phase_index p < phase_index q
      → is_attempt_bearing q ≡ false
      → Accepts (executed_phase q none) e (Standing q executed none facts)
  unfolding perform record_phase
  executed_phase-Accepts q later plain =
      rw plain (accept_phase-enters e h q later executed none refl refl)

  pub planned_phase-Accepts :
      (q : RunPhase)
      → phase_index p < phase_index q
      → is_plannable q ≡ true
      → Accepts (planned_phase q) e (Standing q planned none facts)
  unfolding perform record_phase
  planned_phase-Accepts q later plannable =
      rw plannable (accept_phase-enters e h q later planned none refl refl)

  pub open_extraction-Accepts :
      (n : ℕ)
      → phase_index p < 2
      → Accepts
          (open_extraction n)
          e
          (Standing extracting_archives executed (some (determinate n 0 0)) facts)
  unfolding perform open_archive_extraction
  open_extraction-Accepts n later =
      open_attempt_phase-enters e h extracting_archives later executed (some (determinate n 0 0))
        (ground arith) refl

  pub open_finalization-Accepts :
      phase_index p < 5
      → Accepts open_finalization e (Standing archive_finalization executed none facts)
  unfolding perform open_archive_finalization
  open_finalization-Accepts later =
      open_attempt_phase-enters e h archive_finalization later executed none refl refl

  pub keep_diagnostic-Accepts :
      (d : RunDiagnostic) → Accepts (keep_diagnostic d) e (Standing p status progress facts)
  unfolding perform retain_diagnostic
  keep_diagnostic-Accepts d =
      (refl, record { rest = h.rest; shape = h.shape; below = h.below; once = h.once })

  pub publish_pending-Accepts : Accepts publish_pending e (Standing p status progress facts)
  publish_pending-Accepts =
      let same = pending-Undiagnosed e in
      (
        unfold perform in refl,
        record {
          rest = h.rest;
          shape = ap (λ (s : Storage). s.phases) same ∙ h.shape;
          below = h.below;
          once = ap once_facts same ∙ h.once;
        },
      )

-- Opening Processing Assets, after a complete discovery without a failure.
module _ {progress : Option RunProgress} {facts : OnceFacts} (e : Evidence)
    (h : Standing building_effective_asset_tree executed progress facts e.storage)
    (counted : facts.skipped_counts ≡ true) (nested : facts.nested_count ≡ true)
    (clean : facts.failures ≡ []) (unrouted : facts.routed ≡ false) where
  pub open_processing-Accepts :
      (ledger : RoutingLedger)
      → Accepts (open_processing ledger) e (
          Standing processing_assets executed
            (some (determinate (length ledger.routed_assets) 0 0))
            (record facts { routed = true }))
  unfolding perform open_processing_assets
  open_processing-Accepts ledger =
      let s = e.storage in
      let e' = record e { storage = record s { routing_ledger = some ledger } } in
      let there : is_current s building_effective_asset_tree ≡ true = rw h.shape refl in
      let skips : s.skipped_archive_counts_recorded ≡ true =
        ap (λ (f : OnceFacts). f.skipped_counts) h.once ∙ counted in
      let nests : s.nested_archive_count_recorded ≡ true =
        ap (λ (f : OnceFacts). f.nested_count) h.once ∙ nested in
      let none_failed : s.failures ≡ [] = ap (λ (f : OnceFacts). f.failures) h.once ∙ clean in
      let fresh : is_some s.routing_ledger ≡ false =
        ap (λ (f : OnceFacts). f.routed) h.once ∙ unrouted in
      let h' : Standing building_effective_asset_tree executed progress
          (record facts { routed = true }) e'.storage =
        record {
          rest = h.rest;
          shape = h.shape;
          below = h.below;
          once = ap (λ (f : OnceFacts). record f { routed = true }) h.once;
        } in
      let planned_total = some (determinate (length ledger.routed_assets) 0 0) in
      let opens : open_processing_assets ledger e
          ≡ open_attempt_phase (entered processing_assets executed planned_total) e' =
        ground arith in
      rw opens (
        open_attempt_phase-enters e' h' processing_assets (omega arith) executed planned_total
          (ground arith) refl)

same_phase_refl : (p : RunPhase) → same_phase p p ≡ true
same_phase_refl p = ground arith

pub advance_fits :
    (p : RunPhase) (q : RunProgress) (ok : Bool) (rs : List RunPhaseRecord)
    → completed q < q.total
    → accept_violation (entered p executed (some q) ∷ rs) (entered p executed (some (advance q ok)))
      ≡ none
unfolding accept_violation validate_replacement
advance_fits p q ok rs h = ground (arith, same_phase_refl p)

pub put_same :
    (p : RunPhase) (q q' : RunProgress) (rs : List RunPhaseRecord)
    → put_phase (entered p executed (some q) ∷ rs) (entered p executed (some q'))
      ≡ entered p executed (some q') ∷ rs
unfolding put_phase
put_same p q q' rs = ground (arith, same_phase_refl p)

-- One more attempt, while the total is not reached.
module _ {T : Type 0} (k : PhaseAttempt T) {q : RunProgress} {facts : OnceFacts} (e : Evidence)
    (h : Standing k.phase executed (some q) facts e.storage)
    (keeps_phases : (a : T) (s : Storage) → (k.retain a s).phases ≡ s.phases)
    (keeps_facts : (a : T) (s : Storage) → once_facts (k.retain a s) ≡ once_facts s)
    (room : completed q < q.total) where
  pub record_attempt_progress-accepted :
      (a : T)
      → ((record_attempt_progress k a e).1 ≡ none)
        × ((record_attempt_progress k a e).0.storage ≡ record (k.retain a e.storage) {
          phases = entered k.phase executed (some (advance q (k.succeeded a))) ∷ h.rest;
          diagnostics = (record_attempt_progress k a e).0.storage.diagnostics;
        })
        × Standing k.phase executed
            (some (advance q (k.succeeded a)))
            facts
            (record_attempt_progress k a e).0.storage
  unfolding record_attempt_progress record_in
  record_attempt_progress-accepted a =
      let next = entered k.phase executed (some (advance q (k.succeeded a))) in
      let retained = retain_in k a e in
      let here : current_of k.phase (latest e.storage.phases) ≡ at q =
        rw h.shape (ground (arith, same_phase_refl k.phase)) in
      let shape : retained.storage.phases ≡ entered k.phase executed (some q) ∷ h.rest =
        keeps_phases a e.storage ∙ h.shape in
      let records : record_attempt_progress k a e ≡ accept_phase next retained = ground arith in
      let (fine, same) =
        accepted next retained (rw shape (advance_fits k.phase q (k.succeeded a) h.rest room)) in
      let put : put_phase retained.storage.phases next ≡ next ∷ h.rest =
        rw shape (put_same k.phase q (advance q (k.succeeded a)) h.rest) in
      rw records (
        fine,
        rw put at same,
        rw same (record {
          rest = h.rest;
          shape = put;
          below = h.below;
          once = keeps_facts a e.storage ∙ h.once;
        }),
      )
