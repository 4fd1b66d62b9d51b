-- ===== src/Evidence/Quiet.antt =====
-- What leaves the publication queue of crates/cao-core/src/run/evidence.rs as it is.
use cao.Shared.{ℕ, Option, none, some, ◌≡◌, inl, inr, refl, ◌∙◌, arith, Bool-cases, is_some, leb}
use cao.Routing.Route.{RoutingLedger}
use cao.Run.Lifecycle.{RunPhaseRecord, RunFailure, executed_record, completed}
use cao.Evidence.Storage.{Storage, find_phase, latest}
use cao.Evidence.Sinks.{Evidence, Publication, record_failure, retain_failure}
use cao.Evidence.Phases.{
  Violation, accept_phase, accept_violation, finish_accept, put_phase, with_phases,
  open_attempt_phase, record_phase, open_processing_assets,
}
use cao.Evidence.Attempts.{
  PhaseAttempt, Current, elsewhere, unplanned, at, current_of, retain_in, advance, record_in,
  record_attempt_progress, plan_archive_finalization,
}
use cao.Evidence.Preserved.{
  record_phase-cases, open_processing-cases, with_ledger, processing_record,
}
use cao.Evidence.Planning.{plan-cases, planned_finalization, with_default_result}
use cao.Evidence.Publishing.{Quiet, Quiet-refl, publish-Quiet}
use cao.Evidence.Unmoved.{Unmoved}

Quiet-trans : (e f g : Evidence) → Quiet e f → Quiet f g → Quiet e g
Quiet-trans e f g a b =
    let x = a.grows in
    let y = b.grows in
    record {
      same_done = b.same_done ∙ a.same_done;
      same_queue = b.same_queue ∙ a.same_queue;
      grows = omega arith;
    }

finish_accept-Quiet :
    (o : Option Violation) (r : RunPhaseRecord) (e : Evidence) → Quiet e (finish_accept o r e).0
unfolding finish_accept
finish_accept-Quiet (some v) r e = Quiet-refl e
finish_accept-Quiet none r e =
    let entered = record e { storage = with_phases e.storage (put_phase e.storage.phases r) } in
    let q = publish-Quiet r.phase (Publication.phase r) entered in
    record { same_done = q.same_done; same_queue = q.same_queue; grows = q.grows }

accept-Quiet : (r : RunPhaseRecord) (e : Evidence) → Quiet e (accept_phase r e).0
unfolding accept_phase
accept-Quiet r e = finish_accept-Quiet (accept_violation e.storage.phases r) r e

pub record_phase-Quiet : (r : RunPhaseRecord) (e : Evidence) → Quiet e (record_phase r e).0
record_phase-Quiet r e = elim (record_phase-cases r e) [
  | inl (same, _) ↦ rw same (accept-Quiet r e)
  | inr same ↦ rw same (Quiet-refl e)
]

pub open-Quiet : (r : RunPhaseRecord) (e : Evidence) → Quiet e (open_attempt_phase r e).0
unfolding open_attempt_phase
open-Quiet r e = elim (Bool-cases (is_some (find_phase r.phase e.storage.phases))) [
  | inl q ↦ rw q (Quiet-refl e)
  | inr q ↦ rw q (accept-Quiet r e)
]

pub Unmoved-Quiet : (e f : Evidence) → Unmoved e f → Quiet e f
Unmoved-Quiet e f (_, _, _, _, d, q, s) = record {
  same_done = d;
  same_queue = q;
  grows = rw s (omega arith);
}

abbrev SameQueue : (e f : Evidence) → Type 0
SameQueue e f =
    (f.published_diagnostics ≡ e.published_diagnostics)
    × (f.diagnostic_publications ≡ e.diagnostic_publications)
    × (f.storage.diagnostics ≡ e.storage.diagnostics)

alike-Quiet : (e f : Evidence) → SameQueue e f → Quiet e f
alike-Quiet e f (d, q, s) = record { same_done = d; same_queue = q; grows = rw s (omega arith) }

pub open_processing-Quiet :
    (l : RoutingLedger) (e : Evidence) → Quiet e (open_processing_assets l e).0
open_processing-Quiet l e = elim (open_processing-cases l e) [
  | inl same ↦ rw same (Quiet-refl e)
  | inr same ↦ rw same (
      Quiet-trans e (with_ledger l e) (open_attempt_phase (processing_record l) (with_ledger l e)).0
        (alike-Quiet e (with_ledger l e) (refl, refl, refl))
        (open-Quiet (processing_record l) (with_ledger l e)))
]

pub plan-Quiet : (n : ℕ) (e : Evidence) → Quiet e (plan_archive_finalization n e).0
plan-Quiet n e = elim (plan-cases n e) [
  | inl same ↦ rw same (Quiet-refl e)
  | inr (_, same) ↦ rw same (
      Quiet-trans e (with_default_result e)
        (accept_phase (planned_finalization n) (with_default_result e)).0
        (alike-Quiet e (with_default_result e) (refl, refl, refl))
        (accept-Quiet (planned_finalization n) (with_default_result e)))
]

module _ {T : Type 0} (k : PhaseAttempt T)
    (keeps : (a : T) (s : Storage) → (k.retain a s).diagnostics ≡ s.diagnostics) where
  record_in-Quiet : (c : Current) (a : T) (e : Evidence) → Quiet e (record_in k c a e).0
  unfolding record_in
  record_in-Quiet elsewhere a e = Quiet-refl e
  record_in-Quiet unplanned a e = Quiet-refl e
  record_in-Quiet (at p) a e = elim (Bool-cases (leb p.total (completed p))) [
    | inl q ↦ rw q (Quiet-refl e)
    | inr q ↦
        let r = executed_record k.phase (some (advance p (k.succeeded a))) in
        rw q (
          Quiet-trans e (retain_in k a e) (accept_phase r (retain_in k a e)).0
            (alike-Quiet e (retain_in k a e) (refl, refl, keeps a e.storage))
            (accept-Quiet r (retain_in k a e)))
  ]

  pub attempt-Quiet : (a : T) (e : Evidence) → Quiet e (record_attempt_progress k a e).0
  unfolding record_attempt_progress
  attempt-Quiet a e = record_in-Quiet (current_of k.phase (latest e.storage.phases)) a e

pub record_failure-Quiet : (f : RunFailure) (e : Evidence) → Quiet e (record_failure f e)
unfolding record_failure retain_failure
record_failure-Quiet f e =
    let q = publish-Quiet f.phase (Publication.failure f) (retain_failure f e) in
    record { same_done = q.same_done; same_queue = q.same_queue; grows = q.grows }
