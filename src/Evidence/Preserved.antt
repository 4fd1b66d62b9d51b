-- ===== src/Evidence/Preserved.antt =====
-- The invariant of Run Evidence, and the steps that enter a phase.
use cao.Shared.{
  Bool, false, List, none, some, ◌≡◌, ◌⊎◌, inl, inr, refl, arith, Bool-cases, Option-cases, is_some,
  length,
}
use cao.Routing.Route.{RoutingLedger}
use cao.Run.Lifecycle.{
  RunPhase, extracting_archives, processing_assets, archive_finalization, executed, RunPhaseRecord,
  executed_record, determinate,
}
use cao.Evidence.Storage.{Storage, same_phase, find_phase}
use cao.Evidence.Sinks.{Evidence}
use cao.Evidence.Phases.{
  Violation, accept_violation, accept_phase, put_phase, has_completed, is_attempt_bearing,
  record_phase, open_attempt_phase, open_processing_assets,
}
use cao.Evidence.Transition.{
  Descends, Bounded, same_phase_eq, put_phase-Descends, put_phase-Bounded, put_phase-Shaped,
  IsShaped, Shaped, accept_phase_lem,
}
use cao.Evidence.Account.{
  flags, Accounts, Accounts-other, Accounts-unplanned, done, lost, done-put_phase,
  done_of_find_phase,
}

-- The phases follow canonical order from a phase that a run may start with, no progress passes its
-- total, and the progress of each attempt-bearing phase counts its retained attempts.
pub record IsSound (s : Storage) : Type 0 where
  pub ordered : Descends s.phases
  pub bounded : Bounded s.phases
  pub shaped : Shaped s.phases
  pub extracting : Accounts extracting_archives (flags extracting_archives s) s.phases
  pub processing : Accounts processing_assets (flags processing_assets s) s.phases
  pub finalizing : Accounts archive_finalization (flags archive_finalization s) s.phases

-- The three accounts once a record is put into the phases.
pub record Accounted (s : Storage) (phases : List RunPhaseRecord) : Type 0 where
  pub extracting : Accounts extracting_archives (flags extracting_archives s) phases
  pub processing : Accounts processing_assets (flags processing_assets s) phases
  pub finalizing : Accounts archive_finalization (flags archive_finalization s) phases

pub accept-IsSound :
    (r : RunPhaseRecord) (e : Evidence)
    → Descends e.storage.phases
    → Bounded e.storage.phases
    → Shaped e.storage.phases
    → IsShaped r
    → accept_violation e.storage.phases r ≡ none
    → Accounted e.storage (put_phase e.storage.phases r)
    → IsSound (accept_phase r e).0.storage
accept-IsSound r e d b sh q h a = elim (accept_phase_lem r e) [
  | inl (_, _, same) ↦ rw same (record {
    ordered = put_phase-Descends e.storage.phases r h d;
    bounded = put_phase-Bounded e.storage.phases r h b;
    shaped = put_phase-Shaped e.storage.phases r q sh;
    extracting = a.extracting;
    processing = a.processing;
    finalizing = a.finalizing;
  })
  | inr (refused, _) ↦ absurd (unfold accept_phase in ground arith)
]

pub accept_refused :
    (r : RunPhaseRecord) (e : Evidence) (v : Violation)
    → accept_violation e.storage.phases r ≡ some v
    → accept_phase r e ≡ (e, some v)
unfolding accept_phase
accept_refused r e v h = rw h

-- A record that leaves each account as it is.
accept-IsSound_same :
    (r : RunPhaseRecord) (e : Evidence)
    → IsShaped r
    → IsSound e.storage
    → (accept_violation e.storage.phases r ≡ none
        → Accounted e.storage (put_phase e.storage.phases r))
    → IsSound (accept_phase r e).0.storage
accept-IsSound_same r e q s f = elim (Option-cases (accept_violation e.storage.phases r)) [
  | inl h ↦ accept-IsSound r e s.ordered s.bounded s.shaped q h (f h)
  | inr (v, h) ↦ rw (accept_refused r e v h) s
]

module _ (s : Storage) (r : RunPhaseRecord) (i : IsSound s) where
  Accounted-unplanned :
      r.progress ≡ none → accept_violation s.phases r ≡ none → Accounted s (put_phase s.phases r)
  Accounted-unplanned e h = record {
    extracting =
        Accounts-unplanned extracting_archives (flags extracting_archives s) s.phases r h e
          i.ordered i.extracting;
    processing =
        Accounts-unplanned processing_assets (flags processing_assets s) s.phases r h e i.ordered
          i.processing;
    finalizing =
        Accounts-unplanned archive_finalization (flags archive_finalization s) s.phases r h e
          i.ordered i.finalizing;
  }

  Accounted-other : is_attempt_bearing r.phase ≡ false → Accounted s (put_phase s.phases r)
  Accounted-other h = record {
    extracting =
        Accounts-other extracting_archives (flags extracting_archives s) s.phases r (ground arith)
          i.extracting;
    processing =
        Accounts-other processing_assets (flags processing_assets s) s.phases r (ground arith)
          i.processing;
    finalizing =
        Accounts-other archive_finalization (flags archive_finalization s) s.phases r (ground arith)
          i.finalizing;
  }

pub record_phase-cases :
    (r : RunPhaseRecord) (e : Evidence)
    → ((record_phase r e ≡ accept_phase r e)
        × (r.status ≡ executed → is_attempt_bearing r.phase ≡ false))
      ⊎ ((record_phase r e).0 ≡ e)
unfolding record_phase
record_phase-cases r e = ground arith

pub record_phase-IsSound :
    (r : RunPhaseRecord) (e : Evidence)
    → IsShaped r
    → (r.status ≡ executed) ⊎ (r.progress ≡ none)
    → IsSound e.storage
    → IsSound (record_phase r e).0.storage
record_phase-IsSound r e q shape s = elim (record_phase-cases r e) [
  | inr same ↦ rw same s
  | inl (same, plain) ↦ rw same (elim shape [
    | inr free ↦ accept-IsSound_same r e q s (Accounted-unplanned e.storage r s free)
    | inl runs ↦ accept-IsSound_same r e q s (λ h. Accounted-other e.storage r s (plain runs))
  ])
]

-- A record that starts an attempt-bearing phase from nothing.
Accounted-opened :
    (s : Storage) (r : RunPhaseRecord)
    → IsSound s
    → is_some (find_phase r.phase s.phases) ≡ false
    → has_completed r.progress ≡ false
    → Accounted s (put_phase s.phases r)
Accounted-opened s r i h c = record {
  extracting = at extracting_archives (flags extracting_archives s) i.extracting;
  processing = at processing_assets (flags processing_assets s) i.processing;
  finalizing = at archive_finalization (flags archive_finalization s) i.finalizing;
}
  where
    at :
        (p : RunPhase) (fs : List Bool)
        → Accounts p fs s.phases
        → Accounts p fs (put_phase s.phases r)
    at p fs a = elim (Bool-cases (same_phase r.phase p)) [
      | inr other ↦ Accounts-other p fs s.phases r other a
      | inl same ↦
          let (x, y) = done-put_phase p s.phases r in
          let (u, v) = done_of_find_phase r.phase s.phases h in
          let eq = same_phase_eq r.phase p same in
          let u' : done p s.phases ≡ 0 = rw eq at u in
          let v' : lost p s.phases ≡ 0 = rw eq at v in ground arith
    ]

pub open_attempt_phase-IsSound :
    (r : RunPhaseRecord) (e : Evidence)
    → IsShaped r
    → has_completed r.progress ≡ false
    → IsSound e.storage
    → IsSound (open_attempt_phase r e).0.storage
unfolding open_attempt_phase
open_attempt_phase-IsSound r e q c s =
    elim (Bool-cases (is_some (find_phase r.phase e.storage.phases))) [
      | inl old ↦ rw old s
      | inr fresh ↦
          rw fresh (accept-IsSound_same r e q s (λ h. Accounted-opened e.storage r s fresh c))
    ]

abbrev pub with_ledger : RoutingLedger → Evidence → Evidence
with_ledger l e = let s = e.storage in record e { storage = record s { routing_ledger = some l } }

abbrev pub processing_record : RoutingLedger → RunPhaseRecord
processing_record l =
    executed_record processing_assets (some (determinate (length l.routed_assets) 0 0))

pub open_processing-cases :
    (l : RoutingLedger) (e : Evidence)
    → ((open_processing_assets l e).0 ≡ e)
      ⊎ (open_processing_assets l e ≡ open_attempt_phase (processing_record l) (with_ledger l e))
unfolding open_processing_assets
open_processing-cases l e = ground arith

pub open_processing-IsSound :
    (l : RoutingLedger) (e : Evidence)
    → IsSound e.storage
    → IsSound (open_processing_assets l e).0.storage
open_processing-IsSound l e s = elim (open_processing-cases l e) [
  | inl same ↦ rw same s
  | inr same ↦ rw same (
      open_attempt_phase-IsSound (processing_record l) (with_ledger l e) (λ h. refl) refl
        (record {
          ordered = s.ordered;
          bounded = s.bounded;
          shaped = s.shaped;
          extracting = s.extracting;
          processing = s.processing;
          finalizing = s.finalizing;
        }))
]
