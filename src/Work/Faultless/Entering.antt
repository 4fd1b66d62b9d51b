-- ===== src/Work/Faultless/Entering.antt =====
-- The recording steps of `traverse` of crates/cao-core/src/run/executor.rs outside the work.
use cao.Shared.{
  ◌<◌, ◌≤◌, ◌+◌, ℕ, List, [], ◌∷◌, Option, none, ◌≡◌, refl, ap, ◌∙◌, arith, inl, inr, Bool-cases,
}
use cao.Run.Lifecycle.{
  RunPhase, preparing, RunPhaseRecord, RunDiagnostic, RunFailure, phase_index, executed_record,
  skipped_record, no_requested_work,
}
use cao.Evidence.Storage.{Storage}
use cao.Evidence.Sinks.{Evidence, Sink, new_evidence, record_failure, retain_diagnostic}
use cao.Evidence.Phases.{accept_violation, put_phase, record_phase}
use cao.Evidence.Operations.{perform, keep_diagnostic, publish_pending, record_diagnostic}
use cao.Evidence.Published.{pending-Undiagnosed}
use cao.Evidence.Standing.{accepted}
use cao.Evidence.Accepted.{keep_diagnostic-Accepts, publish_pending-Accepts}
use cao.Evidence.Uncleaned.{IsUncleaned, Standing-IsUncleaned, publish_failure-Accepts}
use cao.Selection.Overlap.{Token}
use cao.Executor.Traverse.{Machine, note, enter, tick, skip_phases}
use cao.Work.Unrefused.Discovery.{IsPrepared}

-- Preparing is executed, and no preparation is recorded yet.
abbrev pub IsFresh : Storage → Type 0
IsFresh s = IsPrepared s × (s.preparation ≡ none)

-- The current phase comes before a place in the order of the phases.
abbrev pub IsBefore : ℕ → Storage → Type 0
IsBefore n s =
    (r : RunPhaseRecord) × (rs : List RunPhaseRecord) × (s.phases ≡ r ∷ rs)
    × (phase_index r.phase < n)

-- No violation has been noted.
abbrev pub At : {A : Type 0} → (Storage → Type 0) → Machine A → Type 0
At P m = (m.invariant ≡ none) × P m.evidence.storage

pub IsFresh-IsUncleaned : (s : Storage) → IsFresh s → IsUncleaned s
IsFresh-IsUncleaned s (h, p) = Standing-IsUncleaned refl h

pub IsBefore-IsUncleaned : (n : ℕ) (s : Storage) → n ≤ 6 → IsBefore n s → IsUncleaned s
IsBefore-IsUncleaned n s h (r, rs, shape, low) = rw shape (ground arith)

pub record_diagnostic-IsFresh :
    (d : RunDiagnostic) (e : Evidence) → IsFresh e.storage → IsFresh (record_diagnostic d e).storage
unfolding record_diagnostic
record_diagnostic-IsFresh d e (h, p) =
    let kept = (perform (keep_diagnostic d) e).0 in
    let after = (keep_diagnostic-Accepts e h d).1 in
    let unset : kept.storage.preparation ≡ none = unfold perform retain_diagnostic in p in
    let done : IsFresh (perform publish_pending kept).0.storage = (
      (publish_pending-Accepts kept after).1,
      ap (λ (s : Storage). s.preparation) (pending-Undiagnosed kept) ∙ unset,
    ) in
    unfold perform in done

pub failure-IsUncleaned :
    (f : RunFailure) (e : Evidence)
    → IsUncleaned e.storage
    → IsUncleaned (record_failure f e).storage
failure-IsUncleaned f e h = unfold perform in (publish_failure-Accepts f e h).1

skipped_fits :
    (n : ℕ) (q : RunPhase) (e : Evidence)
    → n ≤ phase_index q
    → IsBefore n e.storage
    → accept_violation e.storage.phases (skipped_record q no_requested_work) ≡ none
unfolding accept_violation
skipped_fits n q e h (r, rs, shape, low) = rw shape (ground arith)

skipped_put :
    (n : ℕ) (q : RunPhase) (s : Storage)
    → n ≤ phase_index q
    → IsBefore n s
    → put_phase s.phases (skipped_record q no_requested_work)
      ≡ skipped_record q no_requested_work ∷ s.phases
unfolding put_phase
skipped_put n q s h (r, rs, shape, low) = rw shape (ground arith)

-- The phases come in order, from a place on.
abbrev pub Climbs : ℕ → List RunPhase → Type 0
Climbs n [] = n ≤ 6
Climbs n (q ∷ qs) = (n ≤ phase_index q) × (n ≤ 6) × Climbs (phase_index q + 1) qs

module _ {A : Type 0} where
  pub enter_preparing :
      (sink : Option Sink) (m : Machine A)
      → m.evidence ≡ new_evidence sink
      → m.invariant ≡ none
      → At IsFresh (enter (executed_record preparing none) m)
  unfolding note record_phase
  enter_preparing sink m fresh calm =
      let r = executed_record preparing none in
      let (fine, same) = accepted r (new_evidence sink) (unfold accept_violation in refl) in
      rw (fresh, calm)
        (
          fine,
          rw same (
            record { rest = []; shape = unfold put_phase in refl; below = tt; once = refl },
            refl,
          ),
        )

  enter_skipped :
      (n : ℕ) (q : RunPhase) (m : Machine A)
      → n ≤ phase_index q
      → At (IsBefore n) m
      → At (IsBefore (phase_index q + 1)) (enter (skipped_record q no_requested_work) m)
  unfolding note record_phase
  enter_skipped n q m h (calm, before) =
      let r = skipped_record q no_requested_work in
      let (fine, same) = accepted r m.evidence (skipped_fits n q m.evidence h before) in
      rw calm (
        fine,
        rw same (
          r,
          m.evidence.storage.phases,
          skipped_put n q m.evidence.storage h before,
          omega arith,
        ),
      )

  pub skip_phases-IsUncleaned :
      (stop : Token) (n : ℕ) (qs : List RunPhase) (m : Machine A)
      → Climbs n qs
      → At (IsBefore n) m
      → At IsUncleaned (skip_phases stop qs m)
  unfolding skip_phases
  skip_phases-IsUncleaned stop n [] m low (calm, before) =
      (calm, IsBefore-IsUncleaned n m.evidence.storage low before)
  skip_phases-IsUncleaned stop n (q ∷ qs) m (here, low, later) (calm, before) =
      elim (Bool-cases (stop m.clock)) [
        | inl c ↦ rw c (calm, IsBefore-IsUncleaned n m.evidence.storage low before)
        | inr c ↦ rw c (
            skip_phases-IsUncleaned stop (phase_index q + 1) qs
              (enter (skipped_record q no_requested_work) (tick m)) later
              (enter_skipped n q (tick m) here (calm, before)))
      ]
