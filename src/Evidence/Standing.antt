-- ===== src/Evidence/Standing.antt =====
-- Where a run stands in its phases, and the steps of crates/cao-core/src/run/evidence.rs that are
-- accepted there.
use cao.Shared.{
  ◌<◌, Bool, false, List, [], ◌∷◌, Option, none, ◌≡◌, inl, inr, refl, arith, is_some, All,
}
use cao.Run.Lifecycle.{
  RunPhase, phase_index, RunPhaseStatus, RunPhaseRecord, RunProgress, RunFailure,
}
use cao.Evidence.Storage.{Storage, find_phase}
use cao.Evidence.Sinks.{Evidence}
use cao.Evidence.Phases.{
  exceeds, has_completed, accept_violation, accept_phase, put_phase, open_attempt_phase,
}
use cao.Evidence.Transition.{accept_phase_lem}

-- What decides whether a fact that is recorded once is accepted.
pub record OnceFacts : Type 0 where
  pub collisions : Bool
  pub skipped_counts : Bool
  pub nested_count : Bool
  pub failures : List RunFailure
  pub routed : Bool
  pub finalized : Bool
  pub based : Bool

abbrev pub once_facts : Storage → OnceFacts
once_facts s = record {
  collisions = s.archive_collisions_recorded;
  skipped_counts = s.skipped_archive_counts_recorded;
  nested_count = s.nested_archive_count_recorded;
  failures = s.failures;
  routed = is_some s.routing_ledger;
  finalized = s.archive_finalization_completed;
  based = is_some s.planned_archive_work.output_basis;
}

abbrev pub entered : RunPhase → RunPhaseStatus → Option RunProgress → RunPhaseRecord
entered p status progress = record {
  phase = p;
  status = status;
  skip_reason = none;
  progress = progress;
}

abbrev pub Below : RunPhase → List RunPhaseRecord → Type 0
Below p = All (λ r. phase_index r.phase < phase_index p)

-- The current phase with its status and progress, and the facts that are recorded.
pub record Standing (p : RunPhase) (status : RunPhaseStatus) (progress : Option RunProgress)
    (facts : OnceFacts) (s : Storage) : Type 0 where
  pub rest : List RunPhaseRecord
  pub shape : s.phases ≡ entered p status progress ∷ rest
  pub below : Below p rest
  pub once : once_facts s ≡ facts

Below-rises :
    (p q : RunPhase) (rs : List RunPhaseRecord)
    → phase_index p < phase_index q
    → Below p rs
    → Below q rs
Below-rises p q [] h b = tt
Below-rises p q (r ∷ rs) h b = (omega arith, Below-rises p q rs h b.1)

pub find_phase-none :
    (p : RunPhase) (rs : List RunPhaseRecord) → Below p rs → find_phase p rs ≡ none
unfolding find_phase
find_phase-none p [] b = refl
find_phase-none p (r ∷ rs) b = ground (arith, find_phase-none p rs b.1)

pub accepted :
    (r : RunPhaseRecord) (e : Evidence)
    → accept_violation e.storage.phases r ≡ none
    → let s = e.storage in
      let e' = (accept_phase r e).0 in
      ((accept_phase r e).1 ≡ none)
      × (e'.storage
          ≡ record s { phases = put_phase s.phases r; diagnostics = e'.storage.diagnostics })
accepted r e h = elim (accept_phase_lem r e) [
  | inl (fine, _, same) ↦ (fine, same)
  | inr (refused, _) ↦ absurd (unfold accept_phase in ground arith)
]

module _ {p : RunPhase} {status : RunPhaseStatus} {progress : Option RunProgress}
    {facts : OnceFacts} (e : Evidence) (h : Standing p status progress facts e.storage)
    (q : RunPhase) (later : phase_index p < phase_index q) (status' : RunPhaseStatus)
    (progress' : Option RunProgress) (small : exceeds progress' ≡ false)
    (fresh : has_completed progress' ≡ false) where
  enters : accept_violation e.storage.phases (entered q status' progress') ≡ none
  unfolding accept_violation
  enters = rw h.shape (ground arith)

  put_later :
      put_phase e.storage.phases (entered q status' progress')
      ≡ entered q status' progress' ∷ entered p status progress ∷ h.rest
  unfolding put_phase
  put_later = rw h.shape (ground arith)

  -- A later phase can be entered.
  pub accept_phase-enters :
      ((accept_phase (entered q status' progress') e).1 ≡ none)
      × Standing q status' progress' facts (accept_phase (entered q status' progress') e).0.storage
  accept_phase-enters =
      let (fine, same) = accepted (entered q status' progress') e enters in
      (
        fine,
        rw same (record {
          rest = entered p status progress ∷ h.rest;
          shape = put_later;
          below = (later, Below-rises p q h.rest later h.below);
          once = h.once;
        }),
      )

  -- So can a later attempt-bearing phase through its handle.
  pub open_attempt_phase-enters :
      ((open_attempt_phase (entered q status' progress') e).1 ≡ none)
      × Standing q status' progress' facts
          (open_attempt_phase (entered q status' progress') e).0.storage
  unfolding open_attempt_phase
  open_attempt_phase-enters =
      let absent : find_phase q e.storage.phases ≡ none = rw h.shape (
        find_phase-none q (entered p status progress ∷ h.rest)
          (later, Below-rises p q h.rest later h.below)) in
      rw absent accept_phase-enters
