-- ===== src/Executor/Cleanup.antt =====
-- What Safety Cleanup leaves in the evidence (crates/cao-core/src/run/executor.rs).
use cao.Shared.{
  Bool, true, false, ◌&&◌, ◌||◌, List, [], ◌∷◌, ◌++◌, append-nil, append_assoc, filter, ◌≡◌, inl,
  inr, refl, sym, ap, ◌∙◌, arith, Bool-cases, if◌then◌else◌,
}
use cao.Run.Lifecycle.{safety_cleanup, RunFailure}
use cao.Evidence.Storage.{Storage, same_phase}
use cao.Evidence.Sinks.{Evidence}
use cao.Evidence.Phases.{record_phase}
use cao.Evidence.Facts.{
  is_cleanup_code, record_safety_cleanup_failure, record_cancellation_observation,
}
use cao.Evidence.Transition.{accept_phase_lem}
use cao.Selection.Overlap.{Token}
use cao.Executor.Services.{Services, collect_safety_cleanup_failures}
use cao.Executor.Traverse.{Machine, note, enter}
use cao.Executor.Execute.{note_failures, observe_cancellation, clean_up}
use cao.Executor.Ending.{AtCleanup, cleanup_record, enter-AtCleanup, record_failure-AtCleanup}

-- A failure of Safety Cleanup with one of its two codes.
abbrev pub is_lawful : RunFailure → Bool
is_lawful f = same_phase f.phase safety_cleanup && is_cleanup_code f.code

-- What of the storage cleaning up is about.
abbrev cleanups : Evidence → List RunFailure
cleanups e = e.storage.safety_cleanup_failures

record_failure-cleanups :
    (f : RunFailure) (e : Evidence)
    → AtCleanup e
    → (cleanups (record_safety_cleanup_failure f e).0
        ≡ cleanups e ++ (if is_lawful f then f ∷ [] else []))
      × ((record_safety_cleanup_failure f e).0.storage.cancellation_observed
          ≡ e.storage.cancellation_observed)
unfolding record_safety_cleanup_failure
record_failure-cleanups f e h = elim (Bool-cases (is_lawful f)) [
  | inl q ↦ rw q (ground arith, ground arith)
  | inr q ↦ rw q (ground arith ∙ sym (append-nil (cleanups e)), ground arith)
]

-- One failure more in front of the kept ones.
filter-cons-append :
    (f : RunFailure) (fs xs : List RunFailure)
    → (xs ++ (if is_lawful f then f ∷ [] else [])) ++ filter is_lawful fs
      ≡ xs ++ filter is_lawful (f ∷ fs)
filter-cons-append f fs xs = elim (Bool-cases (is_lawful f)) [
  | inl q ↦ rw q (append_assoc xs (f ∷ []) (filter is_lawful fs))
  | inr q ↦ rw (q, append-nil xs) refl
]

module _ {A : Type 0} where
  note_failures_lem :
      (fs : List RunFailure) (m : Machine A)
      → AtCleanup m.evidence
      → let n = note_failures fs m in
        (cleanups n.evidence ≡ cleanups m.evidence ++ filter is_lawful fs)
        × (n.evidence.storage.cancellation_observed ≡ m.evidence.storage.cancellation_observed)
        × (n.clock ≡ m.clock)
  unfolding note_failures note
  note_failures_lem [] m h = (sym (append-nil (cleanups m.evidence)), refl, refl)
  note_failures_lem (f ∷ fs) m h =
      let s = record_safety_cleanup_failure f m.evidence in
      let (kept, same) = record_failure-cleanups f m.evidence h in
      let (c, o, k) = note_failures_lem fs (note s m) (record_failure-AtCleanup f m.evidence h) in
      (
        c
            ∙ ap (λ xs. xs ++ filter is_lawful fs) kept
            ∙ filter-cons-append f fs (cleanups m.evidence),
        o ∙ same,
        k,
      )

  enter_lem :
      (m : Machine A)
      → let n = enter cleanup_record m in
        (cleanups n.evidence ≡ cleanups m.evidence)
        × (n.evidence.storage.cancellation_observed ≡ m.evidence.storage.cancellation_observed)
  unfolding note record_phase
  enter_lem m = elim (accept_phase_lem cleanup_record m.evidence) [
    | inl (_, _, same) ↦ (
      ap (λ (s : Storage). s.safety_cleanup_failures) same,
      ap (λ (s : Storage). s.cancellation_observed) same,
    )
    | inr (_, same) ↦
        (ap cleanups same, ap (λ (e : Evidence). e.storage.cancellation_observed) same)
  ]

  observe_lem :
      (b : Bool) (m : Machine A)
      → let n = observe_cancellation b m in
        (cleanups n.evidence ≡ cleanups m.evidence)
        × (n.evidence.storage.cancellation_observed
            ≡ (b || m.evidence.storage.cancellation_observed))
  unfolding record_cancellation_observation
  observe_lem true m = (refl, refl)
  observe_lem false m = (refl, refl)

-- Safety Cleanup keeps, behind the failures that were there and in order, every failure of the
-- registry's pass and then of the service's pass that has its phase and one of its codes; and
-- cancellation is observed exactly if it was before, a backend reported it or the token shows it.
pub clean_up_lem :
    {A T : Type 0} (services : Services A T) (stop : Token) (backend_cancelled : Bool)
    (m : Machine A)
    → let n = clean_up services stop backend_cancelled m in
      (n.evidence.storage.safety_cleanup_failures
        ≡ m.evidence.storage.safety_cleanup_failures
          ++ filter is_lawful (
              collect_safety_cleanup_failures (services.clean_artifacts m.artifacts)
              ++ collect_safety_cleanup_failures services.safety_cleanup))
      × (n.evidence.storage.cancellation_observed
          ≡ ((stop m.clock || backend_cancelled) || m.evidence.storage.cancellation_observed))
unfolding clean_up note
clean_up_lem services stop b m =
    let entered = enter cleanup_record m in
    let failures =
      collect_safety_cleanup_failures (services.clean_artifacts entered.artifacts)
      ++ collect_safety_cleanup_failures services.safety_cleanup in
    let done = note_failures failures entered in
    let (kept, same) = enter_lem m in
    let (c, o, k) = note_failures_lem failures entered (enter-AtCleanup m.evidence) in
    let (x, y) = observe_lem (stop done.clock || b) done in
    (
      x ∙ c ∙ ap (λ xs. xs ++ filter is_lawful failures) kept,
      y
          ∙ ap (λ z. (stop done.clock || b) || z) (o ∙ same)
          ∙ ap (λ z. (stop z || b) || m.evidence.storage.cancellation_observed) k,
    )
