-- ===== src/Evidence/Planning.antt =====
-- The invariant of Run Evidence when Archive Finalization is planned or finished.
use cao.Shared.{ℕ, List, [], ◌∷◌, none, some, ◌≡◌, ◌⊎◌, inl, inr, refl, sym, arith, Bool-cases}
use cao.Run.Lifecycle.{
  extracting_archives, processing_assets, archive_finalization, RunPhaseRecord, executed_record,
  determinate,
}
use cao.Run.Results.{default_finalization_result}
use cao.Evidence.Storage.{same_phase, latest}
use cao.Evidence.Sinks.{Evidence}
use cao.Evidence.Phases.{accept_violation, validate_replacement, accept_phase, put_phase}
use cao.Evidence.Attempts.{current_of, unplanned, plan_archive_finalization}
use cao.Evidence.Transition.{Shaped}
use cao.Evidence.Account.{Accounts-other, done-put_phase, flags}
use cao.Evidence.Preserved.{IsSound, Accounted, accept-IsSound}

abbrev pub planned_finalization : ℕ → RunPhaseRecord
planned_finalization n = executed_record archive_finalization (some (determinate n 0 0))

abbrev pub with_default_result : Evidence → Evidence
with_default_result e =
    let s = e.storage in
    record e { storage = record s { archive_finalization = some default_finalization_result } }

-- What planning or finishing Archive Finalization does, when it is not refused.
pub plan-cases :
    (n : ℕ) (e : Evidence)
    → ((plan_archive_finalization n e).0 ≡ e)
      ⊎ ((current_of archive_finalization (latest e.storage.phases) ≡ unplanned)
          × (plan_archive_finalization n e
              ≡ accept_phase (planned_finalization n) (with_default_result e)))
unfolding plan_archive_finalization
plan-cases n e = ground arith

planned_accounts :
    (n : ℕ) (e : Evidence)
    → IsSound e.storage
    → Accounted
        (with_default_result e).storage
        (put_phase e.storage.phases (planned_finalization n))
planned_accounts n e i =
    let r = planned_finalization n in
    let s = e.storage in
    let (x, y) = done-put_phase archive_finalization s.phases r in
    record {
      extracting =
          Accounts-other extracting_archives (flags extracting_archives s) s.phases r refl
            i.extracting;
      processing =
          Accounts-other processing_assets (flags processing_assets s) s.phases r refl i.processing;
      finalizing = (sym x, sym y);
    }

-- Planning Archive Finalization is always accepted in the executed phase.
pub planned_accepted :
    (n : ℕ) (phases : List RunPhaseRecord)
    → current_of archive_finalization (latest phases) ≡ unplanned
    → Shaped phases
    → accept_violation phases (planned_finalization n) ≡ none
unfolding accept_violation validate_replacement
planned_accepted n [] h s = ground arith
planned_accepted n (r ∷ rs) h s = elim (Bool-cases (same_phase r.phase archive_finalization)) [
  | inr other ↦ absurd (ground arith)
  | inl same ↦ let reason : r.skip_reason ≡ none = s.0 (ground arith) in rw same (ground arith)
]

pub plan-IsSound :
    (n : ℕ) (e : Evidence) → IsSound e.storage → IsSound (plan_archive_finalization n e).0.storage
plan-IsSound n e i = elim (plan-cases n e) [
  | inl same ↦ rw same i
  | inr (free, same) ↦ rw same (
      accept-IsSound (planned_finalization n) (with_default_result e) i.ordered i.bounded i.shaped
        (λ q. refl) (planned_accepted n e.storage.phases free i.shaped) (planned_accounts n e i))
]
