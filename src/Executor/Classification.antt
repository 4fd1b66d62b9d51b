-- ===== src/Executor/Classification.antt =====
-- `classify_terminal_outcome` of crates/cao-core/src/run/executor.rs.
use cao.Shared.{
  Bool, true, false, not, ◌||◌, List, [], ◌∷◌, Option, none, some, is_some, if◌then◌else◌, any, ◌≡◌,
  ◌≢◌, ◌↔◌, ◌⊎◌, refl, arith,
}
use cao.Run.Lifecycle.{RunOutcome, RunFailure, RunFailureCode, safety_cleanup_service_failed}
use cao.Run.Results.{ArchiveFinalizationResult}
use cao.Evidence.Storage.{Storage}
use cao.Evidence.Seal.{RunEvidence, CompletedAttempt, completed_attempts}

abbrev pub is_nil {ℓ} : {A : Type ℓ} → List A → Bool
is_nil [] = true
is_nil (_ ∷ _) = false

abbrev finalization_unsafe : Option ArchiveFinalizationResult → Bool
finalization_unsafe none = false
finalization_unsafe (some r) = not r.safe_to_continue

abbrev finalization_failed : Option ArchiveFinalizationResult → Bool
finalization_failed none = false
finalization_failed (some r) = is_some r.failure

abbrev pub is_service_code : RunFailureCode → Bool
is_service_code safety_cleanup_service_failed = true
is_service_code _ = false

abbrev pub is_service_failure : RunFailure → Bool
is_service_failure f = is_service_code f.code

-- The two flags that the loop over the attempts updates.
pub record Flags : Type 0 where
  pub unsafe_work : Bool
  pub contained_failure : Bool

unfoldable pub read_attempts : List CompletedAttempt → Flags → Flags
read_attempts [] f = f
read_attempts (a ∷ r) f = read_attempts r (record {
  unsafe_work = f.unsafe_work || not a.facts.safe_to_continue;
  contained_failure = f.contained_failure || not a.facts.succeeded;
})

abbrev initial_flags : Storage → Flags
initial_flags s = record {
  unsafe_work = not (is_nil s.failures) || finalization_unsafe s.archive_finalization;
  contained_failure = finalization_failed s.archive_finalization;
}

outcome_of : Flags → Storage → RunOutcome
outcome_of f s =
    if f.unsafe_work
    then RunOutcome.failed
    else if s.cancellation_observed
    then RunOutcome.cancelled
    else if any is_service_failure s.cleanup_failures
    then RunOutcome.failed
    else if f.contained_failure || not (is_nil s.cleanup_failures)
    then RunOutcome.completed_with_failures
    else RunOutcome.succeeded

-- `classify_terminal_outcome`
unfoldable pub classify_terminal_outcome : RunEvidence → RunOutcome
unfolding outcome_of read_attempts
classify_terminal_outcome e =
    outcome_of (read_attempts (completed_attempts e.storage) (initial_flags e.storage)) e.storage

-- Work that may not be continued: a Run Failure, a finalization that forbids it, an unsafe attempt.
abbrev pub IsUnsafe : Storage → Type 0
IsUnsafe s =
    ((s.failures ≢ [])
      ⊎ ((r : ArchiveFinalizationResult) × (s.archive_finalization ≡ some r)
          × (r.safe_to_continue ≡ false)))
    ⊎ (any (λ a. not a.facts.safe_to_continue) (completed_attempts s) ≡ true)

-- Work that failed and could be continued past, or an artifact that stayed behind.
abbrev pub IsBlemished : Storage → Type 0
IsBlemished s =
    (((r : ArchiveFinalizationResult) × (s.archive_finalization ≡ some r)
        × (is_some r.failure ≡ true))
      ⊎ (any (λ a. not a.facts.succeeded) (completed_attempts s) ≡ true))
    ⊎ (s.cleanup_failures ≢ [])

read_attempts_lem :
    (xs : List CompletedAttempt) (f : Flags)
    → ((read_attempts xs f).unsafe_work
        ≡ (f.unsafe_work || any (λ a. not a.facts.safe_to_continue) xs))
      × ((read_attempts xs f).contained_failure
          ≡ (f.contained_failure || any (λ a. not a.facts.succeeded) xs))
unfolding read_attempts
read_attempts_lem [] f = ground arith
read_attempts_lem (a ∷ r) f =
    let (u, c) = read_attempts_lem r (record {
      unsafe_work = f.unsafe_work || not a.facts.safe_to_continue;
      contained_failure = f.contained_failure || not a.facts.succeeded;
    }) in
    ground arith

abbrev final_flags : Storage → Flags
final_flags s = read_attempts (completed_attempts s) (initial_flags s)

IsUnsafe-iff : (s : Storage) → ((final_flags s).unsafe_work ≡ true) ↔ IsUnsafe s
IsUnsafe-iff s =
    let (u, _) = read_attempts_lem (completed_attempts s) (initial_flags s) in rw u (ground arith)

IsBlemished-iff :
    (s : Storage)
    → (((final_flags s).contained_failure || not (is_nil s.cleanup_failures)) ≡ true)
      ↔ IsBlemished s
IsBlemished-iff s =
    let (_, c) = read_attempts_lem (completed_attempts s) (initial_flags s) in rw c (ground arith)

service_blemished :
    (fs : List RunFailure) → any is_service_failure fs ≡ true → not (is_nil fs) ≡ true
service_blemished [] h = cc
service_blemished (f ∷ fs) h = refl

abbrev chosen : Bool → Bool → Bool → Bool → RunOutcome
chosen u c b m =
    if u
    then RunOutcome.failed
    else if c
    then RunOutcome.cancelled
    else if b
    then RunOutcome.failed
    else if m
    then RunOutcome.completed_with_failures
    else RunOutcome.succeeded

chosen_iff :
    (u c b m : Bool) (U M : Type 0)
    → (u ≡ true) ↔ U
    → (m ≡ true) ↔ M
    → (b ≡ true → m ≡ true)
    → ((chosen u c b m ≡ RunOutcome.failed) ↔ (U ⊎ ((c ≡ false) × (b ≡ true))))
      × ((chosen u c b m ≡ RunOutcome.cancelled) ↔ (¬ U × (c ≡ true)))
      × ((chosen u c b m ≡ RunOutcome.completed_with_failures)
          ↔ (¬ U × (c ≡ false) × (b ≡ false) × M))
      × ((chosen u c b m ≡ RunOutcome.succeeded) ↔ (¬ U × (c ≡ false) × ¬ M))
chosen_iff u c b m U M hu hm h = ground arith

-- The Run Outcome in its order of precedence: Failed for unsafe work, then Cancelled, then Failed
-- for a failed cleanup service, then Completed With Failures, and Succeeded for the rest.
pub classify_iff :
    (e : RunEvidence)
    → let s = e.storage in
      let out = classify_terminal_outcome e in
      let broken = any is_service_failure s.cleanup_failures in
      ((out ≡ RunOutcome.failed)
        ↔ (IsUnsafe s ⊎ ((s.cancellation_observed ≡ false) × (broken ≡ true))))
      × ((out ≡ RunOutcome.cancelled) ↔ (¬ IsUnsafe s × (s.cancellation_observed ≡ true)))
      × ((out ≡ RunOutcome.completed_with_failures)
          ↔ (¬ IsUnsafe s × (s.cancellation_observed ≡ false) × (broken ≡ false) × IsBlemished s))
      × ((out ≡ RunOutcome.succeeded)
          ↔ (¬ IsUnsafe s × (s.cancellation_observed ≡ false) × ¬ IsBlemished s))
unfolding classify_terminal_outcome outcome_of
classify_iff e =
    let s = e.storage in
    chosen_iff (final_flags s).unsafe_work s.cancellation_observed
      (any is_service_failure s.cleanup_failures)
      ((final_flags s).contained_failure || not (is_nil s.cleanup_failures)) (IsUnsafe s)
      (IsBlemished s) (IsUnsafe-iff s) (IsBlemished-iff s)
      (λ h. ground (arith, service_blemished s.cleanup_failures h))
