-- ===== src/Executor/Services.antt =====
-- The services of one run and the containment boundaries around them
-- (crates/cao-core/src/run/executor.rs): `RunServices`, `RunWork`, `Stop`,
-- `collect_safety_cleanup_failures`, `load_selected_profile` and `escaped_work_detail`.
use cao.Shared.{ℕ, Bool, true, false, List, [], ◌∷◌, ◌++◌, Option, none, some, Text, codes}
use cao.Shared.Paths.{FilePath}
use cao.Run.Lifecycle.{
  preparing, safety_cleanup, RunFailure, safety_cleanup_service_failed,
  configuration_loading_failed, run_failure,
}
use cao.Run.Results.{SelectedProfile, RunPreparation}
use cao.Request.Choices.{WorkChoices}
use cao.Request.RunRequest.{RunRequest}
use cao.Evidence.Sinks.{Evidence, Sink}
use cao.Evidence.Phases.{Violation}
use cao.Evidence.Messages.{Error, evidence_invariant, other_error, to_string}
use cao.Evidence.Operations.{Operation}
use cao.Selection.Overlap.{Filesystem}

pub data Result {ℓ} (A : Type ℓ) : Type ℓ where
  ok : A → Result A
  err : Error → Result A

-- What `catch_unwind` gives: a value, or the message of a panic.
pub data Caught {ℓ} (A : Type ℓ) : Type ℓ where
  returned : A → Caught A
  panicked : Text → Caught A

pub data Stop : Type 0 where
  halted backend_cancelled : Stop

-- `ControlFlow<Stop>`
pub data Flow : Type 0 where
  go_on : Flow
  break : Stop → Flow

-- What the work phases did: the recording steps on the evidence lent to them, which has no other
-- way to change, and how they ended.
pub record WorkRun (A : Type 0) : Type 0 where
  pub operations : List Operation
  pub end : Caught (Result Flow)
  pub artifacts : A
  pub clock : ℕ

-- `RunServices` with the work, the filesystem and the Temporary Ownership registry `A` of a run;
-- `T` is the Run Toolset. A call takes the number of the next sample of the token.
pub record Services (A T : Type 0) : Type 0 where
  pub observations : Option Sink
  pub configuration : Option (RunRequest → Caught (Result (SelectedProfile × T)))
  pub filesystem : Filesystem
  pub registry : A
  pub prepare_root : FilePath → A → ℕ → Caught (Result (Option RunFailure)) × A × ℕ
  pub clean_artifacts : A → Caught (Result (List RunFailure))
  pub safety_cleanup : Caught (Result (List RunFailure))
  pub run_work : RunPreparation → WorkChoices → T → Evidence → A → ℕ → WorkRun A

abbrev service_failure : Text → List RunFailure
service_failure detail = run_failure safety_cleanup_service_failed safety_cleanup detail ∷ []

-- `collect_safety_cleanup_failures`
unfoldable pub collect_safety_cleanup_failures : Caught (Result (List RunFailure)) → List RunFailure
unfolding to_string
collect_safety_cleanup_failures (returned (ok failures)) = failures
collect_safety_cleanup_failures (returned (err e)) = service_failure (to_string e)
collect_safety_cleanup_failures (panicked m) =
    service_failure (codes "The cleanup service panicked: " ++ m)

pub data Loading (T : Type 0) : Type 0 where
  loaded : SelectedProfile → T → Loading T
  not_loaded : RunFailure → Loading T

abbrev loading_failure : Text → RunFailure
loading_failure detail = run_failure configuration_loading_failed preparing detail

module _ {T : Type 0} where
  unfoldable pub of_provider : Caught (Result (SelectedProfile × T)) → Loading T
  unfolding to_string
  of_provider (returned (ok (profile, toolset))) = loaded profile toolset
  of_provider (returned (err e)) = not_loaded (loading_failure (to_string e))
  of_provider (panicked m) =
      not_loaded (loading_failure (codes "The configuration provider panicked: " ++ m))

  -- `load_selected_profile`
  unfoldable pub load_selected_profile :
      RunRequest → Option (RunRequest → Caught (Result (SelectedProfile × T))) → Loading T
  unfolding of_provider
  load_selected_profile request none =
      not_loaded (loading_failure (codes "No run configuration provider is available"))
  load_selected_profile request (some load) = of_provider (load request)

-- What `escaped_work_detail` finds in the end of the work.
pub data Escape : Type 0 where
  no_escape : Escape
  invariant_noted : Violation → Escape
  escaped : Text → Escape

-- `escaped_work_detail`
unfoldable pub escaped_work_detail : Caught (Result Flow) → Escape
unfolding to_string
escaped_work_detail (returned (ok _)) = no_escape
escaped_work_detail (returned (err (evidence_invariant v))) = invariant_noted v
escaped_work_detail (returned (err (other_error t))) = escaped (to_string (other_error t))
escaped_work_detail (panicked m) = escaped (codes "The run's work escaped with a panic: " ++ m)

-- `matches!(outcome, Ok(Ok(ControlFlow::Break(Stop::BackendCancelled))))`
abbrev pub is_backend_cancelled : Caught (Result Flow) → Bool
is_backend_cancelled (returned (ok (break backend_cancelled))) = true
is_backend_cancelled _ = false
