-- ===== src/Executor/Preparing.antt =====
-- `prepare_run` of crates/cao-core/src/run/executor.rs.
use cao.Shared.{◌+◌, if◌then◌else◌, List, codes}
use cao.Shared.Paths.{FilePath}
use cao.Routing.Policy.{
  RoutingPolicy, CompileResult, compiled, conflicts, for_work, PolicyValidationError,
}
use cao.Run.Lifecycle.{preparing, RunFailure, policy_conflict, run_failure}
use cao.Run.Results.{SelectedProfile, RunPreparation, compile_policy}
use cao.Request.RunRequest.{RunRequest}
use cao.Selection.Overlap.{Token, Lent, Resolution, resolved, unresolved}
use cao.Selection.Resolve.{resolve_mod_roots}
use cao.Executor.Services.{Services, Loading, loaded, not_loaded, load_selected_profile}

pub data Prepared (T : Type 0) : Type 0 where
  prepared : RunPreparation → T → Prepared T
  cancelled_early : Prepared T
  not_prepared : RunFailure → Prepared T

abbrev pub conflict_failure : List PolicyValidationError → RunFailure
conflict_failure cs =
    record (run_failure policy_conflict preparing
      (codes "The loaded profile conflicts with the requested Routing Policy")) {
        policy_conflicts = cs;
      }

-- `RunPreparation::new`
abbrev pub new_preparation :
    List FilePath → SelectedProfile → RoutingPolicy → RunRequest → RunPreparation
new_preparation roots profile policy request = record {
  mod_roots = roots;
  selected_profile = profile;
  policy = policy;
  archive_precedence = request.archive_precedence;
}

module _ {A T : Type 0} (services : Services A T) (stop : Token) (request : RunRequest) where
  unfoldable pub after_roots :
      SelectedProfile → T → RoutingPolicy → Resolution × Lent → Prepared T × Lent
  after_roots profile toolset policy (unresolved f, l) = (not_prepared f, l)
  after_roots profile toolset policy (resolved roots, l) = (
    if stop l.clock
        then cancelled_early
        else prepared (new_preparation roots profile policy request) toolset,
    record l { clock = l.clock + 1 },
  )

  unfoldable pub after_policy : SelectedProfile → T → CompileResult → Lent → Prepared T × Lent
  unfolding after_roots
  after_policy profile toolset (conflicts cs) l = (not_prepared (conflict_failure cs), l)
  after_policy profile toolset (compiled policy) l =
      after_roots profile toolset policy
        (resolve_mod_roots services.filesystem stop request.mod_selection profile l)

  unfoldable pub after_loading : Loading T → Lent → Prepared T × Lent
  unfolding after_policy
  after_loading (not_loaded f) l = (not_prepared f, l)
  after_loading (loaded profile toolset) l =
      let next = record l { clock = l.clock + 1 } in
      let go_on =
        after_policy profile toolset
          (compile_policy profile (for_work request.execution_mode request.requested_work)) next in
      if stop l.clock then (cancelled_early, next) else go_on

  -- `prepare_run`
  unfoldable pub prepare_run : Lent → Prepared T × Lent
  unfolding after_loading
  prepare_run l = after_loading (load_selected_profile request services.configuration) l
