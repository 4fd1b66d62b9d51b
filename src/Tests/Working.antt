-- ===== src/Tests/Working.antt =====
-- A run over one mod whose folder holds a texture, a mesh and an Archive.
use cao.Shared.{ℕ, ◌+◌, true, false, List, [], ◌∷◌, none, some, codes, refl, arith, if◌then◌else◌}
use cao.Shared.Paths.{FilePath, normal, root_dir}
use cao.Routing.Kinds.{
  RequestedWork, ExecutionMode, all_capabilities, OptimizerTarget, loose_asset_processing, native,
}
use cao.Routing.Policy.{RoutingPolicyRequest, from_definition, for_work}
use cao.Routing.Compilation.{policy_of}
use cao.Routing.Route.{RoutedAsset, AssetIdentity, RoutingLedger}
use cao.Request.Choices.{default_choices}
use cao.Request.RunRequest.{RunRequest, single_mod_root, run_request, deterministic_discovery}
use cao.Run.Attempt.{success, committed}
use cao.Run.Lifecycle.{preparing}
use cao.Run.Results.{RunPreparation, SelectedProfile}
use cao.Evidence.Sinks.{Evidence, new_evidence, publish}
use cao.Evidence.Phases.{record_phase, accept_phase}
use cao.Evidence.Operations.{perform_all, executed_phase, perform}
use cao.Evidence.Uncleaned.{IsUncleaned}
use cao.Executor.Services.{Services, ok, returned, collect_safety_cleanup_failures}
use cao.Executor.Ending.{EndsWell}
use cao.Selection.Overlap.{Token, Filesystem, answer, is_directory}
use cao.Finalization.Plan.{Seams, planning_cancelled, fits, maintained}
use cao.Work.Toolset.{
  Toolset, Directory, listed, end, entry, direct, file, attempted, not_requested, Preflight,
}
use cao.Work.Flow.{Leaves}
use cao.Work.Worker.{Worker}
use cao.Work.Extract.{is_dry_run}
use cao.Work.Process.{offered, process_assets}
use cao.Work.Run.{work_run, hired, run_work_phases}
use cao.Work.Attempts.{process_assets_lem}
use cao.Work.Followed.{asset_attempts, Completed, Interrupted}
use cao.Work.DryRun.Frames.{IsAsBefore}
use cao.Work.DryRun.Assets.{SparesDryAssets}
use cao.Work.DryRun.Unchanging.{run_work_phases-IsAsBefore}
use cao.Work.Unrefused.Discovery.{IsPrepared}
use cao.Work.Unrefused.Whole.{EndsWithoutRefusal, work_run-EndsWithoutRefusal}
use cao.Work.Faultless.Whole.{execute_with_work-EndsWell}

abbrev pub mod_root : FilePath
mod_root = root_dir ∷ normal (codes "mod") ∷ []

abbrev folder : Directory
folder = listed (
    entry (codes "stone.dds") direct file
      (entry (codes "rock.nif") direct file (entry (codes "mod.bsa") direct file end)))

abbrev seams : Seams ℕ ℕ
seams = record {
  str_to_lowercase = λ t. t;
  shortage_text = λ s. [];
  plan_finalization = λ roots choices exclusions w n. (planning_cancelled, n);
  check_before_creation = λ d w. fits;
  attempt_output = λ p i d a w n. record {
    attempt =
        returned
          (record { archive_path = mod_root; mod_root = mod_root; outcome = success committed });
    mutations = [];
    artifacts = a;
    world = w;
    clock = n;
  };
  recheck_at = λ d p w. none;
  maintain_existing_loading_plugins = λ p r acc a w n. record {
    maintenance = maintained true;
    account = acc;
    artifacts = a;
    world = w;
    clock = n;
  };
  delete_empty_directories = λ p w. (0, w);
}

-- The state of the disk is the number of attempts made on it.
abbrev pub tools : Toolset ℕ ℕ
tools = record {
  tree = λ w p. folder;
  to_string_lossy = λ t. t;
  os_length = λ p. 1;
  to_lowercase = λ c. c ∷ [];
  weakly_canonical = λ w p. some p;
  preflight_archives = λ roots precedence w n. (Preflight.planned [] [] none, n);
  extract_archive = λ plan cleanup a w. (
    record {
      archive_path = plan.archive_path;
      mod_root = plan.mod_root;
      outcome = success committed;
    },
    a,
    w + 1,
  );
  attempt = λ asset root a w n. record {
    diagnostics = [];
    end_of_attempt = returned (
        attempted (record {
          outcome = success committed;
          path = asset.execution_path;
          operation = codes "optimize";
          service_detail = [];
          cleanup_failures = [];
        }));
    artifacts = a;
    world = w + 1;
    clock = n;
  };
  seams = seams;
  plan_archive_creation = λ p c w n. (not_requested, n);
}

abbrev work : List RequestedWork
work =
    RequestedWork.native_texture_optimization ∷ RequestedWork.archive_extraction
    ∷ RequestedWork.archive_creation ∷ []

abbrev profile : SelectedProfile
profile = record {
  capabilities = from_definition (some (codes ".bsa")) all_capabilities;
  prefers_conversion = false;
  ignored_mods = [];
  packing_exclusions = [];
}

abbrev asked : RoutingPolicyRequest
asked = for_work ExecutionMode.apply work

abbrev pub preparation : RunPreparation
preparation = record {
  mod_roots = mod_root ∷ [];
  selected_profile = profile;
  policy = policy_of asked profile.capabilities false (codes "bsa");
  archive_precedence = deterministic_discovery;
}

abbrev pub never : Token
never n = false

abbrev begun : Evidence
begun = perform_all (executed_phase preparing none ∷ []) (new_evidence none)

abbrev begun-IsPrepared : IsPrepared begun.storage
unfolding perform_all perform record_phase accept_phase publish
begun-IsPrepared = record { rest = []; shape = refl; below = tt; once = refl }

work_run-EndsWithoutRefusal_example :
    let w = work_run never preparation default_choices tools 0 begun 0 0 in
    EndsWithoutRefusal w.end × IsUncleaned (perform_all w.operations begun).storage
work_run-EndsWithoutRefusal_example =
    work_run-EndsWithoutRefusal tools never preparation default_choices 0 begun 0 0 begun-IsPrepared

abbrev disk : Filesystem
disk = record {
  canonical = λ p. answer p;
  is_dir = λ p. true;
  read_dir = λ p. answer [];
  metadata = λ p. is_directory true;
  directory_identity = λ p. answer 0;
  to_string_lossy = λ p. [];
  to_lowercase = λ c. c ∷ [];
}

abbrev services : Services ℕ (Toolset ℕ ℕ)
services = record {
  observations = none;
  configuration = some (λ r. returned (ok (profile, tools)));
  filesystem = disk;
  registry = 0;
  prepare_root = λ p a n. (returned (ok none), a + 1, n);
  clean_artifacts = λ a. returned (ok []);
  safety_cleanup = returned (ok []);
  run_work = λ p c t e a n. work_run never p c t 7 e a n;
}

abbrev request : RunRequest
request = run_request (codes "SSE") ExecutionMode.apply (single_mod_root mod_root) work

execute_with_work-EndsWell_example : EndsWell services never request (codes "run")
execute_with_work-EndsWell_example =
    execute_with_work-EndsWell services never (λ p c t e a n. (7, refl)) request
      (unfold collect_safety_cleanup_failures in ((λ a. refl), refl)) (codes "run")

abbrev pub idle : Worker ℕ ℕ
idle = hired never preparation default_choices tools 0 begun 0 0

abbrev texture : RoutedAsset
texture = record {
  execution_path = root_dir ∷ normal (codes "mod") ∷ normal (codes "stone.dds") ∷ [];
  identity = AssetIdentity.texture native;
  phase = loose_asset_processing;
  target = OptimizerTarget.texture;
  execution_mode = ExecutionMode.apply;
  operations = λ o. true;
}

abbrev pub ledger : RoutingLedger
ledger = record { routed_assets = texture ∷ []; skipped_asset_counts = λ r. 0 }

process_assets_lem_example :
    Leaves
      (λ u t. Completed (offered ledger) (asset_attempts idle.operations) t)
      (λ e t. Interrupted (offered ledger) (asset_attempts idle.operations) t)
      (process_assets tools never preparation ledger idle)
process_assets_lem_example = process_assets_lem tools never preparation ledger idle

-- A toolset whose attempts count Assets that are not in Dry Run only.
abbrev careful : Toolset ℕ ℕ
careful = record tools {
  attempt = λ asset root a w n. record {
    diagnostics = [];
    end_of_attempt = returned (
        attempted (record {
          outcome = success committed;
          path = asset.execution_path;
          operation = codes "optimize";
          service_detail = [];
          cleanup_failures = [];
        }));
    artifacts = a;
    world = w + (if is_dry_run asset.execution_mode then 0 else 1);
    clock = n;
  };
}

careful-SparesDryAssets : SparesDryAssets careful
careful-SparesDryAssets a root artifacts world clock dry = (refl, rw dry (omega arith))

abbrev dry_preparation : RunPreparation
dry_preparation = record preparation {
  policy = record preparation.policy { execution_mode = ExecutionMode.dry_run };
}

run_work_phases-IsAsBefore_example :
    IsAsBefore 0 0 (run_work_phases never dry_preparation default_choices careful idle).1
run_work_phases-IsAsBefore_example =
    run_work_phases-IsAsBefore careful never dry_preparation default_choices idle
      careful-SparesDryAssets refl
