-- ===== src/Tests/Running.antt =====
-- A run over two mods: its provider reads a profile, and its work stops at once.
use cao.Shared.{
  ℕ, ◌+◌, Bool, true, false, List, [], ◌∷◌, none, some, codes, any, All, ◌≡◌, ◌⊎◌, ◌↔◌, refl,
  lowercase, text_eq, ◌≢◌, ◌++◌, ◌||◌, filter,
}
use cao.Shared.Paths.{compare_text, FilePath, normal, root_dir}
use cao.Shared.Ancestors.{parent, ancestors}
use cao.Routing.Kinds.{RequestedWork, ExecutionMode, all_capabilities}
use cao.Routing.Policy.{from_definition}
use cao.Request.RunRequest.{RunRequest, ModSelection, child_mod_roots, is_several_mods, run_request}
use cao.Run.Lifecycle.{
  RunOutcome, preparing, safety_cleanup, executed_record, scheduling_failed, run_failure,
}
use cao.Run.Results.{SelectedProfile}
use cao.Evidence.Sinks.{new_evidence, retain_failure, publish, Evidence}
use cao.Evidence.Operations.{
  Operation, keep_failure, executed_phase, cancellation, perform, perform_all,
}
use cao.Evidence.Seal.{RunEvidence, derive, consume, sealed}
use cao.Selection.Names.{folded_name, is_staging_name, mod_exclusion, sort_children}
use cao.Selection.Overlap.{
  Io, answer, is_directory, DirEntry, Filesystem, Token, Lent, resolved, resolve_child, either,
  contains_directory, overlap,
}
use cao.Selection.Resolve.{resolve_mod_roots}
use cao.Selection.Disjoint.{Apart, IsBelow, resolve_mod_roots-Apart}
use cao.Executor.Services.{Services, ok, returned, go_on, panicked, collect_safety_cleanup_failures}
use cao.Executor.Classification.{
  classify_terminal_outcome, classify_iff, IsUnsafe, IsBlemished, is_service_failure,
}
use cao.Executor.Execute.{
  OptimizationRunResult, result, cleaned, terminal_failure, clean_up, initial,
}
use cao.Evidence.Facts.{record_cancellation_observation}
use cao.Evidence.Phases.{record_phase, accept_phase}
use cao.Executor.Cleanup.{is_lawful, clean_up_lem}
use cao.Executor.Failing.{perform_all-failed}
use cao.Executor.Ending.{EndsWell, EndsInPanic, execute_ends}
use cao.Executor.Scheduling.{terminal_failure-failed}

abbrev mods : FilePath
mods = root_dir ∷ normal (codes "mods") ∷ []

abbrev first_mod : FilePath
first_mod = root_dir ∷ normal (codes "mods") ∷ normal (codes "a") ∷ []

abbrev second_mod : FilePath
second_mod = root_dir ∷ normal (codes "mods") ∷ normal (codes "b") ∷ []

abbrev entries : List (Io DirEntry)
entries =
    answer (record { name = codes "b"; path = second_mod })
    ∷ answer (record { name = codes "a"; path = first_mod })
    ∷ answer (record { name = codes "tools_separator"; path = mods })
    ∷ []

-- Directories are told apart by their last name.
abbrev name_of_path : FilePath → ℕ
name_of_path (root_dir ∷ []) = 0
name_of_path (root_dir ∷ normal _ ∷ []) = 1
name_of_path (root_dir ∷ normal _ ∷ normal (c ∷ _) ∷ []) = c
name_of_path _ = 9

abbrev disk : Filesystem
disk = record {
  canonical = λ p. answer p;
  is_dir = λ p. true;
  read_dir = λ p. answer entries;
  metadata = λ p. is_directory true;
  directory_identity = λ p. answer (name_of_path p);
  to_string_lossy = λ p. [];
  to_lowercase = λ c. c ∷ [];
}

abbrev never : Token
never n = false

abbrev profile : SelectedProfile
profile = record {
  capabilities = from_definition (some (codes ".bsa")) all_capabilities;
  prefers_conversion = false;
  ignored_mods = [];
  packing_exclusions = [];
}

abbrev selection : ModSelection
selection = child_mod_roots mods

abbrev lent : Lent
lent = record { evidence = new_evidence none; clock = 0 }

resolves :
    (resolve_mod_roots disk never selection profile lent).0 ≡ resolved (first_mod ∷ second_mod ∷ [])
unfolding resolve_mod_roots parent is_staging_name lowercase sort_children compare_text folded_name
    mod_exclusion text_eq resolve_child either contains_directory ancestors overlap
resolves = refl

resolve_mod_roots-Apart_example :
    Apart disk (first_mod ∷ second_mod ∷ [])
    × ((is_several_mods selection ≡ false) ⊎ All (IsBelow disk mods) (first_mod ∷ second_mod ∷ []))
resolve_mod_roots-Apart_example =
    resolve_mod_roots-Apart disk never selection profile lent mods (first_mod ∷ second_mod ∷ [])
      refl resolves

abbrev request : RunRequest
request =
    run_request (codes "SSE") ExecutionMode.apply selection
      (RequestedWork.native_texture_optimization ∷ [])

abbrev services : Services ℕ Bool
services = record {
  observations = none;
  configuration = some (λ r. returned (ok (profile, true)));
  filesystem = disk;
  registry = 0;
  prepare_root = λ p a n. (returned (ok none), a + 1, n);
  clean_artifacts = λ a. returned (ok []);
  safety_cleanup = returned (ok []);
  run_work = λ p c t e a n. record {
    operations = [];
    end = returned (ok go_on);
    artifacts = a;
    clock = n;
  };
}

execute_ends_example :
    EndsWell services never request (codes "run") ⊎ EndsInPanic services never request (codes "run")
execute_ends_example = execute_ends services never request (codes "run")

terminal_failure-failed_example :
    let f = run_failure scheduling_failed preparing (codes "no thread") in
    (r : OptimizationRunResult) × (terminal_failure f
        (some (returned (ok [])))
        none
        preparing
        true
        (codes "run")
      ≡ result r)
    × (r.outcome ≡ RunOutcome.failed)
    × (r.final_phase ≡ preparing)
    × (r.evidence.storage.phases ≡ executed_record safety_cleanup none ∷ [])
    × (r.evidence.storage.failures ≡ f ∷ [])
terminal_failure-failed_example =
    terminal_failure-failed (run_failure scheduling_failed preparing (codes "no thread"))
      (some (returned (ok []))) none preparing true (codes "run")

abbrev sealed_run : RunEvidence
sealed_run = record { storage = derive (cleaned services never request).evidence.storage }

classify_iff_example :
    let s = sealed_run.storage in
    let out = classify_terminal_outcome sealed_run in
    let broken = any is_service_failure s.cleanup_failures in
    ((out ≡ RunOutcome.failed)
      ↔ (IsUnsafe s ⊎ ((s.cancellation_observed ≡ false) × (broken ≡ true))))
    × ((out ≡ RunOutcome.cancelled) ↔ (¬ IsUnsafe s × (s.cancellation_observed ≡ true)))
    × ((out ≡ RunOutcome.completed_with_failures)
        ↔ (¬ IsUnsafe s × (s.cancellation_observed ≡ false) × (broken ≡ false) × IsBlemished s))
    × ((out ≡ RunOutcome.succeeded)
        ↔ (¬ IsUnsafe s × (s.cancellation_observed ≡ false) × ¬ IsBlemished s))
classify_iff_example = classify_iff sealed_run

-- A cleanup service that panics, and evidence with the failure that it leaves.
abbrev broken_services : Services ℕ Bool
broken_services = record services { safety_cleanup = panicked (codes "disk removed") }

clean_up_example :
    let m = initial broken_services never in
    let n = clean_up broken_services never true m in
    (n.evidence.storage.safety_cleanup_failures
      ≡ m.evidence.storage.safety_cleanup_failures
        ++ filter is_lawful (
            collect_safety_cleanup_failures (broken_services.clean_artifacts m.artifacts)
            ++ collect_safety_cleanup_failures broken_services.safety_cleanup))
    × (n.evidence.storage.cancellation_observed
        ≡ ((never m.clock || true) || m.evidence.storage.cancellation_observed))
clean_up_example = clean_up_lem broken_services never true (initial broken_services never)

abbrev failing : Evidence
failing =
    (perform (keep_failure (run_failure scheduling_failed preparing (codes "no thread")))
      (new_evidence none)).0

abbrev later : List Operation
later = executed_phase safety_cleanup none ∷ cancellation ∷ []

abbrev sealed_failing : RunEvidence
sealed_failing = record { storage = derive (perform_all later failing).storage }

holds_failure : failing.storage.failures ≢ []
unfolding perform retain_failure
holds_failure h = cc

seals : consume (perform_all later failing) ≡ sealed sealed_failing
unfolding consume perform_all perform retain_failure record_cancellation_observation record_phase
    accept_phase publish
seals = refl

perform_all-failed_example : classify_terminal_outcome sealed_failing ≡ RunOutcome.failed
perform_all-failed_example = perform_all-failed later failing sealed_failing holds_failure seals
