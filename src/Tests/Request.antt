-- ===== src/Tests/Request.antt =====
-- Run Requests and admission on concrete choices.
use cao.Shared.{true, false, List, [], ◌∷◌, none, some, codes, ◌≡◌, ◌↔◌, ◌&&◌, refl, In}
use cao.Shared.Paths.{normal}
use cao.Routing.Kinds.{RequestedWork, ExecutionMode}
use cao.Routing.Policy.{
  ProfileCapabilities, from_definition, PolicyValidationError, missing_archive_extension, for_work,
  work_set, compile, all_errors, check_extension, work_errors, conflicts, supports,
}
use cao.Routing.Compilation.{needed_capability}
use cao.Routing.Conflicts.{blames, converts_unmaintained}
use cao.Request.Choices.{WorkChoices, default_choices}
use cao.Request.Admission.{new, admits, admitted_work}
use cao.Request.RunRequest.{ModSelection, child_mod_roots, run_request, requests, with_work_choices}
use cao.Request.Admitted.{new-admits, admitted_work-compile}
use cao.Request.Normal.{fresh, chosen, IsNormal, Built-IsNormal, run_request-requests, contains}

abbrev mods : ModSelection
mods = child_mod_roots (normal (codes "mods") ∷ [])

abbrev chosen_work : List RequestedWork
chosen_work =
    RequestedWork.archive_creation ∷ RequestedWork.native_texture_optimization
    ∷ RequestedWork.archive_creation ∷ []

abbrev no_extension : ProfileCapabilities
no_extension = from_definition none []

abbrev errors : List PolicyValidationError
errors = missing_archive_extension ∷ []

refuses_extension :
    compile
      (for_work ExecutionMode.apply (admitted_work (new true (some no_extension)) chosen_work))
      no_extension
      false
    ≡ conflicts errors
unfolding compile admitted_work new admits all_errors check_extension work_errors
refuses_extension = refl

new-admits_example :
    (admits (new true (some no_extension)) RequestedWork.archive_creation
      ≡ supports no_extension (needed_capability RequestedWork.archive_creation))
    × (admits (new true none) RequestedWork.archive_creation ≡ true)
new-admits_example = new-admits true no_extension RequestedWork.archive_creation

admitted_work-compile_example :
    let kept = admitted_work (new true (some no_extension)) chosen_work in
    (In RequestedWork.archive_creation kept ↔ (
      In RequestedWork.archive_creation chosen_work
      × (supports no_extension (needed_capability RequestedWork.archive_creation) ≡ true)))
    × (blames RequestedWork.archive_creation
          (compile (for_work ExecutionMode.apply kept) no_extension false)
        ≡ work_set kept RequestedWork.archive_creation
          && converts_unmaintained no_extension false RequestedWork.archive_creation)
admitted_work-compile_example =
    admitted_work-compile true no_extension chosen_work ExecutionMode.apply false
      RequestedWork.archive_creation

abbrev full_choices : WorkChoices
full_choices = record default_choices {
  meshes = record { level = 3; headparts = true; resave = true };
}

Built-IsNormal_example : IsNormal (
    with_work_choices full_choices (run_request (codes "SSE") ExecutionMode.apply mods chosen_work))
Built-IsNormal_example =
    Built-IsNormal (chosen full_choices (fresh (codes "SSE") ExecutionMode.apply mods chosen_work))

run_request-requests_example :
    requests
      (run_request (codes "SSE") ExecutionMode.apply mods chosen_work)
      RequestedWork.archive_creation
    ≡ contains RequestedWork.archive_creation chosen_work
run_request-requests_example =
    run_request-requests (codes "SSE") ExecutionMode.apply mods chosen_work
      RequestedWork.archive_creation
