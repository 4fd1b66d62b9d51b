-- ===== src/Request/RunRequest.antt =====
-- `ModSelection`, `RunRequest` and `ArchivePrecedence` of crates/cao-core/src/run/lifecycle.rs and
-- preparation.rs.
use cao.Shared.{Bool, true, false, List, [], ◌∷◌, none, leb, ◌==◌, if◌then◌else◌, Text, any}
use cao.Shared.Paths.{FilePath}
use cao.Routing.Kinds.{RequestedWork, work_index, ExecutionMode}
use cao.Request.Choices.{WorkChoices, default_choices}
use cao.Request.Admission.{Admission, new, admitted_work_choices}

pub data ModSelection : Type 0 where
  single_mod_root : FilePath → ModSelection
  child_mod_roots : FilePath → ModSelection

abbrev pub is_several_mods : ModSelection → Bool
is_several_mods (child_mod_roots _) = true
is_several_mods (single_mod_root _) = false

pub data ArchivePrecedence : Type 0 where
  deterministic_discovery : ArchivePrecedence
  explicit_order : List FilePath → ArchivePrecedence

pub record RunRequest : Type 0 where
  pub profile_identity : Text
  pub execution_mode : ExecutionMode
  pub mod_selection : ModSelection
  pub requested_work : List RequestedWork
  pub archive_precedence : ArchivePrecedence
  pub work_choices : WorkChoices

unfoldable pub insert : RequestedWork → List RequestedWork → List RequestedWork
insert w [] = w ∷ []
insert w (x ∷ xs) =
    let rest = insert w xs in if leb (work_index w) (work_index x) then w ∷ x ∷ xs else x ∷ rest

-- `sort`, by the enumeration order that `RequestedWork` derives.
unfoldable pub sort : List RequestedWork → List RequestedWork
unfolding insert
sort [] = []
sort (w ∷ ws) = insert w (sort ws)

-- `dedup`: of equal neighbours the first is kept.
unfoldable pub dedup : List RequestedWork → List RequestedWork
dedup [] = []
dedup (x ∷ []) = x ∷ []
dedup (x ∷ y ∷ r) =
    let rest = dedup (y ∷ r) in if work_index x == work_index y then rest else x ∷ rest

unfoldable pub run_request : Text → ExecutionMode → ModSelection → List RequestedWork → RunRequest
run_request identity mode selection work = record {
  profile_identity = identity;
  execution_mode = mode;
  mod_selection = selection;
  requested_work = dedup (sort work);
  archive_precedence = deterministic_discovery;
  work_choices = default_choices;
}

-- The Admission Rules that need no profile.
unfoldable pub admission : RunRequest → Admission
admission r = new (is_several_mods r.mod_selection) none

unfoldable pub with_archive_precedence : ArchivePrecedence → RunRequest → RunRequest
with_archive_precedence a r = record r { archive_precedence = a }

unfoldable pub with_work_choices : WorkChoices → RunRequest → RunRequest
unfolding admission
with_work_choices c r = record r { work_choices = admitted_work_choices (admission r) c }

unfoldable pub requests : RunRequest → RequestedWork → Bool
requests r w = any (λ x. work_index x == work_index w) r.requested_work

abbrev pub has_requested_work : RunRequest → Bool
has_requested_work r = elim r.requested_work [ [] ↦ false | _ ↦ true ]
