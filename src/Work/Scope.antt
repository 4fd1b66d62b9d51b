-- ===== src/Work/Scope.antt =====
-- The walker `Discovery` of crates/cao-core/src/run/executor/work_phases.rs: the exclusion of linked
-- entries, and the walk over a Mod Root.
use cao.Shared.{Bool, true, false, not, ◌∷◌, Option, none, some, if◌then◌else◌, Text, codes, any}
use cao.Shared.Paths.{FilePath, component_text}
use cao.Shared.Prefixes.{strip_prefix, contains}
use cao.Run.Lifecycle.{RunPhase, RunDiagnostic, linked_entry_excluded, diagnostic}
use cao.Evidence.Operations.{keep_diagnostic}
use cao.Selection.Names.{is_staging_name, with_path}
use cao.Work.Toolset.{Link, vanished, direct, linked}
use cao.Work.Worker.{Worker, performed}

-- The exclusion's diagnostic.
abbrev pub exclusion : RunPhase → FilePath → Text → RunDiagnostic
exclusion phase path detail = with_path path (diagnostic linked_entry_excluded phase detail)

abbrev directory_link : Text
directory_link = codes "Directory links and reparse points are not followed during discovery."

abbrev links_nowhere : Text
links_nowhere = codes "Linked entry could not be resolved within the Mod Root."

abbrev links_outside : Text
links_outside = codes "Linked entry resolves outside the Mod Root."

abbrev links_into_staging : Text
links_into_staging = codes "Linked entry resolves into excluded CAO staging."

abbrev has_staging : FilePath → Bool
unfolding is_staging_name
has_staging = any (λ c. is_staging_name (component_text c))

-- Why a resolved file link is out of scope, if it is.
unfoldable pub resolved_detail : FilePath → FilePath → Option Text
unfolding strip_prefix is_staging_name
resolved_detail root resolved = elim (strip_prefix resolved root) [
  | none ↦ some links_outside
  | some relative ↦ if has_staging relative then some links_into_staging else none
]

-- Why an entry that is there is out of scope, if it is.
unfoldable pub excluded_detail : FilePath → Link → Option Text
unfolding resolved_detail
excluded_detail root vanished = none
excluded_detail root direct = none
excluded_detail root (linked true resolved) = some directory_link
excluded_detail root (linked false none) = some links_nowhere
excluded_detail root (linked false (some resolved)) = resolved_detail root resolved

abbrev is_vanished : Link → Bool
is_vanished vanished = true
is_vanished _ = false

module _ {A W : Type 0} (phase : RunPhase) where
  abbrev diagnosing : FilePath → Text → Worker A W → Worker A W
  diagnosing path detail w =
      let kept = performed (keep_diagnostic (exclusion phase path detail)) w in
      record kept { diagnosed = path ∷ w.diagnosed }

  -- `Discovery::exclude`
  unfoldable pub exclude : FilePath → Text → Worker A W → Worker A W
  unfolding contains
  exclude path detail w = if contains w.diagnosed path then w else diagnosing path detail w

  abbrev scoped_by : Bool → Option Text → FilePath → Worker A W → Bool × Worker A W
  unfolding exclude
  scoped_by gone none path w = (not gone, w)
  scoped_by gone (some detail) path w = (false, exclude path detail w)

  -- `Discovery::within_scope`
  unfoldable pub within_scope : FilePath → FilePath → Link → Worker A W → Bool × Worker A W
  unfolding excluded_detail exclude
  within_scope path root link w = scoped_by (is_vanished link) (excluded_detail root link) path w
