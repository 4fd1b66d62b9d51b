-- ===== src/Capacity/Check.antt =====
-- `CapacityCheck` of crates/cao-core/src/run/capacity.rs.
use cao.Shared.{
  ℕ, ◌+◌, true, false, ◌||◌, List, [], ◌∷◌, ◌++◌, all, Option, none, some, if◌then◌else◌, ltb, ◌==◌,
  Text, text_eq, codes,
}
use cao.Shared.Paths.{FilePath}
use cao.Shared.Prefixes.{same_path}
use cao.Routing.Kinds.{ExecutionMode, apply, dry_run}
use cao.Run.Attempt.{CapacityShortage}
use cao.Run.Lifecycle.{
  RunPhase, discovering_archives, archive_finalization, RunFailure, run_failure,
  archive_insufficient_capacity, RunDiagnostic, diagnostic, RunDiagnosticCode,
}
use cao.Executor.Services.{Caught, returned, panicked}
use cao.Capacity.Demand.{Demand, saturating_add}

pub data CapacityStage : Type 0 where
  before_extraction before_creation recheck : CapacityStage

pub data CapacityVerdict : Type 0 where
  fits : CapacityVerdict
  fail_run : RunFailure → CapacityVerdict
  fail_work : CapacityShortage → CapacityVerdict
  warn : RunDiagnostic → CapacityVerdict

-- `VolumeProbe`: each query is answered afresh, so it takes the number of the query; it may panic.
pub record VolumeProbe : Type 0 where
  pub available_bytes : ℕ → FilePath → Caught (Option ℕ)
  pub volume_identity : ℕ → FilePath → Caught (Option Text)

-- `FrozenVolumes`, in the order of freezing, with the number of queries so far.
pub record FrozenVolumes : Type 0 where
  pub volumes : List (FilePath × Option Text)
  pub queries : ℕ

-- `contained_probe`
abbrev pub contained_probe : {T : Type 0} → Caught (Option T) → Option T
contained_probe (returned answer) = answer
contained_probe (panicked message) = none

-- `BTreeMap::get`
unfoldable pub frozen_at : FilePath → List (FilePath × Option Text) → Option (Option Text)
unfolding same_path
frozen_at root [] = none
frozen_at root ((p, volume) ∷ others) =
    let rest = frozen_at root others in if same_path p root then some volume else rest

abbrev pub queried : FrozenVolumes → FrozenVolumes
queried s = record s { queries = s.queries + 1 }

module _ (probe : VolumeProbe) where
  abbrev pub or_probe :
      Option (Option Text) → FilePath → FrozenVolumes → Option Text × FrozenVolumes
  or_probe (some volume) root s = (volume, s)
  or_probe none root s =
      let volume = contained_probe (probe.volume_identity s.queries root) in
      (volume, record (queried s) { volumes = s.volumes ++ (root, volume) ∷ [] })

  -- `CapacityCheck::volume_identity`
  unfoldable pub volume_identity : FilePath → FrozenVolumes → Option Text × FrozenVolumes
  unfolding frozen_at
  volume_identity root s = or_probe (frozen_at root s.volumes) root s

  -- `CapacityCheck::available_bytes`
  unfoldable pub available_bytes : FilePath → FrozenVolumes → Option ℕ × FrozenVolumes
  available_bytes root s = (contained_probe (probe.available_bytes s.queries root), queried s)

  -- The loop over the roots with demand.
  unfoldable pub required_on :
      Text → ℕ → List (FilePath × ℕ) → ℕ → FrozenVolumes → ℕ × FrozenVolumes
  unfolding volume_identity
  required_on volume total [] required s = (required, s)
  required_on volume total ((other, bytes) ∷ others) required s =
      let (found, next) = volume_identity other s in
      elim (bytes == 0) [
        | true ↦ required_on volume total others required s
        | false ↦ elim found [
          | none ↦ (total, next)
          | some v ↦
              required_on volume total others
                (if text_eq v volume then saturating_add required bytes else required) next
        ]
      ]

  abbrev pub required_if : Option Text → Demand → FrozenVolumes → ℕ × FrozenVolumes
  unfolding required_on
  required_if none d s = (d.total, s)
  required_if (some volume) d s = required_on volume d.total d.roots 0 s

  -- `CapacityCheck::required_at`
  unfoldable pub required_at : Demand → FilePath → FrozenVolumes → ℕ × FrozenVolumes
  unfolding volume_identity required_on same_path
  required_at d root s =
      let (found, next) = volume_identity root s in
      if all (λ x. x.1 == 0 || same_path x.0 root) d.roots
      then (d.total, s)
      else required_if found d next

  abbrev pub shortage_of : FilePath → ℕ → Option ℕ → Option CapacityShortage
  shortage_of root required none = none
  shortage_of root required (some available) =
      if ltb available required
      then some (record { root = root; required = required; available = available })
      else none

  -- `CapacityCheck::shortage_at`
  unfoldable pub shortage_at :
      Demand → FilePath → FrozenVolumes → Option CapacityShortage × FrozenVolumes
  unfolding required_at available_bytes
  shortage_at d root s =
      let (required, after) = required_at d root s in
      let (available, last) = available_bytes root after in
      (shortage_of root required available, last)

  -- `CapacityCheck::first_shortage`
  unfoldable pub first_shortage :
      Demand → List (FilePath × ℕ) → FrozenVolumes → Option CapacityShortage × FrozenVolumes
  unfolding shortage_at
  first_shortage d [] s = (none, s)
  first_shortage d ((root, bytes) ∷ others) s =
      let (found, next) = shortage_at d root s in
      elim (bytes == 0) [
        | true ↦ first_shortage d others s
        | false ↦ elim found [ some x ↦ (some x, next) | none ↦ first_shortage d others next ]
      ]

  module _ (mode : ExecutionMode) (decimal : ℕ → Text) where
    -- `Display` of a shortage; `decimal` is that of a u64.
    unfoldable pub shortage_text : CapacityShortage → Text
    shortage_text s =
        codes "Insufficient Archive staging capacity: estimated "
        ++ decimal s.required
        ++ codes " bytes, available "
        ++ decimal s.available
        ++ codes
            " bytes. Estimates include staging overhead allowances but do not reserve space or guarantee filesystem metadata, quotas, or concurrent writes."

    abbrev pub volume_text : Option Text → Text
    volume_text (some volume) = codes "volume " ++ volume
    volume_text none = codes "the volume holding this Mod Root"

    -- `CapacityCheck::warning`
    unfoldable pub warning :
        RunPhase → CapacityShortage → FrozenVolumes → RunDiagnostic × FrozenVolumes
    unfolding volume_identity
    warning phase s frozen =
        let (volume, next) = volume_identity s.root frozen in
        let detail =
          codes "Capacity shortage: an Apply run would need an estimated "
          ++ decimal s.required
          ++ codes " bytes on "
          ++ volume_text volume
          ++ codes ", but "
          ++ decimal s.available
          ++ codes
              " bytes are available, so it would fail its Capacity Check. The Dry Run itself needs no space." in
        (
          record (diagnostic RunDiagnosticCode.capacity_shortage phase detail) {
            path = s.root;
            capacity_shortage = some s;
          },
          next,
        )

    abbrev pub capacity_failure : CapacityShortage → RunFailure
    unfolding shortage_text
    capacity_failure s =
        record (run_failure archive_insufficient_capacity discovering_archives (shortage_text s)) {
          path = s.root;
          capacity_shortage = some s;
        }

    abbrev pub warned : RunDiagnostic × FrozenVolumes → CapacityVerdict × FrozenVolumes
    warned (d, s) = (warn d, s)

    -- `CapacityCheck::verdict`
    unfoldable pub verdict :
        CapacityStage → Option CapacityShortage × FrozenVolumes → CapacityVerdict × FrozenVolumes
    unfolding warning shortage_text
    verdict stage (none, f) = (fits, f)
    verdict before_extraction (some s, f) = elim mode [
      | apply ↦ (fail_run (capacity_failure s), f)
      | dry_run ↦ warned (warning discovering_archives s f)
    ]
    verdict before_creation (some s, f) = elim mode [
      | apply ↦ (fail_work s, f)
      | dry_run ↦ warned (warning archive_finalization s f)
    ]
    verdict recheck (some s, f) = (fail_work s, f)

    -- `CapacityCheck::check`
    unfoldable pub check : CapacityStage → Demand → FrozenVolumes → CapacityVerdict × FrozenVolumes
    unfolding verdict first_shortage
    check stage d s = verdict stage (first_shortage d d.roots s)

    -- `CapacityCheck::check_at`
    unfoldable pub check_at :
        CapacityStage → Demand → FilePath → FrozenVolumes → CapacityVerdict × FrozenVolumes
    unfolding verdict shortage_at
    check_at stage d root s = verdict stage (shortage_at d root s)

    -- What a recheck makes of a verdict; the panic also prints it.
    abbrev pub guarded : CapacityVerdict → Caught (Option CapacityShortage)
    guarded fits = returned none
    guarded (fail_work s) = returned (some s)
    guarded (fail_run f) = panicked (codes "a recheck fails only the work it guards")
    guarded (warn d) = panicked (codes "a recheck fails only the work it guards")

    -- `CapacityCheck::recheck_at`
    unfoldable pub recheck_at :
        Demand → FilePath → FrozenVolumes → Caught (Option CapacityShortage) × FrozenVolumes
    unfolding check_at
    recheck_at d root s = let (v, next) = check_at recheck d root s in (guarded v, next)
