-- ===== src/Tests/Capacity.antt =====
-- A volume with two Mod Roots on it.
use cao.Shared.{ℕ, ◌+◌, ◌≤◌, List, [], ◌∷◌, In, some, codes, ◌≡◌, Text}
use cao.Shared.Paths.{FilePath, normal, root_dir}
use cao.Shared.Prefixes.{same_path}
use cao.Routing.Kinds.{ExecutionMode}
use cao.Executor.Services.{returned}
use cao.Capacity.Demand.{no_demand, add, add_all, add_to, ArchiveEntry, estimated_capacity_bytes}
use cao.Capacity.Sums.{capped, sum_of, entries_need, estimated_capacity_bytes-capped}
use cao.Capacity.Check.{VolumeProbe, FrozenVolumes, required_at, recheck_at}
use cao.Capacity.Bounds.{Rechecked, required_at_lem, recheck_at_lem}

abbrev first : FilePath
first = root_dir ∷ normal (codes "a") ∷ []

abbrev second : FilePath
second = root_dir ∷ normal (codes "b") ∷ []

abbrev probe : VolumeProbe
probe = record {
  available_bytes = λ n root. returned (some 900);
  volume_identity = λ n root. returned (some (codes "C"));
}

abbrev decimal : ℕ → Text
decimal n = n ∷ []

abbrev untouched : FrozenVolumes
untouched = record { volumes = []; queries = 0 }

abbrev additions : List (FilePath × ℕ)
additions = (first, 500) ∷ (second, 300) ∷ (first, 200) ∷ []

first_In : In (first, 700) (add_all additions no_demand).roots
unfolding add_all add add_to same_path
first_In = In.here

required_at_lem_example :
    let d = add_all additions no_demand in
    (capped 700 ≤ (required_at probe d first untouched).0)
    × ((required_at probe d first untouched).0 ≤ d.total)
    × (d.total ≡ capped (sum_of additions))
required_at_lem_example = required_at_lem probe additions first 700 untouched first_In

recheck_at_lem_example :
    let d = add_all additions no_demand in
    Rechecked first
      (capped 700)
      d.total
      (probe.available_bytes (required_at probe d first untouched).1.queries first)
      (recheck_at probe ExecutionMode.apply decimal d first untouched).0
recheck_at_lem_example =
    recheck_at_lem probe ExecutionMode.apply decimal additions first 700 untouched first_In

abbrev entries : List ArchiveEntry
entries = record { name = codes "textures/a.dds"; decompressed_size = 4096 } ∷ []

estimated_capacity_bytes-capped_example :
    estimated_capacity_bytes entries ≡ capped (65536 + entries_need entries)
estimated_capacity_bytes-capped_example = estimated_capacity_bytes-capped entries
