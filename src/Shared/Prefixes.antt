-- ===== src/Shared/Prefixes.antt =====
-- `Path::strip_prefix`, `Path::starts_with` and membership in a set of paths, by components.
use Prim.Native.Nat.{Ordering}
use cao.Shared.Tests.{if◌then◌else◌, is_some}
use cao.Shared.Paths.{FilePath, Component, compare_component, compare_path}
use mathlib.Core.Bool.{Bool, true, false, ◌||◌}
use mathlib.Core.Option.{Option, none, some}
use mathlib.Core.List.{List, [], ◌∷◌}

abbrev is_equal : Ordering → Bool
is_equal Ordering.eq = true
is_equal _ = false

unfoldable pub same_component : Component → Component → Bool
same_component a b = is_equal (compare_component a b)

-- `strip_prefix` of a path, by a base.
unfoldable pub strip_prefix : FilePath → FilePath → Option FilePath
unfolding same_component
strip_prefix path [] = some path
strip_prefix [] (b ∷ base) = none
strip_prefix (c ∷ path) (b ∷ base) =
    let rest = strip_prefix path base in if same_component c b then rest else none

unfoldable pub starts_with : FilePath → FilePath → Bool
unfolding strip_prefix
starts_with path base = is_some (strip_prefix path base)

unfoldable pub same_path : FilePath → FilePath → Bool
unfolding compare_path
same_path a b = is_equal (compare_path a b)

unfoldable pub contains : List FilePath → FilePath → Bool
unfolding same_path
contains [] p = false
contains (q ∷ qs) p = same_path q p || contains qs p
