-- ===== src/Shared/Ancestors.antt =====
-- `Path::parent` and `Path::ancestors` on paths as their components.
use cao.Shared.Tests.{if◌then◌else◌}
use cao.Shared.Lists.{get_last?, length}
use cao.Shared.Paths.{Component, normal, cur_dir, parent_dir, FilePath}
use Prim.Native.Nat.{ℕ, zero, suc}
use mathlib.Core.Bool.{Bool, true, false}
use mathlib.Core.Option.{Option, none, some}
use mathlib.Core.List.{List, [], ◌∷◌}

abbrev is_removable : Component → Bool
is_removable (normal _) = true
is_removable cur_dir = true
is_removable parent_dir = true
is_removable _ = false

unfoldable drop_last : FilePath → FilePath
drop_last [] = []
drop_last (c ∷ []) = []
drop_last (c ∷ d ∷ p) = c ∷ drop_last (d ∷ p)

abbrev parent_by : Option Component → FilePath → Option FilePath
unfolding drop_last
parent_by none p = none
parent_by (some c) p = if is_removable c then some (drop_last p) else none

-- `Path::parent`: none for a path that ends in a root or a prefix, or is empty.
unfoldable pub parent : FilePath → Option FilePath
unfolding parent_by
parent p = parent_by (get_last? p) p

unfoldable ancestors_from : ℕ → FilePath → List FilePath
unfolding parent
ancestors_from zero p = p ∷ []
ancestors_from (suc n) p = elim (parent p) [ none ↦ p ∷ [] | some q ↦ p ∷ ancestors_from n q ]

-- `Path::ancestors`: the path itself, then each parent; there are at most as many as components.
unfoldable pub ancestors : FilePath → List FilePath
unfolding ancestors_from
ancestors p = ancestors_from (length p) p
