-- ===== src/Shared/Paths.antt =====
-- `std::path` as the program uses it: a path is the components that `Path::components` yields,
-- which is also what `Path` compares by.
use cao.Shared.Tests.{◌==◌, if◌then◌else◌}
use cao.Shared.Lists.{get_last?}
use cao.Shared.Texts.{Text, codes, text_eq}
use Prim.Native.Nat.{ℕ, compare, Ordering}
use mathlib.Core.Option.{Option, none, some}
use mathlib.Core.List.{List, [], ◌∷◌}

pub data Component : Type 0 where
  prefix : Text → Component
  root_dir cur_dir parent_dir : Component
  normal : Text → Component

abbrev pub FilePath : Type 0
FilePath = List Component

abbrev last_normal : Option Component → Option Text
last_normal (some (normal name)) = some name
last_normal _ = none

-- `Path::file_name`: the last component, if it is a normal one.
unfoldable pub file_name : FilePath → Option Text
file_name p = last_normal (get_last? p)

-- What stands before and after the last period, `none` where there is none.
pub record Split : Type 0 where
  pub before : Option Text
  pub after : Text

-- `rsplitn(2, '.')`
unfoldable pub rsplit_dot : Text → Split
rsplit_dot [] = record { before = none; after = [] }
rsplit_dot (c ∷ t) =
    let s = rsplit_dot t in
    elim s.before [
      | some b ↦ record { before = some (c ∷ b); after = s.after }
      | none ↦
          if c == b'.'
          then record { before = some []; after = t }
          else record { before = none; after = c ∷ t }
    ]

-- A name that only starts with its last period has no extension.
abbrev extension_of_split : Option Text → Text → Option Text
extension_of_split none after = none
extension_of_split (some []) after = none
extension_of_split (some (c ∷ b)) after = some after

abbrev name_extension : Option Text → Option Text
unfolding rsplit_dot text_eq
name_extension none = none
name_extension (some name) =
    if text_eq name (codes "..")
    then none
    else extension_of_split (rsplit_dot name).before (rsplit_dot name).after

-- `Path::extension`
unfoldable pub extension : FilePath → Option Text
unfolding rsplit_dot file_name text_eq
extension p = name_extension (file_name p)

-- The first difference decides.
abbrev pub then_compare : Ordering → Ordering → Ordering
then_compare Ordering.eq o = o
then_compare Ordering.lt o = Ordering.lt
then_compare Ordering.gt o = Ordering.gt

unfoldable pub compare_text : Text → Text → Ordering
compare_text [] [] = Ordering.eq
compare_text [] (_ ∷ _) = Ordering.lt
compare_text (_ ∷ _) [] = Ordering.gt
compare_text (x ∷ xs) (y ∷ ys) = then_compare (compare x y) (compare_text xs ys)

abbrev pub component_rank : Component → ℕ
component_rank (prefix _) = 0
component_rank root_dir = 1
component_rank cur_dir = 2
component_rank parent_dir = 3
component_rank (normal _) = 4

abbrev pub component_text : Component → Text
component_text (prefix t) = t
component_text (normal t) = t
component_text _ = []

-- The order that `Component` derives.
abbrev pub compare_component : Component → Component → Ordering
compare_component a b =
    then_compare (compare (component_rank a) (component_rank b))
      (compare_text (component_text a) (component_text b))

-- `Path::cmp`
unfoldable pub compare_path : FilePath → FilePath → Ordering
unfolding compare_text
compare_path [] [] = Ordering.eq
compare_path [] (_ ∷ _) = Ordering.lt
compare_path (_ ∷ _) [] = Ordering.gt
compare_path (x ∷ xs) (y ∷ ys) = then_compare (compare_component x y) (compare_path xs ys)
