-- ===== src/Selection/Names.antt =====
-- Names and Mod Exclusions of crates/cao-core/src/run/mod_selection.rs, with `is_staging_name` of
-- crates/cao-core/src/run/staging.rs.
use Prim.Native.Nat.{Ordering}
use cao.Shared.{
  ℕ, Bool, true, false, ◌||◌, List, [], ◌∷◌, ◌++◌, Option, none, some, ◌==◌, if◌then◌else◌, any,
  Text, codes, text_eq, lowercase,
}
use cao.Shared.Paths.{FilePath, compare_text, then_compare}
use cao.Run.Lifecycle.{
  preparing, RunDiagnostic, RunDiagnosticCode, separator_mod_excluded, ignored_mod_excluded,
  diagnostic,
}

unfoldable pub starts_with : Text → Text → Bool
starts_with t [] = true
starts_with [] (c ∷ p) = false
starts_with (x ∷ t) (c ∷ p) = let rest = starts_with t p in if x == c then rest else false

unfoldable pub ends_with : Text → Text → Bool
ends_with [] suffix = text_eq [] suffix
ends_with (x ∷ t) suffix = text_eq (x ∷ t) suffix || ends_with t suffix

-- `is_staging_name`
unfoldable pub is_staging_name : Text → Bool
unfolding starts_with
is_staging_name name = starts_with (lowercase name) (codes ".cao-staging")

abbrev pub separator_suffix : Text
separator_suffix = codes "_separator"

-- One character of `folded_name`, where `to_lowercase` is that of `char`.
abbrev fold_char : (ℕ → Text) → ℕ → Text
fold_char to_lowercase c =
    if c == 0xdf || c == 0x1e9e
    then codes "ss"
    else if c == 0x3c2
    then 0x3c3 ∷ []
    else if c == 0x17f
    then b's' ∷ []
    else if c == 0xb5
    then 0x3bc ∷ []
    else to_lowercase c

unfoldable pub folded_name : (ℕ → Text) → Text → Text
folded_name to_lowercase [] = []
folded_name to_lowercase (c ∷ t) = fold_char to_lowercase c ++ folded_name to_lowercase t

-- `Child`
pub record Child : Type 0 where
  pub path : FilePath
  pub name : Text
  pub folded : Text

abbrev pub with_path : FilePath → RunDiagnostic → RunDiagnostic
with_path path d = record d { path = path }

abbrev excluded : RunDiagnosticCode → Text → FilePath → RunDiagnostic
excluded code detail path = with_path path (diagnostic code preparing detail)

-- `mod_exclusion`
unfoldable pub mod_exclusion : Child → List Text → Option RunDiagnostic
unfolding ends_with
mod_exclusion child ignored =
    if ends_with child.name separator_suffix
    then some (
        excluded separator_mod_excluded
          (codes "The child Mod Root matches a configured separator marker") child.path)
    else if any (text_eq child.folded) ignored
    then some (
        excluded ignored_mod_excluded (codes "The child Mod Root matches an ignored-mod name")
          child.path)
    else none

-- The order of the children: folded names, then names.
unfoldable pub compare_child : Child → Child → Ordering
compare_child a b = then_compare (compare_text a.folded b.folded) (compare_text a.name b.name)

abbrev is_after : Ordering → Bool
is_after Ordering.gt = true
is_after _ = false

unfoldable pub insert_child : Child → List Child → List Child
unfolding compare_child
insert_child c [] = c ∷ []
insert_child c (d ∷ ds) =
    let rest = insert_child c ds in if is_after (compare_child c d) then d ∷ rest else c ∷ d ∷ ds

-- `sort_by`
unfoldable pub sort_children : List Child → List Child
unfolding insert_child
sort_children [] = []
sort_children (c ∷ cs) = insert_child c (sort_children cs)
