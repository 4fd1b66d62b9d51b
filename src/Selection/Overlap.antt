-- ===== src/Selection/Overlap.antt =====
-- `contains_directory` and the checks of one child of crates/cao-core/src/run/mod_selection.rs.
-- What the filesystem answers is a parameter.
use cao.Shared.{
  ◌≡◌, ◌⊎◌, inl, inr, refl, ℕ, Bool, true, false, List, [], ◌∷◌, ◌++◌, map, Option, none, some,
  ◌==◌, if◌then◌else◌, Text, codes,
}
use cao.Shared.Paths.{FilePath}
use cao.Shared.Ancestors.{parent, ancestors}
use cao.Run.Lifecycle.{
  preparing, RunFailure, mod_selection_resolution_failed, conflicting_mod_roots, run_failure,
}
use cao.Request.RunRequest.{ModSelection, single_mod_root, child_mod_roots}
use cao.Evidence.Sinks.{Evidence}
use cao.Selection.Names.{Child}

-- An answer of the filesystem, or the text of its error.
pub data Io {ℓ} (A : Type ℓ) : Type ℓ where
  answer : A → Io A
  io_error : Text → Io A

pub data Metadata : Type 0 where
  is_directory : Bool → Metadata
  not_found : Metadata
  lookup_failed : Text → Metadata

pub record DirEntry : Type 0 where
  pub name : Text
  pub path : FilePath

-- `cao_winfs`, `std::fs` and the Unicode tables, at the time of one call.
pub record Filesystem : Type 0 where
  pub canonical : FilePath → Io FilePath
  pub is_dir : FilePath → Bool
  pub read_dir : FilePath → Io (List (Io DirEntry))
  pub metadata : FilePath → Metadata
  pub directory_identity : FilePath → Io ℕ
  pub to_string_lossy : FilePath → Text
  pub to_lowercase : ℕ → Text

-- A run's `CancellationToken`: what each `is_cancelled` in turn answers.
abbrev pub Token : Type 0
Token = ℕ → Bool

-- What lent evidence and the token are after a call.
pub record Lent : Type 0 where
  pub evidence : Evidence
  pub clock : ℕ

pub data Resolution : Type 0 where
  resolved : List FilePath → Resolution
  unresolved : RunFailure → Resolution

abbrev pub resolution_failure : Text → RunFailure
resolution_failure detail = run_failure mod_selection_resolution_failed preparing detail

abbrev pub unresolvable_failure : RunFailure
unresolvable_failure =
    resolution_failure
      (codes "The selected Mod Root could not be resolved to an existing directory")

abbrev pub filesystem_root_failure : RunFailure
filesystem_root_failure =
    resolution_failure
      (codes "A filesystem root cannot be selected as a Mod Root or mods directory")

-- `ModSelection::directory`
abbrev pub directory : ModSelection → FilePath
directory (single_mod_root p) = p
directory (child_mod_roots p) = p

abbrev replace_backslash : ℕ → ℕ
replace_backslash c = if c == 0x5c then b'/' else c

-- What one child that is not excluded resolves to.
pub data ChildRoot : Type 0 where
  child_root : FilePath → ChildRoot
  child_fails : RunFailure → ChildRoot

abbrev pub has_no_parent : Option FilePath → Bool
has_no_parent none = true
has_no_parent (some _) = false

pub Io-cases :
    {A : Type 0} (o : Io A) → ((e : Text) × (o ≡ io_error e)) ⊎ ((a : A) × (o ≡ answer a))
Io-cases (io_error e) = inl (e, refl)
Io-cases (answer a) = inr (a, refl)

pub ChildRoot-cases :
    (r : ChildRoot)
    → ((f : RunFailure) × (r ≡ child_fails f)) ⊎ ((p : FilePath) × (r ≡ child_root p))
ChildRoot-cases (child_fails f) = inl (f, refl)
ChildRoot-cases (child_root p) = inr (p, refl)

-- `a? || b?`
unfoldable pub either : Io Bool → Io Bool → Io Bool
either (io_error e) b = io_error e
either (answer true) b = answer true
either (answer false) b = b

module _ (fs : Filesystem) where
  any_ancestor : ℕ → List FilePath → Io Bool
  any_ancestor boundary [] = answer false
  any_ancestor boundary (p ∷ ps) =
      let rest = any_ancestor boundary ps in
      elim (fs.directory_identity p) [
        | io_error e ↦ io_error e
        | answer i ↦ if i == boundary then answer true else rest
      ]

  -- `contains_directory`
  unfoldable pub contains_directory : FilePath → FilePath → Io Bool
  unfolding any_ancestor
  contains_directory boundary directory = elim (fs.directory_identity boundary) [
    | io_error e ↦ io_error e
    | answer b ↦ any_ancestor b (ancestors directory)
  ]

  unfoldable pub display_name : FilePath → Text
  display_name p = map replace_backslash (fs.to_string_lossy p)

  abbrev pub overlap_failure : FilePath → FilePath → RunFailure
  unfolding display_name
  overlap_failure existing child = run_failure conflicting_mod_roots preparing (
      codes "The selected Mod Roots overlap: "
      ++ (display_name existing ++ (codes " and " ++ display_name child)))

  unfoldable pub overlap : FilePath → FilePath → Io Bool
  unfolding either
  overlap existing found =
      either (contains_directory existing found) (contains_directory found existing)

  -- The check of one resolved child against the roots before it.
  unfoldable pub check_overlaps : FilePath → FilePath → List FilePath → Option RunFailure
  check_overlaps child found [] = none
  check_overlaps child found (r ∷ rs) =
      let rest = check_overlaps child found rs in
      elim (overlap r found) [
        | io_error e ↦ some (resolution_failure e)
        | answer true ↦ some (overlap_failure r child)
        | answer false ↦ rest
      ]

  abbrev pub outside_failure : RunFailure
  outside_failure =
      resolution_failure
        (codes "A child Mod Root cannot resolve to the selected mods directory or its ancestor")

  abbrev checked : FilePath → Option RunFailure → ChildRoot
  checked found none = child_root found
  checked found (some f) = child_fails f

  unfoldable pub check_child : Child → FilePath → FilePath → List FilePath → ChildRoot
  unfolding check_overlaps
  check_child child root found roots =
      elim (either (answer (has_no_parent (parent found))) (contains_directory found root)) [
        | io_error e ↦ child_fails (resolution_failure e)
        | answer true ↦ child_fails outside_failure
        | answer false ↦ checked found (check_overlaps child.path found roots)
      ]

  unfoldable pub resolve_child : Child → FilePath → List FilePath → ChildRoot
  unfolding check_child
  resolve_child child root roots = elim (fs.canonical child.path) [
    | io_error e ↦ child_fails (resolution_failure e)
    | answer found ↦ check_child child root found roots
  ]
