-- ===== src/Selection/Resolve.antt =====
-- `resolve_mod_roots` of crates/cao-core/src/run/mod_selection.rs.
use cao.Shared.{ℕ, ◌+◌, not, List, [], ◌∷◌, ◌++◌, map, none, some, if◌then◌else◌, Text}
use cao.Shared.Paths.{FilePath}
use cao.Shared.Ancestors.{parent}
use cao.Run.Lifecycle.{RunFailure}
use cao.Run.Results.{SelectedProfile}
use cao.Request.RunRequest.{ModSelection, single_mod_root, child_mod_roots}
use cao.Evidence.Sinks.{Evidence}
use cao.Evidence.Operations.{record_diagnostic}
use cao.Selection.Names.{Child, folded_name, is_staging_name, mod_exclusion, sort_children}
use cao.Selection.Overlap.{
  Io, answer, io_error, is_directory, not_found, lookup_failed, DirEntry, Filesystem, Token, Lent,
  Resolution, resolved, unresolved, resolution_failure, unresolvable_failure,
  filesystem_root_failure, directory, child_root, child_fails, resolve_child, has_no_parent,
}

-- The loop that reads the entries of the mods directory, in any order.
pub data Listing : Type 0 where
  listed : List Child → Listing
  stopped : Listing
  broken : RunFailure → Listing

abbrev pub diagnosed : Evidence → ℕ → Lent
diagnosed e clock = record { evidence = e; clock = clock }

module _ (fs : Filesystem) (stop : Token) where
  abbrev add_child : DirEntry → Listing → Listing
  add_child e (listed cs) =
      listed
        (record { path = e.path; name = e.name; folded = folded_name fs.to_lowercase e.name } ∷ cs)
  add_child e stopped = stopped
  add_child e (broken f) = broken f

  abbrev list_entry : DirEntry → ℕ → Listing × ℕ → Listing × ℕ
  list_entry e clock rest = if is_staging_name e.name then rest else elim (fs.metadata e.path) [
    | lookup_failed d ↦ (broken (resolution_failure d), clock)
    | not_found ↦ rest
    | is_directory b ↦ if b then (add_child e rest.0, rest.1) else rest
  ]

  -- The children of the entries, and how many samples of the token were taken by then.
  unfoldable pub list_children : ℕ → List (Io DirEntry) → Listing × ℕ
  list_children clock [] = (listed [], clock)
  list_children clock (e ∷ es) =
      let rest = list_children (clock + 1) es in
      if stop clock then (stopped, clock + 1) else elim e [
        | io_error d ↦ (broken (resolution_failure d), clock + 1)
        | answer entry ↦ list_entry entry (clock + 1) rest
      ]

  -- The loop over the sorted children, with the roots so far.
  unfoldable pub resolve_children :
      FilePath → List Text → List Child → List FilePath → Lent → Resolution × Lent
  resolve_children root ignored [] roots l = (resolved roots, l)
  resolve_children root ignored (c ∷ cs) roots l =
      let next = l.clock + 1 in
      let here = record l { clock = next } in
      if stop l.clock then (resolved [], here) else elim (mod_exclusion c ignored) [
        | some d ↦
            resolve_children root ignored cs roots (diagnosed (record_diagnostic d l.evidence) next)
        | none ↦ elim (resolve_child fs c root roots) [
          | child_fails f ↦ (unresolved f, here)
          | child_root found ↦ resolve_children root ignored cs (roots ++ found ∷ []) here
        ]
      ]

  unfoldable pub after_listing : FilePath → SelectedProfile → Listing × ℕ → Lent → Resolution × Lent
  unfolding resolve_children
  after_listing root profile (listed cs, clock) l =
      resolve_children root (map (folded_name fs.to_lowercase) profile.ignored_mods)
        (sort_children cs) [] (record l { clock = clock })
  after_listing root profile (stopped, clock) l = (resolved [], record l { clock = clock })
  after_listing root profile (broken f, clock) l = (unresolved f, record l { clock = clock })

  unfoldable pub of_directory : FilePath → SelectedProfile → Lent → Resolution × Lent
  unfolding after_listing list_children
  of_directory root profile l = elim (fs.read_dir root) [
    | io_error e ↦ (unresolved (resolution_failure e), l)
    | answer es ↦ after_listing root profile (list_children l.clock es) l
  ]

  unfoldable pub of_selection : ModSelection → FilePath → SelectedProfile → Lent → Resolution × Lent
  unfolding of_directory
  of_selection (single_mod_root _) root profile l = (resolved (root ∷ []), l)
  of_selection (child_mod_roots _) root profile l = of_directory root profile l

  unfoldable pub of_root : Io FilePath → ModSelection → SelectedProfile → Lent → Resolution × Lent
  unfolding of_selection
  of_root (io_error e) selection profile l = (unresolved unresolvable_failure, l)
  of_root (answer root) selection profile l =
      if not (fs.is_dir root)
      then (unresolved unresolvable_failure, l)
      else if has_no_parent (parent root)
      then (unresolved filesystem_root_failure, l)
      else of_selection selection root profile l

  -- `resolve_mod_roots`
  unfoldable pub resolve_mod_roots : ModSelection → SelectedProfile → Lent → Resolution × Lent
  unfolding of_root
  resolve_mod_roots selection profile l =
      of_root (fs.canonical (directory selection)) selection profile l
