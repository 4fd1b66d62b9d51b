-- ===== src/Tests/Walking.antt =====
-- A Mod Root with a folder, a linked file, a linked folder and CAO staging in it.
use cao.Shared.{ℕ, true, false, List, [], ◌∷◌, ◌++◌, none, some, codes, All, lowercase, ◌≡◌, refl}
use cao.Shared.Paths.{FilePath, normal, compare_text}
use cao.Shared.Prefixes.{strip_prefix}
use cao.Run.Lifecycle.{discovering_archives, building_effective_asset_tree}
use cao.Selection.Names.{is_staging_name}
use cao.Work.Toolset.{Directory, listed, end, broken, entry, direct, linked, file, folder}
use cao.Work.Visit.{visit, visit_directory}
use cao.Work.Discover.{empty_pass, archive_pass}
use cao.Work.Tree.{TreePass, definitive_pass}
use cao.Work.Scope.{within_scope}
use cao.Work.Given.{AllGiven}
use cao.Work.Giving.{archive_pass-gives}
use cao.Work.Beneath.{files_beneath, LiesBeneath}
use cao.Work.Walked.{Follows, visit_lem}
use cao.Work.Diagnosed.{DiagnosesOnce, passes-DiagnoseOnce}
use cao.Tests.Working.{mod_root, tools, never, preparation, idle}

abbrev named : List ℕ → FilePath
named name = mod_root ++ normal name ∷ []

completes :
    (archive_pass tools never preparation.policy preparation.mod_roots empty_pass [] idle).0.0
    ≡ true
unfolding archive_pass visit visit_directory is_staging_name lowercase within_scope
completes = refl

archive_pass-gives_example :
    AllGiven tools preparation.policy idle.world [] preparation.mod_roots
      (archive_pass tools never preparation.policy preparation.mod_roots empty_pass [] idle).0.2
archive_pass-gives_example =
    archive_pass-gives tools preparation.policy never preparation.mod_roots idle completes

abbrev textures : Directory
textures = listed (entry (codes "wood.dds") direct file (broken end))

abbrev tree : Directory
tree = listed (
    entry (codes ".cao-staging") direct (folder textures) (
      entry (codes "textures") direct (folder textures) (
        entry (codes "elsewhere") (linked true none) (folder textures)
          (entry (codes "alias.dds") (linked false (some (named (codes "stone.dds")))) file end))))

abbrev list_file : List FilePath → FilePath → List FilePath
list_file files path = files ++ path ∷ []

visit_lem_example :
    All (LiesBeneath mod_root) (files_beneath mod_root tree)
    × Follows never list_file
        (files_beneath mod_root tree)
        []
        (visit never discovering_archives list_file mod_root tree [] idle)
visit_lem_example = visit_lem never list_file discovering_archives mod_root tree [] idle

-- The file in the folder and the linked file are beneath, the others are not.
two_files_beneath :
    files_beneath mod_root tree
    ≡ (named (codes "textures") ++ normal (codes "wood.dds") ∷ []) ∷ named (codes "alias.dds") ∷ []
unfolding files_beneath is_staging_name strip_prefix lowercase compare_text
two_files_beneath = refl

abbrev empty_tree : TreePass
empty_tree = record { effective_paths = []; nested = [] }

passes-DiagnoseOnce_example :
    DiagnosesOnce discovering_archives idle
      (archive_pass tools never preparation.policy preparation.mod_roots empty_pass [] idle).1
    × DiagnosesOnce building_effective_asset_tree idle
        (definitive_pass tools never preparation.policy [] preparation.mod_roots empty_tree idle).1
passes-DiagnoseOnce_example =
    passes-DiagnoseOnce tools never preparation.policy idle tt preparation.mod_roots [] empty_pass
      [] empty_tree
