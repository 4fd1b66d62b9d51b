-- ===== src/Work/Beneath.antt =====
-- The files beneath a Mod Root that a walk of `Discovery`
-- (crates/cao-core/src/run/executor/work_phases.rs) may visit.
use cao.Shared.{
  Bool, true, false, not, ◌&&◌, List, [], ◌∷◌, ◌++◌, none, some, ◌≡◌, refl, sym, ap, ◌∙◌, inl, inr,
  Bool-cases, if◌then◌else◌, any, map, map-append, append-nil, All, All-append, Text, append_assoc,
}
use cao.Shared.Paths.{FilePath, normal, file_name, component_text}
use cao.Shared.Prefixes.{strip_prefix}
use cao.Selection.Names.{is_staging_name}
use cao.Work.Toolset.{
  Link, vanished, direct, linked, Directory, unreadable, listed, Entries, end, broken, entry,
  Content, file, other, folder,
}
use cao.Work.Visit.{names_staging}

-- An entry that may be entered: it is there, and it is no link, or one to what is no directory and
-- resolves into the Mod Root, outside CAO staging.
abbrev pub is_in_scope : FilePath → Link → Bool
unfolding is_staging_name
is_in_scope root vanished = false
is_in_scope root direct = true
is_in_scope root (linked true resolved) = false
is_in_scope root (linked false none) = false
is_in_scope root (linked false (some resolved)) = elim (strip_prefix resolved root) [
  | none ↦ false
  | some relative ↦ not (any (λ c. is_staging_name (component_text c)) relative)
]

-- The files that a walk may visit, in the order of enumeration.
unfoldable mutual
  pub files_of : FilePath → FilePath → Directory → List FilePath
  files_of root path unreadable = []
  files_of root path (listed es) = files_in root path es

  pub files_in : FilePath → FilePath → Entries → List FilePath
  files_in root path end = []
  files_in root path (broken es) = files_in root path es
  files_in root path (entry name link content es) =
      (if not (is_staging_name name) && is_in_scope root link
        then files_at root (path ++ normal name ∷ []) content
        else [])
      ++ files_in root path es

  pub files_at : FilePath → FilePath → Content → List FilePath
  files_at root path file = path ∷ []
  files_at root path other = []
  files_at root path (folder d) = files_of root path d

unfoldable pub files_beneath : FilePath → Directory → List FilePath
unfolding files_of file_name
files_beneath root d = if names_staging (file_name root) then [] else files_of root root d

-- The path is that of the Mod Root with names after it, none of which is one of CAO staging.
abbrev pub LiesBeneath : FilePath → FilePath → Type 0
LiesBeneath root path =
    (names : List Text) × (path ≡ root ++ map normal names)
    × All (λ name. is_staging_name name ≡ false) names

LiesBeneath-name :
    (root path : FilePath) (name : Text)
    → is_staging_name name ≡ false
    → LiesBeneath root path
    → LiesBeneath root (path ++ normal name ∷ [])
LiesBeneath-name root path name e (names, same, others) = (
  names ++ name ∷ [],
  ap (λ (p : FilePath). p ++ normal name ∷ []) same
      ∙ append_assoc root (map normal names) (normal name ∷ [])
      ∙ ap (λ (p : FilePath). root ++ p) (sym (map-append normal names (name ∷ []))),
  All-append (λ n. is_staging_name n ≡ false) names (name ∷ []) others (e, tt),
)

All-if :
    (P : FilePath → Type 0) (staging in_scope : Bool) (fs : List FilePath)
    → (staging ≡ false → All P fs)
    → All P (if not staging && in_scope then fs else [])
All-if P true in_scope fs h = tt
All-if P false true fs h = h refl
All-if P false false fs h = tt

mutual
  unfolding files_of

  files_of-LieBeneath :
      (root path : FilePath) (d : Directory)
      → LiesBeneath root path
      → All (LiesBeneath root) (files_of root path d)
  files_of-LieBeneath root path unreadable h = tt
  files_of-LieBeneath root path (listed es) h = files_in-LieBeneath root path es h

  files_in-LieBeneath :
      (root path : FilePath) (es : Entries)
      → LiesBeneath root path
      → All (LiesBeneath root) (files_in root path es)
  files_in-LieBeneath root path end h = tt
  files_in-LieBeneath root path (broken es) h = files_in-LieBeneath root path es h
  files_in-LieBeneath root path (entry name link content es) h =
      let here = path ++ normal name ∷ [] in
      All-append (LiesBeneath root)
        (if not (is_staging_name name) && is_in_scope root link
          then files_at root here content
          else [])
        (files_in root path es)
        (All-if (LiesBeneath root) (is_staging_name name) (is_in_scope root link)
          (files_at root here content)
          (λ e. files_at-LieBeneath root here content (LiesBeneath-name root path name e h)))
        (files_in-LieBeneath root path es h)

  files_at-LieBeneath :
      (root path : FilePath) (content : Content)
      → LiesBeneath root path
      → All (LiesBeneath root) (files_at root path content)
  files_at-LieBeneath root path file h = (h, tt)
  files_at-LieBeneath root path other h = tt
  files_at-LieBeneath root path (folder d) h = files_of-LieBeneath root path d h

pub files_beneath-LieBeneath :
    (root : FilePath) (d : Directory) → All (LiesBeneath root) (files_beneath root d)
unfolding files_beneath
files_beneath-LieBeneath root d = elim (Bool-cases (names_staging (file_name root))) [
  | inl e ↦ rw e tt
  | inr e ↦ rw e (files_of-LieBeneath root root d ([], sym (append-nil root), tt))
]
