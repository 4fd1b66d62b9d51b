-- ===== src/Selection/Disjoint.antt =====
-- The Mod Roots of crates/cao-core/src/run/mod_selection.rs and the containment between them.
use cao.Shared.{
  ℕ, ◌+◌, Bool, true, false, List, [], ◌∷◌, ◌++◌, map, none, ◌≡◌, ◌⊎◌, inl, inr, refl, sym, arith,
  Bool-cases, Option-cases, All, All-append, Text,
}
use cao.Shared.Paths.{FilePath}
use cao.Shared.Ancestors.{parent}
use cao.Run.Results.{SelectedProfile}
use cao.Request.RunRequest.{ModSelection, is_several_mods, single_mod_root, child_mod_roots}
use cao.Evidence.Operations.{record_diagnostic}
use cao.Selection.Names.{Child, folded_name, sort_children, mod_exclusion}
use cao.Selection.Overlap.{
  Io-cases, ChildRoot-cases, Io, answer, io_error, Filesystem, Token, Lent, resolved, directory,
  contains_directory, overlap, check_overlaps, child_root, check_child, resolve_child,
  has_no_parent, either,
}
use cao.Selection.Resolve.{
  diagnosed, Listing, listed, stopped, broken, list_children, after_listing, of_directory,
  of_selection, of_root, resolve_children, resolve_mod_roots,
}

module _ (fs : Filesystem) where
  -- Neither of two directories is the other or lies beneath it, by directory identity.
  abbrev pub IsApart : FilePath → FilePath → Type 0
  IsApart a b =
      (contains_directory fs a b ≡ answer false) × (contains_directory fs b a ≡ answer false)

  abbrev pub Apart : List FilePath → Type 0
  Apart [] = Unit
  Apart (r ∷ rs) = All (IsApart r) rs × Apart rs

  -- A root of Several Mods is no filesystem root and does not contain the mods directory.
  abbrev pub IsBelow : FilePath → FilePath → Type 0
  IsBelow root r =
      (has_no_parent (parent r) ≡ false) × (contains_directory fs r root ≡ answer false)

  either-false :
      (a b : Io Bool) → either a b ≡ answer false → (a ≡ answer false) × (b ≡ answer false)
  unfolding either
  either-false (io_error e) b h = absurd (ground arith)
  either-false (answer true) b h = absurd (ground arith)
  either-false (answer false) b h = (refl, h)

  check_overlaps-none :
      (child found : FilePath) (roots : List FilePath)
      → check_overlaps fs child found roots ≡ none
      → All (λ r. IsApart r found) roots
  unfolding check_overlaps overlap
  check_overlaps-none child found [] h = tt
  check_overlaps-none child found (r ∷ rs) h = elim (Io-cases (overlap fs r found)) [
    | inl (e, q) ↦ absurd (ground arith)
    | inr (true, q) ↦ absurd (ground arith)
    | inr (false, q) ↦ (
      either-false (contains_directory fs r found) (contains_directory fs found r) q,
      check_overlaps-none child found rs (ground arith),
    )
  ]

  check_child-lem :
      (c : Child) (root found out : FilePath) (roots : List FilePath)
      → check_child fs c root found roots ≡ child_root out
      → (out ≡ found) × All (λ r. IsApart r found) roots × IsBelow root found
  unfolding check_child
  check_child-lem c root found out roots h =
      elim (Io-cases
        (either (answer (has_no_parent (parent found))) (contains_directory fs found root))) [
          | inl (e, q) ↦ absurd (ground arith)
          | inr (true, q) ↦ absurd (ground arith)
          | inr (false, q) ↦
              let below =
                either-false (answer (has_no_parent (parent found)))
                  (contains_directory fs found root) q in
              elim (Option-cases (check_overlaps fs c.path found roots)) [
                | inr (f, k) ↦ absurd (ground arith)
                | inl k ↦ (
                  ground arith,
                  check_overlaps-none c.path found roots k,
                  (ground arith, below.1),
                )
              ]
        ]

  resolve_child-lem :
      (c : Child) (root found : FilePath) (roots : List FilePath)
      → resolve_child fs c root roots ≡ child_root found
      → All (λ r. IsApart r found) roots × IsBelow root found
  unfolding resolve_child
  resolve_child-lem c root found roots h = elim (Io-cases (fs.canonical c.path)) [
    | inl (e, q) ↦ absurd (ground arith)
    | inr (p, q) ↦
        let (same, apart, below) = check_child-lem c root p found roots (ground arith) in
        rw same (apart, below)
  ]

  Apart-concat :
      (roots : List FilePath) (found : FilePath)
      → Apart roots
      → All (λ r. IsApart r found) roots
      → Apart (roots ++ found ∷ [])
  Apart-concat [] found a h = (tt, tt)
  Apart-concat (r ∷ rs) found a h =
      (All-append (IsApart r) rs (found ∷ []) a.0 (h.0, tt), Apart-concat rs found a.1 h.1)

  module _ (stop : Token) (root : FilePath) (ignored : List Text) where
    resolve_children-Apart :
        (cs : List Child) (roots : List FilePath) (l : Lent) (out : List FilePath)
        → Apart roots
        → All (IsBelow root) roots
        → (resolve_children fs stop root ignored cs roots l).0 ≡ resolved out
        → Apart out × All (IsBelow root) out
    unfolding resolve_children
    resolve_children-Apart [] roots l out a b h =
        let same : roots ≡ out = ground arith in rw (sym same) (a, b)
    resolve_children-Apart (c ∷ cs) roots l out a b h = elim (Bool-cases (stop l.clock)) [
      | inl q ↦ let same : [] ≡ out = ground arith in rw (sym same) (tt, tt)
      | inr q ↦ elim (Option-cases (mod_exclusion c ignored)) [
        | inr (d, k) ↦
            resolve_children-Apart cs roots
              (diagnosed (record_diagnostic d l.evidence) (l.clock + 1)) out a b (ground arith)
        | inl k ↦ elim (ChildRoot-cases (resolve_child fs c root roots)) [
          | inl (f, m) ↦ absurd (ground arith)
          | inr (found, m) ↦
              let (apart, below) = resolve_child-lem c root found roots m in
              resolve_children-Apart cs (roots ++ found ∷ []) (record l { clock = l.clock + 1 }) out
                (Apart-concat roots found a apart)
                (All-append (IsBelow root) roots (found ∷ []) b (below, tt)) (ground arith)
        ]
      ]
    ]

module _ (fs : Filesystem) (stop : Token) (root : FilePath) (profile : SelectedProfile) where
  of_directory-Apart :
      (l : Lent) (out : List FilePath)
      → (of_directory fs stop root profile l).0 ≡ resolved out
      → Apart fs out × All (IsBelow fs root) out
  unfolding of_directory after_listing
  of_directory-Apart l out h = elim (Io-cases (fs.read_dir root)) [
    | inl (e, q) ↦ absurd (ground arith)
    | inr (es, q) ↦ go (list_children fs stop l.clock es) (ground arith)
  ]
    where
      go :
          (x : Listing × ℕ)
          → (after_listing fs stop root profile x l).0 ≡ resolved out
          → Apart fs out × All (IsBelow fs root) out
      go (listed cs, clock) h =
          resolve_children-Apart fs stop root
            (map (folded_name fs.to_lowercase) profile.ignored_mods) (sort_children cs) []
            (record l { clock = clock }) out tt tt h
      go (stopped, clock) h = let same : [] ≡ out = ground arith in rw (sym same) (tt, tt)
      go (broken f, clock) h = absurd (ground arith)

-- No two Mod Roots that Preparing resolves are, or contain, one another, by directory identity; a
-- root of Several Mods is no filesystem root and neither is nor contains the canonical mods
-- directory.
pub resolve_mod_roots-Apart :
    (fs : Filesystem) (stop : Token) (selection : ModSelection) (profile : SelectedProfile)
    (l : Lent) (root : FilePath) (out : List FilePath)
    → fs.canonical (directory selection) ≡ answer root
    → (resolve_mod_roots fs stop selection profile l).0 ≡ resolved out
    → Apart fs out × ((is_several_mods selection ≡ false) ⊎ All (IsBelow fs root) out)
unfolding resolve_mod_roots of_root of_selection
resolve_mod_roots-Apart fs stop (single_mod_root d) profile l root out q h =
    let same : root ∷ [] ≡ out = ground arith in rw (sym same) ((tt, tt), inl refl)
resolve_mod_roots-Apart fs stop (child_mod_roots d) profile l root out q h =
    let (apart, below) = of_directory-Apart fs stop root profile l out (ground arith) in
    (apart, inr below)
