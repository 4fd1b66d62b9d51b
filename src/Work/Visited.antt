-- ===== src/Work/Visited.antt =====
-- What the walks of crates/cao-core/src/run/executor/work_phases.rs keep.
use cao.Shared.{
  Bool, true, false, List, [], ◌∷◌, ◌++◌, inl, inr, Bool-cases, if◌then◌else◌, Option-cases, Text,
}
use cao.Shared.Paths.{FilePath, normal, file_name}
use cao.Routing.Policy.{RoutingPolicy}
use cao.Run.Lifecycle.{RunPhase, discovering_archives, building_effective_asset_tree}
use cao.Selection.Names.{is_staging_name}
use cao.Selection.Overlap.{Token}
use cao.Work.Toolset.{
  Link, Directory, unreadable, listed, Entries, end, broken, entry, Content, file, other, folder,
  Toolset, RootArchives,
}
use cao.Work.Worker.{Worker, tick}
use cao.Work.Scope.{exclude, excluded_detail, within_scope}
use cao.Work.Visit.{
  names_staging, Walked, after_scope, when_complete, visit, visit_directory, visit_entries,
  visit_content,
}
use cao.Work.Discover.{ArchivePass, archive_pass, visit_archive, next_root, root_archives}
use cao.Work.Tree.{TreePass, definitive_pass, visit_effective}

-- What samples of the token and exclusions keep, a walk keeps.
module _ {A W : Type 0} (P : Worker A W → Type 0) (ticks : (w : Worker A W) → P w → P (tick w))
    (stop : Token) where
  module _ (phase : RunPhase)
      (excludes : (path : FilePath) (detail : Text) (w : Worker A W)
        → P w
        → P (exclude phase path detail w)) where
    within_scope_keeps :
        (path root : FilePath) (link : Link) (w : Worker A W)
        → P w
        → P (within_scope phase path root link w).1
    unfolding within_scope
    within_scope_keeps path root link w h = elim (Option-cases (excluded_detail root link)) [
      | inl c ↦ rw c h
      | inr (detail, c) ↦ rw c (excludes path detail w h)
    ]

    module _ {V : Type 0} (visitor : V → FilePath → V) where
      if_keeps : (b : Bool) (x y : Walked A W V) → P x.2 → P y.2 → P (if b then x else y).2
      if_keeps true x y h k = h
      if_keeps false x y h k = k

      mutual
        unfolding visit_directory

        visit_directory_keeps :
            (root path : FilePath) (d : Directory) (v : V) (w : Worker A W)
            → P w
            → P (visit_directory stop phase visitor root path d v w).2
        visit_directory_keeps root path unreadable v w h = h
        visit_directory_keeps root path (listed es) v w h = visit_entries_keeps root path es v w h

        visit_entries_keeps :
            (root path : FilePath) (es : Entries) (v : V) (w : Worker A W)
            → P w
            → P (visit_entries stop phase visitor root path es v w).2
        visit_entries_keeps root path end v w h = h
        visit_entries_keeps root path (broken es) v w h = elim (Bool-cases (stop w.clock)) [
          | inl c ↦ rw c (ticks w h)
          | inr c ↦ rw c (visit_entries_keeps root path es v (tick w) (ticks w h))
        ]
        visit_entries_keeps root path (entry name link content es) v w h =
            let here = path ++ normal name ∷ [] in
            let scoped = within_scope phase here root link (tick w) in
            let content_walk = visit_content stop phase visitor root here content v scoped.1 in
            let inside =
              if is_staging_name name
              then (true, v, tick w)
              else after_scope v scoped content_walk in
            let rest = visit_entries stop phase visitor root path es inside.1 inside.2 in
            let scope_holds = within_scope_keeps here root link (tick w) (ticks w h) in
            let content_holds = visit_content_keeps root here content v scoped.1 scope_holds in
            let inside_holds : P inside.2 =
              if_keeps (is_staging_name name) (true, v, tick w) (after_scope v scoped content_walk)
                (ticks w h)
                (if_keeps scoped.0 content_walk (true, v, scoped.1) content_holds scope_holds) in
            let rest_holds = visit_entries_keeps root path es inside.1 inside.2 inside_holds in
            if_keeps (stop w.clock) (false, v, tick w) (when_complete inside rest) (ticks w h)
              (if_keeps inside.0 rest inside rest_holds inside_holds)

        visit_content_keeps :
            (root path : FilePath) (content : Content) (v : V) (w : Worker A W)
            → P w
            → P (visit_content stop phase visitor root path content v w).2
        visit_content_keeps root path file v w h = h
        visit_content_keeps root path other v w h = h
        visit_content_keeps root path (folder d) v w h = visit_directory_keeps root path d v w h

      pub visit_keeps :
          (root : FilePath) (d : Directory) (v : V) (w : Worker A W)
          → P w
          → P (visit stop phase visitor root d v w).2
      unfolding visit
      visit_keeps root d v w h =
          if_keeps (names_staging (file_name root)) (true, v, w)
            (visit_directory stop phase visitor root root d v w) h
            (visit_directory_keeps root root d v w h)

  module _ (tools : Toolset A W) (policy : RoutingPolicy)
      (excludes : (path : FilePath) (detail : Text) (w : Worker A W)
        → P w
        → P (exclude discovering_archives path detail w)) where
    pub archive_pass_keeps :
        (roots : List FilePath) (pass : ArchivePass) (done : List RootArchives) (w : Worker A W)
        → P w
        → P (archive_pass tools stop policy roots pass done w).1
    unfolding archive_pass
    archive_pass_keeps [] pass done w h = h
    archive_pass_keeps (root ∷ roots) pass done w h =
        let visitor = visit_archive tools policy root in
        let walked =
          visit stop discovering_archives visitor root (tools.tree w.world root) (next_root pass)
            w in
        let here =
          visit_keeps discovering_archives excludes visitor root (tools.tree w.world root)
            (next_root pass) w h in
        elim (Bool-cases walked.0) [
          | inr c ↦ rw c here
          | inl c ↦ rw c (
              archive_pass_keeps roots walked.1 (done ++ root_archives tools root walked.1 ∷ [])
                walked.2 here)
        ]

  module _ (tools : Toolset A W) (policy : RoutingPolicy)
      (excludes : (path : FilePath) (detail : Text) (w : Worker A W)
        → P w
        → P (exclude building_effective_asset_tree path detail w)) where
    pub definitive_pass_keeps :
        (recognized roots : List FilePath) (pass : TreePass) (w : Worker A W)
        → P w
        → P (definitive_pass tools stop policy recognized roots pass w).1
    unfolding definitive_pass
    definitive_pass_keeps recognized [] pass w h = h
    definitive_pass_keeps recognized (root ∷ roots) pass w h =
        let visitor = visit_effective policy recognized in
        let walked =
          visit stop building_effective_asset_tree visitor root (tools.tree w.world root) pass w in
        let here =
          visit_keeps building_effective_asset_tree excludes visitor root (tools.tree w.world root)
            pass w h in
        elim (Bool-cases walked.0) [
          | inr c ↦ rw c here
          | inl c ↦ rw c (definitive_pass_keeps recognized roots walked.1 walked.2 here)
        ]
