-- ===== src/Work/Giving.antt =====
-- The Archive pass of `discover_archives` (crates/cao-core/src/run/executor/work_phases.rs) over all
-- Mod Roots.
use cao.Shared.{
  true, false, List, [], ◌∷◌, ◌++◌, ◌≡◌, refl, sym, ◌∙◌, subst, inl, inr, Bool-cases, Text,
  append_assoc, append-nil,
}
use cao.Shared.Paths.{FilePath}
use cao.Shared.Prefixes.{contains}
use cao.Routing.Policy.{RoutingPolicy}
use cao.Run.Lifecycle.{discovering_archives}
use cao.Selection.Overlap.{Token}
use cao.Work.Toolset.{Toolset, RootArchives}
use cao.Work.Worker.{Worker}
use cao.Work.Scope.{exclude}
use cao.Work.Visit.{visit, Walked}
use cao.Work.Discover.{
  ArchivePass, empty_pass, visit_archive, root_archives, next_root, archive_pass,
}
use cao.Work.Beneath.{files_beneath}
use cao.Work.Walked.{Follows-complete, visit_lem}
use cao.Work.Visited
use cao.Work.Given.{Collected, AllGiven, collects, root_archives-IsGiven, new_archives, seen_then}

module _ {A W : Type 0} (tools : Toolset A W) (policy : RoutingPolicy) where
  exclude-world :
      (path : FilePath) (detail : Text) (world : W) (t : Worker A W)
      → t.world ≡ world
      → (exclude discovering_archives path detail t).world ≡ world
  unfolding exclude
  exclude-world path detail world t h = elim (Bool-cases (contains t.diagnosed path)) [
    | inl c ↦ rw c h
    | inr c ↦ rw c h
  ]

  module _ (stop : Token) where
    walk_of : FilePath → ArchivePass → Worker A W → Walked A W ArchivePass
    walk_of root pass w =
        visit stop discovering_archives (visit_archive tools policy root) root
          (tools.tree w.world root) (next_root pass) w

    walk-world :
        (root : FilePath) (pass : ArchivePass) (w : Worker A W)
        → (walk_of root pass w).2.world ≡ w.world
    unfolding walk_of
    walk-world root pass w =
        Visited.visit_keeps (λ (t : Worker A W). t.world ≡ w.world) (λ t h. h) stop
          discovering_archives (λ path detail t h. exclude-world path detail w.world t h)
          (visit_archive tools policy root) root (tools.tree w.world root) (next_root pass) w refl

    walk-Collected :
        (root : FilePath) (pass : ArchivePass) (w : Worker A W)
        → (walk_of root pass w).0 ≡ true
        → Collected tools policy
            (files_beneath root (tools.tree w.world root))
            root
            (next_root pass)
            (walk_of root pass w).1
    unfolding walk_of
    walk-Collected root pass w h =
        let files = files_beneath root (tools.tree w.world root) in
        let visitor = visit_archive tools policy root in
        let (within, follows) =
          visit_lem stop visitor discovering_archives root (tools.tree w.world root)
            (next_root pass) w in
        subst (λ (made : ArchivePass). Collected tools policy files root (next_root pass) made)
          (sym
            (Follows-complete stop visitor files (next_root pass) (walk_of root pass w) follows h))
          (collects tools policy root files (next_root pass))

    archive_pass-AllGiven :
        (roots : List FilePath) (pass : ArchivePass) (done : List RootArchives) (w : Worker A W)
        → (archive_pass tools stop policy roots pass done w).0.0 ≡ true
        → (gs : List RootArchives) × ((archive_pass tools stop policy roots pass done w).0.2
            ≡ done ++ gs)
          × AllGiven tools policy w.world pass.recognized roots gs
    unfolding archive_pass walk_of
    archive_pass-AllGiven [] pass done w h = ([], sym (append-nil done), refl)
    archive_pass-AllGiven (root ∷ roots) pass done w h = elim (Bool-cases (walk_of root pass w).0) [
      | inr c ↦ let no : false ≡ true = rw c at h in absurd (cc no)
      | inl c ↦
          let walked = walk_of root pass w in
          let g = root_archives tools root walked.1 in
          let made = walk-Collected root pass w c in
          let (gs, split, others) =
            archive_pass-AllGiven roots walked.1 (done ++ g ∷ []) walked.2 (rw c at h) in
          (
            g ∷ gs,
            rw c (split ∙ append_assoc done (g ∷ []) gs),
            (
              root_archives-IsGiven tools policy root (files_beneath root (tools.tree w.world root))
                  (next_root pass) walked.1 refl refl made,
              subst
                  (λ (world : W).
                    AllGiven tools policy world
                      (seen_then
                        (new_archives tools policy pass.recognized
                          (files_beneath root (tools.tree w.world root)))
                        pass.recognized)
                      roots gs)
                  (walk-world root pass w)
                  (subst
                    (λ (seen : List FilePath). AllGiven tools policy walked.2.world seen roots gs)
                    made.recognizes others),
            ),
          )
    ]

    -- What a complete Archive pass finds for the preflight is, for each Mod Root in order, the Archives
    -- among the files beneath it that no earlier root had and that the policy routes, each once and
    -- in ascending order of their folded names, then their names, and the game paths of the other
    -- files beneath it.
    pub archive_pass-gives :
        (roots : List FilePath) (w : Worker A W)
        → (archive_pass tools stop policy roots empty_pass [] w).0.0 ≡ true
        → AllGiven tools policy w.world [] roots
            (archive_pass tools stop policy roots empty_pass [] w).0.2
    archive_pass-gives roots w h =
        let (gs, same, given) = archive_pass-AllGiven roots empty_pass [] w h in
        subst (λ (rs : List RootArchives). AllGiven tools policy w.world [] roots rs) (sym same)
          given
