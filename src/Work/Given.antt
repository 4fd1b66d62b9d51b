-- ===== src/Work/Given.antt =====
-- What the Archive pass of `discover_archives` (crates/cao-core/src/run/executor/work_phases.rs) finds
-- for the preflight.
use mathlib.Core.List.{Perm}
use cao.Shared.{
  true, false, not, List, [], ◌∷◌, ◌++◌, ◌≡◌, refl, sym, ◌∙◌, subst, inl, inr, map, filter,
  Bool-cases, Text, append_assoc, append-nil, if◌then◌else◌,
}
use cao.Shared.Paths.{FilePath}
use cao.Shared.Prefixes.{contains}
use cao.Routing.Policy.{RoutingPolicy}
use cao.Routing.Route.{RoutingDecision, routed, skipped, unsupported, route, is_routed}
use cao.Work.Toolset.{Toolset, RootArchives}
use cao.Work.GamePaths.{relative_game_path, sort_archives, archive_order_key}
use cao.Work.Discover.{ArchivePass, enter_archive, visit_archive, names_an_archive, root_archives}
use cao.Work.Beneath.{files_beneath}
use cao.Work.Walked.{visit_all}
use cao.Work.Ordered.{Ascends, key_of, root_archives-ordered}

-- The paths that have not been seen, each once.
pub fresh : List FilePath → List FilePath → List FilePath
fresh seen [] = []
fresh seen (p ∷ ps) = if contains seen p then fresh seen ps else p ∷ fresh (p ∷ seen) ps

-- The paths, the latest first, before those that had been seen.
abbrev pub seen_then : List FilePath → List FilePath → List FilePath
seen_then [] seen = seen
seen_then (p ∷ ps) seen = seen_then ps (p ∷ seen)

module _ {A W : Type 0} (tools : Toolset A W) (policy : RoutingPolicy) where
  -- The Archives among files that no earlier root had.
  abbrev pub new_archives : List FilePath → List FilePath → List FilePath
  new_archives seen files = fresh seen (filter (names_an_archive policy) files)

  abbrev pub loose_of : FilePath → List FilePath → List Text
  loose_of root files =
      map (relative_game_path tools.to_string_lossy root)
        (filter (λ p. not (names_an_archive policy p)) files)

  -- Among the files beneath the root, the given Archives are those that no earlier root had and that
  -- the policy routes, each once and in ascending order, and the loose names are those of the rest.
  pub record IsGiven (seen files : List FilePath) (root : FilePath) (given : RootArchives)
      : Type 0 where
    pub same_root : given.root ≡ root
    pub selected :
        Perm given.archives (filter (λ p. is_routed (route policy p)) (new_archives seen files))
    pub ascending : Ascends (key_of tools root) given.archives
    pub names : given.loose ≡ loose_of root files

  -- One for each Mod Root, in their order, over what is on the disk.
  abbrev pub AllGiven : W → List FilePath → List FilePath → List RootArchives → Type 0
  AllGiven world seen [] gs = gs ≡ []
  AllGiven world seen (root ∷ roots) [] = ⊥
  AllGiven world seen (root ∷ roots) (g ∷ gs) =
      IsGiven seen (files_beneath root (tools.tree world root)) root g
      × AllGiven world
          (seen_then (new_archives seen (files_beneath root (tools.tree world root))) seen) roots gs

  -- What the visitor has made of files, from a pass.
  pub record Collected (files : List FilePath) (root : FilePath) (pass made : ArchivePass)
      : Type 0 where
    pub recognizes :
        made.recognized ≡ seen_then (new_archives pass.recognized files) pass.recognized
    pub selects :
        made.selected
        ≡ pass.selected
          ++ filter (λ p. is_routed (route policy p)) (new_archives pass.recognized files)
    pub loosens : made.loose ≡ pass.loose ++ loose_of root files

  module _ (root : FilePath) where
    visit_archive_loose :
        (p : FilePath) (pass : ArchivePass)
        → names_an_archive policy p ≡ false
        → visit_archive tools policy root pass p ≡ record pass {
          loose = pass.loose ++ relative_game_path tools.to_string_lossy root p ∷ [];
        }
    unfolding visit_archive
    visit_archive_loose p pass h = rw h refl

    visit_archive_again :
        (p : FilePath) (pass : ArchivePass)
        → names_an_archive policy p ≡ true
        → contains pass.recognized p ≡ true
        → visit_archive tools policy root pass p ≡ pass
    unfolding visit_archive
    visit_archive_again p pass h k = rw (h, k) refl

    visit_archive_new :
        (p : FilePath) (pass : ArchivePass)
        → names_an_archive policy p ≡ true
        → contains pass.recognized p ≡ false
        → visit_archive tools policy root pass p
          ≡ enter_archive (route policy p) p (record pass { recognized = p ∷ pass.recognized })
    unfolding visit_archive
    visit_archive_new p pass h k = rw (h, k) refl

    module _ (p : FilePath) (ps : List FilePath) (pass made : ArchivePass) where
      collects_loose :
          names_an_archive policy p ≡ false
          → Collected ps root
              (record pass {
                loose = pass.loose ++ relative_game_path tools.to_string_lossy root p ∷ [];
              })
              made
          → Collected (p ∷ ps) root pass made
      collects_loose h c = record {
        recognizes = rw h c.recognizes;
        selects = rw h c.selects;
        loosens = rw h (
            c.loosens
            ∙ append_assoc pass.loose (relative_game_path tools.to_string_lossy root p ∷ [])
                (loose_of root ps));
      }

      collects_again :
          names_an_archive policy p ≡ true
          → contains pass.recognized p ≡ true
          → Collected ps root pass made
          → Collected (p ∷ ps) root pass made
      unfolding fresh
      collects_again h k c = record {
        recognizes = rw (h, k) c.recognizes;
        selects = rw (h, k) c.selects;
        loosens = rw h c.loosens;
      }

      collects_new :
          (d : RoutingDecision)
          → route policy p ≡ d
          → names_an_archive policy p ≡ true
          → contains pass.recognized p ≡ false
          → Collected ps root
              (enter_archive d p (record pass { recognized = p ∷ pass.recognized }))
              made
          → Collected (p ∷ ps) root pass made
      unfolding fresh
      collects_new (routed a) e h k c = record {
        recognizes = rw (h, k) c.recognizes;
        selects =
            rw (h, k, e)
              (c.selects
                ∙ append_assoc pass.selected (p ∷ []) (
                    filter (λ q. is_routed (route policy q))
                      (fresh (p ∷ pass.recognized) (filter (names_an_archive policy) ps))));
        loosens = rw h c.loosens;
      }
      collects_new (skipped a) e h k c = record {
        recognizes = rw (h, k) c.recognizes;
        selects = rw (h, k, e) c.selects;
        loosens = rw h c.loosens;
      }
      collects_new unsupported e h k c = record {
        recognizes = rw (h, k) c.recognizes;
        selects = rw (h, k, e) c.selects;
        loosens = rw h c.loosens;
      }

    pub collects :
        (files : List FilePath) (pass : ArchivePass)
        → Collected files root pass (visit_all (visit_archive tools policy root) files pass)
    unfolding fresh
    collects [] pass = record {
      recognizes = refl;
      selects = sym (append-nil pass.selected);
      loosens = sym (append-nil pass.loose);
    }
    collects (p ∷ ps) pass = elim (Bool-cases (names_an_archive policy p)) [
      | inr h ↦ rw (visit_archive_loose p pass h) (collects_loose p ps pass _ h (collects ps _))
      | inl h ↦ elim (Bool-cases (contains pass.recognized p)) [
        | inl k ↦
            rw (visit_archive_again p pass h k) (collects_again p ps pass _ h k (collects ps pass))
        | inr k ↦
            rw (visit_archive_new p pass h k)
              (collects_new p ps pass _ (route policy p) refl h k (collects ps _))
      ]
    ]

    pub root_archives-IsGiven :
        (files : List FilePath) (pass made : ArchivePass)
        → pass.selected ≡ []
        → pass.loose ≡ []
        → Collected files root pass made
        → IsGiven pass.recognized files root (root_archives tools root made)
    unfolding sort_archives archive_order_key relative_game_path
    root_archives-IsGiven files pass made no_archives no_names c =
        let (same, ascending) = root_archives-ordered tools root made in
        record {
          same_root = refl;
          selected =
              subst (λ (ps : List FilePath). Perm (root_archives tools root made).archives ps)
                (rw no_archives at c.selects) same;
          ascending = ascending;
          names = rw no_names at c.loosens;
        }
