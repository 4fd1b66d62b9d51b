-- ===== src/Work/Diagnosed.antt =====
-- The linked entries that the walks of crates/cao-core/src/run/executor/work_phases.rs diagnose.
use cao.Shared.{
  false, List, [], ◌∷◌, ◌++◌, ◌≡◌, refl, sym, ap, ◌∙◌, inl, inr, Bool-cases, map, map-append,
  append-nil, append_assoc, Text,
}
use cao.Shared.Paths.{FilePath}
use cao.Shared.Prefixes.{contains}
use cao.Routing.Policy.{RoutingPolicy}
use cao.Run.Lifecycle.{RunPhase, discovering_archives, building_effective_asset_tree}
use cao.Evidence.Operations.{Operation, keep_diagnostic}
use cao.Selection.Overlap.{Token}
use cao.Work.Toolset.{Toolset, RootArchives}
use cao.Work.Worker.{Worker}
use cao.Work.Scope.{exclusion, exclude}
use cao.Work.Discover.{ArchivePass, archive_pass}
use cao.Work.Tree.{TreePass, definitive_pass}
use cao.Work.Visited.{archive_pass_keeps, definitive_pass_keeps}

-- A set of paths without repetition.
abbrev pub IsDistinct : List FilePath → Type 0
IsDistinct [] = Unit
IsDistinct (p ∷ ps) = (contains ps p ≡ false) × IsDistinct ps

-- The recording steps for excluded entries, each with its detail.
abbrev pub notes : RunPhase → List (FilePath × Text) → List Operation
notes phase = map (λ e. keep_diagnostic (exclusion phase e.0 e.1))

-- The paths of the entries, the latest first, before those that were diagnosed already.
abbrev pub noted : List (FilePath × Text) → List FilePath → List FilePath
noted [] before = before
noted (e ∷ es) before = noted es (e.0 ∷ before)

noted-append :
    (es : List (FilePath × Text)) (e : FilePath × Text) (before : List FilePath)
    → noted (es ++ e ∷ []) before ≡ e.0 ∷ noted es before
noted-append [] e before = refl
noted-append (d ∷ es) e before = noted-append es e (d.0 ∷ before)

module _ {A W : Type 0} (phase : RunPhase) (w : Worker A W) where
  -- The recording steps after `w` retain one diagnostic each for entries whose paths become
  -- diagnosed, and no path is diagnosed twice.
  abbrev pub DiagnosesOnce : Worker A W → Type 0
  DiagnosesOnce t =
      (es : List (FilePath × Text)) × (t.operations ≡ w.operations ++ notes phase es)
      × (t.diagnosed ≡ noted es w.diagnosed)
      × IsDistinct t.diagnosed

  exclude-DiagnosesOnce :
      (path : FilePath) (detail : Text) (t : Worker A W)
      → DiagnosesOnce t
      → DiagnosesOnce (exclude phase path detail t)
  unfolding exclude
  exclude-DiagnosesOnce path detail t (es, steps, paths, distinct) =
      elim (Bool-cases (contains t.diagnosed path)) [
        | inl old ↦ rw old (es, steps, paths, distinct)
        | inr new ↦ rw new (
          es ++ (path, detail) ∷ [],
          ap (λ (os : List Operation). os ++ notes phase ((path, detail) ∷ [])) steps
              ∙ append_assoc w.operations (notes phase es) (notes phase ((path, detail) ∷ []))
              ∙ ap (λ (os : List Operation). w.operations ++ os)
                  (sym (
                    map-append (λ e. keep_diagnostic (exclusion phase e.0 e.1)) es
                      ((path, detail) ∷ []))),
          ap (◌∷◌ path) paths ∙ sym (noted-append es (path, detail) w.diagnosed),
          (new, distinct),
        )
      ]

  DiagnosesOnce-start : IsDistinct w.diagnosed → DiagnosesOnce w
  DiagnosesOnce-start h = ([], sym (append-nil w.operations), refl, h)

-- From a worker that has diagnosed no path twice, the Archive pass and the definitive pass, each in
-- its phase, retain one diagnostic for each path that becomes diagnosed, record nothing else, and
-- diagnose no path twice, or one that was diagnosed before.
pub passes-DiagnoseOnce :
    {A W : Type 0} (tools : Toolset A W) (stop : Token) (policy : RoutingPolicy) (w : Worker A W)
    → IsDistinct w.diagnosed
    → (roots recognized : List FilePath) (pass : ArchivePass) (done : List RootArchives)
    → (tree : TreePass)
    → DiagnosesOnce discovering_archives w (archive_pass tools stop policy roots pass done w).1
      × DiagnosesOnce building_effective_asset_tree w
          (definitive_pass tools stop policy recognized roots tree w).1
passes-DiagnoseOnce tools stop policy w h roots recognized pass done tree = (
  archive_pass_keeps (DiagnosesOnce discovering_archives w) (λ t k. k) stop tools policy
      (exclude-DiagnosesOnce discovering_archives w) roots pass done w
      (DiagnosesOnce-start discovering_archives w h),
  definitive_pass_keeps (DiagnosesOnce building_effective_asset_tree w) (λ t k. k) stop tools policy
      (exclude-DiagnosesOnce building_effective_asset_tree w) recognized roots tree w
      (DiagnosesOnce-start building_effective_asset_tree w h),
)
