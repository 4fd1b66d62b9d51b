-- ===== src/Work/Unrefused/Walks.antt =====
-- The evidence under the walks of crates/cao-core/src/run/executor/work_phases.rs.
use cao.Shared.{List, [], ◌∷◌, ◌++◌, inl, inr, Bool-cases, Text}
use cao.Shared.Paths.{FilePath}
use cao.Shared.Prefixes.{contains}
use cao.Routing.Policy.{RoutingPolicy}
use cao.Run.Lifecycle.{RunPhase, RunDiagnostic, discovering_archives, building_effective_asset_tree}
use cao.Evidence.Sinks.{Evidence}
use cao.Evidence.Operations.{Operation, keep_diagnostic, perform}
use cao.Selection.Overlap.{Token}
use cao.Work.Toolset.{Toolset, RootArchives}
use cao.Work.Worker.{Worker}
use cao.Work.Scope.{exclude, exclusion}
use cao.Work.Discover.{ArchivePass, archive_pass}
use cao.Work.Tree.{TreePass, definitive_pass}
use cao.Work.Visited

-- What retaining a diagnostic keeps, a walk keeps.
module _ {A W : Type 0} (P : Evidence → List Operation → A → W → Type 0)
    (keeps : (d : RunDiagnostic) (e : Evidence) (os : List Operation) (a : A) (w : W)
      → P e os a w
      → P (perform (keep_diagnostic d) e).0 (os ++ keep_diagnostic d ∷ []) a w)
    (stop : Token) where
  abbrev Holds : Worker A W → Type 0
  Holds w = P w.evidence w.operations w.artifacts w.world

  exclude_keeps :
      (phase : RunPhase) (path : FilePath) (detail : Text) (w : Worker A W)
      → Holds w
      → Holds (exclude phase path detail w)
  unfolding exclude
  exclude_keeps phase path detail w h = elim (Bool-cases (contains w.diagnosed path)) [
    | inl c ↦ rw c h
    | inr c ↦
        rw c (keeps (exclusion phase path detail) w.evidence w.operations w.artifacts w.world h)
  ]

  module _ (tools : Toolset A W) (policy : RoutingPolicy) where
    pub archive_pass_keeps :
        (roots : List FilePath) (pass : ArchivePass) (done : List RootArchives) (w : Worker A W)
        → Holds w
        → Holds (archive_pass tools stop policy roots pass done w).1
    archive_pass_keeps =
        Visited.archive_pass_keeps Holds (λ w h. h) stop tools policy
          (exclude_keeps discovering_archives)

    pub definitive_pass_keeps :
        (recognized roots : List FilePath) (pass : TreePass) (w : Worker A W)
        → Holds w
        → Holds (definitive_pass tools stop policy recognized roots pass w).1
    definitive_pass_keeps =
        Visited.definitive_pass_keeps Holds (λ w h. h) stop tools policy
          (exclude_keeps building_effective_asset_tree)
