-- ===== src/Work/DryRun/Assets.antt =====
-- The Assets that a Dry Run of crates/cao-core/src/run/executor/work_phases.rs attempts.
use cao.Shared.{
  ℕ, Bool, List, [], ◌∷◌, filter, All, All-append, ◌≡◌, refl, ◌∙◌, inl, inr, Bool-cases,
}
use cao.Shared.Paths.{FilePath}
use cao.Routing.Kinds.{ExecutionMode, OptimizerTarget}
use cao.Routing.Policy.{RoutingPolicy}
use cao.Routing.Route.{
  RoutedAsset, RoutingDecision, routed, skipped, unsupported, RoutingLedger, route, route_all,
}
use cao.Routing.Decisions.{route-routed}
use cao.Routing.Ledger.{routed_of, assets_of, route_all_lem}
use cao.Work.Toolset.{Toolset}
use cao.Work.Process.{offered, routed_assets_for}

abbrev pub IsDry : RoutedAsset → Type 0
IsDry a = a.execution_mode ≡ ExecutionMode.dry_run

decided-IsDry :
    (policy : RoutingPolicy) (path : FilePath) (d : RoutingDecision)
    → policy.execution_mode ≡ ExecutionMode.dry_run
    → route policy path ≡ d
    → All IsDry (assets_of d)
decided-IsDry policy path (routed a) dry h = ((route-routed policy path a h).1 ∙ dry, tt)
decided-IsDry policy path (skipped s) dry h = tt
decided-IsDry policy path unsupported dry h = tt

routed-IsDry :
    (policy : RoutingPolicy) (paths : List FilePath)
    → policy.execution_mode ≡ ExecutionMode.dry_run
    → All IsDry (routed_of policy paths)
routed-IsDry policy [] dry = tt
routed-IsDry policy (p ∷ ps) dry =
    All-append IsDry (assets_of (route policy p)) (routed_of policy ps)
      (decided-IsDry policy p (route policy p) dry refl) (routed-IsDry policy ps dry)

pub ledger-IsDry :
    (policy : RoutingPolicy) (paths : List FilePath)
    → policy.execution_mode ≡ ExecutionMode.dry_run
    → All IsDry (route_all policy paths).routed_assets
ledger-IsDry policy paths dry = rw (route_all_lem policy paths).0 (routed-IsDry policy paths dry)

filter-IsDry :
    (p : RoutedAsset → Bool) (assets : List RoutedAsset)
    → All IsDry assets
    → All IsDry (filter p assets)
filter-IsDry p [] h = tt
filter-IsDry p (a ∷ rest) (h, k) = elim (Bool-cases (p a)) [
  | inl c ↦ rw c (h, filter-IsDry p rest k)
  | inr c ↦ rw c (filter-IsDry p rest k)
]

pub offered-IsDry :
    (ledger : RoutingLedger) → All IsDry ledger.routed_assets → All IsDry (offered ledger)
offered-IsDry ledger h =
    All-append IsDry (routed_assets_for OptimizerTarget.texture ledger) _
      (filter-IsDry _ ledger.routed_assets h)
      (All-append IsDry (routed_assets_for OptimizerTarget.mesh ledger) _
        (filter-IsDry _ ledger.routed_assets h) (filter-IsDry _ ledger.routed_assets h))

-- A toolset's attempt on an Asset in Dry Run changes neither the registry nor the disk.
abbrev pub SparesDryAssets : {A W : Type 0} → Toolset A W → Type 0
SparesDryAssets {A} {W} tools =
    (a : RoutedAsset) (root : FilePath) (artifacts : A) (world : W) (clock : ℕ)
    → IsDry a
    → let called = tools.attempt a root artifacts world clock in
      (called.artifacts ≡ artifacts) × (called.world ≡ world)
