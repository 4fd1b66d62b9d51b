-- ===== src/Routing/Decisions.antt =====
-- What `AssetRouter::route` decides.
use cao.Shared.{
  Bool, true, false, Option, none, some, Text, ◌≡◌, inl, inr, sym, ◌∙◌, arith, Option-cases,
}
use cao.Shared.Paths.{FilePath}
use cao.Routing.Kinds.{
  AssetKind, AssetOperation, native, convertible, standard, terrain, extraction, optimization,
  conversion, mesh_reference_maintenance, RequestedWork, ProfileCapability, RoutedAssetPhase,
  loose_asset_processing, OptimizerTarget,
}
use cao.Routing.Policy.{
  RoutingPolicyRequest, ProfileCapabilities, supports, derives_conversion, RoutingPolicy, compiled,
  compile, kind_has_work, requests,
}
use cao.Routing.Compilation.{IsCompatible, compile_iff, needed_capability}
use cao.Routing.Route.{
  AssetIdentity, kind, is_empty, RoutedAsset, routed, normalized_terminal_extension, Recognized,
  recognize, decide_recognized, route,
}

-- The capability that an operation on an Asset takes, `none` where no Asset of this identity
-- carries it.
abbrev pub operation_capability : AssetIdentity → AssetOperation → Option ProfileCapability
operation_capability (AssetIdentity.texture native) optimization =
    some ProfileCapability.native_texture_optimization
operation_capability (AssetIdentity.texture convertible) conversion =
    some ProfileCapability.convertible_texture_conversion
operation_capability (AssetIdentity.mesh standard) optimization =
    some ProfileCapability.standard_mesh_optimization
operation_capability (AssetIdentity.mesh terrain) optimization =
    some ProfileCapability.terrain_mesh_optimization
operation_capability (AssetIdentity.mesh _) mesh_reference_maintenance =
    some ProfileCapability.mesh_reference_maintenance
operation_capability AssetIdentity.animation optimization =
    some ProfileCapability.animation_optimization
operation_capability AssetIdentity.archive extraction = some ProfileCapability.archive_extraction
operation_capability _ _ = none

abbrev pub IsSupported : ProfileCapabilities → Option ProfileCapability → Type 0
IsSupported p none = ⊥
IsSupported p (some c) = supports p c ≡ true

abbrev pub target_of : AssetKind → OptimizerTarget
target_of AssetKind.texture = OptimizerTarget.texture
target_of AssetKind.mesh = OptimizerTarget.mesh
target_of AssetKind.animation = OptimizerTarget.animation
target_of AssetKind.archive = OptimizerTarget.archive

abbrev pub phase_of : AssetKind → RoutedAssetPhase
phase_of AssetKind.archive = RoutedAssetPhase.archive_extraction
phase_of _ = loose_asset_processing

-- What every recognized Asset satisfies.
record Fits (policy : RoutingPolicy) (r : Recognized) : Type 0 where
  target_fits : r.target ≡ target_of (kind r.identity)
  phase_fits : r.phase ≡ phase_of (kind r.identity)
  has_work : is_empty r.operations ≡ false → kind_has_work policy (kind r.identity) ≡ true

-- A Routed Asset carries the caller's path and the policy's mode, the optimizer and the phase of
-- its Kind, and at least one operation.
pub route-routed :
    (policy : RoutingPolicy) (path : FilePath) (a : RoutedAsset)
    → route policy path ≡ routed a
    → (a.execution_path ≡ path)
      × (a.execution_mode ≡ policy.execution_mode)
      × (a.target ≡ target_of (kind a.identity))
      × (a.phase ≡ phase_of (kind a.identity))
      × (is_empty a.operations ≡ false)
unfolding route recognize decide_recognized
route-routed policy path a h = ground arith

-- Which operation the policy has on an Asset.
abbrev allowed : RoutingPolicy → AssetIdentity → AssetOperation → Bool
allowed q (AssetIdentity.texture native) optimization =
    requests q RequestedWork.native_texture_optimization
allowed q (AssetIdentity.texture convertible) conversion = q.converts_textures
allowed q (AssetIdentity.mesh standard) optimization =
    requests q RequestedWork.standard_mesh_optimization
allowed q (AssetIdentity.mesh terrain) optimization =
    requests q RequestedWork.terrain_mesh_optimization
allowed q (AssetIdentity.mesh _) mesh_reference_maintenance = q.converts_textures
allowed q AssetIdentity.animation optimization = requests q RequestedWork.animation_optimization
allowed q AssetIdentity.archive extraction = requests q RequestedWork.archive_extraction
allowed _ _ _ = false

recognize-allowed :
    (policy : RoutingPolicy) (ext : Text) (o : AssetOperation) (x : Recognized)
    → recognize policy ext ≡ some x
    → x.operations o ≡ true
    → allowed policy x.identity o ≡ true
unfolding recognize
recognize-allowed policy ext extraction x h q = ground arith
recognize-allowed policy ext _ x h q = ground arith

module _ (r : RoutingPolicyRequest) (p : ProfileCapabilities) (prefers : Bool)
    (policy : RoutingPolicy) (c : IsCompatible r p prefers) (w : policy.work ≡ r.work)
    (d : policy.converts_textures ≡ derives_conversion r.work p prefers) where
  requested-supported :
      (x : RequestedWork) → policy.work x ≡ true → supports p (needed_capability x) ≡ true
  requested-supported x h = c.work_supported x (rw w at h)

  converts-supported :
      policy.converts_textures ≡ true
      → (supports p ProfileCapability.convertible_texture_conversion ≡ true)
        × (supports p ProfileCapability.mesh_reference_maintenance ≡ true)
  converts-supported h = (ground arith, c.derived_supported (sym d ∙ h))

  allowed-IsSupported :
      (i : AssetIdentity) (o : AssetOperation)
      → allowed policy i o ≡ true
      → IsSupported p (operation_capability i o)
  allowed-IsSupported (AssetIdentity.texture native) optimization h =
      requested-supported RequestedWork.native_texture_optimization h
  allowed-IsSupported (AssetIdentity.texture convertible) conversion h = (converts-supported h).0
  allowed-IsSupported (AssetIdentity.mesh standard) optimization h =
      requested-supported RequestedWork.standard_mesh_optimization h
  allowed-IsSupported (AssetIdentity.mesh terrain) optimization h =
      requested-supported RequestedWork.terrain_mesh_optimization h
  allowed-IsSupported (AssetIdentity.mesh standard) mesh_reference_maintenance h =
      (converts-supported h).1
  allowed-IsSupported (AssetIdentity.mesh terrain) mesh_reference_maintenance h =
      (converts-supported h).1
  allowed-IsSupported AssetIdentity.animation optimization h =
      requested-supported RequestedWork.animation_optimization h
  allowed-IsSupported AssetIdentity.archive extraction h =
      requested-supported RequestedWork.archive_extraction h
  allowed-IsSupported _ _ h = cc

decide_recognized-routed :
    (policy : RoutingPolicy) (path : FilePath) (a : RoutedAsset)
    → route policy path ≡ routed a
    → (x : Recognized) × (recognize policy (normalized_terminal_extension path) ≡ some x)
      × (a.identity ≡ x.identity)
      × (a.operations ≡ x.operations)
unfolding route
decide_recognized-routed policy path a h =
    elim (Option-cases (recognize policy (normalized_terminal_extension path))) [
      | inl e ↦ ground arith
      | inr (x, e) ↦
          (x, e, unfold decide_recognized in ground arith, unfold decide_recognized in ground arith)
    ]

-- Under a policy that a profile compiled, each operation that a Routed Asset carries is one that
-- the profile supports for its Kind and Variant.
pub route-IsSupported :
    (r : RoutingPolicyRequest) (p : ProfileCapabilities) (prefers : Bool) (policy : RoutingPolicy)
    (path : FilePath) (a : RoutedAsset) (o : AssetOperation)
    → compile r p prefers ≡ compiled policy
    → route policy path ≡ routed a
    → a.operations o ≡ true
    → IsSupported p (operation_capability a.identity o)
route-IsSupported r p prefers policy path a o h k q =
    let (c, same) = (compile_iff r p prefers policy).0 h in
    let (x, found, identity, operations) = decide_recognized-routed policy path a k in
    rw identity (
      allowed-IsSupported r p prefers policy c (rw same) (rw same) x.identity o (
        recognize-allowed policy (normalized_terminal_extension path) o x found
          (rw operations at q)))
