-- ===== src/Tests/Routing.antt =====
-- Routing and Policy compilation on a profile for textures with `.bsa` Archives.
use cao.Shared.{
  ◌+◌, true, false, List, [], ◌∷◌, some, codes, text_eq, is_ascii_alphanumeric, lowercase, ◌≡◌, ◌≢◌,
  ◌↔◌, refl, length, ◌&&◌,
}
use cao.Shared.Paths.{FilePath, normal, extension}
use cao.Routing.Kinds.{
  AssetKind, native, convertible, standard, terrain, optimization, ExecutionMode, RequestedWork,
  all_capabilities, loose_asset_processing, OptimizerTarget, SkipReason, disabled_asset_kind,
  excluded_asset_variant,
}
use cao.Routing.Policy.{
  RoutingPolicyRequest, ProfileCapabilities, for_work, from_definition, RoutingPolicy,
  PolicyValidationError, compiled, conflicts, compile, all_errors, check_extension,
  malformed_reason, find_built_in, work_errors, supports_kind, kind_has_work,
  unsupported_requested_asset_kind,
}
use cao.Routing.Route.{
  RoutedAsset, SkippedAsset, routed, skipped, AssetIdentity, kind, route, route_all, include_if,
  no_operations, is_empty, is_routed, normalized_terminal_extension, recognize, decide_recognized,
}
use cao.Routing.Compilation.{IsCompatible, policy_of, compile_iff}
use cao.Routing.Conflicts.{compile-conflicts_complete, Climbs, concerned, beyond}
use cao.Routing.Decisions.{
  route-routed, route-IsSupported, target_of, phase_of, IsSupported, operation_capability,
}
use cao.Routing.Skips.{route_ignores_case, route-disabled, route-excluded, on_path, identity?}
use cao.Routing.Ledger.{route_all_lem, routed_of, skips, unsupported_count}

abbrev request : RoutingPolicyRequest
request = for_work ExecutionMode.apply (RequestedWork.native_texture_optimization ∷ [])

abbrev profile : ProfileCapabilities
profile = from_definition (some (codes ".bsa")) all_capabilities

abbrev bare_profile : ProfileCapabilities
bare_profile = from_definition (some (codes ".bsa")) []

abbrev policy : RoutingPolicy
policy = policy_of request profile false (codes "bsa")

abbrev texture_path : FilePath
texture_path = normal (codes "textures") ∷ normal (codes "stone.dds") ∷ []

abbrev loud_path : FilePath
loud_path = normal (codes "STONE.DDS") ∷ []

abbrev convertible_path : FilePath
convertible_path = normal (codes "stone.tga") ∷ []

abbrev mesh_path : FilePath
mesh_path = normal (codes "rock.nif") ∷ []

abbrev terrain_path : FilePath
terrain_path = normal (codes "land.btr") ∷ []

abbrev asset : RoutedAsset
asset = record {
  execution_path = texture_path;
  identity = AssetIdentity.texture native;
  phase = loose_asset_processing;
  target = OptimizerTarget.texture;
  execution_mode = ExecutionMode.apply;
  operations = include_if true optimization no_operations;
}

abbrev skipped_mesh : SkippedAsset
skipped_mesh = record {
  execution_path = mesh_path;
  identity = AssetIdentity.mesh standard;
  reason = disabled_asset_kind;
}

abbrev skipped_texture : SkippedAsset
skipped_texture = record {
  execution_path = convertible_path;
  identity = AssetIdentity.texture convertible;
  reason = excluded_asset_variant;
}

compiles : compile request profile false ≡ compiled policy
unfolding compile all_errors check_extension malformed_reason is_ascii_alphanumeric find_built_in
    text_eq lowercase work_errors supports_kind
compiles = refl

abbrev missing : List PolicyValidationError
missing =
    unsupported_requested_asset_kind RequestedWork.native_texture_optimization AssetKind.texture
    ∷ []

conflicting : compile request bare_profile false ≡ conflicts missing
unfolding compile all_errors check_extension malformed_reason is_ascii_alphanumeric find_built_in
    text_eq lowercase work_errors supports_kind
conflicting = refl

routes_texture : route policy texture_path ≡ routed asset
unfolding route recognize decide_recognized normalized_terminal_extension extension kind_has_work
routes_texture = refl

skips_mesh : route policy mesh_path ≡ skipped skipped_mesh
unfolding route recognize decide_recognized normalized_terminal_extension extension kind_has_work
skips_mesh = refl

skips_convertible : route policy convertible_path ≡ skipped skipped_texture
unfolding route recognize decide_recognized normalized_terminal_extension extension kind_has_work
skips_convertible = refl

identifies_terrain : identity? (route policy terrain_path) ≡ some (AssetIdentity.mesh terrain)
unfolding route recognize decide_recognized normalized_terminal_extension extension kind_has_work
identifies_terrain = refl

extension_of : extension texture_path ≡ some (codes "dds")
unfolding extension
extension_of = refl

loud_extension : extension loud_path ≡ some (codes "DDS")
unfolding extension
loud_extension = refl

folds : lowercase (codes "dds") ≡ lowercase (codes "DDS")
unfolding lowercase
folds = refl

compile_iff_example : (compile request profile false ≡ compiled policy) ↔ (
    (c : IsCompatible request profile false) × (policy
      ≡ policy_of request profile false c.extension_valid.suffix))
compile_iff_example = compile_iff request profile false policy

compile-conflicts_complete_example :
    (missing ≢ [])
    × Climbs 0 missing
    × ((w : RequestedWork) → concerned w missing ≡ request.work w && beyond bare_profile false w)
compile-conflicts_complete_example =
    compile-conflicts_complete request bare_profile false missing conflicting

route-routed_example :
    (asset.execution_path ≡ texture_path)
    × (asset.execution_mode ≡ policy.execution_mode)
    × (asset.target ≡ target_of (kind asset.identity))
    × (asset.phase ≡ phase_of (kind asset.identity))
    × (is_empty asset.operations ≡ false)
route-routed_example = route-routed policy texture_path asset routes_texture

route-IsSupported_example : IsSupported profile (operation_capability asset.identity optimization)
route-IsSupported_example =
    route-IsSupported request profile false policy texture_path asset optimization compiles
      routes_texture refl

route_ignores_case_example : route policy loud_path ≡ on_path loud_path (route policy texture_path)
route_ignores_case_example =
    route_ignores_case policy texture_path loud_path (codes "dds") (codes "DDS") extension_of
      loud_extension folds

route-disabled_example : is_routed (route policy terrain_path) ≡ false
route-disabled_example =
    route-disabled policy mesh_path skipped_mesh terrain_path (AssetIdentity.mesh terrain)
      skips_mesh refl identifies_terrain refl

route-excluded_example :
    (other : FilePath) × (i : AssetIdentity) × (is_routed (route policy other) ≡ true)
    × (identity? (route policy other) ≡ some i)
    × (kind i ≡ AssetKind.texture)
route-excluded_example =
    route-excluded policy convertible_path skipped_texture skips_convertible refl

abbrev walked : List FilePath
walked = texture_path ∷ mesh_path ∷ convertible_path ∷ texture_path ∷ []

route_all_example :
    let l = route_all policy walked in
    (l.routed_assets ≡ routed_of policy walked)
    × ((r : SkipReason) → l.skipped_asset_counts r ≡ skips policy r walked)
    × (length l.routed_assets
          + l.skipped_asset_counts disabled_asset_kind
          + l.skipped_asset_counts excluded_asset_variant
          + unsupported_count policy walked
        ≡ length walked)
route_all_example = route_all_lem policy walked
