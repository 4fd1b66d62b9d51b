-- ===== src/Routing/Route.antt =====
-- `AssetRouter` of crates/cao-core/src/routing.rs: Routing Decisions and the Routing Ledger.
use cao.Shared.{
  ℕ, ◌+◌, Bool, true, false, not, ◌&&◌, ◌||◌, List, [], ◌∷◌, Option, none, some, Text, codes, ◌==◌,
  if◌then◌else◌, all, text_eq, lowercase, is_ascii, ◌++◌,
}
use cao.Shared.Paths.{FilePath, extension}
use cao.Routing.Kinds.{
  AssetKind, TextureVariant, native, convertible, MeshVariant, standard, terrain, AssetOperation,
  extraction, optimization, conversion, mesh_reference_maintenance, ExecutionMode, RoutedAssetPhase,
  loose_asset_processing, OptimizerTarget, SkipReason, disabled_asset_kind, excluded_asset_variant,
  RequestedWork, operation_index,
}
use cao.Routing.Policy.{RoutingPolicy, requests, maintains_mesh_references, kind_has_work}

-- The closed set of work that execution performs for one Routed Asset.
abbrev pub AssetOperations : Type 0
AssetOperations = AssetOperation → Bool

abbrev pub no_operations : AssetOperations
no_operations o = false

abbrev pub include_if : Bool → AssetOperation → AssetOperations → AssetOperations
include_if test added ops o = (test && operation_index added == operation_index o) || ops o

abbrev pub is_empty : AssetOperations → Bool
is_empty ops =
    not (ops extraction || (ops optimization || (ops conversion || ops mesh_reference_maintenance)))

pub data AssetIdentity : Type 0 where
  texture : TextureVariant → AssetIdentity
  mesh : MeshVariant → AssetIdentity
  animation archive : AssetIdentity

abbrev pub kind : AssetIdentity → AssetKind
kind (AssetIdentity.texture _) = AssetKind.texture
kind (AssetIdentity.mesh _) = AssetKind.mesh
kind AssetIdentity.animation = AssetKind.animation
kind AssetIdentity.archive = AssetKind.archive

pub record RoutedAsset : Type 0 where
  pub execution_path : FilePath
  pub identity : AssetIdentity
  pub phase : RoutedAssetPhase
  pub target : OptimizerTarget
  pub execution_mode : ExecutionMode
  pub operations : AssetOperations

pub record SkippedAsset : Type 0 where
  pub execution_path : FilePath
  pub identity : AssetIdentity
  pub reason : SkipReason

pub data RoutingDecision : Type 0 where
  routed : RoutedAsset → RoutingDecision
  skipped : SkippedAsset → RoutingDecision
  unsupported : RoutingDecision

normalize : Option Text → Text
normalize none = []
normalize (some t) = if all is_ascii t then b'.' ∷ lowercase t else []

-- The folded terminal extension with its period, empty where there is none or it is not ASCII.
unfoldable pub normalized_terminal_extension : FilePath → Text
unfolding normalize is_ascii lowercase
normalized_terminal_extension p = normalize (extension p)

-- What one folded extension is recognized as, with the work the policy has for it.
pub record Recognized : Type 0 where
  pub identity : AssetIdentity
  pub phase : RoutedAssetPhase
  pub target : OptimizerTarget
  pub operations : AssetOperations

recognize_texture : RoutingPolicy → TextureVariant → Recognized
recognize_texture p native = record {
  identity = AssetIdentity.texture native;
  phase = loose_asset_processing;
  target = OptimizerTarget.texture;
  operations =
      include_if (requests p RequestedWork.native_texture_optimization) optimization no_operations;
}
recognize_texture p convertible = record {
  identity = AssetIdentity.texture convertible;
  phase = loose_asset_processing;
  target = OptimizerTarget.texture;
  operations = include_if p.converts_textures conversion no_operations;
}

abbrev mesh_work : MeshVariant → RequestedWork
mesh_work standard = RequestedWork.standard_mesh_optimization
mesh_work terrain = RequestedWork.terrain_mesh_optimization

recognize_mesh : RoutingPolicy → MeshVariant → Recognized
recognize_mesh p v = record {
  identity = AssetIdentity.mesh v;
  phase = loose_asset_processing;
  target = OptimizerTarget.mesh;
  operations =
      include_if (maintains_mesh_references p) mesh_reference_maintenance
        (include_if (requests p (mesh_work v)) optimization no_operations);
}

recognize_animation : RoutingPolicy → Recognized
recognize_animation p = record {
  identity = AssetIdentity.animation;
  phase = loose_asset_processing;
  target = OptimizerTarget.animation;
  operations =
      include_if (requests p RequestedWork.animation_optimization) optimization no_operations;
}

recognize_archive : RoutingPolicy → Recognized
recognize_archive p = record {
  identity = AssetIdentity.archive;
  phase = RoutedAssetPhase.archive_extraction;
  target = OptimizerTarget.archive;
  operations = include_if (requests p RequestedWork.archive_extraction) extraction no_operations;
}

abbrev is_nil : Text → Bool
is_nil [] = true
is_nil (_ ∷ _) = false

-- The `match` of `route` on the folded extension.
unfoldable pub recognize : RoutingPolicy → Text → Option Recognized
unfolding text_eq recognize_texture recognize_mesh recognize_animation recognize_archive
recognize p ext =
    if text_eq ext (codes ".dds")
    then some (recognize_texture p native)
    else if text_eq ext (codes ".tga")
    then some (recognize_texture p convertible)
    else if text_eq ext (codes ".nif")
    then some (recognize_mesh p standard)
    else if text_eq ext (codes ".btr") || text_eq ext (codes ".bto")
    then some (recognize_mesh p terrain)
    else if text_eq ext (codes ".hkx")
    then some (recognize_animation p)
    else if not (is_nil ext) && text_eq ext p.archive_extension
    then some (recognize_archive p)
    else none

-- What `route` decides for a recognized Asset.
unfoldable pub decide_recognized : RoutingPolicy → FilePath → Recognized → RoutingDecision
decide_recognized p path r =
    if not (is_empty r.operations)
    then routed (record {
      execution_path = path;
      identity = r.identity;
      phase = r.phase;
      target = r.target;
      execution_mode = p.execution_mode;
      operations = r.operations;
    })
    else skipped (record {
      execution_path = path;
      identity = r.identity;
      reason =
          if kind_has_work p (kind r.identity) then excluded_asset_variant else disabled_asset_kind;
    })

decide_extension : RoutingPolicy → FilePath → Option Recognized → RoutingDecision
unfolding decide_recognized
decide_extension p path none = unsupported
decide_extension p path (some r) = decide_recognized p path r

-- `AssetRouter::route`
unfoldable pub route : RoutingPolicy → FilePath → RoutingDecision
unfolding decide_extension
route p path = decide_extension p path (recognize p (normalized_terminal_extension path))

pub record RoutingLedger : Type 0 where
  pub routed_assets : List RoutedAsset
  pub skipped_asset_counts : SkipReason → ℕ

abbrev pub empty_ledger : RoutingLedger
empty_ledger = record { routed_assets = []; skipped_asset_counts = λ r. 0 }

abbrev pub reason_index : SkipReason → ℕ
reason_index disabled_asset_kind = 0
reason_index excluded_asset_variant = 1

-- What `route_all` keeps of one decision.
unfoldable pub record_decision : RoutingLedger → RoutingDecision → RoutingLedger
record_decision l (routed a) = record l { routed_assets = l.routed_assets ++ a ∷ [] }
record_decision l (skipped s) = record l {
  skipped_asset_counts = λ r.
      if reason_index r == reason_index s.reason
      then l.skipped_asset_counts r + 1
      else l.skipped_asset_counts r;
}
record_decision l unsupported = l

-- The loop of `AssetRouter::route_all`.
unfoldable pub route_from : RoutingPolicy → RoutingLedger → List FilePath → RoutingLedger
route_from p l [] = l
route_from p l (path ∷ paths) = route_from p (record_decision l (route p path)) paths

unfoldable pub route_all : RoutingPolicy → List FilePath → RoutingLedger
unfolding route_from
route_all p paths = route_from p empty_ledger paths

-- Laws' tests on decisions.
abbrev pub is_routed : RoutingDecision → Bool
is_routed (routed _) = true
is_routed _ = false
