-- ===== src/Routing/Kinds.antt =====
-- The closed enumerations of crates/cao-core/src/routing.rs and its constant tables.
use cao.Shared.{
  ℕ, Bool, true, List, [], ◌∷◌, Option, none, some, Text, codes, ◌≡◌, arith, ◌==◌, ◌↔◌,
}

pub data AssetKind : Type 0 where
  texture mesh animation archive : AssetKind

pub data TextureVariant : Type 0 where
  native convertible : TextureVariant

pub data MeshVariant : Type 0 where
  standard terrain : MeshVariant

pub data AssetOperation : Type 0 where
  extraction optimization conversion mesh_reference_maintenance : AssetOperation

pub data ExecutionMode : Type 0 where
  apply dry_run : ExecutionMode

pub data RoutedAssetPhase : Type 0 where
  archive_extraction loose_asset_processing : RoutedAssetPhase

pub data OptimizerTarget : Type 0 where
  texture mesh animation archive : OptimizerTarget

pub data SkipReason : Type 0 where
  disabled_asset_kind excluded_asset_variant : SkipReason

pub data RequestedWork : Type 0 where
  native_texture_optimization standard_mesh_optimization terrain_mesh_optimization : RequestedWork
  animation_optimization archive_extraction archive_creation : RequestedWork

pub data ProfileCapability : Type 0 where
  native_texture_optimization convertible_texture_conversion : ProfileCapability
  standard_mesh_optimization terrain_mesh_optimization animation_optimization : ProfileCapability
  archive_extraction mesh_reference_maintenance archive_creation : ProfileCapability

-- A typed Asset Variant, qualified by its Kind.
pub data AssetVariant : Type 0 where
  texture : TextureVariant → AssetVariant
  mesh : MeshVariant → AssetVariant

-- `work as usize`
abbrev pub work_index : RequestedWork → ℕ
work_index RequestedWork.native_texture_optimization = 0
work_index RequestedWork.standard_mesh_optimization = 1
work_index RequestedWork.terrain_mesh_optimization = 2
work_index RequestedWork.animation_optimization = 3
work_index RequestedWork.archive_extraction = 4
work_index RequestedWork.archive_creation = 5

-- `capability as usize`
abbrev pub capability_index : ProfileCapability → ℕ
capability_index ProfileCapability.native_texture_optimization = 0
capability_index ProfileCapability.convertible_texture_conversion = 1
capability_index ProfileCapability.standard_mesh_optimization = 2
capability_index ProfileCapability.terrain_mesh_optimization = 3
capability_index ProfileCapability.animation_optimization = 4
capability_index ProfileCapability.archive_extraction = 5
capability_index ProfileCapability.mesh_reference_maintenance = 6
capability_index ProfileCapability.archive_creation = 7

-- `operation as usize`
abbrev pub operation_index : AssetOperation → ℕ
operation_index extraction = 0
operation_index optimization = 1
operation_index conversion = 2
operation_index mesh_reference_maintenance = 3

abbrev pub kind_index : AssetKind → ℕ
kind_index AssetKind.texture = 0
kind_index AssetKind.mesh = 1
kind_index AssetKind.animation = 2
kind_index AssetKind.archive = 3

-- A closed set, the `[bool; n]` that the source indexes by discriminant.
abbrev pub WorkSet : Type 0
WorkSet = RequestedWork → Bool

abbrev pub CapabilitySet : Type 0
CapabilitySet = ProfileCapability → Bool

-- One entry of `REQUESTED_WORK_DEFINITIONS`.
pub record WorkDefinition : Type 0 where
  pub work : RequestedWork
  pub capability : ProfileCapability
  pub variant : Option AssetVariant

abbrev define : RequestedWork → ProfileCapability → Option AssetVariant → WorkDefinition
define w c v = record { work = w; capability = c; variant = v }

abbrev pub requested_work_definitions : List WorkDefinition
requested_work_definitions =
    define RequestedWork.native_texture_optimization ProfileCapability.native_texture_optimization
      (some (AssetVariant.texture native))
    ∷ define RequestedWork.standard_mesh_optimization ProfileCapability.standard_mesh_optimization
        (some (AssetVariant.mesh standard))
    ∷ define RequestedWork.terrain_mesh_optimization ProfileCapability.terrain_mesh_optimization
        (some (AssetVariant.mesh terrain))
    ∷ define RequestedWork.animation_optimization ProfileCapability.animation_optimization none
    ∷ define RequestedWork.archive_extraction ProfileCapability.archive_extraction none
    ∷ define RequestedWork.archive_creation ProfileCapability.archive_creation none
    ∷ []

-- The Asset Kind each Profile Capability belongs to.
abbrev pub capability_kind : ProfileCapability → AssetKind
capability_kind ProfileCapability.native_texture_optimization = AssetKind.texture
capability_kind ProfileCapability.convertible_texture_conversion = AssetKind.texture
capability_kind ProfileCapability.standard_mesh_optimization = AssetKind.mesh
capability_kind ProfileCapability.terrain_mesh_optimization = AssetKind.mesh
capability_kind ProfileCapability.mesh_reference_maintenance = AssetKind.mesh
capability_kind ProfileCapability.animation_optimization = AssetKind.animation
capability_kind ProfileCapability.archive_extraction = AssetKind.archive
capability_kind ProfileCapability.archive_creation = AssetKind.archive

abbrev pub all_capabilities : List ProfileCapability
all_capabilities =
    ProfileCapability.native_texture_optimization ∷ ProfileCapability.convertible_texture_conversion
    ∷ ProfileCapability.standard_mesh_optimization ∷ ProfileCapability.terrain_mesh_optimization
    ∷ ProfileCapability.animation_optimization ∷ ProfileCapability.archive_extraction
    ∷ ProfileCapability.mesh_reference_maintenance ∷ ProfileCapability.archive_creation ∷ []

-- One entry of `BUILT_IN_EXTENSIONS`.
pub record BuiltIn : Type 0 where
  pub spelling : Text
  pub kind : AssetKind

abbrev pub built_in_extensions : List BuiltIn
built_in_extensions =
    record { spelling = codes ".dds"; kind = AssetKind.texture }
    ∷ record { spelling = codes ".tga"; kind = AssetKind.texture }
    ∷ record { spelling = codes ".nif"; kind = AssetKind.mesh }
    ∷ record { spelling = codes ".btr"; kind = AssetKind.mesh }
    ∷ record { spelling = codes ".bto"; kind = AssetKind.mesh }
    ∷ record { spelling = codes ".hkx"; kind = AssetKind.animation }
    ∷ []

pub work_eq_iff : (a b : RequestedWork) → (work_index a == work_index b ≡ true) ↔ (a ≡ b)
work_eq_iff RequestedWork.native_texture_optimization b = ground arith
work_eq_iff _ b = ground arith
