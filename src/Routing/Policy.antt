-- ===== src/Routing/Policy.antt =====
-- `RoutingPolicyRequest`, `ProfileCapabilities` and `RoutingPolicy::compile` of
-- crates/cao-core/src/routing.rs.
use cao.Shared.{
  Bool, false, not, ◌&&◌, ◌||◌, List, [], ◌∷◌, ◌++◌, Option, none, some, Text, ◌==◌, if◌then◌else◌,
  all, any, text_eq, lowercase, is_ascii_alphanumeric,
}
use cao.Routing.Kinds.{
  AssetKind, AssetVariant, AssetOperation, mesh_reference_maintenance, ExecutionMode, RequestedWork,
  ProfileCapability, WorkSet, CapabilitySet, WorkDefinition, work_index, capability_index,
  kind_index, requested_work_definitions, capability_kind, all_capabilities, BuiltIn,
  built_in_extensions,
}

pub record RoutingPolicyRequest : Type 0 where
  pub execution_mode : ExecutionMode
  pub work : WorkSet

-- The closed set of a list of choices; repeated choices collapse.
abbrev pub work_set : List RequestedWork → WorkSet
work_set [] w = false
work_set (x ∷ xs) w = work_index x == work_index w || work_set xs w

abbrev pub for_work : ExecutionMode → List RequestedWork → RoutingPolicyRequest
for_work mode work = record { execution_mode = mode; work = work_set work }

pub record ProfileCapabilities : Type 0 where
  pub archive_extension : Option Text
  pub capabilities : CapabilitySet

abbrev pub capability_set : List ProfileCapability → CapabilitySet
capability_set [] c = false
capability_set (x ∷ xs) c = capability_index x == capability_index c || capability_set xs c

abbrev pub from_definition : Option Text → List ProfileCapability → ProfileCapabilities
from_definition ext caps = record { archive_extension = ext; capabilities = capability_set caps }

abbrev pub supports : ProfileCapabilities → ProfileCapability → Bool
supports p c = p.capabilities c

-- Whether the profile supports any behavior within an Asset Kind.
unfoldable pub supports_kind : ProfileCapabilities → AssetKind → Bool
supports_kind p k =
    any (λ c. supports p c && kind_index (capability_kind c) == kind_index k) all_capabilities

pub data MalformedArchiveExtensionReason : Type 0 where
  missing_leading_period empty_suffix invalid_character : MalformedArchiveExtensionReason

pub data PolicyValidationError : Type 0 where
  missing_archive_extension : PolicyValidationError
  malformed_archive_extension : Text → MalformedArchiveExtensionReason → PolicyValidationError
  ambiguous_archive_extension : Text → Text → AssetKind → PolicyValidationError
  unsupported_requested_asset_kind : RequestedWork → AssetKind → PolicyValidationError
  unsupported_requested_asset_variant : RequestedWork → AssetVariant → PolicyValidationError
  unsupported_derived_operation : RequestedWork → AssetOperation → PolicyValidationError

malformed_suffix : Text → Option MalformedArchiveExtensionReason
malformed_suffix [] = some empty_suffix
malformed_suffix (c ∷ t) =
    if all is_ascii_alphanumeric (c ∷ t) then none else some invalid_character

-- The profile Archive extension grammar.
unfoldable pub malformed_reason : Text → Option MalformedArchiveExtensionReason
unfolding malformed_suffix
malformed_reason [] = some missing_leading_period
malformed_reason (c ∷ t) = if c == b'.' then malformed_suffix t else some missing_leading_period

-- The built-in extension that a folded Archive extension collides with.
unfoldable pub find_built_in : Text → List BuiltIn → Option BuiltIn
find_built_in ext [] = none
find_built_in ext (b ∷ bs) =
    let rest = find_built_in ext bs in if text_eq b.spelling ext then some b else rest

-- The extension that the first step of `compile` keeps, and the conflicts it reports.
pub record ExtensionCheck : Type 0 where
  pub folded : Text
  pub errors : List PolicyValidationError

check_built_in : Text → Option BuiltIn → ExtensionCheck
check_built_in ext none = record { folded = lowercase ext; errors = [] }
check_built_in ext (some b) = record {
  folded = lowercase ext;
  errors = ambiguous_archive_extension ext b.spelling b.kind ∷ [];
}

check_malformed : Text → Option MalformedArchiveExtensionReason → ExtensionCheck
unfolding check_built_in
check_malformed ext (some reason) = record {
  folded = [];
  errors = malformed_archive_extension ext reason ∷ [];
}
check_malformed ext none = check_built_in ext (find_built_in (lowercase ext) built_in_extensions)

unfoldable pub check_extension : Option Text → ExtensionCheck
unfolding check_malformed
check_extension none = record { folded = []; errors = missing_archive_extension ∷ [] }
check_extension (some []) = record { folded = []; errors = missing_archive_extension ∷ [] }
check_extension (some (c ∷ t)) = check_malformed (c ∷ t) (malformed_reason (c ∷ t))

-- How one unsupported work choice is reported.
report_work : ProfileCapabilities → WorkDefinition → Option AssetVariant → PolicyValidationError
report_work p d none = unsupported_requested_asset_kind d.work (capability_kind d.capability)
report_work p d (some v) =
    if supports_kind p (capability_kind d.capability)
    then unsupported_requested_asset_variant d.work v
    else unsupported_requested_asset_kind d.work (capability_kind d.capability)

-- The loop over `REQUESTED_WORK_DEFINITIONS`.
unfoldable pub work_errors :
    WorkSet → ProfileCapabilities → List WorkDefinition → List PolicyValidationError
unfolding report_work
work_errors work p [] = []
work_errors work p (d ∷ ds) =
    let rest = work_errors work p ds in
    if not (work d.work) || supports p d.capability then rest else report_work p d d.variant ∷ rest

pub record RoutingPolicy : Type 0 where
  pub execution_mode : ExecutionMode
  pub work : WorkSet
  pub converts_textures : Bool
  pub archive_extension : Text

pub data CompileResult : Type 0 where
  compiled : RoutingPolicy → CompileResult
  conflicts : List PolicyValidationError → CompileResult

abbrev pub derives_conversion : WorkSet → ProfileCapabilities → Bool → Bool
derives_conversion work p prefers =
    prefers
    && (work RequestedWork.native_texture_optimization
        && supports p ProfileCapability.convertible_texture_conversion)

unfoldable pub derived_errors : Bool → ProfileCapabilities → List PolicyValidationError
derived_errors converts p =
    if converts && not (supports p ProfileCapability.mesh_reference_maintenance)
    then unsupported_derived_operation RequestedWork.native_texture_optimization
        mesh_reference_maintenance
      ∷ []
    else []

-- Every conflict, in compiler order.
unfoldable pub all_errors : WorkSet → ProfileCapabilities → Bool → List PolicyValidationError
unfolding derived_errors
all_errors work p prefers =
    (check_extension p.archive_extension).errors
    ++ (work_errors work p requested_work_definitions
        ++ derived_errors (derives_conversion work p prefers) p)

unfoldable pub finish_compile : List PolicyValidationError → RoutingPolicy → CompileResult
finish_compile [] policy = compiled policy
finish_compile (e ∷ es) policy = conflicts (e ∷ es)

-- `RoutingPolicy::compile`
unfoldable pub compile : RoutingPolicyRequest → ProfileCapabilities → Bool → CompileResult
unfolding finish_compile
compile request p prefers = finish_compile (all_errors request.work p prefers) (record {
  execution_mode = request.execution_mode;
  work = request.work;
  converts_textures = derives_conversion request.work p prefers;
  archive_extension = (check_extension p.archive_extension).folded;
})

abbrev pub requests : RoutingPolicy → RequestedWork → Bool
requests p w = p.work w

abbrev pub maintains_mesh_references : RoutingPolicy → Bool
maintains_mesh_references p = p.converts_textures

-- Whether any Variant of a Kind has work under a policy.
unfoldable pub kind_has_work : RoutingPolicy → AssetKind → Bool
kind_has_work p AssetKind.texture =
    requests p RequestedWork.native_texture_optimization || p.converts_textures
kind_has_work p AssetKind.mesh =
    requests p RequestedWork.standard_mesh_optimization
    || (requests p RequestedWork.terrain_mesh_optimization || maintains_mesh_references p)
kind_has_work p AssetKind.animation = requests p RequestedWork.animation_optimization
kind_has_work p AssetKind.archive = requests p RequestedWork.archive_extraction
