-- ===== src/Request/Choices.antt =====
-- The Work Choices of crates/cao-core/src/run/work_choices.rs, and the Archive Finalization choices
-- of crates/cao-core/src/run/finalization/mod.rs that they carry.
use cao.Shared.{ℕ, Bool, true, false, ◌||◌, ◌%◌, ◌==◌, if◌then◌else◌, leb, not}
use cao.Shared.Int.{ℤ, pos, negsuc}

-- Whether an extracted source Archive is backed up or removed.
pub data SourceCleanup : Type 0 where
  backup remove : SourceCleanup

pub record ArchiveFinalizationChoices : Type 0 where
  pub compress : Bool
  pub delete_sources : Bool
  pub create_dummy_plugins : Bool
  pub merge_incompressible : Bool
  pub merge_textures : Bool

abbrev pub default_finalization : ArchiveFinalizationChoices
default_finalization = record {
  compress = true;
  delete_sources = true;
  create_dummy_plugins = true;
  merge_incompressible = true;
  merge_textures = false;
}

-- A ratio that each side is divided by; a size that each side is halved towards.
pub record Sides : Type 0 where
  pub width : ℕ
  pub height : ℕ

pub data TextureResizeChoice : Type 0 where
  keep_size : TextureResizeChoice
  ratio : Sides → TextureResizeChoice
  size : Sides → TextureResizeChoice

pub record TextureChoices : Type 0 where
  pub necessary : Bool
  pub compress : Bool
  pub mipmaps : Bool
  pub resize : TextureResizeChoice

pub record MeshChoices : Type 0 where
  pub level : ℕ
  pub headparts : Bool
  pub resave : Bool

pub record WorkChoices : Type 0 where
  pub textures : TextureChoices
  pub meshes : MeshChoices
  pub archive_extraction : SourceCleanup
  pub archive_finalization : ArchiveFinalizationChoices

abbrev pub default_choices : WorkChoices
default_choices = record {
  textures = record { necessary = true; compress = false; mipmaps = false; resize = keep_size };
  meshes = record { level = 0; headparts = true; resave = false };
  archive_extraction = backup;
  archive_finalization = default_finalization;
}

pub data WorkChoiceError : Type 0 where
  mesh_level : ℤ → WorkChoiceError
  zero_resize_ratio odd_resize_size zero_resize_size : WorkChoiceError

pub data Result {ℓ} (A : Type ℓ) : Type ℓ where
  ok : A → Result A
  err : WorkChoiceError → Result A

abbrev pub necessary_level : ℕ
necessary_level = 1

abbrev pub full_level : ℕ
full_level = 3

-- `MeshLevel::new`: the level of an `i32`.
unfoldable pub mesh_level_new : ℤ → Result ℕ
mesh_level_new (pos n) = if leb n 3 then ok n else err (mesh_level (pos n))
mesh_level_new (negsuc n) = err (mesh_level (negsuc n))

-- `ResizeRatio::new`
unfoldable pub resize_ratio_new : ℕ → ℕ → Result Sides
resize_ratio_new w h =
    if w == 0 || h == 0 then err zero_resize_ratio else ok (record { width = w; height = h })

-- `ResizeSize::new`
unfoldable pub resize_size_new : ℕ → ℕ → Result Sides
resize_size_new w h =
    if not (w % 2 == 0) || not (h % 2 == 0)
    then err odd_resize_size
    else if w == 0 || h == 0
    then err zero_resize_size
    else ok (record { width = w; height = h })
