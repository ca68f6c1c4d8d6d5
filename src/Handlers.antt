-- ===== src/Handlers.antt =====
-- The package `handlers`: what a payload knows of its files and of its headers. The three handlers
-- of handlers/rootfs_image.go, handlers/module_image.go and handlers/bootstrap_artifact.go are one
-- data type, which stands for the interface `Installer`. A constructor `augmented_…` holds the
-- original that the field `original` points to; in the others that field is nil.
pub mod Merge
pub mod Files
pub mod Headers
pub mod Compose
pub mod Updates
use mender_artifact.Prelude.{ℕ, List, [], ◌∷◌, Option, none, some, Bytes, codes}
use mender_artifact.Artifact.Json.{Fields}
use mender_artifact.Artifact.Metadata.{TypeInfoV3}

-- `DataFile`: name, size, date and checksum.
pub record DataFile : Type 0 where
  pub name : Bytes
  pub size : ℕ
  pub date : ℕ
  pub checksum : Option Bytes

abbrev pub named : Bytes → DataFile
named file = record { name = file; size = 0; date = 0; checksum = none }

pub record Rootfs : Type 0 where
  pub version : ℕ
  pub update : Option DataFile
  pub type_info_v3 : Option TypeInfoV3
  pub meta_data : Option Fields

pub record ModuleImage : Type 0 where
  pub version : ℕ
  pub update_type : Bytes
  pub files : List DataFile
  pub type_info_v3 : Option TypeInfoV3
  pub meta_data : Option Fields

pub record BootstrapArtifact : Type 0 where
  pub version : ℕ
  pub files : List DataFile
  pub type_info_v3 : Option TypeInfoV3

pub data Installer : Type 0 where
  rootfs : Rootfs → Installer
  augmented_rootfs : Rootfs → Installer → Installer
  module_image : ModuleImage → Installer
  augmented_module_image : ModuleImage → Installer → Installer
  bootstrap : BootstrapArtifact → Installer

-- A nil pointer that is followed, or an index out of range, is `panic`.
pub data HandlerError : Type 0 where
  panic : HandlerError
  not_exactly_one_file both_augmented_and_not augmented_on_original : HandlerError
  augmented_mismatch unsupported_file unsupported_version files_in_v3 : HandlerError
  not_decoded not_an_object augment_not_allowed original_after_augment : HandlerError
  merge_conflict : Bytes → HandlerError
  wrong_original : HandlerError

abbrev pub rootfs_image : Bytes
rootfs_image = codes "rootfs-image"

-- `NewRootfsInstaller`, `NewModuleImage`, `NewBootstrapArtifact`.
abbrev pub new_rootfs_installer : Installer
new_rootfs_installer =
    rootfs (record { version = 0; update = none; type_info_v3 = none; meta_data = none })

abbrev pub empty_module : ℕ → Bytes → ModuleImage
empty_module version type = record {
  version = version;
  update_type = type;
  files = [];
  type_info_v3 = none;
  meta_data = none;
}

abbrev pub new_module_image : Bytes → Installer
new_module_image type = module_image (empty_module 3 type)

abbrev pub new_bootstrap_artifact : Installer
new_bootstrap_artifact = bootstrap (record { version = 3; files = []; type_info_v3 = none })

-- `NewRootfsV3("")`, the rootfs of `NewAugmentedRootfs(orig, "")`.
abbrev pub rootfs_v3 : Rootfs
rootfs_v3 = record { version = 3; update = none; type_info_v3 = none; meta_data = none }

-- `NewAugmentedRootfs(orig, "")` and `NewAugmentedModuleImage`; the original may be nil.
unfoldable pub new_augmented_rootfs : Option Installer → Installer
new_augmented_rootfs none = rootfs rootfs_v3
new_augmented_rootfs (some orig) = augmented_rootfs rootfs_v3 orig

unfoldable pub new_augmented_module_image : Option Installer → Bytes → Installer
new_augmented_module_image none type = module_image (empty_module 3 type)
new_augmented_module_image (some orig) type = augmented_module_image (empty_module 3 type) orig

-- `GetVersion`.
unfoldable pub get_version : Installer → ℕ
get_version (rootfs d) = d.version
get_version (augmented_rootfs d o) = d.version
get_version (module_image d) = d.version
get_version (augmented_module_image d o) = d.version
get_version (bootstrap d) = d.version

-- `GetUpdateType`.
unfoldable pub get_update_type : Installer → Option Bytes
get_update_type (rootfs d) = some rootfs_image
get_update_type (augmented_rootfs d o) = some rootfs_image
get_update_type (module_image d) = some d.update_type
get_update_type (augmented_module_image d o) = some d.update_type
get_update_type (bootstrap d) = none
