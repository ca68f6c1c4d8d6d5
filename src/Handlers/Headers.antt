-- ===== src/Handlers/Headers.antt =====
-- `ReadHeader` of the three handlers: one file of a payload's part of the header. Decoding JSON
-- text is a parameter, the record `Decoders`.
use mender_artifact.Prelude.{
  ℕ, Bool, true, false, not, ◌&&◌, ◌||◌, List, [], ◌∷◌, Option, none, some, Bytes, codes, eqb,
  split, ltb, ◌==◌, if◌then◌else◌,
}
use mender_artifact.Prelude.Result.{Result, ok, err, ◌>>=◌, ◌>>◌, guard, or_err}
use mender_artifact.Prelude.FilePath.{base}
use mender_artifact.Artifact.Json.{Json, Fields, object, end}
use mender_artifact.Artifact.Metadata.{TypeInfoV3, HeaderInfo, HeaderInfoV3, Info}
use mender_artifact.Tar.{Body, full, cut, ended}
use mender_artifact.Handlers.{
  DataFile, named, Rootfs, ModuleImage, BootstrapArtifact, Installer, rootfs, augmented_rootfs,
  module_image, augmented_module_image, bootstrap, HandlerError, panic, not_exactly_one_file,
  augmented_mismatch, unsupported_file, unsupported_version, files_in_v3, not_decoded,
  not_an_object, augment_not_allowed, original_after_augment, augmented_on_original, merge_conflict,
}
use mender_artifact.Handlers.Files.{set_update_files}
use mender_artifact.Handlers.Merge.{merge_json_structures}

-- What a JSON decoder gives for the first value of a text: `io.EOF`, another error, or the value.
pub data Decoded : Type 0 where
  no_value bad_value : Decoded
  value : Json → Decoded

-- `type_info` decodes into the pointer that is there; the others are new values. `none` is an error.
pub record Decoders : Type 0 where
  pub info : Bytes → Option Info
  pub header_info : Bytes → Option HeaderInfo
  pub header_info_v3 : Bytes → Option HeaderInfoV3
  pub type_info : Option TypeInfoV3 → Body → Option (Option TypeInfoV3)
  pub meta_data : Body → Decoded
  pub files : Body → Option (List Bytes)

-- `GetUpdateOriginalMetaData`; nil is the empty object.
or_end : Option Fields → Fields
or_end none = end
or_end (some m) = m

unfoldable pub get_update_original_meta_data : Installer → Fields
unfolding or_end
get_update_original_meta_data (rootfs d) = or_end d.meta_data
get_update_original_meta_data (augmented_rootfs d o) = get_update_original_meta_data o
get_update_original_meta_data (module_image d) = or_end d.meta_data
get_update_original_meta_data (augmented_module_image d o) = get_update_original_meta_data o
get_update_original_meta_data (bootstrap d) = end

-- Whether the handler points to an original.
abbrev pub has_original : Installer → Bool
has_original (augmented_rootfs d o) = true
has_original (augmented_module_image d o) = true
has_original _ = false

-- `filepath.Match` with `headers/*/<part>/*` and with `headers/*/<part>/*/*`.
parts_match : Bytes → List Bytes → Bool
parts_match part (h ∷ n ∷ p ∷ f ∷ []) = eqb h (codes "headers") && eqb p part
parts_match part _ = false

parts_match_deep : Bytes → List Bytes → Bool
parts_match_deep part (h ∷ n ∷ p ∷ f ∷ g ∷ []) = eqb h (codes "headers") && eqb p part
parts_match_deep part _ = false

abbrev in_directory : Bytes → Bytes → Bool
in_directory part path = parts_match part (split path b'/')

abbrev in_directory_deep : Bytes → Bytes → Bool
in_directory_deep part path = parts_match_deep part (split path b'/')

-- The only name of a list of files.
only_file : Option (List Bytes) → Result HandlerError Bytes
only_file none = err not_decoded
only_file (some (f ∷ [])) = ok f
only_file (some _) = err not_exactly_one_file

-- The JSON object of the meta-data; `ok none` if there is no value.
meta_object : Decoded → Result HandlerError (Option Fields)
meta_object no_value = ok none
meta_object bad_value = err not_decoded
meta_object (value (object fs)) = ok (some fs)
meta_object (value _) = err not_an_object

-- The bytes of a checksum file, written through the pointer `update`.
set_checksum : Body → Option DataFile → Result HandlerError (Option DataFile)
set_checksum (cut s) u = err not_decoded
set_checksum (ended s) u = err not_decoded
set_checksum (full s) none = err panic
set_checksum (full s) (some f) = ok (some (record f { checksum = some s }))

-- The structure of a rootfs handler, and the handler with another one.
rootfs_of : Rootfs → Option Installer → Installer
rootfs_of d none = rootfs d
rootfs_of d (some o) = augmented_rootfs d o

has : Option Installer → Bool
has none = false
has (some o) = true

-- `setUpdateOriginalMetaData` and `setUpdateAugmentMetaData` of a rootfs image.
set_rootfs_meta_data : Bool → Fields → Rootfs → Option Installer → Result HandlerError Installer
set_rootfs_meta_data augmented m d o =
    if augmented
    then (do
      guard (has o) augmented_on_original
      ok (rootfs_of (record d { meta_data = some m }) o))
    else (do
      guard (not (has o)) original_after_augment
      ok (rootfs_of (record d { meta_data = some m }) o))

optional_meta_data :
    (Fields → Result HandlerError Installer)
    → Installer
    → Option Fields
    → Result HandlerError Installer
optional_meta_data set i none = ok i
optional_meta_data set i (some m) = set m

module _ (x : Decoders) where
  -- `Rootfs.ReadHeader`: `d0` is the structure, `o` its original.
  unfoldable pub read_rootfs_header :
      Body → Bytes → ℕ → Bool → Rootfs → Option Installer → Result HandlerError Installer
  unfolding only_file meta_object set_checksum rootfs_of set_rootfs_meta_data optional_meta_data
      parts_match parts_match_deep has
  read_rootfs_header body path version augmented d0 o =
      let d = record d0 { version = version } in
      if eqb (base path) (codes "files")
      then (do
        guard (ltb version 3) files_in_v3
        f ← only_file (x.files body)
        set_update_files (named f ∷ []) (rootfs_of d o))
      else if eqb (base path) (codes "type-info")
      then (if ltb version 3 then ok (rootfs_of d o) else (do
        t ← or_err (x.type_info d.type_info_v3 body) not_decoded
        ok (rootfs_of (record d { type_info_v3 = t }) o)))
      else if eqb (base path) (codes "meta-data")
      then (do
        m ← meta_object (x.meta_data body)
        optional_meta_data (λ fs. set_rootfs_meta_data augmented fs d o) (rootfs_of d o) m)
      else if in_directory (codes "signatures") path || in_directory_deep (codes "scripts") path
      then (do guard (not augmented) augment_not_allowed; ok (rootfs_of d o))
      else if in_directory (codes "checksums") path
      then (do u ← set_checksum body d.update; ok (rootfs_of (record d { update = u }) o))
      else err unsupported_file

  module_of : ModuleImage → Option Installer → Installer
  module_of d none = module_image d
  module_of d (some o) = augmented_module_image d o

  -- `setUpdateOriginalMetaData` and `setUpdateAugmentMetaData` of a module image: the augmented
  -- meta-data must merge with the original.
  set_module_meta_data :
      Bool → Fields → ModuleImage → Option Installer → Result HandlerError Installer
  set_module_meta_data false m d none = ok (module_image (record d { meta_data = some m }))
  set_module_meta_data false m d (some o) = err original_after_augment
  set_module_meta_data true end d none = ok (module_image d)
  set_module_meta_data true m d none = err augmented_on_original
  set_module_meta_data true m d (some o) =
      elim (merge_json_structures (get_update_original_meta_data o) m) [
        | ok merged ↦ ok (augmented_module_image (record d { meta_data = some m }) o)
        | err e ↦ err (merge_conflict [])
      ]

  -- `ModuleImage.ReadHeader`.
  unfoldable pub read_module_header :
      Body → Bytes → ℕ → Bool → ModuleImage → Option Installer → Result HandlerError Installer
  unfolding meta_object module_of set_module_meta_data optional_meta_data has
  read_module_header body path version augmented d0 o =
      let d = record d0 { version = version } in
      if not (if augmented then has o else not (has o))
      then err augmented_mismatch
      else if eqb (base path) (codes "type-info")
      then (do
        t ← or_err (x.type_info d.type_info_v3 body) not_decoded
        ok (module_of (record d { type_info_v3 = t }) o))
      else if eqb (base path) (codes "meta-data")
      then (do
        m ← meta_object (x.meta_data body)
        optional_meta_data (λ fs. set_module_meta_data augmented fs d o) (module_of d o) m)
      else err unsupported_file

  -- `BootstrapArtifact.ReadHeader`.
  unfoldable pub read_bootstrap_header :
      Body → Bytes → ℕ → BootstrapArtifact → Result HandlerError Installer
  read_bootstrap_header body path version d0 =
      if not (version == 3)
      then err unsupported_version
      else if eqb (base path) (codes "type-info")
      then (do
        t ← or_err (x.type_info d0.type_info_v3 body) not_decoded
        ok (bootstrap (record d0 { version = version; type_info_v3 = t })))
      else err unsupported_file

  -- `ReadHeader` of the interface.
  unfoldable pub read_header : Body → Bytes → ℕ → Bool → Installer → Result HandlerError Installer
  unfolding read_rootfs_header read_module_header read_bootstrap_header
  read_header body path version augmented (rootfs d) =
      read_rootfs_header body path version augmented d none
  read_header body path version augmented (augmented_rootfs d o) =
      read_rootfs_header body path version augmented d (some o)
  read_header body path version augmented (module_image d) =
      read_module_header body path version augmented d none
  read_header body path version augmented (augmented_module_image d o) =
      read_module_header body path version augmented d (some o)
  read_header body path version augmented (bootstrap d) = read_bootstrap_header body path version d
