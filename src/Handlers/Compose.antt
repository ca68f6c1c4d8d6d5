-- ===== src/Handlers/Compose.antt =====
-- `ComposeHeader` of the three handlers in handlers/, with `writeFiles`, `writeTypeInfo` and
-- `writeTypeInfoV3` of handlers/common.go. A write to the header's archive gives its entry.
use mender_artifact.Prelude.{
  ℕ, Bool, true, false, ◌||◌, List, [], ◌∷◌, ◌++◌, Option, none, some, Bytes, codes, ltb, ◌==◌,
  if◌then◌else◌,
}
use mender_artifact.Prelude.Result.{Result, ok, err, ◌>>=◌, ◌>>◌, guard}
use mender_artifact.Prelude.FilePath.{base, join}
use mender_artifact.Artifact.Json.{Fields, end, field}
use mender_artifact.Artifact.Metadata.{
  Info, HeaderInfoer, TypeInfoV3, MetadataError, validate_files,
}
use mender_artifact.Artifact.Update.{update_header_path}
use mender_artifact.Tar.{full, Entry}
use mender_artifact.Handlers.{
  DataFile, Rootfs, ModuleImage, Installer, rootfs, augmented_rootfs, module_image,
  augmented_module_image, bootstrap, rootfs_image,
}

pub data ComposeError : Type 0 where
  panic : ComposeError
  version_not_supported meta_data_not_empty version_below_3 : ComposeError
  not_valid : MetadataError → ComposeError

abbrev pub Compose {ℓ} : Type ℓ → Type ℓ
Compose A = Result ComposeError A

-- `json.Marshal` of the structures that are written.
pub record Encoders : Type 0 where
  pub info_json : Info → Bytes
  pub header_info_json : HeaderInfoer → Bytes
  pub type_info_json : Bytes → Bytes
  pub type_info_v3_json : Option TypeInfoV3 → Bytes
  pub files_json : List Bytes → Bytes
  pub meta_data_json : Fields → Bytes

-- The fields of `ComposeHeaderArgs` behind the archive.
pub record ComposeHeaderArgs : Type 0 where
  pub no : ℕ
  pub version : ℕ
  pub augmented : Bool
  pub type_info_v3 : Option TypeInfoV3
  pub meta_data : Fields

-- The entry that `StreamArchiver.Write` makes.
abbrev pub stream_entry : Bytes → Bytes → Entry
stream_entry name text = record { name = name; is_dir = false; body = full text }

abbrev pub is_empty_object : Fields → Bool
is_empty_object end = true
is_empty_object (field k v m) = false

-- `args.TypeInfoV3.ArtifactProvides = nil`, in the structure that all payloads share.
without_provides : Option TypeInfoV3 → Option TypeInfoV3
without_provides none = none
without_provides (some t) = some (record t { artifact_provides = none })

module _ (x : Encoders) where
  -- `writeFiles`, `writeTypeInfo` and `writeTypeInfoV3`.
  write_files : List Bytes → Bytes → Compose Entry
  write_files files dir = elim (validate_files files) [
    | err e ↦ err (not_valid e)
    | ok u ↦ ok (stream_entry (join dir (codes "files")) (x.files_json files))
  ]

  write_type_info : Bytes → Bytes → Entry
  write_type_info type dir = stream_entry (join dir (codes "type-info")) (x.type_info_json type)

  write_type_info_v3 : Option TypeInfoV3 → Bytes → Entry
  write_type_info_v3 t dir = stream_entry (join dir (codes "type-info")) (x.type_info_v3_json t)

  file_of_rootfs : Option DataFile → Compose Bytes
  file_of_rootfs none = err panic
  file_of_rootfs (some f) = ok (base f.name)

  -- The `switch` of `Rootfs.ComposeHeader`: the entries, and the structure behind them.
  rootfs_type_info : ComposeHeaderArgs → Rootfs → Compose (List Entry × Option TypeInfoV3)
  unfolding write_files write_type_info write_type_info_v3 file_of_rootfs without_provides
  rootfs_type_info args d =
      let path = update_header_path args.no in
      if d.version == 1 || d.version == 2
      then (do
        file ← file_of_rootfs d.update
        files ← write_files (file ∷ []) path
        ok (files ∷ write_type_info rootfs_image path ∷ [], args.type_info_v3))
      else if d.version == 3
      then (let t =
            if args.augmented then without_provides args.type_info_v3 else args.type_info_v3 in
          ok (write_type_info_v3 t path ∷ [], t))
      else err version_not_supported

  -- `Rootfs.ComposeHeader`. The meta-data file is written empty.
  compose_rootfs : ComposeHeaderArgs → Rootfs → Compose (List Entry × Option TypeInfoV3)
  unfolding rootfs_type_info
  compose_rootfs args d = do
    (entries, t) ← rootfs_type_info args d
    guard (is_empty_object args.meta_data) meta_data_not_empty
    ok (entries ++ stream_entry (join (update_header_path args.no) (codes "meta-data")) [] ∷ [], t)

  -- `ModuleImage.ComposeHeader`.
  compose_module : ComposeHeaderArgs → ModuleImage → Compose (List Entry × Option TypeInfoV3)
  unfolding write_type_info_v3
  compose_module args d =
      let path = update_header_path args.no in
      let type_info = write_type_info_v3 args.type_info_v3 path in
      if ltb d.version 3
      then err version_below_3
      else if is_empty_object args.meta_data
      then ok (type_info ∷ [], args.type_info_v3)
      else ok (
        type_info
            ∷ stream_entry (join path (codes "meta-data")) (x.meta_data_json args.meta_data)
            ∷ [],
        args.type_info_v3,
      )

  -- `ComposeHeader`: the entries, and the type information that the next payload is given. The two
  -- handlers that keep their type information are not asked for it again while writing.
  unfoldable pub compose_header :
      ComposeHeaderArgs → Installer → Compose (List Entry × Option TypeInfoV3)
  unfolding compose_rootfs compose_module write_type_info_v3
  compose_header args (rootfs d) = compose_rootfs args d
  compose_header args (augmented_rootfs d o) = compose_rootfs args d
  compose_header args (module_image d) = compose_module args d
  compose_header args (augmented_module_image d o) = compose_module args d
  compose_header args (bootstrap d) =
      ok (write_type_info_v3 args.type_info_v3 (update_header_path args.no) ∷ [], args.type_info_v3)
