-- ===== src/Writer/Header.antt =====
-- The archives of headers: `writeScripts`, `writeHeader` and `writeTempHeader` of awriter/writer.go.
use mender_artifact.Prelude.{
  ℕ, suc, Bool, true, false, not, ◌||◌, List, [], ◌∷◌, ◌++◌, Option, none, some, Bytes, codes,
  length, ◌==◌, if◌then◌else◌,
}
use mender_artifact.Prelude.Result.{ok, err, ◌>>=◌, ◌>>◌, guard, or_err}
use mender_artifact.Prelude.FilePath.{base, join}
use mender_artifact.Artifact.ChecksumStore.{ChecksumStore, add}
use mender_artifact.Artifact.Compressor.{Compressor, get_file_extension}
use mender_artifact.Artifact.Json.{Fields}
use mender_artifact.Artifact.Scripter.{get}
use mender_artifact.Artifact.Metadata.{
  UpdateType, HeaderInfo, HeaderInfoV3, v2, v3, TypeInfoV3, validate_header_info,
  validate_header_info_v3,
}
use mender_artifact.Tar.{Entry}
use mender_artifact.Handlers.{Installer, get_update_type}
use mender_artifact.Handlers.Compose.{stream_entry, compose_header}
use mender_artifact.Writer.{
  panic, cannot_open, no_payloads, of_store, of_metadata, of_compose, Write, lift_error,
  WriterEnvironment, WriteArtifactArgs, archive, sum_of,
}
use mender_artifact.Writer.Sums.{composers}

-- `extractUpdateTypes`, which follows every composer.
extract_update_types : List (Option Installer) → Write (List UpdateType)
extract_update_types [] = ok []
extract_update_types (none ∷ us) = err panic
extract_update_types (some u ∷ us) = do
  types ← extract_update_types us
  ok (record { type = get_update_type u } ∷ types)

module _ (x : WriterEnvironment) where
  -- `writeScripts`.
  unfoldable pub write_scripts : List Bytes → Write (List Entry)
  write_scripts [] = ok []
  write_scripts (script ∷ rest) = do
    text ← or_err (x.read_file script) (cannot_open script)
    entries ← write_scripts rest
    ok (stream_entry (join (codes "scripts") (base script)) text ∷ entries)

  -- `ToStream` of the header information of a version.
  header_info_stream : WriteArtifactArgs → List UpdateType → Write Bytes
  header_info_stream args types =
      let hi3 : HeaderInfoV3 = record {
        updates = types;
        artifact_provides = args.provides;
        artifact_depends = args.depends;
      } in
      let hi : HeaderInfo = record {
        artifact_name = args.name;
        updates = types;
        compatible_devices = args.devices;
      } in
      if args.version == 3
      then lift_error of_metadata (validate_header_info_v3 hi3)
        >> ok (x.encoders.header_info_json (v3 hi3))
      else if args.version == 1 || args.version == 2
      then lift_error of_metadata (validate_header_info hi)
        >> ok (x.encoders.header_info_json (v2 hi))
      else err panic

  -- The loop of `writeHeader` over the composers, from number `i` on.
  compose_headers :
      ℕ → Bool → ℕ → Fields → Option TypeInfoV3 → List (Option Installer) → Write (List Entry)
  compose_headers version augmented i meta_data t [] = ok []
  compose_headers version augmented i meta_data t (none ∷ us) = err panic
  compose_headers version augmented i meta_data t (some u ∷ us) = do
    (entries, t') ← lift_error of_compose (
        compose_header x.encoders
          (record {
            no = i;
            version = version;
            augmented = augmented;
            type_info_v3 = t;
            meta_data = meta_data;
          })
          u)
    rest ← compose_headers version augmented (suc i) meta_data t' us
    ok (entries ++ rest)

  scripts_of : WriteArtifactArgs → Bool → Write (List Entry)
  unfolding write_scripts
  scripts_of args true = ok []
  scripts_of args false = elim args.scripts [
    | none ↦ ok []
    | some scripts ↦ write_scripts (get scripts)
  ]

  -- `writeHeader`: the entries of the header's archive.
  unfoldable pub write_header : WriteArtifactArgs → Bool → Write (List Entry)
  unfolding extract_update_types header_info_stream scripts_of compose_headers
  write_header args augmented = do
    let us = composers augmented args.updates
    guard (not (length us == 0)) no_payloads
    types ← extract_update_types us
    stream ← header_info_stream args types
    scripts ← scripts_of args augmented
    payloads ←
        compose_headers args.version augmented 0
          (if augmented then args.augment_meta_data else args.meta_data)
          (if augmented then args.augment_type_info_v3 else args.type_info_v3) us
    ok (stream_entry (codes "header-info") stream ∷ (scripts ++ payloads))

  -- `writeTempHeader`: the file's bytes, and the store with its checksum.
  unfoldable pub write_temp_header :
      Compressor → ChecksumStore → Bytes → WriteArtifactArgs → Bool → Write (Bytes × ChecksumStore)
  unfolding write_header
  write_temp_header comp c name args augmented = do
    entries ← write_header args augmented
    let text = x.pack comp (archive entries)
    c' ←
        lift_error of_store
          (add (name ++ (codes ".tar" ++ get_file_extension comp)) (sum_of x text) c)
    ok (text, c')
