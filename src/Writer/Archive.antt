-- ===== src/Writer/Archive.antt =====
-- The archive: `WriteSignature`, `writeManifestVersion`, `writeArtifactV2`, `writeArtifactV3` and
-- `WriteArtifact` of awriter/writer.go.
pub mod Parts
pub mod Order
pub mod Sealed
use mender_artifact.Prelude.{
  ℕ, Bool, true, false, List, [], ◌∷◌, ◌++◌, none, some, Bytes, codes, length, ltb, ◌==◌,
  if◌then◌else◌,
}
use mender_artifact.Prelude.Result.{ok, err, ◌>>=◌, ◌>>◌, or_err}
use mender_artifact.Artifact.ChecksumStore.{ChecksumStore, new_checksum_store, add, get_raw}
use mender_artifact.Artifact.Compressor.{Compressor, get_file_extension}
use mender_artifact.Artifact.Metadata.{Info, validate_info}
use mender_artifact.Tar.{Entry}
use mender_artifact.Handlers.Compose.{stream_entry}
use mender_artifact.Writer.{
  version_1_outdated, unsupported_version, cannot_sign, of_store, of_metadata, Write, lift_error,
  WriterEnvironment, WriteArtifactArgs, sum_of,
}
use mender_artifact.Writer.Sums.{calc_data_hash}
use mender_artifact.Writer.Header.{write_temp_header}
use mender_artifact.Writer.Payload.{write_data}

abbrev pub header_name : Bytes → Compressor → Bytes
header_name name comp = name ++ get_file_extension comp

abbrev pub has_augments : WriteArtifactArgs → Bool
has_augments args = ltb 0 (length args.updates.augments)

module _ (x : WriterEnvironment) where
  -- `WriteSignature`.
  unfoldable pub write_signature : Bytes → Write (List Entry)
  write_signature message = elim x.signer [
    | none ↦ ok []
    | some sign ↦ or_err (sign message) cannot_sign >>= λ sig.
        ok (stream_entry (codes "manifest.sig") sig ∷ [])
  ]

  -- `writeManifestVersion` for version 2, and for version 3 with the store of the augmented manifest.
  manifest_entries : Bytes → ChecksumStore → Write (List Entry)
  unfolding write_signature
  manifest_entries info c = do
    c' ← lift_error of_store (add (codes "version") (sum_of x info) c)
    signature ← write_signature (get_raw c')
    ok (stream_entry (codes "manifest") (get_raw c') ∷ signature)

  pub augmented_entries : ChecksumStore → List Entry
  augmented_entries c =
      if ltb 0 (length (get_raw c))
      then stream_entry (codes "manifest-augment") (get_raw c) ∷ []
      else []

  unfoldable pub write_manifest_version :
      ℕ → ChecksumStore → ChecksumStore → Bytes → Write (List Entry)
  unfolding manifest_entries augmented_entries
  write_manifest_version version c augmented info =
      if version == 2
      then manifest_entries info c
      else if version == 3
      then (manifest_entries info c >>= λ es. ok (es ++ augmented_entries augmented))
      else err unsupported_version

  -- `ToStream` of the version's information.
  pub info_stream : WriteArtifactArgs → Write Bytes
  info_stream args =
      let info : Info = record { format = args.format; version = args.version } in
      lift_error of_metadata (validate_info info) >> ok (x.encoders.info_json info)

  -- `writeArtifactV2`.
  unfoldable pub write_artifact_v2 : Compressor → WriteArtifactArgs → Write (List Entry)
  unfolding info_stream write_manifest_version
  write_artifact_v2 comp args = do
    info ← info_stream args
    c ← calc_data_hash x new_checksum_store args.updates false
    (header, c') ← write_temp_header x comp c (codes "header") args false
    manifests ← write_manifest_version args.version c' new_checksum_store info
    files ← write_data x comp 0 args.updates.updates args.updates.augments
    ok (
        (stream_entry (codes "version") info ∷ manifests)
        ++ (stream_entry (header_name (codes "header.tar") comp) header ∷ files))

  -- The augmented parts of `writeArtifactV3`, if there is augmented data: the checksums of the files,
  -- and the header, with the store that its checksum is in.
  pub augmented_sums : WriteArtifactArgs → Write ChecksumStore
  augmented_sums args =
      if has_augments args
      then calc_data_hash x new_checksum_store args.updates true
      else ok new_checksum_store

  pub augmented_header :
      Compressor → WriteArtifactArgs → ChecksumStore → Write (List Entry × ChecksumStore)
  augmented_header comp args a =
      if has_augments args
      then (do
        (header, a') ← write_temp_header x comp a (codes "header-augment") args true
        ok (stream_entry (header_name (codes "header-augment.tar") comp) header ∷ [], a'))
      else ok ([], a)

  -- `writeArtifactV3`.
  unfoldable pub write_artifact_v3 : Compressor → WriteArtifactArgs → Write (List Entry)
  unfolding info_stream write_manifest_version augmented_sums augmented_header
  write_artifact_v3 comp args = do
    info ← info_stream args
    c ← calc_data_hash x new_checksum_store args.updates false
    a ← augmented_sums args
    (header, c') ← write_temp_header x comp c (codes "header") args false
    (augmented, a') ← augmented_header comp args a
    manifests ← write_manifest_version args.version c' a' info
    files ← write_data x comp 0 args.updates.updates args.updates.augments
    ok (
        (stream_entry (codes "version") info ∷ manifests)
        ++ ((stream_entry (header_name (codes "header.tar") comp) header ∷ augmented) ++ files))

  -- `WriteArtifact`.
  unfoldable pub write_artifact : Compressor → WriteArtifactArgs → Write (List Entry)
  unfolding write_artifact_v2 write_artifact_v3
  write_artifact comp args =
      if args.version == 1
      then err version_1_outdated
      else if args.version == 3
      then write_artifact_v3 comp args
      else if args.version == 2
      then write_artifact_v2 comp args
      else err unsupported_version
