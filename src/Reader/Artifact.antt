-- ===== src/Reader/Artifact.antt =====
-- areader/reader.go: `ReadVersion`, `readHeaderV2` and `ReadArtifactHeaders`.
pub mod Integrity
pub mod Signed
use mender_artifact.Prelude.{
  ℕ, Bool, true, false, not, ◌&&◌, ◌||◌, List, [], ◌∷◌, ◌++◌, Option, none, some, Bytes, codes, eqb,
  has_prefix, split, length, ◌==◌, if◌then◌else◌,
}
use mender_artifact.Prelude.Result.{Result, ok, err, ◌>>=◌, ◌>>◌, guard, or_err}
use mender_artifact.Prelude.FilePath.{base, clean}
use mender_artifact.Artifact.Checksum.{hex_encode}
use mender_artifact.Artifact.ChecksumStore.{
  ChecksumStore, new_checksum_store, get_and_mark, get_raw, read_raw, split_two_spaces,
}
use mender_artifact.Artifact.Compressor.{Compressor, new_compressor_from_file_name}
use mender_artifact.Artifact.Metadata.{Info, zero_info}
use mender_artifact.Tar.{Body, full, cut, Entry, Tar, entry, eof, broken}
use mender_artifact.Reader.{
  Environment, Reader, Read, ReaderError, lift, new_reader, archive_broken, body_broken,
  no_more_entries, not_decoded, garbled_entry, version_checksum, no_verify_callback,
  signature_invalid, not_signed, invalid_structure, unexpected_file, missing_fields,
  version_unsupported, of_store,
}
use mender_artifact.Reader.Grammar.{verify_parse_order}
use mender_artifact.Reader.Header.{bytes_of, read_next, read_header_archive, read_augmented_header}
use mender_artifact.Reader.Headers.{verify_version, signature_read_and_verify, read_header_v3}

-- `FileInfo().Name()` of `archive/tar`.
unfoldable pub file_info_name : Entry → Bytes
file_info_name e = if e.is_dir then base (clean e.name) else base e.name

module _ (x : Environment) where
  unfoldable pub next_in_v2 : Tar → Read (Entry × Tar)
  next_in_v2 eof = err no_more_entries
  next_in_v2 broken = err archive_broken
  next_in_v2 (entry e t) = ok (e, t)

  -- The case of the `switch` of `readHeaderV2` for a header, into which the other falls through.
  read_v2_header : Bytes → Bytes → Body → Reader → Read Reader
  unfolding verify_version
  read_v2_header version name body ar = do
    (sum, c) ← lift of_store (get_and_mark name ar.manifest)
    c' ← verify_version x version c
    let comp = new_compressor_from_file_name name
    read_header_archive x sum comp body (record ar { manifest = c'; compressor = some comp })

  -- `readHeaderV2`.
  unfoldable pub read_header_v2 : Bytes → Tar → Reader → Read (Reader × Tar)
  unfolding next_in_v2 read_v2_header signature_read_and_verify verify_version file_info_name
  read_header_v2 version t0 ar0 = do
    (text, t) ← read_next t0 (codes "manifest")
    c ← lift of_store (read_raw text new_checksum_store)
    let ar = record ar0 { manifest = c }
    (e, rest) ← next_in_v2 t
    let name = file_info_name e
    guard (not (x.should_be_signed && not (eqb name (codes "manifest.sig")))) not_signed
    if eqb name (codes "manifest.sig")
        then (do
          signature_read_and_verify x e.body (get_raw c)
          c' ← verify_version x version c
          (h, rest') ← next_in_v2 rest
          guard (has_prefix (file_info_name h) (codes "header.tar")) (unexpected_file h.name)
          ar' ←
              read_v2_header version (file_info_name h) h.body
                (record ar { is_signed = true; manifest = c' })
          ok (ar', rest'))
        else if has_prefix name (codes "header.tar")
        then (do ar' ← read_v2_header version name e.body ar; ok (ar', rest))
        else err (unexpected_file name)

  unfoldable pub decode_version : Bytes → Read Info
  decode_version raw =
      if length raw == 0 then ok zero_info else or_err (x.decoders.info raw) not_decoded

  -- `ReadArtifactHeaders`: the reader and the rest of the archive, where the data stand.
  unfoldable pub read_artifact_headers : Tar → Reader → Read (Reader × Tar)
  unfolding decode_version read_header_v3 read_header_v2
  read_artifact_headers t ar = do
    (raw, rest) ← read_next t (codes "version")
    info ← decode_version raw
    let ar' = record ar { info = info }
    if info.version == 2
        then read_header_v2 raw rest ar'
        else if info.version == 3
        then read_header_v3 x raw rest ar'
        else err version_unsupported
