-- ===== src/Reader/Headers.antt =====
-- The outer archive up to the header in areader/reader.go: `readManifestHeader`,
-- `verifyVersion`, `signatureReadAndVerify`, `handleHeaderReads` and `readHeaderV3`.
pub mod Cases
pub mod Run
pub mod Mark
pub mod Signed
pub mod Integrity
use mender_artifact.Prelude.{
  ℕ, Bool, true, false, not, ◌&&◌, ◌||◌, List, [], ◌∷◌, ◌++◌, Option, none, some, Bytes, codes, eqb,
  has_prefix, split, length, ◌==◌, if◌then◌else◌,
}
use mender_artifact.Prelude.Result.{Result, ok, err, ◌>>=◌, ◌>>◌, guard, or_err}
use mender_artifact.Prelude.FilePath.{base, clean}
use mender_artifact.Artifact.Checksum.{hex_encode}
use mender_artifact.Artifact.ChecksumStore.{
  ChecksumStore, new_checksum_store, get_and_mark, get_raw, read_raw, split_two_spaces,
}
use mender_artifact.Artifact.Compressor.{Compressor, new_compressor_from_file_name}
use mender_artifact.Artifact.Metadata.{Info, zero_info}
use mender_artifact.Tar.{Body, full, cut, ended, Entry, Tar, entry, eof, broken}
use mender_artifact.Reader.{
  Environment, Reader, Read, ReaderError, lift, new_reader, archive_broken, body_broken,
  no_more_entries, not_decoded, garbled_entry, version_checksum, no_verify_callback,
  signature_invalid, not_signed, invalid_structure, unexpected_file, missing_fields,
  version_unsupported, of_store,
}
use mender_artifact.Reader.Grammar.{verify_parse_order}
use mender_artifact.Reader.Header.{bytes_of, read_next, read_header_archive, read_augmented_header}
use mender_artifact.Reader.Installers.{assign_update_files}

-- The file names of a manifest: the text behind the first two spaces of each line that is not empty.
behind_two_spaces : Bytes → Option Bytes
behind_two_spaces [] = none
behind_two_spaces (a ∷ []) = none
behind_two_spaces (a ∷ b ∷ s) =
    let later = behind_two_spaces (b ∷ s) in if a == b' ' && b == b' ' then some s else later

unfoldable pub manifest_files : List Bytes → Read (List Bytes)
unfolding behind_two_spaces
manifest_files [] = ok []
manifest_files (line ∷ lines) =
    let later = manifest_files lines in
    if length line == 0 then later else (do
      file ← or_err (behind_two_spaces line) (garbled_entry line)
      files ← later
      ok (file ∷ files))

-- The body of an entry, all of it.
whole : Body → Read Bytes
whole (full b) = ok b
whole (cut b) = err body_broken
whole (ended b) = err body_broken

-- `readManifestHeader`: the names, and the store with the manifest's lines added.
unfoldable pub read_manifest_header : Body → ChecksumStore → Read (List Bytes × ChecksumStore)
unfolding whole manifest_files
read_manifest_header body c = do
  text ← whole body
  c' ← lift of_store (read_raw text c)
  files ← manifest_files (split text b'\n')
  ok (files, c')

module _ (x : Environment) where
  -- `verifyVersion`.
  unfoldable pub verify_version : Bytes → ChecksumStore → Read ChecksumStore
  verify_version raw c = do
    (sum, c') ← lift of_store (get_and_mark (codes "version") c)
    guard (eqb sum (hex_encode (x.sha256 raw))) version_checksum
    ok c'

  -- `signatureReadAndVerify`.
  unfoldable pub signature_read_and_verify : Body → Bytes → Read (Unit {0})
  unfolding whole
  signature_read_and_verify body message = elim x.verify_signature_callback [
    | none ↦ guard (not x.should_be_signed) no_verify_callback
    | some verify ↦ (do sig ← whole body; guard (verify message sig) signature_invalid)
  ]

  abbrev is_header : Bytes → Bool
  is_header name =
      eqb name (codes "header.tar")
      || eqb name (codes "header.tar.gz")
      || eqb name (codes "header.tar.xz")
      || eqb name (codes "header.tar.zst")

  -- The names as the `switch` spells them.
  abbrev is_augmented_header : Bytes → Bool
  is_augmented_header name =
      eqb name (codes "header-augment.tar")
      || eqb name (codes "header-augment.tar.gz")
      || eqb name (codes "header-augment.tar.xz")
      || eqb name (codes "header-augument.tar.zst")

  read_manifest_token : Bytes → Body → Reader → Read Reader
  unfolding read_manifest_header verify_version
  read_manifest_token version body ar = do
    (files, c) ← read_manifest_header body ar.manifest
    c' ← verify_version version c
    ok (record ar { files = files; manifest = c' })

  read_signature_token : Body → Reader → Read Reader
  unfolding signature_read_and_verify
  read_signature_token body ar = do
    signature_read_and_verify body (get_raw ar.manifest)
    ok (record ar { is_signed = true })

  read_augment_token : Body → Reader → Read Reader
  unfolding read_manifest_header
  read_augment_token body ar = do
    (files, c) ← read_manifest_header body ar.manifest
    ok (record ar { augment_files = files; manifest = c })

  read_header_token : Bytes → Body → Reader → Read Reader
  read_header_token name body ar = do
    (sum, c) ← lift of_store (get_and_mark name ar.manifest)
    let comp = new_compressor_from_file_name name
    read_header_archive x sum comp body (record ar { manifest = c; compressor = some comp })

  read_augmented_token : Bytes → Body → Reader → Read Reader
  read_augmented_token name body ar = do
    (sum, c) ← lift of_store (get_and_mark name ar.manifest)
    read_augmented_header x sum (new_compressor_from_file_name name) body
        (record ar { manifest = c })

  -- `handleHeaderReads`, on the body of the entry at hand.
  unfoldable pub handle_header_reads : Bytes → Bytes → Body → Reader → Read Reader
  unfolding read_manifest_token read_signature_token read_augment_token read_header_token
      read_augmented_token
  handle_header_reads name version body ar =
      if eqb name (codes "manifest")
      then read_manifest_token version body ar
      else if eqb name (codes "manifest.sig")
      then read_signature_token body ar
      else if eqb name (codes "manifest-augment")
      then read_augment_token body ar
      else if is_header name
      then read_header_token name body ar
      else if is_augmented_header name
      then read_augmented_token name body ar
      else err (unexpected_file name)

  -- The loop of `readHeaderV3`; `path` is `parsePath`.
  unfoldable pub read_v3_entries : Bytes → Tar → List Bytes → Reader → Read (Reader × Tar)
  read_v3_entries version eof path ar = err missing_fields
  read_v3_entries version broken path ar = err archive_broken
  read_v3_entries version (entry e t) path ar =
      let path' = path ++ e.name ∷ [] in
      elim (verify_parse_order path') [
        | none ↦ err (invalid_structure path')
        | some (token, full_match) ↦ handle_header_reads token version e.body ar >>= λ ar'.
            elim full_match [
              | false ↦ read_v3_entries version t path' ar'
              | true ↦
                  if x.should_be_signed && not ar'.is_signed then err not_signed else ok (ar', t)
            ]
      ]

  -- `readHeaderV3`.
  unfoldable pub read_header_v3 : Bytes → Tar → Reader → Read (Reader × Tar)
  unfolding read_v3_entries
  read_header_v3 version t ar = do
    (ar', rest) ← read_v3_entries version t [] (record ar { manifest = new_checksum_store })
    assigned ← assign_update_files ar'
    ok (assigned, rest)
