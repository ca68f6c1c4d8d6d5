-- ===== src/Reader/Header.antt =====
-- The header archive in areader/reader.go: `readNext`, `readStateScripts`, `readHeaderUpdate`,
-- `readHeader`, `readAugmentedHeader` and `populateArtifactInfo`.
pub mod Frame
use mender_artifact.Prelude.{
  ℕ, Bool, true, false, not, List, [], ◌∷◌, Option, none, some, Bytes, codes, eqb, has_prefix,
  length, ◌==◌, if◌then◌else◌,
}
use mender_artifact.Prelude.Result.{Result, ok, err, ◌>>=◌, ◌>>◌, guard, or_err}
use mender_artifact.Prelude.Decimal.{ℤ, pos, negsuc}
use mender_artifact.Prelude.Dict.{Dict, lookup, insert, nat_eq}
use mender_artifact.Prelude.FilePath.{dir}
use mender_artifact.Artifact.Checksum.{hex_encode}
use mender_artifact.Artifact.Compressor.{Compressor}
use mender_artifact.Artifact.Metadata.{
  HeaderInfo, HeaderInfoV3, HeaderInfoer, v2, v3, MetadataError, unmarshal_header_info,
  unmarshal_artifact_depends, get_compatible_devices, get_updates,
}
use mender_artifact.Tar.{Body, full, cut, ended, Entry, Tar, entry, eof, broken}
use mender_artifact.Handlers.{Installer}
use mender_artifact.Handlers.Headers.{read_header}
use mender_artifact.Reader.{
  Environment, Reader, Read, ReaderError, lift, archive_broken, body_broken, no_more_entries,
  wrong_name, no_compressor_reader, not_decoded, devices_incompatible, script_refused, no_installer,
  header_checksum, of_path, of_handler, of_metadata,
}
use mender_artifact.Reader.Installers.{set_installers_from}
use mender_artifact.Reader.Path.{get_update_no_from_header_path}

-- The bytes that a body delivers, with or without an error behind them.
abbrev pub bytes_of : Body → Bytes
bytes_of (full b) = b
bytes_of (cut b) = b
bytes_of (ended b) = b

-- `readNext`: the body of the next entry, whose name must begin with `elem`, and the rest. What was
-- read before an error with the cause `io.EOF` is taken for the body.
unfoldable pub read_next : Tar → Bytes → Read (Bytes × Tar)
read_next eof elem = err no_more_entries
read_next broken elem = err archive_broken
read_next (entry e t) elem =
    if not (has_prefix e.name elem)
    then err wrong_name
    else elim e.body [ full b ↦ ok (b, t) | cut b ↦ err body_broken | ended b ↦ ok (b, t) ]

-- `tar.Header{}`.
abbrev pub zero_header : Entry
zero_header = record { name = []; is_dir = false; body = full [] }

-- The zero value of the structure stands for an empty text, which is not decoded.
abbrev zero_header_info : HeaderInfo
zero_header_info = record { artifact_name = []; updates = []; compatible_devices = [] }

abbrev zero_header_info_v3 : HeaderInfoV3
zero_header_info_v3 = record { updates = []; artifact_provides = none; artifact_depends = none }

module _ (x : Environment) where
  script_ok : Entry → Bool
  script_ok e = elim x.scripts_read_callback [ none ↦ true | some cb ↦ cb e.name e.body ]

  -- `readStateScripts`: the first entry that is no script, and the rest. At the end of the archive
  -- the header stays the zero one.
  unfoldable pub read_state_scripts : Tar → Read (Entry × Tar)
  unfolding script_ok
  read_state_scripts eof = ok (zero_header, eof)
  read_state_scripts broken = err archive_broken
  read_state_scripts (entry e t) =
      let later = read_state_scripts t in
      if eqb (dir e.name) (codes "scripts")
      then (if script_ok e then later else err script_refused)
      else ok (e, t)

  -- The installer with this number.
  find_installer : Bytes → ℤ → Dict ℕ Installer → Read (ℕ × Installer)
  find_installer name (pos n) m = elim (lookup n m) [
    | none ↦ err (no_installer name)
    | some i ↦ ok (n, i)
  ]
  find_installer name (negsuc n) m = err (no_installer name)

  -- One entry of `readHeaderUpdate`; a directory is skipped.
  read_update_entry : Bool → ℕ → Entry → Dict ℕ Installer → Read (Dict ℕ Installer)
  unfolding find_installer
  read_update_entry augmented version e m = if e.is_dir then ok m else (do
    number ← lift of_path (get_update_no_from_header_path e.name)
    (n, i) ← find_installer e.name number m
    i' ← lift of_handler (read_header x.decoders e.body e.name version augmented i)
    ok (insert n i' m))

  -- `readHeaderUpdate`, from the entry at hand on.
  unfoldable pub read_header_update :
      Bool → ℕ → Entry → Tar → Dict ℕ Installer → Read (Dict ℕ Installer)
  unfolding read_update_entry
  read_header_update augmented version e eof m = read_update_entry augmented version e m
  read_header_update augmented version e broken m =
      read_update_entry augmented version e m >>= λ m'. err archive_broken
  read_header_update augmented version e (entry f t) m =
      read_update_entry augmented version e m >>= λ m'. read_header_update augmented version f t m'

  -- `header-info` of version 3, decoded with `ArtifactDepends.UnmarshalJSON` inside.
  decode_v3 : Bytes → Read HeaderInfoV3
  decode_v3 raw = if length raw == 0 then ok zero_header_info_v3 else (do
    hi ← or_err (x.decoders.header_info_v3 raw) not_decoded
    elim hi.artifact_depends [
      | none ↦ ok hi
      | some d ↦ lift of_metadata (unmarshal_artifact_depends d) >>= λ d'. ok hi
    ])

  decode_v2 : Bytes → Read HeaderInfo
  decode_v2 raw = if length raw == 0 then ok zero_header_info else (do
    hi ← or_err (x.decoders.header_info raw) not_decoded
    lift of_metadata (unmarshal_header_info hi))

  -- `populateArtifactInfo`: versions 2 and 3 reach it.
  unfoldable pub populate_artifact_info : ℕ → Tar → Read (HeaderInfoer × Tar)
  unfolding decode_v2 decode_v3
  populate_artifact_info version tr = do
    (raw, rest) ← read_next tr (codes "header-info")
    hi ←
        if version == 2
        then (decode_v2 raw >>= λ h. ok (v2 h))
        else (decode_v3 raw >>= λ h. ok (v3 h))
    ok (hi, rest)

  devices_ok : List Bytes → Bool
  devices_ok devices = elim x.compatible_devices_callback [ none ↦ true | some cb ↦ cb devices ]

  -- The check behind both headers: the whole body was drained, so its hash is the body's.
  unfoldable pub header_sum_ok : Bytes → Body → Bool
  header_sum_ok sum body = eqb sum (hex_encode (x.sha256 (bytes_of body)))

  -- `readHeader`, on the body of the header's entry and its checksum of the manifest.
  unfoldable pub read_header_archive : Bytes → Compressor → Body → Reader → Read Reader
  unfolding devices_ok header_sum_ok
  read_header_archive sum comp body ar = do
    tr ← or_err (x.open_tar comp body) no_compressor_reader
    (hi, t) ← populate_artifact_info ar.info.version tr
    guard (devices_ok (get_compatible_devices hi)) devices_incompatible
    (hdr, rest) ← read_state_scripts t
    m ← set_installers_from x ar.info.version 0 (get_updates hi) false ar.installers
    m' ← read_header_update false ar.info.version hdr rest m
    guard (header_sum_ok sum body) header_checksum
    ok (record ar { h_info = some hi; installers = m' })

  -- The next entry, which must be there.
  next_entry : Tar → Read (Entry × Tar)
  next_entry eof = err no_more_entries
  next_entry broken = err archive_broken
  next_entry (entry e t) = ok (e, t)

  -- `readAugmentedHeader`.
  unfoldable pub read_augmented_header : Bytes → Compressor → Body → Reader → Read Reader
  unfolding decode_v3 next_entry header_sum_ok
  read_augmented_header sum comp body ar = do
    tr ← or_err (x.open_tar comp body) no_compressor_reader
    (raw, t) ← read_next tr (codes "header-info")
    hi ← decode_v3 raw
    (hdr, rest) ← next_entry t
    m ← set_installers_from x ar.info.version 0 hi.updates true ar.installers
    m' ← read_header_update true ar.info.version hdr rest m
    guard (header_sum_ok sum body) header_checksum
    ok (record ar { augmented_h_info = some (v3 hi); installers = m' })
