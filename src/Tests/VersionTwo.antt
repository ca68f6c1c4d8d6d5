-- ===== src/Tests/VersionTwo.antt =====
-- areader/reader.go on a signed artifact of version 2.
use mender_artifact.Prelude.{true, [], ◌∷◌, ◌++◌, some, ◌≡◌, refl, Bytes, codes}
use mender_artifact.Prelude.Result.{ok}
use mender_artifact.Artifact.ChecksumStore.{ChecksumStore}
use mender_artifact.Artifact.Compressor.{uncompressed}
use mender_artifact.Artifact.Metadata.{v2}
use mender_artifact.Tar.{full, Tar, entry, eof}
use mender_artifact.Reader.{Environment, Reader, new_reader}
use mender_artifact.Reader.Artifact.{read_header_v2, next_in_v2}
use mender_artifact.Reader.Artifact.Signed.{BeginsSigned, read_header_v2-BeginsSigned}
use mender_artifact.Tests.Samples.{environment, file, line}
use mender_artifact.Reader.Headers.{
  read_v3_entries, handle_header_reads, manifest_files, read_manifest_header,
  signature_read_and_verify, verify_version, read_header_v3,
}
use mender_artifact.Reader.Grammar.{verify_parse_order, artifact_v3_parse_grammar}
use mender_artifact.Prelude.{
  eqb, trim_space, split, has_prefix, has_suffix, split_from, trim_left, trim_suffix,
}
use mender_artifact.Artifact.ChecksumStore.{
  read_raw, read_checksums, add, get_and_mark, get, manifest_line, read_lines, split_two_spaces,
  files_not_marked,
}
use mender_artifact.Prelude.Dict.{lookup, insert}
use mender_artifact.Artifact.Checksum.{hex_encode}
use mender_artifact.Reader.Header.{
  read_header_archive, populate_artifact_info, read_next, header_sum_ok, read_header_update,
  read_state_scripts,
}
use mender_artifact.Artifact.Compressor.{
  first_match, get_file_extension, new_compressor_from_file_name,
}
use mender_artifact.Artifact.Metadata.{
  get_compatible_devices, get_updates, unmarshal_artifact_depends,
}
use mender_artifact.Handlers.Headers.{read_header, read_rootfs_header}
use mender_artifact.Handlers.{get_update_type}
use mender_artifact.Prelude.Decimal.{atoi, format, format_padded}
use mender_artifact.Prelude.FilePath.{base, clean, dir, join_parts, join}
use mender_artifact.Reader.Installers.{
  make_installer_for_unknown_type, set_installers_from, assign_update_files, assign_files,
  build_file_lists, file_list_of,
}
use mender_artifact.Reader.Path.{
  get_update_no_from_header_path, get_update_no_from_data_path, get_update_no_from_manifest_path,
}
use mender_artifact.Reader.Data.{
  read_artifact, read_artifact_data, read_data, read_data_file, read_and_install,
  read_and_install_data_files, install_data_file, get_data_file, matches_file_name,
}
use mender_artifact.Reader.Artifact.{read_artifact_headers, decode_version, file_info_name}
use mender_artifact.Handlers.Files.{
  set_update_files, set_update_augment_files, get_update_files, get_update_augment_files,
  get_update_all_files,
}
use mender_artifact.Artifact.Update.{update_path}

abbrev text : Bytes
text = line (codes "01  version") ++ line (codes "02  header.tar")

abbrev entries : Tar
entries =
    entry (file (codes "manifest") text) (
      entry (file (codes "manifest.sig") text) (entry (file (codes "header.tar") (codes "hh")) eof))

abbrev store : ChecksumStore
store = record {
  raw = text;
  sums = (codes "version", codes "01") ∷ (codes "header.tar", codes "02") ∷ [];
  marked = (codes "version", true) ∷ (codes "header.tar", true) ∷ [];
}

abbrev start : Reader
start = record new_reader { info = record { format = codes "mender"; version = 2 } }

-- What the reader is behind the header, whose header-info is empty and whose one other entry is a
-- directory.
abbrev behind_header : Reader
behind_header = record start {
  is_signed = true;
  h_info = some (v2 (record { artifact_name = []; updates = []; compatible_devices = [] }));
  manifest = store;
  compressor = some uncompressed;
}

abbrev empty_header : Environment
empty_header = record (environment true) {
  open_tar = λ comp b. some (
      entry (file (codes "header-info") [])
        (entry (record { name = codes "headers/"; is_dir = true; body = full [] }) eof));
}

entries_read : read_header_v2 empty_header (codes "v") entries start ≡ ok (behind_header, eof)
unfolding read_header_v2 next_in_v2 read_v3_entries handle_header_reads manifest_files
    read_manifest_header signature_read_and_verify verify_version read_header_v3 verify_parse_order
    artifact_v3_parse_grammar eqb trim_space split has_prefix has_suffix split_from trim_left
    trim_suffix read_raw read_checksums add get_and_mark get manifest_line read_lines
    split_two_spaces files_not_marked lookup insert hex_encode read_header_archive
    populate_artifact_info read_next header_sum_ok read_header_update read_state_scripts first_match
    get_file_extension new_compressor_from_file_name get_compatible_devices get_updates
    unmarshal_artifact_depends read_header read_rootfs_header get_update_type atoi format
    format_padded base clean dir join_parts join make_installer_for_unknown_type set_installers_from
    assign_update_files assign_files build_file_lists file_list_of get_update_no_from_header_path
    get_update_no_from_data_path get_update_no_from_manifest_path read_artifact read_artifact_data
    read_data read_data_file read_and_install read_and_install_data_files install_data_file
    get_data_file matches_file_name read_artifact_headers decode_version file_info_name
    set_update_files set_update_augment_files get_update_files get_update_augment_files
    get_update_all_files update_path
entries_read = refl

read_header_v2-BeginsSigned_example : BeginsSigned empty_header (codes "v") entries
read_header_v2-BeginsSigned_example =
    read_header_v2-BeginsSigned empty_header (codes "v") entries eof start behind_header refl
      entries_read
