-- ===== src/Tests/ReaderExamples.antt =====
-- areader/reader.go on whole archives.
use mender_artifact.Prelude.{ℕ, true, false, [], ◌≡◌, refl, codes}
use mender_artifact.Prelude.Result.{ok, err}
use mender_artifact.Reader.{new_reader, ReaderError}
use mender_artifact.Reader.Headers.{
  read_v3_entries, handle_header_reads, manifest_files, read_manifest_header,
  signature_read_and_verify, verify_version, read_header_v3,
}
use mender_artifact.Reader.Grammar.{verify_parse_order, artifact_v3_parse_grammar}
use mender_artifact.Prelude.{
  eqb, trim_space, split, has_prefix, has_suffix, split_from, trim_left, trim_suffix,
}
use mender_artifact.Artifact.ChecksumStore.{
  read_raw, read_checksums, add, get_and_mark, get, manifest_line, read_lines, split_two_spaces,
  files_not_marked,
}
use mender_artifact.Prelude.Dict.{lookup, insert}
use mender_artifact.Artifact.Checksum.{hex_encode}
use mender_artifact.Reader.Header.{
  read_header_archive, populate_artifact_info, read_next, header_sum_ok, read_header_update,
  read_state_scripts,
}
use mender_artifact.Artifact.Compressor.{
  first_match, get_file_extension, new_compressor_from_file_name,
}
use mender_artifact.Artifact.Metadata.{
  get_compatible_devices, get_updates, unmarshal_artifact_depends,
}
use mender_artifact.Handlers.Headers.{read_header, read_rootfs_header}
use mender_artifact.Handlers.{Installer, get_update_type}
use mender_artifact.Prelude.Decimal.{atoi, format, format_padded}
use mender_artifact.Prelude.FilePath.{base, clean, dir, join_parts, join}
use mender_artifact.Reader.Installers.{
  make_installer_for_unknown_type, set_installers_from, assign_update_files, assign_files,
  build_file_lists, file_list_of,
}
use mender_artifact.Reader.Path.{
  get_update_no_from_header_path, get_update_no_from_data_path, get_update_no_from_manifest_path,
}
use mender_artifact.Reader.Data.{
  UpdateStorer, dev_null_update_storer, at_end, read_artifact, read_artifact_data, read_data,
  read_data_file, read_and_install, read_and_install_data_files, install_data_file, get_data_file,
  matches_file_name,
}
use mender_artifact.Reader.Artifact.{read_artifact_headers, decode_version, file_info_name}
use mender_artifact.Handlers.Files.{
  set_update_files, set_update_augment_files, get_update_files, get_update_augment_files,
  get_update_all_files,
}
use mender_artifact.Artifact.Update.{update_path}
use mender_artifact.Tests.Samples.{
  environment, storers, artifact, unsigned_entries, signed_entries, data_entries, reader, store,
  version_3, version_reader,
}

pub unsigned_read :
    read_v3_entries (environment false) (codes "v") unsigned_entries [] version_reader
    ≡ ok (reader false false (store true true false) version_3, data_entries)
unfolding read_v3_entries verify_parse_order eqb handle_header_reads read_raw read_checksums
    trim_space add lookup insert split get_and_mark get hex_encode read_header_archive
    populate_artifact_info read_next has_prefix manifest_line read_lines split_two_spaces
    first_match get_file_extension new_compressor_from_file_name get_compatible_devices get_updates
    unmarshal_artifact_depends read_header read_rootfs_header get_update_type atoi base clean dir
    join_parts has_suffix split_from trim_left artifact_v3_parse_grammar header_sum_ok
    read_header_update read_state_scripts manifest_files read_manifest_header
    signature_read_and_verify verify_version make_installer_for_unknown_type set_installers_from
    get_update_no_from_header_path
unsigned_read = refl

pub signed_read :
    read_v3_entries (environment true) (codes "v") signed_entries [] version_reader
    ≡ ok (reader true false (store true true false) version_3, data_entries)
unfolding read_v3_entries verify_parse_order eqb handle_header_reads read_raw read_checksums
    trim_space add lookup insert split get_and_mark get hex_encode read_header_archive
    populate_artifact_info read_next has_prefix manifest_line read_lines split_two_spaces
    first_match get_file_extension new_compressor_from_file_name get_compatible_devices get_updates
    unmarshal_artifact_depends read_header read_rootfs_header get_update_type atoi base clean dir
    join_parts has_suffix split_from trim_left artifact_v3_parse_grammar header_sum_ok
    read_header_update read_state_scripts manifest_files read_manifest_header
    signature_read_and_verify verify_version make_installer_for_unknown_type set_installers_from
    get_update_no_from_header_path
signed_read = refl

-- An archive that should be signed and is not.
unsigned_refused :
    read_v3_entries (environment true) (codes "v") unsigned_entries [] version_reader
    ≡ err ReaderError.not_signed
unfolding read_v3_entries verify_parse_order eqb handle_header_reads read_raw read_checksums
    trim_space add lookup insert split get_and_mark get hex_encode read_header_archive
    populate_artifact_info read_next has_prefix manifest_line read_lines split_two_spaces
    first_match get_file_extension new_compressor_from_file_name get_compatible_devices get_updates
    unmarshal_artifact_depends read_header read_rootfs_header get_update_type atoi base clean dir
    join_parts has_suffix split_from trim_left artifact_v3_parse_grammar header_sum_ok
    read_header_update read_state_scripts manifest_files read_manifest_header
    signature_read_and_verify verify_version make_installer_for_unknown_type set_installers_from
    get_update_no_from_header_path
unsigned_refused = refl

pub artifact_read :
    read_artifact (environment false) storers artifact new_reader
    ≡ ok (reader false true (store true true true) version_3)
unfolding read_v3_entries verify_parse_order eqb handle_header_reads read_raw read_checksums
    trim_space add lookup insert split get_and_mark get hex_encode read_header_archive
    populate_artifact_info read_next has_prefix manifest_line read_lines split_two_spaces
    first_match get_file_extension new_compressor_from_file_name get_compatible_devices get_updates
    unmarshal_artifact_depends read_header read_rootfs_header get_update_type atoi base clean dir
    join_parts has_suffix split_from trim_left artifact_v3_parse_grammar header_sum_ok
    read_header_update read_state_scripts manifest_files read_manifest_header
    signature_read_and_verify verify_version make_installer_for_unknown_type set_installers_from
    get_update_no_from_header_path read_artifact read_artifact_data read_data read_data_file
    read_and_install read_and_install_data_files install_data_file get_data_file matches_file_name
    read_artifact_headers decode_version file_info_name read_header_v3 assign_update_files
    assign_files build_file_lists file_list_of set_update_files set_update_augment_files
    get_update_files get_update_augment_files get_update_all_files get_update_no_from_data_path
    get_update_no_from_manifest_path trim_suffix join format format_padded update_path
    files_not_marked
artifact_read = refl

-- An error with the cause `io.EOF` of a storer that has read nothing: the artifact passes with every file
-- marked, though no checksum of the data was compared.
abbrev ending_storers : Installer → ℕ → UpdateStorer
ending_storers i n = record dev_null_update_storer { store = λ name body. (0, at_end) }

unchecked_read :
    read_artifact (environment false) ending_storers artifact new_reader
    ≡ ok (reader false true (store true true true) version_3)
unfolding read_v3_entries verify_parse_order eqb handle_header_reads read_raw read_checksums
    trim_space add lookup insert split get_and_mark get hex_encode read_header_archive
    populate_artifact_info read_next has_prefix manifest_line read_lines split_two_spaces
    first_match get_file_extension new_compressor_from_file_name get_compatible_devices get_updates
    unmarshal_artifact_depends read_header read_rootfs_header get_update_type atoi base clean dir
    join_parts has_suffix split_from trim_left artifact_v3_parse_grammar header_sum_ok
    read_header_update read_state_scripts manifest_files read_manifest_header
    signature_read_and_verify verify_version make_installer_for_unknown_type set_installers_from
    get_update_no_from_header_path read_artifact read_artifact_data read_data read_data_file
    read_and_install read_and_install_data_files install_data_file get_data_file matches_file_name
    read_artifact_headers decode_version file_info_name read_header_v3 assign_update_files
    assign_files build_file_lists file_list_of set_update_files set_update_augment_files
    get_update_files get_update_augment_files get_update_all_files get_update_no_from_data_path
    get_update_no_from_manifest_path trim_suffix join format format_padded update_path
    files_not_marked
unchecked_read = refl
