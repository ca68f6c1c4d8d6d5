-- ===== src/Tests/Writing.antt =====
-- The theorems on the writer, on a payload of one file.
use mender_artifact.Prelude.{
  true, false, List, [], ◌∷◌, ◌++◌, none, some, ◌≡◌, refl, Bytes, codes, eqb, if◌then◌else◌, length,
}
use mender_artifact.Prelude.Decimal.{format, format_padded}
use mender_artifact.Prelude.{split, split_from, has_prefix}
use mender_artifact.Prelude.Dict.{lookup, insert}
use mender_artifact.Prelude.FilePath.{base, clean, dir, join_parts, join}
use mender_artifact.Prelude.Result.{ok}
use mender_artifact.Artifact.Checksum.{hex_encode}
use mender_artifact.Artifact.ChecksumStore.{ChecksumStore, new_checksum_store, add, manifest_line}
use mender_artifact.Artifact.Compressor.{gzip, get_file_extension}
use mender_artifact.Artifact.Metadata.{validate_info, validate_header_info_v3}
use mender_artifact.Artifact.Json.{end}
use mender_artifact.Artifact.Update.{update_path, update_header_path, update_data_path}
use mender_artifact.Tar.{Entry}
use mender_artifact.Handlers.{get_update_type}
use mender_artifact.Handlers.Compose.{Encoders, compose_header}
use mender_artifact.Handlers.Files.{get_update_files}
use mender_artifact.Reader.Data.{matches_file_name}
use mender_artifact.Reader.Grammar.{artifact_v3_parse_grammar}
use mender_artifact.Reader.Grammar.Sound.{Member}
use mender_artifact.Reader.Headers.Run.{names}
use mender_artifact.Writer.{WriterEnvironment, Updates, WriteArtifactArgs}
use mender_artifact.Writer.Sums.{calc_data_hash}
use mender_artifact.Writer.Sums.Sealed.{PayloadsAreSealed, Grows, calc_data_hash-AreSealed}
use mender_artifact.Writer.Header.{write_header, write_temp_header}
use mender_artifact.Writer.Payload.{write_data, write_one_data_tar, write_one_data_file}
use mender_artifact.Writer.Payload.Names.{data_names}
use mender_artifact.Writer.Archive.{write_signature, write_manifest_version, write_artifact_v3}
use mender_artifact.Writer.Archive.Order.{header_path, names-write_artifact_v3}
use mender_artifact.Writer.Archive.Sealed.{Sealed}
use mender_artifact.Tests.Samples.{file, line, payload}

abbrev encoders : Encoders
encoders = record {
  info_json = λ i. codes "v";
  header_info_json = λ h. codes "{}";
  type_info_json = λ t. codes "{}";
  type_info_v3_json = λ t. codes "{}";
  files_json = λ fs. codes "{}";
  meta_data_json = λ m. codes "{}";
}

-- The checksum of a text is its length, a packed archive is two letters, and a signature is the message.
abbrev environment : WriterEnvironment
environment = record {
  sha256 = λ b. length b ∷ [];
  read_file = λ name. if eqb name (codes "f") then some (codes "data") else none;
  encoders = encoders;
  pack = λ comp t. codes "pp";
  signer = some (λ m. some m);
}

abbrev updates : Updates
updates = record { updates = payload true ∷ []; augments = [] }

abbrev args : WriteArtifactArgs
args = record {
  format = codes "mender";
  version = 3;
  devices = codes "board" ∷ [];
  name = codes "release";
  updates = updates;
  scripts = none;
  depends = none;
  provides = some (record { artifact_name = codes "release"; artifact_group = [] });
  type_info_v3 = none;
  meta_data = end;
  augment_type_info_v3 = none;
  augment_meta_data = end;
}

abbrev manifest : Bytes
manifest =
    line (codes "04  data/0000/f")
    ++ (line (codes "02  header.tar.gz") ++ line (codes "01  version"))

abbrev written : List Entry
written =
    file (codes "version") (codes "v")
    ∷ file (codes "manifest") manifest
    ∷ file (codes "manifest.sig") manifest
    ∷ file (codes "header.tar.gz") (codes "pp")
    ∷ file (codes "data/0000.tar.gz") (codes "pp")
    ∷ []

writes : write_artifact_v3 environment gzip args ≡ ok written
unfolding write_artifact_v3 calc_data_hash add lookup insert manifest_line hex_encode update_path
    join clean base eqb write_temp_header write_header validate_header_info_v3 get_update_type
    compose_header update_header_path write_manifest_version write_signature write_data
    write_one_data_tar write_one_data_file matches_file_name get_update_files update_data_path
    get_file_extension validate_info format format_padded split split_from join_parts has_prefix dir
writes = refl

names-write_artifact_v3_example :
    Member (header_path true false (codes ".gz")) artifact_v3_parse_grammar
    × (names written
        ≡ codes "version"
          ∷ (header_path true false (codes ".gz") ++ data_names gzip 0 (payload true ∷ [])))
unfolding get_file_extension
names-write_artifact_v3_example = names-write_artifact_v3 environment gzip args refl writes

abbrev store : ChecksumStore
store = record {
  raw = line (codes "04  data/0000/f");
  sums = (codes "data/0000/f", codes "04") ∷ [];
  marked = (codes "data/0000/f", false) ∷ [];
}

hashed : calc_data_hash environment new_checksum_store updates false ≡ ok store
unfolding calc_data_hash add lookup insert manifest_line hex_encode update_path join clean base eqb
    get_update_files format format_padded split split_from join_parts has_prefix dir
hashed = refl

calc_data_hash-AreSealed_example :
    PayloadsAreSealed environment store false updates × Grows new_checksum_store store
calc_data_hash-AreSealed_example =
    calc_data_hash-AreSealed environment new_checksum_store updates false hashed
