-- ===== src/Tests/Samples.antt =====
-- Concrete artifacts of version 3, signed and not, and an environment that reads them. The checksum
-- of a text is its length.
use mender_artifact.Prelude.{
  ℕ, Bool, false, List, [], ◌∷◌, ◌++◌, Option, none, some, Bytes, codes, eqb, length, if◌then◌else◌,
}
use mender_artifact.Artifact.ChecksumStore.{ChecksumStore}
use mender_artifact.Artifact.Compressor.{Compressor, uncompressed}
use mender_artifact.Artifact.Metadata.{Info, HeaderInfoV3, v3}
use mender_artifact.Tar.{Body, full, Entry, Tar, entry, eof}
use mender_artifact.Handlers.{Installer, rootfs, named, rootfs_image}
use mender_artifact.Handlers.Headers.{Decoders, no_value}
use mender_artifact.Reader.{Environment, Reader, new_reader}
use mender_artifact.Reader.Header.{bytes_of}
use mender_artifact.Reader.Data.{UpdateStorer, dev_null_update_storer}

abbrev pub file : Bytes → Bytes → Entry
file name text = record { name = name; is_dir = false; body = full text }

abbrev pub line : Bytes → Bytes
line s = s ++ b'\n' ∷ []

abbrev pub manifest_text : Bytes
manifest_text =
    line (codes "01  version") ++ (line (codes "02  header.tar") ++ line (codes "04  data/0000/f"))

abbrev pub header_archive : Tar
header_archive =
    entry (file (codes "header-info") (codes "{}"))
      (entry (file (codes "headers/0000/type-info") (codes "{}")) eof)

abbrev pub data_archive : Tar
data_archive = entry (file (codes "f") (codes "data")) eof

abbrev open_archive : Compressor → Body → Option Tar
open_archive comp body =
    if eqb (bytes_of body) (codes "hh")
    then some header_archive
    else if eqb (bytes_of body) (codes "ddd")
    then some data_archive
    else none

abbrev pub header_info : HeaderInfoV3
header_info = record {
  updates = record { type = some rootfs_image } ∷ [];
  artifact_provides = none;
  artifact_depends = none;
}

abbrev decoders : Decoders
decoders = record {
  info = λ b. some (record { format = codes "mender"; version = 3 });
  header_info = λ b. none;
  header_info_v3 = λ b. some header_info;
  type_info = λ old b. some none;
  meta_data = λ b. no_value;
  files = λ b. none;
}

abbrev pub environment : Bool → Environment
environment signed = record {
  sha256 = λ b. length b ∷ [];
  open_tar = open_archive;
  opens_at_end = λ comp body. eqb (bytes_of body) [];
  decoders = decoders;
  compatible_devices_callback = none;
  scripts_read_callback = none;
  verify_signature_callback = some (λ message sig. eqb message sig);
  handlers = [];
  forbid_unknown_handlers = false;
  should_be_signed = signed;
}

abbrev pub storers : Installer → ℕ → UpdateStorer
storers i n = dev_null_update_storer

abbrev pub data_entries : Tar
data_entries = entry (file (codes "data/0000.tar") (codes "ddd")) eof

abbrev pub unsigned_entries : Tar
unsigned_entries =
    entry (file (codes "manifest") manifest_text)
      (entry (file (codes "header.tar") (codes "hh")) data_entries)

abbrev pub signed_entries : Tar
signed_entries = entry (file (codes "manifest") manifest_text) (
    entry (file (codes "manifest.sig") manifest_text)
      (entry (file (codes "header.tar") (codes "hh")) data_entries))

abbrev pub artifact : Tar
artifact = entry (file (codes "version") (codes "v")) unsigned_entries

-- The manifest with the marks of the version, the header and the data.
abbrev pub store : Bool → Bool → Bool → ChecksumStore
store a b c = record {
  raw = manifest_text;
  sums =
      (codes "version", codes "01")
      ∷ (codes "header.tar", codes "02")
      ∷ (codes "data/0000/f", codes "04")
      ∷ [];
  marked = (codes "version", a) ∷ (codes "header.tar", b) ∷ (codes "data/0000/f", c) ∷ [];
}

abbrev pub files : List Bytes
files = codes "version" ∷ codes "header.tar" ∷ codes "data/0000/f" ∷ []

-- A rootfs payload with or without its file.
abbrev pub payload : Bool → Installer
payload assigned = rootfs (record {
  version = 3;
  update = if assigned then some (named (codes "f")) else none;
  type_info_v3 = none;
  meta_data = none;
})

-- The reader behind the header; `assigned` tells whether the files were assigned.
abbrev pub reader : Bool → Bool → ChecksumStore → Info → Reader
reader signed assigned c info = record {
  is_signed = signed;
  h_info = some (v3 header_info);
  augmented_h_info = none;
  info = info;
  files = files;
  augment_files = [];
  installers = (0, payload assigned) ∷ [];
  manifest = c;
  compressor = some uncompressed;
}

abbrev pub version_3 : Info
version_3 = record { format = codes "mender"; version = 3 }

abbrev pub version_reader : Reader
version_reader = record new_reader { info = version_3 }
