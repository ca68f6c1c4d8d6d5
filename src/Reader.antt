-- ===== src/Reader.antt =====
-- The package `areader`, areader/reader.go: the state of a `Reader`, what it is given from outside,
-- and in the modules below its methods.
pub mod Path
pub mod Grammar
pub mod Installers
pub mod Header
pub mod Headers
pub mod Artifact
pub mod Data
pub mod Merged
pub mod Integrity
use mender_artifact.Prelude.{ℕ, Bool, List, [], Option, none, Bytes}
use mender_artifact.Prelude.Result.{Result, ok, err}
use mender_artifact.Prelude.Dict.{Dict}
use mender_artifact.Artifact.ChecksumStore.{ChecksumStore, StoreError, new_checksum_store}
use mender_artifact.Artifact.Compressor.{Compressor}
use mender_artifact.Artifact.Metadata.{Info, HeaderInfoer, zero_info, MetadataError}
use mender_artifact.Tar.{Body, Tar}
use mender_artifact.Handlers.{Installer, HandlerError}
use mender_artifact.Handlers.Headers.{Decoders}
use mender_artifact.Reader.Path.{PathError}

-- What the reader is given: SHA-256, the compressors' readers behind which an archive stands, and
-- whether the error of one that cannot be made has the cause `io.EOF`, as gzip's on an empty body; the
-- JSON decoders, the callbacks (`none` is nil), the registered handlers, and the two flags that the
-- caller sets. A callback that returns no error is `true`.
pub record Environment : Type 0 where
  pub sha256 : Bytes → Bytes
  pub open_tar : Compressor → Body → Option Tar
  pub opens_at_end : Compressor → Body → Bool
  pub decoders : Decoders
  pub compatible_devices_callback : Option (List Bytes → Bool)
  pub scripts_read_callback : Option (Bytes → Body → Bool)
  pub verify_signature_callback : Option (Bytes → Bytes → Bool)
  pub handlers : Dict Bytes Installer
  pub forbid_unknown_handlers : Bool
  pub should_be_signed : Bool

pub data ReaderError : Type 0 where
  panic : ReaderError
  archive_broken body_broken no_more_entries wrong_name : ReaderError
  no_compressor_reader not_decoded devices_incompatible script_refused : ReaderError
  empty_payload_type unknown_handler augmented_below_v3 augmented_empty_payload : ReaderError
  no_installer : Bytes → ReaderError
  file_of_no_payload : Bytes → ReaderError
  garbled_entry : Bytes → ReaderError
  header_checksum version_checksum data_checksum : ReaderError
  no_verify_callback signature_invalid not_signed : ReaderError
  invalid_structure : List Bytes → ReaderError
  unexpected_file : Bytes → ReaderError
  missing_fields version_unsupported : ReaderError
  storer_failed forbidden_characters : ReaderError
  no_data_file : Bytes → ReaderError
  files_not_in_artifact : List Bytes → ReaderError
  of_store : StoreError → ReaderError
  of_path : PathError → ReaderError
  of_handler : HandlerError → ReaderError
  of_metadata : MetadataError → ReaderError

abbrev pub Read {ℓ} : Type ℓ → Type ℓ
Read A = Result ReaderError A

-- An error of another component, wrapped.
abbrev pub lift {ℓ} : {A : Type ℓ} {E : Type 0} → (E → ReaderError) → Result E A → Read A
lift wrap (ok a) = ok a
lift wrap (err e) = err (wrap e)

-- The fields of a `Reader` that reading changes. `manifest` is nil in Go only until the headers are
-- read, which set it first.
pub record Reader : Type 0 where
  pub is_signed : Bool
  pub h_info : Option HeaderInfoer
  pub augmented_h_info : Option HeaderInfoer
  pub info : Info
  pub files : List Bytes
  pub augment_files : List Bytes
  pub installers : Dict ℕ Installer
  pub manifest : ChecksumStore
  pub compressor : Option Compressor

-- `NewReader` and `NewReaderSigned`, which differ in `should_be_signed` alone.
abbrev pub new_reader : Reader
new_reader = record {
  is_signed = Bool.false;
  h_info = none;
  augmented_h_info = none;
  info = zero_info;
  files = [];
  augment_files = [];
  installers = [];
  manifest = new_checksum_store;
  compressor = none;
}
