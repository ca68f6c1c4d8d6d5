-- ===== src/Writer.antt =====
-- The package `awriter`, awriter/writer.go: what a `Writer` puts into an archive. A temporary file is
-- the bytes that are written to it; writes to the archive and to temporary files do not fail.
pub mod Sums
pub mod Header
pub mod Payload
pub mod Archive
pub mod Sign
use mender_artifact.Prelude.{
  ◌≡◌, ap, ℕ, suc, ◌+◌, Bool, true, false, not, ◌&&◌, ◌||◌, List, [], ◌∷◌, ◌++◌, map, Option, none,
  some, Bytes, codes, length, ltb, ◌-◌, ◌==◌, if◌then◌else◌,
}
use mender_artifact.Prelude.Result.{Result, ok, err, ok_injective, ◌>>=◌, ◌>>◌, guard, or_err}
use mender_artifact.Prelude.FilePath.{base, join}
use mender_artifact.Artifact.Checksum.{hex_encode}
use mender_artifact.Artifact.ChecksumStore.{
  ChecksumStore, StoreError, new_checksum_store, add, get_raw,
}
use mender_artifact.Artifact.Compressor.{Compressor, get_file_extension}
use mender_artifact.Artifact.Json.{Fields}
use mender_artifact.Artifact.Scripter.{Scripts}
use mender_artifact.Artifact.Metadata.{
  Info, UpdateType, HeaderInfo, HeaderInfoV3, HeaderInfoer, v2, v3, ArtifactDepends,
  ArtifactProvides, TypeInfoV3, MetadataError, validate_info, validate_header_info,
  validate_header_info_v3,
}
use mender_artifact.Artifact.Update.{update_path, update_data_path}
use mender_artifact.Tar.{Body, full, Entry, Tar, entry, eof}
use mender_artifact.Handlers.{DataFile, Installer, get_update_type}
use mender_artifact.Handlers.Compose.{
  Encoders, Compose, ComposeError, ComposeHeaderArgs, stream_entry, compose_header,
}
use mender_artifact.Handlers.Files.{get_update_files, get_update_augment_files}
use mender_artifact.Reader.Data.{matches_file_name}

pub data WriterError : Type 0 where
  panic : WriterError
  version_1_outdated unsupported_version : WriterError
  cannot_open : Bytes → WriterError
  cannot_sign no_payloads : WriterError
  forbidden_characters : Bytes → WriterError
  of_store : StoreError → WriterError
  of_metadata : MetadataError → WriterError
  of_compose : ComposeError → WriterError

abbrev pub Write {ℓ} : Type ℓ → Type ℓ
Write A = Result WriterError A

-- An error of another component, wrapped.
abbrev pub lift_error {ℓ} : {A : Type ℓ} {E : Type 0} → (E → WriterError) → Result E A → Write A
lift_error wrap (ok a) = ok a
lift_error wrap (err e) = err (wrap e)

pub lift_error-eq-ok {ℓ} :
    {A : Type ℓ} {E : Type 0} (wrap : E → WriterError) (m : Result E A) {a : A}
    → lift_error wrap m ≡ ok a
    → m ≡ ok a
lift_error-eq-ok wrap (ok b) h = ap ok (ok_injective h)
lift_error-eq-ok wrap (err e) h = cc

-- What the writer is given: SHA-256, the files on disk by their paths, the encoders, the bytes of an
-- archive behind a compressor, and the signer, which may be nil.
pub record WriterEnvironment : Type 0 where
  pub sha256 : Bytes → Bytes
  pub read_file : Bytes → Option Bytes
  pub encoders : Encoders
  pub pack : Compressor → Tar → Bytes
  pub signer : Option (Bytes → Option Bytes)

-- `Updates`: an augmenting composer may be nil.
pub record Updates : Type 0 where
  pub updates : List Installer
  pub augments : List (Option Installer)

-- `WriteArtifactArgs`.
pub record WriteArtifactArgs : Type 0 where
  pub format : Bytes
  pub version : ℕ
  pub devices : List Bytes
  pub name : Bytes
  pub updates : Updates
  pub scripts : Option Scripts
  pub depends : Option ArtifactDepends
  pub provides : Option ArtifactProvides
  pub type_info_v3 : Option TypeInfoV3
  pub meta_data : Fields
  pub augment_type_info_v3 : Option TypeInfoV3
  pub augment_meta_data : Fields

-- The archive with these entries.
abbrev pub archive : List Entry → Tar
archive [] = eof
archive (e ∷ es) = entry e (archive es)

module _ (x : WriterEnvironment) where
  abbrev pub sum_of : Bytes → Bytes
  sum_of text = hex_encode (x.sha256 text)
