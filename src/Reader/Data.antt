-- ===== src/Reader/Data.antt =====
-- The data of the artifact in areader/reader.go: `readNextDataFile`, `readAndInstall`,
-- `readAndInstallDataFiles`, `readData`, `ReadArtifactData` and `ReadArtifact`.
pub mod Steps
pub mod Integrity
use mender_artifact.Prelude.{
  ℕ, Bool, true, false, not, ◌&&◌, ◌||◌, List, [], ◌∷◌, ◌++◌, Option, none, some, Bytes, codes, eqb,
  has_prefix, split, length, take, leb, ◌==◌, if◌then◌else◌,
}
use mender_artifact.Prelude.Result.{Result, ok, err, ◌>>=◌, ◌>>◌, guard, or_err}
use mender_artifact.Prelude.Decimal.{ℤ, pos, negsuc}
use mender_artifact.Prelude.Dict.{Dict, lookup, nat_eq}
use mender_artifact.Prelude.FilePath.{base, dir, join}
use mender_artifact.Artifact.Checksum.{hex_encode}
use mender_artifact.Artifact.ChecksumStore.{ChecksumStore, get_and_mark, files_not_marked}
use mender_artifact.Artifact.Compressor.{
  Compressor, new_compressor_from_file_name, get_file_extension,
}
use mender_artifact.Artifact.Update.{update_path}
use mender_artifact.Tar.{Body, full, cut, ended, Entry, Tar, entry, eof, broken}
use mender_artifact.Handlers.{Installer, DataFile, get_update_type}
use mender_artifact.Handlers.Files.{get_update_all_files}
use mender_artifact.Reader.{
  Environment, Reader, Read, ReaderError, lift, archive_broken, no_compressor_reader, wrong_name,
  data_checksum, storer_failed, forbidden_characters, no_data_file, files_not_in_artifact, of_store,
  of_path,
}
use mender_artifact.Reader.Artifact.{file_info_name, read_artifact_headers}
use mender_artifact.Reader.Header.{bytes_of}
use mender_artifact.Reader.Path.{get_update_no_from_data_path}

-- What a call of a storer returns: no error, an error, or one whose cause is `io.EOF`.
pub data Outcome : Type 0 where
  done failed at_end : Outcome

-- `UpdateStorer`: the client's. `store` says how many of the file's bytes it reads, and what it
-- returns.
pub record UpdateStorer : Type 0 where
  pub initialize : Bool
  pub prepare : Outcome
  pub store : Bytes → Body → ℕ × Outcome
  pub finish : Outcome

-- `devNullUpdateStorer`: it reads all, and returns the error of the reader.
abbrev pub dev_null_update_storer : UpdateStorer
dev_null_update_storer = record {
  initialize = true;
  prepare = done;
  store = λ name body.
      (length (bytes_of body), elim body [ full b ↦ done | cut b ↦ failed | ended b ↦ at_end ]);
  finish = done;
}

-- The class `[\w\-.,]`, on bytes.
allowed : ℕ → Bool
allowed c =
    leb b'a' c && leb c b'z'
    || leb b'A' c && leb c b'Z'
    || leb b'0' c && leb c b'9'
    || c == b'_'
    || c == b'-'
    || c == b'.'
    || c == b','

all_allowed : Bytes → Bool
all_allowed [] = true
all_allowed (c ∷ s) = allowed c && all_allowed s

-- `^[\w\-.,]+$`.
unfoldable pub matches_file_name : Bytes → Bool
unfolding allowed all_allowed
matches_file_name [] = false
matches_file_name (c ∷ s) = all_allowed (c ∷ s)

-- `getDataFile`, on the list of `GetUpdateAllFiles`.
unfoldable pub get_data_file : List DataFile → Bytes → Option DataFile
get_data_file [] name = none
get_data_file (f ∷ fs) name = if eqb name f.name then some f else get_data_file fs name

has_data_file : Option DataFile → Bool
has_data_file none = false
has_data_file (some f) = true

-- A step of the loop over the data: the manifest's store, whose marks it may have set, and whether the
-- loop goes on. It does not go on behind an error whose cause is `io.EOF`: `readData` ends with success
-- there, as at the end of the archive.
abbrev pub Step : Type 0
Step = Read (Bool × ChecksumStore)

-- An outcome, with the step behind it where there is no error.
abbrev pub on_outcome : Outcome → ChecksumStore → Step → Step
on_outcome done c next = next
on_outcome failed c next = err storer_failed
on_outcome at_end c next = ok (false, c)

-- The step behind this one, if there is no error.
abbrev pub go_on : Bool × ChecksumStore → (ChecksumStore → Step) → Step
go_on (true, c) next = next c
go_on (false, c) next = ok (false, c)

module _ (x : Environment) where
  -- One round of `readAndInstallDataFiles`. What the storer has read was hashed on the way. The
  -- bytes that `Checksum` hashes are those: `Verify` compares after the storer returns, if that returns
  -- no error. The file is marked before.
  unfoldable pub install_data_file : UpdateStorer → List DataFile → ℕ → Entry → ChecksumStore → Step
  unfolding has_data_file
  install_data_file storer files number e c = do
    guard (has_data_file (get_data_file files e.name)) (no_data_file e.name)
    guard (matches_file_name (base e.name)) forbidden_characters
    (sum, c') ← lift of_store (get_and_mark (join (update_path number) (file_info_name e)) c)
    let (n, stored) = storer.store (file_info_name e) e.body
    on_outcome stored c' (do
      guard (eqb sum (hex_encode (x.sha256 (take n (bytes_of e.body))))) data_checksum
      ok (true, c'))

  -- `readAndInstallDataFiles`.
  unfoldable pub read_and_install_data_files :
      UpdateStorer → List DataFile → ℕ → Tar → ChecksumStore → Step
  unfolding install_data_file
  read_and_install_data_files storer files number eof c = ok (true, c)
  read_and_install_data_files storer files number broken c = err archive_broken
  read_and_install_data_files storer files number (entry e t) c =
      install_data_file storer files number e c >>= λ r.
      go_on r (λ c'. read_and_install_data_files storer files number t c')

  -- What `NewReader` of a compressor returns with an error.
  not_opened : Compressor → Body → ChecksumStore → Step
  not_opened comp body c =
      if x.opens_at_end comp body then ok (false, c) else err no_compressor_reader

  -- `readAndInstall`: `FinishStoreUpdate` is called whether the files were installed or not; its error
  -- is returned if there was none before.
  unfoldable pub read_and_install :
      UpdateStorer → Compressor → Body → Installer → ℕ → ChecksumStore → Step
  unfolding read_and_install_data_files not_opened
  read_and_install storer comp body i number c = elim (x.open_tar comp body) [
    | none ↦ not_opened comp body c
    | some t ↦ on_outcome storer.prepare c (
        read_and_install_data_files storer (get_update_all_files i) number t c >>= λ r.
        go_on r (λ c'. on_outcome storer.finish c' (ok (true, c'))))
  ]

  -- The installer of a data file. `errors.Wrapf` of a nil error is nil: with no installer the
  -- function returns nil and the entry is passed over.
  install_number :
      (Installer → ℕ → UpdateStorer)
      → Dict ℕ Installer
      → Compressor
      → Body
      → ℤ
      → ChecksumStore
      → Step
  unfolding read_and_install
  install_number storers m comp body (negsuc n) c = ok (true, c)
  install_number storers m comp body (pos n) c = elim (lookup n m) [
    | none ↦ ok (true, c)
    | some i ↦ read_and_install (storers i n) comp body i n c
  ]

  -- `readNextDataFile`, on the entry at hand.
  unfoldable pub read_data_file :
      (Installer → ℕ → UpdateStorer) → Dict ℕ Installer → Entry → ChecksumStore → Step
  unfolding install_number
  read_data_file storers m e c = do
    guard (eqb (dir e.name) (codes "data")) wrong_name
    let comp = new_compressor_from_file_name e.name
    number ← lift of_path (get_update_no_from_data_path (get_file_extension comp) e.name)
    install_number storers m comp e.body number c

  -- What `readData` is behind a step.
  behind_step : Bool × ChecksumStore → (ChecksumStore → Read ChecksumStore) → Read ChecksumStore
  behind_step (true, c) next = next c
  behind_step (false, c) next = ok c

  -- `readData`.
  unfoldable pub read_data :
      (Installer → ℕ → UpdateStorer) → Dict ℕ Installer → Tar → ChecksumStore → Read ChecksumStore
  unfolding read_data_file behind_step
  read_data storers m eof c = ok c
  read_data storers m broken c = err archive_broken
  read_data storers m (entry e t) c =
      read_data_file storers m e c >>= λ r. behind_step r (λ c'. read_data storers m t c')

  -- `initializeUpdateStorers`: every storer is made and initialized.
  initialize_update_storers : (Installer → ℕ → UpdateStorer) → Dict ℕ Installer → Read (Unit {0})
  initialize_update_storers storers [] = ok tt
  initialize_update_storers storers ((n, i) ∷ m) =
      guard (storers i n).initialize storer_failed >> initialize_update_storers storers m

  no_files : List Bytes → Read (Unit {0})
  no_files [] = ok tt
  no_files (f ∷ fs) = err (files_not_in_artifact (f ∷ fs))

  -- `ReadArtifactData`.
  unfoldable pub read_artifact_data : (Installer → ℕ → UpdateStorer) → Tar → Reader → Read Reader
  unfolding initialize_update_storers read_data no_files
  read_artifact_data storers t ar = do
    initialize_update_storers storers ar.installers
    c ← read_data storers ar.installers t ar.manifest
    no_files (files_not_marked c)
    ok (record ar { manifest = c })

  -- `ReadArtifact`.
  unfoldable pub read_artifact : (Installer → ℕ → UpdateStorer) → Tar → Reader → Read Reader
  unfolding read_artifact_headers read_artifact_data
  read_artifact storers t ar = do
    (ar', rest) ← read_artifact_headers x t ar
    read_artifact_data storers rest ar'
