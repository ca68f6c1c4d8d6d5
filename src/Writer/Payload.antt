-- ===== src/Writer/Payload.antt =====
-- The archives of payloads: `writeData`, `writeOneDataTar` and `writeOneDataFile` of
-- awriter/writer.go.
pub mod Names
use mender_artifact.Prelude.{
  ℕ, suc, List, [], ◌∷◌, ◌++◌, Option, none, some, ◌-◌, ◌==◌, if◌then◌else◌,
}
use mender_artifact.Prelude.Result.{ok, ◌>>=◌, ◌>>◌, guard, or_err}
use mender_artifact.Prelude.FilePath.{base}
use mender_artifact.Artifact.Compressor.{Compressor, get_file_extension}
use mender_artifact.Artifact.Update.{update_data_path}
use mender_artifact.Tar.{Entry}
use mender_artifact.Handlers.{DataFile, Installer}
use mender_artifact.Handlers.Compose.{stream_entry}
use mender_artifact.Handlers.Files.{get_update_files, get_update_augment_files}
use mender_artifact.Reader.Data.{matches_file_name}
use mender_artifact.Writer.{cannot_open, forbidden_characters, Write, WriterEnvironment, archive}

augment_at : ℕ → List (Option Installer) → Option Installer
augment_at n [] = none
augment_at n (a ∷ as') = if n == 0 then a else augment_at (n - 1) as'

module _ (x : WriterEnvironment) where
  -- `writeOneDataFile`.
  unfoldable pub write_one_data_file : DataFile → Write Entry
  write_one_data_file f = do
    guard (matches_file_name (base f.name)) (forbidden_characters f.name)
    text ← or_err (x.read_file f.name) (cannot_open f.name)
    ok (stream_entry (base f.name) text)

  write_files_of : List DataFile → Write (List Entry)
  unfolding write_one_data_file
  write_files_of [] = ok []
  write_files_of (f ∷ fs) = do e ← write_one_data_file f; es ← write_files_of fs; ok (e ∷ es)

  -- The loop over the files of the payload, which asks for the size of a file first.
  write_base_files : List DataFile → Write (List Entry)
  unfolding write_one_data_file
  write_base_files [] = ok []
  write_base_files (f ∷ fs) = do
    text ← or_err (x.read_file f.name) (cannot_open f.name)
    e ← write_one_data_file f
    es ← write_base_files fs
    ok (e ∷ es)

  augment_files_of : Option Installer → List DataFile
  augment_files_of none = []
  augment_files_of (some a) = get_update_augment_files a

  -- `writeOneDataTar`.
  unfoldable pub write_one_data_tar : Compressor → ℕ → Installer → Option Installer → Write Entry
  unfolding write_base_files write_files_of augment_files_of
  write_one_data_tar comp number u augment = do
    files ← write_base_files (get_update_files u)
    augmented ← write_files_of (augment_files_of augment)
    ok (
        stream_entry (update_data_path number ++ get_file_extension comp)
          (x.pack comp (archive (files ++ augmented))))

  -- `writeData`, from number `i` on.
  unfoldable pub write_data :
      Compressor → ℕ → List Installer → List (Option Installer) → Write (List Entry)
  unfolding write_one_data_tar augment_at
  write_data comp i [] augments = ok []
  write_data comp i (u ∷ us) augments = do
    e ← write_one_data_tar comp i u (augment_at i augments)
    es ← write_data comp (suc i) us augments
    ok (e ∷ es)
