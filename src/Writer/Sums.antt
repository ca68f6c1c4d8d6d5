-- ===== src/Writer/Sums.antt =====
-- The checksums of the files of the payloads: `calcDataHash` of awriter/writer.go. That the checksum is also
-- kept in the structure of the file is left out, since the writer does not read it again.
pub mod Sealed
use mender_artifact.Prelude.{ℕ, suc, Bool, true, false, List, [], ◌∷◌, map, Option, none, some}
use mender_artifact.Prelude.Result.{ok, ◌>>=◌, or_err}
use mender_artifact.Prelude.FilePath.{base, join}
use mender_artifact.Artifact.ChecksumStore.{ChecksumStore, add}
use mender_artifact.Artifact.Update.{update_path}
use mender_artifact.Handlers.{DataFile, Installer}
use mender_artifact.Handlers.Files.{get_update_files, get_update_augment_files}
use mender_artifact.Writer.{
  cannot_open, of_store, Write, lift_error, WriterEnvironment, Updates, sum_of,
}

-- The payloads of one of the two kinds.
abbrev pub composers : Bool → Updates → List (Option Installer)
composers true u = u.augments
composers false u = map some u.updates

abbrev pub files_of : Bool → Installer → List DataFile
files_of true i = get_update_augment_files i
files_of false i = get_update_files i

module _ (x : WriterEnvironment) where
  -- The inner loop of `calcDataHash`.
  hash_files : ℕ → List DataFile → ChecksumStore → Write ChecksumStore
  hash_files i [] c = ok c
  hash_files i (f ∷ fs) c = do
    text ← or_err (x.read_file f.name) (cannot_open f.name)
    c' ← lift_error of_store (add (join (update_path i) (base f.name)) (sum_of x text) c)
    hash_files i fs c'

  -- The outer loop, from number `i` on; a nil composer is passed over.
  hash_payloads : Bool → ℕ → List (Option Installer) → ChecksumStore → Write ChecksumStore
  unfolding hash_files
  hash_payloads augmented i [] c = ok c
  hash_payloads augmented i (none ∷ us) c = hash_payloads augmented (suc i) us c
  hash_payloads augmented i (some u ∷ us) c = do
    c' ← hash_files i (files_of augmented u) c
    hash_payloads augmented (suc i) us c'

  -- `calcDataHash`.
  unfoldable pub calc_data_hash : ChecksumStore → Updates → Bool → Write ChecksumStore
  unfolding hash_payloads
  calc_data_hash c u augmented = hash_payloads augmented 0 (composers augmented u) c
