-- ===== src/Writer/Payload/Names.antt =====
-- The names under which `writeData` of awriter/writer.go writes the payloads.
use mender_artifact.Prelude.{ℕ, suc, List, [], ◌∷◌, ◌++◌, Option, ◌≡◌, sym, ap, ap₂, ◌∙◌}
use mender_artifact.Prelude.Result.{ok, >>=-elim, ok_injective}
use mender_artifact.Artifact.Compressor.{Compressor, get_file_extension}
use mender_artifact.Artifact.Update.{update_data_path}
use mender_artifact.Tar.{Entry}
use mender_artifact.Prelude.{Bytes}
use mender_artifact.Handlers.{Installer}
use mender_artifact.Handlers.Files.{get_update_files}
use mender_artifact.Reader.Headers.Run.{names}
use mender_artifact.Writer.{WriterEnvironment}
use mender_artifact.Writer.Payload.{
  write_data, write_one_data_tar, augment_at, write_base_files, write_files_of, augment_files_of,
}

-- The names of the payloads' archives, from number `i` on.
abbrev pub data_names : Compressor → ℕ → List Installer → List Bytes
data_names comp i [] = []
data_names comp i (u ∷ us) =
    (update_data_path i ++ get_file_extension comp) ∷ data_names comp (suc i) us

module _ (x : WriterEnvironment) where
  write_one_data_tar-name :
      (comp : Compressor) (i : ℕ) (u : Installer) (a : Option Installer) {e : Entry}
      → write_one_data_tar x comp i u a ≡ ok e
      → e.name ≡ update_data_path i ++ get_file_extension comp
  unfolding write_one_data_tar
  write_one_data_tar-name comp i u a h =
      >>=-elim (write_base_files x (get_update_files u)) _ h (λ files e1 h1.
        >>=-elim (write_files_of x (augment_files_of x a)) _ h1
          (λ augmented e2 h2. sym (ap (λ e. e.name) (ok_injective h2))))

  pub names-write_data :
      (comp : Compressor) (i : ℕ) (us : List Installer) (augments : List (Option Installer))
      {es : List Entry}
      → write_data x comp i us augments ≡ ok es
      → names es ≡ data_names comp i us
  unfolding write_data
  names-write_data comp i [] augments h = sym (ap names (ok_injective h))
  names-write_data comp i (u ∷ us) augments h =
      >>=-elim (write_one_data_tar x comp i u (augment_at i augments)) _ h (λ e e1 h1.
        >>=-elim (write_data x comp (suc i) us augments) _ h1 (λ es e2 h2.
          sym (ap names (ok_injective h2))
          ∙ ap₂ (λ n l. n ∷ l) (write_one_data_tar-name comp i u (augment_at i augments) e1)
              (names-write_data comp (suc i) us augments e2)))
