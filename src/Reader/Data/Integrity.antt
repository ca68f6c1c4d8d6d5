-- ===== src/Reader/Data/Integrity.antt =====
-- The data of an artifact in areader/reader.go against the manifest: behind `ReadArtifactData` every file
-- of it was met.
use mender_artifact.Prelude.{ℕ, List, [], ◌∷◌, ◌≡◌, inl, inr, refl, arith, Bytes}
use mender_artifact.Prelude.Result.{ok, Result-cases}
use mender_artifact.Prelude.Dict.{nat_eq}
use mender_artifact.Artifact.ChecksumStore.{get, files_not_marked}
use mender_artifact.Artifact.ChecksumStore.Vouched.{HasBytes, Vouched, Vouched-get}
use mender_artifact.Tar.{Entry, Tar, In}
use mender_artifact.Handlers.{Installer}
use mender_artifact.Reader.{Environment, Reader}
use mender_artifact.Reader.Data.{UpdateStorer, read_data, no_files, read_artifact_data}
use mender_artifact.Reader.Data.Steps.{AllowsInside, data-Vouched}

module _ (x : Environment) (Q : Bytes → Bytes → Type 0) where
  none_missing : (files : List Bytes) → no_files x files ≡ ok tt → files ≡ []
  unfolding no_files
  none_missing [] h = refl
  none_missing (f ∷ fs) h = cc

  data_and_marks :
      (storers : Installer → ℕ → UpdateStorer) (t : Tar) (ar ar' : Reader)
      → read_artifact_data x storers t ar ≡ ok ar'
      → (read_data x storers ar.installers t ar.manifest ≡ ok ar'.manifest)
        × (files_not_marked ar'.manifest ≡ [])
  unfolding read_artifact_data
  data_and_marks storers t ar ar' h =
      elim (Result-cases (read_data x storers ar.installers t ar.manifest)) [
        | inl (c, read) ↦ elim (Result-cases (no_files x (files_not_marked c))) [
          | inl (u, checked) ↦
              let all = none_missing (files_not_marked c) checked in
              (ground (arith, read, checked), ground (arith, read, checked, all))
          | inr (e, missing) ↦ ground (arith, read, missing)
        ]
        | inr (e, broke) ↦ ground (arith, broke)
      ]

  -- If every marked file of the manifest has its bytes and `ReadArtifactData` succeeds, then every
  -- file of the manifest has: `Get` finds a checksum that is the one of bytes found for the file.
  pub read_artifact_data-HasBytes :
      (storers : Installer → ℕ → UpdateStorer) (t : Tar) (ar ar' : Reader) (file sum : Bytes)
      → ((e : Entry) → In e t → AllowsInside x Q storers e)
      → Vouched x.sha256 Q ar.manifest
      → read_artifact_data x storers t ar ≡ ok ar'
      → get file ar'.manifest ≡ ok sum
      → HasBytes x.sha256 Q file sum
  read_artifact_data-HasBytes storers t ar ar' file sum q v h found =
      let (read, marked) = data_and_marks storers t ar ar' h in
      Vouched-get x.sha256 Q ar'.manifest file
        (data-Vouched x Q storers ar.installers t ar.manifest q v read) marked found
