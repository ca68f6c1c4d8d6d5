-- ===== src/Writer/Archive/Sealed.antt =====
-- The manifests in an archive of version 3 of awriter/writer.go, beside its other entries.
use mender_artifact.Prelude.{none, some, ◌⊎◌, ◌≢◌, List, [], ◌∷◌, ◌++◌, Option, ◌≡◌, Bytes, codes}
use mender_artifact.Artifact.ChecksumStore.{ChecksumStore, get_raw}
use mender_artifact.Artifact.Compressor.{Compressor, get_file_extension}
use mender_artifact.Tar.{full, Entry}
use mender_artifact.Handlers.Compose.{stream_entry}
use mender_artifact.Writer.{WriterEnvironment, WriteArtifactArgs, sum_of}
use mender_artifact.Writer.Sums.Sealed.{Sums, AreSealed, AugmentsAreSealed}

module _ (x : WriterEnvironment) where
  -- The manifest has the checksum of this entry's bytes under its name.
  abbrev pub EntryIsSealed : ChecksumStore → Entry → Type 0
  EntryIsSealed c e = (text : Bytes) × (e.body ≡ full text) × Sums c e.name (sum_of x text)

  -- What there is of augmented data: nothing at all, or the augmented manifest `a` and the augmented
  -- header, whose checksum is in `a` with those of the augmented files.
  pub data Augmented (comp : Compressor) (args : WriteArtifactArgs) (a : ChecksumStore)
      : List Entry → List Entry → Type 0 where
    no_augments : args.updates.augments ≡ [] → Augmented comp args a [] []
    augments :
        (header : Bytes)
        → args.updates.augments ≢ []
        → EntryIsSealed a
            (stream_entry (codes "header-augment.tar" ++ get_file_extension comp) header)
        → AugmentsAreSealed x a 0 args.updates.augments
        → Augmented comp args a
            (stream_entry (codes "manifest-augment") (get_raw a) ∷ [])
            (stream_entry (codes "header-augment.tar" ++ get_file_extension comp) header ∷ [])

  -- The entries behind a manifest: none if there is no signer, or the one signature, which is the
  -- signer's answer to the manifest's bytes.
  abbrev pub Signs : Bytes → List Entry → Type 0
  Signs message es =
      ((x.signer ≡ none) × (es ≡ []))
      ⊎ ((sign : Bytes → Option Bytes) × (sig : Bytes) × (x.signer ≡ some sign)
          × (sign message ≡ some sig)
          × (es ≡ stream_entry (codes "manifest.sig") sig ∷ []))

  -- An archive with the manifest `c` and, if there is augmented data, the augmented manifest `a`, in
  -- its place each: `c` has the checksums of the version, the header and the files of all payloads.
  pub data Sealed (comp : Compressor) (args : WriteArtifactArgs) : List Entry → Type 0 where
    sealed :
        (c a : ChecksumStore) (version header : Bytes)
        (signature augmented headers files : List Entry)
        → Signs (get_raw c) signature
        → EntryIsSealed c (stream_entry (codes "version") version)
        → EntryIsSealed c (stream_entry (codes "header.tar" ++ get_file_extension comp) header)
        → AreSealed x c 0 args.updates.updates
        → Augmented comp args a augmented headers
        → Sealed comp args (
            (stream_entry (codes "version") version
              ∷ ((stream_entry (codes "manifest") (get_raw c) ∷ signature) ++ augmented))
            ++ ((stream_entry (codes "header.tar" ++ get_file_extension comp) header ∷ headers)
                ++ files))
