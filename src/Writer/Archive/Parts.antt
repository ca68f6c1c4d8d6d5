-- ===== src/Writer/Archive/Parts.antt =====
-- The parts of an archive of version 3 of awriter/writer.go, as its writer puts them together.
use mender_artifact.Prelude.{
  ℕ, Bool, false, List, [], ◌∷◌, ◌++◌, Option, none, some, ◌≡◌, ◌⊎◌, inl, inr, sym, ap, subst, ◌∙◌,
  Bytes, codes, Option-cases,
}
use mender_artifact.Prelude.Result.{ok, >>=-elim, ok_injective}
use mender_artifact.Artifact.ChecksumStore.{ChecksumStore, new_checksum_store, add, get_raw}
use mender_artifact.Artifact.Compressor.{Compressor, get_file_extension}
use mender_artifact.Tar.{Entry}
use mender_artifact.Handlers.Compose.{stream_entry}
use mender_artifact.Writer.{
  WriterEnvironment, WriteArtifactArgs, lift_error, lift_error-eq-ok, of_store, archive, sum_of,
}
use mender_artifact.Writer.Sums.{calc_data_hash}
use mender_artifact.Writer.Header.{write_header, write_temp_header}
use mender_artifact.Writer.Payload.{write_data}
use mender_artifact.Writer.Archive.{
  header_name, info_stream, augmented_sums, augmented_header, write_signature, manifest_entries,
  augmented_entries, write_manifest_version, write_artifact_v3,
}

module _ (x : WriterEnvironment) where
  pub write_temp_header-eq-ok :
      (comp : Compressor) (c : ChecksumStore) (name : Bytes) (args : WriteArtifactArgs)
      (augmented : Bool) {text : Bytes} {c' : ChecksumStore}
      → write_temp_header x comp c name args augmented ≡ ok (text, c')
      → (es : List Entry) × (write_header x args augmented ≡ ok es)
        × (text ≡ x.pack comp (archive es))
        × (add (name ++ (codes ".tar" ++ get_file_extension comp)) (sum_of x text) c ≡ ok c')
  unfolding write_temp_header
  write_temp_header-eq-ok comp c name args augmented {text} {c'} h =
      >>=-elim (write_header x args augmented) _ h (λ es header h1.
        let stored =
          add (name ++ (codes ".tar" ++ get_file_extension comp))
            (sum_of x (x.pack comp (archive es))) c in
        >>=-elim (lift_error of_store stored) _ h1 (λ d lifted h2.
          let same = ok_injective h2 in
          let text_is = sym (ap (λ p. p.0) same) in
          (
            es,
            header,
            text_is,
            ap (λ t. add (name ++ (codes ".tar" ++ get_file_extension comp)) (sum_of x t) c) text_is
                ∙ lift_error-eq-ok of_store stored lifted
                ∙ ap (λ p. ok p.1) same,
          )))

  -- An archive of version 3, with what its writer got from each of its steps.
  pub data Built (comp : Compressor) (args : WriteArtifactArgs) : List Entry → Type 0 where
    built :
        {info header : Bytes} {c a c1 a1 : ChecksumStore} {augmented manifests files : List Entry}
        → info_stream x args ≡ ok info
        → calc_data_hash x new_checksum_store args.updates false ≡ ok c
        → augmented_sums x args ≡ ok a
        → write_temp_header x comp c (codes "header") args false ≡ ok (header, c1)
        → augmented_header x comp args a ≡ ok (augmented, a1)
        → write_manifest_version x args.version c1 a1 info ≡ ok manifests
        → write_data x comp 0 args.updates.updates args.updates.augments ≡ ok files
        → Built comp args (
            (stream_entry (codes "version") info ∷ manifests)
            ++ ((stream_entry (header_name (codes "header.tar") comp) header ∷ augmented) ++ files))

  pub write_artifact_v3-Built :
      (comp : Compressor) (args : WriteArtifactArgs) {es : List Entry}
      → write_artifact_v3 x comp args ≡ ok es
      → Built comp args es
  unfolding write_artifact_v3
  write_artifact_v3-Built comp args {es} h = >>=-elim (info_stream x args) _ h (λ info e1 h1.
      >>=-elim (calc_data_hash x new_checksum_store args.updates false) _ h1 (λ c e2 h2.
        >>=-elim (augmented_sums x args) _ h2 (λ a e3 h3.
          >>=-elim (write_temp_header x comp c (codes "header") args false) _ h3 (λ header e4 h4.
            >>=-elim (augmented_header x comp args a) _ h4 (λ augmented e5 h5.
              >>=-elim (write_manifest_version x args.version header.1 augmented.1 info) _ h5
                (λ manifests e6 h6.
                  >>=-elim (write_data x comp 0 args.updates.updates args.updates.augments) _ h6
                    (λ files e7 h7.
                      subst (Built comp args) (ok_injective h7) (built e1 e2 e3 e4 e5 e6 e7))))))))

  -- The manifests of version 3: the manifest, its signature if there is a signer, and the augmented
  -- manifest if it has text.
  pub data Manifests (c a : ChecksumStore) (info : Bytes) : List Entry → Type 0 where
    manifests :
        {c' : ChecksumStore} {signature : List Entry}
        → add (codes "version") (sum_of x info) c ≡ ok c'
        → write_signature x (get_raw c') ≡ ok signature
        → Manifests c a info
            ((stream_entry (codes "manifest") (get_raw c') ∷ signature) ++ augmented_entries x a)

  pub write_manifest_version-Manifests :
      (version : ℕ) (c a : ChecksumStore) (info : Bytes) {es : List Entry}
      → version ≡ 3
      → write_manifest_version x version c a info ≡ ok es
      → Manifests c a info es
  unfolding write_manifest_version manifest_entries
  write_manifest_version-Manifests version c a info {es} three h =
      >>=-elim (manifest_entries x info c) _ (rw three at h) (λ ms e1 h1.
        >>=-elim (lift_error of_store (add (codes "version") (sum_of x info) c)) _ e1 (λ c' e2 h2.
          >>=-elim (write_signature x (get_raw c')) _ h2 (λ sig e3 h3.
            subst (Manifests c a info)
              (ap (λ l. l ++ augmented_entries x a) (ok_injective h3) ∙ ok_injective h1)
              (manifests (lift_error-eq-ok of_store _ e2) e3))))

  -- A signer is asked for the manifest's bytes, and its answer follows the manifest.
  pub write_signature-cases :
      (message : Bytes) {es : List Entry}
      → write_signature x message ≡ ok es
      → ((x.signer ≡ none) × (es ≡ []))
        ⊎ ((sign : Bytes → Option Bytes) × (sig : Bytes) × (x.signer ≡ some sign)
            × (sign message ≡ some sig)
            × (es ≡ stream_entry (codes "manifest.sig") sig ∷ []))
  unfolding write_signature
  write_signature-cases message {es} h = elim (Option-cases x.signer) [
    | inl nil ↦ inl (nil, sym (ok_injective (rw (nil, write_signature) at h)))
    | inr (sign, there) ↦ elim (Option-cases (sign message)) [
      | inl refused ↦ cc (rw (there, refused, write_signature) at h)
      | inr (sig, signed) ↦
          inr (
            sign,
            sig,
            there,
            signed,
            sym (ok_injective (rw (there, signed, write_signature) at h)),
          )
    ]
  ]
