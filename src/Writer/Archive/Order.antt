-- ===== src/Writer/Archive/Order.antt =====
-- The order of the entries in an archive of version 3 of awriter/writer.go, beside the parse paths of
-- areader/reader.go.
use mender_artifact.Prelude.{
  Bool, true, false, List, [], ◌∷◌, ◌++◌, Option, none, some, ◌≡◌, inl, inr, refl, sym, ap, ap₂,
  ◌∙◌, arith, Bytes, codes, eqb, length, length-append, ltb, Option-cases, Bool-cases,
}
use mender_artifact.Prelude.Result.{ok, >>=-elim, ok_injective}
use mender_artifact.Artifact.ChecksumStore.{ChecksumStore, add, get_raw, manifest_line}
use mender_artifact.Prelude.Dict.{lookup, bytes_eq}
use mender_artifact.Artifact.Compressor.{
  Compressor, uncompressed, gzip, lzma, zstd_fastest, zstd_fast, zstd_better, zstd_best,
  get_file_extension,
}
use mender_artifact.Tar.{Entry}
use mender_artifact.Handlers.Compose.{stream_entry}
use mender_artifact.Reader.Grammar.{verify_parse_order, artifact_v3_parse_grammar}
use mender_artifact.Reader.Grammar.Sound.{Member, verify_parse_order-full_iff}
use mender_artifact.Reader.Headers.Run.{names}
use mender_artifact.Writer.{WriterEnvironment, WriteArtifactArgs}
use mender_artifact.Writer.Header.{write_temp_header}
use mender_artifact.Writer.Payload.Names.{data_names, names-write_data}
use mender_artifact.Writer.Archive.{
  header_name, has_augments, augmented_sums, augmented_header, write_signature, augmented_entries,
  write_artifact_v3,
}
use mender_artifact.Writer.Archive.Parts.{
  write_temp_header-eq-ok, Built, built, write_artifact_v3-Built, Manifests, manifests,
  write_manifest_version-Manifests, write_signature-cases,
}

-- The names of the manifests and headers, with or without a signature and augmented data.
abbrev only_if : Bool → Bytes → List Bytes
only_if false name = []
only_if true name = name ∷ []

abbrev pub header_path : Bool → Bool → Bytes → List Bytes
header_path signed augmented ext =
    codes "manifest"
    ∷ (only_if signed (codes "manifest.sig")
        ++ (only_if augmented (codes "manifest-augment")
            ++ ((codes "header.tar" ++ ext)
                ∷ only_if augmented (codes "header-augment.tar" ++ ext))))

abbrev last_header : Bool → Bytes → Bytes
last_header false ext = codes "header.tar" ++ ext
last_header true ext = codes "header-augment.tar" ++ ext

abbrev IsWhole : Bool → Bool → Bytes → Type 0
IsWhole signed augmented ext =
    verify_parse_order (header_path signed augmented ext) ≡ some (last_header augmented ext, true)

extension_elim :
    (P : Bytes → Type 0)
    → P []
    → P (codes ".gz")
    → P (codes ".xz")
    → P (codes ".zst")
    → (comp : Compressor) → P (get_file_extension comp)
unfolding get_file_extension
extension_elim P none_at_all gz xz zst uncompressed = none_at_all
extension_elim P none_at_all gz xz zst gzip = gz
extension_elim P none_at_all gz xz zst lzma = xz
extension_elim P none_at_all gz xz zst zstd_fastest = zst
extension_elim P none_at_all gz xz zst zstd_fast = zst
extension_elim P none_at_all gz xz zst zstd_better = zst
extension_elim P none_at_all gz xz zst zstd_best = zst

header_path-IsWhole :
    (signed augmented : Bool) (comp : Compressor)
    → IsWhole signed augmented (get_file_extension comp)
unfolding verify_parse_order artifact_v3_parse_grammar eqb
header_path-IsWhole false false comp = extension_elim (IsWhole false false) refl refl refl refl comp
header_path-IsWhole false true comp = extension_elim (IsWhole false true) refl refl refl refl comp
header_path-IsWhole true false comp = extension_elim (IsWhole true false) refl refl refl refl comp
header_path-IsWhole true true comp = extension_elim (IsWhole true true) refl refl refl refl comp

abbrev pub is_there {ℓ} : {A : Type ℓ} → Option A → Bool
is_there none = false
is_there (some a) = true

path_of_parts :
    (signed augmented : Bool) (comp : Compressor) (files : List Bytes)
    → (codes "manifest"
          ∷ (only_if signed (codes "manifest.sig") ++ only_if augmented (codes "manifest-augment")))
        ++ (header_name (codes "header.tar") comp
            ∷ (only_if augmented (header_name (codes "header-augment.tar") comp) ++ files))
      ≡ header_path signed augmented (get_file_extension comp) ++ files
path_of_parts false false comp files = refl
path_of_parts false true comp files = refl
path_of_parts true false comp files = refl
path_of_parts true true comp files = refl

names-append : (es fs : List Entry) → names (es ++ fs) ≡ names es ++ names fs
names-append [] fs = refl
names-append (e ∷ es) fs = ap (λ l. e.name ∷ l) (names-append es fs)

pub raw-add :
    (file sum : Bytes) (c : ChecksumStore) {c' : ChecksumStore}
    → add file sum c ≡ ok c'
    → ltb 0 (length (get_raw c')) ≡ true
unfolding add manifest_line
raw-add file sum c {c'} h = elim (Option-cases (lookup file c.sums)) [
  | inl fresh ↦
      let same = ok_injective (rw (fresh, add) at h) in
      sym (ap (λ d. ltb 0 (length (get_raw d))) same)
      ∙ ground (
        arith,
        length-append c.raw (manifest_line sum file),
        length-append sum (b' ' ∷ b' ' ∷ (file ++ b'\n' ∷ [])),
      )
  | inr (s, old) ↦ cc (rw (old, add) at h)
]

module _ (x : WriterEnvironment) where
  names-write_signature :
      (message : Bytes) {es : List Entry}
      → write_signature x message ≡ ok es
      → names es ≡ only_if (is_there x.signer) (codes "manifest.sig")
  names-write_signature message {es} h = elim (write_signature-cases x message h) [
    | inl (nil, e) ↦ ap names e ∙ ap (λ s. only_if (is_there s) (codes "manifest.sig")) (sym nil)
    | inr (sign, sig, there, signed, e) ↦
        ap names e ∙ ap (λ s. only_if (is_there s) (codes "manifest.sig")) (sym there)
  ]

  names-augmented_entries :
      (a : ChecksumStore)
      → names (augmented_entries x a)
        ≡ only_if (ltb 0 (length (get_raw a))) (codes "manifest-augment")
  unfolding augmented_entries
  names-augmented_entries a = elim (Bool-cases (ltb 0 (length (get_raw a)))) [
    | inl text ↦ rw text
    | inr empty ↦ rw empty
  ]

  -- The augmented manifest has text exactly if there is augmented data.
  augmented_names :
      (comp : Compressor) (args : WriteArtifactArgs) {a a1 : ChecksumStore} {es : List Entry}
      → augmented_sums x args ≡ ok a
      → augmented_header x comp args a ≡ ok (es, a1)
      → (names (augmented_entries x a1) ≡ only_if (has_augments args) (codes "manifest-augment"))
        × (names es ≡ only_if (has_augments args) (header_name (codes "header-augment.tar") comp))
  unfolding augmented_sums augmented_header augmented_entries
  augmented_names comp args {a} {a1} {es} h h1 = elim (Bool-cases (has_augments args)) [
    | inr without ↦
        let none_yet = ok_injective (rw without at h) in
        let same = ok_injective (rw without at h1) in
        (
          names-augmented_entries a1
              ∙ ap (λ c. only_if (ltb 0 (length (get_raw c))) (codes "manifest-augment"))
                  (sym (none_yet ∙ ap (λ r. r.1) same))
              ∙ ap (λ b. only_if b (codes "manifest-augment")) (sym without),
          sym (ap (λ r. names r.0) same)
              ∙ ap (λ b. only_if b (header_name (codes "header-augment.tar") comp)) (sym without),
        )
    | inl with_data ↦
        >>=-elim (write_temp_header x comp a (codes "header-augment") args true) _
          (rw with_data at h1)
          (λ r e1 h2.
            let (entries, written, text, stored) =
              write_temp_header-eq-ok x comp a (codes "header-augment") args true e1 in
            let same = ok_injective h2 in
            (
              names-augmented_entries a1
                  ∙ ap (λ b. only_if b (codes "manifest-augment"))
                      (ap (λ r. ltb 0 (length (get_raw r.1))) (sym same)
                        ∙ raw-add _ _ a stored
                        ∙ sym with_data),
              sym (ap (λ r. names r.0) same)
                  ∙ ap (λ b. only_if b (header_name (codes "header-augment.tar") comp))
                      (sym with_data),
            ))
  ]

  names-Manifests :
      {c a : ChecksumStore} {info : Bytes} {es : List Entry}
      → Manifests x c a info es
      → names es
        ≡ codes "manifest"
          ∷ (only_if (is_there x.signer) (codes "manifest.sig") ++ names (augmented_entries x a))
  names-Manifests {a = a} (manifests {c' = c'} {signature = signature} e1 e2) =
      ap (λ l. codes "manifest" ∷ l)
        (names-append signature (augmented_entries x a)
          ∙ ap (λ l. l ++ names (augmented_entries x a)) (names-write_signature (get_raw c') e2))

  names-Built :
      (comp : Compressor) (args : WriteArtifactArgs) {es : List Entry}
      → args.version ≡ 3
      → Built x comp args es
      → names es
        ≡ codes "version"
          ∷ (header_path (is_there x.signer) (has_augments args) (get_file_extension comp)
              ++ data_names comp 0 args.updates.updates)
  names-Built comp args three
        (built {info = info} {c1 = c1} {a1 = a1} {augmented = augmented} {manifests = ms}
          {files = files} e1 e2 e3 e4 e5 e6 e7) =
      let (manifest_augment, header_augment) = augmented_names comp args e3 e5 in
      names-append (stream_entry (codes "version") info ∷ ms) _
      ∙ ap (λ l. codes "version" ∷ l)
          (ap₂ (λ a b. a ++ b)
              (names-Manifests (write_manifest_version-Manifests x args.version c1 a1 info three e6)
                ∙ ap
                    (λ l.
                      codes "manifest" ∷ (only_if (is_there x.signer) (codes "manifest.sig") ++ l))
                    manifest_augment)
              (ap (λ l. header_name (codes "header.tar") comp ∷ l)
                (names-append augmented files
                  ∙ ap₂ (λ a b. a ++ b) header_augment
                      (names-write_data x comp 0 args.updates.updates args.updates.augments e7)))
            ∙ path_of_parts (is_there x.signer) (has_augments args) comp
                (data_names comp 0 args.updates.updates))

  -- `writeArtifactV3` writes, for version 3, the version, then manifests and headers that are one of
  -- the sixteen paths of the reader's grammar, the signature among them exactly if there is a signer
  -- and the augmented ones exactly if there are augmenting payloads, and then the archive of each
  -- payload by its number.
  pub names-write_artifact_v3 :
      (comp : Compressor) (args : WriteArtifactArgs) {es : List Entry}
      → args.version ≡ 3
      → write_artifact_v3 x comp args ≡ ok es
      → let path = header_path (is_there x.signer) (has_augments args) (get_file_extension comp) in
        Member path artifact_v3_parse_grammar
        × (names es ≡ codes "version" ∷ (path ++ data_names comp 0 args.updates.updates))
  names-write_artifact_v3 comp args {es} three h = (
    ((verify_parse_order-full_iff _ _).0
        (header_path-IsWhole (is_there x.signer) (has_augments args) comp)).0,
    names-Built comp args three (write_artifact_v3-Built x comp args h),
  )
