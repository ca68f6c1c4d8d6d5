-- ===== src/Reader/Headers/Cases.antt =====
-- `handleHeaderReads` of areader/reader.go, case by case: which reader ran, and what that one does.
use mender_artifact.Prelude.{
  true, false, List, some, ◌≡◌, inl, inr, refl, sym, ap, subst, ◌∙◌, arith, Bytes, eqb, eqb_iff,
  codes, Bool-cases,
}
use mender_artifact.Prelude.Result.{ok, Result-cases}
use mender_artifact.Artifact.Checksum.{hex_encode}
use mender_artifact.Artifact.ChecksumStore.{ChecksumStore, get_and_mark, get_raw, read_raw}
use mender_artifact.Artifact.Compressor.{new_compressor_from_file_name}
use mender_artifact.Tar.{Body, full, cut, ended}
use mender_artifact.Reader.{Environment, Reader}
use mender_artifact.Reader.Header.{bytes_of}
use mender_artifact.Reader.Header.Frame.{read_header_archive-Checked, read_augmented_header-Checked}
use mender_artifact.Reader.Headers.{
  handle_header_reads, read_manifest_token, read_signature_token, read_augment_token,
  read_header_token, read_augmented_token, read_manifest_header, verify_version,
  signature_read_and_verify, is_header, is_augmented_header,
}

-- What reading the entry `name` has done to the manifest, by the kinds of entries.
pub data Handled (x : Environment) (version : Bytes) (body : Body) (ar ar' : Reader)
    : Bytes → Type 0 where
  manifest :
      (text : Bytes) (c : ChecksumStore) (sum : Bytes)
      → body ≡ full text
      → read_raw text ar.manifest ≡ ok c
      → get_and_mark (codes "version") c ≡ ok (sum, ar'.manifest)
      → eqb sum (hex_encode (x.sha256 version)) ≡ true
      → ar'.is_signed ≡ ar.is_signed
      → Handled x version body ar ar' (codes "manifest")
  signature :
      ar'.manifest ≡ ar.manifest
      → signature_read_and_verify x body (get_raw ar.manifest) ≡ ok tt
      → Handled x version body ar ar' (codes "manifest.sig")
  augment :
      (text : Bytes)
      → body ≡ full text
      → read_raw text ar.manifest ≡ ok ar'.manifest
      → ar'.is_signed ≡ ar.is_signed
      → Handled x version body ar ar' (codes "manifest-augment")
  header :
      (name sum : Bytes)
      → eqb name (codes "manifest") ≡ false
      → eqb name (codes "manifest.sig") ≡ false
      → get_and_mark name ar.manifest ≡ ok (sum, ar'.manifest)
      → eqb sum (hex_encode (x.sha256 (bytes_of body))) ≡ true
      → ar'.is_signed ≡ ar.is_signed
      → Handled x version body ar ar' name

manifest_header_lem :
    (body : Body) (c : ChecksumStore) (files : List Bytes) (c' : ChecksumStore)
    → read_manifest_header body c ≡ ok (files, c')
    → (text : Bytes) × (body ≡ full text) × (read_raw text c ≡ ok c')
unfolding read_manifest_header
manifest_header_lem (cut b) c files c' h = cc
manifest_header_lem (ended b) c files c' h = cc
manifest_header_lem (full b) c files c' h = elim (Result-cases (read_raw b c)) [
  | inl (d, read) ↦ (b, refl, ground (arith, read))
  | inr (e, failed) ↦ ground (arith, failed)
]

module _ (x : Environment) (version : Bytes) (body : Body) (ar ar' : Reader) where
  manifest_lem :
      read_manifest_token x version body ar ≡ ok ar'
      → Handled x version body ar ar' (codes "manifest")
  unfolding read_manifest_token verify_version
  manifest_lem h = elim (Result-cases (read_manifest_header body ar.manifest)) [
    | inl ((files, c), read) ↦
        let (text, whole, raw) = manifest_header_lem body ar.manifest files c read in
        elim (Result-cases (get_and_mark (codes "version") c)) [
          | inl ((sum, d), marked) ↦
              manifest text c sum whole raw (ground (arith, read, marked))
                (ground (arith, read, marked)) (ground (arith, read, marked))
          | inr (e, missing) ↦ ground (arith, read, missing)
        ]
    | inr (e, failed) ↦ ground (arith, failed)
  ]

  signature_lem :
      read_signature_token x body ar ≡ ok ar' → Handled x version body ar ar' (codes "manifest.sig")
  unfolding read_signature_token
  signature_lem h = signature (ground arith) (ground arith)

  augment_lem :
      read_augment_token x body ar ≡ ok ar'
      → Handled x version body ar ar' (codes "manifest-augment")
  unfolding read_augment_token
  augment_lem h = elim (Result-cases (read_manifest_header body ar.manifest)) [
    | inl ((files, c), read) ↦
        let (text, whole, raw) = manifest_header_lem body ar.manifest files c read in
        augment text whole (ground (arith, read, raw)) (ground (arith, read))
    | inr (e, failed) ↦ ground (arith, failed)
  ]

  header_lem :
      (name : Bytes)
      → eqb name (codes "manifest") ≡ false
      → eqb name (codes "manifest.sig") ≡ false
      → read_header_token x name body ar ≡ ok ar'
      → Handled x version body ar ar' name
  unfolding read_header_token
  header_lem name not_manifest not_sig h = elim (Result-cases (get_and_mark name ar.manifest)) [
    | inl ((sum, c), marked) ↦
        let comp = new_compressor_from_file_name name in
        let ar0 : Reader = record ar { manifest = c; compressor = some comp } in
        let done = read_header_archive-Checked x sum comp body ar0 ar' (ground (arith, marked)) in
        header name sum not_manifest not_sig
          (marked ∙ ap (λ d. ok (sum, d)) (sym done.same_manifest)) done.checksum done.same_signed
    | inr (e, missing) ↦ ground (arith, missing)
  ]

  augmented_lem :
      (name : Bytes)
      → eqb name (codes "manifest") ≡ false
      → eqb name (codes "manifest.sig") ≡ false
      → read_augmented_token x name body ar ≡ ok ar'
      → Handled x version body ar ar' name
  unfolding read_augmented_token
  augmented_lem name not_manifest not_sig h = elim (Result-cases (get_and_mark name ar.manifest)) [
    | inl ((sum, c), marked) ↦
        let comp = new_compressor_from_file_name name in
        let ar0 : Reader = record ar { manifest = c } in
        let done = read_augmented_header-Checked x sum comp body ar0 ar' (ground (arith, marked)) in
        header name sum not_manifest not_sig
          (marked ∙ ap (λ d. ok (sum, d)) (sym done.same_manifest)) done.checksum done.same_signed
    | inr (e, missing) ↦ ground (arith, missing)
  ]

  pub handle_header_reads-Handled :
      (name : Bytes)
      → handle_header_reads x name version body ar ≡ ok ar'
      → Handled x version body ar ar' name
  unfolding handle_header_reads
  handle_header_reads-Handled name h = elim (Bool-cases (eqb name (codes "manifest"))) [
    | inl is ↦
        subst (Handled x version body ar ar') (sym ((eqb_iff name (codes "manifest")).0 is))
          (manifest_lem (rw is at h))
    | inr a ↦ elim (Bool-cases (eqb name (codes "manifest.sig"))) [
      | inl is ↦
          subst (Handled x version body ar ar') (sym ((eqb_iff name (codes "manifest.sig")).0 is))
            (signature_lem (rw (a, is) at h))
      | inr b ↦ elim (Bool-cases (eqb name (codes "manifest-augment"))) [
        | inl is ↦
            subst (Handled x version body ar ar')
              (sym ((eqb_iff name (codes "manifest-augment")).0 is))
              (augment_lem (rw (a, b, is) at h))
        | inr c ↦ elim (Bool-cases (is_header x name)) [
          | inl is ↦ header_lem name a b (rw (a, b, c, is) at h)
          | inr d ↦ elim (Bool-cases (is_augmented_header x name)) [
            | inl is ↦ augmented_lem name a b (rw (a, b, c, d, is) at h)
            | inr e ↦ cc (rw (a, b, c, d, e) at h)
          ]
        ]
      ]
    ]
  ]
