-- ===== src/Reader/Headers/Mark.antt =====
-- `handleHeaderReads` of areader/reader.go does not look at whether a signature was seen.
use mender_artifact.Prelude.{
  Bool, true, false, ◌≡◌, inl, inr, arith, Bytes, codes, eqb, Bool-cases, some,
}
use mender_artifact.Prelude.Result.{ok, Result-cases}
use mender_artifact.Artifact.Compressor.{Compressor}
use mender_artifact.Artifact.ChecksumStore.{ChecksumStore, get_and_mark, get_raw, read_raw}
use mender_artifact.Tar.{Body, full, Entry}
use mender_artifact.Reader.{Environment, Reader}
use mender_artifact.Reader.Header.{read_header_archive, read_augmented_header}
use mender_artifact.Reader.Headers.{
  handle_header_reads, read_manifest_header, verify_version, signature_read_and_verify,
  read_manifest_token, read_signature_token, read_augment_token, read_header_token,
  read_augmented_token, is_header, is_augmented_header,
}

-- The reader with the flag set.
abbrev pub mark_signed : Reader → Reader
mark_signed ar = record ar { is_signed = true }

module _ (x : Environment) (body : Body) (ar : Reader) {ar' : Reader} where
  read_header_archive-mark_signed :
      (sum : Bytes) (comp : Compressor)
      → read_header_archive x sum comp body ar ≡ ok ar'
      → read_header_archive x sum comp body (mark_signed ar) ≡ ok (mark_signed ar')
  unfolding read_header_archive
  read_header_archive-mark_signed sum comp h = ground arith

  read_augmented_header-mark_signed :
      (sum : Bytes) (comp : Compressor)
      → read_augmented_header x sum comp body ar ≡ ok ar'
      → read_augmented_header x sum comp body (mark_signed ar) ≡ ok (mark_signed ar')
  unfolding read_augmented_header
  read_augmented_header-mark_signed sum comp h = ground arith

module _ (x : Environment) (version : Bytes) (body : Body) (ar : Reader) {ar' : Reader} where
  manifest-mark_signed :
      read_manifest_token x version body ar ≡ ok ar'
      → read_manifest_token x version body (mark_signed ar) ≡ ok (mark_signed ar')
  unfolding read_manifest_token
  manifest-mark_signed h = ground arith

  augment-mark_signed :
      read_augment_token x body ar ≡ ok ar'
      → read_augment_token x body (mark_signed ar) ≡ ok (mark_signed ar')
  unfolding read_augment_token
  augment-mark_signed h = ground arith

  header-mark_signed :
      (name : Bytes)
      → read_header_token x name body ar ≡ ok ar'
      → read_header_token x name body (mark_signed ar) ≡ ok (mark_signed ar')
  unfolding read_header_token read_header_archive
  header-mark_signed name h = ground arith

  augmented-mark_signed :
      (name : Bytes)
      → read_augmented_token x name body ar ≡ ok ar'
      → read_augmented_token x name body (mark_signed ar) ≡ ok (mark_signed ar')
  unfolding read_augmented_token read_augmented_header
  augmented-mark_signed name h = ground arith

  -- Every token but the signature has the same effect on a reader that is marked before.
  pub handle_header_reads-mark_signed :
      (name : Bytes)
      → eqb name (codes "manifest.sig") ≡ false
      → handle_header_reads x name version body ar ≡ ok ar'
      → handle_header_reads x name version body (mark_signed ar) ≡ ok (mark_signed ar')
  unfolding handle_header_reads
  handle_header_reads-mark_signed name other h = elim (Bool-cases (eqb name (codes "manifest"))) [
    | inl is ↦ rw is (manifest-mark_signed (rw (is, handle_header_reads) at h))
    | inr n1 ↦ elim (Bool-cases (eqb name (codes "manifest-augment"))) [
      | inl is ↦
          rw (n1, other, is) (augment-mark_signed (rw (n1, other, is, handle_header_reads) at h))
      | inr n2 ↦ elim (Bool-cases (is_header x name)) [
        | inl is ↦
            rw (n1, other, n2, is)
              (header-mark_signed name (rw (n1, other, n2, is, handle_header_reads) at h))
        | inr n3 ↦ elim (Bool-cases (is_augmented_header x name)) [
          | inl is ↦
              rw (n1, other, n2, n3, is)
                (augmented-mark_signed name (rw (n1, other, n2, n3, is, handle_header_reads) at h))
          | inr n4 ↦ cc (rw (n1, other, n2, n3, n4, handle_header_reads) at h)
        ]
      ]
    ]
  ]

module _ (x : Environment) (version : Bytes) where
  -- The text that a signature is verified against is the manifest's as it was read.
  pub manifest_text :
      (e : Entry) (text : Bytes) (ar : Reader) {ar1 : Reader}
      → e.name ≡ codes "manifest"
      → e.body ≡ full text
      → ((c : ChecksumStore) → read_raw text ar.manifest ≡ ok c → get_raw c ≡ text)
      → handle_header_reads x e.name version e.body ar ≡ ok ar1
      → get_raw ar1.manifest ≡ text
  unfolding handle_header_reads read_manifest_token read_manifest_header verify_version get_and_mark
      eqb
  manifest_text e text ar {ar1} is whole canonical h =
      elim (Result-cases (read_raw text ar.manifest)) [
        | inr (er, failed) ↦ ground (arith, is, whole, failed, h)
        | inl (c, there) ↦ ground (arith, is, whole, there, h, canonical c there)
      ]

  -- A signature that the callback accepts marks the reader.
  pub signature_token :
      (verify : Bytes → Bytes → Bool) (sig : Bytes) (ar : Reader)
      → x.verify_signature_callback ≡ some verify
      → verify (get_raw ar.manifest) sig ≡ true
      → handle_header_reads x (codes "manifest.sig") version (full sig) ar ≡ ok (mark_signed ar)
  unfolding handle_header_reads read_signature_token signature_read_and_verify eqb
  signature_token verify sig ar callback accepted = ground (arith, callback, accepted)
