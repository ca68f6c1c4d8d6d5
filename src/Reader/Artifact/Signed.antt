-- ===== src/Reader/Artifact/Signed.antt =====
-- When `readHeaderV2` of areader/reader.go accepts an archive that should be signed.
use mender_artifact.Prelude.{
  Bool, true, some, ◌≡◌, inl, inr, ap, ◌∙◌, arith, Bytes, codes, eqb, eqb_iff, has_prefix,
}
use mender_artifact.Prelude.Result.{ok, Result-cases}
use mender_artifact.Artifact.ChecksumStore.{ChecksumStore, new_checksum_store, get_raw, read_raw}
use mender_artifact.Tar.{full, Entry, Tar, entry, eof, broken}
use mender_artifact.Reader.{Environment, Reader}
use mender_artifact.Reader.Header.{bytes_of, read_next}
use mender_artifact.Reader.Headers.{signature_read_and_verify}
use mender_artifact.Reader.Headers.Signed.{verified_lem}
use mender_artifact.Reader.Artifact.{file_info_name, read_header_v2, next_in_v2}
use mender_artifact.Reader.Artifact.Integrity.{next_in_v2_lem}

first_entry :
    (t : Tar) (elem b : Bytes) (rest : Tar)
    → read_next t elem ≡ ok (b, rest)
    → (e : Entry) × (t ≡ entry e rest) × (has_prefix e.name elem ≡ true) × (bytes_of e.body ≡ b)
unfolding read_next
first_entry eof elem b rest h = cc
first_entry broken elem b rest h = cc
first_entry (entry e t) elem b rest h = (e, ground arith, ground arith, ground arith)

module _ (x : Environment) (version : Bytes) where
  -- The archive begins with a manifest and a signature of its text, which the callback accepted.
  pub record BeginsSigned (t : Tar) : Type 0 where
    pub manifest_entry : Entry
    pub signature_entry : Entry
    pub behind : Tar
    pub store : ChecksumStore
    pub sig : Bytes
    pub verify : Bytes → Bytes → Bool
    pub begins : t ≡ entry manifest_entry (entry signature_entry behind)
    pub manifest_name : has_prefix manifest_entry.name (codes "manifest") ≡ true
    pub signature_name : file_info_name signature_entry ≡ codes "manifest.sig"
    pub manifest_read : read_raw (bytes_of manifest_entry.body) new_checksum_store ≡ ok store
    pub signature_body : signature_entry.body ≡ full sig
    pub callback : x.verify_signature_callback ≡ some verify
    pub accepted : verify (get_raw store) sig ≡ true

  -- If an archive of version 2 should be signed and `readHeaderV2` accepts it, then its first two
  -- entries are one whose name begins with `manifest` and one named `manifest.sig`, and the callback
  -- accepted the second as the signature for the text of the store into which the first was read.
  pub read_header_v2-BeginsSigned :
      (t rest : Tar) (ar ar' : Reader)
      → x.should_be_signed ≡ true
      → read_header_v2 x version t ar ≡ ok (ar', rest)
      → BeginsSigned t
  unfolding read_header_v2
  read_header_v2-BeginsSigned t rest ar ar' must h =
      elim (Result-cases (read_next t (codes "manifest"))) [
        | inr (e, failed) ↦ ground (arith, failed)
        | inl ((text, t1), first) ↦ elim (Result-cases (read_raw text new_checksum_store)) [
          | inr (e, failed) ↦ ground (arith, first, failed)
          | inl (c, raw) ↦ elim (Result-cases (next_in_v2 x t1)) [
            | inr (e, failed) ↦ ground (arith, first, raw, failed)
            | inl ((e, t2), second) ↦
                let (m, t_is, prefixed, body) = first_entry t (codes "manifest") text t1 first in
                let t1_is = next_in_v2_lem x t1 e t2 second in
                let named : eqb (file_info_name e) (codes "manifest.sig") ≡ true =
                  ground (arith, first, raw, second) in
                elim (Result-cases (signature_read_and_verify x e.body (get_raw c))) [
                  | inr (e', failed) ↦ ground (arith, first, raw, second, named, failed)
                  | inl (u, checked) ↦
                      let (verify, sig, there, s_body, good) =
                        verified_lem x version e.body (get_raw c) must checked in
                      record {
                        manifest_entry = m;
                        signature_entry = e;
                        behind = t2;
                        store = c;
                        sig = sig;
                        verify = verify;
                        begins = t_is ∙ ap (entry m) t1_is;
                        manifest_name = prefixed;
                        signature_name =
                            (eqb_iff (file_info_name e) (codes "manifest.sig")).0 named;
                        manifest_read = ap (λ b. read_raw b new_checksum_store) body ∙ raw;
                        signature_body = s_body;
                        callback = there;
                        accepted = good;
                      }
                ]
          ]
        ]
      ]
