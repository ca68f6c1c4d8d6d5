-- ===== src/Reader/Artifact/Integrity.antt =====
-- `readHeaderV2` of areader/reader.go against the manifest.
use mender_artifact.Prelude.{
  true, some, ◌≡◌, ◌⊎◌, inl, inr, refl, sym, ap, subst, ◌∙◌, arith, Bytes, codes, eqb, Bool-cases,
}
use mender_artifact.Prelude.Result.{ok, Result-cases, ok_injective}
use mender_artifact.Artifact.ChecksumStore.{
  ChecksumStore, new_checksum_store, get_and_mark, read_raw,
}
use mender_artifact.Artifact.ChecksumStore.Vouched.{
  Vouched, Vouched-new, get_and_mark-Vouched, read_raw-Vouched,
}
use mender_artifact.Artifact.Compressor.{new_compressor_from_file_name}
use mender_artifact.Tar.{Body, Entry, Tar, entry, eof, broken, In}
use mender_artifact.Reader.{Environment, Reader, Read}
use mender_artifact.Reader.Header.{bytes_of, read_next}
use mender_artifact.Reader.Header.Frame.{read_header_archive-Checked}
use mender_artifact.Reader.Headers.{verify_version}
use mender_artifact.Reader.Artifact.{file_info_name, read_v2_header, read_header_v2, next_in_v2}

read_next_lem :
    (t : Tar) (elem b : Bytes) (rest : Tar)
    → read_next t elem ≡ ok (b, rest)
    → (e : Entry) × (t ≡ entry e rest)
unfolding read_next
read_next_lem eof elem b rest h = cc
read_next_lem broken elem b rest h = cc
read_next_lem (entry e t) elem b rest h = (e, ground arith)

pub next_in_v2_lem :
    (x : Environment) (t : Tar) (e : Entry) (rest : Tar)
    → next_in_v2 x t ≡ ok (e, rest)
    → t ≡ entry e rest
unfolding next_in_v2
next_in_v2_lem x eof e rest h = cc
next_in_v2_lem x broken e rest h = cc
next_in_v2_lem x (entry f t) e rest h = cc

module _ (x : Environment) (version : Bytes) where
  -- The header's entry, the reader before it, and how that reader's manifest came about.
  SignedOrNot : Tar → Tar → Reader → Type 0
  SignedOrNot t rest ar' =
      (h : Entry) × (ar2 : Reader) × (c : ChecksumStore) × (text : Bytes) × (read_v2_header x
          version (file_info_name h) h.body ar2
        ≡ ok ar')
      × (read_raw text new_checksum_store ≡ ok c)
      × ((ar2.manifest ≡ c) ⊎ (verify_version x version c ≡ ok ar2.manifest))
      × In h t
      × ((f : Entry) → In f rest → In f t)

  -- The header's reader ran last, on an entry of the archive.
  settled :
      (t rest t3 : Tar) (ar' ar1 ar2 : Reader) (c : ChecksumStore) (text : Bytes) (h : Entry)
      → read_v2_header x version (file_info_name h) h.body ar2 ≡ ok ar1
      → ◌≡◌ {A = Read (Reader × Tar)} (ok (ar1, t3)) (ok (ar', rest))
      → read_raw text new_checksum_store ≡ ok c
      → (ar2.manifest ≡ c) ⊎ (verify_version x version c ≡ ok ar2.manifest)
      → In h t
      → ((f : Entry) → In f t3 → In f t)
      → SignedOrNot t rest ar'
  unfolding SignedOrNot
  settled t rest t3 ar' ar1 ar2 c text h read same raw before i later =
      let pair = ok_injective same in
      (
        h,
        ar2,
        c,
        text,
        read ∙ ap (λ p. ok p.0) pair,
        raw,
        before,
        i,
        λ f j. later f (subst (In f) (sym (ap (λ p. p.1) pair)) j),
      )

  -- The signature was read: the version is checked and the next entry is the header.
  signed_header :
      (t t1 t2 rest : Tar) (ar0 ar' : Reader) (c : ChecksumStore) (text : Bytes) (e : Entry)
      → read_next t (codes "manifest") ≡ ok (text, t1)
      → read_raw text new_checksum_store ≡ ok c
      → next_in_v2 x t1 ≡ ok (e, t2)
      → eqb (file_info_name e) (codes "manifest.sig") ≡ true
      → ((f : Entry) → In f t2 → In f t)
      → read_header_v2 x version t ar0 ≡ ok (ar', rest)
      → SignedOrNot t rest ar'
  unfolding read_header_v2
  signed_header t t1 t2 rest ar0 ar' c text e first raw second is later h =
      elim (Result-cases (verify_version x version c)) [
        | inr (e', failed) ↦ ground (arith, first, raw, second, is, failed)
        | inl (c', good) ↦ elim (Result-cases (next_in_v2 x t2)) [
          | inr (e', failed) ↦ ground (arith, first, raw, second, is, good, failed)
          | inl ((g, t3), third) ↦
              let t2_is = next_in_v2_lem x t2 g t3 third in
              let start : Reader = record ar0 { is_signed = true; manifest = c' } in
              elim (Result-cases (read_v2_header x version (file_info_name g) g.body start)) [
                | inr (e', failed) ↦ ground (arith, first, raw, second, is, good, third, failed)
                | inl (ar1, read) ↦
                    settled t rest t3 ar' ar1 start c text g read
                      (ground (arith, first, raw, second, is, good, third, read)) raw (inr good)
                      (later g (subst (In g) (sym t2_is) (inl refl)))
                      (λ f i. later f (subst (In f) (sym t2_is) (inr i)))
              ]
        ]
      ]

  header_v2_lem :
      (t rest : Tar) (ar0 ar' : Reader)
      → read_header_v2 x version t ar0 ≡ ok (ar', rest)
      → SignedOrNot t rest ar'
  unfolding read_header_v2
  header_v2_lem t rest ar0 ar' h = elim (Result-cases (read_next t (codes "manifest"))) [
    | inr (e, failed) ↦ ground (arith, failed)
    | inl ((text, t1), first) ↦ elim (Result-cases (read_raw text new_checksum_store)) [
      | inr (e, failed) ↦ ground (arith, first, failed)
      | inl (c, raw) ↦ elim (Result-cases (next_in_v2 x t1)) [
        | inr (e, failed) ↦ ground (arith, first, raw, failed)
        | inl ((e, t2), second) ↦
            let (m, t_is) = read_next_lem t (codes "manifest") text t1 first in
            let t1_is = next_in_v2_lem x t1 e t2 second in
            let later : (f : Entry) → In f (entry e t2) → In f t =
              λ f i. subst (In f) (sym t_is) (inr (subst (In f) (sym t1_is) i)) in
            let start : Reader = record ar0 { manifest = c } in
            elim (Bool-cases (eqb (file_info_name e) (codes "manifest.sig"))) [
              | inl is ↦
                  signed_header t t1 t2 rest ar0 ar' c text e first raw second is
                    (λ f i. later f (inr i)) h
              | inr other ↦
                  elim (Result-cases (read_v2_header x version (file_info_name e) e.body start)) [
                    | inr (e', failed) ↦ ground (arith, first, raw, second, other, failed)
                    | inl (ar1, read) ↦
                        settled t rest t2 ar' ar1 start c text e read
                          (ground (arith, first, raw, second, other, read)) raw (inl refl)
                          (later e (inl refl)) (λ f i. later f (inr i))
                  ]
            ]
      ]
    ]
  ]

module _ (x : Environment) (version : Bytes) (Q : Bytes → Bytes → Type 0)
    (v : Q (codes "version") version) where
  version-Vouched :
      (c c' : ChecksumStore)
      → verify_version x version c ≡ ok c'
      → Vouched x.sha256 Q c
      → Vouched x.sha256 Q c'
  unfolding verify_version
  version-Vouched c c' h u = elim (Result-cases (get_and_mark (codes "version") c)) [
    | inr (e, missing) ↦ ground (arith, missing)
    | inl ((sum, d), marked) ↦
        let same : d ≡ c' = ground (arith, marked) in
        subst (Vouched x.sha256 Q) same (
          get_and_mark-Vouched x.sha256 Q (codes "version") c u marked
            (version, v, ground (arith, marked)))
  ]

  header-Vouched :
      (name : Bytes) (body : Body) (ar ar' : Reader)
      → Q name (bytes_of body)
      → read_v2_header x version name body ar ≡ ok ar'
      → Vouched x.sha256 Q ar.manifest
      → Vouched x.sha256 Q ar'.manifest
  unfolding read_v2_header
  header-Vouched name body ar ar' q h u = elim (Result-cases (get_and_mark name ar.manifest)) [
    | inr (e, missing) ↦ ground (arith, missing)
    | inl ((sum, c), marked) ↦ elim (Result-cases (verify_version x version c)) [
      | inr (e, failed) ↦ ground (arith, marked, failed)
      | inl (c', good) ↦
          let comp = new_compressor_from_file_name name in
          let start : Reader = record ar { manifest = c'; compressor = some comp } in
          let done =
            read_header_archive-Checked x sum comp body start ar' (ground (arith, marked, good)) in
          subst (Vouched x.sha256 Q) (sym done.same_manifest) (
            version-Vouched c c' good (
              get_and_mark-Vouched x.sha256 Q name ar.manifest u marked
                (bytes_of body, q, done.checksum)))
    ]
  ]

  pub read_header_v2-Vouched :
      (t rest : Tar) (ar ar' : Reader)
      → ((e : Entry) → In e t → Q (file_info_name e) (bytes_of e.body))
      → read_header_v2 x version t ar ≡ ok (ar', rest)
      → Vouched x.sha256 Q ar'.manifest × ((f : Entry) → In f rest → In f t)
  unfolding SignedOrNot
  read_header_v2-Vouched t rest ar ar' q h =
      let (g, ar2, c, text, read, raw, before, i, later) =
        header_v2_lem x version t rest ar ar' h in
      let at_start =
        read_raw-Vouched x.sha256 Q text new_checksum_store (Vouched-new x.sha256 Q) raw in
      let at_header : Vouched x.sha256 Q ar2.manifest = elim before [
        | inl same ↦ subst (Vouched x.sha256 Q) (sym same) at_start
        | inr good ↦ version-Vouched c ar2.manifest good at_start
      ] in
      (header-Vouched (file_info_name g) g.body ar2 ar' (q g i) read at_header, later)
