-- ===== src/Reader/Integrity.antt =====
-- What the success of `ReadArtifact` of areader/reader.go says of the whole artifact: each file of
-- the manifest was found in it, with the manifest's checksum.
use mender_artifact.Prelude.{
  ◌≢◌, ℕ, some, ◌≡◌, ◌⊎◌, inl, inr, sym, subst, arith, Bytes, codes, take, ◌==◌, Bool-cases,
}
use mender_artifact.Prelude.Result.{ok, Result-cases}
use mender_artifact.Prelude.FilePath.{join}
use mender_artifact.Artifact.ChecksumStore.{get}
use mender_artifact.Artifact.ChecksumStore.Vouched.{HasBytes, Vouched}
use mender_artifact.Artifact.Compressor.{Compressor}
use mender_artifact.Artifact.Update.{update_path}
use mender_artifact.Tar.{Entry, Tar, entry, eof, broken, In}
use mender_artifact.Handlers.{Installer}
use mender_artifact.Reader.{Environment, Reader}
use mender_artifact.Reader.Header.{bytes_of, read_next}
use mender_artifact.Reader.Headers.{read_header_v3}
use mender_artifact.Reader.Headers.Integrity.{read_header_v3-Vouched}
use mender_artifact.Reader.Artifact.{
  file_info_name, read_header_v2, read_artifact_headers, decode_version,
}
use mender_artifact.Reader.Artifact.Integrity.{read_header_v2-Vouched}
use mender_artifact.Reader.Data.{at_end, UpdateStorer, read_artifact}
use mender_artifact.Reader.Data.Integrity.{read_artifact_data-HasBytes}

-- Where bytes for a file of the manifest stand in an artifact: the first entry, an entry of this
-- name, or what a storer has read of a file in the archive of an entry.
pub data Found (x : Environment) (storers : Installer → ℕ → UpdateStorer) (t : Tar)
    : Bytes → Bytes → Type 0 where
  of_version :
      (e : Entry) (rest : Tar)
      → t ≡ entry e rest
      → Found x storers t (codes "version") (bytes_of e.body)
  of_entry : (e : Entry) → In e t → Found x storers t e.name (bytes_of e.body)
  of_entry_v2 : (e : Entry) → In e t → Found x storers t (file_info_name e) (bytes_of e.body)
  of_data :
      (e f : Entry) (comp : Compressor) (inner : Tar) (i : Installer) (number : ℕ)
      → In e t
      → x.open_tar comp e.body ≡ some inner
      → In f inner
      → Found x storers t
          (join (update_path number) (file_info_name f))
          (take ((storers i number).store (file_info_name f) f.body).0 (bytes_of f.body))

taken :
    (t : Tar) (elem b : Bytes) (rest : Tar)
    → read_next t elem ≡ ok (b, rest)
    → (e : Entry) × (t ≡ entry e rest) × (bytes_of e.body ≡ b)
unfolding read_next
taken eof elem b rest h = cc
taken broken elem b rest h = cc
taken (entry e t) elem b rest h = (e, ground arith, ground arith)

module _ (x : Environment) (storers : Installer → ℕ → UpdateStorer) where
  Kept : Tar → Tar → Reader → Type 0
  Kept t rest ar' =
      Vouched x.sha256 (Found x storers t) ar'.manifest × ((e : Entry) → In e rest → In e t)

  -- The two versions behind the version's entry.
  by_version :
      (t t1 rest : Tar) (raw : Bytes) (ar ar' : Reader)
      → ((e : Entry) → In e t1 → In e t)
      → Found x storers t (codes "version") raw
      → (read_header_v2 x raw t1 ar ≡ ok (ar', rest))
        ⊎ (read_header_v3 x raw t1 ar ≡ ok (ar', rest))
      → Kept t rest ar'
  unfolding Kept
  by_version t t1 rest raw ar ar' i v (inl h) =
      let (u, later) =
        read_header_v2-Vouched x raw (Found x storers t) v t1 rest ar ar'
          (λ e j. of_entry_v2 e (i e j)) h in
      (u, λ e j. i e (later e j))
  by_version t t1 rest raw ar ar' i v (inr h) =
      let (u, later) =
        read_header_v3-Vouched x raw (Found x storers t) t1 rest ar ar' v
          (λ e j. of_entry e (i e j)) h in
      (u, λ e j. i e (later e j))

  headers_lem :
      (t rest : Tar) (ar ar' : Reader)
      → read_artifact_headers x t ar ≡ ok (ar', rest)
      → Kept t rest ar'
  unfolding read_artifact_headers
  headers_lem t rest ar ar' h = elim (Result-cases (read_next t (codes "version"))) [
    | inr (e, failed) ↦ ground (arith, failed)
    | inl ((raw, t1), first) ↦ elim (Result-cases (decode_version x raw)) [
      | inr (e, failed) ↦ ground (arith, first, failed)
      | inl (info, decoded) ↦
          let (e, t_is, body_is) = taken t (codes "version") raw t1 first in
          let start : Reader = record ar { info = info } in
          by_version t t1 rest raw start ar' (λ f i. subst (In f) (sym t_is) (inr i))
            (subst (Found x storers t (codes "version")) body_is (of_version e t1 t_is))
            (elim (Bool-cases (info.version == 2)) [
              | inl two ↦ inl (ground (arith, first, decoded))
              | inr other ↦ inr (ground (arith, first, decoded))
            ])
    ]
  ]

  -- If `ReadArtifact` succeeds, then every checksum of the manifest is that of bytes found in the
  -- artifact for that file: the version, an entry, or what a storer read of a data file. This is for
  -- storers of which no `StoreUpdate` of a file in the artifact returns an error with the cause `io.EOF`:
  -- behind such an error the reading ends with success before the checksum of the file is compared.
  pub read_artifact-HasBytes :
      (t : Tar) (ar ar' : Reader) (file sum : Bytes)
      → ((e f : Entry) (comp : Compressor) (inner : Tar) (i : Installer) (number : ℕ)
          → In e t
          → x.open_tar comp e.body ≡ some inner
          → In f inner
          → ((storers i number).store (file_info_name f) f.body).1 ≢ at_end)
      → read_artifact x storers t ar ≡ ok ar'
      → get file ar'.manifest ≡ ok sum
      → HasBytes x.sha256 (Found x storers t) file sum
  unfolding read_artifact Kept
  read_artifact-HasBytes t ar ar' file sum stores h found =
      elim (Result-cases (read_artifact_headers x t ar)) [
        | inr (e, failed) ↦ ground (arith, failed)
        | inl ((ar1, rest), headers) ↦
            let (v, later) = headers_lem t rest ar ar1 headers in
            read_artifact_data-HasBytes x (Found x storers t) storers rest ar1 ar' file sum
              (λ e j comp inner i number f opens k. (
                of_data e f comp inner i number (later e j) opens k,
                stores e f comp inner i number (later e j) opens k,
              ))
              v (ground (arith, headers)) found
      ]
