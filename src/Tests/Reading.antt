-- ===== src/Tests/Reading.antt =====
-- The theorems on reading, on the sample archives.
use mender_artifact.Prelude.{
  Bytes, ℕ, ◌≢◌, inl, inr, ap, subst, Bool-cases, true, false, List, [], ◌∷◌, some, ◌≡◌, refl,
  codes, eqb,
}
use mender_artifact.Prelude.Result.{ok}
use mender_artifact.Prelude.Dict.{lookup}
use mender_artifact.Artifact.ChecksumStore.{get}
use mender_artifact.Artifact.ChecksumStore.Marks.{contains}
use mender_artifact.Artifact.ChecksumStore.Vouched.{HasBytes}
use mender_artifact.Artifact.Checksum.{Chunk, got, got_eof, copy, new_reader_checksum}
use mender_artifact.Artifact.Checksum.Copy.{checked, contents, copy-new_reader_checksum}
use mender_artifact.Tar.{Body, full, Entry, Tar, In}
use mender_artifact.Artifact.Compressor.{Compressor}
use mender_artifact.Handlers.{Installer}
use mender_artifact.Reader.Header.{bytes_of}
use mender_artifact.Reader.Artifact.{file_info_name}
use mender_artifact.Reader.Data.{at_end}
use mender_artifact.Reader.{new_reader}
use mender_artifact.Reader.Grammar.{artifact_v3_parse_grammar}
use mender_artifact.Reader.Grammar.Sound.{Member}
use mender_artifact.Reader.Headers.Run.{then, names, read_v3_entries-Member}
use mender_artifact.Reader.Headers.Signed.{StartsSigned, read_v3_entries-StartsSigned}
use mender_artifact.Reader.Integrity.{Found, read_artifact-HasBytes}
use mender_artifact.Tests.Samples.{
  header_archive, data_archive, environment, storers, artifact, signed_entries, data_entries,
  reader, store, version_3, version_reader,
}
use mender_artifact.Tests.ReaderExamples.{signed_read, artifact_read}

data_sum : get (codes "data/0000/f") (store true true true) ≡ ok (codes "04")
unfolding get lookup eqb
data_sum = refl

-- The files in the archives that open here are whole.
opened-full :
    (comp : Compressor) (body : Body) {inner : Tar} (f : Entry)
    → (environment false).open_tar comp body ≡ some inner
    → In f inner
    → (text : Bytes) × (f.body ≡ full text)
opened-full comp body {inner} f opens i = elim (Bool-cases (eqb (bytes_of body) (codes "hh"))) [
  | inl header ↦
      let same : inner ≡ header_archive = cc (rw header at opens) in
      elim (subst (In f) same i) [
        | inl info ↦ (_, ap (λ g. g.body) info)
        | inr more ↦ elim more [
          | inl type ↦ (_, ap (λ g. g.body) type)
          | inr none_left ↦ absurd none_left
        ]
      ]
  | inr other ↦ elim (Bool-cases (eqb (bytes_of body) (codes "ddd"))) [
    | inl data_file ↦
        let same : inner ≡ data_archive = cc (rw (other, data_file) at opens) in
        elim (subst (In f) same i) [
          | inl only ↦ (_, ap (λ g. g.body) only)
          | inr none_left ↦ absurd none_left
        ]
    | inr closed ↦ cc (rw (other, closed) at opens)
  ]
]

stored :
    (e f : Entry) (comp : Compressor) (inner : Tar) (i : Installer) (number : ℕ)
    → In e artifact
    → (environment false).open_tar comp e.body ≡ some inner
    → In f inner
    → ((storers i number).store (file_info_name f) f.body).1 ≢ at_end
stored e f comp inner i number there opens k ends =
    let (text, whole) = opened-full comp e.body f opens k in
    cc (subst (λ b. ((storers i number).store (file_info_name f) b).1 ≡ at_end) whole ends)

read_artifact-HasBytes_example :
    HasBytes
      (environment false).sha256
      (Found (environment false) storers artifact)
      (codes "data/0000/f")
      (codes "04")
read_artifact-HasBytes_example =
    read_artifact-HasBytes (environment false) storers artifact new_reader
      (reader false true (store true true true) version_3) (codes "data/0000/f") (codes "04") stored
      artifact_read data_sum

read_v3_entries-StartsSigned_example :
    StartsSigned (environment true) (codes "v") signed_entries version_reader.manifest
read_v3_entries-StartsSigned_example =
    read_v3_entries-StartsSigned (environment true) (codes "v") signed_entries version_reader
      (reader true false (store true true false) version_3) data_entries refl refl signed_read

read_v3_entries-Member_example :
    (es : List Entry) × (signed_entries ≡ then es data_entries)
    × Member (names es) artifact_v3_parse_grammar
    × (contains (codes "header-augment.tar.zst") (names es) ≡ false)
read_v3_entries-Member_example =
    read_v3_entries-Member (environment true) (codes "v") signed_entries data_entries version_reader
      (reader true false (store true true false) version_3) signed_read

abbrev chunks : List Chunk
chunks = got (codes "ab") ∷ got_eof (codes "c") ∷ []

copy-new_reader_checksum_example :
    copy (environment false).sha256 3 [] (new_reader_checksum (some chunks) (codes "03"))
    ≡ some (checked (environment false).sha256 (codes "03") (contents chunks))
copy-new_reader_checksum_example =
    copy-new_reader_checksum (environment false).sha256 chunks (codes "03")
