-- ===== src/Writer/Sign.antt =====
-- `SignExisting` of awriter/signer.go: the entries that it writes for those that it reads. The key is
-- there, and writes do not fail. `io.Copy` reads a body to its end; the manifest is read by one `Read`,
-- which may deliver less than there is, and is then refused.
pub mod Reading
pub mod Signed
pub mod Resign
use mender_artifact.Prelude.{
  ℕ, length, ◌==◌, Bool, true, false, List, [], ◌∷◌, ◌++◌, Option, Bytes, codes, eqb,
}
use mender_artifact.Prelude.Result.{Result, ok, err, ◌>>=◌, ◌>>◌, guard, or_err}
use mender_artifact.Tar.{Body, full, cut, ended, Entry, Tar, entry, eof, broken}
use mender_artifact.Handlers.Compose.{stream_entry}

pub data SignError : Type 0 where
  header_not_read size_mismatch not_copied : SignError
  already_existing_signature manifest_not_found not_signed : SignError

-- `sign` is the key's answer to a message in this run; a key that draws random numbers, as ECDSA does,
-- answers otherwise in another run, which is to say with another `sign`. A message that is signed twice in
-- one run, which takes an archive with two manifests of the same text, has one answer here. `one_read` is how many of the
-- bytes of a manifest the source delivers to the one `Read`.
module _ (sign : Bytes → Option Bytes) (one_read : Bytes → ℕ) where
  -- `signManifestAndOutputSignature`: with the whole of the text at hand, the entry again, and the signature of its bytes.
  unfoldable pub sign_manifest_and_output_signature : Entry → Result SignError (List Entry)
  sign_manifest_and_output_signature e = elim e.body [
    | cut text ↦ err size_mismatch
    | ended text ↦ err size_mismatch
    | full text ↦ (do
      guard (one_read text == length text) size_mismatch
      sig ← or_err (sign text) not_signed
      ok (e ∷ stream_entry (codes "manifest.sig") sig ∷ []))
  ]

  -- The header and the body again.
  copy_entry : Entry → Result SignError Entry
  copy_entry e = elim e.body [
    | full text ↦ ok e
    | cut text ↦ err not_copied
    | ended text ↦ err not_copied
  ]

  -- The loop: whether it found the manifest, and what it wrote.
  unfoldable pub sign_entries : Bool → Tar → Result SignError (Bool × List Entry)
  unfolding sign_manifest_and_output_signature copy_entry
  sign_entries overwrite eof = ok (false, [])
  sign_entries overwrite broken = err header_not_read
  sign_entries overwrite (entry e t) = elim (eqb e.name (codes "manifest")) [
    | true ↦ (do
      signed ← sign_manifest_and_output_signature e
      (found, es) ← sign_entries overwrite t
      ok (true, signed ++ es))
    | false ↦ elim (eqb e.name (codes "manifest.sig")) [
      | true ↦ elim overwrite [
        | true ↦ sign_entries overwrite t
        | false ↦ err already_existing_signature
      ]
      | false ↦ (do
        copied ← copy_entry e
        (found, es) ← sign_entries overwrite t
        ok (found, copied ∷ es))
    ]
  ]

  -- `SignExisting`.
  unfoldable pub sign_existing : Bool → Tar → Result SignError (List Entry)
  unfolding sign_entries
  sign_existing overwrite t = do
    (found, es) ← sign_entries overwrite t
    guard found manifest_not_found
    ok es
