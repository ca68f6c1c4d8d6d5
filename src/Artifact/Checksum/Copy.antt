-- ===== src/Artifact/Checksum/Copy.antt =====
-- Copying through the reader of artifact/checksum.go delivers a text exactly if its hash is the
-- expected one.
use mender_artifact.Prelude.{
  ℕ, zero, suc, ◌+◌, ◌<◌, List, [], ◌∷◌, ◌++◌, Option, none, some, ◌≡◌, refl, arith, ap, ◌∙◌, Bytes,
  eqb, if◌then◌else◌, length, append_assoc, append-nil,
}
use mender_artifact.Prelude.Result.{Result, ok, err}
use mender_artifact.Artifact.Checksum.{
  ChecksumError, read_failed, invalid_checksum, Chunk, got, got_eof, failed, hex_encode,
  new_reader_checksum, copy,
}

abbrev pub prepend : Bytes → Option Bytes → Option Bytes
prepend s none = none
prepend s (some t) = some (s ++ t)

-- The bytes that the chunks spell up to `io.EOF`; `none` if the reader fails before.
abbrev pub contents : List Chunk → Option Bytes
contents [] = some []
contents (got p ∷ ks) = prepend p (contents ks)
contents (got_eof p ∷ ks) = some p
contents (failed p ∷ ks) = none

prepend-append : (s t : Bytes) (o : Option Bytes) → prepend (s ++ t) o ≡ prepend s (prepend t o)
prepend-append s t none = refl
prepend-append s t (some u) = ap some (append_assoc s t u)

module _ (sha256 : Bytes → Bytes) where
  -- What a checked copy of this text returns.
  abbrev pub checked : Bytes → Option Bytes → Result ChecksumError Bytes
  checked sum none = err read_failed
  checked sum (some t) =
      if eqb sum (hex_encode (sha256 t))
      then ok t
      else err (invalid_checksum sum (hex_encode (sha256 t)))

  copy-checked :
      (ks : List Chunk) (fuel : ℕ) (sum out : Bytes)
      → length ks < fuel
      → copy sha256 fuel out (record { w = none; h = some out; r = some ks; c = sum })
        ≡ some (checked sum (prepend out (contents ks)))
  unfolding copy
  copy-checked ks zero sum out h = absurd (omega arith)
  copy-checked [] (suc fuel) sum out h = ground (arith, append-nil out)
  copy-checked (got p ∷ ks) (suc fuel) sum out h =
      copy-checked ks fuel sum (out ++ p) (omega arith)
      ∙ ap (λ o. some (checked sum o)) (prepend-append out p (contents ks))
  copy-checked (got_eof p ∷ ks) (suc fuel) sum out h = ground arith
  copy-checked (failed p ∷ ks) (suc fuel) sum out h = ground arith

  prepend-nil : (o : Option Bytes) → prepend [] o ≡ o
  prepend-nil none = refl
  prepend-nil (some t) = refl

  -- `io.Copy` through `NewReaderChecksum` ends after at most one read for each chunk and one more.
  -- It delivers the whole text if the reader reaches `io.EOF` and the hexadecimal SHA-256 of all
  -- that it returned is the expected sum; if the hash is another, the error names both; if the
  -- reader fails first, so does the copy.
  pub copy-new_reader_checksum :
      (ks : List Chunk) (sum : Bytes)
      → copy sha256 (length ks + 1) [] (new_reader_checksum (some ks) sum)
        ≡ some (checked sum (contents ks))
  unfolding new_reader_checksum
  copy-new_reader_checksum ks sum =
      copy-checked ks (length ks + 1) sum [] (omega arith)
      ∙ ap (λ o. some (checked sum o)) (prepend-nil (contents ks))
