-- ===== src/Artifact/Checksum.antt =====
-- artifact/checksum.go, `Checksum`: a writer that hashes what passes through it, and a reader that
-- compares the hash with an expected one when the stream ends. SHA-256 is not part of the
-- repository: it is the parameter `sha256`.
pub mod Copy
use mender_artifact.Prelude.{
  ℕ, zero, suc, ◌+◌, ◌/◌, ◌%◌, Bool, true, false, List, [], ◌∷◌, ◌++◌, Option, none, some, Bytes,
  eqb, ◌-◌, ◌⊎◌, inl, inr, ltb, if◌then◌else◌, length,
}
use mender_artifact.Prelude.Result.{Result, ok, err}

pub data ChecksumError : Type 0 where
  bad_file : ChecksumError
  read_failed : ChecksumError
  invalid_checksum : Bytes → Bytes → ChecksumError

-- What one `Read` of an `io.Reader` returns: bytes alone, bytes with `io.EOF`, or bytes with
-- another error.
pub data Chunk : Type 0 where
  got got_eof failed : Bytes → Chunk

-- `hex.Encode`.
hex_digit : ℕ → ℕ
hex_digit n = if ltb n 10 then b'0' + n else b'a' + (n - 10)

unfoldable pub hex_encode : Bytes → Bytes
unfolding hex_digit
hex_encode [] = []
hex_encode (b ∷ s) = hex_digit (b / 16) ∷ hex_digit (b % 16) ∷ hex_encode s

-- `w` is what the underlying writer has received, `h` what was hashed, `r` what the underlying
-- reader will still return, `c` the expected checksum; `none` is nil.
pub record Checksum : Type 0 where
  pub w : Option Bytes
  pub h : Option Bytes
  pub r : Option (List Chunk)
  pub c : Bytes

abbrev empty_checksum : Checksum
empty_checksum = record { w = none; h = none; r = none; c = [] }

-- `NewWriterChecksum`.
unfoldable pub new_writer_checksum : Option Bytes → Checksum
new_writer_checksum none = empty_checksum
new_writer_checksum (some w) = record { w = some w; h = some []; r = none; c = [] }

-- `NewReaderChecksum`.
unfoldable pub new_reader_checksum : Option (List Chunk) → Bytes → Checksum
new_reader_checksum none sum = empty_checksum
new_reader_checksum (some r) sum = record { w = none; h = some []; r = some r; c = sum }

hash_more : Bytes → Option Bytes → Option Bytes
hash_more p none = none
hash_more p (some h) = some (h ++ p)

-- `Write`: the hash and the writer receive the same bytes.
unfoldable pub write : Bytes → Checksum → Result ChecksumError (ℕ × Checksum)
unfolding hash_more
write p c = elim c.w [
  | none ↦ err bad_file
  | some w ↦ ok (length p, record c { w = some (w ++ p); h = hash_more p c.h })
]

module _ (sha256 : Bytes → Bytes) where
  -- `Checksum`; with no hash it is the nil slice.
  unfoldable pub checksum : Checksum → Bytes
  unfolding hex_encode
  checksum c = elim c.h [ none ↦ [] | some h ↦ hex_encode (sha256 h) ]

  -- `Verify`.
  unfoldable pub verify : Checksum → Result ChecksumError (Unit {0})
  unfolding checksum
  verify c = if eqb c.c (checksum c) then ok tt else err (invalid_checksum c.c (checksum c))

  -- What `Read` returns for what the underlying reader returned, and the state behind it.
  on_eof : Bytes → Result ChecksumError (Unit {0}) → Chunk ⊎ ChecksumError
  on_eof p (ok _) = inl (got_eof p)
  on_eof p (err e) = inr e

  on_chunk : Chunk → Checksum → (Chunk ⊎ ChecksumError) × Checksum
  on_chunk (got p) c = (inl (got p), record c { h = hash_more p c.h })
  on_chunk (got_eof p) c = let c' = record c { h = hash_more p c.h } in (on_eof p (verify c'), c')
  on_chunk (failed p) c = (inl (failed p), record c { h = hash_more p c.h })

  -- A reader that has nothing left returns `io.EOF` again.
  next_chunk : List Chunk → Chunk × List Chunk
  next_chunk [] = (got_eof [], [])
  next_chunk (k ∷ ks) = (k, ks)

  -- `Read`.
  unfoldable pub read : Checksum → (Chunk ⊎ ChecksumError) × Checksum
  unfolding on_chunk on_eof next_chunk verify hash_more
  read c = elim c.r [
    | none ↦ (inr bad_file, c)
    | some ks ↦ let (k, rest) = next_chunk ks in on_chunk k (record c { r = some rest })
  ]

  -- `io.Copy` from the reader into a buffer, `fuel` reads at most: `none` is out of fuel.
  copy_next :
      Bytes
      → (Chunk ⊎ ChecksumError)
      → Option (Result ChecksumError Bytes)
      → Option (Result ChecksumError Bytes)
  copy_next out (inl (got p)) later = later
  copy_next out (inl (got_eof p)) later = some (ok (out ++ p))
  copy_next out (inl (failed p)) later = some (err read_failed)
  copy_next out (inr e) later = some (err e)

  received : Bytes → (Chunk ⊎ ChecksumError) → Bytes
  received out (inl (got p)) = out ++ p
  received out _ = out

  unfoldable pub copy : ℕ → Bytes → Checksum → Option (Result ChecksumError Bytes)
  unfolding read copy_next received
  copy zero out c = none
  copy (suc fuel) out c =
      let (k, c') = read c in let later = copy fuel (received out k) c' in copy_next out k later
