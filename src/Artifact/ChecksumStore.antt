-- ===== src/Artifact/ChecksumStore.antt =====
-- artifact/checksum.go, `ChecksumStore`: the names and checksums of a manifest, with the text that
-- they were read from or will be written as, and a mark for each file that was seen.
pub mod Marks
pub mod Invariant
pub mod Words
pub mod RoundTrip
pub mod Vouched
use mender_artifact.Prelude.{
  ℕ, suc, zero, Bool, true, false, ◌&&◌, List, [], ◌∷◌, ◌++◌, Option, none, some, Bytes, codes,
  length, ◌==◌, if◌then◌else◌, trim_space,
}
use mender_artifact.Prelude.Result.{Result, ok, err, ◌>>=◌, ◌>>◌}
use mender_artifact.Prelude.Dict.{Dict, lookup, insert, bytes_eq}

pub data StoreError : Type 0 where
  exist : StoreError
  checksum_missing : Bytes → StoreError
  malformed_line : Bytes → StoreError

-- `raw` is the buffer, `sums` and `marked` the two maps with the same keys.
pub record ChecksumStore : Type 0 where
  pub raw : Bytes
  pub sums : Dict Bytes Bytes
  pub marked : Dict Bytes Bool

-- `NewChecksumStore`.
abbrev pub new_checksum_store : ChecksumStore
new_checksum_store = record { raw = []; sums = []; marked = [] }

-- `fmt.Sprintf("%s  %s\n", sum, file)`.
unfoldable pub manifest_line : Bytes → Bytes → Bytes
manifest_line sum file = sum ++ (b' ' ∷ b' ' ∷ (file ++ b'\n' ∷ []))

-- `Add`. A write to a buffer in memory does not fail.
unfoldable pub add : Bytes → Bytes → ChecksumStore → Result StoreError ChecksumStore
add file sum c = elim (lookup file c.sums) [
  | some _ ↦ err exist
  | none ↦ ok (record {
    raw = c.raw ++ manifest_line sum file;
    sums = insert file sum c.sums;
    marked = insert file false c.marked;
  })
]

-- `Get`.
unfoldable pub get : Bytes → ChecksumStore → Result StoreError Bytes
get file c = elim (lookup file c.sums) [ some sum ↦ ok sum | none ↦ err (checksum_missing file) ]

-- `GetAndMark`: the sum, and the store with the file marked.
unfoldable pub get_and_mark : Bytes → ChecksumStore → Result StoreError (Bytes × ChecksumStore)
get_and_mark file c = do sum ← get file c; ok (sum, record c { marked = insert file true c.marked })

not_marked : Dict Bytes Bool → List Bytes
not_marked [] = []
not_marked ((file, mark) ∷ m) = if mark then not_marked m else file ∷ not_marked m

-- `FilesNotMarked`.
unfoldable pub files_not_marked : ChecksumStore → List Bytes
unfolding not_marked
files_not_marked c = not_marked c.marked

-- `GetRaw`.
abbrev pub get_raw : ChecksumStore → Bytes
get_raw c = c.raw

-- `strings.Split(s, "  ")`: the parts between occurrences of two spaces, the leftmost first.
unfoldable pub split_two_spaces : Bytes → Bytes → List Bytes
split_two_spaces [] cur = cur ∷ []
split_two_spaces (a ∷ []) cur = (cur ++ a ∷ []) ∷ []
split_two_spaces (a ∷ b ∷ s) cur = elim (a == b' ' && b == b' ') [
  | true ↦ cur ∷ split_two_spaces s []
  | false ↦ split_two_spaces (b ∷ s) (cur ++ a ∷ [])
]

-- Exactly two chunks, or the line is malformed.
two_chunks : Bytes → List Bytes → ChecksumStore → Result StoreError ChecksumStore
two_chunks line (sum ∷ file ∷ []) c = add file sum c
two_chunks line _ c = err (malformed_line line)

-- `readChecksums`, on one line with its newline.
unfoldable pub read_checksums : Bytes → ChecksumStore → Result StoreError ChecksumStore
unfolding two_chunks split_two_spaces
read_checksums line c =
    let trimmed = trim_space line in
    if length trimmed == 0 then ok c else two_chunks line (split_two_spaces trimmed []) c

-- The loop of `ReadRaw`: `line` is what `ReadString` has read of the current line. What stands
-- behind the last newline comes with `io.EOF` and is dropped.
unfoldable pub read_lines : Bytes → Bytes → ChecksumStore → Result StoreError ChecksumStore
read_lines [] line c = ok c
read_lines (b ∷ rest) line c = elim (b == b'\n') [
  | true ↦ read_checksums (line ++ b ∷ []) c >>= (λ c'. read_lines rest [] c')
  | false ↦ read_lines rest (line ++ b ∷ []) c
]

-- `ReadRaw`.
unfoldable pub read_raw : Bytes → ChecksumStore → Result StoreError ChecksumStore
unfolding read_lines
read_raw text c = read_lines text [] c
