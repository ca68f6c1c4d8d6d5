-- ===== src/Artifact/Compressor.antt =====
-- artifact/compressor.go and the files that register the compressors. What they do to bytes is
-- a parameter of the components that use them; the program itself chooses one by name.
use mender_artifact.Prelude.{
  not, ◌&&◌, List, [], ◌∷◌, Option, none, some, Bytes, codes, eqb, has_suffix, length, ◌==◌,
  if◌then◌else◌,
}

pub data Compressor : Type 0 where
  uncompressed gzip lzma zstd_fastest zstd_fast zstd_better zstd_best : Compressor

-- `GetFileExtension`.
unfoldable pub get_file_extension : Compressor → Bytes
get_file_extension uncompressed = []
get_file_extension gzip = codes ".gz"
get_file_extension lzma = codes ".xz"
get_file_extension _ = codes ".zst"

-- The loop of `NewCompressorFromFileName`, over the registered compressors in the order in which Go
-- happens to walk the map.
unfoldable pub first_match : List Compressor → Bytes → Compressor
first_match [] name = uncompressed
first_match (c ∷ cs) name =
    if not (length (get_file_extension c) == 0) && has_suffix name (get_file_extension c)
    then c
    else first_match cs name

-- `NewCompressorFromFileName`; `registered` is the map as the `init` functions leave it.
abbrev pub registered : List Compressor
registered = uncompressed ∷ gzip ∷ lzma ∷ zstd_fastest ∷ zstd_fast ∷ zstd_better ∷ zstd_best ∷ []

unfoldable pub new_compressor_from_file_name : Bytes → Compressor
unfolding first_match
new_compressor_from_file_name name = first_match registered name

-- `NewCompressorFromId`.
unfoldable pub new_compressor_from_id : Bytes → Option Compressor
new_compressor_from_id id =
    if eqb id (codes "none")
    then some uncompressed
    else if eqb id (codes "gzip")
    then some gzip
    else if eqb id (codes "lzma")
    then some lzma
    else if eqb id (codes "zstd_fastest")
    then some zstd_fastest
    else if eqb id (codes "zstd_fast")
    then some zstd_fast
    else if eqb id (codes "zstd_better")
    then some zstd_better
    else if eqb id (codes "zstd_best")
    then some zstd_best
    else none
