-- ===== src/Reader/Path.antt =====
-- The functions of areader/reader.go that find a payload's number in the name of an entry.
pub mod RoundTrip
use mender_artifact.Prelude.{
  ℕ, ◌≤◌, ◌<◌, not, ◌||◌, ◌∷◌, List, [], ◌++◌, Option, none, some, Bytes, codes, eqb, split,
  trim_suffix, length, ltb, ◌==◌, if◌then◌else◌,
}
use mender_artifact.Prelude.Result.{Result, ok, err, ◌>>=◌, or_err}
use mender_artifact.Prelude.Decimal.{ℤ, atoi}
use mender_artifact.Prelude.FilePath.{base}

pub data PathError : Type 0 where
  no_payload_order : PathError
  bad_number : PathError
  malformed_manifest_entry : Bytes → PathError
  not_four_digits : Bytes → PathError

-- The second of at least three components.
header_number : List Bytes → Result PathError ℤ
header_number (first ∷ number ∷ third ∷ rest) = or_err (atoi number) PathError.bad_number
header_number _ = err no_payload_order

-- `getUpdateNoFromHeaderPath`: `headers/0000/file`.
unfoldable pub get_update_no_from_header_path : Bytes → Result PathError ℤ
unfolding header_number
get_update_no_from_header_path path = header_number (split path b'/')

-- `getUpdateNoFromDataPath`: `0000.tar` with the compressor's extension.
unfoldable pub get_update_no_from_data_path : Bytes → Bytes → Result PathError ℤ
get_update_no_from_data_path extension path =
    or_err (atoi (trim_suffix (base path) (codes ".tar" ++ extension))) PathError.bad_number

manifest_number : Bytes → List Bytes → Result PathError (ℤ × Bytes)
manifest_number path (directory ∷ number ∷ file ∷ []) =
    if not (eqb directory (codes "data"))
    then err (malformed_manifest_entry path)
    else if not (length number == 4)
    then err (not_four_digits path)
    else (or_err (atoi number) PathError.bad_number >>= λ index. ok (index, file))
manifest_number path _ = err (malformed_manifest_entry path)

-- `getUpdateNoFromManifestPath`: `data/0000/file`.
unfoldable pub get_update_no_from_manifest_path : Bytes → Result PathError (ℤ × Bytes)
unfolding manifest_number
get_update_no_from_manifest_path path = manifest_number path (split path b'/')
