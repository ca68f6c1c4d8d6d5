-- ===== src/Artifact/Update.antt =====
-- artifact/update.go: where payload `number` stands in the archive.
use mender_artifact.Prelude.{ℕ, ◌++◌, Bytes, codes}
use mender_artifact.Prelude.Decimal.{format_padded}
use mender_artifact.Prelude.FilePath.{join}

abbrev pub header_directory : Bytes
header_directory = codes "headers"

abbrev pub data_directory : Bytes
data_directory = codes "data"

-- `UpdatePath`.
unfoldable pub update_path : ℕ → Bytes
update_path number = join data_directory (format_padded number)

-- `UpdateHeaderPath`.
unfoldable pub update_header_path : ℕ → Bytes
update_header_path number = join header_directory (format_padded number)

-- `UpdateDataPath`.
unfoldable pub update_data_path : ℕ → Bytes
update_data_path number = join data_directory (format_padded number ++ codes ".tar")
